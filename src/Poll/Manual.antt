-- ===== src/Poll/Manual.antt =====
-- An allocation and a `poll` that do what their manuals say: the hypotheses of the theorems on
-- udpCode_spring26_v3/pollLib.c can be met.
use cpe_networking_rejective.Prelude.{
  ℕ, zero, suc, ◌<◌, ◌≡◌, refl, subst, ap, inl, inr, Bool, true, false, some, List, [], ◌∷◌, arith,
  ltb, if◌then◌else◌, Bool-cases, length, get_or, replicate, length-replicate,
}
use cpe_networking_rejective.Prelude.Int.{ℤ, pos}
use cpe_networking_rejective.Poll.{PollFd, Memory, no_fd}
use cpe_networking_rejective.Poll.Grow.{IsMemory}
use cpe_networking_rejective.Poll.Ready.{has_event, IsPoll}

-- `realloc` leaves garbage behind the old entries.
abbrev pub garbage : PollFd
garbage = record { fd = 99; events = 99 }

abbrev pub resized : List PollFd → ℕ → List PollFd
resized [] n = replicate n garbage
resized (x ∷ xs) zero = []
resized (x ∷ xs) (suc n) = x ∷ resized xs n

length-resized : (xs : List PollFd) (n : ℕ) → length (resized xs n) ≡ n
length-resized [] n = length-replicate n garbage
length-resized (x ∷ xs) zero = refl
length-resized (x ∷ xs) (suc n) = ap suc (length-resized xs n)

resized_keeps :
    (xs : List PollFd) (n i : ℕ)
    → i < length xs
    → i < n
    → get_or (resized xs n) i no_fd ≡ get_or xs i no_fd
resized_keeps [] n i h k = absurd (omega arith)
resized_keeps (x ∷ xs) zero i h k = absurd (omega arith)
resized_keeps (x ∷ xs) (suc n) zero h k = refl
resized_keeps (x ∷ xs) (suc n) (suc i) h k = resized_keeps xs n i (omega arith) (omega arith)

abbrev pub plenty : Memory PollFd
plenty = record { calloc = λ n a. some (replicate n a); realloc = λ xs n. some (resized xs n) }

some_injective : {A : Type 0} {a b : A} → some a ≡ some b → a ≡ b
some_injective e = cc

pos_injective : {a b : ℕ} → pos a ≡ pos b → a ≡ b
pos_injective e = cc

pub plenty-IsMemory : IsMemory plenty
plenty-IsMemory = record {
  calloc_zeros = λ n a block e. cc;
  realloc_length =
      λ xs n moved e. subst (λ l. length l ≡ n) (some_injective e) (length-resized xs n);
  realloc_keeps = λ xs n moved i e h k.
      subst (λ l. get_or l i no_fd ≡ get_or xs i no_fd) (some_injective e)
        (resized_keeps xs n i h k);
}

-- A `poll` that answers as the manual says.
module _ (readable broken : ℕ → Bool) where
  abbrev pub revents_of : List PollFd → List ℕ
  revents_of [] = []
  revents_of (e ∷ fds) = (if has_event readable broken e then 1 else 0) ∷ revents_of fds

  abbrev pub count_of : List PollFd → ℕ
  count_of [] = 0
  count_of (e ∷ fds) = if has_event readable broken e then suc (count_of fds) else count_of fds

  abbrev pub manual_poll : List PollFd → ℤ → ℤ × List ℕ
  manual_poll fds time = (pos (count_of fds), revents_of fds)

  length-revents_of : (fds : List PollFd) → length (revents_of fds) ≡ length fds
  length-revents_of [] = refl
  length-revents_of (e ∷ fds) = ap suc (length-revents_of fds)

  get_or-revents_of :
      (fds : List PollFd) (i : ℕ)
      → i < length fds
      → ltb 0 (get_or (revents_of fds) i 0) ≡ has_event readable broken (get_or fds i no_fd)
  get_or-revents_of [] i h = absurd (omega arith)
  get_or-revents_of (e ∷ fds) zero h = ground arith
  get_or-revents_of (e ∷ fds) (suc i) h = get_or-revents_of fds i (omega arith)

  count_of_none :
      (fds : List PollFd) (i : ℕ)
      → count_of fds ≡ 0
      → i < length fds
      → has_event readable broken (get_or fds i no_fd) ≡ false
  count_of_none [] i e h = absurd (omega arith)
  count_of_none (f ∷ fds) zero e h = ground arith
  count_of_none (f ∷ fds) (suc i) e h = count_of_none fds i (ground arith) (omega arith)

  count_of_some :
      (fds : List PollFd)
      → 0 < count_of fds
      → (i : ℕ) × (i < length fds) × (has_event readable broken (get_or fds i no_fd) ≡ true)
  count_of_some [] h = absurd (omega arith)
  count_of_some (f ∷ fds) h = elim (Bool-cases (has_event readable broken f)) [
    | inl here ↦ (0, omega arith, here)
    | inr not_here ↦
        let (i, inside, there) = count_of_some fds (ground arith) in (suc i, omega arith, there)
  ]

  pub manual_poll-IsPoll : IsPoll readable broken manual_poll
  manual_poll-IsPoll = record {
    answers = λ fds time. length-revents_of fds;
    events = λ fds time. get_or-revents_of fds;
    counts_none = λ fds time i e. count_of_none fds i (pos_injective e);
    counts_some = λ fds time n e. count_of_some fds (omega (arith, pos_injective e));
  }
