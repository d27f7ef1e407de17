-- ===== src/Poll/Grow.antt =====
-- udpCode_spring26_v3/pollLib.c: what `growPollSet` leaves in the array.
use cpe_networking_rejective.Prelude.{
  ℕ, zero, suc, ◌+◌, ◌-◌, ◌≤◌, ◌<◌, ◌≡◌, refl, sym, ◌∙◌, ◌⊎◌, inl, inr, false, none, some, List, [],
  ◌∷◌, arith, dec_lt, leb, Option-cases, length, get_or, set, replicate, length-set,
  get_or-set_self, get_or-set_ne,
}
use cpe_networking_rejective.Outcome.{Outcome, returns, exits, ◌>>=◌, minus_one}
use cpe_networking_rejective.Poll.{
  PollFd, PollSet, Memory, poll_set_size, no_fd, zero_out, grow_poll_set, s_realloc,
}

-- What the C library promises of `calloc` and `realloc`: zeros, and as many of the old entries as fit.
pub record IsMemory (memory : Memory PollFd) : Type 0 where
  pub calloc_zeros :
      (n : ℕ) (zero_entry : PollFd) (block : List PollFd)
      → memory.calloc n zero_entry ≡ some block
      → block ≡ replicate n zero_entry
  pub realloc_length :
      (block : List PollFd) (n : ℕ) (moved : List PollFd)
      → memory.realloc block n ≡ some moved
      → length moved ≡ n
  pub realloc_keeps :
      (block : List PollFd) (n : ℕ) (moved : List PollFd) (i : ℕ)
      → memory.realloc block n ≡ some moved
      → i < length block
      → i < n
      → get_or moved i no_fd ≡ get_or block i no_fd

-- An allocation that gives NULL: the first array, or a longer one for the same entries.
abbrev pub Denies : Memory PollFd → Type 0
Denies memory =
    (memory.calloc poll_set_size no_fd ≡ none)
    ⊎ ((block : List PollFd) × (n : ℕ) × (length block < n) × (memory.realloc block n ≡ none))

-- A call has returned with a value of `P`, or the process has ended with code -1 on a NULL.
abbrev pub Ends : {A : Type 0} → Memory PollFd → (A → Type 0) → Outcome A → Type 0
Ends memory P (returns s) = P s
Ends memory P (exits code) = (code ≡ minus_one) × Denies memory

pub bind-Ends :
    {A B : Type 0}
    → (memory : Memory PollFd) (P : A → Type 0) (Q : B → Type 0) (m : Outcome A) (f : A → Outcome B)
    → Ends memory P m
    → ((s : A) → P s → Ends memory Q (f s))
    → Ends memory Q (m >>= f)
bind-Ends memory P Q (returns s) f h k = k s h
bind-Ends memory P Q (exits code) f h k = h

pub Ends-imp :
    (memory : Memory PollFd) (P Q : PollSet → Type 0) (m : Outcome PollSet)
    → Ends memory P m
    → ((s : PollSet) → P s → Q s)
    → Ends memory Q m
Ends-imp memory P Q (returns s) h k = k s h
Ends-imp memory P Q (exits code) h k = h

length-zero_out : (count i : ℕ) (fds : List PollFd) → length (zero_out count i fds) ≡ length fds
unfolding zero_out
length-zero_out zero i fds = refl
length-zero_out (suc count) i fds =
    length-zero_out count (suc i) (set fds i no_fd) ∙ length-set fds i no_fd

zero_out_before :
    (count i j : ℕ) (fds : List PollFd)
    → j < i
    → get_or (zero_out count i fds) j no_fd ≡ get_or fds j no_fd
unfolding zero_out
zero_out_before zero i j fds h = refl
zero_out_before (suc count) i j fds h =
    zero_out_before count (suc i) j (set fds i no_fd) (omega arith)
    ∙ get_or-set_ne fds i j no_fd no_fd (λ e. absurd (omega (arith, e)))

pub get_or_beyond : {A : Type 0} (xs : List A) (i : ℕ) (d : A) → length xs ≤ i → get_or xs i d ≡ d
get_or_beyond [] i d h = refl
get_or_beyond (x ∷ xs) zero d h = absurd (omega arith)
get_or_beyond (x ∷ xs) (suc i) d h = get_or_beyond xs i d (omega arith)

zero_out_after :
    (count i j : ℕ) (fds : List PollFd)
    → i ≤ j
    → length fds ≤ i + count
    → get_or (zero_out count i fds) j no_fd ≡ no_fd
unfolding zero_out
zero_out_after zero i j fds h k = get_or_beyond fds j no_fd (omega arith)
zero_out_after (suc count) i j fds h k = elim (dec_lt i j) [
  | yes lt ↦
      zero_out_after count (suc i) j (set fds i no_fd) (omega arith)
        (omega (arith, length-set fds i no_fd))
  | no ge ↦
      let e : j ≡ i = omega arith in
      rw e (
        zero_out_before count (suc i) i (set fds i no_fd) (omega arith)
        ∙ elim (dec_lt i (length fds)) [
          | yes inside ↦ get_or-set_self fds i no_fd no_fd inside
          | no outside ↦
              get_or_beyond (set fds i no_fd) i no_fd (omega (arith, length-set fds i no_fd))
        ])
]

module _ {A : Type 0} (memory : Memory A) (block : List A) (size : ℕ) where
  s_realloc-none : memory.realloc block size ≡ none → s_realloc memory block size ≡ exits minus_one
  unfolding s_realloc
  s_realloc-none e = rw (e, s_realloc) refl

  s_realloc-some :
      (moved : List A)
      → memory.realloc block size ≡ some moved
      → s_realloc memory block size ≡ returns moved
  unfolding s_realloc
  s_realloc-some moved e = rw (e, s_realloc) refl

-- A set whose array has as many entries as it says; every entry is as before or zero.
pub record Grown (s : PollSet) (new_set_size : ℕ) (t : PollSet) : Type 0 where
  pub sized : length t.file_descriptors ≡ new_set_size
  pub size : t.current_poll_set_size ≡ new_set_size
  pub top : t.max_file_descriptor ≡ s.max_file_descriptor
  pub entries : (i : ℕ) → get_or t.file_descriptors i no_fd ≡ get_or s.file_descriptors i no_fd

pub grow_poll_set-Grown :
    {memory : Memory PollFd}
    → IsMemory memory
    → (new_set_size : ℕ) (s : PollSet) → length s.file_descriptors ≡ s.current_poll_set_size
    → s.current_poll_set_size < new_set_size
    → Ends memory (Grown s new_set_size) (grow_poll_set memory new_set_size s)
unfolding grow_poll_set
grow_poll_set-Grown {memory} law n s full more =
    let larger : leb n s.current_poll_set_size ≡ false = ground arith in
    elim (Option-cases (memory.realloc s.file_descriptors n)) [
      | inl null ↦ rw larger (
          rw (s_realloc-none memory s.file_descriptors n null)
            (refl, inr (s.file_descriptors, n, omega (arith, full), null)))
      | inr (moved, e) ↦ rw larger (
          rw (s_realloc-some memory s.file_descriptors n moved e) (
            let long = law.realloc_length s.file_descriptors n moved e in
            let count = n - s.current_poll_set_size in
            record {
              sized = length-zero_out count s.current_poll_set_size moved ∙ long;
              size = refl;
              top = refl;
              entries = λ i. elim (dec_lt i s.current_poll_set_size) [
                | yes inside ↦
                    zero_out_before count s.current_poll_set_size i moved inside
                    ∙ law.realloc_keeps s.file_descriptors n moved i e (omega arith) (omega arith)
                | no outside ↦
                    zero_out_after count s.current_poll_set_size i moved (omega arith) (omega arith)
                    ∙ sym (get_or_beyond s.file_descriptors i no_fd (omega arith))
              ];
            }))
    ]
