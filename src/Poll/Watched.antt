-- ===== src/Poll/Watched.antt =====
-- udpCode_spring26_v3/pollLib.c: the poll set as a set of sockets.
use cpe_networking_rejective.Prelude.{
  ℕ, ◌+◌, ◌≤◌, ◌<◌, ◌≡◌, refl, sym, subst, ◌∙◌, inl, inr, Bool, true, false, Option, none, some,
  List, [], ◌∷◌, arith, dec_lt, leb, ◌==◌, if◌then◌else◌, leb→le, Bool-cases, Option-cases, length,
  get_or, set, length-set, get_or-set_self, get_or-set_ne, get_or-replicate,
}
use cpe_networking_rejective.Outcome.{Outcome, returns, ◌>>=◌}
use cpe_networking_rejective.Poll.{
  PollFd, PollSet, Memory, no_fd, pollin, no_poll_set, poll_set_size, enter, setup_poll_set,
  s_calloc, grow_poll_set, add_to_poll_set, remove_from_poll_set,
}
use cpe_networking_rejective.Poll.Grow.{
  IsMemory, Ends, bind-Ends, Ends-imp, Grown, grow_poll_set-Grown,
}

-- Calls of the library after `setupPollSet`.
pub data Op : Type 0 where
  add : ℕ → Op
  remove : ℕ → Op

-- `none` is a write outside of the array.
unfoldable pub run_ops : Memory PollFd → List Op → PollSet → Outcome (Option PollSet)
run_ops memory [] s = returns (some s)
run_ops memory (add n ∷ ops) s = add_to_poll_set memory n s >>= run_ops memory ops
run_ops memory (remove n ∷ ops) s = elim (remove_from_poll_set n s) [
  | none ↦ returns none
  | some t ↦ run_ops memory ops t
]

-- How long the array is after `addToPollSet`, if it is `size` long before.
abbrev pub grown_size : ℕ → ℕ → ℕ
grown_size n size = if leb size n then n + poll_set_size else size

-- Each number that is removed is below the length that the array has then.
abbrev pub AreInside : ℕ → List Op → Type 0
AreInside size [] = Unit {0}
AreInside size (add n ∷ ops) = AreInside (grown_size n size) ops
AreInside size (remove n ∷ ops) = (n < size) × AreInside size ops

-- The sockets that such calls leave in a set.
abbrev pub watched_after : List Op → (ℕ → Bool) → ℕ → Bool
watched_after [] w = w
watched_after (add n ∷ ops) w = watched_after ops (λ i. if i == n then true else w i)
watched_after (remove n ∷ ops) w = watched_after ops (λ i. if i == n then false else w i)

abbrev pub nothing : ℕ → Bool
nothing i = false

abbrev pub entry_of : (ℕ → Bool) → ℕ → PollFd
entry_of w i = if w i then record { fd = i; events = pollin } else no_fd

-- The poll set watches the sockets of `w`: socket i has the entry i, the entries of other numbers are
-- zero, and `poll` is given all entries of the sockets, which lie in the array.
pub record Watches (w : ℕ → Bool) (s : PollSet) : Type 0 where
  pub sized : length s.file_descriptors ≡ s.current_poll_set_size
  pub top_bound : s.max_file_descriptor ≤ s.current_poll_set_size
  pub below : (i : ℕ) → w i ≡ true → i < s.max_file_descriptor
  pub entries : (i : ℕ) → get_or s.file_descriptors i no_fd ≡ entry_of w i

pub set_entry :
    (n : ℕ) (b : Bool) (w : ℕ → Bool) (fds : List PollFd)
    → n < length fds
    → ((i : ℕ) → get_or fds i no_fd ≡ entry_of w i)
    → (i : ℕ)
    → get_or (set fds n (entry_of (λ i. if i == n then b else w i) n)) i no_fd
      ≡ entry_of (λ i. if i == n then b else w i) i
set_entry n b w fds inside same i = elim (dec_lt i n) [
  | yes lt ↦ get_or-set_ne fds n i _ no_fd (λ e. absurd (omega (arith, e))) ∙ ground (arith, same i)
  | no ge ↦ elim (dec_lt n i) [
    | yes lt ↦
        get_or-set_ne fds n i _ no_fd (λ e. absurd (omega (arith, e))) ∙ ground (arith, same i)
    | no le ↦ let e : i ≡ n = omega arith in rw e (get_or-set_self fds n _ no_fd inside)
  ]
]

enter-Watches :
    (n : ℕ) (w : ℕ → Bool) (s : PollSet)
    → n < s.current_poll_set_size
    → Watches w s
    → Watches (λ i. if i == n then true else w i) (enter n s)
unfolding enter
enter-Watches n w s inside h =
    let self : (if n == n then true else w n) ≡ true = ground arith in
    let placed = set_entry n true w s.file_descriptors (omega (arith, h.sized)) h.entries in
    record {
      sized = length-set s.file_descriptors n _ ∙ h.sized;
      top_bound = ground (arith, h.top_bound);
      below = λ i e. ground (arith, h.below i);
      entries = rw self at placed;
    }

remove-Watches :
    (n : ℕ) (w : ℕ → Bool) (s : PollSet)
    → n < s.current_poll_set_size
    → Watches w s
    → (t : PollSet) × (remove_from_poll_set n s ≡ some t)
      × (t.current_poll_set_size ≡ s.current_poll_set_size)
      × Watches (λ i. if i == n then false else w i) t
unfolding remove_from_poll_set
remove-Watches n w s inside h =
    let self : (if n == n then false else w n) ≡ false = ground arith in
    let cleared = set_entry n false w s.file_descriptors (omega (arith, h.sized)) h.entries in
    (
      record s { file_descriptors = set s.file_descriptors n no_fd },
      ground (arith, inside, h.sized),
      refl,
      record {
        sized = length-set s.file_descriptors n no_fd ∙ h.sized;
        top_bound = h.top_bound;
        below = λ i e. h.below i (ground arith);
        entries = rw self at cleared;
      },
    )

Grown-Watches :
    (w : ℕ → Bool) (s : PollSet) (new_set_size : ℕ) (t : PollSet)
    → s.current_poll_set_size < new_set_size
    → Watches w s
    → Grown s new_set_size t
    → Watches w t × (t.current_poll_set_size ≡ new_set_size)
Grown-Watches w s n t more h g = (
  record {
    sized = g.sized ∙ sym g.size;
    top_bound = omega (arith, h.top_bound, g.size, g.top);
    below = λ i e. omega (arith, h.below i e, g.top);
    entries = λ i. g.entries i ∙ h.entries i;
  },
  g.size,
)

-- No write was outside of the array, and the set watches the sockets of `w`.
abbrev pub Keeps : (ℕ → Bool) → Option PollSet → Type 0
Keeps w none = ⊥
Keeps w (some s) = Watches w s

module _ (memory : Memory PollFd) (law : IsMemory memory) where
  add_to_poll_set-Watches :
      (n : ℕ) (w : ℕ → Bool) (s : PollSet)
      → Watches w s
      → Ends memory
          (λ t.
            Watches (λ i. if i == n then true else w i) t
            × (t.current_poll_set_size ≡ grown_size n s.current_poll_set_size))
          (add_to_poll_set memory n s)
  unfolding add_to_poll_set enter
  add_to_poll_set-Watches n w s h =
      let size = n + poll_set_size in
      bind-Ends memory
        (λ t.
          Watches w t
          × (n < t.current_poll_set_size)
          × (t.current_poll_set_size ≡ grown_size n s.current_poll_set_size))
        (λ t.
          Watches (λ i. if i == n then true else w i) t
          × (t.current_poll_set_size ≡ grown_size n s.current_poll_set_size))
        (if leb s.current_poll_set_size n then grow_poll_set memory size s else returns s)
        (λ t. returns (enter n t))
        (elim (Bool-cases (leb s.current_poll_set_size n)) [
          | inl full ↦ rw full (
              Ends-imp memory _ _ (grow_poll_set memory size s)
                (grow_poll_set-Grown law size s h.sized
                  (omega (arith, leb→le s.current_poll_set_size n full)))
                (λ t g.
                  let r =
                    Grown-Watches w s size t (omega (arith, leb→le s.current_poll_set_size n full))
                      h g in
                  (r.0, omega (arith, r.1), r.1)))
          | inr free ↦ rw free (h, ground arith, refl)
        ])
        (λ t r. (enter-Watches n w t r.1 r.0, r.2))

  pub add-Watches :
      (n : ℕ) (w : ℕ → Bool) (s : PollSet)
      → Watches w s
      → Ends memory (Watches (λ i. if i == n then true else w i)) (add_to_poll_set memory n s)
  add-Watches n w s h =
      Ends-imp memory _ _ (add_to_poll_set memory n s) (add_to_poll_set-Watches n w s h)
        (λ t r. r.0)

  run_ops-remove :
      (n : ℕ) (ops : List Op) (s t : PollSet)
      → remove_from_poll_set n s ≡ some t
      → run_ops memory (remove n ∷ ops) s ≡ run_ops memory ops t
  unfolding run_ops
  run_ops-remove n ops s t e = ground (arith, e)

  run_ops-Keeps :
      (ops : List Op) (w : ℕ → Bool) (s : PollSet)
      → AreInside s.current_poll_set_size ops
      → Watches w s
      → Ends memory (Keeps (watched_after ops w)) (run_ops memory ops s)
  unfolding run_ops
  run_ops-Keeps [] w s inside h = h
  run_ops-Keeps (add n ∷ ops) w s inside h =
      bind-Ends memory _ _ (add_to_poll_set memory n s) (run_ops memory ops)
        (add_to_poll_set-Watches n w s h)
        (λ t r. run_ops-Keeps ops _ t (subst (λ k. AreInside k ops) (sym r.1) inside) r.0)
  run_ops-Keeps (remove n ∷ ops) w s inside h =
      let (t, e, size, h') = remove-Watches n w s inside.0 h in
      subst (Ends memory (Keeps (watched_after (remove n ∷ ops) w)))
        (sym (run_ops-remove n ops s t e))
        (run_ops-Keeps ops _ t (subst (λ k. AreInside k ops) (sym size) inside.1) h')

  setup_poll_set-Watches :
      Ends memory
        (λ s. Watches nothing s × (s.current_poll_set_size ≡ poll_set_size))
        (setup_poll_set memory no_poll_set)
  unfolding setup_poll_set s_calloc
  setup_poll_set-Watches = elim (Option-cases (memory.calloc poll_set_size no_fd)) [
    | inl null ↦ rw (null, s_calloc) (refl, inl null)
    | inr (block, e) ↦
        rw (e, s_calloc)
          (rw (law.calloc_zeros poll_set_size no_fd block e) (
            record {
              sized = refl;
              top_bound = omega arith;
              below = λ i x. cc;
              entries = λ i. get_or-replicate poll_set_size no_fd i;
            },
            refl,
          ))
  ]

  pub setup-Watches : Ends memory (Watches nothing) (setup_poll_set memory no_poll_set)
  setup-Watches =
      Ends-imp memory _ _ (setup_poll_set memory no_poll_set) setup_poll_set-Watches (λ s r. r.0)

  -- After `setupPollSet` and any sequence of `addToPollSet` and `removeFromPollSet` in which each
  -- number that is removed is below the size that the array has then, with a `calloc` that gives
  -- zeros and a `realloc` that keeps the entries, the poll set is the set of the sockets that were
  -- added and not removed since: each has its own entry with POLLIN, all other entries are zero,
  -- and `poll` is given every entry of a socket; no removal has written outside of the array. The
  -- process has ended, with code -1, only if an allocation gave NULL: the test of `growPollSet`
  -- never ends it.
  pub poll_set-Watches :
      (ops : List Op)
      → AreInside poll_set_size ops
      → Ends memory
          (Keeps (watched_after ops nothing))
          (setup_poll_set memory no_poll_set >>= run_ops memory ops)
  poll_set-Watches ops inside =
      bind-Ends memory _ _ (setup_poll_set memory no_poll_set) (run_ops memory ops)
        setup_poll_set-Watches
        (λ s h. run_ops-Keeps ops nothing s (subst (λ k. AreInside k ops) (sym h.1) inside) h.0)
