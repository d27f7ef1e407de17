-- ===== src/Poll/Ready.antt =====
-- udpCode_spring26_v3/pollLib.c: which socket `pollCall` returns.
use cpe_networking_rejective.Prelude.{
  ℕ, zero, suc, ◌<◌, ◌≡◌, refl, sym, subst, ap, ◌∙◌, ◌⊎◌, inl, inr, Bool, true, false, ◌&&◌, ◌||◌,
  List, [], ◌∷◌, arith, ltb, ◌==◌, if◌then◌else◌, length, get_or, take, length-take,
}
use cpe_networking_rejective.Prelude.Int.{ℤ, pos, negsuc}
use cpe_networking_rejective.Outcome.{Outcome, returns, exits, minus_one}
use cpe_networking_rejective.Poll.{PollFd, PollSet, no_fd, pollin, first_ready, poll_call}
use cpe_networking_rejective.Poll.Watched.{Watches, entry_of}
use cpe_networking_rejective.Poll.First.{First, first_ready-First}

-- `poll` has an event for an entry: input, if the entry asks for it, or an error or a hang-up, which
-- no entry can switch off.
abbrev pub has_event : (ℕ → Bool) → (ℕ → Bool) → PollFd → Bool
has_event readable broken e = (e.events == pollin && readable e.fd) || broken e.fd

-- What the manual says of `poll`, while the descriptors of `readable` have input and those of
-- `broken` have failed or hung up.
pub record IsPoll (readable broken : ℕ → Bool) (poll : List PollFd → ℤ → ℤ × List ℕ) : Type 0 where
  pub answers : (fds : List PollFd) (time : ℤ) → length (poll fds time).1 ≡ length fds
  pub events :
      (fds : List PollFd) (time : ℤ) (i : ℕ)
      → i < length fds
      → ltb 0 (get_or (poll fds time).1 i 0) ≡ has_event readable broken (get_or fds i no_fd)
  pub counts_none :
      (fds : List PollFd) (time : ℤ) (i : ℕ)
      → (poll fds time).0 ≡ pos 0
      → i < length fds
      → has_event readable broken (get_or fds i no_fd) ≡ false
  pub counts_some :
      (fds : List PollFd) (time : ℤ) (n : ℕ)
      → (poll fds time).0 ≡ pos (suc n)
      → (i : ℕ) × (i < length fds) × (has_event readable broken (get_or fds i no_fd) ≡ true)

-- How `pollCall` ends when each event is one of a socket of the set, where `poll` returns `value`: by
-- the lowest socket with an event, by -1 if none has one, or in an exit if `poll` fails.
abbrev pub Lowest : (ℕ → Bool) → (ℕ → Bool) → (ℕ → Bool) → ℤ → Outcome ℤ → Type 0
Lowest readable broken w value (exits code) = (code ≡ minus_one) × ((n : ℕ) × (value ≡ negsuc n))
Lowest readable broken w value (returns (negsuc n)) =
    (n ≡ 0) × ((i : ℕ) → w i ≡ true → (readable i || broken i) ≡ false)
Lowest readable broken w value (returns (pos i)) =
    (w i ≡ true)
    × ((readable i || broken i) ≡ true)
    × ((j : ℕ) → j < i → w j ≡ true → (readable j || broken j) ≡ false)

-- What `poll` is given.
abbrev pub polled_entries : PollSet → List PollFd
polled_entries s = take s.max_file_descriptor s.file_descriptors

get_or-take :
    {A : Type 0} (n : ℕ) (xs : List A) (i : ℕ) (d : A)
    → i < n
    → get_or (take n xs) i d ≡ get_or xs i d
get_or-take zero xs i d h = absurd (omega arith)
get_or-take (suc n) [] i d h = refl
get_or-take (suc n) (x ∷ xs) zero d h = refl
get_or-take (suc n) (x ∷ xs) (suc i) d h = get_or-take n xs i d (omega arith)

module _ (readable broken : ℕ → Bool) (poll : List PollFd → ℤ → ℤ × List ℕ)
    (law : IsPoll readable broken poll) (w : ℕ → Bool) (s : PollSet) (h : Watches w s)
    (time : ℤ) where
  length-polled_entries : length (polled_entries s) ≡ s.max_file_descriptor
  length-polled_entries =
      omega (arith, length-take s.max_file_descriptor s.file_descriptors, h.sized, h.top_bound)

  polled_entry :
      (i : ℕ) → i < s.max_file_descriptor → get_or (polled_entries s) i no_fd ≡ entry_of w i
  polled_entry i lt = get_or-take s.max_file_descriptor s.file_descriptors i no_fd lt ∙ h.entries i

  -- Entry i stands for an event: on the socket i, or on descriptor 0, if i is no socket.
  abbrev event_at : ℕ → Bool
  event_at i = if w i then readable i || broken i else broken 0

  has_event-entry_of : (i : ℕ) → has_event readable broken (entry_of w i) ≡ event_at i
  has_event-entry_of i = ground arith

  revents_at :
      (i : ℕ)
      → i < s.max_file_descriptor
      → ltb 0 (get_or (poll (polled_entries s) time).1 i 0) ≡ event_at i
  revents_at i lt =
      law.events (polled_entries s) time i (omega (arith, length-polled_entries))
      ∙ ap (has_event readable broken) (polled_entry i lt)
      ∙ has_event-entry_of i

  -- How `pollCall` ends: by the lowest entry with an event, by -1 if there is none, or in an exit if
  -- `poll` fails.
  abbrev Polled : Outcome ℤ → Type 0
  Polled (exits code) =
      (code ≡ minus_one) × ((n : ℕ) × ((poll (polled_entries s) time).0 ≡ negsuc n))
  Polled (returns (negsuc n)) = (n ≡ 0) × ((i : ℕ) → i < s.max_file_descriptor → event_at i ≡ false)
  Polled (returns (pos i)) =
      (i < s.max_file_descriptor) × (event_at i ≡ true) × ((j : ℕ) → j < i → event_at j ≡ false)

  First-Polled : (z : ℤ) → First 0 (poll (polled_entries s) time).1 z → Polled (returns z)
  First-Polled (pos i) (k, e, inside, here, before) =
      let len = law.answers (polled_entries s) time in
      let lt : k < s.max_file_descriptor = omega (arith, length-polled_entries, len, inside) in
      let same : i ≡ k = omega (arith, e) in
      rw same (
        lt,
        sym (revents_at k lt) ∙ here,
        λ j below. sym (revents_at j (omega arith)) ∙ before j below,
      )
  First-Polled (negsuc n) (e, none_of) =
      let len = law.answers (polled_entries s) time in
      (e, λ i lt. sym (revents_at i lt) ∙ none_of i (omega (arith, length-polled_entries, len)))

  none-Polled :
      (poll (polled_entries s) time).0 ≡ pos 0
      → (i : ℕ) → i < s.max_file_descriptor
      → event_at i ≡ false
  none-Polled e i lt =
      sym (has_event-entry_of i)
      ∙ sym (ap (has_event readable broken) (polled_entry i lt))
      ∙ law.counts_none (polled_entries s) time i e (omega (arith, length-polled_entries))

  -- How `pollCall` goes on after `poll` has returned.
  abbrev after_poll : ℤ → Outcome ℤ
  after_poll (negsuc n) = exits minus_one
  after_poll (pos zero) = returns minus_one
  after_poll (pos (suc n)) = returns (first_ready 0 (poll (polled_entries s) time).1)

  poll_call-after_poll :
      (v : ℤ) → (poll (polled_entries s) time).0 ≡ v → poll_call poll time s ≡ after_poll v
  unfolding poll_call
  poll_call-after_poll (negsuc n) e = rw (e, poll_call) refl
  poll_call-after_poll (pos zero) e = rw (e, poll_call) refl
  poll_call-after_poll (pos (suc n)) e = rw (e, poll_call) refl

  after_poll-Polled : (v : ℤ) → (poll (polled_entries s) time).0 ≡ v → Polled (after_poll v)
  after_poll-Polled (negsuc n) e = (refl, (n, e))
  after_poll-Polled (pos zero) e = (refl, none-Polled e)
  after_poll-Polled (pos (suc n)) e =
      First-Polled (first_ready 0 (poll (polled_entries s) time).1)
        (first_ready-First 0 (poll (polled_entries s) time).1)

  -- TEXT
  pub poll_call-Polled : Polled (poll_call poll time s)
  poll_call-Polled =
      subst Polled (sym (poll_call-after_poll (poll (polled_entries s) time).0 refl))
        (after_poll-Polled (poll (polled_entries s) time).0 refl)

  Polled-Lowest :
      broken 0 ≡ false
      → (r : Outcome ℤ) → Polled r
      → Lowest readable broken w (poll (polled_entries s) time).0 r
  Polled-Lowest fine (exits code) p = p
  Polled-Lowest fine (returns (negsuc n)) (e, none_of) =
      (e, λ i member. ground (arith, none_of i (h.below i member)))
  Polled-Lowest fine (returns (pos i)) (lt, event, before) =
      (ground arith, ground arith, λ j below member. ground (arith, before j below))

  -- When the poll set watches a set of sockets, `poll` does as its manual says, and the standard
  -- input has not failed or hung up: `pollCall` returns the lowest socket of the set that has an
  -- event, or -1 if none has one, or exits with -1 if `poll` fails.
  pub poll_call-Lowest :
      broken 0 ≡ false
      → Lowest readable broken w (poll (polled_entries s) time).0 (poll_call poll time s)
  poll_call-Lowest fine = Polled-Lowest fine (poll_call poll time s) poll_call-Polled

  Polled-broken_stdin :
      (i : ℕ)
      → w i ≡ true
      → w 0 ≡ false
      → broken 0 ≡ true
      → (r : Outcome ℤ) → Polled r
      → (r ≡ returns (pos 0)) ⊎ (r ≡ exits minus_one)
  Polled-broken_stdin i member absent down (exits code) (e, f) = inr (ap exits e)
  Polled-broken_stdin i member absent down (returns (negsuc n)) (e, none_of) =
      let quiet = none_of 0 (omega (arith, h.below i member)) in ground arith
  Polled-broken_stdin i member absent down (returns (pos zero)) p = inl refl
  Polled-broken_stdin i member absent down (returns (pos (suc k))) (lt, event, before) =
      let quiet = before 0 (omega arith) in ground arith

  -- When the poll set watches some socket but not descriptor 0, `poll` does as its manual says, and
  -- the standard input has failed or hung up, `pollCall` returns 0, which is no socket of the set,
  -- or exits with -1 if `poll` fails; it does so whatever events the sockets have.
  pub poll_call-broken_stdin :
      (i : ℕ)
      → w i ≡ true
      → w 0 ≡ false
      → broken 0 ≡ true
      → (poll_call poll time s ≡ returns (pos 0)) ⊎ (poll_call poll time s ≡ exits minus_one)
  poll_call-broken_stdin i member absent down =
      Polled-broken_stdin i member absent down (poll_call poll time s) poll_call-Polled
