-- ===== src/Poll.antt =====
-- udpCode_spring26_v3/pollLib.c: the set of sockets that `pollCall` waits on, with `sCalloc` and
-- `srealloc` of safeUtil.c.
-- A `struct pollfd` is what the library writes into it; `revents` is what one call of `poll` answers,
-- a list with a number for each entry that it was given. `calloc`, `realloc` and `poll` are
-- parameters. A socket is a number that is not negative.
pub mod Grow
pub mod Watched
pub mod First
pub mod Ready
pub mod Manual
mod Tests
use cpe_networking_rejective.Prelude.{
  ℕ, zero, suc, ◌+◌, ◌-◌, ◌*◌, ◌/◌, ◌%◌, ◌^◌, ◌≤◌, ◌<◌, min, max, ◌≡◌, refl, sym, subst, ap, ap₂,
  ◌∙◌, ◌≢◌, ◌↔◌, ◌⊎◌, inl, inr, Bool, true, false, not, ◌&&◌, ◌||◌, Option, none, some, List, [],
  ◌∷◌, ◌++◌, append_assoc, append-nil, arith, mod-lt, mod-eq_of_lt, dec_lt, ℕ_discrete, ltb, leb,
  ◌==◌, if◌then◌else◌, ltb→lt, lt→ltb, leb→le, ==_iff, ==_true, Bool-cases, Option-cases, length,
  get_or, set, take, drop, replicate, All, length-append, length-set, length-replicate, length-take,
  length-drop, take-all, drop-all, take-append, drop-append, get_or-set_self, get_or-set_ne,
  get_or-replicate, All-append, All-take, All-imp, u32, Bytes, mod_window,
}
use cpe_networking_rejective.Prelude.Int.{ℤ, pos, negsuc}
use cpe_networking_rejective.Outcome.{Outcome, returns, exits, ◌>>=◌, minus_one}

pub record PollFd : Type 0 where
  pub fd : ℕ
  pub events : ℕ

pub record PollSet : Type 0 where
  pub file_descriptors : List PollFd
  pub max_file_descriptor : ℕ
  pub current_poll_set_size : ℕ

abbrev pub poll_set_size : ℕ
poll_set_size = 10

-- POLLIN of <poll.h>.
abbrev pub pollin : ℕ
pollin = 1

-- An entry of zeros.
abbrev pub no_fd : PollFd
no_fd = record { fd = 0; events = 0 }

-- The C library's allocation of arrays: `none` is NULL.
pub record Memory (A : Type 0) : Type 0 where
  pub calloc : ℕ → A → Option (List A)
  pub realloc : List A → ℕ → Option (List A)

module _ {A : Type 0} where
  -- `zero` is the entry whose bytes are all zero.
  unfoldable pub s_calloc : Memory A → ℕ → A → Outcome (List A)
  s_calloc memory nmemb zero_entry = elim (memory.calloc nmemb zero_entry) [
    | none ↦ exits minus_one
    | some block ↦ returns block
  ]

  unfoldable pub s_realloc : Memory A → List A → ℕ → Outcome (List A)
  s_realloc memory block size = elim (memory.realloc block size) [
    | none ↦ exits minus_one
    | some moved ↦ returns moved
  ]

-- The `for` loop of `growPollSet`, with `count` entries to go.
unfoldable pub zero_out : ℕ → ℕ → List PollFd → List PollFd
zero_out zero i fds = fds
zero_out (suc count) i fds = zero_out count (suc i) (set fds i no_fd)

-- The globals before any call.
abbrev pub no_poll_set : PollSet
no_poll_set = record { file_descriptors = []; max_file_descriptor = 0; current_poll_set_size = 0 }

-- The rest of `addToPollSet`, after the set is large enough.
unfoldable pub enter : ℕ → PollSet → PollSet
enter socket_number s = record s {
  max_file_descriptor =
      if leb s.max_file_descriptor (socket_number + 1)
      then socket_number + 1
      else s.max_file_descriptor;
  file_descriptors =
      set s.file_descriptors socket_number (record { fd = socket_number; events = pollin });
}

module _ (memory : Memory PollFd) where
  -- `maxFileDescriptor` is left as it is.
  unfoldable pub setup_poll_set : PollSet → Outcome PollSet
  unfolding s_calloc
  setup_poll_set s = do
    block ← s_calloc memory poll_set_size no_fd
    returns (record s { file_descriptors = block; current_poll_set_size = poll_set_size })

  unfoldable pub grow_poll_set : ℕ → PollSet → Outcome PollSet
  unfolding s_realloc
  grow_poll_set new_set_size s =
      if leb new_set_size s.current_poll_set_size then exits minus_one else do
        moved ← s_realloc memory s.file_descriptors new_set_size
        returns (record s {
          file_descriptors =
              zero_out (new_set_size - s.current_poll_set_size) s.current_poll_set_size moved;
          current_poll_set_size = new_set_size;
        })

  unfoldable pub add_to_poll_set : ℕ → PollSet → Outcome PollSet
  add_to_poll_set socket_number s = do
    grown ←
        (if leb s.current_poll_set_size socket_number
          then grow_poll_set (socket_number + poll_set_size) s
          else returns s)
    returns (enter socket_number grown)

-- The number is not compared with the size of the array: `none` is a write outside of it.
unfoldable pub remove_from_poll_set : ℕ → PollSet → Option PollSet
remove_from_poll_set socket_number s =
    if ltb socket_number (length s.file_descriptors)
    then some (record s { file_descriptors = set s.file_descriptors socket_number no_fd })
    else none

-- The `for` loop of `pollCall` over the `revents` from entry `i` on: -1 if none is positive.
unfoldable pub first_ready : ℕ → List ℕ → ℤ
first_ready i [] = minus_one
first_ready i (revents ∷ later) =
    let rest = first_ready (suc i) later in if ltb 0 revents then pos i else rest

-- `poll fds time` is the value that `poll` returns, and its `revents` of each of `fds`.
unfoldable pub poll_call : (List PollFd → ℤ → ℤ × List ℕ) → ℤ → PollSet → Outcome ℤ
unfolding first_ready
poll_call poll time_in_milliseconds s =
    let (poll_value, revents) =
      poll (take s.max_file_descriptor s.file_descriptors) time_in_milliseconds in
    elim poll_value [
      | negsuc n ↦ exits minus_one
      | pos zero ↦ returns minus_one
      | pos (suc n) ↦ returns (first_ready 0 revents)
    ]
