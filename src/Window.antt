-- ===== src/Window.antt =====
-- udpCode_spring26_v3/Window.h and Window.c: the sender window, a circular array of the packets
-- that were sent and not yet acknowledged.
-- A function that updates `*window` returns the new window. `entry` is the array that `calloc`
-- returned, `entry[spot]` is read by `get_or` and written by `set`. Of the array `packet` of an entry
-- only the first `packet_len` bytes are kept, since no function reads the others.
pub mod Slots
pub mod Invariant
pub mod Release
mod Tests
use cpe_networking_rejective.Prelude.{
  ℕ, zero, suc, ◌+◌, ◌-◌, ◌%◌, Bool, true, false, ◌&&◌, Option, none, some, List, [], ltb, ◌==◌,
  if◌then◌else◌, get_or, set, take, replicate, u32,
}

pub record WindowEntry : Type 0 where
  pub seq : ℕ
  pub packet_len : ℕ
  pub used : ℕ
  pub packet : List ℕ

pub record Window : Type 0 where
  pub entry : List WindowEntry
  pub size : ℕ
  pub lower : ℕ
  pub current : ℕ
  pub upper : ℕ

-- An entry as `calloc` leaves it.
abbrev pub zeroed : WindowEntry
zeroed = record { seq = 0; packet_len = 0; used = 0; packet = [] }

-- `calloc n` tells if the allocation of `n` entries succeeds; without it the process exits.
unfoldable pub window_init : (ℕ → Bool) → ℕ → ℕ → Option Window
window_init calloc size start_seq =
    if calloc size
    then some (record {
      entry = replicate size zeroed;
      size = size;
      lower = start_seq;
      current = start_seq;
      upper = u32 (start_seq + size);
    })
    else none

-- True is the result 1.
unfoldable pub window_open : Window → Bool
window_open w = if ltb w.current w.upper then true else false

unfoldable pub window_empty : Window → Bool
window_empty w = if w.lower == w.current then true else false

unfoldable pub window_add : Window → ℕ → List ℕ → ℕ → Window
window_add w seq packet packet_len =
    let spot = seq % w.size in
    let saved : WindowEntry = record {
      seq = seq;
      packet_len = packet_len;
      used = 1;
      packet = take packet_len packet;
    } in
    record w {
      entry = set w.entry spot saved;
      current = if seq == w.current then u32 (w.current + 1) else w.current;
    }

-- A pointer into the window is the entry that it points to: callers read it at once.
unfoldable pub window_find : Window → ℕ → Option WindowEntry
window_find w seq =
    let e = get_or w.entry (seq % w.size) zeroed in
    if e.used == 1 && e.seq == seq then some e else none

-- The loop of `window_lowest`. The fuel is the number of sequence numbers that are left.
unfoldable pub lowest_from : ℕ → Window → ℕ → Option WindowEntry
lowest_from zero w seq = none
lowest_from (suc fuel) w seq =
    let next = lowest_from fuel w (u32 (seq + 1)) in
    if ltb seq w.current then elim (window_find w seq) [ some e ↦ some e | none ↦ next ] else none

unfoldable pub window_lowest : Window → Option WindowEntry
window_lowest w = lowest_from (suc (w.current - w.lower)) w w.lower

-- The body of the first loop of `window_rr`.
unfoldable pub release : Window → ℕ → Window
release w seq =
    let spot = seq % w.size in
    let e = get_or w.entry spot zeroed in
    if e.seq == seq then record w { entry = set w.entry spot (record e { used = 0 }) } else w

-- `while (seq < rr_seq && seq < window->current)`
unfoldable pub release_from : ℕ → Window → ℕ → ℕ → Window
release_from zero w seq rr_seq = w
release_from (suc fuel) w seq rr_seq =
    let rest = release_from fuel (release w seq) (u32 (seq + 1)) rr_seq in
    if ltb seq rr_seq && ltb seq w.current then rest else w

abbrev pub is_none {ℓ} : {A : Type ℓ} → Option A → Bool
is_none none = true
is_none (some a) = false

-- `while (window->lower < window->current && window_find(window, window->lower) == NULL)`
unfoldable pub advance : ℕ → Window → Window
advance zero w = w
advance (suc fuel) w =
    let rest = advance fuel (record w { lower = u32 (w.lower + 1) }) in
    if ltb w.lower w.current && is_none (window_find w w.lower) then rest else w

-- Both loops have fuel for the whole window: see `Release`.
unfoldable pub window_rr : Window → ℕ → Window
window_rr w rr_seq =
    let fuel = suc (w.current - w.lower) in
    let cleared = release_from fuel w w.lower rr_seq in
    let moved = advance fuel cleared in record moved { upper = u32 (moved.lower + moved.size) }
