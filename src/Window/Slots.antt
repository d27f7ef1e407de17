-- ===== src/Window/Slots.antt =====
-- Window.c: what `window_find` finds after one entry is written or released.
use cpe_networking_rejective.Prelude.{
  ℕ, ◌%◌, ◌<◌, ◌≡◌, ap, none, some, List, arith, mod-lt, ℕ_discrete, ◌==◌, if◌then◌else◌, length,
  get_or, set, take, length-set, get_or-set_self, get_or-set_ne,
}
use cpe_networking_rejective.Window.{Window, WindowEntry, zeroed, window_add, window_find, release}

-- The circular array has a slot for every remainder.
pub record IsArray (w : Window) : Type 0 where
  pub pos : 0 < w.size
  pub len : length w.entry ≡ w.size

pub spot-lt : (w : Window) (s : ℕ) → IsArray w → s % w.size < length w.entry
spot-lt w s h = omega (arith, mod-lt s {m = w.size} h.pos)

unfoldable pub saved_entry : ℕ → List ℕ → ℕ → WindowEntry
saved_entry seq packet n = record { seq = seq; packet_len = n; used = 1; packet = take n packet }

-- After `window_add` the packet is found, one that had its slot is not, and all others are as before.
pub window_find-window_add :
    (w : Window) (seq : ℕ) (packet : List ℕ) (n s : ℕ)
    → IsArray w
    → window_find (window_add w seq packet n) s ≡ (
        if s == seq
        then some (saved_entry seq packet n)
        else if s % w.size == seq % w.size
        then none
        else window_find w s)
unfolding window_find window_add saved_entry
window_find-window_add w seq packet n s h = elim (ℕ_discrete (seq % w.size) (s % w.size)) [
  | yes e ↦ ground (
    arith,
    e,
    ap (λ i. get_or (set w.entry (seq % w.size) (saved_entry seq packet n)) i zeroed) e,
    get_or-set_self w.entry (seq % w.size) (saved_entry seq packet n) zeroed (spot-lt w seq h),
  )
  | no ne ↦ ground (
    arith,
    get_or-set_ne w.entry (seq % w.size) (s % w.size) (saved_entry seq packet n) zeroed ne,
  )
]

-- `release` forgets its packet and no other.
pub window_find-release :
    (w : Window) (seq s : ℕ)
    → IsArray w
    → window_find (release w seq) s ≡ (if s == seq then none else window_find w s)
unfolding window_find release
window_find-release w seq s h =
    let e = get_or w.entry (seq % w.size) zeroed in
    let e' : WindowEntry = record e { used = 0 } in
    elim (ℕ_discrete (seq % w.size) (s % w.size)) [
      | yes q ↦ ground (
        arith,
        q,
        ap (λ i. get_or (set w.entry (seq % w.size) e') i zeroed) q,
        ap (λ i. get_or w.entry i zeroed) q,
        get_or-set_self w.entry (seq % w.size) e' zeroed (spot-lt w seq h),
      )
      | no ne ↦ ground (arith, get_or-set_ne w.entry (seq % w.size) (s % w.size) e' zeroed ne)
    ]

-- An entry that is found carries the number that was looked for.
pub window_find-seq :
    (w : Window) (s : ℕ) {e : WindowEntry} → window_find w s ≡ some e → (e.seq ≡ s) × (e.used ≡ 1)
unfolding window_find
window_find-seq w s h = ground arith

pub release-IsArray : (w : Window) (seq : ℕ) → IsArray w → IsArray (release w seq)
unfolding release
release-IsArray w seq h =
    let spot = seq % w.size in
    let e = get_or w.entry spot zeroed in
    ground (arith, length-set w.entry spot (record e { used = 0 }))

pub window_add-IsArray :
    (w : Window) (seq : ℕ) (packet : List ℕ) (n : ℕ)
    → IsArray w
    → IsArray (window_add w seq packet n)
unfolding window_add saved_entry
window_add-IsArray w seq packet n h =
    ground (arith, length-set w.entry (seq % w.size) (saved_entry seq packet n))
