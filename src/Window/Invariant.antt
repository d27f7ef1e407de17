-- ===== src/Window/Invariant.antt =====
-- Window.c: the window holds the packets from `lower` to `current` and no others.
use cpe_networking_rejective.Prelude.{
  ℕ, suc, ◌+◌, ◌-◌, ◌%◌, ◌^◌, ◌≤◌, ◌<◌, ◌≡◌, sym, ap, ◌∙◌, ◌≢◌, ◌↔◌, ◌⊎◌, inl, inr, Bool, true,
  none, some, List, arith, dec_lt, ◌==◌, if◌then◌else◌, length, get_or, replicate, length-replicate,
  get_or-replicate, mod_window,
}
use cpe_networking_rejective.Window.{
  Window, zeroed, window_init, window_open, window_empty, window_add, window_find, window_lowest,
  lowest_from,
}
use cpe_networking_rejective.Window.Slots.{
  IsArray, saved_entry, window_find-window_add, window_add-IsArray,
}

-- `room` says that the sequence numbers of the window do not wrap.
pub record IsWindow (w : Window) : Type 0 where
  pub array : IsArray w
  pub order : w.lower ≤ w.current
  pub fits : w.current ≤ w.lower + w.size
  pub top : w.upper ≡ w.lower + w.size
  pub room : w.lower + w.size < 2 ^ 32
  pub held : (s : ℕ) → w.lower ≤ s → s < w.current → window_find w s ≢ none
  pub gone : (s : ℕ) → (s < w.lower) ⊎ (w.current ≤ s) → window_find w s ≡ none

window_find-zeroed : (w : Window) (s n : ℕ) → w.entry ≡ replicate n zeroed → window_find w s ≡ none
unfolding window_find
window_find-zeroed w s n e =
    let q : get_or w.entry (s % w.size) zeroed ≡ zeroed =
      ap (λ xs. get_or xs (s % w.size) zeroed) e ∙ get_or-replicate n zeroed (s % w.size) in
    rw q

-- When `window_init` succeeds with a positive size and numbers that do not wrap, the window is
-- sound, empty and open, starts at the given number, has the given size and holds no packet.
pub window_init-IsWindow :
    (calloc : ℕ → Bool) (size start_seq : ℕ) {w : Window}
    → 0 < size
    → start_seq + size < 2 ^ 32
    → window_init calloc size start_seq ≡ some w
    → IsWindow w
      × (window_empty w ≡ true)
      × (window_open w ≡ true)
      × (w.current ≡ start_seq)
      × (w.size ≡ size)
      × ((s : ℕ) → window_find w s ≡ none)
unfolding window_init window_empty window_open
window_init-IsWindow calloc size start_seq {w} pos room h =
    let f : (w.entry ≡ replicate size zeroed)
        × (w.size ≡ size)
        × (w.lower ≡ start_seq)
        × (w.current ≡ start_seq)
        × (w.upper ≡ start_seq + size) =
      ground arith in
    (
      record {
        array = record {
          pos = ground arith;
          len = ap length f.0 ∙ length-replicate size zeroed ∙ sym f.1;
        };
        order = ground arith;
        fits = ground arith;
        top = ground arith;
        room = ground arith;
        held = λ s a b. absurd (ground arith);
        gone = λ s a. window_find-zeroed w s size f.0;
      },
      ground arith,
      ground arith,
      f.3,
      f.1,
      λ s. window_find-zeroed w s size f.0,
    )

-- Two numbers of the window that share a slot are one.
same_slot :
    (w : Window) (s : ℕ)
    → IsWindow w
    → window_open w ≡ true
    → w.lower ≤ s
    → s < w.current
    → s % w.size ≢ w.current % w.size
unfolding window_open
same_slot w s v o a b e =
    let q =
      mod_window w.size w.lower s w.current a (ground (arith, v.fits)) v.order
        (ground (arith, v.top)) e in
    omega arith

-- On a sound open window, after `window_add` of the number `current`, `window_find` finds that
-- number with the packet that was added and any other number as before.
pub window_find-add_next :
    (w : Window) (packet : List ℕ) (n s : ℕ)
    → IsWindow w
    → window_open w ≡ true
    → window_find (window_add w w.current packet n) s
      ≡ (if s == w.current then some (saved_entry w.current packet n) else window_find w s)
window_find-add_next w packet n s v o = window_find-window_add w w.current packet n s v.array ∙ rest
  where
    rest :
        (if s == w.current
          then some (saved_entry w.current packet n)
          else if s % w.size == w.current % w.size
          then none
          else window_find w s)
        ≡ (if s == w.current then some (saved_entry w.current packet n) else window_find w s)
    rest = elim (dec_lt s w.lower) [
      | yes below ↦ ground (arith, v.gone s (inl below))
      | no ge ↦ elim (dec_lt s w.current) [
        | yes lt ↦ ground (arith, same_slot w s v o (omega arith) lt)
        | no above ↦ ground (arith, v.gone s (inr (omega arith)))
      ]
    ]

window_open-lt : (w : Window) → window_open w ≡ true → w.current < w.upper
unfolding window_open
window_open-lt w o = ground arith

current-window_add :
    (w : Window) (packet : List ℕ) (n : ℕ)
    → w.current < 2 ^ 32 - 1
    → let w' = window_add w w.current packet n in
      (w'.current ≡ w.current + 1)
      × (w'.lower ≡ w.lower)
      × (w'.upper ≡ w.upper)
      × (w'.size ≡ w.size)
unfolding window_add
current-window_add w packet n h = ground arith

-- Adding the packet with the number `current` to a sound open window leaves a sound window with
-- `current` one higher and the same `lower` and `size`.
pub window_add-IsWindow :
    (w : Window) (packet : List ℕ) (n : ℕ)
    → IsWindow w
    → window_open w ≡ true
    → let w' = window_add w w.current packet n in
      IsWindow w' × (w'.current ≡ w.current + 1) × (w'.lower ≡ w.lower) × (w'.size ≡ w.size)
window_add-IsWindow w packet n v o =
    let lt = window_open-lt w o in
    let c = current-window_add w packet n (omega (arith, v.top, v.room)) in
    (
      record {
        array = window_add-IsArray w w.current packet n v.array;
        order = omega (arith, c, v.order);
        fits = omega (arith, c, v.top);
        top = omega (arith, c, v.top);
        room = omega (arith, c, v.room);
        held = λ s a b.
            ground (arith, c, window_find-add_next w packet n s v o, v.held s (omega (arith, c)));
        gone = λ s a. ground (arith, c, window_find-add_next w packet n s v o, v.gone s, v.order);
      },
      c.0,
      c.1,
      c.3,
    )

lowest_from-lem :
    (fuel : ℕ) (w : Window)
    → w.lower < w.current
    → window_find w w.lower ≢ none
    → lowest_from (suc fuel) w w.lower ≡ window_find w w.lower
unfolding lowest_from
lowest_from-lem fuel w h k = ground arith

-- On a sound window `window_lowest` is the packet with the number `lower`, and it is NULL exactly
-- when `window_empty` says yes.
pub window_lowest_lem :
    (w : Window)
    → IsWindow w
    → (window_lowest w ≡ window_find w w.lower)
      × ((window_lowest w ≡ none) ↔ (window_empty w ≡ true))
unfolding window_lowest window_empty lowest_from
window_lowest_lem w v = elim (dec_lt w.lower w.current) [
  | yes lt ↦
      let q = v.held w.lower (omega arith) lt in
      (ground (arith, q), (λ e. ground (arith, q), λ e. ground arith))
  | no ge ↦
      let q = v.gone w.lower (inr (omega arith)) in
      (ground (arith, q), (λ e. ground (arith, v.order), λ e. ground (arith, q)))
]
