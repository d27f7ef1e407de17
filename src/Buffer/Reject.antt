-- ===== src/Buffer/Reject.antt =====
-- Buffer.c: when the server asks for a packet that is missing.
use cpe_networking_rejective.Prelude.{
  ℕ, zero, suc, ◌+◌, ◌%◌, ◌≤◌, ◌<◌, ◌≡◌, ap, ◌↔◌, inl, inr, true, false, ◌&&◌, List, arith, mod-lt,
  ℕ_discrete, ltb, ◌==◌, Bool-cases, get_or, set, get_or-set_self, get_or-set_ne,
}
use cpe_networking_rejective.Buffer.{
  Buffer, BufferEntry, zeroed, buffer_has, buffer_has_later, has_later_from, buffer_need_reject,
  buffer_clear_reject, buffer_save, written,
}
use cpe_networking_rejective.Buffer.Slots.{IsArray, spot-lt, saved_entry}

-- Every packet stands in the slot of its number.
abbrev pub IsPlaced : Buffer → Type 0
IsPlaced b =
    (i : ℕ) → (get_or b.entry i zeroed).used ≡ 1 → (get_or b.entry i zeroed).seq % b.size ≡ i

pub buffer_save-IsPlaced :
    (b : Buffer) (seq : ℕ) (bytes : List ℕ) (n : ℕ)
    → IsArray b
    → IsPlaced b
    → IsPlaced (buffer_save b seq bytes n)
unfolding buffer_save saved_entry
buffer_save-IsPlaced b seq bytes n h placed i k =
    let j = seq % b.size in
    let e = saved_entry seq bytes n in
    elim (ℕ_discrete j i) [
      | yes q ↦ ground (
        arith,
        placed i,
        ap (λ m. get_or (set b.entry j e) m zeroed) q,
        get_or-set_self b.entry j e zeroed (spot-lt b seq h),
      )
      | no ne ↦ ground (arith, placed i, get_or-set_ne b.entry j i e zeroed ne)
    ]

pub written-IsPlaced :
    (b : Buffer) (wrote : ℕ) → IsArray b → IsPlaced b → IsPlaced (written b wrote)
unfolding written
written-IsPlaced b wrote h placed i k =
    let j = b.expected % b.size in
    let e : BufferEntry = record (get_or b.entry j zeroed) { used = 0 } in
    elim (ℕ_discrete j i) [
      | yes q ↦ ground (
        arith,
        placed i,
        ap (λ m. get_or (set b.entry j e) m zeroed) q,
        get_or-set_self b.entry j e zeroed (spot-lt b b.expected h),
      )
      | no ne ↦ ground (arith, placed i, get_or-set_ne b.entry j i e zeroed ne)
    ]

has_later_from_sound :
    (left : ℕ) (b : Buffer) (count : ℕ)
    → has_later_from left b count ≡ true
    → (i : ℕ) × ((get_or b.entry i zeroed).used ≡ 1) × (b.expected < (get_or b.entry i zeroed).seq)
unfolding has_later_from
has_later_from_sound zero b count h = cc
has_later_from_sound (suc left) b count h =
    let e = get_or b.entry count zeroed in
    elim (Bool-cases (e.used == 1 && ltb b.expected e.seq)) [
      | inl found ↦ (count, ground arith, ground arith)
      | inr other ↦ has_later_from_sound left b (count + 1) (ground arith)
    ]

has_later_from_complete :
    (left : ℕ) (b : Buffer) (count i : ℕ)
    → count ≤ i
    → i < count + left
    → (get_or b.entry i zeroed).used ≡ 1
    → b.expected < (get_or b.entry i zeroed).seq
    → has_later_from left b count ≡ true
unfolding has_later_from
has_later_from_complete zero b count i h k u l = absurd (omega arith)
has_later_from_complete (suc left) b count i h k u l = elim (ℕ_discrete count i) [
  | yes q ↦ ground (arith, ap (λ m. get_or b.entry m zeroed) q)
  | no ne ↦
      ground (arith, has_later_from_complete left b (count + 1) i (omega arith) (omega arith) u l)
]

has_of_used :
    (b : Buffer) (i : ℕ)
    → IsPlaced b
    → (get_or b.entry i zeroed).used ≡ 1
    → buffer_has b (get_or b.entry i zeroed).seq ≡ true
unfolding buffer_has
has_of_used b i placed u =
    let at = ap (λ j. get_or b.entry j zeroed) (placed i u) in ground (arith, at)

used_of_has :
    (b : Buffer) (s : ℕ)
    → buffer_has b s ≡ true
    → ((get_or b.entry (s % b.size) zeroed).used ≡ 1)
      × ((get_or b.entry (s % b.size) zeroed).seq ≡ s)
unfolding buffer_has
used_of_has b s h = ground arith

-- When the array has `size` entries and every packet stands in the slot of its number,
-- `buffer_has_later` says yes exactly if the buffer has some number above `expected`.
pub buffer_has_later_iff :
    (b : Buffer)
    → IsArray b
    → IsPlaced b
    → (buffer_has_later b ≡ true) ↔ ((s : ℕ) × (b.expected < s) × (buffer_has b s ≡ true))
unfolding buffer_has_later
buffer_has_later_iff b h placed = (
  λ t.
      let (i, u, l) = has_later_from_sound b.size b 0 t in
      ((get_or b.entry i zeroed).seq, l, has_of_used b i placed u),
  λ (s, l, t).
      let u = used_of_has b s t in
      has_later_from_complete b.size b 0 (s % b.size) (omega arith)
        (omega (arith, mod-lt s {m = b.size} h.pos)) u.0 (omega (arith, u.1)),
)

-- With `missing_active` 0 or 1, after `buffer_need_reject` a second call says no; and after
-- `buffer_clear_reject` for a number it says yes exactly if that number is `expected`.
pub need_reject_once :
    (b : Buffer) (s : ℕ)
    → b.missing_active ≤ 1
    → let asked = (buffer_need_reject b).0 in
      ((buffer_need_reject asked).1 ≡ false)
      × (((buffer_need_reject (buffer_clear_reject asked s)).1 ≡ true) ↔ (s ≡ b.expected))
unfolding buffer_need_reject buffer_clear_reject
need_reject_once b s flag = (ground arith, (λ t. ground arith, λ t. ground arith))
