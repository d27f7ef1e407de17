-- ===== src/Buffer/Slots.antt =====
-- Buffer.c: what the buffer has after one packet is saved or written out.
use cpe_networking_rejective.Prelude.{
  ℕ, zero, suc, ◌%◌, ◌<◌, ◌≡◌, refl, ap, true, false, List, [], ◌∷◌, arith, mod-lt, ℕ_discrete,
  ◌==◌, if◌then◌else◌, length, get_or, set, take, length-set, get_or-set_self, get_or-set_ne,
}
use cpe_networking_rejective.Buffer.{
  Buffer, BufferEntry, zeroed, buffer_has, buffer_save, data_at, written,
}

pub record IsArray (b : Buffer) : Type 0 where
  pub pos : 0 < b.size
  pub len : length b.entry ≡ b.size

pub spot-lt : (b : Buffer) (s : ℕ) → IsArray b → s % b.size < length b.entry
spot-lt b s h = omega (arith, mod-lt s {m = b.size} h.pos)

unfoldable pub saved_entry : ℕ → List ℕ → ℕ → BufferEntry
saved_entry seq bytes n = record { seq = seq; data_len = n; used = 1; payload = take n bytes }

take-take : (n : ℕ) (xs : List ℕ) → take n (take n xs) ≡ take n xs
take-take zero xs = refl
take-take (suc n) [] = refl
take-take (suc n) (x ∷ xs) = ap (◌∷◌ x) (take-take n xs)

-- What a number that shares its slot with a saved packet cannot be found for.
has_unique :
    (b : Buffer) (s t : ℕ)
    → s % b.size ≡ t % b.size
    → buffer_has b s ≡ true
    → buffer_has b t ≡ true
    → s ≡ t
unfolding buffer_has
has_unique b s t e h k = ground (arith, ap (λ i. get_or b.entry i zeroed) e)

-- On an array of `size` entries, after `buffer_save` the buffer has the saved number, has lost any
-- other number of the same slot, and has the others as before.
pub buffer_has-buffer_save :
    (b : Buffer) (seq : ℕ) (bytes : List ℕ) (n s : ℕ)
    → IsArray b
    → buffer_has (buffer_save b seq bytes n) s
      ≡ (if s == seq then true else if s % b.size == seq % b.size then false else buffer_has b s)
unfolding buffer_has buffer_save saved_entry
buffer_has-buffer_save b seq bytes n s h = elim (ℕ_discrete (seq % b.size) (s % b.size)) [
  | yes e ↦ ground (
    arith,
    e,
    ap (λ i. get_or b.entry i zeroed) e,
    ap (λ i. get_or (set b.entry (seq % b.size) (saved_entry seq bytes n)) i zeroed) e,
    get_or-set_self b.entry (seq % b.size) (saved_entry seq bytes n) zeroed (spot-lt b seq h),
  )
  | no ne ↦
      ground (
        arith,
        get_or-set_ne b.entry (seq % b.size) (s % b.size) (saved_entry seq bytes n) zeroed ne,
      )
]

-- On an array of `size` entries, `buffer_save` of a number that the buffer does not have puts its
-- bytes into the slot and leaves the bytes of the other slots; of one that it has, it changes
-- nothing.
pub data_at-buffer_save :
    (b : Buffer) (seq : ℕ) (bytes : List ℕ) (n s : ℕ)
    → IsArray b
    → data_at (buffer_save b seq bytes n) s ≡ (
        if buffer_has b seq
        then data_at b s
        else if s % b.size == seq % b.size
        then take n bytes
        else data_at b s)
unfolding data_at buffer_save saved_entry
data_at-buffer_save b seq bytes n s h = elim (ℕ_discrete (seq % b.size) (s % b.size)) [
  | yes e ↦ ground (
    arith,
    e,
    ap (λ i. get_or b.entry i zeroed) e,
    ap (λ i. get_or (set b.entry (seq % b.size) (saved_entry seq bytes n)) i zeroed) e,
    get_or-set_self b.entry (seq % b.size) (saved_entry seq bytes n) zeroed (spot-lt b seq h),
    take-take n bytes,
  )
  | no ne ↦
      ground (
        arith,
        get_or-set_ne b.entry (seq % b.size) (s % b.size) (saved_entry seq bytes n) zeroed ne,
      )
]

pub buffer_has-written :
    (b : Buffer) (wrote s : ℕ)
    → IsArray b
    → buffer_has b b.expected ≡ true
    → buffer_has (written b wrote) s ≡ (if s == b.expected then false else buffer_has b s)
unfolding buffer_has written
buffer_has-written b wrote s h had =
    let i = b.expected % b.size in
    let e' : BufferEntry = record (get_or b.entry i zeroed) { used = 0 } in
    elim (ℕ_discrete i (s % b.size)) [
      | yes q ↦ ground (
        arith,
        q,
        ap (λ j. get_or b.entry j zeroed) q,
        ap (λ j. get_or (set b.entry i e') j zeroed) q,
        get_or-set_self b.entry i e' zeroed (spot-lt b b.expected h),
      )
      | no ne ↦ ground (arith, get_or-set_ne b.entry i (s % b.size) e' zeroed ne)
    ]

-- Emptying an entry leaves its bytes in place.
pub data_at-written :
    (b : Buffer) (wrote s : ℕ) → IsArray b → data_at (written b wrote) s ≡ data_at b s
unfolding data_at written
data_at-written b wrote s h =
    let i = b.expected % b.size in
    let e' : BufferEntry = record (get_or b.entry i zeroed) { used = 0 } in
    elim (ℕ_discrete i (s % b.size)) [
      | yes q ↦ ground (
        arith,
        q,
        ap (λ j. get_or b.entry j zeroed) q,
        ap (λ j. get_or (set b.entry i e') j zeroed) q,
        get_or-set_self b.entry i e' zeroed (spot-lt b b.expected h),
      )
      | no ne ↦ ground (arith, get_or-set_ne b.entry i (s % b.size) e' zeroed ne)
    ]

pub written-IsArray : (b : Buffer) (wrote : ℕ) → IsArray b → IsArray (written b wrote)
unfolding written
written-IsArray b wrote h =
    let i = b.expected % b.size in
    ground (arith, length-set b.entry i (record (get_or b.entry i zeroed) { used = 0 }))

pub buffer_save-IsArray :
    (b : Buffer) (seq : ℕ) (bytes : List ℕ) (n : ℕ)
    → IsArray b
    → IsArray (buffer_save b seq bytes n)
unfolding buffer_save saved_entry
buffer_save-IsArray b seq bytes n h =
    ground (arith, length-set b.entry (seq % b.size) (saved_entry seq bytes n))
