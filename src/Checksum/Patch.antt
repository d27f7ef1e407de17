-- ===== src/Checksum/Patch.antt =====
-- Why a stored checksum makes the checksum of the whole buffer zero: RFC 1071, for the field at
-- offset 4 of the packet header.
use cpe_networking_rejective.Prelude.{ℕ, ◌+◌, ◌-◌, ◌*◌, ◌/◌, ◌%◌, ◌≤◌, ◌≡◌, List, ◌∷◌, arith}
use cpe_networking_rejective.Checksum.{word_sum, ones_sum, internet_checksum}

-- The checksum is a 16 bit number.
pub internet_checksum-le : (p : List ℕ) → internet_checksum p ≤ 65535
unfolding internet_checksum
internet_checksum-le p = omega arith

-- A sum with its own complement added is all ones.
ones_sum-complement : (s : ℕ) → ones_sum (s + (65535 - ones_sum s)) ≡ 65535
unfolding ones_sum
ones_sum-complement s = ground arith

pub internet_checksum-patch :
    (a b c d : ℕ) (r : List ℕ)
    → let k = internet_checksum (a ∷ b ∷ c ∷ d ∷ 0 ∷ 0 ∷ r) in
      internet_checksum (a ∷ b ∷ c ∷ d ∷ (k % 256) ∷ (k / 256) ∷ r) ≡ 0
unfolding internet_checksum word_sum
internet_checksum-patch a b c d r =
    let s = a + 256 * b + (c + 256 * d + (0 + 256 * 0 + word_sum r)) in
    let k = 65535 - ones_sum s in
    let e : a + 256 * b + (c + 256 * d + (k % 256 + 256 * (k / 256) + word_sum r)) ≡ s + k =
      omega arith in
    rw e (omega (arith, ones_sum-complement s))
