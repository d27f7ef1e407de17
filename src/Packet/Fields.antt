-- ===== src/Packet/Fields.antt =====
-- Packet.c: the 32 bit fields in network order.
use cpe_networking_rejective.Prelude.{
  ℕ, zero, suc, ◌^◌, ◌<◌, ◌≡◌, refl, List, [], ◌∷◌, ◌++◌, arith, length, get_or, Bytes,
}
use cpe_networking_rejective.Packet.{write_u32, read_u32}

pub length-write_u32 : (value : ℕ) → length (write_u32 value) ≡ 4
unfolding write_u32
length-write_u32 value = refl

pub write_u32-Bytes : (value : ℕ) → Bytes (write_u32 value)
unfolding write_u32
write_u32-Bytes value = omega arith

-- `read_u32` reads the 32 bit number that `write_u32` wrote, whatever bytes follow.
pub read_u32-write_u32 :
    (value : ℕ) (rest : List ℕ) → value < 2 ^ 32 → read_u32 (write_u32 value ++ rest) ≡ value
unfolding read_u32 write_u32
read_u32-write_u32 value rest h = omega arith

get_or-lt : (p : List ℕ) (i : ℕ) → Bytes p → get_or p i 0 < 256
get_or-lt [] i h = omega arith
get_or-lt (x ∷ xs) zero h = h.0
get_or-lt (x ∷ xs) (suc i) h = get_or-lt xs i h.1

-- Four bytes make a `uint32_t`.
pub read_u32-lt : (p : List ℕ) → Bytes p → read_u32 p < 2 ^ 32
unfolding read_u32
read_u32-lt p h = omega (arith, get_or-lt p 0 h, get_or-lt p 1 h, get_or-lt p 2 h, get_or-lt p 3 h)
