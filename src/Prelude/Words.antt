-- ===== src/Prelude/Words.antt =====
-- Machine words: `uint32_t` arithmetic wraps; bytes are numbers below 256.
use Prim.Native.Nat.{ℕ, ◌+◌, ◌/◌, ◌%◌, ◌^◌, ◌<◌, ◌≤◌}
use mathlib.Core.Path.{◌≡◌, sym}
use mathlib.Core.List.{List}
use native.Mathlib.Nat.{div-add-mod, mul-le-mul_left}
use native.Mathlib.Decide.{dec_lt}
use native.Mathlib.Omega.{arith}
use cpe_networking_rejective.Prelude.Lists.{All}

abbrev pub u32 : ℕ → ℕ
u32 n = n % 2 ^ 32

abbrev pub Bytes : List ℕ → Type 0
Bytes = All (λ b. b < 256)

-- Two numbers less than `n` apart that agree modulo `n` are one.
mod_window_le : (n a b : ℕ) → a ≤ b → b < a + n → a % n ≡ b % n → a ≡ b
mod_window_le n a b h k e = elim (dec_lt (a / n) (b / n)) [
  | yes lt ↦ absurd (
      omega (
        arith,
        div-add-mod a n,
        div-add-mod b n,
        mul-le-mul_left {m = a / n + 1} {n = b / n} n (omega arith),
      ))
  | no ge ↦ omega (
    arith,
    div-add-mod a n,
    div-add-mod b n,
    mul-le-mul_left {m = b / n} {n = a / n} n (omega arith),
  )
]

-- A window of `n` consecutive numbers takes each slot modulo `n` once.
pub mod_window : (n lo a b : ℕ) → lo ≤ a → a < lo + n → lo ≤ b → b < lo + n → a % n ≡ b % n → a ≡ b
mod_window n lo a b h1 h2 h3 h4 e = elim (dec_lt b a) [
  | yes lt ↦ sym (mod_window_le n b a (omega arith) (omega arith) (sym e))
  | no ge ↦ mod_window_le n a b (omega arith) (omega arith) e
]
