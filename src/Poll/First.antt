-- ===== src/Poll/First.antt =====
-- udpCode_spring26_v3/pollLib.c: what the loop of `pollCall` over the `revents` finds.
use cpe_networking_rejective.Prelude.{
  ℕ, zero, suc, ◌+◌, ◌<◌, ◌≡◌, refl, inl, inr, true, false, List, [], ◌∷◌, arith, ltb, Bool-cases,
  length, get_or,
}
use cpe_networking_rejective.Prelude.Int.{ℤ, pos, negsuc}
use cpe_networking_rejective.Poll.{first_ready}

-- The first positive one of `revents`, which belong to the entries from `start` on.
abbrev pub First : ℕ → List ℕ → ℤ → Type 0
First start revents (pos i) =
    (k : ℕ) × (i ≡ start + k)
    × (k < length revents)
    × (ltb 0 (get_or revents k 0) ≡ true)
    × ((m : ℕ) → m < k → ltb 0 (get_or revents m 0) ≡ false)
First start revents (negsuc n) =
    (n ≡ 0) × ((m : ℕ) → m < length revents → ltb 0 (get_or revents m 0) ≡ false)

pub none_before :
    (r : ℕ) (revents : List ℕ) (bound : ℕ)
    → ltb 0 r ≡ false
    → ((m : ℕ) → m < bound → ltb 0 (get_or revents m 0) ≡ false)
    → (m : ℕ) → m < suc bound
    → ltb 0 (get_or (r ∷ revents) m 0) ≡ false
none_before r revents bound h before zero lt = h
none_before r revents bound h before (suc m) lt = before m (omega arith)

pub First-cons :
    (start r : ℕ) (revents : List ℕ) (z : ℤ)
    → ltb 0 r ≡ false
    → First (suc start) revents z
    → First start (r ∷ revents) z
First-cons start r revents (pos i) h (k, e, inside, here, before) =
    (suc k, omega (arith, e), omega (arith, inside), here, none_before r revents k h before)
First-cons start r revents (negsuc n) h (e, none_of) =
    (e, none_before r revents (length revents) h none_of)

pub first_ready-First :
    (start : ℕ) (revents : List ℕ) → First start revents (first_ready start revents)
unfolding first_ready
first_ready-First start [] = (refl, λ m lt. absurd (omega arith))
first_ready-First start (r ∷ revents) = elim (Bool-cases (ltb 0 r)) [
  | inl yes_here ↦ rw yes_here (0, omega arith, omega arith, yes_here, λ m lt. absurd (omega arith))
  | inr not_here ↦ rw not_here (
      First-cons start r revents (first_ready (suc start) revents) not_here
        (first_ready-First (suc start) revents))
]
