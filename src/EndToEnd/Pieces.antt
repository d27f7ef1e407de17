-- ===== src/EndToEnd/Pieces.antt =====
-- rcopy.c: the file as the numbered pieces that `send_data_state` makes of it.
use cpe_networking_rejective.Prelude.{
  ℕ, zero, suc, ◌+◌, ◌-◌, ◌≤◌, ◌<◌, ◌≡◌, refl, sym, ap, ap₂, ◌∙◌, inl, inr, List, [], ◌∷◌, ◌++◌,
  arith, length, get_or, take,
}
use cpe_networking_rejective.Checksum.{Checksum}
use cpe_networking_rejective.Upload.{Upload, chunks}
use cpe_networking_rejective.Rcopy.{Read, bytes, failed}
use cpe_networking_rejective.Rcopy.Sending.{IsPending}

-- A read that gives nothing ends the file.
abbrev pub piece_before : List ℕ → List (List ℕ) → List (List ℕ)
piece_before [] later = []
piece_before (c ∷ cs) later = (c ∷ cs) ∷ later

-- The pieces that `send_data_state` makes of the file, up to its end or the first error.
abbrev pub pieces : ℕ → List Read → List (List ℕ)
pieces n [] = []
pieces n (failed ∷ rs) = []
pieces n (bytes ds ∷ rs) = piece_before (take n ds) (pieces n rs)

-- The file as the server is to get it: the first piece has number 2.
abbrev pub file_of : ℕ → List Read → Upload
file_of n rs = record {
  chunk = λ s. get_or (pieces n rs) (s - 2) [];
  first = 2;
  limit = 2 + length (pieces n rs);
}

abbrev pub flat : List (List ℕ) → List ℕ
flat [] = []
flat (xs ∷ xss) = xs ++ flat xss

-- What the pieces of a list have to be for the sender to be at number `s`.
abbrev pub AreFrom : Upload → ℕ → List (List ℕ) → Type 0
AreFrom f s ps =
    ((k : ℕ) → k < length ps → f.chunk (s + k) ≡ get_or ps k []) × (s + length ps ≡ f.limit)

AreFrom-later :
    (f : Upload) (s : ℕ) (xs : List ℕ) (ps : List (List ℕ))
    → AreFrom f s (xs ∷ ps)
    → AreFrom f (suc s) ps
AreFrom-later f s xs ps h = (
  λ k lt.
      let shift : suc s + k ≡ s + suc k = omega arith in
      ap f.chunk shift ∙ h.0 (suc k) (omega arith),
  omega (arith, h.1),
)

IsPending-step :
    ⦃ck : Checksum⦄ (f : Upload) (n s : ℕ) (ds : List ℕ) (rs : List Read) (xs : List ℕ)
    → xs ≡ take n ds
    → AreFrom f s (piece_before xs (pieces n rs))
    → (AreFrom f (suc s) (pieces n rs) → IsPending f n (suc s) rs)
    → IsPending f n s (bytes ds ∷ rs)
IsPending-step f n s ds rs [] e h rest = inl (sym e, omega (arith, h.1))
IsPending-step f n s ds rs (c ∷ cs) e h rest =
    let here : s ≡ s + 0 = omega arith in
    inr (
      omega (arith, h.1),
      ap f.chunk here ∙ h.0 0 (omega arith) ∙ e,
      λ none_read. cc,
      rest (AreFrom-later f s (c ∷ cs) (pieces n rs) h),
    )

pub IsPending-of_pieces :
    ⦃ck : Checksum⦄ (f : Upload) (n s : ℕ) (rs : List Read)
    → AreFrom f s (pieces n rs)
    → IsPending f n s rs
IsPending-of_pieces f n s [] h = omega (arith, h.1)
IsPending-of_pieces f n s (failed ∷ rs) h = tt
IsPending-of_pieces f n s (bytes ds ∷ rs) h =
    IsPending-step f n s ds rs (take n ds) refl h (IsPending-of_pieces f n (suc s) rs)

pub file_of-AreFrom : (n : ℕ) (rs : List Read) → AreFrom (file_of n rs) 2 (pieces n rs)
file_of-AreFrom n rs = (
  λ k lt. let back : 2 + k - 2 ≡ k = omega arith in ap (λ i. get_or (pieces n rs) i []) back,
  omega arith,
)

-- The first `m` pieces of the file are what the server counts as written.
pub chunks-flat :
    (chunk : ℕ → List ℕ) (s m : ℕ) (ps : List (List ℕ))
    → m ≤ length ps
    → ((k : ℕ) → k < length ps → chunk (s + k) ≡ get_or ps k [])
    → chunks chunk s m ≡ flat (take m ps)
chunks-flat chunk s zero ps le h = refl
chunks-flat chunk s (suc m) [] le h = absurd (omega arith)
chunks-flat chunk s (suc m) (p ∷ ps) le h =
    let here : s ≡ s + 0 = omega arith in
    ap₂ ◌++◌ (ap chunk here ∙ h 0 (omega arith)) (
      chunks-flat chunk (suc s) m ps (omega arith) (λ k lt.
        let shift : suc s + k ≡ s + suc k = omega arith in
        ap chunk shift ∙ h (suc k) (omega arith)))
