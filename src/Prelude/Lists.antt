-- ===== src/Prelude/Lists.antt =====
-- Tests on slices, and the predicate that holds of every element.
use Prim.Native.Nat.{ℕ, suc}
use Prim.Native.String.{String}
use mathlib.Core.Logic.{◌↔◌}
use mathlib.Core.Bool.{Bool, true, false, ◌||◌}
use mathlib.Core.List.{List, [], ◌∷◌, ◌++◌}
use text.Mathlib.Text.{◌==◌}

module _ {ℓ} {A : Type ℓ} where
  abbrev pub length : List A → ℕ
  length [] = 0
  length (x ∷ xs) = suc (length xs)

  -- The test `len(xs) == 0`.
  abbrev pub is_empty : List A → Bool
  is_empty [] = true
  is_empty (x ∷ xs) = false

  abbrev pub All {κ} : (A → Type κ) → List A → Type κ
  All P [] = Unit
  All P (x ∷ xs) = P x × All P xs

  pub All-append {κ} : (P : A → Type κ) (xs ys : List A) → All P (xs ++ ys) ↔ (All P xs × All P ys)
  All-append P [] ys = (λ h. (tt, h), λ h. h.1)
  All-append P (x ∷ xs) ys = (
    λ h. ((h.0, ((All-append P xs ys).0 h.1).0), ((All-append P xs ys).0 h.1).1),
    λ h. (h.0.0, (All-append P xs ys).1 (h.0.1, h.1)),
  )

-- Go's `slices.Contains` at strings.
unfoldable pub contains : List String → String → Bool
contains [] a = false
contains (x ∷ xs) a = x == a || contains xs a
