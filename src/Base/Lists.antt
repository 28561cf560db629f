-- ===== src/Base/Lists.antt =====
-- Lists measured and indexed by native numbers, and predicates over their elements.
use Prim.Native.Nat.{ℕ, zero, suc, ◌+◌}
use mathlib.Core.Path.{◌≡◌}
use mathlib.Core.Bool.{Bool, true, false}
use mathlib.Core.List.{List, [], ◌∷◌, ◌++◌}
use mathlib.Core.Option.{Option, none, some}
use native.Mathlib.Omega.{arith}

module _ {ℓ} {A : Type ℓ} where
  abbrev pub length : List A → ℕ
  length [] = 0
  length (x ∷ xs) = suc (length xs)

  abbrev pub get_elem? : List A → ℕ → Option A
  get_elem? [] i = none
  get_elem? (x ∷ xs) zero = some x
  get_elem? (x ∷ xs) (suc i) = get_elem? xs i

  -- `iter().position(test)`
  abbrev pub position : (A → Bool) → List A → Option ℕ
  position p [] = none
  position p (x ∷ xs) = elim (p x) [
    | true ↦ some 0
    | false ↦ elim (position p xs) [ none ↦ none | some i ↦ some (suc i) ]
  ]

  -- `Vec::pop`, as the element that it returns.
  abbrev pub last? : List A → Option A
  last? [] = none
  last? (x ∷ xs) = elim (last? xs) [ none ↦ some x | some y ↦ some y ]

  pub length-append : (xs ys : List A) → length (xs ++ ys) ≡ length xs + length ys
  length-append [] ys = omega arith
  length-append (x ∷ xs) ys = omega (arith, length-append xs ys)

-- `iter().find_map(f)`
abbrev pub find_map {ℓ κ} : {A : Type ℓ} {B : Type κ} → (A → Option B) → List A → Option B
find_map f [] = none
find_map f (x ∷ xs) = elim (f x) [ some b ↦ some b | none ↦ find_map f xs ]

abbrev pub All {ℓ κ} : {A : Type ℓ} → (A → Type κ) → List A → Type κ
All P [] = Unit
All P (x ∷ xs) = P x × All P xs
