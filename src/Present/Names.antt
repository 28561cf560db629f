-- ===== src/Present/Names.antt =====
-- The tests of present.rs on names, against equality up to case and the two names of its list.
use bartok.Base.{
  ℕ, ◌+◌, ◌≤◌, ◌≡◌, refl, sym, ap, ◌⊎◌, true, false, Bool-cases, inl, inr, [], ◌∷◌, map, arith,
}
use bartok.Text.{Text, codes, text_eq}
use bartok.Text.Laws.{text_eq_iff}
use bartok.Present.{is_authorization, is_cost, eq_ignore_ascii_case, ascii_lower}

-- Two characters that are the same up to the case of an ASCII letter.
abbrev SameLetter : ℕ → ℕ → Type 0
SameLetter c d =
    (c ≡ d) ⊎ (((b'A' ≤ c) × (c ≤ b'Z') × (d ≡ c + 32)) ⊎ ((b'A' ≤ d) × (d ≤ b'Z') × (c ≡ d + 32)))

abbrev pub SameLetters : Text → Text → Type 0
SameLetters [] [] = Unit
SameLetters (c ∷ s) (d ∷ t) = SameLetter c d × SameLetters s t
SameLetters _ _ = ⊥

SameLetter-ascii_lower : (c d : ℕ) → SameLetter c d → ascii_lower c ≡ ascii_lower d
unfolding ascii_lower
SameLetter-ascii_lower c d (inl same) = ap ascii_lower same
SameLetter-ascii_lower c d (inr (inl (from, upto, is))) = ground arith
SameLetter-ascii_lower c d (inr (inr (from, upto, is))) = ground arith

SameLetters-ascii_lower : (s t : Text) → SameLetters s t → map ascii_lower s ≡ map ascii_lower t
SameLetters-ascii_lower [] [] same = refl
SameLetters-ascii_lower [] (d ∷ t) same = absurd same
SameLetters-ascii_lower (c ∷ s) [] same = absurd same
SameLetters-ascii_lower (c ∷ s) (d ∷ t) (same, rest) =
    λ i. SameLetter-ascii_lower c d same i ∷ SameLetters-ascii_lower s t rest i

is_authorization-SameLetters :
    (name : Text) → SameLetters name (codes "Authorization") → is_authorization name ≡ true
unfolding is_authorization eq_ignore_ascii_case ascii_lower
is_authorization-SameLetters name same =
    (text_eq_iff _ _).1 (SameLetters-ascii_lower name (codes "Authorization") same)

pub public_header :
    (name : Text) → is_authorization name ≡ false → ¬ SameLetters name (codes "Authorization")
public_header name is same = let secret = is_authorization-SameLetters name same in cc

pub is_cost-named :
    (key : Text) → is_cost key ≡ true → (key ≡ codes "model") ⊎ (key ≡ codes "max_tokens")
unfolding is_cost
is_cost-named key e = elim (Bool-cases (text_eq (codes "model") key)) [
  | inl is ↦ inl (sym ((text_eq_iff (codes "model") key).0 is))
  | inr other ↦ inr (sym ((text_eq_iff (codes "max_tokens") key).0 (rw other at e)))
]
