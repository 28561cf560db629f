-- ===== src/Text.antt =====
-- The string operations of Rust's standard library that the programs use, over lists of code
-- points: a `&str` is the list of its characters, and a slice at a character's place is `drop`.
pub mod Decimal
pub mod Laws
use Prim.Native.Char.{code}
use bartok.Base.{
  ℕ, zero, suc, ◌+◌, Bool, true, false, ◌&&◌, ◌||◌, Option, none, some, List, [], ◌∷◌, ◌++◌, ◌==◌,
  leb, if◌then◌else◌, String,
}
use mathlib.Core.List.{reverse}

abbrev pub Text : Type 0
Text = List ℕ

-- The text of a literal.
abbrev pub codes : String → Text
codes String.[] = []
codes (String.◌∷◌ c s) = code c ∷ codes s

unfoldable pub text_eq : Text → Text → Bool
text_eq [] [] = true
text_eq (x ∷ xs) (y ∷ ys) = x == y && text_eq xs ys
text_eq _ _ = false

-- `char::is_whitespace`, Unicode's White_Space.
unfoldable pub is_whitespace : ℕ → Bool
is_whitespace c =
    (leb 9 c && leb c 13)
    || c == 32
    || c == 0x85
    || c == 0xa0
    || c == 0x1680
    || (leb 0x2000 c && leb c 0x200a)
    || c == 0x2028
    || c == 0x2029
    || c == 0x202f
    || c == 0x205f
    || c == 0x3000

unfoldable pub trim_start : Text → Text
unfolding is_whitespace
trim_start [] = []
trim_start (c ∷ cs) = elim (is_whitespace c) [ true ↦ trim_start cs | false ↦ c ∷ cs ]

unfoldable pub trim : Text → Text
unfolding trim_start
trim s = reverse (trim_start (reverse (trim_start s)))

abbrev onto_first : ℕ → List Text → List Text
onto_first c [] = (c ∷ []) ∷ []
onto_first c (p ∷ ps) = (c ∷ p) ∷ ps

-- `s.split(sep)`: one piece more than there are separators.
unfoldable pub split : ℕ → Text → List Text
split sep [] = [] ∷ []
split sep (c ∷ cs) = let rest = split sep cs in if c == sep then [] ∷ rest else onto_first c rest

unfoldable pub starts_with : Text → Text → Bool
starts_with [] s = true
starts_with (p ∷ ps) [] = false
starts_with (p ∷ ps) (c ∷ cs) = p == c && starts_with ps cs

abbrev pub shift : Option ℕ → Option ℕ
shift none = none
shift (some i) = some (suc i)

-- `s.find(pat)`: where the first occurrence begins.
unfoldable pub find : Text → Text → Option ℕ
unfolding starts_with
find pat [] = if starts_with pat [] then some 0 else none
find pat (c ∷ cs) =
    let later = shift (find pat cs) in if starts_with pat (c ∷ cs) then some 0 else later

-- `&s[n..]`
abbrev pub drop : ℕ → Text → Text
drop zero s = s
drop (suc n) [] = []
drop (suc n) (c ∷ cs) = drop n cs

-- `&s[..n]`
abbrev pub take : ℕ → Text → Text
take zero s = []
take (suc n) [] = []
take (suc n) (c ∷ cs) = c ∷ take n cs

-- `pieces.join(sep)`
unfoldable pub join : Text → List Text → Text
join sep [] = []
join sep (p ∷ []) = p
join sep (p ∷ q ∷ ps) = p ++ (sep ++ join sep (q ∷ ps))
