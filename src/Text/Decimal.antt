-- ===== src/Text/Decimal.antt =====
-- `u64::to_string` and `str::parse::<u64>`.
use bartok.Base.{
  ℕ, zero, suc, ◌+◌, ◌-◌, ◌*◌, ◌/◌, ◌%◌, ◌^◌, Bool, ◌&&◌, Option, none, some, [], ◌∷◌, ◌==◌, leb,
  ltb, if◌then◌else◌,
}
use bartok.Text.{Text}

-- The decimal digits of `n`, in front of `acc`; `suc n` rounds are always enough.
unfoldable pub print_onto : ℕ → ℕ → Text → Text
print_onto zero n acc = acc
print_onto (suc fuel) n acc =
    let rest = print_onto fuel (n / 10) ((48 + n % 10) ∷ acc) in
    if ltb n 10 then (48 + n) ∷ acc else rest

unfoldable pub to_string : ℕ → Text
unfolding print_onto
to_string n = print_onto (suc n) n []

abbrev pub u64_mod : ℕ
u64_mod = 2 ^ 64

abbrev pub is_digit : ℕ → Bool
is_digit c = leb 48 c && leb c 57

-- The checked loop of `from_str_radix`: a digit that does not fit is an error.
unfoldable pub parse_digits : ℕ → Text → Option ℕ
parse_digits acc [] = some acc
parse_digits acc (c ∷ cs) =
    let v = acc * 10 + (c - 48) in
    let rest = parse_digits v cs in if is_digit c && ltb v u64_mod then rest else none

abbrev some_digits : Text → Option ℕ
some_digits [] = none
some_digits (c ∷ cs) = parse_digits 0 (c ∷ cs)

-- A leading `+` is accepted, a `-` is not, and there must be a digit.
unfoldable pub parse_u64 : Text → Option ℕ
unfolding parse_digits
parse_u64 [] = none
parse_u64 (c ∷ cs) = if c == b'+' then some_digits cs else some_digits (c ∷ cs)
