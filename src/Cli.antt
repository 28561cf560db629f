-- ===== src/Cli.antt =====
-- What the programs of miden/integration/src/bin/ share of their command lines: the value behind a
-- flag, and serial numbers as text. `arg_value` stands in three of them with the same body.
pub mod Serial
pub mod Random
use bartok.Base.{
  ℕ, ◌+◌, Bool, Option, none, some, List, [], ◌∷◌, map, Result, ok, err, ◌>>=◌, context, collect,
  position, get_elem?, String,
}
use bartok.Text.{Text, text_eq, split, trim, join, codes}
use bartok.Text.Decimal.{to_string, parse_u64}
use bartok.Miden.{Miden, Word}

-- `args.iter().position(|a| a == flag).and_then(|i| args.get(i + 1)).cloned()`: the body of `arg`.
unfoldable pub arg : List Text → Text → Option Text
unfolding text_eq
arg args flag = elim (position (λ a. text_eq a flag) args) [
  | none ↦ none
  | some i ↦ get_elem? args (i + 1)
]

-- `arg_value`
unfoldable pub arg_value : List Text → Text → Result Text
unfolding arg
arg_value args flag = context (arg args flag) "missing <value>"

module _ (m : Miden) where
  open m use {Felt, felt_new, as_canonical_u64}

  -- One part of a serial: a number of 64 bits that is a field element.
  unfoldable pub parse_part : Text → Result Felt
  parse_part p = do
    v ← context (parse_u64 (trim p)) "serial parts must be u64"
    context (felt_new v) "bad felt"

  abbrev word_of : List Felt → Result (Word Felt)
  word_of (a ∷ b ∷ c ∷ d ∷ []) = ok (record { w0 = a; w1 = b; w2 = c; w3 = d })
  word_of _ = err "serial must have 4 comma-separated parts"

  -- `parse_serial`
  unfoldable pub parse_serial : Text → Result (Word Felt)
  parse_serial s = do word_of (← collect parse_part (split b',' s))

  -- `word_strings`
  unfoldable pub word_strings : Word Felt → List Text
  word_strings w = map (λ f. to_string (as_canonical_u64 f)) (w.w0 ∷ w.w1 ∷ w.w2 ∷ w.w3 ∷ [])

  -- `word_csv`
  unfoldable pub word_csv : Word Felt → Text
  unfolding word_strings join
  word_csv w = join (codes ",") (word_strings w)
