-- ===== src/Cli/Serial.antt =====
-- A serial that one program prints is read back by the next.
use bartok.Base.{◌≤◌, ◌≡◌, ok}
use native.Mathlib.Nat.{le_trans}
use bartok.Text.Decimal.{to_string, u64_mod}
use bartok.Text.Laws.{
  to_string-IsDigits, parse_u64-to_string, trim-IsDigits, split-IsDigits, split-IsDigits_comma,
}
use bartok.Miden.{Miden, Word}
use bartok.Cli.{parse_part, parse_serial, word_csv}

module _ (m : Miden) (small : m.modulus ≤ u64_mod) where
  open m use {Felt, as_canonical_u64, canonical_lt, new_canonical}

  parse_part-to_string : (a : Felt) → parse_part m (to_string (as_canonical_u64 a)) ≡ ok a
  unfolding parse_part
  parse_part-to_string a =
      rw
        (
          trim-IsDigits (to_string (as_canonical_u64 a)) (to_string-IsDigits (as_canonical_u64 a)),
          parse_u64-to_string (as_canonical_u64 a) (le_trans (canonical_lt a) small),
        )
        (rw (new_canonical a))

  -- Where the field's modulus is at most 2 ^ 64, `parse_serial` reads back the word that `word_csv`
  -- printed, whichever word it is.
  pub parse_serial-word_csv : (w : Word Felt) → parse_serial m (word_csv m w) ≡ ok w
  unfolding parse_serial word_csv
  parse_serial-word_csv w = simp (
    split-IsDigits_comma (to_string (as_canonical_u64 w.w0)) _
        (to_string-IsDigits (as_canonical_u64 w.w0)),
    split-IsDigits_comma (to_string (as_canonical_u64 w.w1)) _
        (to_string-IsDigits (as_canonical_u64 w.w1)),
    split-IsDigits_comma (to_string (as_canonical_u64 w.w2)) _
        (to_string-IsDigits (as_canonical_u64 w.w2)),
    split-IsDigits (to_string (as_canonical_u64 w.w3)) (to_string-IsDigits (as_canonical_u64 w.w3)),
    parse_part-to_string,
  )
