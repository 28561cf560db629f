-- ===== src/Settle/Command.antt =====
-- The command line of settle_session.rs: what ux-prototype/server.js makes of the values that
-- build_escrow.rs printed, and what the program reads there.
use bartok.Base.{
  ℕ, ◌+◌, ◌≤◌, ◌<◌, ◌≡◌, ◌≢◌, refl, sym, ap, ◌∙◌, false, Bool-cases, inl, inr, Option, none, some,
  List, [], ◌∷◌, ◌++◌, append-nil, ok, suc, position, get_elem?, arith,
}
use bartok.Text.{Text, codes, text_eq, join}
use bartok.Text.Decimal.{to_string, u64_mod}
use bartok.Text.Laws.{
  text_eq_iff, IsDigits, to_string-IsDigits, to_string-ne-nil, parse_u64-to_string,
}
use bartok.Miden.{Miden, Word}
use bartok.Cli.{arg, arg_value, word_strings, word_csv, parse_serial}
use bartok.Cli.Serial.{parse_serial-word_csv}
use bartok.Host.{Host}
use bartok.Settle.{arguments}

-- The call of settle_session in ux-prototype/server.js; the serials are joined with commas.
unfoldable pub settle_args : Text → Text → ℕ → Text → List Text → List Text → List Text
settle_args program note_b64 charge buyer seller_serial buyer_serial =
    program
    ∷ codes "--escrow-note-b64"
    ∷ note_b64
    ∷ codes "--charge"
    ∷ to_string charge
    ∷ codes "--buyer"
    ∷ buyer
    ∷ codes "--seller-serial"
    ∷ join (codes ",") seller_serial
    ∷ codes "--buyer-serial"
    ∷ join (codes ",") buyer_serial
    ∷ []

-- A text that cannot be taken for a flag.
abbrev pub IsValue : Text → Type 0
IsValue t = (rest : Text) → t ≢ b'-' ∷ rest

-- What follows the flag that stands at a place, one place further on.
abbrev value_at : List Text → Option ℕ → Option Text
value_at args none = none
value_at args (some i) = get_elem? args (i + 1)

abbrev next_place : Option ℕ → Option ℕ
next_place none = none
next_place (some i) = some (suc i)

value_at-cons :
    (v : Text) (rest : List Text) (i : Option ℕ)
    → value_at (v ∷ rest) (next_place i) ≡ value_at rest i
value_at-cons v rest none = refl
value_at-cons v rest (some i) =
    let same : suc i + 1 ≡ suc (i + 1) = omega arith in ap (get_elem? (v ∷ rest)) same

arg-value_at :
    (args : List Text) (flag : Text)
    → arg args flag ≡ value_at args (position (λ a. text_eq a flag) args)
unfolding arg
arg-value_at args flag = ground arith

position-other :
    (v : Text) (rest : List Text) (flag : Text)
    → text_eq v flag ≡ false
    → position (λ a. text_eq a flag) (v ∷ rest) ≡ next_place (position (λ a. text_eq a flag) rest)
position-other v rest flag other = ground arith

-- A text in front of the flag that is looked for is passed over.
pub arg-other :
    (v : Text) (rest : List Text) (flag : Text)
    → text_eq v flag ≡ false
    → arg (v ∷ rest) flag ≡ arg rest flag
arg-other v rest flag other =
    arg-value_at (v ∷ rest) flag
    ∙ ap (value_at (v ∷ rest)) (position-other v rest flag other)
    ∙ value_at-cons v rest (position (λ a. text_eq a flag) rest)
    ∙ sym (arg-value_at rest flag)

pub IsValue-other : (v flag : Text) → IsValue v → text_eq v (b'-' ∷ flag) ≡ false
IsValue-other v flag h = elim (Bool-cases (text_eq v (b'-' ∷ flag))) [
  | inl same ↦ absurd (h flag ((text_eq_iff v (b'-' ∷ flag)).0 same))
  | inr other ↦ other
]

pub arg-here : (flag v : Text) (rest : List Text) → arg (flag ∷ v ∷ rest) flag ≡ some v
unfolding arg
arg-here flag v rest = rw (arg, (text_eq_iff flag flag).1 refl) refl

-- Printed numbers, and serials, are no flags.
IsDigits-IsValue : (s rest : Text) → IsDigits s → s ≢ [] → IsValue (s ++ rest)
IsDigits-IsValue [] rest h some_digit t e = absurd (some_digit refl)
IsDigits-IsValue (c ∷ s) rest h some_digit t e = let hyphen : c ≡ b'-' = cc in ground (arith, h.0)

to_string-IsValue : (n : ℕ) (rest : Text) → IsValue (to_string n ++ rest)
to_string-IsValue n rest =
    IsDigits-IsValue (to_string n) rest (to_string-IsDigits n) (to_string-ne-nil n)

module _ (m : Miden) (small : m.modulus ≤ u64_mod) where
  open m use {Felt, as_canonical_u64}

  word_strings-IsValue : (w : Word Felt) → IsValue (join (codes ",") (word_strings m w))
  unfolding word_strings join
  word_strings-IsValue w = to_string-IsValue (as_canonical_u64 w.w0) _

  -- The serial that the server joins is read back.
  parse_serial-join : (w : Word Felt) → parse_serial m (join (codes ",") (word_strings m w)) ≡ ok w
  parse_serial-join w = unfold word_csv in parse_serial-word_csv m small w

module _ (h : Host) (small : h.modulus ≤ u64_mod) where
  open h use {miden, Felt, AccountId, account_from_hex}

  module _ (program note_b64 : Text) (charge : ℕ) (buyer_hex : Text)
      (seller_serial buyer_serial : Word Felt) (is_program : IsValue program)
      (is_note : IsValue note_b64) (is_buyer : IsValue buyer_hex) where
    abbrev command : List Text
    command =
        settle_args program note_b64 charge buyer_hex (word_strings miden seller_serial)
          (word_strings miden buyer_serial)

    note_arg : arg command (codes "--escrow-note-b64") ≡ some note_b64
    unfolding settle_args
    note_arg =
        arg-other program _ (codes "--escrow-note-b64") (IsValue-other program _ is_program)
        ∙ arg-here (codes "--escrow-note-b64") note_b64 _

    -- Past the program and the note.
    after_note :
        (flag : Text)
        → text_eq (codes "--escrow-note-b64") (b'-' ∷ flag) ≡ false
        → arg command (b'-' ∷ flag)
          ≡ arg
              (codes "--charge"
                ∷ to_string charge
                ∷ codes "--buyer"
                ∷ buyer_hex
                ∷ codes "--seller-serial"
                ∷ join (codes ",") (word_strings miden seller_serial)
                ∷ codes "--buyer-serial"
                ∷ join (codes ",") (word_strings miden buyer_serial)
                ∷ [])
              (b'-' ∷ flag)
    unfolding settle_args
    after_note flag other =
        arg-other program _ (b'-' ∷ flag) (IsValue-other program flag is_program)
        ∙ arg-other (codes "--escrow-note-b64") _ (b'-' ∷ flag) other
        ∙ arg-other note_b64 _ (b'-' ∷ flag) (IsValue-other note_b64 flag is_note)

    charge_arg : arg command (codes "--charge") ≡ some (to_string charge)
    unfolding text_eq
    charge_arg = after_note (codes "-charge") refl ∙ arg-here (codes "--charge") _ _

    -- Past the charge too.
    after_charge :
        (flag : Text)
        → text_eq (codes "--escrow-note-b64") (b'-' ∷ flag) ≡ false
        → text_eq (codes "--charge") (b'-' ∷ flag) ≡ false
        → arg command (b'-' ∷ flag)
          ≡ arg
              (codes "--buyer"
                ∷ buyer_hex
                ∷ codes "--seller-serial"
                ∷ join (codes ",") (word_strings miden seller_serial)
                ∷ codes "--buyer-serial"
                ∷ join (codes ",") (word_strings miden buyer_serial)
                ∷ [])
              (b'-' ∷ flag)
    after_charge flag other other' =
        after_note flag other
        ∙ arg-other (codes "--charge") _ (b'-' ∷ flag) other'
        ∙ arg-other (to_string charge) _ (b'-' ∷ flag) (IsValue-other _ flag charge_value)
      where
        charge_value : IsValue (to_string charge)
        charge_value t e =
            IsDigits-IsValue (to_string charge) [] (to_string-IsDigits charge)
              (to_string-ne-nil charge) t (append-nil (to_string charge) ∙ e)

    buyer_arg : arg command (codes "--buyer") ≡ some buyer_hex
    unfolding text_eq
    buyer_arg = after_charge (codes "-buyer") refl refl ∙ arg-here (codes "--buyer") _ _

    seller_serial_arg :
        arg command (codes "--seller-serial")
        ≡ some (join (codes ",") (word_strings miden seller_serial))
    unfolding text_eq
    seller_serial_arg =
        after_charge (codes "-seller-serial") refl refl
        ∙ arg-other (codes "--buyer") _ (codes "--seller-serial") refl
        ∙ arg-other buyer_hex _ (codes "--seller-serial") (IsValue-other _ _ is_buyer)
        ∙ arg-here (codes "--seller-serial") _ _

    buyer_serial_arg :
        arg command (codes "--buyer-serial")
        ≡ some (join (codes ",") (word_strings miden buyer_serial))
    unfolding text_eq
    buyer_serial_arg =
        after_charge (codes "-buyer-serial") refl refl
        ∙ arg-other (codes "--buyer") _ (codes "--buyer-serial") refl
        ∙ arg-other buyer_hex _ (codes "--buyer-serial") (IsValue-other _ _ is_buyer)
        ∙ arg-other (codes "--seller-serial") _ (codes "--buyer-serial") refl
        ∙ arg-other (join (codes ",") (word_strings miden seller_serial)) _ (codes "--buyer-serial")
            (IsValue-other _ _ (word_strings-IsValue miden small seller_serial))
        ∙ arg-here (codes "--buyer-serial") _ _

    -- The program reads from the command line what the server was given: note, charge, buyer and
    -- serials.
    pub arguments-settle_args :
        (buyer : AccountId)
        → charge < u64_mod
        → account_from_hex buyer_hex ≡ some buyer
        → arguments h command
          ≡ ok (record {
            escrow_b64 = note_b64;
            charge = charge;
            buyer = buyer;
            seller_serial = seller_serial;
            buyer_serial = buyer_serial;
          })
    unfolding arguments arg_value
    arguments-settle_args buyer fits reads = rw (
      note_arg,
      charge_arg,
      parse_u64-to_string charge fits,
      buyer_arg,
      reads,
      seller_serial_arg,
      parse_serial-join miden small seller_serial,
      buyer_serial_arg,
      parse_serial-join miden small buyer_serial,
    )
