-- ===== src/Bridge/Honoured/Arguments.antt =====
-- The call of build_escrow.rs in ux-prototype/server.js, and what the program reads there.
use bartok.Base.{ℕ, ◌<◌, ◌≡◌, refl, sym, ap, ◌∙◌, Option, some, [], ◌∷◌, ok, ok_inj}
use bartok.Text.{Text, codes, text_eq}
use bartok.Text.Decimal.{u64_mod, to_string, parse_u64}
use bartok.Text.Laws.{parse_u64-to_string}
use bartok.Miden.{Word}
use bartok.Cli.{arg, arg_value}
use bartok.Host.{Host}
use bartok.Escrow.{Inputs, Parameters, parameters}
use bartok.Settle.Command.{IsValue, IsValue-other, arg-other, arg-here}
use bartok.Settle.Printed.Reading.{parameters-Asked}
use bartok.Bridge.Steps.{escrow_args}

module _ (program buyer : Text) (budget : ℕ) (is_program : IsValue program)
    (is_buyer : IsValue buyer) where
  pub escrow_args-buyer : arg_value (escrow_args program buyer budget) (codes "--buyer") ≡ ok buyer
  unfolding escrow_args arg_value
  escrow_args-buyer =
      let found : arg (escrow_args program buyer budget) (codes "--buyer") ≡ some buyer =
        arg-other program (codes "--buyer" ∷ buyer ∷ codes "--budget" ∷ to_string budget ∷ [])
          (codes "--buyer") (IsValue-other program _ is_program)
        ∙ arg-here (codes "--buyer") buyer (codes "--budget" ∷ to_string budget ∷ []) in
      rw found

  pub escrow_args-budget :
      arg_value (escrow_args program buyer budget) (codes "--budget") ≡ ok (to_string budget)
  unfolding escrow_args arg_value text_eq
  escrow_args-budget =
      let found : arg (escrow_args program buyer budget) (codes "--budget")
          ≡ some (to_string budget) =
        arg-other program (codes "--buyer" ∷ buyer ∷ codes "--budget" ∷ to_string budget ∷ [])
          (codes "--budget") (IsValue-other program _ is_program)
        ∙ arg-other (codes "--buyer") (buyer ∷ codes "--budget" ∷ to_string budget ∷ [])
            (codes "--budget") refl
        ∙ arg-other buyer (codes "--budget" ∷ to_string budget ∷ []) (codes "--budget")
            (IsValue-other buyer _ is_buyer)
        ∙ arg-here (codes "--budget") (to_string budget) [] in
      rw found

module _ (h : Host) (program : Text) (accounts_json : Option Text) where
  open h use {miden, Felt, Bytes, AccountId, account_from_hex}

  pub escrow_args-named :
      (env : Inputs Bytes (Word Felt)) (buyer : Text) (budget : ℕ)
      → IsValue program
      → IsValue buyer
      → env.args ≡ escrow_args program buyer budget
      → arg_value env.args (codes "--buyer") ≡ ok buyer
  escrow_args-named env buyer budget is_program is_buyer args =
      ap (λ a. arg_value a (codes "--buyer")) args
      ∙ escrow_args-buyer program buyer budget is_program is_buyer

  -- What build_escrow.rs understood of the server's call.
  pub escrow_args-Asked :
      (env : Inputs Bytes (Word Felt)) (p : Parameters AccountId) (buyer : Text) (budget : ℕ)
      → IsValue program
      → IsValue buyer
      → budget < u64_mod
      → env.args ≡ escrow_args program buyer budget
      → parameters h env ≡ ok p
      → (account_from_hex buyer ≡ some p.buyer) × (p.budget ≡ budget)
  escrow_args-Asked env p buyer budget is_program is_buyer fits args read =
      let ((buyer_hex, named, reads), (budget_text, hold, counts), _) =
        parameters-Asked h env p read in
      let same_buyer : buyer ≡ buyer_hex =
        ok_inj (sym (escrow_args-named env buyer budget is_program is_buyer args) ∙ named) in
      let same_text : to_string budget ≡ budget_text = ok_inj (
        sym (escrow_args-budget program buyer budget is_program is_buyer)
        ∙ sym (ap (λ a. arg_value a (codes "--budget")) args)
        ∙ hold) in
      (
        ap account_from_hex same_buyer ∙ reads,
        cc (sym counts ∙ sym (ap parse_u64 same_text) ∙ parse_u64-to_string budget fits),
      )
