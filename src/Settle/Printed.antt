-- ===== src/Settle/Printed.antt =====
-- From what build_escrow.rs prints to a settlement: settle_session.rs, called with the printed note
-- and serials beside the same `accounts.json`.
pub mod Reading
use bartok.Base.{
  ℕ, ◌+◌, ◌≤◌, ◌<◌, ◌≡◌, refl, sym, ap, ◌∙◌, Option, some, ◌++◌, map, String, ok, context-eq-ok,
  >>=-eq-ok, ok_inj, le→leb, length, arith,
}
use mathlib.Core.Path.{subst}
use bartok.Text.{Text, codes, trim}
use bartok.Text.Decimal.{u64_mod, parse_u64}
use bartok.Miden.{Word}
use bartok.Contract.{BartokSettlement, Kernel, run, vm_asset, vm_note}
use bartok.Contract.Storage.{from_items}
use bartok.Cli.{arg_value}
use bartok.Host.{Host, read_accounts, account_at, budget_of}
use bartok.Escrow.{Inputs, Parameters, EscrowBuilt, build_escrow, parameters, report}
use bartok.Escrow.Layout.{IsEscrow, build_escrow-IsEscrow}
use bartok.Settle.{
  Arguments, Accounts, SettleSession, Settled, accounts_of, open_with, open_session, announce,
}
use bartok.Settle.Budget.{session_of}
use bartok.Settle.Announced.{announced, budget_of-one}
use bartok.Settle.Agreement.{announce-run}
use bartok.Settle.Command.{settle_args, IsValue, arguments-settle_args}
use bartok.Settle.Printed.Reading.{
  account_at-message, Read, Read-same, accounts_of-Read, Asked, parameters-Asked, SameAccounts,
  parameters-SameAccounts,
}

module _ (h : Host) where
  open h use {
    miden, Felt, AccountId, Json, Bytes, json_index, json_str, json_u64, account_from_hex,
    b64_decode, b64_encode, note_to_bytes, note_from_bytes, note_from_to_bytes, felt_new, faucet_id,
    amount, value_amount, canonical_lt, asset_value, modulus, new_lt, p2id_recipient, Fungible,
    recipient_storage,
  }

  -- The arguments that the printed values stand for.
  abbrev printed : EscrowBuilt h → Parameters AccountId → ℕ → Arguments (Word Felt) AccountId
  printed b p charge = record {
    escrow_b64 = (report h b).note_b64;
    charge = charge;
    buyer = p.buyer;
    seller_serial = b.seller_serial;
    buyer_serial = b.buyer_serial;
  }

  -- A charge within the budget is a felt.
  charge-felt :
      (b : EscrowBuilt h) (p : Parameters AccountId) (charge : ℕ)
      → IsEscrow h p b
      → charge ≤ p.budget
      → charge < modulus
  charge-felt b p charge i covered =
      let (a, _, _, value, _) = i.holds in
      omega (arith, canonical_lt (asset_value a).w0, value_amount a, value, covered)

  -- Any charge that the budget of a built escrow covers opens a session on the printed note.
  open_with-printed :
      (b : EscrowBuilt h) (p : Parameters AccountId) (c : Accounts AccountId) (charge : ℕ)
      (salt : Word Felt)
      → IsEscrow h p b
      → c.faucet ≡ p.faucet
      → b64_decode (trim (report h b).note_b64) ≡ some (note_to_bytes b.escrow_note)
      → charge ≤ p.budget
      → (f : Felt) × (open_with h (printed b p charge) c salt
          ≡ ok (session_of h (printed b p charge) c salt b.escrow_note p.budget f))
  unfolding open_with report
  open_with-printed b p c charge salt i faucet decodes covered =
      let (a, one, of_faucet, value, _) = i.holds in
      let held : budget_of miden c.faucet b.escrow_note.assets ≡ some p.budget =
        ap (budget_of miden c.faucet) one
        ∙ budget_of-one h c.faucet a (of_faucet ∙ sym faucet)
        ∙ ap some value in
      let (f, fits) = new_lt charge (charge-felt b p charge i covered) in
      (
        f,
        rw (decodes, note_from_to_bytes b.escrow_note, held, le→leb charge p.budget covered, fits),
      )

  module _ (small : modulus ≤ u64_mod) where
    -- The server's call is read back as those arguments.
    open_session-settle_args :
        (b : EscrowBuilt h) (p : Parameters AccountId) (c : Accounts AccountId)
        (accounts_json : Option Text) (program buyer_hex : Text) (charge : ℕ) (salt : Word Felt)
        → accounts_of h accounts_json ≡ ok c
        → account_from_hex buyer_hex ≡ some p.buyer
        → IsValue program
        → IsValue buyer_hex
        → IsValue (report h b).note_b64
        → charge < modulus
        → open_session h
            (settle_args program
              (report h b).note_b64
              charge
              buyer_hex
              (report h b).seller_serial
              (report h b).buyer_serial)
            accounts_json
            salt
          ≡ open_with h (printed b p charge) c salt
    unfolding open_session report
    open_session-settle_args b p c accounts_json program buyer_hex charge salt known reads
          is_program is_buyer is_note fits =
        rw (
          arguments-settle_args h small program _ charge buyer_hex b.seller_serial b.buyer_serial
              is_program is_note is_buyer p.buyer (omega arith) reads,
          known,
        )

    module _ (k : Kernel miden) where
      open k use {Tx, active_account, note_assets, outputs, output_limit}

      -- The web server's call of settle_session.rs with what build_escrow.rs printed, the buyer of that
      -- program's arguments and the same `accounts.json`, for any charge within the budget: it never
      -- refuses before it connects. It opens a session on the very escrow note, with charge and refund
      -- that make up the budget; when the operator consumes the note with the session's argument and
      -- there is room for two notes, the script succeeds, and the report lists exactly the notes that
      -- the script creates. The values are taken for no flags, a felt fits 64 bits, and the printed
      -- Base64 text decodes to the note's bytes.
      pub report-settles :
          {Key : Type 0} (env : Inputs Bytes (Word Felt)) (b : EscrowBuilt h)
          (p : Parameters AccountId) (c : Accounts AccountId) (program buyer_hex : Text)
          (charge : ℕ) (salt : Word Felt) (id : Key) (t : Tx)
          → build_escrow h env ≡ ok b
          → parameters h env ≡ ok p
          → accounts_of h env.accounts_json ≡ ok c
          → arg_value env.args (codes "--buyer") ≡ ok buyer_hex
          → IsValue program
          → IsValue buyer_hex
          → IsValue (report h b).note_b64
          → b64_decode (trim (report h b).note_b64) ≡ some (note_to_bytes b.escrow_note)
          → charge ≤ p.budget
          → active_account t ≡ p.operator
          → note_assets t ≡ map (vm_asset miden) b.escrow_note.assets
          → length (outputs t) + 1 < output_limit
          → (s : SettleSession h) × (self : BartokSettlement Felt) × (t' : Tx) × (r : Settled h Key)
            × (open_session h
                  (settle_args program
                    (report h b).note_b64
                    charge
                    buyer_hex
                    (report h b).seller_serial
                    (report h b).buyer_serial)
                  env.accounts_json
                  salt
                ≡ ok s)
            × (s.escrow_note ≡ b.escrow_note)
            × (s.charge ≡ charge)
            × (s.charge + s.refund ≡ p.budget)
            × (from_items (recipient_storage b.escrow_note.recipient) ≡ some self)
            × (run miden k self s.args_word t ≡ ok t')
            × (announce h s id ≡ ok r)
            × (outputs t' ≡ outputs t ++ map (vm_note miden) (announced h k r))
      report-settles env b p c program buyer_hex charge salt id t built read known named is_program
            is_buyer is_note decodes covered operator holds room =
          let (p', read', i') = build_escrow-IsEscrow h env b built in
          let i : IsEscrow h p b = subst (λ q. IsEscrow h q b) (ok_inj (sym read' ∙ read)) i' in
          let same = parameters-SameAccounts h env p c read known in
          let reads : account_from_hex buyer_hex ≡ some p.buyer =
            ap account_from_hex (ok_inj (sym named ∙ same.named)) ∙ same.buyer in
          let (f, opened) = open_with-printed b p c charge salt i same.faucet decodes covered in
          let called =
            open_session-settle_args b p c env.accounts_json program buyer_hex charge salt known
              reads is_program is_buyer is_note (charge-felt b p charge i covered) in
          let (self, t', r, stored, done, told, notes) =
            announce-run h k env b p (printed b p charge) c salt _ id t built read opened refl
              same.seller same.faucet refl refl refl operator holds room in
          (
            _,
            self,
            t',
            r,
            called ∙ opened,
            refl,
            refl,
            omega (arith, covered),
            stored,
            done,
            told,
            notes,
          )
