-- ===== src/Verify/Funded.antt =====
-- The escrow that build_escrow.rs prints is the one that verify_escrow.rs looks for.
use bartok.Base.{◌≡◌, refl, ap, ◌∙◌, Option, some, List, ok}
use bartok.Text.{Text, codes, trim}
use bartok.Miden.{Word, Note}
use bartok.Cli.{arg}
use bartok.Host.{Host, read_accounts, account_at, budget_of}
use bartok.Escrow.{Inputs, Parameters, EscrowBuilt, build_escrow, parameters, report}
use bartok.Escrow.Layout.{build_escrow-IsEscrow}
use bartok.Settle.Announced.{budget_of-one}
use bartok.Verify.{Escrowed, read_escrow, tries_of}

module _ (h : Host) where
  open h use {
    miden, Felt, AccountId, Json, Bytes, b64_decode, b64_encode, note_to_bytes, note_from_bytes,
    note_from_to_bytes, id_eq_iff, faucet_id, amount,
  }

  -- The text that build_escrow.rs prints for the note, given to verify_escrow.rs beside the same
  -- faucet, is read back as that note, with the budget of build_escrow.rs. The Base64 text of the note
  -- decodes to its bytes.
  pub report-read_escrow :
      (env : Inputs Bytes (Word Felt)) (b : EscrowBuilt h) (p : Parameters AccountId)
      (args : List Text) (accounts_json : Option Text) (accounts : Json)
      → build_escrow h env ≡ ok b
      → parameters h env ≡ ok p
      → arg args (codes "--escrow-note-b64") ≡ some (report h b).note_b64
      → read_accounts h accounts_json ≡ ok accounts
      → account_at h accounts "faucet" "faucet missing" ≡ ok p.faucet
      → b64_decode (trim (b64_encode (note_to_bytes b.escrow_note)))
        ≡ some (note_to_bytes b.escrow_note)
      → (e : Escrowed (Note miden)) × (read_escrow h args accounts_json ≡ ok e)
        × (e.note ≡ b.escrow_note)
        × (e.budget ≡ p.budget)
  unfolding read_escrow report
  report-read_escrow env b p args accounts_json accounts built read flag parses faucet decodes =
      let (p', read', i) = build_escrow-IsEscrow h env b built in
      let same : p' ≡ p = cc in
      let (a, one, of_faucet, value, _) = i.holds in
      let here : faucet_id a ≡ p.faucet = of_faucet ∙ ap (λ q. q.faucet) same in
      let held : budget_of miden p.faucet b.escrow_note.assets ≡ some (amount a) =
        ap (budget_of miden p.faucet) one ∙ budget_of-one h p.faucet a here in
      (
        record {
          note = b.escrow_note;
          budget = amount a;
          tries = tries_of (arg args (codes "--tries"));
        },
        rw (flag, parses, faucet, decodes, note_from_to_bytes b.escrow_note, held),
        refl,
        value ∙ ap (λ q. q.budget) same,
      )
