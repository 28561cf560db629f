-- ===== src/Settle.antt =====
-- miden/integration/src/bin/settle_session.rs: a session is settled through the operator's Guardian
-- multisig. The program is in three parts: what it computes before it talks to anyone, the
-- proposal with its countersignature, and the notes that it announces.
pub mod Program
pub mod Budget
pub mod Countersign
pub mod Announced
pub mod Agreement
pub mod Command
pub mod Printed
use bartok.Base.{
  ℕ, ◌-◌, Bool, Option, none, some, List, [], ◌∷◌, ◌++◌, String, Result, ok, err, ◌>>=◌, ◌>>◌,
  ensure, context, ltb, leb, if◌then◌else◌,
}
use bartok.Base.Action.{Action}
use bartok.Text.{Text, codes, trim}
use bartok.Text.Decimal.{parse_u64}
use bartok.Miden.{Miden, Word, NoteType, Asset, fungible, Metadata, Note}
use bartok.Cli.{arg_value, parse_serial}
use bartok.Host.{Host, Parts, RequestParts, read_accounts, account_at, budget_of}

-- The arguments.
pub record Arguments (W Account : Type 0) : Type 0 where
  pub escrow_b64 : Text
  pub charge : ℕ
  pub buyer : Account
  pub seller_serial : W
  pub buyer_serial : W

-- What `accounts.json` says.
pub record Accounts (Account : Type 0) : Type 0 where
  pub seller : Account
  pub operator_multisig : Account
  pub faucet : Account
  pub guardian_grpc : Text

-- What the program computes before it connects.
pub record Session (N R W Account F : Type 0) : Type 0 where
  pub charge : ℕ
  pub refund : ℕ
  pub buyer : Account
  pub seller : Account
  pub operator_multisig : Account
  pub faucet : Account
  pub guardian_grpc : Text
  pub escrow_note : N
  pub out_note_type : NoteType
  pub seller_recipient : R
  pub buyer_recipient : R
  pub args_word : W
  pub salt : W

-- The operator's client of Bartok-Guardian, and the chain behind it: a world that each call may
-- change, also a call that fails.
pub record Guardian (h : Host) : Type 1 where
  pub World : Type 0
  pub Client : Type 0
  pub ProposalId : Type 0
  pub guardian_role_client : Text → Text → Option h.AccountId → Action World Client
  pub propose_custom_transaction : Client → h.Bytes → Text → Action World ProposalId
  pub prepare_custom_execution :
      Client → ProposalId → h.Bytes → Action World (List (Word h.Felt × List h.Felt))
  pub submit_transaction : Client → h.Request → Action World (Unit {0})

module _ (h : Host) where
  open h use {
    miden, Felt, AccountId, Recipient, Bytes, Request, Fungible, Other, felt_new, felt_zero,
    account_from_hex, json_index, json_str, b64_decode, b64_encode, note_from_bytes, note_id,
    note_file_to_bytes, p2id_recipient, with_account_target, fungible_new, assets_new,
    request_build, request_to_bytes, to_hex,
  }

  abbrev pub SettleSession : Type 0
  SettleSession = Session (Note miden) Recipient (Word Felt) AccountId Felt

  -- `main`, its first part: the arguments.
  unfoldable pub arguments : List Text → Result (Arguments (Word Felt) AccountId)
  arguments args = do
    escrow_b64 ← arg_value args (codes "--escrow-note-b64")
    charge ← context (parse_u64 (← arg_value args (codes "--charge"))) "bad charge"
    buyer ← context (account_from_hex (← arg_value args (codes "--buyer"))) "bad buyer id"
    seller_serial ← parse_serial miden (← arg_value args (codes "--seller-serial"))
    buyer_serial ← parse_serial miden (← arg_value args (codes "--buyer-serial"))
    ok (record {
      escrow_b64 = escrow_b64;
      charge = charge;
      buyer = buyer;
      seller_serial = seller_serial;
      buyer_serial = buyer_serial;
    })

  -- `main`, what it takes from `accounts.json`.
  unfoldable pub accounts_of : Option Text → Result (Accounts AccountId)
  accounts_of accounts_json = do
    accounts ← read_accounts h accounts_json
    seller ← account_at h accounts "sellerMultisig" "sellerMultisig missing — run setup_multisigs"
    operator ← account_at h accounts "operatorMultisig" "operatorMultisig missing"
    faucet ← account_at h accounts "faucet" "faucet missing"
    guardian_grpc ←
        context (json_str (json_index accounts (codes "guardianGrpc"))) "guardianGrpc missing"
    ok (record {
      seller = seller;
      operator_multisig = operator;
      faucet = faucet;
      guardian_grpc = guardian_grpc;
    })

  -- `main`, from the escrow note to the connection.
  unfoldable pub open_with :
      Arguments (Word Felt) AccountId → Accounts AccountId → Word Felt → Result SettleSession
  open_with a c salt = do
    escrow_bytes ← context (b64_decode (trim a.escrow_b64)) "escrow b64 decode"
    escrow_note ← context (note_from_bytes escrow_bytes) "escrow note deserialize"
    budget ←
        context (budget_of miden c.faucet escrow_note.assets) "escrow note carries no BART asset"
    ensure (leb a.charge budget) "charge exceeds escrowed budget"
    charge_felt ← context (felt_new a.charge) "bad charge felt"
    ok (record {
      charge = a.charge;
      refund = budget - a.charge;
      buyer = a.buyer;
      seller = c.seller;
      operator_multisig = c.operator_multisig;
      faucet = c.faucet;
      guardian_grpc = c.guardian_grpc;
      escrow_note = escrow_note;
      out_note_type = escrow_note.metadata.note_type;
      seller_recipient = p2id_recipient c.seller a.seller_serial;
      buyer_recipient = p2id_recipient a.buyer a.buyer_serial;
      args_word = record { w0 = charge_felt; w1 = felt_zero; w2 = felt_zero; w3 = felt_zero };
      salt = salt;
    })

  unfoldable pub open_session : List Text → Option Text → Word Felt → Result SettleSession
  open_session args accounts_json salt = do
    a ← arguments args
    c ← accounts_of accounts_json
    open_with a c salt

  -- `expected`: the recipients of the notes that the script is to put out.
  abbrev pub expected_recipients : SettleSession → List Recipient
  expected_recipients s =
      (if ltb 0 s.charge then s.seller_recipient ∷ [] else [])
      ++ (if ltb 0 s.refund then s.buyer_recipient ∷ [] else [])

  -- The closure `build_request`: the same note, argument, recipients and salt each time.
  abbrev pub settlement_parts : SettleSession → List (Word Felt × List Felt) → Parts h
  settlement_parts s advice = record {
    own_output_notes = [];
    input_notes = (s.escrow_note, s.args_word) ∷ [];
    expected_output_recipients = expected_recipients s;
    auth_arg = some s.salt;
    advice = advice;
  }

  unfoldable pub build_request : SettleSession → List (Word Felt × List Felt) → Result Request
  build_request s advice =
      context (request_build (settlement_parts s advice)) "build settlement request"

  -- The closure `make_note`.
  unfoldable pub make_note : SettleSession → ℕ → Recipient → AccountId → Result (Note miden)
  make_note s amount recipient target = do
    asset ← context (fungible_new s.faucet amount) "fungible asset"
    assets ← context (assets_new (fungible asset ∷ [])) "note assets"
    ok (record {
      assets = assets;
      metadata = record {
        sender = s.operator_multisig;
        note_type = s.out_note_type;
        tag = with_account_target target;
      };
      recipient = recipient;
    })

  -- `(amount > 0).then(|| make_note(..)).transpose()?`
  unfoldable pub make_note_if :
      SettleSession → ℕ → Recipient → AccountId → Result (Option (Note miden))
  make_note_if s amount recipient target =
      let made = make_note s amount recipient target >>= λ n. ok (some n) in
      if ltb 0 amount then made else ok none

  -- The JSON object of the last line, with the notes themselves for the two ids that it names.
  pub record Settled (ProposalId : Type 0) : Type 0 where
    pub settle_proposal_id : ProposalId
    pub seller_note : Option (Note miden)
    pub buyer_note : Option (Note miden)
    pub charge : ℕ
    pub refund : ℕ
    pub refund_note_file_b64 : Option Text
    pub seller_note_file_b64 : Option Text
    pub explorer_account : Text

  abbrev note_file_b64 : AccountId → Option (Note miden) → Option Text
  note_file_b64 target none = none
  note_file_b64 target (some n) =
      some
        (b64_encode (note_file_to_bytes n.assets n.recipient 0 (some (with_account_target target))))

  abbrev pub settled_of :
      {ProposalId : Type 0}
      → SettleSession
      → ProposalId
      → Option (Note miden)
      → Option (Note miden)
      → Settled ProposalId
  settled_of s id seller_note buyer_note = record {
    settle_proposal_id = id;
    seller_note = seller_note;
    buyer_note = buyer_note;
    charge = s.charge;
    refund = s.refund;
    refund_note_file_b64 = note_file_b64 s.buyer buyer_note;
    seller_note_file_b64 = note_file_b64 s.seller seller_note;
    explorer_account = to_hex s.operator_multisig;
  }

  -- `main`, behind the submission.
  unfoldable pub announce :
      {ProposalId : Type 0} → SettleSession → ProposalId → Result (Settled ProposalId)
  announce s id = do
    seller_note ← make_note_if s s.charge s.seller_recipient s.seller
    buyer_note ← make_note_if s s.refund s.buyer_recipient s.buyer
    ok (settled_of s id seller_note buyer_note)
