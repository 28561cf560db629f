-- ===== src/Settle/Printed/Reading.antt =====
-- The accounts that build_escrow.rs and settle_session.rs read from one `accounts.json`.
use bartok.Base.{◌≡◌, sym, ◌∙◌, Option, some, String, ok, context-eq-ok, >>=-eq-ok, ok_inj}
use mathlib.Core.Path.{subst}
use bartok.Text.{Text, codes}
use bartok.Text.Decimal.{parse_u64}
use bartok.Miden.{Word}
use bartok.Cli.{arg_value}
use bartok.Host.{Host, read_accounts, account_at}
use bartok.Escrow.{Inputs, Parameters, parameters}
use bartok.Settle.{Accounts, accounts_of}

module _ (h : Host) where
  open h use {
    miden, Felt, AccountId, Json, Bytes, json_index, json_str, json_u64, account_from_hex,
    b64_decode, b64_encode, note_to_bytes, note_from_bytes, note_from_to_bytes, felt_new, faucet_id,
    amount, value_amount, canonical_lt, asset_value, modulus, new_lt, p2id_recipient, Fungible,
    recipient_storage,
  }

  -- The message for a missing key makes no difference to what is found.
  pub account_at-message :
      (j : Json) (key m n : String) {a : AccountId}
      → account_at h j key m ≡ ok a
      → account_at h j key n ≡ ok a
  account_at-message j key m n e =
      let (hex, found, e1) = context-eq-ok (json_str (json_index j (codes key))) m _ e in
      rw found e1

  -- The three accounts of the file, whatever the messages for a missing one.
  abbrev pub Read : Option Text → AccountId → AccountId → AccountId → Type 0
  Read file seller faucet operator =
      (j : Json) × (read_accounts h file ≡ ok j)
      × (account_at h j "sellerMultisig" "" ≡ ok seller)
      × (account_at h j "faucet" "" ≡ ok faucet)
      × (account_at h j "operatorMultisig" "" ≡ ok operator)

  pub Read-same :
      (file : Option Text) {s s' f f' o o' : AccountId}
      → Read file s f o
      → Read file s' f' o'
      → (s ≡ s') × (f ≡ f') × (o ≡ o')
  Read-same file (j, read, e1, e2, e3) (j', read', e1', e2', e3') =
      let one_file : j' ≡ j = ok_inj (sym read' ∙ read) in
      let same = λ (key : String) (a : AccountId) (e : account_at h j' key "" ≡ ok a).
        subst (λ x. account_at h x key "" ≡ ok a) one_file e in
      (
        ok_inj (sym e1 ∙ same "sellerMultisig" _ e1'),
        ok_inj (sym e2 ∙ same "faucet" _ e2'),
        ok_inj (sym e3 ∙ same "operatorMultisig" _ e3'),
      )

  pub accounts_of-Read :
      (file : Option Text) (c : Accounts AccountId)
      → accounts_of h file ≡ ok c
      → Read file c.seller c.faucet c.operator_multisig
  unfolding accounts_of
  accounts_of-Read file c known =
      let (j, read, k1) = >>=-eq-ok (read_accounts h file) _ known in
      let (seller, is_seller, k2) = >>=-eq-ok (account_at h j "sellerMultisig" _) _ k1 in
      let (operator, is_operator, k3) = >>=-eq-ok (account_at h j "operatorMultisig" _) _ k2 in
      let (faucet, is_faucet, k4) = >>=-eq-ok (account_at h j "faucet" _) _ k3 in
      let (grpc, _, k5) = context-eq-ok (json_str (json_index j (codes "guardianGrpc"))) _ _ k4 in
      subst (λ q. Read file q.seller q.faucet q.operator_multisig) (ok_inj k5)
        (
          j,
          read,
          account_at-message j "sellerMultisig" "sellerMultisig missing — run setup_multisigs" ""
              is_seller,
          account_at-message j "faucet" "faucet missing" "" is_faucet,
          account_at-message j "operatorMultisig" "operatorMultisig missing" "" is_operator,
        )

  -- The buyer and the budget of the arguments, and the accounts of the file.
  abbrev pub Asked : Inputs Bytes (Word Felt) → Parameters AccountId → Type 0
  Asked env p =
      ((buyer_hex : Text) × (arg_value env.args (codes "--buyer") ≡ ok buyer_hex)
        × (account_from_hex buyer_hex ≡ some p.buyer))
      × ((budget_text : Text) × (arg_value env.args (codes "--budget") ≡ ok budget_text)
          × (parse_u64 budget_text ≡ some p.budget))
      × Read env.accounts_json p.seller p.faucet p.operator

  pub parameters-Asked :
      (env : Inputs Bytes (Word Felt)) (p : Parameters AccountId)
      → parameters h env ≡ ok p
      → Asked env p
  unfolding parameters
  parameters-Asked env p read =
      let (buyer_hex, named, e1) = >>=-eq-ok (arg_value env.args (codes "--buyer")) _ read in
      let (buyer, reads, e2) = context-eq-ok (account_from_hex buyer_hex) _ _ e1 in
      let (budget_text, hold, e3) = >>=-eq-ok (arg_value env.args (codes "--budget")) _ e2 in
      let (budget, counts, e4) = context-eq-ok (parse_u64 budget_text) _ _ e3 in
      let (j, file, e5) = >>=-eq-ok (read_accounts h env.accounts_json) _ e4 in
      let (seller, is_seller, e6) = >>=-eq-ok (account_at h j "sellerMultisig" _) _ e5 in
      let (faucet, is_faucet, e7) = >>=-eq-ok (account_at h j "faucet" _) _ e6 in
      let (operator, is_operator, e8) = >>=-eq-ok (account_at h j "operatorMultisig" _) _ e7 in
      let (tag, _, e9) = context-eq-ok (json_u64 (json_index j (codes "operatorTag"))) _ _ e8 in
      subst (Asked env) (ok_inj e9) (
        (buyer_hex, named, reads),
        (budget_text, hold, counts),
        (
          j,
          file,
          account_at-message j "sellerMultisig" "sellerMultisig missing" "" is_seller,
          account_at-message j "faucet" "faucet missing" "" is_faucet,
          account_at-message j "operatorMultisig" "operatorMultisig missing — run setup_multisigs"
              "" is_operator,
        ),
      )

  -- The two programs read the same accounts from the same file.
  pub record SameAccounts (env : Inputs Bytes (Word Felt)) (p : Parameters AccountId)
      (c : Accounts AccountId) : Type 0 where
    pub buyer_hex : Text
    pub named : arg_value env.args (codes "--buyer") ≡ ok buyer_hex
    pub buyer : account_from_hex buyer_hex ≡ some p.buyer
    pub seller : c.seller ≡ p.seller
    pub faucet : c.faucet ≡ p.faucet
    pub operator : c.operator_multisig ≡ p.operator

  pub parameters-SameAccounts :
      (env : Inputs Bytes (Word Felt)) (p : Parameters AccountId) (c : Accounts AccountId)
      → parameters h env ≡ ok p
      → accounts_of h env.accounts_json ≡ ok c
      → SameAccounts env p c
  parameters-SameAccounts env p c read known =
      let ((buyer_hex, named, reads), _, theirs) = parameters-Asked env p read in
      let (seller, faucet, operator) =
        Read-same env.accounts_json (accounts_of-Read env.accounts_json c known) theirs in
      record {
        buyer_hex = buyer_hex;
        named = named;
        buyer = reads;
        seller = seller;
        faucet = faucet;
        operator = operator;
      }
