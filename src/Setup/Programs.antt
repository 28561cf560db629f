-- ===== src/Setup/Programs.antt =====
-- setup_accounts.rs and new_faucet.rs: accounts are created with the client helpers, and their ids
-- are written to `accounts.json`.
use bartok.Base.{ℕ, ◌-◌, ◌^◌, ◌≡◌, ◌≢◌, ok}
use bartok.Base.Action.{
  Action, ◌>>=◌, ◌>>◌, lift, with_context, continue-eq-ok, context-continue, result-continue,
  relabel-eq-ok,
}
use bartok.Text.{Text, codes}
use bartok.Host.{Host}
use bartok.Role.{Files}
use bartok.Client.{
  private, ClientSdk, setup_client, create_basic_wallet_account, create_basic_faucet_account,
}
use bartok.Client.Signing.{
  IsSignable, Same, create_basic_wallet_account-IsRegistered,
  create_basic_faucet_account-IsRegistered, IsSignable-Same, IsSignable-IsRegistered,
}
use bartok.Setup.{JsonDoc, accounts_doc, merge_faucet, accounts_path}

-- `MAX_SUPPLY`
abbrev pub max_supply : ℕ
max_supply = 2 ^ 63 - 2 ^ 31

module _ (h : Host) (d : JsonDoc h) (c : ClientSdk h) (f : Files c.World) where
  open c use {World, Client, Keystore, Account, account_id, sync_state}
  open f use {read_to_string, write, write_read}

  -- `main` of setup_accounts.rs
  unfoldable pub setup_accounts : Action World (Unit {0})
  setup_accounts = do
    s ← setup_client h c
    with_context (sync_state s.client) "initial sync failed"
    seller ← create_basic_wallet_account h c s.client s.keystore private
    operator ← create_basic_wallet_account h c s.client s.keystore private
    faucet ← create_basic_faucet_account h c s.client s.keystore (codes "BART") 0 100000000
    text ← lift (accounts_doc h d (account_id seller) (account_id operator) (account_id faucet))
    with_context (write accounts_path text) "failed to write ../accounts.json"

  -- `main` of new_faucet.rs
  unfoldable pub new_faucet : Action World (Unit {0})
  new_faucet = do
    s ← setup_client h c
    with_context (sync_state s.client) "initial sync failed"
    faucet ← create_basic_faucet_account h c s.client s.keystore (codes "BART") 2 max_supply
    file ← λ w. (read_to_string accounts_path w, w)
    text ← lift (merge_faucet h d (account_id faucet) file)
    write accounts_path text

  -- Where setup_accounts.rs succeeds, `accounts.json` holds the ids of two wallets and a faucet, which
  -- are three different accounts, and at the end each of them can be signed for. The file is apart
  -- from the client's store and from the keystore.
  pub setup_accounts-IsSignable :
      (w w' : World)
      → ((id : h.AccountId) (text : Text) (v v' : World)
          → write accounts_path text v ≡ (ok tt, v')
          → Same h c id v v')
      → setup_accounts w ≡ (ok tt, w')
      → (seller operator faucet : Account) × (text : Text) × IsSignable h c seller w'
        × IsSignable h c operator w'
        × IsSignable h c faucet w'
        × (account_id seller ≢ account_id operator)
        × (account_id seller ≢ account_id faucet)
        × (account_id operator ≢ account_id faucet)
        × (accounts_doc h d (account_id seller) (account_id operator) (account_id faucet) ≡ ok text)
        × (read_to_string accounts_path w' ≡ ok text)
  unfolding setup_accounts
  setup_accounts-IsSignable w w' apart e =
      let (s, w1, _, e1) = continue-eq-ok (setup_client h c w) _ e in
      let (_, w2, _, e2) = context-continue _ (sync_state s.client w1) _ e1 in
      let (seller, w3, made, e3) =
        continue-eq-ok (create_basic_wallet_account h c s.client s.keystore private w2) _ e2 in
      let (operator, w4, made', e4) =
        continue-eq-ok (create_basic_wallet_account h c s.client s.keystore private w3) _ e3 in
      let (faucet, w5, made'', e5) =
        continue-eq-ok
          (create_basic_faucet_account h c s.client s.keystore (codes "BART") 0 100000000 w4) _
          e4 in
      let (text, printed, e6) =
        result-continue
          (accounts_doc h d (account_id seller) (account_id operator) (account_id faucet)) w5 _
          e5 in
      let wrote : write accounts_path text w5 ≡ (ok tt, w') =
        relabel-eq-ok _ (write accounts_path text w5) e6 in
      let one =
        create_basic_wallet_account-IsRegistered h c s.client s.keystore private w2 w3 seller
          made in
      let two =
        create_basic_wallet_account-IsRegistered h c s.client s.keystore private w3 w4 operator
          made' in
      let three =
        create_basic_faucet_account-IsRegistered h c s.client s.keystore (codes "BART") 0 100000000
          w4 w5 faucet made'' in
      let (seller≢operator, seller_then) =
        IsSignable-IsRegistered h c seller operator w3 w4 one.signable two in
      let (seller≢faucet, seller_last) =
        IsSignable-IsRegistered h c seller faucet w4 w5 seller_then three in
      let (operator≢faucet, operator_last) =
        IsSignable-IsRegistered h c operator faucet w4 w5 two.signable three in
      let at_end : (a : Account) → IsSignable h c a w5 → IsSignable h c a w' =
        λ a. IsSignable-Same h c a w5 w' (apart (account_id a) text w5 w' wrote) in
      (
        seller,
        operator,
        faucet,
        text,
        at_end seller seller_last,
        at_end operator operator_last,
        at_end faucet three.signable,
        seller≢operator,
        seller≢faucet,
        operator≢faucet,
        printed,
        write_read accounts_path text w5 w' wrote,
      )
