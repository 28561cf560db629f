-- ===== src/Fund/Mint.antt =====
-- The mint transaction of fund_buyer.rs, over the client of `Verify.Poll`.
use bartok.Base.{◌≡◌, inl, inr, Option, some, List, Result, ok, context, Result-cases, Option-cases}
use bartok.Base.Action.{Action, ◌>>=◌, ◌>>◌, lift, outcome}
use bartok.Text.{Text}
use bartok.Miden.{public}
use bartok.Host.{Host}
use bartok.Verify.Poll.{Chain}
use bartok.Fund.{Grant, read_grant}

module _ (h : Host) (c : Chain h) where
  open h use {AccountId, Fungible, Request, fungible_new, faucet_id, amount, new_fields}
  open c use {World, Client, TxId, setup_client, sync_state, build_mint, submit_new_transaction}

  -- `main`, from the client on; the sync behind the submission may fail.
  unfoldable pub mint : Grant AccountId → Action World TxId
  mint g = do
    client ← setup_client
    sync_state client
    asset ← lift (context (fungible_new g.faucet g.amount) "fungible asset")
    request ← build_mint client asset g.buyer public
    tx_id ← submit_new_transaction client g.faucet request
    λ w. (ok tx_id, (sync_state client w).1)

  -- `main`
  unfoldable pub fund_buyer : List Text → Option Text → Action World TxId
  fund_buyer args accounts_json = do g ← lift (read_grant h args accounts_json); mint g

  -- A transaction that was submitted between worlds `w` and `w'`, as the faucet's, and that mints
  -- the amount of the grant, in a public note, to the buyer.
  pub record IsMint (g : Grant AccountId) (w w' : World) (tx_id : TxId) : Type 0 where
    pub client : Client
    pub asset : Fungible
    pub request : Request
    pub connected : World
    pub synced : World
    pub built : World
    pub submitted : World
    pub connects : setup_client w ≡ (ok client, connected)
    pub syncs : sync_state client connected ≡ (ok tt, synced)
    pub of_faucet : faucet_id asset ≡ g.faucet
    pub of_amount : amount asset ≡ g.amount
    pub builds : build_mint client asset g.buyer public synced ≡ (ok request, built)
    pub submits : submit_new_transaction client g.faucet request built ≡ (ok tx_id, submitted)
    pub ends : (sync_state client submitted).1 ≡ w'

  IsMint-from_asset :
      (g : Grant AccountId) (w w1 w2 : World) {w' : World} {tx_id : TxId} (client : Client)
      (asset : Fungible)
      → setup_client w ≡ (ok client, w1)
      → sync_state client w1 ≡ (ok tt, w2)
      → fungible_new g.faucet g.amount ≡ some asset
      → (do
        request ← build_mint client asset g.buyer public
        id ← submit_new_transaction client g.faucet request
        λ w3. (ok id, (sync_state client w3).1))
          w2
        ≡ (ok tx_id, w')
      → IsMint g w w' tx_id
  IsMint-from_asset g w w1 w2 {w'} {tx_id} client asset connects syncs made e =
      elim (outcome (build_mint client asset g.buyer public w2)) [
        | inr (_, _, failed) ↦ cc (rw failed at e)
        | inl (request, w3, builds) ↦
            elim (outcome (submit_new_transaction client g.faucet request w3)) [
              | inr (_, _, failed) ↦ cc (rw (builds, failed) at e)
              | inl (id, w4, submits) ↦
                  let (of_faucet, of_amount) = new_fields g.faucet g.amount asset made in
                  let done : ◌≡◌ {A = Result TxId × World} (ok id, (sync_state client w4).1)
                      (ok tx_id, w') =
                    rw (builds, submits) at e in
                  let same : id ≡ tx_id = cc in
                  let last : (sync_state client w4).1 ≡ w' = cc in
                  record {
                    client = client;
                    asset = asset;
                    request = request;
                    connected = w1;
                    synced = w2;
                    built = w3;
                    submitted = w4;
                    connects = connects;
                    syncs = syncs;
                    of_faucet = of_faucet;
                    of_amount = of_amount;
                    builds = builds;
                    submits = rw (← same) submits;
                    ends = last;
                  }
            ]
      ]

  mint-IsMint :
      (g : Grant AccountId) (w : World) {w' : World} {tx_id : TxId}
      → mint g w ≡ (ok tx_id, w')
      → IsMint g w w' tx_id
  unfolding mint
  mint-IsMint g w e = elim (outcome (setup_client w)) [
    | inr (_, _, failed) ↦ cc (rw failed at e)
    | inl (client, w1, connects) ↦ elim (outcome (sync_state client w1)) [
      | inr (_, _, failed) ↦ cc (rw (connects, failed) at e)
      | inl (_, w2, syncs) ↦ elim (Option-cases (fungible_new g.faucet g.amount)) [
        | inl refused ↦ cc (rw (connects, syncs, refused) at e)
        | inr (asset, made) ↦
            IsMint-from_asset g w w1 w2 client asset connects syncs made
              (rw (connects, syncs, made) at e)
      ]
    ]
  ]

  -- Where `fund_buyer` succeeds, the grant was read from its arguments and `accounts.json`, and it
  -- printed the id of a transaction of that grant's faucet that mints exactly the grant's amount of
  -- the faucet's asset to the grant's buyer, submitted after a successful sync.
  pub fund_buyer-IsMint :
      (args : List Text) (accounts_json : Option Text) (w w' : World) (tx_id : TxId)
      → fund_buyer args accounts_json w ≡ (ok tx_id, w')
      → (g : Grant AccountId) × (read_grant h args accounts_json ≡ ok g) × IsMint g w w' tx_id
  unfolding fund_buyer
  fund_buyer-IsMint args accounts_json w w' tx_id e =
      elim (Result-cases (read_grant h args accounts_json)) [
        | inr (_, failed) ↦ cc (rw failed at e)
        | inl (g, read) ↦ (g, read, mint-IsMint g w (rw read at e))
      ]
