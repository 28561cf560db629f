-- ===== src/Client.antt =====
-- The client helpers of miden/integration/src/helpers.rs: the Miden client with its keystore, and the
-- two kinds of account. The client library, its account builder and the network are a parameter.
pub mod Signing
pub mod Project
use bartok.Base.{
  ℕ, ◌≡◌, ◌≢◌, Bool, true, false, String, Option, none, some, List, [], ◌∷◌, Result, ok, err,
  context,
}
use bartok.Base.Action.{Action, ◌>>=◌, ◌>>◌, pure, lift, with_context}
use bartok.Text.{Text, codes}
use bartok.Miden.{Note, NoteType, Asset}
use bartok.Host.{Host}
use bartok.Verify.Poll.{Chain}

-- `AccountType`
pub data AccountType : Type 0 where
  private public : AccountType

-- What an account is built with, beside its authentication.
pub data Component (Faucet Policies : Type 0) : Type 0 where
  basic_wallet : Component Faucet Policies
  fungible_faucet : Faucet → Component Faucet Policies
  token_policies : Policies → Component Faucet Policies

-- What `AccountBuilder` is given; `auth` is the commitment of the Falcon key of `AuthSingleSig`.
pub record AccountParts (Faucet Policies Commitment : Type 0) : Type 0 where
  pub seed : List ℕ
  pub account_type : AccountType
  pub auth : Commitment
  pub components : List (Component Faucet Policies)

pub record ClientSdk (h : Host) : Type 1 where
  pub World : Type 0
  pub Client : Type 0
  pub Keystore : Type 0
  pub KeyPair : Type 0
  pub Commitment : Type 0
  pub Account : Type 0
  -- `FilesystemKeyStore::new`, and `ClientBuilder` for the testnet with a store and a keystore.
  pub keystore_new : Text → Action World Keystore
  pub client_build : Text → Keystore → Action World Client
  -- The client's generator: 32 bytes, and a Falcon key.
  pub fill_bytes : Client → Action World (List ℕ)
  pub new_falcon : Client → Action World KeyPair
  pub to_commitment : KeyPair → Commitment
  pub TokenSymbol : Type 0
  pub TokenName : Type 0
  pub AssetAmount : Type 0
  pub Faucet : Type 0
  pub Policies : Type 0
  pub token_symbol : Text → Option TokenSymbol
  pub token_name : Text → Option TokenName
  pub asset_amount : ℕ → Option AssetAmount
  pub faucet_build : TokenName → TokenSymbol → ℕ → AssetAmount → Option Faucet
  pub policies_new : Policies
  pub with_mint_allow_all : Policies → Option Policies
  pub with_burn_allow_all : Policies → Option Policies
  pub account_build : AccountParts Faucet Policies Commitment → Option Account
  pub account_build_with_schema : AccountParts Faucet Policies Commitment → Option Account
  pub account_id : Account → h.AccountId
  pub auth_of : Account → Commitment
  -- The builder puts in the authentication that it was given.
  pub build_auth :
      (p : AccountParts Faucet Policies Commitment) (a : Account)
      → account_build p ≡ some a
      → auth_of a ≡ p.auth
  pub build_with_schema_auth :
      (p : AccountParts Faucet Policies Commitment) (a : Account)
      → account_build_with_schema p ≡ some a
      → auth_of a ≡ p.auth
  pub add_account : Client → Account → Bool → Action World (Unit {0})
  pub add_key : Keystore → KeyPair → h.AccountId → Action World (Unit {0})
  -- The account that the client's store tracks under an id, and the key that the keystore has for it.
  pub tracked : World → h.AccountId → Option Account
  pub key_for : World → h.AccountId → Option KeyPair
  pub add_account_tracked :
      (c : Client) (a : Account) (overwrite : Bool) (w w' : World)
      → add_account c a overwrite w ≡ (ok tt, w')
      → tracked w' (account_id a) ≡ some a
  pub add_key_stored :
      (s : Keystore) (k : KeyPair) (id : h.AccountId) (w w' : World)
      → add_key s k id w ≡ (ok tt, w')
      → key_for w' id ≡ some k
  -- The keystore is no part of the client's store.
  pub add_key_tracked :
      (s : Keystore) (k : KeyPair) (id other : h.AccountId) (w w' : World)
      → add_key s k id w ≡ (ok tt, w')
      → tracked w' other ≡ tracked w other
  -- An account is only added anew, and adding it, or a key, leaves what there is of other ids.
  pub add_account_new :
      (c : Client) (a : Account) (w w' : World)
      → add_account c a false w ≡ (ok tt, w')
      → tracked w (account_id a) ≡ none
  pub add_account_other :
      (c : Client) (a : Account) (overwrite : Bool) (id : h.AccountId) (w w' : World)
      → id ≢ account_id a
      → add_account c a overwrite w ≡ (ok tt, w')
      → tracked w' id ≡ tracked w id
  pub add_account_keys :
      (c : Client) (a : Account) (overwrite : Bool) (id : h.AccountId) (w w' : World)
      → add_account c a overwrite w ≡ (ok tt, w')
      → key_for w' id ≡ key_for w id
  pub add_key_other :
      (s : Keystore) (k : KeyPair) (id other : h.AccountId) (w w' : World)
      → other ≢ id
      → add_key s k id w ≡ (ok tt, w')
      → key_for w' other ≡ key_for w other
  -- The generator is no part of either.
  pub fill_bytes_keeps :
      (c : Client) (bytes : List ℕ) (id : h.AccountId) (w w' : World)
      → fill_bytes c w ≡ (ok bytes, w')
      → (tracked w' id ≡ tracked w id) × (key_for w' id ≡ key_for w id)
  pub new_falcon_keeps :
      (c : Client) (k : KeyPair) (id : h.AccountId) (w w' : World)
      → new_falcon c w ≡ (ok k, w')
      → (tracked w' id ≡ tracked w id) × (key_for w' id ≡ key_for w id)
  -- The rest of the client, as in `Chain`.
  pub InputNote : Type 0
  pub TxId : Type 0
  pub sync_state : Client → Action World (Unit {0})
  pub import_note :
      Client
      → List (Asset h.Fungible h.Other)
      → h.Recipient
      → ℕ
      → Option h.Tag
      → Action World (Unit {0})
  pub get_input_note : Client → Note h.miden → Action World (Option InputNote)
  pub is_committed : InputNote → Bool
  pub sleep : ℕ → World → World
  pub build_mint : Client → h.Fungible → h.AccountId → NoteType → Action World h.Request
  pub submit_new_transaction : Client → h.AccountId → h.Request → Action World TxId

-- `struct ClientSetup`
pub record ClientSetup (Client Keystore : Type 0) : Type 0 where
  pub client : Client
  pub keystore : Keystore

module _ (h : Host) (c : ClientSdk h) where
  open c use {
    World, Client, Keystore, KeyPair, Commitment, Account, Faucet, Policies, keystore_new,
    client_build, fill_bytes, new_falcon, to_commitment, token_symbol, token_name, asset_amount,
    faucet_build, policies_new, with_mint_allow_all, with_burn_allow_all, account_build,
    account_build_with_schema, account_id, add_account, add_key,
  }

  -- `setup_client`
  unfoldable pub setup_client : Action World (ClientSetup Client Keystore)
  setup_client = do
    keystore ← with_context (keystore_new (codes "../keystore")) "Failed to initialize keystore"
    client ←
        with_context (client_build (codes "../store.sqlite3") keystore)
          "Failed to build Miden client"
    pure (record { client = client; keystore = keystore })

  abbrev pub wallet_parts : List ℕ → AccountType → KeyPair → AccountParts Faucet Policies Commitment
  wallet_parts seed account_type key_pair = record {
    seed = seed;
    account_type = account_type;
    auth = to_commitment key_pair;
    components = basic_wallet ∷ [];
  }

  -- `create_basic_wallet_account`
  unfoldable pub create_basic_wallet_account :
      Client → Keystore → AccountType → Action World Account
  create_basic_wallet_account client keystore account_type = do
    init_seed ← fill_bytes client
    key_pair ← new_falcon client
    account ← lift (
        context (account_build (wallet_parts init_seed account_type key_pair))
          "Failed to build basic wallet account")
    with_context (add_account client account false) "Failed to add account to client"
    with_context (add_key keystore key_pair (account_id account)) "Failed to add key to keystore"
    pure account

  abbrev pub faucet_parts :
      List ℕ → KeyPair → Faucet → Policies → AccountParts Faucet Policies Commitment
  faucet_parts seed key_pair faucet policies = record {
    seed = seed;
    account_type = public;
    auth = to_commitment key_pair;
    components = fungible_faucet faucet ∷ token_policies policies ∷ [];
  }

  -- `create_basic_faucet_account`
  unfoldable pub create_basic_faucet_account :
      Client → Keystore → Text → ℕ → ℕ → Action World Account
  create_basic_faucet_account client keystore symbol decimals max_supply = do
    init_seed ← fill_bytes client
    key_pair ← new_falcon client
    token ← lift (context (token_symbol symbol) "invalid token symbol")
    name ← lift (context (token_name symbol) "invalid token name")
    supply ← lift (context (asset_amount max_supply) "invalid max supply")
    faucet ←
        lift (context (faucet_build name token decimals supply) "failed to build faucet component")
    minting ← lift (context (with_mint_allow_all policies_new) "mint policy")
    policies ← lift (context (with_burn_allow_all minting) "burn policy")
    account ← lift (
        context (account_build_with_schema (faucet_parts init_seed key_pair faucet policies))
          "Failed to build faucet account")
    with_context (add_account client account false) "Failed to add faucet account to client"
    with_context (add_key keystore key_pair (account_id account))
        "Failed to add faucet key to keystore"
    pure account

  -- The client that the polling and minting programs work with.
  abbrev pub chain_of : Chain h
  chain_of = record {
    World = World;
    Client = Client;
    InputNote = c.InputNote;
    setup_client = setup_client >>= λ s. pure s.client;
    sync_state = c.sync_state;
    import_note = c.import_note;
    get_input_note = c.get_input_note;
    is_committed = c.is_committed;
    sleep = c.sleep;
    TxId = c.TxId;
    build_mint = c.build_mint;
    submit_new_transaction = c.submit_new_transaction;
  }
