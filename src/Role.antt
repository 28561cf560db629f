-- ===== src/Role.antt =====
-- `guardian_role_client` of miden/integration/src/helpers.rs: the client of a Guardian multisig role,
-- with its persistent signer. The file system and the Guardian SDK are parameters.
pub mod Keygen
pub mod Signer
use bartok.Base.{
  ℕ, ◌≡◌, ◌≢◌, Bool, true, false, Option, none, some, List, [], ◌∷◌, ◌++◌, Result, ok, err, context,
}
use bartok.Base.Action.{Action, ◌>>=◌, ◌>>◌, pure, lift}
use bartok.Text.{Text, codes, trim}
use bartok.Miden.{Word}
use bartok.Host.{Host}
use bartok.Settle.{Guardian}

-- `std::fs`: what a file holds and whether it is there; a call may fail and leave any world behind.
pub record Files (World : Type 0) : Type 0 where
  pub exists : Text → World → Bool
  pub read_to_string : Text → World → Result Text
  pub create_dir_all : Text → Action World (Unit {0})
  pub write : Text → Text → Action World (Unit {0})
  pub set_permissions : Text → ℕ → Action World (Unit {0})
  -- A file that was written is there, with what was written; others stay as they are.
  pub write_exists : (p c : Text) (w w' : World) → write p c w ≡ (ok tt, w') → exists p w' ≡ true
  pub write_read :
      (p c : Text) (w w' : World) → write p c w ≡ (ok tt, w') → read_to_string p w' ≡ ok c
  pub write_other :
      (p q c : Text) (w w' : World)
      → q ≢ p
      → write p c w ≡ (ok tt, w')
      → read_to_string q w' ≡ read_to_string q w
  -- A mode changes no content.
  pub mode_exists :
      (p q : Text) (mode : ℕ) (w w' : World)
      → set_permissions p mode w ≡ (ok tt, w')
      → exists q w' ≡ exists q w
  pub mode_read :
      (p q : Text) (mode : ℕ) (w w' : World)
      → set_permissions p mode w ≡ (ok tt, w')
      → read_to_string q w' ≡ read_to_string q w

-- The Guardian SDK, `hex` and the generator of signing keys.
pub record Sdk (h : Host) : Type 1 where
  pub World : Type 0
  pub files : Files World
  pub SecretKey : Type 0
  pub Client : Type 0
  pub ProposalId : Type 0
  -- `FalconSecretKey::new()`: the key that the generator of this world would give.
  pub secret_new : World → SecretKey
  pub secret_to_bytes : SecretKey → List ℕ
  pub secret_from_bytes : List ℕ → Option SecretKey
  pub hex_encode : List ℕ → Text
  pub hex_decode : Text → Option (List ℕ)
  pub secret_from_to_bytes : (k : SecretKey) → secret_from_bytes (secret_to_bytes k) ≡ some k
  -- Hexadecimal text has no white space, and decodes to what it encodes.
  pub hex_decode_encode :
      (k : SecretKey)
      → hex_decode (trim (hex_encode (secret_to_bytes k))) ≡ some (secret_to_bytes k)
  -- `MultisigClient::builder()` with the endpoint, the directory and the key.
  pub build : Text → Text → SecretKey → Action World Client
  pub pull_account : Client → h.AccountId → Action World Client
  pub propose_custom_transaction : Client → h.Bytes → Text → Action World ProposalId
  pub prepare_custom_execution :
      Client → ProposalId → h.Bytes → Action World (List (Word h.Felt × List h.Felt))
  pub submit_transaction : Client → h.Request → Action World (Unit {0})

module _ (h : Host) (g : Sdk h) where
  open h use {AccountId}
  open g use {
    World, files, SecretKey, Client, secret_new, secret_to_bytes, secret_from_bytes, hex_encode,
    hex_decode, build, pull_account,
  }
  open files use {exists, read_to_string, create_dir_all, write, set_permissions}

  -- The signer that is stored.
  unfoldable pub stored_secret : Text → Action World SecretKey
  stored_secret key_path = do
    hex ← λ w. (read_to_string key_path w, w)
    bytes ← lift (context (hex_decode (trim hex)) "bad signer hex")
    lift (context (secret_from_bytes bytes) "signer deserialize")

  -- A new signer, stored with mode 0600.
  unfoldable pub new_secret : Text → SecretKey → Action World SecretKey
  new_secret key_path sk = do
    write key_path (hex_encode (secret_to_bytes sk))
    set_permissions key_path 0o600
    pure sk

  -- `let secret = if key_path.exists() { .. } else { .. }`
  unfoldable pub load_secret : Text → Action World SecretKey
  load_secret key_path w = elim (exists key_path w) [
    | true ↦ stored_secret key_path w
    | false ↦ new_secret key_path (secret_new w) w
  ]

  -- `if let Some(id) = known_account { client.pull_account(id) }`
  abbrev pub hydrate : Option AccountId → Client → Action World Client
  hydrate none client = pure client
  hydrate (some id) client = pull_account client id

  abbrev pub role_dir : Text → Text
  role_dir role = codes "../guardian-accounts/" ++ role

  -- `guardian_role_client`
  unfoldable pub guardian_role_client : Text → Text → Option AccountId → Action World Client
  guardian_role_client role guardian_grpc known_account = do
    create_dir_all (role_dir role)
    secret ← load_secret (role_dir role ++ codes "/signer.hex")
    client ← build guardian_grpc (role_dir role) secret
    hydrate known_account client

  -- The Guardian that settle_session.rs calls.
  abbrev pub guardian_of : Guardian h
  guardian_of = record {
    World = World;
    Client = Client;
    ProposalId = g.ProposalId;
    guardian_role_client = guardian_role_client;
    propose_custom_transaction = g.propose_custom_transaction;
    prepare_custom_execution = g.prepare_custom_execution;
    submit_transaction = g.submit_transaction;
  }
