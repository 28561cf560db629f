-- ===== src/Tests/Worlds.antt =====
-- The theorems on polling, minting and stored keys, over a file system that is a list of files and a
-- network that is a count of the calls.
use bartok.Base.{
  ℕ, ◌+◌, ◌≡◌, ◌↔◌, refl, Bool, true, false, Option, none, some, List, [], ◌∷◌, ok, leb, ◌==◌,
}
use bartok.Text.{Text, codes, text_eq, trim}
use bartok.Text.Decimal.{parse_u64}
use bartok.Cli.{arg, arg_value}
use bartok.Verify.{Escrowed, read_escrow}
use bartok.Verify.Poll.{Chain, Verdict, SeenWithin, verify_escrow, verify_escrow-committed}
use bartok.Fund.{Grant, read_grant}
use bartok.Fund.Mint.{mint, fund_buyer, IsMint, fund_buyer-IsMint}
use bartok.Role.{Sdk, load_secret, new_secret}
use bartok.Role.Signer.{load_secret-load_secret}
use bartok.Escrow.{build_escrow, parameters, load_script, assemble}
use bartok.Contract.Storage.{settlement_storage}
use bartok.Miden.{Note}
use bartok.Tests.Goldilocks.{new}
use bartok.Tests.Model.{Account, account_eq, from_text, token_of, storage_new, toy}
use bartok.Tests.Disks.{Disk, disk, put, on_disk}
use bartok.Tests.Chain.{host, parse_json, index_json, decode}
use bartok.Tests.Runs.{result_of, the_note, built}

-- A key is one bit, and its hexadecimal text one digit.
abbrev bit : Bool → List ℕ
bit true = codes "1"
bit false = codes "0"

abbrev of_bit : List ℕ → Option Bool
of_bit [] = none
of_bit (c ∷ cs) = some (c == b'1')

of_bit-bit : (k : Bool) → of_bit (bit k) ≡ some k
of_bit-bit true = refl
of_bit-bit false = refl

trim-bit : (k : Bool) → ◌≡◌ {A = Option (List ℕ)} (some (trim (bit k))) (some (bit k))
unfolding trim
trim-bit true = refl
trim-bit false = refl

abbrev sdk : Sdk (host the_note)
sdk = record {
  World = Disk;
  files = disk;
  SecretKey = Bool;
  Client = Text;
  ProposalId = ℕ;
  secret_new = λ _. true;
  secret_to_bytes = bit;
  secret_from_bytes = of_bit;
  hex_encode = λ b. b;
  hex_decode = λ t. some t;
  secret_from_to_bytes = of_bit-bit;
  hex_decode_encode = trim-bit;
  build = λ _ dir _ w. (ok dir, w);
  pull_account = λ client _ w. (ok client, w);
  propose_custom_transaction = λ _ _ _ w. (ok 1, w);
  prepare_custom_execution = λ _ _ _ w. (ok [], w);
  submit_transaction = λ _ _ w. (ok tt, w);
}

load_secret-load_secret_example :
    load_secret (host the_note) sdk (codes "signer.hex") ((codes "signer.hex", codes "1") ∷ [])
    ≡ (ok true, (codes "signer.hex", codes "1") ∷ [])
unfolding load_secret new_secret put on_disk
load_secret-load_secret_example =
    load_secret-load_secret (host the_note) sdk (codes "signer.hex") []
      ((codes "signer.hex", codes "1") ∷ []) true refl

-- A world is the time; every note is committed from time 5 on.
abbrev network : Chain (host the_note)
network = record {
  World = ℕ;
  Client = Unit {0};
  InputNote = ℕ;
  setup_client = λ w. (ok tt, w);
  sync_state = λ _ w. (ok tt, w);
  import_note = λ _ _ _ _ _ w. (ok tt, w);
  get_input_note = λ _ _ w. (ok (some w), w);
  is_committed = λ w. leb 5 w;
  sleep = λ seconds w. w + seconds;
  TxId = ℕ;
  build_mint = λ _ _ _ _ w. (
    ok (record {
      own_output_notes = [];
      input_notes = [];
      expected_output_recipients = [];
      auth_arg = none;
      advice = [];
    }),
    w,
  );
  submit_new_transaction = λ _ _ _ w. (ok 77, w + 1);
}

abbrev polling : Escrowed (Note toy)
polling = record { note = the_note; budget = 1000; tries = 3 }

abbrev poll_args : List Text
poll_args = codes "--escrow-note-b64" ∷ codes "note" ∷ codes "--tries" ∷ codes "3" ∷ []

verify_escrow-committed_example :
    (v : Verdict) × (w' : ℕ) × (verify_escrow
        (host the_note)
        network
        poll_args
        (some (codes "accounts.json"))
        0
      ≡ (ok v, w'))
    × (v.budget ≡ 1000)
    × ((v.committed ≡ true)
        ↔ ((seen_in : ℕ) × SeenWithin (host the_note) network 3 3 tt the_note 0 seen_in))
unfolding read_escrow arg parse_json index_json from_text parse_u64 decode trim text_eq account_eq
    built result_of build_escrow parameters load_script assemble settlement_storage storage_new
    token_of arg_value new
verify_escrow-committed_example =
    verify_escrow-committed (host the_note) network poll_args (some (codes "accounts.json")) polling
      tt 0 0 0 refl refl refl

abbrev fund_args : List Text
fund_args = codes "--buyer" ∷ codes "22" ∷ codes "--amount" ∷ codes "500" ∷ []

fund_buyer-IsMint_example :
    (g : Grant Account) × (read_grant (host the_note) fund_args (some (codes "accounts.json"))
      ≡ ok g)
    × IsMint (host the_note) network g 4 5 77
unfolding fund_buyer mint read_grant arg_value parse_json index_json from_text parse_u64 text_eq new
    token_of
fund_buyer-IsMint_example =
    fund_buyer-IsMint (host the_note) network fund_args (some (codes "accounts.json")) 4 5 77 refl
