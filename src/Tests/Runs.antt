-- ===== src/Tests/Runs.antt =====
-- A run of `build_escrow` and one of `settle_session`, as data for the examples.
use bartok.Base.{ℕ, ◌+◌, ◌≡◌, refl, none, some, List, [], ◌∷◌, Result, ok, err}
use bartok.Text.{Text, codes, trim, split}
use bartok.Text.Decimal.{parse_u64}
use bartok.Miden.{Word, Note, private}
use bartok.Contract.Storage.{settlement_storage}
use bartok.Cli.{arg_value, parse_part, parse_serial}
use bartok.Escrow.{Inputs, Parameters, EscrowBuilt, parameters, load_script, assemble, build_escrow}
use bartok.Settle.{Arguments, Accounts, SettleSession, arguments, accounts_of, open_with}
use bartok.Tests.Goldilocks.{Element, new, reduce}
use bartok.Tests.Model.{
  Account, account_eq, from_text, token_of, storage_new, toy, zeros, script_note,
}
use bartok.Tests.Chain.{buyer, Raw, contract, host, parse_json, index_json, decode}

-- The value of a call that succeeds, and the equation that says so.
abbrev pub IsOk : {A : Type 0} → Result A → Type 0
IsOk (ok a) = Unit
IsOk (err e) = ⊥

unfoldable pub result_of : {A : Type 0} (r : Result A) → IsOk r → (a : A) × (r ≡ ok a)
result_of (ok a) h = (a, refl)
result_of (err e) h = absurd h

-- The same for a call that acts on a world.
unfoldable pub outcome_of :
    {W A : Type 0} (q : Result A × W) → IsOk q.0 → (a : A) × (w : W) × (q ≡ (ok a, w))
outcome_of (ok a, w) h = (a, w, refl)
outcome_of (err e, w) h = absurd h

abbrev pub word : ℕ → Word Element
word n = record { w0 = reduce n; w1 = reduce 0; w2 = reduce 0; w3 = reduce 0 }

abbrev pub placeholder : Note toy
placeholder = record {
  assets = [];
  metadata = record { sender = buyer; note_type = private; tag = 0 };
  recipient = script_note zeros 0 [];
}

abbrev pub env : Inputs Raw (Word Element)
env = record {
  args = codes "build_escrow" ∷ codes "--buyer" ∷ codes "22" ∷ codes "--budget" ∷ codes "1000" ∷ [];
  accounts_json = some (codes "accounts.json");
  masp = none;
  masp_alt = some contract;
  words = λ i. word (i + 1);
}

unfoldable pub built :
    (b : EscrowBuilt (host placeholder)) × (build_escrow (host placeholder) env ≡ ok b)
unfolding result_of build_escrow parameters load_script assemble arg_value settlement_storage
    storage_new from_text parse_u64 parse_json index_json new token_of account_eq
built = result_of (build_escrow (host placeholder) env) tt

-- The same in the host whose Base64 text "note" is that escrow.
abbrev pub the_note : Note toy
the_note = built.0.escrow_note

unfoldable pub escrow :
    (b : EscrowBuilt (host the_note)) × (build_escrow (host the_note) env ≡ ok b)
unfolding result_of build_escrow parameters load_script assemble arg_value settlement_storage
    storage_new from_text parse_u64 parse_json index_json new token_of account_eq
escrow = result_of (build_escrow (host the_note) env) tt

unfoldable pub agreed_on : (p : Parameters Account) × (parameters (host the_note) env ≡ ok p)
unfolding result_of parameters arg_value from_text parse_u64 parse_json index_json new
agreed_on = result_of (parameters (host the_note) env) tt

abbrev pub settle_args : List Text
settle_args =
    codes "--escrow-note-b64"
    ∷ codes "note"
    ∷ codes "--charge"
    ∷ codes "300"
    ∷ codes "--buyer"
    ∷ codes "22"
    ∷ codes "--seller-serial"
    ∷ codes "1,0,0,0"
    ∷ codes "--buyer-serial"
    ∷ codes "2, 0, 0, 0"
    ∷ []

unfoldable pub read_args :
    (a : Arguments (Word Element) Account) × (arguments (host the_note) settle_args ≡ ok a)
unfolding result_of arguments arg_value from_text parse_u64 new parse_serial parse_part split trim
read_args = result_of (arguments (host the_note) settle_args) tt

unfoldable pub read_accounts :
    (c : Accounts Account) × (accounts_of (host the_note) (some (codes "accounts.json")) ≡ ok c)
unfolding result_of accounts_of from_text parse_u64 parse_json index_json new
read_accounts = result_of (accounts_of (host the_note) (some (codes "accounts.json"))) tt

unfoldable pub session :
    (s : SettleSession (host the_note)) × (open_with
        (host the_note)
        read_args.0
        read_accounts.0
        (word 9)
      ≡ ok s)
unfolding result_of open_with read_args read_accounts trim decode built account_eq new
session = result_of (open_with (host the_note) read_args.0 read_accounts.0 (word 9)) tt
