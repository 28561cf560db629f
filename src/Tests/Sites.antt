-- ===== src/Tests/Sites.antt =====
-- A Miden client of the plainest kind: its store and its keystore are lists, beside a file system, and
-- a note that is looked for is there.
use bartok.Base.{
  ℕ, ◌+◌, ◌≡◌, ◌≢◌, refl, sym, ap, Bool, true, false, Bool-cases, inl, inr, Option, none, some,
  List, [], ◌∷◌, ok, err, if◌then◌else◌,
}
use bartok.Base.Action.{Action}
use bartok.Text.{Text}
use bartok.Miden.{Note}
use bartok.Client.{ClientSdk}
use bartok.Tests.Model.{Account, account, account_eq, account_eq_iff, toy}
use bartok.Tests.Chain.{Raw, JsonLib, host_with}
use bartok.Tests.Disks.{Disk}

-- An account that was built: its id and the commitment of its key.
abbrev pub Wallet : Type 0
Wallet = Account × ℕ

pub record Site : Type 0 where
  pub accounts : List (Account × Wallet)
  pub keys : List (Account × ℕ)
  pub draws : ℕ

abbrev pub Place : Type 0
Place = Disk × Site

unfoldable pub held_for : {A : Type 0} → Account → List (Account × A) → Option A
held_for a [] = none
held_for a ((b, x) ∷ xs) = if account_eq a b then some x else held_for a xs

-- An account is not added a second time, unless it may be overwritten.
abbrev pub refused : Bool → Option Wallet → Bool
refused true found = false
refused false none = false
refused false (some a) = true

abbrev pub track_unless : Bool → Wallet → Action Place (Unit {0})
track_unless true a w = (err "account is already tracked", w)
track_unless false a w = (ok tt, (w.0, record w.1 { accounts = (a.0, a) ∷ w.1.accounts }))

unfoldable pub track : Wallet → Bool → Action Place (Unit {0})
track a overwrite w = track_unless (refused overwrite (held_for a.0 w.1.accounts)) a w

unfoldable pub keep_key : ℕ → Account → Action Place (Unit {0})
keep_key k id w = (ok tt, (w.0, record w.1 { keys = (id, k) ∷ w.1.keys }))

tracked_then :
    (b : Bool) (a : Wallet) (w w' : Place)
    → track_unless b a w ≡ (ok tt, w')
    → (b ≡ false) × ((w.0, record w.1 { accounts = (a.0, a) ∷ w.1.accounts }) ≡ w')
tracked_then true a w w' e = cc
tracked_then false a w w' e = (refl, ap (λ q. q.1) e)

pub track-held_for :
    (a : Wallet) (overwrite : Bool) (w w' : Place)
    → track a overwrite w ≡ (ok tt, w')
    → held_for a.0 w'.1.accounts ≡ some a
unfolding track held_for
track-held_for a overwrite w w' e =
    rw (← (tracked_then _ a w w' e).1, (account_eq_iff a.0 a.0).1 refl)

not_refused : (o : Option Wallet) → refused false o ≡ false → o ≡ none
not_refused none e = refl
not_refused (some a) e = cc

pub track_new :
    (a : Wallet) (w w' : Place) → track a false w ≡ (ok tt, w') → held_for a.0 w.1.accounts ≡ none
unfolding track
track_new a w w' e = not_refused _ (tracked_then _ a w w' e).0

pub track_other :
    (a : Wallet) (overwrite : Bool) (id : Account) (w w' : Place)
    → id ≢ a.0
    → track a overwrite w ≡ (ok tt, w')
    → held_for id w'.1.accounts ≡ held_for id w.1.accounts
unfolding track held_for
track_other a overwrite id w w' differ e = elim (Bool-cases (account_eq id a.0)) [
  | inl same ↦ absurd (differ ((account_eq_iff id a.0).0 same))
  | inr other ↦ rw (← (tracked_then _ a w w' e).1, other)
]

pub track_keys :
    (a : Wallet) (overwrite : Bool) (id : Account) (w w' : Place)
    → track a overwrite w ≡ (ok tt, w')
    → held_for id w'.1.keys ≡ held_for id w.1.keys
unfolding track
track_keys a overwrite id w w' e = ap (λ q. held_for id q.1.keys) (sym (tracked_then _ a w w' e).1)

pub keep_key_other :
    (k : ℕ) (id other : Account) (w w' : Place)
    → other ≢ id
    → keep_key k id w ≡ (ok tt, w')
    → held_for other w'.1.keys ≡ held_for other w.1.keys
unfolding keep_key held_for
keep_key_other k id other w w' differ e = elim (Bool-cases (account_eq other id)) [
  | inl same ↦ absurd (differ ((account_eq_iff other id).0 same))
  | inr apart ↦ rw (← ap (λ q. q.1) e, apart)
]

pub keep_key-held_for :
    (k : ℕ) (id : Account) (w w' : Place)
    → keep_key k id w ≡ (ok tt, w')
    → held_for id w'.1.keys ≡ some k
unfolding keep_key held_for
keep_key-held_for k id w w' e = rw (← ap (λ q. q.1) e, (account_eq_iff id id).1 refl)

pub keep_key-accounts :
    (k : ℕ) (id other : Account) (w w' : Place)
    → keep_key k id w ≡ (ok tt, w')
    → held_for other w'.1.accounts ≡ held_for other w.1.accounts
unfolding keep_key
keep_key-accounts k id other w w' e = ap (λ q. held_for other q.1.1.accounts) (sym e)

abbrev pub next_draw : Action Place ℕ
next_draw w = (ok w.1.draws, (w.0, record w.1 { draws = w.1.draws + 1 }))

-- The seed of an account names it.
abbrev pub wallet_of : List ℕ → ℕ → Option Wallet
wallet_of [] k = none
wallet_of (n ∷ _) k = some (account (50 + n), k)

pub wallet_of-auth : (seed : List ℕ) (k : ℕ) (a : Wallet) → wallet_of seed k ≡ some a → a.1 ≡ k
wallet_of-auth [] k a e = cc
wallet_of-auth (n ∷ ns) k a e = cc

abbrev pub fill : Action Place (List ℕ)
fill w = (ok (w.1.draws ∷ []), (w.0, record w.1 { draws = w.1.draws + 1 }))

pub next_draw_keeps :
    (k : ℕ) (id : Account) (w w' : Place)
    → next_draw w ≡ (ok k, w')
    → (held_for id w'.1.accounts ≡ held_for id w.1.accounts)
      × (held_for id w'.1.keys ≡ held_for id w.1.keys)
next_draw_keeps k id w w' e =
    (ap (λ q. held_for id q.1.1.accounts) (sym e), ap (λ q. held_for id q.1.1.keys) (sym e))

pub fill_keeps :
    (bytes : List ℕ) (id : Account) (w w' : Place)
    → fill w ≡ (ok bytes, w')
    → (held_for id w'.1.accounts ≡ held_for id w.1.accounts)
      × (held_for id w'.1.keys ≡ held_for id w.1.keys)
fill_keeps bytes id w w' e =
    (ap (λ q. held_for id q.1.1.accounts) (sym e), ap (λ q. held_for id q.1.1.keys) (sym e))

abbrev pub site : (j : JsonLib) (d : Text → Option Raw) → ClientSdk (host_with j d)
site j d = record {
  World = Place;
  Client = Unit {0};
  Keystore = Unit {0};
  KeyPair = ℕ;
  Commitment = ℕ;
  Account = Wallet;
  keystore_new = λ _ w. (ok tt, w);
  client_build = λ _ _ w. (ok tt, w);
  fill_bytes = λ _. fill;
  new_falcon = λ _. next_draw;
  to_commitment = λ k. k;
  TokenSymbol = Text;
  TokenName = Text;
  AssetAmount = ℕ;
  Faucet = ℕ;
  Policies = ℕ;
  token_symbol = λ t. some t;
  token_name = λ t. some t;
  asset_amount = λ v. some v;
  faucet_build = λ _ _ decimals supply. some supply;
  policies_new = 0;
  with_mint_allow_all = λ p. some (p + 1);
  with_burn_allow_all = λ p. some (p + 2);
  account_build = λ p. wallet_of p.seed p.auth;
  account_build_with_schema = λ p. wallet_of p.seed p.auth;
  account_id = λ a. a.0;
  auth_of = λ a. a.1;
  build_auth = λ p a. wallet_of-auth p.seed p.auth a;
  build_with_schema_auth = λ p a. wallet_of-auth p.seed p.auth a;
  add_account = λ _. track;
  add_key = λ _. keep_key;
  tracked = λ w id. held_for id w.1.accounts;
  key_for = λ w id. held_for id w.1.keys;
  add_account_tracked = λ _. track-held_for;
  add_key_stored = λ _. keep_key-held_for;
  add_key_tracked = λ _. keep_key-accounts;
  add_account_new = λ _. track_new;
  add_account_other = λ _. track_other;
  add_account_keys = λ _. track_keys;
  add_key_other = λ _. keep_key_other;
  fill_bytes_keeps = λ _ bytes. fill_keeps bytes;
  new_falcon_keeps = λ _ k. next_draw_keeps k;
  InputNote = Note toy;
  TxId = ℕ;
  sync_state = λ _ w. (ok tt, w);
  import_note = λ _ _ _ _ _ w. (ok tt, w);
  get_input_note = λ _ n w. (ok (some n), w);
  is_committed = λ _. true;
  sleep = λ _ w. w;
  build_mint = λ _ _ _ _ w. (
    ok (record {
      own_output_notes = [];
      input_notes = [];
      expected_output_recipients = [];
      auth_arg = none;
      advice = [];
    }),
    w,
  );
  submit_new_transaction = λ _ _ _ w. (ok 77, w);
}
