-- ===== src/Tests/Handovers.antt =====
-- The theorems on what one program prints and another reads: the escrow note, and the seller's note
-- file.
use bartok.Base.{ℕ, ◌≡◌, refl, Option, none, some, List, [], ◌∷◌, ok, if◌then◌else◌}
use bartok.Text.{Text, codes, trim, text_eq}
use bartok.Text.Decimal.{parse_u64}
use bartok.Miden.{Note, Asset}
use bartok.Contract.Storage.{settlement_storage}
use bartok.Cli.{arg, arg_value}
use bartok.Host.{Host}
use bartok.Escrow.{EscrowBuilt, Parameters, report, build_escrow, parameters, load_script, assemble}
use bartok.Verify.{Escrowed, read_escrow}
use bartok.Verify.Funded.{report-read_escrow}
use bartok.Verify.Poll.{Chain, SeenWithin, wait_note_committed, poll}
use bartok.Client.{chain_of, setup_client}
use bartok.Settle.{Settled, SettleSession, open_with, make_note, make_note_if, announce}
use bartok.Sweep.{NoteFile, NoteFiles, note_details, note_of_file, handed_over}
use bartok.Sweep.Handover.{announce-note_of_file}
use bartok.Sweep.Consume.{SweepSdk, Swept, consumed, consume, consume-SeenWithin}
use bartok.Tests.Goldilocks.{new}
use bartok.Tests.Model.{Account, account_eq, from_text, token_of, storage_new, Token, Payee, toy}
use bartok.Tests.Chain.{
  accounts, Raw, note_bytes, file_bytes, host, host_with, plain, parse_json, index_json, operator,
  seller,
}
use bartok.Tests.Runs.{
  result_of, outcome_of, env, the_note, read_args, read_accounts, session, word, built,
}
use bartok.Tests.Sites.{Place, site}

-- Every text stands for the bytes of one thing.
abbrev pub holding : Raw → Text → Option Raw
holding r t = some r

abbrev pub carrier : Host
carrier = host_with plain (holding (note_bytes the_note))

unfoldable pub sent : (b : EscrowBuilt carrier) × (build_escrow carrier env ≡ ok b)
unfolding result_of build_escrow parameters load_script assemble arg_value settlement_storage
    storage_new from_text parse_u64 parse_json index_json new token_of account_eq
sent = result_of (build_escrow carrier env) tt

unfoldable pub asked : (p : Parameters Account) × (parameters carrier env ≡ ok p)
unfolding result_of parameters arg_value from_text parse_u64 parse_json index_json new
asked = result_of (parameters carrier env) tt

abbrev look_args : List Text
look_args = codes "--escrow-note-b64" ∷ codes "bytes" ∷ []

report-read_escrow_example :
    (e : Escrowed (Note toy)) × (read_escrow carrier look_args (some (codes "accounts.json"))
      ≡ ok e)
    × (e.note ≡ sent.0.escrow_note)
    × (e.budget ≡ asked.0.budget)
unfolding sent asked built result_of build_escrow parameters load_script assemble settlement_storage
    storage_new token_of new account_eq arg arg_value text_eq parse_json index_json from_text
    parse_u64 report
report-read_escrow_example =
    report-read_escrow carrier env sent.0 asked.0 look_args (some (codes "accounts.json")) accounts
      sent.1 asked.1 refl refl refl refl

unfoldable announced :
    (r : Settled (host the_note) ℕ) × (announce (host the_note) session.0 5 ≡ ok r)
unfolding result_of session announce make_note make_note_if new token_of
announced = result_of (announce (host the_note) session.0 5) tt

abbrev pub IsSome : {A : Type 0} → Option A → Type 0
IsSome none = ⊥
IsSome (some a) = Unit

unfoldable pub value_of : {A : Type 0} (o : Option A) → IsSome o → (a : A) × (o ≡ some a)
value_of none h = absurd h
value_of (some a) h = (a, refl)

unfoldable paid : (n : Note toy) × (announced.0.seller_note ≡ some n)
unfolding value_of announced result_of session announce make_note make_note_if new token_of
paid = value_of announced.0.seller_note tt

-- The file of that note; any text but "note" stands for its bytes.
abbrev file : Raw
file = file_bytes paid.0.assets paid.0.recipient 0 (some (toy.with_account_target seller))

unfoldable mail : Text → Option Raw
unfolding text_eq
mail t = if text_eq t (codes "note") then some (note_bytes the_note) else some file

abbrev post : Host
post = host_with plain mail

abbrev read_file : Raw → Option (NoteFile (List (Asset Token (Unit {0}))) Payee ℕ)
read_file (file_bytes a r n t) = some (note_details a r n t)
read_file _ = none

abbrev files : NoteFiles post
files = record { from_bytes = read_file; from_to_bytes = λ a r n t. refl }

unfoldable posted :
    (s : SettleSession post) × (open_with post read_args.0 read_accounts.0 (word 9) ≡ ok s)
unfolding result_of open_with read_args read_accounts trim mail text_eq built account_eq new
posted = result_of (open_with post read_args.0 read_accounts.0 (word 9)) tt

unfoldable reported : (r : Settled post ℕ) × (announce post posted.0 5 ≡ ok r)
unfolding result_of posted announce make_note make_note_if new token_of
reported = result_of (announce post posted.0 5) tt

announce-note_of_file_example :
    (text : Text) × (reported.0.seller_note_file_b64 ≡ some text)
    × (note_of_file post files operator text ≡ ok (paid.0, toy.with_account_target seller))
unfolding reported paid value_of announced result_of session posted announce make_note make_note_if
    new token_of open_with read_args read_accounts trim mail text_eq built account_eq from_text
    parse_u64
announce-note_of_file_example =
    announce-note_of_file post files posted.0 5 reported.0 paid.0 reported.1 refl refl refl

abbrev network : Chain post
network = chain_of post (site plain mail)

abbrev joao : SweepSdk post network
joao = record {
  Client = Unit {0};
  Proposal = ℕ;
  guardian_role_client = λ _ _ _ w. (ok tt, w);
  sync = λ _ w. (ok tt, w);
  propose_consume = λ _ _ version w. (ok version, w);
  execute_proposal = λ _ _ w. (ok tt, w);
  list_proposals = λ _ w. (ok [], w);
}

abbrev sweep_args : List Text
sweep_args = codes "--note-file-b64" ∷ codes "bytes" ∷ []

abbrev fresh : Place
fresh = ([], record { accounts = []; keys = []; draws = 0 })

unfoldable swept :
    (r : Swept ℕ) × (w : Place) × (consume post files network joao tt operator sweep_args 0 fresh
      ≡ (ok r, w))
unfolding outcome_of consume handed_over note_of_file trim mail text_eq wait_note_committed poll
    setup_client paid
swept = outcome_of (consume post files network joao tt operator sweep_args 0 fresh) tt

consume-SeenWithin_example :
    (note : Note toy) × (tag : ℕ) × (p : ℕ) × (client : Unit {0}) × (connected imported seen_in
      proposed : Place)
    × (handed_over post files operator sweep_args 0 ≡ ok (note, tag))
    × (network.setup_client fresh ≡ (ok client, connected))
    × (network.import_note client note.assets note.recipient 0 (some tag) connected
        ≡ (ok tt, imported))
    × SeenWithin post network 5 60 client note imported seen_in
    × (joao.propose_consume tt note 2 seen_in ≡ (ok p, proposed))
    × (joao.execute_proposal tt p proposed ≡ (ok tt, swept.1))
    × (swept.0 ≡ consumed p)
consume-SeenWithin_example =
    consume-SeenWithin post files network joao tt operator sweep_args 0 fresh swept.1 swept.0
      swept.2
