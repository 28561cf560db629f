-- ===== src/Tests/Smokes.antt =====
-- The theorems on smoke_escrow.rs, with a network that grants every account 2000.
use bartok.Base.{ℕ, ◌≡◌, refl, none, some, [], ◌∷◌, ok}
use bartok.Miden.{Note, fungible}
use bartok.Text.Decimal.{parse_u64}
use bartok.Contract.Storage.{settlement_storage}
use bartok.Cli.{arg}
use bartok.Client.{setup_client, create_basic_wallet_account}
use bartok.Escrow.{EscrowBuilt, assemble, load_script}
use bartok.Smoke.{Session, read_session, smoke_note, parameters_of}
use bartok.Smoke.Waiting.{SmokeSdk, wait_consumable, wait_funded}
use bartok.Smoke.Run.{
  Locked, fund_scratch, lock_escrow, smoke_escrow, IsLocked, smoke_escrow-IsLocked,
}
use bartok.Smoke.Reference.{smoke_note-assemble}
use bartok.Tests.Goldilocks.{new, reduce}
use bartok.Tests.Model.{Account, account_eq, from_text, token_of, storage_new, toy}
use bartok.Tests.Chain.{ToyParts, buyer, faucet, host, plain, parse_json, index_json, decode}
use bartok.Tests.Runs.{result_of, outcome_of, env, the_note, word}
use bartok.Tests.Sites.{Place, site, track, keep_key, held_for}

abbrev nothing : ToyParts
nothing = record {
  own_output_notes = [];
  input_notes = [];
  expected_output_recipients = [];
  auth_arg = none;
  advice = [];
}

abbrev rich : SmokeSdk (host the_note) (site plain (decode the_note))
rich = record {
  get_consumable_notes = λ _ _ w. (ok (the_note ∷ []), w);
  note_of = λ n. some n;
  build_consume_notes = λ _. some nothing;
  get_account = λ _ _ w. (ok (some (fungible (faucet, reduce 2000) ∷ [])), w);
}

abbrev fresh : Place
fresh = ([], record { accounts = []; keys = []; draws = 0 })

unfoldable locked :
    (r : Locked (Note toy) Account ℕ) × (w : Place) × (smoke_escrow
        (host the_note)
        (site plain (decode the_note))
        rich
        env
        fresh
      ≡ (ok r, w))
unfolding outcome_of smoke_escrow read_session setup_client create_basic_wallet_account fund_scratch
    lock_escrow smoke_note wait_consumable wait_funded load_script settlement_storage storage_new
    arg from_text parse_u64 parse_json index_json new token_of account_eq track held_for keep_key
locked = outcome_of (smoke_escrow (host the_note) (site plain (decode the_note)) rich env fresh) tt

smoke_escrow-IsLocked_example :
    IsLocked (host the_note) (site plain (decode the_note)) rich env locked.0 fresh locked.1
smoke_escrow-IsLocked_example =
    smoke_escrow-IsLocked (host the_note) (site plain (decode the_note)) rich env fresh locked.1
      locked.0 locked.2

unfoldable opened : (s : Session Account) × (read_session (host the_note) env ≡ ok s)
unfolding result_of read_session arg from_text parse_u64 parse_json index_json new
opened = result_of (read_session (host the_note) env) tt

unfoldable noted : (n : Note toy) × (smoke_note (host the_note) env opened.0 buyer ≡ ok n)
unfolding opened result_of smoke_note load_script settlement_storage storage_new new token_of
noted = result_of (smoke_note (host the_note) env opened.0 buyer) tt

smoke_note-assemble_example :
    (b : EscrowBuilt (host the_note)) × (assemble
        (host the_note)
        env
        (parameters_of (host the_note) opened.0 buyer)
      ≡ ok b)
    × (b.escrow_note ≡ noted.0)
    × (b.request ≡ record nothing { own_output_notes = noted.0 ∷ []; auth_arg = some (word 4) })
    × (b.seller_serial ≡ word 1)
    × (b.buyer_serial ≡ word 2)
unfolding opened result_of account_eq
smoke_note-assemble_example =
    smoke_note-assemble (host the_note) env opened.0 buyer noted.0
      (record nothing { own_output_notes = noted.0 ∷ []; auth_arg = some (word 4) }) noted.1 refl
      refl
