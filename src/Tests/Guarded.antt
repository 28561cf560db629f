-- ===== src/Tests/Guarded.antt =====
-- The theorems on the Guardian's part in a settlement, at concrete runs.
use bartok.Base.{ℕ, ◌≡◌, some, List, [], ok}
use bartok.Text.{codes, trim, split, text_eq}
use bartok.Text.Decimal.{parse_u64}
use bartok.Miden.{Word}
use bartok.Cli.{arg_value, parse_part, parse_serial}
use bartok.Settle.{
  Arguments, Accounts, SettleSession, Settled, arguments, accounts_of, open_with, open_session,
  build_request, make_note, make_note_if, announce,
}
use bartok.Settle.Program.{countersign, settle_session}
use bartok.Settle.Budget.{IsSession}
use bartok.Settle.Countersign.{IsCountersigned, settle_session-IsCountersigned}
use bartok.Escrow.{build_escrow, parameters, load_script, assemble}
use bartok.Contract.Storage.{settlement_storage}
use bartok.Tests.Goldilocks.{Element, new}
use bartok.Tests.Model.{Account, account_eq, from_text, token_of, storage_new}
use bartok.Tests.Chain.{host, parse_json, index_json, decode, Event, guardian}
use bartok.Tests.Runs.{outcome_of, result_of, word, the_note, built, settle_args}

unfoldable settled :
    (r : Settled (host the_note) ℕ) × (w : List Event) × (settle_session
        (host the_note)
        (guardian the_note)
        settle_args
        (some (codes "accounts.json"))
        (word 9)
        []
      ≡ (ok r, w))
unfolding outcome_of settle_session countersign open_session open_with build_request announce
    make_note_if make_note arguments accounts_of arg_value from_text parse_u64 new parse_serial
    parse_part split trim text_eq parse_json index_json decode built result_of build_escrow
    parameters load_script assemble settlement_storage storage_new token_of account_eq
settled =
    outcome_of
      (settle_session (host the_note) (guardian the_note) settle_args (some (codes "accounts.json"))
        (word 9) [])
      tt

settle_session-IsCountersigned_example :
    (a : Arguments (Word Element) Account) × (c : Accounts Account) × (s : SettleSession
      (host the_note))
    × (arguments (host the_note) settle_args ≡ ok a)
    × (accounts_of (host the_note) (some (codes "accounts.json")) ≡ ok c)
    × IsSession (host the_note) a c s
    × IsCountersigned
        (host the_note)
        (guardian the_note)
        s
        []
        settled.1
        settled.0.settle_proposal_id
    × (announce (host the_note) s settled.0.settle_proposal_id ≡ ok settled.0)
settle_session-IsCountersigned_example =
    settle_session-IsCountersigned (host the_note) (guardian the_note) settle_args
      (some (codes "accounts.json")) (word 9) [] settled.1 settled.0 settled.2
