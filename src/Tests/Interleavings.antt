-- ===== src/Tests/Interleavings.antt =====
-- The theorems on the web server's sessions at the end of that run.
use bartok.Base.{ℕ, ◌+◌, ◌≤◌, ◌≡◌, refl, false, true, some, [], ◌∷◌, ◌++◌, map, ok, arith}
use native.Mathlib.Decide.{ℕ_discrete}
use bartok.Text.{codes, text_eq}
use bartok.Text.Decimal.{parse_u64, to_string}
use bartok.Contract.{BartokSettlement, run, vm_asset, vm_note}
use bartok.Contract.Storage.{from_items, settlement_storage}
use bartok.Cli.{arg, arg_value}
use bartok.Escrow.{Parameters, report, build_escrow, parameters, load_script, assemble}
use bartok.Settle.{Accounts, SettleSession, Settled, accounts_of, open_session, announce}
use bartok.Settle.Announced.{announced}
use bartok.Bridge.{Object, Bridge, basic, ending, answering, total, persist, confirm, start_session}
use bartok.Bridge.Chat.{chat, chat_spent, answered, is_given}
use bartok.Bridge.Settling.{end_session, end_charge, restart, settle_call}
use bartok.Bridge.Steps.{none_yet, escrow_args}
use bartok.Bridge.Waiting.{weigh, settles, logged}
use bartok.Bridge.Budget.{OriginOf}
use bartok.Bridge.Honoured.{Reach-Good, waiting-settles}
use bartok.Bridge.Settlements.{Reach-once}
use bartok.Bridge.Restart.{restart-stranded}
use bartok.Bridge.Overtaken.{landing, overtaken-uncharged}
use bartok.Tests.Goldilocks.{Element, new}
use bartok.Tests.Model.{Account, account_eq, from_text, token_of, storage_new, toy, storage_of}
use bartok.Tests.Chain.{Transaction, kernel, parse_json, index_json}
use bartok.Tests.Runs.{result_of, word}
use bartok.Tests.Handovers.{value_of}
use bartok.Tests.Bridges.{
  program, web, inputs, first, made, session_asked, session_object, session_ended, ended_object,
  reached_ended,
}

Reach-Good_example :
    (total ended_object.0.session.charges ≤ ended_object.0.session.budget)
    × OriginOf web program (some (codes "accounts.json")) ended_object.0.session
Reach-Good_example =
    Reach-Good web program (some (codes "accounts.json")) 1 ended_object.0 reached_ended
      ended_object.1

Reach-once_example :
    weigh (settles 1) session_ended.0.waiting + weigh (logged 1) session_ended.0.settlements ≤ 1
Reach-once_example = Reach-once web program (some (codes "accounts.json")) reached_ended 1

restart-stranded_example :
    (o : Object) × ((restart (persist session_ended.0)).objects 1 ≡ some o)
    × (o.listed ≡ true)
    × (o.session.settling ≡ true)
    × (o.session.settled ≡ false)
    × (weigh (settles 1) (restart (persist session_ended.0)).waiting ≡ 0)
unfolding ended_object value_of session_ended result_of end_session end_charge answered is_given
    session_object session_asked chat chat_spent confirm start_session ℕ_discrete report
restart-stranded_example =
    restart-stranded web program (some (codes "accounts.json")) session_ended.0 1 ended_object.0
      ended_object.1 refl refl refl none_yet

unfoldable known : (c : Accounts Account) × (accounts_of web (some (codes "accounts.json")) ≡ ok c)
unfolding result_of accounts_of from_text parse_u64 parse_json index_json
known = result_of (accounts_of web (some (codes "accounts.json"))) tt

unfoldable agreed : (p : Parameters Account) × (parameters web inputs ≡ ok p)
unfolding result_of parameters arg_value from_text parse_u64 parse_json index_json new escrow_args
    arg text_eq to_string
agreed = result_of (parameters web inputs) tt

abbrev consuming : Transaction
consuming = record {
  consumer = agreed.0.operator;
  assets = map (vm_asset toy) made.0.escrow_note.assets;
  out = [];
}

waiting-settles_example :
    (s : SettleSession web) × (self : BartokSettlement Element) × (t' : Transaction) × (r : Settled
      web ℕ)
    × (open_session web
          (settle_call (codes "settle_session") ended_object.0.session 300)
          (some (codes "accounts.json"))
          (word 9)
        ≡ ok s)
    × (s.escrow_note ≡ made.0.escrow_note)
    × (s.charge ≡ 300)
    × (s.charge + s.refund ≡ ended_object.0.session.budget)
    × (from_items (storage_of made.0.escrow_note.recipient) ≡ some self)
    × (run toy kernel self s.args_word consuming ≡ ok t')
    × (announce web s 7 ≡ ok r)
    × (t'.out ≡ [] ++ map (vm_note toy) (announced web kernel r))
unfolding known agreed ended_object value_of session_ended result_of end_session end_charge answered
    is_given session_object session_asked chat chat_spent confirm start_session ℕ_discrete report
    made build_escrow parameters load_script assemble settlement_storage storage_new token_of new
    account_eq arg arg_value text_eq parse_json index_json from_text parse_u64 escrow_args to_string
    first
waiting-settles_example =
    waiting-settles web program (some (codes "accounts.json")) kernel (omega arith)
      (codes "settle_session") (λ t e. cc) (λ t e. cc) [] [] (ending 1 300 1) 1 300 ended_object.0
      inputs made.0 agreed.0 known.0 (word 9) 7 consuming reached_ended refl refl ended_object.1
      refl refl made.1 agreed.1 refl known.1 (λ t e. cc) (λ t e. cc) refl refl refl (omega arith)

unfoldable overtaking : (b : Bridge) × (chat session_ended.0 1 (codes "more") [] ≡ ok b)
unfolding result_of chat chat_spent ended_object value_of session_ended end_session end_charge
    answered is_given session_object session_asked confirm start_session ℕ_discrete report text_eq
overtaking = result_of (chat session_ended.0 1 (codes "more") []) tt

-- The answer has come, and the settlement lands next.
abbrev overtook : Bridge
overtook = answered overtaking.0 (ending 1 300 1 ∷ []) 1 300 700 50 ended_object.0

overtaken-uncharged_example :
    ((b' : Bridge) × (chat session_ended.0 1 (codes "more") [] ≡ ok b')
      × (b'.waiting ≡ answering 1 300 ∷ ending 1 300 1 ∷ [])
      × (b'.objects 1 ≡ some ended_object.0))
    × ((o1 o2 : Object) × (overtook.objects 1 ≡ some o1)
        × (o1.session.charges ≡ ended_object.0.session.charges ++ 700 ∷ [])
        × (o1.listed ≡ true)
        × ((landing overtook [] 1 300 (some 1)).objects 1 ≡ some o2)
        × (o2.listed ≡ false)
        × (total o2.session.charges ≡ 300 + 700)
        × ((landing overtook [] 1 300 (some 1)).settlements ≡ (1, 300) ∷ overtook.settlements))
unfolding overtaking ended_object value_of session_ended result_of end_session end_charge answered
    is_given session_object session_asked chat chat_spent confirm start_session ℕ_discrete report
    text_eq
overtaken-uncharged_example =
    overtaken-uncharged session_ended.0 overtaking.0 overtook [] [] [] (ending 1 300 1 ∷ []) [] 1
      300 700 50 (some 1) (some 1) ended_object.0 (codes "more") [] basic refl ended_object.1 refl
      refl refl refl refl refl refl refl refl refl ended_object.1 (omega arith) refl
