-- ===== src/Tests/Calls.antt =====
-- The theorems on a session from what build_escrow.rs prints to the notes of its settlement.
use bartok.Base.{ℕ, ◌+◌, ◌≡◌, refl, some, [], ◌++◌, map, ok, arith}
use bartok.Text.{codes, text_eq}
use bartok.Text.Decimal.{parse_u64}
use bartok.Contract.{BartokSettlement, run, vm_asset, vm_note}
use bartok.Contract.Storage.{from_items, settlement_storage}
use bartok.Cli.{arg, arg_value}
use bartok.Escrow.{report, build_escrow, parameters, load_script, assemble}
use bartok.Settle.{Accounts, Settled, SettleSession, accounts_of, open_session, announce}
use bartok.Settle.Announced.{announced}
use bartok.Settle.Command.{settle_args}
use bartok.Settle.Printed.{report-settles}
use bartok.Tests.Goldilocks.{Element, new}
use bartok.Tests.Model.{Account, account_eq, from_text, token_of, storage_new, toy, storage_of}
use bartok.Tests.Chain.{Transaction, kernel, parse_json, index_json}
use bartok.Tests.Runs.{result_of, env, word, built}
use bartok.Tests.Handovers.{carrier, sent, asked}

unfoldable known : (c : Accounts Account) × (accounts_of carrier env.accounts_json ≡ ok c)
unfolding result_of accounts_of from_text parse_u64 parse_json index_json
known = result_of (accounts_of carrier env.accounts_json) tt

-- The operator consumes the escrow.
abbrev consuming : Transaction
consuming = record {
  consumer = asked.0.operator;
  assets = map (vm_asset toy) sent.0.escrow_note.assets;
  out = [];
}

report-settles_example :
    (s : SettleSession carrier) × (self : BartokSettlement Element) × (t' : Transaction)
    × (r : Settled carrier ℕ) × (open_session carrier
          (settle_args
            (codes "settle_session")
            (report carrier sent.0).note_b64
            5
            (codes "22")
            (report carrier sent.0).seller_serial
            (report carrier sent.0).buyer_serial)
          env.accounts_json
          (word 9)
        ≡ ok s)
    × (s.escrow_note ≡ sent.0.escrow_note)
    × (s.charge ≡ 5)
    × (s.charge + s.refund ≡ asked.0.budget)
    × (from_items (storage_of sent.0.escrow_note.recipient) ≡ some self)
    × (run toy kernel self s.args_word consuming ≡ ok t')
    × (announce carrier s 7 ≡ ok r)
    × (t'.out ≡ [] ++ map (vm_note toy) (announced carrier kernel r))
unfolding sent asked built result_of build_escrow parameters load_script assemble settlement_storage
    storage_new token_of new account_eq arg arg_value text_eq parse_json index_json from_text
    parse_u64 report
report-settles_example =
    report-settles carrier (omega arith) kernel env sent.0 asked.0 known.0 (codes "settle_session")
      (codes "22") 5 (word 9) 7 consuming sent.1 asked.1 known.1 refl (λ t e. cc) (λ t e. cc)
      (λ t e. cc) refl (omega arith) refl refl (omega arith)
