-- ===== src/Tests/Sessions.antt =====
-- The theorems on an escrow, its session and its settlement at the runs of `Runs`.
use bartok.Base.{◌≡◌, refl, some, List, [], ◌++◌, map, ok, arith}
use bartok.Text.{trim, split}
use bartok.Text.Decimal.{parse_u64}
use bartok.Miden.{Word}
use bartok.Contract.{BartokSettlement, OutputNote, run, vm_asset}
use bartok.Contract.Split.{payment, payments_of}
use bartok.Contract.Storage.{from_items, settlement_storage}
use bartok.Cli.{arg_value, parse_part, parse_serial}
use bartok.Escrow.{parameters, load_script, assemble, build_escrow}
use bartok.Escrow.Layout.{build_escrow-run}
use bartok.Settle.{arguments, accounts_of, open_with}
use bartok.Tests.Goldilocks.{Element, Element-eq, new}
use bartok.Tests.Model.{account_eq, from_text, token_of, storage_new, toy, digest_of, storage_of}
use bartok.Tests.Chain.{Transaction, kernel, host, parse_json, index_json, decode}
use bartok.Tests.Runs.{
  result_of, word, env, the_note, built, escrow, agreed_on, read_args, read_accounts, session,
}

abbrev consumed : Transaction
consumed = record {
  consumer = agreed_on.0.operator;
  assets = map (vm_asset toy) escrow.0.escrow_note.assets;
  out = [];
}

build_escrow-run_example :
    (self : BartokSettlement Element) × (t' : Transaction) × (notes : List (OutputNote Element))
    × (from_items (storage_of escrow.0.escrow_note.recipient) ≡ some self)
    × (run toy kernel self (word 300) consumed ≡ ok t')
    × (t'.out ≡ [] ++ notes)
    × (map (payment toy kernel) notes
        ≡ payments_of
            (digest_of escrow.0.seller_recipient)
            (digest_of escrow.0.buyer_recipient)
            300
            agreed_on.0.budget)
unfolding agreed_on result_of parameters arg_value from_text parse_u64 parse_json index_json new
build_escrow-run_example =
    build_escrow-run (host the_note) kernel env escrow.0 agreed_on.0 (word 300) consumed escrow.1
      agreed_on.1 refl refl (omega arith) (omega arith)

same_word :
    (a b : Word Element)
    → a.w0.0 ≡ b.w0.0
    → a.w1.0 ≡ b.w1.0
    → a.w2.0 ≡ b.w2.0
    → a.w3.0 ≡ b.w3.0
    → a ≡ b
same_word a b e0 e1 e2 e3 = λ i. record {
  w0 = Element-eq a.w0 b.w0 e0 i;
  w1 = Element-eq a.w1 b.w1 e1 i;
  w2 = Element-eq a.w2 b.w2 e2 i;
  w3 = Element-eq a.w3 b.w3 e3 i;
}

same_escrow : session.0.escrow_note ≡ escrow.0.escrow_note
unfolding session result_of open_with read_args read_accounts trim decode built escrow agreed_on
    account_eq new build_escrow parameters load_script assemble arg_value settlement_storage
    storage_new from_text parse_u64 parse_json index_json token_of arguments accounts_of
    parse_serial parse_part split
same_escrow = refl

same_seller : read_accounts.0.seller ≡ agreed_on.0.seller
unfolding read_accounts agreed_on result_of parameters accounts_of arg_value from_text parse_u64
    parse_json index_json new
same_seller = refl

same_faucet : read_accounts.0.faucet ≡ agreed_on.0.faucet
unfolding read_accounts agreed_on result_of parameters accounts_of arg_value from_text parse_u64
    parse_json index_json new
same_faucet = refl

same_buyer : read_args.0.buyer ≡ agreed_on.0.buyer
unfolding read_args agreed_on result_of parameters arguments arg_value from_text parse_u64
    parse_json index_json new parse_serial parse_part split trim
same_buyer = refl

same_seller_serial : read_args.0.seller_serial ≡ escrow.0.seller_serial
unfolding read_args escrow result_of arguments arg_value from_text parse_u64 new parse_serial
    parse_part split trim build_escrow parameters load_script assemble settlement_storage
    storage_new parse_json index_json token_of account_eq
same_seller_serial = same_word read_args.0.seller_serial escrow.0.seller_serial refl refl refl refl

same_buyer_serial : read_args.0.buyer_serial ≡ escrow.0.buyer_serial
unfolding read_args escrow result_of arguments arg_value from_text parse_u64 new parse_serial
    parse_part split trim build_escrow parameters load_script assemble settlement_storage
    storage_new parse_json index_json token_of account_eq
same_buyer_serial = same_word read_args.0.buyer_serial escrow.0.buyer_serial refl refl refl refl

abbrev settling : Transaction
settling = record {
  consumer = agreed_on.0.operator;
  assets = map (vm_asset toy) session.0.escrow_note.assets;
  out = [];
}
