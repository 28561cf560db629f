-- ===== src/Tests/Settlements.antt =====
-- The theorems on the escrow's script at concrete transactions.
use bartok.Base.{◌≡◌, refl, ◌↔◌, ok, List, [], ◌∷◌, ◌++◌, some, arith}
use bartok.Miden.{private, fungible}
use bartok.Contract.{
  BartokSettlement, VmAsset, OutputNote, run, vm_asset, seller_recipient, buyer_recipient,
}
use bartok.Contract.Split.{IsSettlement, run-IsSettlement}
use bartok.Contract.Gate.{operator_of, Covered, run_ok_iff}
use bartok.Contract.Storage.{stored, settlement_storage, from_items, from_items-settlement_storage}
use bartok.Tests.Goldilocks.{Element, reduce}
use bartok.Tests.Model.{toy, account_eq}
use bartok.Tests.Chain.{Transaction, kernel, operator, faucet}
use bartok.Tests.Runs.{word}

abbrev terms : BartokSettlement Element
terms = stored toy (word 1) 7 (word 2) 8 private operator

abbrev escrow_asset : VmAsset Element
escrow_asset = vm_asset toy (fungible (faucet, reduce 1000))

abbrev opened : Transaction
opened = record { consumer = operator; assets = escrow_asset ∷ []; out = [] }

run-IsSettlement_example :
    (t' : Transaction) × (notes : List (OutputNote Element)) × (run toy kernel terms
        (word 300)
        opened
      ≡ ok t')
    × (t'.out ≡ [] ++ notes)
    × IsSettlement toy kernel terms escrow_asset 300 1000 notes
unfolding account_eq
run-IsSettlement_example =
    run-IsSettlement toy kernel terms (word 300) opened escrow_asset refl refl (omega arith)
      (omega arith)

run_ok_iff_example :
    ((t' : Transaction) × (run toy kernel terms (word 300) opened ≡ ok t'))
    ↔ ((operator ≡ operator_of toy kernel terms) × Covered toy kernel (word 300) opened)
run_ok_iff_example = run_ok_iff toy kernel terms (word 300) opened (omega arith)

from_items-settlement_storage_example :
    (items : List Element) × (self : BartokSettlement Element) × (settlement_storage toy
        (word 1)
        7
        (word 2)
        8
        private
        operator
      ≡ ok items)
    × (from_items items ≡ some self)
    × (seller_recipient self ≡ word 1)
    × (self.seller_tag ≡ reduce 7)
    × (buyer_recipient self ≡ word 2)
    × (self.buyer_tag ≡ reduce 8)
    × (self.note_type ≡ reduce 2)
    × (toy.account_new self.operator_prefix self.operator_suffix ≡ operator)
from_items-settlement_storage_example =
    from_items-settlement_storage toy (word 1) 7 (word 2) 8 private operator
