-- ===== src/Tests/Ledgers.antt =====
-- The theorems on the chain at a trace of two steps: a buyer locks 1000, the operator charges 300.
use bartok.Base.{◌+◌, ◌≡◌, refl, [], ◌∷◌, All, ok, arith}
use bartok.Miden.{private, fungible}
use bartok.Contract.{run, vm_asset}
use bartok.Contract.Storage.{stored}
use bartok.Ledger.{Escrow, Ledger, Step, fund, consume, Reach, here, next, view, ◌⇒◌}
use bartok.Ledger.Refinement.{Step-⇒}
use bartok.Ledger.Traces.{worth, locked_along, IsAuthorized, Reach-worth, Reach-IsAuthorized}
use bartok.Tests.Goldilocks.{Element, reduce}
use bartok.Tests.Model.{toy, account_eq}
use bartok.Tests.Chain.{Transaction, kernel, create_in, add_in, operator, faucet}
use bartok.Tests.Runs.{word, result_of}

abbrev escrow : Escrow Element
escrow = record {
  terms = stored toy (word 1) 7 (word 2) 8 private operator;
  asset = vm_asset toy (fungible (faucet, reduce 1000));
}

abbrev opened : Transaction
opened = record { consumer = operator; assets = escrow.asset ∷ []; out = [] }

unfoldable ran : (t' : Transaction) × (run toy kernel escrow.terms (word 300) opened ≡ ok t')
unfolding result_of run account_eq create_in add_in
ran = result_of (run toy kernel escrow.terms (word 300) opened) tt

abbrev genesis : Ledger toy kernel
genesis = record { unspent = []; paid = []; history = [] }

abbrev locked : Ledger toy kernel
locked = record { unspent = escrow ∷ []; paid = []; history = [] }

abbrev settled : Ledger toy kernel
settled = record {
  unspent = [];
  paid = ran.0.out;
  history = record { consumer = operator; terms = escrow.terms; charge = 300; budget = 1000 } ∷ [];
}

abbrev settling : Step toy kernel locked settled
settling = consume [] [] escrow (word 300) opened ran.0 refl refl refl ran.1 refl refl refl

abbrev trace : Reach toy kernel genesis settled
trace = next (next here (fund genesis escrow)) settling

Step-⇒_example : view toy kernel locked ⇒ view toy kernel settled
Step-⇒_example = Step-⇒ toy kernel (omega arith) locked settled settling

Reach-worth_example :
    worth (view toy kernel settled)
    ≡ locked_along toy kernel (omega arith) trace + worth (view toy kernel genesis)
Reach-worth_example = Reach-worth toy kernel (omega arith) genesis settled trace

Reach-IsAuthorized_example : All (IsAuthorized toy kernel (omega arith)) settled.history
Reach-IsAuthorized_example = Reach-IsAuthorized toy kernel (omega arith) genesis settled trace tt
