-- ===== src/Ledger/Traces.antt =====
-- What holds of the chain after any steps, by anyone.
use bartok.Base.{ℕ, ◌+◌, ◌≤◌, ◌<◌, ◌≡◌, ap, ◌∙◌, List, [], ◌∷◌, ◌++◌, All, arith}
use bartok.Miden.{Miden}
use bartok.Contract.{Kernel, seller_recipient, buyer_recipient}
use bartok.Contract.Split.{payments_of, sum_of, sum_of-payments_of}
use bartok.Contract.Gate.{operator_of}
use bartok.Ledger.{
  Ledger, Consumption, Step, fund, consume, Reach, here, next, Locked, total, view, budget_in,
}
use bartok.Ledger.Refinement.{consumed, consume-view}

total-append : (xs ys : List ℕ) → total (xs ++ ys) ≡ total xs + total ys
total-append [] ys = omega arith
total-append (x ∷ xs) ys = omega (arith, total-append xs ys)

sum_of-append : {W : Type 0} (xs ys : List (W × ℕ)) → sum_of (xs ++ ys) ≡ sum_of xs + sum_of ys
sum_of-append [] ys = omega arith
sum_of-append ((w, x) ∷ xs) ys = omega (arith, sum_of-append xs ys)

-- All the money of a state.
abbrev pub worth : {W : Type 0} → Locked W → ℕ
worth s = total s.budgets + sum_of s.payments

split-worth :
    {W : Type 0} (s s' : Locked W) (before after : List ℕ) (seller buyer : W) (charge budget : ℕ)
    → charge ≤ budget
    → s.budgets ≡ before ++ budget ∷ after
    → s'.budgets ≡ before ++ after
    → s'.payments ≡ s.payments ++ payments_of seller buyer charge budget
    → worth s' ≡ worth s
split-worth s s' before after seller buyer charge budget covered spent left paid =
    let out : sum_of s'.payments ≡ sum_of s.payments + budget =
      ap sum_of paid
      ∙ sum_of-append s.payments (payments_of seller buyer charge budget)
      ∙ ap (λ n. sum_of s.payments + n) (sum_of-payments_of seller buyer charge budget covered) in
    omega (
      arith,
      ap total spent,
      ap total left,
      total-append before (budget ∷ after),
      total-append before after,
      out,
    )

module _ (m : Miden) (k : Kernel m) (room : 1 < k.output_limit) where
  open m use {Felt, AccountId, id_eq_iff, as_canonical_u64}
  open k use {Tx, active_account, note_assets, outputs}

  -- What a step locks, and what a trace locks.
  abbrev pub locks : {l l' : Ledger m k} → Step m k l l' → ℕ
  locks (fund _ e) = budget_in m k e
  locks (consume _ _ _ _ _ _ _ _ _ _ _ _ _) = 0

  abbrev pub locked_along : {l u : Ledger m k} → Reach m k l u → ℕ
  locked_along here = 0
  locked_along (next r s) = locks s + locked_along r

  Step-worth :
      (l l' : Ledger m k) (s : Step m k l l') → worth (view m k l') ≡ locks s + worth (view m k l)
  Step-worth l l' (fund _ e) = omega arith
  Step-worth l l' (consume before after e arg t t' spent holds fresh done left out _) =
      let (covers, from, to, paid) =
        consume-view m k room l l' before after e arg t t' spent holds fresh done left out in
      split-worth (view m k l) (view m k l') _ _ (seller_recipient e.terms)
        (buyer_recipient e.terms) (as_canonical_u64 arg.w0) (budget_in m k e) covers from to paid
      ∙ omega arith

  -- Money is neither made nor lost: after any steps the locked budgets and the payments made sum to
  -- what they summed to at the start and what was locked on the way.
  pub Reach-worth :
      (l u : Ledger m k) (r : Reach m k l u)
      → worth (view m k u) ≡ locked_along r + worth (view m k l)
  Reach-worth l _ here = omega arith
  Reach-worth l u (next {u = v} r s) = omega (arith, Step-worth v u s, Reach-worth l v r)

  -- A consumption by the operator of its terms, of a charge within the budget.
  abbrev pub IsAuthorized : Consumption m k → Type 0
  IsAuthorized c = (c.consumer ≡ operator_of m k c.terms) × (c.charge ≤ c.budget)

  Step-IsAuthorized :
      (l l' : Ledger m k) → Step m k l l' → All IsAuthorized l.history → All IsAuthorized l'.history
  Step-IsAuthorized l _ (fund _ e) h = h
  Step-IsAuthorized l l' (consume before after e arg t t' spent holds fresh done left out told) h =
      let (operator, covered, _) = consumed m k room e arg t t' holds fresh done in
      rw told ((operator, covered), h)

  -- On every trace, each escrow that was consumed was consumed by the operator that its storage
  -- names, with a charge within its budget.
  pub Reach-IsAuthorized :
      (l u : Ledger m k) → Reach m k l u → All IsAuthorized l.history → All IsAuthorized u.history
  Reach-IsAuthorized l _ here h = h
  Reach-IsAuthorized l u (next {u = v} r s) h = Step-IsAuthorized v u s (Reach-IsAuthorized l v r h)
