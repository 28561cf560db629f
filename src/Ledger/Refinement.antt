-- ===== src/Ledger/Refinement.antt =====
-- Every step of the chain is a step of the specification.
use bartok.Base.{
  ◌+◌, ◌≤◌, ◌<◌, ◌≡◌, refl, sym, ap, ◌∙◌, List, [], ◌∷◌, ◌++◌, map, ok, ok_inj, some, length, arith,
}
use mathlib.Core.List.{map-append}
use bartok.Miden.{Miden, Word}
use bartok.Contract.{Kernel, seller_recipient, buyer_recipient, run}
use bartok.Contract.Split.{payment, payments_of, run-IsSettlement}
use bartok.Contract.Gate.{operator_of, run_ok_iff}
use bartok.Ledger.{Escrow, Ledger, Step, fund, consume, ◌⇒◌, lock, split, view, budget_in}

module _ (m : Miden) (k : Kernel m) (room : 1 < k.output_limit) where
  open m use {Felt, id_eq_iff, as_canonical_u64}
  open k use {Tx, active_account, note_assets, outputs}

  -- What a consumption that counts must have been.
  pub consumed :
      (e : Escrow Felt) (arg : Word Felt) (t t' : Tx)
      → note_assets t ≡ e.asset ∷ []
      → outputs t ≡ []
      → run m k e.terms arg t ≡ ok t'
      → (active_account t ≡ operator_of m k e.terms)
        × (as_canonical_u64 arg.w0 ≤ budget_in m k e)
        × (map (payment m k) (outputs t')
            ≡ payments_of
                (seller_recipient e.terms)
                (buyer_recipient e.terms)
                (as_canonical_u64 arg.w0)
                (budget_in m k e))
  consumed e arg t t' holds fresh done =
      let enough : length (outputs t) + 1 < k.output_limit = rw fresh (omega arith) in
      let (operator, (escrow, last, covered)) =
        (run_ok_iff m k e.terms arg t enough).0 (t', done) in
      let held : some e.asset ≡ some escrow = rw holds at last in
      let same : escrow ≡ e.asset = cc in
      let covers : as_canonical_u64 arg.w0 ≤ budget_in m k e = rw (← same) covered in
      let (t'', notes, done', out, settled) =
        run-IsSettlement m k e.terms arg t e.asset ((id_eq_iff _ _).1 operator) (rw holds) covers
          enough in
      let final : t' ≡ t'' = ok_inj (sym done ∙ done') in
      (operator, covers, rw (final, out, fresh) settled.paid)

  -- A consumption in plain numbers.
  pub consume-view :
      (l l' : Ledger m k) (before after : List (Escrow Felt)) (e : Escrow Felt) (arg : Word Felt)
      (t t' : Tx)
      → l.unspent ≡ before ++ e ∷ after
      → note_assets t ≡ e.asset ∷ []
      → outputs t ≡ []
      → run m k e.terms arg t ≡ ok t'
      → l'.unspent ≡ before ++ after
      → l'.paid ≡ l.paid ++ outputs t'
      → (as_canonical_u64 arg.w0 ≤ budget_in m k e)
        × ((view m k l).budgets
            ≡ map (budget_in m k) before ++ budget_in m k e ∷ map (budget_in m k) after)
        × ((view m k l').budgets ≡ map (budget_in m k) before ++ map (budget_in m k) after)
        × ((view m k l').payments
            ≡ (view m k l).payments
              ++ payments_of
                  (seller_recipient e.terms)
                  (buyer_recipient e.terms)
                  (as_canonical_u64 arg.w0)
                  (budget_in m k e))
  consume-view l l' before after e arg t t' spent holds fresh done left out =
      let (_, covers, paid) = consumed e arg t t' holds fresh done in
      (
        covers,
        ap (map (budget_in m k)) spent ∙ map-append (budget_in m k) before (e ∷ after),
        ap (map (budget_in m k)) left ∙ map-append (budget_in m k) before after,
        ap (map (payment m k)) out
            ∙ map-append (payment m k) l.paid (outputs t')
            ∙ ap (λ ps. map (payment m k) l.paid ++ ps) paid,
      )

  -- In a kernel with room for two notes every step of the chain, whoever takes it, is one of the
  -- specification: the budgets that are locked and the payments made change by a lock, or by the
  -- split of one locked budget with a charge that it covers.
  pub Step-⇒ : (l l' : Ledger m k) → Step m k l l' → view m k l ⇒ view m k l'
  Step-⇒ l l' (fund _ e) = lock (budget_in m k e) refl refl
  Step-⇒ l l' (consume before after e arg t t' spent holds fresh done left out _) =
      let (covers, from, to, paid) =
        consume-view l l' before after e arg t t' spent holds fresh done left out in
      split _ _ (seller_recipient e.terms) (buyer_recipient e.terms) (as_canonical_u64 arg.w0)
        (budget_in m k e) covers from to paid
