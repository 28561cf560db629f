-- ===== src/Ledger.antt =====
-- The chain as the escrows of miden/contracts/settlement-note/src/lib.rs see it: buyers lock budgets,
-- and any account may try to consume an escrow, which takes the escrow's script to agree. A state is
-- what is locked and what was paid out; `Locked` and `⇒` say the same in plain numbers.
pub mod Refinement
pub mod Traces
use bartok.Base.{ℕ, ◌+◌, ◌-◌, ◌≤◌, ◌≡◌, List, [], ◌∷◌, ◌++◌, map, Result, ok}
use bartok.Miden.{Miden, Word}
use bartok.Contract.{
  BartokSettlement, VmAsset, OutputNote, Kernel, seller_recipient, buyer_recipient, run,
}
use bartok.Contract.Split.{payment, payments_of, sum_of}

-- The specification: the budgets that are locked, and who was paid what.
pub record Locked (W : Type 0) : Type 0 where
  pub budgets : List ℕ
  pub payments : List (W × ℕ)

abbrev pub total : List ℕ → ℕ
total [] = 0
total (b ∷ bs) = b + total bs

-- What the specification lets happen: a budget is locked, or one is split between two payees by a
-- charge that it covers.
infix 40 ◌⇒◌
pub data ◌⇒◌ {W : Type 0} : Locked W → Locked W → Type 0 where
  lock : {s s' : Locked W} (b : ℕ) → s'.budgets ≡ b ∷ s.budgets → s'.payments ≡ s.payments → s ⇒ s'
  split :
      {s s' : Locked W} (before after : List ℕ) (seller buyer : W) (charge budget : ℕ)
      → charge ≤ budget
      → s.budgets ≡ before ++ budget ∷ after
      → s'.budgets ≡ before ++ after
      → s'.payments ≡ s.payments ++ payments_of seller buyer charge budget
      → s ⇒ s'

-- An escrow: its storage and its asset.
pub record Escrow (F : Type 0) : Type 0 where
  pub terms : BartokSettlement F
  pub asset : VmAsset F

module _ (m : Miden) (k : Kernel m) where
  open m use {Felt, AccountId, as_canonical_u64}
  open k use {Tx, active_account, note_assets, outputs}

  -- A consumption that took place.
  pub record Consumption : Type 0 where
    pub consumer : AccountId
    pub terms : BartokSettlement Felt
    pub charge : ℕ
    pub budget : ℕ

  pub record Ledger : Type 0 where
    pub unspent : List (Escrow Felt)
    pub paid : List (OutputNote Felt)
    pub history : List Consumption

  abbrev pub budget_in : Escrow Felt → ℕ
  budget_in e = as_canonical_u64 e.asset.value.w0

  -- A step of the chain. A transaction that consumes an escrow starts with no notes and with the
  -- escrow's asset, in whichever account, and counts if the script ends well.
  pub data Step : Ledger → Ledger → Type 0 where
    fund : (l : Ledger) (e : Escrow Felt) → Step l (record l { unspent = e ∷ l.unspent })
    consume :
        {l l' : Ledger} (before after : List (Escrow Felt)) (e : Escrow Felt) (arg : Word Felt)
        (t t' : Tx)
        → l.unspent ≡ before ++ e ∷ after
        → note_assets t ≡ e.asset ∷ []
        → outputs t ≡ []
        → run m k e.terms arg t ≡ ok t'
        → l'.unspent ≡ before ++ after
        → l'.paid ≡ l.paid ++ outputs t'
        → l'.history
          ≡ record {
            consumer = active_account t;
            terms = e.terms;
            charge = as_canonical_u64 arg.w0;
            budget = budget_in e;
          }
            ∷ l.history
        → Step l l'

  pub data Reach (l : Ledger) : Ledger → Type 0 where
    here : Reach l l
    next : {u v : Ledger} → Reach l u → Step u v → Reach l v

  -- A ledger in plain numbers.
  abbrev pub view : Ledger → Locked (Word Felt)
  view l = record { budgets = map budget_in l.unspent; payments = map (payment m k) l.paid }
