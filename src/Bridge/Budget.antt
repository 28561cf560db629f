-- ===== src/Bridge/Budget.antt =====
-- The budgets of ux-prototype/server.js: what keeps the charges of a session within its hold, however
-- the handlers interleave.
pub mod Parts
use bartok.Base.{
  ℕ, ◌+◌, ◌≤◌, ◌<◌, ◌≡◌, refl, sym, ap, ◌∙◌, true, false, Option, none, some, List, [], ◌∷◌, ◌++◌,
  All, ok, arith,
}
use native.Mathlib.Nat.{le_trans}
use bartok.Text.{Text}
use bartok.Text.Decimal.{u64_mod}
use bartok.Miden.{Word}
use bartok.Host.{Host}
use bartok.Escrow.{Inputs, EscrowBuilt, build_escrow, report, Report}
use bartok.Bridge.{
  is_armed, Session, Object, Handler, confirming, answering, ending, sweeping, Bridge, total,
  modify, insert, persist, User,
}
use bartok.Bridge.Chat.{charged}
use bartok.Bridge.Steps.{escrow_args}
use bartok.Bridge.Waiting.{
  flag, weigh, weigh-middle, weigh-All, All-middle, All-imp, is_chat, total_at, budget_at, armed_at,
  at-modify, Holds, HoldsSaved, modify-Holds, at-insert, insert-Holds, when_listed-HoldsSaved,
}

pub total-append : (xs ys : List ℕ) → total (xs ++ ys) ≡ total xs + total ys
total-append [] ys = omega arith
total-append (x ∷ xs) ys = omega (arith, total-append xs ys)

-- A handler's figures: what was spent before is still the total, and what is settled is covered.
abbrev pub Spent : (ℕ → Option Object) → Handler → Type 0
Spent objects (answering id spent) = spent ≡ total_at (objects id)
Spent objects _ = Unit

abbrev pub Covered : (ℕ → Option Object) → ℕ → ℕ → Type 0
Covered objects id charge = (charge ≤ budget_at (objects id)) × (armed_at (objects id) ≡ true)

abbrev pub Settles : (ℕ → Option Object) → Handler → Type 0
Settles objects (ending id charge attempt) = Covered objects id charge
Settles objects (sweeping id charge) = Covered objects id charge
Settles objects _ = Unit

abbrev pub Paid : (ℕ → Option Object) → ℕ × ℕ → Type 0
Paid objects (id, charge) = Covered objects id charge

-- From objects to objects: budgets and escrows stay.
pub record Grows (f f' : ℕ → Option Object) : Type 0 where
  pub budgets : (i : ℕ) → budget_at (f i) ≤ budget_at (f' i)
  pub arms : (i : ℕ) → armed_at (f i) ≡ true → armed_at (f' i) ≡ true

pub Covered-Grows :
    {f f' : ℕ → Option Object}
    → Grows f f'
    → (id charge : ℕ) → Covered f id charge
    → Covered f' id charge
Covered-Grows g id charge (le, armed) = (le_trans le (g.budgets id), g.arms id armed)

pub Settles-Grows :
    {f f' : ℕ → Option Object} → Grows f f' → (x : Handler) → Settles f x → Settles f' x
Settles-Grows g (ending id charge attempt) h = Covered-Grows g id charge h
Settles-Grows g (sweeping id charge) h = Covered-Grows g id charge h
Settles-Grows g (confirming id) h = tt
Settles-Grows g (answering id spent) h = tt

abbrev pub SameTotals : (f f' : ℕ → Option Object) → Type 0
SameTotals f f' = (i : ℕ) → total_at (f' i) ≡ total_at (f i)

pub Spent-same :
    (f f' : ℕ → Option Object) → SameTotals f f' → (x : Handler) → Spent f x → Spent f' x
Spent-same f f' same (answering id spent) h = h ∙ sym (same id)
Spent-same f f' same (confirming id) h = tt
Spent-same f f' same (ending id charge attempt) h = tt
Spent-same f f' same (sweeping id charge) h = tt

pub not-chat : (f : ℕ → Option Object) (x : Handler) → is_chat x ≡ 0 → Spent f x
not-chat f (answering id spent) h = absurd (omega (arith, h))
not-chat f (confirming id) h = tt
not-chat f (ending id charge attempt) h = tt
not-chat f (sweeping id charge) h = tt

-- A change to one object that keeps its budget, and arms at most.
pub modify-Grows :
    (i : ℕ) (g : Object → Object) (f : ℕ → Option Object)
    → ((o : Object) → o.session.budget ≡ (g o).session.budget)
    → ((o : Object)
        → is_armed o.session.escrow_note_b64 ≡ true
        → is_armed (g o).session.escrow_note_b64 ≡ true)
    → Grows f (modify i g f)
modify-Grows i g f budget escrow = record {
  budgets =
      λ j. omega (arith, at-modify 0 (λ s. s.budget) (λ a b. a ≡ b) (λ a. refl) i g f budget j);
  arms =
      at-modify false (λ s. is_armed s.escrow_note_b64) (λ a b. a ≡ true → b ≡ true) (λ a e. e) i g
        f escrow;
}

module _ (h : Host) (program : Text) (accounts_json : Option Text) where
  open h use {miden, Felt, Bytes}

  -- Where a session comes from: a run of build_escrow for its buyer and its budget; the note that
  -- arms it is the printed one.
  pub record Origin (buyer_id : Text) (budget : ℕ) (params : Report) (escrow_note_b64 : Option Text)
      : Type 0 where
    pub env : Inputs Bytes (Word Felt)
    pub escrow : EscrowBuilt h
    pub args : env.args ≡ escrow_args program buyer_id budget
    pub bounded : budget < u64_mod
    pub file : env.accounts_json ≡ accounts_json
    pub built : build_escrow h env ≡ ok escrow
    pub printed : params ≡ report h escrow
    pub armed : (t : Text) → escrow_note_b64 ≡ some t → t ≡ params.note_b64

  abbrev pub OriginOf : Session → Type 0
  OriginOf s = Origin s.buyer_id s.budget s.params s.escrow_note_b64

  abbrev pub Good : Session → Type 0
  Good s = (total s.charges ≤ s.budget) × OriginOf s

  pub record Sound (b : Bridge) : Type 0 where
    pub sessions : (i : ℕ) → Holds Good (b.objects i)
    pub saves : (i : ℕ) → HoldsSaved Good (b.saved i)
    pub one_chat : weigh is_chat b.waiting ≤ flag b.busy
    pub spends : All (Spent b.objects) b.waiting
    pub settling : All (Settles b.objects) b.waiting
    pub paid : All (Paid b.objects) b.settlements
