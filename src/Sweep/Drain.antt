-- ===== src/Sweep/Drain.antt =====
-- The drain of joao_sweep.rs: every pending proposal of the seller's multisig is executed, and one
-- that fails does not keep the others from being tried. The client is a parameter.
use bartok.Base.{◌≡◌, refl, Bool, true, false, List, [], ◌∷◌, Result, ok, err, String}
use bartok.Base.Action.{Action, ◌>>=◌}

-- `Ok(()) => "executed"`, `Err(e) => "failed"`
abbrev pub is_executed : Result (Unit {0}) → Bool
is_executed (ok _) = true
is_executed (err _) = false

module _ {World Proposal : Type 0} where
  -- `for p in proposals`: what became of each, in order.
  unfoldable pub execute_all :
      (Proposal → Action World (Unit {0})) → List Proposal → World → List (Proposal × Bool) × World
  execute_all execute_proposal [] w = ([], w)
  execute_all execute_proposal (p ∷ ps) w =
      let tried = execute_proposal p w in
      let rest = execute_all execute_proposal ps tried.1 in
      ((p, is_executed tried.0) ∷ rest.0, rest.1)

  -- The end of `main`, from the list of proposals on.
  unfoldable pub drain :
      Action World (List Proposal)
      → (Proposal → Action World (Unit {0}))
      → Action World (List (Proposal × Bool))
  drain list_proposals execute_proposal = do
    proposals ← list_proposals
    λ w. let done = execute_all execute_proposal proposals w in (ok done.0, done.1)

  -- The proposals tried one after the other, each in the world that the one before it left, with
  -- what became of them and the world at the end.
  pub data Tried (execute_proposal : Proposal → Action World (Unit {0}))
      : List Proposal → World → List (Proposal × Bool) → World → Type 0 where
    nothing_left : {w : World} → Tried execute_proposal [] w [] w
    executed :
        {p : Proposal} {ps : List Proposal} {w w1 w' : World} {done : List (Proposal × Bool)}
        → execute_proposal p w ≡ (ok tt, w1)
        → Tried execute_proposal ps w1 done w'
        → Tried execute_proposal (p ∷ ps) w ((p, true) ∷ done) w'
    not_executed :
        {p : Proposal} {ps : List Proposal} {w w1 w' : World} {done : List (Proposal × Bool)}
        (e : String)
        → execute_proposal p w ≡ (err e, w1)
        → Tried execute_proposal ps w1 done w'
        → Tried execute_proposal (p ∷ ps) w ((p, false) ∷ done) w'

  first_proposal :
      {execute_proposal : Proposal → Action World (Unit {0})} {p : Proposal} {ps : List Proposal}
      {w w' : World} {done : List (Proposal × Bool)} (q : Result (Unit {0}) × World)
      → execute_proposal p w ≡ q
      → Tried execute_proposal ps q.1 done w'
      → Tried execute_proposal (p ∷ ps) w ((p, is_executed q.0) ∷ done) w'
  first_proposal (ok u, w1) e rest = executed e rest
  first_proposal (err x, w1) e rest = not_executed x e rest

  execute_all-Tried :
      (execute_proposal : Proposal → Action World (Unit {0})) (ps : List Proposal) (w : World)
      → Tried execute_proposal ps w
          (execute_all execute_proposal ps w).0
          (execute_all execute_proposal ps w).1
  unfolding execute_all
  execute_all-Tried execute_proposal [] w = nothing_left
  execute_all-Tried execute_proposal (p ∷ ps) w =
      first_proposal (execute_proposal p w) refl
        (execute_all-Tried execute_proposal ps (execute_proposal p w).1)

  -- Once the pending proposals are listed the drain ends well: it has executed each of them in turn,
  -- in the world that the one before it left, whatever became of that one, and it reports a proposal
  -- as executed exactly where its execution succeeded, and as failed where it returned an error.
  pub drain-Tried :
      (list_proposals : Action World (List Proposal))
      (execute_proposal : Proposal → Action World (Unit {0})) (ps : List Proposal) (w w1 : World)
      → list_proposals w ≡ (ok ps, w1)
      → (done : List (Proposal × Bool)) × (w' : World) × (drain list_proposals execute_proposal w
          ≡ (ok done, w'))
        × Tried execute_proposal ps w1 done w'
  unfolding drain
  drain-Tried list_proposals execute_proposal ps w w1 listed = (
    (execute_all execute_proposal ps w1).0,
    (execute_all execute_proposal ps w1).1,
    rw listed,
    execute_all-Tried execute_proposal ps w1,
  )
