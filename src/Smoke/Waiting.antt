-- ===== src/Smoke/Waiting.antt =====
-- The two loops of smoke_escrow.rs: wait for the mint note, wait for the balance. An error of the
-- client ends the program.
use bartok.Base.{
  ℕ, zero, suc, ◌+◌, ◌≤◌, ◌≡◌, ◌≢◌, refl, ◌∙◌, arith, Bool, true, false, Bool-cases, inl, inr,
  Option, some, List, [], ◌∷◌, ok, err, leb, leb→le, context,
}
use bartok.Base.Action.{Action, ◌>>=◌, ◌>>◌, pure, lift, continue-eq-ok, option-continue, end_of}
use native.Mathlib.Nat.{le_trans}
use bartok.Miden.{Note, Asset, fungible, non_fungible}
use bartok.Host.{Host}
use bartok.Client.{ClientSdk}
use bartok.Smoke.{amount_or_zero, balance_of}

-- What the program uses of the client beside `ClientSdk`.
pub record SmokeSdk (h : Host) (c : ClientSdk h) : Type 0 where
  pub get_consumable_notes : c.Client → h.AccountId → Action c.World (List c.InputNote)
  pub note_of : c.InputNote → Option (Note h.miden)
  pub build_consume_notes : List (Note h.miden) → Option h.Request
  -- The assets in the vault of an account.
  pub get_account :
      c.Client → h.AccountId → Action c.World (Option (List (Asset h.Fungible h.Other)))

module _ (h : Host) (c : ClientSdk h) (s : SmokeSdk h c) where
  open h use {miden, AccountId, Fungible, Other, id_eq, id_eq_iff, faucet_id, amount}
  open c use {World, Client, InputNote, sync_state, sleep}
  open s use {get_consumable_notes, get_account}

  abbrev pub first_or : {A : Type 0} → Action World A → List A → Action World A
  first_or later [] = later
  first_or later (a ∷ _) = pure a

  -- `'outer: { for _ in 0..tries { .. } bail!(..) }`
  unfoldable pub wait_consumable : ℕ → Client → AccountId → Action World InputNote
  wait_consumable zero client buyer = λ w. (err "mint note never became consumable", w)
  wait_consumable (suc tries) client buyer = do
    sync_state client
    notes ← get_consumable_notes client buyer
    first_or (λ w. wait_consumable tries client buyer (sleep 5 w)) notes

  abbrev pub if_enough : Bool → Action World (Unit {0}) → Action World (Unit {0})
  if_enough true later = pure tt
  if_enough false later = later

  -- `for _ in 0..tries { .. }` and the `ensure!` behind it.
  unfoldable pub wait_funded : ℕ → Client → AccountId → AccountId → ℕ → Action World (Unit {0})
  wait_funded zero client buyer faucet budget =
      λ w. (err "buyer balance never reached the budget", w)
  wait_funded (suc tries) client buyer faucet budget = do
    sync_state client
    found ← get_account client buyer
    vault ← lift (context found "buyer record")
    if_enough (leb budget (balance_of h faucet vault))
        (λ w. wait_funded tries client buyer faucet budget (sleep 5 w))

  -- The assets of one faucet in a vault sum to a number, not reduced to any number of bits.
  pub data Holding (faucet : AccountId) : List (Asset Fungible Other) → ℕ → Type 0 where
    holds_nothing : Holding faucet [] 0
    of_faucet :
        {a : Fungible} {vault : List (Asset Fungible Other)} {n : ℕ}
        → faucet_id a ≡ faucet
        → Holding faucet vault n
        → Holding faucet (fungible a ∷ vault) (amount a + n)
    of_other :
        {a : Fungible} {vault : List (Asset Fungible Other)} {n : ℕ}
        → faucet_id a ≢ faucet
        → Holding faucet vault n
        → Holding faucet (fungible a ∷ vault) n
    no_amount :
        {x : Other} {vault : List (Asset Fungible Other)} {n : ℕ}
        → Holding faucet vault n
        → Holding faucet (non_fungible x ∷ vault) n

  counted :
      (faucet : AccountId) (a : Asset Fungible Other) (vault : List (Asset Fungible Other)) (n : ℕ)
      → Holding faucet vault n
      → (sum : ℕ) × Holding faucet (a ∷ vault) sum × (sum ≡ amount_or_zero h faucet a + n)
  counted faucet (non_fungible x) vault n rest = (n, no_amount rest, omega arith)
  counted faucet (fungible a) vault n rest = elim (Bool-cases (id_eq (faucet_id a) faucet)) [
    | inl same ↦
        rw (same, amount_or_zero) (amount a + n, of_faucet ((id_eq_iff _ _).0 same) rest, refl)
    | inr other ↦
        let differs : faucet_id a ≢ faucet =
          λ e. let same = (id_eq_iff (faucet_id a) faucet).1 e in cc in
        rw (other, amount_or_zero) (n, of_other differs rest, omega arith)
  ]

  -- The balance on a `u64` is at most the sum.
  balance_of-Holding :
      (faucet : AccountId) (vault : List (Asset Fungible Other))
      → (n : ℕ) × Holding faucet vault n × (balance_of h faucet vault ≤ n)
  balance_of-Holding faucet [] = (0, holds_nothing, omega arith)
  balance_of-Holding faucet (a ∷ vault) =
      let (n, holds, below) = balance_of-Holding faucet vault in
      let (sum, more, is) = counted faucet a vault n holds in (sum, more, omega (arith, below, is))

  -- From `w` to `w'` the client, round after round, synced, read the buyer's vault and paused; and in
  -- the last of at most `tries` rounds the vault held at least the budget of the faucet's asset.
  pub data FundedWithin (client : Client) (buyer faucet : AccountId) (budget : ℕ)
      : ℕ → World → World → Type 0 where
    seen_now :
        {tries n : ℕ} {w synced w' : World} (vault : List (Asset Fungible Other))
        → sync_state client w ≡ (ok tt, synced)
        → get_account client buyer synced ≡ (ok (some vault), w')
        → Holding faucet vault n
        → budget ≤ n
        → FundedWithin client buyer faucet budget (suc tries) w w'
    seen_later :
        {tries : ℕ} {w synced looked w' : World} (vault : List (Asset Fungible Other))
        → sync_state client w ≡ (ok tt, synced)
        → get_account client buyer synced ≡ (ok (some vault), looked)
        → FundedWithin client buyer faucet budget tries (sleep 5 looked) w'
        → FundedWithin client buyer faucet budget (suc tries) w w'

  enough_or :
      (b : Bool) (later : Action World (Unit {0})) (w : World) {w' : World}
      → b ≡ true
      → if_enough b later w ≡ (ok tt, w')
      → w ≡ w'
  enough_or true later w is e = (end_of e).1
  enough_or false later w is e = cc

  not_enough :
      (b : Bool) (later : Action World (Unit {0})) (w : World) {w' : World}
      → b ≡ false
      → if_enough b later w ≡ (ok tt, w')
      → later w ≡ (ok tt, w')
  not_enough true later w is e = cc
  not_enough false later w is e = e

  -- Waiting for the balance ends well only in a world in which the buyer was just seen to have it.
  pub wait_funded-FundedWithin :
      (tries : ℕ) (client : Client) (buyer faucet : AccountId) (budget : ℕ) (w w' : World)
      → wait_funded tries client buyer faucet budget w ≡ (ok tt, w')
      → FundedWithin client buyer faucet budget tries w w'
  unfolding wait_funded
  wait_funded-FundedWithin zero client buyer faucet budget w w' e = cc
  wait_funded-FundedWithin (suc tries) client buyer faucet budget w w' e =
      let (_, w1, syncs, e1) = continue-eq-ok (sync_state client w) _ e in
      let (found, w2, reports, e2) = continue-eq-ok (get_account client buyer w1) _ e1 in
      let (vault, is, e3) = option-continue found _ w2 _ e2 in
      elim (Bool-cases (leb budget (balance_of h faucet vault))) [
        | inl enough ↦
            let last : w2 ≡ w' = enough_or _ _ w2 enough e3 in
            let (n, holds, below) = balance_of-Holding faucet vault in
            seen_now vault syncs (reports ∙ (λ i. (ok (is i), last i))) holds
              (le_trans (leb→le _ _ enough) below)
        | inr short ↦ seen_later vault syncs (reports ∙ (λ i. (ok (is i), w2))) (
            wait_funded-FundedWithin tries client buyer faucet budget (sleep 5 w2) w'
              (not_enough _ _ w2 short e3))
      ]
