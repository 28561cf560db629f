-- ===== src/Bridge/Within/Ends.antt =====
-- The settlements of ux-prototype/server.js keep the charges within the holds.
use bartok.Base.{
  ℕ, ◌+◌, ◌≡◌, refl, true, false, Bool-cases, inl, inr, Option, List, ◌∷◌, ok, >>=-eq-ok, ok_inj,
  ltb,
}
use mathlib.Core.Path.{subst}
use bartok.Text.{Text}
use bartok.Host.{Host}
use bartok.Bridge.{Handler, ending, sweeping, Bridge, modify}
use bartok.Bridge.Settling.{
  Outcome, landed, escrow_spent, wedged, failed, end_session, end_charge, end_outcome,
  sweep_session, sweep_charge, sweep_outcome, with_settling, touched, evicted, released,
}
use bartok.Bridge.Budget.{Sound, Covered}
use bartok.Bridge.Budget.Parts.{Sound-modify, Sound-settle, Sound-log, Sound-persist}
use bartok.Bridge.Within.Guards.{end_charge-Covered, sweep_charge-Covered}

module _ (h : Host) (program : Text) (accounts_json : Option Text) where
  pub end_session-Sound :
      (b : Bridge) (id now : ℕ) {b' : Bridge}
      → Sound h program accounts_json b
      → end_session b id now ≡ ok b'
      → Sound h program accounts_json b'
  unfolding end_session
  end_session-Sound b id now sound e =
      let (charge, begun, e1) = >>=-eq-ok (end_charge b id) _ e in
      subst (Sound h program accounts_json) (ok_inj e1) (
        Sound-modify h program accounts_json (record b { waiting = ending id charge 1 ∷ b.waiting })
          id (λ o. touched now (with_settling true o))
          (Sound-settle h program accounts_json b (ending id charge 1) sound refl
            (end_charge-Covered h program accounts_json b id sound begun))
          (λ o. refl) (λ o e. e) (λ o. refl) (λ o e. e))

  pub sweep_session-Sound :
      (b : Bridge) (id now : ℕ) {b' : Bridge}
      → Sound h program accounts_json b
      → sweep_session b id now ≡ ok b'
      → Sound h program accounts_json b'
  unfolding sweep_session
  sweep_session-Sound b id now sound e =
      let (charge, begun, e1) = >>=-eq-ok (sweep_charge b id now) _ e in
      subst (Sound h program accounts_json) (ok_inj e1) (
        Sound-modify h program accounts_json (record b { waiting = sweeping id charge ∷ b.waiting })
          id (with_settling true)
          (Sound-settle h program accounts_json b (sweeping id charge) sound refl
            (sweep_charge-Covered h program accounts_json b id now sound begun))
          (λ o. refl) (λ o e. e) (λ o. refl) (λ o e. e))

  pub end_outcome-Sound :
      (b : Bridge) (rest : List Handler) (id charge attempt : ℕ) (q : Outcome)
      → Sound h program accounts_json (record b { waiting = rest })
      → Covered b.objects id charge
      → Sound h program accounts_json (end_outcome b rest id charge attempt q)
  unfolding end_outcome
  end_outcome-Sound b rest id charge attempt landed sound covers =
      Sound-persist h program accounts_json _ (
        Sound-modify h program accounts_json _ id (λ o. with_settling false (evicted o))
          (Sound-log h program accounts_json (record b { waiting = rest }) id charge sound covers)
          (λ o. refl) (λ o e. e) (λ o. refl) (λ o e. e))
  end_outcome-Sound b rest id charge attempt escrow_spent sound covers =
      Sound-persist h program accounts_json _ (
        Sound-modify h program accounts_json (record b { waiting = rest }) id
          (λ o. with_settling false (evicted o)) sound (λ o. refl) (λ o e. e) (λ o. refl)
          (λ o e. e))
  end_outcome-Sound b rest id charge attempt wedged sound covers =
      elim (Bool-cases (ltb attempt 6)) [
        | inl again ↦ rw again (
            Sound-settle h program accounts_json (record b { waiting = rest })
              (ending id charge (attempt + 1)) sound refl covers)
        | inr last ↦ rw last (
            Sound-modify h program accounts_json (record b { waiting = rest }) id
              (with_settling false) sound (λ o. refl) (λ o e. e) (λ o. refl) (λ o e. e))
      ]
  end_outcome-Sound b rest id charge attempt failed sound covers =
      Sound-modify h program accounts_json (record b { waiting = rest }) id (with_settling false)
        sound (λ o. refl) (λ o e. e) (λ o. refl) (λ o e. e)

  pub released-Sound :
      (b : Bridge) (id : ℕ)
      → Sound h program accounts_json b
      → Sound h program accounts_json (record b { objects = modify id released b.objects })
  released-Sound b id sound =
      Sound-modify h program accounts_json b id released sound
        (λ o. elim (Bool-cases o.listed) [ inl e ↦ rw e refl | inr e ↦ rw e refl ])
        (λ o armed. elim (Bool-cases o.listed) [ inl e ↦ rw e armed | inr e ↦ rw e armed ])
        (λ o. elim (Bool-cases o.listed) [ inl e ↦ rw e refl | inr e ↦ rw e refl ])
        (λ o origin. elim (Bool-cases o.listed) [ inl e ↦ rw e origin | inr e ↦ rw e origin ])

  pub sweep_outcome-Sound :
      (b : Bridge) (rest : List Handler) (id charge : ℕ) (q : Outcome)
      → Sound h program accounts_json (record b { waiting = rest })
      → Covered b.objects id charge
      → Sound h program accounts_json (sweep_outcome b rest id charge q)
  unfolding sweep_outcome
  sweep_outcome-Sound b rest id charge landed sound covers =
      Sound-persist h program accounts_json _ (
        Sound-modify h program accounts_json _ id evicted
          (Sound-log h program accounts_json (record b { waiting = rest }) id charge sound covers)
          (λ o. refl) (λ o e. e) (λ o. refl) (λ o e. e))
  sweep_outcome-Sound b rest id charge escrow_spent sound covers =
      Sound-persist h program accounts_json _ (
        Sound-modify h program accounts_json (record b { waiting = rest }) id evicted sound
          (λ o. refl) (λ o e. e) (λ o. refl) (λ o e. e))
  sweep_outcome-Sound b rest id charge wedged sound covers =
      released-Sound (record b { waiting = rest }) id sound
  sweep_outcome-Sound b rest id charge failed sound covers =
      released-Sound (record b { waiting = rest }) id sound
