-- ===== src/Bridge/Within/Guards.antt =====
-- What the guards of ux-prototype/server.js let through.
use bartok.Base.{
  ℕ, ◌+◌, ◌≤◌, ◌<◌, ◌≡◌, sym, ap, ◌∙◌, true, false, not, ◌||◌, ◌&&◌, Bool-cases, inl, inr, Option,
  none, some, ok, context-eq-ok, ensure-eq-ok, ok_inj, leb, arith,
}
use mathlib.Core.Path.{subst}
use bartok.Text.{Text}
use bartok.Text.Decimal.{u64_mod}
use bartok.Host.{Host}
use bartok.Bridge.{
  has_text, tier_of, basic, genius, hold_of, min_hold_bartok, start_hold, requires_account,
  anon_spend_cap_bartok, is_armed, sweep_idle_ms, Session, Bridge, total, get, User, Tier,
}
use bartok.Bridge.Chat.{chat_spent, is_given, msg_tier}
use bartok.Bridge.Settling.{end_charge, sweep_charge, restored}
use bartok.Bridge.Waiting.{when_listed-some, total_at, settled_at, Holds, HoldsSaved}
use bartok.Bridge.Budget.{Sound, Good, Covered}

pub restored-Holds :
    (P : Session → Type 0) (s : Option Session) → HoldsSaved P s → Holds P (restored s)
restored-Holds P none holds = tt
restored-Holds P (some s) holds = elim (Bool-cases s.settled) [
  | inl e ↦ rw e tt
  | inr e ↦ simp e holds
]

-- A hold is a 64-bit number.
pub hold_of-fits : (tier : Tier) (balance : ℕ) → hold_of tier balance < u64_mod
hold_of-fits basic balance = elim (Bool-cases (leb 50000 balance)) [
  | inl e ↦ rw e (omega arith)
  | inr e ↦ ground arith
]
hold_of-fits genius balance = elim (Bool-cases (leb 200000 balance)) [
  | inl e ↦ rw e (omega arith)
  | inr e ↦ ground arith
]

pub start_hold-fits :
    (users : Text → User) (buyer tier_name : Text) (balance : ℕ) {tier : Tier} {budget : ℕ}
    → start_hold users buyer tier_name balance ≡ ok (tier, budget)
    → budget < u64_mod
unfolding start_hold
start_hold-fits users buyer tier_name balance e =
    let (_, e0) = ensure-eq-ok (has_text buyer) _ _ e in
    let (tier, _, e1) = context-eq-ok (tier_of tier_name) _ _ e0 in
    let (_, e2) = ensure-eq-ok (not (requires_account tier && not (users buyer).hash)) _ _ e1 in
    let (_, e3) = ensure-eq-ok (leb (min_hold_bartok tier) balance) _ _ e2 in
    subst (λ x. x < u64_mod) (ap (λ x. x.1) (ok_inj e3)) (hold_of-fits tier balance)

pub is_given-le :
    (spent charge : ℕ) (s : Session) → is_given spent charge s ≡ true → spent + charge ≤ s.budget
unfolding is_given
is_given-le spent charge s given = ground arith

-- What the guards of a chat that begins say.
pub chat_spent-total :
    (b : Bridge) (id : ℕ) (prompt tier_name : Text) {spent : ℕ}
    → chat_spent b id prompt tier_name ≡ ok spent
    → (b.busy ≡ false) × (spent ≡ total_at (b.objects id)) × (settled_at (b.objects id) ≡ false)
unfolding chat_spent
chat_spent-total b id prompt tier_name e =
    let (s, found, e1) = context-eq-ok (get b id) _ _ e in
    let (_, e2) = ensure-eq-ok (is_armed s.escrow_note_b64) _ _ e1 in
    let (unsettled, e3) = ensure-eq-ok (not s.settled) _ _ e2 in
    let (_, e4) = ensure-eq-ok (has_text prompt) _ _ e3 in
    let (tier, _, e5) = context-eq-ok (msg_tier tier_name s) _ _ e4 in
    let u = b.users s.buyer_id in
    let (_, e6) = ensure-eq-ok (not (requires_account tier && not u.hash)) _ _ e5 in
    let (_, e7) = ensure-eq-ok (not (not u.hash && leb anon_spend_cap_bartok u.spent)) _ _ e6 in
    let (free, e8) = ensure-eq-ok (not b.busy) _ _ e7 in
    let (o, here, same) = when_listed-some (b.objects id) found in
    (
      ground arith,
      rw (here, same) (sym (ok_inj e8)),
      ap settled_at here ∙ ap (λ q. q.settled) same ∙ ground arith,
    )

module _ (h : Host) (program : Text) (accounts_json : Option Text) where
  -- A listed session is covered by what the state says of its object.
  pub get-Covered :
      (b : Bridge) (id : ℕ) {s : Session}
      → Sound h program accounts_json b
      → get b id ≡ some s
      → is_armed s.escrow_note_b64 ≡ true
      → Covered b.objects id (total s.charges)
  get-Covered b id sound found armed =
      let (o, here, same) = when_listed-some (b.objects id) found in
      let good = subst (Holds (Good h program accounts_json)) here (sound.sessions id) in
      (rw (here, ← same) good.0, rw (here, same) armed)

  pub end_charge-Covered :
      (b : Bridge) (id : ℕ) {charge : ℕ}
      → Sound h program accounts_json b
      → end_charge b id ≡ ok charge
      → Covered b.objects id charge
  unfolding end_charge
  end_charge-Covered b id sound e =
      let (s, found, e1) = context-eq-ok (get b id) _ _ e in
      let (armed, e2) = ensure-eq-ok (is_armed s.escrow_note_b64) _ _ e1 in
      let (_, e3) = ensure-eq-ok (not s.settled) _ _ e2 in
      let (_, e4) = ensure-eq-ok (not s.settling) _ _ e3 in
      subst (Covered b.objects id) (ok_inj e4) (get-Covered b id sound found armed)

  pub sweep_charge-Covered :
      (b : Bridge) (id now : ℕ) {charge : ℕ}
      → Sound h program accounts_json b
      → sweep_charge b id now ≡ ok charge
      → Covered b.objects id charge
  unfolding sweep_charge
  sweep_charge-Covered b id now sound e =
      let (s, found, e1) = context-eq-ok (get b id) _ _ e in
      let (open_session, e2) =
        ensure-eq-ok (not (s.settled || s.settling || not (is_armed s.escrow_note_b64))) _ _ e1 in
      let (_, e3) = ensure-eq-ok (leb (s.last_activity + sweep_idle_ms) now) _ _ e2 in
      subst (Covered b.objects id) (ok_inj e3) (get-Covered b id sound found (ground arith))
