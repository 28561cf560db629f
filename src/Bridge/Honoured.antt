-- ===== src/Bridge/Honoured.antt =====
-- The settlements that ux-prototype/server.js asks for, against the programs that it asks: build_escrow.rs
-- before the session, settle_session.rs behind it, and the escrow's script.
pub mod Arguments
use bartok.Base.{
  ℕ, ◌+◌, ◌≤◌, ◌<◌, ◌≡◌, refl, sym, ap, ◌∙◌, true, Option, none, some, List, [], ◌∷◌, ◌++◌, map, ok,
  ok_inj, length, arith,
}
use mathlib.Core.Path.{subst}
use bartok.Text.{Text, codes, trim, text_eq}
use bartok.Text.Decimal.{u64_mod, to_string, parse_u64}
use bartok.Text.Laws.{parse_u64-to_string}
use bartok.Miden.{Word}
use bartok.Contract.{BartokSettlement, Kernel, run, vm_asset, vm_note}
use bartok.Contract.Storage.{from_items}
use bartok.Cli.{arg, arg_value}
use bartok.Host.{Host}
use bartok.Escrow.{Inputs, Parameters, EscrowBuilt, build_escrow, parameters, report}
use bartok.Settle.{Accounts, SettleSession, Settled, accounts_of, open_session, announce}
use bartok.Settle.Announced.{announced}
use bartok.Settle.Command.{settle_args, IsValue, IsValue-other, arg-other, arg-here}
use bartok.Settle.Printed.{report-settles}
use bartok.Bridge.{
  Session, Object, Handler, confirming, answering, ending, sweeping, Bridge, total, User, is_armed,
}
use bartok.Bridge.Settling.{settle_call, text_of}
use bartok.Bridge.Steps.{escrow_args, Reach}
use bartok.Bridge.Waiting.{All-middle, Holds}
use bartok.Bridge.Budget.{Good, OriginOf, Covered, Settles}
use bartok.Bridge.Within.{Reach-Sound}
use bartok.Bridge.Honoured.Arguments.{
  escrow_args-buyer, escrow_args-budget, escrow_args-named, escrow_args-Asked,
}

-- The session and the charge of a settlement that is under way.
abbrev pub settlement_of : Handler → Option (ℕ × ℕ)
settlement_of (ending id charge attempt) = some (id, charge)
settlement_of (sweeping id charge) = some (id, charge)
settlement_of _ = none

Settles-Covered :
    (objects : ℕ → Option Object) (x : Handler) (id charge : ℕ)
    → settlement_of x ≡ some (id, charge)
    → Settles objects x
    → Covered objects id charge
Settles-Covered objects (ending i c attempt) id charge e h =
    let same : ◌≡◌ {A = ℕ × ℕ} (i, c) (id, charge) = cc in
    subst (λ q. Covered objects q.0 q.1) same h
Settles-Covered objects (sweeping i c) id charge e h =
    let same : ◌≡◌ {A = ℕ × ℕ} (i, c) (id, charge) = cc in
    subst (λ q. Covered objects q.0 q.1) same h
Settles-Covered objects (confirming i) id charge e h = cc
Settles-Covered objects (answering i spent) id charge e h = cc

text_of-armed :
    (t : Option Text) {note : Text}
    → is_armed t ≡ true
    → ((u : Text) → t ≡ some u → u ≡ note)
    → text_of t ≡ note
text_of-armed none is_on armed = cc
text_of-armed (some t) is_on armed = armed t refl

module _ (h : Host) (program : Text) (accounts_json : Option Text) where
  open h use {miden, Felt, Bytes, AccountId, account_from_hex}

  -- In every state that the server can reach, whatever handlers interleave, the charges of a session
  -- are within its hold; and the session stems from a run of build_escrow.rs for its buyer and its
  -- hold, with that run's note and serials.
  pub Reach-Good :
      {users : Text → User} {b : Bridge} (id : ℕ) (o : Object)
      → Reach h program accounts_json users b
      → b.objects id ≡ some o
      → (total o.session.charges ≤ o.session.budget) × OriginOf h program accounts_json o.session
  Reach-Good id o reached found =
      subst (Holds (Good h program accounts_json)) found
        ((Reach-Sound h program accounts_json reached).sessions id)

  waiting-Covered :
      {users : Text → User} {b : Bridge} (before after : List Handler) (x : Handler) (id charge : ℕ)
      → Reach h program accounts_json users b
      → b.waiting ≡ before ++ x ∷ after
      → settlement_of x ≡ some (id, charge)
      → Covered b.objects id charge
  waiting-Covered {b} before after x id charge reached here settles =
      let at_x =
        (All-middle (Settles b.objects) before after x
          (rw here at (Reach-Sound h program accounts_json reached).settling)).0 in
      Settles-Covered b.objects x id charge settles at_x

  -- The call, with what build_escrow.rs printed.
  settle_call-report :
      (settler : Text) (o : Session) (e : EscrowBuilt h) (charge : ℕ)
      → o.params ≡ report h e
      → is_armed o.escrow_note_b64 ≡ true
      → ((t : Text) → o.escrow_note_b64 ≡ some t → t ≡ o.params.note_b64)
      → settle_call settler o charge
        ≡ settle_args settler
            (report h e).note_b64
            charge
            o.buyer_id
            (report h e).seller_serial
            (report h e).buyer_serial
  settle_call-report settler o e charge printed is_on armed =
      let escrow : text_of o.escrow_note_b64 ≡ (report h e).note_b64 =
        text_of-armed o.escrow_note_b64 is_on armed ∙ ap (λ q. q.note_b64) printed in
      rw (escrow, printed)

  module _ (k : Kernel miden) (small : h.modulus ≤ u64_mod) (settler : Text)
      (is_program : IsValue program) (is_settler : IsValue settler) where
    open h use {note_to_bytes, b64_decode, b64_encode, recipient_storage}
    open k use {Tx, active_account, note_assets, outputs, output_limit}

    -- In every state that the server can reach, a settlement that is under way, of the handler or the
    -- sweeper, is one that settle_session.rs accepts: called with the session's values it opens a
    -- session on the note that build_escrow.rs made, for the charge, with a refund that makes up the
    -- hold; and when the operator consumes the note with its argument and there is room for two notes,
    -- the script succeeds and creates exactly the notes of the report. The programs' names, the buyer's
    -- id and the printed note are taken for no flags, and the printed note decodes to its bytes.
    pub waiting-settles :
        {Key : Type 0} {users : Text → User} {b : Bridge} (before after : List Handler)
        (x : Handler) (id charge : ℕ) (o : Object) (env : Inputs Bytes (Word Felt))
        (e : EscrowBuilt h) (p : Parameters AccountId) (c : Accounts AccountId) (salt : Word Felt)
        (key : Key) (t : Tx)
        → Reach h program accounts_json users b
        → b.waiting ≡ before ++ x ∷ after
        → settlement_of x ≡ some (id, charge)
        → b.objects id ≡ some o
        → env.args ≡ escrow_args program o.session.buyer_id o.session.budget
        → env.accounts_json ≡ accounts_json
        → build_escrow h env ≡ ok e
        → parameters h env ≡ ok p
        → o.session.params ≡ report h e
        → accounts_of h accounts_json ≡ ok c
        → IsValue o.session.buyer_id
        → IsValue (report h e).note_b64
        → b64_decode (trim (report h e).note_b64) ≡ some (note_to_bytes e.escrow_note)
        → active_account t ≡ p.operator
        → note_assets t ≡ map (vm_asset miden) e.escrow_note.assets
        → length (outputs t) + 1 < output_limit
        → (s : SettleSession h) × (self : BartokSettlement Felt) × (t' : Tx) × (r : Settled h Key)
          × (open_session h (settle_call settler o.session charge) accounts_json salt ≡ ok s)
          × (s.escrow_note ≡ e.escrow_note)
          × (s.charge ≡ charge)
          × (s.charge + s.refund ≡ o.session.budget)
          × (from_items (recipient_storage e.escrow_note.recipient) ≡ some self)
          × (run miden k self s.args_word t ≡ ok t')
          × (announce h s key ≡ ok r)
          × (outputs t' ≡ outputs t ++ map (vm_note miden) (announced h k r))
    waiting-settles before after x id charge o env e p c salt key t reached here settles found args
          file built read printed known is_buyer is_note decodes operator holds room =
        let (covered, armed) = waiting-Covered before after x id charge reached here settles in
        let (_, origin) = Reach-Good id o reached found in
        let (_, budget) =
          escrow_args-Asked h program accounts_json env p o.session.buyer_id o.session.budget
            is_program is_buyer origin.bounded args read in
        let within : charge ≤ p.budget = omega (arith, rw found at covered, budget) in
        let called =
          settle_call-report settler o.session e charge printed (rw found at armed) origin.armed in
        let (s, self, t', r, opened, note, charged, shared, stored, done, told, notes) =
          report-settles h small k env e p c settler o.session.buyer_id charge salt key t built read
            (rw file known)
            (escrow_args-named h program accounts_json env o.session.buyer_id o.session.budget
              is_program is_buyer args)
            is_settler is_buyer is_note decodes within operator holds room in
        (
          s,
          self,
          t',
          r,
          (λ i. open_session h (called i) (sym file i) salt) ∙ opened,
          note,
          charged,
          shared ∙ budget,
          stored,
          done,
          told,
          notes,
        )
