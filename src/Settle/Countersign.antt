-- ===== src/Settle/Countersign.antt =====
-- The order of what settle_session.rs does with the world: connect, propose, obtain the
-- countersignature, submit.
use bartok.Base.{◌≡◌, ◌∙◌, Option, some, List, [], ok, >>=-eq-ok, ok_inj, sym, ap}
use bartok.Base.Action.{◌>>=◌, lift, continue-eq-ok, result-continue, end_of}
use bartok.Text.{Text, codes}
use bartok.Miden.{Word}
use bartok.Host.{Host}
use bartok.Settle.{
  Arguments, Accounts, Guardian, SettleSession, Settled, arguments, accounts_of, open_with,
  open_session, build_request, announce, make_note_if,
}
use bartok.Settle.Program.{countersign, settle_session}
use bartok.Settle.Budget.{IsSession, open_with-IsSession}

module _ (h : Host) (g : Guardian h) where
  open h use {miden, Felt, AccountId, Bytes, Request, request_to_bytes, b64_decode, note_from_bytes}
  open g use {
    World, Client, ProposalId, guardian_role_client, propose_custom_transaction,
    prepare_custom_execution, submit_transaction,
  }

  -- A settlement that was proposed, countersigned and then submitted, from world `w` to world `w'`.
  pub record IsCountersigned (s : SettleSession h) (w w' : World) (id : ProposalId) : Type 0 where
    pub operator : Client
    pub request : Request
    pub advice : List (Word Felt × List Felt)
    pub exec_request : Request
    pub connected : World
    pub proposed : World
    pub prepared : World
    pub builds : build_request h s [] ≡ ok request
    pub builds_again : build_request h s advice ≡ ok exec_request
    pub connects :
        guardian_role_client (codes "operator") s.guardian_grpc (some s.operator_multisig) w
        ≡ (ok operator, connected)
    pub proposes :
        propose_custom_transaction operator
          (request_to_bytes request)
          (codes "bartok_settle")
          connected
        ≡ (ok id, proposed)
    pub prepares :
        prepare_custom_execution operator id (request_to_bytes request) proposed
        ≡ (ok advice, prepared)
    pub submits : submit_transaction operator exec_request prepared ≡ (ok tt, w')

  countersign-IsCountersigned :
      (s : SettleSession h) (w : World) {w' : World} {id : ProposalId}
      → countersign h g s w ≡ (ok id, w')
      → IsCountersigned s w w' id
  unfolding countersign
  countersign-IsCountersigned s w {w'} {id} e =
      let (operator, w1, connects, e1) =
        continue-eq-ok
          (guardian_role_client (codes "operator") s.guardian_grpc (some s.operator_multisig) w) _
          e in
      let (request, builds, e2) = result-continue (build_request h s []) w1 _ e1 in
      let (proposal, w2, proposes, e3) =
        continue-eq-ok
          (propose_custom_transaction operator (request_to_bytes request) (codes "bartok_settle")
            w1)
          _ e2 in
      let (advice, w3, prepares, e4) =
        continue-eq-ok (prepare_custom_execution operator proposal (request_to_bytes request) w2) _
          e3 in
      let (exec, again, e5) = result-continue (build_request h s advice) w3 _ e4 in
      let (_, w4, submits, e6) = continue-eq-ok (submit_transaction operator exec w3) _ e5 in
      let (same, last) = end_of e6 in
      record {
        operator = operator;
        request = request;
        advice = advice;
        exec_request = exec;
        connected = w1;
        proposed = w2;
        prepared = w3;
        builds = builds;
        builds_again = again;
        connects = connects;
        proposes = proposes ∙ ap (λ x. (ok x, w2)) same;
        prepares =
            ap (λ x. prepare_custom_execution operator x (request_to_bytes request) w2) (sym same)
            ∙ prepares;
        submits = submits ∙ ap (λ x. (ok tt, x)) last;
      }

  announce_id :
      (s : SettleSession h) (id : ProposalId) {r : Settled h ProposalId}
      → announce h s id ≡ ok r
      → r.settle_proposal_id ≡ id
  unfolding announce
  announce_id s id e =
      let (n, _, e1) = >>=-eq-ok (make_note_if h s s.charge s.seller_recipient s.seller) _ e in
      let (n', _, e2) = >>=-eq-ok (make_note_if h s s.refund s.buyer_recipient s.buyer) _ e1 in
      ap (λ q. q.settle_proposal_id) (sym (ok_inj e2))

  signed_and_told :
      (s : SettleSession h) (w : World) {w' : World} {r : Settled h ProposalId}
      → (countersign h g s >>= λ id. lift (announce h s id)) w ≡ (ok r, w')
      → (countersign h g s w ≡ (ok r.settle_proposal_id, w'))
        × (announce h s r.settle_proposal_id ≡ ok r)
  signed_and_told s w {w'} {r} e =
      let (id, w1, signed, told) = continue-eq-ok (countersign h g s w) _ e in
      let told' : announce h s id ≡ ok r = ap (λ q. q.0) told in
      let last : w1 ≡ w' = ap (λ q. q.1) told in
      let proposal : id ≡ r.settle_proposal_id = sym (announce_id s id told') in
      (signed ∙ (λ i. (ok (proposal i), last i)), ap (announce h s) (sym proposal) ∙ told')

  opened_session :
      (args : List Text) (accounts_json : Option Text) (salt : Word Felt) (w : World) {w' : World}
      {r : Settled h ProposalId}
      → settle_session h g args accounts_json salt w ≡ (ok r, w')
      → (s : SettleSession h) × (open_session h args accounts_json salt ≡ ok s)
        × ((countersign h g s >>= λ id. lift (announce h s id)) w ≡ (ok r, w'))
  unfolding settle_session
  opened_session args accounts_json salt w e =
      let (s, opened, rest) = result-continue (open_session h args accounts_json salt) w _ e in
      (s, opened, rest)

  opened_from :
      (args : List Text) (accounts_json : Option Text) (salt : Word Felt) {s : SettleSession h}
      → open_session h args accounts_json salt ≡ ok s
      → (a : Arguments (Word Felt) AccountId) × (c : Accounts AccountId) × (arguments h args ≡ ok a)
        × (accounts_of h accounts_json ≡ ok c)
        × (open_with h a c salt ≡ ok s)
  unfolding open_session
  opened_from args accounts_json salt e =
      let (a, read, e1) = >>=-eq-ok (arguments h args) _ e in
      let (c, known, e2) = >>=-eq-ok (accounts_of h accounts_json) _ e1 in (a, c, read, known, e2)

  -- A session that settles held an escrow note whose asset covers the charge, so that charge and
  -- refund share the budget; and the world went from the start to the end by exactly these calls, each
  -- successful: connect as the operator, propose `bartok_settle`, obtain the countersignature for that
  -- proposal and those bytes, submit a request that differs only in the advice so obtained.
  pub settle_session-IsCountersigned :
      (args : List Text) (accounts_json : Option Text) (salt : Word Felt) (w w' : World)
      (r : Settled h ProposalId)
      → settle_session h g args accounts_json salt w ≡ (ok r, w')
      → (a : Arguments (Word Felt) AccountId) × (c : Accounts AccountId) × (s : SettleSession h)
        × (arguments h args ≡ ok a)
        × (accounts_of h accounts_json ≡ ok c)
        × IsSession h a c s
        × IsCountersigned s w w' r.settle_proposal_id
        × (announce h s r.settle_proposal_id ≡ ok r)
  settle_session-IsCountersigned args accounts_json salt w w' r e =
      let (s, opened, rest) = opened_session args accounts_json salt w e in
      let (a, c, read, known, made) = opened_from args accounts_json salt opened in
      let (signed, told) = signed_and_told s w rest in
      (
        a,
        c,
        s,
        read,
        known,
        open_with-IsSession h a c salt s made,
        countersign-IsCountersigned s w signed,
        told,
      )
