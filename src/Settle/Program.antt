-- ===== src/Settle/Program.antt =====
-- `main` of settle_session.rs from the connection on: propose, prepare, submit, announce.
use bartok.Base.{Option, some, List, []}
use bartok.Base.Action.{Action, ◌>>=◌, ◌>>◌, pure, lift}
use bartok.Text.{Text, codes}
use bartok.Miden.{Word}
use bartok.Host.{Host}
use bartok.Settle.{Guardian, SettleSession, Settled, open_session, build_request, announce}

module _ (h : Host) (g : Guardian h) where
  open h use {Felt, request_to_bytes}
  open g use {
    World, ProposalId, guardian_role_client, propose_custom_transaction, prepare_custom_execution,
    submit_transaction,
  }

  -- The proposal to Bartok-Guardian, its countersignature, and the submission.
  unfoldable pub countersign : SettleSession h → Action World ProposalId
  countersign s = do
    operator ← guardian_role_client (codes "operator") s.guardian_grpc (some s.operator_multisig)
    request ← lift (build_request h s [])
    proposal ←
        propose_custom_transaction operator (request_to_bytes request) (codes "bartok_settle")
    advice ← prepare_custom_execution operator proposal (request_to_bytes request)
    exec_request ← lift (build_request h s advice)
    submit_transaction operator exec_request
    pure proposal

  -- `main`
  unfoldable pub settle_session :
      List Text → Option Text → Word Felt → Action World (Settled h ProposalId)
  settle_session args accounts_json salt = do
    s ← lift (open_session h args accounts_json salt)
    proposal ← countersign s
    lift (announce h s proposal)
