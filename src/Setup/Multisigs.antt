-- ===== src/Setup/Multisigs.antt =====
-- setup_multisigs.rs: each role's multisig is recovered from Bartok-Guardian, or created there, and
-- the ids are merged into `accounts.json`.
use bartok.Base.{ℕ, ◌≡◌, sym, ap, ◌∙◌, Option, none, some, List, [], ◌∷◌, ok, context}
use bartok.Base.Action.{
  Action, ◌>>=◌, pure, lift, with_context, continue-eq-ok, context-continue, result-continue,
  end_of,
}
use bartok.Text.{Text, codes}
use bartok.Host.{Host}
use bartok.Role.{Sdk, guardian_role_client}
use bartok.Setup.{JsonDoc, merge_multisigs, guardian_grpc_url, accounts_path}

-- What the program uses of a role's client beside `Sdk`.
pub record MultisigSdk (h : Host) (g : Sdk h) : Type 1 where
  pub Commitment : Type 0
  -- The hexadecimal ids of the accounts that Guardian has for the client's signer.
  pub recover_by_key : g.Client → Action g.World (List Text)
  pub user_commitment : g.Client → Commitment
  pub create_account : g.Client → ℕ → List Commitment → Action g.World g.Client
  pub register_on_guardian : g.Client → Action g.World g.Client
  pub account_id : g.Client → Option h.AccountId
  -- A client that pulled an account works for it.
  pub pull_account_id :
      (c c' : g.Client) (id : h.AccountId) (w w' : g.World)
      → g.pull_account c id w ≡ (ok c', w')
      → account_id c' ≡ some id

module _ (h : Host) (d : JsonDoc h) (g : Sdk h) (s : MultisigSdk h g) where
  open h use {AccountId, account_from_hex, to_hex}
  open g use {World, files, Client, pull_account}
  open files use {read_to_string, write, write_read}
  open s use {
    recover_by_key, user_commitment, create_account, register_on_guardian, account_id,
    pull_account_id,
  }

  -- `if let Some(acc) = recovered.first() { .. } else { .. }`
  abbrev pub ensure_account : Client → List Text → Action World Client
  ensure_account client (hex ∷ _) = do
    id ← lift (context (account_from_hex hex) "bad account id")
    with_context (pull_account client id) "pull_account"
  ensure_account client [] = do
    created ← with_context (create_account client 1 (user_commitment client ∷ [])) "create_account"
    with_context (register_on_guardian created) "register_on_guardian"

  -- One round of the loop over the roles.
  unfoldable pub role_account : Text → Action World AccountId
  role_account role = do
    client ← guardian_role_client h g role guardian_grpc_url none
    recovered ← with_context (recover_by_key client) "recover_by_key"
    ready ← ensure_account client recovered
    lift (context (account_id ready) "account id missing after create")

  -- The loop: the ids under their keys. The keys come in their own order, as in the `BTreeMap`.
  unfoldable pub role_ids : List (Text × Text) → Action World (List (Text × Text))
  role_ids [] = pure []
  role_ids ((role, json_key) ∷ roles) = do
    id ← role_account role
    ids ← role_ids roles
    pure ((json_key, to_hex id) ∷ ids)

  abbrev pub roles : List (Text × Text)
  roles = (codes "operator", codes "operatorMultisig") ∷ (codes "joao", codes "sellerMultisig") ∷ []

  -- `main`
  unfoldable pub setup_multisigs : Action World (Unit {0})
  setup_multisigs = do
    ids ← role_ids roles
    file ← with_context (λ w. (read_to_string accounts_path w, w)) "run setup_accounts first"
    text ← lift (merge_multisigs h d ids file)
    write accounts_path text

  -- A role whose signer has an account on Guardian keeps it: the account is pulled, its id is the
  -- result, and nothing is created.
  pub role_account-recovered :
      (role hex : Text) (others : List Text) (client ready : Client) (id : AccountId)
      (w w1 w2 w3 : World)
      → guardian_role_client h g role guardian_grpc_url none w ≡ (ok client, w1)
      → recover_by_key client w1 ≡ (ok (hex ∷ others), w2)
      → account_from_hex hex ≡ some id
      → pull_account client id w2 ≡ (ok ready, w3)
      → role_account role w ≡ (ok id, w3)
  unfolding role_account
  role_account-recovered role hex others client ready id w w1 w2 w3 connects recovers reads pulls =
      rw (connects, recovers, reads, pulls, pull_account_id client ready id w2 w3 pulls)

  role_ids-roles :
      (w w' : World) (ids : List (Text × Text))
      → role_ids roles w ≡ (ok ids, w')
      → (operator seller : AccountId) × (w1 : World) × (role_account (codes "operator") w
          ≡ (ok operator, w1))
        × (role_account (codes "joao") w1 ≡ (ok seller, w'))
        × (ids
            ≡ (codes "operatorMultisig", to_hex operator)
              ∷ (codes "sellerMultisig", to_hex seller)
              ∷ [])
  unfolding role_ids
  role_ids-roles w w' ids e =
      let (operator, w1, first, e1) = continue-eq-ok (role_account (codes "operator") w) _ e in
      let (rest, w2, others, e2) =
        continue-eq-ok (role_ids ((codes "joao", codes "sellerMultisig") ∷ []) w1) _ e1 in
      let (seller, w3, second, e3) = continue-eq-ok (role_account (codes "joao") w1) _ others in
      let (same, last) = end_of e2 in
      let (same', last') = end_of e3 in
      (
        operator,
        seller,
        w1,
        first,
        second ∙ ap (λ x. (ok seller, x)) (last' ∙ last),
        sym same ∙ ap (λ x. (codes "operatorMultisig", to_hex operator) ∷ x) (sym same'),
      )

  -- Where setup_multisigs.rs succeeds, `accounts.json` is what it was when the roles were ready, with
  -- the ids merged in that the two roles' rounds ended with, in this order.
  pub setup_multisigs-merge_multisigs :
      (w w' : World)
      → setup_multisigs w ≡ (ok tt, w')
      → (operator seller : AccountId) × (file text : Text) × (w1 w2 : World) × (role_account
            (codes "operator")
            w
          ≡ (ok operator, w1))
        × (role_account (codes "joao") w1 ≡ (ok seller, w2))
        × (read_to_string accounts_path w2 ≡ ok file)
        × (merge_multisigs h d
              ((codes "operatorMultisig", to_hex operator)
                ∷ (codes "sellerMultisig", to_hex seller)
                ∷ [])
              file
            ≡ ok text)
        × (read_to_string accounts_path w' ≡ ok text)
  unfolding setup_multisigs
  setup_multisigs-merge_multisigs w w' e =
      let (ids, w0, looped, e1) = continue-eq-ok (role_ids roles w) _ e in
      let (file, w2, held, e2) = context-continue _ (read_to_string accounts_path w0, w0) _ e1 in
      let (text, merges, e3) = result-continue (merge_multisigs h d ids file) w2 _ e2 in
      let (operator, seller, w1, first, second, same) = role_ids-roles w w0 ids looped in
      (
        operator,
        seller,
        file,
        text,
        w1,
        w0,
        first,
        second,
        ap (λ q. q.0) held,
        ap (λ x. merge_multisigs h d x file) (sym same) ∙ merges,
        write_read accounts_path text w2 w' e3,
      )
