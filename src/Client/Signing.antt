-- ===== src/Client/Signing.antt =====
-- An account that the helpers create can be signed for.
use bartok.Base.{ℕ, ◌≡◌, ◌≢◌, ◌∙◌, sym, ap, false, none, some, List, String, ok}
use mathlib.Core.Path.{subst}
use bartok.Base.Action.{
  ◌>>◌, pure, with_context, continue-eq-ok, context-continue, option-continue, end_of,
}
use bartok.Text.{Text}
use bartok.Host.{Host}
use bartok.Client.{
  AccountType, ClientSdk, wallet_parts, faucet_parts, create_basic_wallet_account,
  create_basic_faucet_account,
}

module _ (h : Host) (c : ClientSdk h) where
  open c use {
    World, Client, Keystore, KeyPair, Account, fill_bytes, new_falcon, to_commitment, token_symbol,
    token_name, asset_amount, faucet_build, policies_new, with_mint_allow_all, with_burn_allow_all,
    account_build, account_build_with_schema, account_id, auth_of, build_auth,
    build_with_schema_auth, add_account, add_key, tracked, key_for, add_account_tracked,
    add_key_stored, add_key_tracked, add_account_new, add_account_other, add_account_keys,
    add_key_other, fill_bytes_keeps, new_falcon_keeps,
  }

  -- The client tracks the account, and the keystore has, under the account's id, a key whose
  -- commitment is the one that authenticates the account.
  pub record IsSignable (a : Account) (w : World) : Type 0 where
    pub is_tracked : tracked w (account_id a) ≡ some a
    pub key : KeyPair
    pub stored : key_for w (account_id a) ≡ some key
    pub authenticates : auth_of a ≡ to_commitment key

  -- The store and the keystore have the same of an id in both worlds.
  abbrev pub Same : h.AccountId → World → World → Type 0
  Same id w w' = (tracked w' id ≡ tracked w id) × (key_for w' id ≡ key_for w id)

  abbrev and_then :
      {id : h.AccountId} {w w1 w2 : World} → Same id w w1 → Same id w1 w2 → Same id w w2
  and_then (e, f) (e', f') = (e' ∙ e, f' ∙ f)

  -- From `w` to `w'` a new account became signable, and nothing changed for other ids.
  pub record IsRegistered (a : Account) (w w' : World) : Type 0 where
    pub signable : IsSignable a w'
    pub was_new : tracked w (account_id a) ≡ none
    pub others : (id : h.AccountId) → id ≢ account_id a → Same id w w'

  -- The end that both helpers share.
  registered :
      (client : Client) (keystore : Keystore) (made a : Account) (key : KeyPair) (m n : String)
      (w w' : World)
      → auth_of made ≡ to_commitment key
      → (do
        with_context (add_account client made false) m
        with_context (add_key keystore key (account_id made)) n
        pure made)
          w
        ≡ (ok a, w')
      → IsRegistered a w w'
  registered client keystore made a key m n w w' auth e =
      let (_, w1, added, e1) = context-continue m (add_account client made false w) _ e in
      let (_, w2, kept, e2) = context-continue n (add_key keystore key (account_id made) w1) _ e1 in
      let (same, last) = end_of e2 in
      let is : IsRegistered made w w2 = record {
        signable = record {
          is_tracked =
              add_key_tracked keystore key (account_id made) (account_id made) w1 w2 kept
              ∙ add_account_tracked client made false w w1 added;
          key = key;
          stored = add_key_stored keystore key (account_id made) w1 w2 kept;
          authenticates = auth;
        };
        was_new = add_account_new client made w w1 added;
        others = λ id differ. (
          add_key_tracked keystore key (account_id made) id w1 w2 kept
              ∙ add_account_other client made false id w w1 differ added,
          add_key_other keystore key (account_id made) id w1 w2 differ kept
              ∙ add_account_keys client made false id w w1 added,
        );
      } in
      subst (λ x. IsRegistered x w w') same (subst (λ x. IsRegistered made w x) last is)

  -- Drawing a seed and a key before that makes no difference.
  drawn_first :
      (client : Client) (seed : List ℕ) (key : KeyPair) (a : Account) (w w1 w2 w' : World)
      → fill_bytes client w ≡ (ok seed, w1)
      → new_falcon client w1 ≡ (ok key, w2)
      → IsRegistered a w2 w'
      → IsRegistered a w w'
  drawn_first client seed key a w w1 w2 w' filled made is =
      let before : (id : h.AccountId) → Same id w w2 = λ id.
        and_then (fill_bytes_keeps client seed id w w1 filled)
          (new_falcon_keeps client key id w1 w2 made) in
      record {
        signable = is.signable;
        was_new = sym (before (account_id a)).0 ∙ is.was_new;
        others = λ id differ. and_then (before id) (is.others id differ);
      }

  -- A wallet that `create_basic_wallet_account` returns is new, is tracked by the client and can be
  -- signed for with the keystore; the other accounts are left alone.
  pub create_basic_wallet_account-IsRegistered :
      (client : Client) (keystore : Keystore) (account_type : AccountType) (w w' : World)
      (a : Account)
      → create_basic_wallet_account h c client keystore account_type w ≡ (ok a, w')
      → IsRegistered a w w'
  unfolding create_basic_wallet_account
  create_basic_wallet_account-IsRegistered client keystore account_type w w' a e =
      let (seed, w1, filled, e1) = continue-eq-ok (fill_bytes client w) _ e in
      let (key, w2, drawn, e2) = continue-eq-ok (new_falcon client w1) _ e1 in
      let (made, built, e3) =
        option-continue (account_build (wallet_parts h c seed account_type key)) _ w2 _ e2 in
      drawn_first client seed key a w w1 w2 w' filled drawn
        (registered client keystore made a key _ _ w2 w' (build_auth _ made built) e3)

  -- The same of a faucet that `create_basic_faucet_account` returns.
  pub create_basic_faucet_account-IsRegistered :
      (client : Client) (keystore : Keystore) (symbol : Text) (decimals max_supply : ℕ)
      (w w' : World) (a : Account)
      → create_basic_faucet_account h c client keystore symbol decimals max_supply w ≡ (ok a, w')
      → IsRegistered a w w'
  unfolding create_basic_faucet_account
  create_basic_faucet_account-IsRegistered client keystore symbol decimals max_supply w w' a e =
      let (seed, w1, filled, e1) = continue-eq-ok (fill_bytes client w) _ e in
      let (key, w2, drawn, e2) = continue-eq-ok (new_falcon client w1) _ e1 in
      let (token, _, e3) = option-continue (token_symbol symbol) _ w2 _ e2 in
      let (name, _, e4) = option-continue (token_name symbol) _ w2 _ e3 in
      let (supply, _, e5) = option-continue (asset_amount max_supply) _ w2 _ e4 in
      let (faucet, _, e6) = option-continue (faucet_build name token decimals supply) _ w2 _ e5 in
      let (minting, _, e7) = option-continue (with_mint_allow_all policies_new) _ w2 _ e6 in
      let (policies, _, e8) = option-continue (with_burn_allow_all minting) _ w2 _ e7 in
      let (made, built, e9) =
        option-continue (account_build_with_schema (faucet_parts h c seed key faucet policies)) _ w2
          _ e8 in
      drawn_first client seed key a w w1 w2 w' filled drawn
        (registered client keystore made a key _ _ w2 w' (build_with_schema_auth _ made built) e9)

  pub IsSignable-Same :
      (a : Account) (w w' : World) → Same (account_id a) w w' → IsSignable a w → IsSignable a w'
  IsSignable-Same a w w' (tracks, keys) is = record {
    is_tracked = tracks ∙ is.is_tracked;
    key = is.key;
    stored = keys ∙ is.stored;
    authenticates = is.authenticates;
  }

  -- An account that could be signed for is another than one that is registered next, and can still
  -- be signed for.
  pub IsSignable-IsRegistered :
      (b a : Account) (w w' : World)
      → IsSignable b w
      → IsRegistered a w w'
      → (account_id b ≢ account_id a) × IsSignable b w'
  IsSignable-IsRegistered b a w w' is new =
      let differ : account_id b ≢ account_id a =
        λ same. none≢some (sym new.was_new ∙ ap (tracked w) (sym same) ∙ is.is_tracked) in
      (differ, IsSignable-Same b w w' (new.others (account_id b) differ) is)
    where
      none≢some : {A : Type 0} {x : A} → none ≡ some x → ⊥
      none≢some e = cc
