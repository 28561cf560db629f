-- ===== src/Role/Keygen.antt =====
-- zktls-spike/openrouter-example/keygen.rs: the key pair of the notary.
use bartok.Base.{
  ◌≡◌, ◌≢◌, ◌∙◌, ◌⊎◌, true, false, ◌||◌, Bool-cases, inl, inr, Option, none, some, [], ◌∷◌, ◌++◌,
  ok, err,
}
use bartok.Base.Action.{Action, ◌>>◌, outcome}
use bartok.Text.{Text, codes}
use bartok.Role.{Files}

-- `std::env::var("NOTARY_KEY_DIR").unwrap_or_else(|_| "../../keys".into())`
abbrev pub key_dir : Option Text → Text
key_dir none = codes "../../keys"
key_dir (some dir) = dir

abbrev pub secret_path : Text → Text
secret_path dir = dir ++ codes "/notary.secp256k1.hex"

abbrev pub pub_path : Text → Text
pub_path dir = dir ++ codes "/notary.pub.hex"

module _ {World : Type 0} (f : Files World) where
  open f use {
    exists, read_to_string, create_dir_all, write, set_permissions, write_read, write_other,
    mode_read,
  }

  -- `main`, behind the guard, with the hexadecimal text of the key pair.
  unfoldable pub write_keys : Text → Text → Text → Action World (Unit {0})
  write_keys dir secret_hex pub_hex = do
    create_dir_all dir
    write (secret_path dir) secret_hex
    set_permissions (secret_path dir) 0o600
    write (pub_path dir) pub_hex

  -- `main`
  unfoldable pub keygen : Option Text → Text → Text → Action World (Unit {0})
  keygen env secret_hex pub_hex w =
      elim (exists (secret_path (key_dir env)) w || exists (pub_path (key_dir env)) w) [
        | true ↦ (err "refusing to overwrite existing keys; delete them to regenerate", w)
        | false ↦ write_keys (key_dir env) secret_hex pub_hex w
      ]

  append_cancel : (dir s t : Text) → dir ++ s ≡ dir ++ t → s ≡ t
  append_cancel [] s t e = e
  append_cancel (c ∷ dir) s t e = append_cancel dir s t cc

  paths_differ : (dir : Text) → secret_path dir ≢ pub_path dir
  paths_differ dir e =
      let same = append_cancel dir (codes "/notary.secp256k1.hex") (codes "/notary.pub.hex") e in cc

  write_keys-read :
      (dir secret_hex pub_hex : Text) (w w' : World)
      → write_keys dir secret_hex pub_hex w ≡ (ok tt, w')
      → (read_to_string (secret_path dir) w' ≡ ok secret_hex)
        × (read_to_string (pub_path dir) w' ≡ ok pub_hex)
  unfolding write_keys
  write_keys-read dir secret_hex pub_hex w w' e = elim (outcome (create_dir_all dir w)) [
    | inr (_, _, failed) ↦ cc (rw failed at e)
    | inl (_, w1, made) ↦ elim (outcome (write (secret_path dir) secret_hex w1)) [
      | inr (_, _, failed) ↦ cc (rw (made, failed) at e)
      | inl (_, w2, wrote) ↦ elim (outcome (set_permissions (secret_path dir) 0o600 w2)) [
        | inr (_, _, failed) ↦ cc (rw (made, wrote, failed) at e)
        | inl (_, w3, moded) ↦
            let last : write (pub_path dir) pub_hex w3 ≡ (ok tt, w') =
              rw (made, wrote, moded) at e in
            (
              write_other (pub_path dir) (secret_path dir) pub_hex w3 w' (paths_differ dir) last
                  ∙ mode_read (secret_path dir) (secret_path dir) 0o600 w2 w3 moded
                  ∙ write_read (secret_path dir) secret_hex w1 w2 wrote,
              write_read (pub_path dir) pub_hex w3 w' last,
            )
      ]
    ]
  ]

  -- Keys that exist are never overwritten: if either file is there, `keygen` fails and leaves the
  -- world as it is.
  pub keygen-refuses :
      (env : Option Text) (secret_hex pub_hex : Text) (w : World)
      → (exists (secret_path (key_dir env)) w ≡ true) ⊎ (exists (pub_path (key_dir env)) w ≡ true)
      → keygen env secret_hex pub_hex w
        ≡ (err "refusing to overwrite existing keys; delete them to regenerate", w)
  unfolding keygen
  keygen-refuses env secret_hex pub_hex w (inl there) = rw (there, keygen)
  keygen-refuses env secret_hex pub_hex w (inr there) =
      elim (Bool-cases (exists (secret_path (key_dir env)) w)) [
        | inl also ↦ rw (also, keygen)
        | inr absent ↦ rw (absent, there, keygen)
      ]

  -- Where `keygen` succeeds neither key file was there before, and afterwards they hold the new
  -- secret and its public key.
  pub keygen-read :
      (env : Option Text) (secret_hex pub_hex : Text) (w w' : World)
      → keygen env secret_hex pub_hex w ≡ (ok tt, w')
      → (exists (secret_path (key_dir env)) w ≡ false)
        × (exists (pub_path (key_dir env)) w ≡ false)
        × (read_to_string (secret_path (key_dir env)) w' ≡ ok secret_hex)
        × (read_to_string (pub_path (key_dir env)) w' ≡ ok pub_hex)
  unfolding keygen
  keygen-read env secret_hex pub_hex w w' e =
      elim (Bool-cases (exists (secret_path (key_dir env)) w)) [
        | inl there ↦ cc (rw (there, keygen) at e)
        | inr absent ↦ elim (Bool-cases (exists (pub_path (key_dir env)) w)) [
          | inl there ↦ cc (rw (absent, there, keygen) at e)
          | inr absent' ↦
              let (secret, public_key) =
                write_keys-read (key_dir env) secret_hex pub_hex w w'
                  (rw (absent, absent', keygen) at e) in
              (absent, absent', secret, public_key)
        ]
      ]
