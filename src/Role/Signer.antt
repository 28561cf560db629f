-- ===== src/Role/Signer.antt =====
-- The signer of a role is persistent.
use bartok.Base.{
  ◌≡◌, sym, ap, ◌∙◌, true, Bool-cases, Option-cases, Result-cases, inl, inr, Result, ok,
}
use bartok.Base.Action.{outcome}
use bartok.Text.{Text, trim}
use bartok.Host.{Host}
use bartok.Role.{Sdk, stored_secret, new_secret, load_secret}

module _ (h : Host) (g : Sdk h) where
  open g use {
    World, files, SecretKey, secret_new, secret_to_bytes, secret_from_bytes, hex_encode, hex_decode,
    secret_from_to_bytes, hex_decode_encode,
  }
  open files use {
    exists, read_to_string, write, set_permissions, write_exists, write_read, mode_exists,
    mode_read,
  }

  -- Reading the stored signer changes nothing.
  stored_secret-world :
      (p : Text) (w : World) {w' : World} {s : SecretKey}
      → stored_secret h g p w ≡ (ok s, w')
      → w ≡ w'
  unfolding stored_secret
  stored_secret-world p w e = elim (Result-cases (read_to_string p w)) [
    | inr (_, failed) ↦ cc (rw failed at e)
    | inl (hex, held) ↦ elim (Option-cases (hex_decode (trim hex))) [
      | inl refused ↦ cc (rw (held, refused) at e)
      | inr (bytes, decoded) ↦ elim (Option-cases (secret_from_bytes bytes)) [
        | inl refused ↦ cc (rw (held, decoded, refused) at e)
        | inr (k, taken) ↦ ap (λ q. q.1) (rw (held, decoded, taken) at e)
      ]
    ]
  ]

  written_back :
      (p : Text) (w : World) (sk : SecretKey)
      → exists p w ≡ true
      → read_to_string p w ≡ ok (hex_encode (secret_to_bytes sk))
      → load_secret h g p w ≡ (ok sk, w)
  unfolding load_secret stored_secret
  written_back p w sk there holds =
      rw (there, load_secret, holds, hex_decode_encode sk, secret_from_to_bytes sk)

  new_secret-load_secret :
      (p : Text) (w : World) (sk : SecretKey) {w' : World} {s : SecretKey}
      → new_secret h g p sk w ≡ (ok s, w')
      → load_secret h g p w' ≡ (ok s, w')
  unfolding new_secret
  new_secret-load_secret p w sk {w'} {s} e =
      elim (outcome (write p (hex_encode (secret_to_bytes sk)) w)) [
        | inr (_, _, failed) ↦ cc (rw failed at e)
        | inl (_, w1, wrote) ↦ elim (outcome (set_permissions p 0o600 w1)) [
          | inr (_, _, failed) ↦ cc (rw (wrote, failed) at e)
          | inl (_, w2, moded) ↦
              let done : ◌≡◌ {A = Result SecretKey × World} (ok sk, w2) (ok s, w') =
                rw (wrote, moded) at e in
              let same : sk ≡ s = cc in
              let last : w2 ≡ w' = cc in
              rw (← same, ← last)
                (written_back p w2 sk
                  (mode_exists p p 0o600 w1 w2 moded ∙ write_exists p _ w w1 wrote)
                  (mode_read p p 0o600 w1 w2 moded ∙ write_read p _ w w1 wrote))
        ]
      ]

  -- The signer that one session loads or creates is the signer that the next one loads, and loading
  -- it leaves the world as it is.
  pub load_secret-load_secret :
      (p : Text) (w w' : World) (s : SecretKey)
      → load_secret h g p w ≡ (ok s, w')
      → load_secret h g p w' ≡ (ok s, w')
  unfolding load_secret
  load_secret-load_secret p w w' s e = elim (Bool-cases (exists p w)) [
    | inr absent ↦ new_secret-load_secret p w (secret_new w) (rw (absent, load_secret) at e)
    | inl there ↦
        let same : w ≡ w' = stored_secret-world p w (rw (there, load_secret) at e) in
        rw (← same) (e ∙ ap (λ x. (ok s, x)) (sym same))
  ]
