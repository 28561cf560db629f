-- ===== src/Notary/Key.antt =====
-- The notary's signing key, from the text of its file.
use bartok.Base.{ℕ, ◌≡◌, Option, some, List, Result, ◌>>=◌, ◌>>◌, context, ensure, length, ◌==◌}
use bartok.Text.{Text, trim}

-- Keys of secp256k1, and `hex`.
pub record Secp256k1 : Type 1 where
  pub SigningKey : Type 0
  pub from_bytes : List ℕ → Option SigningKey
  pub to_bytes : SigningKey → List ℕ
  -- The SEC1 compressed point of the verifying key.
  pub compressed_public : SigningKey → List ℕ
  pub hex_encode : List ℕ → Text
  pub hex_decode : Text → Option (List ℕ)
  pub from_to_bytes : (k : SigningKey) → from_bytes (to_bytes k) ≡ some k
  pub length-to_bytes : (k : SigningKey) → length (to_bytes k) ≡ 32
  -- Hexadecimal text has no white space, and decodes to what it encodes.
  pub hex_decode_encode :
      (k : SigningKey) → hex_decode (trim (hex_encode (to_bytes k))) ≡ some (to_bytes k)

module _ (k : Secp256k1) where
  open k use {SigningKey, from_bytes, hex_decode}

  -- The key of the text of a key file.
  unfoldable pub signing_key : Text → Result SigningKey
  signing_key key_hex = do
    bytes ← context (hex_decode (trim key_hex)) "invalid hex"
    ensure (length bytes == 32) "notary key file must contain 32 hex-encoded bytes"
    context (from_bytes bytes) "invalid signing key"
