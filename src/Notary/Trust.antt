-- ===== src/Notary/Trust.antt =====
-- The chain of trust: the key pair of keygen.rs is the one that the notary signs with, and the one
-- that the oracle accepts.
use bartok.Base.{◌≡◌, sym, ◌∙◌, none, some, ok, ==_iff}
use bartok.Text.{Text, trim}
use bartok.Text.Laws.{text_eq_iff}
use bartok.Role.{Files}
use bartok.Role.Keygen.{key_dir, pub_path, keygen, keygen-read}
use bartok.Oracle.{TlsNotary, known_notary}
use bartok.Notary.{key_file}
use bartok.Notary.Key.{Secp256k1, signing_key}

module _ (k : Secp256k1) where
  open k use {SigningKey, to_bytes, hex_encode, from_to_bytes, length-to_bytes, hex_decode_encode}

  signing_key-hex_encode : (key : SigningKey) → signing_key k (hex_encode (to_bytes key)) ≡ ok key
  unfolding signing_key
  signing_key-hex_encode key =
      rw (hex_decode_encode key, (==_iff _ _).1 (length-to_bytes key), from_to_bytes key)

module _ (n : TlsNotary) where
  open n use {Bytes, Presentation, deserialize, verifying_key_hex, to_lowercase}

  known_notary-ok :
      (bytes : Bytes) (presentation : Presentation) (key : Text)
      → deserialize bytes ≡ some presentation
      → verifying_key_hex presentation ≡ to_lowercase (trim key)
      → known_notary n (some bytes) (some key) ≡ ok presentation
  unfolding known_notary
  known_notary-ok bytes presentation key reads same = rw (reads, (text_eq_iff _ _).1 same)

module _ {World : Type 0} (f : Files World) (k : Secp256k1) (n : TlsNotary) where
  open k use {SigningKey, to_bytes, compressed_public, hex_encode}
  open n use {Bytes, Presentation, deserialize, verifying_key_hex, to_lowercase}

  -- Once keygen.rs has written a key pair to its default place, the notary's default key file holds
  -- that signing key, and the oracle, with the public key file beside it, accepts a presentation
  -- whose verifying key is that of the pair.
  pub keygen-known_notary :
      (key : SigningKey) (bytes : Bytes) (presentation : Presentation) (w w' : World)
      → keygen f none (hex_encode (to_bytes key)) (hex_encode (compressed_public key)) w
        ≡ (ok tt, w')
      → deserialize bytes ≡ some presentation
      → verifying_key_hex presentation ≡ hex_encode (compressed_public key)
      → to_lowercase (trim (hex_encode (compressed_public key)))
        ≡ hex_encode (compressed_public key)
      → (key_hex pub_hex : Text) × (f.read_to_string (key_file none) w' ≡ ok key_hex)
        × (signing_key k key_hex ≡ ok key)
        × (f.read_to_string (pub_path (key_dir none)) w' ≡ ok pub_hex)
        × (known_notary n (some bytes) (some pub_hex) ≡ ok presentation)
  keygen-known_notary key bytes presentation w w' generated reads signed lower =
      let (_, _, secret, public_key) =
        keygen-read f none (hex_encode (to_bytes key)) (hex_encode (compressed_public key)) w w'
          generated in
      (
        hex_encode (to_bytes key),
        hex_encode (compressed_public key),
        secret,
        signing_key-hex_encode k key,
        public_key,
        known_notary-ok n bytes presentation (hex_encode (compressed_public key)) reads
            (signed ∙ sym lower),
      )
