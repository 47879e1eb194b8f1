-- ===== src/Crypto.antt =====
-- The libraries that the crates call and do not implement: blake3, chacha20poly1305,
-- ed25519-dalek, x25519-dalek and postcard. Their operations are the parameters of the model, and
-- what their documentation promises are the laws of `IsLawful` and `IsCodec`.
use close_common.Common.{
  ℕ, ◌≤◌, ◌^◌, ◌*◌, ◌-◌, ◌≡◌, ◌≢◌, Bool, true, Option, none, some, Result, ok, length,
}
use close_common.Common.Bytes.{Bytes, Text, IsKey}

pub record Crypto : Type 0 where
  -- `blake3::hash`, `blake3::keyed_hash` and `blake3::derive_key`
  pub hash : Bytes → Bytes
  pub keyed_hash : Bytes → Bytes → Bytes
  pub derive_key : Text → Bytes → Bytes
  -- `XChaCha20Poly1305::new_from_slice(key)`, then `encrypt` and `decrypt` with a nonce, the
  -- associated data and a message; `none` is an error of either call
  pub encrypt : Bytes → Bytes → Bytes → Bytes → Option Bytes
  pub decrypt : Bytes → Bytes → Bytes → Bytes → Option Bytes
  -- ed25519: the verifying key of a signing key, `VerifyingKey::from_bytes(..).is_ok()`, `sign`
  -- and `verify(..).is_ok()`
  pub verifying_key : Bytes → Bytes
  pub valid_verifying_key : Bytes → Bool
  pub sign : Bytes → Bytes → Bytes
  pub verify : Bytes → Bytes → Bytes → Bool
  -- x25519: the public key of a secret, and the shared secret
  pub dh_public : Bytes → Bytes
  pub diffie_hellman : Bytes → Bytes → Bytes

-- XChaCha20-Poly1305 refuses messages beyond this length.
abbrev pub max_plaintext : ℕ
max_plaintext = (2 ^ 32 - 1) * 64

pub record IsLawful (c : Crypto) : Type 0 where
  pub length-hash : (m : Bytes) → IsKey (c.hash m)
  pub length-keyed_hash : (k m : Bytes) → IsKey (c.keyed_hash k m)
  pub length-derive_key : (context : Text) (m : Bytes) → IsKey (c.derive_key context m)
  pub encrypt_total :
      (k n a m : Bytes) → IsKey k → length m ≤ max_plaintext → c.encrypt k n a m ≢ none
  pub decrypt-encrypt :
      (k n a m e : Bytes) → c.encrypt k n a m ≡ some e → c.decrypt k n a e ≡ some m
  pub length-verifying_key : (s : Bytes) → IsKey (c.verifying_key s)
  pub valid-verifying_key : (s : Bytes) → c.valid_verifying_key (c.verifying_key s) ≡ true
  pub length-sign : (s m : Bytes) → length (c.sign s m) ≡ 64
  pub verify-sign : (s m : Bytes) → c.verify (c.verifying_key s) m (c.sign s m) ≡ true
  pub length-dh_public : (s : Bytes) → IsKey (c.dh_public s)
  pub dh_agrees :
      (s t : Bytes) → c.diffie_hellman s (c.dh_public t) ≡ c.diffie_hellman t (c.dh_public s)

-- `postcard::to_allocvec` and `postcard::from_bytes` at one type; the error is its message.
pub record Codec {ℓ} (A : Type ℓ) : Type ℓ where
  pub to_allocvec : A → Result Text Bytes
  pub from_bytes : Bytes → Result Text A

abbrev pub IsCodec {ℓ} : {A : Type ℓ} → Codec A → Type ℓ
IsCodec {A} k = (a : A) (b : Bytes) → k.to_allocvec a ≡ ok b → k.from_bytes b ≡ ok a

-- What is written for one value is read back as it.
abbrev pub ReadsBack {ℓ} : {A : Type ℓ} → Codec A → A → Type ℓ
ReadsBack k a = (b : Bytes) → k.to_allocvec a ≡ ok b → k.from_bytes b ≡ ok a
