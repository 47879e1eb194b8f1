-- ===== src/Aead.antt =====
-- cc-core/src/aead.rs: deterministic sealing under single-use keys.
use close_common.Common.{
  ◌≤◌, ◌≡◌, Result, ok, err, ok_or, ok_or-eq-ok, ◌>>=◌, eqb, eqb_iff, if◌then◌else◌, length,
  replicate, ◌++◌, Option-cases, inl, inr, arith,
}
use close_common.Common.Bytes.{Bytes, Text, IsKey}
use close_common.Crypto.{Crypto, IsLawful, max_plaintext}
use close_common.Facet.{Error, sealed}

abbrev zero_nonce : Bytes
zero_nonce = replicate 24 0

module _ (c : Crypto) where
  unfoldable pub derive : Text → Bytes → Bytes → Bytes
  derive context key material = c.derive_key context (key ++ material)

  unfoldable pub seal : Bytes → Bytes → Bytes → Result Error Bytes
  seal key aad plaintext = ok_or (c.encrypt key zero_nonce aad plaintext) sealed

  -- `open`
  unfoldable pub open_box : Bytes → Bytes → Bytes → Result Error Bytes
  open_box key aad ciphertext = ok_or (c.decrypt key zero_nonce aad ciphertext) sealed

  unfoldable pub wrap_key : Bytes → Bytes → Bytes → Result Error Bytes
  unfolding seal
  wrap_key wrapping aad inner = seal wrapping aad inner

  -- `bytes.try_into()` asks for 32 bytes.
  unfoldable pub to_key : Bytes → Result Error Bytes
  to_key bytes = if eqb (length bytes) 32 then ok bytes else err sealed

  unfoldable pub unwrap_key : Bytes → Bytes → Bytes → Result Error Bytes
  unfolding open_box to_key
  unwrap_key wrapping aad wrapped = do bytes ← open_box wrapping aad wrapped; to_key bytes

module _ (c : Crypto) where
  -- Failure is uniform.
  pub open_box-err : (key aad e : Bytes) (x : Error) → open_box c key aad e ≡ err x → x ≡ sealed
  unfolding open_box
  open_box-err key aad e x h = ground arith

module _ (c : Crypto) (l : IsLawful c) where
  pub derive-IsKey : (context : Text) (key material : Bytes) → IsKey (derive c context key material)
  unfolding derive
  derive-IsKey context key material = l.length-derive_key context (key ++ material)

  -- Under a key of 32 bytes, a message of admissible length is sealed, and the same key and
  -- associated data open the box to that message.
  pub open-seal :
      (key aad m : Bytes)
      → IsKey key
      → length m ≤ max_plaintext
      → (e : Bytes) × (seal c key aad m ≡ ok e) × (open_box c key aad e ≡ ok m)
  unfolding seal open_box
  open-seal key aad m k fits = elim (Option-cases (c.encrypt key zero_nonce aad m)) [
    | inl fails ↦ absurd (l.encrypt_total key zero_nonce aad m k fits fails)
    | inr (e, q) ↦ (e, rw q, rw (l.decrypt-encrypt key zero_nonce aad m e q))
  ]

  -- What was sealed opens under the same key and associated data.
  pub open-sealed : (key aad m e : Bytes) → seal c key aad m ≡ ok e → open_box c key aad e ≡ ok m
  unfolding seal open_box
  open-sealed key aad m e h = rw (
      l.decrypt-encrypt key zero_nonce aad m e
        (ok_or-eq-ok (c.encrypt key zero_nonce aad m) sealed h))

  pub to_key-IsKey : (k : Bytes) → IsKey k → to_key c k ≡ ok k
  unfolding to_key
  to_key-IsKey k h = rw ((eqb_iff (length k) 32).1 h)

  -- A key wrapped under another key is there again when that key unwraps it.
  pub unwrap-wrap :
      (wrapping aad inner : Bytes)
      → IsKey wrapping
      → IsKey inner
      → (w : Bytes) × (wrap_key c wrapping aad inner ≡ ok w)
        × (unwrap_key c wrapping aad w ≡ ok inner)
  unfolding wrap_key unwrap_key
  unwrap-wrap wrapping aad inner hw hi =
      let (e, boxed, opened) = open-seal wrapping aad inner hw (omega arith) in
      (e, boxed, rw opened (to_key-IsKey inner hi))
