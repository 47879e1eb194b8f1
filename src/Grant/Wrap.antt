-- ===== src/Grant/Wrap.antt =====
-- Wrapping a key to a holder, and signing a body (grant.rs).
use close_common.Common.{◌≡◌, some, ok, arith, subst, sym, true}
use close_common.Common.Bytes.{Bytes, IsKey, codes}
use close_common.Crypto.{Crypto, Codec, IsLawful}
use close_common.Facet.{Facet, presence, shape, content}
use close_common.Aead.{unwrap-wrap, derive-IsKey}
use close_common.Close.{lower_facet_key}
use close_common.Grant.{WrappedKey, GrantBody, wrap, unwrap, sign_body, with_signature}
use close_common.Grant.Valid.{IsSigned}

-- postcard encodes every body.
abbrev pub Encodes : Codec GrantBody → Type 0
Encodes bodies = (b : GrantBody) → (bytes : Bytes) × (bodies.to_allocvec b ≡ ok bytes)

module _ (c : Crypto) (l : IsLawful c) where
  -- Whatever the ephemeral secret, the holder of the secret key gets the wrapped key back.
  pub unwrap-wrap_holder :
      (eph aad key holder_dh : Bytes)
      → IsKey key
      → (w : WrappedKey) × (wrap c eph (c.dh_public holder_dh) aad key ≡ ok w)
        × (unwrap c w holder_dh aad ≡ ok key)
  unfolding wrap unwrap
  unwrap-wrap_holder eph aad key holder_dh size =
      let kek_IsKey =
        derive-IsKey c l (codes "closecommon/v0/wrap")
          (c.diffie_hellman eph (c.dh_public holder_dh)) (c.dh_public eph) in
      let (ct, boxes, opens) = unwrap-wrap c l _ aad key kek_IsKey size in
      (record { epk = c.dh_public eph; ct = ct }, rw boxes, rw (l.dh_agrees holder_dh eph) opens)

  pub lower-IsKey :
      (k close : Bytes) (have want : Facet) (k' : Bytes)
      → IsKey k
      → lower_facet_key c k have want close ≡ some k'
      → IsKey k'
  unfolding lower_facet_key
  lower-IsKey k close presence presence k' size h = absurd (ground arith)
  lower-IsKey k close presence shape k' size h = absurd (ground arith)
  lower-IsKey k close presence content k' size h = absurd (ground arith)
  lower-IsKey k close shape presence k' size h = absurd (ground arith)
  lower-IsKey k close shape shape k' size h = ground arith
  lower-IsKey k close shape content k' size h = absurd (ground arith)
  lower-IsKey k close content presence k' size h = absurd (ground arith)
  lower-IsKey k close content shape k' size h =
      ground (arith, derive-IsKey c l (codes "closecommon/v0/facet/shape") k close)
  lower-IsKey k close content content k' size h = ground arith

  module _ (bodies : Codec GrantBody) (encodes : Encodes bodies) (signer : Bytes) where
    -- Signing a body under its issuer's key gives a grant whose signature passes the check.
    pub sign_body-IsSigned :
        (b : GrantBody)
        → b.terms.issuer_sign ≡ c.verifying_key signer
        → (sig : Bytes) × (sign_body c bodies b signer ≡ ok (with_signature b sig))
          × IsSigned c bodies b sig
    unfolding sign_body
    sign_body-IsSigned b issuer =
        let (bytes, e) = encodes b in
        (
          c.sign signer bytes,
          rw e,
          record {
            bytes = bytes;
            valid = rw issuer (l.valid-verifying_key signer);
            encodes = e;
            sized = l.length-sign signer bytes;
            verifies =
                subst (λ (k : Bytes). c.verify k bytes (c.sign signer bytes) ≡ true) (sym issuer)
                  (l.verify-sign signer bytes);
          },
        )
