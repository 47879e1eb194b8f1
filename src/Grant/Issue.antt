-- ===== src/Grant/Issue.antt =====
-- Issuing a root grant (grant.rs, issue_root).
use close_common.Common.{
  ℕ, ◌≡◌, refl, Option, none, some, ok, ok_or, Result, List, Option-cases, inl, inr, sym,
}
use close_common.Common.Bytes.{Bytes, Text, IsKey}
use close_common.Crypto.{Crypto, Codec, IsLawful}
use close_common.Facet.{Facet, content, Powers, no_key, Error}
use close_common.Close.{CloseRecord, lower_facet_key}
use close_common.Grant.{
  Terms, Grant, root, GrantBody, Identity, public, WrappedKey, issue_root, unwrap_key, verify,
  wrap_if, wrap_aad, wrap_if,
}
use close_common.Grant.Valid.{IsAlive, verify_iff}
use close_common.Grant.Wrap.{Encodes, unwrap-wrap_holder, lower-IsKey, sign_body-IsSigned}

module _ (c : Crypto) (l : IsLawful c) (bodies : Codec GrantBody) (encodes : Encodes bodies)
    (r : CloseRecord) (steward content_key eph : Bytes) (size : IsKey content_key) (epoch : ℕ)
    (me : Identity) (facet : Facet) (powers : Powers) (prefix : List Text) (expires_at : Option ℕ)
    (caveats : List Text) (stewards : r.steward ≡ c.verifying_key steward) where
  abbrev pub root_terms : Option WrappedKey → Terms
  root_terms wrapped = record {
    close = r.id;
    holder = public c me;
    facet = facet;
    powers = powers;
    prefix = prefix;
    expires_at = expires_at;
    caveats = caveats;
    epoch = epoch;
    wrapped = wrapped;
    issuer_sign = c.verifying_key steward;
  }

  abbrev pub lowered : Option Bytes
  lowered = lower_facet_key c content_key content facet r.id

  abbrev pub issued : Result Error Grant
  issued =
      issue_root c bodies r steward content_key eph epoch (public c me) facet powers prefix
        expires_at caveats

  record Issued (wrapped : Option WrappedKey) : Type 0 where
    sig : Bytes
    made : issued ≡ ok (root (root_terms wrapped) sig)
    checks :
        (now : ℕ)
        → IsAlive expires_at now
        → verify c bodies r now (root (root_terms wrapped) sig) ≡ ok tt

  sign-Issued :
      (wrapped : Option WrappedKey)
      → wrap_if c lowered eph (c.dh_public me.dh) (wrap_aad r.id (public c me) facet epoch)
        ≡ ok wrapped
      → Issued wrapped
  unfolding issue_root public
  sign-Issued wrapped h =
      let (sig, signs, signed) =
        sign_body-IsSigned c l bodies encodes steward
          (record { terms = root_terms wrapped; parent = none }) refl in
      record {
        sig = sig;
        made = rw h signs;
        checks = λ now alive.
            (verify_iff c bodies r now (root (root_terms wrapped) sig)).1
              (signed, alive, sym stewards);
      }

  -- For a content key of 32 bytes and the steward of the close as issuer, a root grant is issued
  -- with the terms that were asked for. It verifies at a time that is not past its expiry. Its
  -- holder recovers from it the content key lowered to the granted facet, and none from a grant of
  -- presence.
  pub issue_root_lem :
      (now : ℕ)
      → IsAlive expires_at now
      → (wrapped : Option WrappedKey) × (sig : Bytes) × (issued
          ≡ ok (root (root_terms wrapped) sig))
        × (verify c bodies r now (root (root_terms wrapped) sig) ≡ ok tt)
        × (unwrap_key c (root (root_terms wrapped) sig) me ≡ ok_or lowered no_key)
  unfolding public unwrap_key
  issue_root_lem now alive = elim (Option-cases lowered) [
    | inl keyless ↦
        let i = sign-Issued none (rw keyless) in
        (none, i.sig, i.made, i.checks now alive, rw keyless)
    | inr (k, found) ↦
        let (w, wraps, unwraps) =
          unwrap-wrap_holder c l eph (wrap_aad r.id (public c me) facet epoch) k me.dh
            (lower-IsKey c l content_key r.id content facet k size found) in
        let i = sign-Issued (some w) (rw (found, wraps)) in
        (some w, i.sig, i.made, i.checks now alive, rw found unwraps)
  ]
