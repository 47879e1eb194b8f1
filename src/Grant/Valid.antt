-- ===== src/Grant/Valid.antt =====
-- What verify decides: a declarative reading of a valid chain (grant.rs).
use close_common.Common.{
  ℕ, ◌≤◌, ◌≡◌, refl, ◌↔◌, true, false, Option, none, some, arith, ok, refuse_if-ok,
  refuse_if-not-ok, length, eqb, eqb_iff, >>=-eq-ok, map_err-ok, map_err,
}
use close_common.Common.Bytes.{Bytes, ==→eq, eq→==}
use close_common.Crypto.{Crypto, Codec}
use close_common.Facet.{encoding}
use close_common.Close.{CloseRecord}
use close_common.Grant.{
  Grant, root, link, GrantBody, terms, expired, check_signature, check_link, verify,
}
use close_common.Grant.Narrow.{IsNarrow, check_link_iff}

-- `now` is not past the expiry.
abbrev pub IsAlive : Option ℕ → ℕ → Type 0
IsAlive none now = Unit
IsAlive (some e) now = now ≤ e

IsAlive-iff : (e : Option ℕ) (now : ℕ) → (expired e now ≡ false) ↔ IsAlive e now
unfolding expired
IsAlive-iff none now = (λ _. tt, λ _. refl)
IsAlive-iff (some e) now = ground arith

module _ (c : Crypto) (bodies : Codec GrantBody) where
  -- The bytes of the body are signed by the issuer that it names.
  pub record IsSigned (b : GrantBody) (sig : Bytes) : Type 0 where
    pub bytes : Bytes
    pub valid : c.valid_verifying_key b.terms.issuer_sign ≡ true
    pub encodes : bodies.to_allocvec b ≡ ok bytes
    pub sized : length sig ≡ 64
    pub verifies : c.verify b.terms.issuer_sign bytes sig ≡ true

  check_signature-IsSigned :
      (b : GrantBody) (sig : Bytes) → check_signature c bodies b sig ≡ ok tt → IsSigned b sig
  unfolding check_signature
  check_signature-IsSigned b sig h =
      let (valid, h₁) = refuse_if-not-ok (c.valid_verifying_key b.terms.issuer_sign) _ _ h in
      let (bytes, encodes, h₂) = >>=-eq-ok (map_err encoding (bodies.to_allocvec b)) _ h₁ in
      let (sized, h₃) = refuse_if-not-ok (eqb (length sig) 64) _ _ h₂ in
      record {
        bytes = bytes;
        valid = valid;
        encodes = map_err-ok encoding (bodies.to_allocvec b) encodes;
        sized = (eqb_iff (length sig) 64).0 sized;
        verifies = ground arith;
      }

  pub IsSigned-check_signature :
      (b : GrantBody) (sig : Bytes) → IsSigned b sig → check_signature c bodies b sig ≡ ok tt
  unfolding check_signature
  IsSigned-check_signature b sig s =
      rw (s.valid, s.encodes, (eqb_iff (length sig) 64).1 s.sized, s.verifies)

  module _ (r : CloseRecord) (now : ℕ) where
    -- Every link is signed and alive and narrows the one above, whose holder issued it; the first
    -- was issued by the steward of the close.
    abbrev pub IsValid : Grant → Type 0
    IsValid (root t sig) =
        IsSigned (record { terms = t; parent = none }) sig
        × IsAlive t.expires_at now
        × (t.issuer_sign ≡ r.steward)
    IsValid (link t sig p) =
        IsSigned (record { terms = t; parent = some p }) sig
        × IsAlive t.expires_at now
        × (IsNarrow t (terms p) × (t.issuer_sign ≡ (terms p).holder.sign))
        × IsValid p

    verify-IsValid : (g : Grant) → verify c bodies r now g ≡ ok tt → IsValid g
    unfolding verify
    verify-IsValid (root t sig) h =
        let (_, signed, h₁) = >>=-eq-ok (check_signature c bodies _ sig) _ h in
        let (alive, h₂) = refuse_if-ok (expired t.expires_at now) _ _ h₁ in
        (
          check_signature-IsSigned _ sig signed,
          (IsAlive-iff t.expires_at now).0 alive,
          ==→eq t.issuer_sign r.steward (ground arith),
        )
    verify-IsValid (link t sig p) h =
        let (_, signed, h₁) = >>=-eq-ok (check_signature c bodies _ sig) _ h in
        let (alive, h₂) = refuse_if-ok (expired t.expires_at now) _ _ h₁ in
        let (_, linked, h₃) = >>=-eq-ok (check_link t (terms p)) _ h₂ in
        (
          check_signature-IsSigned _ sig signed,
          (IsAlive-iff t.expires_at now).0 alive,
          (check_link_iff t (terms p)).0 linked,
          verify-IsValid p h₃,
        )

    IsValid-verify : (g : Grant) → IsValid g → verify c bodies r now g ≡ ok tt
    unfolding verify
    IsValid-verify (root t sig) (signed, alive, rooted) = rw (
      IsSigned-check_signature _ sig signed,
      (IsAlive-iff t.expires_at now).1 alive,
      eq→== t.issuer_sign r.steward rooted,
    )
    IsValid-verify (link t sig p) (signed, alive, linked, above) =
        rw
          (
            IsSigned-check_signature _ sig signed,
            (IsAlive-iff t.expires_at now).1 alive,
            (check_link_iff t (terms p)).1 linked,
          )
          (IsValid-verify p above)

    -- `verify` accepts exactly the valid chains: signed and unexpired at every link, narrowing at
    -- every link, passed on by holders, and rooted in the steward of the close.
    pub verify_iff : (g : Grant) → (verify c bodies r now g ≡ ok tt) ↔ IsValid g
    verify_iff g = (verify-IsValid g, IsValid-verify g)
