-- ===== src/Grant/Attenuate.antt =====
-- Handing a grant onward (grant.rs, attenuate).
use close_common.Common.{
  none, ◌⊎◌, ◌∙◌, ap, ◌>>=◌, Option-cases, ℕ, ◌≡◌, refl, Option, some, ok, ok_or, Result, arith,
  List, inl, inr, sym, true, false, refuse_if-ok, refuse_if-not-ok, >>=-eq-ok, ok-injective,
  map_err,
}
use close_common.Common.Bytes.{Bytes, Text, IsKey, ==→eq, eq→==, ◌==◌}
use close_common.Crypto.{Crypto, Codec, IsLawful}
use close_common.Facet
use close_common.Facet.{
  Facet, presence, shape, content, Powers, no_key, Error, is_subset_of, discriminant, encoding,
}
use close_common.Close.{CloseRecord, lower_facet_key}
use close_common.Close.Keys.{lower_facet_key-eq-none}
use close_common.Grant.{
  Terms, Grant, link, GrantBody, Identity, PublicIdentity, public, WrappedKey, attenuate, rewrap,
  unwrap_key, unwrap, verify, wrap, wrap_aad, terms, prefix_under, outlives, expires_later,
}
use close_common.Grant.Narrow.{IsNarrow, ExpiresBy, ExpiresBy-of_tests, tests_of-ExpiresBy}
use close_common.Grant.Valid.{IsAlive, IsSigned, verify_iff}
use close_common.Grant.Wrap.{Encodes, unwrap-wrap_holder, lower-IsKey, sign_body-IsSigned}

module _ (c : Crypto) (bodies : Codec GrantBody) (parent : Grant) (me : Identity) (r : CloseRecord)
    (eph : Bytes) (holder : PublicIdentity) (facet : Facet) (powers : Powers) (prefix : List Text)
    (expires_at : Option ℕ) (caveats : List Text) where
  abbrev pub child_terms : Option WrappedKey → Terms
  child_terms wrapped = record {
    close = (terms parent).close;
    holder = holder;
    facet = facet;
    powers = powers;
    prefix = prefix;
    expires_at = expires_at;
    caveats = caveats;
    epoch = (terms parent).epoch;
    wrapped = wrapped;
    issuer_sign = c.verifying_key me.sign;
  }

  abbrev pub child : Result Error Grant
  child = attenuate c bodies parent me r eph holder facet powers prefix expires_at caveats

  -- Whatever is asked for, a grant that comes out of `attenuate` is a link under the parent with
  -- the terms asked for, narrows the parent in every dimension, and is issued by the parent's
  -- holder.
  pub attenuate-IsNarrow :
      (g : Grant)
      → child ≡ ok g
      → (wrapped : Option WrappedKey) × (sig : Bytes) × (g ≡ link (child_terms wrapped) sig parent)
        × IsNarrow (child_terms wrapped) (terms parent)
        × ((child_terms wrapped).issuer_sign ≡ (terms parent).holder.sign)
  unfolding attenuate
  attenuate-IsNarrow g h =
      let p = terms parent in
      let (low, h₁) = refuse_if-ok (Facet.gt facet p.facet) _ _ h in
      let (fewer, h₂) = refuse_if-not-ok (is_subset_of powers p.powers) _ _ h₁ in
      let (deeper, h₃) = refuse_if-not-ok (prefix_under prefix p.prefix) _ _ h₂ in
      let (endless, h₄) = refuse_if-ok (outlives expires_at p.expires_at) _ _ h₃ in
      let (later, h₅) = refuse_if-ok (expires_later expires_at p.expires_at) _ _ h₄ in
      let (mine, h₆) = refuse_if-not-ok (p.holder.sign == c.verifying_key me.sign) _ _ h₅ in
      let (wrapped, _, h₇) = >>=-eq-ok (rewrap c bodies p me r eph holder facet) _ h₆ in
      let (bytes, _, h₈) =
        >>=-eq-ok
          (map_err encoding
            (bodies.to_allocvec (record { terms = child_terms wrapped; parent = some parent })))
          _ h₇ in
      (
        wrapped,
        c.sign me.sign bytes,
        sym (ok-injective h₈),
        record {
          close = refl;
          facet = ground arith;
          powers = fewer;
          prefix = deeper;
          expiry = ExpiresBy-of_tests expires_at p.expires_at later endless;
        },
        sym (==→eq _ _ mine),
      )

module _ (c : Crypto) (l : IsLawful c) (bodies : Codec GrantBody) (encodes : Encodes bodies)
    (parent : Grant) (me you : Identity) (r : CloseRecord) (eph : Bytes) (facet : Facet)
    (powers : Powers) (prefix : List Text) (expires_at : Option ℕ) (caveats : List Text) where
  abbrev pub request : Result Error Grant
  request = attenuate c bodies parent me r eph (public c you) facet powers prefix expires_at caveats

  rewrap-steps :
      (f : Facet) (w₀ w : WrappedKey) (parent_key key : Bytes)
      → ok_or (terms parent).wrapped no_key ≡ ok w₀
      → unwrap c w₀ me.dh (
          wrap_aad
            (terms parent).close
            (terms parent).holder
            (terms parent).facet
            (terms parent).epoch)
        ≡ ok parent_key
      → lower_facet_key c parent_key (terms parent).facet f r.id ≡ some key
      → wrap c eph
          (c.dh_public you.dh)
          (wrap_aad (terms parent).close (public c you) f (terms parent).epoch)
          key
        ≡ ok w
      → rewrap c bodies (terms parent) me r eph (public c you) f ≡ ok (some w)
  unfolding rewrap public
  rewrap-steps presence w₀ w parent_key key there opens lowers wraps = cc (
    lowers,
    (lower_facet_key-eq-none c parent_key r.id (terms parent).facet presence).1 (inl refl),
  )
  rewrap-steps shape w₀ w parent_key key there opens lowers wraps = rw (there, opens, lowers, wraps)
  rewrap-steps content w₀ w parent_key key there opens lowers wraps =
      rw (there, opens, lowers, wraps)

  -- What the receiver is to find: the parent's key, lowered to the facet
  abbrev pub lowered_to : Bytes → Result Error Bytes
  lowered_to parent_key =
      ok_or (lower_facet_key c parent_key (terms parent).facet facet r.id) no_key

  -- What the receiver finds in a wrapped key, where there is one
  abbrev found_in : Option WrappedKey → Result Error Bytes
  found_in wrapped = do
    w ← ok_or wrapped no_key
    unwrap c w you.dh (wrap_aad (terms parent).close (public c you) facet (terms parent).epoch)

  abbrev Rewraps : Bytes → Type 0
  Rewraps parent_key =
      (wrapped : Option WrappedKey) × (rewrap c bodies (terms parent) me r eph (public c you) facet
        ≡ ok wrapped)
      × (found_in wrapped ≡ lowered_to parent_key)

  rewrap-key :
      (parent_key key : Bytes)
      → unwrap_key c parent me ≡ ok parent_key
      → IsKey parent_key
      → lower_facet_key c parent_key (terms parent).facet facet r.id ≡ some key
      → Rewraps parent_key
  unfolding unwrap_key
  rewrap-key parent_key key held size lowers =
      let (w₀, there, opens) = >>=-eq-ok (ok_or (terms parent).wrapped no_key) _ held in
      let (w, wraps, unwraps) =
        unwrap-wrap_holder c l eph
          (wrap_aad (terms parent).close (public c you) facet (terms parent).epoch) key you.dh
          (lower-IsKey c l parent_key r.id (terms parent).facet facet key size lowers) in
      (
        some w,
        rewrap-steps facet w₀ w parent_key key there opens lowers wraps,
        unwraps ∙ sym (ap (λ (x : Option Bytes). ok_or x no_key) lowers),
      )

  rewrap-presence : (parent_key : Bytes) → facet ≡ presence → Rewraps parent_key
  unfolding rewrap
  rewrap-presence parent_key keyless = (
    none,
    ap (rewrap c bodies (terms parent) me r eph (public c you)) keyless,
    sym (
        ap (λ (x : Option Bytes). ok_or x no_key)
          ((lower_facet_key-eq-none c parent_key r.id (terms parent).facet facet).1 (inl keyless))),
  )

  module _ (parent_key : Bytes)
      (held : (facet ≡ presence) ⊎ ((unwrap_key c parent me ≡ ok parent_key) × IsKey parent_key))
      (facet_low : Facet.gt facet (terms parent).facet ≡ false) where
    rewrapped : Rewraps parent_key
    rewrapped = elim held [
      | inl keyless ↦ rewrap-presence parent_key keyless
      | inr (opens, size) ↦
          elim (Option-cases (lower_facet_key c parent_key (terms parent).facet facet r.id)) [
            | inl gone ↦
                elim ((lower_facet_key-eq-none c parent_key r.id (terms parent).facet facet).0
                  gone) [
                    | inl keyless ↦ rewrap-presence parent_key keyless
                    | inr above ↦ absurd (ground (arith, above, facet_low))
                  ]
            | inr (key, lowers) ↦ rewrap-key parent_key key opens size lowers
          ]
    ]

    module _ (powers_fewer : is_subset_of powers (terms parent).powers ≡ true)
        (path_deeper : prefix_under prefix (terms parent).prefix ≡ true)
        (expires_sooner : ExpiresBy expires_at (terms parent).expires_at)
        (mine : (terms parent).holder.sign ≡ c.verifying_key me.sign) where
      abbrev given : Option WrappedKey → Terms
      given =
          child_terms c bodies parent me r eph (public c you) facet powers prefix expires_at caveats

      attenuate-made :
          (w : Option WrappedKey) × (sig : Bytes) × (request ≡ ok (link (given w) sig parent))
          × IsSigned c bodies (record { terms = given w; parent = some parent }) sig
          × (unwrap_key c (link (given w) sig parent) you ≡ lowered_to parent_key)
      unfolding attenuate unwrap_key
      attenuate-made =
          let (w, wraps, unwraps) = rewrapped in
          let (sig, signs, signed) =
            sign_body-IsSigned c l bodies encodes me.sign
              (record { terms = given w; parent = some parent }) refl in
          let (later, endless) =
            tests_of-ExpiresBy expires_at (terms parent).expires_at expires_sooner in
          (
            w,
            sig,
            rw (facet_low, powers_fewer, path_deeper, endless, later, eq→== _ _ mine, wraps) signs,
            signed,
            unwraps,
          )

      -- The holder of a grant that verifies can hand on any narrower one: a grant of presence, and any
      -- other where they find a key of 32 bytes in their own. The request succeeds, the new grant verifies
      -- at a time when it and the parent do, and its holder recovers from it the parent's key lowered to
      -- the new facet, which is none for presence.
      pub attenuate_lem :
          (now : ℕ)
          → verify c bodies r now parent ≡ ok tt
          → IsAlive expires_at now
          → (g : Grant) × (request ≡ ok g)
            × (verify c bodies r now g ≡ ok tt)
            × (unwrap_key c g you ≡ lowered_to parent_key)
      attenuate_lem now above alive =
          let (w, sig, made, signed, unwraps) = attenuate-made in
          let narrow : IsNarrow (given w) (terms parent) = record {
            close = refl;
            facet = ground (arith, facet_low);
            powers = powers_fewer;
            prefix = path_deeper;
            expiry = expires_sooner;
          } in
          (
            link (given w) sig parent,
            made,
            (verify_iff c bodies r now (link (given w) sig parent)).1
                (signed, alive, (narrow, sym mine), (verify_iff c bodies r now parent).0 above),
            unwraps,
          )
