-- ===== src/Grant/Carried.antt =====
-- What the grants that are handed out carry (grant.rs, attenuate and issue_root).
use close_common.Common.{
  ℕ, ◌≡◌, refl, sym, ◌∙◌, ap, subst, Option, some, Result, ok, ok_or, ok_or-eq-ok, List, arith,
  refuse_if-ok, refuse_if-not-ok, >>=-eq-ok, ok-injective, map_err, some-injective, ◌>>=◌, none,
}
use close_common.Common.Bytes.{Bytes, Text, IsKey, ◌==◌}
use close_common.Crypto.{Crypto, Codec, IsLawful}
use close_common.Facet
use close_common.Facet.{
  Facet, presence, shape, content, Powers, no_key, Error, is_subset_of, encoding,
}
use close_common.Close.{CloseRecord, lower_facet_key}
use close_common.Grant.{
  Terms, Grant, link, root, GrantBody, Identity, public, WrappedKey, attenuate, rewrap, unwrap_key,
  unwrap, wrap, wrap_aad, terms, prefix_under, outlives, expires_later, issue_root,
}
use close_common.Grant.Attenuate.{child_terms}
use close_common.Grant.Issue.{issue_root_lem, root_terms}
use close_common.Grant.Valid.{IsAlive}
use close_common.Grant.Wrap.{Encodes, unwrap-wrap_holder, lower-IsKey}

IsAlive-zero : (e : Option ℕ) → IsAlive e 0
IsAlive-zero none = tt
IsAlive-zero (some e) = omega arith

module _ (c : Crypto) (l : IsLawful c) (bodies : Codec GrantBody) (encodes : Encodes bodies)
    (r : CloseRecord) (you : Identity) (eph : Bytes) (facet : Facet) where
  module _ (parent : Grant) (me : Identity)
      (sized : (k : Bytes) → unwrap_key c parent me ≡ ok k → IsKey k) where
    -- What is carried on is the parent's key, lowered.
    abbrev pub Lowers : Bytes → Type 0
    Lowers k =
        (parent_key : Bytes) × (unwrap_key c parent me ≡ ok parent_key)
        × (lower_facet_key c parent_key (terms parent).facet facet r.id ≡ some k)

    module _ (powers : Powers) (prefix : List Text) (expires_at : Option ℕ)
        (caveats : List Text) where
      abbrev given : Option WrappedKey → Terms
      given =
          child_terms c bodies parent me r eph (public c you) facet powers prefix expires_at caveats

      attenuate-rewrap :
          (g : Grant)
          → attenuate c bodies parent me r eph (public c you) facet powers prefix expires_at caveats
            ≡ ok g
          → (wrapped : Option WrappedKey) × (rewrap c bodies
                (terms parent)
                me
                r
                eph
                (public c you)
                facet
              ≡ ok wrapped)
            × (sig : Bytes) × (g ≡ link (given wrapped) sig parent)
      unfolding attenuate
      attenuate-rewrap g h =
          let p = terms parent in
          let (_, h₁) = refuse_if-ok (Facet.gt facet p.facet) _ _ h in
          let (_, h₂) = refuse_if-not-ok (is_subset_of powers p.powers) _ _ h₁ in
          let (_, h₃) = refuse_if-not-ok (prefix_under prefix p.prefix) _ _ h₂ in
          let (_, h₄) = refuse_if-ok (outlives expires_at p.expires_at) _ _ h₃ in
          let (_, h₅) = refuse_if-ok (expires_later expires_at p.expires_at) _ _ h₄ in
          let (_, h₆) = refuse_if-not-ok (p.holder.sign == c.verifying_key me.sign) _ _ h₅ in
          let (wrapped, wraps, h₇) =
            >>=-eq-ok (rewrap c bodies p me r eph (public c you) facet) _ h₆ in
          let (bytes, _, h₈) =
            >>=-eq-ok
              (map_err encoding
                (bodies.to_allocvec (record { terms = given wrapped; parent = some parent })))
              _ h₇ in
          (wrapped, wraps, c.sign me.sign bytes, sym (ok-injective h₈))

    -- The steps of `rewrap` for a facet that has a key
    abbrev copied : Facet → Result Error (Option WrappedKey)
    copied f = do
      w ← ok_or (terms parent).wrapped no_key
      parent_key ← unwrap c w me.dh (
          wrap_aad (terms parent).close (terms parent).holder (terms parent).facet
            (terms parent).epoch)
      lowered ← ok_or (lower_facet_key c parent_key (terms parent).facet f r.id) no_key
      wrapped ←
          wrap c eph (c.dh_public you.dh)
            (wrap_aad (terms parent).close (public c you) f (terms parent).epoch) lowered
      ok (some wrapped)

    copied-Lowers :
        (k : Bytes) (wrapped : Option WrappedKey) (w : WrappedKey)
        → copied facet ≡ ok wrapped
        → wrapped ≡ some w
        → unwrap c w you.dh
            (wrap_aad (terms parent).close (public c you) facet (terms parent).epoch)
          ≡ ok k
        → Lowers k
    unfolding unwrap_key
    copied-Lowers k wrapped w h is opens =
        let (w₀, there, h₁) = >>=-eq-ok (ok_or (terms parent).wrapped no_key) _ h in
        let (parent_key, unwraps, h₂) = >>=-eq-ok (unwrap c w₀ me.dh _) _ h₁ in
        let held : unwrap_key c parent me ≡ ok parent_key = rw there unwraps in
        let (low, lowers, h₃) =
          >>=-eq-ok (ok_or (lower_facet_key c parent_key _ facet r.id) no_key) _ h₂ in
        let found = ok_or-eq-ok _ no_key lowers in
        let aad = wrap_aad (terms parent).close (public c you) facet (terms parent).epoch in
        let (v, wraps, h₄) = >>=-eq-ok (wrap c eph (c.dh_public you.dh) aad low) _ h₃ in
        let (u, wraps', unwraps') = unwrap-wrap_holder c l eph aad low you.dh (
          lower-IsKey c l parent_key r.id (terms parent).facet facet low (sized parent_key held)
            found) in
        let same : u ≡ w =
          ok-injective (sym wraps' ∙ wraps) ∙ some-injective v w (ok-injective h₄ ∙ is) in
        let carried : low ≡ k =
          ok-injective
            (sym unwraps' ∙ ap (λ (x : WrappedKey). unwrap c x you.dh aad) same ∙ opens) in
        (
          parent_key,
          held,
          subst
              (λ (x : Bytes). lower_facet_key c parent_key (terms parent).facet facet r.id ≡ some x)
              carried found,
        )

    rewrap-Lowers :
        (f : Facet) (k : Bytes) (wrapped : Option WrappedKey) (w : WrappedKey)
        → f ≡ facet
        → rewrap c bodies (terms parent) me r eph (public c you) f ≡ ok wrapped
        → wrapped ≡ some w
        → unwrap c w you.dh
            (wrap_aad (terms parent).close (public c you) facet (terms parent).epoch)
          ≡ ok k
        → Lowers k
    unfolding rewrap public
    rewrap-Lowers presence k wrapped w same h is opens = cc (h, is)
    rewrap-Lowers shape k wrapped w same h is opens =
        copied-Lowers k wrapped w (subst (λ (f : Facet). copied f ≡ ok wrapped) same h) is opens
    rewrap-Lowers content k wrapped w same h is opens =
        copied-Lowers k wrapped w (subst (λ (f : Facet). copied f ≡ ok wrapped) same h) is opens

    -- What its receiver finds in a grant that comes out of `attenuate` is what its holder finds in the
    -- parent, lowered to the facet of the grant.
    pub unwrap_key-attenuate :
        (powers : Powers) (prefix : List Text) (expires_at : Option ℕ) (caveats : List Text)
        (g : Grant) (k : Bytes)
        → attenuate c bodies parent me r eph (public c you) facet powers prefix expires_at caveats
          ≡ ok g
        → unwrap_key c g you ≡ ok k
        → Lowers k
    unfolding unwrap_key
    unwrap_key-attenuate powers prefix expires_at caveats g k h opens =
        let (wrapped, wraps, sig, same) = attenuate-rewrap powers prefix expires_at caveats g h in
        let opens' : unwrap_key c (link (given powers prefix expires_at caveats wrapped) sig parent)
              you
            ≡ ok k =
          ap (λ (x : Grant). unwrap_key c x you) (sym same) ∙ opens in
        let (w, there, unwraps) = >>=-eq-ok (ok_or wrapped no_key) _ opens' in
        rewrap-Lowers facet k wrapped w refl wraps (ok_or-eq-ok wrapped no_key there) unwraps

  -- What its receiver finds in a root grant is the content key that it was issued with, lowered.
  pub unwrap_key-issue_root :
      (steward key : Bytes) (epoch : ℕ) (powers : Powers) (prefix : List Text)
      (expires_at : Option ℕ) (caveats : List Text) (g : Grant) (k : Bytes)
      → IsKey key
      → r.steward ≡ c.verifying_key steward
      → issue_root c bodies r steward key eph epoch
          (public c you)
          facet
          powers
          prefix
          expires_at
          caveats
        ≡ ok g
      → unwrap_key c g you ≡ ok k
      → ((terms g).epoch ≡ epoch)
        × ((terms g).facet ≡ facet)
        × (lower_facet_key c key content facet r.id ≡ some k)
  unwrap_key-issue_root steward key epoch powers prefix expires_at caveats g k size stewards h
        opens =
      let (wrapped, sig, made, _, unwraps) =
        issue_root_lem c l bodies encodes r steward key eph size epoch you facet powers prefix
          expires_at caveats stewards 0 (IsAlive-zero expires_at) in
      let same : root
            (root_terms c l bodies encodes r steward key eph size epoch you facet powers prefix
              expires_at caveats stewards wrapped)
            sig
          ≡ g =
        ok-injective (sym made ∙ h) in
      (
        ap (λ (x : Grant). (terms x).epoch) (sym same),
        ap (λ (x : Grant). (terms x).facet) (sym same),
        ok_or-eq-ok _ no_key (sym unwraps ∙ ap (λ (x : Grant). unwrap_key c x you) same ∙ opens),
      )
