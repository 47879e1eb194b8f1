-- ===== src/Sharing/Passed.antt =====
-- What someone who is not the steward hands on (main.rs, share).
use close_common.Common.{
  ℕ, suc, ◌≡◌, refl, sym, ◌∙◌, ap, subst, List, [], ◌∷◌, Option, some, Bool, true, false, not,
  &&-eq-true, if◌then◌else◌, Result, ok, err, map_err-ok, ok_or, ok_or-eq-ok, ok-injective,
  Bool-cases, inl, inr, some-injective,
}
use close_common.Common.Bytes.{Bytes, Text, ◌==◌, ==→eq}
use close_common.Crypto.{Crypto, ReadsBack}
use close_common.Facet
use close_common.Facet.{Facet, Powers, contains, encoding, Error}
use close_common.Close.{CloseRecord}
use close_common.Grant
use close_common.Grant.{Grant, Terms, Identity, PublicIdentity, terms, attenuate}
use close_common.Grant.Narrow.{IsNarrow}
use close_common.Grant.Attenuate.{attenuate-IsNarrow}
use close_common.Repo.{is_ok}
use close_common.World.{Codecs, World, RepoError, reads_then, run_then, core, nothing_to_share}
use close_common.World.Files.{load_close, identity, grants_for, governing_close, public_of}
use close_common.Snapshot.{join}
use close_common.Sharing.{ephemeral, add_grant}
use close_common.Sharing.Held.{Has, add_grant-Has}
use close_common.Sharing.Hand.{
  wide_enough, first_wide, tightened, expiry, share_as_holder, share_as_steward, hand_over, share,
}

module _ (c : Crypto) (k : Codecs) where
  -- The grant that a copy is made of: held, on the close, verifying now, and wide enough.
  first_wide-Has :
      (close : Bytes) (r : CloseRecord) (now : ℕ) (facet : Facet) (powers : Powers)
      (grants : List Grant) (mine : Grant)
      → first_wide c k close r now facet powers grants ≡ some mine
      → Has mine grants × (wide_enough c k close r now facet powers mine ≡ true)
  first_wide-Has close r now facet powers [] mine h = cc
  first_wide-Has close r now facet powers (g ∷ grants) mine h =
      elim (Bool-cases (wide_enough c k close r now facet powers g)) [
        | inl wide ↦
            let same : g ≡ mine = some-injective g mine (
              sym (
                ap
                  (λ (b : Bool).
                    if b then some g else first_wide c k close r now facet powers grants)
                  wide)
              ∙ h) in
            (
              (0, ap (λ (x : Grant). some x) same),
              subst (λ (x : Grant). wide_enough c k close r now facet powers x ≡ true) same wide,
            )
        | inr tight ↦
            let ((i, there), wide) = first_wide-Has close r now facet powers grants mine (
              sym (
                ap
                  (λ (b : Bool).
                    if b then some g else first_wide c k close r now facet powers grants)
                  tight)
              ∙ h) in
            ((suc i, there), wide)
      ]

  ok-of : (x : Result Error (Unit {0})) → is_ok x ≡ true → x ≡ ok tt
  ok-of (ok done) h = refl
  ok-of (err e) h = cc

  -- A narrower copy, of the facet and powers asked for, of a grant that the sharer holds.
  pub record Passes (w : World) (close : Bytes) (r : CloseRecord) (facet : Facet) (powers : Powers)
      (g : Grant) : Type 0 where
    pub mine : Grant
    pub held : Has mine (grants_for k w w.me)
    pub close_of : (terms mine).close ≡ close
    pub verifies : Grant.verify c k.bodies r w.clock mine ≡ ok tt
    pub narrow : IsNarrow (terms g) (terms mine)
    pub issuer : (terms g).issuer_sign ≡ (terms mine).holder.sign
    pub facet_of : (terms g).facet ≡ facet
    pub powers_of : (terms g).powers ≡ powers

  -- The call of `attenuate` that the copy comes from
  pub record Copies (w : World) (close : Bytes) (r : CloseRecord) (me : Identity)
      (holder : PublicIdentity) (facet : Facet) (powers : Powers) (expires : Option ℕ) (g : Grant)
      : Type 0 where
    pub mine : Grant
    pub held : Has mine (grants_for k w w.me)
    pub close_of : (terms mine).close ≡ close
    pub verifies : Grant.verify c k.bodies r w.clock mine ≡ ok tt
    pub eph : Bytes
    pub made :
        attenuate c k.bodies mine me r eph holder facet powers
          (terms mine).prefix
          (tightened expires (terms mine).expires_at)
          []
        ≡ ok g

  pub share_as_holder-Copies :
      (close : Bytes) (r : CloseRecord) (me : Identity) (holder : PublicIdentity) (facet : Facet)
      (powers : Powers) (expires : Option ℕ) (w : World) (g : Grant) (w' : World)
      → share_as_holder c k close r me holder facet powers expires w ≡ (ok g, w')
      → Copies w close r me holder facet powers expires g
  unfolding share_as_holder wide_enough
  share_as_holder-Copies close r me holder facet powers expires w g w' h =
      let (mine, finds, h₁) =
        reads_then
          (λ w.
            ok_or (first_wide c k close r w.clock facet powers (grants_for k w w.me))
              nothing_to_share)
          _ w h in
      let (eph, v, _, h₂) = run_then (ephemeral facet) _ w h₁ in
      let (held, wide) =
        first_wide-Has close r w.clock facet powers (grants_for k w w.me) mine
          (ok_or-eq-ok _ nothing_to_share finds) in
      let (on_close, more) = &&-eq-true ((terms mine).close == close) _ wide in
      let (_, more') = &&-eq-true (not (Facet.gt facet (terms mine).facet)) _ more in
      let (_, verified) = &&-eq-true (contains (terms mine).powers powers) _ more' in
      record {
        mine = mine;
        held = held;
        close_of = ==→eq (terms mine).close close on_close;
        verifies = ok-of (Grant.verify c k.bodies r w.clock mine) verified;
        eph = eph;
        made = map_err-ok core _ (ap (λ (x : Result RepoError Grant × World). x.0) h₂);
      }

  share_as_holder-Passes :
      (close : Bytes) (r : CloseRecord) (me : Identity) (holder : PublicIdentity) (facet : Facet)
      (powers : Powers) (expires : Option ℕ) (w : World) (g : Grant) (w' : World)
      → share_as_holder c k close r me holder facet powers expires w ≡ (ok g, w')
      → Passes w close r facet powers g
  share_as_holder-Passes close r me holder facet powers expires w g w' h =
      let p = share_as_holder-Copies close r me holder facet powers expires w g w' h in
      let (wrapped, sig, same, narrow, issuer) =
        attenuate-IsNarrow c k.bodies p.mine me r p.eph holder facet powers (terms p.mine).prefix
          (tightened expires (terms p.mine).expires_at) [] g p.made in
      record {
        mine = p.mine;
        held = p.held;
        close_of = p.close_of;
        verifies = p.verifies;
        narrow = subst (λ (x : Grant). IsNarrow (terms x) (terms p.mine)) (sym same) narrow;
        issuer = ap (λ (x : Grant). (terms x).issuer_sign) same ∙ issuer;
        facet_of = ap (λ (x : Grant). (terms x).facet) same;
        powers_of = ap (λ (x : Grant). (terms x).powers) same;
      }

  hand_over-Passes :
      (close : Bytes) (r : CloseRecord) (me : Identity) (holder : PublicIdentity) (with' : Text)
      (facet : Facet) (powers : Powers) (expires : Option ℕ) (w : World) (g : Grant) (w' : World)
      → ReadsBack k.grants g
      → (r.steward == c.verifying_key me.sign) ≡ false
      → hand_over c k close r me holder with' facet powers expires w ≡ (ok g, w')
      → Passes w close r facet powers g × Has g (grants_for k w' with')
  unfolding hand_over
  hand_over-Passes close r me holder with' facet powers expires w g w' codec other h =
      let (g₁, v, shares, h₁) =
        run_then
          (if r.steward == c.verifying_key me.sign
            then share_as_steward c k r me holder facet powers expires
            else share_as_holder c k close r me holder facet powers expires)
          _ w h in
      let (_, u, adds, done) = run_then (add_grant c k with' g₁) _ v h₁ in
      let held : share_as_holder c k close r me holder facet powers expires w ≡ (ok g₁, v) =
        sym (
          ap
            (λ (b : Bool).
              (if b
                  then share_as_steward c k r me holder facet powers expires
                  else share_as_holder c k close r me holder facet powers expires)
                w)
            other)
        ∙ shares in
      let same : g₁ ≡ g = ok-injective (ap (λ (x : Result RepoError Grant × World). x.0) done) in
      let after : u ≡ w' = ap (λ (x : Result RepoError Grant × World). x.1) done in
      (
        subst (Passes w close r facet powers) same
            (share_as_holder-Passes close r me holder facet powers expires w g₁ v held),
        subst (λ (x : Grant). Has x (grants_for k w' with')) same
            (subst (λ (x : World). Has g₁ (grants_for k x with')) after
              (add_grant-Has c k with' g₁ v (subst (ReadsBack k.grants) (sym same) codec) adds)),
      )

  -- Where its file reads back, what someone who is not the steward of the close shares is held by who it is shared with, and is a
  -- copy of the facet and the powers asked for of a grant that the sharer holds: that one is on the
  -- close and verifies now, and the copy is narrower in every dimension and issued by its holder.
  pub share-Passes :
      (path : List Text) (with' : Text) (facet : Facet) (powers : Powers) (days : Option ℕ)
      (w : World) (close : Bytes) (r : CloseRecord) (me : Identity) (g : Grant) (w' : World)
      → ReadsBack k.grants g
      → governing_close k w (join path) ≡ ok close
      → load_close k w close ≡ ok r
      → identity k w w.me ≡ ok me
      → (r.steward == c.verifying_key me.sign) ≡ false
      → share c k path with' facet powers days w ≡ (ok g, w')
      → Passes w close r facet powers g × Has g (grants_for k w' with')
  unfolding share
  share-Passes path with' facet powers days w close r me g w' codec governs loads known other h =
      let (close', governs', h₁) = reads_then (λ w. governing_close k w (join path)) _ w h in
      let (r₀, loads', h₂) = reads_then (λ w. load_close k w close') _ w h₁ in
      let (me₀, known', h₃) = reads_then (λ w. identity k w w.me) _ w h₂ in
      let (holder, _, h₄) = reads_then (λ w. public_of k w with') _ w h₃ in
      let same : r₀ ≡ r =
        ok-injective
          (sym loads' ∙ ap (load_close k w) (ok-injective (sym governs' ∙ governs)) ∙ loads) in
      let (p, has) =
        hand_over-Passes close' r₀ me₀ holder with' facet powers (expiry w.clock days) w g w' codec
          (ap (λ (x : CloseRecord). x.steward == c.verifying_key me₀.sign) same
            ∙ ap (λ (x : Identity). r.steward == c.verifying_key x.sign)
                (ok-injective (sym known' ∙ known))
            ∙ other)
          h₄ in
      (
        subst (λ (x : CloseRecord). Passes w close x facet powers g) same
            (subst (λ (x : Bytes). Passes w x r₀ facet powers g)
              (ok-injective (sym governs' ∙ governs)) p),
        has,
      )
