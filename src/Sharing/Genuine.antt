-- ===== src/Sharing/Genuine.antt =====
-- What is shared carries the key of the close (main.rs, share).
use close_common.Common.{
  ℕ, [], true, false, ◌≤◌, ◌≡◌, sym, ◌∙◌, ap, subst, List, Option, some, Bool, if◌then◌else◌,
  Result, ok, map_err-ok, ok_or, ok_or-eq-ok, ok-injective, Bool-cases, inl, inr, some-injective,
  arith, to_option,
}
use close_common.Common.Bytes.{Bytes, Text, IsKey, ◌==◌, ==→eq}
use close_common.Crypto.{Crypto, IsLawful, ReadsBack}
use close_common.Facet.{Facet, Powers, content}
use close_common.Close.{CloseRecord, lower_facet_key}
use close_common.Close.Epochs.{IsKeyed}
use close_common.Close.Keys.{lower_facet_key_twice}
use close_common.Grant.{Grant, Identity, PublicIdentity, public, terms, unwrap_key}
use close_common.Grant.Attenuate.{attenuate-IsNarrow}
use close_common.Grant.Carried.{unwrap_key-attenuate, unwrap_key-issue_root}
use close_common.Grant.Wrap.{Encodes, lower-IsKey}
use close_common.Repo.{facet_key_for}
use close_common.Repo.Genuine.{IsGenuine, facet_key_for-genuine}
use close_common.World.{Codecs, World, RepoError, reads_then, run_then, core, no_current_key}
use close_common.World.Files.{
  load_close, identity, grants_for, governing_close, public_of, current_content_key, key_for,
}
use close_common.Snapshot.{join}
use close_common.Snapshot.Sealed.{IsCoherent}
use close_common.Sharing.{ephemeral, add_grant}
use close_common.Sharing.Held.{Has, add_grant-Has}
use close_common.Sharing.Hand.{
  tightened, expiry, share_as_holder, share_as_steward, hand_over, share,
}
use close_common.Sharing.Passed.{share_as_holder-Copies}

module _ (c : Crypto) (l : IsLawful c) (k : Codecs) (encodes : Encodes k.bodies) (w : World)
    (coherent : IsCoherent c k w) (close : Bytes) (r : CloseRecord)
    (loads : load_close k w close ≡ ok r) (me you : Identity)
    (known : identity k w w.me ≡ ok me) where
  abbrev key : ℕ → Bytes
  key = coherent.keys close r loads

  keyed : IsKeyed c r key
  keyed = coherent.keyed close r loads

  -- The content key that the steward finds is the close's.
  pub current-key :
      (found : Bytes) → current_content_key k w c w.me r ≡ some found → key r.epoch ≡ found
  unfolding current_content_key key_for facet_key_for lower_facet_key
  current-key found h = some-injective _ found (
      facet_key_for-genuine c k.bodies r w.clock key keyed me (grants_for k w w.me)
        (coherent.genuine close r loads me known) r.epoch content found
        (ap
            (λ (x : Result RepoError Identity).
              facet_key_for c k.bodies r w.clock (to_option x) content r.epoch
                (grants_for k w w.me))
            (sym known)
          ∙ h))

  share_as_steward-IsGenuine :
      (facet : Facet) (powers : Powers) (expires : Option ℕ) (g : Grant) (v : World)
      → r.steward ≡ c.verifying_key me.sign
      → share_as_steward c k r me (public c you) facet powers expires w ≡ (ok g, v)
      → IsGenuine c k.bodies r w.clock key you g
  unfolding share_as_steward
  share_as_steward-IsGenuine facet powers expires g v stewards h x on_close verifies opens =
      let (found, finds, h₁) =
        reads_then (λ w. ok_or (current_content_key k w c w.me r) no_current_key) _ w h in
      let (eph, u, _, h₂) = run_then (ephemeral facet) _ w h₁ in
      let made = map_err-ok core _ (ap (λ (x : Result RepoError Grant × World). x.0) h₂) in
      let same : key r.epoch ≡ found = current-key found (ok_or-eq-ok _ no_current_key finds) in
      let size : IsKey found = subst IsKey same (keyed.sized r.epoch (omega arith)) in
      let (epoch, facet', carries) =
        unwrap_key-issue_root c l k.bodies encodes r you eph facet me.sign found r.epoch powers []
          expires [] g x size stewards made opens in
      (subst (λ (n : ℕ). n ≤ r.epoch) (sym epoch) (omega arith), rw (epoch, facet', same) carries)

  share_as_holder-IsGenuine :
      (facet : Facet) (powers : Powers) (expires : Option ℕ) (g : Grant) (v : World)
      → share_as_holder c k close r me (public c you) facet powers expires w ≡ (ok g, v)
      → IsGenuine c k.bodies r w.clock key you g
  share_as_holder-IsGenuine facet powers expires g v h x on_close verifies opens =
      let p = share_as_holder-Copies c k close r me (public c you) facet powers expires w g v h in
      let (i, there) = p.held in
      let genuine = λ (k' : Bytes) (u : unwrap_key c p.mine me ≡ ok k').
        coherent.genuine close r loads me known i p.mine there k'
          (p.close_of ∙ sym (coherent.filed close r loads)) p.verifies u in
      let (parent_key, held, lowers) =
        unwrap_key-attenuate c l k.bodies encodes r you p.eph facet p.mine me
          (λ k' u.
            lower-IsKey c l (key (terms p.mine).epoch) r.id content (terms p.mine).facet k'
              (keyed.sized (terms p.mine).epoch (genuine k' u).0) (genuine k' u).1)
          powers (terms p.mine).prefix (tightened expires (terms p.mine).expires_at) [] g x p.made
          opens in
      let (wrapped, sig, same, narrow, _) =
        attenuate-IsNarrow c k.bodies p.mine me r p.eph (public c you) facet powers
          (terms p.mine).prefix (tightened expires (terms p.mine).expires_at) [] g p.made in
      let (had, carries) = genuine parent_key held in
      let carried : lower_facet_key c (key (terms p.mine).epoch) content facet r.id ≡ some x =
        sym (
          lower_facet_key_twice c (key (terms p.mine).epoch) r.id content (terms p.mine).facet facet
            parent_key carries narrow.facet)
        ∙ lowers in
      (
        subst (λ (y : Grant). (terms y).epoch ≤ r.epoch) (sym same) had,
        subst
            (λ (y : Grant).
              lower_facet_key c (key (terms y).epoch) content (terms y).facet r.id ≡ some x)
            (sym same) carried,
      )

  hand_over-IsGenuine :
      (with' : Text) (facet : Facet) (powers : Powers) (expires : Option ℕ) (g : Grant) (w' : World)
      → ReadsBack k.grants g
      → hand_over c k close r me (public c you) with' facet powers expires w ≡ (ok g, w')
      → IsGenuine c k.bodies r w.clock key you g × Has g (grants_for k w' with')
  unfolding hand_over
  hand_over-IsGenuine with' facet powers expires g w' codec h =
      let (g₁, v, shares, h₁) =
        run_then
          (if r.steward == c.verifying_key me.sign
            then share_as_steward c k r me (public c you) facet powers expires
            else share_as_holder c k close r me (public c you) facet powers expires)
          _ w h in
      let (_, u, adds, done) = run_then (add_grant c k with' g₁) _ v h₁ in
      let same : g₁ ≡ g = ok-injective (ap (λ (x : Result RepoError Grant × World). x.0) done) in
      let after : u ≡ w' = ap (λ (x : Result RepoError Grant × World). x.1) done in
      let choose = λ (b : Bool) (is : (r.steward == c.verifying_key me.sign) ≡ b).
        sym (
          ap
            (λ (b : Bool).
              (if b
                  then share_as_steward c k r me (public c you) facet powers expires
                  else share_as_holder c k close r me (public c you) facet powers expires)
                w)
            is)
        ∙ shares in
      (
        subst (IsGenuine c k.bodies r w.clock key you) same
            (elim (Bool-cases (r.steward == c.verifying_key me.sign)) [
              | inl mine ↦
                  share_as_steward-IsGenuine facet powers expires g₁ v
                    (==→eq r.steward (c.verifying_key me.sign) mine) (choose true mine)
              | inr other ↦ share_as_holder-IsGenuine facet powers expires g₁ v (choose false other)
            ]),
        subst (λ (x : Grant). Has x (grants_for k w' with')) same
            (subst (λ (x : World). Has g₁ (grants_for k x with')) after
              (add_grant-Has c k with' g₁ v (subst (ReadsBack k.grants) (sym same) codec) adds)),
      )

module _ (c : Crypto) (l : IsLawful c) (k : Codecs) (encodes : Encodes k.bodies) (w : World)
    (coherent : IsCoherent c k w) where
  -- In a coherent state, and where its file reads back: what is shared with a person, whose public record
  -- is that of their identity, is a grant that they hold, and that is genuine on the close that governs
  -- the path: if it verifies, then the key that they unwrap from it is the close's content key of the
  -- grant's epoch, lowered to the grant's facet.
  pub share-IsGenuine :
      (path : List Text) (with' : Text) (facet : Facet) (powers : Powers) (days : Option ℕ)
      (you : Identity) (g : Grant) (w' : World)
      → ReadsBack k.grants g
      → public_of k w with' ≡ ok (public c you)
      → share c k path with' facet powers days w ≡ (ok g, w')
      → (close : Bytes) × (r : CloseRecord) × (loads : load_close k w close ≡ ok r)
        × (governing_close k w (join path) ≡ ok close)
        × IsGenuine c k.bodies r w.clock (coherent.keys close r loads) you g
        × Has g (grants_for k w' with')
  unfolding share
  share-IsGenuine path with' facet powers days you g w' codec published h =
      let (close, governs, h₁) = reads_then (λ w. governing_close k w (join path)) _ w h in
      let (r, loads, h₂) = reads_then (λ w. load_close k w close) _ w h₁ in
      let (me, known, h₃) = reads_then (λ w. identity k w w.me) _ w h₂ in
      let (holder, shown, h₄) = reads_then (λ w. public_of k w with') _ w h₃ in
      let same : holder ≡ public c you = ok-injective (sym shown ∙ published) in
      let expires = expiry w.clock days in
      let (genuine, has) =
        hand_over-IsGenuine c l k encodes w coherent close r loads me you known with' facet powers
          expires g w' codec
          (ap (λ (x : PublicIdentity). hand_over c k close r me x with' facet powers expires w)
              (sym same)
            ∙ h₄) in
      (close, r, loads, governs, genuine, has)
