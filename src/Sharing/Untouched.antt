-- ===== src/Sharing/Untouched.antt =====
-- What a change of the lock leaves alone for whom it issues nothing (main.rs, rotate).
use close_common.Common.{
  ◌+◌, ◌%◌, ◌≡◌, refl, sym, ◌∙◌, ap, subst, List, [], ◌∷◌, false, Result, ok, map_err, map_err-ok,
  ok-injective, >>=-eq-ok, All,
}
use close_common.Common.Bytes.{Bytes, Text, u32_mod, ◌==◌}
use close_common.Crypto.{Crypto}
use close_common.Facet.{Facet, presence, shape, content, encoding}
use close_common.Close
use close_common.Close.{CloseRecord, chain_aad, facet_key, expect_key}
use close_common.Aead.{wrap_key}
use close_common.Grant.{Grant, Identity}
use close_common.World.{Codecs, World, RepoError, reads_then, given_then, run_then, core}
use close_common.World.Files.{written, public_of}
use close_common.Sharing.{ephemeral, add_grant, save_close}
use close_common.Sharing.Relock.{Keeper, issue_for, reissue, relock}

module _ (c : Crypto) (k : Codecs) where
  -- What a person finds keys with is the same in both states, but for the closes.
  pub record SameFor (name : Text) (w w' : World) : Type 0 where
    pub grants : w'.grants name ≡ w.grants name
    pub secrets : w'.secrets name ≡ w.secrets name
    pub clock : w'.clock ≡ w.clock

  same_refl : (name : Text) (w : World) → SameFor name w w
  same_refl name w = record { grants = refl; secrets = refl; clock = refl }

  same_trans :
      (name : Text) (u v w : World) → SameFor name u v → SameFor name v w → SameFor name u w
  same_trans name u v w a b = record {
    grants = b.grants ∙ a.grants;
    secrets = b.secrets ∙ a.secrets;
    clock = b.clock ∙ a.clock;
  }

  ephemeral-Same :
      (name : Text) (f : Facet) (w : World) {e : Bytes} {w' : World}
      → ephemeral f w ≡ (ok e, w')
      → SameFor name w w'
  ephemeral-Same name presence w h =
      subst (SameFor name w) (ap (λ (x : Result RepoError Bytes × World). x.1) h) (same_refl name w)
  ephemeral-Same name shape w h =
      subst (SameFor name w) (ap (λ (x : Result RepoError Bytes × World). x.1) h)
        (record { grants = refl; secrets = refl; clock = refl })
  ephemeral-Same name content w h =
      subst (SameFor name w) (ap (λ (x : Result RepoError Bytes × World). x.1) h)
        (record { grants = refl; secrets = refl; clock = refl })

  -- A grant that is added goes to its holder alone.
  add_grant-Same :
      (name holder : Text) (g : Grant) (w : World) {w' : World}
      → (name == holder) ≡ false
      → add_grant c k holder g w ≡ (ok tt, w')
      → SameFor name w w'
  unfolding add_grant
  add_grant-Same name holder g w apart h =
      let (bytes, _, done) =
        given_then (map_err (λ e. core (encoding e)) (k.grants.to_allocvec g)) _ w h in
      subst (SameFor name w) (ap (λ (x : Result RepoError (Unit {0}) × World). x.1) done)
        (record { grants = rw apart; secrets = refl; clock = refl })

  reissue-Same :
      (name : Text) (r : CloseRecord) (me : Identity) (key : Bytes) (keepers : List Keeper)
      (w : World) {w' : World}
      → All (λ (x : Keeper). (name == x.name) ≡ false) keepers
      → reissue c k r me key keepers w ≡ (ok tt, w')
      → SameFor name w w'
  unfolding reissue
  reissue-Same name r me key [] w out h =
      subst (SameFor name w) (ap (λ (x : Result RepoError (Unit {0}) × World). x.1) h)
        (same_refl name w)
  reissue-Same name r me key (x ∷ keepers) w {w'} (apart, out) h =
      let (holder, _, h₁) = reads_then (λ w. public_of k w x.name) _ w h in
      let (eph, v, drawn, h₂) = run_then (ephemeral x.facet) _ w h₁ in
      let (g, _, h₃) = given_then (issue_for c k r me key holder eph x) _ v h₂ in
      let (_, u, added, h₄) = run_then (add_grant c k x.name g) _ v h₃ in
      same_trans name w u w'
        (same_trans name w v u (ephemeral-Same name x.facet w drawn)
          (add_grant-Same name x.name g v apart added))
        (reissue-Same name r me key keepers u out h₄)

  pub rotate-epoch :
      (r : CloseRecord) (key fresh : Bytes) {r' : CloseRecord} {new : Bytes}
      → Close.rotate c r key fresh ≡ ok (r', new)
      → (r'.epoch ≡ (r.epoch + 1) % u32_mod) × (r'.id ≡ r.id)
  unfolding Close.rotate
  rotate-epoch r key fresh h =
      let (_, _, h₁) = >>=-eq-ok (wrap_key c _ _ key) _ h in
      let (_, _, h₂) = >>=-eq-ok (wrap_key c _ _ _) _ h₁ in
      let same = ok-injective h₂ in
      (
        ap (λ (x : CloseRecord × Bytes). x.0.epoch) (sym same),
        ap (λ (x : CloseRecord × Bytes). x.0.id) (sym same),
      )

  save_close-Same :
      (name : Text) (r : CloseRecord) (w : World) {w' : World}
      → save_close c k r w ≡ (ok tt, w')
      → SameFor name w w'
  unfolding save_close
  save_close-Same name r w h =
      let (bytes, _, done) = given_then (written (k.closes.to_allocvec r)) _ w h in
      subst (SameFor name w) (ap (λ (x : Result RepoError (Unit {0}) × World). x.1) done)
        (record { grants = refl; secrets = refl; clock = refl })

  pub relock-Same :
      (name : Text) (r : CloseRecord) (me : Identity) (key : Bytes) (keepers : List Keeper)
      (fresh : Bytes) (v : World) (r' : CloseRecord) (w' : World)
      → All (λ (x : Keeper). (name == x.name) ≡ false) keepers
      → relock c k r me key keepers fresh v ≡ (ok r', w')
      → SameFor name v w' × (r'.epoch ≡ (r.epoch + 1) % u32_mod) × (r'.id ≡ r.id)
  unfolding relock
  relock-Same name r me key keepers fresh v r' w' out h =
      let (changed, rotates, h₂) = given_then (map_err core (Close.rotate c r key fresh)) _ v h in
      let (_, u, saves, h₃) = run_then (save_close c k changed.0) _ v h₂ in
      let (_, x, reissues, done) = run_then (reissue c k changed.0 me changed.1 keepers) _ u h₃ in
      let same = ok-injective (ap (λ (x : Result RepoError CloseRecord × World). x.0) done) in
      let after = ap (λ (x : Result RepoError CloseRecord × World). x.1) done in
      let (counts, keeps) = rotate-epoch r key fresh (map_err-ok core _ rotates) in
      (
        subst (SameFor name v) after (
            same_trans name v u x (save_close-Same name changed.0 v saves)
              (reissue-Same name changed.0 me changed.1 keepers u out reissues)),
        ap (λ (x : CloseRecord). x.epoch) (sym same) ∙ counts,
        ap (λ (x : CloseRecord). x.id) (sym same) ∙ keeps,
      )
