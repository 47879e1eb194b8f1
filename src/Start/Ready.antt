-- ===== src/Start/Ready.antt =====
-- What a folder is once it was made a commons (repo.rs, init).
use close_common.Common.{
  ℕ, ◌≡◌, refl, sym, ◌∙◌, ap, subst, [], ◌∷◌, none, some, Result, ok, map_err-ok, arith, Bool-cases,
  inl, inr,
}
use close_common.Common.Bytes.{Bytes, Text, codes, ◌==◌, ==_refl, ==→eq}
use close_common.Crypto.{Crypto, ReadsBack}
use close_common.Facet.{content, union, set, invoke}
use close_common.Close.{CloseRecord, open_outline, found}
use close_common.Grant.{Grant, Identity, public, issue_root}
use close_common.World.{Codecs, World, RepoError, unwritable, given_then, run_then}
use close_common.World.Files.{written, identity, load_close, closemap, grants_for}
use close_common.Sharing.{new_identity, found_close, save_files, with_grant, insert_name}
use close_common.Store.{write}
use close_common.Id.{to_hex}
use close_common.Id.Hex.{to_hex-injective}
use close_common.Common.Map
use close_common.Start.{no_objects, fresh, start}
use close_common.Start.Founding.{
  new_identity-Arrived, Arrived-identity, founding, first_person, first_close, first_grant, Founded,
  found_close-Founded,
}

module _ (c : Crypto) (k : Codecs) where
  -- The state after `init`: the commons is the only close, and whoever made it holds its one grant.
  pub record Begun (me : Text) (who : Identity) (r : CloseRecord) (key eph : Bytes) (w : World)
      : Type 0 where
    pub stored : w.store ≡ no_objects
    pub named : w.me ≡ me
    pub commons : w.commons ≡ to_hex r.id
    pub known : identity k w me ≡ ok who
    pub loads : load_close k w r.id ≡ ok r
    pub alone : (id : Bytes) (r' : CloseRecord) → load_close k w id ≡ ok r' → (r ≡ r') × (r.id ≡ id)
    pub mapped : closemap k w ≡ ok (([], to_hex r.id) ∷ [])
    pub grant : Grant
    pub holds : grants_for k w me ≡ grant ∷ []
    pub issued :
        issue_root c k.bodies r who.sign key eph 0
          (public c who)
          content
          (union set invoke)
          []
          none
          []
        ≡ ok grant
    pub steward : r.steward ≡ c.verifying_key who.sign
    pub first : (r.epoch ≡ 0) × (r.chain ≡ [])

  -- The files that `init` writes are read back.
  pub record Kept (me : Text) (clock : ℕ) (random : ℕ → Bytes) : Type 0 where
    pub secrets : ReadsBack k.secrets (random 0, random 1)
    pub closes : ReadsBack k.closes (first_close c k me random).0
    pub grants : (g : Grant) → first_grant c k me random ≡ ok g → ReadsBack k.grants g
    pub closemap : ReadsBack k.closemap (([], to_hex (first_close c k me random).0.id) ∷ [])

  module _ (me : Text) (clock : ℕ) (random : ℕ → Bytes) (kept : Kept me clock random) where
    abbrev who : Identity
    who = first_person c k me random

    abbrev r : CloseRecord
    r = (first_close c k me random).0

    -- The state after `init`, with the files it wrote
    abbrev ready : (secret shown file map grant : Bytes) → World
    ready secret shown file map grant =
        let w₀ = fresh me clock random in
        record (with_grant c k me grant (
          save_files c k r file (record w₀ {
            people = insert_name me [];
            drawn = 4;
            secrets = write me secret w₀.secrets;
            publics = write me shown w₀.publics;
          }))) { commons = to_hex r.id; closemap = some map }

    ready-Begun :
        (secret shown file map bytes : Bytes) (g : Grant)
        → k.secrets.to_allocvec (random 0, random 1) ≡ ok secret
        → k.closes.to_allocvec r ≡ ok file
        → k.closemap.to_allocvec (([], to_hex r.id) ∷ []) ≡ ok map
        → first_grant c k me random ≡ ok g
        → k.grants.to_allocvec g ≡ ok bytes
        → Begun me who r
            (first_close c k me random).1
            (random 3)
            (ready secret shown file map bytes)
    unfolding load_close identity grants_for closemap write Map.insert found
    ready-Begun secret shown file map bytes g known filed mapped issues granted = record {
      stored = refl;
      named = refl;
      commons = refl;
      known = rw (==_refl me, kept.secrets secret known);
      loads = rw (==_refl (to_hex r.id), kept.closes file filed);
      alone = λ id r' h. elim (Bool-cases (to_hex r.id == to_hex id)) [
        | inl same ↦ (
          ground (arith, h, same, kept.closes file filed),
          to_hex-injective r.id id (==→eq (to_hex r.id) (to_hex id) same),
        )
        | inr apart ↦ absurd (ground (arith, h, apart))
      ];
      mapped = rw (kept.closemap map mapped);
      grant = g;
      holds = rw (==_refl me, kept.grants g issues bytes granted);
      issued = issues;
      steward = refl;
      first = (refl, refl);
    }

    pub start-Begun :
        (w : World)
        → start c k me (fresh me clock random) ≡ (ok tt, w)
        → Begun me who r (first_close c k me random).1 (random 3) w
    unfolding start
    start-Begun w h =
        let w₀ = fresh me clock random in
        let (p, u, arrives, h₁) = run_then (new_identity c k me) _ w₀ h in
        let a = new_identity-Arrived c k me w₀ arrives in
        let known = Arrived-identity c k me w₀ u kept.secrets a in
        let (id, v, founds, h₂) =
          run_then (found_close c k me (codes "commons") open_outline) _ u h₁ in
        let (named, f) =
          found_close-Founded c k me (codes "commons") open_outline who u known founds in
        let u₀ = record w₀ {
          people = insert_name me [];
          drawn = 2;
          secrets = write me a.secret w₀.secrets;
          publics = write me a.shown w₀.publics;
        } in
        let f₀ =
          subst (λ (x : World). Founded c k me (codes "commons") open_outline who x v) a.after f in
        let named₀ : id ≡ r.id =
          named
          ∙ ap (λ (x : World). (founding c k x (codes "commons") open_outline who).0.id) a.after in
        let (map, mapped, done) =
          given_then (written (k.closemap.to_allocvec (([], to_hex id) ∷ []))) _
            (record v { commons = to_hex id }) h₂ in
        subst (λ (x : World). Begun me who r (first_close c k me random).1 (random 3) x)
          (ap (λ (x : World). record x { commons = to_hex r.id; closemap = some map })
              (sym f₀.after)
            ∙ ap (λ (i : Bytes). record v { commons = to_hex i; closemap = some map }) (sym named₀)
            ∙ ap (λ (x : Result RepoError (Unit {0}) × World). x.1) done)
          (ready-Begun a.secret a.shown f₀.file map f₀.grant_bytes f₀.grant a.encodes f₀.encodes
            (ap (λ (i : Bytes). k.closemap.to_allocvec (([], to_hex i) ∷ [])) (sym named₀)
              ∙ map_err-ok (λ _. unwritable) _ mapped)
            f₀.issues f₀.grant_encodes)
