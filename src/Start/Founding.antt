-- ===== src/Start/Founding.antt =====
-- What bringing someone in and founding a close leave behind (repo.rs, new_identity and found_close).
use close_common.Common.{
  ℕ, suc, ◌≡◌, sym, ◌∙◌, ap, subst, [], none, Result, ok, map_err, map_err-ok, ok-injective,
}
use close_common.Common.Bytes.{Bytes, Text, codes, ==_refl}
use close_common.Crypto.{Crypto, ReadsBack}
use close_common.Facet
use close_common.Facet.{Error, content, union, set, invoke}
use close_common.Close.{CloseRecord, Silhouette, open_outline, found}
use close_common.Grant.{Grant, Identity, PublicIdentity, public, issue_root}
use close_common.World.{
  Codecs, World, RepoError, core, name_taken, unwritable, reads_then, given_then, run_then,
  stop_then,
}
use close_common.World.Files.{written, identity}
use close_common.Sharing.{
  new_identity, found_close, save_close, add_grant, save_files, with_grant, mentions, insert_name,
}
use close_common.Store.{write}
use close_common.Start.{fresh}

module _ (c : Crypto) (k : Codecs) where
  -- The person that `new_identity` makes, with the next two results of the random generator
  abbrev pub newcomer : World → Text → Identity
  newcomer w name = record { name = name; sign = w.random w.drawn; dh = w.random (suc w.drawn) }

  pub record Arrived (name : Text) (w w' : World) : Type 0 where
    pub secret : Bytes
    pub shown : Bytes
    pub encodes : k.secrets.to_allocvec (w.random w.drawn, w.random (suc w.drawn)) ≡ ok secret
    pub after : w' ≡ record w {
      people = insert_name name w.people;
      drawn = suc (suc w.drawn);
      secrets = write name secret w.secrets;
      publics = write name shown w.publics;
    }

  pub new_identity-Arrived :
      (name : Text) (w : World) {p : PublicIdentity} {w' : World}
      → new_identity c k name w ≡ (ok p, w')
      → Arrived name w w'
  unfolding new_identity
  new_identity-Arrived name w {w' = w'} h =
      let (_, h₂) = stop_then (mentions name w.people) name_taken _ w h in
      let v = record w { people = insert_name name w.people; drawn = suc (suc w.drawn) } in
      let (secret, encodes, h₃) =
        given_then (written (k.secrets.to_allocvec (w.random w.drawn, w.random (suc w.drawn)))) _ v
          h₂ in
      let (shown, _, done) =
        given_then (written (k.publics.to_allocvec (public c (newcomer w name)))) _
          (record v { secrets = write name secret w.secrets }) h₃ in
      record {
        secret = secret;
        shown = shown;
        encodes = map_err-ok (λ _. unwritable) _ encodes;
        after = sym (ap (λ (x : Result RepoError PublicIdentity × World). x.1) done);
      }

  -- The newcomer is known by the two secrets.
  pub Arrived-identity :
      (name : Text) (w w' : World)
      → ReadsBack k.secrets (w.random w.drawn, w.random (suc w.drawn))
      → Arrived name w w'
      → identity k w' name ≡ ok (newcomer w name)
  unfolding identity write
  Arrived-identity name w w' codec a =
      ap (λ (u : World). identity k u name) a.after ∙ rw (==_refl name, codec a.secret a.encodes)

  -- The close that `found_close` makes, with the next result of the random generator, and its key
  abbrev pub founding : World → Text → Silhouette → Identity → CloseRecord × Bytes
  founding w name silhouette me =
      found c name silhouette (c.verifying_key me.sign) (w.random w.drawn)

  abbrev pub founding_grant : World → Text → Silhouette → Identity → Result Error Grant
  founding_grant w name silhouette me =
      let (r, key) = founding w name silhouette me in
      issue_root c k.bodies r me.sign key (w.random (suc w.drawn)) 0 (public c me) content
        (union set invoke) [] none []

  abbrev pub first_person : Text → (ℕ → Bytes) → Identity
  first_person me random = newcomer (fresh me 0 random) me

  abbrev pub first_close : Text → (ℕ → Bytes) → CloseRecord × Bytes
  first_close me random =
      found c (codes "commons") open_outline (c.verifying_key (random 0)) (random 2)

  abbrev pub first_grant : Text → (ℕ → Bytes) → Result Error Grant
  first_grant me random =
      let (r, key) = first_close me random in
      let who = first_person me random in
      issue_root c k.bodies r who.sign key (random 3) 0 (public c who) content (union set invoke) []
        none []

  pub record Founded (steward name : Text) (silhouette : Silhouette) (me : Identity) (w w' : World)
      : Type 0 where
    pub file : Bytes
    pub grant_bytes : Bytes
    pub grant : Grant
    pub encodes : k.closes.to_allocvec (founding w name silhouette me).0 ≡ ok file
    pub issues : founding_grant w name silhouette me ≡ ok grant
    pub grant_encodes : k.grants.to_allocvec grant ≡ ok grant_bytes
    pub after :
        w'
        ≡ with_grant c k steward grant_bytes (
            save_files c k
              (founding w name silhouette me).0
              file
              (record w { drawn = suc (suc w.drawn) }))

  pub found_close-Founded :
      (steward name : Text) (silhouette : Silhouette) (me : Identity) (w : World) {id : Bytes}
      {w' : World}
      → identity k w steward ≡ ok me
      → found_close c k steward name silhouette w ≡ (ok id, w')
      → (id ≡ (founding w name silhouette me).0.id) × Founded steward name silhouette me w w'
  unfolding found_close save_close add_grant
  found_close-Founded steward name silhouette me w {id} {w'} known h =
      let (me', known', h₁) = reads_then (λ w. identity k w steward) _ w h in
      let same : me' ≡ me = ok-injective (sym known' ∙ known) in
      let v = record w { drawn = suc w.drawn } in
      let (r, key) = founding w name silhouette me' in
      let (_, u, saves, h₂) = run_then (save_close c k r) _ v h₁ in
      let (file, encodes, saved) = given_then (written (k.closes.to_allocvec r)) _ v saves in
      let u₁ = record u { drawn = suc u.drawn } in
      let (g, issues, h₃) =
        given_then
          (map_err core (
            issue_root c k.bodies r me'.sign key (u.random u.drawn) 0 (public c me') content
              (union set invoke) [] none []))
          _ u₁ h₂ in
      let (_, x, adds, done) = run_then (add_grant c k steward g) _ u₁ h₃ in
      let (bytes, added_bytes, added) =
        given_then (map_err (λ e. core (Facet.encoding e)) (k.grants.to_allocvec g)) _ u₁ adds in
      let from : save_files c k r file v ≡ u =
        ap (λ (x : Result RepoError (Unit {0}) × World). x.1) saved in
      let made : Founded steward name silhouette me' w w' = record {
        file = file;
        grant_bytes = bytes;
        grant = g;
        encodes = map_err-ok (λ _. unwritable) _ encodes;
        issues =
            ap
              (λ (u : World).
                issue_root c k.bodies r me'.sign key (u.random u.drawn) 0 (public c me') content
                  (union set invoke) [] none [])
              from
            ∙ map_err-ok core _ issues;
        grant_encodes = map_err-ok (λ e. core (Facet.encoding e)) _ added_bytes;
        after =
            sym (ap (λ (x : Result RepoError Bytes × World). x.1) done)
            ∙ sym (ap (λ (x : Result RepoError (Unit {0}) × World). x.1) added)
            ∙ sym (
                ap (λ (u : World). with_grant c k steward bytes (record u { drawn = suc u.drawn }))
                  from);
      } in
      (
        sym (ok-injective (ap (λ (x : Result RepoError Bytes × World). x.0) done))
            ∙ ap (λ (x : Identity). (founding w name silhouette x).0.id) same,
        subst (λ (x : Identity). Founded steward name silhouette x w w') same made,
      )
