-- ===== src/History/Later.antt =====
-- What was read of a store is read of every later one (repo.rs, load_sealed and commit_at; main.rs,
-- history).
use close_common.Common.{
  ℕ, zero, suc, ◌≡◌, refl, sym, ◌∙◌, ap, subst, List, [], ◌∷◌, Option, none, some, Result, ok,
  ok_or, map_err, Bool-cases, inl, inr, >>=-eq-ok, Result-cases, All, ◌>>=◌, arith,
}
use close_common.Common.Bytes.{Bytes, Text, IsKey, ◌==◌}
use close_common.Crypto.{Crypto}
use close_common.Dag.{Commit}
use close_common.Facet
use close_common.Seal
use close_common.Seal.{SealedObject, cipher_id}
use close_common.Store.{Store, get, checked, object_path}
use close_common.World.{Codecs, World, RepoError, core, sealed_history}
use close_common.World.Files.{got, load_sealed, open_blob, load_close, key_for}
use close_common.World.Shown.{Shown, shown_then, above, ends-ok, finished}
use close_common.Snapshot.Sealed.{at, Keeps}
use close_common.Browse.{commit_at}
use close_common.History.{walk_back, before}

module _ (c : Crypto) (k : Codecs) (w : World) (s s' : Store) (keeps : Keeps c k w s s') where
  got-checked :
      (id bytes : Bytes) (o : Option Bytes) → got (checked c id o) ≡ ok bytes → o ≡ some bytes
  got-checked id bytes none h = cc
  got-checked id bytes (some b) h = elim (Bool-cases (cipher_id c b == id)) [
    | inl same ↦ ground (arith, h, same)
    | inr apart ↦ absurd (ground (arith, h, apart))
  ]

  -- An object that loads, loads from a later store.
  pub load_sealed-Keeps :
      (id : Bytes) (o : SealedObject)
      → IsKey id
      → load_sealed k (at w s) c id ≡ ok o
      → load_sealed k (at w s') c id ≡ ok o
  unfolding load_sealed get
  load_sealed-Keeps id o size h =
      let (bytes, there, _) = >>=-eq-ok (got (get c s id)) _ h in
      let old = got-checked id bytes (s.objects (object_path id)) there in
      ap
        (λ (x : Option Bytes). do
          bytes ← got (checked c id x)
          map_err core (Seal.decode c k.objects bytes))
        (keeps id bytes size old ∙ sym old)
      ∙ h

  -- So does a commit that a person opens.
  pub commit_at-Keeps :
      (who : Text) (id : Bytes) (m : Commit)
      → IsKey id
      → commit_at c k (at w s) who id ≡ ok m
      → commit_at c k (at w s') who id ≡ ok m
  unfolding commit_at open_blob load_close key_for
  commit_at-Keeps who id m size h =
      let (o, loads, _) = >>=-eq-ok (load_sealed k (at w s) c id) _ h in
      ap
        (λ (x : Result RepoError SealedObject). do
          sealed ← x
          bytes ← ok_or (open_blob k (at w s) c who sealed) sealed_history
          map_err (λ e. core (Facet.encoding e)) (k.commits.from_bytes bytes))
        (load_sealed-Keeps id o size loads ∙ sym loads)
      ∙ h

-- The ids that are shown have 32 bytes.
abbrev pub AreSized : List (Bytes × Commit) → Type 0
AreSized = All (λ x. IsKey x.0)

before-Keeps :
    (read read' : Bytes → Result RepoError Commit)
    (next next' : Bytes → Commit → Shown (Bytes × Commit)) (parents : List Bytes)
    → ((p : Bytes) (m : Commit) → IsKey p → read p ≡ ok m → read' p ≡ ok m)
    → ((p : Bytes) (m : Commit)
        → (next p m).ending ≡ finished
        → AreSized (next p m).lines
        → IsKey p × (next' p m ≡ next p m))
    → (before read next parents).ending ≡ finished
    → AreSized (before read next parents).lines
    → before read' next' parents ≡ before read next parents
before-Keeps read read' next next' [] reads later ends sized = refl
before-Keeps read read' next next' (p ∷ parents) reads later ends sized =
    elim (Result-cases (read p)) [
      | inl (m, r) ↦
          let same = λ (x : Result RepoError Commit). shown_then x (next p) in
          let (size, rest) =
            later p m (ap (λ (x : Shown (Bytes × Commit)). x.ending) (sym (ap same r)) ∙ ends)
              (subst (λ (x : Shown (Bytes × Commit)). AreSized x.lines) (ap same r) sized) in
          ap (λ (x : Result RepoError Commit). shown_then x (next' p)) (reads p m size r)
          ∙ rest
          ∙ sym (ap same r)
      | inr (e, r) ↦ absurd (ends-ok (read p) (next p) e r ends)
    ]

module _ (c : Crypto) (k : Codecs) (w : World) (who : Text) (s s' : Store)
    (keeps : Keeps c k w s s') where
  -- A walk that came to its end comes to the same in a later store.
  pub walk_back-Keeps :
      (fuel : ℕ) (id : Bytes) (m : Commit)
      → (walk_back c k (at w s) who fuel id m).ending ≡ finished
      → AreSized (walk_back c k (at w s) who fuel id m).lines
      → IsKey id × (walk_back c k (at w s') who fuel id m ≡ walk_back c k (at w s) who fuel id m)
  unfolding walk_back
  walk_back-Keeps zero id m ends sized = absurd (cc ends)
  walk_back-Keeps (suc fuel) id m ends (size, rest) = (
    size,
    ap (above (id, m)) (
        before-Keeps (commit_at c k (at w s) who) (commit_at c k (at w s') who)
          (walk_back c k (at w s) who fuel) (walk_back c k (at w s') who fuel) m.parents
          (λ p m'. commit_at-Keeps c k w s s' keeps who p m') (walk_back-Keeps fuel) ends rest),
  )
