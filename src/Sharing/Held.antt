-- ===== src/Sharing/Held.antt =====
-- A grant that was added is one of its holder's (repo.rs, add_grant and grants_for).
use close_common.Common.{
  ℕ, suc, ◌≡◌, sym, ap, subst, List, [], ◌∷◌, some, Bool, if◌then◌else◌, Result, ok, err, map_err,
  map_err-ok, length, get_elem?,
}
use close_common.Common.Bytes.{Bytes, Text, ==_refl}
use close_common.Common.Map
use close_common.Common.Map.{Map}
use Prim.Native.Nat.{Ordering}
use close_common.Crypto.{Crypto, Codec, ReadsBack}
use close_common.Facet.{encoding}
use close_common.Grant.{Grant}
use close_common.World.{Codecs, World, RepoError, given_then, core}
use close_common.World.Files.{grants_for, grant_files}
use close_common.Sharing.{add_grant, grant_file}

-- The grant is one of the list.
abbrev pub Has : Grant → List Grant → Type 0
Has g grants = (i : ℕ) × (get_elem? grants i ≡ some g)

module _ (codec : Codec Grant) where
  file-Has :
      (name : Text) (bytes : Bytes) (files : Map Bytes) (g : Grant)
      → codec.from_bytes bytes ≡ ok g
      → Has g (grant_files codec ((name, bytes) ∷ files))
  file-Has name bytes files g h = (
    0,
    ap
        (λ (x : Result Text Grant).
          get_elem?
            (elim x as (λ x. List Grant) [
              | ok a ↦ a ∷ grant_files codec files
              | err e ↦ grant_files codec files
            ])
            0)
        h,
  )

  later-Has :
      (read : Result Text Grant) (rest : List Grant) (g : Grant)
      → Has g rest
      → Has g (elim read as (λ x. List Grant) [ ok x ↦ x ∷ rest | err e ↦ rest ])
  later-Has (ok x) rest g (i, there) = (suc i, there)
  later-Has (err e) rest g has = has

  placed-Has :
      (o : Ordering) (name bytes j b : Bytes) (files later : Map Bytes) (g : Grant)
      → codec.from_bytes bytes ≡ ok g
      → Has g (grant_files codec later)
      → Has g (
          grant_files codec (elim o as (λ x. Map Bytes) [
            | Ordering.lt ↦ (name, bytes) ∷ (j, b) ∷ files
            | Ordering.eq ↦ (name, bytes) ∷ files
            | Ordering.gt ↦ (j, b) ∷ later
          ]))
  placed-Has Ordering.lt name bytes j b files later g h has =
      file-Has name bytes ((j, b) ∷ files) g h
  placed-Has Ordering.eq name bytes j b files later g h has = file-Has name bytes files g h
  placed-Has Ordering.gt name bytes j b files later g h has =
      later-Has (codec.from_bytes b) (grant_files codec later) g has

  -- A grant that is written to a directory is read from it.
  insert-Has :
      (name : Text) (bytes : Bytes) (files : Map Bytes) (g : Grant)
      → codec.from_bytes bytes ≡ ok g
      → Has g (grant_files codec (Map.insert name bytes files))
  unfolding Map.insert
  insert-Has name bytes [] g h = file-Has name bytes [] g h
  insert-Has name bytes ((j, b) ∷ files) g h =
      placed-Has (Map.lex name j) name bytes j b files (Map.insert name bytes files) g h
        (insert-Has name bytes files g h)

module _ (c : Crypto) (k : Codecs) where
  pub add_grant-Has :
      (holder : Text) (g : Grant) (w : World) {w' : World}
      → ReadsBack k.grants g
      → add_grant c k holder g w ≡ (ok tt, w')
      → Has g (grants_for k w' holder)
  unfolding add_grant grants_for
  add_grant-Has holder g w {w'} codec h =
      let (bytes, encodes, done) =
        given_then (map_err (λ e. core (encoding e)) (k.grants.to_allocvec g)) _ w h in
      subst (λ (u : World). Has g (grant_files k.grants (u.grants holder)))
        (ap (λ (x : Result RepoError (Unit {0}) × World). x.1) done)
        (subst
          (λ (b : Bool). Has g (
            grant_files k.grants (
              if b
              then Map.insert (grant_file (length (w.grants holder))) bytes (w.grants holder)
              else w.grants holder)))
          (sym (==_refl holder))
          (insert-Has k.grants (grant_file (length (w.grants holder))) bytes (w.grants holder) g
            (codec bytes (map_err-ok (λ e. core (encoding e)) _ encodes))))
