-- ===== src/Look/Earned.antt =====
-- What is shown to someone was granted to them (main.rs, look and render_tree).
use close_common.Common.{
  ℕ, ◌≡◌, refl, sym, ◌∙◌, ap, List, Option, none, some, Result, ok, err, to_option, get_elem?,
  Option-cases, Result-cases, inl, inr,
}
use close_common.Common.Bytes.{Bytes, Text}
use close_common.Crypto.{Crypto}
use close_common.Facet.{Facet, presence, shape, content}
use close_common.Close.{CloseRecord}
use close_common.Grant.{Grant, Identity}
use close_common.Repo.{facet_key_for}
use close_common.Repo.Keys.{Grants, facet_key_for-Grants}
use close_common.Seal.{SealedObject, ShapeCard}
use close_common.Dag.{Tree}
use close_common.World.{Codecs, World, RepoError}
use close_common.World.Files.{
  load_close, open_tree, open_card, object_facet_key, key_for, identity, grants_for, and_then,
}
use close_common.Look.{
  Sight, missing, browsed, sealed_drawer, readable, sealed_file, labelled, file_sight, card_sight,
  key_sight, loaded_sight,
}

module _ (c : Crypto) (k : Codecs) (w : World) (who : Text) where
  -- The person holds a grant on the close that verifies now, of the facet or a higher one, whose key
  -- leads to the epoch.
  pub record Earns (close : Bytes) (facet : Facet) (epoch : ℕ) : Type 0 where
    pub r : CloseRecord
    pub loads : load_close k w close ≡ ok r
    pub me : Identity
    pub known : identity k w who ≡ ok me
    pub key : Bytes
    pub place : ℕ
    pub grant : Grant
    pub held : get_elem? (grants_for k w who) place ≡ some grant
    pub grants : Grants c k.bodies r w.clock me facet epoch key grant

  stranger :
      (r : CloseRecord) (facet : Facet) (epoch : ℕ) (grants : List Grant)
      → facet_key_for c k.bodies r w.clock none facet epoch grants ≡ none
  unfolding facet_key_for
  stranger r presence epoch grants = refl
  stranger r shape epoch grants = refl
  stranger r content epoch grants = refl

  key_for-Earns :
      (close : Bytes) (r : CloseRecord) (facet : Facet) (epoch : ℕ) (key : Bytes)
      → load_close k w close ≡ ok r
      → key_for k w c who r facet epoch ≡ some key
      → Earns close facet epoch
  unfolding key_for
  key_for-Earns close r facet epoch key loads h = elim (Result-cases (identity k w who)) [
    | inl (me, known) ↦
        let (i, g, there, has) =
          facet_key_for-Grants c k.bodies r w.clock me facet epoch key (grants_for k w who) (
            ap
              (λ (x : Result RepoError Identity).
                facet_key_for c k.bodies r w.clock (to_option x) facet epoch (grants_for k w who))
              (sym known)
            ∙ h) in
        record {
          r = r;
          loads = loads;
          me = me;
          known = known;
          key = key;
          place = i;
          grant = g;
          held = there;
          grants = has;
        }
    | inr (e, unknown) ↦ absurd (
        cc (
          h,
          ap
              (λ (x : Result RepoError Identity).
                facet_key_for c k.bodies r w.clock (to_option x) facet epoch (grants_for k w who))
              unknown,
          stranger r facet epoch (grants_for k w who),
        ))
  ]

  -- Whatever is opened with the key of an object's close
  opened-Earns {ℓ} :
      {A : Type ℓ} (o : SealedObject) (f : Facet) (open_with : Bytes → Option A) {a : A}
      → and_then (object_facet_key k w c who o f) open_with ≡ some a
      → Earns o.close f o.epoch
  opened-Earns o f open_with h = elim (Result-cases (load_close k w o.close)) [
    | inl (r, loads) ↦ elim (Option-cases (key_for k w c who r f o.epoch)) [
      | inl gone ↦ absurd (cc (h, loads, gone))
      | inr (key, found) ↦ key_for-Earns o.close r f o.epoch key loads found
    ]
    | inr (e, gone) ↦ absurd (cc (h, gone))
  ]

  open_card-Earns :
      (o : SealedObject) {card : ShapeCard}
      → open_card k w c who o ≡ some card
      → Earns o.close shape o.epoch
  unfolding open_card
  open_card-Earns o h = opened-Earns o shape _ h

  pub open_tree-Earns :
      (o : SealedObject) {t : Tree} → open_tree k w c who o ≡ some t → Earns o.close shape o.epoch
  unfolding open_tree
  open_tree-Earns o h = opened-Earns o shape _ h

  -- What is shown of an object, in a tree that names its close, is what the person was granted.
  abbrev pub Sees : Bytes → SealedObject → Sight → Type 0
  Sees close o browsed = Earns o.close shape o.epoch
  Sees close o readable = Earns close content o.epoch
  Sees close o (labelled card) = Earns o.close shape o.epoch × (open_card k w c who o ≡ some card)
  Sees close o missing = Unit
  Sees close o sealed_drawer = Unit
  Sees close o sealed_file = Unit

  card_sight-Sees :
      (close : Bytes) (o : SealedObject) (card : Option ShapeCard)
      → open_card k w c who o ≡ card
      → Sees close o (card_sight c k w who card)
  card_sight-Sees close o none h = tt
  card_sight-Sees close o (some card) h = (open_card-Earns o h, h)

  key_sight-Sees :
      (close : Bytes) (o : SealedObject) (card : Sight) (r : CloseRecord) (key : Option Bytes)
      → Sees close o card
      → load_close k w close ≡ ok r
      → key_for k w c who r content o.epoch ≡ key
      → Sees close o (key_sight c k w who card key)
  key_sight-Sees close o card r none seen loads h = seen
  key_sight-Sees close o card r (some key) seen loads h =
      key_for-Earns close r content o.epoch key loads h

  loaded_sight-Sees :
      (close : Bytes) (o : SealedObject) (card : Sight) (x : Result RepoError CloseRecord)
      → Sees close o card
      → load_close k w close ≡ x
      → Sees close o (loaded_sight c k w who card o x)
  loaded_sight-Sees close o card (err e) seen h = seen
  loaded_sight-Sees close o card (ok r) seen h =
      key_sight-Sees close o card r (key_for k w c who r content o.epoch) seen h refl

  pub file_sight-Sees :
      (close : Bytes) (o : SealedObject) → Sees close o (file_sight c k w who close o)
  file_sight-Sees close o =
      loaded_sight-Sees close o _ (load_close k w close)
        (card_sight-Sees close o (open_card k w c who o) refl) refl
