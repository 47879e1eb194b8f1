-- ===== src/Snapshot/Entries.antt =====
-- One entry of a directory more, in what a snapshot shows (repo.rs, the loop of snap_dir).
use close_common.Common.{
  ◌≡◌, ◌⊎◌, inl, inr, refl, sym, ◌∙◌, ap, subst, Option, none, some, Bool, true, false, ◌&&◌,
  if◌then◌else◌, ok, Bool-cases, some-injective,
}
use close_common.Common.Bytes.{Text, ◌==◌}
use close_common.Common.Map
use close_common.Common.Map.{Map, get-insert}
use close_common.Crypto.{Crypto}
use close_common.Dag.{TreeEntry}
use close_common.Repo.{or_else}
use close_common.Store.{Store}
use close_common.Store.Sound.{Collision, IsSound}
use close_common.World.{Codecs, World, Run, ◌>>=◌, run_then}
use close_common.Snapshot.{Node, Listing, item, is_kept, add_entry}
use close_common.Snapshot.Sealed.{at, unless, Grown-trans}
use close_common.Snapshot.Shows.{child, lookup, Keeps-Shows, Snapped, SnappedAll}

or_else-split {ℓ} :
    {A : Type ℓ} (o p : Option A) {a : A}
    → or_else o p ≡ some a
    → (o ≡ some a) ⊎ ((o ≡ none) × (p ≡ some a))
or_else-split none p h = inr (refl, h)
or_else-split (some b) p h = inl h

or_else-gone {ℓ} : {A : Type ℓ} (o p : Option A) → or_else o p ≡ none → (o ≡ none) × (p ≡ none)
or_else-gone none p h = (refl, h)
or_else-gone (some b) p h = cc

here_not {ℓ κ} :
    {A : Type ℓ} {B : Type κ} (kept b : Bool) (x : A) (y : B) (z : Option B)
    → kept ≡ true
    → ◌≡◌ {A = Option A} (if kept && b then some x else none) none
    → (if b then some y else z) ≡ z
here_not false b x y z k h = cc
here_not true true x y z k h = cc
here_not true false x y z k h = refl

here_so {ℓ} :
    {A : Type ℓ} (kept b : Bool) (x y : A)
    → ◌≡◌ {A = Option A} (if kept && b then some x else none) (some y)
    → (kept ≡ true) × (b ≡ true) × (x ≡ y)
here_so false b x y h = cc
here_so true true x y h = (refl, refl, some-injective x y h)
here_so true false x y h = cc

module _ (c : Crypto) (k : Codecs) (w : World) where
  skipped-All :
      (name : Text) (node : Node) (rest : Listing) (s : Store) (m entries : Map TreeEntry)
      (v : World)
      → is_kept name ≡ false
      → SnappedAll c k w rest s m entries v
      → SnappedAll c k w (item name node rest) s m entries v
  skipped-All name node rest s m entries v skip a = record {
    store = a.store;
    after = a.after;
    grown = a.grown;
    others = λ other gone. a.others other (or_else-gone (child other rest) _ gone).0;
    shown = λ other n there. elim (or_else-split (child other rest) _ there) [
      | inl later ↦ a.shown other n later
      | inr (gone, here) ↦
          absurd (cc (skip, (here_so (is_kept name) (name == other) node n here).0))
    ];
  }

  added-All :
      (name : Text) (node : Node) (rest : Listing) (s : Store) (m entries : Map TreeEntry)
      (e : TreeEntry) (u v : World)
      → is_kept name ≡ true
      → (one : Snapped c k w node s e u)
      → SnappedAll c k w rest one.store (Map.insert name e m) entries v
      → SnappedAll c k w (item name node rest) s m entries v
  added-All name node rest s m entries e u v kept one a = record {
    store = a.store;
    after = a.after;
    grown = Grown-trans c k w s one.store a.store one.grown a.grown;
    others = λ other gone.
        let (none_later, not_here) = or_else-gone (child other rest) _ gone in
        a.others other none_later
        ∙ get-insert name other e m
        ∙ here_not (is_kept name) (name == other) node e _ kept not_here;
    shown = λ other n there. elim (or_else-split (child other rest) _ there) [
      | inl later ↦ a.shown other n later
      | inr (gone, here) ↦
          let (_, same, this) = here_so (is_kept name) (name == other) node n here in
          (
            e,
            a.others other gone
                ∙ get-insert name other e m
                ∙ ap (λ (b : Bool). if b then some e else Map.get other m) same,
            λ path b found.
                Keeps-Shows c k w one.store a.store path e.cipher b a.grown.keeps
                  (one.shows path b (ap (lookup path) this ∙ found)),
          )
    ];
  }

  pub item-All :
      (name : Text) (node : Node) (rest : Listing) (snap : Run TreeEntry)
      (later : Map TreeEntry → Run (Map TreeEntry)) (s : Store) (m entries : Map TreeEntry)
      (v : World)
      → ((m' : Map TreeEntry) (u : World)
          → later m' u ≡ (ok entries, v)
          → Collision c u.store
          → Collision c v.store)
      → ((e : TreeEntry) (u : World)
          → snap (at w s) ≡ (ok e, u)
          → Collision c u.store ⊎ Snapped c k w node s e u)
      → ((s' : Store) (m' : Map TreeEntry)
          → IsSound c s'
          → later m' (at w s') ≡ (ok entries, v)
          → Collision c v.store ⊎ SnappedAll c k w rest s' m' entries v)
      → IsSound c s
      → add_entry c k name snap later m (at w s) ≡ (ok entries, v)
      → Collision c v.store ⊎ SnappedAll c k w (item name node rest) s m entries v
  item-All name node rest snap later s m entries v onward one all sound h =
      elim (Bool-cases (is_kept name)) [
        | inl kept ↦
            let h₁ : (snap >>= λ e. later (Map.insert name e m)) (at w s) ≡ (ok entries, v) =
              ap
                (λ (b : Bool).
                  (if b then (snap >>= λ e. later (Map.insert name e m)) else later m) (at w s))
                (sym kept)
              ∙ h in
            let (e, u, stepped, h₂) = run_then snap _ (at w s) h₁ in
            unless (one e u stepped) (onward (Map.insert name e m) u h₂) (λ o.
              unless
                (all o.store (Map.insert name e m) o.grown.sound (
                  subst (λ (x : World). later (Map.insert name e m) x ≡ (ok entries, v)) o.after
                    h₂))
                (λ x. x) (λ a. inr (added-All name node rest s m entries e u v kept o a)))
        | inr skip ↦
            unless
              (all s m sound (
                ap
                  (λ (b : Bool).
                    (if b then (snap >>= λ e. later (Map.insert name e m)) else later m) (at w s))
                  (sym skip)
                ∙ h))
              (λ x. x) (λ a. inr (skipped-All name node rest s m entries v skip a))
      ]
