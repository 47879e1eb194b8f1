-- ===== src/History/Depth.antt =====
-- How much fuel the loops of history and trail take (main.rs).
use close_common.Common.{
  ℕ, zero, suc, ◌<◌, ◌≡◌, ◌≢◌, refl, ap, sym, ◌∙◌, List, [], ◌∷◌, Option, none, some, Result, ok,
  err, map_err, map_err-ok, some-injective, ok-injective, >>=-eq-ok, arith,
}
use close_common.Common.Bytes.{Bytes, Text, codes}
use close_common.Crypto.{Crypto}
use close_common.Facet.{content}
use close_common.Close.{CloseRecord}
use close_common.Seal.{SealedObject}
use close_common.Dag.{Commit}
use close_common.Cell.{Transition, open_transition}
use close_common.World.{Codecs, World, RepoError, cell}
use close_common.World.Files.{load_sealed, key_for, ref_of}
use close_common.World.Shown.{Shown, shown_then, unfinished}
use close_common.Browse.{commit_at, commit_of, head_commit}
use close_common.History.{walk_back, before, history, from_head}
use close_common.Signpost.Trail.{trail_from, walk_move}

-- What is shown comes to an end, by itself or by an error.
abbrev pub Ends : {A : Type 0} → Shown A → Type 0
Ends s = s.ending ≢ unfinished

shown_then-Ends {ℓ} :
    {A : Type 0} {B : Type ℓ} (x : Result RepoError B) (rest : B → Shown A)
    → ((b : B) → x ≡ ok b → Ends (rest b))
    → Ends (shown_then x rest)
shown_then-Ends (ok b) rest h = h b refl
shown_then-Ends (err e) rest h = λ p. cc

module _ (c : Crypto) (k : Codecs) (w : World) (who : Text) (rank : Bytes → ℕ) where
  -- A commit's first parent has a lower rank, where someone opens the commit.
  abbrev pub ParentsFall : Type 0
  ParentsFall =
      (id parent : Bytes) (m : Commit) (older : List Bytes)
      → commit_at c k w who id ≡ ok m
      → m.parents ≡ parent ∷ older
      → rank parent < rank id

  before-Ends :
      (fuel : ℕ) (parents : List Bytes)
      → ((parent : Bytes) (older : List Bytes) (m : Commit)
          → parents ≡ parent ∷ older
          → commit_at c k w who parent ≡ ok m
          → Ends (walk_back c k w who fuel parent m))
      → Ends (before (commit_at c k w who) (walk_back c k w who fuel) parents)
  before-Ends fuel [] h = λ p. cc
  before-Ends fuel (parent ∷ older) h =
      shown_then-Ends (commit_at c k w who parent) _ (λ m reads. h parent older m refl reads)

  walk_back-Ends :
      (fuel : ℕ) (id : Bytes) (m : Commit)
      → ParentsFall
      → commit_at c k w who id ≡ ok m
      → rank id < fuel
      → Ends (walk_back c k w who fuel id m)
  unfolding walk_back
  walk_back-Ends zero id m falls reads low = absurd (omega (arith, low))
  walk_back-Ends (suc fuel) id m falls reads low =
      before-Ends fuel m.parents (λ parent older m' names reads'.
        walk_back-Ends fuel parent m' falls reads'
          (omega (arith, low, falls id parent m older reads names)))

  head-reads :
      (x : Option Bytes) (id : Bytes) (m : Commit)
      → commit_of c k w who x ≡ ok (some (id, m))
      → (x ≡ some id) × (commit_at c k w who id ≡ ok m)
  head-reads none id m h = cc
  head-reads (some i) id m h =
      let (m', reads, same) = >>=-eq-ok (commit_at c k w who i) _ h in
      let both = some-injective (i, m') (id, m) (ok-injective same) in
      (
        ap (λ (x : Bytes × Commit). some x.0) both,
        ap (commit_at c k w who) (sym (ap (λ (x : Bytes × Commit). x.0) both))
            ∙ reads
            ∙ ap (λ (x : Bytes × Commit). ok x.1) both,
      )

  from_head-Ends :
      (fuel : ℕ) (head : Option (Bytes × Commit))
      → ((id : Bytes) (m : Commit) → head ≡ some (id, m) → Ends (walk_back c k w who fuel id m))
      → Ends (from_head c k w who fuel head)
  from_head-Ends fuel none h = λ p. cc
  from_head-Ends fuel (some (id, m)) h = h id m refl

  -- Where every commit that is opened has a higher rank than its first parent, the history from a head of
  -- a rank below the fuel is shown to its end, or to the error of a commit that cannot be read: it never
  -- runs out of fuel.
  pub history_total :
      (fuel : ℕ)
      → ParentsFall
      → ((id : Bytes) → ref_of k w (codes "main") ≡ ok (some id) → rank id < fuel)
      → Ends (history c k w who fuel)
  unfolding history head_commit
  history_total fuel falls low =
      shown_then-Ends (head_commit c k w who) (from_head c k w who fuel) (λ head opens.
        from_head-Ends fuel head (λ id m is.
          let (x, named, reads) =
            >>=-eq-ok (ref_of k w (codes "main")) _
              (opens ∙ ap (λ (h : Option (Bytes × Commit)). ok h) is) in
          let (at, reads') = head-reads x id m reads in
          walk_back-Ends fuel id m falls reads'
            (low id (named ∙ ap (λ (y : Option Bytes). ok y) at))))

  -- A move's predecessor has a lower rank.
  abbrev pub MovesFall : Type 0
  MovesFall =
      (id prev key : Bytes) (o : SealedObject) (t : Transition)
      → load_sealed k w c id ≡ ok o
      → open_transition c k.cards k.transitions o key ≡ ok t
      → t.body.prev ≡ some prev
      → rank prev < rank id

  -- Where every move that is opened has a higher rank than the one before it, the trail from a tip of a
  -- rank below the fuel is shown to its end.
  pub trail_from_total :
      (r : CloseRecord) (fuel : ℕ) (next : Option Bytes)
      → MovesFall
      → ((id : Bytes) → next ≡ some id → rank id < fuel)
      → Ends (trail_from c k w who r fuel next)
  unfolding trail_from
  trail_from_total r zero none falls low = λ p. cc
  trail_from_total r zero (some id) falls low = absurd (omega (arith, low id refl))
  trail_from_total r (suc fuel) none falls low = λ p. cc
  trail_from_total r (suc fuel) (some id) falls low =
      shown_then-Ends (load_sealed k w c id) _ (λ o loads.
        opened (λ prev. trail_from_total r fuel prev falls) o loads
          (key_for k w c who r content o.epoch))
    where
      opened :
          ((prev : Option Bytes)
            → ((i : Bytes) → prev ≡ some i → rank i < fuel)
            → Ends (trail_from c k w who r fuel prev))
          → (o : SealedObject) → load_sealed k w c id ≡ ok o
          → (key : Option Bytes) → Ends (walk_move c k w who (trail_from c k w who r fuel) id o key)
      opened later o loads none = λ p. cc
      opened later o loads (some key) =
          shown_then-Ends (map_err cell (open_transition c k.cards k.transitions o key)) _
            (λ t opens. later t.body.prev (λ prev before.
              omega
                (arith, low id refl, falls id prev key o t loads (map_err-ok cell _ opens) before)))
