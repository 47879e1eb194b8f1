-- ===== src/Signpost/Later.antt =====
-- The trail of a signpost in a later store (main.rs, trail).
use close_common.Common.{
  ℕ, zero, suc, ◌≡◌, inl, inr, refl, sym, ◌∙◌, ap, subst, Option, none, some, Result, ok, err,
  map_err, All, Result-cases,
}
use close_common.Common.Bytes.{Bytes, Text, IsKey}
use close_common.Crypto.{Crypto}
use close_common.Facet.{content}
use close_common.Close.{CloseRecord}
use close_common.Seal.{SealedObject}
use close_common.Cell.{Transition, open_transition}
use close_common.Store.{Store}
use close_common.World.{Codecs, World, RepoError, cell}
use close_common.World.Files.{load_sealed, key_for}
use close_common.World.Shown.{Shown, above, shown_then, ends-ok, finished}
use close_common.Snapshot.Sealed.{at, Keeps}
use close_common.History.Later.{load_sealed-Keeps}
use close_common.Signpost.Trail.{Step, moved, rest_sealed, walk_move, trail_from}

-- The ids that are shown have 32 bytes.
abbrev pub IsSized : Step → Type 0
IsSized (moved cipher t) = IsKey cipher
IsSized (rest_sealed cipher) = IsKey cipher

module _ (c : Crypto) (k : Codecs) (w : World) (who : Text) (s s' : Store)
    (keeps : Keeps c k w s s') (r : CloseRecord) where
  walk_move-Keeps :
      (next next' : Option Bytes → Shown Step) (cipher : Bytes) (o : SealedObject)
      (key : Option Bytes)
      → ((p : Option Bytes)
          → (next p).ending ≡ finished
          → All IsSized (next p).lines
          → next' p ≡ next p)
      → (walk_move c k (at w s) who next cipher o key).ending ≡ finished
      → All IsSized (walk_move c k (at w s) who next cipher o key).lines
      → walk_move c k (at w s') who next' cipher o key
        ≡ walk_move c k (at w s) who next cipher o key
  walk_move-Keeps next next' cipher o none later ends sized = refl
  walk_move-Keeps next next' cipher o (some key) later ends sized =
      opened (map_err cell (open_transition c k.cards k.transitions o key)) ends sized
    where
      opened :
          (x : Result RepoError Transition)
          → (shown_then x (λ t. above (moved cipher t) (next t.body.prev))).ending ≡ finished
          → All IsSized (shown_then x (λ t. above (moved cipher t) (next t.body.prev))).lines
          → shown_then x (λ t. above (moved cipher t) (next' t.body.prev))
            ≡ shown_then x (λ t. above (moved cipher t) (next t.body.prev))
      opened (err e) ends sized = refl
      opened (ok t) ends (size, rest) = ap (above (moved cipher t)) (later t.body.prev ends rest)

  walk_move-sized :
      (next : Option Bytes → Shown Step) (cipher : Bytes) (o : SealedObject) (key : Option Bytes)
      → (walk_move c k (at w s) who next cipher o key).ending ≡ finished
      → All IsSized (walk_move c k (at w s) who next cipher o key).lines
      → IsKey cipher
  walk_move-sized next cipher o none ends (size, rest) = size
  walk_move-sized next cipher o (some key) ends sized =
      opened (map_err cell (open_transition c k.cards k.transitions o key)) ends sized
    where
      opened :
          (x : Result RepoError Transition)
          → (shown_then x (λ t. above (moved cipher t) (next t.body.prev))).ending ≡ finished
          → All IsSized (shown_then x (λ t. above (moved cipher t) (next t.body.prev))).lines
          → IsKey cipher
      opened (err e) ends sized = absurd (cc ends)
      opened (ok t) ends (size, rest) = size

  -- A trail that came to its end comes to the same in a later store.
  pub trail_from-Keeps :
      (fuel : ℕ) (next : Option Bytes)
      → (trail_from c k (at w s) who r fuel next).ending ≡ finished
      → All IsSized (trail_from c k (at w s) who r fuel next).lines
      → trail_from c k (at w s') who r fuel next ≡ trail_from c k (at w s) who r fuel next
  unfolding trail_from key_for
  trail_from-Keeps zero none ends sized = refl
  trail_from-Keeps zero (some cipher) ends sized = refl
  trail_from-Keeps (suc fuel) none ends sized = refl
  trail_from-Keeps (suc fuel) (some cipher) ends sized =
      elim (Result-cases (load_sealed k (at w s) c cipher)) [
        | inl (o, loads) ↦
            let key = key_for k (at w s) c who r content o.epoch in
            let step = λ (u : World) (x : Result RepoError SealedObject). shown_then x (λ sealed.
              walk_move c k u who (trail_from c k u who r fuel) cipher sealed
                (key_for k u c who r content sealed.epoch)) in
            let same : step (at w s) (load_sealed k (at w s) c cipher) ≡ step (at w s) (ok o) =
              ap (step (at w s)) loads in
            let ends₁ = ap (λ (x : Shown Step). x.ending) (sym same) ∙ ends in
            let sized₁ = subst (λ (x : Shown Step). All IsSized x.lines) same sized in
            let size =
              walk_move-sized (trail_from c k (at w s) who r fuel) cipher o key ends₁ sized₁ in
            ap (step (at w s')) (load_sealed-Keeps c k w s s' keeps cipher o size loads)
            ∙ walk_move-Keeps (trail_from c k (at w s) who r fuel)
                (trail_from c k (at w s') who r fuel) cipher o key (trail_from-Keeps fuel) ends₁
                sized₁
            ∙ sym same
        | inr (e, gone) ↦ absurd (ends-ok (load_sealed k (at w s) c cipher) _ e gone ends)
      ]
