-- ===== src/Signpost/Longer.antt =====
-- What a move does to the trail of its signpost (repo.rs, point; main.rs, trail).
use close_common.Common.{
  ℕ, suc, ◌≡◌, ◌⊎◌, inr, sym, ◌∙◌, ap, subst, List, some, Result, ok, map_err, All,
}
use close_common.Common.Bytes.{Bytes, Text, AreBytes}
use close_common.Crypto.{Crypto, IsLawful, IsCodec, ReadsBack}
use close_common.Close.{CloseRecord}
use close_common.Cell.{CellDecl, Transition, head_of, next_prev, seal_transition}
use close_common.Cell.Journal.{check_link_iff}
use close_common.Store.{Store, set_ref}
use close_common.Store.Sound.{Collision, IsSound, set_ref-Collision}
use close_common.World.{Codecs, World, RepoError, cell, given_then, run_then, reads_then}
use close_common.World.Files.{load_close}
use close_common.World.Shown.{Shown, above, finished}
use close_common.Snapshot.{put_sealed, set_ref_in}
use close_common.Snapshot.Sealed.{at, unless, Keeps, put_sealed-Put}
use close_common.Signpost.{cell_decl, cell_head, cell_ref, decide_move}
use close_common.Signpost.Moves.{record_move, point}
use close_common.Signpost.Point.{point-Moves}
use close_common.Signpost.Tip.{cell_head-point}
use close_common.Signpost.Trail.{Step, moved, trail_from, trail}
use close_common.Signpost.Later.{IsSized, trail_from-Keeps}
use close_common.Signpost.Opened.{trail-head, trail-from}

module _ (c : Crypto) (k : Codecs) (w : World) (who : Text) (path : List Text)
    (slots : List (Text × (Bytes × Text))) (reason : Text) where
  -- A move puts an object and sets a ref.
  record_move-Keeps :
      (l : IsLawful c) (objects : IsCodec k.objects) (decl : CellDecl) (r : CloseRecord)
      (key : Bytes) (t : Transition) (done : Bytes × Transition) (w' : World)
      → IsSound c w.store
      → record_move c k decl r key t w ≡ (ok done, w')
      → Collision c w'.store ⊎ ((s' : Store) × (w' ≡ at w s') × Keeps c k w w.store s')
  unfolding record_move set_ref
  record_move-Keeps l objects decl r key t done w' sound h =
      let (o, _, h₁) =
        given_then (map_err cell (seal_transition c k.cards k.transitions r key r.epoch t)) _ w h in
      let (cipher, v, puts, h₂) = run_then (put_sealed c k o) _ w h₁ in
      unless (put_sealed-Put c k w l objects w.store o cipher v sound puts)
        (λ x.
          subst (λ (u : World). Collision c u.store)
            (ap (λ (y : Result RepoError (Bytes × Transition) × World). y.1) h₂)
            (set_ref-Collision c v.store (cell_ref c k decl) cipher x))
        (λ p.
          let grown = p.grown in
          inr (
            set_ref p.store (cell_ref c k decl) cipher,
            sym (ap (λ (x : Result RepoError (Bytes × Transition) × World). x.1) h₂)
                ∙ ap (set_ref_in c k (cell_ref c k decl) cipher) p.after,
            λ id b size there. grown.keeps id b size there,
          ))

  point-Keeps :
      (l : IsLawful c) (objects : IsCodec k.objects) (done : Bytes × Transition) (w' : World)
      → IsSound c w.store
      → point c k who path slots reason w ≡ (ok done, w')
      → Collision c w'.store ⊎ ((s' : Store) × (w' ≡ at w s') × Keeps c k w w.store s')
  unfolding point
  point-Keeps l objects done w' sound h =
      let ((decl, (r, (key, t))), _, h₁) =
        reads_then (λ w. decide_move c k w who path slots reason) _ w h in
      record_move-Keeps l objects decl r key t done w' sound h₁

  -- In a store where every object stands at its hash: after a move whose encoding reads back, the
  -- trail that whoever made it sees is the move, and below it all of the trail that they saw to its
  -- end before, unless bytes were put into the store at whose address other bytes of the same hash
  -- stand.
  pub trail-point :
      (l : IsLawful c) (small : (m : Bytes) → AreBytes (c.hash m)) (objects : IsCodec k.objects)
      (cipher : Bytes) (t : Transition) (w' : World) (fuel : ℕ)
      → IsSound c w.store
      → ReadsBack k.transitions t
      → point c k who path slots reason w ≡ (ok (cipher, t), w')
      → (trail c k w who path fuel).ending ≡ finished
      → All IsSized (trail c k w who path fuel).lines
      → Collision c w'.store
        ⊎ (trail c k w' who path (suc fuel) ≡ above (moved cipher t) (trail c k w who path fuel))
  unfolding cell_decl load_close
  trail-point l small objects cipher t w' fuel sound codec h ends sized =
      let (decl, r, key, m) = point-Moves c k w who path slots reason cipher t w' h in
      let from = trail-from c k w who decl path fuel r m.head m.stands m.loads m.points in
      let prev : t.body.prev ≡ next_prev (head_of c k.moves k.bodies m.head) =
        ((check_link_iff t (head_of c k.moves k.bodies m.head)).0 m.follows).0 in
      unless (point-Keeps l objects (cipher, t) w' sound h) (λ x. x)
        (λ (s', after, keeps).
          unless
            (cell_head-point c k w who path slots reason l small objects decl cipher t w' sound
              m.stands codec h)
            (λ x. x)
            (λ heads.
              let heads' =
                subst (λ (u : World). cell_head c k u who decl ≡ ok (some (cipher, t))) after
                  heads in
              inr (
                ap (λ (u : World). trail c k u who path (suc fuel)) after
                ∙ trail-head c k (at w s') who decl path fuel cipher t r m.stands m.loads heads'
                ∙ ap (above (moved cipher t)) (
                    ap (trail_from c k (at w s') who r fuel) prev
                    ∙ trail_from-Keeps c k w who w.store s' keeps r fuel _
                        (ap (λ (x : Shown Step). x.ending) (sym from) ∙ ends)
                        (subst (λ (x : Shown Step). All IsSized x.lines) from sized)
                    ∙ sym from))))
