-- ===== src/Signpost/Tip.antt =====
-- Where a signpost points after a move (repo.rs, point and cell_head).
use close_common.Common.{
  ◌≡◌, ◌⊎◌, inr, sym, ◌∙◌, ap, subst, List, some, Result, ok, map_err, map_err-ok, ok-injective,
  >>=-eq-ok,
}
use close_common.Common.Bytes.{Bytes, Text, AreBytes, ==_refl}
use close_common.Crypto.{Crypto, IsLawful, IsCodec, ReadsBack}
use close_common.Facet.{content}
use close_common.Close.{CloseRecord}
use close_common.Seal.{SealedObject, transition, cipher_id}
use close_common.Seal.Confine.{seal-Opens}
use close_common.Cell.{
  CellDecl, Value, Transition, CellError, Head, make, verify, check_link, check_forward,
  seal_transition, open_transition, head_of, encoding,
}
use close_common.Cell
use close_common.Store.{Store, set_ref}
use close_common.Store.Sound.{Collision, IsSound, get_ref-set_ref, set_ref-Collision}
use close_common.World.{Codecs, World, RepoError, cell, reads_then, given_then, run_then}
use close_common.World.Files.{load_close, key_for, current_content_key, ref_of}
use close_common.Snapshot.{put_sealed, set_ref_in}
use close_common.Snapshot.Sealed.{at, unless, Holds, put_sealed-Put, load_sealed-Holds, Keeps-Holds}
use close_common.Signpost.{cell_decl, cell_head, cell_ref, decide_move}
use close_common.Signpost.Moves.{record_move, point}
use close_common.Signpost.Point.{decide_move-Moves}

module _ (c : Crypto) (k : Codecs) (w : World) (who : Text) (path : List Text)
    (slots : List (Text × (Bytes × Text))) (reason : Text) where
  module _ (l : IsLawful c) (small : (m : Bytes) → AreBytes (c.hash m))
      (objects : IsCodec k.objects) where
    -- What was sealed as a transition opens to it under the same key.
    open_transition-seal :
        (r : CloseRecord) (key : Bytes) (t : Transition) (o : SealedObject)
        → seal_transition c k.cards k.transitions r key r.epoch t ≡ ok o
        → ReadsBack k.transitions t
        → (o.epoch ≡ r.epoch) × (open_transition c k.cards k.transitions o key ≡ ok t)
    unfolding seal_transition open_transition
    open_transition-seal r key t o h codec =
        let (bytes, encodes, h₁) = >>=-eq-ok (map_err encoding (k.transitions.to_allocvec t)) _ h in
        let made =
          seal-Opens c k.cards l r key r.epoch transition _ bytes o (map_err-ok Cell.core _ h₁) in
        (made.same_epoch, rw (made.opens, codec bytes (map_err-ok encoding _ encodes)))

    head_after :
        (s : Store) (decl : CellDecl) (r : CloseRecord) (key cipher : Bytes) (t : Transition)
        (o : SealedObject)
        → IsSound c s
        → Holds c k w s cipher o
        → load_close k w decl.close ≡ ok r
        → key_for k w c who r content o.epoch ≡ some key
        → open_transition c k.cards k.transitions o key ≡ ok t
        → cell_head c k (at w (set_ref s (cell_ref c k decl) cipher)) who decl
          ≡ ok (some (cipher, t))
    unfolding cell_head ref_of set_ref load_close key_for cipher_id
    head_after s decl r key cipher t o sound holds loads finds opens =
        let named = cell_ref c k decl in
        let later =
          Keeps-Holds c k w s (set_ref s named cipher) cipher o (λ i b size there. there) holds in
        let bytes_of_id : AreBytes cipher =
          subst AreBytes (sound cipher holds.sized holds.envelope holds.there)
            (small holds.envelope) in
        rw (
          get_ref-set_ref s named named cipher holds.sized bytes_of_id,
          ==_refl named,
          load_sealed-Holds c k w (set_ref s named cipher) cipher o sound later,
          loads,
          finds,
          opens,
        )

    record_move-head :
        (decl : CellDecl) (r : CloseRecord) (key : Bytes) (t : Transition) (cipher : Bytes)
        (t' : Transition) (w' : World)
        → IsSound c w.store
        → load_close k w decl.close ≡ ok r
        → current_content_key k w c who r ≡ some key
        → ReadsBack k.transitions t'
        → record_move c k decl r key t w ≡ (ok (cipher, t'), w')
        → Collision c w'.store ⊎ (cell_head c k w' who decl ≡ ok (some (cipher, t')))
    unfolding record_move current_content_key
    record_move-head decl r key t cipher t' w' sound loads current codec h =
        let (o, seals, h₁) =
          given_then (map_err cell (seal_transition c k.cards k.transitions r key r.epoch t)) _ w
            h in
        let (put_at, v, puts, done) = run_then (put_sealed c k o) _ w h₁ in
        unless (put_sealed-Put c k w l objects w.store o put_at v sound puts)
          (λ x.
            subst (λ (u : World). Collision c u.store)
              (ap (λ (y : Result RepoError (Bytes × Transition) × World). y.1) done)
              (set_ref-Collision c v.store (cell_ref c k decl) put_at x))
          (λ p.
            let result =
              ok-injective (ap (λ (x : Result RepoError (Bytes × Transition) × World). x.0) done) in
            let (same_epoch, opens) = open_transition-seal r key t o (map_err-ok cell _ seals) (
              subst (ReadsBack k.transitions) (sym (ap (λ (x : Bytes × Transition). x.1) result))
                codec) in
            let grown = p.grown in
            let after : at w (set_ref p.store (cell_ref c k decl) put_at) ≡ w' =
              ap (set_ref_in c k (cell_ref c k decl) put_at) (sym p.after)
              ∙ ap (λ (x : Result RepoError (Bytes × Transition) × World). x.1) done in
            inr (
              subst (λ (u : World). cell_head c k u who decl ≡ ok (some (cipher, t'))) after
                (head_after p.store decl r key put_at t o grown.sound p.holds loads
                    (ap (key_for k w c who r content) same_epoch ∙ current) opens
                  ∙ ap (λ (x : Bytes × Transition). ok (some x)) result)))

    -- In a store where every object stands at its hash, after a move whose encoding reads back,
    -- whoever made it sees it as the head of the signpost, unless bytes were put into the store at
    -- whose address other bytes of the same hash stand.
    pub cell_head-point :
        (decl : CellDecl) (cipher : Bytes) (t : Transition) (w' : World)
        → IsSound c w.store
        → cell_decl c k w path ≡ ok decl
        → ReadsBack k.transitions t
        → point c k who path slots reason w ≡ (ok (cipher, t), w')
        → Collision c w'.store ⊎ (cell_head c k w' who decl ≡ ok (some (cipher, t)))
    unfolding point
    cell_head-point decl cipher t w' sound stands codec h =
        let ((decl', (r, (key, t'))), decides, h₁) =
          reads_then (λ w. decide_move c k w who path slots reason) _ w h in
        let m = decide_move-Moves c k w who path slots reason decl' r key t' decides in
        let same : decl' ≡ decl = ok-injective (sym m.stands ∙ stands) in
        subst
          (λ (d : CellDecl).
            Collision c w'.store ⊎ (cell_head c k w' who d ≡ ok (some (cipher, t))))
          same (record_move-head decl' r key t' cipher t w' sound m.loads m.current codec h₁)
