-- ===== src/Cli/Safe.antt =====
-- Steps that change no file where they fail (repo.rs, point; main.rs, share).
use close_common.Common.{ℕ, refl, List, [], Option, Result, ok_or, map_err, if◌then◌else◌}
use close_common.Common.Bytes.{Bytes, Text, ◌==◌}
use close_common.Crypto.{Crypto}
use close_common.Facet.{Facet, presence, shape, content, Powers}
use close_common.Close.{CloseRecord}
use close_common.Grant.{Grant, Identity, PublicIdentity}
use close_common.Seal.{SealedObject}
use close_common.World.{Codecs, World, RepoError, proceed, given, ◌>>=◌}
use close_common.World.{core, cell, no_current_key, nothing_to_share}
use close_common.World.Files.{
  current_content_key, grants_for, governing_close, load_close, identity, public_of,
}
use close_common.Facet
use close_common.Seal.{encode}
use close_common.Grant.{issue_root, attenuate, terms}
use close_common.Cell.{seal_transition}
use close_common.Signpost.{decide_move}
use close_common.Snapshot.{put_sealed, join}
use close_common.Sharing.{ephemeral, add_grant}
use close_common.Sharing.Hand.{
  tightened, expiry, first_wide, share, hand_over, share_as_steward, share_as_holder,
}
use close_common.Signpost.Moves.{point, record_move}
use close_common.Cli.Drawn.{
  Drawn, Drawn-refl, Still, Safe, proceed-Drawn, then-Safe, read-Safe, Safe-then, wrote, if-Still,
}

ephemeral-Still : (f : Facet) → Still (ephemeral f)
ephemeral-Still presence w = Drawn-refl w
ephemeral-Still shape w = (_, refl)
ephemeral-Still content w = (_, refl)

module _ (c : Crypto) (k : Codecs) where
  add_grant-Safe : (holder : Text) (g : Grant) → Safe (add_grant c k holder g)
  unfolding add_grant
  add_grant-Safe holder g w e w' h =
      read-Safe (λ _. map_err (λ e. core (Facet.encoding e)) (k.grants.to_allocvec g)) _ w e w' h
        (λ bytes h. absurd (wrote tt _ e w' h))

  put_sealed-Safe : (o : SealedObject) → Safe (put_sealed c k o)
  unfolding put_sealed
  put_sealed-Safe o w e w' h =
      read-Safe (λ _. map_err core (encode c k.objects o)) _ w e w' h
        (λ bytes h. absurd (wrote _ _ e w' h))

  issue-Still :
      {A : Type 0} (facet : Facet) (r : Bytes → Result RepoError A) (w : World)
      → Drawn w (proceed (λ eph. given (r eph)) (ephemeral facet w)).1
  issue-Still facet r w =
      proceed-Drawn (λ eph. given (r eph)) w (ephemeral facet w) (ephemeral-Still facet w)
        (λ eph v. Drawn-refl v)

  module _ (r : CloseRecord) (me : Identity) (holder : PublicIdentity) (facet : Facet)
      (powers : Powers) (expires : Option ℕ) where
    steward-Still : Still (share_as_steward c k r me holder facet powers expires)
    unfolding share_as_steward
    steward-Still w =
        proceed-Drawn
          (λ key. ephemeral facet >>= λ eph. given (
            map_err core
              (issue_root c k.bodies r me.sign key eph r.epoch holder facet powers [] expires [])))
          w (ok_or (current_content_key k w c w.me r) no_current_key, w) (Drawn-refl w)
          (λ key v. issue-Still facet _ v)

    holder-Still :
        (close : Bytes) → Still (share_as_holder c k close r me holder facet powers expires)
    unfolding share_as_holder
    holder-Still close w =
        proceed-Drawn
          (λ mine. ephemeral facet >>= λ eph. given (
            map_err core (
              attenuate c k.bodies mine me r eph holder facet powers (terms mine).prefix
                (tightened expires (terms mine).expires_at) [])))
          w
          (
            ok_or (first_wide c k close r w.clock facet powers (grants_for k w w.me))
                nothing_to_share,
            w,
          )
          (Drawn-refl w) (λ mine v. issue-Still facet _ v)

    hand_over-Safe :
        (close : Bytes) (name : Text)
        → Safe (hand_over c k close r me holder name facet powers expires)
    unfolding hand_over
    hand_over-Safe close name w e w' h =
        then-Safe
          (if r.steward == c.verifying_key me.sign
            then share_as_steward c k r me holder facet powers expires
            else share_as_holder c k close r me holder facet powers expires)
          _ w e w' h
          (if-Still (r.steward == c.verifying_key me.sign)
            (share_as_steward c k r me holder facet powers expires)
            (share_as_holder c k close r me holder facet powers expires) steward-Still
            (holder-Still close))
          (λ g v h.
            Safe-then (add_grant c k name g) _ v e w' h (add_grant-Safe name g)
              (λ done u h. wrote g u e w' h))

  pub share-Safe :
      (path : List Text) (name : Text) (facet : Facet) (powers : Powers) (days : Option ℕ)
      → Safe (share c k path name facet powers days)
  unfolding share
  share-Safe path name facet powers days w e w' h =
      read-Safe (λ w. governing_close k w (join path)) _ w e w' h
        (λ close h.
          read-Safe (λ w. load_close k w close) _ w e w' h
            (λ r h.
              read-Safe (λ w. identity k w w.me) _ w e w' h
                (λ me h.
                  read-Safe (λ w. public_of k w name) _ w e w' h
                    (λ holder h.
                      hand_over-Safe r me holder facet powers (expiry w.clock days) close name w e
                        w' h))))

  pub point-Safe :
      (who : Text) (path : List Text) (slots : List (Text × (Bytes × Text))) (reason : Text)
      → Safe (point c k who path slots reason)
  unfolding point record_move
  point-Safe who path slots reason w e w' h =
      read-Safe (λ w. decide_move c k w who path slots reason) _ w e w' h
        (λ decided h.
          let (decl, (r, (key, t))) = decided in
          read-Safe (λ _. map_err cell (seal_transition c k.cards k.transitions r key r.epoch t)) _
            w e w' h
            (λ sealed h.
              Safe-then (put_sealed c k sealed) _ w e w' h (put_sealed-Safe sealed)
                (λ cipher u h. wrote _ _ e w' h)))
