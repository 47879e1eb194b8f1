-- ===== src/Sharing/Relock.antt =====
-- close/src/main.rs: changing the lock of a close (rotate).
use close_common.Common.{
  ℕ, List, [], ◌∷◌, Option, none, some, not, ◌&&◌, if◌then◌else◌, Result, ok, map_err, ok_or,
}
use close_common.Common.Bytes.{Bytes, Text, ◌==◌}
use close_common.Crypto.{Crypto}
use close_common.Facet
use close_common.Facet.{
  Facet, presence, shape, content, Powers, none_held, set, invoke, union, contains,
}
use close_common.Close
use close_common.Close.{CloseRecord, Silhouette, open_outline, found}
use close_common.Grant
use close_common.Grant.{Grant, Identity, PublicIdentity, public, terms, issue_root, attenuate}
use close_common.Repo.{is_ok}
use close_common.World.{
  Codecs, World, Run, RepoError, pure, reads, given, draw, stop_if, ◌>>=◌, ◌>>◌, core,
  not_the_steward, no_current_key,
}
use close_common.World.Files.{
  load_close, governing_close, identity, public_of, grants_for, current_content_key,
}
use close_common.Snapshot.{join}
use close_common.Sharing.{ephemeral, add_grant, save_close, mentions}

-- Someone who keeps up with a change of the lock: what the grants are issued for again
pub record Keeper : Type 0 where
  pub name : Text
  pub facet : Facet
  pub powers : Powers
  pub expires : Option ℕ

module _ (c : Crypto) (k : Codecs) where
  abbrev pub held_on : Bytes → CloseRecord → ℕ → List Grant → List Grant
  held_on close r now [] = []
  held_on close r now (g ∷ grants) =
      let rest = held_on close r now grants in
      if (terms g).close == close && is_ok (Grant.verify c k.bodies r now g) then g ∷ rest else rest

  -- `max_by_key` over the facets: the last of the highest
  abbrev pub highest : Grant → List Grant → Grant
  highest best [] = best
  highest best (g ∷ grants) =
      highest (if Facet.gt (terms best).facet (terms g).facet then best else g) grants

  abbrev pub all_powers : Powers → List Grant → Powers
  all_powers powers [] = powers
  all_powers powers (g ∷ grants) = all_powers (union powers (terms g).powers) grants

  abbrev pub keeper_of : Text → List Grant → Option Keeper
  keeper_of name [] = none
  keeper_of name (g ∷ grants) =
      let best = highest g grants in
      some (record {
        name = name;
        facet = (terms best).facet;
        powers = all_powers none_held (g ∷ grants);
        expires = (terms best).expires_at;
      })

  abbrev pub with_keeper : Option Keeper → List Keeper → List Keeper
  with_keeper none keepers = keepers
  with_keeper (some x) keepers = x ∷ keepers

  -- Everyone who verifiably holds something now, but for those to leave out
  unfoldable pub keepers_of : World → Bytes → CloseRecord → List Text → List Text → List Keeper
  keepers_of w close r except [] = []
  keepers_of w close r except (name ∷ people) =
      let rest = keepers_of w close r except people in
      if mentions name except
      then rest
      else with_keeper (keeper_of name (held_on close r w.clock (grants_for k w name))) rest

  -- The grant of the new epoch for someone who keeps up
  abbrev pub issue_for :
      CloseRecord → Identity → Bytes → PublicIdentity → Bytes → Keeper → Result RepoError Grant
  issue_for r me key holder eph x =
      map_err core
        (issue_root c k.bodies r me.sign key eph r.epoch holder x.facet x.powers [] x.expires [])

  unfoldable pub reissue : CloseRecord → Identity → Bytes → List Keeper → Run (Unit {0})
  reissue r me key [] = pure tt
  reissue r me key (x ∷ keepers) = do
    holder ← reads (λ w. public_of k w x.name)
    eph ← ephemeral x.facet
    g ← given (issue_for r me key holder eph x)
    add_grant c k x.name g
    reissue r me key keepers

  -- The end of `rotate`, with the fresh bytes, once it is known who keeps up
  unfoldable pub relock : CloseRecord → Identity → Bytes → List Keeper → Bytes → Run CloseRecord
  unfolding reissue
  relock r me key keepers fresh = do
    changed ← given (map_err core (Close.rotate c r key fresh))
    save_close c k changed.0
    reissue changed.0 me changed.1 keepers
    pure changed.0

  -- `rotate`, which returns the changed record here
  unfoldable pub rotate : List Text → List Text → Run CloseRecord
  unfolding keepers_of relock
  rotate path except = do
    close ← reads (λ w. governing_close k w (join path))
    r ← reads (λ w. load_close k w close)
    me ← reads (λ w. identity k w w.me)
    stop_if (not (r.steward == c.verifying_key me.sign)) not_the_steward
    key ← reads (λ w. ok_or (current_content_key k w c w.me r) no_current_key)
    keepers ← λ w. (ok (keepers_of w close r except w.people), w)
    fresh ← draw
    relock r me key keepers fresh
