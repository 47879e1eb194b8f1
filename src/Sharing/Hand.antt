-- ===== src/Sharing/Hand.antt =====
-- close/src/main.rs: handing someone a grant (share).
use close_common.Common.{
  ℕ, ◌+◌, ◌*◌, ◌%◌, List, [], ◌∷◌, Option, none, some, Bool, not, ◌&&◌, leb, if◌then◌else◌, map_err,
  ok_or,
}
use close_common.Common.Bytes.{Bytes, Text, ◌==◌, u64_mod}
use close_common.Crypto.{Crypto}
use close_common.Facet
use close_common.Facet.{
  Facet, presence, shape, content, Powers, none_held, set, invoke, union, contains,
}
use close_common.Close.{CloseRecord}
use close_common.Grant
use close_common.Grant.{Grant, Identity, PublicIdentity, public, terms, issue_root, attenuate}
use close_common.Repo.{is_ok}
use close_common.World.{
  Codecs, Run, pure, reads, given, ◌>>=◌, ◌>>◌, core, no_current_key, nothing_to_share,
}
use close_common.World.Files.{
  load_close, governing_close, identity, public_of, grants_for, current_content_key,
}
use close_common.Snapshot.{join}
use close_common.Sharing.{ephemeral, add_grant}

-- The time that a number of days from now ends; a `u64` wraps.
abbrev pub expiry : ℕ → Option ℕ → Option ℕ
expiry now none = none
expiry now (some days) = some ((now + days * 86400 % u64_mod) % u64_mod)

abbrev pub tightened : Option ℕ → Option ℕ → Option ℕ
tightened (some e) (some p) = some (if leb e p then e else p)
tightened none p = p
tightened e none = e

module _ (c : Crypto) (k : Codecs) where
  -- Wide enough to share a facet and powers from
  unfoldable pub wide_enough : Bytes → CloseRecord → ℕ → Facet → Powers → Grant → Bool
  wide_enough close r now facet powers g =
      (terms g).close == close
      && (not (Facet.gt facet (terms g).facet)
          && (contains (terms g).powers powers && is_ok (Grant.verify c k.bodies r now g)))

  abbrev pub first_wide : Bytes → CloseRecord → ℕ → Facet → Powers → List Grant → Option Grant
  first_wide close r now facet powers [] = none
  first_wide close r now facet powers (g ∷ grants) =
      if wide_enough close r now facet powers g
      then some g
      else first_wide close r now facet powers grants

  -- What `share` hands over: a root grant by the steward, and else a narrower copy of a grant held
  unfoldable pub share_as_steward :
      CloseRecord → Identity → PublicIdentity → Facet → Powers → Option ℕ → Run Grant
  share_as_steward r me holder facet powers expires = do
    key ← reads (λ w. ok_or (current_content_key k w c w.me r) no_current_key)
    eph ← ephemeral facet
    given (
        map_err core
          (issue_root c k.bodies r me.sign key eph r.epoch holder facet powers [] expires []))

  unfoldable pub share_as_holder :
      Bytes → CloseRecord → Identity → PublicIdentity → Facet → Powers → Option ℕ → Run Grant
  unfolding wide_enough
  share_as_holder close r me holder facet powers expires = do
    mine ← reads (λ w.
        ok_or (first_wide close r w.clock facet powers (grants_for k w w.me)) nothing_to_share)
    eph ← ephemeral facet
    given (
        map_err core (
          attenuate c k.bodies mine me r eph holder facet powers (terms mine).prefix
            (tightened expires (terms mine).expires_at) []))

  -- The end of `share`: the grant, which is returned here, and its file
  unfoldable pub hand_over :
      Bytes → CloseRecord → Identity → PublicIdentity → Text → Facet → Powers → Option ℕ → Run Grant
  unfolding share_as_steward share_as_holder
  hand_over close r me holder with' facet powers expires = do
    g ←
        if r.steward == c.verifying_key me.sign
        then share_as_steward r me holder facet powers expires
        else share_as_holder close r me holder facet powers expires
    add_grant c k with' g
    pure g

  -- `share`
  unfoldable pub share : List Text → Text → Facet → Powers → Option ℕ → Run Grant
  unfolding hand_over
  share path with' facet powers days = do
    close ← reads (λ w. governing_close k w (join path))
    r ← reads (λ w. load_close k w close)
    me ← reads (λ w. identity k w w.me)
    holder ← reads (λ w. public_of k w with')
    λ w. hand_over close r me holder with' facet powers (expiry w.clock days) w
