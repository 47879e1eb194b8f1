-- ===== src/Sharing.antt =====
-- close/src/repo.rs and main.rs: people, closes and the files of grants: bringing someone in
-- (new_identity), founding a close and locking a drawer (protect).
pub mod Hand
pub mod Relock
pub mod Held
pub mod Passed
pub mod Genuine
pub mod Rekeyed
pub mod Untouched
pub mod Lockout
use close_common.Common.{
  ℕ, zero, suc, ◌+◌, ◌-◌, ◌*◌, ◌%◌, List, [], ◌∷◌, ◌++◌, Option, none, some, Bool, true, false, not,
  ◌&&◌, ◌||◌, leb, if◌then◌else◌, Result, ok, err, map_err, ok_or, length, replicate,
}
use close_common.Common.Bytes.{Bytes, Text, codes, ◌==◌, u64_mod}
use close_common.Common.Map
use close_common.Common.Map.{Map}
use close_common.Crypto.{Crypto, Codec}
use close_common.Facet
use close_common.Facet.{
  Facet, presence, shape, content, Powers, none_held, set, invoke, union, contains,
}
use close_common.Close
use close_common.Close.{CloseRecord, Silhouette, open_outline, found}
use close_common.Grant
use close_common.Grant.{Grant, Identity, PublicIdentity, public, terms, issue_root, attenuate}
use close_common.Cell.{digits}
use close_common.Id.{to_hex}
use close_common.Repo.{is_ok}
use close_common.Store.{write}
use close_common.World.{
  Codecs, World, Run, RepoError, pure, fail, reads, given, modify, draw, stop_if, ◌>>=◌, ◌>>◌, core,
  not_the_steward, no_current_key, nothing_to_share, not_a_path, name_taken,
}
use close_common.World.Files.{
  written, load_close, closemap, governing_close, identity, public_of, grants_for,
  current_content_key, ref_of,
}
use close_common.Snapshot.{join}

-- `{n:04}`
abbrev pub padded : ℕ → Text
padded n = let text = digits n n [] in replicate (4 - length text) b'0' ++ text

abbrev pub grant_file : ℕ → Text
grant_file n = padded n ++ codes ".grant"

abbrev pub mentions : Text → List Text → Bool
mentions name [] = false
mentions name (x ∷ names) = x == name || mentions name names

-- The directory's names in order, with one more
abbrev pub insert_name : Text → List Text → List Text
insert_name name [] = name ∷ []
insert_name name (x ∷ names) = elim (Map.lex name x) [
  | Prim.Native.Nat.Ordering.gt ↦ x ∷ insert_name name names
  | _ ↦ name ∷ x ∷ names
]

-- The key of an issue is wrapped under an ephemeral secret; presence has no key to wrap.
abbrev pub ephemeral : Facet → Run Bytes
ephemeral presence = pure []
ephemeral _ = draw

module _ (c : Crypto) (k : Codecs) where
  abbrev pub save_files : CloseRecord → Bytes → World → World
  save_files r bytes w = record w { closes = write (to_hex r.id) bytes w.closes }

  -- `Repo::save_close`
  unfoldable pub save_close : CloseRecord → Run (Unit {0})
  save_close r = do bytes ← given (written (k.closes.to_allocvec r)); modify (save_files r bytes)

  abbrev pub with_grant : Text → Bytes → World → World
  with_grant holder bytes w = record w {
    grants = λ name.
        if name == holder
        then Map.insert (grant_file (length (w.grants holder))) bytes (w.grants holder)
        else w.grants name;
  }

  -- `Repo::add_grant`
  unfoldable pub add_grant : Text → Grant → Run (Unit {0})
  add_grant holder g = do
    bytes ← given (map_err (λ e. core (Facet.encoding e)) (k.grants.to_allocvec g))
    modify (with_grant holder bytes)

  -- `Repo::new_identity`, with `Identity::generate`
  unfoldable pub new_identity : Text → Run PublicIdentity
  new_identity name = do
    people ← reads (λ w. ok w.people)
    stop_if (mentions name people) name_taken
    modify (λ w. record w { people = insert_name name w.people })
    sign ← draw
    dh ← draw
    let id : Identity = record { name = name; sign = sign; dh = dh }
    secret ← given (written (k.secrets.to_allocvec (sign, dh)))
    modify (λ w. record w { secrets = write name secret w.secrets })
    shown ← given (written (k.publics.to_allocvec (public c id)))
    modify (λ w. record w { publics = write name shown w.publics })
    pure (public c id)

  -- `Repo::found_close`
  unfoldable pub found_close : Text → Text → Silhouette → Run Bytes
  unfolding save_close add_grant
  found_close steward name silhouette = do
    id ← reads (λ w. identity k w steward)
    seed ← draw
    let founded = found c name silhouette (c.verifying_key id.sign) seed
    save_close founded.0
    eph ← ephemeral content
    g ← given (
        map_err core (
          issue_root c k.bodies founded.0 id.sign founded.1 eph 0 (public c id) content
            (union set invoke) [] none []))
    add_grant steward g
    pure founded.0.id

  -- `Repo::save_closemap`
  abbrev pub save_closemap : List (Text × Text) → Run (Unit {0})
  save_closemap map = do
    bytes ← given (written (k.closemap.to_allocvec map))
    modify (λ w. record w { closemap = some bytes })

  -- `close protect`
  unfoldable pub protect : List Text → Option Text → Run Bytes
  unfolding found_close
  protect path name = do
    stop_if (join path == []) not_a_path
    me ← reads (λ w. ok w.me)
    id ← found_close me (elim name [ none ↦ join path | some given ↦ given ]) open_outline
    map ← reads (λ w. closemap k w)
    save_closemap (map ++ (join path, to_hex id) ∷ [])
    head ← reads (λ w. ref_of k w (codes "main"))
    pure id
