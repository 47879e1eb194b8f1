-- ===== src/History.antt =====
-- close/src/main.rs: what has been kept, the newest first (history), and what a keeping is called on
-- the command line (resolve_keep_ref).
pub mod Later
pub mod Longer
pub mod Depth
use close_common.Common.{
  ℕ, zero, suc, List, [], ◌∷◌, ◌++◌, map, Option, none, some, Bool, true, false, ◌||◌,
  if◌then◌else◌, Result, ok, err, ok_or, ◌>>=◌,
}
use close_common.Common.Bytes.{Bytes, Text, codes, ◌==◌}
use close_common.Crypto.{Crypto}
use close_common.Dag.{Commit}
use close_common.Date.{date}
use close_common.Id.{Parsed, parsed, rejected, to_hex, short, from_hex}
use close_common.Id
use close_common.World.{Codecs, World, RepoError, nothing_kept, not_a_keeping, panicked}
use close_common.World.Files.{ref_of}
use close_common.World.Shown.{Shown, shown, above, shown_then, finished, unfinished}
use close_common.Browse.{commit_at, head_commit}

-- `id.to_hex()` or `id.short()`, and the line of a keeping
pub history_line : Bool → Bytes × Commit → Text
unfolding short
history_line full (id, commit) =
    codes "· "
    ++ (date commit.when
        ++ (codes "  "
            ++ (commit.author
                ++ (codes "  \""
                    ++ (commit.message
                        ++ (codes "\"  ["
                            ++ ((if full then to_hex id else short (codes "cip") id)
                                ++ codes "]")))))))

-- `match commit.parents.first()`: the keeping before, where there is one
abbrev pub before :
    (Bytes → Result RepoError Commit)
    → (Bytes → Commit → Shown (Bytes × Commit))
    → List Bytes
    → Shown (Bytes × Commit)
before read next [] = shown [] finished
before read next (parent ∷ parents) = shown_then (read parent) (next parent)

module _ (c : Crypto) (k : Codecs) (w : World) (who : Text) where
  -- The loop of `history`, on fuel
  unfoldable pub walk_back : ℕ → Bytes → Commit → Shown (Bytes × Commit)
  walk_back zero id commit = shown [] unfinished
  walk_back (suc fuel) id commit =
      above (id, commit) (before (commit_at c k w who) (walk_back fuel) commit.parents)

  abbrev pub from_head : ℕ → Option (Bytes × Commit) → Shown (Bytes × Commit)
  from_head fuel none = shown [] finished
  from_head fuel (some (id, commit)) = walk_back fuel id commit

  -- The keepings that `close history` shows
  unfoldable pub history : ℕ → Shown (Bytes × Commit)
  unfolding walk_back
  history fuel = shown_then (head_commit c k w who) (from_head fuel)

  abbrev pub printed : Bool → Shown (Bytes × Commit) → Shown Text
  printed full s = shown (map (history_line full) s.lines) s.ending

  abbrev pub or_nothing : Option (Bytes × Commit) → Shown Text → Shown Text
  or_nothing none s = shown (codes "nothing kept yet" ∷ []) finished
  or_nothing (some head) s = s

  -- The lines that `close history` prints
  pub history_lines : Bool → ℕ → Shown Text
  unfolding history history_line
  history_lines full fuel =
      shown_then (head_commit c k w who) (λ head. or_nothing head (printed full (history fuel)))

abbrev keep_id : Parsed → Result RepoError Bytes
keep_id (parsed id) = ok id
keep_id rejected = err not_a_keeping
keep_id Id.panicked = err panicked

unfoldable pub resolve_keep_ref : Codecs → World → Text → Result RepoError Bytes
resolve_keep_ref k w target =
    if target == codes "main" || target == codes "HEAD" || target == codes "head"
    then (do id ← ref_of k w (codes "main"); ok_or id nothing_kept)
    else keep_id (from_hex target)
