-- ===== src/Cli/Failed.antt =====
-- What a command that fails leaves behind (main.rs, run).
use close_common.Common.{ℕ, ◌≡◌, refl, sym, ◌∙◌, ap, subst, List, Option, Result, ok, err, ok_or}
use close_common.Common.Bytes.{Text}
use close_common.Crypto.{Crypto}
use close_common.Facet
use close_common.Facet.{none_held}
use close_common.World.{
  Codecs, World, Run, RepoError, proceed, pure, stop_if, not_a_facet, nothing_to_point,
}
use close_common.Segments.{segments}
use close_common.Snapshot.{Listing}
use close_common.Browse.{open_path}
use close_common.Look.{look}
use close_common.Sharing.Hand.{share}
use close_common.Signpost.{cell_index}
use close_common.Signpost.Moves.{point}
use close_common.Signpost.Trail.{whereis}
use close_common.Start.{Folder, commons_in, init}
use close_common.Cli.Words.{parse_powers, read_slots}
use close_common.Cli.{
  Command, initialize, id_new, id_list, keep_all, history, look_at, open_file, protect_path,
  share_path, cell_raise, cell_list, point_to, whereis_path, trail_of, rotate_path, explain_term,
  Output, view, content, signposts, whereabouts, or_name, segments_of, is_empty, run_share,
  run_point, run_in, run, in_repo,
}
use close_common.Cli.Drawn.{
  Drawn, Drawn-refl, Safe, read-Safe, then-Safe, Safe-then, wrote, stop_if-Still,
}
use close_common.Cli.Safe.{share-Safe, point-Safe}

-- The commands that write several files, or objects, one after the other, may fail between them.
abbrev pub IsAtomic : Command → Type 0
IsAtomic (id_new name) = ⊥
IsAtomic (keep_all message) = ⊥
IsAtomic (protect_path path name) = ⊥
IsAtomic (cell_raise path kind forward_only) = ⊥
IsAtomic (rotate_path path except) = ⊥
IsAtomic command = Unit

module _ (c : Crypto) (k : Codecs) (tree : Listing) (fuel : ℕ) where
  run_share-Safe :
      (path name seeing : Text) (power : List Text) (days : Option ℕ)
      → Safe (run_share c k tree fuel path name seeing power days)
  unfolding run_share
  run_share-Safe path name seeing power days w e w' h =
      read-Safe (λ _. ok_or (Facet.parse seeing) not_a_facet) _ w e w' h
        (λ facet h.
          read-Safe (λ _. parse_powers none_held power) _ w e w' h
            (λ powers h.
              Safe-then (share c k (segments path) name facet powers days) _ w e w' h
                (share-Safe c k (segments path) name facet powers days)
                (λ g v h. wrote _ v e w' h)))

  run_point-Safe :
      (path : Text) (sets : List Text) (reason : Text) (as_name : Option Text)
      → Safe (run_point c k tree fuel path sets reason as_name)
  unfolding run_point
  run_point-Safe path sets reason as_name w e w' h =
      read-Safe (λ w. read_slots k w sets) _ w e w' h
        (λ slots h.
          then-Safe (stop_if (is_empty slots) nothing_to_point) _ w e w' h (stop_if-Still _ _)
            (λ done v h.
              Safe-then (λ w. point c k (or_name w.me as_name) (segments path) slots reason w) _ v e
                w' h (λ u. point-Safe c k (or_name u.me as_name) (segments path) slots reason u)
                (λ done v h. wrote _ v e w' h)))

  shows-Safe :
      {A : Type 0} (r : World → Result RepoError A) (out : A → Output) (w : World) (e : RepoError)
      (w' : World)
      → (proceed (λ a. pure (out a)) (r w, w)) ≡ (err e, w')
      → Drawn w w'
  shows-Safe r out w e w' h =
      read-Safe r (λ a. pure (out a)) w e w' h (λ a h. absurd (wrote (out a) w e w' h))

  run_in-Safe : (command : Command) → IsAtomic command → Safe (run_in c k tree fuel command)
  unfolding run_in
  run_in-Safe (initialize as_name) a w e w' h =
      subst (Drawn w) (ap (λ (x : Result RepoError Output × World). x.1) h) (Drawn-refl w)
  run_in-Safe (id_new name) a w e w' h = absurd a
  run_in-Safe id_list a w e w' h = absurd (wrote _ w e w' h)
  run_in-Safe (keep_all message) a w e w' h = absurd a
  run_in-Safe (history as_name full) a w e w' h = absurd (wrote _ w e w' h)
  run_in-Safe (look_at path as_name) a w e w' h =
      shows-Safe (λ w. look c k w (or_name w.me as_name) fuel (segments_of path)) view w e w' h
  run_in-Safe (open_file path as_name) a w e w' h =
      shows-Safe (λ w. open_path c k w (or_name w.me as_name) (segments path)) content w e w' h
  run_in-Safe (protect_path path name) a w e w' h = absurd a
  run_in-Safe (share_path path name seeing power days) a w e w' h =
      run_share-Safe path name seeing power days w e w' h
  run_in-Safe (cell_raise path kind forward_only) a w e w' h = absurd a
  run_in-Safe cell_list a w e w' h = shows-Safe (cell_index c k) signposts w e w' h
  run_in-Safe (point_to path sets reason as_name) a w e w' h =
      run_point-Safe path sets reason as_name w e w' h
  run_in-Safe (whereis_path path as_name) a w e w' h =
      shows-Safe (λ w. whereis c k w (or_name w.me as_name) (segments path)) whereabouts w e w' h
  run_in-Safe (trail_of path as_name) a w e w' h = absurd (wrote _ w e w' h)
  run_in-Safe (rotate_path path except) a w e w' h = absurd a
  run_in-Safe (explain_term term) a w e w' h = absurd (wrote _ w e w' h)

  -- The folder after a run in it that fails
  in_repo-Safe :
      (m : Run Output) (w : World) (e : RepoError) (folder : Folder)
      → Safe m
      → in_repo m (commons_in w) ≡ (err e, folder)
      → (n : ℕ) × (folder ≡ commons_in (record w { drawn = n }))
  in_repo-Safe m w e folder safe h = at (m w) refl h
    where
      at :
          (x : Result RepoError Output × World)
          → m w ≡ x
          → ◌≡◌ {A = Result RepoError Output × Folder} (x.0, commons_in x.1) (err e, folder)
          → (n : ℕ) × (folder ≡ commons_in (record w { drawn = n }))
      at (ok out, v) q h = absurd (cc (ap (λ (x : Result RepoError Output × Folder). x.0) h))
      at (err d, v) q h =
          let (n, same) = safe w d v q in
          (
            n,
            sym (ap (λ (x : Result RepoError Output × Folder). x.1) h)
                ∙ ap (λ (x : World). commons_in x) same,
          )

  -- A command that fails in a commons leaves every file as it was, and may only have drawn random bytes,
  -- unless it brings someone in, keeps, protects, raises a signpost or changes a lock.
  pub run_failed :
      (user : Option Text) (command : Command) (w : World) (e : RepoError) (folder : Folder)
      → IsAtomic command
      → run c k tree fuel user command (commons_in w) ≡ (err e, folder)
      → (n : ℕ) × (folder ≡ commons_in (record w { drawn = n }))
  unfolding run init
  run_failed user (initialize as_name) w e folder a h =
      (w.drawn, sym (ap (λ (x : Result RepoError Output × Folder). x.1) h))
  run_failed user (explain_term term) w e folder a h =
      absurd (cc (ap (λ (x : Result RepoError Output × Folder). x.0) h))
  run_failed user (id_new name) w e folder a h =
      in_repo-Safe _ w e folder (run_in-Safe (id_new name) a) h
  run_failed user id_list w e folder a h = in_repo-Safe _ w e folder (run_in-Safe id_list a) h
  run_failed user (keep_all message) w e folder a h =
      in_repo-Safe _ w e folder (run_in-Safe (keep_all message) a) h
  run_failed user (history as_name full) w e folder a h =
      in_repo-Safe _ w e folder (run_in-Safe (history as_name full) a) h
  run_failed user (look_at path as_name) w e folder a h =
      in_repo-Safe _ w e folder (run_in-Safe (look_at path as_name) a) h
  run_failed user (open_file path as_name) w e folder a h =
      in_repo-Safe _ w e folder (run_in-Safe (open_file path as_name) a) h
  run_failed user (protect_path path name) w e folder a h =
      in_repo-Safe _ w e folder (run_in-Safe (protect_path path name) a) h
  run_failed user (share_path path name seeing power days) w e folder a h =
      in_repo-Safe _ w e folder (run_in-Safe (share_path path name seeing power days) a) h
  run_failed user (cell_raise path kind forward_only) w e folder a h =
      in_repo-Safe _ w e folder (run_in-Safe (cell_raise path kind forward_only) a) h
  run_failed user cell_list w e folder a h = in_repo-Safe _ w e folder (run_in-Safe cell_list a) h
  run_failed user (point_to path sets reason as_name) w e folder a h =
      in_repo-Safe _ w e folder (run_in-Safe (point_to path sets reason as_name) a) h
  run_failed user (whereis_path path as_name) w e folder a h =
      in_repo-Safe _ w e folder (run_in-Safe (whereis_path path as_name) a) h
  run_failed user (trail_of path as_name) w e folder a h =
      in_repo-Safe _ w e folder (run_in-Safe (trail_of path as_name) a) h
  run_failed user (rotate_path path except) w e folder a h =
      in_repo-Safe _ w e folder (run_in-Safe (rotate_path path except) a) h
