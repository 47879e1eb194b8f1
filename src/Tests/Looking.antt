-- ===== src/Tests/Looking.antt =====
-- What is seen of a directory that was kept, at a concrete input.
use close_common.Aead
use close_common.Seal
use close_common.Grant
use close_common.Store.{get_ref, object_path, put, rename, set_ref, tmp_path, write, get}
use close_common.Seal.{
  cipher_id, encode, facet_aad, plain_id, size_class_for, decode, open_payload, open_shape,
}
use close_common.Facet.{contains, is_subset_of}
use close_common.Common.Map.{insert, lex}
use close_common.Close.{
  binding_key, chain_aad, content_key_at, facet_key, lower_facet_key, object_key, shape_key_at,
  walk_chain, walk_down,
}
use close_common.Aead.{derive, open_box, to_key}
use close_common.Grant.{
  verify, expired, check_link, check_signature, expires_later, outlives, prefix_under, unwrap,
  wrap_aad, zip_equal,
}
use close_common.Id.{from_hex, to_hex, trim}
use close_common.World.Files.{
  governing_close, load_close, current_content_key, closemap, grants_for, identity, key_for, ref_of,
  load_sealed, open_tree, open_blob, open_card,
}
use close_common.Snapshot.{
  keep, keep_commit, put_sealed, seal_dir, snap_all, snap_dir, snap_file, writing_key,
}
use close_common.Common.{◌≡◌, refl, [], true, Result, ok, err}
use close_common.Common.Bytes.{codes, ◌==◌, as_bytes}
use close_common.Repo.{
  is_ok, card_for, guess_type, governing, matches, facet_key_for, serves, best_of, better,
  first_key, key_from, try_grant,
}
use close_common.World.{RepoError}
use close_common.Browse.{resolve_path, head_commit, commit_at, resolve_from}
use close_common.Look.{View, look, render_tree}
use close_common.Look.Graded.{IsEarnedView, look-IsEarned}
use close_common.Tests.Toy.{toy}
use close_common.Tests.Keeping.{codecs, kept}

unfoldable seen : Result RepoError View
seen = look toy codecs kept.1 (codes "alice") 3 []

abbrev view_of : Result RepoError View → View
view_of (ok v) = v
view_of (err e) = View.unfinished

view-ok : (r : Result RepoError View) → is_ok r ≡ true → r ≡ ok (view_of r)
view-ok (ok v) h = refl
view-ok (err e) h = cc

seen_ok : is_ok seen ≡ true
unfolding seen kept look resolve_path head_commit commit_at resolve_from render_tree card_for
    guess_type keep governing_close governing matches ◌==◌ from_hex as_bytes to_hex load_close
    current_content_key facet_key_for serves verify toy expired Grant.unwrap_key Aead.unwrap_key
    derive open_box Aead.seal to_key binding_key chain_aad content_key_at facet_key lower_facet_key
    object_key shape_key_at walk_chain walk_down insert lex contains is_subset_of check_link
    check_signature expires_later outlives prefix_under unwrap wrap_aad zip_equal trim best_of
    better first_key key_from try_grant cipher_id encode facet_aad plain_id Seal.seal size_class_for
    keep_commit put_sealed seal_dir snap_all snap_dir snap_file writing_key get_ref object_path put
    rename set_ref tmp_path write closemap grants_for identity key_for ref_of load_sealed open_tree
    open_blob open_card decode open_payload open_shape get
seen_ok = refl

look-IsEarned_example : IsEarnedView toy codecs kept.1 (codes "alice") [] (view_of seen)
look-IsEarned_example =
    look-IsEarned toy codecs kept.1 (codes "alice") 3 [] (view_of seen)
      (unfold seen in view-ok seen seen_ok)
