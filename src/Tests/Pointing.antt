-- ===== src/Tests/Pointing.antt =====
-- Moving a signpost of a repository at a concrete input.
use close_common.Common.{All, subst, sym}
use close_common.Signpost.Trail.{Step, moved, trail}
use close_common.Signpost.Later.{IsSized}
use close_common.Signpost.Longer.{trail-point}
use close_common.World.Shown.{Shown, shown, above, finished}
use close_common.Seal
use close_common.Cell
use close_common.Grant
use close_common.Aead
use close_common.Store.{get_ref, object_path, put, rename, set_ref, tmp_path, write}
use close_common.Snapshot.{put_sealed}
use close_common.Seal.{cipher_id, encode, facet_aad, plain_id, size_class_for}
use close_common.Facet.{contains, is_subset_of}
use close_common.Common.Map.{insert, lex}
use close_common.Aead.{derive, open_box, to_key}
use close_common.Grant.{
  expired, check_link, check_signature, expires_later, outlives, prefix_under, unwrap, wrap_aad,
  zip_equal, covers, public,
}
use close_common.Id.{from_hex, to_hex, trim}
use close_common.Repo.{
  governing, matches, facet_key_for, serves, best_of, better, first_key, key_from, try_grant,
  is_descendant,
}
use close_common.World.Files.{
  governing_close, load_close, current_content_key, closemap, grants_for, identity, key_for, ref_of,
}
use close_common.Common.{
  ◌≡◌, ◌⊎◌, refl, ap, [], ◌∷◌, List, Option, none, some, some-injective, Result, ok, err,
}
use close_common.Common.Bytes.{Bytes, Text, codes, ◌==◌, as_bytes}
use close_common.Crypto.{ReadsBack}
use close_common.Close.{
  CloseRecord, binding_key, chain_aad, content_key_at, facet_key, lower_facet_key, object_key,
  shape_key_at, walk_chain, walk_down,
}
use close_common.Cell.{
  CellDecl, Transition, make, check_mover, check_forward, seal_transition, cell_id, transition_card,
}
use close_common.Signpost.{cell_decl, cell_head, same_path, decide_move, cell_ref, may_point}
use close_common.Signpost.Moves.{point, record_move}
use close_common.Signpost.Point.{Moves, point-Moves}
use close_common.Store.Sound.{Collision}
use close_common.World.{Codecs, World, RepoError}
use close_common.Tests.Cells.{signpost, opening}
use close_common.Tests.Codecs.{objects-IsCodec}
use close_common.Tests.Keeping
use close_common.Tests.Stores.{hash-AreBytes, empty-IsSound}
use close_common.Tests.Toy.{toy, toy-IsLawful}

abbrev codecs : Codecs
codecs = record Keeping.codecs {
  cells = Keeping.only (signpost ∷ []);
  transitions = record { to_allocvec = λ t. ok []; from_bytes = λ bytes. ok opening };
}

abbrev world : World
world = record Keeping.world { cells = some [] }

abbrev drafts : List Text
drafts = codes "drafts" ∷ codes "current" ∷ []

abbrev slots : List (Text × (Bytes × Text))
slots = (codes "main", (1 ∷ [], [])) ∷ []

unfoldable pointed : Result RepoError (Bytes × Transition) × World
pointed = point toy codecs (codes "alice") drafts slots [] world

abbrev move_of : Result RepoError (Bytes × Transition) → Option Transition
move_of (ok (cipher, t)) = some t
move_of (err e) = none

abbrev cipher_of : Result RepoError (Bytes × Transition) → Bytes
cipher_of (ok (cipher, t)) = cipher
cipher_of (err e) = []

move-ok :
    (r : Result RepoError (Bytes × Transition)) (t : Transition)
    → move_of r ≡ some t
    → r ≡ ok (cipher_of r, t)
move-ok (ok (cipher, x)) t h = ap (λ (y : Transition). ok (cipher, y)) (some-injective x t h)
move-ok (err e) t h = cc

stands : cell_decl toy codecs world drafts ≡ ok signpost
unfolding cell_decl same_path ◌==◌
stands = refl

moves : move_of pointed.0 ≡ some opening
unfolding pointed point governing_close governing matches ◌==◌ from_hex as_bytes to_hex load_close
    current_content_key facet_key_for serves Grant.verify toy expired Grant.unwrap_key
    Aead.unwrap_key derive open_box Aead.seal to_key binding_key chain_aad content_key_at facet_key
    lower_facet_key object_key shape_key_at walk_chain walk_down insert lex contains is_subset_of
    check_link check_signature expires_later outlives prefix_under unwrap wrap_aad zip_equal trim
    best_of better first_key key_from try_grant cipher_id encode facet_aad plain_id Seal.seal
    size_class_for put_sealed get_ref object_path put rename set_ref tmp_path write closemap
    grants_for identity key_for ref_of decide_move same_path covers record_move cell_head cell_ref
    may_point make Cell.verify check_mover check_forward seal_transition cell_id transition_card
    public cell_decl is_descendant
moves = refl

point_so :
    point toy codecs (codes "alice") drafts slots [] world
    ≡ (ok (cipher_of pointed.0, opening), pointed.1)
unfolding pointed
point_so =
    ap (λ (r : Result RepoError (Bytes × Transition)). (r, pointed.1))
      (move-ok pointed.0 opening moves)

point-Moves_example :
    (decl : CellDecl) × (r : CloseRecord) × (key : Bytes) × Moves toy codecs world
      (codes "alice")
      drafts
      slots
      []
      decl
      r
      key
      opening
point-Moves_example =
    point-Moves toy codecs world (codes "alice") drafts slots [] (cipher_of pointed.0) opening
      pointed.1 point_so

reads_back : ReadsBack codecs.transitions opening
reads_back b h = refl

no_moves : trail toy codecs world (codes "alice") drafts 0 ≡ shown [] finished
unfolding trail cell_decl same_path load_close ref_of get_ref cell_ref ◌==◌ to_hex
no_moves = refl

trail-point_example :
    Collision toy pointed.1.store
    ⊎ (trail toy codecs pointed.1 (codes "alice") drafts 1
        ≡ above
            (moved (cipher_of pointed.0) opening)
            (trail toy codecs world (codes "alice") drafts 0))
trail-point_example =
    trail-point toy codecs world (codes "alice") drafts slots [] toy-IsLawful hash-AreBytes
      objects-IsCodec (cipher_of pointed.0) opening pointed.1 0 empty-IsSound reads_back point_so
      (ap (λ (x : Shown Step). x.ending) no_moves)
      (subst (λ (x : Shown Step). All IsSized x.lines) (sym no_moves) tt)
