-- ===== src/Tests/Commands.antt =====
-- What commands show, and what they leave behind, at concrete inputs.
use close_common.Common.{ℕ, ◌<◌, ◌≡◌, ◌⊎◌, refl, arith, List, [], ◌∷◌, none, some, ok, err, ◌≢◌}
use close_common.Common.Bytes.{Bytes, codes, to_ascii_lowercase, ◌==◌}
use close_common.Facet
use close_common.Facet.{shape, plain_name}
use close_common.Seal.{SealedObject}
use close_common.Dag.{TreeEntry, Commit, counted}
use close_common.Seal
use close_common.Store.{get, get_ref}
use close_common.World.{nothing_kept}
use close_common.World.Files.{load_sealed, ref_of}
use close_common.World.Shown.{unfinished}
use close_common.Browse.{commit_at}
use close_common.Glossary.Terms.{Term, glossary}
use close_common.Glossary.{explain, entry, not_there}
use close_common.Glossary.First.{IsFirst, NotThere, explain_lem}
use close_common.Glossary.Words.{explain-parse}
use close_common.History.{history}
use close_common.History.Depth.{history_total}
use close_common.Look.{Line, render_tree}
use close_common.Look.Depth.{render_tree_total}
use close_common.Start.{commons_in}
use close_common.Snapshot.{empty}
use close_common.Cli.{Command, point_to, run, run_in, run_point}
use close_common.Cli.Words.{read_slots, read_slot, split_once}
use close_common.Cli.Failed.{run_failed}
use close_common.History.{resolve_keep_ref}
use close_common.Tests.Toy.{toy}
use close_common.Tests.Keeping.{codecs, world}

explain_lem_example :
    ((t : Term) × IsFirst (to_ascii_lowercase (codes "Lock")) glossary t
      × (explain (some (codes "Lock")) ≡ entry t))
    ⊎ (NotThere (to_ascii_lowercase (codes "Lock")) glossary
        × (explain (some (codes "Lock")) ≡ not_there (codes "Lock")))
explain_lem_example = explain_lem (codes "Lock")

is_shape : Facet.parse (codes "Label") ≡ some shape
unfolding Facet.parse to_ascii_lowercase ◌==◌
is_shape = refl

explain-parse_example :
    (to_ascii_lowercase (codes "Label") ≡ codes "reading")
    ⊎ ((t : Term) × (explain (some (codes "Label")) ≡ entry t) × (t.plain ≡ plain_name shape))
explain-parse_example = explain-parse (codes "Label") shape is_shape

nothing_there : (id : Bytes) (o : SealedObject) → load_sealed codecs world toy id ≡ ok o → ⊥
unfolding load_sealed get
nothing_there id o h = cc

abbrev letter : TreeEntry
letter = record { kind = Seal.blob; close = []; plain = []; cipher = 1 ∷ []; card = counted }

render_tree_total_example :
    (lines : List Line) × (render_tree toy codecs world
        (codes "alice")
        1
        []
        1
        ((codes "a", letter) ∷ [])
      ≡ some lines)
render_tree_total_example =
    render_tree_total toy codecs world (codes "alice") (λ id. 0) 1 [] 1 ((codes "a", letter) ∷ [])
      (λ id o t loads opens. absurd (nothing_there id o loads)) (omega arith, tt)

no_commits :
    (id parent : Bytes) (m : Commit) (older : List Bytes)
    → commit_at toy codecs world (codes "alice") id ≡ ok m
    → m.parents ≡ parent ∷ older
    → 0 < 0
unfolding commit_at load_sealed get
no_commits id parent m older reads names = absurd (cc reads)

no_head : (id : Bytes) → ref_of codecs world (codes "main") ≡ ok (some id) → 0 < 1
no_head id named = omega arith

history_total_example : (history toy codecs world (codes "alice") 1).ending ≢ unfinished
history_total_example =
    history_total toy codecs world (codes "alice") (λ id. 0) 1 no_commits no_head

abbrev pointing : Command
pointing = point_to (codes "drafts") (codes "api=main" ∷ []) [] none

fails :
    run toy codecs empty 0 none pointing (commons_in world) ≡ (err nothing_kept, commons_in world)
unfolding run run_in run_point read_slots read_slot split_once resolve_keep_ref ref_of get_ref ◌==◌
fails = refl

run_failed_example : (n : ℕ) × (commons_in world ≡ commons_in (record world { drawn = n }))
run_failed_example =
    run_failed toy codecs empty 0 none pointing world nothing_kept (commons_in world) tt fails
