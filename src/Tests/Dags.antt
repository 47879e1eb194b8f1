-- ===== src/Tests/Dags.antt =====
-- Merges at concrete inputs.
use close_common.Common.{
  ℕ, ◌≡◌, eqb, All, Bool-cases, subst, sym, ◌↔◌, inl, inr, refl, arith, true, [], ◌∷◌, some, none,
  if◌then◌else◌, ◌<◌,
}
use close_common.Common.Bytes.{Bytes, Text, ◌==◌}
use close_common.Common.Map
use close_common.Common.Map.{Map}
use close_common.Seal.{blob, tree, ObjectKind}
use close_common.Dag.{
  Load, Tree, TreeEntry, dark, MergedTree, conflict, nil, entry, take, three_way, find, same_opt,
  diverged, is_clean,
}
use close_common.Dag.Merge.{Diverges, IsShut, find-three_way, find-sealed}
use close_common.Dag.Conflicts.{NoConflict, is_clean_iff}
use close_common.Dag.Resolved.{Resolves}
use close_common.Dag.Depth.{IsRanked, IsBelow, three_way_total}

abbrev item : ObjectKind → ℕ → TreeEntry
item kind n = record { kind = kind; close = []; plain = n ∷ []; cipher = n ∷ []; card = dark }

-- Names `1` to `3`: one that only they change, one that only we change, and a directory that both
-- change and that nobody here can open.
abbrev base : Tree
base = record {
  entries = (1 ∷ [], item blob 1) ∷ (2 ∷ [], item blob 2) ∷ (3 ∷ [], item tree 3) ∷ [];
}

abbrev ours : Tree
ours = record {
  entries = (1 ∷ [], item blob 1) ∷ (2 ∷ [], item blob 20) ∷ (3 ∷ [], item tree 30) ∷ [];
}

abbrev theirs : Tree
theirs = record {
  entries = (1 ∷ [], item blob 10) ∷ (2 ∷ [], item blob 2) ∷ (3 ∷ [], item tree 31) ∷ [];
}

abbrev shut : Load
shut cipher = none

abbrev merged : MergedTree
merged = entry (1 ∷ []) (take (item blob 10)) (
    entry (2 ∷ []) (take (item blob 20)) (
      entry (3 ∷ [])
        (conflict (some (item tree 3)) (some (item tree 30)) (some (item tree 31)) true) nil))

merges : three_way shut 1 (some base) ours theirs ≡ some merged
unfolding three_way Map.keys Map.insert Map.lex same_opt Map.get ◌==◌ diverged
merges = refl

find-three_way_example :
    Resolves shut
      (three_way shut 0)
      (some (item blob 1))
      (some (item blob 1))
      (some (item blob 10))
      (find (1 ∷ []) merged)
unfolding Map.get ◌==◌
find-three_way_example = find-three_way shut 0 (some base) ours theirs merged merges (1 ∷ [])

ours_kept : same_opt (Map.get (1 ∷ []) ours.entries) (Map.get (1 ∷ []) base.entries) ≡ true
unfolding same_opt Map.get ◌==◌
ours_kept = refl

theirs_kept : same_opt (Map.get (2 ∷ []) theirs.entries) (Map.get (2 ∷ []) base.entries) ≡ true
unfolding same_opt Map.get ◌==◌
theirs_kept = refl

find-sealed_example :
    (find (3 ∷ []) merged
      ≡ some (conflict (some (item tree 3)) (some (item tree 30)) (some (item tree 31)) true))
    ↔ (Diverges (some (item tree 3)) (some (item tree 30)) (some (item tree 31))
        × IsShut shut (some (item tree 30)) (some (item tree 31)))
unfolding Map.get ◌==◌
find-sealed_example = find-sealed shut 0 (some base) ours theirs merged merges (3 ∷ [])

abbrev rank : Bytes → ℕ
rank [] = 0
rank (n ∷ cipher) = n

-- The directory `3` opens to a tree of two files.
abbrev inner : Tree
inner = record { entries = (1 ∷ [], item blob 1) ∷ (2 ∷ [], item blob 2) ∷ [] }

abbrev opens : Load
opens [] = none
opens (n ∷ cipher) = if eqb n 3 then some inner else none

get-below :
    (n : ℕ) (m : Map TreeEntry) (name : Text) (e : TreeEntry)
    → All (λ (p : Text × TreeEntry). rank p.1.cipher < n) m
    → Map.get name m ≡ some e
    → rank e.cipher < n
unfolding Map.get
get-below n [] name e h found = cc
get-below n ((k, x) ∷ m) name e (lt, h) found = ground (arith, get-below n m name e h)

opens-IsRanked : IsRanked opens rank
opens-IsRanked [] t h name e found = cc
opens-IsRanked (n ∷ cipher) t h name e found = elim (Bool-cases (eqb n 3)) [
  | inl three ↦
      let inside : inner ≡ t = ground (arith, h, three) in
      let below : rank e.cipher < 3 =
        get-below 3 inner.entries name e (omega arith, (omega arith, tt))
          (subst (λ (u : Tree). Map.get name u.entries ≡ some e) (sym inside) found) in
      ground (arith, below, three)
  | inr other ↦ absurd (ground (arith, h, other))
]

base-IsBelow : IsBelow rank 4 base
base-IsBelow name e found =
    get-below 4 base.entries name e (omega arith, (omega arith, (omega arith, tt))) found

three_way_total_example : (m : MergedTree) × (three_way opens 5 none base theirs ≡ some m)
three_way_total_example = three_way_total opens rank opens-IsRanked 4 none base theirs base-IsBelow

is_clean_iff_example : (is_clean merged ≡ true) ↔ NoConflict merged
is_clean_iff_example = is_clean_iff merged
