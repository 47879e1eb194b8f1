-- ===== src/Tests/Codecs.antt =====
-- Codecs that read back what they write, for objects, small trees and first commits.
use close_common.Common.{
  ℕ, ◌≡◌, List, refl, ap, sym, ◌∙◌, [], ◌∷◌, ◌++◌, Result, ok, err, length, take, drop, take-append,
  drop-append, ok-injective, eqb, if◌then◌else◌,
}
use close_common.Common.Bytes.{Bytes, Text}
use close_common.Common.Map.{Map}
use close_common.Crypto.{Codec, IsCodec}
use close_common.Seal.{ObjectKind, blob, tree, commit, note, receipt, transition, SealedObject}
use close_common.Dag.{Tree, TreeEntry, Commit, EntryCard, outline, counted, dark}

-- A field and what follows it
abbrev frame : Bytes → Bytes → Bytes
frame x rest = length x ∷ (x ++ rest)

abbrev field : Bytes → Bytes
field [] = []
field (n ∷ bytes) = take n bytes

abbrev after : Bytes → Bytes
after [] = []
after (n ∷ bytes) = drop n bytes

field-frame : (x rest : Bytes) → field (frame x rest) ≡ x
field-frame x rest = take-append x rest

after-frame : (x rest : Bytes) → after (frame x rest) ≡ rest
after-frame x rest = drop-append x rest

abbrev of_kind : ObjectKind → ℕ
of_kind blob = 0
of_kind tree = 1
of_kind commit = 2
of_kind note = 3
of_kind receipt = 4
of_kind transition = 5

abbrev to_kind : ℕ → ObjectKind
to_kind n =
    if eqb n 0
    then blob
    else if eqb n 1
    then tree
    else if eqb n 2
    then commit
    else if eqb n 3
    then note
    else if eqb n 4
    then receipt
    else transition

to_kind-of_kind : (k : ObjectKind) → to_kind (of_kind k) ≡ k
to_kind-of_kind blob = refl
to_kind-of_kind tree = refl
to_kind-of_kind commit = refl
to_kind-of_kind note = refl
to_kind-of_kind receipt = refl
to_kind-of_kind transition = refl

-- Four fields
abbrev four : (a b c d : Bytes) → Bytes
four a b c d = frame a (frame b (frame c d))

abbrev read_object : Bytes → Result Text SealedObject
read_object (k ∷ epoch ∷ bytes) = ok (record {
  close = field bytes;
  epoch = epoch;
  kind = to_kind k;
  plain = field (after bytes);
  shape_ct = field (after (after bytes));
  content_ct = after (after (after bytes));
})
read_object _ = err []

abbrev pub objects : Codec SealedObject
objects = record {
  to_allocvec = λ o. ok (of_kind o.kind ∷ o.epoch ∷ four o.close o.plain o.shape_ct o.content_ct);
  from_bytes = read_object;
}

read_four :
    (k epoch : ℕ) (a b c d : Bytes)
    → read_object (k ∷ epoch ∷ four a b c d)
      ≡ ok (record {
        close = a;
        epoch = epoch;
        kind = to_kind k;
        plain = b;
        shape_ct = c;
        content_ct = d;
      })
read_four k epoch a b c d = rw (
  field-frame a (frame b (frame c d)),
  after-frame a (frame b (frame c d)),
  field-frame b (frame c d),
  after-frame b (frame c d),
  field-frame c d,
  after-frame c d,
)

pub objects-IsCodec : IsCodec objects
objects-IsCodec o bytes h =
    ap (λ (b : Bytes). read_object b) (sym (ok-injective h))
    ∙ read_four (of_kind o.kind) o.epoch o.close o.plain o.shape_ct o.content_ct
    ∙ ap (λ (k : ObjectKind). ok (record o { kind = k })) (to_kind-of_kind o.kind)

abbrev read_commit : Bytes → Result Text Commit
read_commit (when ∷ bytes) = ok (record {
  tree = field bytes;
  tree_plain = field (after bytes);
  parents = [];
  author = field (after (after bytes));
  message = after (after (after bytes));
  when = when;
})
read_commit [] = err []

-- First commits, which have no parents
abbrev write_commit : (parents : List Bytes) → (when : ℕ) → Bytes → Result Text Bytes
write_commit [] when fields = ok (when ∷ fields)
write_commit (id ∷ parents) when fields = err []

abbrev pub commits : Codec Commit
commits = record {
  to_allocvec = λ c. write_commit c.parents c.when (four c.tree c.tree_plain c.author c.message);
  from_bytes = read_commit;
}

read_commit-write_commit :
    (a b : Bytes) (parents : List Bytes) (author message : Text) (when : ℕ) (bytes : Bytes)
    → write_commit parents when (four a b author message) ≡ ok bytes
    → read_commit bytes
      ≡ ok (record {
        tree = a;
        tree_plain = b;
        parents = parents;
        author = author;
        message = message;
        when = when;
      })
read_commit-write_commit a b [] author message when bytes h =
    ap (λ (x : Bytes). read_commit x) (sym (ok-injective h))
    ∙ rw (
      field-frame a (frame b (frame author message)),
      after-frame a (frame b (frame author message)),
      field-frame b (frame author message),
      after-frame b (frame author message),
      field-frame author message,
      after-frame author message,
    )
read_commit-write_commit a b (id ∷ parents) author message when bytes h = cc

pub commits-IsCodec : IsCodec commits
commits-IsCodec c bytes h =
    read_commit-write_commit c.tree c.tree_plain c.parents c.author c.message c.when bytes h

-- Trees of one entry at most, whose card is dark
abbrev write_entry : EntryCard → (kind : ObjectKind) → Bytes → Result Text Bytes
write_entry dark kind fields = ok (of_kind kind ∷ fields)
write_entry _ kind fields = err []

abbrev write_tree : Map TreeEntry → Result Text Bytes
write_tree [] = ok []
write_tree ((name, e) ∷ []) = write_entry e.card e.kind (four name e.close e.plain e.cipher)
write_tree (first ∷ second ∷ entries) = err []

abbrev read_entry : Bytes → ℕ → Bytes → TreeEntry
read_entry bytes k rest = record {
  kind = to_kind k;
  close = field bytes;
  plain = field rest;
  cipher = after rest;
  card = dark;
}

abbrev read_tree : Bytes → Result Text Tree
read_tree [] = ok (record { entries = [] })
read_tree (k ∷ bytes) =
    ok (record { entries = (field bytes, read_entry (after bytes) k (after (after bytes))) ∷ [] })

abbrev pub trees : Codec Tree
trees = record { to_allocvec = λ t. write_tree t.entries; from_bytes = read_tree }

read_tree-write_entry :
    (name : Text) (card : EntryCard) (kind : ObjectKind) (close plain cipher bytes : Bytes)
    → write_entry card kind (four name close plain cipher) ≡ ok bytes
    → read_tree bytes
      ≡ ok (record {
        entries =
            (
              name,
              record { kind = kind; close = close; plain = plain; cipher = cipher; card = card },
            )
            ∷ [];
      })
read_tree-write_entry name dark kind a b d bytes h =
    ap (λ (x : Bytes). read_tree x) (sym (ok-injective h))
    ∙ rw (
      field-frame name (frame a (frame b d)),
      after-frame name (frame a (frame b d)),
      field-frame a (frame b d),
      after-frame a (frame b d),
      field-frame b d,
      after-frame b d,
      to_kind-of_kind kind,
    )
read_tree-write_entry name (outline content_type size_class) kind a b d bytes h = cc
read_tree-write_entry name counted kind a b d bytes h = cc

read_tree-write_tree :
    (entries : Map TreeEntry) (bytes : Bytes)
    → write_tree entries ≡ ok bytes
    → read_tree bytes ≡ ok (record { entries = entries })
read_tree-write_tree [] bytes h = ap (λ (x : Bytes). read_tree x) (sym (ok-injective h))
read_tree-write_tree ((name, e) ∷ []) bytes h =
    read_tree-write_entry name e.card e.kind e.close e.plain e.cipher bytes h
read_tree-write_tree (first ∷ second ∷ entries) bytes h = cc

pub trees-IsCodec : IsCodec trees
trees-IsCodec t bytes h = read_tree-write_tree t.entries bytes h
