-- ===== src/Signpost/Point.antt =====
-- What a move of a signpost that `point` returns has passed (repo.rs, point).
use close_common.Common.{
  ℕ, [], ◌∷◌, ◌∙◌, ◌⊎◌, inl, inr, Bool, true, false, if◌then◌else◌, ◌≡◌, refl, sym, ap, subst, List,
  Option, none, some, Result, ok, map_err, map_err-ok, ok_or, ok_or-eq-ok, ok-injective, >>=-eq-ok,
  All,
}
use close_common.Common.Bytes.{Bytes, Text, ◌==◌}
use close_common.Crypto.{Crypto}
use close_common.Close.{CloseRecord}
use close_common.Cell.{
  Pin, CellDecl, Value, Transition, Head, make, verify, check_link, check_forward, seal_transition,
  head_of, encoding,
}
use close_common.Cell.Journal.{check_link_iff}
use close_common.Cell.Forward.{MovesOn, MovesOnAt, check_forward_iff}
use close_common.Grant.{Grant, Identity}
use close_common.Repo.{is_descendant, or_else}
use close_common.Repo.Ancestry.{Descends, is_descendant-Descends}
use close_common.Common.Map
use close_common.Common.Map.{get-insert}
use close_common.Dag.{Commit}
use close_common.World.{
  Codecs, World, RepoError, cell, reads_then, given_then, run_then, no_point_power,
  needs_everything,
}
use close_common.World.Files.{load_close, identity, grants_for, current_content_key}
use close_common.Snapshot.{put_sealed}
use close_common.Signpost.{
  cell_decl, cell_head, point_slots, or_empty, value_of, opened_commit, first_pointing, decide_move,
  Decided,
}
use close_common.Signpost.Moves.{record_move, point}

-- What the last request for a slot asks it to point at
abbrev pub asked : Text → List (Text × (Bytes × Text)) → Option Pin
asked name [] = none
asked name ((slot, (commit, note)) ∷ slots) =
    or_else (asked name slots)
      (if slot == name then some (record { commit = commit; note = note }) else none)

or_else_assoc : (x y z : Option Pin) → or_else x (or_else y z) ≡ or_else (or_else x y) z
or_else_assoc none y z = refl
or_else_assoc (some p) y z = refl

if-or_else :
    (b : Bool) (p : Pin) (o : Option Pin)
    → (if b then some p else o) ≡ or_else (if b then some p else none) o
if-or_else true p o = refl
if-or_else false p o = refl

get-point_slots :
    (name : Text) (slots : List (Text × (Bytes × Text))) (value : Value)
    → Map.get name (point_slots slots value) ≡ or_else (asked name slots) (Map.get name value)
get-point_slots name [] value = refl
get-point_slots name ((slot, (commit, note)) ∷ slots) value =
    let pin : Pin = record { commit = commit; note = note } in
    get-point_slots name slots (Map.insert slot pin value)
    ∙ ap (or_else (asked name slots))
        (get-insert slot name pin value ∙ if-or_else (slot == name) pin (Map.get name value))
    ∙ or_else_assoc (asked name slots) (if slot == name then some pin else none)
        (Map.get name value)

-- A commit stays, or moves to one that it is reached from over parents that are opened.
abbrev pub Advances : (Bytes → Option Commit) → (old new : Option Pin) → Type 0
Advances commit_at (some p) (some q) = (p.commit ≡ q.commit) ⊎ Descends commit_at p.commit q.commit
Advances commit_at _ _ = Unit

MovesOn-Advances :
    (commit_at : Bytes → Option Commit) (old new : Option Pin)
    → MovesOn (is_descendant commit_at) old new
    → Advances commit_at old new
MovesOn-Advances commit_at none q h = tt
MovesOn-Advances commit_at (some p) none h = tt
MovesOn-Advances commit_at (some p) (some q) (inl same) = inl same
MovesOn-Advances commit_at (some p) (some q) (inr on) =
    inr (is_descendant-Descends commit_at p.commit q.commit on)

module _ (c : Crypto) (k : Codecs) (w : World) (who : Text) (path : List Text)
    (slots : List (Text × (Bytes × Text))) (reason : Text) where
  -- The guarded slots of a signpost that points somewhere keep their commits or move to descendants.
  abbrev pub IsGuarded : CellDecl → Option Value → Value → Type 0
  IsGuarded decl none new = Unit
  IsGuarded decl (some old) new =
      All
        (λ (slot : Text). Advances (opened_commit c k w who) (Map.get slot old) (Map.get slot new))
        decl.forward_only

  advance :
      (old new : Value) (names : List Text)
      → All (MovesOnAt (is_descendant (opened_commit c k w who)) old new) names
      → All
          (λ (slot : Text).
            Advances (opened_commit c k w who) (Map.get slot old) (Map.get slot new))
          names
  advance old new [] h = tt
  advance old new (slot ∷ names) (on, rest) = (
    MovesOn-Advances (opened_commit c k w who) (Map.get slot old) (Map.get slot new) on,
    advance old new names rest,
  )

  -- A move of the signpost at the path: it verifies, follows the head, points the slots as it was
  -- asked to, and keeps to the guards.
  pub record Moves (decl : CellDecl) (r : CloseRecord) (key : Bytes) (t : Transition) : Type 0 where
    pub head : Option (Bytes × Transition)
    pub stands : cell_decl c k w path ≡ ok decl
    pub loads : load_close k w decl.close ≡ ok r
    pub current : current_content_key k w c who r ≡ some key
    pub points : cell_head c k w who decl ≡ ok head
    pub accepted : verify c k.moves k.bodies t r decl ≡ ok tt
    pub follows : check_link t (head_of c k.moves k.bodies head) ≡ ok tt
    pub value :
        (name : Text)
        → Map.get name t.body.value
          ≡ or_else (asked name slots) (Map.get name (or_empty (value_of head)))
    pub now : t.body.when ≡ w.clock
    pub guarded : IsGuarded decl (value_of head) t.body.value

  guard :
      (decl : CellDecl) (old : Option Value) (new : Value)
      → check_forward (is_descendant (opened_commit c k w who)) decl old new ≡ ok tt
      → IsGuarded decl old new
  guard decl none new h = tt
  guard decl (some old) new h =
      advance old new decl.forward_only
        ((check_forward_iff (is_descendant (opened_commit c k w who)) old new decl).0 h)

  make-follows :
      (decl : CellDecl) (head : Head) (value : Value) (me : Identity) (g : Grant) (when : ℕ)
      (t : Transition)
      → make c k.moves decl head value me g when reason ≡ ok t
      → (check_link t head ≡ ok tt) × (t.body.value ≡ value) × (t.body.when ≡ when)
  unfolding make
  make-follows decl head value me g when t h =
      let (bytes, _, done) = >>=-eq-ok (map_err encoding (k.moves.to_allocvec _)) _ h in
      let same = ok-injective done in
      (
        subst (λ (x : Transition). check_link x head ≡ ok tt) same
            ((check_link_iff _ head).1 (refl, refl)),
        ap (λ (x : Transition). x.body.value) (sym same),
        ap (λ (x : Transition). x.body.when) (sym same),
      )

  pub decide_move-Moves :
      (decl : CellDecl) (r : CloseRecord) (key : Bytes) (t : Transition)
      → decide_move c k w who path slots reason ≡ ok (decl, (r, (key, t)))
      → Moves decl r key t
  unfolding decide_move
  decide_move-Moves decl r key t h =
      let (decl', stands, h₁) = >>=-eq-ok (cell_decl c k w path) _ h in
      let (r', loads, h₂) = >>=-eq-ok (load_close k w decl'.close) _ h₁ in
      let (me, _, h₃) = >>=-eq-ok (identity k w who) _ h₂ in
      let (g, _, h₄) =
        >>=-eq-ok (ok_or (first_pointing c k decl' r' w.clock (grants_for k w who)) no_point_power)
          _ h₃ in
      let (key', current, h₅) =
        >>=-eq-ok (ok_or (current_content_key k w c who r') needs_everything) _ h₄ in
      let (head, points, h₆) = >>=-eq-ok (cell_head c k w who decl') _ h₅ in
      let (_, forward, h₇) =
        >>=-eq-ok
          (map_err cell
            (check_forward (is_descendant (opened_commit c k w who)) decl' (value_of head) _))
          _ h₆ in
      let (t', makes, h₈) =
        >>=-eq-ok (map_err cell (make c k.moves decl' _ _ me g w.clock reason)) _ h₇ in
      let (_, accepted, h₉) =
        >>=-eq-ok (map_err cell (verify c k.moves k.bodies t' r' decl')) _ h₈ in
      let (follows, value, now) =
        make-follows decl' (head_of c k.moves k.bodies head) _ me g w.clock t'
          (map_err-ok cell _ makes) in
      subst (λ (d : Decided c k). Moves d.0 d.1.0 d.1.1.0 d.1.1.1) (ok-injective h₉)
        (record {
          head = head;
          stands = stands;
          loads = loads;
          current = ok_or-eq-ok _ needs_everything current;
          points = points;
          accepted = map_err-ok cell _ accepted;
          follows = follows;
          value = λ name.
              ap (Map.get name) value ∙ get-point_slots name slots (or_empty (value_of head));
          now = now;
          guarded =
              subst (IsGuarded decl' (value_of head)) (sym value)
                (guard decl' (value_of head) _ (map_err-ok cell _ forward));
        })

  -- A move that `point` returns is of the signpost that stands at the path. It verifies for its close, it
  -- links to the head that whoever moved it saw, each slot points at what the last request for it
  -- asks for, or, where there is none, where it did in the head, and every guarded slot keeps its commit
  -- or moves to one that descends from it over parents that whoever moved it opens.
  pub point-Moves :
      (cipher : Bytes) (t : Transition) (w' : World)
      → point c k who path slots reason w ≡ (ok (cipher, t), w')
      → (decl : CellDecl) × (r : CloseRecord) × (key : Bytes) × Moves decl r key t
  unfolding point record_move
  point-Moves cipher t w' h =
      let ((decl, (r, (key, t'))), decides, h₁) =
        reads_then (λ w. decide_move c k w who path slots reason) _ w h in
      let (sealed, _, h₂) =
        given_then (map_err cell (seal_transition c k.cards k.transitions r key r.epoch t')) _ w
          h₁ in
      let (cipher', v, _, h₃) = run_then (put_sealed c k sealed) _ w h₂ in
      let same : t' ≡ t =
        ap (λ (x : Bytes × Transition). x.1)
          (ok-injective (ap (λ (x : Result RepoError (Bytes × Transition) × World). x.0) h₃)) in
      (decl, r, key, subst (Moves decl r key) same (decide_move-Moves decl r key t' decides))
