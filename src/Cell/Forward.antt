-- ===== src/Cell/Forward.antt =====
-- The forward-only guard, against what it promises of each guarded slot.
use close_common.Common.{
  ◌≡◌, refl, ◌↔◌, ◌⊎◌, inl, inr, Bool, true, false, Option, none, some, List, [], ◌∷◌, ok, arith,
  refuse_if-ok, All, Bool-cases,
}
use close_common.Common.Bytes.{Bytes, Text, ◌==◌, ==→eq, eq→==}
use close_common.Common.Map
use close_common.Cell.{Pin, Value, CellDecl, slot_moves_back, check_slots, check_forward}

-- A commit stays, or moves to a descendant, where both values have the slot.
abbrev pub MovesOn : (Bytes → Bytes → Bool) → (old new : Option Pin) → Type 0
MovesOn is_descendant (some p) (some q) =
    (p.commit ≡ q.commit) ⊎ (is_descendant p.commit q.commit ≡ true)
MovesOn is_descendant _ _ = Unit

module _ (is_descendant : Bytes → Bytes → Bool) (head new : Value) where
  abbrev pub MovesOnAt : Text → Type 0
  MovesOnAt slot = MovesOn is_descendant (Map.get slot head) (Map.get slot new)

  stays-MovesOn :
      (o n : Option Pin) → slot_moves_back is_descendant o n ≡ false → MovesOn is_descendant o n
  stays-MovesOn none n h = tt
  stays-MovesOn (some p) none h = tt
  stays-MovesOn (some p) (some q) h = elim (Bool-cases (p.commit == q.commit)) [
    | inl same ↦ inl (==→eq p.commit q.commit same)
    | inr moved ↦ inr (ground arith)
  ]

  MovesOn-stays :
      (o n : Option Pin) → MovesOn is_descendant o n → slot_moves_back is_descendant o n ≡ false
  MovesOn-stays none n h = refl
  MovesOn-stays (some p) none h = refl
  MovesOn-stays (some p) (some q) h = elim h [
    | inl same ↦ rw (eq→== p.commit q.commit same)
    | inr descends ↦ ground arith
  ]

  check_slots-All :
      (slots : List Text) → check_slots is_descendant slots head new ≡ ok tt → All MovesOnAt slots
  unfolding check_slots
  check_slots-All [] h = tt
  check_slots-All (slot ∷ slots) h =
      let (stays, rest) =
        refuse_if-ok (slot_moves_back is_descendant (Map.get slot head) (Map.get slot new)) _ _ h in
      (stays-MovesOn (Map.get slot head) (Map.get slot new) stays, check_slots-All slots rest)

  All-check_slots :
      (slots : List Text) → All MovesOnAt slots → check_slots is_descendant slots head new ≡ ok tt
  unfolding check_slots
  All-check_slots [] h = refl
  All-check_slots (slot ∷ slots) (moves, rest) =
      rw (MovesOn-stays (Map.get slot head) (Map.get slot new) moves) (All-check_slots slots rest)

  -- The guard passes exactly when every guarded slot that both values have keeps its commit or
  -- moves to a descendant of it.
  pub check_forward_iff :
      (decl : CellDecl)
      → (check_forward is_descendant decl (some head) new ≡ ok tt) ↔ All MovesOnAt decl.forward_only
  unfolding check_forward
  check_forward_iff decl = (check_slots-All decl.forward_only, All-check_slots decl.forward_only)
