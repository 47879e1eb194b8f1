-- ===== src/Cell.antt =====
-- cc-cell/src/lib.rs: cells (signposts), their transitions, and the journal whose fold is the
-- value of a cell.
pub mod Forward
pub mod Journal
pub mod Authority
pub mod Moves
use close_common.Common.{
  ℕ, zero, suc, ◌+◌, ◌/◌, ◌%◌, Result, ok, err, ok_or, refuse_if, map_err, ◌>>=◌, ◌>>◌, ltb, eqb,
  not, ◌&&◌, List, [], ◌∷◌, ◌++◌, Option, none, some, Bool, true, false, length, if◌then◌else◌,
  String,
}
use close_common.Common.Bytes.{Bytes, Text, ◌==◌, codes, as_bytes, u64_mod}
use close_common.Common.Map
use close_common.Common.Map.{Map}
use close_common.Crypto.{Crypto, Codec}
use close_common.Facet.{Facet, presence, shape, content, set, contains, Error}
use close_common.Close.{CloseRecord}
use close_common.Grant
use close_common.Grant.{Identity, PublicIdentity, Grant, GrantBody, terms, covers, public}
use close_common.Seal
use close_common.Seal.{ShapeCard, SealedObject, transition, open_payload}

pub data CellError : Type 0 where
  core : Error → CellError
  encoding : Text → CellError
  bad_signature : CellError
  not_authorized : String → CellError
  bad_seq : (expected found : ℕ) → CellError
  bad_prev : CellError
  not_forward : (slot : Text) → CellError

pub record CellDecl : Type 0 where
  pub path : List Text
  pub close : Bytes
  pub kind : Text
  pub forward_only : List Text

abbrev path_bytes : List Text → Bytes
path_bytes [] = []
path_bytes (seg ∷ path) = (b'/' ∷ as_bytes seg) ++ path_bytes path

pub record Pin : Type 0 where
  pub commit : Bytes
  pub note : Text

abbrev pub Value : Type 0
Value = Map Pin

pub record TransitionBody : Type 0 where
  pub cell : Bytes
  pub seq : ℕ
  pub prev : Option Bytes
  pub value : Value
  pub by : PublicIdentity
  pub when : ℕ
  pub reason : Text
  pub grant : Grant

pub record Transition : Type 0 where
  pub body : TransitionBody
  pub sig : Bytes

-- The tip of a journal: its address and its position.
abbrev pub Head : Type 0
Head = Option (Bytes × ℕ)

abbrev pub next_prev : Head → Option Bytes
next_prev none = none
next_prev (some (cipher, head_seq)) = some cipher

-- The position is a `u64`.
abbrev pub next_seq : Head → ℕ
next_seq none = 0
next_seq (some (cipher, head_seq)) = (head_seq + 1) % u64_mod

-- `Transition::check_link`, by the head and the transition's `prev`
check_against : Head → Option Bytes → ℕ → Result CellError (Unit {0})
check_against none none seq = if eqb seq 0 then ok tt else err (bad_seq 0 seq)
check_against (some (cipher, head_seq)) (some prev) seq = do
  refuse_if (not (prev == cipher)) bad_prev
  let expected : ℕ = (head_seq + 1) % u64_mod
  refuse_if (not (eqb seq expected)) (bad_seq expected seq)
check_against _ _ seq = err bad_prev

unfoldable pub check_link : Transition → Head → Result CellError (Unit {0})
unfolding check_against
check_link t head = check_against head t.body.prev t.body.seq

-- The decimal digits of a number; each round needs a unit of fuel, and `n` rounds are enough.
abbrev pub digits : ℕ → ℕ → Text → Text
digits zero n acc = (b'0' + n % 10) ∷ acc
digits (suc f) n acc =
    let more = digits f (n / 10) ((b'0' + n % 10) ∷ acc) in
    if ltb n 10 then (b'0' + n) ∷ acc else more

unfoldable pub transition_card : ℕ → Text → ShapeCard
transition_card seq by = record {
  label = codes "signpost moved";
  content_type = codes "cell/transition";
  size_class = codes "—";
  note = codes "move #" ++ (digits seq seq [] ++ (codes " by " ++ by));
}

pub facet_story : Facet → Text
facet_story presence = codes "the signpost exists"
facet_story shape = codes "when it moved, which move, and by whom"
facet_story content = codes "where it points"

-- One guarded slot: where both values point, the new commit is the old one or a descendant.
abbrev slot_moves_back : (Bytes → Bytes → Bool) → Option Pin → Option Pin → Bool
slot_moves_back is_descendant (some old) (some new) =
    not (old.commit == new.commit) && not (is_descendant old.commit new.commit)
slot_moves_back is_descendant _ _ = false

module _ (is_descendant : Bytes → Bytes → Bool) where
  check_slots : List Text → Value → Value → Result CellError (Unit {0})
  check_slots [] head new = ok tt
  check_slots (slot ∷ slots) head new = do
    refuse_if (slot_moves_back is_descendant (Map.get slot head) (Map.get slot new))
        (not_forward slot)
    check_slots slots head new

  unfoldable pub check_forward : CellDecl → Option Value → Value → Result CellError (Unit {0})
  unfolding check_slots
  check_forward decl none new = ok tt
  check_forward decl (some head) new = check_slots decl.forward_only head new

module _ (c : Crypto) where
  -- `CellDecl::id`
  unfoldable pub cell_id : CellDecl → Bytes
  cell_id decl = c.hash (codes "closecommon/v0/cell-id" ++ (decl.close ++ path_bytes decl.path))

  module _ (transitions : Codec TransitionBody) where
    -- `Transition::make`
    unfoldable pub make :
        CellDecl
        → Head
        → Value
        → (mover : Identity) (grant : Grant) (when : ℕ) (reason : Text)
        → Result CellError Transition
    unfolding cell_id
    make decl head value mover grant when reason = do
      let b : TransitionBody = record {
        cell = cell_id decl;
        seq = next_seq head;
        prev = next_prev head;
        value = value;
        by = public c mover;
        when = when;
        reason = reason;
        grant = grant;
      }
      bytes ← map_err encoding (transitions.to_allocvec b)
      ok (record { body = b; sig = c.sign mover.sign bytes })

    -- The mover's signature.
    unfoldable pub check_mover : Transition → Result CellError (Unit {0})
    check_mover t = do
      refuse_if (not (c.valid_verifying_key t.body.by.sign)) bad_signature
      bytes ← map_err encoding (transitions.to_allocvec t.body)
      refuse_if (not (eqb (length t.sig) 64)) bad_signature
      refuse_if (not (c.verify t.body.by.sign bytes t.sig)) bad_signature

    module _ (bodies : Codec GrantBody) where
      -- `Transition::verify`
      unfoldable pub verify : Transition → CloseRecord → CellDecl → Result CellError (Unit {0})
      unfolding check_mover cell_id
      verify t record' decl = do
        check_mover t
        refuse_if (not (t.body.cell == cell_id decl))
            (not_authorized "grant is for a different cell")
        let g = t.body.grant
        refuse_if (not ((terms g).close == decl.close))
            (not_authorized "grant is for a different close")
        refuse_if (not ((terms g).holder.sign == t.body.by.sign))
            (not_authorized "mover is not the grant's holder")
        refuse_if (not (contains (terms g).powers set))
            (not_authorized "grant carries no point power")
        refuse_if (not (covers g decl.path)) (not_authorized "grant does not cover this path")
        map_err (λ _. not_authorized "grant chain does not verify at that time")
            (Grant.verify c bodies record' t.body.when g)

      abbrev pub head_of : Option (Bytes × Transition) → Head
      head_of none = none
      head_of (some (cipher, t)) = some (cipher, t.body.seq)

      -- The loop of `fold`, from a head.
      unfoldable pub fold_from :
          CloseRecord
          → CellDecl
          → Option (Bytes × Transition)
          → List (Bytes × Transition)
          → Result CellError (Option (Bytes × Transition))
      unfolding verify check_link
      fold_from record' decl head [] = ok head
      fold_from record' decl head ((cipher, t) ∷ journal) = do
        verify t record' decl
        check_link t (head_of head)
        fold_from record' decl (some (cipher, t)) journal

      abbrev just_transition : Option (Bytes × Transition) → Option Transition
      just_transition none = none
      just_transition (some (cipher, t)) = some t

      unfoldable pub fold :
          CloseRecord → CellDecl → List (Bytes × Transition) → Result CellError (Option Transition)
      unfolding fold_from
      fold record' decl journal = do
        head ← fold_from record' decl none journal
        ok (just_transition head)

  module _ (cards : Codec ShapeCard) (sealed_transitions : Codec Transition) where
    unfoldable pub seal_transition :
        CloseRecord → Bytes → ℕ → Transition → Result CellError SealedObject
    unfolding transition_card
    seal_transition record' content_key epoch t = do
      let card = transition_card t.body.seq t.body.by.name
      bytes ← map_err encoding (sealed_transitions.to_allocvec t)
      map_err core (Seal.seal c cards record' content_key epoch transition card bytes)

    unfoldable pub open_transition : SealedObject → Bytes → Result CellError Transition
    open_transition sealed content_key = do
      bytes ← map_err core (open_payload c sealed content_key)
      map_err encoding (sealed_transitions.from_bytes bytes)
