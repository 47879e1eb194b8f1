-- ===== src/Signpost/Trail.antt =====
-- close/src/main.rs: what is shown of a signpost: every move that it made, the newest first (trail),
-- and where it points (whereis).
use close_common.Common.{
  ℕ, zero, suc, List, [], ◌∷◌, ◌++◌, map, Option, none, some, Bool, true, false, if◌then◌else◌,
  Result, ok, err, map_err, ◌>>=◌,
}
use close_common.Common.Bytes.{Bytes, Text, codes, ◌==◌}
use close_common.Common.Map.{Map}
use close_common.Crypto.{Crypto}
use close_common.Facet.{content}
use close_common.Close.{CloseRecord}
use close_common.Grant.{terms}
use close_common.Seal.{SealedObject, ShapeCard}
use close_common.Cell.{CellDecl, Pin, Transition, digits, open_transition}
use close_common.Dag.{Commit}
use close_common.Date.{date}
use close_common.Id.{short}
use close_common.World.{Codecs, World, RepoError, cell}
use close_common.World.Files.{load_close, load_sealed, ref_of, key_for, open_card, name_of_signer}
use close_common.World.Shown.{Shown, shown, above, shown_then, finished, unfinished}
use close_common.Browse.{commit_at}
use close_common.Signpost.{cell_decl, cell_ref}

-- A move, or that the rest of the trail, from some object on, is sealed
pub data Step : Type 0 where
  moved : Bytes → Transition → Step
  rest_sealed : Bytes → Step

-- What `whereis` says of the commit that a slot points at
pub data Place : Type 0 where
  kept_as : (message : Text) → Place
  unreadable_keeping : Place

pub record Pointing : Type 0 where
  pub slot : Text
  pub commit : Bytes
  pub place : Place
  pub is_guarded : Bool

-- What `whereis` shows: everything, the label, or that it stands
pub data Where : Type 0 where
  pointing_nowhere : Where
  pointing : List Pointing → Transition → Where
  labelled : ShapeCard → Where
  stands : Where

abbrev decimal : ℕ → Text
decimal n = digits n n []

-- What stands after the words, where there is something to say
abbrev reason_text : Text → Text
reason_text [] = []
reason_text (a ∷ reason) = codes "  \"" ++ ((a ∷ reason) ++ codes "\"")

abbrev or_steward : Option Text → Text
or_steward none = codes "a steward"
or_steward (some name) = name

module _ (c : Crypto) (k : Codecs) (w : World) (who : Text) where
  -- One round of the loop of `trail`, from an object and the key that is found for it
  abbrev pub walk_move :
      (Option Bytes → Shown Step) → Bytes → SealedObject → Option Bytes → Shown Step
  walk_move next cipher sealed none = shown (rest_sealed cipher ∷ []) finished
  walk_move next cipher sealed (some key) =
      shown_then (map_err cell (open_transition c k.cards k.transitions sealed key))
        (λ t. above (moved cipher t) (next t.body.prev))

  -- The loop of `trail`, on fuel
  unfoldable pub trail_from : CloseRecord → ℕ → Option Bytes → Shown Step
  trail_from r zero none = shown [] finished
  trail_from r zero (some cipher) = shown [] unfinished
  trail_from r (suc fuel) none = shown [] finished
  trail_from r (suc fuel) (some cipher) = shown_then (load_sealed k w c cipher) (λ sealed.
      walk_move (trail_from r fuel) cipher sealed (key_for k w c who r content sealed.epoch))

  -- The moves that `close trail` shows
  unfoldable pub trail : List Text → ℕ → Shown Step
  unfolding trail_from
  trail path fuel = shown_then (cell_decl c k w path) (λ decl.
      shown_then (load_close k w decl.close)
        (λ r. shown_then (ref_of k w (cell_ref c k decl)) (trail_from r fuel)))

  abbrev pin_line : Text × Pin → Text
  pin_line (slot, pin) = codes "    " ++ (slot ++ (codes " → " ++ short (codes "cip") pin.commit))

  -- The lines of a step of the trail
  pub step_lines : Step → List Text
  unfolding short
  step_lines (rest_sealed cipher) =
      (codes "· (the rest of the trail is sealed to " ++ (who ++ codes ")")) ∷ []
  step_lines (moved cipher t) =
      (codes "· move #"
        ++ (decimal t.body.seq
            ++ (codes "  "
                ++ (date t.body.when
                    ++ (codes "  by "
                        ++ (t.body.by.name
                            ++ (codes "  (authority from "
                                ++ (or_steward (name_of_signer k w (terms t.body.grant).issuer_sign)
                                    ++ (codes ")" ++ reason_text t.body.reason)))))))))
      ∷ map pin_line t.body.value

  abbrev place_of : Result RepoError Commit → Place
  place_of (ok commit) = kept_as commit.message
  place_of (err e) = unreadable_keeping

  abbrev is_listed : Text → List Text → Bool
  is_listed slot [] = false
  is_listed slot (s ∷ slots) = let rest = is_listed slot slots in if s == slot then true else rest

  abbrev pub pointings : CellDecl → Map Pin → List Pointing
  pointings decl [] = []
  pointings decl ((slot, pin) ∷ value) =
      record {
        slot = slot;
        commit = pin.commit;
        place = place_of (commit_at c k w who pin.commit);
        is_guarded = is_listed slot decl.forward_only;
      }
      ∷ pointings decl value

  abbrev or_stands : Option ShapeCard → Where
  or_stands none = stands
  or_stands (some card) = labelled card

  abbrev pub graded : CellDecl → SealedObject → Option Bytes → Result RepoError Where
  graded decl sealed (some key) = elim (open_transition c k.cards k.transitions sealed key) [
    | ok t ↦ ok (pointing (pointings decl t.body.value) t)
    | err e ↦ err (cell e)
  ]
  graded decl sealed none = ok (or_stands (open_card k w c who sealed))

  abbrev pub where_at : CellDecl → CloseRecord → Option Bytes → Result RepoError Where
  where_at decl r none = ok pointing_nowhere
  where_at decl r (some cipher) = do
    sealed ← load_sealed k w c cipher
    graded decl sealed (key_for k w c who r content sealed.epoch)

  -- `close whereis`
  unfoldable pub whereis : List Text → Result RepoError Where
  whereis path = do
    decl ← cell_decl c k w path
    r ← load_close k w decl.close
    cipher ← ref_of k w (cell_ref c k decl)
    where_at decl r cipher
