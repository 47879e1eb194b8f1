-- ===== src/World/Shown.antt =====
-- What a command of close/src/main.rs has printed when it ends, and how it ended: by itself, by an
-- error, or, where a loop stands on fuel, before its end.
use close_common.Common.{◌≡◌, List, [], ◌∷◌, Result, ok, err}
use close_common.World.{RepoError}

pub data Ending : Type 0 where
  finished : Ending
  stopped : RepoError → Ending
  unfinished : Ending

pub record Shown (A : Type 0) : Type 0 where
  pub lines : List A
  pub ending : Ending

module _ {A : Type 0} where
  abbrev pub shown : List A → Ending → Shown A
  shown lines ending = record { lines = lines; ending = ending }

  -- `println!` before the rest
  abbrev pub above : A → Shown A → Shown A
  above line rest = shown (line ∷ rest.lines) rest.ending

  -- `?` on what the rest needs
  abbrev pub shown_then {ℓ} : {B : Type ℓ} → Result RepoError B → (B → Shown A) → Shown A
  shown_then (ok b) rest = rest b
  shown_then (err e) rest = shown [] (stopped e)

  -- What stops with an error does not end by itself.
  pub ends-ok {ℓ} :
      {B : Type ℓ} (r : Result RepoError B) (rest : B → Shown A) (e : RepoError)
      → r ≡ err e
      → (shown_then r rest).ending ≡ finished
      → ⊥
  ends-ok (ok b) rest e h ends = cc
  ends-ok (err d) rest e h ends = cc
