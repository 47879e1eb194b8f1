-- ===== src/Start.antt =====
-- close/src/repo.rs: making a folder a commons (init) and finding the commons that a folder is (open).
-- A folder that is no commons yet has the clock and the random bytes of the system alone. `init` writes
-- config.json last, so that one that fails leaves a folder without it.
pub mod Founding
pub mod Ready
pub mod Coherent
use close_common.Common.{ℕ, List, [], ◌∷◌, none, Result, ok, err}
use close_common.Common.Bytes.{Bytes, Text, codes}
use close_common.Crypto.{Crypto}
use close_common.Close.{open_outline}
use close_common.Id.{to_hex}
use close_common.Store.{Store}
use close_common.World.{
  Codecs, World, Run, RepoError, pure, modify, ◌>>=◌, ◌>>◌, already_a_commons, no_commons,
  unreadable,
}
use close_common.Sharing.{new_identity, found_close, save_closemap}

pub data Folder : Type 0 where
  bare : ℕ → (ℕ → Bytes) → Folder
  without_config : World → Folder
  commons_in : World → Folder

-- `Store::open` in a new folder
abbrev pub no_objects : Store
no_objects = record { objects = λ path. none; refs = λ name. none; offered = [] }

abbrev pub fresh : Text → ℕ → (ℕ → Bytes) → World
fresh me clock random = record {
  me = me;
  commons = [];
  store = no_objects;
  closes = λ name. none;
  closemap = none;
  cells = none;
  declarations = λ path. none;
  grants = λ name. [];
  people = [];
  secrets = λ name. none;
  publics = λ name. none;
  clock = clock;
  random = random;
  drawn = 0;
}

abbrev pub after_start : Result RepoError (Unit {0}) → World → Folder
after_start (ok done) w = commons_in w
after_start (err e) w = without_config w

module _ (c : Crypto) (k : Codecs) where
  -- `init`, once the folder is made
  unfoldable pub start : Text → Run (Unit {0})
  unfolding new_identity found_close
  start me = do
    person ← new_identity c k me
    commons ← found_close c k me (codes "commons") open_outline
    modify (λ w. record w { commons = to_hex commons })
    save_closemap c k (([], to_hex commons) ∷ [])

  -- `Repo::init`
  unfoldable pub init : Text → Folder → Result RepoError (Unit {0}) × Folder
  unfolding start
  init me (bare clock random) =
      let done = start me (fresh me clock random) in (done.0, after_start done.0 done.1)
  init me (without_config w) = (err already_a_commons, without_config w)
  init me (commons_in w) = (err already_a_commons, commons_in w)

-- `Repo::open`
unfoldable pub open_commons : Folder → Result RepoError World
open_commons (bare clock random) = err no_commons
open_commons (without_config w) = err unreadable
open_commons (commons_in w) = ok w
