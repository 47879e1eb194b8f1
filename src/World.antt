-- ===== src/World.antt =====
-- What a run of the program works on (close/src/repo.rs): the files of a repository, the clock and
-- the random bytes of the system, and the monad of the code that changes them. A file is the bytes
-- in it; the calls of the file system succeed, but for reading a file that is not there. Error
-- messages are not modelled: an error is the place that it comes from.
mod Step
pub mod Files
pub mod Shown
pub use Step.*
use close_common.Common.{ℕ, Option, List}
use close_common.Common.Bytes.{Bytes, Text}
use close_common.Common.Map.{Map}
use close_common.Crypto.{Codec, IsCodec}
use close_common.Seal.{ShapeCard, SealedObject}
use close_common.Grant.{Grant, GrantBody, PublicIdentity}
use close_common.Cell.{CellDecl, Transition, TransitionBody}
use close_common.Close.{CloseRecord}
use close_common.Dag.{Tree, Commit}

-- postcard and serde_json at the types that the program writes with them. A `SecretFile` is the
-- two secret keys.
pub record Codecs : Type 0 where
  pub bodies : Codec GrantBody
  pub grants : Codec Grant
  pub cards : Codec ShapeCard
  pub objects : Codec SealedObject
  pub trees : Codec Tree
  pub commits : Codec Commit
  pub moves : Codec TransitionBody
  pub transitions : Codec Transition
  pub closes : Codec CloseRecord
  pub closemap : Codec (List (Text × Text))
  pub cells : Codec (List CellDecl)
  pub declarations : Codec CellDecl
  pub secrets : Codec (Bytes × Bytes)
  pub publics : Codec PublicIdentity

pub record AreCodecs (k : Codecs) : Type 0 where
  pub cards : IsCodec k.cards
  pub objects : IsCodec k.objects
  pub trees : IsCodec k.trees
  pub commits : IsCodec k.commits
  pub transitions : IsCodec k.transitions
  pub closes : IsCodec k.closes
  pub grants : IsCodec k.grants
