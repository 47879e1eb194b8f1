-- ===== src/Store.antt =====
-- cc-store/src/lib.rs: the object store. The two directories under the root are functions from a
-- path to the content there, in a file system whose calls succeed; a ref's file holds text.
pub mod Paths
pub mod Sound
use close_common.Common.{
  Bool, true, false, Option, none, some, Result, ok, err, not, if◌then◌else◌, ◌++◌, take, drop,
  List, ◌∷◌,
}
use close_common.Common.Bytes.{Bytes, Text, codes, ◌==◌}
use close_common.Crypto.{Crypto}
use close_common.Seal.{cipher_id}
use close_common.Id.{to_hex, from_hex, Parsed}

pub data StoreError : Type 0 where
  corrupt : StoreError

abbrev pub Files : Type 0
Files = Text → Option Bytes

-- `objects` and `refs` are the files. `offered` is in no file and nothing reads it: it is the history
-- of what `put` was called with, the last call first, for the theorems to speak of.
pub record Store : Type 0 where
  pub objects : Files
  pub refs : Files
  pub offered : List Bytes

-- `fs::write` and `fs::rename`
unfoldable pub write : Text → Bytes → Files → Files
write path bytes files = λ q. if path == q then some bytes else files q

unfoldable pub rename : Text → Text → Files → Files
rename source target files =
    λ q. if target == q then files source else if source == q then none else files q

abbrev exists : Option Bytes → Bool
exists none = false
exists (some bytes) = true

unfoldable pub object_path : Bytes → Text
object_path id = let hex = to_hex id in take 2 hex ++ (codes "/" ++ drop 2 hex)

-- `with_extension("tmp")`; a name in hexadecimal has no extension of its own.
unfoldable pub tmp_path : Text → Text
tmp_path path = path ++ codes ".tmp"

module _ (c : Crypto) where
  unfoldable pub put : Store → Bytes → Store × Bytes
  unfolding object_path tmp_path write rename cipher_id
  put s envelope =
      let id = cipher_id c envelope in
      let path = object_path id in
      let tmp = tmp_path path in
      let written = rename tmp path (write tmp envelope s.objects) in
      let objects = if exists (s.objects path) then s.objects else written in
      (record s { objects = objects; offered = envelope ∷ s.offered }, id)

  -- What is read is handed out only where it hashes to the address.
  abbrev pub checked : Bytes → Option Bytes → Result StoreError (Option Bytes)
  checked id none = ok none
  checked id (some bytes) = if not (cipher_id c bytes == id) then err corrupt else ok (some bytes)

  unfoldable pub get : Store → Bytes → Result StoreError (Option Bytes)
  unfolding object_path cipher_id
  get s id = checked id (s.objects (object_path id))

unfoldable pub set_ref : Store → Text → Bytes → Store
unfolding write
set_ref s name id = record s { refs = write name (to_hex id) s.refs }

-- `none` is a ref that is not there.
abbrev pub read_ref : Option Text → Option Parsed
read_ref none = none
read_ref (some text) = some (from_hex text)

unfoldable pub get_ref : Store → Text → Option Parsed
get_ref s name = read_ref (s.refs name)
