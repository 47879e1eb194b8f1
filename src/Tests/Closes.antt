-- ===== src/Tests/Closes.antt =====
-- Closes and sealed objects at concrete inputs.
use close_common.Common.{ℕ, ◌≡◌, refl, arith, [], ◌∷◌, some, Result, ok, err, replicate}
use close_common.Common.Bytes.{Bytes, Text, codes}
use close_common.Facet.{content, Error, epoch_unreachable}
use close_common.Close.{
  CloseRecord, dark, found, content_key_at, shape_key_at, lower_facet_key, shape_of,
}
use close_common.Close.History.{rotate_all, rotate_all_total, found-IsKeyed}
use close_common.Close.Past.{OpensPast, content_key_at-past, key_at_future}
use close_common.Aead.{wrap_key}
use close_common.Seal.{note, SealedObject, seal, open_shape, open_payload}
use close_common.Seal.Open.{open-seal_all}
use close_common.Tests.Toy.{toy, toy-IsLawful, cards, cards-IsCodec, label_card}

abbrev letters : Text
letters = codes "letters"

abbrev steward : Bytes
steward = 1 ∷ []

abbrev seed : Bytes
seed = 5 ∷ []

rotate_all_total_example :
    (r : CloseRecord) × (k : Bytes) × (rotate_all toy
        (found toy letters dark steward seed).0
        (found toy letters dark steward seed).1
        (seed ∷ steward ∷ [])
      ≡ ok (r, k))
    × (r.epoch ≡ 2)
    × (r.id ≡ (found toy letters dark steward seed).0.id)
rotate_all_total_example =
    rotate_all_total toy toy-IsLawful letters dark steward seed (seed ∷ steward ∷ []) (omega arith)

abbrev outcome : Result Error (CloseRecord × Bytes) → CloseRecord × Bytes
outcome (ok p) = p
outcome (err e) =
    (record { id = []; name = []; silhouette = dark; steward = []; epoch = 0; chain = [] }, [])

-- The close after one change of its lock, and after another.
unfoldable once : CloseRecord × Bytes
unfolding found rotate_all
once = outcome (
    rotate_all toy (found toy letters dark steward seed).0 (found toy letters dark steward seed).1
      (seed ∷ []))

unfoldable twice : CloseRecord × Bytes
unfolding rotate_all once
twice = outcome (rotate_all toy once.0 once.1 (steward ∷ []))

once_made :
    rotate_all toy
      (found toy letters dark steward seed).0
      (found toy letters dark steward seed).1
      (seed ∷ [])
    ≡ ok (once.0, once.1)
unfolding once rotate_all found wrap_key toy
once_made = refl

twice_made : rotate_all toy once.0 once.1 (steward ∷ []) ≡ ok (twice.0, twice.1)
unfolding twice rotate_all wrap_key toy
twice_made = refl

content_key_at-past_run : OpensPast toy once.0 once.1 twice.0 twice.1
content_key_at-past_run =
    content_key_at-past toy toy-IsLawful letters dark steward seed (seed ∷ []) (steward ∷ [])
      (omega arith) once.0 twice.0 once.1 twice.1 once_made twice_made

content_key_at-past_example : OpensPast toy once.0 once.1 twice.0 twice.1
content_key_at-past_example =
    content_key_at-past toy toy-IsLawful letters dark steward seed (seed ∷ []) (steward ∷ [])
      (omega arith) once.0 twice.0 once.1 twice.1 once_made twice_made

key_at_future_example :
    (content_key_at toy once.0 once.1 1 2 ≡ err (epoch_unreachable 1 2))
    × (shape_key_at toy once.0 once.1 1 2 ≡ err (epoch_unreachable 1 2))
key_at_future_example = key_at_future toy once.0 once.1 1 2 (omega arith)

lowered : lower_facet_key toy seed content content steward ≡ some seed
unfolding lower_facet_key
lowered = refl

-- A note, in a new close.
abbrev text : Bytes
text = codes "dear"

abbrev lock : CloseRecord
lock = (found toy letters dark steward seed).0

abbrev key : Bytes
key = (found toy letters dark steward seed).1

open-seal_all_example :
    (s : SealedObject) × (seal toy cards lock key 0 note (label_card letters) text ≡ ok s)
    × (open_shape toy cards s (shape_of toy key lock.id) ≡ ok (label_card letters))
    × (open_payload toy s key ≡ ok text)
open-seal_all_example =
    open-seal_all toy toy-IsLawful cards cards-IsCodec lock (λ _. key)
      (found-IsKeyed toy toy-IsLawful letters dark steward seed) 0 (omega arith) note
      (label_card letters) letters text refl (omega arith) (omega arith)

abbrev id : Bytes
id = replicate 32 1

abbrev epoch : ℕ
epoch = 7
