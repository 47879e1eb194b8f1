-- ===== src/Tests/Stores.antt =====
-- The object store at concrete inputs.
use close_common.Common.{
  ℕ, ◌≡◌, ◌<◌, refl, arith, none, some, ok, All, if◌then◌else◌, replicate, zero, suc, [], ◌⊎◌,
}
use close_common.Common.Bytes.{Bytes, Text, codes, IsKey, AreBytes, ◌==◌}
use close_common.Seal.{cipher_id}
use close_common.Id.{to_hex, parsed}
use close_common.Store.{Store, put, get, set_ref, get_ref, object_path}
use close_common.Store.Sound.{IsSound, get-put, get_ref-set_ref}
use close_common.Tests.Toy.{toy, toy-IsLawful}

replicated : (n a : ℕ) → a < 256 → All (λ (b : ℕ). b < 256) (replicate n a)
replicated zero a h = tt
replicated (suc n) a h = (h, replicated n a h)

pub hash-AreBytes : (m : Bytes) → AreBytes (toy.hash m)
unfolding toy
hash-AreBytes m = (omega arith, (omega arith, replicated 30 0 (omega arith)))

abbrev pub empty : Store
empty = record { objects = λ path. none; refs = λ name. none; offered = [] }

pub empty-IsSound : IsSound toy empty
empty-IsSound id k bytes there = cc

abbrev envelope : Bytes
envelope = codes "sealed bytes"

get-put_example :
    ((put toy empty envelope).1 ≡ cipher_id toy envelope)
    × ((b : Bytes) × (get toy (put toy empty envelope).0 (put toy empty envelope).1 ≡ ok (some b))
        × (cipher_id toy b ≡ cipher_id toy envelope)
        × ((b ≡ envelope) ⊎ (empty.objects (object_path (cipher_id toy envelope)) ≡ some b)))
get-put_example = get-put toy toy-IsLawful empty envelope empty-IsSound

address-IsKey : IsKey (cipher_id toy envelope)
unfolding cipher_id toy
address-IsKey = refl

put_there :
    (put toy empty envelope).0.objects (object_path (cipher_id toy envelope)) ≡ some envelope
unfolding put cipher_id toy ◌==◌ to_hex
put_there = refl

abbrev head : Text
head = codes "main"

abbrev target : Bytes
target = replicate 32 171

abbrev moved : Store
moved = set_ref empty head target

get_ref-set_ref_example :
    get_ref (set_ref moved (codes "other") (replicate 32 7)) head
    ≡ (if codes "other" == head then some (parsed (replicate 32 7)) else get_ref moved head)
get_ref-set_ref_example =
    get_ref-set_ref moved (codes "other") head (replicate 32 7) refl (replicated 32 7 (omega arith))
