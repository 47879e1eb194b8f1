-- ===== src/Store/Paths.antt =====
-- The paths of objects: different ids have different ones (cc-store/src/lib.rs, object_path).
use close_common.Common.{
  ◌+◌, ◌≡◌, refl, sym, ◌∙◌, ap, false, arith, length, Bool-cases, inl, inr, [], ◌∷◌, length-append,
}
use close_common.Common.Bytes.{Bytes, Text, codes, ◌==◌, ==→eq, IsKey}
use close_common.Id.{to_hex}
use close_common.Id.Hex.{length-to_hex, to_hex-injective}
use close_common.Store.{object_path, tmp_path}

abbrev unsplit : Text → Text
unsplit (x ∷ y ∷ slash ∷ rest) = x ∷ y ∷ rest
unsplit _ = []

object_path-unsplit : (id : Bytes) → IsKey id → unsplit (object_path id) ≡ to_hex id
unfolding object_path to_hex
object_path-unsplit [] h = ground arith
object_path-unsplit (b ∷ id) h = refl

pub object_path-injective :
    (a b : Bytes) → IsKey a → IsKey b → object_path a ≡ object_path b → a ≡ b
object_path-injective a b ka kb h =
    to_hex-injective a b (sym (object_path-unsplit a ka) ∙ ap unsplit h ∙ object_path-unsplit b kb)

tmp_path-length : (path : Text) → length (tmp_path path) ≡ length path + 4
unfolding tmp_path
tmp_path-length path = length-append path (codes ".tmp")

object_path-length : (id : Bytes) → IsKey id → length (object_path id) ≡ 65
unfolding object_path to_hex
object_path-length [] h = ground arith
object_path-length (b ∷ id) h = omega (arith, h, length-to_hex id)

-- The file that an object is written to first is the file of no object.
pub tmp_apart :
    (a b : Bytes) → IsKey a → IsKey b → (tmp_path (object_path a) == object_path b) ≡ false
tmp_apart a b ka kb = elim (Bool-cases (tmp_path (object_path a) == object_path b)) [
  | inl same ↦
      let long : length (tmp_path (object_path a)) ≡ length (object_path b) =
        ap (λ (p : Text). length p) (==→eq (tmp_path (object_path a)) (object_path b) same) in
      absurd (
        omega (
          arith,
          long,
          tmp_path-length (object_path a),
          object_path-length a ka,
          object_path-length b kb,
        ))
  | inr apart ↦ apart
]
