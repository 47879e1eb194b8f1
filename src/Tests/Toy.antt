-- ===== src/Tests/Toy.antt =====
-- A toy of the cryptographic libraries and of postcard that keeps the laws which the model asks
-- of them. It protects nothing.
use close_common.Common.{
  ℕ, ◌+◌, ◌%◌, ◌≡◌, refl, ap, true, [], ◌∷◌, ◌++◌, Option, none, some, Result, ok, err, eqb,
  if◌then◌else◌, length, replicate, arith,
}
use close_common.Common.Bytes.{Bytes, Text, ◌==◌, ==_refl}
use close_common.Crypto.{Crypto, IsLawful, Codec, IsCodec}
use close_common.Grant.{GrantBody}
use close_common.Grant.Wrap.{Encodes}
use close_common.Cell.{TransitionBody}
use close_common.Seal.{ShapeCard}

abbrev sum : Bytes → ℕ
sum [] = 0
sum (b ∷ bytes) = b + sum bytes

-- 32 bytes from a text and a message
abbrev pub digest : Text → Bytes → Bytes
digest context m = (sum m % 251) ∷ (sum context % 251) ∷ replicate 30 0

abbrev pub header : Bytes → Bytes → Bytes
header k a = (length k ∷ k) ++ (length a ∷ a)

unfoldable strip : Bytes → Bytes → Option Bytes
strip [] e = some e
strip (x ∷ p) [] = none
strip (x ∷ p) (y ∷ e) = let rest = strip p e in if eqb x y then rest else none

abbrev pub shared : ℕ → Bytes → Bytes
shared n [] = digest [] []
shared n (b ∷ bytes) = digest [] ((n + b) ∷ [])

unfoldable pub toy : Crypto
unfolding strip
toy = record {
  hash = λ m. digest [] m;
  keyed_hash = λ k m. digest k m;
  derive_key = digest;
  encrypt = λ k n a m. some (header k a ++ m);
  decrypt = λ k n a e. strip (header k a) e;
  verifying_key = λ s. digest [] s;
  valid_verifying_key = λ k. true;
  sign = λ s m. digest [] s ++ digest [] s;
  verify = λ k m sig. sig == (k ++ k);
  dh_public = λ s. digest [] s;
  diffie_hellman = λ s p. shared (sum s % 251) p;
}

strip-append : (p m : Bytes) → strip p (p ++ m) ≡ some m
unfolding strip
strip-append [] m = refl
strip-append (x ∷ p) m = ground (arith, strip-append p m)

pub toy-IsLawful : IsLawful toy
unfolding toy
toy-IsLawful = record {
  length-hash = λ m. refl;
  length-keyed_hash = λ k m. refl;
  length-derive_key = λ context m. refl;
  encrypt_total = λ k n a m size fits h. cc;
  decrypt-encrypt = λ k n a m e h. cc (h, strip-append (header k a) m);
  length-verifying_key = λ s. refl;
  valid-verifying_key = λ s. refl;
  length-sign = λ s m. refl;
  verify-sign = λ s m. ==_refl (digest [] s ++ digest [] s);
  length-dh_public = λ s. refl;
  dh_agrees = λ s t. ap (λ (n : ℕ). digest [] (n ∷ [])) (omega arith);
}

abbrev pub bodies : Codec GrantBody
bodies = record { to_allocvec = λ b. ok b.terms.issuer_sign; from_bytes = λ bytes. err [] }

pub bodies-Encodes : Encodes bodies
bodies-Encodes b = (b.terms.issuer_sign, refl)

abbrev pub transitions : Codec TransitionBody
transitions = record { to_allocvec = λ b. ok b.cell; from_bytes = λ bytes. err [] }

-- Cards with a label alone.
abbrev to_label : (label content_type size_class note : Text) → Result Text Bytes
to_label label [] [] [] = ok label
to_label label _ _ _ = err []

abbrev pub label_card : Text → ShapeCard
label_card label = record { label = label; content_type = []; size_class = []; note = [] }

abbrev pub cards : Codec ShapeCard
cards = record {
  to_allocvec = λ card. to_label card.label card.content_type card.size_class card.note;
  from_bytes = λ bytes. ok (label_card bytes);
}

to_label-label_card :
    (label content_type size_class note : Text) (b : Bytes)
    → to_label label content_type size_class note ≡ ok b
    → label_card b
      ≡ record { label = label; content_type = content_type; size_class = size_class; note = note }
to_label-label_card label [] [] [] b h = cc
to_label-label_card label [] [] (x ∷ note) b h = cc
to_label-label_card label [] (x ∷ size_class) note b h = cc
to_label-label_card label (x ∷ content_type) size_class note b h = cc

pub cards-IsCodec : IsCodec cards
cards-IsCodec card b h =
    ap (λ (d : ShapeCard). ok d)
      (to_label-label_card card.label card.content_type card.size_class card.note b h)
