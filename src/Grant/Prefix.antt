-- ===== src/Grant/Prefix.antt =====
-- `prefix_under`, against the concatenation of paths.
use close_common.Common.{◌≡◌, refl, ◌↔◌, true, List, [], ◌∷◌, ◌++◌, arith, ap, sym, ◌∙◌}
use mathlib.Core.List.{append_assoc, append-nil}
use close_common.Common.Bytes.{Text, ==→eq, ==_refl}
use close_common.Grant.{prefix_under}

prefix_under-rest :
    (child parent : List Text)
    → prefix_under child parent ≡ true
    → (rest : List Text) × (child ≡ parent ++ rest)
unfolding prefix_under
prefix_under-rest child [] h = (child, refl)
prefix_under-rest [] (p ∷ parent) h = absurd (ground arith)
prefix_under-rest (x ∷ child) (p ∷ parent) h =
    let (rest, e) = prefix_under-rest child parent (ground arith) in
    (rest, cc (e, ==→eq x p (ground arith)))

prefix_under-append : (parent rest : List Text) → prefix_under (parent ++ rest) parent ≡ true
unfolding prefix_under
prefix_under-append [] [] = refl
prefix_under-append [] (x ∷ rest) = ground arith
prefix_under-append (p ∷ parent) rest = ground (arith, ==_refl p, prefix_under-append parent rest)

-- A path lies under another exactly when it is that path with more segments behind it.
pub prefix_under_iff :
    (child parent : List Text)
    → (prefix_under child parent ≡ true) ↔ ((rest : List Text) × (child ≡ parent ++ rest))
prefix_under_iff child parent =
    (prefix_under-rest child parent, λ (rest, e). rw e (prefix_under-append parent rest))

pub prefix_under_refl : (p : List Text) → prefix_under p p ≡ true
prefix_under_refl p = (prefix_under_iff p p).1 ([], sym (append-nil p))

pub prefix_under_trans :
    (a b d : List Text)
    → prefix_under a b ≡ true
    → prefix_under b d ≡ true
    → prefix_under a d ≡ true
prefix_under_trans a b d h k =
    let (u, p) = (prefix_under_iff a b).0 h in
    let (v, q) = (prefix_under_iff b d).0 k in
    (prefix_under_iff a d).1 (v ++ u, p ∙ ap (λ (t : List Text). t ++ u) q ∙ append_assoc d v u)
