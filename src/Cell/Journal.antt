-- ===== src/Cell/Journal.antt =====
-- Folding a journal, against a reading of what a journal is (fold and check_link).
use close_common.Common.{
  ℕ, zero, suc, ◌+◌, ◌%◌, ◌<◌, ◌≡◌, refl, ◌↔◌, Option, none, some, List, [], ◌∷◌, ◌++◌, ok, arith,
  refuse_if-not-ok, length, >>=-eq-ok, get_elem?, eqb_iff, ap, ok-injective, sym, ◌∙◌,
}
use close_common.Common.Bytes.{Bytes, u64_mod, ◌==◌, ==→eq, eq→==}
use close_common.Crypto.{Crypto, Codec}
use close_common.Close.{CloseRecord}
use close_common.Grant.{GrantBody}
use close_common.Cell.{
  CellDecl, Transition, TransitionBody, Head, next_prev, next_seq, check_against, check_link,
  verify, head_of, fold_from, fold, just_transition,
}

-- The transition names the head as what came before it, and counts on from it.
abbrev pub Follows : Head → Transition → Type 0
Follows head t = (t.body.prev ≡ next_prev head) × (t.body.seq ≡ next_seq head)

check_against_iff :
    (head : Head) (prev : Option Bytes) (seq : ℕ)
    → (check_against head prev seq ≡ ok tt) ↔ ((prev ≡ next_prev head) × (seq ≡ next_seq head))
unfolding check_against
check_against_iff none none seq = (λ h. (refl, ground arith), λ (p, q). ground arith)
check_against_iff none (some prev) seq = (λ h. cc, λ (p, q). cc)
check_against_iff (some (cipher, n)) none seq = (λ h. cc, λ (p, q). cc)
check_against_iff (some (cipher, n)) (some prev) seq = (
  λ h.
      let (same, h₁) = refuse_if-not-ok (prev == cipher) _ _ h in
      (ap (λ (x : Bytes). some x) (==→eq prev cipher same), ground arith),
  λ (p, q). rw (eq→== prev cipher (cc), (eqb_iff seq ((n + 1) % u64_mod)).1 q),
)

-- A transition links to a head exactly when it follows it.
pub check_link_iff : (t : Transition) (head : Head) → (check_link t head ≡ ok tt) ↔ Follows head t
unfolding check_link
check_link_iff t head = check_against_iff head t.body.prev t.body.seq

abbrev seq_of : Option (Bytes × Transition) → ℕ
seq_of none = 0
seq_of (some (cipher, t)) = t.body.seq

module _ (c : Crypto) (transitions : Codec TransitionBody) (bodies : Codec GrantBody)
    (r : CloseRecord) (decl : CellDecl) where
  -- Every entry verifies and follows the one before it.
  abbrev pub IsJournal : Head → List (Bytes × Transition) → Type 0
  IsJournal head [] = Unit
  IsJournal head ((cipher, t) ∷ journal) =
      (verify c transitions bodies t r decl ≡ ok tt)
      × Follows head t
      × IsJournal (some (cipher, t.body.seq)) journal

  -- The last entry, or the head where there is none.
  abbrev pub tip :
      Option (Bytes × Transition) → List (Bytes × Transition) → Option (Bytes × Transition)
  tip head [] = head
  tip head (entry ∷ journal) = tip (some entry) journal

  fold_from-IsJournal :
      (head out : Option (Bytes × Transition)) (journal : List (Bytes × Transition))
      → fold_from c transitions bodies r decl head journal ≡ ok out
      → IsJournal (head_of c transitions bodies head) journal × (out ≡ tip head journal)
  unfolding fold_from
  fold_from-IsJournal head out [] h = (tt, sym (ok-injective h))
  fold_from-IsJournal head out ((cipher, t) ∷ journal) h =
      let (_, verified, h₁) = >>=-eq-ok (verify c transitions bodies t r decl) _ h in
      let (_, linked, h₂) = >>=-eq-ok (check_link t (head_of c transitions bodies head)) _ h₁ in
      let (rest, last) = fold_from-IsJournal (some (cipher, t)) out journal h₂ in
      ((verified, (check_link_iff t (head_of c transitions bodies head)).0 linked, rest), last)

  IsJournal-fold_from :
      (head : Option (Bytes × Transition)) (journal : List (Bytes × Transition))
      → IsJournal (head_of c transitions bodies head) journal
      → fold_from c transitions bodies r decl head journal ≡ ok (tip head journal)
  unfolding fold_from
  IsJournal-fold_from head [] h = refl
  IsJournal-fold_from head ((cipher, t) ∷ journal) (verified, follows, rest) =
      rw (verified, (check_link_iff t (head_of c transitions bodies head)).1 follows)
        (IsJournal-fold_from (some (cipher, t)) journal rest)

  abbrev pub result : List (Bytes × Transition) → Option Transition
  result journal = just_transition c transitions bodies (tip none journal)

  fold-IsJournal :
      (journal : List (Bytes × Transition)) (out : Option Transition)
      → fold c transitions bodies r decl journal ≡ ok out
      → IsJournal none journal × (out ≡ result journal)
  unfolding fold
  fold-IsJournal journal out h =
      let (head, folded, e) = >>=-eq-ok (fold_from c transitions bodies r decl none journal) _ h in
      let (chain, last) = fold_from-IsJournal none head journal folded in
      (chain, sym (ok-injective e) ∙ ap (just_transition c transitions bodies) last)

  IsJournal-fold :
      (journal : List (Bytes × Transition))
      → IsJournal none journal
      → fold c transitions bodies r decl journal ≡ ok (result journal)
  unfolding fold
  IsJournal-fold journal h = rw (IsJournal-fold_from none journal h)

  -- A journal folds to a value exactly when every entry verifies and follows the one before it,
  -- and the value is then the last entry, or nothing for an empty journal.
  pub fold_iff :
      (journal : List (Bytes × Transition)) (out : Option Transition)
      → (fold c transitions bodies r decl journal ≡ ok out)
        ↔ (IsJournal none journal × (out ≡ result journal))
  fold_iff journal out =
      (fold-IsJournal journal out, λ (chain, last). rw last (IsJournal-fold journal chain))

  seq_from :
      (head : Head) (n : ℕ) (journal : List (Bytes × Transition))
      → next_seq head ≡ n
      → n + length journal < u64_mod
      → IsJournal head journal
      → (i : ℕ) (cipher : Bytes) (t : Transition) → get_elem? journal i ≡ some (cipher, t)
      → t.body.seq ≡ n + i
  seq_from head n [] start fits chain i cipher t h = cc
  seq_from head n ((a, u) ∷ journal) start fits (_, (_, seq), rest) zero cipher t h =
      omega (arith, seq, ap seq_of h)
  seq_from head n ((a, u) ∷ journal) start fits (_, (_, seq), rest) (suc i) cipher t h = omega (
    arith,
    seq_from (some (a, u.body.seq)) (n + 1) journal (omega (arith, seq)) (omega arith) rest i cipher
        t h,
  )

  -- In a journal of fewer than 2^64 entries that folds, the entry at position `i` is move number
  -- `i`.
  pub fold-seq :
      (journal : List (Bytes × Transition)) (out : Option Transition) (i : ℕ) (cipher : Bytes)
      (t : Transition)
      → length journal < u64_mod
      → fold c transitions bodies r decl journal ≡ ok out
      → get_elem? journal i ≡ some (cipher, t)
      → t.body.seq ≡ i
  fold-seq journal out i cipher t fits h there = omega (
    arith,
    seq_from none 0 journal refl (omega arith) (fold-IsJournal journal out h).0 i cipher t there,
  )

  append-IsJournal :
      (head : Option (Bytes × Transition)) (journal : List (Bytes × Transition)) (cipher : Bytes)
      (t : Transition)
      → IsJournal (head_of c transitions bodies head) journal
      → verify c transitions bodies t r decl ≡ ok tt
      → Follows (head_of c transitions bodies (tip head journal)) t
      → IsJournal (head_of c transitions bodies head) (journal ++ (cipher, t) ∷ [])
  append-IsJournal head [] cipher t h verified follows = (verified, follows, tt)
  append-IsJournal head ((a, u) ∷ journal) cipher t (v, f, rest) verified follows =
      (v, f, append-IsJournal (some (a, u)) journal cipher t rest verified follows)

  tip-append :
      (head : Option (Bytes × Transition)) (journal : List (Bytes × Transition))
      (e : Bytes × Transition)
      → tip head (journal ++ e ∷ []) ≡ some e
  tip-append head [] e = refl
  tip-append head (a ∷ journal) e = tip-append (some a) journal e

  -- A move that verifies and links to the tip extends a journal that folds, and becomes its value.
  pub fold-append :
      (journal : List (Bytes × Transition)) (out : Option Transition) (cipher : Bytes)
      (t : Transition)
      → fold c transitions bodies r decl journal ≡ ok out
      → verify c transitions bodies t r decl ≡ ok tt
      → check_link t (head_of c transitions bodies (tip none journal)) ≡ ok tt
      → fold c transitions bodies r decl (journal ++ (cipher, t) ∷ []) ≡ ok (some t)
  fold-append journal out cipher t folded verified linked =
      IsJournal-fold (journal ++ (cipher, t) ∷ []) (
        append-IsJournal none journal cipher t (fold-IsJournal journal out folded).0 verified
          ((check_link_iff t _).0 linked))
      ∙ ap (λ (x : Option (Bytes × Transition)). ok (just_transition c transitions bodies x))
          (tip-append none journal (cipher, t))
