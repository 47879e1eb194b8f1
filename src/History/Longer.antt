-- ===== src/History/Longer.antt =====
-- What a keeping does to the history (repo.rs, keep; main.rs, history).
use close_common.Common.{
  ℕ, suc, ◌≡◌, ◌⊎◌, inr, refl, sym, ◌∙◌, ap, subst, Option, none, some, Result, ok, Result-cases,
  inl,
}
use close_common.Common.Bytes.{Bytes, Text, codes, AreBytes, IsKey, ==_refl}
use close_common.Crypto.{Crypto, IsLawful, IsCodec}
use close_common.Dag.{Commit}
use close_common.Store.{Store, set_ref}
use close_common.Store.Sound.{Collision, IsSound, get_ref-set_ref}
use close_common.World.{Codecs, World, RepoError}
use close_common.World.Files.{ref_of}
use close_common.World.Shown.{Shown, shown_then, above, ends-ok, finished}
use close_common.Snapshot.{Listing, keep, commit_for, id_list}
use close_common.Snapshot.Sealed.{at, unless, IsCoherent, Keeps}
use close_common.Snapshot.Commits.{Committed, keep-Committed}
use close_common.Browse.{commit_at, commit_of, head_commit}
use close_common.History.{walk_back, before, from_head, history}
use close_common.History.Later.{AreSized, commit_at-Keeps, walk_back-Keeps}

module _ (c : Crypto) (k : Codecs) (w : World) (who : Text) (fuel : ℕ) where
  -- The history from a given head
  abbrev history_from : World → Option Bytes → Shown (Bytes × Commit)
  history_from u head = shown_then (commit_of c k u who head) (from_head c k u who fuel)

  history-from :
      (head : Option Bytes)
      → ref_of k w (codes "main") ≡ ok head
      → history c k w who fuel ≡ history_from w head
  unfolding history head_commit
  history-from head named = rw named refl

  -- What comes before a commit in a later store is the history that there was.
  before-history :
      (s' : Store) (keeps : Keeps c k w w.store s') (head : Option Bytes)
      → (history_from w head).ending ≡ finished
      → AreSized (history_from w head).lines
      → before (commit_at c k (at w s') who) (walk_back c k (at w s') who fuel) (id_list c k head)
        ≡ history_from w head
  before-history s' keeps none ends sized = refl
  before-history s' keeps (some p) ends sized = elim (Result-cases (commit_at c k w who p)) [
    | inl (m, r) ↦
        let same : walk_back c k w who fuel p m ≡ history_from w (some p) = rw r refl in
        let (size, rest) =
          walk_back-Keeps c k w who w.store s' keeps fuel p m
            (ap (λ (x : Shown (Bytes × Commit)). x.ending) same ∙ ends)
            (subst (λ (x : Shown (Bytes × Commit)). AreSized x.lines) (sym same) sized) in
        ap (λ (x : Result RepoError Commit). shown_then x (walk_back c k (at w s') who fuel p))
          (commit_at-Keeps c k w w.store s' keeps who p m size r)
        ∙ rest
        ∙ same
    | inr (e, r) ↦
        absurd
          (ends-ok (commit_of c k w who (some p)) (from_head c k w who fuel) e (rw r refl) ends)
  ]

module _ (c : Crypto) (l : IsLawful c) (small : (m : Bytes) → AreBytes (c.hash m)) (k : Codecs)
    (objects : IsCodec k.objects) (trees : IsCodec k.trees) (commits : IsCodec k.commits)
    (w : World) (coherent : IsCoherent c k w) where
  Committed-history :
      (fuel : ℕ) (message id : Bytes) (w' : World) (p : Committed c k w message id w')
      → (history c k w w.me fuel).ending ≡ finished
      → AreSized (history c k w w.me fuel).lines
      → history c k w' w.me (suc fuel)
        ≡ above (id, commit_for c k w p.root p.parent message) (history c k w w.me fuel)
  unfolding history head_commit walk_back ref_of set_ref
  Committed-history fuel message id w' p ends sized =
      let from = history-from c k w w.me fuel p.parent p.was in
      let made = commit_for c k w p.root p.parent message in
      let s' = set_ref p.store (codes "main") id in
      let keeps : Keeps c k w w.store s' = λ i b size there. p.keeps i b size there in
      let earlier =
        before-history c k w w.me fuel s' keeps p.parent
          (ap (λ (x : Shown (Bytes × Commit)). x.ending) (sym from) ∙ ends)
          (subst (λ (x : Shown (Bytes × Commit)). AreSized x.lines) from sized) in
      let reads =
        commit_at-Keeps c k w p.store s' (λ i b size there. there) w.me id made p.sized p.reads in
      ap (λ (u : World). history c k u w.me (suc fuel)) p.after
      ∙ rw
          (
            get_ref-set_ref p.store (codes "main") (codes "main") id p.sized p.bytes_of_id,
            ==_refl (codes "main"),
            reads,
          )
          (ap (above (id, made)) (earlier ∙ sym from))

  -- In a store where every object stands at its hash, where the grants of whoever keeps are genuine
  -- and the chains of the closes are in order: after a keeping that succeeds, the history that is
  -- shown is the new keeping, with its message and its author, and below it all of the history that
  -- was shown to its end before, unless bytes were put into the store at whose address other bytes
  -- of the same hash stand.
  pub history-keep :
      (listing : Listing) (message : Text) (id : Bytes) (w' : World) (fuel : ℕ)
      → IsSound c w.store
      → keep c k listing message w ≡ (ok id, w')
      → (history c k w w.me fuel).ending ≡ finished
      → AreSized (history c k w w.me fuel).lines
      → Collision c w'.store
        ⊎ ((made : Commit) × (made.message ≡ message)
            × (made.author ≡ w.me)
            × IsKey id
            × (history c k w' w.me (suc fuel) ≡ above (id, made) (history c k w w.me fuel)))
  history-keep listing message id w' fuel sound h ends sized =
      unless
        (keep-Committed c l small k objects trees commits w coherent listing message id w' sound h)
        (λ x. x)
        (λ p. inr (
          commit_for c k w p.root p.parent message,
          refl,
          refl,
          p.sized,
          Committed-history fuel message id w' p ends sized,
        ))
