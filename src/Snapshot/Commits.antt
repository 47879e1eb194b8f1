-- ===== src/Snapshot/Commits.antt =====
-- What a keeping adds to the history: one commit, after the one that was the newest (repo.rs, keep).
use close_common.Common.{
  ◌≡◌, ◌⊎◌, inr, refl, sym, ◌∙◌, ap, subst, [], Option, some, Result, ok, map_err, map_err-ok,
  ok-injective,
}
use close_common.Common.Bytes.{Bytes, Text, codes, AreBytes, IsKey}
use close_common.Crypto.{Crypto, IsLawful, IsCodec}
use close_common.Facet
use close_common.Close.{CloseRecord}
use close_common.Seal.{commit, cipher_id}
use close_common.Dag.{TreeEntry}
use close_common.Store.{Store, set_ref, read_ref, get_ref}
use close_common.Store.Sound.{Collision, IsSound}
use close_common.World.{Codecs, World, RepoError, given_then, reads_then, run_after, core}
use close_common.World.Files.{load_close, ref_of, ref_id, current_content_key}
use close_common.Snapshot.{
  Listing, snap_dir, writing_key, keep_commit, commit_for, set_ref_in, keep, commons_id,
}
use close_common.Snapshot.Onward.{named-Bears, rest_of_keep-Bears}
use close_common.Snapshot.Sealed.{
  at, unless, IsCoherent, Keeps, Grown, open_blob-Made, load_sealed-Holds, sealed-Put,
}
use close_common.Snapshot.Walk.{snap_dir-Snapped}
use close_common.Snapshot.Shows.{current_key}
use close_common.Browse.{commit_at}

module _ (c : Crypto) (k : Codecs) (w : World) where
  -- The state after a keeping: a later store, with a commit that whoever keeps reads at the id, and the
  -- ref set to it.
  pub record Committed (message : Text) (id : Bytes) (w' : World) : Type 0 where
    pub store : Store
    pub after : w' ≡ at w (set_ref store (codes "main") id)
    pub sound : IsSound c store
    pub keeps : Keeps c k w w.store store
    pub sized : IsKey id
    pub bytes_of_id : AreBytes id
    pub root : TreeEntry
    pub parent : Option Bytes
    pub was : ref_of k w (codes "main") ≡ ok parent
    pub reads : commit_at c k (at w store) w.me id ≡ ok (commit_for c k w root parent message)

module _ (c : Crypto) (l : IsLawful c) (small : (m : Bytes) → AreBytes (c.hash m)) (k : Codecs)
    (objects : IsCodec k.objects) (trees : IsCodec k.trees) (commits : IsCodec k.commits)
    (w : World) (coherent : IsCoherent c k w) where
  keep_commit-Committed :
      (s : Store) (top : Bytes) (r : CloseRecord) (key : Bytes) (root : TreeEntry)
      (parent : Option Bytes) (message id : Bytes) (w' : World)
      → Grown c k w w.store s
      → load_close k w top ≡ ok r
      → current_content_key k w c w.me r ≡ some key
      → ref_of k w (codes "main") ≡ ok parent
      → keep_commit c k r key (commit_for c k w root parent message) (at w s) ≡ (ok id, w')
      → Collision c w'.store ⊎ Committed c k w message id w'
  unfolding keep_commit commit_at cipher_id
  keep_commit-Committed s top r key root parent message id w' before loads current was h =
      let made = commit_for c k w root parent message in
      let (envelope, encodes, h₁) =
        given_then (map_err (λ e. core (Facet.encoding e)) (k.commits.to_allocvec made)) _ (at w s)
          h in
      unless
        (sealed-Put c k w l objects commit top r key _ envelope s
          (λ o kept v. (ok kept, set_ref_in c k (codes "main") kept v)) before.sound loads current
          (named-Bears c k l id w') h₁)
        (λ x. x)
        (λ (o, kept, v, sealed, p, done).
          let grown = p.grown in
          let holds = p.holds in
          let named : kept ≡ id =
            ok-injective (ap (λ (x : Result RepoError Bytes × World). x.0) done) in
          let kept_so : Committed c k w message kept w' = record {
            store = p.store;
            after =
                sym (ap (λ (x : Result RepoError Bytes × World). x.1) done)
                ∙ ap (set_ref_in c k (codes "main") kept) p.after;
            sound = grown.sound;
            keeps = λ i b size there. grown.keeps i b size (before.keeps i b size there);
            sized = holds.sized;
            bytes_of_id =
                subst AreBytes (grown.sound kept holds.sized holds.envelope holds.there)
                  (small holds.envelope);
            root = root;
            parent = parent;
            was = was;
            reads = rw (
              load_sealed-Holds c k w p.store kept o grown.sound holds,
              open_blob-Made c k w coherent p.store commit envelope o refl sealed,
              commits made envelope (map_err-ok (λ e. core (Facet.encoding e)) _ encodes),
            );
          } in
          inr (subst (λ (i : Bytes). Committed c k w message i w') named kept_so))

  pub keep-Committed :
      (listing : Listing) (message : Text) (id : Bytes) (w' : World)
      → IsSound c w.store
      → keep c k listing message w ≡ (ok id, w')
      → Collision c w'.store ⊎ Committed c k w message id w'
  unfolding keep load_close ref_of get_ref
  keep-Committed listing message id w' sound h =
      let (root, w₁, snaps, h₁) = run_after (snap_dir c k listing []) _ w h in
      unless (snap_dir-Snapped c k w l objects coherent trees listing w.store root w₁ sound snaps)
        (rest_of_keep-Bears c k l root message w₁ (h₁ w₁ refl))
        (λ t.
          let h₂ = h₁ (at w t.store) t.after in
          let (top, _, h₃) = reads_then (commons_id c k) _ (at w t.store) h₂ in
          let (r, loads, h₄) = reads_then (λ w. load_close k w top) _ (at w t.store) h₃ in
          let (key, current, h₅) = reads_then (λ w. writing_key c k w r) _ (at w t.store) h₄ in
          let (parent, was, h₆) = reads_then (λ w. ref_of k w (codes "main")) _ (at w t.store) h₅ in
          let grown = t.grown in
          keep_commit-Committed t.store top r key root parent message id w' grown loads
            (current_key c k w t.store r key current)
            (ap (λ (f : Text → Option Text). ref_id (read_ref (f (codes "main")))) (sym grown.refs)
              ∙ was)
            h₆)
