-- ===== src/Snapshot/Back.antt =====
-- Keeping a directory and opening its files (repo.rs, keep and resolve_path; main.rs, open).
use close_common.Common.{
  ◌≡◌, ◌⊎◌, inr, refl, sym, ◌∙◌, ap, subst, List, [], ◌∷◌, some, false, Result, ok, map_err,
  map_err-ok,
}
use close_common.Common.Bytes.{Bytes, Text, codes, AreBytes, ==_refl}
use close_common.Crypto.{Crypto, IsLawful, IsCodec}
use close_common.Facet
use close_common.Close.{CloseRecord}
use close_common.Seal.{commit, SealedObject, cipher_id}
use close_common.Dag.{Commit, is_tree}
use close_common.Store.{Store, set_ref}
use close_common.Store.Sound.{Collision, IsSound, get_ref-set_ref}
use close_common.World.{Codecs, World, RepoError, reads, given_then, reads_then, run_after, core}
use close_common.World.Files.{
  load_close, load_sealed, ref_of, current_content_key, key_for, open_blob,
}
use close_common.Snapshot.{
  Listing, dir, snap_dir, writing_key, keep_commit, commit_for, set_ref_in, keep, commons_id,
}
use close_common.Snapshot.Onward.{named-Bears, rest_of_keep-Bears}
use close_common.Snapshot.Sealed.{
  at, unless, IsCoherent, Holds, Keeps-Holds, open_blob-Made, load_sealed-Holds, sealed-Put,
}
use close_common.Snapshot.Walk.{snap_dir-Snapped}
use close_common.Snapshot.Shows.{lookup, Shows, Keeps-Shows, current_key}
use close_common.Browse.{resolve_from, resolve_path, head_commit, commit_at, open_path}

module _ (c : Crypto) (k : Codecs) (w : World) (s : Store) (sound : IsSound c s) where
  open_from :
      (path : List Text) (id bytes : Bytes)
      → Shows c k w s path id bytes
      → (first o : SealedObject) × (load_sealed k (at w s) c id ≡ ok first)
        × (resolve_from c k (at w s) w.me first path ≡ ok o)
        × (is_tree o.kind ≡ false)
        × (open_blob k (at w s) c w.me o ≡ some bytes)
  unfolding resolve_from
  open_from [] id bytes (o, holds, leaf, opens) =
      (o, o, load_sealed-Holds c k w s id o sound holds, refl, leaf, opens)
  open_from (name ∷ path) id bytes (o, t, e, holds, opens, there, rest) =
      let (next, last, loads, resolves, leaf, reads) = open_from path e.cipher bytes rest in
      (
        o,
        last,
        load_sealed-Holds c k w s id o sound holds,
        rw (opens, there, loads, resolves),
        leaf,
        reads,
      )

  -- The store of a keeping: its commit stands at the id, and shows the files under its tree.
  record Kept (id : Bytes) (path : List Text) (bytes : Bytes) : Type 0 where
    made : Commit
    o : SealedObject
    envelope : Bytes
    holds : Holds c k w s id o
    opens : open_blob k (at w s) c w.me o ≡ some envelope
    decodes : k.commits.from_bytes envelope ≡ ok made
    named : ref_of k (at w s) (codes "main") ≡ ok (some id)
    shows : Shows c k w s path made.tree bytes

  open_path-Kept :
      (id : Bytes) (path : List Text) (bytes : Bytes)
      → Kept id path bytes
      → open_path c k (at w s) w.me path ≡ ok bytes
  unfolding open_path resolve_path head_commit commit_at
  open_path-Kept id path bytes kept =
      let (first, o, loads, resolves, leaf, opens) =
        open_from path kept.made.tree bytes kept.shows in
      rw (
        kept.named,
        load_sealed-Holds c k w s id kept.o sound kept.holds,
        kept.opens,
        kept.decodes,
        loads,
        resolves,
        leaf,
        opens,
      )

-- The commit is in the store, and what it lists as well; the ref is set.
set_ref-Kept :
    (c : Crypto) (small : (m : Bytes) → AreBytes (c.hash m)) (k : Codecs) (w : World) (s : Store)
    (id : Bytes) (path : List Text) (bytes envelope : Bytes) (made : Commit) (o : SealedObject)
    → IsSound c s
    → Holds c k w s id o
    → open_blob k (at w s) c w.me o ≡ some envelope
    → k.commits.from_bytes envelope ≡ ok made
    → Shows c k w s path made.tree bytes
    → open_path c k (at w (set_ref s (codes "main") id)) w.me path ≡ ok bytes
unfolding set_ref open_blob load_close key_for ref_of cipher_id
set_ref-Kept c small k w s id path bytes envelope made o sound holds opens decodes shows =
    let bytes_of_id : AreBytes id =
      subst AreBytes (sound id holds.sized holds.envelope holds.there) (small holds.envelope) in
    open_path-Kept c k w (set_ref s (codes "main") id) sound id path bytes (record {
      made = made;
      o = o;
      envelope = envelope;
      holds =
          Keeps-Holds c k w s (set_ref s (codes "main") id) id o (λ i b size there. there) holds;
      opens = opens;
      decodes = decodes;
      named = rw (
        get_ref-set_ref s (codes "main") (codes "main") id holds.sized bytes_of_id,
        ==_refl (codes "main"),
      );
      shows =
          Keeps-Shows c k w s (set_ref s (codes "main") id) path made.tree bytes
            (λ i b size there. there) shows;
    })

module _ (c : Crypto) (l : IsLawful c) (small : (m : Bytes) → AreBytes (c.hash m)) (k : Codecs)
    (objects : IsCodec k.objects) (trees : IsCodec k.trees) (commits : IsCodec k.commits)
    (w : World) (coherent : IsCoherent c k w) where
  keep_commit-Kept :
      (s : Store) (top : Bytes) (r : CloseRecord) (key : Bytes) (made : Commit) (id : Bytes)
      (w' : World) (path : List Text) (bytes : Bytes)
      → IsSound c s
      → load_close k w top ≡ ok r
      → current_content_key k w c w.me r ≡ some key
      → keep_commit c k r key made (at w s) ≡ (ok id, w')
      → Shows c k w s path made.tree bytes
      → Collision c w'.store ⊎ (open_path c k w' w.me path ≡ ok bytes)
  unfolding keep_commit
  keep_commit-Kept s top r key made id w' path bytes sound loads current h shows =
      let (envelope, encodes, h₁) =
        given_then (map_err (λ e. core (Facet.encoding e)) (k.commits.to_allocvec made)) _ (at w s)
          h in
      unless
        (sealed-Put c k w l objects commit top r key _ envelope s
          (λ o kept v. (ok kept, set_ref_in c k (codes "main") kept v)) sound loads current
          (named-Bears c k l id w') h₁)
        (λ x. x)
        (λ (o, kept, v, sealed, p, done).
          let after : at w (set_ref p.store (codes "main") kept) ≡ w' =
            ap (set_ref_in c k (codes "main") kept) (sym p.after)
            ∙ ap (λ (x : Result RepoError Bytes × World). x.1) done in
          let grown = p.grown in
          inr (
            subst (λ (u : World). open_path c k u w.me path ≡ ok bytes) after
              (set_ref-Kept c small k w p.store kept path bytes envelope made o grown.sound p.holds
                (open_blob-Made c k w coherent p.store commit envelope o refl sealed)
                (commits made envelope (map_err-ok (λ e. core (Facet.encoding e)) _ encodes))
                (Keeps-Shows c k w s p.store path made.tree bytes grown.keeps shows))))

  -- In a store where every object stands at its hash, where the grants of whoever keeps are genuine
  -- and the chains of the closes are in order: after a keeping that succeeds, every file of the
  -- directory opens at its path to the bytes that it had, unless bytes were put into the store at
  -- whose address other bytes of the same hash stand.
  pub open_path-keep :
      (listing : Listing) (message : Text) (id : Bytes) (w' : World) (path : List Text)
      (bytes : Bytes)
      → IsSound c w.store
      → keep c k listing message w ≡ (ok id, w')
      → lookup path (dir listing) ≡ some bytes
      → Collision c w'.store ⊎ (open_path c k w' w.me path ≡ ok bytes)
  unfolding keep load_close
  open_path-keep listing message id w' path bytes sound h found =
      let (root, w₁, snaps, h₁) = run_after (snap_dir c k listing []) _ w h in
      unless (snap_dir-Snapped c k w l objects coherent trees listing w.store root w₁ sound snaps)
        (rest_of_keep-Bears c k l root message w₁ (h₁ w₁ refl))
        (λ t.
          let h₂ = h₁ (at w t.store) t.after in
          let (top, _, h₃) = reads_then (commons_id c k) _ (at w t.store) h₂ in
          let (r, loads, h₄) = reads_then (λ w. load_close k w top) _ (at w t.store) h₃ in
          let (key, current, h₅) = reads_then (λ w. writing_key c k w r) _ (at w t.store) h₄ in
          let (parent, _, h₆) = reads_then (λ w. ref_of k w (codes "main")) _ (at w t.store) h₅ in
          let grown = t.grown in
          keep_commit-Kept t.store top r key (commit_for c k w root parent message) id w' path bytes
            grown.sound loads (current_key c k w t.store r key current) h₆
            (t.shows path bytes found))
