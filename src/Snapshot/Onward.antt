-- ===== src/Snapshot/Onward.antt =====
-- A collision that a store has shown stays through a keeping (repo.rs, keep and snap_dir).
use close_common.Common.{
  ◌≡◌, ap, subst, List, [], ◌∷◌, ◌++◌, Bool, true, false, if◌then◌else◌, Result, ok, map_err,
}
use close_common.Common.Bytes.{Bytes, Text, codes}
use close_common.Common.Map
use close_common.Common.Map.{Map}
use close_common.Crypto.{Crypto, IsLawful}
use close_common.Facet
use close_common.Close.{CloseRecord}
use close_common.Dag.{Commit, TreeEntry}
use close_common.Seal.{SealedObject, ShapeCard, ObjectKind, blob, tree, commit, encode}
use close_common.Store.{put}
use close_common.Store.Sound.{Collision, put-Collision, set_ref-Collision}
use close_common.World.{
  Codecs, World, Run, RepoError, reads, given, ◌>>=◌, core, reads_then, given_then, run_then,
}
use close_common.World.Files.{load_close, governing_close, ref_of}
use close_common.Snapshot.{
  Node, Listing, file, dir, empty, item, is_kept, add_entry, dir_steps, join, put_sealed,
  writing_key, seal_as, snap_file, seal_dir, snap_all, snap_node, commons_id, keep_commit,
  commit_for, set_ref_in,
}

module _ (c : Crypto) (k : Codecs) (l : IsLawful c) where
  -- What the first state's store has shown, the second's has too.
  abbrev pub Bears : World → World → Type 0
  Bears v w = Collision c v.store → Collision c w.store

  -- A step that succeeds and only gives a result
  pub pure-Bears :
      {A : Type 0} (a b : A) (v w' : World)
      → ◌≡◌ {A = Result RepoError A × World} (ok a, v) (ok b, w')
      → Bears v w'
  pure-Bears {A} a b v w' h =
      subst (λ (u : World). Collision c u.store) (ap (λ (x : Result RepoError A × World). x.1) h)

  pub put_sealed-Bears :
      (o : SealedObject) (v : World) {id : Bytes} {w' : World}
      → put_sealed c k o v ≡ (ok id, w')
      → Bears v w'
  unfolding put_sealed put
  put_sealed-Bears o v {id} {w'} h x =
      let (envelope, _, rest) = given_then (map_err core (encode c k.objects o)) _ v h in
      subst (λ (u : World). Collision c u.store)
        (ap (λ (p : Result RepoError Bytes × World). p.1) rest)
        (put-Collision c l v.store envelope x)

  -- Sealing, putting, and what is left to do
  pub sealed-Bears :
      {A : Type 0} (kind : ObjectKind) (r : CloseRecord) (key : Bytes) (card : ShapeCard)
      (bytes : Bytes) (v : World) (next : SealedObject → Bytes → Run A) {a : A} {w' : World}
      → ((o : SealedObject) (id : Bytes) (u : World) → next o id u ≡ (ok a, w') → Bears u w')
      → (given (seal_as c k r key kind card bytes) >>= λ o. put_sealed c k o >>= next o) v
        ≡ (ok a, w')
      → Bears v w'
  sealed-Bears kind r key card bytes v next onward h x =
      let (o, _, h₁) = given_then (seal_as c k r key kind card bytes) _ v h in
      let (id, u, puts, h₂) = run_then (put_sealed c k o) (next o) v h₁ in
      onward o id u h₂ (put_sealed-Bears o v puts x)

  snap_file-Bears :
      (bytes : Bytes) (rel : List Text) (v : World) {e : TreeEntry} {w' : World}
      → snap_file c k bytes rel v ≡ (ok e, w')
      → Bears v w'
  unfolding snap_file
  snap_file-Bears bytes rel v {e} {w'} h =
      let (close, _, h₁) = reads_then (λ w. governing_close k w (join rel)) _ v h in
      let (r, _, h₂) = reads_then (λ w. load_close k w close) _ v h₁ in
      let (key, _, h₃) = reads_then (λ w. writing_key c k w r) _ v h₂ in
      sealed-Bears blob r key _ bytes v _ (λ o id u. pure-Bears _ e u w') h₃

  pub seal_dir-Bears :
      (rel : List Text) (close : Bytes) (entries : Map TreeEntry) (v : World) {e : TreeEntry}
      {w' : World}
      → seal_dir c k rel close entries v ≡ (ok e, w')
      → Bears v w'
  unfolding seal_dir
  seal_dir-Bears rel close entries v {e} {w'} h =
      let (r, _, h₁) = reads_then (λ w. load_close k w close) _ v h in
      let (key, _, h₂) = reads_then (λ w. writing_key c k w r) _ v h₁ in
      let (bytes, _, h₃) =
        given_then
          (map_err (λ e. core (Facet.encoding e))
            (k.trees.to_allocvec (record { entries = entries })))
          _ v h₂ in
      sealed-Bears tree r key _ bytes v _ (λ o id u. pure-Bears _ e u w') h₃

  dir_steps-Bears :
      (rel : List Text) (loop : Map TreeEntry → Run (Map TreeEntry)) (v : World) {e : TreeEntry}
      {w' : World}
      → ((m : Map TreeEntry) (u : World) → loop [] v ≡ (ok m, u) → Bears v u)
      → dir_steps c k rel loop v ≡ (ok e, w')
      → Bears v w'
  dir_steps-Bears rel loop v all h x =
      let (close, _, h₁) = reads_then (λ w. governing_close k w (join rel)) _ v h in
      let (entries, u, looped, h₂) = run_then (loop []) _ v h₁ in
      seal_dir-Bears rel close entries u h₂ (all entries u looped x)

  add_entry-Bears :
      (name : Text) (snap : Run TreeEntry) (later : Map TreeEntry → Run (Map TreeEntry))
      (m : Map TreeEntry) (v : World) {entries : Map TreeEntry} {w' : World}
      → ((e : TreeEntry) (u : World) → snap v ≡ (ok e, u) → Bears v u)
      → ((m' : Map TreeEntry) (u : World) → later m' u ≡ (ok entries, w') → Bears u w')
      → add_entry c k name snap later m v ≡ (ok entries, w')
      → Bears v w'
  add_entry-Bears name snap later m v {entries} {w'} one all h x = chosen (is_kept name) h
    where
      chosen :
          (b : Bool)
          → (if b then (snap >>= λ e. later (Map.insert name e m)) else later m) v
            ≡ (ok entries, w')
          → Collision c w'.store
      chosen true h =
          let (e, u, stepped, h₁) = run_then snap _ v h in
          all (Map.insert name e m) u h₁ (one e u stepped x)
      chosen false h = all m v h x

  mutual
    unfolding snap_all snap_node

    pub snap_all-Bears :
        (listing : Listing) (rel : List Text) (m : Map TreeEntry) (v : World)
        {entries : Map TreeEntry} {w' : World}
        → snap_all c k listing rel m v ≡ (ok entries, w')
        → Bears v w'
    snap_all-Bears empty rel m v {entries} {w'} h = pure-Bears m entries v w' h
    snap_all-Bears (item name node rest) rel m v h =
        add_entry-Bears name (snap_node c k node (rel ++ name ∷ [])) (snap_all c k rest rel) m v
          (λ e u. snap_node-Bears node (rel ++ name ∷ []) v) (λ m' u. snap_all-Bears rest rel m' u)
          h

    snap_node-Bears :
        (node : Node) (rel : List Text) (v : World) {e : TreeEntry} {w' : World}
        → snap_node c k node rel v ≡ (ok e, w')
        → Bears v w'
    snap_node-Bears (file bytes) rel v h = snap_file-Bears bytes rel v h
    snap_node-Bears (dir listing) rel v h =
        dir_steps-Bears rel (snap_all c k listing rel) v (λ m u. snap_all-Bears listing rel [] v) h

  -- The end of a keeping, which sets the ref
  pub named-Bears :
      (id : Bytes) (w' : World) (o : SealedObject) (kept : Bytes) (u : World)
      → ◌≡◌ {A = Result RepoError Bytes × World}
          (ok kept, set_ref_in c k (codes "main") kept u)
          (ok id, w')
      → Bears u w'
  named-Bears id w' o kept u h x =
      pure-Bears kept id (set_ref_in c k (codes "main") kept u) w' h
        (set_ref-Collision c u.store (codes "main") kept x)

  keep_commit-Bears :
      (r : CloseRecord) (key : Bytes) (made : Commit) (v : World) {id : Bytes} {w' : World}
      → keep_commit c k r key made v ≡ (ok id, w')
      → Bears v w'
  unfolding keep_commit
  keep_commit-Bears r key made v {id} {w'} h =
      let (bytes, _, h₁) =
        given_then (map_err (λ e. core (Facet.encoding e)) (k.commits.to_allocvec made)) _ v h in
      sealed-Bears commit r key _ bytes v
        (λ o kept u. (ok kept, set_ref_in c k (codes "main") kept u)) (named-Bears id w') h₁

  -- What `keep` does once the root is sealed
  abbrev pub rest_of_keep : TreeEntry → Text → Run Bytes
  rest_of_keep root message = reads (commons_id c k) >>= λ id.
      reads (λ w. load_close k w id) >>= λ commons.
      reads (λ w. writing_key c k w commons) >>= λ key.
      reads (λ w. ref_of k w (codes "main")) >>= λ parent.
      λ w. keep_commit c k commons key (commit_for c k w root parent message) w

  pub rest_of_keep-Bears :
      (root : TreeEntry) (message : Text) (v : World) {id : Bytes} {w' : World}
      → rest_of_keep root message v ≡ (ok id, w')
      → Bears v w'
  rest_of_keep-Bears root message v h =
      let (top, _, h₁) = reads_then (commons_id c k) _ v h in
      let (r, _, h₂) = reads_then (λ w. load_close k w top) _ v h₁ in
      let (key, _, h₃) = reads_then (λ w. writing_key c k w r) _ v h₂ in
      let (parent, _, h₄) = reads_then (λ w. ref_of k w (codes "main")) _ v h₃ in
      keep_commit-Bears r key (commit_for c k v root parent message) v h₄
