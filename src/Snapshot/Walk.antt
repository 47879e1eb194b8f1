-- ===== src/Snapshot/Walk.antt =====
-- The walk over a directory: a snapshot shows every file at its path (repo.rs, snap_file and snap_dir).
use close_common.Common.{
  ◌≡◌, ◌⊎◌, inr, refl, sym, ◌∙◌, ap, subst, List, [], ◌∷◌, ◌++◌, Result, ok, map_err, map_err-ok,
  to_option, ok-injective,
}
use close_common.Common.Bytes.{Bytes, Text}
use close_common.Common.Map
use close_common.Common.Map.{Map, get-insert}
use close_common.Crypto.{Crypto, IsLawful, IsCodec}
use close_common.Facet
use close_common.Seal.{blob, tree}
use close_common.Dag.{Tree, TreeEntry, is_tree}
use close_common.Store.{Store}
use close_common.Store.Sound.{Collision, IsSound}
use close_common.World.{Codecs, World, Run, RepoError, given_then, reads_then, run_then, core}
use close_common.World.Files.{load_close, governing_close}
use close_common.Snapshot.{
  Node, file, dir, Listing, empty, item, join, writing_key, snap_file, seal_dir, dir_steps,
  snap_all, snap_node, snap_dir,
}
use close_common.Snapshot.Sealed.{
  at, unless, IsCoherent, Grown-refl, open_blob-Made, open_tree-Made, sealed-Put,
}
use close_common.Snapshot.Shows.{
  Keeps-Shows, Snapped, SnappedAll, file-AllShow, dir-AllShow, current_key, snapped,
}
use close_common.Snapshot.Entries.{item-All}
use close_common.Snapshot.Onward.{pure-Bears, seal_dir-Bears, snap_all-Bears}

module _ (c : Crypto) (k : Codecs) (w : World) where
  module _ (l : IsLawful c) (objects : IsCodec k.objects) (coherent : IsCoherent c k w) where
    snap_file-Snapped :
        (bytes : Bytes) (rel : List Text) (s : Store) (e : TreeEntry) (w' : World)
        → IsSound c s
        → snap_file c k bytes rel (at w s) ≡ (ok e, w')
        → Collision c w'.store ⊎ Snapped c k w (file bytes) s e w'
    unfolding snap_file load_close
    snap_file-Snapped bytes rel s e w' sound h =
        let (close, _, h₁) = reads_then (λ w. governing_close k w (join rel)) _ (at w s) h in
        let (r, loads, h₂) = reads_then (λ w. load_close k w close) _ (at w s) h₁ in
        let (key, writes, h₃) = reads_then (λ w. writing_key c k w r) _ (at w s) h₂ in
        unless
          (sealed-Put c k w l objects blob close r key _ bytes s _ sound loads
            (current_key c k w s r key writes) (λ o cipher u. pure-Bears c k l _ e u w') h₃)
          (λ x. x)
          (λ (o, cipher, v, made, p, done). inr (
            snapped c k w (file bytes) s s o _ e v w' (Grown-refl c k w s sound) p
              (file-AllShow c k w p.store bytes cipher (
                o,
                p.holds,
                ap is_tree made.opens.same_kind,
                open_blob-Made c k w coherent p.store blob bytes o refl made,
              ))
              done))

    module _ (trees : IsCodec k.trees) where
      seal_dir-Snapped :
          (listing : Listing) (rel : List Text) (close : Bytes) (s : Store)
          (entries : Map TreeEntry) (e : TreeEntry) (v w' : World)
          → SnappedAll c k w listing s [] entries v
          → seal_dir c k rel close entries v ≡ (ok e, w')
          → Collision c w'.store ⊎ Snapped c k w (dir listing) s e w'
      unfolding seal_dir load_close
      seal_dir-Snapped listing rel close s entries e v w' all h =
          let h₀ =
            subst (λ (u : World). seal_dir c k rel close entries u ≡ (ok e, w')) all.after h in
          let (r, loads, h₁) = reads_then (λ w. load_close k w close) _ (at w all.store) h₀ in
          let (key, writes, h₂) = reads_then (λ w. writing_key c k w r) _ (at w all.store) h₁ in
          let (bytes, encodes, h₃) =
            given_then
              (map_err (λ e. core (Facet.encoding e))
                (k.trees.to_allocvec (record { entries = entries })))
              _ (at w all.store) h₂ in
          let decodes =
            trees (record { entries = entries }) bytes
              (map_err-ok (λ e. core (Facet.encoding e)) _ encodes) in
          unless
            (sealed-Put c k w l objects tree close r key _ bytes all.store _ all.grown.sound loads
              (current_key c k w all.store r key writes) (λ o cipher u. pure-Bears c k l _ e u w')
              h₃)
            (λ x. x)
            (λ (o, cipher, v, made, p, done). inr (
              snapped c k w (dir listing) s all.store o _ e v w' all.grown p
                (dir-AllShow c k w p.store listing cipher o (record { entries = entries }) p.holds
                  (open_tree-Made c k w coherent p.store bytes o made
                    ∙ ap (λ (x : Result Text Tree). to_option x) decodes)
                  (λ name node there.
                    let (x, entry, shown) = all.shown name node there in
                    (
                      x,
                      entry,
                      λ path b found.
                          Keeps-Shows c k w all.store p.store path x.cipher b p.grown.keeps
                            (shown path b found),
                    )))
                done))

      dir-Snapped :
          (listing : Listing) (rel : List Text) (loop : Map TreeEntry → Run (Map TreeEntry))
          (s : Store) (e : TreeEntry) (w' : World)
          → ((entries : Map TreeEntry) (v : World)
              → loop [] (at w s) ≡ (ok entries, v)
              → Collision c v.store ⊎ SnappedAll c k w listing s [] entries v)
          → dir_steps c k rel loop (at w s) ≡ (ok e, w')
          → Collision c w'.store ⊎ Snapped c k w (dir listing) s e w'
      dir-Snapped listing rel loop s e w' all h =
          let (close, _, h₁) = reads_then (λ w. governing_close k w (join rel)) _ (at w s) h in
          let (entries, v, looped, h₂) = run_then (loop []) _ (at w s) h₁ in
          unless (all entries v looped) (seal_dir-Bears c k l rel close entries v h₂)
            (λ a. seal_dir-Snapped listing rel close s entries e v w' a h₂)

      mutual
        unfolding snap_all snap_node

        snap_all-All :
            (listing : Listing) (rel : List Text) (s : Store) (m entries : Map TreeEntry)
            (v : World)
            → IsSound c s
            → snap_all c k listing rel m (at w s) ≡ (ok entries, v)
            → Collision c v.store ⊎ SnappedAll c k w listing s m entries v
        snap_all-All empty rel s m entries v sound h = inr (record {
          store = s;
          after = sym (ap (λ (x : Result RepoError (Map TreeEntry) × World). x.1) h);
          grown = Grown-refl c k w s sound;
          others = λ name gone.
              ap (Map.get name)
                (sym (ok-injective (ap (λ (x : Result RepoError (Map TreeEntry) × World). x.0) h)));
          shown = λ name node there. cc;
        })
        snap_all-All (item name node rest) rel s m entries v sound h =
            item-All c k w name node rest (snap_node c k node (rel ++ name ∷ []))
              (snap_all c k rest rel) s m entries v (λ m' u. snap_all-Bears c k l rest rel m' u)
              (λ e u. snap_node-Snapped node (rel ++ name ∷ []) s e u sound)
              (λ s' m'. snap_all-All rest rel s' m' entries v) sound h

        snap_node-Snapped :
            (node : Node) (rel : List Text) (s : Store) (e : TreeEntry) (w' : World)
            → IsSound c s
            → snap_node c k node rel (at w s) ≡ (ok e, w')
            → Collision c w'.store ⊎ Snapped c k w node s e w'
        snap_node-Snapped (file bytes) rel s e w' sound h =
            snap_file-Snapped bytes rel s e w' sound h
        snap_node-Snapped (dir listing) rel s e w' sound h =
            dir-Snapped listing rel (snap_all c k listing rel) s e w'
              (λ entries v. snap_all-All listing rel s [] entries v sound) h

      -- A snapshot of a directory shows each of its files at its path.
      pub snap_dir-Snapped :
          (listing : Listing) (s : Store) (e : TreeEntry) (w' : World)
          → IsSound c s
          → snap_dir c k listing [] (at w s) ≡ (ok e, w')
          → Collision c w'.store ⊎ Snapped c k w (dir listing) s e w'
      unfolding snap_dir
      snap_dir-Snapped listing s e w' sound h =
          dir-Snapped listing [] (snap_all c k listing []) s e w'
            (λ entries v. snap_all-All listing [] s [] entries v sound) h
