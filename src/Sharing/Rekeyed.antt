-- ===== src/Sharing/Rekeyed.antt =====
-- What a change of the lock leaves of the keys before it (main.rs, rotate).
use close_common.Common.{
  ℕ, suc, ◌+◌, ◌<◌, ◌≤◌, ◌≡◌, sym, ◌∙◌, ap, subst, List, [], ◌∷◌, Option, some, not, Result, ok,
  map_err, map_err-ok, ok_or, ok_or-eq-ok, ok-injective, arith,
}
use close_common.Common.Bytes.{Bytes, Text, ◌==◌, ==_refl, u32_mod}
use close_common.Crypto.{Crypto, IsLawful, ReadsBack}
use close_common.Facet.{content, shape, presence, Facet}
use close_common.Close
use close_common.Close.{CloseRecord, content_key_at}
use close_common.Close.Epochs.{IsKeyed, content_key_at-back}
use close_common.Close.History.{extend, extend_old, extend_new, rotate-IsKeyed}
use close_common.Grant.{Identity}
use close_common.Grant.Wrap.{Encodes}
use close_common.Id.{to_hex}
use close_common.Store.{write}
use close_common.World.{
  Codecs, World, RepoError, reads_then, run_then, given_then, stop_then, core, not_the_steward,
  no_current_key, unwritable,
}
use close_common.World.Files.{
  load_close, identity, governing_close, public_of, current_content_key, written, parse,
}
use close_common.Snapshot.{join}
use close_common.Snapshot.Sealed.{IsCoherent}
use close_common.Sharing.{ephemeral, add_grant, save_close}
use close_common.Sharing.Genuine.{current-key}
use close_common.Sharing.Untouched.{rotate-epoch}
use close_common.Sharing.Relock.{Keeper, issue_for, reissue, relock, rotate, keepers_of}

ephemeral-closes :
    (f : Facet) (w : World) {e : Bytes} {w' : World}
    → ephemeral f w ≡ (ok e, w')
    → w'.closes ≡ w.closes
ephemeral-closes presence w h = ap (λ (x : Result RepoError Bytes × World). x.1.closes) (sym h)
ephemeral-closes shape w h = ap (λ (x : Result RepoError Bytes × World). x.1.closes) (sym h)
ephemeral-closes content w h = ap (λ (x : Result RepoError Bytes × World). x.1.closes) (sym h)

module _ (c : Crypto) (k : Codecs) where
  written-file :
      (name bytes : Bytes) (files : Text → Option Bytes) (r : CloseRecord)
      → k.closes.from_bytes bytes ≡ ok r
      → parse k.closes (write name bytes files name) ≡ ok r
  unfolding write
  written-file name bytes files r h = rw (==_refl name, h)

  -- Grants go to other files than closes.
  reissue-closes :
      (r : CloseRecord) (me : Identity) (key : Bytes) (keepers : List Keeper) (w : World)
      {w' : World}
      → reissue c k r me key keepers w ≡ (ok tt, w')
      → w'.closes ≡ w.closes
  unfolding reissue add_grant
  reissue-closes r me key [] w h =
      ap (λ (x : Result RepoError (Unit {0}) × World). x.1.closes) (sym h)
  reissue-closes r me key (x ∷ keepers) w h =
      let (holder, _, h₁) = reads_then (λ w. public_of k w x.name) _ w h in
      let (eph, v, drawn, h₂) = run_then (ephemeral x.facet) _ w h₁ in
      let (g, _, h₃) = given_then (issue_for c k r me key holder eph x) _ v h₂ in
      let (_, u, added, h₄) = run_then (add_grant c k x.name g) _ v h₃ in
      let (_, _, wrote) = given_then (map_err _ (k.grants.to_allocvec g)) _ v added in
      reissue-closes r me key keepers u h₄
      ∙ ap (λ (x : Result RepoError (Unit {0}) × World). x.1.closes) (sym wrote)
      ∙ ephemeral-closes x.facet w drawn

  relock-files :
      (r : CloseRecord) (me : Identity) (key : Bytes) (keepers : List Keeper) (fresh : Bytes)
      (v : World) (r' : CloseRecord) (w' : World)
      → ReadsBack k.closes r'
      → relock c k r me key keepers fresh v ≡ (ok r', w')
      → (new : Bytes) × (Close.rotate c r key fresh ≡ ok (r', new))
        × (load_close k w' r'.id ≡ ok r')
  unfolding relock save_close load_close write
  relock-files r me key keepers fresh v r' w' codec h =
      let (changed, rotates, h₂) = given_then (map_err core (Close.rotate c r key fresh)) _ v h in
      let (_, u, saves, h₃) = run_then (save_close c k changed.0) _ v h₂ in
      let (_, x, reissues, done) = run_then (reissue c k changed.0 me changed.1 keepers) _ u h₃ in
      let (bytes, encodes, wrote) =
        given_then (written (k.closes.to_allocvec changed.0)) _ v saves in
      let same : changed.0 ≡ r' =
        ok-injective (ap (λ (x : Result RepoError CloseRecord × World). x.0) done) in
      let after : x ≡ w' = ap (λ (x : Result RepoError CloseRecord × World). x.1) done in
      let filed : w'.closes ≡ write (to_hex r'.id) bytes v.closes =
        ap (λ (z : World). z.closes) (sym after)
        ∙ reissue-closes changed.0 me changed.1 keepers u reissues
        ∙ ap (λ (z : Result RepoError (Unit {0}) × World). z.1.closes) (sym wrote)
        ∙ ap (λ (z : CloseRecord). write (to_hex z.id) bytes v.closes) same in
      let reads : k.closes.from_bytes bytes ≡ ok r' = codec bytes (
        ap (λ (z : CloseRecord). k.closes.to_allocvec z) (sym same)
        ∙ map_err-ok (λ _. unwritable) _ encodes) in
      (
        changed.1,
        map_err-ok core _ rotates ∙ ap (λ (z : CloseRecord). ok (z, changed.1)) same,
        ap (λ (files : Text → Option Bytes). parse k.closes (files (to_hex r'.id))) filed
            ∙ written-file (to_hex r'.id) bytes v.closes r' reads,
      )

  rekeyed :
      (l : IsLawful c) (encodes : Encodes k.bodies) (w : World) (coherent : IsCoherent c k w)
      (close : Bytes) (r r' : CloseRecord) (w' : World) (i : ℕ)
      (loads : load_close k w close ≡ ok r) (me : Identity) (known : identity k w w.me ≡ ok me)
      (found fresh new : Bytes)
      → r.epoch + 1 < u32_mod
      → i ≤ r.epoch
      → current_content_key k w c w.me r ≡ some found
      → Close.rotate c r found fresh ≡ ok (r', new)
      → load_close k w' r'.id ≡ ok r'
      → (new : Bytes) × (load_close k w' close ≡ ok r')
        × (r'.epoch ≡ suc r.epoch)
        × IsKeyed c r' (extend (coherent.keys close r loads) r.epoch new)
        × (content_key_at c r' new r'.epoch i ≡ ok (coherent.keys close r loads i))
  rekeyed l encodes w coherent close r r' w' i loads me known found fresh new fits le finds rotates
        filed =
      let key = coherent.keys close r loads in
      let current : key r.epoch ≡ found =
        current-key c l k encodes w coherent close r loads me me known found finds in
      let named : r'.id ≡ close =
        (rotate-epoch c k r found fresh rotates).1 ∙ coherent.filed close r loads in
      let (link, made, up, keyed) =
        rotate-IsKeyed c l r key (coherent.keyed close r loads) fresh fits in
      let same =
        ok-injective (sym made ∙ ap (λ (x : Bytes). Close.rotate c r x fresh) current ∙ rotates) in
      let ordered : IsKeyed c r' (extend key r.epoch new) =
        subst (λ (x : CloseRecord × Bytes). IsKeyed c x.0 (extend key r.epoch x.1)) same keyed in
      let counts : r'.epoch ≡ suc r.epoch =
        ap (λ (x : CloseRecord × Bytes). x.0.epoch) (sym same) ∙ up in
      (
        new,
        ap (load_close k w') (sym named) ∙ filed,
        counts,
        ordered,
        ap (λ (x : Bytes). content_key_at c r' x r'.epoch i)
              (sym (extend_new key r.epoch new)
                ∙ ap (λ (n : ℕ). extend key r.epoch new n) (sym counts))
            ∙ content_key_at-back c r' (extend key r.epoch new) ordered r'.epoch i (omega arith)
                (omega (arith, counts, le))
            ∙ ap (λ (x : Bytes). ok x) (extend_old key r.epoch new i le),
      )

  -- In a coherent state, a change of the lock that succeeds, before the epoch reaches the end of its 32
  -- bits and where the file of the close reads back, leaves in the file a record that is one epoch further,
  -- and whose chain is in order with the close's old keys and a new one: from the new key, the content
  -- key of every earlier epoch is found.
  pub rotate-content_key_at :
      (l : IsLawful c) (encodes : Encodes k.bodies) (w : World) (coherent : IsCoherent c k w)
      (path except : List Text) (close : Bytes) (r r' : CloseRecord) (w' : World) (i : ℕ)
      (loads : load_close k w close ≡ ok r)
      → governing_close k w (join path) ≡ ok close
      → ReadsBack k.closes r'
      → r.epoch + 1 < u32_mod
      → i ≤ r.epoch
      → rotate c k path except w ≡ (ok r', w')
      → (new : Bytes) × (load_close k w' close ≡ ok r')
        × (r'.epoch ≡ suc r.epoch)
        × IsKeyed c r' (extend (coherent.keys close r loads) r.epoch new)
        × (content_key_at c r' new r'.epoch i ≡ ok (coherent.keys close r loads i))
  unfolding rotate
  rotate-content_key_at l encodes w coherent path except close r r' w' i loads governs codec fits le
        h =
      let (close₀, governs', h₁) = reads_then (λ w. governing_close k w (join path)) _ w h in
      let (r₀, loads', h₂) = reads_then (λ w. load_close k w close₀) _ w h₁ in
      let (me, known, h₃) = reads_then (λ w. identity k w w.me) _ w h₂ in
      let (_, h₄) =
        stop_then (not (r₀.steward == c.verifying_key me.sign)) not_the_steward _ w h₃ in
      let (found, finds, h₅) =
        reads_then (λ w. ok_or (current_content_key k w c w.me r₀) no_current_key) _ w h₄ in
      let fresh = w.random w.drawn in
      let (new, rotates, filed) =
        relock-files r₀ me found (keepers_of c k w close₀ r₀ except w.people) fresh
          (record w { drawn = suc w.drawn }) r' w' codec h₅ in
      let same : r₀ ≡ r =
        ok-injective
          (sym loads' ∙ ap (load_close k w) (ok-injective (sym governs' ∙ governs)) ∙ loads) in
      rekeyed l encodes w coherent close r r' w' i loads me known found fresh new fits le
        (ap (λ (x : CloseRecord). current_content_key k w c w.me x) (sym same)
          ∙ ok_or-eq-ok _ no_current_key finds)
        (ap (λ (x : CloseRecord). Close.rotate c x found fresh) (sym same) ∙ rotates) filed
