-- ===== src/Signpost/Opened.antt =====
-- The head of a signpost and its trail (repo.rs, cell_head; main.rs, trail).
use close_common.Common.{
  ℕ, suc, ◌≡◌, refl, sym, ◌∙◌, ap, subst, List, Option, none, some, ok, map_err, map_err-ok, ok_or,
  ok_or-eq-ok, ok-injective, >>=-eq-ok, some-injective,
}
use close_common.Common.Bytes.{Bytes, Text}
use close_common.Crypto.{Crypto}
use close_common.Facet.{content}
use close_common.Close.{CloseRecord}
use close_common.Seal.{SealedObject}
use close_common.Cell.{CellDecl, Transition, head_of, next_prev, open_transition}
use close_common.World.{Codecs, World, cell, needs_everything}
use close_common.World.Files.{load_close, load_sealed, key_for, ref_of}
use close_common.World.Shown.{above}
use close_common.Signpost.{cell_decl, cell_head, cell_ref, open_head}
use close_common.Signpost.Trail.{moved, trail_from, trail}

module _ (c : Crypto) (k : Codecs) (w : World) (who : Text) (decl : CellDecl) where
  -- What stands behind a head that was opened
  pub record Opened (head : Option (Bytes × Transition)) : Type 0 where
    pub named : ref_of k w (cell_ref c k decl) ≡ ok (next_prev (head_of c k.moves k.bodies head))
    pub opens :
        (cipher : Bytes) (t : Transition)
        → head ≡ some (cipher, t)
        → (o : SealedObject) × (r : CloseRecord) × (key : Bytes) × (load_sealed k w c cipher ≡ ok o)
          × (load_close k w decl.close ≡ ok r)
          × (key_for k w c who r content o.epoch ≡ some key)
          × (open_transition c k.cards k.transitions o key ≡ ok t)

  open_head-Opened :
      (x : Option Bytes) (head : Option (Bytes × Transition))
      → ref_of k w (cell_ref c k decl) ≡ ok x
      → open_head c k w who decl x ≡ ok head
      → Opened head
  open_head-Opened none head named h =
      subst Opened (ok-injective h) (record { named = named; opens = λ cipher t e. absurd (cc e) })
  open_head-Opened (some cipher) head named h =
      let (o, loads, h₁) = >>=-eq-ok (load_sealed k w c cipher) _ h in
      let (r, closes, h₂) = >>=-eq-ok (load_close k w decl.close) _ h₁ in
      let (key, finds, h₃) =
        >>=-eq-ok (ok_or (key_for k w c who r content o.epoch) needs_everything) _ h₂ in
      let (t, opens, h₄) =
        >>=-eq-ok (map_err cell (open_transition c k.cards k.transitions o key)) _ h₃ in
      subst Opened (ok-injective h₄) (record {
        named = named;
        opens = λ cipher' t' e.
            let both = some-injective (cipher, t) (cipher', t') e in
            (
              o,
              r,
              key,
              ap (load_sealed k w c) (sym (ap (λ (x : Bytes × Transition). x.0) both)) ∙ loads,
              closes,
              ok_or-eq-ok _ needs_everything finds,
              map_err-ok cell _ opens ∙ ap (λ (x : Bytes × Transition). ok x.1) both,
            );
      })

  pub cell_head-Opened :
      (head : Option (Bytes × Transition)) → cell_head c k w who decl ≡ ok head → Opened head
  unfolding cell_head
  cell_head-Opened head h =
      let (x, named, h₁) = >>=-eq-ok (ref_of k w (cell_ref c k decl)) _ h in
      open_head-Opened x head named h₁

  -- The trail starts with the head.
  pub trail-head :
      (path : List Text) (fuel : ℕ) (cipher : Bytes) (t : Transition) (r : CloseRecord)
      → cell_decl c k w path ≡ ok decl
      → load_close k w decl.close ≡ ok r
      → cell_head c k w who decl ≡ ok (some (cipher, t))
      → trail c k w who path (suc fuel)
        ≡ above (moved cipher t) (trail_from c k w who r fuel t.body.prev)
  unfolding trail
  trail-head path fuel cipher t r stands closes heads =
      let x = cell_head-Opened (some (cipher, t)) heads in
      let (o, r', key, loads, closes', finds, opens) = x.opens cipher t refl in
      let same : r' ≡ r = ok-injective (sym closes' ∙ closes) in
      rw (
        stands,
        closes,
        x.named,
        loads,
        ap (λ (r : CloseRecord). key_for k w c who r content o.epoch) (sym same) ∙ finds,
        opens,
      )

  pub trail-from :
      (path : List Text) (fuel : ℕ) (r : CloseRecord) (head : Option (Bytes × Transition))
      → cell_decl c k w path ≡ ok decl
      → load_close k w decl.close ≡ ok r
      → cell_head c k w who decl ≡ ok head
      → trail c k w who path fuel
        ≡ trail_from c k w who r fuel (next_prev (head_of c k.moves k.bodies head))
  unfolding trail
  trail-from path fuel r head stands closes heads =
      let x = cell_head-Opened head heads in rw (stands, closes, x.named)
