-- ===== src/Cell/Authority.antt =====
-- Under what authority a signpost moves.
use close_common.Common.{
  map_err, length, eqb, eqb_iff, arith, ◌≡◌, ◌↔◌, true, ok, refuse_if-not-ok, >>=-eq-ok, map_err-ok,
}
use close_common.Common.Bytes.{Bytes, ◌==◌, ==→eq, eq→==}
use close_common.Crypto.{Crypto, Codec}
use close_common.Facet.{set, contains}
use close_common.Close.{CloseRecord}
use close_common.Grant
use close_common.Grant.{GrantBody, Grant, Identity, public, terms, covers}
use close_common.Grant.Chain.{root_of, verify-root_of}
use close_common.Cell.{CellDecl, Transition, TransitionBody, cell_id, check_mover, verify, encoding}

-- The right to a move: its grant is for the cell's close and held by the mover, carries the point
-- power over the cell's path, and verified when the move was made.
pub record IsAuthorized (c : Crypto) (bodies : Codec GrantBody) (r : CloseRecord) (decl : CellDecl)
    (t : TransitionBody) : Type 0 where
  pub cell : t.cell ≡ cell_id c decl
  pub close : (terms t.grant).close ≡ decl.close
  pub holder : (terms t.grant).holder.sign ≡ t.by.sign
  pub power : contains (terms t.grant).powers set ≡ true
  pub path : covers t.grant decl.path ≡ true
  pub chain : Grant.verify c bodies r t.when t.grant ≡ ok tt

-- The bytes of the move are signed by the mover that it names.
pub record IsMoved (c : Crypto) (transitions : Codec TransitionBody) (t : Transition) : Type 0 where
  pub bytes : Bytes
  pub valid : c.valid_verifying_key t.body.by.sign ≡ true
  pub encodes : transitions.to_allocvec t.body ≡ ok bytes
  pub sized : length t.sig ≡ 64
  pub verifies : c.verify t.body.by.sign bytes t.sig ≡ true

check_mover-IsMoved :
    (c : Crypto) (transitions : Codec TransitionBody) (t : Transition)
    → check_mover c transitions t ≡ ok tt
    → IsMoved c transitions t
unfolding check_mover
check_mover-IsMoved c transitions t h =
    let (valid, h₁) = refuse_if-not-ok (c.valid_verifying_key t.body.by.sign) _ _ h in
    let (bytes, encodes, h₂) = >>=-eq-ok (map_err encoding (transitions.to_allocvec t.body)) _ h₁ in
    let (sized, h₃) = refuse_if-not-ok (eqb (length t.sig) 64) _ _ h₂ in
    record {
      bytes = bytes;
      valid = valid;
      encodes = map_err-ok encoding (transitions.to_allocvec t.body) encodes;
      sized = (eqb_iff (length t.sig) 64).0 sized;
      verifies = ground arith;
    }

IsMoved-check_mover :
    (c : Crypto) (transitions : Codec TransitionBody) (t : Transition)
    → IsMoved c transitions t
    → check_mover c transitions t ≡ ok tt
unfolding check_mover
IsMoved-check_mover c transitions t s =
    rw (s.valid, s.encodes, (eqb_iff (length t.sig) 64).1 s.sized, s.verifies)

module _ (c : Crypto) (transitions : Codec TransitionBody) (bodies : Codec GrantBody)
    (r : CloseRecord) (decl : CellDecl) (t : Transition) where
  verify-IsAuthorized :
      verify c transitions bodies t r decl ≡ ok tt
      → IsMoved c transitions t × IsAuthorized c bodies r decl t.body
  unfolding verify
  verify-IsAuthorized h =
      let g = t.body.grant in
      let (_, moved, h₁) = >>=-eq-ok (check_mover c transitions t) _ h in
      let (cell, h₂) = refuse_if-not-ok (t.body.cell == cell_id c decl) _ _ h₁ in
      let (close, h₃) = refuse_if-not-ok ((terms g).close == decl.close) _ _ h₂ in
      let (holder, h₄) = refuse_if-not-ok ((terms g).holder.sign == t.body.by.sign) _ _ h₃ in
      let (power, h₅) = refuse_if-not-ok (contains (terms g).powers set) _ _ h₄ in
      let (path, h₆) = refuse_if-not-ok (covers g decl.path) _ _ h₅ in
      (
        check_mover-IsMoved c transitions t moved,
        record {
          cell = ==→eq _ _ cell;
          close = ==→eq _ _ close;
          holder = ==→eq _ _ holder;
          power = power;
          path = path;
          chain = map_err-ok _ (Grant.verify c bodies r t.body.when g) h₆;
        },
      )

  IsAuthorized-verify :
      IsMoved c transitions t
      → IsAuthorized c bodies r decl t.body
      → verify c transitions bodies t r decl ≡ ok tt
  unfolding verify
  IsAuthorized-verify moved a = rw (
    IsMoved-check_mover c transitions t moved,
    eq→== _ _ a.cell,
    eq→== _ _ a.close,
    eq→== _ _ a.holder,
    a.power,
    a.path,
    a.chain,
  )

  -- A transition verifies exactly when the signature on it is the mover's over its bytes and its grant
  -- authorises the move at its time.
  pub verify-IsAuthorized_iff :
      (verify c transitions bodies t r decl ≡ ok tt)
      ↔ (IsMoved c transitions t × IsAuthorized c bodies r decl t.body)
  verify-IsAuthorized_iff = (verify-IsAuthorized, λ h. IsAuthorized-verify h.0 h.1)

  -- Every accepted move goes back to the steward: the chain of its grant starts with a grant that
  -- the steward issued and that covers the cell's path.
  pub verify-steward :
      verify c transitions bodies t r decl ≡ ok tt
      → ((terms (root_of t.body.grant)).issuer_sign ≡ r.steward)
        × (covers (root_of t.body.grant) decl.path ≡ true)
  verify-steward h =
      let (_, a) = verify-IsAuthorized h in
      verify-root_of c bodies r t.body.when t.body.grant decl.path a.chain a.path
