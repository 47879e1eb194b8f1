-- ===== src/Cell/Moves.antt =====
-- Making a move, against checking it (Transition::make and verify).
use close_common.Common.{ℕ, ◌≡◌, refl, true, ok}
use close_common.Common.Bytes.{Bytes, Text}
use close_common.Crypto.{Crypto, Codec, IsLawful}
use close_common.Facet.{set, contains}
use close_common.Close.{CloseRecord}
use close_common.Grant
use close_common.Grant.{GrantBody, Grant, Identity, public, terms, covers}
use close_common.Cell.{
  CellDecl, Transition, TransitionBody, Head, Value, cell_id, make, check_mover, verify, check_link,
  next_seq, next_prev,
}
use close_common.Cell.Journal.{check_link_iff}
use close_common.Cell.Authority.{IsAuthorized, verify-IsAuthorized_iff}

module _ (c : Crypto) (l : IsLawful c) (transitions : Codec TransitionBody)
    (encodes : (b : TransitionBody) → (bytes : Bytes) × (transitions.to_allocvec b ≡ ok bytes))
    (bodies : Codec GrantBody) (r : CloseRecord) (decl : CellDecl) (head : Head) (value : Value)
    (mover : Identity) (grant : Grant) (when : ℕ) (reason : Text) where
  -- A move made by the holder of a grant with the point power over the path, that verifies at the
  -- time of the move, is made, verifies, and links to the head that it was made on.
  pub verify-make :
      (terms grant).close ≡ decl.close
      → (terms grant).holder.sign ≡ c.verifying_key mover.sign
      → contains (terms grant).powers set ≡ true
      → covers grant decl.path ≡ true
      → Grant.verify c bodies r when grant ≡ ok tt
      → (t : Transition) × (make c transitions decl head value mover grant when reason ≡ ok t)
        × (t.body.value ≡ value)
        × (verify c transitions bodies t r decl ≡ ok tt)
        × (check_link t head ≡ ok tt)
  unfolding make check_mover public
  verify-make close holder power path chain =
      let b : TransitionBody = record {
        cell = cell_id c decl;
        seq = next_seq head;
        prev = next_prev head;
        value = value;
        by = public c mover;
        when = when;
        reason = reason;
        grant = grant;
      } in
      let (bytes, e) = encodes b in
      let t : Transition = record { body = b; sig = c.sign mover.sign bytes } in
      let a : IsAuthorized c bodies r decl b = record {
        cell = refl;
        close = close;
        holder = holder;
        power = power;
        path = path;
        chain = chain;
      } in
      (
        t,
        rw e,
        refl,
        (verify-IsAuthorized_iff c transitions bodies r decl t).1 (
          record {
            bytes = bytes;
            valid = l.valid-verifying_key mover.sign;
            encodes = e;
            sized = l.length-sign mover.sign bytes;
            verifies = l.verify-sign mover.sign bytes;
          },
          a,
        ),
        (check_link_iff t head).1 (refl, refl),
      )
