-- ===== src/ClientSet/Rows.antt =====
-- The matrix of receipts: which batch of a lane a server keeps.
use anymone.Base.{ℕ, ◌≡◌, true, none, some, List, [], ◌∷◌, retain, arith}
use anymone.Base.Equality.{nat_eq}
use anymone.Base.Maps.{get}
use anymone.Base.Ordered.{get-put_at}
use anymone.ClientSet.{Crates, Bundle, ReceiptBatch, SetServer, verify_batch}
use anymone.ClientSet.Server.{
  accept_batch, receive, note_bulletin, submit, accept_fragments, fragment_ok,
}
use anymone.ClientSet.Relaying.{absorb}
use anymone.ClientSet.Steps.{Input, on_bundle, on_bulletin, on_fragments, on_relays, step, run}
use anymone.ClientSet.Keeps.{store_fragments-Keeps, absorb_each-Keeps}

module _ {P Q O : Type 0} (c : Crates P Q O) (sid : List ℕ) where
  accept_batch_order :
      (s : SetServer P Q) (b b' : ReceiptBatch)
      → b.server_id ≡ b'.server_id
      → get s.batches b.server_id ≡ none
      → verify_batch c sid s.server_pks b ≡ true
      → verify_batch c sid s.server_pks b' ≡ true
      → let one = accept_batch c (accept_batch c s sid b).0 sid b' in
        let other = accept_batch c (accept_batch c s sid b').0 sid b in
        (one.1 ≡ true)
        × (other.1 ≡ true)
        × (get one.0.batches b.server_id ≡ some b)
        × (get other.0.batches b.server_id ≡ some b')
  unfolding accept_batch
  accept_batch_order s b b' same empty good good' = ground (
    arith,
    same,
    empty,
    good,
    good',
    get-put_at s.batches b.server_id b.server_id b,
    get-put_at s.batches b'.server_id b.server_id b',
    get-put_at s.batches b.server_id b'.server_id b,
    get-put_at s.batches b'.server_id b'.server_id b',
  )

  receive-batches : (s : SetServer P Q) (b : Bundle P Q) → (receive c s sid b).0.batches ≡ s.batches
  unfolding receive
  receive-batches s b = ground arith

  step_keeps_row :
      (x : Input P Q) (s : SetServer P Q) (lane : ℕ) (b : ReceiptBatch)
      → get s.batches lane ≡ some b
      → get (step c s sid x).0.batches lane ≡ some b
  unfolding note_bulletin submit accept_fragments absorb
  step_keeps_row (on_bundle b') s lane b h = rw (receive-batches s b') h
  step_keeps_row (on_bulletin cid pk) s lane b h = h
  step_keeps_row (on_fragments fs) s lane b h =
      (store_fragments-Keeps c (retain (fragment_ok c s sid) fs) s sid).6 lane b h
  step_keeps_row (on_relays round incoming) s lane b h =
      (absorb_each-Keeps c _ s sid round).6 lane b h

  -- A lane's row is never replaced, whatever reaches the server.
  run_keeps_row :
      (xs : List (Input P Q)) (s : SetServer P Q) (lane : ℕ) (b : ReceiptBatch)
      → get s.batches lane ≡ some b
      → get (run c xs s sid).0.batches lane ≡ some b
  run_keeps_row [] s lane b h = h
  run_keeps_row (x ∷ xs) s lane b h =
      run_keeps_row xs (step c s sid x).0 lane b (step_keeps_row x s lane b h)

  -- A server that holds no row of a lane and takes two different batches that the lane signed
  -- answers both as accepted, and after anything else that reaches it its row is the batch that
  -- came first: the order alone decides the row.
  pub first_batch_stays :
      (s : SetServer P Q) (b b' : ReceiptBatch) (xs xs' : List (Input P Q))
      → b.server_id ≡ b'.server_id
      → get s.batches b.server_id ≡ none
      → verify_batch c sid s.server_pks b ≡ true
      → verify_batch c sid s.server_pks b' ≡ true
      → let one = accept_batch c (accept_batch c s sid b).0 sid b' in
        let other = accept_batch c (accept_batch c s sid b').0 sid b in
        (one.1 ≡ true)
        × (other.1 ≡ true)
        × (get (run c xs one.0 sid).0.batches b.server_id ≡ some b)
        × (get (run c xs' other.0 sid).0.batches b.server_id ≡ some b')
  first_batch_stays s b b' xs xs' same empty good good' =
      let (t, t', row, row') = accept_batch_order s b b' same empty good good' in
      (t, t', run_keeps_row xs _ b.server_id b row, run_keeps_row xs' _ b.server_id b' row')
