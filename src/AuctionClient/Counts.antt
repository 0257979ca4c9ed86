-- ===== src/AuctionClient/Counts.antt =====
-- How many messages a scheduled ADCNet client holds.
use anymone.Base.{
  ℕ, ◌+◌, ◌≤◌, ◌≡◌, refl, ap, Bool, true, false, ◌&&◌, Option, none, some, List, [], ◌∷◌, inl, inr,
  Bool-cases, Option-cases, max, length, length-append, ltb, map_or, arith,
}
use anymone.Base.Int.{ℤ}
use anymone.Base.Results.{Result-cases}
use anymone.AuctionClient.{
  AuctionOps, AuctionClient, pad, first, others, requeue, stage_message, recall, recall_stale,
  is_idle, is_out_of_turn, submitted, submit, schedule_message_for_next_round, advance_to_round,
  messages_for_current_round, process_round_broadcast, pending_message_count,
}
use anymone.AuctionClient.Totals.{hearing-queues}

in_flight : Option ((List ℕ × ℕ) × ℤ) → ℕ
in_flight none = 0
in_flight (some x) = 1

requeue-length :
    (won : Bool) (inflight : Option ((List ℕ × ℕ) × ℤ)) (pending : List (List ℕ × ℕ))
    → length (requeue won inflight pending) ≤ length pending + in_flight inflight
unfolding in_flight
requeue-length won none pending = omega arith
requeue-length true (some x) pending = omega arith
requeue-length false (some x) pending = omega (arith, length-append pending (x.0 ∷ []))

next-length :
    (pending : List (List ℕ × ℕ)) (round : ℤ)
    → length (others pending)
        + in_flight (elim (first pending) [ none ↦ none | some p ↦ some (p, round) ])
      ≡ length pending
unfolding in_flight
next-length [] round = refl
next-length (p ∷ ps) round = omega arith

module _ {R : Type 0} where
  pending_message_count_lem :
      (s : AuctionClient R) → pending_message_count s ≡ length s.pending + in_flight s.inflight
  unfolding pending_message_count in_flight
  pending_message_count_lem s = ground arith

  recall_stale-count :
      (s : AuctionClient R) → pending_message_count (recall_stale s) ≡ pending_message_count s
  unfolding recall_stale recall pending_message_count
  recall_stale-count s = elim (Option-cases s.inflight) [
    | inl grounded ↦ ground (arith, grounded)
    | inr (p, flies) ↦ ground (arith, flies)
  ]

  submitted-count :
      (s : AuctionClient R) (won : Bool)
      → pending_message_count (submitted s won) ≤ pending_message_count s
  unfolding submitted
  submitted-count s won = omega (
    arith,
    requeue-length won s.inflight (others s.pending),
    next-length s.pending s.current_round,
    pending_message_count_lem s,
    pending_message_count_lem (submitted s won),
  )

  module _ (o : AuctionOps R) where
    submit-count :
        (s : AuctionClient R) → pending_message_count (submit o s).0 ≤ pending_message_count s
    unfolding submit
    submit-count s =
        elim (Result-cases (
          o.prepare_message s.current_round s.previous (map_or [] (λ x. x.0.0) s.inflight)
            (first s.pending))) [
              | inr (text, failed) ↦ ground (arith, failed)
              | inl ((message, won), made) ↦ elim (Result-cases (o.sign message)) [
                | inr (text, unsigned) ↦ ground (arith, made, unsigned)
                | inl (signed, e) ↦ ground (arith, made, e, submitted-count s won)
              ]
            ]

    pub messages-count :
        (silent : Bool) (s : AuctionClient R)
        → pending_message_count (messages_for_current_round o silent s).0 ≤ pending_message_count s
    unfolding messages_for_current_round
    messages-count silent s = elim (Bool-cases (is_out_of_turn o s)) [
      | inl out ↦ ground (arith, out)
      | inr turn ↦ elim (Bool-cases (is_idle (recall_stale s) && silent)) [
        | inl quiet ↦ ground (arith, turn, quiet, recall_stale-count s)
        | inr due ↦ ground (arith, turn, due, submit-count (recall_stale s), recall_stale-count s)
      ]
    ]

    pub hearing-count :
        (s : AuctionClient R) (payload : List ℕ)
        → pending_message_count (process_round_broadcast o s payload).0 ≡ pending_message_count s
    hearing-count s payload =
        let same = hearing-queues o s payload in
        let t = (process_round_broadcast o s payload).0 in
        omega (
          arith,
          pending_message_count_lem s,
          pending_message_count_lem t,
          ap length same.0,
          ap in_flight same.1,
        )

  pub advance-count :
      (s : AuctionClient R) (round : ℤ)
      → pending_message_count (advance_to_round s round).0 ≡ pending_message_count s
  unfolding advance_to_round pending_message_count
  advance-count s round = ground arith

  pub schedule-count :
      (s : AuctionClient R) (payload : List ℕ) (bid : ℕ)
      → pending_message_count (schedule_message_for_next_round s payload bid).0
        ≤ pending_message_count s + 1
  unfolding schedule_message_for_next_round stage_message pending_message_count
  schedule-count s payload bid =
      elim (Bool-cases (ltb s.message_length (max (length payload) s.min_message_size))) [
        | inl large ↦ ground (arith, large)
        | inr fits ↦ ground (
          arith,
          fits,
          length-append s.pending
              ((pad (max (length payload) s.min_message_size) payload, bid) ∷ []),
        )
      ]
