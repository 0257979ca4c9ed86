-- ===== src/AuctionClient/Totals.antt =====
-- A scheduled ADCNet client neither loses nor doubles a message.
use anymone.Base.{
  ℕ, ◌+◌, ◌≡◌, refl, ap, Bool, true, false, ◌&&◌, Option, none, some, List, [], ◌∷◌, ◌++◌, inl, inr,
  Bool-cases, Option-cases, max, length, ltb, map_or, if◌then◌else◌, arith,
}
use anymone.Base.Equality.{nat_eq, list_eq, pair_eq, ◌==◌}
use anymone.Base.Int.{ℤ}
use anymone.Base.Results.{Result-cases}
use anymone.AuctionClient.{
  client, client_set, partial, broadcast, AuctionOps, AuctionClient, pad, first, others, requeue,
  stage_message, recall, recall_stale, is_idle, is_out_of_turn, submitted, submit,
  schedule_message_for_next_round, advance_to_round, messages_for_current_round, accept_broadcast,
  process_round_broadcast,
}
use anymone.AuctionClient.Events.{
  Event, scheduling, advancing, submitting, hearing, flight, Effect, taken, won_by, sent_by, step,
  run,
}

module _ (x : List ℕ × ℕ) where
  unfoldable pub count : List (List ℕ × ℕ) → ℕ
  count [] = 0
  count (y ∷ ys) = (if y == x then 1 else 0) + count ys

  pub count-append : (ys zs : List (List ℕ × ℕ)) → count (ys ++ zs) ≡ count ys + count zs
  unfolding count
  count-append [] zs = omega arith
  count-append (y ∷ ys) zs = omega (arith, count-append ys zs)

  abbrev pub held : {R : Type 0} → AuctionClient R → ℕ
  held s = count s.pending + count (flight s.inflight)

  recall-held : {R : Type 0} (s : AuctionClient R) → held (recall s) ≡ held s
  unfolding recall count
  recall-held s = elim (Option-cases s.inflight) [
    | inl grounded ↦ ground (arith, grounded)
    | inr (p, flies) ↦ ground (arith, flies)
  ]

  recall_stale-held : {R : Type 0} (s : AuctionClient R) → held (recall_stale s) ≡ held s
  unfolding recall_stale
  recall_stale-held s = ground (arith, recall-held s)

  requeue-count :
      (won : Bool) (inflight : Option ((List ℕ × ℕ) × ℤ)) (pending : List (List ℕ × ℕ))
      → count (requeue won inflight pending) + count (if won then flight inflight else [])
        ≡ count pending + count (flight inflight)
  unfolding count
  requeue-count true none pending = refl
  requeue-count false none pending = refl
  requeue-count true (some p) pending = refl
  requeue-count false (some p) pending = omega (arith, count-append pending (p.0 ∷ []))

  next-count :
      (pending : List (List ℕ × ℕ)) (round : ℤ)
      → count (others pending)
          + count (flight (elim (first pending) [ none ↦ none | some p ↦ some (p, round) ]))
        ≡ count pending
  unfolding count
  next-count [] round = refl
  next-count (p ∷ ps) round = omega arith

  submitted-held :
      {R : Type 0} (s : AuctionClient R) (won : Bool)
      → held (submitted s won) + count (if won then flight s.inflight else []) ≡ held s
  unfolding submitted
  submitted-held s won =
      omega (
        arith,
        requeue-count won s.inflight (others s.pending),
        next-count s.pending s.current_round,
      )

  submit-held :
      {R : Type 0} (o : AuctionOps R) (s : AuctionClient R)
      → held (submit o s).0 + count (won_by o s (submit o s).1) ≡ held s
  unfolding submit won_by count
  submit-held o s =
      elim (Result-cases (
        o.prepare_message s.current_round s.previous (map_or [] (λ x. x.0.0) s.inflight)
          (first s.pending))) [
            | inr (text, failed) ↦ ground (arith, failed)
            | inl ((message, won), made) ↦ elim (Result-cases (o.sign message)) [
              | inr (text, unsigned) ↦ ground (arith, made, unsigned)
              | inl (signed, e) ↦
                  let wire = o.encode (client signed o.key) in
                  let whole : (wire ∷ [] == wire ∷ []) ≡ true =
                    (list_eq.beq_iff (wire ∷ []) (wire ∷ [])).1 refl in
                  ground (arith, made, e, whole, submitted-held s won)
            ]
          ]

  messages-held :
      {R : Type 0} (o : AuctionOps R) (silent : Bool) (s : AuctionClient R)
      → let done = messages_for_current_round o silent s in
        held done.0 + count (sent_by o silent s done.1) ≡ held s
  unfolding messages_for_current_round sent_by count
  messages-held o silent s = elim (Bool-cases (is_out_of_turn o s)) [
    | inl out ↦ ground (arith, out)
    | inr turn ↦ elim (Bool-cases (is_idle (recall_stale s) && silent)) [
      | inl quiet ↦ ground (arith, turn, quiet, recall_stale-held s)
      | inr due ↦ ground (arith, turn, due, submit-held o (recall_stale s), recall_stale-held s)
    ]
  ]

  advance-held :
      {R : Type 0} (s : AuctionClient R) (round : ℤ) → held (advance_to_round s round).0 ≡ held s
  unfolding advance_to_round
  advance-held s round = ground arith

  schedule-held :
      {R : Type 0} (s : AuctionClient R) (payload : List ℕ) (bid : ℕ)
      → let done = schedule_message_for_next_round s payload bid in
        held done.0 ≡ held s + count (taken s payload bid done.1)
  unfolding schedule_message_for_next_round stage_message count
  schedule-held s payload bid =
      elim (Bool-cases (ltb s.message_length (max (length payload) s.min_message_size))) [
        | inl large ↦ ground (arith, large)
        | inr fits ↦ ground (
          arith,
          fits,
          count-append s.pending
              ((pad (max (length payload) s.min_message_size) payload, bid) ∷ []),
        )
      ]

module _ {R : Type 0} (o : AuctionOps R) where
  -- A broadcast changes nothing but the broadcast that is held.
  accept_broadcast-queues :
      (s : AuctionClient R) (rb : R) (signer : ℕ)
      → let t = (accept_broadcast o s rb signer).0 in
        (t.pending ≡ s.pending)
        × (t.inflight ≡ s.inflight)
        × (t.current_round ≡ s.current_round)
        × (t.submitted_round ≡ s.submitted_round)
  unfolding accept_broadcast
  accept_broadcast-queues s rb signer = ground arith

  pub hearing-queues :
      (s : AuctionClient R) (payload : List ℕ)
      → let t = (process_round_broadcast o s payload).0 in
        (t.pending ≡ s.pending)
        × (t.inflight ≡ s.inflight)
        × (t.current_round ≡ s.current_round)
        × (t.submitted_round ≡ s.submitted_round)
  unfolding process_round_broadcast
  hearing-queues s payload = elim (Result-cases (o.deserialize payload)) [
    | inr (text, failed) ↦ ground (arith, failed)
    | inl (client message key, read) ↦ ground (arith, read)
    | inl (client_set signed, read) ↦ ground (arith, read)
    | inl (partial signed, read) ↦ ground (arith, read)
    | inl (broadcast signed, read) ↦ elim (Result-cases (o.recover signed)) [
      | inr (text, failed) ↦ ground (arith, read, failed)
      | inl ((rb, signer), found) ↦ ground (arith, read, found, accept_broadcast-queues s rb signer)
    ]
  ]

  module _ (x : List ℕ × ℕ) where
    step-held :
        (s : AuctionClient R) (event : Event)
        → let now = step o s event in
          held x now.client + count x now.sent ≡ held x s + count x now.accepted
    unfolding count
    step-held s (scheduling payload bid) = omega (arith, schedule-held x s payload bid)
    step-held s (advancing round) = omega (arith, advance-held x s round)
    step-held s (submitting silent) = omega (arith, messages-held x o silent s)
    step-held s (hearing payload) =
        let same = hearing-queues s payload in
        omega (
          arith,
          ap (count x) same.0,
          ap (λ (f : Option ((List ℕ × ℕ) × ℤ)). count x (flight f)) same.1,
        )

    -- Over any run a message with its bid is, as often as it was held or accepted, either in flight when
    -- the messager gave it its slot and the answer was the one wire message prepared from it, signed
    -- and encoded, or still pending or in flight, whatever the auctions, the broadcasts and the coins.
    pub run_keeps :
        (events : List Event) (s : AuctionClient R)
        → let done = run o events s in
          count x done.client.pending + count x (flight done.client.inflight) + count x done.sent
          ≡ count x s.pending + count x (flight s.inflight) + count x done.accepted
    unfolding count
    run_keeps [] s = omega arith
    run_keeps (event ∷ events) s =
        let now = step o s event in
        let later : Effect R = run o events now.client in
        omega (
          arith,
          step-held s event,
          run_keeps events now.client,
          count-append x now.sent later.sent,
          count-append x now.accepted later.accepted,
        )
