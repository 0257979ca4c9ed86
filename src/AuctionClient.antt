-- ===== src/AuctionClient.antt =====
-- crates/anymone-core/src/adcnet.rs: `ScheduledAdcnetClientSession`, a client whose message is put up for
-- auction in one round and sent in the next. Rounds are i64. The `adcnet` crate's broadcasts are the
-- type `R`; what the crate does with keys and randomness is in `AuctionOps`.
pub mod Events
pub mod Totals
pub mod Once
pub mod Counts
pub mod Remote
use anymone.Base.{
  ℕ, zero, suc, ◌+◌, ◌-◌, max, Bool, true, false, ◌&&◌, ◌||◌, not, Option, none, some, List, [],
  ◌∷◌, ◌++◌, map, length, ltb, map_or, codes, if◌then◌else◌,
}
use anymone.Base.Equality.{nat_eq, list_eq, ◌==◌}
use anymone.Base.Int.{ℤ, pos, ltz, eqz, pred}
use anymone.Base.Results.{Result, ok, err}

-- What stands for a signed message is its bytes.
pub data ScheduledAdcnetWire : Type 0 where
  client : (message key : List ℕ) → ScheduledAdcnetWire
  client_set : (signed : List ℕ) → ScheduledAdcnetWire
  partial : (signed : List ℕ) → ScheduledAdcnetWire
  broadcast : (signed : List ℕ) → ScheduledAdcnetWire

pub record AuctionOps (R : Type 0) : Type 0 where
  pub round_number : R → ℤ
  -- `bincode::serialize` of a broadcast
  pub serialize : R → Result (List ℕ) (List ℕ)
  -- bincode's reading of a wire message, within its limit
  pub deserialize : List ℕ → Result ScheduledAdcnetWire (List ℕ)
  -- `Signed::recover` of a result: its broadcast and its signer
  pub recover : List ℕ → Result (R × ℕ) (List ℕ)
  -- `ClientMessager::prepare_message` under the client's keys: the message and whether it won
  pub prepare_message : ℤ → R → List ℕ → Option (List ℕ × ℕ) → Result (List ℕ × Bool) (List ℕ)
  -- `Signed::new`
  pub sign : List ℕ → Result (List ℕ) (List ℕ)
  pub key : List ℕ
  -- bincode's writing of a wire message
  pub encode : ScheduledAdcnetWire → List ℕ

-- The configuration is its `message_length`; the keys are in `AuctionOps`.
pub record AuctionClient (R : Type 0) : Type 0 where
  pub message_length : ℕ
  pub pending : List (List ℕ × ℕ)
  pub inflight : Option ((List ℕ × ℕ) × ℤ)
  pub previous : R
  pub current_round : ℤ
  pub leader : ℕ
  pub cover_rate : ℕ
  pub min_message_size : ℕ
  pub submitted_round : Option ℤ

abbrev zeros : ℕ → List ℕ
zeros zero = []
zeros (suc n) = 0 ∷ zeros n

-- `payload.resize(size, 0)`, to a size that is not smaller
unfoldable pub pad : ℕ → List ℕ → List ℕ
pad size payload = payload ++ zeros (size - length payload)

-- `self.pending.front()`, and what `pop_front` leaves.
abbrev pub first : List (List ℕ × ℕ) → Option (List ℕ × ℕ)
first [] = none
first (p ∷ ps) = some p

abbrev pub others : List (List ℕ × ℕ) → List (List ℕ × ℕ)
others [] = []
others (p ∷ ps) = ps

-- The pending messages once the one in flight was sent, or has lost its slot.
abbrev pub requeue : Bool → Option ((List ℕ × ℕ) × ℤ) → List (List ℕ × ℕ) → List (List ℕ × ℕ)
requeue won none pending = pending
requeue true (some x) pending = pending
requeue false (some x) pending = pending ++ x.0 ∷ []

module _ {R : Type 0} where
  unfoldable pub new : ℕ → R → ℤ → ℕ → AuctionClient R
  new message_length initial_broadcast starting_round leader = record {
    message_length = message_length;
    pending = [];
    inflight = none;
    previous = initial_broadcast;
    current_round = starting_round;
    leader = leader;
    cover_rate = 0x3f800000;
    min_message_size = 1;
    submitted_round = none;
  }

  unfoldable pub stage_message : AuctionClient R → List ℕ → ℕ → AuctionClient R
  unfolding pad
  stage_message s payload bid = record s {
    pending = s.pending ++ (pad (max (length payload) s.min_message_size) payload, bid) ∷ [];
  }

  unfoldable pub schedule_message_for_next_round :
      AuctionClient R → List ℕ → ℕ → AuctionClient R × Result (Unit {0}) (List ℕ)
  schedule_message_for_next_round s payload bid =
      if ltb s.message_length (max (length payload) s.min_message_size)
      then (s, err (codes "payload exceeds scheduled message capacity"))
      else (stage_message s payload bid, ok tt)

  unfoldable pub advance_to_round :
      AuctionClient R → ℤ → AuctionClient R × Result (Unit {0}) (List ℕ)
  advance_to_round s round =
      if ltz round s.current_round || ltz round (pos 1)
      then (s, err (codes "scheduled ADCNet round moved backwards"))
      else (record s { current_round = round }, ok tt)

  unfoldable pub pending_message_count : AuctionClient R → ℕ
  pending_message_count s = elim (s.inflight) [
    | none ↦ length s.pending
    | some x ↦ length s.pending + 1
  ]

  -- The message in flight goes back to the front.
  unfoldable pub recall : AuctionClient R → AuctionClient R
  recall s = elim (s.inflight) [
    | none ↦ s
    | some x ↦ record s { pending = x.0 ∷ s.pending; inflight = none }
  ]

  unfoldable pub take_pending_messages : AuctionClient R → AuctionClient R × List (List ℕ)
  unfolding recall
  take_pending_messages s =
      let s = recall s in (record s { pending = [] }, map (λ p. p.0) s.pending)

  -- `is_some_and(|(_, _, r)| *r != self.current_round - 1)`
  is_stale : AuctionClient R → Bool
  is_stale s = map_or false (λ x. not (eqz x.1 (pred s.current_round))) s.inflight

  unfoldable pub recall_stale : AuctionClient R → AuctionClient R
  unfolding is_stale
  recall_stale s = if is_stale s then recall s else s

  abbrev pub is_idle : AuctionClient R → Bool
  is_idle s = elim (s.pending) [
    | [] ↦ elim (s.inflight) [ none ↦ true | some x ↦ false ]
    | p ∷ ps ↦ false
  ]

  unfoldable pub submitted : AuctionClient R → Bool → AuctionClient R
  submitted s won = record s {
    pending = requeue won s.inflight (others s.pending);
    inflight = elim (first s.pending) [ none ↦ none | some p ↦ some (p, s.current_round) ];
    submitted_round = some s.current_round;
  }

  -- `self.previous.round_number != self.current_round - 1 || self.submitted_round == …`
  unfoldable pub is_out_of_turn : AuctionOps R → AuctionClient R → Bool
  is_out_of_turn o s =
      not (eqz (o.round_number s.previous) (pred s.current_round))
      || map_or false (λ r. eqz r s.current_round) s.submitted_round

  -- The call of the messager, the signature, and what is kept where both succeed.
  unfoldable pub submit :
      AuctionOps R → AuctionClient R → AuctionClient R × Result (List (List ℕ)) (List ℕ)
  submit o s =
      elim (o.prepare_message s.current_round s.previous (map_or [] (λ x. x.0.0) s.inflight)
        (first s.pending)) [
          | err text ↦ (s, err text)
          | ok (message, won) ↦ elim (o.sign message) [
            | err text ↦ (s, err text)
            | ok signed ↦ (submitted s won, ok (o.encode (client signed o.key) ∷ []))
          ]
        ]

  -- `silent` is the coin of a client without messages: no cover in this round.
  unfoldable pub messages_for_current_round :
      AuctionOps R
      → (silent : Bool) → AuctionClient R
      → AuctionClient R × Result (List (List ℕ)) (List ℕ)
  unfolding submit
  messages_for_current_round o silent s =
      if is_out_of_turn o s
      then (s, ok [])
      else let s = recall_stale s in if is_idle s && silent then (s, ok []) else submit o s

  -- The tests of `process_round_broadcast` on a broadcast that was read.
  unfoldable pub accept_broadcast :
      AuctionOps R
      → AuctionClient R
      → R
      → (signer : ℕ) → AuctionClient R × Result (Unit {0}) (List ℕ)
  accept_broadcast o s rb signer =
      if not (signer == s.leader)
        || ltz (o.round_number rb) (o.round_number s.previous)
        || ltz s.current_round (o.round_number rb)
      then (s, err (codes "invalid broadcast signer or round"))
      else if not (eqz (o.round_number rb) (o.round_number s.previous))
      then (record s { previous = rb }, ok tt)
      else elim (o.serialize rb) [
        | err text ↦ (s, err text)
        | ok bytes ↦ elim (o.serialize s.previous) [
          | err text ↦ (s, err text)
          | ok held ↦
              if not (bytes == held)
              then (s, err (codes "conflicting broadcast for the same round"))
              else (record s { previous = rb }, ok tt)
        ]
      ]

  unfoldable pub process_round_broadcast :
      AuctionOps R → AuctionClient R → List ℕ → AuctionClient R × Result (Unit {0}) (List ℕ)
  unfolding accept_broadcast
  process_round_broadcast o s payload = elim (o.deserialize payload) [
    | err text ↦ (s, err text)
    | ok (broadcast signed) ↦ elim (o.recover signed) [
      | err text ↦ (s, err text)
      | ok (rb, signer) ↦ accept_broadcast o s rb signer
    ]
    | ok other ↦ (s, err (codes "expected a scheduled ADCNet broadcast"))
  ]
