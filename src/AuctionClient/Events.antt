-- ===== src/AuctionClient/Events.antt =====
-- Runs of a scheduled ADCNet client.
use anymone.Base.{
  ℕ, max, Bool, false, ◌&&◌, Option, none, some, List, [], ◌∷◌, ◌++◌, length, map_or, if◌then◌else◌,
}
use anymone.Base.Equality.{nat_eq, list_eq, ◌==◌}
use anymone.Base.Int.{ℤ}
use anymone.Base.Results.{Result, ok, err}
use anymone.AuctionClient.{
  client, AuctionOps, AuctionClient, pad, first, recall_stale, is_idle, is_out_of_turn,
  schedule_message_for_next_round, advance_to_round, messages_for_current_round,
  process_round_broadcast,
}

pub data Event : Type 0 where
  scheduling : (payload : List ℕ) (bid : ℕ) → Event
  advancing : (round : ℤ) → Event
  submitting : (silent : Bool) → Event
  hearing : (payload : List ℕ) → Event

-- The message in flight, if there is one.
abbrev pub flight : Option ((List ℕ × ℕ) × ℤ) → List (List ℕ × ℕ)
flight none = []
flight (some x) = x.0 ∷ []

-- The next client, the messages accepted from the caller, those sent in a slot that they won, and the
-- rounds that were submitted.
pub record Effect (R : Type 0) : Type 0 where
  pub client : AuctionClient R
  pub accepted : List (List ℕ × ℕ)
  pub sent : List (List ℕ × ℕ)
  pub rounds : List ℤ

-- The answer is one wire message, the given one.
abbrev pub delivered : Result (List (List ℕ)) (List ℕ) → List ℕ → Bool
delivered (err e) wire = false
delivered (ok messages) wire = messages == wire ∷ []

module _ {R : Type 0} where
  abbrev pub taken : AuctionClient R → List ℕ → ℕ → Result (Unit {0}) (List ℕ) → List (List ℕ × ℕ)
  taken s payload bid (ok u) = (pad (max (length payload) s.min_message_size) payload, bid) ∷ []
  taken s payload bid (err e) = []

  -- The round of an answer with a message.
  abbrev pub round_in : AuctionClient R → Result (List (List ℕ)) (List ℕ) → List ℤ
  round_in s (err e) = []
  round_in s (ok []) = []
  round_in s (ok (m ∷ ms)) = s.current_round ∷ []

  module _ (o : AuctionOps R) where
    -- The message in flight, where the messager gives it the slot and the answer carries what the
    -- messager prepared, signed and encoded.
    unfoldable pub won_by : AuctionClient R → Result (List (List ℕ)) (List ℕ) → List (List ℕ × ℕ)
    won_by s answer =
        elim (o.prepare_message s.current_round s.previous (map_or [] (λ x. x.0.0) s.inflight)
          (first s.pending)) [
            | err text ↦ []
            | ok (message, won) ↦ elim (o.sign message) [
              | err text ↦ []
              | ok signed ↦
                  if won && delivered answer (o.encode (client signed o.key))
                  then flight s.inflight
                  else []
            ]
          ]

    unfoldable pub sent_by :
        Bool → AuctionClient R → Result (List (List ℕ)) (List ℕ) → List (List ℕ × ℕ)
    unfolding won_by
    sent_by silent s answer =
        if is_out_of_turn o s
        then []
        else let s = recall_stale s in if is_idle s && silent then [] else won_by s answer

    abbrev pub step : AuctionClient R → Event → Effect R
    step s (scheduling payload bid) =
        let done = schedule_message_for_next_round s payload bid in
        record { client = done.0; accepted = taken s payload bid done.1; sent = []; rounds = [] }
    step s (advancing round) = record {
      client = (advance_to_round s round).0;
      accepted = [];
      sent = [];
      rounds = [];
    }
    step s (submitting silent) =
        let done = messages_for_current_round o silent s in
        record {
          client = done.0;
          accepted = [];
          sent = sent_by silent s done.1;
          rounds = round_in s done.1;
        }
    step s (hearing payload) = record {
      client = (process_round_broadcast o s payload).0;
      accepted = [];
      sent = [];
      rounds = [];
    }

    abbrev pub run : List Event → AuctionClient R → Effect R
    run [] s = record { client = s; accepted = []; sent = []; rounds = [] }
    run (event ∷ events) s =
        let now = step s event in
        let later : Effect R = run events now.client in
        record {
          client = later.client;
          accepted = now.accepted ++ later.accepted;
          sent = now.sent ++ later.sent;
          rounds = now.rounds ++ later.rounds;
        }
