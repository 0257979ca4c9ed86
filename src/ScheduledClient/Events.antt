-- ===== src/ScheduledClient/Events.antt =====
-- Runs of a scheduled client: rounds that begin, reservations that the leader publishes, messages of the
-- caller and rounds that are submitted.
use anymone.Base.{ℕ, ◌+◌, ◌≤◌, Option, none, some, List, [], ◌∷◌, ◌++◌, map, retain}
use anymone.Base.Equality.{nat_eq, ◌==◌}
use anymone.Base.Results.{Result, ok, err}
use anymone.ScheduledClient.{
  Grant, ScheduledClient, Codec, Coins, advance_round, accept_reservations, reserve_message,
}
use anymone.ScheduledClient.Submission.{Plaintext, msg_bytes, finalize_round}

pub data Event : Type 0 where
  advancing : (round : ℕ) → Event
  publishing : (round : ℕ) → List (ℕ × ℕ) → List ℕ → Event
  reserving : (payload : List ℕ) → Event
  finalizing : Coins → (round : ℕ) → Event

-- What goes out with a round: the grants that the client held, the width of the round's vector and the
-- plaintext that is encrypted.
pub record Sending : Type 0 where
  pub round : ℕ
  pub granted : List Grant
  pub width : ℕ
  pub plaintext : Plaintext

-- The next client, the messages accepted from the caller, those whose slots were in a round that went
-- out, and what went out.
pub record Effect : Type 0 where
  pub client : ScheduledClient
  pub accepted : List (List ℕ)
  pub placed : List (List ℕ)
  pub sendings : List Sending

abbrev pub quiet : ScheduledClient → Effect
quiet s = record { client = s; accepted = []; placed = []; sendings = [] }

abbrev pub taken : List ℕ → Result (Unit {0}) (List ℕ) → List (List ℕ)
taken payload (ok u) = payload ∷ []
taken payload (err e) = []

-- The payloads granted for a round.
abbrev pub due : ℕ → List Grant → List (List ℕ)
due round grants = map (λ g. g.payload) (retain (λ (g : Grant). g.target == round) grants)

abbrev pub placed_in : ScheduledClient → ℕ → Option Plaintext → List (List ℕ)
placed_in s round none = []
placed_in s round (some plaintext) = due round s.granted

module _ (codec : Codec) where
  abbrev pub sending : ScheduledClient → ℕ → Option Plaintext → List Sending
  sending s round none = []
  sending s round (some plaintext) =
      record {
        round = round;
        granted = s.granted;
        width = msg_bytes codec s round;
        plaintext = plaintext;
      }
      ∷ []

  abbrev pub step : ScheduledClient → Event → Effect
  step s (advancing round) = quiet (advance_round s round)
  step s (publishing round entries signature) =
      quiet (accept_reservations codec s round entries signature).0
  step s (reserving payload) =
      let done = reserve_message s payload in
      record { client = done.0; accepted = taken payload done.1; placed = []; sendings = [] }
  step s (finalizing coins round) =
      let done = finalize_round codec coins s round in
      record {
        client = done.0;
        accepted = [];
        placed = placed_in s round done.1;
        sendings = sending s round done.1;
      }

  abbrev pub run : List Event → ScheduledClient → Effect
  run [] s = quiet s
  run (event ∷ events) s =
      let now = step s event in
      let later : Effect = run events now.client in
      record {
        client = later.client;
        accepted = now.accepted ++ later.accepted;
        placed = now.placed ++ later.placed;
        sendings = now.sendings ++ later.sendings;
      }

-- Rounds are submitted in order, from `bound` on.
abbrev pub Rising : ℕ → List Event → Type 0
Rising bound [] = Unit
Rising bound (finalizing coins round ∷ events) = (bound ≤ round) × Rising (round + 1) events
Rising bound (event ∷ events) = Rising bound events
