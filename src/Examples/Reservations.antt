-- ===== src/Examples/Reservations.antt =====
-- A client of two servers that reserves a message, is granted a slot and sends it two rounds later.
use anymone.Base.{ℕ, ◌+◌, ◌≡◌, refl, true, Option, none, some, List, [], ◌∷◌, length, All, arith}
use anymone.Base.Equality.{nat_eq, ◌==◌}
use anymone.ScheduledClient.{
  ScheduledClient, Codec, Coins, take_pending_messages, advance_round, accept_reservations,
  reserve_message, grant, grant_all, allocation,
}
use anymone.Panetiere.{round_in_window}
use anymone.Base.Ordered.{take_at, put_at}
use anymone.ScheduledClient.Submission.{finalize_round, place, place_all}
use anymone.ScheduledClient.Totals.{occurrences}
use anymone.ScheduledClient.Events.{Event, advancing, publishing, reserving, finalizing, run}
use anymone.ScheduledClient.Vectors.{Carries}
use anymone.ScheduledClient.Conserved.{run_conserves}

-- Slots one after another, no cap; a signature is the key.
abbrev slots_from : ℕ → List (ℕ × ℕ) → List (Option ℕ)
slots_from at [] = []
slots_from at ((r, size) ∷ entries) = some at ∷ slots_from (at + size) entries

abbrev codec : Codec
codec = record {
  allocate = λ entries cap. slots_from 0 entries;
  bytes_per_poly = 4;
  reservation_signing_bytes = λ seed round entries. round ∷ [];
  verify = λ key bytes signature. length signature == 1;
}

abbrev coins : Coins
coins = record { retry = λ i. true; cover_due = true; rand_beside = λ taken. 7 + length taken }

abbrev client : ScheduledClient
client = record {
  vector_bytes = 16;
  n_servers = 2;
  servers = (0, 1 ∷ []) ∷ (1, 2 ∷ []) ∷ [];
  leader_pk = 3;
  setup_seed = 0;
  staged = [];
  deferred = (4 ∷ []) ∷ [];
  reserved = [];
  granted = [];
  entries_by_round = [];
  cur_round = none;
}

abbrev message : List ℕ
message = 5 ∷ 6 ∷ []

abbrev events : List Event
events =
    reserving message
    ∷ advancing 10
    ∷ finalizing coins 10
    ∷ publishing 10 ((7, 2) ∷ (9, 9) ∷ []) (1 ∷ [])
    ∷ advancing 12
    ∷ finalizing coins 12
    ∷ []

-- The message has left, the payload that bounced waits for a slot again.
sent : (run codec events client).placed ≡ message ∷ []
unfolding reserve_message advance_round finalize_round accept_reservations grant_all grant place_all
    place round_in_window take_at put_at allocation
sent = refl

run_conserves_example :
    (occurrences message (take_pending_messages (run codec events client).client).1
        + occurrences message (run codec events client).placed
      ≡ occurrences message (take_pending_messages client).1
        + occurrences message (run codec events client).accepted)
    × All Carries (run codec events client).sendings
run_conserves_example =
    run_conserves codec message refl 10 client events (omega arith, (omega arith, tt)) tt
