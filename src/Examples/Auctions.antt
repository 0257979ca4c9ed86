-- ===== src/Examples/Auctions.antt =====
-- A scheduled ADCNet client that wins every slot; a broadcast is its round, a signature the signer.
use anymone.Base.{ℕ, ◌+◌, ◌≡◌, refl, true, none, some, List, [], ◌∷◌, AllPairs, arith}
use anymone.Base.Equality.{nat_eq, list_eq, pair_eq}
use anymone.Base.Int.{pos, ltz}
use anymone.Base.Results.{Result, ok, err}
use anymone.AuctionClient.{
  AuctionOps, AuctionClient, broadcast, pad, stage_message, schedule_message_for_next_round,
  advance_to_round, messages_for_current_round, submit, submitted, recall, recall_stale,
  is_out_of_turn, process_round_broadcast, pending_message_count,
}
use anymone.AuctionClient.Events.{
  Event, scheduling, advancing, submitting, hearing, flight, sent_by, run,
}
use anymone.AuctionClient.Totals.{count, run_keeps}
use anymone.AuctionClient.Once.{run_submits_once}
use anymone.AuctionClient.Remote.{auction_client, auction_client-Counts}
use anymone.RemoteSession.{
  Clients, Client, ProtocolAction, ScheduledAdcnetAction, RemoteAttestedSession,
}
use anymone.RemoteSession.Events as Session
use anymone.RemoteSession.Queue.{Fits, run-Fits}
use anymone.Examples.RemoteSessions.{clients, opened}

abbrev signed_by : List ℕ → Result (ℕ × ℕ) (List ℕ)
signed_by (round ∷ signer ∷ []) = ok (round, signer)
signed_by bytes = err []

abbrev ops : AuctionOps ℕ
ops = record {
  round_number = pos;
  serialize = λ round. ok (round ∷ []);
  deserialize = λ bytes. ok (broadcast bytes);
  recover = signed_by;
  prepare_message = λ round previous message bid. ok (message, true);
  sign = λ message. ok message;
  key = [];
  encode = λ wire. 1 ∷ [];
}

abbrev client : AuctionClient ℕ
client = record {
  message_length = 8;
  pending = [];
  inflight = none;
  previous = 0;
  current_round = pos 1;
  leader = 3;
  cover_rate = 0;
  min_message_size = 1;
  submitted_round = none;
}

-- A message is put up for auction in round 1 and sent in round 2; the round is asked for twice.
abbrev events : List Event
events =
    scheduling (5 ∷ []) 2
    ∷ submitting true
    ∷ hearing (1 ∷ 3 ∷ [])
    ∷ advancing (pos 2)
    ∷ submitting true
    ∷ submitting true
    ∷ []

sent_in_second : (run ops events client).sent ≡ ((5 ∷ []), 2) ∷ []
unfolding schedule_message_for_next_round stage_message advance_to_round messages_for_current_round
    submit submitted recall recall_stale is_out_of_turn process_round_broadcast sent_by pad
sent_in_second = refl

run_keeps_example :
    let x : List ℕ × ℕ = (5 ∷ [], 2) in
    let done = run ops events client in
    count x done.client.pending + count x (flight done.client.inflight) + count x done.sent
    ≡ count x client.pending + count x (flight client.inflight) + count x done.accepted
run_keeps_example = run_keeps ops (5 ∷ [], 2) events client

run_submits_once_example : AllPairs (λ a b. ltz a b ≡ true) (run ops events client).rounds
run_submits_once_example = run_submits_once ops events client refl

abbrev auctioning : Clients ℕ ℕ ℕ (AuctionClient ℕ)
auctioning = record {
  one_round = clients.one_round;
  scheduled = clients.scheduled;
  share = clients.share;
  auction = auction_client ops 0 (λ s. true) (λ identity. true);
  decode_native = clients.decode_native;
  action_digest = clients.action_digest;
}

abbrev session : RemoteAttestedSession ℕ ℕ ℕ (AuctionClient ℕ)
session = record {
  client = some (Client.scheduled_adcnet client);
  identity = opened.identity;
  status = opened.status;
  last_reply = none;
  finalized = none;
  repair = none;
  max_payload = 8;
}

abbrev requests : List Session.Event
requests =
    Session.executing 0 (
      ProtocolAction.scheduled_adcnet
        (ScheduledAdcnetAction.schedule_message_for_next_round (5 ∷ []) 2))
    ∷ Session.applying
        (ProtocolAction.scheduled_adcnet ScheduledAdcnetAction.messages_for_current_round)
    ∷ []

session-Fits :
    Fits auctioning (auction_client-Counts ops 0 (λ s. true) (λ identity. true)) 8 session.client
unfolding pending_message_count
session-Fits = (omega arith, omega arith)

run-Fits_example :
    let t = (Session.run auctioning requests session).session in
    Fits auctioning
      (auction_client-Counts ops 0 (λ s. true) (λ identity. true))
      t.max_payload
      t.client
    × (t.max_payload ≡ 8)
run-Fits_example =
    run-Fits auctioning (auction_client-Counts ops 0 (λ s. true) (λ identity. true)) requests
      session session-Fits
