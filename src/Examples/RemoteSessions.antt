-- ===== src/Examples/RemoteSessions.antt =====
-- A session of a one-round client that answers each round with one message, for three relays.
use anymone.Base.{
  ℕ, ◌+◌, ◌*◌, ◌≤◌, ◌≡◌, refl, ◌≢◌, true, false, Option, none, some, List, [], ◌∷◌, length,
  range_from, AllPairs,
}
use anymone.Base.Results.{ok, err}
use anymone.Base.Sort.{sort}
use anymone.Scheduler.WireSize.{subnet_max_wire}
use anymone.Config.{ExchangePublicKeyWire}
use anymone.RemoteSession.{
  Clients, Client, ProtocolAction, PanetiereAction, RemoteProtocol, request_conflict,
  RemoteAttestedSession,
}
use anymone.RemoteSession.Guards.{
  check, check_finalized, finalized_by, check_action, check_panetiere, check_payload_of,
  check_payload, check_round,
}
use anymone.RemoteSession.Perform.{execute_action, perform, perform_panetiere}
use anymone.RemoteSession.Requests.{close, apply, admit, repeated, carry_out, execute, expect}
use anymone.RemoteSession.Validity.{
  validate_config, limits_of, limits_refused, roster_refused, wire_refused, require_roster,
}
use anymone.RemoteSession.Opening.{
  KeyOps, with_identity, open_client, roster_keys, consensus_roster,
}
use anymone.RemoteSession.Events.{Event, executing, applying, closing, step, run}
use anymone.RemoteSession.Commits.{Follows}
use anymone.RemoteSession.Rounds.{Holds, newest, run_commits}
use anymone.RemoteSession.Numbers.{run_numbers}
use anymone.RemoteSession.Retries.{run_retries}
use anymone.RemoteSession.Orders.{IsOrdered}
use anymone.RemoteSession.Opened.{IsServable, with_identity-run}
use anymone.RemoteSession.Ended.{IsOver, run-close-IsOver}
use anymone.Examples.Data.{panetiere_subnet, sizes}

abbrev pub digest : ProtocolAction → ℕ
digest (ProtocolAction.panetiere (PanetiereAction.finalize_round round none)) = 2 * round
digest (ProtocolAction.panetiere (PanetiereAction.finalize_round round (some payload))) =
    2 * round + 1
digest action = 0

-- The states of the clients are numbers; only the first is used.
abbrev pub clients : Clients ℕ ℕ ℕ ℕ
clients = record {
  one_round = record {
    new = λ cfg n identity servers seed. seed;
    set_setup_seed = λ p seed. p;
    set_consensus = λ p pks. p;
    prepare_round = λ p round. p;
    finalize_round = λ p round payload. (p + 1, ok ((round ∷ []) ∷ []));
    accept_receipt_batch = λ p round batch. (p, ok tt);
    build_repair = λ p round. (p, []);
  };
  scheduled = record {
    new = λ cfg n identity servers leader seed. seed;
    set_setup_seed = λ p seed. p;
    set_consensus = λ p pks. p;
    set_cover_rate = λ p rate. p;
    advance_round = λ p round. (p, []);
    reserve_message = λ p payload. (p, ok tt);
    prepare_round = λ p round. p;
    finalize_round = λ p round. (p, []);
    accept_reservations = λ p round entries signature. (p, ok tt);
    accept_receipt_batch = λ p round batch. (p, ok tt);
    build_repair = λ p round. (p, []);
    pending_message_count = λ p. 0;
    take_pending_messages = λ p. [];
  };
  share = record {
    new = λ cfg identity servers seed. seed;
    contribute = λ p round payload. (p, ok []);
  };
  auction = record {
    new = λ cfg identity servers round leader. ok 0;
    set_min_message_size = λ p size. p;
    set_cover_rate = λ p rate. p;
    advance_to_round = λ p round. (p, ok tt);
    schedule_message_for_next_round = λ p payload bid. (p, ok tt);
    process_round_broadcast = λ p message. (p, ok tt);
    messages_for_current_round = λ p. (p, ok []);
    pending_message_count = λ p. 0;
    take_pending_messages = λ p. [];
  };
  decode_native = λ bytes. err [];
  action_digest = λ action. ok (digest action);
}

abbrev key : ExchangePublicKeyWire
key = record { ecdh = 1 ∷ []; kem = 2 ∷ []; set_sig = 3 ∷ [] }

abbrev keys : List (ℕ × ExchangePublicKeyWire)
keys = (11, key) ∷ (12, key) ∷ (13, key) ∷ []

abbrev ops : KeyOps
ops = record {
  to_key = λ wire. some wire.ecdh;
  to_seal_key = λ wire. some wire.kem;
  to_set_key = λ wire. some wire.set_sig;
  pubkey = λ identity. identity;
  exchange_keys = λ identity. key;
}

abbrev pub opened : RemoteAttestedSession ℕ ℕ ℕ ℕ
opened = record {
  client = some (Client.panetiere 9);
  identity = some 21;
  status = record {
    subnet = panetiere_subnet;
    relay_exchange_keys = keys;
    session_id = 5;
    protocol = RemoteProtocol.panetiere;
    participant = 21;
    exchange_keys = key;
    current_round = 3;
    next_request = 0;
    closed = false;
    developer_mode = true;
    pending_messages = 0;
  };
  last_reply = none;
  finalized = none;
  repair = none;
  max_payload = 64;
}

abbrev finalize : ℕ → Option (List ℕ) → ProtocolAction
finalize round payload = ProtocolAction.panetiere (PanetiereAction.finalize_round round payload)

-- Round 3 is finalized, asked for again under the same and under another number, then round 4.
abbrev events : List Event
events =
    executing 0 (finalize 3 none)
    ∷ executing 0 (finalize 3 none)
    ∷ executing 1 (finalize 3 none)
    ∷ executing 2 (finalize 3 (some (8 ∷ [])))
    ∷ applying (finalize 4 (some (7 ∷ [])))
    ∷ closing
    ∷ []

run_commits_example :
    AllPairs Follows (run clients events opened).finals
    × Holds
        (newest opened.finalized (run clients events opened).finals)
        (run clients events opened).session
run_commits_example = run_commits clients events opened

run_numbers_example :
    ((run clients events opened).numbers
      ≡ range_from 0 (length (run clients events opened).numbers))
    × ((run clients events opened).session.status.next_request
        ≡ 0 + length (run clients events opened).numbers)
run_numbers_example = run_numbers clients events opened

opens : with_identity clients ops sizes panetiere_subnet keys 3 21 9 5 ≡ ok opened
unfolding with_identity validate_config open_client roster_keys consensus_roster require_roster sort
    subnet_max_wire limits_refused roster_refused wire_refused limits_of
opens = refl

with_identity-run_example :
    IsServable sizes panetiere_subnet 3
    × IsOrdered (run clients events opened).session
    × (3 ≤ (run clients events opened).session.status.current_round)
with_identity-run_example =
    with_identity-run clients ops sizes panetiere_subnet keys 3 21 9 5 events opens

abbrev first : RemoteAttestedSession ℕ ℕ ℕ ℕ
first = (execute clients opened 0 (finalize 3 none)).0

carried_first : (step clients opened (executing 0 (finalize 3 none))).numbers ≡ 0 ∷ []
unfolding admit repeated
carried_first = refl

abbrev asides : List Event
asides = applying (finalize 4 (some (7 ∷ []))) ∷ executing 5 (finalize 6 none) ∷ []

carried_none :
    ((run clients asides first).numbers ≡ [])
    × ((run clients asides first).session.status.closed ≡ false)
unfolding execute admit repeated carry_out execute_action check check_finalized finalized_by
    check_action check_panetiere check_payload_of check_payload check_round perform
    perform_panetiere apply expect
carried_none = (refl, refl)

run_retries_example :
    let t = (run clients asides first).session in
    (execute clients t 0 (finalize 3 none) ≡ (t, (execute clients opened 0 (finalize 3 none)).1))
    × ((input : ℕ)
        → clients.action_digest (finalize 3 (some [])) ≡ ok input
        → clients.action_digest (finalize 3 none) ≢ ok input
        → execute clients t 0 (finalize 3 (some [])) ≡ (t, err request_conflict))
run_retries_example =
    run_retries clients opened 0 (finalize 3 none) (finalize 3 (some [])) asides carried_first
      carried_none.0 carried_none.1

run-close-IsOver_example :
    let t = (run clients events (close opened)).session in
    IsOver clients ops sizes t
    × (t.client ≡ none)
    × (t.identity ≡ none)
    × (t.finalized ≡ none)
    × (t.repair ≡ none)
    × (t.last_reply ≡ none)
run-close-IsOver_example = run-close-IsOver clients ops sizes opened events
