-- ===== src/RemoteSession/Moves.antt =====
-- What a call of a client does to the session: the client is replaced, and the round moves forward only.
use anymone.Base.{
  ℕ, zero, suc, ◌-◌, ◌≤◌, ◌<◌, ◌≡◌, refl, Option, none, some, List, inl, inr, Bool-cases,
  Option-cases, arith,
}
use anymone.Base.Equality.{nat_eq, ◌==◌}
use anymone.Base.Int.{ℤ, pos, negsuc, as_unsigned}
use anymone.Base.Results.{ok, err}
use anymone.Panetiere.{PanetiereWire}
use anymone.RemoteSession.{
  Clients, Client, ProtocolAction, PanetiereAction, ScheduledPanetiereAction, AdcnetAction,
  ScheduledAdcnetAction, RemoteSessionError, Answer, Outcome, RemoteAttestedSession,
}
use anymone.RemoteSession.Guards.{
  u32_max, refused, check_round, check, check_action, check_scheduled, check_auction, check_advance,
  round_before, finalized_by,
}
use anymone.RemoteSession.Perform.{
  perform, perform_panetiere, perform_scheduled, perform_adcnet, perform_auction,
  accept_reservations, accept_decoded, keep, advanced, save, repaired_by, execute_action,
}

module _ {P S A B : Type 0} where
  -- The session with another client, at another round.
  abbrev pub moved :
      RemoteAttestedSession P S A B
      → Option (Client P S A B)
      → (round : ℕ) → RemoteAttestedSession P S A B
  moved s client round = record s {
    client = client;
    status = record s.status { current_round = round };
  }

  -- A call of the client moves `s` to `t`; it stays at its round where the action finalizes one.
  pub record Moves (s : RemoteAttestedSession P S A B) (action : ProtocolAction)
      (t : RemoteAttestedSession P S A B) : Type 0 where
    pub client : Option (Client P S A B)
    pub round : ℕ
    pub same : t ≡ moved s client round
    pub forward : s.status.current_round ≤ round
    pub below : s.status.current_round < u32_max → round < u32_max
    pub stays : (r : ℕ) → finalized_by s action ≡ some r → round ≡ s.status.current_round

  pub check_round-le :
      (s : RemoteAttestedSession P S A B) (r : ℕ)
      → refused (check_round s r) ≡ none
      → (s.status.current_round ≤ r) × (r < u32_max)
  unfolding check_round
  check_round-le s r h = ground arith

  abbrev stay :
      (s : RemoteAttestedSession P S A B) (action : ProtocolAction)
      (client : Option (Client P S A B))
      → Moves s action (record s { client = client })
  stay s action client = record {
    client = client;
    round = s.status.current_round;
    same = refl;
    forward = omega arith;
    below = λ h. h;
    stays = λ r h. refl;
  }

module _ {P S A B : Type 0} (c : Clients P S A B) (s : RemoteAttestedSession P S A B) where
  panetiere-Moves :
      (p : P) (action : PanetiereAction)
      → Moves s (ProtocolAction.panetiere action) (perform_panetiere c s p action).0
  unfolding perform_panetiere
  panetiere-Moves p (PanetiereAction.prepare_round round) = stay s _ _
  panetiere-Moves p (PanetiereAction.finalize_round round payload) = stay s _ _
  panetiere-Moves p (PanetiereAction.accept_receipt_batch round batch) = stay s _ _
  panetiere-Moves p (PanetiereAction.build_repair round) = stay s _ _

  reservations-Moves :
      (x : S) (message : List ℕ) (wire : PanetiereWire)
      → Moves s
          (ProtocolAction.scheduled_panetiere
            (ScheduledPanetiereAction.accept_reservations message))
          (accept_reservations c s x wire).0
  unfolding accept_reservations
  reservations-Moves x message (PanetiereWire.reservations round entries signature) = stay s _ _
  reservations-Moves x message (PanetiereWire.client_public a b d e f) = stay s _ _
  reservations-Moves x message (PanetiereWire.client_slice a b d e f g h) = stay s _ _
  reservations-Moves x message (PanetiereWire.opening a b d e f g) = stay s _ _
  reservations-Moves x message (PanetiereWire.server_public a b d e f g h i) = stay s _ _
  reservations-Moves x message (PanetiereWire.decoded a b) = stay s _ _
  reservations-Moves x message (PanetiereWire.client_set a b d) = stay s _ _
  reservations-Moves x message (PanetiereWire.bundle a b d e f g) = stay s _ _
  reservations-Moves x message (PanetiereWire.set_batch a b) = stay s _ _
  reservations-Moves x message (PanetiereWire.set_fragment a b d e f g) = stay s _ _
  reservations-Moves x message (PanetiereWire.set_relay a b) = stay s _ _

  decoded-Moves :
      (x : S) (message : List ℕ) (wire : Outcome PanetiereWire)
      → Moves s
          (ProtocolAction.scheduled_panetiere
            (ScheduledPanetiereAction.accept_reservations message))
          (accept_decoded c s x wire).0
  unfolding accept_reservations
  decoded-Moves x message (err text) = stay s _ _
  decoded-Moves x message (ok wire) = reservations-Moves x message wire

  scheduled-Moves :
      (x : S) (action : ScheduledPanetiereAction)
      → check_scheduled c s action ≡ none
      → Moves s (ProtocolAction.scheduled_panetiere action) (perform_scheduled c s x action).0
  unfolding perform_scheduled check_scheduled finalized_by accept_reservations
  scheduled-Moves x (ScheduledPanetiereAction.set_cover_rate rate) h = stay s _ _
  scheduled-Moves x (ScheduledPanetiereAction.advance_round round) h = record {
    client = some (Client.scheduled_panetiere (c.scheduled.advance_round x round).0);
    round = round;
    same = refl;
    forward = (check_round-le s round h).0;
    below = λ _. (check_round-le s round h).1;
    stays = λ r k. absurd (cc);
  }
  scheduled-Moves x (ScheduledPanetiereAction.reserve_message payload) h = stay s _ _
  scheduled-Moves x (ScheduledPanetiereAction.prepare_round round) h = stay s _ _
  scheduled-Moves x (ScheduledPanetiereAction.finalize_round round) h =
      elim (Bool-cases (round == s.status.current_round)) [
        | inl same ↦ rw same (stay s _ _)
        | inr other ↦ rw other (stay s _ _)
      ]
  scheduled-Moves x (ScheduledPanetiereAction.accept_reservations message) h =
      decoded-Moves x message (c.decode_native message)
  scheduled-Moves x (ScheduledPanetiereAction.accept_receipt_batch round batch) h = stay s _ _
  scheduled-Moves x (ScheduledPanetiereAction.build_repair round) h = stay s _ _

  adcnet-Moves :
      (a : A) (action : AdcnetAction)
      → Moves s (ProtocolAction.adcnet action) (perform_adcnet c s a action).0
  unfolding perform_adcnet
  adcnet-Moves a (AdcnetAction.contribute round payload) = stay s _ _

  check_advance-le :
      (round : ℤ)
      → check_advance s round ≡ none
      → (s.status.current_round ≤ as_unsigned round - 1) × (as_unsigned round - 1 < u32_max)
  unfolding check_advance round_before
  check_advance-le (pos zero) h = absurd (cc)
  check_advance-le (pos (suc n)) h = check_round-le s (suc n - 1) (ground (arith, h))
  check_advance-le (negsuc n) h = absurd (cc)

  advanced-Moves :
      (b : B) (round : ℤ) (outcome : Outcome (Unit {0}))
      → check_advance s round ≡ none
      → Moves s
          (ProtocolAction.scheduled_adcnet (ScheduledAdcnetAction.advance_to_round round))
          (advanced c (keep c s (Client.scheduled_adcnet b)) (as_unsigned round - 1) outcome).0
  unfolding finalized_by
  advanced-Moves b round (ok u) h = record {
    client = some (Client.scheduled_adcnet b);
    round = as_unsigned round - 1;
    same = refl;
    forward = (check_advance-le round h).0;
    below = λ _. (check_advance-le round h).1;
    stays = λ r k. absurd (cc);
  }
  advanced-Moves b round (err text) h = stay s _ _

  auction-Moves :
      (b : B) (action : ScheduledAdcnetAction)
      → check_auction c s action ≡ none
      → Moves s (ProtocolAction.scheduled_adcnet action) (perform_auction c s b action).0
  unfolding perform_auction check_auction
  auction-Moves b (ScheduledAdcnetAction.set_cover_rate rate) h = stay s _ _
  auction-Moves b (ScheduledAdcnetAction.advance_to_round round) h =
      advanced-Moves _ round (c.auction.advance_to_round b round).1 h
  auction-Moves b (ScheduledAdcnetAction.schedule_message_for_next_round payload bid) h = stay s _ _
  auction-Moves b (ScheduledAdcnetAction.process_round_broadcast message) h = stay s _ _
  auction-Moves b ScheduledAdcnetAction.messages_for_current_round h = stay s _ _

  pub perform-Moves :
      (client : Client P S A B) (action : ProtocolAction)
      → s.client ≡ some client
      → check_action c s action ≡ none
      → Moves s action (perform c s client action).0
  unfolding perform check_action
  perform-Moves (Client.panetiere p) (ProtocolAction.panetiere a) e h = panetiere-Moves p a
  perform-Moves (Client.scheduled_panetiere x) (ProtocolAction.scheduled_panetiere a) e h =
      scheduled-Moves x a h
  perform-Moves (Client.adcnet x) (ProtocolAction.adcnet a) e h = adcnet-Moves x a
  perform-Moves (Client.scheduled_adcnet b) (ProtocolAction.scheduled_adcnet a) e h =
      auction-Moves b a h
  perform-Moves client action e h = stay s _ s.client

  -- The ways in which an action ends.
  pub data Ends (action : ProtocolAction) (input : ℕ) : Type 0 where
    replied :
        (answer : Answer)
        → check c s action input ≡ some answer
        → execute_action c s action input ≡ (s, answer)
        → Ends action input
    gone : execute_action c s action input ≡ (s, err RemoteSessionError.closed) → Ends action input
    performed :
        (client : Client P S A B)
        → s.client ≡ some client
        → check c s action input ≡ none
        → execute_action c s action input
          ≡ save c (finalized_by s action) (repaired_by c action) input (perform c s client action)
        → Ends action input

  pub execute_action-cases : (action : ProtocolAction) (input : ℕ) → Ends action input
  unfolding execute_action
  execute_action-cases action input = elim (Option-cases (check c s action input)) [
    | inr (answer, early) ↦ replied answer early (ground (arith, early))
    | inl passed ↦ elim (Option-cases s.client) [
      | inl none_left ↦ gone (ground (arith, passed, none_left))
      | inr (client, live) ↦ performed client live passed (ground (arith, passed, live))
    ]
  ]
