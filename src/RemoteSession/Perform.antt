-- ===== src/RemoteSession/Perform.antt =====
-- crates/anymone-core/src/remote_session.rs: the calls of a client by `execute_action`, and what is kept
-- of their messages.
use anymone.Base.{ℕ, ◌-◌, not, Option, none, some, List, [], ◌∷◌, if◌then◌else◌, codes}
use anymone.Base.Equality.{nat_eq, ◌==◌}
use anymone.Base.Int.{as_unsigned}
use anymone.Base.Results.{Result, ok, err}
use anymone.Panetiere.{PanetiereWire}
use anymone.RemoteSession.{
  Clients, Client, ProtocolAction, PanetiereAction, ScheduledPanetiereAction, AdcnetAction,
  ScheduledAdcnetAction, RemoteSessionError, closed, wrong_protocol, round_order, Outcome, Answer,
  RemoteAttestedSession,
}
use anymone.RemoteSession.Guards.{finalized_by, check}

-- `map_err(RemoteSessionError::Protocol)`
abbrev pub map_err : {A : Type 0} → Outcome A → Result A RemoteSessionError
map_err (ok x) = ok x
map_err (err text) = err (RemoteSessionError.protocol text)

-- The outcome of a call that sends nothing.
abbrev pub silent : Outcome (Unit {0}) → Answer
silent (ok u) = ok []
silent (err text) = err (RemoteSessionError.protocol text)

abbrev pub one_message : Outcome (List ℕ) → Answer
one_message (ok message) = ok (message ∷ [])
one_message (err text) = err (RemoteSessionError.protocol text)

module _ {P S A B : Type 0} (c : Clients P S A B) where
  abbrev Session : Type 0
  Session = RemoteAttestedSession P S A B

  abbrev pub keep : Session → Client P S A B → Session
  keep s client = record s { client = some client }

  abbrev pub at_round : Session → ℕ → Session
  at_round s round = record s { status = record s.status { current_round = round } }

  unfoldable pub perform_panetiere : Session → P → PanetiereAction → Session × Answer
  perform_panetiere s p (PanetiereAction.prepare_round round) =
      (keep s (Client.panetiere (c.one_round.prepare_round p round)), ok [])
  perform_panetiere s p (PanetiereAction.finalize_round round payload) =
      let done = c.one_round.finalize_round p round payload in
      (keep s (Client.panetiere done.0), map_err done.1)
  perform_panetiere s p (PanetiereAction.accept_receipt_batch round batch) =
      let done = c.one_round.accept_receipt_batch p round batch in
      (keep s (Client.panetiere done.0), silent done.1)
  perform_panetiere s p (PanetiereAction.build_repair round) =
      let done = c.one_round.build_repair p round in (keep s (Client.panetiere done.0), ok done.1)

  -- The arm of `AcceptReservations`.
  unfoldable pub accept_reservations : Session → S → PanetiereWire → Session × Answer
  accept_reservations s x (PanetiereWire.reservations round entries signature) =
      let done = c.scheduled.accept_reservations x round entries signature in
      (keep s (Client.scheduled_panetiere done.0), silent done.1)
  accept_reservations s x other =
      (s, err (RemoteSessionError.protocol (codes "expected reservations")))

  abbrev pub accept_decoded : Session → S → Outcome PanetiereWire → Session × Answer
  unfolding accept_reservations
  accept_decoded s x (err text) = (s, err (RemoteSessionError.protocol text))
  accept_decoded s x (ok wire) = accept_reservations s x wire

  unfoldable pub perform_scheduled : Session → S → ScheduledPanetiereAction → Session × Answer
  unfolding accept_reservations
  perform_scheduled s x (ScheduledPanetiereAction.set_cover_rate rate) =
      (keep s (Client.scheduled_panetiere (c.scheduled.set_cover_rate x rate)), ok [])
  perform_scheduled s x (ScheduledPanetiereAction.advance_round round) =
      let done = c.scheduled.advance_round x round in
      (keep (at_round s round) (Client.scheduled_panetiere done.0), ok done.1)
  perform_scheduled s x (ScheduledPanetiereAction.reserve_message payload) =
      let done = c.scheduled.reserve_message x payload in
      (keep s (Client.scheduled_panetiere done.0), silent done.1)
  perform_scheduled s x (ScheduledPanetiereAction.prepare_round round) =
      (keep s (Client.scheduled_panetiere (c.scheduled.prepare_round x round)), ok [])
  perform_scheduled s x (ScheduledPanetiereAction.finalize_round round) =
      if not (round == s.status.current_round)
      then (s, err round_order)
      else let done = c.scheduled.finalize_round x round in
        (keep s (Client.scheduled_panetiere done.0), ok done.1)
  perform_scheduled s x (ScheduledPanetiereAction.accept_reservations message) =
      accept_decoded s x (c.decode_native message)
  perform_scheduled s x (ScheduledPanetiereAction.accept_receipt_batch round batch) =
      let done = c.scheduled.accept_receipt_batch x round batch in
      (keep s (Client.scheduled_panetiere done.0), silent done.1)
  perform_scheduled s x (ScheduledPanetiereAction.build_repair round) =
      let done = c.scheduled.build_repair x round in
      (keep s (Client.scheduled_panetiere done.0), ok done.1)

  unfoldable pub perform_adcnet : Session → A → AdcnetAction → Session × Answer
  perform_adcnet s a (AdcnetAction.contribute round payload) =
      let done = c.share.contribute a round payload in
      (keep s (Client.adcnet done.0), one_message done.1)

  -- The arm of `AdvanceToRound` after the call: the round is kept where the call succeeds.
  abbrev pub advanced : Session → ℕ → Outcome (Unit {0}) → Session × Answer
  advanced s round (ok u) = (at_round s round, ok [])
  advanced s round (err text) = (s, err (RemoteSessionError.protocol text))

  unfoldable pub perform_auction : Session → B → ScheduledAdcnetAction → Session × Answer
  perform_auction s b (ScheduledAdcnetAction.set_cover_rate rate) =
      (keep s (Client.scheduled_adcnet (c.auction.set_cover_rate b rate)), ok [])
  perform_auction s b (ScheduledAdcnetAction.advance_to_round round) =
      let done = c.auction.advance_to_round b round in
      advanced (keep s (Client.scheduled_adcnet done.0)) (as_unsigned round - 1) done.1
  perform_auction s b (ScheduledAdcnetAction.schedule_message_for_next_round payload bid) =
      let done = c.auction.schedule_message_for_next_round b payload bid in
      (keep s (Client.scheduled_adcnet done.0), silent done.1)
  perform_auction s b (ScheduledAdcnetAction.process_round_broadcast message) =
      let done = c.auction.process_round_broadcast b message in
      (keep s (Client.scheduled_adcnet done.0), silent done.1)
  perform_auction s b ScheduledAdcnetAction.messages_for_current_round =
      let done = c.auction.messages_for_current_round b in
      (keep s (Client.scheduled_adcnet done.0), map_err done.1)

  -- The `match` on the client and the action.
  unfoldable pub perform : Session → Client P S A B → ProtocolAction → Session × Answer
  unfolding perform_panetiere perform_scheduled perform_adcnet perform_auction
  perform s (Client.panetiere p) (ProtocolAction.panetiere action) = perform_panetiere s p action
  perform s (Client.scheduled_panetiere x) (ProtocolAction.scheduled_panetiere action) =
      perform_scheduled s x action
  perform s (Client.adcnet a) (ProtocolAction.adcnet action) = perform_adcnet s a action
  perform s (Client.scheduled_adcnet b) (ProtocolAction.scheduled_adcnet action) =
      perform_auction s b action
  perform s client action = (s, err wrong_protocol)

  -- `repair_round`
  abbrev pub repaired_by : ProtocolAction → Option ℕ
  repaired_by (ProtocolAction.panetiere (PanetiereAction.build_repair round)) = some round
  repaired_by (ProtocolAction.scheduled_panetiere (ScheduledPanetiereAction.build_repair round)) =
      some round
  repaired_by action = none

  abbrev pub save_finalized : Session → Option ℕ → (input : ℕ) → List (List ℕ) → Session
  save_finalized s none input messages = s
  save_finalized s (some round) input messages = record (at_round s round) {
    finalized = some (record { round = round; input = input; messages = messages });
  }

  abbrev pub save_repair : Session → Option ℕ → List (List ℕ) → Session
  save_repair s none messages = s
  save_repair s (some round) messages = record s { repair = some (round, messages) }

  -- What is kept of the messages of an action; nothing, where there are none or it failed.
  abbrev pub save : Option ℕ → Option ℕ → (input : ℕ) → Session × Answer → Session × Answer
  save finalized repair input (s, err e) = (s, err e)
  save finalized repair input (s, ok []) = (s, ok [])
  save finalized repair input (s, ok (message ∷ messages)) = (
    save_repair (save_finalized s finalized input (message ∷ messages)) repair (message ∷ messages),
    ok (message ∷ messages),
  )

  unfoldable pub execute_action : Session → ProtocolAction → (input : ℕ) → Session × Answer
  unfolding perform
  execute_action s action input = elim (check c s action input) [
    | some answer ↦ (s, answer)
    | none ↦ elim (s.client) [
      | none ↦ (s, err closed)
      | some client ↦
          save (finalized_by s action) (repaired_by action) input (perform s client action)
    ]
  ]
