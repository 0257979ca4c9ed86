-- ===== src/RemoteSession/Guards.antt =====
-- crates/anymone-core/src/remote_session.rs: the tests of `execute_action` before a client is called. A
-- test passes with `none`; `some` is what the action is answered with on an early return.
use anymone.Base.{
  ℕ, ◌+◌, ◌-◌, ◌*◌, min, ◌||◌, Option, none, some, List, length, ltb, leb, if◌then◌else◌, codes,
}
use anymone.Base.Equality.{nat_eq, ◌==◌}
use anymone.Base.Int.{ℤ, to_unsigned}
use anymone.Base.Results.{Result, ok, err}
use anymone.Scheduler.State.{in_unit}
use anymone.Scheduler.WireSize.{usize_max}
use anymone.RemoteSession.{
  Clients, Client, ProtocolAction, PanetiereAction, ScheduledPanetiereAction, AdcnetAction,
  ScheduledAdcnetAction, RemoteSessionError, round_order, round_conflict, payload_too_large,
  queue_full, Answer, RemoteAttestedSession,
}

-- `u32::MAX as u64`
abbrev pub u32_max : ℕ
u32_max = 4294967295

abbrev pub refused : Result (Unit {0}) RemoteSessionError → Option Answer
refused (ok u) = none
refused (err e) = some (err e)

-- The second test, where the first passes.
abbrev pub or_else : Option Answer → Option Answer → Option Answer
or_else none second = second
or_else (some answer) second = some answer

-- `!rate.is_finite() || !(0.0..=1.0).contains(rate)`, on bit patterns.
unfoldable pub check_rate : ℕ → Option Answer
unfolding in_unit
check_rate rate =
    if in_unit rate
    then none
    else some (err (RemoteSessionError.protocol (codes "invalid cover rate")))

-- The round before an i64, if there is one.
unfoldable pub round_before : ℤ → Option ℕ
round_before round = elim (to_unsigned round) [
  | none ↦ none
  | some r ↦ if r == 0 then none else some (r - 1)
]

module _ {P S A B : Type 0} where
  unfoldable pub check_round :
      RemoteAttestedSession P S A B → ℕ → Result (Unit {0}) RemoteSessionError
  check_round s round =
      if ltb round s.status.current_round || leb u32_max round then err round_order else ok tt

  unfoldable pub check_payload :
      RemoteAttestedSession P S A B → List ℕ → Result (Unit {0}) RemoteSessionError
  check_payload s payload =
      if ltb s.max_payload (length payload) then err payload_too_large else ok tt

  -- The round that an action finalizes.
  unfoldable pub finalized_by : RemoteAttestedSession P S A B → ProtocolAction → Option ℕ
  finalized_by s (ProtocolAction.panetiere (PanetiereAction.finalize_round round payload)) =
      some round
  finalized_by s
        (ProtocolAction.scheduled_panetiere (ScheduledPanetiereAction.finalize_round round)) =
      some round
  finalized_by s (ProtocolAction.adcnet (AdcnetAction.contribute round payload)) = some round
  finalized_by s
        (ProtocolAction.scheduled_adcnet ScheduledAdcnetAction.messages_for_current_round) =
      some s.status.current_round
  finalized_by s action = none

  unfoldable pub check_finalized :
      RemoteAttestedSession P S A B → (input : ℕ) → Option ℕ → Option Answer
  check_finalized s input none = none
  check_finalized s input (some round) = elim (s.finalized) [
    | none ↦ refused (check_round s round)
    | some finalized ↦
        if ltb round finalized.round
        then some (err round_order)
        else if round == finalized.round
        then some (if finalized.input == input then ok finalized.messages else err round_conflict)
        else refused (check_round s round)
  ]

  -- `is_some_and(|f| *round <= f.round)`
  unfoldable pub check_prepared : RemoteAttestedSession P S A B → ℕ → Option Answer
  check_prepared s round = elim (s.finalized) [
    | none ↦ none
    | some finalized ↦ if leb round finalized.round then some (err round_order) else none
  ]

  unfoldable pub check_saved : RemoteAttestedSession P S A B → ℕ → Option Answer
  check_saved s round = elim (s.repair) [
    | none ↦ none
    | some saved ↦
        if round == saved.0
        then some (ok saved.1)
        else if ltb round saved.0
        then some (err round_order)
        else none
  ]

  unfoldable pub check_repair : RemoteAttestedSession P S A B → ℕ → Option Answer
  unfolding check_saved
  check_repair s round = elim (s.finalized) [
    | none ↦ some (err round_order)
    | some finalized ↦
        if ltb finalized.round round then some (err round_order) else check_saved s round
  ]

  unfoldable pub pending_of : Clients P S A B → Option (Client P S A B) → ℕ
  pending_of c (some (Client.scheduled_panetiere s)) = c.scheduled.pending_message_count s
  pending_of c (some (Client.scheduled_adcnet b)) = c.auction.pending_message_count b
  pending_of c other = 0

  unfoldable pub check_queue : Clients P S A B → RemoteAttestedSession P S A B → Option Answer
  unfolding pending_of
  check_queue c s =
      let pending = pending_of c s.client in
      if leb 64 pending || ltb (8 * 1024 * 1024) (min ((pending + 1) * s.max_payload) usize_max)
      then some (err queue_full)
      else none

  unfoldable pub check_advance : RemoteAttestedSession P S A B → ℤ → Option Answer
  unfolding round_before
  check_advance s round = elim (round_before round) [
    | none ↦ some (err round_order)
    | some r ↦ refused (check_round s r)
  ]

  unfoldable pub check_payload_of : RemoteAttestedSession P S A B → Option (List ℕ) → Option Answer
  check_payload_of s none = none
  check_payload_of s (some payload) = refused (check_payload s payload)

  unfoldable pub check_panetiere : RemoteAttestedSession P S A B → PanetiereAction → Option Answer
  unfolding check_prepared check_payload_of
  check_panetiere s (PanetiereAction.prepare_round round) =
      or_else (refused (check_round s round)) (check_prepared s round)
  check_panetiere s (PanetiereAction.build_repair round) = check_repair s round
  check_panetiere s (PanetiereAction.finalize_round round payload) = check_payload_of s payload
  check_panetiere s (PanetiereAction.accept_receipt_batch round batch) = none

  unfoldable pub check_scheduled :
      Clients P S A B → RemoteAttestedSession P S A B → ScheduledPanetiereAction → Option Answer
  unfolding check_prepared check_queue check_rate
  check_scheduled c s (ScheduledPanetiereAction.set_cover_rate rate) = check_rate rate
  check_scheduled c s (ScheduledPanetiereAction.prepare_round round) =
      or_else (refused (check_round s round)) (check_prepared s round)
  check_scheduled c s (ScheduledPanetiereAction.build_repair round) = check_repair s round
  check_scheduled c s (ScheduledPanetiereAction.reserve_message payload) =
      or_else (refused (check_payload s payload)) (check_queue c s)
  check_scheduled c s (ScheduledPanetiereAction.advance_round round) = refused (check_round s round)
  check_scheduled c s action = none

  unfoldable pub check_adcnet : RemoteAttestedSession P S A B → AdcnetAction → Option Answer
  unfolding check_payload_of
  check_adcnet s (AdcnetAction.contribute round payload) = check_payload_of s payload

  unfoldable pub check_auction :
      Clients P S A B → RemoteAttestedSession P S A B → ScheduledAdcnetAction → Option Answer
  unfolding check_advance check_queue check_rate
  check_auction c s (ScheduledAdcnetAction.set_cover_rate rate) = check_rate rate
  check_auction c s (ScheduledAdcnetAction.schedule_message_for_next_round payload bid) =
      or_else (refused (check_payload s payload)) (check_queue c s)
  check_auction c s (ScheduledAdcnetAction.advance_to_round round) = check_advance s round
  check_auction c s action = none

  -- The second `match &action`.
  unfoldable pub check_action :
      Clients P S A B → RemoteAttestedSession P S A B → ProtocolAction → Option Answer
  unfolding check_panetiere check_scheduled check_adcnet check_auction
  check_action c s (ProtocolAction.panetiere action) = check_panetiere s action
  check_action c s (ProtocolAction.scheduled_panetiere action) = check_scheduled c s action
  check_action c s (ProtocolAction.adcnet action) = check_adcnet s action
  check_action c s (ProtocolAction.scheduled_adcnet action) = check_auction c s action

  -- All that `execute_action` does before it calls the client.
  unfoldable pub check :
      Clients P S A B → RemoteAttestedSession P S A B → ProtocolAction → (input : ℕ) → Option Answer
  unfolding check_action
  check c s action input =
      or_else (check_finalized s input (finalized_by s action)) (check_action c s action)
