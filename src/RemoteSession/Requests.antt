-- ===== src/RemoteSession/Requests.antt =====
-- crates/anymone-core/src/remote_session.rs: the requests of the remote caller, and the end of a session.
use anymone.Base.{ℕ, ◌+◌, true, not, Option, none, some, List, if◌then◌else◌}
use anymone.Base.Equality.{nat_eq, ◌==◌}
use anymone.Base.Results.{Result, ok, err}
use anymone.Panetiere.{PanetiereWire}
use anymone.RemoteSession.{
  Clients, ProtocolAction, PanetiereAction, ScheduledPanetiereAction, RemoteProtocol,
  RemoteSessionError, closed, request_conflict, request_sequence, sequence_exhausted, Answer,
  RemoteAttestedSession, RemoteSessionStatus,
}
use anymone.RemoteSession.Guards.{pending_of, or_else}
use anymone.RemoteSession.Perform.{execute_action}

-- `u64::MAX`
abbrev u64_max : ℕ
u64_max = 18446744073709551615

-- The `match` of `panetiere_feedback`.
feedback : RemoteProtocol → List ℕ → PanetiereWire → Option ProtocolAction
feedback RemoteProtocol.panetiere message (PanetiereWire.set_batch round bytes) =
    some (ProtocolAction.panetiere (PanetiereAction.accept_receipt_batch round bytes))
feedback RemoteProtocol.scheduled_panetiere message (PanetiereWire.set_batch round bytes) =
    some (
      ProtocolAction.scheduled_panetiere
        (ScheduledPanetiereAction.accept_receipt_batch round bytes))
feedback RemoteProtocol.scheduled_panetiere message
      (PanetiereWire.reservations round entries signature) =
    some (ProtocolAction.scheduled_panetiere (ScheduledPanetiereAction.accept_reservations message))
feedback protocol message wire = none

module _ {P S A B : Type 0} where
  unfoldable pub close : RemoteAttestedSession P S A B → RemoteAttestedSession P S A B
  close s = record s {
    client = none;
    identity = none;
    finalized = none;
    repair = none;
    last_reply = none;
    status = record s.status { closed = true };
  }

module _ {P S A B : Type 0} (c : Clients P S A B) where
  abbrev Session : Type 0
  Session = RemoteAttestedSession P S A B

  unfoldable pub status : Session → RemoteSessionStatus
  unfolding pending_of
  status s = record s.status { pending_messages = pending_of c s.client }

  unfoldable pub apply : Session → ProtocolAction → Session × Answer
  apply s action = if s.status.closed then (s, err closed) else elim (c.action_digest action) [
    | err text ↦ (s, err (RemoteSessionError.protocol text))
    | ok input ↦ execute_action c s action input
  ]

  -- The reply to the last request, where this is that request again.
  unfoldable pub repeated : Session → (sequence input : ℕ) → Option Answer
  repeated s sequence input = elim (s.last_reply) [
    | none ↦ none
    | some reply ↦
        if sequence == reply.sequence
        then some (if input == reply.input then reply.result else err request_conflict)
        else none
  ]

  unfoldable pub expect : Session → ℕ → Session
  expect s next = record s { status = record s.status { next_request = next } }

  -- The action of a request that is carried out.
  unfoldable pub carry_out :
      Session → (sequence : ℕ) → ProtocolAction → (input : ℕ) → Session × Answer
  carry_out s sequence action input =
      let done = execute_action c (expect s (sequence + 1)) action input in
      (
        record done.0 {
          last_reply = some (record { sequence = sequence; input = input; result = done.1 });
        },
        done.1,
      )

  -- The tests of `execute`: passed with `none`.
  unfoldable pub admit : Session → (sequence input : ℕ) → Option Answer
  unfolding repeated
  admit s sequence input = or_else (repeated s sequence input) (
      if not (sequence == s.status.next_request)
      then some (err (request_sequence s.status.next_request))
      else if sequence == u64_max
      then some (err sequence_exhausted)
      else none)

  unfoldable pub execute : Session → (sequence : ℕ) → ProtocolAction → Session × Answer
  execute s sequence action =
      if s.status.closed then (s, err closed) else elim (c.action_digest action) [
        | err text ↦ (s, err (RemoteSessionError.protocol text))
        | ok input ↦ elim (admit s sequence input) [
          | some answer ↦ (s, answer)
          | none ↦ carry_out s sequence action input
        ]
      ]

  -- `panetiere_feedback`
  unfoldable pub panetiere_feedback :
      RemoteProtocol → List ℕ → Result (Option ProtocolAction) RemoteSessionError
  unfolding feedback
  panetiere_feedback protocol message = elim (c.decode_native message) [
    | err text ↦ err (RemoteSessionError.protocol text)
    | ok wire ↦ ok (feedback protocol message wire)
  ]
