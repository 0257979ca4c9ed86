-- ===== src/RemoteSession.antt =====
-- crates/anymone-core/src/remote_session.rs: a client session that a remote caller drives by requests.
-- The clients of the four protocols are the interface `Clients`: each call of panetiere.rs,
-- panetiere_scheduled.rs and adcnet.rs that the session makes is a field, which takes the client and
-- returns it as the call leaves it.
pub mod Guards
pub mod Perform
pub mod Requests
pub mod Moves
pub mod Events
pub mod Commits
pub mod Rounds
pub mod Numbers
pub mod Retries
pub mod Validity
pub mod Opening
pub mod Orders
pub mod Queue
pub mod Opened
pub mod Ended
use anymone.Base.{ℕ, Bool, Option, List}
use anymone.Base.Int.{ℤ}
use anymone.Base.Results.{Result}
use anymone.Config.{
  ExchangePublicKeyWire, PanetiereConfig, ScheduledPanetiereConfig, AdcnetConfig,
  ScheduledAdcnetConfig, Subnet,
}
use anymone.Panetiere.{PanetiereWire}

pub data RemoteProtocol : Type 0 where
  panetiere scheduled_panetiere adcnet scheduled_adcnet : RemoteProtocol

pub data PanetiereAction : Type 0 where
  prepare_round : (round : ℕ) → PanetiereAction
  finalize_round : (round : ℕ) (payload : Option (List ℕ)) → PanetiereAction
  accept_receipt_batch : (round : ℕ) (batch : List ℕ) → PanetiereAction
  build_repair : (round : ℕ) → PanetiereAction

pub data ScheduledPanetiereAction : Type 0 where
  set_cover_rate : (rate : ℕ) → ScheduledPanetiereAction
  advance_round : (round : ℕ) → ScheduledPanetiereAction
  reserve_message : (payload : List ℕ) → ScheduledPanetiereAction
  prepare_round : (round : ℕ) → ScheduledPanetiereAction
  finalize_round : (round : ℕ) → ScheduledPanetiereAction
  accept_reservations : (message : List ℕ) → ScheduledPanetiereAction
  accept_receipt_batch : (round : ℕ) (batch : List ℕ) → ScheduledPanetiereAction
  build_repair : (round : ℕ) → ScheduledPanetiereAction

pub data AdcnetAction : Type 0 where
  contribute : (round : ℕ) (payload : Option (List ℕ)) → AdcnetAction

-- The round of `advance_to_round` is an i64.
pub data ScheduledAdcnetAction : Type 0 where
  set_cover_rate : (rate : ℕ) → ScheduledAdcnetAction
  advance_to_round : (round : ℤ) → ScheduledAdcnetAction
  schedule_message_for_next_round : (payload : List ℕ) (bid : ℕ) → ScheduledAdcnetAction
  process_round_broadcast : (message : List ℕ) → ScheduledAdcnetAction
  messages_for_current_round : ScheduledAdcnetAction

pub data ProtocolAction : Type 0 where
  panetiere : PanetiereAction → ProtocolAction
  scheduled_panetiere : ScheduledPanetiereAction → ProtocolAction
  adcnet : AdcnetAction → ProtocolAction
  scheduled_adcnet : ScheduledAdcnetAction → ProtocolAction

pub data RemoteSessionError : Type 0 where
  closed unsupported_protocol wrong_protocol invalid_config incomplete_roster : RemoteSessionError
  round_order round_conflict request_conflict : RemoteSessionError
  request_sequence : (expected : ℕ) → RemoteSessionError
  sequence_exhausted payload_too_large queue_full : RemoteSessionError
  protocol : List ℕ → RemoteSessionError

-- What a call of a client that can fail returns: a text on failure.
abbrev pub Outcome : Type 0 → Type 0
Outcome A = Result A (List ℕ)

-- What a request is answered with: the wire messages to send.
abbrev pub Answer : Type 0
Answer = Result (List (List ℕ)) RemoteSessionError

-- panetiere.rs `PanetiereClientSession`. `new` takes the configuration and the number of relays, from
-- which the parameters of the protocol follow, the identity, the keys of the servers and the seed.
pub record PanetiereClient (P : Type 0) : Type 0 where
  pub new : PanetiereConfig → ℕ → ℕ → List (ℕ × List ℕ) → ℕ → P
  pub set_setup_seed : P → ℕ → P
  pub set_consensus : P → List (List ℕ) → P
  pub prepare_round : P → ℕ → P
  pub finalize_round : P → ℕ → Option (List ℕ) → P × Outcome (List (List ℕ))
  pub accept_receipt_batch : P → ℕ → List ℕ → P × Outcome (Unit {0})
  pub build_repair : P → ℕ → P × List (List ℕ)

-- panetiere_scheduled.rs `ScheduledPanetiereClientSession`; `new` takes the leader too, before the seed.
pub record ScheduledPanetiereClient (S : Type 0) : Type 0 where
  pub new : ScheduledPanetiereConfig → ℕ → ℕ → List (ℕ × List ℕ) → ℕ → ℕ → S
  pub set_setup_seed : S → ℕ → S
  pub set_consensus : S → List (List ℕ) → S
  pub set_cover_rate : S → ℕ → S
  pub advance_round : S → ℕ → S × List (List ℕ)
  pub reserve_message : S → List ℕ → S × Outcome (Unit {0})
  pub prepare_round : S → ℕ → S
  pub finalize_round : S → ℕ → S × List (List ℕ)
  pub accept_reservations : S → ℕ → List (ℕ × ℕ) → List ℕ → S × Outcome (Unit {0})
  pub accept_receipt_batch : S → ℕ → List ℕ → S × Outcome (Unit {0})
  pub build_repair : S → ℕ → S × List (List ℕ)
  pub pending_message_count : S → ℕ
  pub take_pending_messages : S → List (List ℕ)

-- adcnet.rs `AdcnetClientSession`; `new` agrees on a secret with each server.
pub record AdcnetClient (A : Type 0) : Type 0 where
  pub new : AdcnetConfig → ℕ → List (ℕ × List ℕ) → ℕ → A
  pub contribute : A → ℕ → Option (List ℕ) → A × Outcome (List ℕ)

-- adcnet.rs `ScheduledAdcnetClientSession`; `new` takes the first round and the leader, and fails where
-- the identity's scalar is no exchange key.
pub record ScheduledAdcnetClient (B : Type 0) : Type 0 where
  pub new : ScheduledAdcnetConfig → ℕ → List (ℕ × List ℕ) → ℕ → ℕ → Outcome B
  pub set_min_message_size : B → ℕ → B
  pub set_cover_rate : B → ℕ → B
  pub advance_to_round : B → ℤ → B × Outcome (Unit {0})
  pub schedule_message_for_next_round : B → List ℕ → ℕ → B × Outcome (Unit {0})
  pub process_round_broadcast : B → List ℕ → B × Outcome (Unit {0})
  pub messages_for_current_round : B → B × Outcome (List (List ℕ))
  pub pending_message_count : B → ℕ
  pub take_pending_messages : B → List (List ℕ)

-- The four clients, bincode's reading of a native message within its limit, and the digest of an
-- action, which fails where bincode does.
pub record Clients (P S A B : Type 0) : Type 0 where
  pub one_round : PanetiereClient P
  pub scheduled : ScheduledPanetiereClient S
  pub share : AdcnetClient A
  pub auction : ScheduledAdcnetClient B
  pub decode_native : List ℕ → Outcome PanetiereWire
  pub action_digest : ProtocolAction → Outcome ℕ

pub data Client (P S A B : Type 0) : Type 0 where
  panetiere : P → Client P S A B
  scheduled_panetiere : S → Client P S A B
  adcnet : A → Client P S A B
  scheduled_adcnet : B → Client P S A B

pub record RemoteSessionStatus : Type 0 where
  pub subnet : Subnet
  pub relay_exchange_keys : List (ℕ × ExchangePublicKeyWire)
  pub session_id : ℕ
  pub protocol : RemoteProtocol
  pub participant : ℕ
  pub exchange_keys : ExchangePublicKeyWire
  pub current_round : ℕ
  pub next_request : ℕ
  pub closed : Bool
  pub developer_mode : Bool
  pub pending_messages : ℕ

pub record FinalizedRound : Type 0 where
  pub round : ℕ
  pub input : ℕ
  pub messages : List (List ℕ)

pub record Reply : Type 0 where
  pub sequence : ℕ
  pub input : ℕ
  pub result : Answer

-- The identity is its secret key.
pub record RemoteAttestedSession (P S A B : Type 0) : Type 0 where
  pub client : Option (Client P S A B)
  pub identity : Option ℕ
  pub status : RemoteSessionStatus
  pub last_reply : Option Reply
  pub finalized : Option FinalizedRound
  pub repair : Option (ℕ × List (List ℕ))
  pub max_payload : ℕ
