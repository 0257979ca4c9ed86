-- ===== src/Config.antt =====
-- crates/anymone-core/src/config.rs: the configuration that the committee signs, and the
-- per-protocol configurations inside it. A key, a tag, a hash or a seed is the number that its
-- big-endian bytes spell, so that the order on arrays is the order on numbers; a text is its bytes.
-- A `Duration` is a number of nanoseconds. An `f32` is its 32-bit pattern. The measurements of the
-- `attest_types` crate are codes that are compared for equality only.
pub mod Attestation
pub mod Multisig
pub mod Quorum
pub mod Equality
use anymone.Base.{ℕ, ◌*◌, Bool, Option, none, some, List}
use Attestation.{AttestationPolicy}

-- keys.rs
pub record ExchangePublicKeyWire : Type 0 where
  pub ecdh : List ℕ
  pub kem : List ℕ
  pub set_sig : List ℕ

pub data Encoding : Type 0 where
  prony mse : Encoding

pub data SetFormation : Type 0 where
  leader consensus : SetFormation

pub record NoopConfig : Type 0 where
  pub round_duration_ms : ℕ
  pub message_size : ℕ
  pub client_set_min : ℕ
  pub client_set_max : ℕ

pub record PanetiereConfig : Type 0 where
  pub round_duration_ms : ℕ
  pub message_size : ℕ
  pub estimated_messages : ℕ
  pub client_set_min : ℕ
  pub client_set_max : ℕ
  pub threshold : ℕ
  pub setup_seed : ℕ
  pub encoding : Encoding
  pub set_formation : SetFormation

pub record ScheduledPanetiereConfig : Type 0 where
  pub round_duration_ms : ℕ
  pub message_size : ℕ
  pub vector_bytes : ℕ
  pub estimated_messages : ℕ
  pub client_set_min : ℕ
  pub client_set_max : ℕ
  pub threshold : ℕ
  pub setup_seed : ℕ
  pub set_formation : SetFormation

pub record AggregatorGroup : Type 0 where
  pub aggregator : ℕ

pub record Aggregation : Type 0 where
  pub groups : List AggregatorGroup

pub record AdcnetConfig : Type 0 where
  pub round_duration_ms : ℕ
  pub max_payload_bytes : ℕ
  pub estimated_messages : ℕ
  pub client_set_min : ℕ
  pub client_set_max : ℕ
  pub aggregation : Option Aggregation

pub record ScheduledAdcnetConfig : Type 0 where
  pub round_duration_ms : ℕ
  pub message_length : ℕ
  pub auction_slots : ℕ
  pub min_message_size : ℕ
  pub client_set_min : ℕ
  pub client_set_max : ℕ

pub data ProtocolConfig : Type 0 where
  noop : NoopConfig → ProtocolConfig
  panetiere : PanetiereConfig → ProtocolConfig
  scheduled_panetiere : ScheduledPanetiereConfig → ProtocolConfig
  adcnet : AdcnetConfig → ProtocolConfig
  scheduled_adcnet : ScheduledAdcnetConfig → ProtocolConfig

abbrev round_duration_ms : ProtocolConfig → ℕ
round_duration_ms (noop c) = c.round_duration_ms
round_duration_ms (panetiere c) = c.round_duration_ms
round_duration_ms (scheduled_panetiere c) = c.round_duration_ms
round_duration_ms (adcnet c) = c.round_duration_ms
round_duration_ms (scheduled_adcnet c) = c.round_duration_ms

-- `Duration::from_millis`
abbrev pub round_duration : ProtocolConfig → ℕ
round_duration p = round_duration_ms p * 1000000

abbrev pub message_size : ProtocolConfig → ℕ
message_size (noop c) = c.message_size
message_size (panetiere c) = c.message_size
message_size (scheduled_panetiere c) = c.message_size
message_size (adcnet c) = c.max_payload_bytes
message_size (scheduled_adcnet c) = c.message_length

abbrev pub client_set_min : ProtocolConfig → ℕ
client_set_min (noop c) = c.client_set_min
client_set_min (panetiere c) = c.client_set_min
client_set_min (scheduled_panetiere c) = c.client_set_min
client_set_min (adcnet c) = c.client_set_min
client_set_min (scheduled_adcnet c) = c.client_set_min

abbrev pub client_set_max : ProtocolConfig → ℕ
client_set_max (noop c) = c.client_set_max
client_set_max (panetiere c) = c.client_set_max
client_set_max (scheduled_panetiere c) = c.client_set_max
client_set_max (adcnet c) = c.client_set_max
client_set_max (scheduled_adcnet c) = c.client_set_max

-- `ProtocolConfig::aggregation`, and `runtime::subnet_aggregation` on a subnet's protocol
abbrev pub aggregation_of : ProtocolConfig → Option Aggregation
aggregation_of (adcnet c) = c.aggregation
aggregation_of _ = none

pub record Subnet : Type 0 where
  pub id : ℕ
  pub relays : List ℕ
  pub protocol : ProtocolConfig
  pub cover_rate : ℕ
  pub attested : Bool

pub record ServiceEntry : Type 0 where
  pub tag : ℕ
  pub pubkey : ℕ

-- discovery.rs
pub record Endpoints : Type 0 where
  pub nodes : List (ℕ × List ℕ)
  pub services : List (ℕ × List ℕ)

pub record Body : Type 0 where
  pub round : ℕ
  pub endpoints : Endpoints
  pub epoch_unix_ms : ℕ
  pub services : List ServiceEntry
  pub relay_exchange_keys : List (ℕ × ExchangePublicKeyWire)
  pub subnets : List Subnet
  pub relay_client_addrs : List (ℕ × List ℕ)
  pub watchers : List ℕ
  pub attestation : AttestationPolicy

pub record Signature : Type 0 where
  pub signer : ℕ
  pub bytes : List ℕ

-- `AnymoneRoundConfiguration`
pub record Configuration : Type 0 where
  pub body : Body
  pub signatures : List Signature
