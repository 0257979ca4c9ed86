-- ===== src/Scheduler/Structure.antt =====
-- scheduler_core.rs: `validate_structure` and the checks that it is made of. A `return false` is a
-- conjunct here, in the order of the source.
pub mod Bounds
use anymone.Base.{
  ℕ, ◌+◌, ◌-◌, ◌*◌, ◌/◌, ◌%◌, Bool, true, false, ◌&&◌, ◌||◌, not, Option, none, some, List, [], ◌∷◌,
  map, length, leb, ltb, eqb, max, all_of, if◌then◌else◌,
}
use anymone.Base.Equality.{nat_eq}
use anymone.Base.Sets.{contains}
use anymone.Config.{
  SetFormation, leader, consensus, Aggregation, ProtocolConfig, noop, panetiere,
  scheduled_panetiere, adcnet, scheduled_adcnet, Subnet, Body, round_duration, message_size,
  client_set_min, client_set_max,
}
use anymone.Scheduler.WireSize.{WireSizes, subnet_max_wire, max_subnet_wire}
use anymone.Scheduler.Sizing.{max_subnets, max_subnet_clients}
use anymone.Scheduler.State.{in_unit}

abbrev pub max_committee_relays : ℕ
max_committee_relays = 16

abbrev pub min_capacity : ℕ
min_capacity = 8

abbrev pub max_vector_bytes : ℕ
max_vector_bytes = 128 * 1024

-- panetiere.rs
abbrev pub consensus_phases : ℕ
consensus_phases = 3

abbrev pub consensus_phase_ms : ℕ
consensus_phase_ms = 150

abbrev u16_max : ℕ
u16_max = 65535

-- The number of items is not changed by sorting and removing repetitions.
unfoldable pub unique : List ℕ → Bool
unique [] = true
unique (x ∷ xs) = not (contains xs x) && unique xs

-- The threshold is at most the relays where this is called, so the subtraction does not stop at 0.
unfoldable pub consensus_cadence_fits : ℕ → SetFormation → ℕ → ℕ → Bool
consensus_cadence_fits round_duration_ms leader n_relays threshold = true
consensus_cadence_fits round_duration_ms consensus n_relays threshold =
    let phases = consensus_phases + (max n_relays 1 - threshold + 1) in
    leb ((phases + 1) * consensus_phase_ms) round_duration_ms

unfoldable pub aggregation_structural_ok : Option Aggregation → Bool
unfolding unique
aggregation_structural_ok none = true
aggregation_structural_ok (some a) =
    not (leb (length a.groups) 0) && unique (map (λ g. g.aggregator) a.groups)

abbrev pub threshold_ok : ℕ → ℕ → Bool
threshold_ok n threshold = leb (n / 2 + 1) threshold && leb threshold (max n 1)

-- The arms of the match on a subnet's protocol, for a subnet of `n` relays.
unfoldable pub protocol_ok : ProtocolConfig → ℕ → Bool
unfolding consensus_cadence_fits aggregation_structural_ok
protocol_ok (noop c) n = leb min_capacity c.client_set_max
protocol_ok (adcnet c) n =
    leb min_capacity c.client_set_max
    && not (eqb c.estimated_messages 0)
    && aggregation_structural_ok c.aggregation
protocol_ok (panetiere c) n =
    leb min_capacity c.client_set_max
    && not (eqb c.estimated_messages 0)
    && threshold_ok n c.threshold
    && consensus_cadence_fits c.round_duration_ms c.set_formation n c.threshold
protocol_ok (scheduled_panetiere c) n =
    leb min_capacity c.client_set_max
    && not (eqb c.estimated_messages 0)
    && threshold_ok n c.threshold
    && leb c.message_size u16_max
    && not (eqb c.vector_bytes 0)
    && consensus_cadence_fits c.round_duration_ms c.set_formation n c.threshold
protocol_ok (scheduled_adcnet c) n =
    leb min_capacity c.client_set_max
    && not (eqb c.auction_slots 0)
    && leb c.auction_slots max_subnet_clients
    && leb 1024 c.message_length
    && eqb (c.message_length % 1024) 0
    && leb c.message_length max_vector_bytes
    && not (eqb c.min_message_size 0)
    && leb c.min_message_size c.message_length

module _ (w : WireSizes) where
  -- The body of the loop over the subnets.
  unfoldable pub subnet_ok : Subnet → Bool
  unfolding unique in_unit protocol_ok
  subnet_ok s =
      not (leb (length s.relays) 0)
      && leb (length s.relays) max_committee_relays
      && unique s.relays
      && in_unit s.cover_rate
      && not (eqb (round_duration s.protocol) 0)
      && not (eqb (message_size s.protocol) 0)
      && leb (client_set_min s.protocol) (client_set_max s.protocol)
      && protocol_ok s.protocol (length s.relays)
      && leb (subnet_max_wire w s.protocol (length s.relays)) max_subnet_wire

  unfoldable pub validate_structure : Body → Bool
  unfolding unique subnet_ok
  validate_structure body =
      not (leb (length body.subnets) 0)
      && leb (length body.subnets) max_subnets
      && unique (map (λ s. s.id) body.subnets)
      && unique (map (λ s. s.tag) body.services)
      && unique (map (λ p. p.0) body.relay_exchange_keys)
      && all_of subnet_ok body.subnets
