-- ===== src/Scheduler/Validation.antt =====
-- scheduler_core.rs: `validate_body`, a member's test of a proposed body against what it saw itself.
use anymone.Base.{ℕ, Bool, true, false, ◌&&◌, not, Option, none, some, List, all_of, any_of, map_or}
use anymone.Base.Equality.{nat_eq, bool_eq, pair_eq, list_eq, option_eq, ◌==◌}
use anymone.Base.Sets.{contains}
use anymone.Base.Maps.{get}
use anymone.Config.{ExchangePublicKeyWire, Aggregation, ProtocolConfig, adcnet, Subnet, Body}
use anymone.Config.Attestation.{policy_beq}
use anymone.Scheduler.Observer.{protocol_eq}
use anymone.Scheduler.State.{Env, SchedulerCore}
use anymone.Scheduler.Structure.{validate_structure, aggregation_structural_ok}

abbrev pub key_beq : ExchangePublicKeyWire → ExchangePublicKeyWire → Bool
key_beq a b = a.ecdh == b.ecdh && a.kem == b.kem && a.set_sig == b.set_sig

-- `map.get(k) == Some(v)`
abbrev pub maps_to : {V : Type 0} → (V → V → Bool) → List (ℕ × V) → ℕ → V → Bool
maps_to same m k v = elim (get m k) [ none ↦ false | some w ↦ same w v ]

abbrev pub nat_same : ℕ → ℕ → Bool
nat_same a b = a == b

abbrev pub text_same : List ℕ → List ℕ → Bool
text_same a b = a == b

module _ {A P : Type 0} (env : Env A P) where
  unfoldable pub exchange_keys_match : SchedulerCore A P → List (ℕ × ExchangePublicKeyWire) → Bool
  exchange_keys_match c keys = all_of (λ e. maps_to key_beq c.relay_xpubs e.0 e.1) keys

  unfoldable pub aggregation_valid : SchedulerCore A P → Option Aggregation → Bool
  aggregation_valid c none = aggregation_structural_ok none
  aggregation_valid c (some a) =
      aggregation_structural_ok (some a)
      && all_of (λ g. contains c.registered g.aggregator) a.groups

  abbrev pub keys_ok : SchedulerCore A P → ProtocolConfig → Bool
  keys_ok c (adcnet p) = aggregation_valid c p.aggregation
  keys_ok c _ = true

  -- The body of the loop over the subnets.
  unfoldable pub subnet_known : SchedulerCore A P → Subnet → Bool
  subnet_known c s =
      s.attested == contains c.params.attested_subnets s.id
      && all_of (contains c.registered) s.relays
      && keys_ok c s.protocol

  unfoldable pub endpoints_known : SchedulerCore A P → Body → Bool
  endpoints_known c body =
      all_of
        (λ e.
          maps_to text_same c.node_rpc_urls e.0 e.1
          && any_of (λ k. k.0 == e.0) body.relay_exchange_keys)
        body.endpoints.nodes
      && all_of
          (λ e.
            maps_to text_same c.service_descriptor_urls e.0 e.1
            && any_of (λ s. s.tag == e.0) body.services)
          body.endpoints.services

  unfoldable pub validate_body : SchedulerCore A P → Body → Bool
  unfolding endpoints_known exchange_keys_match subnet_known
  validate_body c body =
      validate_structure env.sizes body
      && not (map_or false (λ known. not (known == body.epoch_unix_ms)) c.epoch_unix_ms)
      && all_of (λ s. maps_to nat_same c.services s.tag s.pubkey) body.services
      && endpoints_known c body
      && exchange_keys_match c body.relay_exchange_keys
      && policy_beq body.attestation c.params.attestation
      && all_of (subnet_known c) body.subnets
