-- ===== src/Scheduler/Build.antt =====
-- scheduler_core.rs: the body that the lead proposes, `resize_scheduled_vectors` and
-- `build_subnet_aggregation`. A map has each key once, so that sorting its entries is sorting its
-- keys. The sizes are far below 2^53, where the comparison of floats is the one of numbers.
pub mod Placement
use anymone.Base.{
  ℕ, zero, suc, ◌+◌, ◌-◌, ◌*◌, ◌/◌, ◌%◌, ◌^◌, Bool, true, false, ◌||◌, not, Option, none, some,
  List, [], ◌∷◌, ◌++◌, map, length, leb, ltb, eqb, min, max, any_of, retain, filter_map, take,
  if◌then◌else◌, unwrap_or, codes, be_bytes, abs_diff,
}
use anymone.Base.Equality.{nat_eq}
use anymone.Base.Sets.{contains}
use anymone.Base.Maps.{get, put, delete, contains_key}
use anymone.Base.Sort.{sort}
use anymone.Config.{Aggregation, ProtocolConfig, Subnet, Body}
use anymone.Scheduler.WireSize.{usize_max}
use anymone.Scheduler.Sizing.{aggregator_group_count, expected_active}
use anymone.Scheduler.Observer.{SchedulerProtocol, PublicObserver, decoded_bytes_recent}
use anymone.Scheduler.State.{Env, SchedulerCore}
use anymone.Scheduler.Structure.{max_committee_relays, max_vector_bytes}

abbrev sched_window : ℕ
sched_window = 8

abbrev pub round_up_to : ℕ → ℕ → ℕ
round_up_to x to = (x + to - 1) / max to 1 * to

-- keys.rs `derive_seed`
unfoldable pub derive_seed : (List ℕ → ℕ) → List ℕ → List ℕ → ℕ
derive_seed sha256 domain pubkeys = sha256 (domain ++ key_bytes (sort pubkeys))
  where
    key_bytes : List ℕ → List ℕ
    key_bytes [] = []
    key_bytes (pk ∷ pks) = be_bytes 32 pk ++ key_bytes pks

unfoldable pub build_subnet_aggregation : ℕ → List ℕ → Option Aggregation
build_subnet_aggregation capacity relay_vec =
    elim (aggregator_group_count capacity (length relay_vec)) [
      | none ↦ none
      | some group_count ↦ some (record {
        groups =
            map (λ aggregator. record { aggregator = aggregator }) (take group_count relay_vec);
      })
    ]

abbrev repeated : {X : Type 0} → ℕ → X → List X
repeated zero x = []
repeated (suc n) x = x ∷ repeated n x

-- The entries of a map in the order of their keys.
abbrev sorted_entries : {V : Type 0} → List (ℕ × V) → List (ℕ × V)
sorted_entries m =
    filter_map (λ k. elim (get m k) [ none ↦ none | some v ↦ some (k, v) ])
      (sort (map (λ e. e.0) m))

abbrev is_scheduled : SchedulerProtocol → Bool
is_scheduled SchedulerProtocol.scheduled_panetiere = true
is_scheduled _ = false

-- `desired.abs_diff(v) as f64 >= v as f64 * 0.25`, and a new vector
unfoldable pub resized : ℕ → ℕ → ℕ
resized desired current =
    if eqb current 0 || leb current (abs_diff desired current * 4) then desired else current

module _ {A P : Type 0} where
  unfoldable pub subnet_protocols : SchedulerCore A P → List SchedulerProtocol
  subnet_protocols c =
      repeated (max c.subnet_count 1) (unwrap_or SchedulerProtocol.panetiere c.params.pin)

  abbrev min_vector : SchedulerCore A P → ℕ
  min_vector c = round_up_to (expected_active c.capacity * c.params.message_size / 2) 8192

  -- The size that a vector should have, from the bytes that its subnet decoded.
  unfoldable pub desired_vector : SchedulerCore A P → ℕ → ℕ
  desired_vector c bytes =
      if ltb 0 c.params.vector_bytes
      then c.params.vector_bytes
      else min (max (round_up_to (min (bytes * 3) usize_max / 2) 8192) (min_vector c))
          max_vector_bytes

  unfoldable pub resize_scheduled_vectors :
      Env A P → SchedulerCore A P → ℕ → List SchedulerProtocol → List (ℕ × ℕ) → List (ℕ × ℕ)
  unfolding desired_vector resized
  resize_scheduled_vectors env c id [] vectors = vectors
  resize_scheduled_vectors env c id (proto ∷ protos) vectors =
      let bytes : Option ℕ = elim (get c.observers id) [
        | none ↦ none
        | some o ↦ decoded_bytes_recent env.adcnet_ops env.panetiere_ops o sched_window
      ] in
      let current = unwrap_or 0 (get vectors id) in
      let next : List (ℕ × ℕ) =
        if not (is_scheduled proto)
        then delete vectors id
        else put vectors id (resized (desired_vector c (unwrap_or 0 bytes)) current) in
      resize_scheduled_vectors env c (id + 1) protos next

  -- The vector size in a proposal: the pinned one, the one held, or the default.
  abbrev proposed_vector : SchedulerCore A P → ℕ → ℕ
  proposed_vector c id =
      if ltb 0 c.params.vector_bytes
      then c.params.vector_bytes
      else if ltb 0 (unwrap_or 0 (get c.scheduled_vectors id))
      then unwrap_or 0 (get c.scheduled_vectors id)
      else min (min_vector c) max_vector_bytes

  -- The configuration of one subnet, for the placed relays.
  unfoldable pub build_protocol :
      Env A P → SchedulerCore A P → List ℕ → ℕ → SchedulerProtocol → ProtocolConfig
  unfolding derive_seed build_subnet_aggregation
  build_protocol env c relay_vec id SchedulerProtocol.panetiere =
      let n = length relay_vec in
      ProtocolConfig.panetiere (record {
        round_duration_ms = c.params.public_round_duration / 1000000 % 2 ^ 64;
        message_size = c.params.message_size;
        estimated_messages = expected_active c.capacity;
        client_set_min = 0;
        client_set_max = c.capacity;
        threshold = max (n / 2 + 1) (n - 2);
        setup_seed = derive_seed env.sha256 (codes "anymone/subnet-seed") relay_vec;
        encoding = c.params.encoding;
        set_formation = c.params.set_formation;
      })
  build_protocol env c relay_vec id SchedulerProtocol.scheduled_panetiere =
      let n = length relay_vec in
      ProtocolConfig.scheduled_panetiere (record {
        round_duration_ms = c.params.public_round_duration / 1000000 % 2 ^ 64;
        message_size = c.params.message_size;
        vector_bytes = proposed_vector c id;
        estimated_messages = c.capacity;
        client_set_min = 0;
        client_set_max = c.capacity;
        threshold = max (n / 2 + 1) (n - 2);
        setup_seed = derive_seed env.sha256 (codes "anymone/subnet-seed") relay_vec;
        set_formation = c.params.set_formation;
      })
  build_protocol env c relay_vec id SchedulerProtocol.scheduled_adcnet =
      ProtocolConfig.scheduled_adcnet (record {
        round_duration_ms = c.params.public_round_duration / 1000000 % 2 ^ 64;
        message_length = round_up_to c.params.message_size 1024;
        auction_slots = expected_active c.capacity;
        min_message_size = 1;
        client_set_min = 0;
        client_set_max = c.capacity;
      })
  build_protocol env c relay_vec id SchedulerProtocol.noop = ProtocolConfig.noop (record {
    round_duration_ms = c.params.public_round_duration / 1000000 % 2 ^ 64;
    message_size = c.params.message_size;
    client_set_min = 0;
    client_set_max = c.capacity;
  })
  build_protocol env c relay_vec id SchedulerProtocol.adcnet = ProtocolConfig.adcnet (record {
    round_duration_ms = c.params.public_round_duration / 1000000 % 2 ^ 64;
    max_payload_bytes = c.params.message_size;
    estimated_messages = expected_active c.capacity;
    client_set_min = 0;
    client_set_max = c.capacity;
    aggregation =
        if c.params.aggregation then build_subnet_aggregation c.capacity relay_vec else none;
  })

  unfoldable pub build_subnets :
      Env A P → SchedulerCore A P → List ℕ → ℕ → List SchedulerProtocol → List Subnet
  unfolding build_protocol
  build_subnets env c relay_vec id [] = []
  build_subnets env c relay_vec id (proto ∷ protos) =
      record {
        id = id;
        relays = relay_vec;
        protocol = build_protocol env c relay_vec id proto;
        cover_rate = c.cover_rate;
        attested = contains c.params.attested_subnets id;
      }
      ∷ build_subnets env c relay_vec (id + 1) protos

  -- The relays that a proposal places: the lowest keys.
  unfoldable pub placed_relays : SchedulerCore A P → List ℕ
  placed_relays c = take max_committee_relays (sort c.registered)

  -- `now` is the clock of the machine.
  unfoldable pub build_body : Env A P → SchedulerCore A P → ℕ → List SchedulerProtocol → Body
  unfolding placed_relays build_subnets
  build_body env c now protos =
      let relay_vec = placed_relays c in
      let subnets = build_subnets env c relay_vec 0 protos in
      let placed : ℕ → Bool = λ pk. any_of (λ (s : Subnet). contains s.relays pk) subnets in
      record {
        round = c.public_round;
        endpoints = record {
          nodes = sorted_entries (retain (λ e. placed e.0) c.node_rpc_urls);
          services =
              sorted_entries (retain (λ e. contains_key c.services e.0) c.service_descriptor_urls);
        };
        epoch_unix_ms = unwrap_or now c.epoch_unix_ms;
        services = map (λ e. record { tag = e.0; pubkey = e.1 }) (sorted_entries c.services);
        relay_exchange_keys =
            filter_map (λ pk. elim (get c.relay_xpubs pk) [ none ↦ none | some xk ↦ some (pk, xk) ])
              relay_vec;
        subnets = subnets;
        relay_client_addrs = sorted_entries (retain (λ e. placed e.0) c.relay_client_addrs);
        watchers = sort c.watchers;
        attestation = c.params.attestation;
      }
