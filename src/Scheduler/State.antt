-- ===== src/Scheduler/State.antt =====
-- scheduler_core.rs: the parameters and the state of `SchedulerCore`, and `new`. The node's identity
-- is its key and its signing function in `Env`, beside what the crates do: Ed25519, SHA-256, bincode,
-- and the sizes of the protocols' messages.
use anymone.Base.{
  ℕ, ◌%◌, Bool, ◌&&◌, ◌||◌, Option, none, List, [], ◌∷◌, max, ltb, leb, if◌then◌else◌,
}
use anymone.Base.Equality.{nat_eq, ◌==◌}
use anymone.Base.Sort.{sort}
use anymone.Config.{ExchangePublicKeyWire, Encoding, SetFormation, Body, Configuration}
use anymone.Config.Attestation.{AttestationPolicy}
use anymone.Config.Multisig.{Crypto}
use anymone.Scheduler.WireSize.{WireSizes}
use anymone.Scheduler.Observer.{SchedulerProtocol, PublicObserver, AdcnetOps, PanetiereOps}

pub record SignedProposal : Type 0 where
  pub body : Body
  pub proposer : ℕ
  pub signature : List ℕ

pub record CommitteeSig : Type 0 where
  pub body_bytes : List ℕ
  pub signer : ℕ
  pub signature : List ℕ

-- `PanetiereWire::ServerPublic` as fault evidence: the relay's index, the bytes its signature
-- covers, the signature, and whether its aggregate opening and share are consistent.
pub record ServerPublic : Type 0 where
  pub server_id : ℕ
  pub signing_bytes : List ℕ
  pub signature : List ℕ
  pub consistent : Bool

pub record Env (A P : Type 0) : Type 0 where
  pub crypto : Crypto
  pub key : ℕ
  pub sign : List ℕ → List ℕ
  pub sha256 : List ℕ → ℕ
  pub from_canonical_bytes : List ℕ → Option Body
  pub encode_proposal : SignedProposal → List ℕ
  pub encode_sig : CommitteeSig → List ℕ
  pub encode_config : Configuration → List ℕ
  pub decode_server_public : List ℕ → Option ServerPublic
  pub sizes : WireSizes
  pub adcnet_ops : AdcnetOps A
  pub panetiere_ops : PanetiereOps P

pub data Topic : Type 0 where
  config registration faults committee_body committee_sigs : Topic
  shares broadcast : ℕ → Topic

pub data SchedulerAction : Type 0 where
  stage_proposal : List ℕ → SchedulerAction
  publish : Topic → List ℕ → SchedulerAction

pub record SchedulerParams : Type 0 where
  pub public_round_duration : ℕ
  pub min_relays : ℕ
  pub min_services : ℕ
  pub fault_threshold : ℕ
  pub grow_at : ℕ
  pub message_size : ℕ
  pub integrity_backoff_ms : ℕ
  pub min_capacity : ℕ
  pub sideline : Bool
  pub renegotiate_on_fault : Bool
  pub vector_bytes : ℕ
  pub pin : Option SchedulerProtocol
  pub aggregation : Bool
  pub encoding : Encoding
  pub set_formation : SetFormation
  pub attested_subnets : List ℕ
  pub attestation : AttestationPolicy

abbrev pub initial_capacity : ℕ
initial_capacity = 8

-- the pattern of `1.0_f32`
abbrev pub f32_one : ℕ
f32_one = 0x3f800000

pub record SchedulerCore (A P : Type 0) : Type 0 where
  pub committee : List ℕ
  pub threshold : ℕ
  pub is_lead : Bool
  pub lead : ℕ
  pub last_accepted_round : Option ℕ
  pub cur_round : ℕ
  pub seen_integrity_faults : List (ℕ × (ℕ × ℕ))
  pub epoch_unix_ms : Option ℕ
  pub params : SchedulerParams
  pub registered : List ℕ
  pub sidelined : List ℕ
  pub integrity_offenders : List (ℕ × ℕ)
  pub scheduled_vectors : List (ℕ × ℕ)
  pub services : List (ℕ × ℕ)
  pub relay_xpubs : List (ℕ × ExchangePublicKeyWire)
  pub relay_client_addrs : List (ℕ × List ℕ)
  pub node_rpc_urls : List (ℕ × List ℕ)
  pub service_descriptor_urls : List (ℕ × List ℕ)
  pub watchers : List ℕ
  pub observers : List (ℕ × PublicObserver A P)
  pub observer_grace : List (ℕ × ℕ)
  pub subnet_round_ms : List (ℕ × ℕ)
  pub current_subnets_sig : List (ℕ × (List ℕ × Option SchedulerProtocol))
  pub subnet_count : ℕ
  pub shrink_streak : ℕ
  pub capacity_streak : ℕ
  pub capacity : ℕ
  pub cover_rate : ℕ
  pub last_content : Option (List ℕ)
  pub public_round : ℕ
  pub published_round : Option ℕ
  pub sigs : List (List ℕ × List (ℕ × List ℕ))
  pub published : List (List ℕ)

abbrev first_or : ℕ → List ℕ → ℕ
first_or d [] = d
first_or d (x ∷ xs) = x

unfoldable pub new : {A P : Type 0} → Env A P → List ℕ → ℕ → SchedulerParams → SchedulerCore A P
new env committee threshold params =
    let lead = first_or env.key (sort committee) in
    record {
      committee = committee;
      threshold = threshold;
      is_lead = lead == env.key;
      lead = lead;
      last_accepted_round = none;
      cur_round = 0;
      seen_integrity_faults = [];
      epoch_unix_ms = none;
      params = params;
      registered = [];
      sidelined = [];
      integrity_offenders = [];
      scheduled_vectors = [];
      services = [];
      relay_xpubs = [];
      relay_client_addrs = [];
      node_rpc_urls = [];
      service_descriptor_urls = [];
      watchers = [];
      observers = [];
      observer_grace = [];
      subnet_round_ms = [];
      current_subnets_sig = [];
      subnet_count = 1;
      shrink_streak = 0;
      capacity_streak = 0;
      capacity = max params.min_capacity initial_capacity;
      cover_rate = f32_one;
      last_content = none;
      public_round = 0;
      published_round = none;
      sigs = [];
      published = [];
    }

-- `0.0 <= x <= 1.0` on bit patterns: the non-negative patterns up to that of 1, and minus zero.
unfoldable pub in_unit : ℕ → Bool
in_unit x = leb x f32_one || x == 0x80000000

-- `clamp(0.0, 1.0)`: a NaN stays, a negative number becomes 0, one above 1 becomes 1.
unfoldable pub clamp_unit : ℕ → ℕ
clamp_unit x =
    if ltb 0x7f800000 (x % 0x80000000)
    then x
    else if ltb 0x80000000 x
    then 0
    else if ltb f32_one x && ltb x 0x80000000
    then f32_one
    else x

unfoldable pub set_cover_rate : {A P : Type 0} → SchedulerCore A P → ℕ → SchedulerCore A P
unfolding clamp_unit
set_cover_rate c rate = record c { cover_rate = clamp_unit rate }
