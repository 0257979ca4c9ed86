-- ===== src/Examples/Data.antt =====
-- A committee of three, a signature that is the signer's key, and a body that is encoded by its
-- round.
use anymone.Base.{ℕ, ◌*◌, true, false, Option, none, some, List, [], ◌∷◌, length}
use anymone.Base.Equality.{nat_eq, list_eq, ◌==◌}
use anymone.Config.{
  ExchangePublicKeyWire, prony, leader, noop, panetiere, Subnet, Body, Configuration,
}
use anymone.Config.Attestation.{AttestationPolicy}
use anymone.Config.Multisig.{Crypto}
use anymone.Faults.{integrity, peers}
use anymone.Scheduler.WireSize.{WireSizes}
use anymone.Scheduler.Observer.{AdcnetOps, PanetiereOps}
use anymone.Scheduler.State.{Env, SchedulerParams, ServerPublic, SignedProposal}
use anymone.Scheduler.Registration.{relay}
use anymone.Scheduler.FaultReports.{FaultReport}
use anymone.Scheduler.Proposals.Events.{
  Event, decoded_body, committee_sig, published_config, registration_seen, fault_reported,
}

abbrev pub crypto : Crypto
crypto = record {
  verify = λ key msg sig. sig == key ∷ [];
  canonical_bytes = λ body. body.round ∷ [];
}

abbrev pub policy : AttestationPolicy
policy = record {
  tdx_images = [];
  validity_rounds = 0;
  play_integrity = none;
  app_attest = none;
  android_key = none;
}

abbrev pub panetiere_subnet : Subnet
panetiere_subnet = record {
  id = 0;
  relays = 11 ∷ 12 ∷ 13 ∷ [];
  protocol = panetiere (record {
    round_duration_ms = 1000;
    message_size = 64;
    estimated_messages = 4;
    client_set_min = 0;
    client_set_max = 8;
    threshold = 2;
    setup_seed = 0;
    encoding = prony;
    set_formation = leader;
  });
  cover_rate = 0;
  attested = false;
}

abbrev pub noop_subnet : Subnet
noop_subnet = record panetiere_subnet {
  protocol = noop (record {
    round_duration_ms = 1000;
    message_size = 64;
    client_set_min = 0;
    client_set_max = 8;
  });
}

abbrev pub body_at : ℕ → Subnet → Body
body_at round subnet = record {
  round = round;
  endpoints = record { nodes = []; services = [] };
  epoch_unix_ms = 5;
  services = [];
  relay_exchange_keys = [];
  subnets = subnet ∷ [];
  relay_client_addrs = [];
  watchers = [];
  attestation = policy;
}

abbrev pub sizes : WireSizes
sizes = record {
  iblt_encoded_len = λ n m. n * m;
  auction_elements = λ n. n;
  prony_polys = λ n m. n;
  mse_polys = λ n m. n;
  reservation_polys = λ n. n;
  bytes_per_poly = 1;
  block_len = λ k n polys. polys;
  rs_poly_packed_len = 1;
  fresh_path_packed_len = λ n. n;
  lane_post_packed_len = λ a b c. a;
  server_entry = λ a b c. a;
  client_entry_packed_len = 1;
  sig_len = 64;
  pubkey_len = 32;
}

abbrev pub adcnet_ops : AdcnetOps (Unit {0})
adcnet_ops = record {
  for_protocol = λ s roster lead t. tt;
  on_inbound = λ a from bytes. a;
  begin_round = λ a r. a;
  end_round = λ a r. (a, []);
  observed_round = λ a. none;
  anonymity_set = λ a. none;
  anon_set_round = λ a. none;
  share_frontier = λ a. none;
}

abbrev pub panetiere_ops : PanetiereOps (Unit {0})
panetiere_ops = record {
  new = λ roster lead t. tt;
  on_inbound = λ p from bytes. p;
  begin_round = λ p r. p;
  end_round = λ p r. (p, []);
  observed_round = λ p. none;
  anonymity_set = λ p. none;
  anon_set_round = λ p. none;
  share_frontier = λ p. none;
  demand = λ p. none;
  latest_clients = λ p. none;
  decoded_bytes_recent = λ p w. 0;
}

-- The evidence that is decoded is one number, the index of the relay that signed a contradiction.
abbrev decode_evidence : List ℕ → Option ServerPublic
decode_evidence (i ∷ key ∷ []) =
    some (record { server_id = i; signing_bytes = []; signature = key ∷ []; consistent = false })
decode_evidence _ = none

abbrev decode_body : List ℕ → Option Body
decode_body (r ∷ []) = some (body_at r noop_subnet)
decode_body _ = none

abbrev pub env : Env (Unit {0}) (Unit {0})
env = record {
  crypto = crypto;
  key = 2;
  sign = λ msg. 2 ∷ [];
  sha256 = length;
  from_canonical_bytes = decode_body;
  encode_proposal = λ p. p.body.round ∷ p.signature;
  encode_sig = λ s. s.signer ∷ s.body_bytes;
  encode_config = λ cfg. cfg.body.round ∷ [];
  decode_server_public = decode_evidence;
  sizes = sizes;
  adcnet_ops = adcnet_ops;
  panetiere_ops = panetiere_ops;
}

abbrev pub params : SchedulerParams
params = record {
  public_round_duration = 1000000000;
  min_relays = 1;
  min_services = 0;
  fault_threshold = 2;
  grow_at = 63;
  message_size = 64;
  integrity_backoff_ms = 360000;
  min_capacity = 8;
  sideline = true;
  renegotiate_on_fault = true;
  vector_bytes = 0;
  pin = none;
  aggregation = false;
  encoding = prony;
  set_formation = leader;
  attested_subnets = [];
  attestation = policy;
}

abbrev pub committee : List ℕ
committee = 1 ∷ 2 ∷ 3 ∷ []

abbrev pub key_wire : ExchangePublicKeyWire
key_wire = record { ecdh = 4 ∷ []; kem = 5 ∷ []; set_sig = 6 ∷ [] }

abbrev pub registered : ℕ → Event
registered pk = registration_seen (relay pk key_wire none none [])

abbrev pub proposal : SignedProposal
proposal = record { body = body_at 1 noop_subnet; proposer = 1; signature = 1 ∷ [] }

-- The evidence of relay 12 contradicting itself, brought by relay 11.
abbrev pub report : FaultReport
report = record {
  round = 0;
  subnet = 0;
  reporter = 11;
  fault = record { kind = integrity; attribution = peers (12 ∷ []); evidence = 1 ∷ 12 ∷ [] };
}

abbrev pub signed_config : Configuration
signed_config = record {
  body = body_at 2 noop_subnet;
  signatures = record { signer = 1; bytes = 1 ∷ [] } ∷ record { signer = 3; bytes = 3 ∷ [] } ∷ [];
}

-- Registrations, a proposal, two signatures, a report against relay 12 and a newer configuration.
abbrev pub events : List Event
events =
    registered 11
    ∷ registered 12
    ∷ registered 13
    ∷ decoded_body proposal
    ∷ committee_sig (record { body_bytes = 1 ∷ []; signer = 1; signature = 1 ∷ [] })
    ∷ committee_sig (record { body_bytes = 1 ∷ []; signer = 3; signature = 3 ∷ [] })
    ∷ fault_reported 11 report 100
    ∷ published_config signed_config
    ∷ []
