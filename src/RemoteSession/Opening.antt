-- ===== src/RemoteSession/Opening.antt =====
-- crates/anymone-core/src/remote_session.rs: a session is opened and given another configuration, with the
-- rosters of keys.rs. The readers of the exchange keys and the identity's own keys are parameters, and
-- so are the random seed and session id.
use anymone.Base.{
  ℕ, ◌+◌, Bool, true, false, ◌&&◌, Option, none, some, List, [], ◌∷◌, map, length, all_of,
  unwrap_or, if◌then◌else◌,
}
use anymone.Base.Equality.{nat_eq, list_eq, option_eq, pair_eq, ◌==◌}
use anymone.Base.Sort.{sort}
use anymone.Base.Maps.{get}
use anymone.Base.Results.{Result, ok, err, ◌>>=◌, ◌>>◌}
use anymone.Config.Equality.{wire_key_eq, protocol_config_eq}
use anymone.Config.{ExchangePublicKeyWire, SetFormation, leader, consensus, ProtocolConfig, Subnet}
use anymone.Scheduler.WireSize.{WireSizes}
use anymone.Scheduler.Proposals.{leader_of}
use anymone.RemoteSession.{
  Clients, Client, RemoteProtocol, RemoteSessionError, closed, incomplete_roster,
  unsupported_protocol, Outcome, RemoteAttestedSession,
}
use anymone.RemoteSession.Validity.{validate_config, require_roster, payload_bound}

-- `to_key`, `to_seal_key` and `to_set_key` of a published key, and the public keys of an identity.
pub record KeyOps : Type 0 where
  pub to_key : ExchangePublicKeyWire → Option (List ℕ)
  pub to_seal_key : ExchangePublicKeyWire → Option (List ℕ)
  pub to_set_key : ExchangePublicKeyWire → Option (List ℕ)
  pub pubkey : ℕ → ℕ
  pub exchange_keys : ℕ → ExchangePublicKeyWire

-- A map collected from pairs: the last one with the key.
unfoldable pub last_of : {V : Type 0} → List (ℕ × V) → ℕ → Option V
last_of [] k = none
last_of ((j, v) ∷ m) k =
    let rest = last_of m k in
    elim (rest) [ some w ↦ some w | none ↦ if j == k then some v else none ]

-- keys.rs `roster_keys`, from an index on
unfoldable pub indexed_keys :
    (ExchangePublicKeyWire → Option (List ℕ))
    → List (ℕ × ExchangePublicKeyWire)
    → ℕ
    → List ℕ
    → List (ℕ × List ℕ)
unfolding last_of
indexed_keys decode keys i [] = []
indexed_keys decode keys i (pk ∷ pks) =
    let rest = indexed_keys decode keys (i + 1) pks in
    elim (last_of keys pk) [
      | none ↦ rest
      | some wire ↦ elim (decode wire) [ none ↦ rest | some key ↦ (i, key) ∷ rest ]
    ]

unfoldable pub roster_keys :
    (ExchangePublicKeyWire → Option (List ℕ))
    → List ℕ
    → List (ℕ × ExchangePublicKeyWire)
    → List (ℕ × List ℕ)
unfolding indexed_keys
roster_keys decode relays keys = indexed_keys decode keys 0 (sort relays)

-- panetiere.rs `set_roster`
unfoldable pub set_roster :
    KeyOps → List (ℕ × ExchangePublicKeyWire) → Subnet → Option (List (List ℕ))
set_roster k keys subnet =
    let found = roster_keys k.to_set_key subnet.relays keys in
    if length found == length subnet.relays then some (map (λ e. e.1) found) else none

unfoldable pub consensus_roster :
    KeyOps
    → SetFormation
    → List (ℕ × ExchangePublicKeyWire)
    → Subnet
    → Result (Option (List (List ℕ))) RemoteSessionError
unfolding set_roster
consensus_roster k leader keys subnet = ok none
consensus_roster k consensus keys subnet = elim (set_roster k keys subnet) [
  | none ↦ err incomplete_roster
  | some found ↦ ok (some found)
]

-- runtime.rs `subnet_leader_pk`
unfoldable pub subnet_leader_pk : Subnet → ℕ
subnet_leader_pk subnet = leader_of (sort subnet.relays) subnet.id

-- `if let Some(pks) = set_pks { client.set_consensus(pks) }`
abbrev pub with_consensus : {C : Type 0} → (C → List (List ℕ) → C) → C → Option (List (List ℕ)) → C
with_consensus set client none = client
with_consensus set client (some pks) = set client pks

abbrev pub protocol_of : ProtocolConfig → RemoteProtocol
protocol_of (ProtocolConfig.scheduled_panetiere c) = RemoteProtocol.scheduled_panetiere
protocol_of (ProtocolConfig.adcnet c) = RemoteProtocol.adcnet
protocol_of (ProtocolConfig.scheduled_adcnet c) = RemoteProtocol.scheduled_adcnet
protocol_of _ = RemoteProtocol.panetiere

-- `map_err(|e| RemoteSessionError::Protocol(e.to_string()))`
abbrev pub protocol_error : {C : Type 0} → Outcome C → Result C RemoteSessionError
protocol_error (ok x) = ok x
protocol_error (err text) = err (RemoteSessionError.protocol text)

module _ {P S A B : Type 0} (c : Clients P S A B) (k : KeyOps) (w : WireSizes) where
  abbrev Keys : Type 0
  Keys = List (ℕ × ExchangePublicKeyWire)

  -- The `match` of `with_identity`.
  unfoldable pub open_client :
      Subnet
      → Keys
      → (starting_round identity seed : ℕ) → ProtocolConfig
      → Result (Client P S A B) RemoteSessionError
  open_client subnet keys starting_round identity seed (ProtocolConfig.panetiere cfg) = do
    let servers = roster_keys k.to_seal_key subnet.relays keys
    require_roster (length servers) subnet
    set_pks ← consensus_roster k cfg.set_formation keys subnet
    let client =
        c.one_round.set_setup_seed
          (c.one_round.new cfg (length subnet.relays) identity servers seed) cfg.setup_seed
    ok (Client.panetiere (with_consensus c.one_round.set_consensus client set_pks))
  open_client subnet keys starting_round identity seed (ProtocolConfig.scheduled_panetiere cfg) = do
    let servers = roster_keys k.to_seal_key subnet.relays keys
    require_roster (length servers) subnet
    set_pks ← consensus_roster k cfg.set_formation keys subnet
    let client =
        c.scheduled.set_setup_seed
          (c.scheduled.new cfg (length subnet.relays) identity servers (subnet_leader_pk subnet)
            seed)
          cfg.setup_seed
    let client = (c.scheduled.advance_round client starting_round).0
    ok (Client.scheduled_panetiere (with_consensus c.scheduled.set_consensus client set_pks))
  open_client subnet keys starting_round identity seed (ProtocolConfig.adcnet cfg) = do
    let servers = roster_keys k.to_key subnet.relays keys
    require_roster (length servers) subnet
    ok (Client.adcnet (c.share.new cfg identity servers seed))
  open_client subnet keys starting_round identity seed (ProtocolConfig.scheduled_adcnet cfg) = do
    let servers = roster_keys k.to_key subnet.relays keys
    require_roster (length servers) subnet
    client ←
        protocol_error
          (c.auction.new cfg identity servers (starting_round + 1) (subnet_leader_pk subnet))
    ok (Client.scheduled_adcnet (c.auction.set_min_message_size client cfg.min_message_size))
  open_client subnet keys starting_round identity seed (ProtocolConfig.noop cfg) =
      err unsupported_protocol

  unfoldable pub with_identity :
      Subnet
      → Keys
      → (starting_round identity seed session_id : ℕ)
      → Result (RemoteAttestedSession P S A B) RemoteSessionError
  with_identity subnet keys starting_round identity seed session_id = do
    validate_config w subnet starting_round
    client ← open_client subnet keys starting_round identity seed subnet.protocol
    ok (record {
      client = some client;
      identity = some identity;
      status = record {
        subnet = subnet;
        relay_exchange_keys = keys;
        session_id = session_id;
        protocol = protocol_of subnet.protocol;
        participant = k.pubkey identity;
        exchange_keys = k.exchange_keys identity;
        current_round = starting_round;
        next_request = 0;
        closed = false;
        developer_mode = true;
        pending_messages = 0;
      };
      last_reply = none;
      finalized = none;
      repair = none;
      max_payload = payload_bound subnet.protocol;
    })

  abbrev Session : Type 0
  Session = RemoteAttestedSession P S A B

  -- The configuration has the subnet, the protocol, the relays and the relays' keys of the session.
  unfoldable pub is_current : Session → Subnet → Keys → Bool
  is_current s subnet keys =
      let current = s.status in
      subnet.id == current.subnet.id
      && subnet.protocol == current.subnet.protocol
      && subnet.relays == current.subnet.relays
      && all_of (λ pk. get keys pk == get current.relay_exchange_keys pk) subnet.relays

  -- What is taken out of the client that is given up.
  unfoldable pub take_pending : Option (Client P S A B) → List (List ℕ)
  take_pending (some (Client.scheduled_panetiere x)) = c.scheduled.take_pending_messages x
  take_pending (some (Client.scheduled_adcnet b)) = c.auction.take_pending_messages b
  take_pending other = []

  -- `*self = replacement`, with the session id of the session that is replaced.
  abbrev pub replaced :
      Session
      → Result Session RemoteSessionError
      → Session × Result (List (List ℕ)) RemoteSessionError
  unfolding take_pending
  replaced s (err e) = (s, err e)
  replaced s (ok t) = (
    record t { status = record t.status { session_id = s.status.session_id } },
    ok (take_pending s.client),
  )

  -- The source unwraps the identity, which a session has until it is closed.
  unfoldable pub reconfigure :
      Session
      → Subnet
      → Keys
      → (starting_round seed session_id : ℕ) → Session × Result (List (List ℕ)) RemoteSessionError
  unfolding is_current
  reconfigure s subnet keys starting_round seed session_id =
      if s.status.closed then (s, err closed) else elim (validate_config w subnet starting_round) [
        | err e ↦ (s, err e)
        | ok u ↦
            if is_current s subnet keys
            then (record s { status = record s.status { subnet = subnet } }, ok [])
            else replaced s
                (with_identity subnet keys starting_round (unwrap_or 0 s.identity) seed session_id)
      ]
