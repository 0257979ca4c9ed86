-- ===== src/Scheduler/Proposals.antt =====
-- scheduler_core.rs: how a committee member takes a published configuration, a decoded proposal and
-- a peer's signature. Logging is left out.
pub mod Agreement
pub mod Backing
pub mod Events
pub mod Publications
pub mod Once
pub mod History
pub mod Roster
use anymone.Base.{
  ℕ, ◌+◌, ◌/◌, ◌%◌, ◌^◌, Bool, true, false, ◌&&◌, ◌||◌, not, Option, none, some, List, [], ◌∷◌, map,
  length, leb, ltb, eqb, min, max, all_of, any_of, retain, if◌then◌else◌, map_or, unwrap_or, at_or,
}
use anymone.Base.Equality.{Eq, nat_eq, bool_eq, pair_eq, list_eq, option_eq, ◌==◌}
use anymone.Base.Sets.{contains, insert}
use anymone.Base.Maps.{get, put, delete, contains_key}
use anymone.Base.Sort.{sort}
use anymone.Base.Results.{ok, err}
use anymone.Faults.{u64_max}
use anymone.Config.{
  ExchangePublicKeyWire, Aggregation, ProtocolConfig, noop, panetiere, scheduled_panetiere, adcnet,
  scheduled_adcnet, Subnet, Body, Signature, Configuration, round_duration,
}
use anymone.Config.Attestation.{policy_beq}
use anymone.Config.Multisig.{propose_bytes, approve_bytes, verify_multisig}
use anymone.Scheduler.Observer.{SchedulerProtocol, protocol_eq, PublicObserver, build_observer}
use anymone.Scheduler.State.{
  Env, SchedulerCore, SignedProposal, CommitteeSig, Topic, config, committee_sigs, SchedulerAction,
  publish,
}
use anymone.Scheduler.Structure.{validate_structure, aggregation_structural_ok}
use anymone.Scheduler.Validation.{validate_body}

abbrev pub max_round_advance : ℕ
max_round_advance = 8

abbrev observer_fault_grace : ℕ
observer_fault_grace = 3

-- `Some(last.map_or(r, |l| l.max(r)))`
abbrev pub raise : Option ℕ → ℕ → Option ℕ
raise none r = some r
raise (some l) r = some (max l r)

-- runtime.rs `leader_of`, on a roster that is not empty
unfoldable pub leader_of : List ℕ → ℕ → ℕ
leader_of sorted_roster subnet_id = at_or 0 sorted_roster (subnet_id % max (length sorted_roster) 1)

unfoldable pub proto_kind : ProtocolConfig → Option SchedulerProtocol
proto_kind (adcnet c) = some SchedulerProtocol.adcnet
proto_kind (panetiere c) = some SchedulerProtocol.panetiere
proto_kind (scheduled_panetiere c) = some SchedulerProtocol.scheduled_panetiere
proto_kind (noop c) = some SchedulerProtocol.noop
proto_kind (scheduled_adcnet c) = some SchedulerProtocol.scheduled_adcnet

-- The rosters and protocols of a body's subnets.
unfoldable pub subnets_sig : Body → List (ℕ × (List ℕ × Option SchedulerProtocol))
unfolding proto_kind
subnets_sig body = map (λ s. (s.id, (sort s.relays, proto_kind s.protocol))) body.subnets

-- `iter().collect()` into a map: a later entry replaces an earlier one.
abbrev collect_map : {V : Type 0} → List (ℕ × V) → List (ℕ × V) → List (ℕ × V)
collect_map [] m = m
collect_map ((k, v) ∷ rest) m = collect_map rest (put m k v)

module _ {A P : Type 0} (env : Env A P) where
  -- The loop of `learn_config` over the new signature: the observers taken from the old map, the
  -- new map and the grace periods are passed on.
  unfoldable pub rebuild_observers :
      List (ℕ × (List ℕ × Option SchedulerProtocol))
      → List (ℕ × (List ℕ × Option SchedulerProtocol))
      → ℕ
      → List (ℕ × PublicObserver A P)
      → List (ℕ × PublicObserver A P)
      → List (ℕ × ℕ)
      → List (ℕ × PublicObserver A P) × List (ℕ × ℕ)
  unfolding leader_of
  rebuild_observers [] prev threshold old fresh grace = (fresh, grace)
  rebuild_observers ((id, (roster, proto)) ∷ rest) prev threshold old fresh grace =
      let kept : Option (PublicObserver A P) =
        if get prev id == some (roster, proto) then get old id else none in
      elim kept [
        | some o ↦ rebuild_observers rest prev threshold (delete old id) (put fresh id o) grace
        | none ↦
            elim (build_observer env.adcnet_ops env.panetiere_ops proto roster (leader_of roster id)
              threshold) [
                | some o ↦
                    rebuild_observers rest prev threshold old (put fresh id o)
                      (put grace id observer_fault_grace)
                | none ↦ rebuild_observers rest prev threshold old fresh grace
              ]
      ]

  unfoldable pub learn_config : SchedulerCore A P → Body → SchedulerCore A P
  unfolding subnets_sig rebuild_observers
  learn_config c body =
      let clocked : SchedulerCore A P = record c {
        epoch_unix_ms = some body.epoch_unix_ms;
        subnet_round_ms =
            collect_map
              (map (λ s. (s.id, round_duration s.protocol / 1000000 % 2 ^ 64)) body.subnets) [];
      } in
      let sig = subnets_sig body in
      if sig == c.current_subnets_sig
      then clocked
      else let rebuilt =
          rebuild_observers sig (collect_map c.current_subnets_sig []) c.params.fault_threshold
            c.observers [] c.observer_grace in
        record clocked {
          observers = rebuilt.0;
          observer_grace =
              retain (λ g. any_of (λ (e : ℕ × (List ℕ × Option SchedulerProtocol)). e.0 == g.0) sig)
                rebuilt.1;
          current_subnets_sig = sig;
        }

  -- The signatures collected for a body, as the signatures of a configuration.
  abbrev pub assembled : Body → List (ℕ × List ℕ) → Configuration
  assembled body entry = record {
    body = body;
    signatures = map (λ e. record { signer = e.0; bytes = e.1 }) entry;
  }

  unfoldable pub try_assemble :
      SchedulerCore A P → Body → SchedulerCore A P × Option SchedulerAction
  try_assemble c body =
      let canonical = env.crypto.canonical_bytes body in
      if contains c.published canonical then (c, none) else elim (get c.sigs canonical) [
        | none ↦ (c, none)
        | some entry ↦
            if ltb (length entry % 2 ^ 32) c.threshold
            then (c, none)
            else elim (verify_multisig env.crypto (assembled body entry) c.committee c.threshold) [
              | err e ↦ (c, none)
              | ok _ ↦ (
                record c {
                  published = insert c.published canonical;
                  published_round = raise c.published_round body.round;
                },
                some (publish config (env.encode_config (assembled body entry))),
              )
            ]
      ]

  unfoldable pub on_published_config : SchedulerCore A P → Configuration → SchedulerCore A P × Bool
  unfolding learn_config
  on_published_config c cfg = elim (verify_multisig env.crypto cfg c.committee c.threshold) [
    | err e ↦ (c, false)
    | ok _ ↦ if not (validate_structure env.sizes cfg.body) then (c, false) else (
      learn_config
          (record c {
            last_accepted_round = raise c.last_accepted_round cfg.body.round;
            public_round = max c.public_round cfg.body.round;
            published_round = raise c.published_round cfg.body.round;
            published = insert c.published (env.crypto.canonical_bytes cfg.body);
          })
          cfg.body,
      true,
    )
  ]

  -- The newest round that the member has accepted, adopted or published.
  abbrev pub established : SchedulerCore A P → ℕ
  established c =
      max (max (unwrap_or 0 c.last_accepted_round) c.public_round) (unwrap_or 0 c.published_round)

  -- A signature filed under the canonical bytes of its body.
  abbrev pub add_sig : SchedulerCore A P → List ℕ → ℕ → List ℕ → SchedulerCore A P
  add_sig c canonical signer signature = record c {
    sigs = put c.sigs canonical (put (unwrap_or [] (get c.sigs canonical)) signer signature);
  }

  abbrev pub to_list : {X : Type 0} → Option X → List X
  to_list none = []
  to_list (some x) = x ∷ []

  -- `on_decoded_body` past its tests.
  unfoldable pub accept_body : SchedulerCore A P → Body → SchedulerCore A P × List SchedulerAction
  unfolding try_assemble learn_config
  accept_body c body =
      let canonical = env.crypto.canonical_bytes body in
      let sig = env.sign (approve_bytes env.crypto body) in
      let filed : SchedulerCore A P =
        add_sig (record c { last_accepted_round = raise c.last_accepted_round body.round })
          canonical env.key sig in
      let result = try_assemble (learn_config filed body) body in
      (
        result.0,
        publish committee_sigs (
              env.encode_sig (record { body_bytes = canonical; signer = env.key; signature = sig }))
            ∷ to_list result.1,
      )

  unfoldable pub on_decoded_body :
      SchedulerCore A P → SignedProposal → SchedulerCore A P × List SchedulerAction
  unfolding validate_body accept_body
  on_decoded_body c proposal =
      if not (proposal.proposer == c.lead)
      then (c, [])
      else if not (
          env.crypto.verify proposal.proposer (propose_bytes env.crypto proposal.body)
            proposal.signature)
      then (c, [])
      else if map_or false (λ last. ltb proposal.body.round last) c.last_accepted_round
      then (c, [])
      else if ltb (min (established c + max_round_advance) u64_max) proposal.body.round
      then (c, [])
      else if not (validate_body env c proposal.body)
      then (c, [])
      else accept_body c proposal.body

  unfoldable pub on_committee_sig :
      SchedulerCore A P → CommitteeSig → SchedulerCore A P × List SchedulerAction
  unfolding try_assemble
  on_committee_sig c sig_msg =
      if not (contains c.committee sig_msg.signer)
      then (c, [])
      else elim (env.from_canonical_bytes sig_msg.body_bytes) [
        | none ↦ (c, [])
        | some body ↦
            if not
              (env.crypto.verify sig_msg.signer (approve_bytes env.crypto body) sig_msg.signature)
            then (c, [])
            else let result =
                try_assemble (add_sig c sig_msg.body_bytes sig_msg.signer sig_msg.signature) body in
              (result.0, to_list result.1)
      ]
