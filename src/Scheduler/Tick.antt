-- ===== src/Scheduler/Tick.antt =====
-- scheduler_core.rs: `SchedulerCore::tick`, with runtime.rs `round_at`. The machine's clock, which a
-- new epoch is read from, is the argument `clock`. Logging is left out.
pub mod Sized
use anymone.Base.{
  ℕ, ◌+◌, ◌-◌, ◌*◌, ◌/◌, ◌%◌, ◌^◌, Bool, true, false, ◌&&◌, ◌||◌, not, Option, none, some, List, [],
  ◌∷◌, map, length, leb, ltb, min, max, retain, filter_map, if◌then◌else◌, map_or, unwrap_or,
}
use anymone.Base.Equality.{Eq, nat_eq, list_eq, option_eq, ◌==◌}
use anymone.Base.Sets.{insert}
use anymone.Base.Maps.{get, put, delete}
use anymone.Config.{Body}
use anymone.Config.Multisig.{propose_bytes}
use anymone.Scheduler.Observer.{
  SchedulerProtocol, PublicObserver, end_round_faults, refresh_clock, anonymity_set, anon_set_round,
  demand, latest_clients, share_frontier,
}
use anymone.Scheduler.Sizing.{max_subnet_clients, next_count, observed_clients, next_capacity}
use anymone.Scheduler.State.{Env, SchedulerCore, SchedulerAction, stage_proposal}
use anymone.Scheduler.FaultReports.{fault_report_round_window, sat_add_u64, apply_observed_faults}
use anymone.Scheduler.Build.{subnet_protocols, resize_scheduled_vectors, build_body}

abbrev anon_set_freshness : ℕ
anon_set_freshness = 4

-- runtime.rs `round_at`, for a duration above 0
unfoldable pub round_at : ℕ → ℕ → ℕ → ℕ → ℕ
round_at base_round epoch_unix_ms dur_ms now_ms =
    if leb now_ms epoch_unix_ms
    then base_round
    else base_round + (now_ms - epoch_unix_ms) / max dur_ms 1

-- `iter().max()`
abbrev largest : List ℕ → Option ℕ
largest [] = none
largest (x ∷ xs) = some (map_or x (max x) (largest xs))

abbrev union_ids : List ℕ → List ℕ → List ℕ
union_ids [] ids = ids
union_ids (x ∷ xs) ids = union_ids xs (insert ids x)

module _ {A P : Type 0} (env : Env A P) where
  -- The wall-clock round of a subnet, if its epoch and a positive round length are known.
  abbrev wall_round : SchedulerCore A P → ℕ → ℕ → Option ℕ
  wall_round c now id = elim c.epoch_unix_ms [
    | none ↦ none
    | some epoch ↦ elim (get c.subnet_round_ms id) [
      | none ↦ none
      | some d ↦ if ltb 0 d then some (round_at 0 epoch d now) else none
    ]
  ]

  unfoldable pub refresh_observers : SchedulerCore A P → ℕ → SchedulerCore A P
  unfolding round_at
  refresh_observers c now = record c {
    observers =
        map (λ e. (e.0, refresh_clock env.adcnet_ops env.panetiere_ops e.1 (wall_round c now e.0)))
          c.observers;
  }

  frontier_at : SchedulerCore A P → ℕ → Option ℕ
  frontier_at c subnet = elim (get c.observers subnet) [
    | none ↦ none
    | some o ↦ share_frontier env.adcnet_ops env.panetiere_ops o
  ]

  -- Entries far behind their subnet's frontier are dropped.
  unfoldable pub prune_seen : SchedulerCore A P → SchedulerCore A P
  unfolding frontier_at
  prune_seen c = record c {
    seen_integrity_faults =
        retain
          (λ e.
            map_or true (λ f. leb f (sat_add_u64 e.1.0 (2 * fault_report_round_window)))
              (frontier_at c e.0))
          c.seen_integrity_faults;
  }

  -- One turn of the loop over the observers: a subnet in grace counts down, another has its faults
  -- applied. A grace is positive, so the subtraction does not stop at 0.
  unfoldable pub end_subnet_round : SchedulerCore A P → ℕ → ℕ → ℕ → SchedulerCore A P
  end_subnet_round c round now id = elim (get c.observers id) [
    | none ↦ c
    | some o ↦
        let ended = end_round_faults env.adcnet_ops env.panetiere_ops o round in
        let d : SchedulerCore A P = record c { observers = put c.observers id ended.0 } in
        elim (get d.observer_grace id) [
          | none ↦ apply_observed_faults d ended.1 now
          | some g ↦
              if leb (g - 1) 0
              then record d { observer_grace = delete d.observer_grace id }
              else record d { observer_grace = put d.observer_grace id (g - 1) }
        ]
  ]

  unfoldable pub end_rounds : List ℕ → SchedulerCore A P → ℕ → ℕ → SchedulerCore A P
  unfolding end_subnet_round
  end_rounds [] c round now = c
  end_rounds (id ∷ ids) c round now = end_rounds ids (end_subnet_round c round now id) round now

  unfoldable pub release_offenders : SchedulerCore A P → ℕ → SchedulerCore A P
  release_offenders c now = record c {
    integrity_offenders =
        retain (λ e. ltb (now - e.1) c.params.integrity_backoff_ms) c.integrity_offenders;
  }

  -- The observers whose last set is fresh enough to count.
  unfoldable pub fresh_observers : SchedulerCore A P → List (PublicObserver A P)
  fresh_observers c =
      let all : List (PublicObserver A P) = map (λ e. e.1) c.observers in
      let freshest = largest (filter_map (anon_set_round env.adcnet_ops env.panetiere_ops) all) in
      retain
        (λ o. elim (anon_set_round env.adcnet_ops env.panetiere_ops o) [
          | none ↦ false
          | some r ↦ map_or false (λ f. leb f (r + anon_set_freshness)) freshest
        ])
        all

  -- The union of the announced identities and the sum of the bare sizes.
  unfoldable pub count_clients : List (PublicObserver A P) → List ℕ → ℕ → ℕ
  count_clients [] ids sized = length ids + sized
  count_clients (o ∷ rest) ids sized = elim (latest_clients env.adcnet_ops env.panetiere_ops o) [
    | some c ↦ count_clients rest (union_ids c ids) sized
    | none ↦
        count_clients rest ids
          (sized + unwrap_or 0 (anonymity_set env.adcnet_ops env.panetiere_ops o))
  ]

  -- The load over all subnets, and the clients of the busiest subnet.
  unfoldable pub measure : SchedulerCore A P → ℕ × ℕ
  unfolding fresh_observers count_clients
  measure c =
      let fresh = fresh_observers c in
      let total = count_clients fresh [] 0 in
      let busiest =
        unwrap_or 0 (largest (filter_map (anonymity_set env.adcnet_ops env.panetiere_ops) fresh)) in
      let wanted =
        min (unwrap_or 0 (largest (filter_map (demand env.adcnet_ops env.panetiere_ops) fresh)))
          max_subnet_clients in
      (max (total % 2 ^ 32) wanted, busiest % 2 ^ 32)

  -- The subnet count, the capacity and the vectors' table after a measurement.
  unfoldable pub resize : SchedulerCore A P → ℕ → ℕ → SchedulerCore A P
  resize c load busiest =
      let count = next_count c.params.grow_at load (c.subnet_count, c.shrink_streak) in
      let observed = observed_clients busiest load count.0 in
      let capacity = next_capacity c.params.min_capacity observed (c.capacity, c.capacity_streak) in
      record c {
        subnet_count = count.0;
        shrink_streak = count.1;
        capacity = capacity.0;
        capacity_streak = capacity.1;
        scheduled_vectors = retain (λ e. ltb e.0 count.0) c.scheduled_vectors;
      }

  abbrev enough_relays : SchedulerCore A P → Bool
  enough_relays c =
      leb c.params.min_relays (length c.registered)
      || (not (leb (length c.sidelined) 0) && not (leb (length c.registered) 0))

  -- A new version for new content.
  abbrev versioned : SchedulerCore A P → List ℕ → SchedulerCore A P
  versioned c content =
      if c.last_content == some content
      then c
      else record c { public_round = (c.public_round + 1) % 2 ^ 64; last_content = some content }

  -- The lead's half: the proposal is staged until its version is published.
  unfoldable pub propose : SchedulerCore A P → ℕ → SchedulerCore A P × List SchedulerAction
  propose c clock =
      let protos = subnet_protocols c in
      let ready : SchedulerCore A P = record c {
        scheduled_vectors = resize_scheduled_vectors env c 0 protos c.scheduled_vectors;
        epoch_unix_ms = some (unwrap_or clock c.epoch_unix_ms);
      } in
      let body : Body = record (build_body env ready clock protos) { round = 0 } in
      let d : SchedulerCore A P = versioned ready (env.crypto.canonical_bytes body) in
      if d.published_round == some d.public_round
      then (d, [])
      else let final : Body = record body { round = d.public_round } in
        (
          d,
          stage_proposal (
                env.encode_proposal (record {
                  body = final;
                  proposer = env.key;
                  signature = env.sign (propose_bytes env.crypto final);
                }))
              ∷ [],
        )

  unfoldable pub tick : SchedulerCore A P → ℕ → ℕ → ℕ → SchedulerCore A P × List SchedulerAction
  unfolding refresh_observers prune_seen end_rounds release_offenders measure resize propose
  tick c round now clock =
      let seen = prune_seen (refresh_observers (record c { cur_round = round }) now) in
      let ended = end_rounds (map (λ e. e.0) seen.observers) seen round now in
      let released = release_offenders ended now in
      let load = measure released in
      let d = resize released load.0 load.1 in
      if d.is_lead && enough_relays d && leb d.params.min_services (length d.services)
      then propose d clock
      else (d, [])
