-- ===== src/Scheduler/Tick/Sized.antt =====
-- The sizes of the network over any number of ticks.
use anymone.Base.{
  ℕ, ◌≡◌, refl, sym, ◌∙◌, subst, Bool, inl, inr, List, [], ◌∷◌, map, if◌then◌else◌, arith,
  Option-cases, ◌≤◌,
}
use anymone.Base.Equality.{nat_eq}
use anymone.Base.Maps.{get, put}
use anymone.Faults.{Fault, nobody, peers}
use anymone.Scheduler.Observer.{end_round_faults}
use anymone.Scheduler.State.{Env, SchedulerCore, SchedulerParams, new}
use anymone.Scheduler.FaultReports.{
  sideline_peer, sideline_peers, apply_fault, apply_faults, apply_observed_faults, is_integrity,
}
use anymone.Scheduler.Sizing.{next_count, observed_clients}
use anymone.Scheduler.Sizing.Count.{IsCount, next_count-IsCount}
use anymone.Scheduler.Sizing.Capacity.{IsCapacity, next_capacity-IsCapacity}
use anymone.Scheduler.Tick.{
  refresh_observers, prune_seen, end_subnet_round, end_rounds, release_offenders, measure, resize,
  propose, tick,
}

-- The sizes and the streaks with which a tick changes them.
pub record IsSized {A P : Type 0} (c : SchedulerCore A P) : Type 0 where
  pub count : IsCount (c.subnet_count, c.shrink_streak)
  pub capacity : IsCapacity c.params.min_capacity (c.capacity, c.capacity_streak)

-- What the invariant reads.
abbrev sizes_of : {A P : Type 0} → SchedulerCore A P → ℕ × ℕ × ℕ × ℕ × SchedulerParams
sizes_of c = (c.subnet_count, c.shrink_streak, c.capacity, c.capacity_streak, c.params)

module _ {A P : Type 0} (env : Env A P) where
  same-IsSized : (c d : SchedulerCore A P) → sizes_of d ≡ sizes_of c → IsSized c → IsSized d
  same-IsSized c d h v = record {
    count = subst IsCount (sym (λ i. ((h i).0, (h i).1))) v.count;
    capacity =
        subst (λ (s : SchedulerParams × (ℕ × ℕ)). IsCapacity s.0.min_capacity s.1)
          (sym (λ i. ((h i).4, ((h i).2, (h i).3)))) v.capacity;
  }

  sizes_of-sideline_peers :
      (pks : List ℕ) (c : SchedulerCore A P) (offence : Bool) (now : ℕ)
      → sizes_of (sideline_peers c offence now pks) ≡ sizes_of c
  unfolding sideline_peers sideline_peer
  sizes_of-sideline_peers [] c offence now = refl
  sizes_of-sideline_peers (pk ∷ pks) c offence now =
      let d : SchedulerCore A P = if c.params.sideline then sideline_peer c offence now pk else c in
      sizes_of-sideline_peers pks d offence now ∙ ground arith

  sizes_of-apply_fault :
      (c : SchedulerCore A P) (now : ℕ) (fault : Fault)
      → sizes_of (apply_fault c now fault) ≡ sizes_of c
  unfolding apply_fault
  sizes_of-apply_fault c now fault =
      elim fault.attribution
        as (λ b.
          sizes_of
            (elim b [ nobody ↦ c | peers pks ↦ sideline_peers c (is_integrity fault.kind) now pks ])
          ≡ sizes_of c) [
            | nobody ↦ refl
            | peers pks ↦ sizes_of-sideline_peers pks c (is_integrity fault.kind) now
          ]

  sizes_of-apply_faults :
      (faults : List Fault) (c : SchedulerCore A P) (now : ℕ)
      → sizes_of (apply_faults c now faults) ≡ sizes_of c
  unfolding apply_faults
  sizes_of-apply_faults [] c now = refl
  sizes_of-apply_faults (f ∷ fs) c now =
      sizes_of-apply_faults fs (apply_fault c now f) now ∙ sizes_of-apply_fault c now f

  sizes_of-apply_observed_faults :
      (c : SchedulerCore A P) (faults : List Fault) (now : ℕ)
      → sizes_of (apply_observed_faults c faults now) ≡ sizes_of c
  unfolding apply_observed_faults
  sizes_of-apply_observed_faults c faults now = ground (arith, sizes_of-apply_faults faults c now)

  sizes_of-end_subnet_round :
      (c : SchedulerCore A P) (round now id : ℕ)
      → sizes_of (end_subnet_round env c round now id) ≡ sizes_of c
  unfolding end_subnet_round
  sizes_of-end_subnet_round c round now id = elim (Option-cases (get c.observers id)) [
    | inl h ↦ ground (arith, h)
    | inr (o, h) ↦
        let ended = end_round_faults env.adcnet_ops env.panetiere_ops o round in
        let d : SchedulerCore A P = record c { observers = put c.observers id ended.0 } in
        ground (arith, h, sizes_of-apply_observed_faults d ended.1 now)
  ]

  sizes_of-end_rounds :
      (ids : List ℕ) (c : SchedulerCore A P) (round now : ℕ)
      → sizes_of (end_rounds env ids c round now) ≡ sizes_of c
  unfolding end_rounds
  sizes_of-end_rounds [] c round now = refl
  sizes_of-end_rounds (id ∷ ids) c round now =
      sizes_of-end_rounds ids (end_subnet_round env c round now id) round now
      ∙ sizes_of-end_subnet_round c round now id

  sizes_of-propose :
      (c : SchedulerCore A P) (clock : ℕ) → sizes_of (propose env c clock).0 ≡ sizes_of c
  unfolding propose
  sizes_of-propose c clock = ground arith

  resize-IsSized :
      (c : SchedulerCore A P) (load busiest : ℕ) → IsSized c → IsSized (resize env c load busiest)
  unfolding resize
  resize-IsSized c load busiest v = record {
    count = next_count-IsCount c.params.grow_at load (c.subnet_count, c.shrink_streak) v.count;
    capacity =
        next_capacity-IsCapacity c.params.min_capacity
          (observed_clients busiest load
            (next_count c.params.grow_at load (c.subnet_count, c.shrink_streak)).0)
          (c.capacity, c.capacity_streak) v.capacity;
  }

  -- The state that a tick has measured and resized.
  abbrev resized_state : SchedulerCore A P → ℕ → ℕ → SchedulerCore A P
  resized_state c round now =
      let seen = prune_seen env (refresh_observers env (record c { cur_round = round }) now) in
      let released =
        release_offenders env (end_rounds env (map (λ e. e.0) seen.observers) seen round now) now in
      resize env released (measure env released).0 (measure env released).1

  resized_state-IsSized :
      (c : SchedulerCore A P) (round now : ℕ) → IsSized c → IsSized (resized_state c round now)
  unfolding release_offenders prune_seen refresh_observers
  resized_state-IsSized c round now v =
      let seen = prune_seen env (refresh_observers env (record c { cur_round = round }) now) in
      let ended = end_rounds env (map (λ e. e.0) seen.observers) seen round now in
      resize-IsSized (release_offenders env ended now) _ _ (
        same-IsSized c (release_offenders env ended now)
          (sizes_of-end_rounds (map (λ e. e.0) seen.observers) seen round now) v)

  tick-IsSized :
      (c : SchedulerCore A P) (round now clock : ℕ)
      → IsSized c
      → IsSized (tick env c round now clock).0
  unfolding tick
  tick-IsSized c round now clock v =
      let d = resized_state c round now in
      same-IsSized d _ (ground (arith, sizes_of-propose d clock))
        (resized_state-IsSized c round now v)

  -- Ticks with their round, the network's time and the machine's clock.
  unfoldable pub tick_all : List (ℕ × ℕ × ℕ) → SchedulerCore A P → SchedulerCore A P
  tick_all [] c = c
  tick_all (t ∷ ts) c = tick_all ts (tick env c t.0 t.1 t.2).0

  -- If there are between 1 and 16 subnets, the capacity lies between its floor and 300 clients and
  -- both streaks are below their grace, then this holds after any number of ticks, whatever the
  -- observers in the state report.
  pub tick_all-IsSized :
      (ts : List (ℕ × ℕ × ℕ)) (c : SchedulerCore A P) → IsSized c → IsSized (tick_all ts c)
  unfolding tick_all
  tick_all-IsSized [] c v = v
  tick_all-IsSized (t ∷ ts) c v =
      tick_all-IsSized ts (tick env c t.0 t.1 t.2).0 (tick-IsSized c t.0 t.1 t.2 v)

  -- A new member is in these sizes, if its configured floor is at most 300.
  pub new-IsSized :
      (committee : List ℕ) (threshold : ℕ) (params : SchedulerParams)
      → params.min_capacity ≤ 300
      → IsSized (new env committee threshold params)
  unfolding new
  new-IsSized committee threshold params small = record {
    count = record {
      some_subnet = omega arith;
      few_subnets = omega arith;
      below_grace = omega arith;
    };
    capacity = record {
      large_enough = omega arith;
      small_enough = omega arith;
      below_grace = omega arith;
    };
  }
