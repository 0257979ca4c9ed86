-- ===== src/Examples/Lead.antt =====
-- The lead's half of the scheduler: its ticks and its body, with two relays registered.
use anymone.Base.{ℕ, ◌≡◌, refl, none, range_from, List, [], ◌∷◌, All, arith}
use anymone.Scheduler.Observer.{
  SchedulerProtocol, noop_observer, end_round_faults, refresh_clock, anon_set_round, latest_clients,
  anonymity_set, demand,
}
use anymone.Scheduler.FaultReports.{apply_observed_faults}
use anymone.Scheduler.Sizing.{next_count}
use anymone.Base.Sort.{sort}
use anymone.Scheduler.State.{SchedulerCore, new}
use anymone.Scheduler.FaultReports.Sidelining.{IsRoster}
use anymone.Scheduler.Build.{build_body}
use anymone.Scheduler.Build.Placement.{IsPlaced, build_body-IsPlaced}
use anymone.Scheduler.Tick.Sized.{IsSized, tick_all, new-IsSized, tick_all-IsSized}
use anymone.Scheduler.Tick.{tick}
use anymone.Examples.Data.{env, params, committee, key_wire}

abbrev lead : SchedulerCore (Unit {0}) (Unit {0})
lead = record (new env committee 2 params) {
  registered = 11 ∷ 12 ∷ [];
  relay_xpubs = (11, key_wire) ∷ (12, key_wire) ∷ [];
}

lead-IsRoster : IsRoster lead
unfolding new
lead-IsRoster = record {
  not_sidelined = λ pk h. refl;
  not_offending = λ pk h. refl;
  keyed = λ pk h. ground (arith, h);
  once = (refl, (refl, tt));
}

build_body-IsPlaced_example :
    All
      (IsPlaced env lead)
      (build_body env lead 7 (SchedulerProtocol.panetiere ∷ SchedulerProtocol.noop ∷ [])).subnets
build_body-IsPlaced_example =
    build_body-IsPlaced env lead 7 (SchedulerProtocol.panetiere ∷ SchedulerProtocol.noop ∷ [])
      lead-IsRoster

abbrev moments : List (ℕ × ℕ × ℕ)
moments = (1, 1000, 1000) ∷ (2, 2000, 2000) ∷ []

-- A subnet whose observer has seen 150 clients: the two ticks grow to three subnets.
abbrev loaded : SchedulerCore (Unit {0}) (Unit {0})
loaded = record (new env committee 2 params) {
  observers = (0, noop_observer (record { current = range_from 100 150; last = none })) ∷ [];
}

loaded-IsSized : IsSized loaded
loaded-IsSized =
    let v = new-IsSized env committee 2 params (omega arith) in
    record { count = v.count; capacity = v.capacity }

grows_to_three : (tick_all env moments loaded).subnet_count ≡ 3
unfolding new tick_all tick apply_observed_faults end_round_faults refresh_clock sort next_count
    anon_set_round latest_clients anonymity_set demand
grows_to_three = refl

tick_all-IsSized_example : IsSized (tick_all env moments loaded)
tick_all-IsSized_example = tick_all-IsSized env moments loaded loaded-IsSized
