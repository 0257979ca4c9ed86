-- ===== src/Scheduler/Build/Placement.antt =====
-- What the lead's body places.
use anymone.Base.{
  ℕ, zero, suc, ◌+◌, ◌≤◌, ◌≡◌, true, false, some, List, [], ◌∷◌, length, take, length-take, All,
  arith,
}
use anymone.Base.Equality.{nat_eq}
use anymone.Base.Sets.{contains, Distinct}
use anymone.Base.Sort.{sort, contains-sort, sort-Distinct}
use anymone.Config.{Subnet}
use anymone.Scheduler.Observer.{SchedulerProtocol}
use anymone.Scheduler.State.{Env, SchedulerCore}
use anymone.Scheduler.Structure.{max_committee_relays}
use anymone.Scheduler.Structure.Bounds.{decode_threshold}
use anymone.Scheduler.FaultReports.Sidelining.{IsRoster}
use anymone.Scheduler.Build.{build_protocol, build_subnets, placed_relays, build_body}

contains-take : (n : ℕ) (xs : List ℕ) (k : ℕ) → contains (take n xs) k ≡ true → contains xs k ≡ true
unfolding take
contains-take zero xs k h = ground (arith, h)
contains-take (suc n) [] k h = h
contains-take (suc n) (x ∷ xs) k h = ground (arith, h, contains-take n xs k)

take-Distinct : (n : ℕ) (xs : List ℕ) → Distinct xs → Distinct (take n xs)
unfolding take
take-Distinct zero xs d = tt
take-Distinct (suc n) [] d = tt
take-Distinct (suc n) (x ∷ xs) d = ground (arith, d, take-Distinct n xs d.1, contains-take n xs x)

module _ {A P : Type 0} (env : Env A P) (c : SchedulerCore A P) where
  -- At most 16 relays, none twice, each registered and not sidelined; and a decode threshold, where
  -- the protocol has one, above half of them.
  pub record IsPlaced (s : Subnet) : Type 0 where
    pub few : length s.relays ≤ max_committee_relays
    pub distinct : Distinct s.relays
    pub registered : (k : ℕ) → contains s.relays k ≡ true → contains c.registered k ≡ true
    pub not_sidelined : (k : ℕ) → contains s.relays k ≡ true → contains c.sidelined k ≡ false
    pub majority : (t : ℕ) → decode_threshold s.protocol ≡ some t → length s.relays + 1 ≤ t + t

  threshold_majority :
      (relay_vec : List ℕ) (id : ℕ) (proto : SchedulerProtocol) (t : ℕ)
      → decode_threshold (build_protocol env c relay_vec id proto) ≡ some t
      → length relay_vec + 1 ≤ t + t
  unfolding decode_threshold build_protocol
  threshold_majority relay_vec id SchedulerProtocol.panetiere t h = ground (arith, h)
  threshold_majority relay_vec id SchedulerProtocol.scheduled_panetiere t h = ground (arith, h)
  threshold_majority relay_vec id SchedulerProtocol.scheduled_adcnet t h = ground (arith, h)
  threshold_majority relay_vec id SchedulerProtocol.noop t h = ground (arith, h)
  threshold_majority relay_vec id SchedulerProtocol.adcnet t h = ground (arith, h)

  placed_registered : (k : ℕ) → contains (placed_relays c) k ≡ true → contains c.registered k ≡ true
  unfolding placed_relays
  placed_registered k h = ground (
    arith,
    contains-take max_committee_relays (sort c.registered) k h,
    contains-sort c.registered k,
  )

  build_subnets-IsPlaced :
      (id : ℕ) (protos : List SchedulerProtocol)
      → IsRoster c
      → All IsPlaced (build_subnets env c (placed_relays c) id protos)
  unfolding build_subnets placed_relays
  build_subnets-IsPlaced id [] v = tt
  build_subnets-IsPlaced id (proto ∷ protos) v = (
    record {
      few = omega (arith, length-take max_committee_relays (sort c.registered));
      distinct =
          take-Distinct max_committee_relays (sort c.registered)
            (sort-Distinct c.registered v.once);
      registered = placed_registered;
      not_sidelined = λ k h. v.not_sidelined k (placed_registered k h);
      majority = threshold_majority (placed_relays c) id proto;
    },
    build_subnets-IsPlaced (id + 1) protos v,
  )

  -- Every subnet of the body that the lead builds from a valid roster has at most 16 relays, none
  -- twice, each registered and not sidelined, and a decode threshold above half of them where its
  -- protocol has one.
  pub build_body-IsPlaced :
      (now : ℕ) (protos : List SchedulerProtocol)
      → IsRoster c
      → All IsPlaced (build_body env c now protos).subnets
  unfolding build_body
  build_body-IsPlaced now protos v = build_subnets-IsPlaced 0 protos v
