-- ===== src/Scheduler/Observer.antt =====
-- scheduler_core.rs: the public subnet's liveness observer. The protocol observers of adcnet.rs and
-- panetiere.rs are behind the records `AdcnetOps` and `PanetiereOps` of the calls made on them; the
-- noop observer is whole. The `Instant` that the source passes on plays no part.
use anymone.Base.{
  ℕ, Bool, true, false, Option, none, some, List, [], length, if◌then◌else◌, leb, max,
}
use anymone.Base.Equality.{Eq, nat_eq, of_discrete}
use anymone.Base.Sets.{insert}
use anymone.Faults.{Fault}

-- scheduling.rs
pub data SchedulerProtocol : Type 0 where
  adcnet panetiere scheduled_panetiere noop scheduled_adcnet : SchedulerProtocol

pub SchedulerProtocol-discrete : Discrete SchedulerProtocol
SchedulerProtocol-discrete = hlevel

instance abbrev pub protocol_eq : Eq SchedulerProtocol
protocol_eq = of_discrete SchedulerProtocol-discrete

-- `AdcnetObserverSession`
pub record AdcnetOps (A : Type 0) : Type 0 where
  pub for_protocol : Bool → List ℕ → ℕ → ℕ → A
  pub on_inbound : A → ℕ → List ℕ → A
  pub begin_round : A → ℕ → A
  pub end_round : A → ℕ → A × List Fault
  pub observed_round : A → Option ℕ
  pub anonymity_set : A → Option ℕ
  pub anon_set_round : A → Option ℕ
  pub share_frontier : A → Option ℕ

-- `PanetiereObserverSession`
pub record PanetiereOps (P : Type 0) : Type 0 where
  pub new : List ℕ → Option ℕ → ℕ → P
  pub on_inbound : P → ℕ → List ℕ → P
  pub begin_round : P → ℕ → P
  pub end_round : P → ℕ → P × List Fault
  pub observed_round : P → Option ℕ
  pub anonymity_set : P → Option ℕ
  pub anon_set_round : P → Option ℕ
  pub share_frontier : P → Option ℕ
  pub demand : P → Option ℕ
  pub latest_clients : P → Option (List ℕ)
  pub decoded_bytes_recent : P → ℕ → ℕ

pub record NoopWireCount : Type 0 where
  pub current : List ℕ
  pub last : Option (ℕ × ℕ)

pub data PublicObserver (A P : Type 0) : Type 0 where
  adcnet_observer : A → PublicObserver A P
  panetiere_observer : P → PublicObserver A P
  noop_observer : NoopWireCount → PublicObserver A P

abbrev first_of_pair : Option (ℕ × ℕ) → Option ℕ
first_of_pair none = none
first_of_pair (some (r, n)) = some r

abbrev second_of_pair : Option (ℕ × ℕ) → Option ℕ
second_of_pair none = none
second_of_pair (some (r, n)) = some n

-- `a.into_iter().chain(b).max()`
abbrev max_option : Option ℕ → Option ℕ → Option ℕ
max_option none b = b
max_option (some a) none = some a
max_option (some a) (some b) = some (max a b)

module _ {A P : Type 0} (ao : AdcnetOps A) (po : PanetiereOps P) where
  unfoldable pub on_inbound : PublicObserver A P → ℕ → List ℕ → PublicObserver A P
  on_inbound (adcnet_observer o) from bytes = adcnet_observer (ao.on_inbound o from bytes)
  on_inbound (panetiere_observer o) from bytes = panetiere_observer (po.on_inbound o from bytes)
  on_inbound (noop_observer o) from bytes =
      noop_observer (record o { current = insert o.current from })

  unfoldable pub end_round_faults : PublicObserver A P → ℕ → PublicObserver A P × List Fault
  end_round_faults (adcnet_observer o) round =
      let (o', faults) = ao.end_round o round in (adcnet_observer o', faults)
  end_round_faults (panetiere_observer o) round =
      let (o', faults) = po.end_round o round in (panetiere_observer o', faults)
  end_round_faults (noop_observer o) round =
      if leb (length o.current) 0
      then (noop_observer o, [])
      else (noop_observer (record { current = []; last = some (round, length o.current) }), [])

  unfoldable pub refresh_clock : PublicObserver A P → Option ℕ → PublicObserver A P
  refresh_clock (adcnet_observer o) wall = elim (max_option (ao.observed_round o) wall) [
    | none ↦ adcnet_observer o
    | some r ↦ adcnet_observer (ao.begin_round o r)
  ]
  refresh_clock (panetiere_observer o) wall = elim (max_option (po.observed_round o) wall) [
    | none ↦ panetiere_observer o
    | some r ↦ panetiere_observer (po.begin_round o r)
  ]
  refresh_clock (noop_observer o) wall = noop_observer o

  unfoldable pub anonymity_set : PublicObserver A P → Option ℕ
  anonymity_set (adcnet_observer o) = ao.anonymity_set o
  anonymity_set (panetiere_observer o) = po.anonymity_set o
  anonymity_set (noop_observer o) = second_of_pair o.last

  unfoldable pub anon_set_round : PublicObserver A P → Option ℕ
  anon_set_round (adcnet_observer o) = ao.anon_set_round o
  anon_set_round (panetiere_observer o) = po.anon_set_round o
  anon_set_round (noop_observer o) = first_of_pair o.last

  unfoldable pub demand : PublicObserver A P → Option ℕ
  demand (panetiere_observer o) = po.demand o
  demand (adcnet_observer o) = none
  demand (noop_observer o) = none

  unfoldable pub latest_clients : PublicObserver A P → Option (List ℕ)
  latest_clients (panetiere_observer o) = po.latest_clients o
  latest_clients (adcnet_observer o) = none
  latest_clients (noop_observer o) = none

  unfoldable pub share_frontier : PublicObserver A P → Option ℕ
  share_frontier (adcnet_observer o) = ao.share_frontier o
  share_frontier (panetiere_observer o) = po.share_frontier o
  share_frontier (noop_observer o) = first_of_pair o.last

  unfoldable pub decoded_bytes_recent : PublicObserver A P → ℕ → Option ℕ
  decoded_bytes_recent (panetiere_observer o) window = some (po.decoded_bytes_recent o window)
  decoded_bytes_recent (adcnet_observer o) window = none
  decoded_bytes_recent (noop_observer o) window = none

  unfoldable pub build_observer :
      Option SchedulerProtocol → List ℕ → ℕ → ℕ → Option (PublicObserver A P)
  build_observer (some adcnet) roster leader fault_threshold =
      some (adcnet_observer (ao.for_protocol false roster leader fault_threshold))
  build_observer (some scheduled_adcnet) roster leader fault_threshold =
      some (adcnet_observer (ao.for_protocol true roster leader fault_threshold))
  build_observer (some panetiere) roster leader fault_threshold =
      some (panetiere_observer (po.new roster (some leader) fault_threshold))
  build_observer (some scheduled_panetiere) roster leader fault_threshold =
      some (panetiere_observer (po.new roster (some leader) fault_threshold))
  build_observer (some noop) roster leader fault_threshold =
      some (noop_observer (record { current = []; last = none }))
  build_observer none roster leader fault_threshold = none
