-- ===== src/Examples/Governance.antt =====
-- The governance theorems on a committee of three.
use anymone.Base.{◌≤◌, ◌<◌, ◌^◌, ◌≡◌, ◌↔◌, ◌⊎◌, refl, true, none, [], ◌∷◌, length, arith}
use anymone.Base.Equality.{nat_eq, list_eq}
use anymone.Base.Results.{ok}
use anymone.Config.Multisig.{verify_multisig}
use anymone.Config.Quorum.{Quorum, verify_multisig-eq-ok_iff}
use anymone.Scheduler.State.{SchedulerCore, new}
use anymone.Scheduler.FaultReports.{on_fault_report}
use anymone.Scheduler.FaultReports.Sidelining.{IsRoster}
use anymone.Scheduler.Structure.{subnet_ok}
use anymone.Scheduler.WireSize.{subnet_max_wire}
use anymone.Scheduler.Proposals.{on_decoded_body}
use anymone.Scheduler.Proposals.Agreement.{Vouches}
use anymone.Scheduler.Proposals.Backing.{Backs, on_decoded_body-Vouches}
use anymone.Scheduler.Proposals.Events.{handle_all}
use anymone.Scheduler.Proposals.Publications.{Publishes}
use anymone.Scheduler.Proposals.History.{handle_all-Publishes}
use anymone.Scheduler.Proposals.Roster.{handle_all-new-IsRoster}
use anymone.Examples.Data.{
  crypto, env, params, committee, proposal, report, signed_config, events, sizes, panetiere_subnet,
}

abbrev member : SchedulerCore (Unit {0}) (Unit {0})
member = new env committee 2 params

member_few : length member.committee < 2 ^ 32
unfolding new
member_few = omega arith

committee_few : length committee < 2 ^ 32
committee_few = omega arith

handle_all-Publishes_example :
    Publishes env member (handle_all env events member).0 (handle_all env events member).1
handle_all-Publishes_example = handle_all-Publishes env events member member_few

on_decoded_body-Vouches_example :
    (Vouches env member proposal
      × Backs env member proposal.body (on_decoded_body env member proposal))
    ⊎ ((¬ Vouches env member proposal) × (on_decoded_body env member proposal ≡ (member, [])))
on_decoded_body-Vouches_example = on_decoded_body-Vouches env member proposal

verify_multisig-eq-ok_iff_example :
    (verify_multisig crypto signed_config committee 2 ≡ ok tt)
    ↔ ((0 < 2) × (2 ≤ length committee) × Quorum crypto signed_config committee 2)
verify_multisig-eq-ok_iff_example =
    verify_multisig-eq-ok_iff crypto signed_config committee 2 committee_few

-- Relay 12 is tracked in the subnet that the report names.
abbrev observing : SchedulerCore (Unit {0}) (Unit {0})
observing = record member {
  current_subnets_sig = (0, (11 ∷ 12 ∷ 13 ∷ [], none)) ∷ [];
  registered = 11 ∷ 12 ∷ 13 ∷ [];
}

-- The report has relay 12 sidelined.
report_sidelines : (on_fault_report env observing 11 report 100).sidelined ≡ 12 ∷ []
unfolding on_fault_report new
report_sidelines = refl

handle_all-new-IsRoster_example : IsRoster (handle_all env events (new env committee 2 params)).0
handle_all-new-IsRoster_example = handle_all-new-IsRoster env committee 2 params events

subnet_passes : subnet_ok sizes panetiere_subnet ≡ true
unfolding subnet_ok subnet_max_wire
subnet_passes = refl
