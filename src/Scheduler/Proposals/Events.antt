-- ===== src/Scheduler/Proposals/Events.antt =====
-- The messages that reach a committee member between two ticks, as a sequence of steps.
use anymone.Base.{ℕ, List, [], ◌∷◌, ◌++◌}
use anymone.Config.{Configuration}
use anymone.Scheduler.State.{
  Env, SchedulerCore, SignedProposal, CommitteeSig, config, SchedulerAction, publish,
}
use anymone.Scheduler.Registration.{Registration, on_registration}
use anymone.Scheduler.FaultReports.{FaultReport, on_fault_report}
use anymone.Scheduler.Proposals.{on_decoded_body, on_committee_sig, on_published_config}

pub data Event : Type 0 where
  decoded_body : SignedProposal → Event
  committee_sig : CommitteeSig → Event
  published_config : Configuration → Event
  registration_seen : Registration → Event
  fault_reported : (from : ℕ) (report : FaultReport) (now : ℕ) → Event

module _ {A P : Type 0} (env : Env A P) where
  unfoldable pub handle : SchedulerCore A P → Event → SchedulerCore A P × List SchedulerAction
  handle c (decoded_body p) = on_decoded_body env c p
  handle c (committee_sig s) = on_committee_sig env c s
  handle c (published_config cfg) = ((on_published_config env c cfg).0, [])
  handle c (registration_seen r) = (on_registration c r, [])
  handle c (fault_reported from report now) = (on_fault_report env c from report now, [])

  unfoldable pub handle_all :
      List Event → SchedulerCore A P → SchedulerCore A P × List SchedulerAction
  unfolding handle
  handle_all [] c = (c, [])
  handle_all (e ∷ es) c =
      let first = handle c e in let rest = handle_all es first.0 in (rest.0, first.1 ++ rest.1)

-- What is sent on the configuration topic.
unfoldable pub configs_of : List SchedulerAction → List (List ℕ)
configs_of [] = []
configs_of (publish config bytes ∷ rest) = bytes ∷ configs_of rest
configs_of (_ ∷ rest) = configs_of rest
