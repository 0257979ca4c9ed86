-- ===== src/Scheduler/Proposals/History.antt =====
-- The invariants of a committee member over every sequence of messages.
use anymone.Base.{
  ℕ, ◌<◌, ◌^◌, refl, sym, ◌∙◌, subst, Bool, true, false, not, none, some, List, [], ◌∷◌, length,
  max, if◌then◌else◌, arith,
}
use anymone.Base.Equality.{nat_eq, list_eq, pair_eq}
use anymone.Base.Sets.{insert, contains-insert}
use anymone.Base.Results.{Result, ok, err}
use anymone.Config.{Configuration}
use anymone.Config.Multisig.{ConfigError, verify_multisig}
use anymone.Faults.{Fault, nobody, peers}
use anymone.Scheduler.State.{Env, SchedulerCore}
use anymone.Scheduler.Registration.{Registration, on_registration, relay, service, watcher}
use anymone.Scheduler.FaultReports.{
  FaultReport, sideline_peer, sideline_peers, apply_fault, apply_faults, apply_observed_faults,
  act_on_report, proven_culprit, on_fault_report, is_integrity,
}
use anymone.Scheduler.Structure.{validate_structure}
use anymone.Scheduler.Proposals.{raise, on_published_config, learn_config}
use anymone.Scheduler.Proposals.Events.{
  Event, decoded_body, committee_sig, published_config, registration_seen, fault_reported, handle,
  handle_all, configs_of,
}
use anymone.Scheduler.Proposals.Publications.{
  Publishes, SameBooks, nothing-Publishes, quiet-Publishes, append-Publishes,
}
use anymone.Scheduler.Proposals.Once.{
  learn_config-SameBooks, on_decoded_body-Publishes, on_committee_sig-Publishes,
}

module _ {A P : Type 0} where
  on_registration-SameBooks :
      (env : Env A P) (c : SchedulerCore A P) (r : Registration)
      → SameBooks env c (on_registration c r)
  unfolding on_registration
  on_registration-SameBooks env c (watcher k s) = (refl, refl, refl)
  on_registration-SameBooks env c (service t k x u s) = (refl, refl, refl)
  on_registration-SameBooks env c (relay k x a u s) = (ground arith, ground arith, ground arith)

  sideline_peers-SameBooks :
      (env : Env A P) (pks : List ℕ) (c : SchedulerCore A P) (offence : Bool) (now : ℕ)
      → SameBooks env c (sideline_peers c offence now pks)
  unfolding sideline_peers sideline_peer
  sideline_peers-SameBooks env [] c offence now = (refl, refl, refl)
  sideline_peers-SameBooks env (pk ∷ pks) c offence now =
      let d : SchedulerCore A P = if c.params.sideline then sideline_peer c offence now pk else c in
      let rest = sideline_peers-SameBooks env pks d offence now in
      (rest.0 ∙ ground arith, rest.1 ∙ ground arith, rest.2 ∙ ground arith)

  apply_fault-SameBooks :
      (env : Env A P) (c : SchedulerCore A P) (now : ℕ) (fault : Fault)
      → SameBooks env c (apply_fault c now fault)
  unfolding apply_fault
  apply_fault-SameBooks env c now fault =
      elim fault.attribution
        as (λ b. SameBooks env c (elim b [
          | nobody ↦ c
          | peers pks ↦ sideline_peers c (is_integrity fault.kind) now pks
        ])) [
          | nobody ↦ (refl, refl, refl)
          | peers pks ↦ sideline_peers-SameBooks env pks c (is_integrity fault.kind) now
        ]

  act_on_report-SameBooks :
      (env : Env A P) (c : SchedulerCore A P) (r : FaultReport) (now culprit : ℕ)
      → SameBooks env c (act_on_report c r now culprit)
  unfolding act_on_report apply_observed_faults apply_faults
  act_on_report-SameBooks env c r now culprit =
      let seen : ℕ × (ℕ × ℕ) = (r.subnet, (r.round, culprit)) in
      let d : SchedulerCore A P = record c {
        seen_integrity_faults = insert c.seen_integrity_faults seen;
      } in
      let after = apply_fault-SameBooks env d now r.fault in
      (ground (arith, after.0), ground (arith, after.1), ground (arith, after.2))

  on_fault_report-SameBooks :
      (env : Env A P) (c : SchedulerCore A P) (from : ℕ) (r : FaultReport) (now : ℕ)
      → SameBooks env c (on_fault_report env c from r now)
  unfolding on_fault_report
  on_fault_report-SameBooks env c from r now =
      elim (proven_culprit env c from r)
        as (λ o.
          SameBooks env c (elim o [ none ↦ c | some culprit ↦ act_on_report c r now culprit ])) [
            | none ↦ (refl, refl, refl)
            | some culprit ↦ act_on_report-SameBooks env c r now culprit
          ]

  -- Adopting a configuration marks its body as published and sends nothing.
  on_published_config-Publishes :
      (env : Env A P) (c : SchedulerCore A P) (cfg : Configuration)
      → Publishes env c (on_published_config env c cfg).0 []
  unfolding configs_of on_published_config
  on_published_config-Publishes env c cfg =
      go (verify_multisig env.crypto cfg c.committee c.threshold)
    where
      marked : SchedulerCore A P
      marked = record c {
        last_accepted_round = raise c.last_accepted_round cfg.body.round;
        public_round = max c.public_round cfg.body.round;
        published_round = raise c.published_round cfg.body.round;
        published = insert c.published (env.crypto.canonical_bytes cfg.body);
      }

      adopted : Publishes env c (learn_config env marked cfg.body) []
      adopted =
          append-Publishes env c marked _ [] []
            (nothing-Publishes env c marked [] refl
              (λ k e.
                ground
                  (arith, e, contains-insert c.published (env.crypto.canonical_bytes cfg.body) k))
              refl refl)
            (quiet-Publishes env marked _ [] refl (learn_config-SameBooks env marked cfg.body))

      go :
          (r : Result (Unit {0}) ConfigError)
          → (let out : SchedulerCore A P × Bool = elim r [
            | err e ↦ (c, false)
            | ok _ ↦
                if not (validate_structure env.sizes cfg.body)
                then (c, false)
                else (learn_config env marked cfg.body, true)
          ] in
              Publishes env c out.0 [])
      go (err e) = quiet-Publishes env c c [] refl (refl, refl, refl)
      go (ok u) =
          elim (validate_structure env.sizes cfg.body)
            as (λ b.
              let out : SchedulerCore A P × Bool =
                if not b then (c, false) else (learn_config env marked cfg.body, true) in
              Publishes env c out.0 []) [
                | true ↦ adopted
                | false ↦ quiet-Publishes env c c [] refl (refl, refl, refl)
              ]

  handle-Publishes :
      (env : Env A P) (c : SchedulerCore A P) (e : Event)
      → length c.committee < 2 ^ 32
      → Publishes env c (handle env c e).0 (handle env c e).1
  unfolding handle configs_of
  handle-Publishes env c (decoded_body p) small = on_decoded_body-Publishes env c p small
  handle-Publishes env c (committee_sig s) small = on_committee_sig-Publishes env c s small
  handle-Publishes env c (published_config cfg) small = on_published_config-Publishes env c cfg
  handle-Publishes env c (registration_seen r) small =
      quiet-Publishes env c _ [] refl (on_registration-SameBooks env c r)
  handle-Publishes env c (fault_reported from r now) small =
      quiet-Publishes env c _ [] refl (on_fault_report-SameBooks env c from r now)

  -- Over any sequence of messages, each configuration that a member publishes carries a quorum of
  -- the committee, no two of them have the same body, and none has a body that the member had
  -- published or adopted before. The committee has fewer than 2^32 members.
  pub handle_all-Publishes :
      (env : Env A P) (es : List Event) (c : SchedulerCore A P)
      → length c.committee < 2 ^ 32
      → Publishes env c (handle_all env es c).0 (handle_all env es c).1
  unfolding handle_all configs_of
  handle_all-Publishes env [] c small = quiet-Publishes env c c [] refl (refl, refl, refl)
  handle_all-Publishes env (e ∷ es) c small =
      let first = handle-Publishes env c e small in
      append-Publishes env c (handle env c e).0 _ (handle env c e).1 _ first (
        handle_all-Publishes env es (handle env c e).0
          (subst (λ l. length l < 2 ^ 32) (sym first.same_committee) small))
