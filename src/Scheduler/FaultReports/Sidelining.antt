-- ===== src/Scheduler/FaultReports/Sidelining.antt =====
-- Relays are registered, sidelined, or held out as integrity offenders.
use anymone.Base.{
  ℕ, ◌≡◌, Bool, true, false, not, if◌then◌else◌, none, some, List, [], ◌∷◌, arith, eqb_iff,
}
use anymone.Base.Equality.{nat_eq, pair_eq, ◌==◌}
use anymone.Base.Sets.{
  contains, insert, contains-insert, contains-remove, Distinct, insert-Distinct, retain-Distinct,
}
use anymone.Base.Maps.{contains_key, get-put}
use anymone.Faults.{Fault, Blame, nobody, peers}
use anymone.Scheduler.State.{Env, SchedulerCore}
use anymone.Scheduler.Registration.{Registration, relay, service, watcher, on_registration}
use anymone.Scheduler.FaultReports.{
  FaultReport, sideline_peer, sideline_peers, apply_fault, apply_faults, apply_observed_faults,
  on_fault_report, is_integrity, proven_culprit, act_on_report,
}

-- A registered relay is neither sidelined nor serving an integrity backoff, and stands once in the
-- list; its exchange key is known.
pub record IsRoster {A P : Type 0} (c : SchedulerCore A P) : Type 0 where
  pub not_sidelined : (pk : ℕ) → contains c.registered pk ≡ true → contains c.sidelined pk ≡ false
  pub not_offending :
      (pk : ℕ) → contains c.registered pk ≡ true → contains_key c.integrity_offenders pk ≡ false
  pub keyed : (pk : ℕ) → contains c.registered pk ≡ true → contains_key c.relay_xpubs pk ≡ true
  pub once : Distinct c.registered

module _ {A P : Type 0} where
  pub on_registration-IsRoster :
      (c : SchedulerCore A P) (reg : Registration) → IsRoster c → IsRoster (on_registration c reg)
  unfolding on_registration
  on_registration-IsRoster c (watcher pubkey signature) v = record {
    not_sidelined = v.not_sidelined;
    not_offending = v.not_offending;
    keyed = v.keyed;
    once = v.once;
  }
  on_registration-IsRoster c (service tag pubkey xk url signature) v = record {
    not_sidelined = v.not_sidelined;
    not_offending = v.not_offending;
    keyed = v.keyed;
    once = v.once;
  }
  on_registration-IsRoster c (relay pubkey xk addr url signature) v = record {
    not_sidelined = λ pk h. ground (
      arith,
      v.not_sidelined pk,
      contains-insert c.registered pubkey pk,
      contains-remove c.sidelined pubkey pk,
      eqb_iff pubkey pk,
      eqb_iff pk pubkey,
    );
    not_offending = λ pk h.
        ground
          (arith, v.not_offending pk, contains-insert c.registered pubkey pk, eqb_iff pubkey pk);
    keyed = λ pk h. ground (
      arith,
      v.keyed pk,
      contains-insert c.registered pubkey pk,
      get-put c.relay_xpubs pubkey pk xk,
    );
    once = ground (arith, insert-Distinct c.registered pubkey v.once, v.once);
  }

  sideline_peer-IsRoster :
      (c : SchedulerCore A P) (offence : Bool) (now pk : ℕ)
      → IsRoster c
      → IsRoster (sideline_peer c offence now pk)
  unfolding sideline_peer
  sideline_peer-IsRoster c offence now pk v = record {
    not_sidelined = λ k h. ground (
      arith,
      v.not_sidelined k,
      contains-remove c.registered pk k,
      contains-insert c.sidelined pk k,
      eqb_iff pk k,
      eqb_iff k pk,
    );
    not_offending = λ k h. ground (
      arith,
      v.not_offending k,
      contains-remove c.registered pk k,
      get-put c.integrity_offenders pk k now,
      eqb_iff pk k,
      eqb_iff k pk,
    );
    keyed = λ k h. ground (arith, v.keyed k, contains-remove c.registered pk k);
    once = retain-Distinct (λ x. not (x == pk)) c.registered v.once;
  }

  pub sideline_peers-IsRoster :
      (pks : List ℕ) (c : SchedulerCore A P) (offence : Bool) (now : ℕ)
      → IsRoster c
      → IsRoster (sideline_peers c offence now pks)
  unfolding sideline_peers
  sideline_peers-IsRoster [] c offence now v = v
  sideline_peers-IsRoster (pk ∷ pks) c offence now v =
      sideline_peers-IsRoster pks (if c.params.sideline then sideline_peer c offence now pk else c)
        offence now
        (elim c.params.sideline
          as (λ b. IsRoster (if b then sideline_peer c offence now pk else c)) [
            | true ↦ sideline_peer-IsRoster c offence now pk v
            | false ↦ v
          ])

  pub apply_blame-IsRoster :
      (c : SchedulerCore A P) (offence : Bool) (now : ℕ) (blame : Blame)
      → IsRoster c
      → IsRoster (elim blame [ nobody ↦ c | peers pks ↦ sideline_peers c offence now pks ])
  apply_blame-IsRoster c offence now nobody v = v
  apply_blame-IsRoster c offence now (peers pks) v = sideline_peers-IsRoster pks c offence now v

  pub apply_faults-IsRoster :
      (faults : List Fault) (c : SchedulerCore A P) (now : ℕ)
      → IsRoster c
      → IsRoster (apply_faults c now faults)
  unfolding apply_faults apply_fault
  apply_faults-IsRoster [] c now v = v
  apply_faults-IsRoster (fault ∷ faults) c now v =
      apply_faults-IsRoster faults (apply_fault c now fault) now
        (apply_blame-IsRoster c (is_integrity fault.kind) now fault.attribution v)

  pub apply_observed_faults-IsRoster :
      (c : SchedulerCore A P) (faults : List Fault) (now : ℕ)
      → IsRoster c
      → IsRoster (apply_observed_faults c faults now)
  unfolding apply_observed_faults
  apply_observed_faults-IsRoster c faults now v =
      elim c.params.renegotiate_on_fault
        as (λ b. IsRoster (if not b then c else apply_faults c now faults)) [
          | true ↦ apply_faults-IsRoster faults c now v
          | false ↦ v
        ]

  act_on_report-IsRoster :
      (c : SchedulerCore A P) (report : FaultReport) (now culprit : ℕ)
      → IsRoster c
      → IsRoster (act_on_report c report now culprit)
  unfolding act_on_report
  act_on_report-IsRoster c report now culprit v =
      let seen : ℕ × (ℕ × ℕ) = (report.subnet, (report.round, culprit)) in
      elim (contains c.seen_integrity_faults seen)
        as (λ b. IsRoster (
          if b
          then c
          else apply_observed_faults
              (record c { seen_integrity_faults = insert c.seen_integrity_faults seen })
              (report.fault ∷ []) now)) [
                | true ↦ v
                | false ↦
                    apply_observed_faults-IsRoster
                      (record c { seen_integrity_faults = insert c.seen_integrity_faults seen })
                      (report.fault ∷ []) now
                      (record {
                        not_sidelined = v.not_sidelined;
                        not_offending = v.not_offending;
                        keyed = v.keyed;
                        once = v.once;
                      })
              ]

  pub on_fault_report-IsRoster :
      (env : Env A P) (c : SchedulerCore A P) (from : ℕ) (report : FaultReport) (now : ℕ)
      → IsRoster c
      → IsRoster (on_fault_report env c from report now)
  unfolding on_fault_report
  on_fault_report-IsRoster env c from report now v =
      elim (proven_culprit env c from report)
        as (λ o.
          IsRoster (elim o [ none ↦ c | some culprit ↦ act_on_report c report now culprit ])) [
            | none ↦ v
            | some culprit ↦ act_on_report-IsRoster c report now culprit v
          ]
