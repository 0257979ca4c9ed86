-- ===== src/Scheduler/FaultReports.antt =====
-- scheduler_core.rs: `apply_observed_faults` and `on_fault_report`, with panetiere.rs
-- `integrity_culprit_from_evidence`. Logging is left out.
pub mod Sidelining
pub mod Framing
use anymone.Base.{
  ℕ, ◌+◌, ◌%◌, Bool, true, false, ◌&&◌, ◌||◌, not, Option, none, some, List, [], ◌∷◌, length, leb,
  min, get_elem?, if◌then◌else◌, unwrap_or,
}
use anymone.Base.Equality.{Eq, nat_eq, pair_eq, list_eq, ◌==◌}
use anymone.Base.Sets.{contains, insert, remove}
use anymone.Base.Maps.{get, put}
use anymone.Faults.{
  Fault, FaultKind, decryption, integrity, liveness, censorship, Blame, nobody, peers, u64_max,
}
use anymone.Scheduler.Observer.{SchedulerProtocol, PublicObserver, share_frontier}
use anymone.Scheduler.State.{Env, SchedulerCore, ServerPublic}

abbrev pub is_integrity : FaultKind → Bool
is_integrity integrity = true
is_integrity _ = false

-- governance.rs
pub record FaultReport : Type 0 where
  pub round : ℕ
  pub subnet : ℕ
  pub reporter : ℕ
  pub fault : Fault

abbrev pub fault_report_round_window : ℕ
fault_report_round_window = 32

abbrev pub sat_add_u64 : ℕ → ℕ → ℕ
sat_add_u64 a b = min (a + b) u64_max

module _ {A P : Type 0} where
  -- The body of the loop over an attribution's peers, with `sideline` on.
  unfoldable pub sideline_peer : SchedulerCore A P → Bool → ℕ → ℕ → SchedulerCore A P
  sideline_peer c is_offence now pk = record c {
    registered = remove c.registered pk;
    sidelined = insert c.sidelined pk;
    integrity_offenders =
        if is_offence then put c.integrity_offenders pk now else c.integrity_offenders;
  }

  unfoldable pub sideline_peers : SchedulerCore A P → Bool → ℕ → List ℕ → SchedulerCore A P
  unfolding sideline_peer
  sideline_peers c is_offence now [] = c
  sideline_peers c is_offence now (pk ∷ pks) =
      sideline_peers (if c.params.sideline then sideline_peer c is_offence now pk else c) is_offence
        now pks

  unfoldable pub apply_fault : SchedulerCore A P → ℕ → Fault → SchedulerCore A P
  unfolding sideline_peers
  apply_fault c now fault = elim fault.attribution [
    | nobody ↦ c
    | peers pks ↦ sideline_peers c (is_integrity fault.kind) now pks
  ]

  unfoldable pub apply_faults : SchedulerCore A P → ℕ → List Fault → SchedulerCore A P
  unfolding apply_fault
  apply_faults c now [] = c
  apply_faults c now (fault ∷ faults) = apply_faults (apply_fault c now fault) now faults

  -- An empty list of faults changes nothing, as in the source.
  unfoldable pub apply_observed_faults : SchedulerCore A P → List Fault → ℕ → SchedulerCore A P
  unfolding apply_faults
  apply_observed_faults c faults now =
      if not c.params.renegotiate_on_fault then c else apply_faults c now faults

-- panetiere.rs: the relay whose signed and inconsistent share the evidence is.
unfoldable pub integrity_culprit : {A P : Type 0} → Env A P → List ℕ → List ℕ → Option ℕ
integrity_culprit env evidence roster = elim (env.decode_server_public evidence) [
  | none ↦ none
  | some post ↦ elim (get_elem? roster post.server_id) [
    | none ↦ none
    | some culprit ↦
        if not (env.crypto.verify culprit post.signing_bytes post.signature)
        then none
        else if post.consistent
        then none
        else some culprit
  ]
]

-- `attribution != Attribution::Peers(vec![culprit])`, negated.
abbrev pub blames_only : Blame → ℕ → Bool
blames_only nobody culprit = false
blames_only (peers pks) culprit = pks == culprit ∷ []

-- The roster of a tracked subnet, if it has one.
unfoldable pub tracked_roster : List (ℕ × (List ℕ × Option SchedulerProtocol)) → ℕ → Option (List ℕ)
tracked_roster [] subnet = none
tracked_roster ((id, (roster, proto)) ∷ rest) subnet =
    if id == subnet
    then (if leb (length roster) 0 then none else some roster)
    else tracked_roster rest subnet

-- Within the window of the subnet's frontier; with no frontier any round is.
abbrev pub in_window : ℕ → Option ℕ → Bool
in_window round none = true
in_window round (some frontier) =
    leb frontier (sat_add_u64 round fault_report_round_window)
    && leb round (sat_add_u64 frontier fault_report_round_window)

-- The end of `on_fault_report`: the replay test and the fault.
unfoldable pub act_on_report :
    {A P : Type 0} → SchedulerCore A P → FaultReport → ℕ → ℕ → SchedulerCore A P
unfolding apply_observed_faults
act_on_report c report now culprit =
    let seen : ℕ × (ℕ × ℕ) = (report.subnet, (report.round, culprit)) in
    if contains c.seen_integrity_faults seen
    then c
    else apply_observed_faults
        (record c { seen_integrity_faults = insert c.seen_integrity_faults seen })
        (report.fault ∷ []) now

module _ {A P : Type 0} (env : Env A P) where
  unfoldable pub frontier_of : SchedulerCore A P → ℕ → Option ℕ
  frontier_of c subnet = elim (get c.observers subnet) [
    | none ↦ none
    | some o ↦ share_frontier env.adcnet_ops env.panetiere_ops o
  ]

  -- The culprit of a report that passes every test but the replay test.
  unfoldable pub proven_culprit : SchedulerCore A P → ℕ → FaultReport → Option ℕ
  unfolding tracked_roster frontier_of integrity_culprit
  proven_culprit c from report =
      if not (is_integrity report.fault.kind)
      then none
      else elim (tracked_roster c.current_subnets_sig report.subnet) [
        | none ↦ none
        | some roster ↦
            if not (contains roster from)
            then none
            else if not (in_window report.round (frontier_of c report.subnet))
            then none
            else elim (integrity_culprit env report.fault.evidence roster) [
              | none ↦ none
              | some culprit ↦
                  if not (blames_only report.fault.attribution culprit) then none else some culprit
            ]
      ]

  unfoldable pub on_fault_report : SchedulerCore A P → ℕ → FaultReport → ℕ → SchedulerCore A P
  unfolding proven_culprit act_on_report
  on_fault_report c from report now = elim (proven_culprit c from report) [
    | none ↦ c
    | some culprit ↦ act_on_report c report now culprit
  ]
