-- ===== src/Scheduler/FaultReports/Framing.antt =====
-- A fault report acts only on a relay whose own signature convicts it.
use anymone.Base.{ℕ, ◌≡◌, true, false, some, List, get_elem?}
use anymone.Base.Equality.{nat_eq, list_eq}
use anymone.Base.Sets.{contains}
use anymone.Scheduler.State.{Env, SchedulerCore, ServerPublic}
use anymone.Scheduler.FaultReports.{
  is_integrity, in_window, frontier_of, FaultReport, blames_only, tracked_roster,
}

module _ {A P : Type 0} (env : Env A P) where
  -- The evidence is a message of the relay at its index in the roster, under the relay's valid
  -- signature, and it contradicts itself.
  pub record Convicts (evidence roster : List ℕ) (culprit : ℕ) : Type 0 where
    pub post : ServerPublic
    pub decoded : env.decode_server_public evidence ≡ some post
    pub placed : get_elem? roster post.server_id ≡ some culprit
    pub signed : env.crypto.verify culprit post.signing_bytes post.signature ≡ true
    pub contradicts : post.consistent ≡ false

  -- What a report that is acted on has shown.
  pub record Proves (c : SchedulerCore A P) (from : ℕ) (report : FaultReport) (culprit : ℕ)
      : Type 0 where
    pub roster : List ℕ
    pub tracked : tracked_roster c.current_subnets_sig report.subnet ≡ some roster
    pub integrity_kind : is_integrity report.fault.kind ≡ true
    pub timely : in_window report.round (frontier_of env c report.subnet) ≡ true
    pub from_member : contains roster from ≡ true
    pub convicts : Convicts report.fault.evidence roster culprit
    pub blames : blames_only report.fault.attribution culprit ≡ true
