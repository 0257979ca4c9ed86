-- ===== src/Contribution/Verifier.antt =====
-- contribution.rs: `ReplayStore::accept`, `ContributionVerifier` and `freeze_manifest`.
use anymone.Base.{
  ℕ, ◌+◌, ◌-◌, ◌^◌, false, ◌&&◌, ◌||◌, not, Option, none, some, List, [], ◌∷◌, length, ltb, leb,
  eqb, if◌then◌else◌, map_or,
}
use anymone.Base.Equality.{nat_eq, pair_eq, list_eq, ◌==◌}
use anymone.Base.Sets.{contains}
use anymone.Base.Maps.{get, put}
use anymone.Base.Results.{Result, ok, err, ◌>>=◌, ◌>>◌, require, collect}
use anymone.Contribution.{
  protocol_id_eq, recipient_eq, digest_eq, RemoteSessionPolicy, EnrolmentStatement, enrolment_bytes,
  SessionEnrolment, developer, app_attest, android, statement_of, ContributionRecipient,
  PayloadDigest, ContributionManifest, ContributionPayload, ContributionEvidence, dev_ed25519,
  app_attest_assertion, android_p256_signature, AttestedContribution, ContributionError,
  remote_sessions_disabled, developer_evidence_rejected, unsupported_evidence, protocol_not_allowed,
  lease_invalid, lease_expired, context_mismatch, bad_signature, payload_mismatch,
  payload_too_large, duplicate_destination, replay_conflict, out_of_order_sequence, Primitives,
  max_payloads, max_payload_bytes, manifest_bytes, manifest_digest, payload_digest,
}

pub data ReplayDecision : Type 0 where
  fresh duplicate : ReplayDecision

pub record ReplaySnapshot : Type 0 where
  pub accepted : List ((ℕ × ℕ) × ℕ)
  pub highest : List (ℕ × ℕ)

unfoldable pub accept :
    ReplaySnapshot → ℕ → ℕ → ℕ → ReplaySnapshot × Result ReplayDecision ContributionError
accept held lease sequence digest =
    let key : ℕ × ℕ = (lease, sequence) in
    elim (get held.accepted key) [
      | some existing ↦
          if existing == digest then (held, ok duplicate) else (held, err replay_conflict)
      | none ↦
          if map_or false (λ highest. leb sequence highest) (get held.highest lease)
          then (held, err out_of_order_sequence)
          else (
            record {
              accepted = put held.accepted key digest;
              highest = put held.highest lease sequence;
            },
            ok fresh,
          )
    ]

-- The sum of the payloads' lengths, with the overflow test of a `usize` at each step.
unfoldable pub total_bytes : List ContributionPayload → ℕ → Result ℕ ContributionError
total_bytes [] sum = ok sum
total_bytes (p ∷ ps) sum =
    require (ltb (sum + length p.bytes) (2 ^ 64)) payload_too_large
    >> total_bytes ps (sum + length p.bytes)

module _ (prim : Primitives) (policy : RemoteSessionPolicy) where
  abbrev check_developer : EnrolmentStatement → List ℕ → Result EnrolmentStatement ContributionError
  check_developer s signature =
      require (policy.allow_developer && contains policy.developer_keys s.platform_key)
        developer_evidence_rejected
      >> require (prim.verify s.platform_key (enrolment_bytes s) signature) bad_signature
      >> ok s

  unfoldable pub verify_enrolment :
      SessionEnrolment → ℕ → Result EnrolmentStatement ContributionError
  verify_enrolment enrolment now =
      let s = statement_of enrolment in
      let outcome : Result EnrolmentStatement ContributionError = elim enrolment [
        | developer statement signature ↦ check_developer statement signature
        | app_attest statement evidence ↦ err unsupported_evidence
        | android statement chain token signature ↦ err unsupported_evidence
      ] in
      require policy.enabled remote_sessions_disabled
      >> require
          (not (
            leb s.valid_until s.valid_from
            || ltb policy.max_lease_rounds (s.valid_until - s.valid_from)
            || ltb now s.valid_from
            || leb s.valid_until now))
          lease_invalid
      >> require (contains policy.allowed_protocols s.protocol) protocol_not_allowed
      >> outcome

  abbrev pub check_evidence :
      EnrolmentStatement → List ℕ → ContributionEvidence → Result (Unit {0}) ContributionError
  check_evidence lease bytes (dev_ed25519 key signature) =
      require
        (policy.allow_developer && key == lease.platform_key && contains policy.developer_keys key)
        developer_evidence_rejected
      >> require (prim.verify key bytes signature) bad_signature
  check_evidence lease bytes (app_attest_assertion assertion) = err unsupported_evidence
  check_evidence lease bytes (android_p256_signature signature) = err unsupported_evidence

  unfoldable pub check_total : List ContributionPayload → Result (Unit {0}) ContributionError
  unfolding total_bytes
  check_total payloads =
      total_bytes payloads 0 >>= λ total. require (leb total max_payload_bytes) payload_too_large

  unfoldable pub check_payloads :
      List ContributionPayload → List PayloadDigest → Result (Unit {0}) ContributionError
  check_payloads payloads expected = collect (payload_digest prim) payloads >>= λ actual.
      require (actual == expected) payload_mismatch

  unfoldable pub check_signed :
      EnrolmentStatement
      → ContributionManifest
      → ContributionEvidence
      → Result (Unit {0}) ContributionError
  check_signed lease manifest evidence =
      manifest_bytes manifest >>= λ bytes. check_evidence lease bytes evidence

  -- `verify` up to the replay store: the digest that is looked up there.
  unfoldable pub check_contribution :
      EnrolmentStatement → AttestedContribution → ℕ → Result ℕ ContributionError
  unfolding check_total check_payloads check_signed
  check_contribution lease contribution now =
      let manifest = contribution.manifest in
      require
        (not (
          ltb now lease.valid_from
          || leb lease.valid_until now
          || ltb manifest.round lease.valid_from
          || leb lease.valid_until manifest.round))
        lease_expired
      >> require
          (manifest.lease_id == lease.lease_id
            && manifest.config_hash == lease.config_hash
            && manifest.protocol == lease.protocol
            && manifest.subnet == lease.subnet)
          context_mismatch
      >> require
          (eqb (length contribution.payloads) (length manifest.payloads)
            && leb (length contribution.payloads) max_payloads)
          payload_mismatch
      >> check_total contribution.payloads
      >> check_payloads contribution.payloads manifest.payloads
      >> check_signed lease manifest contribution.evidence
      >> manifest_digest prim manifest

  -- The verified contribution is the contribution itself, so its replay decision is returned.
  unfoldable pub verify :
      ReplaySnapshot
      → EnrolmentStatement
      → AttestedContribution
      → ℕ
      → ReplaySnapshot × Result ReplayDecision ContributionError
  unfolding check_contribution accept
  verify held lease contribution now = elim (check_contribution lease contribution now) [
    | err e ↦ (held, err e)
    | ok digest ↦ accept held lease.lease_id contribution.manifest.sequence digest
  ]

-- The test for a repeated destination.
unfoldable pub no_repeats :
    List PayloadDigest → List (ContributionRecipient × ℕ) → Result (Unit {0}) ContributionError
no_repeats [] seen = ok tt
no_repeats (d ∷ ds) seen =
    let target : ContributionRecipient × ℕ = (d.recipient, d.kind) in
    require (not (contains seen target)) duplicate_destination >> no_repeats ds (target ∷ seen)

unfoldable pub freeze_manifest :
    Primitives
    → EnrolmentStatement
    → ℕ
    → ℕ
    → ℕ
    → Option ℕ
    → List ContributionPayload
    → Result (ContributionManifest × List ContributionPayload) ContributionError
unfolding no_repeats
freeze_manifest prim lease round phase sequence origin payloads =
    collect (payload_digest prim) payloads >>= λ digests.
    no_repeats digests []
    >> (let manifest : ContributionManifest = record {
      lease_id = lease.lease_id;
      config_hash = lease.config_hash;
      protocol = lease.protocol;
      subnet = lease.subnet;
      round = round;
      phase = phase;
      sequence = sequence;
      origin = origin;
      payloads = digests;
    } in
        manifest_bytes manifest >>= λ bytes. ok (manifest, payloads))
