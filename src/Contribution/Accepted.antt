-- ===== src/Contribution/Accepted.antt =====
-- What the verifier of contributions guarantees of those that it accepts.
use anymone.Base.{ℕ, ◌≤◌, ◌<◌, ◌≡◌, refl, sym, ap, ◌∙◌, true, List, length, arith, eqb_iff}
use anymone.Base.Equality.{nat_eq, list_eq, ◌==◌}
use anymone.Base.Sets.{contains}
use anymone.Base.Results.{Result, ok, err, require, collect, >>=-eq-ok, require-eq-ok}
use anymone.Contribution.{
  protocol_id_eq, digest_eq, RemoteSessionPolicy, EnrolmentStatement, ContributionManifest,
  PayloadDigest, ContributionPayload, ContributionEvidence, dev_ed25519, app_attest_assertion,
  android_p256_signature, payload_mismatch, AttestedContribution, ContributionError, Primitives,
  max_payloads, manifest_bytes, payload_digest,
}
use anymone.Contribution.Verifier.{
  ReplayDecision, ReplaySnapshot, check_evidence, check_payloads, check_signed, check_contribution,
  verify,
}

module _ (prim : Primitives) (policy : RemoteSessionPolicy) where
  -- The contribution's round and the verifier's lie in the lease; its context is the lease's; its
  -- payloads are the ones of the manifest; and the lease's key, a developer key of the policy,
  -- signed the manifest.
  pub record IsAuthorised (lease : EnrolmentStatement) (x : AttestedContribution) (now : ℕ)
      : Type 0 where
    pub now_from : lease.valid_from ≤ now
    pub now_until : now < lease.valid_until
    pub round_from : lease.valid_from ≤ x.manifest.round
    pub round_until : x.manifest.round < lease.valid_until
    pub same_lease : x.manifest.lease_id ≡ lease.lease_id
    pub same_config : x.manifest.config_hash ≡ lease.config_hash
    pub same_protocol : x.manifest.protocol ≡ lease.protocol
    pub same_subnet : x.manifest.subnet ≡ lease.subnet
    pub payloads_signed : collect (payload_digest prim) x.payloads ≡ ok x.manifest.payloads
    pub few_payloads : length x.payloads ≤ max_payloads
    pub signature : List ℕ
    pub evidence_is : x.evidence ≡ dev_ed25519 lease.platform_key signature
    pub developer_allowed : policy.allow_developer ≡ true
    pub key_listed : contains policy.developer_keys lease.platform_key ≡ true
    pub bytes : List ℕ
    pub bytes_are : manifest_bytes x.manifest ≡ ok bytes
    pub verifies : prim.verify lease.platform_key bytes signature ≡ true

  signed_payloads :
      (payloads : List ContributionPayload) (expected : List PayloadDigest)
      → check_payloads prim policy payloads expected ≡ ok tt
      → collect (payload_digest prim) payloads ≡ ok expected
  unfolding check_payloads
  signed_payloads payloads expected h =
      let (actual, e, r) =
        >>=-eq-ok (collect (payload_digest prim) payloads)
          (λ a. require (a == expected) payload_mismatch) h in
      e
      ∙ ap ok (
          (list_eq.beq_iff actual expected).0
            (require-eq-ok (actual == expected) payload_mismatch r))

  abbrev Signed : EnrolmentStatement → ContributionManifest → ContributionEvidence → Type 0
  Signed lease m evidence =
      (signature bytes : List ℕ) × (evidence ≡ dev_ed25519 lease.platform_key signature)
      × (policy.allow_developer ≡ true)
      × (contains policy.developer_keys lease.platform_key ≡ true)
      × (manifest_bytes m ≡ ok bytes)
      × (prim.verify lease.platform_key bytes signature ≡ true)

  evidence_of :
      (lease : EnrolmentStatement) (m : ContributionManifest) (evidence : ContributionEvidence)
      → (bytes : List ℕ) → manifest_bytes m ≡ ok bytes
      → check_evidence prim policy lease bytes evidence ≡ ok tt
      → Signed lease m evidence
  evidence_of lease m (dev_ed25519 key signature) bytes e h =
      let same = (eqb_iff key lease.platform_key).0 (ground (arith, h)) in
      (
        signature,
        bytes,
        ap (λ k. dev_ed25519 k signature) same,
        ground (arith, h),
        ap (contains policy.developer_keys) (sym same) ∙ ground (arith, h),
        e,
        ap (λ k. prim.verify k bytes signature) (sym same) ∙ ground (arith, h),
      )
  evidence_of lease m (app_attest_assertion a) bytes e h = cc
  evidence_of lease m (android_p256_signature a) bytes e h = cc

  signed :
      (lease : EnrolmentStatement) (m : ContributionManifest) (evidence : ContributionEvidence)
      → check_signed prim policy lease m evidence ≡ ok tt
      → Signed lease m evidence
  unfolding check_signed
  signed lease m evidence h =
      let (bytes, e, r) =
        >>=-eq-ok (manifest_bytes m) (λ b. check_evidence prim policy lease b evidence) h in
      evidence_of lease m evidence bytes e r

  checked :
      (lease : EnrolmentStatement) (x : AttestedContribution) (now digest : ℕ)
      → check_contribution prim policy lease x now ≡ ok digest
      → IsAuthorised lease x now
  unfolding check_contribution
  checked lease x now digest h =
      let (signature, bytes, evidence, allowed, listed, e, good) =
        signed lease x.manifest x.evidence (ground (arith, h)) in
      record {
        now_from = ground (arith, h);
        now_until = ground (arith, h);
        round_from = ground (arith, h);
        round_until = ground (arith, h);
        same_lease = ground (arith, h);
        same_config = ground (arith, h);
        same_protocol =
            (protocol_id_eq.beq_iff x.manifest.protocol lease.protocol).0 (ground (arith, h));
        same_subnet = ground (arith, h);
        payloads_signed = signed_payloads x.payloads x.manifest.payloads (ground (arith, h));
        few_payloads = ground (arith, h);
        signature = signature;
        evidence_is = evidence;
        developer_allowed = allowed;
        key_listed = listed;
        bytes = bytes;
        bytes_are = e;
        verifies = good;
      }

  -- A contribution that the verifier accepts, as fresh or as a duplicate, is authorised by its
  -- lease: it has the lease's context, both rounds lie in the lease, its payloads are those of the
  -- manifest, and a listed developer key, the lease's own, signed the manifest.
  pub verify-IsAuthorised :
      (held : ReplaySnapshot) (lease : EnrolmentStatement) (x : AttestedContribution) (now : ℕ)
      → (r : ReplayDecision) → (verify prim policy held lease x now).1 ≡ ok r
      → IsAuthorised lease x now
  unfolding verify
  verify-IsAuthorised held lease x now r h = go (check_contribution prim policy lease x now) refl
    where
      go :
          (o : Result ℕ ContributionError)
          → check_contribution prim policy lease x now ≡ o
          → IsAuthorised lease x now
      go (ok digest) e = checked lease x now digest e
      go (err e) k = ground (arith, h, k)
