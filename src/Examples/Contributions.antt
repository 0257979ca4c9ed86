-- ===== src/Examples/Contributions.antt =====
-- The theorems on contributions: a signature is the signer's key, a hash is a length.
use native.Mathlib.Decide.{ℕ_discrete}
use anymone.Base.{ℕ, ◌≡◌, refl, true, none, List, [], ◌∷◌, length, if◌then◌else◌}
use anymone.Base.Equality.{nat_eq, list_eq, ◌==◌}
use anymone.Base.Results.{ok, err}
use anymone.Contribution.{
  ProtocolId-discrete, PayloadDigest-discrete, ContributionRecipient-discrete, noop,
  RemoteSessionPolicy, EnrolmentStatement, broadcast, dev_ed25519, AttestedContribution, Primitives,
  replay_conflict, manifest_bytes, payloads_bytes, manifest_digest, payload_digest,
}
use anymone.Contribution.Verifier.{
  fresh, duplicate, accept, verify, check_total, check_payloads, check_signed, total_bytes,
  check_contribution,
}
use anymone.Contribution.Replay.{Submission, accept_all, empty_store, accept_binding}
use anymone.Contribution.Accepted.{IsAuthorised, verify-IsAuthorised}

abbrev prim : Primitives
prim = record { verify = λ key msg sig. sig == key ∷ []; sha256 = length }

abbrev policy : RemoteSessionPolicy
policy = record {
  enabled = true;
  allow_developer = true;
  developer_keys = 5 ∷ [];
  allowed_protocols = noop ∷ [];
  max_lease_rounds = 100;
}

abbrev lease : EnrolmentStatement
lease = record {
  lease_id = 1;
  config_hash = 2;
  subnet = 0;
  protocol = noop;
  participant = 3;
  forwarder = 4;
  platform_key = 5;
  process_nonce = 6;
  valid_from = 10;
  valid_until = 20;
}

abbrev contribution : AttestedContribution
contribution = record {
  manifest = record {
    lease_id = 1;
    config_hash = 2;
    protocol = noop;
    subnet = 0;
    round = 12;
    phase = 0;
    sequence = 7;
    origin = none;
    payloads = record { recipient = broadcast; kind = 1; length = 2; hash = 2 } ∷ [];
  };
  evidence = dev_ed25519 5 (5 ∷ []);
  payloads = record { recipient = broadcast; kind = 1; bytes = 8 ∷ 9 ∷ [] } ∷ [];
}

contribution_passes : (verify prim policy empty_store lease contribution 12).1 ≡ ok fresh
unfolding verify check_contribution check_total check_payloads check_signed accept payload_digest
    manifest_bytes manifest_digest total_bytes payloads_bytes ProtocolId-discrete
    PayloadDigest-discrete ContributionRecipient-discrete ℕ_discrete
contribution_passes = refl

verify-IsAuthorised_example : IsAuthorised prim policy lease contribution 12
verify-IsAuthorised_example =
    verify-IsAuthorised prim policy empty_store lease contribution 12 fresh contribution_passes

abbrev later : List Submission
later =
    record { lease = 1; sequence = 8; digest = 40 }
    ∷ record { lease = 1; sequence = 7; digest = 41 }
    ∷ record { lease = 2; sequence = 3; digest = 42 }
    ∷ []

abbrev first_digest : ℕ
first_digest = 30

abbrev other_digest : ℕ
other_digest = 31

accept_binding_example :
    accept (accept_all later (accept empty_store 1 7 first_digest).0) 1 7 other_digest ≡ (
      accept_all later (accept empty_store 1 7 first_digest).0,
      if first_digest == other_digest then ok duplicate else err replay_conflict,
    )
unfolding accept
accept_binding_example = accept_binding empty_store 1 7 first_digest fresh later other_digest refl
