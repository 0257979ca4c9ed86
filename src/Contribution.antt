-- ===== src/Contribution.antt =====
-- crates/anymone-core/src/contribution.rs: manifests of attested contributions, the replay store and
-- the verifier. Ed25519 and SHA-256 are the fields of `Primitives`. The mutex around the store and its
-- bincode form are left out, and the store is passed on as state.
pub mod Verifier
pub mod Replay
pub mod Accepted
use native.Mathlib.Decide.{ℕ_discrete}
use anymone.Base.{
  ℕ, ◌*◌, ◌^◌, Bool, true, false, ◌&&◌, ◌||◌, not, Option, none, some, List, [], ◌∷◌, ◌++◌, length,
  ltb, leb, codes, be_bytes, if◌then◌else◌,
}
use anymone.Base.Equality.{Eq, of_discrete}
use anymone.Base.Results.{Result, ok, err, ◌>>=◌, ◌>>◌, require}

pub data ProtocolId : Type 0 where
  noop panetiere scheduled_panetiere adcnet scheduled_adcnet : ProtocolId

unfoldable pub ProtocolId-discrete : Discrete ProtocolId
ProtocolId-discrete = hlevel

instance abbrev pub protocol_id_eq : Eq ProtocolId
protocol_id_eq = of_discrete ProtocolId-discrete

-- `self.protocol as u8`
abbrev protocol_byte : ProtocolId → ℕ
protocol_byte noop = 0
protocol_byte panetiere = 1
protocol_byte scheduled_panetiere = 2
protocol_byte adcnet = 3
protocol_byte scheduled_adcnet = 4

pub record RemoteSessionPolicy : Type 0 where
  pub enabled : Bool
  pub allow_developer : Bool
  pub developer_keys : List ℕ
  pub allowed_protocols : List ProtocolId
  pub max_lease_rounds : ℕ

pub record EnrolmentStatement : Type 0 where
  pub lease_id : ℕ
  pub config_hash : ℕ
  pub subnet : ℕ
  pub protocol : ProtocolId
  pub participant : ℕ
  pub forwarder : ℕ
  pub platform_key : ℕ
  pub process_nonce : ℕ
  pub valid_from : ℕ
  pub valid_until : ℕ

unfoldable pub enrolment_bytes : EnrolmentStatement → List ℕ
enrolment_bytes s =
    codes "anymone/session-enrolment/v1"
    ++ (be_bytes 32 s.lease_id
        ++ (be_bytes 32 s.config_hash
            ++ (be_bytes 4 s.subnet
                ++ (protocol_byte s.protocol
                    ∷ (be_bytes 32 s.participant
                        ++ (be_bytes 32 s.forwarder
                            ++ (be_bytes 32 s.platform_key
                                ++ (be_bytes 32 s.process_nonce
                                    ++ (be_bytes 8 s.valid_from ++ be_bytes 8 s.valid_until)))))))))

pub data SessionEnrolment : Type 0 where
  developer : (statement : EnrolmentStatement) (signature : List ℕ) → SessionEnrolment
  app_attest : (statement : EnrolmentStatement) (evidence : List ℕ) → SessionEnrolment
  android :
      (statement : EnrolmentStatement) (certificate_chain : List (List ℕ))
      (play_token possession_signature : List ℕ)
      → SessionEnrolment

abbrev pub statement_of : SessionEnrolment → EnrolmentStatement
statement_of (developer s sig) = s
statement_of (app_attest s e) = s
statement_of (android s chain token sig) = s

pub data ContributionRecipient : Type 0 where
  broadcast : ContributionRecipient
  relay : ℕ → ContributionRecipient
  peer : ℕ → ContributionRecipient

unfoldable pub ContributionRecipient-discrete : Discrete ContributionRecipient
ContributionRecipient-discrete = hlevel ℕ_discrete

instance abbrev pub recipient_eq : Eq ContributionRecipient
recipient_eq = of_discrete ContributionRecipient-discrete

pub record PayloadDigest : Type 0 where
  pub recipient : ContributionRecipient
  pub kind : ℕ
  pub length : ℕ
  pub hash : ℕ

unfoldable pub PayloadDigest-discrete : Discrete PayloadDigest
PayloadDigest-discrete = hlevel (ContributionRecipient-discrete, ℕ_discrete)

instance abbrev pub digest_eq : Eq PayloadDigest
digest_eq = of_discrete PayloadDigest-discrete

pub record ContributionManifest : Type 0 where
  pub lease_id : ℕ
  pub config_hash : ℕ
  pub protocol : ProtocolId
  pub subnet : ℕ
  pub round : ℕ
  pub phase : ℕ
  pub sequence : ℕ
  pub origin : Option ℕ
  pub payloads : List PayloadDigest

pub record ContributionPayload : Type 0 where
  pub recipient : ContributionRecipient
  pub kind : ℕ
  pub bytes : List ℕ

pub data ContributionEvidence : Type 0 where
  dev_ed25519 : (key : ℕ) (signature : List ℕ) → ContributionEvidence
  app_attest_assertion : List ℕ → ContributionEvidence
  android_p256_signature : List ℕ → ContributionEvidence

pub record AttestedContribution : Type 0 where
  pub manifest : ContributionManifest
  pub evidence : ContributionEvidence
  pub payloads : List ContributionPayload

pub data ContributionError : Type 0 where
  remote_sessions_disabled developer_evidence_rejected unsupported_evidence protocol_not_allowed
        lease_invalid lease_expired context_mismatch wrong_platform_key bad_signature
        payload_mismatch payload_too_large duplicate_destination replay_conflict
        out_of_order_sequence :
      ContributionError
  too_many_payloads : ℕ → ContributionError

pub record Primitives : Type 0 where
  pub verify : ℕ → List ℕ → List ℕ → Bool
  pub sha256 : List ℕ → ℕ

abbrev pub max_payloads : ℕ
max_payloads = 64

abbrev pub max_payload_bytes : ℕ
max_payload_bytes = 16 * 1024 * 1024

abbrev recipient_bytes : ContributionRecipient → List ℕ
recipient_bytes broadcast = 0 ∷ []
recipient_bytes (relay pk) = 1 ∷ be_bytes 32 pk
recipient_bytes (peer pk) = 2 ∷ be_bytes 32 pk

abbrev origin_bytes : Option ℕ → List ℕ
origin_bytes (some origin) = 1 ∷ be_bytes 32 origin
origin_bytes none = 0 ∷ []

unfoldable pub payloads_bytes : List PayloadDigest → List ℕ
payloads_bytes [] = []
payloads_bytes (p ∷ ps) =
    recipient_bytes p.recipient
    ++ (be_bytes 2 p.kind ++ (be_bytes 4 p.length ++ (be_bytes 32 p.hash ++ payloads_bytes ps)))

unfoldable pub manifest_bytes : ContributionManifest → Result (List ℕ) ContributionError
unfolding payloads_bytes
manifest_bytes m =
    if ltb max_payloads (length m.payloads)
    then err (too_many_payloads (length m.payloads))
    else ok (
        codes "anymone/contribution-manifest/v1"
        ++ (be_bytes 32 m.lease_id
            ++ (be_bytes 32 m.config_hash
                ++ (protocol_byte m.protocol
                    ∷ (be_bytes 4 m.subnet
                        ++ (be_bytes 8 m.round
                            ++ (be_bytes 2 m.phase
                                ++ (be_bytes 8 m.sequence
                                    ++ (origin_bytes m.origin
                                        ++ (be_bytes 2 (length m.payloads)
                                            ++ payloads_bytes m.payloads))))))))))

module _ (prim : Primitives) where
  unfoldable pub manifest_digest : ContributionManifest → Result ℕ ContributionError
  unfolding manifest_bytes
  manifest_digest m = manifest_bytes m >>= λ bytes. ok (prim.sha256 bytes)

  unfoldable pub payload_digest : ContributionPayload → Result PayloadDigest ContributionError
  payload_digest p =
      require (ltb (length p.bytes) (2 ^ 32)) payload_too_large
      >> ok (record {
        recipient = p.recipient;
        kind = p.kind;
        length = length p.bytes;
        hash = prim.sha256 p.bytes;
      })
