-- ===== src/Config/Attestation.antt =====
-- The attestation policy of config.rs with its equality. A policy compares its images on the two
-- measurement halves and the firmware.
use native.Mathlib.Decide.{ℕ_discrete}
use anymone.Base.{ℕ, ◌≡◌, Bool, true, Option, List, map, ◌&&◌, arith}
use anymone.Base.Equality.{Eq, ◌==◌, nat_eq, pair_eq, list_eq, option_eq, of_discrete, beq_refl}

pub record FirmwareRegisters : Type 0 where
  pub mrtd : List ℕ
  pub rtmr0 : List ℕ

pub record TdxImage : Type 0 where
  pub azure : ℕ
  pub dcap : ℕ
  pub firmware : Option FirmwareRegisters

pub record PlayIntegrityPolicy : Type 0 where
  pub decryption_key : ℕ
  pub verification_key : List ℕ
  pub package_name : List ℕ
  pub certificate_digests : List ℕ
  pub require_strong_integrity : Bool
  pub max_token_age_ms : ℕ

pub record AndroidKeyPolicy : Type 0 where
  pub package_name : List ℕ
  pub certificate_digests : List ℕ
  pub require_strongbox : Bool
  pub root_ca_der : List ℕ

pub record AppAttestPolicy : Type 0 where
  pub team_id : List ℕ
  pub bundle_id : List ℕ
  pub production : Bool
  pub root_ca_der : List ℕ

pub record AttestationPolicy : Type 0 where
  pub tdx_images : List TdxImage
  pub validity_rounds : ℕ
  pub play_integrity : Option PlayIntegrityPolicy
  pub app_attest : Option AppAttestPolicy
  pub android_key : Option AndroidKeyPolicy

FirmwareRegisters-discrete : Discrete FirmwareRegisters
FirmwareRegisters-discrete = hlevel ℕ_discrete

PlayIntegrityPolicy-discrete : Discrete PlayIntegrityPolicy
PlayIntegrityPolicy-discrete = hlevel ℕ_discrete

AndroidKeyPolicy-discrete : Discrete AndroidKeyPolicy
AndroidKeyPolicy-discrete = hlevel ℕ_discrete

AppAttestPolicy-discrete : Discrete AppAttestPolicy
AppAttestPolicy-discrete = hlevel ℕ_discrete

instance abbrev firmware_eq : Eq FirmwareRegisters
firmware_eq = of_discrete FirmwareRegisters-discrete

instance abbrev play_eq : Eq PlayIntegrityPolicy
play_eq = of_discrete PlayIntegrityPolicy-discrete

instance abbrev android_eq : Eq AndroidKeyPolicy
android_eq = of_discrete AndroidKeyPolicy-discrete

instance abbrev app_attest_eq : Eq AppAttestPolicy
app_attest_eq = of_discrete AppAttestPolicy-discrete

-- What two images are compared on.
abbrev compared : TdxImage → ℕ × (ℕ × Option FirmwareRegisters)
compared i = (i.azure, (i.dcap, i.firmware))

-- `impl PartialEq for AttestationPolicy`
unfoldable pub policy_beq : AttestationPolicy → AttestationPolicy → Bool
policy_beq p q =
    p.validity_rounds == q.validity_rounds
    && (p.play_integrity == q.play_integrity
        && (p.app_attest == q.app_attest
            && (p.android_key == q.android_key
                && (map compared p.tdx_images == map compared q.tdx_images))))

pub policy_beq_refl : (p : AttestationPolicy) → policy_beq p p ≡ true
unfolding policy_beq
policy_beq_refl p =
    rw
      (
        beq_refl p.play_integrity,
        beq_refl p.app_attest,
        beq_refl p.android_key,
        beq_refl (map compared p.tdx_images),
      )
      (ground arith)
