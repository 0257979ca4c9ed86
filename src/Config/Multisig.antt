-- ===== src/Config/Multisig.antt =====
-- The signing bytes and the multisig test of config.rs. Ed25519 (`Pubkey::verify`) and the
-- deterministic bincode encoding of a body are the fields of `Crypto`.
use anymone.Base.{
  ℕ, ◌%◌, ◌^◌, ◌≢◌, Bool, ◌||◌, List, [], ◌∷◌, ◌++◌, length, ltb, eqb, not, if◌then◌else◌, codes,
  arith,
}
use anymone.Base.Equality.{nat_eq}
use anymone.Base.Sets.{contains}
use anymone.Base.Results.{Result, ok, err}
use anymone.Config.{Body, Signature, Configuration}

pub record Crypto : Type 0 where
  pub verify : ℕ → List ℕ → List ℕ → Bool
  pub canonical_bytes : Body → List ℕ

abbrev propose_tag : List ℕ
propose_tag = codes "anymone/config/propose"

abbrev approve_tag : List ℕ
approve_tag = codes "anymone/config/approve"

pub data ConfigError : Type 0 where
  bad_threshold : (threshold committee : ℕ) → ConfigError
  insufficient_signatures : (got need : ℕ) → ConfigError

module _ (c : Crypto) where
  unfoldable pub propose_bytes : Body → List ℕ
  propose_bytes body = propose_tag ++ c.canonical_bytes body

  unfoldable pub approve_bytes : Body → List ℕ
  approve_bytes body = approve_tag ++ c.canonical_bytes body

  -- One turn of the loop over the signatures: the three `continue`s, then the push.
  unfoldable pub next_seen : List ℕ → List ℕ → List ℕ → Signature → List ℕ
  next_seen committee msg seen sig =
      if not (contains committee sig.signer)
      then seen
      else if contains seen sig.signer
      then seen
      else if not (c.verify sig.signer msg sig.bytes)
      then seen
      else seen ++ sig.signer ∷ []

  unfoldable pub valid_signers : List ℕ → List ℕ → List ℕ → List Signature → List ℕ
  unfolding next_seen
  valid_signers committee msg seen [] = seen
  valid_signers committee msg seen (sig ∷ sigs) =
      valid_signers committee msg (next_seen committee msg seen sig) sigs

  unfoldable pub verify_multisig : Configuration → List ℕ → ℕ → Result (Unit {0}) ConfigError
  unfolding valid_signers approve_bytes
  verify_multisig cfg committee threshold =
      if eqb threshold 0 || ltb (length committee) threshold
      then err (bad_threshold threshold (length committee % 2 ^ 32))
      else let got = length (valid_signers committee (approve_bytes cfg.body) [] cfg.signatures) in
        if ltb (got % 2 ^ 32) threshold
        then err (insufficient_signatures (got % 2 ^ 32) threshold)
        else ok tt

  -- The bytes of a proposal are never the bytes of an approval, whatever the two bodies.
  pub propose_bytes-ne-approve_bytes :
      (proposed approved : Body) → propose_bytes proposed ≢ approve_bytes approved
  unfolding propose_bytes approve_bytes
  propose_bytes-ne-approve_bytes proposed approved e = ground arith
