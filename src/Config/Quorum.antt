-- ===== src/Config/Quorum.antt =====
-- What the multisig test means: a quorum of distinct committee members signed the body.
use anymone.Base.{
  ℕ, ◌^◌, ◌≤◌, ◌<◌, ◌≡◌, ◌↔◌, Bool, true, ◌&&◌, ◌||◌, List, [], ◌∷◌, length, any_of, arith, eqb_iff,
}
use anymone.Base.Equality.{nat_eq, ◌==◌}
use anymone.Base.Sets.{contains, Distinct, contains-append, append-Distinct, length-le_of_Distinct}
use anymone.Base.Results.{ok}
use anymone.Config.{Signature, Configuration}
use anymone.Config.Multisig.{Crypto, approve_bytes, next_seen, valid_signers, verify_multisig}

module _ (c : Crypto) where
  -- `key` has a signature over `msg` among `sigs` that verifies.
  abbrev pub has_signed : List ℕ → List Signature → ℕ → Bool
  has_signed msg sigs key = any_of (λ s. s.signer == key && c.verify s.signer msg s.bytes) sigs

  -- A list of `threshold` distinct committee members, each with a valid signature.
  pub record Quorum (cfg : Configuration) (committee : List ℕ) (threshold : ℕ) : Type 0 where
    pub signers : List ℕ
    pub distinct : Distinct signers
    pub enough : threshold ≤ length signers
    pub members : (key : ℕ) → contains signers key ≡ true → contains committee key ≡ true
    pub signed :
        (key : ℕ)
        → contains signers key ≡ true
        → has_signed (approve_bytes c cfg.body) cfg.signatures key ≡ true

  contains-next_seen :
      (committee msg seen : List ℕ) (s : Signature) (key : ℕ)
      → contains (next_seen c committee msg seen s) key ≡ (
          contains seen key
          || (contains committee key && (s.signer == key && c.verify s.signer msg s.bytes)))
  unfolding next_seen
  contains-next_seen committee msg seen s key =
      ground (arith, contains-append seen (s.signer ∷ []) key, eqb_iff s.signer key)

  contains-valid_signers :
      (committee msg seen : List ℕ) (sigs : List Signature) (key : ℕ)
      → contains (valid_signers c committee msg seen sigs) key
        ≡ (contains seen key || (contains committee key && has_signed msg sigs key))
  unfolding valid_signers
  contains-valid_signers committee msg seen [] key = ground arith
  contains-valid_signers committee msg seen (s ∷ sigs) key = ground (
    arith,
    contains-valid_signers committee msg (next_seen c committee msg seen s) sigs key,
    contains-next_seen committee msg seen s key,
  )

  next_seen-Distinct :
      (committee msg seen : List ℕ) (s : Signature)
      → Distinct seen
      → Distinct (next_seen c committee msg seen s)
  unfolding next_seen
  next_seen-Distinct committee msg seen s d = ground (arith, append-Distinct seen s.signer)

  valid_signers-Distinct :
      (committee msg seen : List ℕ) (sigs : List Signature)
      → Distinct seen
      → Distinct (valid_signers c committee msg seen sigs)
  unfolding valid_signers
  valid_signers-Distinct committee msg seen [] d = d
  valid_signers-Distinct committee msg seen (s ∷ sigs) d =
      valid_signers-Distinct committee msg (next_seen c committee msg seen s) sigs
        (next_seen-Distinct committee msg seen s d)

  accepted_signers : Configuration → List ℕ → List ℕ
  accepted_signers cfg committee =
      valid_signers c committee (approve_bytes c cfg.body) [] cfg.signatures

  length-accepted_signers :
      (cfg : Configuration) (committee : List ℕ)
      → length (accepted_signers cfg committee) ≤ length committee
  unfolding accepted_signers
  length-accepted_signers cfg committee =
      length-le_of_Distinct _ committee
        (valid_signers-Distinct committee (approve_bytes c cfg.body) [] cfg.signatures tt)
        (λ key h. ground (
          arith,
          contains-valid_signers committee (approve_bytes c cfg.body) [] cfg.signatures key,
        ))

  -- The multisig test passes if and only if the threshold lies between 1 and the committee's size
  -- and some quorum of distinct committee members has signed the body's approval bytes. The
  -- committee has fewer than 2^32 members, so the counts do not wrap.
  pub verify_multisig-eq-ok_iff :
      (cfg : Configuration) (committee : List ℕ) (threshold : ℕ)
      → length committee < 2 ^ 32
      → (verify_multisig c cfg committee threshold ≡ ok tt)
        ↔ ((0 < threshold) × (threshold ≤ length committee) × Quorum cfg committee threshold)
  unfolding verify_multisig accepted_signers
  verify_multisig-eq-ok_iff cfg committee threshold small = (
    λ h. (
      ground arith,
      ground arith,
      record {
        signers = accepted_signers cfg committee;
        distinct = valid_signers-Distinct committee (approve_bytes c cfg.body) [] cfg.signatures tt;
        enough = ground (arith, length-accepted_signers cfg committee);
        members = λ key k. ground (
          arith,
          contains-valid_signers committee (approve_bytes c cfg.body) [] cfg.signatures key,
        );
        signed = λ key k. ground (
          arith,
          contains-valid_signers committee (approve_bytes c cfg.body) [] cfg.signatures key,
        );
      },
    ),
    λ h.
        let q = h.2 in
        let fits =
          length-le_of_Distinct q.signers (accepted_signers cfg committee) q.distinct (λ key k.
            ground (
              arith,
              contains-valid_signers committee (approve_bytes c cfg.body) [] cfg.signatures key,
              q.members key k,
              q.signed key k,
            )) in
        ground (arith, length-accepted_signers cfg committee, fits, q.enough, h.0, h.1),
  )
