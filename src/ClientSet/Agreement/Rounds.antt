-- ===== src/ClientSet/Agreement/Rounds.antt =====
-- What holds of the honest lanes and of their mail in every relay round.
use anymone.Base.{
  ℕ, zero, suc, ◌+◌, ◌≤◌, ◌≡◌, sym, ◌∙◌, subst, inl, inr, true, List, [], ◌++◌, length, get_elem?,
  some, arith, All, All-imp, All-both, append-All, partition-All, Bool-cases,
}
use anymone.Base.Equality.{nat_eq}
use anymone.Base.Sets.{contains}
use anymone.ClientSet.{Crates, Fragment, SetServer, Relay, item_hash, relay_signing_bytes}
use anymone.ClientSet.Relaying.{is_batch, absorb, chain_len, chain_signers}
use anymone.ClientSet.Keeps.{Keeps, absorb_each-Keeps}
use anymone.ClientSet.Chains.Extends.{IsForeign, absorb_extends}
use anymone.ClientSet.Agreement.{world, opened}
use anymone.ClientSet.Agreement.Accepting.{signers_of, is_verified, absorb_each-verified}
use anymone.ClientSet.Agreement.Vouching.{Vouched, absorb_each-Vouched}
use anymone.ClientSet.Agreement.Collecting.{collected-All}
use anymone.ClientSet.Agreement.Originating.{SignsFor, Ready}
use anymone.ClientSet.Agreement.Opening.{opened-SameKeys, opened-Ready, opened-Vouched}

module _ {P Q O : Type 0} (c : Crates P Q O) (sid pks honest : List ℕ) (start : ℕ → SetServer P Q)
    (fragments : ℕ → List (Fragment P)) (adversary : ℕ → ℕ → List (Relay P)) where
  abbrev pub lane : ℕ → ℕ → SetServer P Q
  lane r i = (world c sid honest start fragments adversary r).0 i

  abbrev pub mail : ℕ → List (Relay P)
  mail r = (world c sid honest start fragments adversary r).1

  abbrev pub incoming : ℕ → ℕ → List (Relay P)
  incoming r i = mail r ++ adversary r i

  -- The honest lanes have their own numbers, one list of keys, and signatures that verify under it.
  abbrev pub IsSetUp : Type 0
  IsSetUp =
      (i : ℕ)
      → contains honest i ≡ true
      → ((start i).server_pks ≡ pks) × ((start i).server_id ≡ i) × SignsFor c sid pks (start i)

  -- An honest lane has accepted an item by the end of a round.
  abbrev pub HasAccepted : ℕ → ℕ → ℕ → Type 0
  HasAccepted r x h = contains honest x ≡ true → contains (lane r x).accepted h ≡ true

  -- No signature of an honest lane is forged: the adversary shows one on an item only if the lane
  -- had accepted the item by the round before.
  abbrev pub IsUnforged : Type 0
  IsUnforged =
      (r i : ℕ) → contains honest i ≡ true → All (Vouched c pks sid (HasAccepted r)) (adversary r i)

  pub absorb-Keeps :
      (s : SetServer P Q) (round : ℕ) (rs : List (Relay P)) → Keeps s (absorb c s sid round rs).0
  unfolding absorb
  absorb-Keeps s round rs = absorb_each-Keeps c _ s sid round

  pub lane_stays :
      (r x h : ℕ)
      → contains (lane r x).accepted h ≡ true
      → contains (lane (suc r) x).accepted h ≡ true
  lane_stays r x h now = (absorb-Keeps (lane r x) (suc r) (incoming r x)).3 h now

  module _ (set_up : IsSetUp) where
    pub lane_keys :
        (r i : ℕ)
        → contains honest i ≡ true
        → ((lane r i).server_pks ≡ pks) × ((lane r i).server_id ≡ i) × SignsFor c sid pks (lane r i)
    lane_keys zero i h =
        let (listed, own, signs) = set_up i h in
        let (keys, id, key, mono) = opened-SameKeys c sid (start i) (fragments i) in
        (keys ∙ listed, id ∙ own, rw (id, key) signs)
    lane_keys (suc r) i h =
        let (listed, own, signs) = lane_keys r i h in
        let (keys, id, key, mono, held, lanes, rows) =
          absorb-Keeps (lane r i) (suc r) (incoming r i) in
        (keys ∙ listed, id ∙ own, rw (id, key) signs)

    module _ (unforged : IsUnforged) where
      absorb-Vouched :
          (B : ℕ → ℕ → Type 0) (rs : List (Relay P)) (s : SetServer P Q) (round : ℕ)
          → ((h : ℕ) → contains (absorb c s sid round rs).0.accepted h ≡ true → B s.server_id h)
          → All (Vouched c pks sid B) rs
          → All (Vouched c pks sid B) (absorb c s sid round rs).1
      unfolding absorb
      absorb-Vouched B rs s round own before =
          absorb_each-Vouched c pks sid B _ s round own
            (partition-All (Vouched c pks sid B) is_batch rs before)

      -- Every honest lane whose signature stands on a relay in the mail has accepted its item.
      pub mail-Vouched : (r : ℕ) → All (Vouched c pks sid (HasAccepted r)) (mail r)
      mail-Vouched zero =
          collected-All (Vouched c pks sid (HasAccepted 0))
            (λ i. opened c sid (start i) (fragments i)) honest
            (λ i h.
              opened-Vouched c sid pks (HasAccepted 0) (start i) (fragments i)
                (λ hash k. subst (λ x. HasAccepted 0 x hash) (sym (set_up i h).1) (λ hon. k)))
      mail-Vouched (suc r) =
          collected-All (Vouched c pks sid (HasAccepted (suc r)))
            (λ i. absorb c (lane r i) sid (suc r) (incoming r i)) honest
            (λ i h.
              absorb-Vouched (HasAccepted (suc r)) (incoming r i) (lane r i) (suc r)
                (λ hash k.
                  subst (λ x. HasAccepted (suc r) x hash) (sym (lane_keys r i h).1) (λ hon. k))
                (All-imp (Vouched c pks sid (HasAccepted r))
                  (Vouched c pks sid (HasAccepted (suc r))) (incoming r i)
                  (λ relay v x k hon. lane_stays r x _ (v x k hon))
                  (append-All (Vouched c pks sid (HasAccepted r)) (mail r) _ (mail-Vouched r)
                    (unforged r i h))))

      pub incoming-Vouched :
          (r i : ℕ)
          → contains honest i ≡ true
          → All (Vouched c pks sid (HasAccepted r)) (incoming r i)
      incoming-Vouched r i h =
          append-All (Vouched c pks sid (HasAccepted r)) (mail r) _ (mail-Vouched r)
            (unforged r i h)

      incoming-IsForeign :
          (r i : ℕ) → contains honest i ≡ true → All (IsForeign c (lane r i) sid) (incoming r i)
      incoming-IsForeign r i h =
          let (listed, own, signs) = lane_keys r i h in
          All-imp (Vouched c pks sid (HasAccepted r)) (IsForeign c (lane r i) sid) (incoming r i)
            (λ relay v.
              elim (Bool-cases (
                contains
                  (chain_signers c (lane r i).server_pks
                    (relay_signing_bytes sid (item_hash c sid relay.item)) relay.chain [])
                  (lane r i).server_id)) [
                    | inr absent ↦ inr absent
                    | inl signed ↦ inl (
                        v i
                          (subst (λ x. contains (signers_of c pks sid relay) x ≡ true) own
                            (subst
                              (λ keys.
                                contains (signers_of c keys sid relay) (lane r i).server_id ≡ true)
                              listed signed))
                          h)
                  ])
            (incoming-Vouched r i h)

      absorb-Ready :
          (r i : ℕ)
          → contains honest i ≡ true
          → All (Ready c sid pks (suc (suc r))) (absorb c (lane r i) sid (suc r) (incoming r i)).1
      unfolding absorb chain_len
      absorb-Ready r i h =
          let (listed, own, (pk, at, valid)) = lane_keys r i h in
          let outs : List (Relay P) = (absorb c (lane r i) sid (suc r) (incoming r i)).1 in
          subst (λ keys. All (Ready c sid keys (suc (suc r))) outs) listed
            (All-both (λ out. is_verified c (lane r i).server_pks sid out.item ≡ true)
              (λ out. suc (suc r) ≤ length (signers_of c (lane r i).server_pks sid out)) outs
              (absorb_each-verified c _ (lane r i) sid (suc r))
              (All-imp (λ out. suc r + 1 ≤ length (signers_of c (lane r i).server_pks sid out))
                (λ out. suc (suc r) ≤ length (signers_of c (lane r i).server_pks sid out)) outs
                (λ out long. omega (arith, long))
                (absorb_extends c (lane r i) sid (suc r) (incoming r i) pk
                  (subst (λ keys. get_elem? keys (lane r i).server_id ≡ some pk) (sym listed) at)
                  valid (incoming-IsForeign r i h))))

      -- The mail of a round is verified and has signers enough for the next.
      pub mail-Ready : (r : ℕ) → All (Ready c sid pks (suc r)) (mail r)
      mail-Ready zero =
          collected-All (Ready c sid pks 1) (λ i. opened c sid (start i) (fragments i)) honest
            (λ i h. opened-Ready c sid pks (start i) (fragments i) (set_up i h).2)
      mail-Ready (suc r) =
          collected-All (Ready c sid pks (suc (suc r)))
            (λ i. absorb c (lane r i) sid (suc r) (incoming r i)) honest (λ i h. absorb-Ready r i h)
