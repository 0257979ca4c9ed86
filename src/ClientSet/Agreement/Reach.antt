-- ===== src/ClientSet/Agreement/Reach.antt =====
-- What one honest lane accepts, every honest lane accepts.
use anymone.Base.{
  ℕ, zero, suc, ◌+◌, ◌-◌, ◌≤◌, ◌≡◌, sym, ◌∙◌, subst, inl, inr, true, false, some, List, [], length,
  any_of, any_of-append, any_of-partition, any_of-All, get_elem?, arith, Bool-cases, bool_antisym,
}
use anymone.Base.Equality.{nat_eq, ◌==◌}
use anymone.Base.Sets.{contains, outside}
use anymone.ClientSet.{
  Crates, ProtocolParams, relay_rounds, Fragment, SetServer, Relay, item_hash, fragment_item_hash,
  relay_signing_bytes,
}
use anymone.ClientSet.Relaying.{is_batch, absorb}
use anymone.ClientSet.Chains.{chain_signers-Distinct, chain_signers-listed}
use anymone.ClientSet.Once.{hashes_of}
use anymone.ClientSet.Agreement.{world, opened}
use anymone.ClientSet.Agreement.Accepting.{
  signers_of, is_timely, is_sound, absorb_each-takes, absorb_each-new,
}
use anymone.ClientSet.Agreement.Vouching.{Vouched, sound_of}
use anymone.ClientSet.Agreement.Collecting.{collected-hash}
use anymone.ClientSet.Agreement.Opening.{opened-new}
use anymone.ClientSet.Agreement.Rounds.{
  lane, mail, incoming, IsSetUp, HasAccepted, IsUnforged, lane_stays, lane_keys, mail-Ready,
  incoming-Vouched,
}

module _ {P Q O : Type 0} (c : Crates P Q O) (sid pks honest : List ℕ) (start : ℕ → SetServer P Q)
    (fragments : ℕ → List (Fragment P)) (adversary : ℕ → ℕ → List (Relay P))
    (set_up : IsSetUp c sid pks honest start fragments adversary)
    (unforged : IsUnforged c sid pks honest start fragments adversary) where
  abbrev lane' : ℕ → ℕ → SetServer P Q
  lane' = lane c sid pks honest start fragments adversary

  abbrev mail' : ℕ → List (Relay P)
  mail' = mail c sid pks honest start fragments adversary

  abbrev incoming' : ℕ → ℕ → List (Relay P)
  incoming' = incoming c sid pks honest start fragments adversary

  -- An item that a lane accepts in a round comes with a timely relay, and goes into the mail.
  absorb-new :
      (s : SetServer P Q) (round h : ℕ) (rs : List (Relay P))
      → contains (absorb c s sid round rs).0.accepted h ≡ true
      → contains s.accepted h ≡ false
      → (any_of (is_timely c s.server_pks sid round h) rs ≡ true)
        × (contains (hashes_of c sid (absorb c s sid round rs).1) h ≡ true)
  unfolding absorb
  absorb-new s round h rs now old =
      let (timely, at) = absorb_each-new c _ s sid round h now old in
      (rw (← any_of-partition (is_timely c s.server_pks sid round h) is_batch rs) timely, at)

  absorb-takes :
      (s : SetServer P Q) (round h : ℕ) (rs : List (Relay P))
      → any_of (is_sound c s.server_pks sid round h) rs ≡ true
      → contains (absorb c s sid round rs).0.accepted h ≡ true
  unfolding absorb
  absorb-takes s round h rs sound =
      absorb_each-takes c _ s sid round h
        (any_of-partition (is_sound c s.server_pks sid round h) is_batch rs ∙ sound)

  -- An item of the mail that is no fragment is accepted by every honest lane in the next round.
  deliver :
      (r j h : ℕ)
      → contains honest j ≡ true
      → ((f : Fragment P) → (fragment_item_hash c sid f == h) ≡ false)
      → contains (hashes_of c sid (mail' r)) h ≡ true
      → contains (lane' (suc r) j).accepted h ≡ true
  deliver r j h own whole at =
      let sound =
        sound_of c pks sid (mail' r) (suc r) h whole
          (mail-Ready c sid pks honest start fragments adversary set_up unforged r) at in
      let all = any_of-append (is_sound c pks sid (suc r) h) (mail' r) (adversary r j) in
      absorb-takes (lane' r j) (suc r) h (incoming' r j) (
        subst (λ keys. any_of (is_sound c keys sid (suc r) h) (incoming' r j) ≡ true)
          (sym (lane_keys c sid pks honest start fragments adversary set_up r j own).0)
          (ground (arith, all, sound)))

  fresh-mailed :
      (r i h : ℕ)
      → contains honest i ≡ true
      → contains (lane' (suc r) i).accepted h ≡ true
      → contains (lane' r i).accepted h ≡ false
      → contains (hashes_of c sid (mail' (suc r))) h ≡ true
  fresh-mailed r i h own now old =
      collected-hash c sid (λ k. absorb c (lane' r k) sid (suc r) (incoming' r k)) honest i h own
        (absorb-new (lane' r i) (suc r) h (incoming' r i) now old).1

  -- One round after an honest lane accepted an item, every honest lane has.
  pub spread :
      (h : ℕ)
      → ((f : Fragment P) → (fragment_item_hash c sid f == h) ≡ false)
      → ((i : ℕ) → contains honest i ≡ true → contains (start i).accepted h ≡ false)
      → (r i j : ℕ) → contains honest i ≡ true
      → contains honest j ≡ true
      → contains (lane' r i).accepted h ≡ true
      → contains (lane' (suc r) j).accepted h ≡ true
  spread h whole unseen zero i j hi hj now = deliver 0 j h hj whole (
      collected-hash c sid (λ k. opened c sid (start k) (fragments k)) honest i h hi
        (opened-new c sid (start i) (fragments i) h whole now (unseen i hi)))
  spread h whole unseen (suc r) i j hi hj now =
      elim (Bool-cases (contains (lane' r i).accepted h)) [
        | inl before ↦
            lane_stays c sid pks honest start fragments adversary (suc r) j h
              (spread h whole unseen r i j hi hj before)
        | inr fresh ↦ deliver (suc r) j h hj whole (fresh-mailed r i h hi now fresh)
      ]

  -- With more signers than there are faulty lanes, an honest lane accepted the item before.
  honest_signer :
      (faulty : List ℕ) (r i h : ℕ)
      → ((x pk : ℕ)
          → get_elem? pks x ≡ some pk
          → contains faulty x ≡ false
          → contains honest x ≡ true)
      → length faulty ≤ r
      → contains honest i ≡ true
      → any_of (is_timely c pks sid (suc r) h) (incoming' r i) ≡ true
      → (x : ℕ) × (contains honest x ≡ true) × (contains (lane' r x).accepted h ≡ true)
  honest_signer faulty r i h covered few own timely =
      let (relay, is, vouched) =
        any_of-All (Vouched c pks sid (HasAccepted c sid pks honest start fragments adversary r))
          (is_timely c pks sid (suc r) h) (incoming' r i) timely
          (incoming-Vouched c sid pks honest start fragments adversary set_up unforged r i own) in
      let signers = signers_of c pks sid relay in
      let hash = item_hash c sid relay.item in
      let same : hash ≡ h = (nat_eq.beq_iff hash h).0 (ground (arith, is)) in
      let long : suc r ≤ length signers = ground (arith, is) in
      let (x, signed, sound) =
        outside signers faulty
          (chain_signers-Distinct c pks (relay_signing_bytes sid hash) relay.chain [] tt)
          (omega (arith, long, few)) in
      let (pk, at) =
        chain_signers-listed c pks (relay_signing_bytes sid hash) relay.chain x signed in
      let good = covered x pk at sound in
      (x, good, subst (λ y. contains (lane' r x).accepted y ≡ true) same (vouched x signed good))

  agree_after :
      (faulty : List ℕ) (h r i j : ℕ)
      → ((x pk : ℕ)
          → get_elem? pks x ≡ some pk
          → contains faulty x ≡ false
          → contains honest x ≡ true)
      → length faulty ≤ r
      → ((f : Fragment P) → (fragment_item_hash c sid f == h) ≡ false)
      → ((i : ℕ) → contains honest i ≡ true → contains (start i).accepted h ≡ false)
      → contains honest i ≡ true
      → contains honest j ≡ true
      → contains (lane' (suc r) i).accepted h ≡ true
      → contains (lane' (suc r) j).accepted h ≡ true
  agree_after faulty h r i j covered few whole unseen hi hj now =
      elim (Bool-cases (contains (lane' r i).accepted h)) [
        | inl before ↦ spread h whole unseen r i j hi hj before
        | inr fresh ↦
            let (timely, at) = absorb-new (lane' r i) (suc r) h (incoming' r i) now fresh in
            let (x, good, had) = honest_signer faulty r i h covered few hi (
              subst (λ keys. any_of (is_timely c keys sid (suc r) h) (incoming' r i) ≡ true)
                (lane_keys c sid pks honest start fragments adversary set_up r i hi).0 timely) in
            spread h whole unseen r x j good hj had
      ]

  -- After the relay rounds any two honest lanes agree on whether they accepted an item that is no
  -- fragment and that no honest lane had accepted before. The conditions: the honest lanes have
  -- their own numbers, one list of keys and signatures that verify; every other listed lane is
  -- among the faulty, of which there are at most n - k; what the honest forward in a round reaches
  -- all in the next; and the adversary, which may send what it likes to each lane, forges no
  -- honest lane's signature.
  pub rounds_agree :
      (pp : ProtocolParams) (faulty : List ℕ) (h i j : ℕ)
      → ((x pk : ℕ)
          → get_elem? pks x ≡ some pk
          → contains faulty x ≡ false
          → contains honest x ≡ true)
      → length faulty ≤ pp.n - pp.k
      → ((f : Fragment P) → (fragment_item_hash c sid f == h) ≡ false)
      → ((x : ℕ) → contains honest x ≡ true → contains (start x).accepted h ≡ false)
      → contains honest i ≡ true
      → contains honest j ≡ true
      → let last = world c sid honest start fragments adversary (relay_rounds pp) in
        contains (last.0 i).accepted h ≡ contains (last.0 j).accepted h
  unfolding relay_rounds
  rounds_agree pp faulty h i j covered few whole unseen hi hj =
      let after = agree_after faulty h (pp.n - pp.k) in
      subst (λ r. contains (lane' r i).accepted h ≡ contains (lane' r j).accepted h) rounds
        (bool_antisym _ _ (after i j covered few whole unseen hi hj)
          (after j i covered few whole unseen hj hi))
    where
      rounds : suc (pp.n - pp.k) ≡ pp.n - pp.k + 1
      rounds = omega arith
