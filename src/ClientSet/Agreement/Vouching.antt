-- ===== src/ClientSet/Agreement/Vouching.antt =====
-- crates/anymone-core/src/client_set.rs: who signed what `absorb` and `submit` forward.
use anymone.Base.{
  ℕ, ◌≤◌, ◌≡◌, refl, subst, inl, inr, true, false, not, List, [], ◌∷◌, length, retain, any_of, All,
  option-All, arith, Bool-cases,
}
use anymone.Base.Equality.{nat_eq, ◌==◌}
use anymone.Base.Sets.{contains}
use anymone.ClientSet.{
  Crates, RelayItem, batch, Fragment, fragment, SetServer, Relay, item_hash, relay_signing_bytes,
  fragment_item_hash,
}
use anymone.ClientSet.Relaying.{
  own_signature, accept_item, extended, absorb_one, absorb_each, chain_signers,
}
use anymone.ClientSet.Keeps.{absorb_one-Keeps, absorb_each-Keeps, absorb_one-Forwards}
use anymone.ClientSet.Chains.{chain_signers-append, chain_signers-retain}
use anymone.ClientSet.Once.{hashes_of}
use anymone.ClientSet.Agreement.Accepting.{signers_of, is_verified, is_sound, or_right}

module _ {P Q O : Type 0} (c : Crates P Q O) (pks sid : List ℕ) where
  -- Whoever signed the relay has `B` of its item's hash.
  abbrev pub Vouched : (ℕ → ℕ → Type 0) → Relay P → Type 0
  Vouched B r = (x : ℕ) → contains (signers_of c pks sid r) x ≡ true → B x (item_hash c sid r.item)

  -- A chain that is extended by a server which has `B` of the item itself.
  extended-Vouched :
      (B : ℕ → ℕ → Type 0) (s : SetServer P Q) (r : Relay P)
      → B s.server_id (item_hash c sid r.item)
      → Vouched B r
      → Vouched B (extended c s sid r)
  unfolding extended
  extended-Vouched B s r own before x h =
      let hash = item_hash c sid r.item in
      let msg = relay_signing_bytes sid hash in
      elim (chain_signers-append c pks msg
        (retain (λ (e : ℕ × List ℕ). not (e.0 == s.server_id)) r.chain) s.server_id
        (own_signature c s sid hash).1 x h) [
          | inl same ↦ subst (λ y. B y hash) ((nat_eq.beq_iff s.server_id x).0 same) own
          | inr other ↦ before x (
              chain_signers-retain c pks msg (λ (e : ℕ × List ℕ). not (e.0 == s.server_id)) r.chain
                x other)
        ]

  pub absorb_each-Vouched :
      (B : ℕ → ℕ → Type 0) (rs : List (Relay P)) (s : SetServer P Q) (round : ℕ)
      → ((h : ℕ) → contains (absorb_each c rs s sid round).0.accepted h ≡ true → B s.server_id h)
      → All (Vouched B) rs
      → All (Vouched B) (absorb_each c rs s sid round).1
  unfolding absorb_each
  absorb_each-Vouched B [] s round own before = tt
  absorb_each-Vouched B (r ∷ rs) s round own before =
      let next = (absorb_one c s sid round r).0 in
      option-All (Vouched B) (absorb_one c s sid round r).1 _
        (λ out h.
          let (new, long, now, same, ks) = absorb_one-Forwards c s sid round r out h in
          rw same (
            extended-Vouched B (accept_item c s sid r.item) r
              (rw (ks.1) (own _ ((absorb_each-Keeps c rs next sid round).3 _ now))) before.0))
        (absorb_each-Vouched B rs next round
          (λ h k. rw ((absorb_one-Keeps c s sid round r).1) (own h k)) before.1)

  -- A relay that only its sender signed.
  pub own-Vouched :
      (B : ℕ → ℕ → Type 0) (s : SetServer P Q) (item : RelayItem P)
      → B s.server_id (item_hash c sid item)
      → Vouched B
          (record { item = item; chain = own_signature c s sid (item_hash c sid item) ∷ [] })
  unfolding chain_signers
  own-Vouched B s item own x h =
      let hash = item_hash c sid item in
      elim (chain_signers-append c pks (relay_signing_bytes sid hash) [] s.server_id
        (own_signature c s sid hash).1 x h) [
          | inl same ↦ subst (λ y. B y hash) ((nat_eq.beq_iff s.server_id x).0 same) own
          | inr none_yet ↦ absurd (cc)
        ]

  -- Relays that are verified and have signers enough: one of a hash that no fragment has is sound.
  pub sound_of :
      (outs : List (Relay P)) (round h : ℕ)
      → ((f : Fragment P) → (fragment_item_hash c sid f == h) ≡ false)
      → All
          (λ out.
            (is_verified c pks sid out.item ≡ true) × (round ≤ length (signers_of c pks sid out)))
          outs
      → contains (hashes_of c sid outs) h ≡ true
      → any_of (is_sound c pks sid round h) outs ≡ true
  unfolding item_hash
  sound_of [] round h whole good at = cc
  sound_of (out ∷ outs) round h whole good at = elim (Bool-cases (item_hash c sid out.item == h)) [
    | inr other ↦
        or_right (is_sound c pks sid round h out) _
          (sound_of outs round h whole good.1 (ground (arith, other, at)))
    | inl same ↦ ground (arith, same, good.0.0, good.0.1, batch_of out.item same)
  ]
    where
      batch_of :
          (item : RelayItem P)
          → (item_hash c sid item == h) ≡ true
          → (elim (item) [ batch b ↦ true | fragment f ↦ false ]) ≡ true
      batch_of (batch b) same = refl
      batch_of (fragment f) same = ground (arith, same, whole f)
