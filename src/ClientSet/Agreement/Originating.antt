-- ===== src/ClientSet/Agreement/Originating.antt =====
-- crates/anymone-core/src/client_set.rs: what `originate` accepts and forwards.
use anymone.Base.{
  ℕ, ◌≤◌, ◌≡◌, refl, inl, inr, true, false, some, List, [], ◌∷◌, map, length, get_elem?, All, arith,
  Bool-cases,
}
use anymone.Base.Equality.{nat_eq, ◌==◌, beq_refl}
use anymone.Base.Sets.{contains, insert, contains-insert}
use anymone.ClientSet.{
  Crates, RelayItem, batch, Fragment, fragment, SetServer, Relay, item_hash, relay_signing_bytes,
  verify_batch,
}
use anymone.ClientSet.Server.{own_batch}
use anymone.ClientSet.Relaying.{own_signature, forward_all, originate, next_signers, chain_signers}
use anymone.ClientSet.Once.{hashes_of}
use anymone.ClientSet.Agreement.Accepting.{signers_of, is_verified}
use anymone.ClientSet.Agreement.Vouching.{Vouched, own-Vouched}

-- A step that leaves the keys alone and forgets no accepted item.
abbrev pub SameKeys : {P Q : Type 0} → SetServer P Q → SetServer P Q → Type 0
SameKeys s t =
    (t.server_pks ≡ s.server_pks)
    × (t.server_id ≡ s.server_id)
    × (t.signer ≡ s.signer)
    × ((h : ℕ) → contains s.accepted h ≡ true → contains t.accepted h ≡ true)

module _ {P Q O : Type 0} (c : Crates P Q O) (sid : List ℕ) where
  -- The server's own signatures verify under its listed key.
  abbrev pub SignsFor : List ℕ → SetServer P Q → Type 0
  SignsFor pks s =
      (pk : ℕ) × (get_elem? pks s.server_id ≡ some pk)
      × ((msg : List ℕ) → c.verify pk msg (c.sign s.signer msg) ≡ true)

  -- A relay that is verified and has as many signers.
  abbrev pub Ready : List ℕ → ℕ → Relay P → Type 0
  Ready pks round out =
      (is_verified c pks sid out.item ≡ true) × (round ≤ length (signers_of c pks sid out))

  pub own_counts :
      (pks : List ℕ) (s : SetServer P Q) (hash : ℕ)
      → SignsFor pks s
      → 1
        ≤ length (
            chain_signers c pks (relay_signing_bytes sid hash) (own_signature c s sid hash ∷ []) [])
  unfolding chain_signers next_signers
  own_counts pks s hash (pk, at, valid) =
      rw (at, valid (relay_signing_bytes sid hash)) (omega arith)

  pub forward_all-SameKeys :
      (items : List (RelayItem P)) (s : SetServer P Q) → SameKeys s (forward_all c items s sid).0
  unfolding forward_all
  forward_all-SameKeys [] s = (refl, refl, refl, λ h k. k)
  forward_all-SameKeys (item ∷ items) s =
      let hash = item_hash c sid item in
      let marked : SetServer P Q = record s { accepted = insert s.accepted hash } in
      let (keys, id, key, mono) = forward_all-SameKeys items marked in
      (keys, id, key, λ h k. mono h (ground (arith, k, contains-insert s.accepted hash h)))

  forward_all-Ready :
      (items : List (RelayItem P)) (pks : List ℕ) (s : SetServer P Q)
      → SignsFor pks s
      → All (λ i. is_verified c pks sid i ≡ true) items
      → All (Ready pks 1) (forward_all c items s sid).1
  unfolding forward_all
  forward_all-Ready [] pks s signs good = tt
  forward_all-Ready (item ∷ items) pks s signs good =
      let hash = item_hash c sid item in
      let marked : SetServer P Q = record s { accepted = insert s.accepted hash } in
      ((good.0, own_counts pks s hash signs), forward_all-Ready items pks marked signs good.1)

  pub forward_all-Vouched :
      (items : List (RelayItem P)) (pks : List ℕ) (B : ℕ → ℕ → Type 0) (s : SetServer P Q)
      → ((h : ℕ) → contains (forward_all c items s sid).0.accepted h ≡ true → B s.server_id h)
      → All (Vouched c pks sid B) (forward_all c items s sid).1
  unfolding forward_all
  forward_all-Vouched [] pks B s own = tt
  forward_all-Vouched (item ∷ items) pks B s own =
      let hash = item_hash c sid item in
      let marked : SetServer P Q = record s { accepted = insert s.accepted hash } in
      let (keys, id, key, mono) = forward_all-SameKeys items marked in
      (
        own-Vouched c pks sid B s item (
            own hash
              (mono hash (ground (arith, contains-insert s.accepted hash hash, beq_refl hash)))),
        forward_all-Vouched items pks B marked own,
      )

  pub forward_all-new :
      (items : List (RelayItem P)) (s : SetServer P Q) (h : ℕ)
      → contains (forward_all c items s sid).0.accepted h ≡ true
      → contains s.accepted h ≡ false
      → contains (hashes_of c sid (forward_all c items s sid).1) h ≡ true
  unfolding forward_all
  forward_all-new [] s h now old = cc
  forward_all-new (item ∷ items) s h now old =
      let hash = item_hash c sid item in
      let marked : SetServer P Q = record s { accepted = insert s.accepted hash } in
      elim (Bool-cases (hash == h)) [
        | inl same ↦ ground (arith, same)
        | inr other ↦ ground (
          arith,
          forward_all-new items marked h now
              (ground (arith, old, other, contains-insert s.accepted hash h)),
        )
      ]

  own_batch-verified :
      (pks : List ℕ) (s : SetServer P Q)
      → SignsFor pks s
      → is_verified c pks sid (batch (own_batch c s sid)) ≡ true
  unfolding own_batch verify_batch
  own_batch-verified pks s (pk, at, valid) = rw (at, valid _)

  fragments-verified :
      (pks : List ℕ) (fs : List (Fragment P))
      → All (λ i. is_verified c pks sid i ≡ true) (map (λ (f : Fragment P). fragment f) fs)
  fragments-verified pks [] = tt
  fragments-verified pks (f ∷ fs) = (refl, fragments-verified pks fs)

  pub originate-SameKeys : (s : SetServer P Q) → SameKeys s (originate c s sid).0
  unfolding originate
  originate-SameKeys s = forward_all-SameKeys _ _

  pub originate-Ready :
      (pks : List ℕ) (s : SetServer P Q) → SignsFor pks s → All (Ready pks 1) (originate c s sid).1
  unfolding originate
  originate-Ready pks s signs =
      forward_all-Ready _ pks _ signs
        (own_batch-verified pks (record s { relaying = true }) signs, fragments-verified pks _)
