-- ===== src/ClientSet/Agreement/Accepting.antt =====
-- crates/anymone-core/src/client_set.rs: which relays make `absorb` accept an item, and what it
-- forwards then.
use anymone.Base.{
  ℕ, ◌≡◌, refl, sym, ap, subst, inl, inr, Bool, true, false, ◌&&◌, ◌||◌, Option, none, some, List,
  [], ◌∷◌, length, ltb, leb, any_of, unwrap_or, All, option-All, arith, Bool-cases,
}
use anymone.Base.Equality.{nat_eq, ◌==◌, beq_refl}
use anymone.Base.Sets.{contains, contains-insert}
use anymone.ClientSet.{
  Crates, ReceiptBatch, RelayItem, batch, fragment, SetServer, Relay, item_hash, fragment_item_hash,
  relay_signing_bytes, verify_batch,
}
use anymone.ClientSet.Server.{store_fragment, store_fragments, accept_fragments, accept_batch}
use anymone.ClientSet.Relaying.{
  is_batch, chain_signers, chain_len, accept_item, extended, absorb_one, absorb_each,
}
use anymone.ClientSet.Keeps.{absorb_one-Keeps, absorb_each-Keeps}
use anymone.ClientSet.Once.{hashes_of}

pub or_right : (a b : Bool) → b ≡ true → (a || b) ≡ true
or_right a b h = ground (arith, h)

module _ {P Q O : Type 0} (c : Crates P Q O) where
  accept_item-new :
      (s : SetServer P Q) (sid : List ℕ) (item : RelayItem P) (h : ℕ)
      → contains (accept_item c s sid item).accepted h ≡ true
      → contains s.accepted h ≡ false
      → (item_hash c sid item == h) ≡ true
  unfolding accept_item accept_batch accept_fragments store_fragments store_fragment item_hash
  accept_item-new s sid (batch b) h now old =
      ground (arith, now, old, contains-insert s.accepted (item_hash c sid (batch b)) h)
  accept_item-new s sid (fragment f) h now old =
      ground (arith, now, old, contains-insert s.accepted (fragment_item_hash c sid f) h)

  abbrev pub signers_of : List ℕ → List ℕ → Relay P → List ℕ
  signers_of pks sid r =
      chain_signers c pks (relay_signing_bytes sid (item_hash c sid r.item)) r.chain []

  -- A batch is signed by the server that it names; of fragments this says nothing.
  abbrev pub is_verified : List ℕ → List ℕ → RelayItem P → Bool
  is_verified pks sid (batch b) = verify_batch c sid pks b
  is_verified pks sid (fragment f) = true

  -- A relay of an item with this hash, with as many signers as the round asks for.
  abbrev pub is_timely : List ℕ → List ℕ → ℕ → ℕ → Relay P → Bool
  is_timely pks sid round h r =
      item_hash c sid r.item == h && leb round (length (signers_of pks sid r))

  abbrev pub is_sound : List ℕ → List ℕ → ℕ → ℕ → Relay P → Bool
  is_sound pks sid round h r =
      is_batch r && (is_verified pks sid r.item && is_timely pks sid round h r)

  accept_item-verified :
      (s : SetServer P Q) (sid : List ℕ) (item : RelayItem P)
      → contains (accept_item c s sid item).accepted (item_hash c sid item) ≡ true
      → contains s.accepted (item_hash c sid item) ≡ false
      → is_verified s.server_pks sid item ≡ true
  unfolding accept_item accept_batch
  accept_item-verified s sid (batch b) now old = ground (arith, now, old)
  accept_item-verified s sid (fragment f) now old = refl

  accept_item-takes :
      (s : SetServer P Q) (sid : List ℕ) (b : ReceiptBatch)
      → verify_batch c sid s.server_pks b ≡ true
      → contains (accept_item c s sid (batch b)).accepted (item_hash c sid (batch b)) ≡ true
  unfolding accept_item accept_batch
  accept_item-takes s sid b good =
      let hash = item_hash c sid (batch b) in
      ground (arith, good, contains-insert s.accepted hash hash, beq_refl hash)

  accept_sound :
      (s : SetServer P Q) (sid : List ℕ) (r : Relay P)
      → is_batch r ≡ true
      → is_verified s.server_pks sid r.item ≡ true
      → contains (accept_item c s sid r.item).accepted (item_hash c sid r.item) ≡ true
  accept_sound s sid r kind good = go r.item kind good
    where
      go :
          (item : RelayItem P)
          → (elim (item) [ batch b ↦ true | fragment f ↦ false ]) ≡ true
          → is_verified s.server_pks sid item ≡ true
          → contains (accept_item c s sid item).accepted (item_hash c sid item) ≡ true
      go (batch b) kind good = accept_item-takes s sid b good
      go (fragment f) kind good = cc

  -- A sound relay leaves its item accepted.
  absorb_one-takes :
      (s : SetServer P Q) (sid : List ℕ) (round h : ℕ) (r : Relay P)
      → is_sound s.server_pks sid round h r ≡ true
      → contains (absorb_one c s sid round r).0.accepted h ≡ true
  unfolding absorb_one chain_len
  absorb_one-takes s sid round h r sound =
      let hash = item_hash c sid r.item in
      let same : hash ≡ h = (nat_eq.beq_iff hash h).0 (ground (arith, sound)) in
      let took = accept_sound s sid r (ground (arith, sound)) (ground (arith, sound)) in
      subst (λ x. contains (absorb_one c s sid round r).0.accepted x ≡ true) same
        (ground (arith, sound, took))

  pub absorb_each-takes :
      (rs : List (Relay P)) (s : SetServer P Q) (sid : List ℕ) (round h : ℕ)
      → any_of (is_sound s.server_pks sid round h) rs ≡ true
      → contains (absorb_each c rs s sid round).0.accepted h ≡ true
  unfolding absorb_each
  absorb_each-takes [] s sid round h some_sound = cc
  absorb_each-takes (r ∷ rs) s sid round h some_sound =
      let next = (absorb_one c s sid round r).0 in
      elim (Bool-cases (is_sound s.server_pks sid round h r)) [
        | inl sound ↦
            (absorb_each-Keeps c rs next sid round).3 h (absorb_one-takes s sid round h r sound)
        | inr other ↦
            absorb_each-takes rs next sid round h
              (rw ((absorb_one-Keeps c s sid round r).0) (ground (arith, other, some_sound)))
      ]

  -- An item that one relay makes accepted is that of a timely relay, and is forwarded.
  absorb_one-new :
      (s : SetServer P Q) (sid : List ℕ) (round h : ℕ) (r : Relay P)
      → contains (absorb_one c s sid round r).0.accepted h ≡ true
      → contains s.accepted h ≡ false
      → (is_timely s.server_pks sid round h r ≡ true)
        × (out : Relay P) × ((absorb_one c s sid round r).1 ≡ some out)
        × ((item_hash c sid out.item == h) ≡ true)
  unfolding absorb_one chain_len extended
  absorb_one-new s sid round h r now old =
      let hash = item_hash c sid r.item in
      let took = accept_item c s sid r.item in
      let skipped =
        contains s.accepted hash || ltb (length (signers_of s.server_pks sid r)) round in
      elim (Bool-cases skipped) [
        | inl skip ↦ absurd (ground (arith, skip, now, old))
        | inr go ↦
            let into : contains took.accepted h ≡ true = ground (arith, go, now) in
            let same = accept_item-new s sid r.item h into old in
            let here : contains took.accepted hash ≡ true =
              subst (λ x. contains took.accepted x ≡ true) (sym ((nat_eq.beq_iff hash h).0 same))
                into in
            (ground (arith, go, same), extended c took sid r, ground (arith, go, here), same)
      ]

  prepend-hash :
      (sid : List ℕ) (h : ℕ) (o : Option (Relay P)) (out : Relay P) (outs : List (Relay P))
      → o ≡ some out
      → (item_hash c sid out.item == h) ≡ true
      → contains (hashes_of c sid (elim (o) [ none ↦ outs | some out ↦ out ∷ outs ])) h ≡ true
  prepend-hash sid h none out outs same at = cc
  prepend-hash sid h (some x) out outs same at = ground (arith, ap (λ y. unwrap_or x y) same, at)

  keep-hash :
      (sid : List ℕ) (h : ℕ) (o : Option (Relay P)) (outs : List (Relay P))
      → contains (hashes_of c sid outs) h ≡ true
      → contains (hashes_of c sid (elim (o) [ none ↦ outs | some out ↦ out ∷ outs ])) h ≡ true
  keep-hash sid h none outs at = at
  keep-hash sid h (some x) outs at = ground (arith, at)

  pub absorb_each-new :
      (rs : List (Relay P)) (s : SetServer P Q) (sid : List ℕ) (round h : ℕ)
      → contains (absorb_each c rs s sid round).0.accepted h ≡ true
      → contains s.accepted h ≡ false
      → (any_of (is_timely s.server_pks sid round h) rs ≡ true)
        × (contains (hashes_of c sid (absorb_each c rs s sid round).1) h ≡ true)
  unfolding absorb_each
  absorb_each-new [] s sid round h now old = cc
  absorb_each-new (r ∷ rs) s sid round h now old =
      let one = absorb_one c s sid round r in
      let later : SetServer P Q × List (Relay P) = absorb_each c rs one.0 sid round in
      elim (Bool-cases (contains one.0.accepted h)) [
        | inl first ↦
            let (timely, out, is, at) = absorb_one-new s sid round h r first old in
            (ground (arith, timely), prepend-hash sid h one.1 out later.1 is at)
        | inr still ↦
            let (timely, at) = absorb_each-new rs one.0 sid round h now still in
            (
              or_right (is_timely s.server_pks sid round h r) _ (
                  subst (λ pks. any_of (is_timely pks sid round h) rs ≡ true)
                    (absorb_one-Keeps c s sid round r).0 timely),
              keep-hash sid h one.1 later.1 at,
            )
      ]

  absorb_one-verified :
      (s : SetServer P Q) (sid : List ℕ) (round : ℕ) (r out : Relay P)
      → (absorb_one c s sid round r).1 ≡ some out
      → is_verified s.server_pks sid out.item ≡ true
  unfolding absorb_one extended
  absorb_one-verified s sid round r out h =
      let hash = item_hash c sid r.item in
      let took = accept_item c s sid r.item in
      elim (Bool-cases (contains s.accepted hash || ltb (chain_len c s sid hash r.chain) round)) [
        | inl skip ↦ absurd (ground (arith, skip, h))
        | inr go ↦ elim (Bool-cases (contains took.accepted hash)) [
          | inr left ↦ absurd (ground (arith, go, left, h))
          | inl now ↦
              let same : extended c took sid r ≡ out = ground (arith, go, now, h) in
              rw (← same) (accept_item-verified s sid r.item now (ground (arith, go)))
        ]
      ]

  pub absorb_each-verified :
      (rs : List (Relay P)) (s : SetServer P Q) (sid : List ℕ) (round : ℕ)
      → All (λ out. is_verified s.server_pks sid out.item ≡ true) (absorb_each c rs s sid round).1
  unfolding absorb_each
  absorb_each-verified [] s sid round = tt
  absorb_each-verified (r ∷ rs) s sid round =
      option-All (λ out. is_verified s.server_pks sid out.item ≡ true)
        (absorb_one c s sid round r).1 _ (absorb_one-verified s sid round r)
        (subst
          (λ pks.
            All (λ out. is_verified pks sid out.item ≡ true)
              (absorb_each c rs (absorb_one c s sid round r).0 sid round).1)
          (absorb_one-Keeps c s sid round r).0
          (absorb_each-verified rs (absorb_one c s sid round r).0 sid round))
