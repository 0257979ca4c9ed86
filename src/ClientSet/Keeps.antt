-- ===== src/ClientSet/Keeps.antt =====
-- What no relay step changes: the server's keys, and what it has accepted.
use anymone.Base.{
  ℕ, ◌≤◌, ◌≡◌, refl, ◌∙◌, inl, inr, true, false, ◌||◌, some, List, [], ◌∷◌, ltb, arith, Bool-cases,
}
use anymone.Base.Equality.{nat_eq}
use anymone.Base.Sets.{contains, contains-insert}
use anymone.Base.Maps.{get, contains_key}
use anymone.Base.Ordered.{get-put_at}
use anymone.ClientSet.{
  Crates, ReceiptBatch, Fragment, RelayItem, batch, fragment, SetServer, Relay, item_hash,
  fragment_item_hash, verify_batch,
}
use anymone.ClientSet.Server.{
  held_at, accept_batch, store_fragment, store_fragments, accept_fragments,
}
use anymone.ClientSet.Relaying.{chain_len, accept_item, extended, absorb_one, absorb_each}

-- A step that keeps the server's keys and bundles, and never forgets an accepted item or a batch.
abbrev pub Keeps : {P Q : Type 0} → SetServer P Q → SetServer P Q → Type 0
Keeps s t =
    (t.server_pks ≡ s.server_pks)
    × (t.server_id ≡ s.server_id)
    × (t.signer ≡ s.signer)
    × ((h : ℕ) → contains s.accepted h ≡ true → contains t.accepted h ≡ true)
    × (t.held ≡ s.held)
    × (t.n_lanes ≡ s.n_lanes)
    × ((l : ℕ) (b : ReceiptBatch) → get s.batches l ≡ some b → get t.batches l ≡ some b)

pub Keeps-refl : {P Q : Type 0} (s : SetServer P Q) → Keeps s s
Keeps-refl s = (refl, refl, refl, λ h k. k, refl, refl, λ l b k. k)

pub Keeps-trans : {P Q : Type 0} (s t u : SetServer P Q) → Keeps s t → Keeps t u → Keeps s u
Keeps-trans s t u (a, b, d, e, f, g, r) (a', b', d', e', f', g', r') =
    (a' ∙ a, b' ∙ b, d' ∙ d, λ h k. e' h (e h k), f' ∙ f, g' ∙ g, λ l x k. r' l x (r l x k))

module _ {P Q O : Type 0} (c : Crates P Q O) where
  store_fragment-Keeps :
      (s : SetServer P Q) (sid : List ℕ) (f : Fragment P) → Keeps s (store_fragment c s sid f)
  unfolding store_fragment
  store_fragment-Keeps s sid f = elim (Bool-cases (contains_key (held_at s f.client_id) f.idx)) [
    | inl old ↦ rw old (refl, refl, refl, λ h k. k, refl, refl, λ l b k. k)
    | inr new ↦ rw new (
      refl,
      refl,
      refl,
      λ h k. ground (arith, k, contains-insert s.accepted (fragment_item_hash c sid f) h),
      refl,
      refl,
      λ l b k. k,
    )
  ]

  pub store_fragments-Keeps :
      (fs : List (Fragment P)) (s : SetServer P Q) (sid : List ℕ)
      → Keeps s (store_fragments c fs s sid).0
  unfolding store_fragments
  store_fragments-Keeps [] s sid = Keeps-refl s
  store_fragments-Keeps (f ∷ fs) s sid =
      Keeps-trans s (store_fragment c s sid f)
        (store_fragments c fs (store_fragment c s sid f) sid).0 (store_fragment-Keeps s sid f)
        (store_fragments-Keeps fs (store_fragment c s sid f) sid)

  accept_item-Keeps :
      (s : SetServer P Q) (sid : List ℕ) (item : RelayItem P) → Keeps s (accept_item c s sid item)
  unfolding accept_item accept_batch accept_fragments
  accept_item-Keeps s sid (batch b) = elim (Bool-cases (verify_batch c sid s.server_pks b)) [
    | inr bad ↦ rw bad (Keeps-refl s)
    | inl good ↦ elim (Bool-cases (contains_key s.batches b.server_id)) [
      | inl old ↦
          rw (good, old)
            (
              refl,
              refl,
              refl,
              λ h k. ground (arith, k, contains-insert s.accepted (item_hash c sid (batch b)) h),
              refl,
              refl,
              λ l x k. k,
            )
      | inr new ↦
          rw (good, new)
            (
              refl,
              refl,
              refl,
              λ h k. ground (arith, k, contains-insert s.accepted (item_hash c sid (batch b)) h),
              refl,
              refl,
              λ l x k. ground (arith, new, k, get-put_at s.batches b.server_id l b),
            )
    ]
  ]
  accept_item-Keeps s sid (fragment f) = store_fragments-Keeps _ s sid

  -- A relay is passed over, or accepted and forwarded or dropped.
  pub absorb_one-Keeps :
      (s : SetServer P Q) (sid : List ℕ) (round : ℕ) (r : Relay P)
      → Keeps s (absorb_one c s sid round r).0
  unfolding absorb_one
  absorb_one-Keeps s sid round r =
      let hash = item_hash c sid r.item in
      elim (Bool-cases (contains s.accepted hash || ltb (chain_len c s sid hash r.chain) round)) [
        | inl skip ↦ rw skip (Keeps-refl s)
        | inr go ↦ elim (Bool-cases (contains (accept_item c s sid r.item).accepted hash)) [
          | inl took ↦ rw (go, took) (accept_item-Keeps s sid r.item)
          | inr left ↦ rw (go, left) (accept_item-Keeps s sid r.item)
        ]
      ]

  pub absorb_each-Keeps :
      (rs : List (Relay P)) (s : SetServer P Q) (sid : List ℕ) (round : ℕ)
      → Keeps s (absorb_each c rs s sid round).0
  unfolding absorb_each
  absorb_each-Keeps [] s sid round = Keeps-refl s
  absorb_each-Keeps (r ∷ rs) s sid round =
      let next = (absorb_one c s sid round r).0 in
      Keeps-trans s next (absorb_each c rs next sid round).0 (absorb_one-Keeps s sid round r)
        (absorb_each-Keeps rs next sid round)

  -- What a forwarded relay says of the state before and after.
  abbrev pub Forwards : SetServer P Q → List ℕ → ℕ → Relay P → Relay P → Type 0
  Forwards s sid round r out =
      (contains s.accepted (item_hash c sid r.item) ≡ false)
      × (round ≤ chain_len c s sid (item_hash c sid r.item) r.chain)
      × (contains (absorb_one c s sid round r).0.accepted (item_hash c sid r.item) ≡ true)
      × (out ≡ extended c (accept_item c s sid r.item) sid r)
      × Keeps s (accept_item c s sid r.item)

  pub absorb_one-Forwards :
      (s : SetServer P Q) (sid : List ℕ) (round : ℕ) (r out : Relay P)
      → (absorb_one c s sid round r).1 ≡ some out
      → Forwards s sid round r out
  unfolding absorb_one
  absorb_one-Forwards s sid round r out h =
      let hash = item_hash c sid r.item in
      elim (Bool-cases (contains s.accepted hash || ltb (chain_len c s sid hash r.chain) round)) [
        | inl skip ↦ ground (arith, skip, h)
        | inr go ↦ elim (Bool-cases (contains (accept_item c s sid r.item).accepted hash)) [
          | inr left ↦ ground (arith, go, left, h)
          | inl took ↦ (
            ground (arith, go),
            ground (arith, go),
            ground (arith, go, took),
            ground (arith, go, took, h),
            accept_item-Keeps s sid r.item,
          )
        ]
      ]
