-- ===== src/ClientSet/Relaying.antt =====
-- crates/anymone-core/src/client_set.rs: the relay rounds.
use anymone.Base.{
  ℕ, Bool, true, false, ◌||◌, not, Option, none, some, List, [], ◌∷◌, ◌++◌, length, ltb, retain,
  map_or, if◌then◌else◌, map, get_elem?, concat,
}
use anymone.Base.Equality.{nat_eq, ◌==◌}
use anymone.Base.Sets.{contains, insert}
use anymone.Base.Ordered.{put_at}
use anymone.ClientSet.{
  Crates, ReceiptBatch, Fragment, RelayItem, batch, fragment, SetServer, Relay, item_hash,
  relay_signing_bytes,
}
use anymone.ClientSet.Server.{own_batch, accept_batch, accept_fragments}

abbrev pub is_batch : {P : Type 0} → Relay P → Bool
is_batch r = elim (r.item) [ batch b ↦ true | fragment f ↦ false ]

abbrev values : {V : Type 0} → List (ℕ × V) → List V
values m = map (λ e. e.1) m

module _ {P Q O : Type 0} (c : Crates P Q O) where
  abbrev pub own_signature : SetServer P Q → List ℕ → ℕ → ℕ × List ℕ
  own_signature s sid hash = (s.server_id, c.sign s.signer (relay_signing_bytes sid hash))

  -- The loop of `originate` over the items that the server holds.
  unfoldable pub forward_all :
      List (RelayItem P) → SetServer P Q → List ℕ → SetServer P Q × List (Relay P)
  forward_all [] s sid = (s, [])
  forward_all (item ∷ items) s sid =
      let hash = item_hash c sid item in
      let marked : SetServer P Q = record s { accepted = insert s.accepted hash } in
      let later : SetServer P Q × List (Relay P) = forward_all items marked sid in
      let relay : Relay P = record { item = item; chain = own_signature s sid hash ∷ [] } in
      (later.0, relay ∷ later.1)

  unfoldable pub originate : SetServer P Q → List ℕ → SetServer P Q × List (Relay P)
  originate s sid =
      let opened : SetServer P Q = record s { relaying = true } in
      let own : ReceiptBatch = own_batch c opened sid in
      let listed : SetServer P Q = record opened {
        batches = put_at opened.batches opened.server_id own;
      } in
      let held : List (Fragment P) = concat (map values (values listed.fragments)) in
      forward_all (batch own ∷ map (λ (f : Fragment P). fragment f) held) listed sid

  unfoldable pub next_signers : List ℕ → List ℕ → List ℕ → ℕ × List ℕ → List ℕ
  next_signers pks msg seen (id, sig) =
      if contains seen id
      then seen
      else map_or seen (λ vk. if c.verify vk msg sig then id ∷ seen else seen) (get_elem? pks id)

  -- The loop of `chain_len`.
  unfoldable pub chain_signers : List ℕ → List ℕ → List (ℕ × List ℕ) → List ℕ → List ℕ
  chain_signers pks msg [] seen = seen
  chain_signers pks msg (entry ∷ chain) seen =
      chain_signers pks msg chain (next_signers pks msg seen entry)

  unfoldable pub chain_len : SetServer P Q → List ℕ → ℕ → List (ℕ × List ℕ) → ℕ
  chain_len s sid hash chain =
      length (chain_signers s.server_pks (relay_signing_bytes sid hash) chain [])

  -- The match on the item in `absorb`.
  unfoldable pub accept_item : SetServer P Q → List ℕ → RelayItem P → SetServer P Q
  accept_item s sid (batch b) =
      let done = accept_batch c s sid b in
      let hash = item_hash c sid (batch b) in
      if done.1 then record (done.0) { accepted = insert done.0.accepted hash } else done.0
  accept_item s sid (fragment f) = (accept_fragments c s sid (f ∷ [])).0

  unfoldable pub extended : SetServer P Q → List ℕ → Relay P → Relay P
  extended s sid r = record r {
    chain =
        retain (λ (e : ℕ × List ℕ). not (e.0 == s.server_id)) r.chain
        ++ own_signature s sid (item_hash c sid r.item) ∷ [];
  }

  unfoldable pub absorb_one :
      SetServer P Q → List ℕ → ℕ → Relay P → SetServer P Q × Option (Relay P)
  absorb_one s sid round r =
      let hash = item_hash c sid r.item in
      if contains s.accepted hash || ltb (chain_len s sid hash r.chain) round
      then (s, none)
      else let took = accept_item s sid r.item in
        if contains took.accepted hash then (took, some (extended took sid r)) else (took, none)

  unfoldable pub absorb_each :
      List (Relay P) → SetServer P Q → List ℕ → ℕ → SetServer P Q × List (Relay P)
  absorb_each [] s sid round = (s, [])
  absorb_each (r ∷ rs) s sid round =
      let one = absorb_one s sid round r in
      let later : SetServer P Q × List (Relay P) = absorb_each rs one.0 sid round in
      (later.0, elim (one.1) [ none ↦ later.1 | some out ↦ out ∷ later.1 ])

  unfoldable pub absorb :
      SetServer P Q → List ℕ → ℕ → List (Relay P) → SetServer P Q × List (Relay P)
  absorb s sid round incoming =
      absorb_each (retain is_batch incoming ++ retain (λ r. not (is_batch r)) incoming) s sid round
