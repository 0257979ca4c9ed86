-- ===== src/ClientSet/Server.antt =====
-- crates/anymone-core/src/client_set.rs: what a lane's server takes from clients and bulletins, and
-- its own receipt batch.
use anymone.Base.{
  ℕ, Bool, true, false, ◌&&◌, ◌||◌, not, Option, none, some, List, [], ◌∷◌, length, ltb, leb,
  filter_map, retain, map_or, unwrap_or, if◌then◌else◌, map,
}
use anymone.Base.Equality.{nat_eq, list_eq, ◌==◌}
use anymone.Base.Sets.{contains, insert}
use anymone.Base.Maps.{get, contains_key}
use anymone.Base.Ordered.{put_at}
use anymone.Base.Options.{◌>>=◌}
use anymone.ClientSet.{
  Crates, Bundle, Receipt, ReceiptBatch, Fragment, SetServer, Relay, fragment, verify_bundle,
  bundle_hash_of, batch_signing_bytes, verify_batch, fragment_signing_bytes, fragment_item_hash,
  relay_signing_bytes,
}

abbrev pub max_bundles : ℕ
max_bundles = 4

-- A client's row: the bundle that stands first in the order of the hashes.
unfoldable pub receipt_of : {P Q : Type 0} → ℕ × List (ℕ × Bundle P Q) → Option Receipt
receipt_of (cid, []) = none
receipt_of (cid, (hash, b) ∷ bundles) =
    some (record { client_id = cid; pk_c = b.pubkey; bundle_hash = hash })

unfoldable pub reported_key : {P Q : Type 0} → SetServer P Q → ℕ → Option (List ℕ)
reported_key s cid = elim (get s.bulletins cid) [
  | none ↦ none
  | some [] ↦ none
  | some (pk ∷ []) ↦ some pk
  | some (pk ∷ other ∷ more) ↦ none
]

-- The posted keys are asked for membership and number only, so their order is not kept.
unfoldable pub note_bulletin : {P Q : Type 0} → SetServer P Q → ℕ → List ℕ → SetServer P Q
note_bulletin s cid pk = record s {
  bulletins = put_at s.bulletins cid (insert (unwrap_or [] (get s.bulletins cid)) pk);
}

abbrev pub held_at : {P Q : Type 0} → SetServer P Q → ℕ → List (ℕ × Fragment P)
held_at s cid = unwrap_or [] (get s.fragments cid)

module _ {P Q O : Type 0} (c : Crates P Q O) where
  unfoldable pub receive : SetServer P Q → List ℕ → Bundle P Q → SetServer P Q × Bool
  receive s sid b =
      if s.relaying || not (b.lane == s.server_id) || not (verify_bundle c sid s.n_lanes b)
      then (s, false)
      else let hash = bundle_hash_of c b in
        let held = unwrap_or [] (get s.held b.client_id) in
        if leb max_bundles (length held) && not (contains_key held hash)
        then (s, false)
        else (record s { held = put_at s.held b.client_id (put_at held hash b) }, true)

  -- `SetServer::batch`
  unfoldable pub own_batch : SetServer P Q → List ℕ → ReceiptBatch
  own_batch s sid =
      let receipts = filter_map receipt_of s.held in
      record {
        server_id = s.server_id;
        receipts = receipts;
        sig = c.sign s.signer (batch_signing_bytes sid s.server_id receipts);
      }

  unfoldable pub accept_batch : SetServer P Q → List ℕ → ReceiptBatch → SetServer P Q × Bool
  accept_batch s sid b =
      if not (verify_batch c sid s.server_pks b)
      then (s, false)
      else if contains_key s.batches b.server_id
      then (s, true)
      else (record s { batches = put_at s.batches b.server_id b }, true)

  -- The checks of `accept_fragments` on one fragment, against the state before the call.
  unfoldable pub fragment_ok : SetServer P Q → List ℕ → Fragment P → Bool
  fragment_ok s sid f =
      ltb f.idx s.n_lanes
      && not (contains_key (held_at s f.client_id) f.idx)
      && map_or false
          (λ vk. c.verify vk (fragment_signing_bytes c sid f.client_id f.idx f.data') f.sig)
          (do pk ← reported_key s f.client_id; c.from_sec1_bytes pk)

  -- One turn of the loop of `accept_fragments`: an index that is filled is written over, and only
  -- the item of a new one counts as accepted.
  unfoldable pub store_fragment : SetServer P Q → List ℕ → Fragment P → SetServer P Q
  store_fragment s sid f =
      let held = held_at s f.client_id in
      let stored : SetServer P Q = record s {
        fragments = put_at s.fragments f.client_id (put_at held f.idx f);
      } in
      if contains_key held f.idx
      then stored
      else record stored { accepted = insert s.accepted (fragment_item_hash c sid f) }

  -- What the turn forwards: a new index with an item that was not accepted before.
  unfoldable pub is_fresh : SetServer P Q → List ℕ → Fragment P → Bool
  is_fresh s sid f =
      not (contains_key (held_at s f.client_id) f.idx)
      && not (contains s.accepted (fragment_item_hash c sid f))

  unfoldable pub store_fragments :
      List (Fragment P) → SetServer P Q → List ℕ → SetServer P Q × List (Fragment P)
  store_fragments [] s sid = (s, [])
  store_fragments (f ∷ rest) s sid =
      let later : SetServer P Q × List (Fragment P) =
        store_fragments rest (store_fragment s sid f) sid in
      (later.0, if is_fresh s sid f then f ∷ later.1 else later.1)

  unfoldable pub accept_fragments :
      SetServer P Q → List ℕ → List (Fragment P) → SetServer P Q × List (Fragment P)
  accept_fragments s sid fragments = store_fragments (retain (fragment_ok s sid) fragments) s sid

  unfoldable pub submit :
      SetServer P Q → List ℕ → List (Fragment P) → SetServer P Q × List (Relay P)
  submit s sid fragments =
      let done = accept_fragments s sid fragments in
      (
        done.0,
        map
            (λ (f : Fragment P). record {
              item = fragment f;
              chain =
                  (
                    s.server_id,
                    c.sign s.signer (relay_signing_bytes sid (fragment_item_hash c sid f)),
                  )
                  ∷ [];
            })
            done.1,
      )
