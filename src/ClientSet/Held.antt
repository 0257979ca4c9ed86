-- ===== src/ClientSet/Held.antt =====
-- The bundles that a lane holds: how many, and what is known of each.
use anymone.Base.{
  ℕ, ◌≤◌, ◌≡◌, refl, sym, subst, inl, inr, ◌⊎◌, true, false, ◌&&◌, ◌||◌, not, some, List, [], ◌∷◌,
  length, leb, retain, unwrap_or, arith, Bool-cases, Option-cases, eqb_iff,
}
use anymone.Base.Equality.{nat_eq, ◌==◌}
use anymone.Base.Maps.{get, contains_key}
use anymone.Base.Ordered.{put_at, get-put_at, IsOrdered, put_at-IsOrdered, length-put_at}
use anymone.ClientSet.{
  Crates, ProtocolParams, Bundle, SetServer, new, verify_bundle, bundle_hash_of,
}
use anymone.ClientSet.Server.{
  max_bundles, receive, note_bulletin, submit, accept_fragments, fragment_ok,
}
use anymone.ClientSet.Relaying.{absorb}
use anymone.ClientSet.Steps.{Input, on_bundle, on_bulletin, on_fragments, on_relays, step, run}
use anymone.ClientSet.Keeps.{store_fragments-Keeps, absorb_each-Keeps}

module _ {P Q O : Type 0} (c : Crates P Q O) (sid : List ℕ) where
  -- A bundle under its own hash, for this lane, from the client and signed.
  abbrev pub IsGenuine : SetServer P Q → ℕ → ℕ → Bundle P Q → Type 0
  IsGenuine s cid hash b =
      (bundle_hash_of c b ≡ hash)
      × (verify_bundle c sid s.n_lanes b ≡ true)
      × (b.lane ≡ s.server_id)
      × (b.client_id ≡ cid)

  abbrev IsTable : SetServer P Q → ℕ → List (ℕ × Bundle P Q) → Type 0
  IsTable s cid table =
      IsOrdered table
      × (length table ≤ max_bundles)
      × ((hash : ℕ) (b : Bundle P Q) → get table hash ≡ some b → IsGenuine s cid hash b)

  IsHeld : SetServer P Q → Type 0
  IsHeld s =
      (cid : ℕ) (table : List (ℕ × Bundle P Q)) → get s.held cid ≡ some table → IsTable s cid table

  Stores : SetServer P Q → Bundle P Q → Type 0
  Stores s b =
      let hash = bundle_hash_of c b in
      let table = unwrap_or [] (get s.held b.client_id) in
      (b.lane ≡ s.server_id)
      × (verify_bundle c sid s.n_lanes b ≡ true)
      × ((leb max_bundles (length table) && not (contains_key table hash)) ≡ false)
      × ((receive c s sid b).0
          ≡ record s { held = put_at s.held b.client_id (put_at table hash b) })

  receive-cases : (s : SetServer P Q) (b : Bundle P Q) → ((receive c s sid b).0 ≡ s) ⊎ Stores s b
  unfolding receive Stores
  receive-cases s b =
      let hash = bundle_hash_of c b in
      let table = unwrap_or [] (get s.held b.client_id) in
      elim (Bool-cases
        (s.relaying || not (b.lane == s.server_id) || not (verify_bundle c sid s.n_lanes b))) [
          | inl bad ↦ inl (ground (arith, bad))
          | inr good ↦
              elim (Bool-cases (leb max_bundles (length table) && not (contains_key table hash))) [
                | inl full ↦ inl (ground (arith, good, full))
                | inr room ↦
                    inr
                      (ground (arith, good), ground (arith, good), room, ground (arith, good, room))
              ]
        ]

  stored-IsHeld :
      (s : SetServer P Q) (cid : ℕ) (table : List (ℕ × Bundle P Q))
      → IsTable s cid table
      → IsHeld s
      → IsHeld (record s { held = put_at s.held cid table })
  unfolding IsHeld
  stored-IsHeld s cid table ok_table v cid' table' h = elim (Bool-cases (cid == cid')) [
    | inr other ↦ v cid' table' (ground (arith, h, other, get-put_at s.held cid cid' table))
    | inl same ↦
        let found : table ≡ table' = ground (arith, h, same, get-put_at s.held cid cid' table) in
        subst (IsTable s cid') found
          (subst (λ k. IsTable s k table) ((eqb_iff cid cid').0 same) ok_table)
  ]

  put-IsTable :
      (s : SetServer P Q) (cid hash : ℕ) (b : Bundle P Q) (table : List (ℕ × Bundle P Q))
      → IsGenuine s cid hash b
      → (leb max_bundles (length table) && not (contains_key table hash)) ≡ false
      → IsTable s cid table
      → IsTable s cid (put_at table hash b)
  put-IsTable s cid hash b table genuine room (ordered, few, all) = (
    put_at-IsOrdered table hash b ordered,
    ground (arith, room, few, length-put_at table hash b ordered),
    λ hash' b' h. elim (Bool-cases (hash == hash')) [
      | inr other ↦ all hash' b' (ground (arith, h, other, get-put_at table hash hash' b))
      | inl same ↦
          let found : b ≡ b' = ground (arith, h, same, get-put_at table hash hash' b) in
          subst (IsGenuine s cid hash') found
            (subst (λ k. IsGenuine s cid k b) ((eqb_iff hash hash').0 same) genuine)
    ],
  )

  unwrap_or-IsTable :
      (s : SetServer P Q) (cid : ℕ) → IsHeld s → IsTable s cid (unwrap_or [] (get s.held cid))
  unfolding IsHeld
  unwrap_or-IsTable s cid v = elim (Option-cases (get s.held cid)) [
    | inl h ↦ rw h (tt, omega arith, λ hash b k. cc)
    | inr (table, h) ↦ rw h (v cid table h)
  ]

  receive-IsHeld : (s : SetServer P Q) (b : Bundle P Q) → IsHeld s → IsHeld (receive c s sid b).0
  unfolding Stores
  receive-IsHeld s b v = elim (receive-cases s b) [
    | inl same ↦ subst IsHeld (sym same) v
    | inr (lane, signed, room, same) ↦
        let table = unwrap_or [] (get s.held b.client_id) in
        let hash = bundle_hash_of c b in
        subst IsHeld (sym same) (
          stored-IsHeld s b.client_id (put_at table hash b)
            (put-IsTable s b.client_id hash b table (refl, signed, lane, refl) room
              (unwrap_or-IsTable s b.client_id v))
            v)
  ]

  keep-IsHeld :
      (s t : SetServer P Q)
      → t.held ≡ s.held
      → t.n_lanes ≡ s.n_lanes
      → t.server_id ≡ s.server_id
      → IsHeld s
      → IsHeld t
  unfolding IsHeld
  keep-IsHeld s t held lanes id v cid table h = rw (lanes, id) (v cid table (rw (← held) h))

  step-IsHeld : (x : Input P Q) (s : SetServer P Q) → IsHeld s → IsHeld (step c s sid x).0
  unfolding note_bulletin submit accept_fragments absorb
  step-IsHeld (on_bundle b) s v = receive-IsHeld s b v
  step-IsHeld (on_bulletin cid pk) s v = keep-IsHeld s _ refl refl refl v
  step-IsHeld (on_fragments fs) s v =
      let (pks, id, key, mono, held, lanes, rows) =
        store_fragments-Keeps c (retain (fragment_ok c s sid) fs) s sid in
      keep-IsHeld s _ held lanes id v
  step-IsHeld (on_relays round incoming) s v =
      let (pks, id, key, mono, held, lanes, rows) = absorb_each-Keeps c _ s sid round in
      keep-IsHeld s _ held lanes id v

  run-IsHeld : (xs : List (Input P Q)) (s : SetServer P Q) → IsHeld s → IsHeld (run c xs s sid).0
  run-IsHeld [] s v = v
  run-IsHeld (x ∷ xs) s v = run-IsHeld xs (step c s sid x).0 (step-IsHeld x s v)

  new-IsHeld : (pp : ProtocolParams) (id signer : ℕ) (pks : List ℕ) → IsHeld (new pp id signer pks)
  unfolding IsHeld new
  new-IsHeld pp id signer pks cid table h = cc

  -- Whatever reaches a new server, it holds at most four bundles of a client, each under its own
  -- hash, of that client, for this server's lane, and signed by the key that it bears.
  pub run-new-IsHeld :
      (pp : ProtocolParams) (id signer : ℕ) (pks : List ℕ) (xs : List (Input P Q)) (cid : ℕ)
      → (table : List (ℕ × Bundle P Q))
      → get (run c xs (new pp id signer pks) sid).0.held cid ≡ some table
      → (length table ≤ 4)
        × ((hash : ℕ) (b : Bundle P Q)
            → get table hash ≡ some b
            → IsGenuine (run c xs (new pp id signer pks) sid).0 cid hash b)
  unfolding IsHeld
  run-new-IsHeld pp id signer pks xs cid table h =
      let (ordered, few, genuine) =
        run-IsHeld xs (new pp id signer pks) (new-IsHeld pp id signer pks) cid table h in
      (few, genuine)
