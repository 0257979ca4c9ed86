-- ===== src/ClientSet/Client/Served.antt =====
-- What a client builds, the lanes take.
use anymone.Base.{
  ℕ, zero, suc, ◌+◌, ◌≤◌, ◌<◌, ◌≡◌, refl, ap, subst, map, true, some, List, [], ◌∷◌, length,
  range_from, get_elem?, All, arith,
}
use anymone.Base.Equality.{nat_eq, list_eq, beq_refl}
use anymone.Base.Ordered.{put_at}
use anymone.ClientSet.{
  Crates, ProtocolParams, Bundle, new, verify_bundle, bundle_signing_bytes, bundle_hash_of,
}
use anymone.ClientSet.Server.{receive, receipt_of, own_batch}
use anymone.ClientSet.Client.{
  ClientCrates, RsClientRoundOutput, ClientSetRound, signed_bundle, build_bundle, build_bundles,
  client_set_round_from_rs,
}

pub in_range {ℓ} :
    {A : Type ℓ} (xs : List A) (i : ℕ) → i < length xs → (x : A) × (get_elem? xs i ≡ some x)
in_range [] i h = absurd (omega arith)
in_range (x ∷ xs) zero h = (x, refl)
in_range (x ∷ xs) (suc i) h = in_range xs i (omega arith)

pub range_from-lt : (start n m : ℕ) → start + n ≤ m → All (λ x. x < m) (range_from start n)
range_from-lt start zero m h = tt
range_from-lt start (suc n) m h = (omega arith, range_from-lt (start + 1) n m (omega arith))

module _ {P Q O : Type 0} (c : Crates P Q O) (l : ClientCrates P) (key : ℕ) where
  -- The key's bytes are read back as a key under which its signatures verify.
  abbrev pub IsKey : Type 0
  IsKey =
      (vk : ℕ) × (c.from_sec1_bytes (l.to_sec1_bytes key) ≡ some vk)
      × ((msg : List ℕ) → c.verify vk msg (c.sign key msg) ≡ true)

  -- A round has a share, a path and an envelope for each lane, and each path opens its own lane.
  abbrev pub IsRound : {W : Type 0} → ProtocolParams → RsClientRoundOutput P Q W → Type 0
  IsRound pp round =
      (length round.rs_shares ≡ pp.n)
      × (length round.share_paths ≡ pp.n)
      × (length round.sealed_openings ≡ pp.n)
      × ((lane : ℕ) (path : Q)
          → get_elem? round.share_paths lane ≡ some path
          → c.lane_index path ≡ lane)

  -- The bundle is a new lane's only one, and its row has it under the client's key.
  abbrev pub IsTaken : ProtocolParams → List ℕ → ℕ → Bundle P Q → Type 0
  IsTaken pp sid cid b =
      (signer : ℕ) (keys : List ℕ)
      → let done = receive c (new pp b.lane signer keys) sid b in
        (done.1 ≡ true)
        × ((own_batch c done.0 sid).receipts
            ≡ record {
              client_id = cid;
              pk_c = l.to_sec1_bytes key;
              bundle_hash = bundle_hash_of c b;
            }
              ∷ [])

  signed_bundle-verified :
      (pp : ProtocolParams) (sid : List ℕ) (cid lane : ℕ) (share : List P) (path : Q)
      (envelope : List ℕ)
      → IsKey
      → lane < pp.n
      → c.lane_index path ≡ lane
      → verify_bundle c sid pp.n (signed_bundle c l sid cid key lane share path envelope) ≡ true
  unfolding verify_bundle
  signed_bundle-verified pp sid cid lane share path envelope (vk, read, valid) small opens =
      let signed = valid (bundle_signing_bytes c sid cid lane share path envelope) in
      ground (arith, small, opens, read, signed)

  built-verified :
      {W : Type 0} (pp : ProtocolParams) (sid : List ℕ) (round : RsClientRoundOutput P Q W)
      (lane : ℕ)
      → IsKey
      → IsRound pp round
      → lane < pp.n
      → (b : Bundle P Q) × (build_bundle c l sid round key lane ≡ some b)
        × (verify_bundle c sid pp.n b ≡ true)
        × (b.lane ≡ lane)
        × (b.client_id ≡ round.client_id)
        × (b.pubkey ≡ l.to_sec1_bytes key)
  unfolding build_bundle
  built-verified pp sid round lane is (shares, paths, sealed, opens) small =
      let (share, share_at) = in_range round.rs_shares lane (omega arith) in
      let (path, path_at) = in_range round.share_paths lane (omega arith) in
      let (opening, opening_at) = in_range round.sealed_openings lane (omega arith) in
      (
        signed_bundle c l sid round.client_id key lane share path opening.1,
        rw (share_at, path_at, opening_at) refl,
        signed_bundle-verified pp sid round.client_id lane share path opening.1 is small
            (opens lane path path_at),
        refl,
        refl,
        refl,
      )

  taken :
      (pp : ProtocolParams) (sid : List ℕ) (b : Bundle P Q)
      → verify_bundle c sid pp.n b ≡ true
      → b.pubkey ≡ l.to_sec1_bytes key
      → IsTaken pp sid b.client_id b
  unfolding receive own_batch receipt_of put_at new
  taken pp sid b good same signer keys =
      rw (good, beq_refl b.lane)
        (
          refl,
          ap
              (λ k.
                record { client_id = b.client_id; pk_c = k; bundle_hash = bundle_hash_of c b } ∷ [])
              same,
        )

  built-All :
      {W : Type 0} (pp : ProtocolParams) (sid : List ℕ) (round : RsClientRoundOutput P Q W)
      (lanes : List ℕ)
      → IsKey
      → IsRound pp round
      → All (λ lane. lane < pp.n) lanes
      → (bs : List (Bundle P Q)) × (build_bundles c l sid round key lanes ≡ some bs)
        × (map (λ b. b.lane) bs ≡ lanes)
        × All (IsTaken pp sid round.client_id) bs
  unfolding build_bundles
  built-All pp sid round [] is whole small = ([], refl, refl, tt)
  built-All pp sid round (lane ∷ lanes) is whole small =
      let (b, at, good, here, mine, key_of) = built-verified pp sid round lane is whole small.0 in
      let (bs, rest, order, all) = built-All pp sid round lanes is whole small.1 in
      (
        b ∷ bs,
        rw (at, rest) refl,
        rw (here, order) refl,
        (subst (λ cid. IsTaken pp sid cid b) mine (taken pp sid b good key_of), all),
      )

  -- If the client's key is read back and verifies its signatures, and its round has a share, an
  -- envelope and an opening of its own commitment for each lane, then there is a bundle for each
  -- lane in order, a new server of that lane takes it, and the server's row then reports the
  -- client once, under the client's key and the bundle's hash.
  pub built_bundles_taken :
      {W : Type 0} (pp : ProtocolParams) (sid : List ℕ) (round : RsClientRoundOutput P Q W)
      → IsKey
      → IsRound pp round
      → (out : ClientSetRound P Q W) × (client_set_round_from_rs c l pp sid round key ≡ some out)
        × (map (λ b. b.lane) out.bundles ≡ range_from 0 pp.n)
        × All (IsTaken pp sid round.client_id) out.bundles
  unfolding client_set_round_from_rs
  built_bundles_taken pp sid round is whole =
      let (bs, built, order, all) =
        built-All pp sid round (range_from 0 pp.n) is whole
          (range_from-lt 0 pp.n pp.n (omega arith)) in
      (
        record { client_id = round.client_id; bulletin = round.bulletin; bundles = bs },
        rw (whole.2, beq_refl pp.n, built) refl,
        order,
        all,
      )
