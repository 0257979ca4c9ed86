-- ===== src/ClientSet/Client/Repairing.antt =====
-- The fragments that a client codes pass the test of every lane that knows its key.
use anymone.Base.{
  ℕ, suc, ◌+◌, ◌-◌, ◌≤◌, ◌<◌, ◌≡◌, refl, sym, subst, true, ◌||◌, not, some, List, [], ◌∷◌, length,
  ltb, range_from, All, retain-All, le_bytes, if◌then◌else◌, arith, Bool-cases, inl, inr, ◌++◌,
}
use anymone.Base.Equality.{nat_eq, list_eq, ◌==◌}
use anymone.Base.Sets.{contains}
use anymone.ClientSet.{
  Crates, ProtocolParams, ShareCommitmentParams, Bundle, Fragment, SetServer,
  fragment_signing_bytes,
}
use anymone.ClientSet.Wire.{pack_bundle}
use anymone.ClientSet.Server.{held_at, reported_key, fragment_ok}
use anymone.ClientSet.Client.{
  ClientCrates, ClientSetRound, fragment_params, pack_lanes, sign_fragments, code_fragments,
  uncovered_lanes, build_fragments, blob_to_polys,
}
use anymone.ClientSet.Client.Served.{IsKey, in_range, range_from-lt}

module _ {P Q O : Type 0} (c : Crates P Q O) (l : ClientCrates P) (key : ℕ) where
  -- The server has as many lanes, has the client's key from one bulletin, and holds no fragment of it.
  abbrev pub KnowsClient : ProtocolParams → ℕ → SetServer P Q → Type 0
  KnowsClient pp cid s =
      (s.n_lanes ≡ pp.n) × (reported_key s cid ≡ some (l.to_sec1_bytes key)) × (held_at s cid ≡ [])

  -- The code gives one share for each lane, and every path can be written as bytes.
  abbrev pub IsCode : ProtocolParams → Type 0
  IsCode pp =
      ((polys : List P) → length (l.encode (pp.n - pp.k) pp.n polys) ≡ pp.n)
      × ((path : Q) → (bytes : List ℕ) × (c.path_to_bytes path ≡ some bytes))

  length-sign_fragments :
      (sid : List ℕ) (cid idx : ℕ) (shares : List (List P))
      → length (sign_fragments c l sid cid key idx shares) ≡ length shares
  unfolding sign_fragments
  length-sign_fragments sid cid idx [] = refl
  length-sign_fragments sid cid idx (share ∷ shares) =
      omega (arith, length-sign_fragments sid cid (suc idx) shares)

  sign_fragments-ok :
      (pp : ProtocolParams) (s : SetServer P Q) (sid : List ℕ) (cid idx : ℕ)
      (shares : List (List P))
      → IsKey c l key
      → KnowsClient pp cid s
      → idx + length shares ≤ pp.n
      → All (λ f. fragment_ok c s sid f ≡ true) (sign_fragments c l sid cid key idx shares)
  unfolding sign_fragments fragment_ok
  sign_fragments-ok pp s sid cid idx [] is knows room = tt
  sign_fragments-ok pp s sid cid idx (share ∷ shares) (vk, read, valid) (lanes, posted, empty)
        room =
      let signed = valid (fragment_signing_bytes c sid cid idx share) in
      (
        rw (posted, read, empty) (ground (arith, signed, room, lanes)),
        sign_fragments-ok pp s sid cid (suc idx) shares (vk, read, valid) (lanes, posted, empty)
            (omega (arith, room)),
      )

  pack_bundle-All :
      (pp : ProtocolParams) (b : Bundle P Q)
      → IsCode pp
      → (bytes : List ℕ) × (pack_bundle c b ≡ some bytes)
  unfolding pack_bundle
  pack_bundle-All pp b (coded, packed) =
      let (path, at) = packed b.path in
      (
        le_bytes 4 b.lane
            ++ (c.pack_share b.share
                ++ (path
                    ++ (le_bytes 4 (length b.envelope) ++ (b.envelope ++ (b.pubkey ++ b.sig))))),
        rw at refl,
      )

  pack_lanes-All :
      (pp : ProtocolParams) (bundles : List (Bundle P Q)) (lanes : List ℕ)
      → IsCode pp
      → All (λ lane. lane < length bundles) lanes
      → (blob : List ℕ) × (pack_lanes c l bundles lanes ≡ some blob)
  unfolding pack_lanes
  pack_lanes-All pp bundles [] code small = ([], refl)
  pack_lanes-All pp bundles (lane ∷ lanes) code small =
      let (b, at) = in_range bundles lane small.0 in
      let (bytes, first) = pack_bundle-All pp b code in
      let (rest, more) = pack_lanes-All pp bundles lanes code small.1 in
      (bytes ++ rest, rw (at, first, more) refl)

  code_fragments_lem :
      {W : Type 0} (pp : ProtocolParams) (scp : ShareCommitmentParams) (sid : List ℕ)
      (round : ClientSetRound P Q W) (missing blob : List ℕ)
      → pp.share_comm ≡ some scp
      → pack_lanes c l round.bundles missing ≡ some blob
      → code_fragments c l pp sid round missing key
        ≡ some (
            sign_fragments c l sid round.client_id key 0
              (l.encode (pp.n - pp.k) pp.n (blob_to_polys c l blob)))
  unfolding code_fragments fragment_params
  code_fragments_lem pp scp sid round missing blob geometry at = ground (arith, geometry, at)

  uncovered-lt :
      (pp : ProtocolParams) (covered : List ℕ) → All (λ x. x < pp.n) (uncovered_lanes pp covered)
  unfolding uncovered_lanes
  uncovered-lt pp covered =
      retain-All (λ x. x < pp.n) (λ lane. not (contains covered lane)) (range_from 0 pp.n)
        (range_from-lt 0 pp.n pp.n (omega arith))

  -- If the code gives one share for each lane and paths can be written as bytes, a client that
  -- lacks no lane, or whose covered lanes are fewer than n - k, builds no fragment; else it builds
  -- one for each lane. Each passes the test of a server that has the client's one posted key and
  -- no fragment of it, if that key verifies the client's signatures.
  pub built_fragments_ok :
      {W : Type 0} (pp : ProtocolParams) (scp : ShareCommitmentParams) (sid : List ℕ)
      (round : ClientSetRound P Q W) (covered : List ℕ) (s : SetServer P Q)
      → IsKey c l key
      → IsCode pp
      → pp.share_comm ≡ some scp
      → length round.bundles ≡ pp.n
      → KnowsClient pp round.client_id s
      → (fs : List (Fragment P)) × (build_fragments c l pp sid round covered key ≡ some fs)
        × (length fs ≡ (
            if length (uncovered_lanes pp covered) == 0 || ltb (length covered) (pp.n - pp.k)
            then 0
            else pp.n))
        × All (λ f. fragment_ok c s sid f ≡ true) fs
  unfolding build_fragments
  built_fragments_ok pp scp sid round covered s is (coded, packed) geometry whole knows =
      let idle = length (uncovered_lanes pp covered) == 0 || ltb (length covered) (pp.n - pp.k) in
      elim (Bool-cases idle) [
        | inl nothing ↦ ([], rw nothing refl, rw nothing refl, tt)
        | inr some_left ↦
            let (blob, at) =
              pack_lanes-All pp round.bundles (uncovered_lanes pp covered) (coded, packed)
                (subst (λ n. All (λ x. x < n) (uncovered_lanes pp covered)) (sym whole)
                  (uncovered-lt pp covered)) in
            let shares = l.encode (pp.n - pp.k) pp.n (blob_to_polys c l blob) in
            let many = coded (blob_to_polys c l blob) in
            (
              sign_fragments c l sid round.client_id key 0 shares,
              rw some_left (
                  code_fragments_lem pp scp sid round (uncovered_lanes pp covered) blob geometry
                    at),
              rw some_left
                  (omega (arith, many, length-sign_fragments sid round.client_id 0 shares)),
              sign_fragments-ok pp s sid round.client_id 0 shares is knows (omega (arith, many)),
            )
      ]
