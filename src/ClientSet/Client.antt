-- ===== src/ClientSet/Client.antt =====
-- crates/anymone-core/src/client_set.rs: the client's side of a round: its bundles, one for each lane,
-- and the fragments of the bundles that lanes deny. `none` is a panic.
pub mod Served
pub mod Repairing
pub mod Blobs
use anymone.Base.{
  ℕ, zero, suc, ◌+◌, ◌-◌, ◌*◌, ◌/◌, max, Bool, ◌||◌, not, Option, none, some, List, [], ◌∷◌, ◌++◌,
  map, length, ltb, retain, take, drop, le_value, range_from, if◌then◌else◌, get_elem?,
}
use anymone.Base.Equality.{nat_eq, ◌==◌}
use anymone.Base.Options.{◌>>=◌, ◌>>◌, require}
use anymone.Base.Sets.{contains}
use anymone.ClientSet.{
  Crates, ProtocolParams, ShareCommitmentParams, Bundle, Fragment, bundle_signing_bytes,
  fragment_signing_bytes,
}
use anymone.ClientSet.Wire.{bytes_per_coeff, pack_bundle}

-- What the client calls besides: the reading of slots as a polynomial, the code, and a key's bytes.
pub record ClientCrates (P : Type 0) : Type 0 where
  pub from_ntt_slots : List ℕ → P
  pub encode : ℕ → ℕ → List P → List (List P)
  pub to_sec1_bytes : ℕ → List ℕ

-- `RsClientRoundOutput` of the panetiere crate, with its bulletin as a parameter `W`.
pub record RsClientRoundOutput (P Q W : Type 0) : Type 0 where
  pub client_id : ℕ
  pub bulletin : W
  pub rs_shares : List (List P)
  pub share_paths : List Q
  pub sealed_openings : List (ℕ × List ℕ)

pub record ClientSetRound (P Q W : Type 0) : Type 0 where
  pub client_id : ℕ
  pub bulletin : W
  pub bundles : List (Bundle P Q)

unfoldable pub div_ceil : ℕ → ℕ → ℕ
div_ceil a b = (a + b - 1) / b

-- `fragment_params`: how many shares rebuild, and how many there are.
unfoldable pub fragment_params : ProtocolParams → ℕ × ℕ
fragment_params pp = (pp.n - pp.k, pp.n)

-- The slot at an index of the blob, with zeros past its end.
unfoldable pub slot_at : List ℕ → ℕ → ℕ
slot_at blob i = le_value (take bytes_per_coeff (drop (i * bytes_per_coeff) blob))

unfoldable pub uncovered_lanes : ProtocolParams → List ℕ → List ℕ
uncovered_lanes pp covered = retain (λ lane. not (contains covered lane)) (range_from 0 pp.n)

module _ {P Q O : Type 0} (c : Crates P Q O) (l : ClientCrates P) where
  unfoldable pub blob_to_polys : List ℕ → List P
  blob_to_polys blob =
      let coeffs = max (div_ceil (length blob) bytes_per_coeff) 1 in
      map (λ p. l.from_ntt_slots (map (slot_at blob) (range_from (p * c.slots) c.slots)))
        (range_from 0 (div_ceil coeffs c.slots))

  -- A lane's bundle, signed.
  abbrev pub signed_bundle : List ℕ → ℕ → ℕ → ℕ → List P → Q → List ℕ → Bundle P Q
  signed_bundle sid cid key lane share path envelope = record {
    client_id = cid;
    lane = lane;
    share = share;
    path = path;
    envelope = envelope;
    pubkey = l.to_sec1_bytes key;
    sig = c.sign key (bundle_signing_bytes c sid cid lane share path envelope);
  }

  -- One turn of the loop in `client_set_round_from_rs`.
  unfoldable pub build_bundle :
      {W : Type 0} → List ℕ → RsClientRoundOutput P Q W → ℕ → ℕ → Option (Bundle P Q)
  build_bundle sid round key lane = do
    share ← get_elem? round.rs_shares lane
    path ← get_elem? round.share_paths lane
    sealed ← get_elem? round.sealed_openings lane
    some (signed_bundle sid round.client_id key lane share path sealed.1)

  unfoldable pub build_bundles :
      {W : Type 0} → List ℕ → RsClientRoundOutput P Q W → ℕ → List ℕ → Option (List (Bundle P Q))
  build_bundles sid round key [] = some []
  build_bundles sid round key (lane ∷ lanes) = do
    b ← build_bundle sid round key lane
    rest ← build_bundles sid round key lanes
    some (b ∷ rest)

  unfoldable pub client_set_round_from_rs :
      {W : Type 0}
      → ProtocolParams
      → List ℕ
      → RsClientRoundOutput P Q W
      → ℕ
      → Option (ClientSetRound P Q W)
  client_set_round_from_rs pp sid round key = do
    require (length round.sealed_openings == pp.n)
    bundles ← build_bundles sid round key (range_from 0 pp.n)
    some (record { client_id = round.client_id; bulletin = round.bulletin; bundles = bundles })

  -- The bytes of the bundles of the lanes, one after the other.
  unfoldable pub pack_lanes : List (Bundle P Q) → List ℕ → Option (List ℕ)
  pack_lanes bundles [] = some []
  pack_lanes bundles (lane ∷ lanes) = do
    b ← get_elem? bundles lane
    bytes ← pack_bundle c b
    rest ← pack_lanes bundles lanes
    some (bytes ++ rest)

  unfoldable pub sign_fragments : List ℕ → ℕ → ℕ → ℕ → List (List P) → List (Fragment P)
  sign_fragments sid cid key idx [] = []
  sign_fragments sid cid key idx (data' ∷ rest) =
      record {
        client_id = cid;
        idx = idx;
        data' = data';
        sig = c.sign key (fragment_signing_bytes c sid cid idx data');
      }
      ∷ sign_fragments sid cid key (suc idx) rest

  -- The last part of `build_fragments`.
  unfoldable pub code_fragments :
      {W : Type 0}
      → ProtocolParams
      → List ℕ
      → ClientSetRound P Q W
      → List ℕ
      → ℕ
      → Option (List (Fragment P))
  code_fragments pp sid round missing key = do
    scp ← pp.share_comm
    blob ← pack_lanes round.bundles missing
    let params = fragment_params pp
    some
        (sign_fragments sid round.client_id key 0 (l.encode params.0 params.1 (blob_to_polys blob)))

  unfoldable pub build_fragments :
      {W : Type 0}
      → ProtocolParams
      → List ℕ
      → ClientSetRound P Q W
      → List ℕ
      → ℕ
      → Option (List (Fragment P))
  build_fragments pp sid round covered key =
      let missing = uncovered_lanes pp covered in
      if length missing == 0 || ltb (length covered) (pp.n - pp.k)
      then some []
      else code_fragments pp sid round missing key
