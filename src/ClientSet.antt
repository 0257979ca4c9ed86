-- ===== src/ClientSet.antt =====
-- crates/anymone-core/src/client_set.rs: the bundles, receipts, fragments and relays of a round, what
-- their signatures cover, and the state of a lane's server. The panetiere crate and SHA-256 are the
-- fields of `Crates`; a lane's client and server numbers are `u32`s, 32-byte hashes are numbers in
-- the order of their bytes, and other arrays are lists of bytes.
pub mod Wire
pub mod Server
pub mod Relaying
pub mod Finalize
pub mod Plurality
pub mod Membership
pub mod Keeps
pub mod Steps
pub mod Held
pub mod Rows
pub mod Chains
pub mod Once
pub mod Packing
pub mod Agreement
pub mod Client
use anymone.Base.{
  ℕ, ◌+◌, ◌*◌, ◌-◌, Bool, true, false, ◌&&◌, not, Option, none, some, List, [], ◌∷◌, ◌++◌, map,
  length, ltb, leb, codes, be_bytes, le_bytes, concat, if◌then◌else◌, get_elem?, map_or,
}
use anymone.Base.Equality.{nat_eq, ◌==◌}

pub record ShareCommitmentParams : Type 0 where
  pub block_len : ℕ
  pub n_lanes : ℕ

-- The fields of `ProtocolParams` and its `RsParams` that the code reads.
pub record ProtocolParams : Type 0 where
  pub n : ℕ
  pub k : ℕ
  pub share_comm : Option ShareCommitmentParams

-- `P` stands for the polynomials of a share, `Q` for the opening paths and `O` for the openings.
pub record Crates (P Q O : Type 0) : Type 0 where
  pub sha256 : List ℕ → ℕ
  pub from_sec1_bytes : List ℕ → Option ℕ
  pub verify : ℕ → List ℕ → List ℕ → Bool
  pub sign : ℕ → List ℕ → List ℕ
  pub pack_share : List P → List ℕ
  pub unpack_share : List ℕ → ℕ → Option (List P)
  pub lane_index : Q → ℕ
  pub path_coeffs : Q → List (List ℕ)
  pub path_to_bytes : Q → Option (List ℕ)
  pub path_from_bytes : ShareCommitmentParams → ℕ → List ℕ → Option Q
  pub ntt_slots : P → List ℕ
  pub slots : ℕ
  pub rs_poly_packed_len : ℕ
  pub fresh_path_packed_len : ℕ → ℕ
  pub pubkey_len : ℕ
  pub sig_len : ℕ
  pub reconstruct : ℕ → ℕ → ℕ → List (ℕ × List P) → Option (List P)
  pub unseal_opening : ℕ → List ℕ → ℕ → ℕ → List ℕ → Option O

pub record Bundle (P Q : Type 0) : Type 0 where
  pub client_id : ℕ
  pub lane : ℕ
  pub share : List P
  pub path : Q
  pub envelope : List ℕ
  pub pubkey : List ℕ
  pub sig : List ℕ

pub record Receipt : Type 0 where
  pub client_id : ℕ
  pub pk_c : List ℕ
  pub bundle_hash : ℕ

pub record ReceiptBatch : Type 0 where
  pub server_id : ℕ
  pub receipts : List Receipt
  pub sig : List ℕ

pub record Fragment (P : Type 0) : Type 0 where
  pub client_id : ℕ
  pub idx : ℕ
  pub data' : List P
  pub sig : List ℕ

pub data RelayItem (P : Type 0) : Type 0 where
  batch : ReceiptBatch → RelayItem P
  fragment : Fragment P → RelayItem P

pub record Relay (P : Type 0) : Type 0 where
  pub item : RelayItem P
  pub chain : List (ℕ × List ℕ)

pub record SetServer (P Q : Type 0) : Type 0 where
  pub server_id : ℕ
  pub n_lanes : ℕ
  pub k : ℕ
  pub signer : ℕ
  pub server_pks : List ℕ
  pub relaying : Bool
  pub accepted : List ℕ
  pub held : List (ℕ × List (ℕ × Bundle P Q))
  pub batches : List (ℕ × ReceiptBatch)
  pub fragments : List (ℕ × List (ℕ × Fragment P))
  pub bulletins : List (ℕ × List (List ℕ))

unfoldable pub relay_rounds : ProtocolParams → ℕ
relay_rounds pp = pp.n - pp.k + 1

unfoldable pub new : {P Q : Type 0} → ProtocolParams → ℕ → ℕ → List ℕ → SetServer P Q
new pp server_id signer server_pks = record {
  server_id = server_id;
  n_lanes = pp.n;
  k = pp.k;
  signer = signer;
  server_pks = server_pks;
  relaying = false;
  accepted = [];
  held = [];
  batches = [];
  fragments = [];
  bulletins = [];
}

-- `pack_into`
unfoldable pub receipt_bytes : Receipt → List ℕ
receipt_bytes r = le_bytes 4 r.client_id ++ (r.pk_c ++ be_bytes 32 r.bundle_hash)

unfoldable pub batch_signing_bytes : List ℕ → ℕ → List Receipt → List ℕ
batch_signing_bytes sid server_id receipts =
    codes "panetiere/client-set/batch/v1"
    ++ (sid
        ++ (le_bytes 4 server_id
            ++ (le_bytes 4 (length receipts) ++ concat (map receipt_bytes receipts))))

unfoldable pub relay_signing_bytes : List ℕ → ℕ → List ℕ
relay_signing_bytes sid item_hash =
    codes "panetiere/client-set/relay/v1" ++ (sid ++ be_bytes 32 item_hash)

module _ {P Q O : Type 0} (c : Crates P Q O) where
  unfoldable pub hash_share : List P → ℕ
  hash_share share = c.sha256 (c.pack_share share)

  unfoldable pub hash_path : Q → ℕ
  hash_path path =
      c.sha256
        (le_bytes 4 (c.lane_index path) ++ concat (map (le_bytes 8) (concat (c.path_coeffs path))))

  unfoldable pub bundle_signing_bytes : List ℕ → ℕ → ℕ → List P → Q → List ℕ → List ℕ
  bundle_signing_bytes sid client_id lane share path envelope =
      codes "panetiere/client-set/bundle/v3"
      ++ (sid
          ++ (le_bytes 4 client_id
              ++ (le_bytes 4 lane
                  ++ (be_bytes 32 (hash_share share)
                      ++ (be_bytes 32 (hash_path path) ++ be_bytes 32 (c.sha256 envelope))))))

  -- `Bundle::hash`
  unfoldable pub bundle_hash_of : Bundle P Q → ℕ
  bundle_hash_of b = c.sha256 (
      be_bytes 32 (hash_share b.share)
      ++ (be_bytes 32 (hash_path b.path) ++ (b.envelope ++ (b.pubkey ++ b.sig))))

  -- `Bundle::verify`
  unfoldable pub verify_bundle : List ℕ → ℕ → Bundle P Q → Bool
  verify_bundle sid n_lanes b =
      if leb n_lanes b.lane
      then false
      else if not (c.lane_index b.path == b.lane)
      then false
      else map_or false
          (λ vk.
            c.verify vk (bundle_signing_bytes sid b.client_id b.lane b.share b.path b.envelope)
              b.sig)
          (c.from_sec1_bytes b.pubkey)

  -- `ReceiptBatch::verify`
  unfoldable pub verify_batch : List ℕ → List ℕ → ReceiptBatch → Bool
  verify_batch sid pks b =
      map_or false (λ vk. c.verify vk (batch_signing_bytes sid b.server_id b.receipts) b.sig)
        (get_elem? pks b.server_id)

  unfoldable pub fragment_signing_bytes : List ℕ → ℕ → ℕ → List P → List ℕ
  fragment_signing_bytes sid client_id idx data' =
      codes "panetiere/client-set/fragment/v1"
      ++ (sid ++ (le_bytes 4 client_id ++ (le_bytes 4 idx ++ be_bytes 32 (hash_share data'))))

  unfoldable pub fragment_item_hash : List ℕ → Fragment P → ℕ
  fragment_item_hash sid f = c.sha256 (
      codes "panetiere/client-set/fragment-id/v1"
      ++ fragment_signing_bytes sid f.client_id f.idx f.data')

  -- `RelayItem::hash`
  unfoldable pub item_hash : List ℕ → RelayItem P → ℕ
  item_hash sid (batch b) =
      c.sha256
        (codes "panetiere/client-set/batch-id/v1" ++ batch_signing_bytes sid b.server_id b.receipts)
  item_hash sid (fragment f) = fragment_item_hash sid f
