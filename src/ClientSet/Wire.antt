-- ===== src/ClientSet/Wire.antt =====
-- crates/anymone-core/src/client_set.rs: the byte form of a bundle, and a repair blob as polynomials.
use anymone.Base.{
  ℕ, ◌+◌, ◌*◌, Option, some, List, ◌++◌, map, length, get_range, le_bytes, le_value, concat, take,
}
use anymone.Base.Options.{◌>>=◌}
use anymone.ClientSet.{Crates, ShareCommitmentParams, Bundle}

-- `u32::from_le_bytes(bytes.get(at..at + 4)?)`
unfoldable pub word : List ℕ → ℕ → Option ℕ
word bytes at = do four ← get_range bytes at (at + 4); some (le_value four)

abbrev pub bytes_per_coeff : ℕ
bytes_per_coeff = 5

module _ {P Q O : Type 0} (c : Crates P Q O) where
  -- `Bundle::pack`
  unfoldable pub pack_bundle : Bundle P Q → Option (List ℕ)
  pack_bundle b = do
    path ← c.path_to_bytes b.path
    some (
        le_bytes 4 b.lane
        ++ (c.pack_share b.share
            ++ (path ++ (le_bytes 4 (length b.envelope) ++ (b.envelope ++ (b.pubkey ++ b.sig))))))

  -- `Bundle::unpack`
  unfoldable pub unpack_bundle : ShareCommitmentParams → ℕ → List ℕ → Option (Bundle P Q × ℕ)
  unpack_bundle scp client_id bytes = do
    lane ← word bytes 0
    let share_end = 4 + scp.block_len * c.rs_poly_packed_len
    share_bytes ← get_range bytes 4 share_end
    share ← c.unpack_share share_bytes scp.block_len
    let path_end = share_end + c.fresh_path_packed_len scp.n_lanes
    path_bytes ← get_range bytes share_end path_end
    path ← c.path_from_bytes scp lane path_bytes
    env_len ← word bytes path_end
    let envelope_end = path_end + 4 + env_len
    envelope ← get_range bytes (path_end + 4) envelope_end
    pubkey ← get_range bytes envelope_end (envelope_end + c.pubkey_len)
    let key_end = envelope_end + c.pubkey_len
    sig ← get_range bytes key_end (key_end + c.sig_len)
    some (
      record {
        client_id = client_id;
        lane = lane;
        share = share;
        path = path;
        envelope = envelope;
        pubkey = pubkey;
        sig = sig;
      },
      key_end + c.sig_len,
    )

  unfoldable pub polys_to_blob : List P → ℕ → List ℕ
  polys_to_blob polys blob_len =
      take blob_len
        (concat (map (λ p. concat (map (le_bytes bytes_per_coeff) (c.ntt_slots p))) polys))
