-- ===== src/ClientSet/Packing/RoundTrip.antt =====
-- crates/anymone-core/src/client_set.rs: a relay that was packed is read back as it was.
use anymone.Base.{
  ◌+◌, ◌*◌, ◌<◌, ◌≡◌, refl, some, List, [], ◌∷◌, ◌++◌, map, length, le_bytes, concat, All, arith,
}
use anymone.Base.Equality.{nat_eq}
use anymone.Base.Reading.{u32_bound, At-start, At-next, At-get, At-length, At-end}
use anymone.ClientSet.{
  Crates, receipt_bytes, ReceiptBatch, Fragment, RelayItem, batch, fragment, Relay,
}
use anymone.ClientSet.Packing.{
  receipt_len, pack_batch, unpack_batch, pack_fragment, unpack_fragment, pack_item, item_tag,
  unpack_item, chain_entry, chain_bytes, pack_relay, unpack_relay,
}
use anymone.ClientSet.Packing.Receipts.{
  ReceiptFits, EntryFits, word-At, skip_word, count_passes, length-receipts, length-chain,
  unpack_receipts-All, unpack_chain-All,
}

module _ {P Q O : Type 0} (c : Crates P Q O) where
  -- What the crate says of a share: it is read back from as many bytes as it has polynomials.
  abbrev pub ReadsShares : Type 0
  ReadsShares =
      (0 < c.rs_poly_packed_len)
      × ((share : List P) → length (c.pack_share share) ≡ length share * c.rs_poly_packed_len)
      × ((share : List P) → c.unpack_share (c.pack_share share) (length share) ≡ some share)

  abbrev pub BatchFits : ReceiptBatch → Type 0
  BatchFits b =
      (b.server_id < u32_bound)
      × (length b.sig ≡ c.sig_len)
      × (length b.receipts < u32_bound)
      × All (ReceiptFits c) b.receipts

  abbrev pub FragmentFits : Fragment P → Type 0
  FragmentFits f =
      (f.client_id < u32_bound)
      × (f.idx < u32_bound)
      × (length f.data' < u32_bound)
      × (length f.sig ≡ c.sig_len)

  abbrev pub ItemFits : RelayItem P → Type 0
  ItemFits (batch b) = BatchFits b
  ItemFits (fragment f) = FragmentFits f

  -- Every number is in the range of its type, and every array has its length.
  abbrev pub RelayFits : Relay P → Type 0
  RelayFits r =
      ItemFits r.item
      × (length (pack_item c r.item) < u32_bound)
      × (length r.chain < u32_bound)
      × All (EntryFits c) r.chain

  unpack_batch-pack_batch :
      (b : ReceiptBatch) → BatchFits b → unpack_batch c (pack_batch b) ≡ some b
  unfolding pack_batch unpack_batch
  unpack_batch-pack_batch b (id, sig, few, fits) =
      let rows = concat (map receipt_bytes b.receipts) in
      let tail = le_bytes 4 (length b.receipts) ++ rows in
      let at = 4 + c.sig_len in
      let here = At-start (pack_batch b) in
      let sig_at = skip_word 0 b.server_id (b.sig ++ tail) here in
      let n_at = At-next 4 c.sig_len b.sig tail sig_at sig in
      let rows_at = skip_word at (length b.receipts) rows n_at in
      let total = At-length (at + 4) rows rows_at in
      let len = length-receipts c b.receipts fits in
      rw
        (
          word-At 0 b.server_id (b.sig ++ tail) here id,
          At-get 4 at b.sig tail sig_at (omega arith),
          word-At at (length b.receipts) rows n_at few,
          count_passes (length (pack_batch b)) (at + 4) (length b.receipts) (receipt_len c)
              (omega arith) (omega arith),
          unpack_receipts-All c b.receipts (at + 4) fits rows_at,
        )
        (ground arith)

  unpack_fragment-pack_fragment :
      (f : Fragment P)
      → ReadsShares
      → FragmentFits f
      → unpack_fragment c (pack_fragment c f) ≡ some f
  unfolding pack_fragment unpack_fragment
  unpack_fragment-pack_fragment f (pos, packed, read) (id, idx, few, sig) =
      let share = c.pack_share f.data' in
      let n = length f.data' in
      let body = 12 + n * c.rs_poly_packed_len in
      let tail = le_bytes 4 n ++ (share ++ f.sig) in
      let here = At-start (pack_fragment c f) in
      let idx_at = skip_word 0 f.client_id (le_bytes 4 f.idx ++ tail) here in
      let n_at = skip_word 4 f.idx tail idx_at in
      let share_at = skip_word 8 n (share ++ f.sig) n_at in
      let sig_at = At-next 12 (n * c.rs_poly_packed_len) share f.sig share_at (packed f.data') in
      let total = At-length body f.sig sig_at in
      rw
        (
          word-At 0 f.client_id (le_bytes 4 f.idx ++ tail) here id,
          word-At 4 f.idx tail idx_at idx,
          word-At 8 n (share ++ f.sig) n_at few,
          count_passes (length (pack_fragment c f)) 12 n c.rs_poly_packed_len pos (omega arith),
          At-get 12 body share f.sig share_at (omega (arith, packed f.data')),
          read f.data',
          At-end body f.sig sig_at,
        )
        (ground arith)

  unpack_item-pack_item :
      (i : RelayItem P)
      → ReadsShares
      → ItemFits i
      → unpack_item c (item_tag c i) (pack_item c i) ≡ some i
  unfolding pack_item item_tag unpack_item
  unpack_item-pack_item (batch b) reads fits = rw (unpack_batch-pack_batch b fits)
  unpack_item-pack_item (fragment f) reads fits = rw (unpack_fragment-pack_fragment f reads fits)

  -- A relay whose numbers are in the ranges of their types and whose arrays have their lengths is read
  -- back from its bytes as it was, if the crate reads each share back from its bytes.
  pub unpack_relay-pack_relay :
      (r : Relay P) → ReadsShares → RelayFits r → unpack_relay c (pack_relay c r) ≡ some r
  unfolding pack_relay unpack_relay
  unpack_relay-pack_relay r reads (item, size, few, chain) =
      let body = pack_item c r.item in
      let es = concat (map (chain_bytes c) r.chain) in
      let tail = le_bytes 4 (length r.chain) ++ es in
      let at = 5 + length body in
      let here = At-start (pack_relay c r) in
      let len_at =
        At-next 0 1 (item_tag c r.item ∷ []) (le_bytes 4 (length body) ++ (body ++ tail)) here
          refl in
      let body_at = skip_word 1 (length body) (body ++ tail) len_at in
      let n_at = At-next 5 (length body) body tail body_at refl in
      let es_at = skip_word at (length r.chain) es n_at in
      let total = At-length (at + 4) es es_at in
      let len = length-chain c r.chain chain in
      rw
        (
          word-At 1 (length body) (body ++ tail) len_at size,
          At-get 5 at body tail body_at refl,
          unpack_item-pack_item r.item reads item,
          word-At at (length r.chain) es n_at few,
          count_passes (length (pack_relay c r)) (at + 4) (length r.chain) (chain_entry c)
              (omega arith) (omega arith),
          unpack_chain-All c r.chain (at + 4) chain es_at,
        )
        (ground arith)
