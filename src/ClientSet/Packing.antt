-- ===== src/ClientSet/Packing.antt =====
-- crates/anymone-core/src/client_set.rs: the byte forms of receipts, batches, fragments and relays.
pub mod Receipts
pub mod RoundTrip
use anymone.Base.{
  ℕ, zero, suc, ◌+◌, ◌*◌, ◌-◌, ◌/◌, Bool, ◌||◌, not, Option, none, some, List, [], ◌∷◌, ◌++◌, map,
  length, ltb, get_range, le_bytes, concat, if◌then◌else◌, get_elem?,
}
use anymone.Base.Equality.{nat_eq, ◌==◌}
use anymone.Base.Options.{◌>>=◌, ◌>>◌, require}
use anymone.Base.Reading.{be_from}
use anymone.ClientSet.{
  Crates, Receipt, receipt_bytes, ReceiptBatch, Fragment, RelayItem, batch, fragment, Relay,
}
use anymone.ClientSet.Wire.{word}

-- `ReceiptBatch::pack`
unfoldable pub pack_batch : ReceiptBatch → List ℕ
pack_batch b =
    le_bytes 4 b.server_id
    ++ (b.sig ++ (le_bytes 4 (length b.receipts) ++ concat (map receipt_bytes b.receipts)))

module _ {P Q O : Type 0} (c : Crates P Q O) where
  -- `Receipt::PACKED_LEN`
  abbrev pub receipt_len : ℕ
  receipt_len = 4 + c.pubkey_len + 32

  -- `Receipt::unpack`
  unfoldable pub unpack_receipt : List ℕ → Option Receipt
  unpack_receipt bytes = do
    client_id ← word bytes 0
    pk_c ← get_range bytes 4 (4 + c.pubkey_len)
    hash ← get_range bytes (4 + c.pubkey_len) receipt_len
    some (record { client_id = client_id; pk_c = pk_c; bundle_hash = be_from 0 hash })

  -- The loop of `ReceiptBatch::unpack`: the receipts, and where it stopped.
  unfoldable pub unpack_receipts : List ℕ → ℕ → ℕ → Option (List Receipt × ℕ)
  unpack_receipts bytes zero at = some ([], at)
  unpack_receipts bytes (suc n) at = do
    entry ← get_range bytes at (at + receipt_len)
    r ← unpack_receipt entry
    rest ← unpack_receipts bytes n (at + receipt_len)
    some (r ∷ rest.0, rest.1)

  -- `ReceiptBatch::unpack`
  unfoldable pub unpack_batch : List ℕ → Option ReceiptBatch
  unpack_batch bytes = do
    server_id ← word bytes 0
    sig ← get_range bytes 4 (4 + c.sig_len)
    n ← word bytes (4 + c.sig_len)
    let at = 4 + c.sig_len + 4
    require (not (ltb ((length bytes - at) / receipt_len) n))
    read ← unpack_receipts bytes n at
    require (read.1 == length bytes)
    some (record { server_id = server_id; receipts = read.0; sig = sig })

  -- `Fragment::pack`
  unfoldable pub pack_fragment : Fragment P → List ℕ
  pack_fragment f =
      le_bytes 4 f.client_id
      ++ (le_bytes 4 f.idx ++ (le_bytes 4 (length f.data') ++ (c.pack_share f.data' ++ f.sig)))

  -- `Fragment::unpack`
  unfoldable pub unpack_fragment : List ℕ → Option (Fragment P)
  unpack_fragment bytes = do
    client_id ← word bytes 0
    idx ← word bytes 4
    n_polys ← word bytes 8
    let body = 12 + n_polys * c.rs_poly_packed_len
    require (
        not (
          ltb ((length bytes - 12) / c.rs_poly_packed_len) n_polys
          || not (length bytes == body + c.sig_len)))
    share ← get_range bytes 12 body
    data' ← c.unpack_share share n_polys
    sig ← get_range bytes body (length bytes)
    some (record { client_id = client_id; idx = idx; data' = data'; sig = sig })

  -- `Relay::CHAIN_ENTRY`
  abbrev pub chain_entry : ℕ
  chain_entry = 4 + c.sig_len

  abbrev pub chain_bytes : ℕ × List ℕ → List ℕ
  chain_bytes e = le_bytes 4 e.0 ++ e.1

  unfoldable pub pack_item : RelayItem P → List ℕ
  pack_item (batch b) = pack_batch b
  pack_item (fragment f) = pack_fragment f

  unfoldable pub item_tag : RelayItem P → ℕ
  item_tag (batch b) = 0
  item_tag (fragment f) = 1

  -- `Relay::pack`
  unfoldable pub pack_relay : Relay P → List ℕ
  pack_relay r =
      (item_tag r.item ∷ [])
      ++ (le_bytes 4 (length (pack_item r.item))
          ++ (pack_item r.item
              ++ (le_bytes 4 (length r.chain) ++ concat (map chain_bytes r.chain))))

  unfoldable pub unpack_item : ℕ → List ℕ → Option (RelayItem P)
  unpack_item tag body =
      if tag == 0
      then (do b ← unpack_batch body; some (batch b))
      else if tag == 1
      then (do f ← unpack_fragment body; some (fragment f))
      else none

  -- The loop of `Relay::unpack`: the chain, and where it stopped.
  unfoldable pub unpack_chain : List ℕ → ℕ → ℕ → Option (List (ℕ × List ℕ) × ℕ)
  unpack_chain bytes zero at = some ([], at)
  unpack_chain bytes (suc n) at = do
    server ← word bytes at
    sig ← get_range bytes (at + 4) (at + chain_entry)
    rest ← unpack_chain bytes n (at + chain_entry)
    some ((server, sig) ∷ rest.0, rest.1)

  -- `Relay::unpack`
  unfoldable pub unpack_relay : List ℕ → Option (Relay P)
  unpack_relay bytes = do
    tag ← get_elem? bytes 0
    item_len ← word bytes 1
    body ← get_range bytes 5 (5 + item_len)
    item ← unpack_item tag body
    n_chain ← word bytes (5 + item_len)
    let at = 5 + item_len + 4
    require (not (ltb ((length bytes - at) / chain_entry) n_chain))
    read ← unpack_chain bytes n_chain at
    require (read.1 == length bytes)
    some (record { item = item; chain = read.0 })
