-- ===== src/ClientSet/Packing/Receipts.antt =====
-- crates/anymone-core/src/client_set.rs: a row of receipts and a chain, read back from their bytes.
use native.Mathlib.Nat.{le-div_iff_mul-le}
use anymone.Base.{
  ℕ, ◌+◌, ◌-◌, ◌*◌, ◌/◌, ◌≤◌, ◌<◌, ◌≡◌, ap, false, some, List, [], ◌∷◌, ◌++◌, map, length,
  length-append, ltb, le_bytes, be_bytes, length-be_bytes, concat, All, arith,
}
use anymone.Base.Reading.{
  u32_bound, pow256, At, At-start, At-next, At-get, At-get_last, At-split, length-le_bytes,
  le_value-le_bytes, be_from-be_bytes,
}
use anymone.ClientSet.{Crates, Receipt, receipt_bytes}
use anymone.ClientSet.Wire.{word}
use anymone.ClientSet.Packing.{
  receipt_len, unpack_receipt, unpack_receipts, chain_entry, chain_bytes, unpack_chain,
}

-- A `u32` at an offset is read back.
pub word-At :
    {bytes : List ℕ} (at v : ℕ) (rest : List ℕ)
    → At bytes at (le_bytes 4 v ++ rest)
    → v < u32_bound
    → word bytes at ≡ some v
unfolding word
word-At at v rest here small = rw (
  At-get at (at + 4) (le_bytes 4 v) rest here (omega (arith, length-le_bytes 4 v)),
  le_value-le_bytes 4 v small,
)

pub skip_word :
    {bytes : List ℕ} (at v : ℕ) (rest : List ℕ)
    → At bytes at (le_bytes 4 v ++ rest)
    → At bytes (at + 4) rest
skip_word at v rest here = At-next at 4 (le_bytes 4 v) rest here (length-le_bytes 4 v)

count_of : (d n m : ℕ) → 0 < m → n * m ≤ d → n ≤ d / m
count_of d n m pos room = (le-div_iff_mul-le pos).1 room

-- No more entries of a length than the bytes hold pass the test on their number.
pub count_passes :
    (total at n m : ℕ) → 0 < m → at + n * m ≤ total → ltb ((total - at) / m) n ≡ false
count_passes total at n m pos room = ground (arith, count_of (total - at) n m pos (omega arith))

module _ {P Q O : Type 0} (c : Crates P Q O) where
  -- The ranges of a receipt's fields: a `u32` and two arrays.
  abbrev pub ReceiptFits : Receipt → Type 0
  ReceiptFits r =
      (r.client_id < u32_bound) × (length r.pk_c ≡ c.pubkey_len) × (r.bundle_hash < pow256 32)

  abbrev pub EntryFits : ℕ × List ℕ → Type 0
  EntryFits e = (e.0 < u32_bound) × (length e.1 ≡ c.sig_len)

  length-receipt_bytes : (r : Receipt) → ReceiptFits r → length (receipt_bytes r) ≡ receipt_len c
  unfolding receipt_bytes
  length-receipt_bytes r (id, key, hash) = omega (
    arith,
    length-append (le_bytes 4 r.client_id) (r.pk_c ++ be_bytes 32 r.bundle_hash),
    length-append r.pk_c (be_bytes 32 r.bundle_hash),
    length-le_bytes 4 r.client_id,
    length-be_bytes 32 r.bundle_hash,
  )

  length-chain_bytes : (e : ℕ × List ℕ) → EntryFits e → length (chain_bytes c e) ≡ chain_entry c
  length-chain_bytes e (id, sig) =
      omega (arith, length-append (le_bytes 4 e.0) e.1, length-le_bytes 4 e.0)

  pub length-receipts :
      (rs : List Receipt)
      → All ReceiptFits rs
      → length (concat (map receipt_bytes rs)) ≡ length rs * receipt_len c
  length-receipts [] fits = omega arith
  length-receipts (r ∷ rs) fits = omega (
    arith,
    length-append (receipt_bytes r) (concat (map receipt_bytes rs)),
    length-receipt_bytes r fits.0,
    length-receipts rs fits.1,
  )

  pub length-chain :
      (es : List (ℕ × List ℕ))
      → All EntryFits es
      → length (concat (map (chain_bytes c) es)) ≡ length es * chain_entry c
  length-chain [] fits = omega arith
  length-chain (e ∷ es) fits = omega (
    arith,
    length-append (chain_bytes c e) (concat (map (chain_bytes c) es)),
    length-chain_bytes e fits.0,
    length-chain es fits.1,
  )

  unpack_receipt-receipt_bytes :
      (r : Receipt) → ReceiptFits r → unpack_receipt c (receipt_bytes r) ≡ some r
  unfolding receipt_bytes unpack_receipt
  unpack_receipt-receipt_bytes r (id, key, hash) =
      let here = At-start (receipt_bytes r) in
      let key_at = skip_word 0 r.client_id (r.pk_c ++ be_bytes 32 r.bundle_hash) here in
      let hash_at = At-next 4 c.pubkey_len r.pk_c (be_bytes 32 r.bundle_hash) key_at key in
      rw (
        word-At 0 r.client_id (r.pk_c ++ be_bytes 32 r.bundle_hash) here id,
        At-get 4 (4 + c.pubkey_len) r.pk_c (be_bytes 32 r.bundle_hash) key_at (omega arith),
        At-get_last (4 + c.pubkey_len) (receipt_len c) (be_bytes 32 r.bundle_hash) hash_at
            (omega (arith, length-be_bytes 32 r.bundle_hash)),
        be_from-be_bytes 32 r.bundle_hash hash,
      )

  pub unpack_receipts-All :
      {bytes : List ℕ} (rs : List Receipt) (at : ℕ)
      → All ReceiptFits rs
      → At bytes at (concat (map receipt_bytes rs))
      → unpack_receipts c bytes (length rs) at ≡ some (rs, at + length rs * receipt_len c)
  unfolding unpack_receipts
  unpack_receipts-All [] at fits here = ap (λ x. some ([], x)) (omega arith)
  unpack_receipts-All (r ∷ rs) at fits here =
      let more = concat (map receipt_bytes rs) in
      let len = length-receipt_bytes r fits.0 in
      rw
        (
          At-get at (at + receipt_len c) (receipt_bytes r) more here (omega arith),
          unpack_receipt-receipt_bytes r fits.0,
          unpack_receipts-All rs (at + receipt_len c) fits.1
              (At-next at (receipt_len c) (receipt_bytes r) more here len),
        )
        (ap (λ x. some (r ∷ rs, x)) (omega arith))

  pub unpack_chain-All :
      {bytes : List ℕ} (es : List (ℕ × List ℕ)) (at : ℕ)
      → All EntryFits es
      → At bytes at (concat (map (chain_bytes c) es))
      → unpack_chain c bytes (length es) at ≡ some (es, at + length es * chain_entry c)
  unfolding unpack_chain
  unpack_chain-All [] at fits here = ap (λ x. some ([], x)) (omega arith)
  unpack_chain-All {bytes} (e ∷ es) at fits here =
      let more = concat (map (chain_bytes c) es) in
      let entry = At-split at (le_bytes 4 e.0) e.1 more here in
      let sig_at = skip_word at e.0 (e.1 ++ more) entry in
      rw
        (
          word-At at e.0 (e.1 ++ more) entry fits.0.0,
          At-get (at + 4) (at + chain_entry c) e.1 more sig_at (omega (arith, fits.0.1)),
          unpack_chain-All es (at + chain_entry c) fits.1 (
              At-next at (chain_entry c) (chain_bytes c e) more here (length-chain_bytes e fits.0)),
        )
        (ap (λ x. some (e ∷ es, x)) (omega arith))
