-- ===== src/Wire.antt =====
-- crates/anymone-core/src/wire.rs: the frames that travel through a subnet. A byte is a number, a
-- fixed array a list of bytes, and a slice a list. The two error payloads are kept.
pub mod RoundTrip
use anymone.Base.{
  ℕ, ◌+◌, ◌++◌, Bool, true, false, List, [], ◌∷◌, length, take, drop, ltb, leb, eqb, if◌then◌else◌,
}
use anymone.Base.Results.{Result, ok, err}

abbrev pub version_raw : ℕ
version_raw = 0x00

abbrev pub version_multi_fragment : ℕ
version_multi_fragment = 0x01

abbrev pub service_tag_len : ℕ
service_tag_len = 20

abbrev pub signature_len : ℕ
signature_len = 64

pub data Frame : Type 0 where
  raw : (dst data' : List ℕ) → Frame
  fragment : (dst : List ℕ) (n_chunks chunk_index : ℕ) (signature data' : List ℕ) → Frame

pub data WireError : Type 0 where
  truncated : WireError
  unknown_version : ℕ → WireError
  invalid_chunk_count : WireError
  invalid_chunk_index : (index count : ℕ) → WireError

unfoldable pub dst_of : Frame → List ℕ
dst_of (raw dst _) = dst
dst_of (fragment dst _ _ _ _) = dst

-- `VERSION_RAW`: the tag, then the data.
decode_raw : List ℕ → Result Frame WireError
decode_raw rest =
    if ltb (length rest) service_tag_len
    then err truncated
    else ok (raw (take service_tag_len rest) (drop service_tag_len rest))

-- The two chunk bytes, the signature and the data behind a fragment's tag. The length test above
-- the call leaves at least two bytes, so the last clause stands for reads that do not happen.
decode_chunk : List ℕ → List ℕ → Result Frame WireError
decode_chunk tag (n_chunks ∷ chunk_index ∷ rest) =
    if eqb n_chunks 0
    then err invalid_chunk_count
    else if leb n_chunks chunk_index
    then err (invalid_chunk_index chunk_index n_chunks)
    else ok (fragment tag n_chunks chunk_index (take signature_len rest) (drop signature_len rest))
decode_chunk tag _ = err truncated

-- `VERSION_MULTI_FRAGMENT`.
decode_fragment : List ℕ → Result Frame WireError
unfolding decode_chunk
decode_fragment rest =
    if ltb (length rest) (service_tag_len + 1 + 1 + signature_len)
    then err truncated
    else decode_chunk (take service_tag_len rest) (drop service_tag_len rest)

unfoldable pub decode : List ℕ → Result Frame WireError
unfolding decode_raw decode_fragment
decode [] = err truncated
decode (version ∷ rest) =
    if eqb version version_raw
    then decode_raw rest
    else if eqb version version_multi_fragment
    then decode_fragment rest
    else err (unknown_version version)

-- `encode` appends the frame to the buffer `out`.
unfoldable pub encode : Frame → List ℕ → List ℕ
encode (raw dst data') out = out ++ (version_raw ∷ (dst ++ data'))
encode (fragment dst n_chunks chunk_index signature data') out =
    out ++ (version_multi_fragment ∷ (dst ++ (n_chunks ∷ chunk_index ∷ (signature ++ data'))))

unfoldable pub to_bytes : Frame → List ℕ
unfolding encode
to_bytes f = encode f []

-- What a fragment's signature covers.
unfoldable pub fragment_signing_bytes : List ℕ → ℕ → ℕ → List ℕ → List ℕ
fragment_signing_bytes dst n_chunks chunk_index data' =
    version_multi_fragment ∷ (dst ++ (n_chunks ∷ chunk_index ∷ data'))
