-- ===== src/Wire/RoundTrip.antt =====
-- The wire format is exact: decoding inverts encoding on well-formed frames, and accepts nothing
-- else.
use anymone.Base.{
  ℕ, ◌+◌, ◌≤◌, ◌<◌, ◌≡◌, ◌↔◌, ◌++◌, List, [], ◌∷◌, length, take, drop, arith, take-append-drop,
  take-append_length, drop-append_length, length-append, length-take, length-drop,
}
use anymone.Base.Results.{ok}
use anymone.Wire.{
  Frame, raw, fragment, decode, decode_raw, decode_fragment, decode_chunk, to_bytes,
  fragment_signing_bytes, service_tag_len, signature_len,
}

-- The array lengths that Rust's types fix, and the range test on the chunk index.
abbrev pub IsWellFormed : Frame → Type 0
IsWellFormed (raw dst data') = length dst ≡ service_tag_len
IsWellFormed (fragment dst n_chunks chunk_index signature data') =
    (length dst ≡ service_tag_len) × (length signature ≡ signature_len) × (chunk_index < n_chunks)

decode-to_bytes : (f : Frame) → IsWellFormed f → decode (to_bytes f) ≡ ok f
unfolding decode to_bytes
decode-to_bytes (raw dst data') h = ground (
  arith,
  length-append dst data',
  take-append_length service_tag_len dst data',
  drop-append_length service_tag_len dst data',
)
decode-to_bytes (fragment dst n i sig data') h =
    rw
      (
        drop-append_length service_tag_len dst (n ∷ i ∷ (sig ++ data')) h.0,
        take-append_length service_tag_len dst (n ∷ i ∷ (sig ++ data')) h.0,
        take-append_length signature_len sig data' h.1,
        drop-append_length signature_len sig data' h.1,
      )
      (ground (arith, length-append dst (n ∷ i ∷ (sig ++ data')), length-append sig data'))

decode_raw_inv :
    (rest : List ℕ) (f : Frame) → decode_raw rest ≡ ok f → IsWellFormed f × (to_bytes f ≡ 0 ∷ rest)
unfolding decode_raw to_bytes
decode_raw_inv rest (raw dst data') h =
    ground (arith, take-append-drop service_tag_len rest, length-take service_tag_len rest)
decode_raw_inv rest (fragment dst n i sig data') h = ground arith

decode_chunk_inv :
    (tag rest : List ℕ) (f : Frame)
    → length tag ≡ service_tag_len
    → signature_len + 2 ≤ length rest
    → decode_chunk tag rest ≡ ok f
    → IsWellFormed f × (to_bytes f ≡ 1 ∷ (tag ++ rest))
unfolding decode_chunk to_bytes
decode_chunk_inv tag [] f ht hl h = absurd (omega arith)
decode_chunk_inv tag (x ∷ []) f ht hl h = absurd (omega arith)
decode_chunk_inv tag (n ∷ i ∷ rest) (raw dst data') ht hl h = ground arith
decode_chunk_inv tag (n ∷ i ∷ rest) (fragment dst n' i' sig data') ht hl h =
    ground (arith, take-append-drop signature_len rest, length-take signature_len rest)

decode_fragment_inv :
    (rest : List ℕ) (f : Frame)
    → decode_fragment rest ≡ ok f
    → IsWellFormed f × (to_bytes f ≡ 1 ∷ rest)
unfolding decode_fragment
decode_fragment_inv rest f h = ground (
  arith,
  take-append-drop service_tag_len rest,
  length-take service_tag_len rest,
  length-drop service_tag_len rest,
  decode_chunk_inv (take service_tag_len rest) (drop service_tag_len rest) f,
)

decode_inv :
    (bytes : List ℕ) (f : Frame) → decode bytes ≡ ok f → IsWellFormed f × (to_bytes f ≡ bytes)
unfolding decode
decode_inv [] f h = cc
decode_inv (v ∷ rest) f h = ground (arith, decode_raw_inv rest f, decode_fragment_inv rest f)

-- Decoding accepts exactly the encodings of well-formed frames: `bytes` decode to `f` if and only
-- if `f` has arrays of the fixed lengths and a chunk index below its count, and encodes to `bytes`.
pub decode-eq-ok_iff :
    (bytes : List ℕ) (f : Frame) → (decode bytes ≡ ok f) ↔ (IsWellFormed f × (to_bytes f ≡ bytes))
decode-eq-ok_iff bytes f = (decode_inv bytes f, λ h. rw (← h.1) (decode-to_bytes f h.0))

append-injective :
    (n : ℕ) (a b c d : List ℕ) → length a ≡ n → length b ≡ n → a ++ c ≡ b ++ d → (a ≡ b) × (c ≡ d)
append-injective n a b c d ha hb e = ground (
  arith,
  take-append_length n a c ha,
  take-append_length n b d hb,
  drop-append_length n a c ha,
  drop-append_length n b d hb,
)

-- What a fragment's signature covers determines the destination, both chunk numbers and the data,
-- for destinations of the fixed length.
pub fragment_signing_bytes_injective :
    (dst dst' : List ℕ) (n n' i i' : ℕ) (data' data'' : List ℕ)
    → length dst ≡ service_tag_len
    → length dst' ≡ service_tag_len
    → fragment_signing_bytes dst n i data' ≡ fragment_signing_bytes dst' n' i' data''
    → (dst ≡ dst') × (n ≡ n') × (i ≡ i') × (data' ≡ data'')
unfolding fragment_signing_bytes
fragment_signing_bytes_injective dst dst' n n' i i' data' data'' h h' e =
    ground
      (arith, append-injective service_tag_len dst dst' (n ∷ i ∷ data') (n' ∷ i' ∷ data'') h h')
