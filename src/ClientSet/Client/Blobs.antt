-- ===== src/ClientSet/Client/Blobs.antt =====
-- crates/anymone-core/src/client_set.rs: a blob that is written as polynomials is read back.
use native.Mathlib.Nat.{lt-div-mul-add}
use mathlib.Core.List.{append_assoc}
use anymone.Base.{
  ℕ, zero, suc, ◌+◌, ◌-◌, ◌*◌, ◌/◌, ◌%◌, ◌≤◌, ◌<◌, ◌≡◌, refl, sym, ap, ◌∙◌, List, [], ◌∷◌, ◌++◌,
  map, max, length, take, drop, concat, range_from, All, le_bytes, le_value, arith, leb, leb→le,
  Bool-cases, inl, inr, take-append-drop, length-take, length-drop, length-map,
}
use anymone.Base.Reading.{pow256}
use anymone.ClientSet.{Crates}
use anymone.ClientSet.Wire.{polys_to_blob}
use anymone.ClientSet.Client.{ClientCrates, div_ceil, slot_at, blob_to_polys}

abbrev pub IsBytes : List ℕ → Type 0
IsBytes xs = All (λ b. b < 256) xs

take-IsBytes : (n : ℕ) (xs : List ℕ) → IsBytes xs → IsBytes (take n xs)
unfolding take
take-IsBytes zero xs h = tt
take-IsBytes (suc n) [] h = tt
take-IsBytes (suc n) (x ∷ xs) h = (h.0, take-IsBytes n xs h.1)

drop-IsBytes : (n : ℕ) (xs : List ℕ) → IsBytes xs → IsBytes (drop n xs)
unfolding drop
drop-IsBytes zero xs h = h
drop-IsBytes (suc n) [] h = tt
drop-IsBytes (suc n) (x ∷ xs) h = drop-IsBytes n xs h.1

-- A number that is read from few bytes is small, and is written as those bytes.
le_value-lt : (w : ℕ) (xs : List ℕ) → IsBytes xs → length xs ≤ w → le_value xs < pow256 w
unfolding le_value
le_value-lt zero [] h few = omega arith
le_value-lt zero (x ∷ xs) h few = absurd (omega arith)
le_value-lt (suc w) [] h few = omega (arith, le_value-lt w [] tt (omega arith))
le_value-lt (suc w) (x ∷ xs) h few = omega (arith, h.0, le_value-lt w xs h.1 (omega arith))

le_bytes-le_value :
    (w : ℕ) (xs : List ℕ) → IsBytes xs → length xs ≡ w → le_bytes w (le_value xs) ≡ xs
unfolding le_bytes le_value
le_bytes-le_value zero [] h same = refl
le_bytes-le_value zero (x ∷ xs) h same = absurd (omega arith)
le_bytes-le_value (suc w) [] h same = absurd (omega arith)
le_bytes-le_value (suc w) (x ∷ xs) h same =
    let low : (x + 256 * le_value xs) % 256 ≡ x = omega (arith, h.0) in
    let high : (x + 256 * le_value xs) / 256 ≡ le_value xs = omega (arith, h.0) in
    rw (low, high, le_bytes-le_value w xs h.1 (omega arith)) refl

take-le_bytes :
    (w : ℕ) (xs ys : List ℕ)
    → IsBytes xs
    → length xs ≤ w
    → take (length xs) (le_bytes w (le_value xs) ++ ys) ≡ xs
unfolding take le_bytes le_value
take-le_bytes w [] ys h few = refl
take-le_bytes zero (x ∷ xs) ys h few = absurd (omega arith)
take-le_bytes (suc w) (x ∷ xs) ys h few =
    let low : (x + 256 * le_value xs) % 256 ≡ x = omega (arith, h.0) in
    let high : (x + 256 * le_value xs) / 256 ≡ le_value xs = omega (arith, h.0) in
    rw (low, high, take-le_bytes w xs ys h.1 (omega arith)) refl

take-all : (n : ℕ) (xs : List ℕ) → length xs ≤ n → take n xs ≡ xs
unfolding take
take-all zero [] few = refl
take-all zero (x ∷ xs) few = absurd (omega arith)
take-all (suc n) [] few = refl
take-all (suc n) (x ∷ xs) few = ap (◌∷◌ x) (take-all n xs (omega arith))

take-append : (xs ys : List ℕ) (n : ℕ) → take (length xs + n) (xs ++ ys) ≡ xs ++ take n ys
unfolding take
take-append [] ys n = ap (λ k. take k ys) (omega arith)
take-append (x ∷ xs) ys n =
    let e : suc (length xs) + n ≡ suc (length xs + n) = omega arith in
    ap (λ k. take k (x ∷ (xs ++ ys))) e ∙ ap (◌∷◌ x) (take-append xs ys n)

drop-nil : (n : ℕ) → drop {A = ℕ} n [] ≡ []
unfolding drop
drop-nil zero = refl
drop-nil (suc n) = refl

drop-drop : (a b : ℕ) (xs : List ℕ) → drop a (drop b xs) ≡ drop (b + a) xs
unfolding drop
drop-drop a zero xs = ap (λ k. drop k xs) (omega arith)
drop-drop a (suc b) [] = drop-nil a ∙ sym (drop-nil (suc b + a))
drop-drop a (suc b) (x ∷ xs) =
    let e : suc (b + a) ≡ suc b + a = omega arith in drop-drop a b xs ∙ ap (λ k. drop k (x ∷ xs)) e

-- So many groups of five bytes, the last ones filled with zeros.
unfoldable blocks : ℕ → List ℕ → List ℕ
blocks zero blob = []
blocks (suc m) blob = le_bytes 5 (le_value (take 5 blob)) ++ blocks m (drop 5 blob)

blocks-append :
    (n m : ℕ) (blob : List ℕ) → blocks n blob ++ blocks m (drop (n * 5) blob) ≡ blocks (n + m) blob
unfolding blocks drop
blocks-append zero m blob = ap (λ k. blocks k blob) (omega arith)
blocks-append (suc n) m blob =
    let head = le_bytes 5 (le_value (take 5 blob)) in
    let five : suc n * 5 ≡ 5 + n * 5 = omega arith in
    let count : suc (n + m) ≡ suc n + m = omega arith in
    append_assoc head (blocks n (drop 5 blob)) (blocks m (drop (suc n * 5) blob))
    ∙ ap (λ rest. head ++ (blocks n (drop 5 blob) ++ blocks m rest))
        (ap (λ k. drop k blob) five ∙ sym (drop-drop (n * 5) 5 blob))
    ∙ ap (λ rest. head ++ rest) (blocks-append n m (drop 5 blob))
    ∙ ap (λ k. blocks k blob) count

-- The bytes are there, before the zeros.
take-blocks :
    (m : ℕ) (blob : List ℕ)
    → IsBytes blob
    → length blob ≤ 5 * m
    → take (length blob) (blocks m blob) ≡ blob
unfolding blocks take
take-blocks zero [] bytes few = refl
take-blocks zero (x ∷ blob) bytes few = absurd (omega arith)
take-blocks (suc m) blob bytes few = elim (Bool-cases (leb (length blob) 5)) [
  | inl short ↦
      let all = take-all 5 blob (leb→le (length blob) 5 short) in
      ap (λ xs. take (length blob) (le_bytes 5 (le_value xs) ++ blocks m (drop 5 blob))) all
      ∙ take-le_bytes 5 blob _ bytes (leb→le (length blob) 5 short)
  | inr more ↦
      let five : length (take 5 blob) ≡ 5 = ground (arith, more, length-take 5 blob) in
      let rest = length-drop 5 blob in
      let long : length blob ≡ length (take 5 blob) + length (drop 5 blob) =
        ground (arith, more, five, rest) in
      ap (λ head. take (length blob) (head ++ blocks m (drop 5 blob)))
        (le_bytes-le_value 5 (take 5 blob) (take-IsBytes 5 blob bytes) five)
      ∙ ap (λ n. take n (take 5 blob ++ blocks m (drop 5 blob))) long
      ∙ take-append (take 5 blob) (blocks m (drop 5 blob)) (length (drop 5 blob))
      ∙ ap (λ ys. take 5 blob ++ ys)
          (take-blocks m (drop 5 blob) (drop-IsBytes 5 blob bytes) (omega (arith, rest)))
      ∙ take-append-drop 5 blob
]

slots-blocks :
    (blob : List ℕ) (s n : ℕ)
    → concat (map (le_bytes 5) (map (slot_at blob) (range_from s n))) ≡ blocks n (drop (s * 5) blob)
unfolding blocks slot_at
slots-blocks blob s zero = refl
slots-blocks blob s (suc n) =
    let next : (s + 1) * 5 ≡ s * 5 + 5 = omega arith in
    ap (λ rest. le_bytes 5 (le_value (take 5 (drop (s * 5) blob))) ++ rest)
      (slots-blocks blob (s + 1) n
        ∙ ap (blocks n) (ap (λ k. drop k blob) next ∙ sym (drop-drop 5 (s * 5) blob)))

div_ceil-covers : (a b : ℕ) → 0 < b → a ≤ div_ceil a b * b
unfolding div_ceil
div_ceil-covers a b pos =
    let over : a + b - 1 < (a + b - 1) / b * b + b = lt-div-mul-add pos in omega (arith, over)

length-range_from : (s n : ℕ) → length (range_from s n) ≡ n
length-range_from s zero = refl
length-range_from s (suc n) = ap suc (length-range_from (s + 1) n)

slots-lt : (blob is : List ℕ) → IsBytes blob → All (λ x. x < pow256 5) (map (slot_at blob) is)
unfolding slot_at
slots-lt blob [] bytes = tt
slots-lt blob (i ∷ is) bytes =
    let here = drop (i * 5) blob in
    (
      le_value-lt 5 (take 5 here) (take-IsBytes 5 here (drop-IsBytes (i * 5) blob bytes))
          (omega (arith, length-take 5 here)),
      slots-lt blob is bytes,
    )

module _ {P Q O : Type 0} (c : Crates P Q O) (l : ClientCrates P) where
  -- The crate reads back the slots that it was given, each of at most five bytes.
  abbrev pub ReadsSlots : Type 0
  ReadsSlots =
      (xs : List ℕ)
      → length xs ≡ c.slots
      → All (λ x. x < pow256 5) xs
      → c.ntt_slots (l.from_ntt_slots xs) ≡ xs

  abbrev polys_from : List ℕ → ℕ → ℕ → List P
  polys_from blob s k =
      map (λ p. l.from_ntt_slots (map (slot_at blob) (range_from (p * c.slots) c.slots)))
        (range_from s k)

  abbrev written : List P → List ℕ
  written polys = concat (map (λ p. concat (map (le_bytes 5) (c.ntt_slots p))) polys)

  polys-blocks :
      (blob : List ℕ) (s k : ℕ)
      → ReadsSlots
      → IsBytes blob
      → written (polys_from blob s k) ≡ blocks (k * c.slots) (drop (s * c.slots * 5) blob)
  unfolding blocks
  polys-blocks blob s zero reads bytes =
      let none_left : 0 ≡ 0 * c.slots = omega arith in
      ap (λ k. blocks k (drop (s * c.slots * 5) blob)) none_left
  polys-blocks blob s (suc k) reads bytes =
      let slots = map (slot_at blob) (range_from (s * c.slots) c.slots) in
      let at = drop (s * c.slots * 5) blob in
      let many : length slots ≡ c.slots =
        length-map (slot_at blob) (range_from (s * c.slots) c.slots)
        ∙ length-range_from (s * c.slots) c.slots in
      let next : (s + 1) * c.slots * 5 ≡ s * c.slots * 5 + c.slots * 5 = omega arith in
      let count : c.slots + k * c.slots ≡ suc k * c.slots = omega arith in
      let read =
        ap (λ xs. concat (map (le_bytes 5) xs))
          (reads slots many (slots-lt blob (range_from (s * c.slots) c.slots) bytes))
        ∙ slots-blocks blob (s * c.slots) c.slots in
      let later =
        polys-blocks blob (s + 1) k reads bytes
        ∙ ap (blocks (k * c.slots))
            (ap (λ n. drop n blob) next ∙ sym (drop-drop (c.slots * 5) (s * c.slots * 5) blob)) in
      ap (λ xs. xs ++ written (polys_from blob (s + 1) k)) read
      ∙ ap (λ xs. blocks c.slots at ++ xs) later
      ∙ blocks-append c.slots (k * c.slots) at
      ∙ ap (λ n. blocks n at) count

  -- A blob of bytes that is written as polynomials is read back, whatever its length, if a
  -- polynomial has a slot and the crate reads its slots back.
  pub polys_to_blob-blob_to_polys :
      (blob : List ℕ)
      → 0 < c.slots
      → ReadsSlots
      → IsBytes blob
      → polys_to_blob c (blob_to_polys c l blob) (length blob) ≡ blob
  unfolding polys_to_blob blob_to_polys drop
  polys_to_blob-blob_to_polys blob pos reads bytes =
      let coeffs = max (div_ceil (length blob) 5) 1 in
      let k = div_ceil coeffs c.slots in
      let start : 0 * c.slots * 5 ≡ 0 = omega arith in
      let room : length blob ≤ 5 * (k * c.slots) = omega (
        arith,
        div_ceil-covers (length blob) 5 (omega arith),
        div_ceil-covers coeffs c.slots pos,
      ) in
      ap (take (length blob))
        (polys-blocks blob 0 k reads bytes ∙ ap (λ n. blocks (k * c.slots) (drop n blob)) start)
      ∙ take-blocks (k * c.slots) blob bytes room
