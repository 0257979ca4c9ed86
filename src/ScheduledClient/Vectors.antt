-- ===== src/ScheduledClient/Vectors.antt =====
-- What the vector of a round carries, byte by byte.
use anymone.Base.{
  ℕ, zero, suc, ◌+◌, ◌-◌, ◌<◌, ◌≤◌, ◌≡◌, refl, ap, subst, ◌∙◌, Bool, true, false, ◌&&◌, not, none,
  some, List, [], ◌∷◌, ◌++◌, length, length-append, length-take, length-drop, map, take, drop, ltb,
  leb, min, at_or, inl, inr, Bool-cases, if◌then◌else◌, All, arith,
}
use anymone.Base.Equality.{nat_eq, ◌==◌}
use anymone.ScheduledClient.{Grant, ScheduledClient, Codec, Coins}
use anymone.ScheduledClient.Submission.{
  Placing, Plaintext, zeros, write_at, place, place_all, fresh_placing, msg_bytes, stage,
  reserve_all, is_nil, finalize_round,
}
use anymone.ScheduledClient.Events.{Sending, sending}

at_or-append :
    (xs ys : List ℕ) (j : ℕ)
    → at_or 0 (xs ++ ys) j
      ≡ (if ltb j (length xs) then at_or 0 xs j else at_or 0 ys (j - length xs))
at_or-append [] ys j = ground arith
at_or-append (x ∷ xs) ys zero = ground arith
at_or-append (x ∷ xs) ys (suc j) = ground (arith, at_or-append xs ys j)

at_or-take : (n : ℕ) (xs : List ℕ) (j : ℕ) → j < n → at_or 0 (take n xs) j ≡ at_or 0 xs j
unfolding take
at_or-take zero xs j h = absurd (omega arith)
at_or-take (suc n) [] j h = refl
at_or-take (suc n) (x ∷ xs) zero h = refl
at_or-take (suc n) (x ∷ xs) (suc j) h = at_or-take n xs j (omega arith)

at_or-drop : (n : ℕ) (xs : List ℕ) (j : ℕ) → at_or 0 (drop n xs) j ≡ at_or 0 xs (n + j)
unfolding drop
at_or-drop zero xs j = ap (at_or 0 xs) (omega arith)
at_or-drop (suc n) [] j = refl
at_or-drop (suc n) (x ∷ xs) j =
    let next : suc (n + j) ≡ suc n + j = omega arith in
    at_or-drop n xs j ∙ ap (at_or 0 (x ∷ xs)) next

length-zeros : (n : ℕ) → length (zeros n) ≡ n
length-zeros zero = refl
length-zeros (suc n) = omega (arith, length-zeros n)

at_or-zeros : (n j : ℕ) → at_or 0 (zeros n) j ≡ 0
at_or-zeros zero j = refl
at_or-zeros (suc n) zero = refl
at_or-zeros (suc n) (suc j) = at_or-zeros n j

-- The byte at an index of the vector once a payload is written over it.
abbrev over : ℕ → List ℕ → (byte index : ℕ) → ℕ
over offset payload byte index =
    if leb offset index && ltb index (offset + length payload)
    then at_or 0 payload (index - offset)
    else byte

length-write_at :
    (buf : List ℕ) (offset : ℕ) (payload : List ℕ)
    → length (write_at buf offset payload) ≡ length buf
unfolding write_at
length-write_at buf offset payload =
    let start = min offset (length buf) in
    let end = min (offset + length payload) (length buf) in
    omega (
      arith,
      length-append (take start buf) (take (end - start) payload ++ drop end buf),
      length-append (take (end - start) payload) (drop end buf),
      length-take start buf,
      length-take (end - start) payload,
      length-drop end buf,
    )

at_or-halves :
    (xs ys : List ℕ) (j n : ℕ)
    → length xs ≡ n
    → at_or 0 (xs ++ ys) j ≡ (if ltb j n then at_or 0 xs j else at_or 0 ys (j - n))
at_or-halves xs ys j n h =
    subst (λ m. at_or 0 (xs ++ ys) j ≡ (if ltb j m then at_or 0 xs j else at_or 0 ys (j - m))) h
      (at_or-append xs ys j)

-- What a vector that a payload was written to has before the payload, in it and past it.
at_or-parts :
    (start end : ℕ) (buf payload : List ℕ) (index : ℕ)
    → start ≤ length buf
    → end ≤ start + length payload
    → start ≤ end
    → at_or 0 (take start buf ++ (take (end - start) payload ++ drop end buf)) index ≡ (
        if ltb index start
        then at_or 0 buf index
        else if ltb index end
        then at_or 0 payload (index - start)
        else at_or 0 buf index)
at_or-parts start end buf payload index h k l =
    let first =
      at_or-halves (take start buf) (take (end - start) payload ++ drop end buf) index start
        (omega (arith, length-take start buf)) in
    let second =
      at_or-halves (take (end - start) payload) (drop end buf) (index - start) (end - start)
        (omega (arith, length-take (end - start) payload)) in
    elim (Bool-cases (ltb index start)) [
      | inl before ↦ ground (arith, before, first, at_or-take start buf index)
      | inr past ↦ elim (Bool-cases (ltb index end)) [
        | inl inside ↦
            ground
              (arith, past, inside, first, second, at_or-take (end - start) payload (index - start))
        | inr beyond ↦
            let back : at_or 0 buf (end + (index - start - (end - start))) ≡ at_or 0 buf index =
              ap (at_or 0 buf) (ground (arith, past, beyond, l)) in
            ground (
              arith,
              past,
              beyond,
              first,
              second,
              at_or-drop end buf (index - start - (end - start)),
              back,
            )
      ]
    ]

write_at-over :
    (buf : List ℕ) (offset : ℕ) (payload : List ℕ) (index : ℕ)
    → index < length buf
    → at_or 0 (write_at buf offset payload) index ≡ over offset payload (at_or 0 buf index) index
unfolding write_at
write_at-over buf offset payload index h =
    let start = min offset (length buf) in
    let end = min (offset + length payload) (length buf) in
    at_or-parts start end buf payload index (omega arith) (omega arith) (omega arith)
    ∙ elim (Bool-cases (leb offset index)) [
      | inr before ↦ ground (arith, before)
      | inl from ↦
          let same : at_or 0 payload (index - start) ≡ at_or 0 payload (index - offset) =
            ap (λ i. at_or 0 payload (index - i)) (ground (arith, from, h)) in
          ground (arith, from, same)
    ]

-- The byte that the grants due in a round leave at an index, from the byte that was there: the last
-- of them whose slot covers the index decides.
unfoldable pub last_byte : ℕ → (byte index : ℕ) → List Grant → ℕ
last_byte round byte index [] = byte
last_byte round byte index (g ∷ grants) =
    last_byte round (if g.target == round then over g.offset g.payload byte index else byte) index
      grants

length-place :
    (round : ℕ) (p : Placing) (g : Grant) → length (place round p g).msg_buf ≡ length p.msg_buf
unfolding place
length-place round p g = ground (arith, length-write_at p.msg_buf g.offset g.payload)

length-place_all :
    (round : ℕ) (p : Placing) (grants : List Grant)
    → length (place_all round p grants).msg_buf ≡ length p.msg_buf
unfolding place_all
length-place_all round p [] = refl
length-place_all round p (g ∷ grants) =
    length-place_all round (place round p g) grants ∙ length-place round p g

place-byte :
    (round : ℕ) (p : Placing) (g : Grant) (index : ℕ)
    → index < length p.msg_buf
    → at_or 0 (place round p g).msg_buf index ≡ (
        if g.target == round
        then over g.offset g.payload (at_or 0 p.msg_buf index) index
        else at_or 0 p.msg_buf index)
unfolding place
place-byte round p g index h = elim (Bool-cases (g.target == round)) [
  | inl now ↦ simp now (write_at-over p.msg_buf g.offset g.payload index h)
  | inr other ↦ elim (Bool-cases (ltb g.target round)) [
    | inl missed ↦ simp (other, missed) refl
    | inr later ↦ simp (other, later) refl
  ]
]

place_all-last_byte :
    (round : ℕ) (p : Placing) (grants : List Grant) (index : ℕ)
    → index < length p.msg_buf
    → at_or 0 (place_all round p grants).msg_buf index
      ≡ last_byte round (at_or 0 p.msg_buf index) index grants
unfolding place_all last_byte
place_all-last_byte round p [] index h = refl
place_all-last_byte round p (g ∷ grants) index h =
    place_all-last_byte round (place round p g) grants index (omega (arith, length-place round p g))
    ∙ ap (λ b. last_byte round b index grants) (place-byte round p g index h)

-- A vector has its width, and each of its bytes is that of the last due slot that covers it, or 0.
pub record Carries (v : Sending) : Type 0 where
  pub wide : length v.plaintext.msg_buf ≡ v.width
  pub filled :
      (index : ℕ)
      → index < v.width
      → at_or 0 v.plaintext.msg_buf index ≡ last_byte v.round 0 index v.granted

pub finalize_round-Carries :
    (codec : Codec) (coins : Coins) (s : ScheduledClient) (round : ℕ)
    → All Carries (sending codec s round (finalize_round codec coins s round).1)
unfolding finalize_round
finalize_round-Carries codec coins s round = elim (Bool-cases (length s.servers == s.n_servers)) [
  | inr missing ↦ simp missing tt
  | inl complete ↦
      let width = msg_bytes codec s round in
      let placed = place_all round (fresh_placing width s.deferred) s.granted in
      let reservations =
        reserve_all coins.rand_beside [] (stage coins s.staged placed.deferred).0 in
      let out : Plaintext = record {
        tokens = map (λ r. (r.0, length r.1)) reservations;
        msg_buf = placed.msg_buf;
      } in
      simp complete (
        out-Carries (not placed.has_grant && is_nil reservations) out (record {
          wide =
              length-place_all round (fresh_placing width s.deferred) s.granted
              ∙ length-zeros width;
          filled = λ index h.
              place_all-last_byte round (fresh_placing width s.deferred) s.granted index
                (omega (arith, length-zeros width))
              ∙ ap (λ b. last_byte round b index s.granted) (at_or-zeros width index);
        }))
]
  where
    out-Carries :
        (silent : Bool) (out : Plaintext)
        → Carries (record {
          round = round;
          granted = s.granted;
          width = msg_bytes codec s round;
          plaintext = out;
        })
        → All Carries (sending codec s round (if silent then none else some out))
    out-Carries true out h = tt
    out-Carries false out h = (h, tt)
