-- ===== src/ScheduledClient/Submission.antt =====
-- crates/anymone-core/src/panetiere_scheduled.rs: `finalize_round` up to the plaintext of the round.
use anymone.Base.{
  ℕ, zero, suc, ◌+◌, ◌-◌, ◌*◌, min, Bool, true, false, ◌&&◌, not, Option, none, some, List, [], ◌∷◌,
  ◌++◌, map, length, ltb, take, drop, if◌then◌else◌,
}
use anymone.Base.Equality.{nat_eq, ◌==◌}
use anymone.Base.Maps.{get}
use anymone.Base.Ordered.{put_at}
use anymone.ScheduledClient.{
  Grant, ScheduledClient, Codec, Coins, allocation, reservation_to_msg_gap,
}

abbrev pub zeros : ℕ → List ℕ
zeros zero = []
zeros (suc n) = 0 ∷ zeros n

-- `msg_bytes`: the width of the vector follows from the entries of the round that granted it.
unfoldable pub msg_bytes : Codec → ScheduledClient → ℕ → ℕ
msg_bytes codec s round =
    if ltb round reservation_to_msg_gap
    then 0
    else elim (get s.entries_by_round (round - reservation_to_msg_gap)) [
      | none ↦ 0
      | some entries ↦ (allocation codec entries s.vector_bytes).1 * codec.bytes_per_poly
    ]

-- `msg_buf[start..end].copy_from_slice(&data[..end - start])`, cut at the end of the vector
unfoldable pub write_at : List ℕ → ℕ → List ℕ → List ℕ
write_at buf offset payload =
    let start = min offset (length buf) in
    let end = min (offset + length payload) (length buf) in
    take start buf ++ (take (end - start) payload ++ drop end buf)

-- What the loop over the grants fills: the vector, and the grants of later rounds.
pub record Placing : Type 0 where
  pub msg_buf : List ℕ
  pub has_grant : Bool
  pub remaining : List Grant
  pub deferred : List (List ℕ)

unfoldable pub place : ℕ → Placing → Grant → Placing
unfolding write_at
place round p g =
    if g.target == round
    then record p { msg_buf = write_at p.msg_buf g.offset g.payload; has_grant = true }
    else if ltb g.target round
    then record p { deferred = p.deferred ++ g.payload ∷ [] }
    else record p { remaining = p.remaining ++ g ∷ [] }

unfoldable pub place_all : ℕ → Placing → List Grant → Placing
place_all round p [] = p
place_all round p (g ∷ grants) = place_all round (place round p g) grants

-- The bounced payloads, from a coin on: those to try again, and those that wait.
unfoldable pub drain : (ℕ → Bool) → ℕ → List (List ℕ) → List (List ℕ) × List (List ℕ)
drain retry i [] = ([], [])
drain retry i (payload ∷ payloads) =
    let rest = drain retry (i + 1) payloads in
    if retry i then (payload ∷ rest.0, rest.1) else (rest.0, payload ∷ rest.1)

-- A reservation for each staged payload, with a number that no other one of the round has.
unfoldable pub reserve_all : (List ℕ → ℕ) → List (ℕ × List ℕ) → List (List ℕ) → List (ℕ × List ℕ)
reserve_all rand_beside reservations [] = reservations
reserve_all rand_beside reservations (payload ∷ staged) =
    let rand = rand_beside (map (λ r. r.0) reservations) in
    reserve_all rand_beside (reservations ++ (rand, payload) ∷ []) staged

-- The reservation tokens and the message vector that are encrypted.
pub record Plaintext : Type 0 where
  pub tokens : List (ℕ × ℕ)
  pub msg_buf : List ℕ

abbrev pub is_nil : {A : Type 0} → List A → Bool
is_nil [] = true
is_nil (x ∷ xs) = false

-- The payloads to reserve for, cover included, and those that wait on.
unfoldable pub stage : Coins → List (List ℕ) → List (List ℕ) → List (List ℕ) × List (List ℕ)
unfolding drain
stage coins staged deferred =
    let drained = drain coins.retry 0 deferred in
    let staged = staged ++ drained.0 in
    (if is_nil staged && coins.cover_due then [] ∷ [] else staged, drained.1)

abbrev pub insert_reserved :
    List (ℕ × List (ℕ × List ℕ)) → ℕ → List (ℕ × List ℕ) → List (ℕ × List (ℕ × List ℕ))
insert_reserved reserved round [] = reserved
insert_reserved reserved round (r ∷ reservations) = put_at reserved round (r ∷ reservations)

abbrev pub fresh_placing : ℕ → List (List ℕ) → Placing
fresh_placing width deferred = record {
  msg_buf = zeros width;
  has_grant = false;
  remaining = [];
  deferred = deferred;
}

unfoldable pub finalize_round :
    Codec → Coins → ScheduledClient → (round : ℕ) → ScheduledClient × Option Plaintext
unfolding msg_bytes place_all stage reserve_all
finalize_round codec coins s round =
    if not (length s.servers == s.n_servers)
    then (s, none)
    else let placed =
        place_all round (fresh_placing (msg_bytes codec s round) s.deferred) s.granted in
      let next = stage coins s.staged placed.deferred in
      let reservations = reserve_all coins.rand_beside [] next.0 in
      (
        record s {
          granted = placed.remaining;
          deferred = next.1;
          staged = [];
          reserved = insert_reserved s.reserved round reservations;
        },
        if not placed.has_grant && is_nil reservations
            then none
            else some (record {
              tokens = map (λ r. (r.0, length r.1)) reservations;
              msg_buf = placed.msg_buf;
            }),
      )
