-- ===== src/ScheduledClient.antt =====
-- crates/anymone-core/src/panetiere_scheduled.rs: the messages of a scheduled Panetiere client, from the
-- caller to a slot of a round's message vector. What a round submits is the pair of the reservations and
-- the vector; its encryption, the receipts of the client set and their repair are not part of the model.
pub mod Submission
pub mod Totals
pub mod Events
pub mod Granting
pub mod Submitting
pub mod Vectors
pub mod Before
pub mod Conserved
use anymone.Base.{
  ℕ, ◌+◌, ◌-◌, ◌*◌, ◌/◌, min, Bool, true, false, ◌&&◌, ◌||◌, not, Option, none, some, List, [], ◌∷◌,
  ◌++◌, map, length, ltb, leb, retain, take, drop, concat, get_elem?, map_or, unwrap_or, max_of,
  filter_map, codes, if◌then◌else◌,
}
use anymone.Base.Equality.{nat_eq, ◌==◌}
use anymone.Base.Maps.{get, contains_key}
use anymone.Base.Ordered.{put_at, take_at}
use anymone.Base.Results.{Result, ok, err}
use anymone.Panetiere.{round_retention, round_in_window}

abbrev pub reservation_to_msg_gap : ℕ
reservation_to_msg_gap = 2

abbrev pub sched_entries_retention : ℕ
sched_entries_retention = round_retention + reservation_to_msg_gap

-- A granted slot: the round, the offset in the message vector and the payload.
pub record Grant : Type 0 where
  pub target : ℕ
  pub offset : ℕ
  pub payload : List ℕ

-- The fields that the messages go through. `cover_rate` and the generators are in the `Coins` of a round.
pub record ScheduledClient : Type 0 where
  pub vector_bytes : ℕ
  pub n_servers : ℕ
  pub servers : List (ℕ × List ℕ)
  pub leader_pk : ℕ
  pub setup_seed : ℕ
  pub staged : List (List ℕ)
  pub deferred : List (List ℕ)
  pub reserved : List (ℕ × List (ℕ × List ℕ))
  pub granted : List Grant
  pub entries_by_round : List (ℕ × List (ℕ × ℕ))
  pub cur_round : Option ℕ

-- `codec` of the panetiere crate, and what is signed. `allocate` gives the offsets of the entries at the
-- beacon of their random numbers, under a cap.
pub record Codec : Type 0 where
  pub allocate : List (ℕ × ℕ) → ℕ → List (Option ℕ)
  pub bytes_per_poly : ℕ
  pub reservation_signing_bytes : ℕ → ℕ → List (ℕ × ℕ) → List ℕ
  pub verify : ℕ → List ℕ → List ℕ → Bool

-- What a round draws: the coin of each bounced payload, whether cover is due, and the number with which
-- the loop that avoids the numbers in use ends.
pub record Coins : Type 0 where
  pub retry : ℕ → Bool
  pub cover_due : Bool
  pub rand_beside : List ℕ → ℕ

abbrev pub is_real : List ℕ → Bool
is_real [] = false
is_real (b ∷ bytes) = true

-- `allocation`: the offsets, and the number of polynomials that the grants need.
ends_of : List (ℕ × ℕ) → List (Option ℕ) → List ℕ
ends_of [] offs = []
ends_of (e ∷ entries) [] = []
ends_of ((r, size) ∷ entries) (none ∷ offs) = ends_of entries offs
ends_of ((r, size) ∷ entries) (some o ∷ offs) = (o + size) ∷ ends_of entries offs

unfoldable pub allocation : Codec → List (ℕ × ℕ) → ℕ → List (Option ℕ) × ℕ
unfolding ends_of
allocation codec entries cap =
    let offs = codec.allocate entries cap in
    let used = unwrap_or 0 (max_of (ends_of entries offs)) in
    (offs, (used + codec.bytes_per_poly - 1) / codec.bytes_per_poly)

unfoldable pub take_pending_messages : ScheduledClient → ScheduledClient × List (List ℕ)
take_pending_messages s = (
  record s { staged = []; deferred = []; reserved = []; granted = [] },
  retain is_real (
      map (λ g. g.payload) s.granted
      ++ (concat (map (λ e. map (λ r. r.1) e.1) s.reserved) ++ (s.deferred ++ s.staged))),
)

unfoldable pub pending_message_count : ScheduledClient → ℕ
pending_message_count s =
    length s.staged
    + length s.deferred
    + length s.granted
    + length (concat (map (λ e. e.1) s.reserved))

unfoldable pub reserve_message :
    ScheduledClient → List ℕ → ScheduledClient × Result (Unit {0}) (List ℕ)
reserve_message s payload =
    if ltb (min s.vector_bytes 65535) (length payload)
    then (s, err (codes "payload exceeds reservation capacity"))
    else (record s { staged = s.staged ++ payload ∷ [] }, ok tt)

-- The reservations of rounds before the cutoff go back, their cover is dropped.
unfoldable pub advance_round : ScheduledClient → ℕ → ScheduledClient
advance_round s round =
    let cutoff = round - round_retention in
    let stale = retain (λ e. ltb e.0 cutoff) s.reserved in
    record s {
      cur_round = some round;
      entries_by_round = retain (λ e. leb (round - sched_entries_retention) e.0) s.entries_by_round;
      reserved = retain (λ e. not (ltb e.0 cutoff)) s.reserved;
      deferred = s.deferred ++ retain is_real (concat (map (λ e. map (λ r. r.1) e.1) stale));
    }

-- `position(|&(r, s)| r == rand && s as usize == data.len())`
unfoldable pub position : List (ℕ × ℕ) → (rand size : ℕ) → Option ℕ
position [] rand size = none
position ((r, s) ∷ entries) rand size =
    let rest = position entries rand size in
    if r == rand && s == size then some 0 else elim (rest) [ none ↦ none | some i ↦ some (i + 1) ]

-- `idx.and_then(|i| offs[i])`; the offsets are as many as the entries.
unfoldable pub slot_of : List (Option ℕ) → Option ℕ → Option ℕ
slot_of offs none = none
slot_of offs (some i) = elim (get_elem? offs i) [ none ↦ none | some off ↦ off ]

-- One turn of the loop over the client's reservations.
unfoldable pub grant :
    List (ℕ × ℕ) → List (Option ℕ) → (target : ℕ) → ScheduledClient → ℕ × List ℕ → ScheduledClient
unfolding position slot_of
grant entries offs target s (rand, payload) =
    elim (slot_of offs (position entries rand (length payload))) [
      | some offset ↦ record s {
        granted = s.granted ++ record { target = target; offset = offset; payload = payload } ∷ [];
      }
      | none ↦ if is_real payload then record s { deferred = s.deferred ++ payload ∷ [] } else s
    ]

unfoldable pub grant_all :
    List (ℕ × ℕ)
    → List (Option ℕ)
    → (target : ℕ) → ScheduledClient
    → List (ℕ × List ℕ)
    → ScheduledClient
grant_all entries offs target s [] = s
grant_all entries offs target s (mine ∷ rest) =
    grant_all entries offs target (grant entries offs target s mine) rest

-- `entry(round).or_insert(entries)`, and the reservations of the round are taken out.
unfoldable pub take_entries :
    ScheduledClient → ℕ → List (ℕ × ℕ) → ScheduledClient × Option (List (ℕ × List ℕ))
take_entries s round entries =
    let taken = take_at s.reserved round in
    (
      record s {
        reserved = taken.1;
        entries_by_round =
            if contains_key s.entries_by_round round
            then s.entries_by_round
            else put_at s.entries_by_round round entries;
      },
      taken.0,
    )

unfoldable pub accept_reservations :
    Codec
    → ScheduledClient
    → (round : ℕ) → List (ℕ × ℕ)
    → List ℕ
    → ScheduledClient × Result (Unit {0}) (List ℕ)
unfolding take_entries
accept_reservations codec s round entries signature =
    if not (
      codec.verify s.leader_pk (codec.reservation_signing_bytes s.setup_seed round entries)
        signature)
    then (s, err (codes "invalid reservation signature"))
    else if not (round_in_window round s.cur_round)
    then (s, err (codes "reservation round is outside the active window"))
    else let taken = take_entries s round entries in
      (
        grant_all entries (allocation codec entries s.vector_bytes).0
            (round + reservation_to_msg_gap) taken.0 (unwrap_or [] taken.1),
        ok tt,
      )
