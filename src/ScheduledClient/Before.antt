-- ===== src/ScheduledClient/Before.antt =====
-- The rounds for which a scheduled client holds reservations.
use anymone.Base.{
  ℕ, ◌+◌, ◌-◌, ◌≤◌, ◌<◌, ◌≡◌, refl, sym, subst, not, Option, none, List, [], ◌∷◌, ◌⊎◌, inl, inr,
  Bool-cases, length, ltb, min, unwrap_or, All, All-imp, retain-All, arith,
}
use anymone.Base.Equality.{nat_eq, ◌==◌}
use anymone.Base.Maps.{get}
use anymone.Base.Ordered.{put_at, take_at}
use anymone.Panetiere.{round_in_window, round_retention}
use anymone.ScheduledClient.{
  ScheduledClient, Codec, Coins, grant, grant_all, take_entries, advance_round, accept_reservations,
  reserve_message, allocation, reservation_to_msg_gap,
}
use anymone.ScheduledClient.Submission.{insert_reserved, finalize_round}

-- The reservations held are of rounds before the bound.
abbrev pub IsBefore : ℕ → ScheduledClient → Type 0
IsBefore bound s = All (λ e. e.0 < bound) s.reserved

pub get-before :
    (m : List (ℕ × List (ℕ × List ℕ))) (bound k : ℕ)
    → All (λ e. e.0 < bound) m
    → bound ≤ k
    → get m k ≡ none
get-before [] bound k h le = refl
get-before ((j, v) ∷ m) bound k h le =
    let below = h.0 in ground (arith, below, get-before m bound k h.1 le)

put_at-before :
    (m : List (ℕ × List (ℕ × List ℕ))) (bound k : ℕ) (v : List (ℕ × List ℕ))
    → All (λ e. e.0 < bound) m
    → k < bound
    → All (λ e. e.0 < bound) (put_at m k v)
unfolding put_at
put_at-before [] bound k v h lt = (lt, tt)
put_at-before ((j, w) ∷ m) bound k v h lt =
    let below = h.0 in
    let rest = put_at-before m bound k v h.1 lt in
    elim (Bool-cases (k == j)) [
      | inl same ↦ rw same (lt, h.1)
      | inr other ↦ elim (Bool-cases (ltb k j)) [
        | inl before ↦ rw (other, before) (lt, h)
        | inr after ↦ rw (other, after) (below, rest)
      ]
    ]

take_at-before :
    (m : List (ℕ × List (ℕ × List ℕ))) (bound k : ℕ)
    → All (λ e. e.0 < bound) m
    → All (λ e. e.0 < bound) (take_at m k).1
unfolding take_at
take_at-before [] bound k h = tt
take_at-before ((j, w) ∷ m) bound k h =
    let rest = take_at-before m bound k h.1 in
    elim (Bool-cases (j == k)) [ inl same ↦ rw same h.1 | inr other ↦ rw other (h.0, rest) ]

grant_all-reserved :
    (entries : List (ℕ × ℕ)) (offs : List (Option ℕ)) (target : ℕ) (s : ScheduledClient)
    (mine : List (ℕ × List ℕ))
    → (grant_all entries offs target s mine).reserved ≡ s.reserved
unfolding grant_all grant
grant_all-reserved entries offs target s [] = refl
grant_all-reserved entries offs target s (r ∷ mine) =
    ground (arith, grant_all-reserved entries offs target (grant entries offs target s r) mine)

accept_reservations-reserved :
    (codec : Codec) (s : ScheduledClient) (round : ℕ) (entries : List (ℕ × ℕ)) (signature : List ℕ)
    → let t = (accept_reservations codec s round entries signature).0 in
      (t.reserved ≡ s.reserved) ⊎ (t.reserved ≡ (take_at s.reserved round).1)
unfolding accept_reservations take_entries
accept_reservations-reserved codec s round entries signature =
    elim (Bool-cases (
      codec.verify s.leader_pk (codec.reservation_signing_bytes s.setup_seed round entries)
        signature)) [
          | inr forged ↦ inl (ground (arith, forged))
          | inl signed ↦ elim (Bool-cases (round_in_window round s.cur_round)) [
            | inr outside ↦ inl (ground (arith, signed, outside))
            | inl inside ↦ inr (
                ground (
                  arith,
                  signed,
                  inside,
                  grant_all-reserved entries (allocation codec entries s.vector_bytes).0
                      (round + reservation_to_msg_gap) (take_entries s round entries).0
                      (unwrap_or [] (take_entries s round entries).1),
                ))
          ]
        ]

pub accept_reservations-IsBefore :
    (codec : Codec) (bound : ℕ) (s : ScheduledClient) (round : ℕ) (entries : List (ℕ × ℕ))
    (signature : List ℕ)
    → IsBefore bound s
    → IsBefore bound (accept_reservations codec s round entries signature).0
accept_reservations-IsBefore codec bound s round entries signature h =
    elim (accept_reservations-reserved codec s round entries signature) [
      | inl same ↦ subst (All (λ e. e.0 < bound)) (sym same) h
      | inr less ↦
          subst (All (λ e. e.0 < bound)) (sym less) (take_at-before s.reserved bound round h)
    ]

pub advance_round-IsBefore :
    (bound : ℕ) (s : ScheduledClient) (round : ℕ)
    → IsBefore bound s
    → IsBefore bound (advance_round s round)
unfolding advance_round
advance_round-IsBefore bound s round h =
    retain-All (λ e. e.0 < bound) (λ e. not (ltb e.0 (round - round_retention))) s.reserved h

pub reserve_message-IsBefore :
    (bound : ℕ) (s : ScheduledClient) (payload : List ℕ)
    → IsBefore bound s
    → IsBefore bound (reserve_message s payload).0
unfolding reserve_message
reserve_message-IsBefore bound s payload h =
    elim (Bool-cases (ltb (min s.vector_bytes 65535) (length payload))) [
      | inl large ↦ rw large h
      | inr fits ↦ rw fits h
    ]

insert_reserved-before :
    (m : List (ℕ × List (ℕ × List ℕ))) (round : ℕ) (v : List (ℕ × List ℕ))
    → All (λ e. e.0 < round + 1) m
    → All (λ e. e.0 < round + 1) (insert_reserved m round v)
insert_reserved-before m round [] h = h
insert_reserved-before m round (r ∷ v) h = put_at-before m (round + 1) round (r ∷ v) h (omega arith)

pub finalize_round-IsBefore :
    (codec : Codec) (coins : Coins) (bound : ℕ) (s : ScheduledClient) (round : ℕ)
    → bound ≤ round
    → IsBefore bound s
    → IsBefore (round + 1) (finalize_round codec coins s round).0
unfolding finalize_round
finalize_round-IsBefore codec coins bound s round le h =
    let wider : All (λ e. e.0 < round + 1) s.reserved =
      All-imp (λ e. e.0 < bound) (λ e. e.0 < round + 1) s.reserved (λ e lt. omega arith) h in
    elim (Bool-cases (length s.servers == s.n_servers)) [
      | inr missing ↦ rw missing wider
      | inl complete ↦ rw complete (insert_reserved-before s.reserved round _ wider)
    ]
