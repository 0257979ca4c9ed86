-- ===== src/ScheduledClient/Granting.antt =====
-- The leader's reservations and the start of a round lose no payload and double none.
use anymone.Base.{
  ℕ, ◌+◌, ◌-◌, ◌≡◌, refl, true, Option, List, [], ◌∷◌, ◌++◌, inl, inr, ap, Bool-cases, Option-cases,
  retain, unwrap_or, ltb, length, min, arith,
}
use anymone.Panetiere.{round_retention}
use anymone.ScheduledClient.{
  Grant, ScheduledClient, Codec, is_real, position, slot_of, grant, grant_all, allocation,
  take_entries, advance_round, accept_reservations, reserve_message, reservation_to_msg_gap,
}
use anymone.ScheduledClient.Events.{taken}
use anymone.ScheduledClient.Totals.{
  occurrences, one, held, payloads, payloads_of, granted_payloads, occurrences-append,
  occurrences-take_at, occurrences-split, one-cover, occurrences-retain_real,
}

pub granted-append :
    (xs ys : List Grant) → granted_payloads (xs ++ ys) ≡ granted_payloads xs ++ granted_payloads ys
granted-append [] ys = refl
granted-append (g ∷ xs) ys = ap (◌∷◌ g.payload) (granted-append xs ys)

module _ (x : List ℕ) (real : is_real x ≡ true) where
  grant-held :
      (entries : List (ℕ × ℕ)) (offs : List (Option ℕ)) (target : ℕ) (s : ScheduledClient)
      (mine : ℕ × List ℕ)
      → held x (grant entries offs target s mine) ≡ held x s + one x mine.1
  unfolding grant occurrences
  grant-held entries offs target s (rand, payload) =
      elim (Option-cases (slot_of offs (position entries rand (length payload)))) [
        | inr (offset, found) ↦
            let new : Grant = record { target = target; offset = offset; payload = payload } in
            ground (
              arith,
              found,
              granted-append s.granted (new ∷ []),
              occurrences-append x (granted_payloads s.granted) (payload ∷ []),
            )
        | inl lost ↦ elim (Bool-cases (is_real payload)) [
          | inl kept ↦ ground (arith, lost, kept, occurrences-append x s.deferred (payload ∷ []))
          | inr cover ↦ ground (arith, lost, cover, one-cover x real payload cover)
        ]
      ]

  grant_all-held :
      (entries : List (ℕ × ℕ)) (offs : List (Option ℕ)) (target : ℕ) (s : ScheduledClient)
      (mine : List (ℕ × List ℕ))
      → held x (grant_all entries offs target s mine) ≡ held x s + occurrences x (payloads mine)
  unfolding grant_all occurrences
  grant_all-held entries offs target s [] = omega arith
  grant_all-held entries offs target s (r ∷ mine) = omega (
    arith,
    grant-held entries offs target s r,
    grant_all-held entries offs target (grant entries offs target s r) mine,
  )

  take_entries-held :
      (s : ScheduledClient) (round : ℕ) (entries : List (ℕ × ℕ))
      → let taken = take_entries s round entries in
        held x taken.0 + occurrences x (payloads (unwrap_or [] taken.1)) ≡ held x s
  unfolding take_entries
  take_entries-held s round entries = omega (arith, occurrences-take_at x s.reserved round)

  pub accept_reservations-held :
      (codec : Codec) (s : ScheduledClient) (round : ℕ) (entries : List (ℕ × ℕ))
      (signature : List ℕ)
      → held x (accept_reservations codec s round entries signature).0 ≡ held x s
  unfolding accept_reservations
  accept_reservations-held codec s round entries signature =
      let taken = take_entries s round entries in
      let offs = (allocation codec entries s.vector_bytes).0 in
      ground (
        arith,
        take_entries-held s round entries,
        grant_all-held entries offs (round + reservation_to_msg_gap) taken.0 (unwrap_or [] taken.1),
      )

  pub advance_round-held :
      (s : ScheduledClient) (round : ℕ) → held x (advance_round s round) ≡ held x s
  unfolding advance_round
  advance_round-held s round =
      let is_stale = λ (e : ℕ × List (ℕ × List ℕ)). ltb e.0 (round - round_retention) in
      let back = payloads_of (retain is_stale s.reserved) in
      omega (
        arith,
        occurrences-split x is_stale s.reserved,
        occurrences-append x s.deferred (retain is_real back),
        occurrences-retain_real x real back,
      )

  pub reserve_message-held :
      (s : ScheduledClient) (payload : List ℕ)
      → let done = reserve_message s payload in
        held x done.0 ≡ held x s + occurrences x (taken payload done.1)
  unfolding reserve_message occurrences
  reserve_message-held s payload =
      elim (Bool-cases (ltb (min s.vector_bytes 65535) (length payload))) [
        | inl large ↦ ground (arith, large)
        | inr fits ↦ ground (arith, fits, occurrences-append x s.staged (payload ∷ []))
      ]
