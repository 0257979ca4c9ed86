-- ===== src/ScheduledClient/Submitting.antt =====
-- The submission of a round neither loses nor doubles a payload.
use anymone.Base.{
  ℕ, ◌+◌, ◌≡◌, refl, sym, ap, Bool, true, false, ◌&&◌, ◌||◌, not, none, some, List, [], ◌∷◌, ◌++◌,
  inl, inr, Bool-cases, map, length, if◌then◌else◌, arith,
}
use anymone.Base.Equality.{nat_eq, ◌==◌}
use anymone.Base.Maps.{get}
use anymone.ScheduledClient.{Grant, ScheduledClient, Codec, Coins, is_real}
use anymone.ScheduledClient.Submission.{
  Placing, Plaintext, place, place_all, drain, reserve_all, stage, insert_reserved, fresh_placing,
  msg_bytes, finalize_round, is_nil,
}
use anymone.ScheduledClient.Totals.{
  occurrences, one, held, payloads, payloads_of, granted_payloads, occurrences-append,
  occurrences-put_at, one-cover,
}
use anymone.ScheduledClient.Events.{due, placed_in}
use anymone.ScheduledClient.Granting.{granted-append}

module _ (x : List ℕ) (real : is_real x ≡ true) where
  abbrev waits : Placing → ℕ
  waits p = occurrences x (granted_payloads p.remaining) + occurrences x p.deferred

  place-waits :
      (round : ℕ) (p : Placing) (g : Grant)
      → waits (place round p g) + occurrences x (due round (g ∷ [])) ≡ waits p + one x g.payload
  unfolding place occurrences
  place-waits round p g = elim (Bool-cases (g.target == round)) [
    | inl now ↦ ground (arith, now)
    | inr other ↦ ground (
      arith,
      other,
      granted-append p.remaining (g ∷ []),
      occurrences-append x (granted_payloads p.remaining) (g.payload ∷ []),
      occurrences-append x p.deferred (g.payload ∷ []),
    )
  ]

  due-cons :
      (round : ℕ) (g : Grant) (grants : List Grant)
      → occurrences x (due round (g ∷ grants))
        ≡ occurrences x (due round (g ∷ [])) + occurrences x (due round grants)
  unfolding occurrences
  due-cons round g grants = ground arith

  place_all-waits :
      (round : ℕ) (p : Placing) (grants : List Grant)
      → waits (place_all round p grants) + occurrences x (due round grants)
        ≡ waits p + occurrences x (granted_payloads grants)
  unfolding place_all occurrences
  place_all-waits round p [] = omega arith
  place_all-waits round p (g ∷ grants) = omega (
    arith,
    place-waits round p g,
    due-cons round g grants,
    place_all-waits round (place round p g) grants,
  )

  drain-occurrences :
      (retry : ℕ → Bool) (i : ℕ) (deferred : List (List ℕ))
      → occurrences x (drain retry i deferred).0 + occurrences x (drain retry i deferred).1
        ≡ occurrences x deferred
  unfolding drain occurrences
  drain-occurrences retry i [] = omega arith
  drain-occurrences retry i (payload ∷ deferred) =
      ground (arith, drain-occurrences retry (i + 1) deferred)

  cover-occurrences :
      (staged : List (List ℕ)) (due : Bool)
      → occurrences x (if is_nil staged && due then [] ∷ [] else staged) ≡ occurrences x staged
  unfolding occurrences
  cover-occurrences [] true = omega (arith, one-cover x real [] refl)
  cover-occurrences [] false = refl
  cover-occurrences (y ∷ staged) due = refl

  stage-occurrences :
      (coins : Coins) (staged deferred : List (List ℕ))
      → occurrences x (stage coins staged deferred).0
          + occurrences x (stage coins staged deferred).1
        ≡ occurrences x staged + occurrences x deferred
  unfolding stage
  stage-occurrences coins staged deferred =
      let drained = drain coins.retry 0 deferred in
      omega (
        arith,
        cover-occurrences (staged ++ drained.0) coins.cover_due,
        occurrences-append x staged drained.0,
        drain-occurrences coins.retry 0 deferred,
      )

  payloads-append : (ms ns : List (ℕ × List ℕ)) → payloads (ms ++ ns) ≡ payloads ms ++ payloads ns
  payloads-append [] ns = refl
  payloads-append (m ∷ ms) ns = ap (◌∷◌ m.1) (payloads-append ms ns)

  reserve_all-occurrences :
      (rand_beside : List ℕ → ℕ) (reservations : List (ℕ × List ℕ)) (staged : List (List ℕ))
      → occurrences x (payloads (reserve_all rand_beside reservations staged))
        ≡ occurrences x (payloads reservations) + occurrences x staged
  unfolding reserve_all occurrences
  reserve_all-occurrences rand_beside reservations [] = omega arith
  reserve_all-occurrences rand_beside reservations (payload ∷ staged) =
      let new : List (ℕ × List ℕ) = (rand_beside (map (λ r. r.0) reservations), payload) ∷ [] in
      ground (
        arith,
        reserve_all-occurrences rand_beside (reservations ++ new) staged,
        payloads-append reservations new,
        occurrences-append x (payloads reservations) (payload ∷ []),
      )

  insert_reserved-occurrences :
      (m : List (ℕ × List (ℕ × List ℕ))) (round : ℕ) (v : List (ℕ × List ℕ))
      → get m round ≡ none
      → occurrences x (payloads_of (insert_reserved m round v))
        ≡ occurrences x (payloads v) + occurrences x (payloads_of m)
  unfolding occurrences
  insert_reserved-occurrences m round [] h = omega arith
  insert_reserved-occurrences m round (r ∷ v) h = occurrences-put_at x m round (r ∷ v) h

  finalize_round-kept :
      (codec : Codec) (coins : Coins) (s : ScheduledClient) (round : ℕ)
      → get s.reserved round ≡ none
      → held x (finalize_round codec coins s round).0
          + occurrences x (if length s.servers == s.n_servers then due round s.granted else [])
        ≡ held x s
  unfolding finalize_round occurrences
  finalize_round-kept codec coins s round fresh =
      elim (Bool-cases (length s.servers == s.n_servers)) [
        | inr missing ↦ ground (arith, missing)
        | inl complete ↦
            let start = fresh_placing (msg_bytes codec s round) s.deferred in
            let placed = place_all round start s.granted in
            let next = stage coins s.staged placed.deferred in
            ground (
              arith,
              complete,
              place_all-waits round start s.granted,
              stage-occurrences coins s.staged placed.deferred,
              reserve_all-occurrences coins.rand_beside [] next.0,
              insert_reserved-occurrences s.reserved round (reserve_all coins.rand_beside [] next.0)
                  fresh,
            )
      ]

  -- A round with a slot that is due has a grant.
  place_all-has_grant :
      (round : ℕ) (p : Placing) (grants : List Grant)
      → (place_all round p grants).has_grant ≡ (p.has_grant || not (is_nil (due round grants)))
  unfolding place_all place
  place_all-has_grant round p [] = ground arith
  place_all-has_grant round p (g ∷ grants) =
      ground (arith, place_all-has_grant round (place round p g) grants)

  is_nil-empty : (ys : List (List ℕ)) → is_nil ys ≡ true → ys ≡ []
  is_nil-empty [] h = refl
  is_nil-empty (y ∷ ys) h = absurd (cc)

  placed_in-out :
      (s : ScheduledClient) (round : ℕ) (out : Plaintext) (silent : Bool)
      → (silent ≡ true → due round s.granted ≡ [])
      → placed_in s round (if silent then none else some out) ≡ due round s.granted
  placed_in-out s round out true h = sym (h refl)
  placed_in-out s round out false h = refl

  -- The slots that are due go out, unless the servers' keys are missing.
  placed_in-due :
      (codec : Codec) (coins : Coins) (s : ScheduledClient) (round : ℕ)
      → placed_in s round (finalize_round codec coins s round).1
        ≡ (if length s.servers == s.n_servers then due round s.granted else [])
  unfolding finalize_round
  placed_in-due codec coins s round = elim (Bool-cases (length s.servers == s.n_servers)) [
    | inr missing ↦ simp missing refl
    | inl complete ↦
        let start = fresh_placing (msg_bytes codec s round) s.deferred in
        let placed = place_all round start s.granted in
        let reservations =
          reserve_all coins.rand_beside [] (stage coins s.staged placed.deferred).0 in
        simp complete (
          placed_in-out s round
            (record {
              tokens = map (λ r. (r.0, length r.1)) reservations;
              msg_buf = placed.msg_buf;
            })
            (not placed.has_grant && is_nil reservations)
            (λ silent.
              is_nil-empty (due round s.granted)
                (ground (arith, silent, place_all-has_grant round start s.granted))))
  ]

  pub finalize_round-held :
      (codec : Codec) (coins : Coins) (s : ScheduledClient) (round : ℕ)
      → get s.reserved round ≡ none
      → let done = finalize_round codec coins s round in
        held x done.0 + occurrences x (placed_in s round done.1) ≡ held x s
  finalize_round-held codec coins s round fresh = omega (
    arith,
    finalize_round-kept codec coins s round fresh,
    ap (occurrences x) (placed_in-due codec coins s round),
  )
