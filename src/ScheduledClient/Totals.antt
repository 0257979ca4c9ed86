-- ===== src/ScheduledClient/Totals.antt =====
-- How often a payload is held in the queues of a scheduled client.
use anymone.Base.{
  ℕ, ◌+◌, ◌≡◌, refl, Bool, true, false, not, none, List, [], ◌∷◌, ◌++◌, inl, inr, Bool-cases, map,
  retain, concat, unwrap_or, ltb, if◌then◌else◌, arith,
}
use anymone.Base.Equality.{nat_eq, list_eq, ◌==◌}
use anymone.Base.Maps.{get}
use anymone.Base.Ordered.{put_at, take_at}
use anymone.ScheduledClient.{Grant, ScheduledClient, is_real, take_pending_messages}

-- The payloads of a round's reservations, and of all of them.
abbrev pub payloads : List (ℕ × List ℕ) → List (List ℕ)
payloads mine = map (λ r. r.1) mine

abbrev pub payloads_of : List (ℕ × List (ℕ × List ℕ)) → List (List ℕ)
payloads_of reserved = concat (map (λ e. map (λ r. r.1) e.1) reserved)

abbrev pub granted_payloads : List Grant → List (List ℕ)
granted_payloads grants = map (λ g. g.payload) grants

module _ (x : List ℕ) where
  abbrev pub one : List ℕ → ℕ
  one y = if y == x then 1 else 0

  unfoldable pub occurrences : List (List ℕ) → ℕ
  occurrences [] = 0
  occurrences (y ∷ ys) = one y + occurrences ys

  abbrev pub held : ScheduledClient → ℕ
  held s =
      occurrences (granted_payloads s.granted)
      + occurrences (payloads_of s.reserved)
      + occurrences s.deferred
      + occurrences s.staged

  pub occurrences-append :
      (ys zs : List (List ℕ)) → occurrences (ys ++ zs) ≡ occurrences ys + occurrences zs
  unfolding occurrences
  occurrences-append [] zs = omega arith
  occurrences-append (y ∷ ys) zs = omega (arith, occurrences-append ys zs)

  pub occurrences-put_at :
      (m : List (ℕ × List (ℕ × List ℕ))) (k : ℕ) (v : List (ℕ × List ℕ))
      → get m k ≡ none
      → occurrences (payloads_of (put_at m k v))
        ≡ occurrences (payloads v) + occurrences (payloads_of m)
  unfolding put_at
  occurrences-put_at [] k v h = occurrences-append (payloads v) []
  occurrences-put_at ((j, w) ∷ m) k v h = elim (Bool-cases (j == k)) [
    | inl same ↦ absurd (ground (arith, h, same))
    | inr other ↦ elim (Bool-cases (ltb k j)) [
      | inl below ↦
          ground
            (arith, h, other, below, occurrences-append (payloads v) (payloads w ++ payloads_of m))
      | inr above ↦ ground (
        arith,
        h,
        other,
        above,
        occurrences-append (payloads w) (payloads_of (put_at m k v)),
        occurrences-append (payloads w) (payloads_of m),
        occurrences-put_at m k v,
      )
    ]
  ]

  pub occurrences-take_at :
      (m : List (ℕ × List (ℕ × List ℕ))) (k : ℕ)
      → occurrences (payloads_of (take_at m k).1)
          + occurrences (payloads (unwrap_or [] (take_at m k).0))
        ≡ occurrences (payloads_of m)
  unfolding take_at occurrences
  occurrences-take_at [] k = omega arith
  occurrences-take_at ((j, w) ∷ m) k = elim (Bool-cases (j == k)) [
    | inl same ↦ ground (arith, same, occurrences-append (payloads w) (payloads_of m))
    | inr other ↦ ground (
      arith,
      other,
      occurrences-append (payloads w) (payloads_of m),
      occurrences-append (payloads w) (payloads_of (take_at m k).1),
      occurrences-take_at m k,
    )
  ]

  pub occurrences-split :
      (p : ℕ × List (ℕ × List ℕ) → Bool) (m : List (ℕ × List (ℕ × List ℕ)))
      → occurrences (payloads_of (retain p m))
          + occurrences (payloads_of (retain (λ e. not (p e)) m))
        ≡ occurrences (payloads_of m)
  unfolding occurrences
  occurrences-split p [] = omega arith
  occurrences-split p (e ∷ m) = elim (Bool-cases (p e)) [
    | inl yes_ ↦ ground (
      arith,
      yes_,
      occurrences-append (payloads e.1) (payloads_of m),
      occurrences-append (payloads e.1) (payloads_of (retain p m)),
      occurrences-split p m,
    )
    | inr no_ ↦ ground (
      arith,
      no_,
      occurrences-append (payloads e.1) (payloads_of m),
      occurrences-append (payloads e.1) (payloads_of (retain (λ d. not (p d)) m)),
      occurrences-split p m,
    )
  ]

  module _ (real : is_real x ≡ true) where
    -- A payload that is not empty is no cover.
    pub one-cover : (y : List ℕ) → is_real y ≡ false → one y ≡ 0
    one-cover [] h = elim (Bool-cases (list_eq.beq [] x)) [
      | inl same ↦ absurd (let e = (list_eq.beq_iff [] x).0 same in cc)
      | inr other ↦ ground (arith, other)
    ]
    one-cover (b ∷ bytes) h = absurd (cc)

    pub occurrences-retain_real :
        (ys : List (List ℕ)) → occurrences (retain is_real ys) ≡ occurrences ys
    unfolding occurrences
    occurrences-retain_real [] = refl
    occurrences-retain_real (y ∷ ys) = elim (Bool-cases (is_real y)) [
      | inl kept ↦ ground (arith, kept, occurrences-retain_real ys)
      | inr cover ↦ ground (arith, cover, one-cover y cover, occurrences-retain_real ys)
    ]

    pub occurrences-take_pending_messages :
        (s : ScheduledClient) → occurrences (take_pending_messages s).1 ≡ held s
    unfolding take_pending_messages
    occurrences-take_pending_messages s =
        let granted = granted_payloads s.granted in
        let reserved = payloads_of s.reserved in
        omega (
          arith,
          occurrences-retain_real (granted ++ (reserved ++ (s.deferred ++ s.staged))),
          occurrences-append granted (reserved ++ (s.deferred ++ s.staged)),
          occurrences-append reserved (s.deferred ++ s.staged),
          occurrences-append s.deferred s.staged,
        )
