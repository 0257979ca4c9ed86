-- ===== src/ClientSet/Plurality/Counts.antt =====
-- What the counting loop gathers, and the entry that `max_by` picks.
use anymone.Base.{
  ℕ, ◌+◌, ◌≡◌, refl, subst, ap, inl, inr, true, false, none, some, List, [], ◌∷◌, unwrap_or, arith,
  Bool-cases, Option-cases,
}
use anymone.Base.Equality.{nat_eq, list_eq, ◌==◌, list_beq_iff}
use anymone.Base.Maps.{get, put, get-put}
use anymone.ClientSet.Plurality.{is_below, count_sets, best_of, votes}
use anymone.ClientSet.Plurality.Order.{is_below_trans, is_below_irrefl}

pub count_sets-votes :
    (outputs : List (List ℕ)) (counts : List (List ℕ × ℕ)) (set : List ℕ)
    → unwrap_or 0 (get (count_sets outputs counts) set)
      ≡ votes outputs set + unwrap_or 0 (get counts set)
unfolding count_sets
count_sets-votes [] counts set = omega arith
count_sets-votes (o ∷ outputs) counts set =
    let more = unwrap_or 0 (get counts o) + 1 in
    ground (
      arith,
      count_sets-votes outputs (put counts o more) set,
      get-put counts o set more,
      list_beq_iff o set,
      λ (e : o ≡ set). ap (get counts) e,
    )

-- No key stands twice.
abbrev IsMap : List (List ℕ × ℕ) → Type 0
IsMap [] = Unit
IsMap ((k, v) ∷ m) = (get m k ≡ none) × IsMap m

put-IsMap : (m : List (List ℕ × ℕ)) (k : List ℕ) (v : ℕ) → IsMap m → IsMap (put m k v)
put-IsMap [] k v d = (refl, tt)
put-IsMap ((j, w) ∷ m) k v d = ground (
  arith,
  d,
  put-IsMap m k v,
  get-put m k j v,
  list_beq_iff j k,
  list_beq_iff k j,
  λ (e : j ≡ k). ap (get m) e,
)

pub count_sets-IsMap :
    (outputs : List (List ℕ)) (counts : List (List ℕ × ℕ))
    → IsMap counts
    → IsMap (count_sets outputs counts)
unfolding count_sets
count_sets-IsMap [] counts d = d
count_sets-IsMap (o ∷ outputs) counts d =
    count_sets-IsMap outputs (put counts o _) (put-IsMap counts o _ d)

-- The best entry is one of the map's, and none is above it.
abbrev pub IsBest : List (List ℕ × ℕ) → List ℕ × ℕ → Type 0
IsBest m b =
    (get m b.0 ≡ some b.1) × ((s : List ℕ) (n : ℕ) → get m s ≡ some n → is_below b (s, n) ≡ false)

first-IsBest :
    (k : List ℕ) (v : ℕ) (m : List (List ℕ × ℕ))
    → ((s : List ℕ) (n : ℕ) → get m s ≡ some n → is_below (k, v) (s, n) ≡ false)
    → IsBest ((k, v) ∷ m) (k, v)
first-IsBest k v m over = (
  ground (arith, list_beq_iff k k),
  λ s n h. elim (Bool-cases (k == s)) [
    | inr other ↦ over s n (ground (arith, h, other))
    | inl same ↦
        let found : v ≡ n = ground (arith, h, same) in
        subst (λ z. is_below (k, v) (z, n) ≡ false) ((list_beq_iff k s).0 same)
          (subst (λ z. is_below (k, v) (k, z) ≡ false) found (is_below_irrefl (k, v)))
  ],
)

later-IsBest :
    (k : List ℕ) (v : ℕ) (m : List (List ℕ × ℕ)) (b : List ℕ × ℕ)
    → get m k ≡ none
    → is_below b (k, v) ≡ false
    → IsBest m b
    → IsBest ((k, v) ∷ m) b
later-IsBest k v m b new not_less (at, over) = (
  ground (arith, at, new, list_beq_iff k b.0, λ (e : k ≡ b.0). ap (get m) e),
  λ s n h. elim (Bool-cases (k == s)) [
    | inr other ↦ over s n (ground (arith, h, other))
    | inl same ↦
        let found : v ≡ n = ground (arith, h, same) in
        subst (λ z. is_below b (z, n) ≡ false) ((list_beq_iff k s).0 same)
          (subst (λ z. is_below b (k, z) ≡ false) found not_less)
  ],
)

pub best_of-none : (m : List (List ℕ × ℕ)) (s : List ℕ) → best_of m ≡ none → get m s ≡ none
unfolding best_of
best_of-none [] s h = refl
best_of-none (e ∷ m) s h = cc

above_all : (a b d : List ℕ × ℕ) → is_below a b ≡ true → is_below a d ≡ false → is_below b d ≡ false
above_all a b d less over = ground (arith, less, over, is_below_trans a b d)

pub best_of-IsBest :
    (m : List (List ℕ × ℕ)) (b : List ℕ × ℕ) → IsMap m → best_of m ≡ some b → IsBest m b
unfolding best_of
best_of-IsBest [] b d h = cc
best_of-IsBest ((k, v) ∷ m) b d h = elim (Option-cases (best_of m)) [
  | inl nothing ↦
      let first : (k, v) ≡ b = ground (arith, h, nothing) in
      subst (IsBest ((k, v) ∷ m)) first
        (first-IsBest k v m (λ s n g. ground (arith, g, best_of-none m s nothing)))
  | inr (b', best) ↦
      let rest = best_of-IsBest m b' d.1 best in
      elim (Bool-cases (is_below b' (k, v))) [
        | inl less ↦
            let first : (k, v) ≡ b = ground (arith, h, best, less) in
            subst (IsBest ((k, v) ∷ m)) first
              (first-IsBest k v m (λ s n g. above_all b' (k, v) (s, n) less (rest.1 s n g)))
        | inr not_less ↦
            let later : b' ≡ b = ground (arith, h, best, not_less) in
            subst (IsBest ((k, v) ∷ m)) later (later-IsBest k v m b' d.0 not_less rest)
      ]
]
