-- ===== src/ClientSet/Plurality/Choice.antt =====
-- The choice is the greatest of the published sets, the same for every recipient.
use anymone.Base.{
  ℕ, ◌+◌, ◌<◌, ◌≤◌, ◌≡◌, refl, sym, subst, inl, inr, false, some, List, [], ◌∷◌, unwrap_or, arith,
  Option-cases,
}
use anymone.Base.Equality.{nat_eq, list_eq, list_beq_iff}
use anymone.Base.Maps.{get}
use anymone.ClientSet.Plurality.{is_below, count_sets, best_of, plurality_set, votes}
use anymone.ClientSet.Plurality.Order.{is_below_antisym}
use anymone.ClientSet.Plurality.Counts.{
  count_sets-votes, count_sets-IsMap, best_of-none, best_of-IsBest,
}

-- The set is chosen by its votes, then its length, then the order of its clients.
IsChosen : List (List ℕ) → List ℕ → Type 0
IsChosen outputs set =
    (0 < votes outputs set)
    × ((s : List ℕ)
        → 0 < votes outputs s
        → is_below (set, votes outputs set) (s, votes outputs s) ≡ false)

entry_of :
    (m : List (List ℕ × ℕ)) (s : List ℕ) (n : ℕ)
    → 0 < n
    → unwrap_or 0 (get m s) ≡ n + 0
    → get m s ≡ some n
entry_of m s n pos h = ground (arith, pos, h)

votes_first : (a b : List ℕ × ℕ) → is_below a b ≡ false → b.1 ≤ a.1
unfolding is_below
votes_first (sa, na) (sb, nb) h = ground (arith, h)

plurality_set-IsChosen :
    (outputs : List (List ℕ)) (s : List ℕ)
    → 0 < votes outputs s
    → IsChosen outputs (plurality_set outputs)
unfolding plurality_set IsChosen
plurality_set-IsChosen outputs s h =
    let m = count_sets outputs [] in
    let entry = count_sets-votes outputs [] in
    elim (Option-cases (best_of m)) [
      | inl nothing ↦ ground (arith, h, entry s, best_of-none m s nothing)
      | inr (b, best) ↦
          let (at, over) = best_of-IsBest m b (count_sets-IsMap outputs [] tt) best in
          let counted : b.1 ≡ votes outputs b.0 = ground (arith, at, entry b.0) in
          let over' : (z : List ℕ) → 0 < votes outputs z → is_below b (z, votes outputs z) ≡ false =
            λ z k. over z (votes outputs z) (entry_of m z (votes outputs z) k (entry z)) in
          let chosen : plurality_set outputs ≡ b.0 = ground (arith, best) in
          subst (IsChosen outputs) (sym chosen) (
            ground (arith, h, counted, votes_first b (s, votes outputs s) (over' s h)),
            λ z k. subst (λ n. is_below (b.0, n) (z, votes outputs z) ≡ false) counted (over' z k),
          )
    ]

same_choice :
    (outputs outputs' : List (List ℕ)) (s : List ℕ)
    → ((s : List ℕ) → votes outputs s ≡ votes outputs' s)
    → 0 < votes outputs s
    → plurality_set outputs ≡ plurality_set outputs'
unfolding IsChosen
same_choice outputs outputs' s same h =
    let w = plurality_set outputs in
    let w' = plurality_set outputs' in
    let (pos, over) = plurality_set-IsChosen outputs s h in
    let (pos', over') = plurality_set-IsChosen outputs' s (omega (arith, h, same s)) in
    is_below_antisym (w, votes outputs w) (w', votes outputs w')
      (over w' (omega (arith, pos', same w')))
      (rw (same w, same w') (over' w (omega (arith, pos, same w))))

votes-head : (o : List ℕ) (outputs : List (List ℕ)) → 0 < votes (o ∷ outputs) o
votes-head o outputs = ground (arith, list_beq_iff o o)

agree :
    (outputs outputs' : List (List ℕ))
    → ((s : List ℕ) → votes outputs s ≡ votes outputs' s)
    → plurality_set outputs ≡ plurality_set outputs'
agree [] [] same = refl
agree [] (o ∷ outputs') same = absurd (omega (arith, same o, votes-head o outputs'))
agree (o ∷ outputs) outputs' same = same_choice (o ∷ outputs) outputs' o same (votes-head o outputs)

-- Two recipients choose the same set whenever each set has as many votes with the one as with the
-- other, in whatever order the outputs came; and if anything was published at all, the choice was
-- published, and no published set has more votes, or as many and more clients, or as many of both
-- and is greater in the order of the client numbers.
pub plurality_set_agrees :
    (outputs outputs' : List (List ℕ))
    → ((s : List ℕ) → votes outputs s ≡ votes outputs' s)
    → (plurality_set outputs ≡ plurality_set outputs')
      × ((s : List ℕ)
          → 0 < votes outputs s
          → (0 < votes outputs (plurality_set outputs))
            × (is_below
                  (plurality_set outputs, votes outputs (plurality_set outputs))
                  (s, votes outputs s)
                ≡ false))
unfolding IsChosen
plurality_set_agrees outputs outputs' same = (
  agree outputs outputs' same,
  λ s h. let (some_votes, over) = plurality_set-IsChosen outputs s h in (some_votes, over s h),
)
