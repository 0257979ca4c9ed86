-- ===== src/Faults/Innocence.antt =====
-- A relay that shares is not blamed.
use anymone.Base.{
  ℕ, zero, suc, ◌+◌, ◌≤◌, ◌<◌, ◌≡◌, refl, Bool, true, false, not, List, [], ◌∷◌, ◌++◌, map, length,
  arith, All, leb, unwrap_or, eqb_iff, retain, at_or, range_from, ap, sym, subst, ◌⊎◌, inl, inr,
  ◌∙◌,
}
use anymone.Base.Equality.{nat_eq}
use anymone.Base.Sets.{contains, Distinct, contains-retain}
use anymone.Base.Maps.{get}
use anymone.Base.Sort.{contains-sort}
use anymone.Faults.{
  OutputFaultTracker, Fault, Blame, nobody, peers, go, evaluate_round, evaluate, missing_from,
  culprits_of, blame,
}
use anymone.Faults.Turns.{evaluate_rule}

contains-range_from : (start n i : ℕ) → contains (range_from start n) i ≡ true → i < start + n
contains-range_from start zero i h = cc
contains-range_from start (suc n) i h = ground (arith, contains-range_from (start + 1) n i)

contains-at_or :
    (xs : List ℕ) (i x : ℕ) → contains xs x ≡ false → i < length xs → at_or 0 xs i ≡ x → ⊥
contains-at_or [] i x h hi e = absurd (omega arith)
contains-at_or (y ∷ ys) zero x h hi e = ground (arith, eqb_iff y x)
contains-at_or (y ∷ ys) (suc i) x h hi e = contains-at_or ys i x (ground arith) (omega arith) e

at_or-injective :
    (xs : List ℕ) (i j : ℕ)
    → Distinct xs
    → i < length xs
    → j < length xs
    → at_or 0 xs i ≡ at_or 0 xs j
    → i ≡ j
at_or-injective [] i j d hi hj e = absurd (omega arith)
at_or-injective (x ∷ xs) zero zero d hi hj e = refl
at_or-injective (x ∷ xs) zero (suc j) d hi hj e =
    absurd (contains-at_or xs j x d.0 (omega arith) (sym e))
at_or-injective (x ∷ xs) (suc i) zero d hi hj e = absurd (contains-at_or xs i x d.0 (omega arith) e)
at_or-injective (x ∷ xs) (suc i) (suc j) d hi hj e =
    ap suc (at_or-injective xs i j d.1 (omega arith) (omega arith) e)

-- The keys of a set of indices include the key of `i` only if the set has `i`.
contains-keys :
    (roster cs : List ℕ) (i : ℕ)
    → Distinct roster
    → i < length roster
    → All (λ j. j < length roster) cs
    → contains cs i ≡ false
    → contains (map (at_or 0 roster) cs) (at_or 0 roster i) ≡ false
contains-keys roster [] i d hi below h = refl
contains-keys roster (j ∷ cs) i d hi below h = ground (
  arith,
  eqb_iff (at_or 0 roster j) (at_or 0 roster i),
  at_or-injective roster j i d,
  eqb_iff j i,
  contains-keys roster cs i d hi below.1,
)

-- The relay at `i` is none of those that the blame names.
abbrev pub Spares : ℕ → Blame → Type 0
Spares key nobody = Unit
Spares key (peers pks) = contains pks key ≡ false

blame-Spares :
    (roster cs : List ℕ) (i : ℕ)
    → Distinct roster
    → i < length roster
    → All (λ j. j < length roster) cs
    → contains cs i ≡ false
    → Spares (at_or 0 roster i) (blame roster cs)
unfolding blame
blame-Spares roster cs i d hi below h = ground (
  arith,
  contains-sort (map (at_or 0 roster) cs) (at_or 0 roster i),
  contains-keys roster cs i d hi below h,
)

All-retain {ℓ κ} :
    {A : Type ℓ} (P : A → Type κ) (p : A → Bool) (xs : List A) → All P xs → All P (retain p xs)
All-retain P p [] h = tt
All-retain P p (x ∷ xs) h = ground (arith, All-retain P p xs h.1)

range_from-below : (start n m : ℕ) → start + n ≤ m → All (λ j. j < m) (range_from start n)
range_from-below start zero m h = tt
range_from-below start (suc n) m h = (omega arith, range_from-below (start + 1) n m (omega arith))

-- What is kept of every set of the run: its indices are in range.
abbrev pub InRange : ℕ → List ℕ → Type 0
InRange n set = All (λ j. j < n) set

missing_from-InRange :
    (roster shared : List ℕ) → InRange (length roster) (missing_from roster shared)
unfolding missing_from
missing_from-InRange roster shared =
    All-retain _ (λ j. not (contains shared j)) (range_from 0 (length roster))
      (range_from-below 0 (length roster) (length roster) (omega arith))

missing_from-shared :
    (roster shared : List ℕ) (i : ℕ)
    → contains shared i ≡ true
    → contains (missing_from roster shared) i ≡ false
unfolding missing_from
missing_from-shared roster shared i h =
    ground (arith, contains-retain (λ j. not (contains shared j)) (range_from 0 (length roster)) i)

culprits_of-InRange :
    (n : ℕ) (run : List (List ℕ)) → All (InRange n) run → InRange n (culprits_of run)
unfolding culprits_of
culprits_of-InRange n [] h = tt
culprits_of-InRange n (s ∷ []) h = h.0
culprits_of-InRange n (s ∷ s' ∷ rest) h =
    culprits_of-InRange n (retain (contains s') s ∷ rest)
      (All-retain (λ j. j < n) (contains s') s h.0, h.1.1)

-- A set that lacks `i` at the end of a run takes it out of the culprits, whatever the other sets.
culprits_of-snoc :
    (i : ℕ) (run : List (List ℕ)) (last : List ℕ)
    → contains last i ≡ false
    → contains (culprits_of (run ++ last ∷ [])) i ≡ false
unfolding culprits_of
culprits_of-snoc i [] last h = h
culprits_of-snoc i (s ∷ []) last h = ground (arith, contains-retain (contains last) s i, h)
culprits_of-snoc i (s ∷ s' ∷ rest) last h =
    culprits_of-snoc i (retain (contains s') s ∷ rest) last h

All-snoc {ℓ κ} :
    {A : Type ℓ} (P : A → Type κ) (xs : List A) (x : A) → All P xs → P x → All P (xs ++ x ∷ [])
All-snoc P [] x h hx = (hx, tt)
All-snoc P (y ∷ ys) x h hx = (h.0, All-snoc P ys x h.1 hx)

-- The run of failed rounds that a judged round leaves.
abbrev grown : OutputFaultTracker → ℕ → List (List ℕ)
grown t r = t.fail_run ++ missing_from t.roster (unwrap_or [] (get t.shares r)) ∷ []

-- A turn clears the run, leaves it, or adds the judged round to it.
abbrev Runs : OutputFaultTracker → ℕ → OutputFaultTracker → Type 0
Runs t r t' =
    (t'.fail_run ≡ [])
    ⊎ ((t'.fail_run ≡ t.fail_run)
        ⊎ ((t'.fail_run ≡ grown t r) × (leb (length (unwrap_or [] (get t.shares r))) 0 ≡ false)))

turn-Runs :
    (t : OutputFaultTracker) (r : ℕ) (t' : OutputFaultTracker) (faults : List Fault)
    → evaluate_round t r ≡ go t' faults
    → (t'.roster ≡ t.roster) × (t'.shares ≡ t.shares) × Runs t r t'
unfolding evaluate_round
turn-Runs t r t' faults e = ground arith

turn-blame :
    (t : OutputFaultTracker) (r : ℕ) (t' : OutputFaultTracker) (f : Fault)
    → evaluate_round t r ≡ go t' (f ∷ [])
    → (f.attribution ≡ blame t.roster (culprits_of (grown t r)))
      × (leb (length (unwrap_or [] (get t.shares r))) 0 ≡ false)
unfolding evaluate_round
turn-blame t r t' f e = ground arith

turn-faults :
    (t : OutputFaultTracker) (r : ℕ) (t' : OutputFaultTracker) (f g : Fault) (fs : List Fault)
    → evaluate_round t r ≡ go t' (f ∷ g ∷ fs)
    → ⊥
unfolding evaluate_round
turn-faults t r t' f g fs e = ground arith

module _ (roster : List ℕ) (shares : List (ℕ × List ℕ)) (i : ℕ) (distinct : Distinct roster)
    (placed : i < length roster)
    (shared : (r : ℕ)
      → leb (length (unwrap_or [] (get shares r))) 0 ≡ false
      → contains (unwrap_or [] (get shares r)) i ≡ true) where
  -- The roster and the shares are those of the section, and the run's indices are in range.
  record Cleared (t : OutputFaultTracker) : Type 0 where
    same_roster : t.roster ≡ roster
    same_shares : t.shares ≡ shares
    below : All (InRange (length roster)) t.fail_run

  grown-InRange :
      (t : OutputFaultTracker) (r : ℕ) → Cleared t → All (InRange (length roster)) (grown t r)
  grown-InRange t r c = All-snoc (InRange (length roster)) t.fail_run _ c.below (
      rw (c.same_roster, c.same_shares) (missing_from-InRange roster (unwrap_or [] (get shares r))))

  -- The relay that shared in the judged round is not among the culprits of the run that it ends.
  grown-clear :
      (t : OutputFaultTracker) (r : ℕ)
      → Cleared t
      → leb (length (unwrap_or [] (get t.shares r))) 0 ≡ false
      → contains (culprits_of (grown t r)) i ≡ false
  grown-clear t r c h = culprits_of-snoc i t.fail_run _ (
      rw (c.same_roster, c.same_shares)
        (missing_from-shared roster (unwrap_or [] (get shares r)) i
          (shared r (rw (← c.same_shares) h))))

  run-InRange :
      (t : OutputFaultTracker) (r : ℕ) (t' : OutputFaultTracker)
      → Cleared t
      → Runs t r t'
      → All (InRange (length roster)) t'.fail_run
  run-InRange t r t' c (inl e) = rw e tt
  run-InRange t r t' c (inr (inl e)) = rw e c.below
  run-InRange t r t' c (inr (inr (e, h))) = rw e (grown-InRange t r c)

  turn-Cleared :
      (t : OutputFaultTracker) (r : ℕ) (t' : OutputFaultTracker) (faults : List Fault)
      → Cleared t
      → evaluate_round t r ≡ go t' faults
      → Cleared t'
  turn-Cleared t r t' faults c e =
      let (ros, sh, runs) = turn-Runs t r t' faults e in
      record {
        same_roster = ros ∙ c.same_roster;
        same_shares = sh ∙ c.same_shares;
        below = run-InRange t r t' c runs;
      }

  turn-Spares :
      (t : OutputFaultTracker) (r : ℕ) (t' : OutputFaultTracker) (faults : List Fault)
      → Cleared t
      → evaluate_round t r ≡ go t' faults
      → All (λ f. Spares (at_or 0 roster i) f.attribution) faults
  turn-Spares t r t' [] c e = tt
  turn-Spares t r t' (f ∷ []) c e =
      let (same, h) = turn-blame t r t' f e in
      (
        rw same (
            subst (λ ros. Spares (at_or 0 roster i) (blame ros (culprits_of (grown t r))))
              (sym c.same_roster)
              (blame-Spares roster (culprits_of (grown t r)) i distinct placed
                (culprits_of-InRange (length roster) (grown t r) (grown-InRange t r c))
                (grown-clear t r c h))),
        tt,
      )
  turn-Spares t r t' (f ∷ g ∷ fs) c e = absurd (turn-faults t r t' f g fs e)

  -- Where the roster has no key twice, the relay has a place in it and the sets of the run so far
  -- have indices of the roster: a relay that shared in each round in which anyone shared is blamed by
  -- no fault that the evaluation reports, even if it is missing from all the failed rounds already in
  -- the run.
  pub evaluate-Spares :
      (t : OutputFaultTracker)
      → t.roster ≡ roster
      → t.shares ≡ shares
      → All (InRange (length roster)) t.fail_run
      → All (λ f. Spares (at_or 0 roster i) f.attribution) (evaluate t).1
  evaluate-Spares t ros sh below =
      (evaluate_rule
        (record {
          at_turn =
              λ u r u' faults c e. (turn-Cleared u r u' faults c e, turn-Spares u r u' faults c e);
        })
        t (record { same_roster = ros; same_shares = sh; below = below })).1
