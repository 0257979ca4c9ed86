-- ===== src/ClientSet/Membership/Budget.antt =====
-- At most `n - k` lanes sit a round out, and they are the same for every client of the set.
use anymone.Base.{
  ℕ, ◌-◌, ◌≤◌, ◌<◌, ◌≡◌, subst, ◌⊎◌, inl, inr, true, false, ◌&&◌, ◌||◌, not, zero, suc, ◌+◌, ltb,
  leb, range_from, some, List, [], ◌∷◌, ◌++◌, length, arith, Bool-cases,
}
use anymone.Base.Equality.{nat_eq, ◌==◌}
use anymone.Base.Sets.{
  contains, insert, Distinct, insert-Distinct, contains-insert, contains-append, contains-retain,
}
use anymone.ClientSet.{Crates, ProtocolParams, Bundle, SetServer}
use anymone.ClientSet.Server.{reported_key}
use anymone.ClientSet.Finalize.{
  Tally, extend, decide, decide_all, empty_tally, finalize, reported_clients, covered,
  missing_lanes,
}
use anymone.ClientSet.Membership.{
  missing_of, rebuilt_of, IsWhole, Admits, decide-cases, decided, finalize-decided,
}

abbrev IsWithin : List ℕ → List ℕ → Type 0
IsWithin xs ys = (l : ℕ) → contains xs l ≡ true → contains ys l ≡ true

extend-IsWithin : (cost ls : List ℕ) → IsWithin cost (extend cost ls) × IsWithin ls (extend cost ls)
extend-IsWithin cost [] = (λ l h. h, λ l h. cc)
extend-IsWithin cost (x ∷ ls) =
    let (kept, added) = extend-IsWithin (insert cost x) ls in
    (
      λ l h. kept l (ground (arith, h, contains-insert cost x l)),
      λ l h. elim (Bool-cases (x == l)) [
        | inl same ↦ kept l (ground (arith, same, contains-insert cost x l))
        | inr other ↦ added l (ground (arith, h, other))
      ],
    )

extend-Distinct : (cost ls : List ℕ) → Distinct cost → Distinct (extend cost ls)
extend-Distinct cost [] d = d
extend-Distinct cost (x ∷ ls) d = extend-Distinct (insert cost x) ls (insert-Distinct cost x d)

contains-range :
    (start n l : ℕ) → contains (range_from start n) l ≡ (leb start l && ltb l (start + n))
contains-range start zero l = ground arith
contains-range start (suc n) l = ground (arith, contains-range (start + 1) n l)

module _ {P Q O : Type 0} (c : Crates P Q O) where
  -- The client posted one key, and its bundles are rebuilt or reached every lane but `lanes`.
  abbrev pub IsServable : SetServer P Q → ProtocolParams → List ℕ → List ℕ → ℕ → Type 0
  IsServable s pp sid lanes cid =
      (pk : List ℕ) × (reported_key s cid ≡ some pk)
      × (IsWhole c s pp sid cid pk ⊎ IsWithin (missing_of c s cid pk) lanes)

  abbrev IsBudget : SetServer P Q → ProtocolParams → List ℕ → List ℕ → List ℕ → Type 0
  IsBudget s pp sid lanes admitted =
      Distinct lanes
      × (length lanes ≤ s.n_lanes - s.k)
      × ((cid : ℕ) → contains admitted cid ≡ true → IsServable s pp sid lanes cid)

  widen :
      (s : SetServer P Q) (pp : ProtocolParams) (sid : List ℕ) (lanes more : List ℕ) (cid : ℕ)
      → IsWithin lanes more
      → IsServable s pp sid lanes cid
      → IsServable s pp sid more cid
  widen s pp sid lanes more cid sub (pk, key, inl whole) = (pk, key, inl whole)
  widen s pp sid lanes more cid sub (pk, key, inr within) =
      (pk, key, inr (λ l h. sub l (within l h)))

  grow :
      (s : SetServer P Q) (pp : ProtocolParams) (sid : List ℕ) (lanes more admitted : List ℕ)
      → (cid : ℕ) → Distinct more
      → length more ≤ s.n_lanes - s.k
      → IsWithin lanes more
      → IsServable s pp sid more cid
      → IsBudget s pp sid lanes admitted
      → IsBudget s pp sid more (admitted ++ cid ∷ [])
  grow s pp sid lanes more admitted cid d few sub served v = (
    d,
    few,
    λ j h. elim (Bool-cases (cid == j)) [
      | inl same ↦ subst (IsServable s pp sid more) ((nat_eq.beq_iff cid j).0 same) served
      | inr other ↦
          widen s pp sid lanes more j sub
            (v.2 j (ground (arith, h, other, contains-append admitted (cid ∷ []) j)))
    ],
  )

  Admits-IsBudget :
      (s : SetServer P Q) (pp : ProtocolParams) (sid : List ℕ) (cid : ℕ) (t u : Tally P Q)
      → Admits c s pp sid cid t u
      → IsBudget s pp sid t.abstaining t.admitted
      → IsBudget s pp sid u.abstaining u.admitted
  Admits-IsBudget s pp sid cid t u (now, e, f, pk, key, inl (same, whole)) v =
      rw (now, same)
        (grow s pp sid t.abstaining t.abstaining t.admitted cid v.0 v.1 (λ l h. h)
          (pk, key, inl whole) v)
  Admits-IsBudget s pp sid cid t u (now, e, f, pk, key, inr (more, few)) v =
      let missing = missing_of c s cid pk in
      let sub = extend-IsWithin t.abstaining missing in
      rw (now, more)
        (grow s pp sid t.abstaining (extend t.abstaining missing) t.admitted cid
          (extend-Distinct t.abstaining missing v.0)
          (subst (λ ls. length ls ≤ s.n_lanes - s.k) more few) sub.0 (pk, key, inr sub.1) v)

  decide-IsBudget :
      (s : SetServer P Q) (pp : ProtocolParams) (sid : List ℕ) (cid : ℕ) (t : Tally P Q)
      → IsBudget s pp sid t.abstaining t.admitted
      → IsBudget s pp sid (decide c s pp sid cid t).abstaining (decide c s pp sid cid t).admitted
  decide-IsBudget s pp sid cid t v = elim (decide-cases c s pp sid cid t) [
    | inl a ↦ Admits-IsBudget s pp sid cid t (decide c s pp sid cid t) a v
    | inr e ↦ rw (e.0, e.2) v
  ]

  decide_all-IsBudget :
      (cids : List ℕ) (s : SetServer P Q) (pp : ProtocolParams) (sid : List ℕ) (t : Tally P Q)
      → IsBudget s pp sid t.abstaining t.admitted
      → IsBudget s pp sid
          (decide_all c cids s pp sid t).abstaining
          (decide_all c cids s pp sid t).admitted
  unfolding decide_all
  decide_all-IsBudget [] s pp sid t v = v
  decide_all-IsBudget (cid ∷ cids) s pp sid t v =
      decide_all-IsBudget cids s pp sid (decide c s pp sid cid t) (decide-IsBudget s pp sid cid t v)

  -- A lane that did not report the client is one of the missing ones.
  outside :
      (s : SetServer P Q) (cid : ℕ) (pk : List ℕ) (l : ℕ)
      → l < s.n_lanes
      → (contains (missing_of c s cid pk) l || contains (covered s cid pk) l) ≡ true
  unfolding missing_lanes
  outside s cid pk l below =
      let lanes = covered s cid pk in
      ground (
        arith,
        below,
        contains-retain (λ x. not (contains lanes x)) (range_from 0 s.n_lanes) l,
        contains-range 0 s.n_lanes l,
      )

  -- For each set that is fixed there is one list of at most `n - k` lanes, such that every client
  -- of the set posted exactly one key, and either each lane outside the list reported the client
  -- under that key, or the bundles of all the lanes that did not are rebuilt from fragments.
  pub finalize-Budget :
      (s : SetServer P Q) (pp : ProtocolParams) (key : ℕ) (sid : List ℕ)
      → (lanes : List ℕ) × (length lanes ≤ s.n_lanes - s.k)
        × ((cid : ℕ)
            → contains (finalize c s pp key sid).set cid ≡ true
            → (pk : List ℕ) × (reported_key s cid ≡ some pk)
              × (((bundles : List (Bundle P Q)) × (rebuilt_of c s pp sid cid pk ≡ some bundles))
                  ⊎ ((l : ℕ)
                      → l < s.n_lanes
                      → contains lanes l ≡ false
                      → contains (covered s cid pk) l ≡ true)))
  unfolding finalize
  finalize-Budget s pp key sid =
      let t : Tally P Q = decided c s pp sid in
      let (d, few, served) =
        decide_all-IsBudget (reported_clients s) s pp sid empty_tally
          (tt, omega arith, λ j h. cc) in
      (
        t.abstaining,
        few,
        λ cid h.
            let (pk, posted, how) =
              served cid
                (subst (λ xs. contains xs cid ≡ true) (finalize-decided c s pp key sid).0 h) in
            (
              pk,
              posted,
              elim (how) [
                | inl (inr (bundles, k)) ↦ inl (bundles, k)
                | inl (inl none_missing) ↦
                    inr (λ l below out. ground (arith, none_missing, outside s cid pk l below))
                | inr within ↦
                    inr (λ l below out. ground (arith, out, within l, outside s cid pk l below))
              ],
            ),
      )
