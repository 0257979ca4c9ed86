-- ===== src/ClientSet/Membership/Partition.antt =====
-- The clients that the lanes reported are either in the set or excluded.
use mathlib.Core.List.{append-nil}
use anymone.Base.{
  ℕ, ◌≡◌, refl, subst, ap, inl, inr, Bool, true, false, ◌&&◌, ◌||◌, some, List, [], ◌∷◌, ◌++◌,
  length, ltb, unwrap_or, if◌then◌else◌, arith,
}
use anymone.Base.Equality.{nat_eq}
use anymone.Base.Sets.{contains, Distinct, contains-append}
use anymone.Base.Dedup.{dedup-IsUp, IsUp-Distinct}
use anymone.Base.Maps.{get}
use anymone.Base.Sort.{sort-IsSorted}
use anymone.ClientSet.{Crates, ProtocolParams, SetServer}
use anymone.ClientSet.Server.{reported_key}
use anymone.ClientSet.Finalize.{Tally, decide, decide_all, empty_tally, finalize, reported_clients}
use anymone.ClientSet.Membership.{decide-cases, finalize-decided, append_assoc}

-- Whether two bulletins of the client bear different keys.
abbrev pub rebooted : {P Q : Type 0} → SetServer P Q → ℕ → Bool
rebooted s cid = ltb 1 (length (unwrap_or [] (get s.bulletins cid)))

reported_key-one :
    {P Q : Type 0} (s : SetServer P Q) (cid : ℕ) (pk : List ℕ)
    → reported_key s cid ≡ some pk
    → rebooted s cid ≡ false
unfolding reported_key
reported_key-one s cid pk h = ground (arith, h)

module _ {P Q : Type 0} (s : SetServer P Q) where
  abbrev IsSplit : List ℕ → List ℕ → List ℕ → List ℕ → Type 0
  IsSplit done admitted excluded conflicted =
      (x : ℕ)
      → (contains done x ≡ (contains admitted x || contains excluded x))
        × ((contains admitted x && contains excluded x) ≡ false)
        × (contains conflicted x ≡ (contains done x && rebooted s x))

  admit-IsSplit :
      (done a e f : List ℕ) (cid : ℕ)
      → contains done cid ≡ false
      → rebooted s cid ≡ false
      → IsSplit done a e f
      → IsSplit (done ++ cid ∷ []) (a ++ cid ∷ []) e f
  admit-IsSplit done a e f cid new one v x = ground (
    arith,
    new,
    one,
    v x,
    v cid,
    contains-append done (cid ∷ []) x,
    contains-append a (cid ∷ []) x,
    nat_eq.beq_iff cid x,
    ap (rebooted s),
    ap (contains e),
    ap (contains f),
  )

  exclude-IsSplit :
      (done a e f g : List ℕ) (cid : ℕ)
      → contains done cid ≡ false
      → g ≡ (if rebooted s cid then f ++ cid ∷ [] else f)
      → IsSplit done a e f
      → IsSplit (done ++ cid ∷ []) a (e ++ cid ∷ []) g
  exclude-IsSplit done a e f g cid new said v x = ground (
    arith,
    new,
    v x,
    v cid,
    contains-append done (cid ∷ []) x,
    contains-append e (cid ∷ []) x,
    contains-append f (cid ∷ []) x,
    said,
    nat_eq.beq_iff cid x,
    ap (rebooted s),
    ap (contains a),
    ap (contains f),
  )

module _ {P Q O : Type 0} (c : Crates P Q O) where
  abbrev IsSplitTally : SetServer P Q → List ℕ → Tally P Q → Type 0
  IsSplitTally s done t = IsSplit s done t.admitted t.excluded t.conflicted

  decide-IsSplit :
      (s : SetServer P Q) (pp : ProtocolParams) (sid done : List ℕ) (cid : ℕ) (t : Tally P Q)
      → contains done cid ≡ false
      → IsSplitTally s done t
      → IsSplitTally s (done ++ cid ∷ []) (decide c s pp sid cid t)
  decide-IsSplit s pp sid done cid t new v = elim (decide-cases c s pp sid cid t) [
    | inl (now, e, f, pk, key, how) ↦
        rw (now, e, f)
          (admit-IsSplit s done t.admitted t.excluded t.conflicted cid new
            (reported_key-one s cid pk key) v)
    | inr (a, e, same, inl (key, f)) ↦
        rw (a, e) (exclude-IsSplit s done t.admitted t.excluded t.conflicted _ cid new f v)
    | inr (a, e, same, inr (pk, key, f, failed, some_missing)) ↦
        rw (a, e)
          (exclude-IsSplit s done t.admitted t.excluded t.conflicted _ cid new
            (ground (arith, f, reported_key-one s cid pk key)) v)
  ]

  decide_all-IsSplit :
      (cids : List ℕ) (s : SetServer P Q) (pp : ProtocolParams) (sid done : List ℕ)
      → (t : Tally P Q) → Distinct cids
      → ((x : ℕ) → contains cids x ≡ true → contains done x ≡ false)
      → IsSplitTally s done t
      → IsSplitTally s (done ++ cids) (decide_all c cids s pp sid t)
  unfolding decide_all
  decide_all-IsSplit [] s pp sid done t d apart v = rw (append-nil done) v
  decide_all-IsSplit (cid ∷ cids) s pp sid done t d apart v =
      subst (λ xs. IsSplitTally s xs (decide_all c (cid ∷ cids) s pp sid t))
        (append_assoc done cid cids)
        (decide_all-IsSplit cids s pp sid (done ++ cid ∷ []) (decide c s pp sid cid t) d.1
          (λ x h. ground (
            arith,
            d.0,
            h,
            apart x,
            contains-append done (cid ∷ []) x,
            nat_eq.beq_iff cid x,
            ap (contains cids),
          ))
          (decide-IsSplit s pp sid done cid t (apart cid (ground (arith, nat_eq.beq_iff cid cid)))
            v))

  reported_clients-Distinct : (s : SetServer P Q) → Distinct (reported_clients s)
  unfolding reported_clients
  reported_clients-Distinct s = IsUp-Distinct _ (dedup-IsUp _ (sort-IsSorted _))

  -- Every client that some lane reported is in the set or excluded, never both, and no other
  -- client is in either; and exactly the reported clients with two or more posted keys are
  -- listed as conflicted.
  pub finalize-Partition :
      (s : SetServer P Q) (pp : ProtocolParams) (key : ℕ) (sid : List ℕ) (cid : ℕ)
      → let out = finalize c s pp key sid in
        let reported = contains (reported_clients s) cid in
        (reported ≡ (contains out.set cid || contains out.excluded cid))
        × ((contains out.set cid && contains out.excluded cid) ≡ false)
        × (contains out.conflicted cid ≡ (reported && rebooted s cid))
  finalize-Partition s pp key sid cid =
      let (a, e, f) = finalize-decided c s pp key sid in
      rw (a, e, f)
        (decide_all-IsSplit (reported_clients s) s pp sid [] empty_tally
          (reported_clients-Distinct s) (λ x h. refl) (λ x. (refl, refl, refl)) cid)
