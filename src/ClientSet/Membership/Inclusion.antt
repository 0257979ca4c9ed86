-- ===== src/ClientSet/Membership/Inclusion.antt =====
-- Who is sure of a place in the set.
use anymone.Base.{
  ℕ, ◌≡◌, sym, subst, inl, inr, true, false, none, some, List, [], ◌∷◌, length, arith, Bool-cases,
}
use anymone.Base.Equality.{nat_eq, ◌==◌, beq_refl}
use anymone.Base.Sets.{contains, contains-append}
use anymone.ClientSet.{Crates, ProtocolParams, SetServer}
use anymone.ClientSet.Server.{reported_key}
use anymone.ClientSet.Finalize.{Tally, decide, decide_all, empty_tally, finalize, reported_clients}
use anymone.ClientSet.Membership.{
  missing_of, rebuilt_of, IsWhole, Excludes, decide-cases, finalize-decided,
}

module _ {P Q O : Type 0} (c : Crates P Q O) where
  admitted-stays :
      (cids : List ℕ) (s : SetServer P Q) (pp : ProtocolParams) (sid : List ℕ) (t : Tally P Q)
      → (x : ℕ) → contains t.admitted x ≡ true
      → contains (decide_all c cids s pp sid t).admitted x ≡ true
  unfolding decide_all
  admitted-stays [] s pp sid t x h = h
  admitted-stays (cid ∷ cids) s pp sid t x h =
      admitted-stays cids s pp sid (decide c s pp sid cid t) x
        (elim (decide-cases c s pp sid cid t) [
          | inl a ↦ ground (arith, h, a.0, contains-append t.admitted (cid ∷ []) x)
          | inr e ↦ ground (arith, h, e.0)
        ])

  Excludes-absurd :
      (s : SetServer P Q) (pp : ProtocolParams) (sid : List ℕ) (cid : ℕ) (pk : List ℕ)
      → (t u : Tally P Q) → reported_key s cid ≡ some pk
      → IsWhole c s pp sid cid pk
      → ¬ Excludes c s pp sid cid t u
  Excludes-absurd s pp sid cid pk t u key whole (a, e, same, inl (no_key, f)) = cc
  Excludes-absurd s pp sid cid pk t u key whole
        (a, e, same, inr (pk', key', f, failed, some_missing)) =
      let one : pk' ≡ pk = cc in
      let no_bundles = subst (λ z. rebuilt_of c s pp sid cid z ≡ none) one failed in
      let not_all = subst (λ z. (length (missing_of c s cid z) == 0) ≡ false) one some_missing in
      elim (whole) [ inl all ↦ ground (arith, all, not_all) | inr (bundles, k) ↦ cc ]

  decide_includes :
      (s : SetServer P Q) (pp : ProtocolParams) (sid : List ℕ) (x : ℕ) (pk : List ℕ)
      → (t : Tally P Q) → reported_key s x ≡ some pk
      → IsWhole c s pp sid x pk
      → contains (decide c s pp sid x t).admitted x ≡ true
  decide_includes s pp sid x pk t key whole = elim (decide-cases c s pp sid x t) [
    | inl a ↦ ground (arith, a.0, contains-append t.admitted (x ∷ []) x, beq_refl x)
    | inr e ↦ absurd (Excludes-absurd s pp sid x pk t (decide c s pp sid x t) key whole e)
  ]

  decide_all-includes :
      (cids : List ℕ) (s : SetServer P Q) (pp : ProtocolParams) (sid : List ℕ) (t : Tally P Q)
      → (x : ℕ) (pk : List ℕ) → contains cids x ≡ true
      → reported_key s x ≡ some pk
      → IsWhole c s pp sid x pk
      → contains (decide_all c cids s pp sid t).admitted x ≡ true
  unfolding decide_all
  decide_all-includes [] s pp sid t x pk h key whole = cc
  decide_all-includes (cid ∷ cids) s pp sid t x pk h key whole = elim (Bool-cases (cid == x)) [
    | inr other ↦
        decide_all-includes cids s pp sid (decide c s pp sid cid t) x pk (ground (arith, h, other))
          key whole
    | inl same ↦ admitted-stays cids s pp sid (decide c s pp sid cid t) x (
        subst (λ z. contains (decide c s pp sid z t).admitted x ≡ true)
          (sym ((nat_eq.beq_iff cid x).0 same)) (decide_includes s pp sid x pk t key whole))
  ]

  -- A client that some lane reported and that posted exactly one key is in the set if all the
  -- lanes reported it under that key, or if its fragments rebuild the bundles of those that did
  -- not: the other clients and the budget cannot cost it its place.
  pub finalize_includes :
      (s : SetServer P Q) (pp : ProtocolParams) (key : ℕ) (sid : List ℕ) (cid : ℕ) (pk : List ℕ)
      → contains (reported_clients s) cid ≡ true
      → reported_key s cid ≡ some pk
      → IsWhole c s pp sid cid pk
      → contains (finalize c s pp key sid).set cid ≡ true
  finalize_includes s pp key sid cid pk h posted whole =
      let (a, e, f) = finalize-decided c s pp key sid in
      rw a (decide_all-includes (reported_clients s) s pp sid empty_tally cid pk h posted whole)
