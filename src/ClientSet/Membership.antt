-- ===== src/ClientSet/Membership.antt =====
-- The set that `finalize` fixes: one step of the decision, and what the whole run keeps.
pub mod Budget
pub mod Partition
pub mod Inclusion
pub mod Pool
use mathlib.Core.List.{append-nil}
use anymone.Base.{
  ℕ, ◌-◌, ◌≤◌, ◌≡◌, refl, sym, ◌⊎◌, inl, inr, Bool, true, false, Option, none, some, List, [], ◌∷◌,
  ◌++◌, length, ltb, leb, unwrap_or, if◌then◌else◌, arith, Option-cases, Bool-cases,
}
use anymone.Base.Equality.{nat_eq, ◌==◌}
use anymone.Base.Maps.{get}
use anymone.ClientSet.{Crates, ProtocolParams, Bundle, SetServer}
use anymone.ClientSet.Server.{reported_key}
use anymone.ClientSet.Finalize.{
  SetRound, Tally, covered, missing_lanes, rebuild, extend, decide_known, decide, serve, serve_all,
  decide_all, empty_tally, empty_round, finalize, reported_clients,
}

-- Associativity, in the direction of an accumulator.
pub append_assoc {ℓ} :
    {A : Type ℓ} (xs : List A) (x : A) (ys : List A) → (xs ++ x ∷ []) ++ ys ≡ xs ++ x ∷ ys
append_assoc [] x ys = refl
append_assoc (z ∷ xs) x ys = ground (arith, append_assoc xs x ys)

length_zero {ℓ} : {A : Type ℓ} (xs : List A) → (xs ≡ []) ⊎ ((length xs == 0) ≡ false)
length_zero [] = inl refl
length_zero (x ∷ xs) = inr (ground arith)

module _ {P Q O : Type 0} (c : Crates P Q O) where
  abbrev pub missing_of : SetServer P Q → ℕ → List ℕ → List ℕ
  missing_of s cid pk = missing_lanes s.n_lanes (covered s cid pk)

  abbrev pub rebuilt_of :
      SetServer P Q → ProtocolParams → List ℕ → ℕ → List ℕ → Option (List (Bundle P Q))
  rebuilt_of s pp sid cid pk = rebuild c s pp sid cid pk (covered s cid pk) (missing_of s cid pk)

  -- Every lane reported the client, or its bundles for the others are rebuilt.
  abbrev pub IsWhole : SetServer P Q → ProtocolParams → List ℕ → ℕ → List ℕ → Type 0
  IsWhole s pp sid cid pk =
      (missing_of s cid pk ≡ [])
      ⊎ ((bundles : List (Bundle P Q)) × (rebuilt_of s pp sid cid pk ≡ some bundles))

  abbrev pub Admits : SetServer P Q → ProtocolParams → List ℕ → ℕ → Tally P Q → Tally P Q → Type 0
  Admits s pp sid cid t u =
      (u.admitted ≡ t.admitted ++ cid ∷ [])
      × (u.excluded ≡ t.excluded)
      × (u.conflicted ≡ t.conflicted)
      × (pk : List ℕ) × (reported_key s cid ≡ some pk)
      × (((u.abstaining ≡ t.abstaining) × IsWhole s pp sid cid pk)
          ⊎ ((u.abstaining ≡ extend t.abstaining (missing_of s cid pk))
              × (length u.abstaining ≤ s.n_lanes - s.k)))

  abbrev pub Excludes : SetServer P Q → ProtocolParams → List ℕ → ℕ → Tally P Q → Tally P Q → Type 0
  Excludes s pp sid cid t u =
      (u.admitted ≡ t.admitted)
      × (u.excluded ≡ t.excluded ++ cid ∷ [])
      × (u.abstaining ≡ t.abstaining)
      × (((reported_key s cid ≡ none)
            × (u.conflicted ≡ (
                if ltb 1 (length (unwrap_or [] (get s.bulletins cid)))
                then t.conflicted ++ cid ∷ []
                else t.conflicted)))
          ⊎ ((pk : List ℕ) × (reported_key s cid ≡ some pk)
              × (u.conflicted ≡ t.conflicted)
              × (rebuilt_of s pp sid cid pk ≡ none)
              × ((length (missing_of s cid pk) == 0) ≡ false)))

  decide_known-cases :
      (s : SetServer P Q) (pp : ProtocolParams) (sid : List ℕ) (cid : ℕ) (pk : List ℕ)
      → (t : Tally P Q) → reported_key s cid ≡ some pk
      → Admits s pp sid cid t (decide_known c s pp sid cid pk t)
        ⊎ Excludes s pp sid cid t (decide_known c s pp sid cid pk t)
  unfolding decide_known
  decide_known-cases s pp sid cid pk t h =
      let missing = missing_of s cid pk in
      let cost = extend t.abstaining missing in
      elim (length_zero missing) [
        | inl nobody ↦ inl (ground (arith, nobody, h))
        | inr somebody ↦ elim (Option-cases (rebuilt_of s pp sid cid pk)) [
          | inr (bundles, k) ↦ inl (ground (arith, somebody, h, k))
          | inl k ↦ elim (Bool-cases (leb (length cost) (s.n_lanes - s.k))) [
            | inl fits ↦ inl (ground (arith, somebody, h, k, fits))
            | inr high ↦ inr (ground (arith, somebody, h, k, high))
          ]
        ]
      ]

  pub decide-cases :
      (s : SetServer P Q) (pp : ProtocolParams) (sid : List ℕ) (cid : ℕ) (t : Tally P Q)
      → Admits s pp sid cid t (decide c s pp sid cid t)
        ⊎ Excludes s pp sid cid t (decide c s pp sid cid t)
  unfolding decide
  decide-cases s pp sid cid t = elim (Option-cases (reported_key s cid)) [
    | inl h ↦ inr (ground (arith, h))
    | inr (pk, h) ↦ ground (arith, h, decide_known-cases s pp sid cid pk t h)
  ]

  pub serve_all-set :
      (cids : List ℕ) (s : SetServer P Q) (key : ℕ) (sid : List ℕ)
      → (rebuilt : List (ℕ × Bundle P Q)) (out : SetRound P Q O)
      → ((serve_all c cids s key sid rebuilt out).set ≡ out.set ++ cids)
        × ((serve_all c cids s key sid rebuilt out).excluded ≡ out.excluded)
        × ((serve_all c cids s key sid rebuilt out).conflicted ≡ out.conflicted)
  unfolding serve_all serve
  serve_all-set [] s key sid rebuilt out = (sym (append-nil out.set), refl, refl)
  serve_all-set (cid ∷ cids) s key sid rebuilt out = ground (
    arith,
    serve_all-set cids s key sid rebuilt (serve c s key sid rebuilt cid out),
    append_assoc out.set cid cids,
  )

  abbrev pub decided : SetServer P Q → ProtocolParams → List ℕ → Tally P Q
  decided s pp sid = decide_all c (reported_clients s) s pp sid empty_tally

  -- What `finalize` publishes of the membership is what the decision gathered.
  pub finalize-decided :
      (s : SetServer P Q) (pp : ProtocolParams) (key : ℕ) (sid : List ℕ)
      → ((finalize c s pp key sid).set ≡ (decided s pp sid).admitted)
        × ((finalize c s pp key sid).excluded ≡ (decided s pp sid).excluded)
        × ((finalize c s pp key sid).conflicted ≡ (decided s pp sid).conflicted)
  unfolding finalize
  finalize-decided s pp key sid =
      let t : Tally P Q = decided s pp sid in
      let out : SetRound P Q O = record empty_round {
        excluded = t.excluded;
        conflicted = t.conflicted;
      } in
      serve_all-set t.admitted s key sid t.rebuilt_for out
