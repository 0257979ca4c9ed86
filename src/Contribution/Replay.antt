-- ===== src/Contribution/Replay.antt =====
-- The replay store over every sequence of submissions.
use anymone.Base.{
  ℕ, ◌≤◌, ◌<◌, ◌≡◌, sym, subst, ap, ◌∙◌, ◌⊎◌, inl, inr, false, some, List, [], ◌∷◌, leb,
  if◌then◌else◌, map_or, arith, Option-cases, Bool-cases, eqb_iff,
}
use anymone.Base.Equality.{nat_eq, pair_eq, ◌==◌, beq_refl}
use anymone.Base.Maps.{get, put, get-put}
use anymone.Base.Results.{ok, err}
use anymone.Contribution.{replay_conflict}
use anymone.Contribution.Verifier.{ReplayDecision, fresh, duplicate, ReplaySnapshot, accept}

-- A lease, a sequence number and a digest.
pub record Submission : Type 0 where
  pub lease : ℕ
  pub sequence : ℕ
  pub digest : ℕ

unfoldable pub accept_all : List Submission → ReplaySnapshot → ReplaySnapshot
accept_all [] held = held
accept_all (s ∷ rest) held = accept_all rest (accept held s.lease s.sequence s.digest).0

abbrev pub empty_store : ReplaySnapshot
empty_store = record { accepted = []; highest = [] }

-- No accepted sequence of a lease is above the lease's highest.
pub IsReplayStore : ReplaySnapshot → Type 0
IsReplayStore held =
    (lease sequence digest : ℕ)
    → get held.accepted (lease, sequence) ≡ some digest
    → (top : ℕ) × (get held.highest lease ≡ some top) × (sequence ≤ top)

-- An accepted entry is never changed.
accept_keeps :
    (held : ReplaySnapshot) (l s d : ℕ) (k : ℕ × ℕ) (e : ℕ)
    → get held.accepted k ≡ some e
    → get (accept held l s d).0.accepted k ≡ some e
unfolding accept
accept_keeps held l s d k e h =
    let key : ℕ × ℕ = (l, s) in
    ground (
      arith,
      h,
      get-put held.accepted key k d,
      pair_eq.beq_iff key k,
      ap (λ x. get held.accepted x),
    )

accept_all_keeps :
    (subs : List Submission) (held : ReplaySnapshot) (k : ℕ × ℕ) (e : ℕ)
    → get held.accepted k ≡ some e
    → get (accept_all subs held).accepted k ≡ some e
unfolding accept_all
accept_all_keeps [] held k e h = h
accept_all_keeps (s ∷ rest) held k e h =
    accept_all_keeps rest _ k e (accept_keeps held s.lease s.sequence s.digest k e h)

accepted_of_ok :
    (held : ReplaySnapshot) (l s d : ℕ) (r : ReplayDecision)
    → (accept held l s d).1 ≡ ok r
    → get (accept held l s d).0.accepted (l, s) ≡ some d
unfolding accept
accepted_of_ok held l s d r h =
    let key : ℕ × ℕ = (l, s) in ground (arith, h, get-put held.accepted key key d, beq_refl key)

-- Once a digest is accepted for a sequence of a lease, then after any further submissions the same
-- sequence is answered `duplicate` for that digest and refused for any other, and the store is not
-- changed by it: nothing is accepted as fresh twice.
pub accept_binding :
    (held : ReplaySnapshot) (lease sequence digest : ℕ) (r : ReplayDecision)
    → (subs : List Submission) (again : ℕ) → (accept held lease sequence digest).1 ≡ ok r
    → accept (accept_all subs (accept held lease sequence digest).0) lease sequence again ≡ (
      accept_all subs (accept held lease sequence digest).0,
      if digest == again then ok duplicate else err replay_conflict,
    )
unfolding accept
accept_binding held l s d r subs again h =
    let kept =
      accept_all_keeps subs (accept held l s d).0 (l, s) d (accepted_of_ok held l s d r h) in
    ground (arith, kept)

abbrev stored : ReplaySnapshot → ℕ → ℕ → ℕ → ReplaySnapshot
stored held l s d =
    let key : ℕ × ℕ = (l, s) in
    record { accepted = put held.accepted key d; highest = put held.highest l s }

-- A submission leaves the store, or stores an entry above the lease's highest.
accept-cases :
    (held : ReplaySnapshot) (l s d : ℕ)
    → ((accept held l s d).0 ≡ held)
      ⊎ (((accept held l s d).0 ≡ stored held l s d)
          × ((top : ℕ) → get held.highest l ≡ some top → top < s))
unfolding accept
accept-cases held l s d = elim (Option-cases (get held.accepted (l, s))) [
  | inr (e, h) ↦ inl (ground (arith, h))
  | inl new ↦ elim (Bool-cases (map_or false (λ highest. leb s highest) (get held.highest l))) [
    | inl low ↦ inl (ground (arith, new, low))
    | inr high ↦ inr (ground (arith, new, high), λ top k. ground (arith, high, k))
  ]
]

stored-IsReplayStore :
    (held : ReplaySnapshot) (l s d : ℕ)
    → ((top : ℕ) → get held.highest l ≡ some top → top < s)
    → IsReplayStore held
    → IsReplayStore (stored held l s d)
unfolding IsReplayStore
stored-IsReplayStore held l s d above v lease sequence digest h =
    let key : ℕ × ℕ = (l, s) in
    let written = get-put held.highest l lease s in
    let entry = get-put held.accepted key (lease, sequence) d in
    elim (Bool-cases (l == lease)) [
      | inl same ↦ (
        s,
        ground (arith, same, written),
        elim (Bool-cases (s == sequence)) [
          | inl e ↦ ground (arith, e)
          | inr other ↦
              let (top, k, le) = v lease sequence digest (ground (arith, h, entry, same, other)) in
              ground (arith, above top (ap (get held.highest) ((eqb_iff l lease).0 same) ∙ k), le)
        ],
      )
      | inr other ↦
          let (top, k, le) = v lease sequence digest (ground (arith, h, entry, other)) in
          (top, ground (arith, other, written, k), le)
    ]

accept-IsReplayStore :
    (held : ReplaySnapshot) (l s d : ℕ) → IsReplayStore held → IsReplayStore (accept held l s d).0
accept-IsReplayStore held l s d v = elim (accept-cases held l s d) [
  | inl h ↦ subst IsReplayStore (sym h) v
  | inr (h, above) ↦ subst IsReplayStore (sym h) (stored-IsReplayStore held l s d above v)
]

-- Every store reached from the empty one is bounded by its highest sequences.
accept_all-IsReplayStore :
    (subs : List Submission) (held : ReplaySnapshot)
    → IsReplayStore held
    → IsReplayStore (accept_all subs held)
unfolding accept_all
accept_all-IsReplayStore [] held v = v
accept_all-IsReplayStore (s ∷ rest) held v =
    accept_all-IsReplayStore rest _ (accept-IsReplayStore held s.lease s.sequence s.digest v)

reached-IsReplayStore : (subs : List Submission) → IsReplayStore (accept_all subs empty_store)
unfolding IsReplayStore
reached-IsReplayStore subs =
    accept_all-IsReplayStore subs empty_store (λ lease sequence digest h. ground (arith, h))

fresh_above :
    (held : ReplaySnapshot) (l s d : ℕ)
    → (accept held l s d).1 ≡ ok fresh
    → (top : ℕ) → get held.highest l ≡ some top
    → top < s
unfolding accept
fresh_above held l s d h top k = ground (arith, h, k)

-- In a store reached from the empty one, a submission that is accepted as fresh has a sequence
-- above every sequence accepted before for its lease.
pub accept_increasing :
    (subs : List Submission) (lease sequence digest earlier old : ℕ)
    → (accept (accept_all subs empty_store) lease sequence digest).1 ≡ ok fresh
    → get (accept_all subs empty_store).accepted (lease, earlier) ≡ some old
    → earlier < sequence
unfolding IsReplayStore
accept_increasing subs l s d earlier old h k =
    let (top, e, le) = reached-IsReplayStore subs l earlier old k in
    ground (arith, le, fresh_above (accept_all subs empty_store) l s d h top e)
