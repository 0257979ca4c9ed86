-- ===== src/Base/Sets.antt =====
-- `HashSet` and `BTreeSet` as lists without repetition, and `Vec::contains`.
use Prim.Native.Nat.{suc, ◌≤◌}
use mathlib.Core.Path.{◌≡◌, refl, subst}
use mathlib.Core.Logic.{◌⊎◌, inl, inr}
use mathlib.Core.Bool.{Bool, true, false, ◌&&◌, ◌||◌, not}
use mathlib.Core.List.{List, [], ◌∷◌, ◌++◌}
use native.Mathlib.Omega.{arith}
use anymone.Base.Tests.{if◌then◌else◌, Bool-cases}
use anymone.Base.Lists.{length, retain, length-retain-le}
use anymone.Base.Equality.{Eq, ◌==◌, beq_refl}

module _ {ℓ} {A : Type ℓ} ⦃e : Eq A⦄ where
  abbrev pub contains : List A → A → Bool
  contains [] a = false
  contains (x ∷ xs) a = x == a || contains xs a

  abbrev pub insert : List A → A → List A
  insert xs a = if contains xs a then xs else xs ++ a ∷ []

  abbrev pub remove : List A → A → List A
  remove xs a = retain (λ x. not (x == a)) xs

  -- No element stands twice in the list.
  abbrev pub Distinct : List A → Type 0
  Distinct [] = Unit
  Distinct (x ∷ xs) = (contains xs x ≡ false) × Distinct xs

  pub contains-append :
      (xs ys : List A) (a : A) → contains (xs ++ ys) a ≡ (contains xs a || contains ys a)
  contains-append [] ys a = refl
  contains-append (x ∷ xs) ys a = ground (arith, contains-append xs ys a)

  pub contains-insert :
      (xs : List A) (a b : A) → contains (insert xs a) b ≡ (a == b || contains xs b)
  contains-insert xs a b = elim (Bool-cases (contains xs a)) [
    | inl old ↦ rw old (go (Bool-cases (a == b)) old)
    | inr new ↦ rw (new, contains-append xs (a ∷ []) b) (ground arith)
  ]
    where
      go :
          ((a == b) ≡ true) ⊎ ((a == b) ≡ false)
          → contains xs a ≡ true
          → contains xs b ≡ (a == b || contains xs b)
      go (inl same) old = rw (same, ← (e.beq_iff a b).0 same) old
      go (inr other) old = rw other

  length-remove-lt :
      (ys : List A) (x : A) → contains ys x ≡ true → suc (length (remove ys x)) ≤ length ys
  length-remove-lt [] x h = cc
  length-remove-lt (y ∷ ys) x h =
      ground (arith, length-remove-lt ys x, length-retain-le (λ z. not (z == x)) ys)

  pub contains-retain :
      (p : A → Bool) (xs : List A) (a : A) → contains (retain p xs) a ≡ (p a && contains xs a)
  contains-retain p [] a = ground arith
  contains-retain p (x ∷ xs) a = ground (arith, contains-retain p xs a, e.beq_iff x a)

  pub contains-remove :
      (xs : List A) (a b : A) → contains (remove xs a) b ≡ (not (b == a) && contains xs b)
  contains-remove xs a b = contains-retain (λ x. not (x == a)) xs b

  pub retain-Distinct : (p : A → Bool) (xs : List A) → Distinct xs → Distinct (retain p xs)
  retain-Distinct p [] d = tt
  retain-Distinct p (x ∷ xs) d = ground (arith, retain-Distinct p xs d.1, contains-retain p xs x)

  pub append-Distinct :
      (xs : List A) (a : A) → contains xs a ≡ false → Distinct xs → Distinct (xs ++ a ∷ [])
  append-Distinct [] a h d = (refl, tt)
  append-Distinct (x ∷ xs) a h d =
      ground
        (arith, append-Distinct xs a, contains-append xs (a ∷ []) x, e.beq_iff a x, e.beq_iff x a)

  -- Two lists that share nothing.
  pub append-Distinct_disjoint :
      (xs ys : List A)
      → Distinct xs
      → Distinct ys
      → ((a : A) → contains xs a ≡ true → contains ys a ≡ false)
      → Distinct (xs ++ ys)
  append-Distinct_disjoint [] ys d f apart = f
  append-Distinct_disjoint (x ∷ xs) ys d f apart = (
    ground (arith, contains-append xs ys x, apart x, beq_refl x, d.0),
    append-Distinct_disjoint xs ys d.1 f (λ a h. ground (arith, apart a)),
  )

  -- Either two lists share an element, or no element of the first is in the second.
  pub shared-or-apart :
      (xs ys : List A)
      → ((a : A) × (contains xs a ≡ true) × (contains ys a ≡ true))
        ⊎ ((a : A) → contains xs a ≡ true → contains ys a ≡ false)
  shared-or-apart [] ys = inr (λ a h. ground (arith, h))
  shared-or-apart (x ∷ xs) ys = elim (Bool-cases (contains ys x)) [
    | inl h ↦ inl (x, ground (arith, beq_refl x), h)
    | inr h ↦ elim (shared-or-apart xs ys) [
      | inl (a, f, g) ↦ inl (a, ground (arith, f), g)
      | inr apart ↦ inr (λ a k. elim (Bool-cases (x == a)) [
        | inl same ↦ subst (λ z. contains ys z ≡ false) ((e.beq_iff x a).0 same) h
        | inr other ↦ apart a (ground (arith, k, other))
      ])
    ]
  ]

  pub insert-Distinct : (xs : List A) (a : A) → Distinct xs → Distinct (insert xs a)
  insert-Distinct xs a d = ground (arith, append-Distinct xs a)

  -- A list without repetition inside another list is no longer than it.
  pub length-le_of_Distinct :
      (xs ys : List A)
      → Distinct xs
      → ((a : A) → contains xs a ≡ true → contains ys a ≡ true)
      → length xs ≤ length ys
  length-le_of_Distinct [] ys d sub = omega arith
  length-le_of_Distinct (x ∷ xs) ys d sub =
      let shorter =
        length-le_of_Distinct xs (remove ys x) d.1
          (λ a h. ground (arith, contains-remove ys x a, sub a, e.beq_iff a x)) in
      omega (arith, shorter, length-remove-lt ys x (ground (arith, sub x, beq_refl x)))

  -- A list either has an element outside another one or lies in it.
  outside-or-inside :
      (xs ys : List A)
      → ((x : A) × (contains xs x ≡ true) × (contains ys x ≡ false))
        ⊎ ((x : A) → contains xs x ≡ true → contains ys x ≡ true)
  outside-or-inside [] ys = inr (λ x h. cc)
  outside-or-inside (x ∷ xs) ys = elim (Bool-cases (contains ys x)) [
    | inr out ↦ inl (x, ground (arith, e.beq_iff x x), out)
    | inl into ↦ elim (outside-or-inside xs ys) [
      | inl (z, here, out) ↦ inl (z, ground (arith, here), out)
      | inr inside ↦ inr (λ z k. elim (Bool-cases (x == z)) [
        | inl same ↦ subst (λ y. contains ys y ≡ true) ((e.beq_iff x z).0 same) into
        | inr other ↦ inside z (ground (arith, k, other))
      ])
    ]
  ]

  -- A list without repetition that is longer than another has an element outside it.
  pub outside :
      (xs ys : List A)
      → Distinct xs
      → suc (length ys) ≤ length xs
      → (x : A) × (contains xs x ≡ true) × (contains ys x ≡ false)
  outside xs ys d longer = elim (outside-or-inside xs ys) [
    | inl found ↦ found
    | inr inside ↦ absurd (omega (arith, longer, length-le_of_Distinct xs ys d inside))
  ]
