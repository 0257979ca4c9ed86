-- ===== src/Base/Lists.antt =====
-- Lists measured and indexed by native numbers, and Boolean quantifiers over lists.
use Prim.Native.Nat.{ℕ, zero, suc, ◌+◌, ◌-◌, ◌≤◌, min, max}
use mathlib.Core.Path.{◌≡◌, refl, ap}
use mathlib.Core.Logic.{inl, inr}
use mathlib.Core.Bool.{Bool, true, false, ◌&&◌, ◌||◌, not}
use mathlib.Core.List.{List, [], ◌∷◌, ◌++◌, map}
use mathlib.Core.Option.{Option, none, some}
use native.Mathlib.Omega.{arith}
use anymone.Base.Tests.{leb, if◌then◌else◌, and-true, Bool-cases}

module _ {ℓ} {A : Type ℓ} where
  abbrev pub length : List A → ℕ
  length [] = 0
  length (x ∷ xs) = suc (length xs)

  abbrev pub get_elem? : List A → ℕ → Option A
  get_elem? [] i = none
  get_elem? (x ∷ xs) zero = some x
  get_elem? (x ∷ xs) (suc i) = get_elem? xs i

  unfoldable pub take : ℕ → List A → List A
  take zero xs = []
  take (suc n) [] = []
  take (suc n) (x ∷ xs) = x ∷ take n xs

  unfoldable pub drop : ℕ → List A → List A
  drop zero xs = xs
  drop (suc n) [] = []
  drop (suc n) (x ∷ xs) = drop n xs

  abbrev pub all_of : (A → Bool) → List A → Bool
  all_of p [] = true
  all_of p (x ∷ xs) = p x && all_of p xs

  abbrev pub any_of : (A → Bool) → List A → Bool
  any_of p [] = false
  any_of p (x ∷ xs) = p x || any_of p xs

  -- `retain`, and `filter` on an iterator.
  abbrev pub retain : (A → Bool) → List A → List A
  retain p [] = []
  retain p (x ∷ xs) = let rest = retain p xs in if p x then x ∷ rest else rest

  abbrev pub filter_map {κ} : {B : Type κ} → (A → Option B) → List A → List B
  filter_map f [] = []
  filter_map f (x ∷ xs) =
      let rest = filter_map f xs in elim (f x) [ none ↦ rest | some y ↦ y ∷ rest ]

  -- Every element satisfies `P`.
  abbrev pub All {κ} : (A → Type κ) → List A → Type κ
  All P [] = Unit
  All P (x ∷ xs) = P x × All P xs

  -- Every element is related to each that comes after it.
  abbrev pub AllPairs {κ} : (A → A → Type κ) → List A → Type κ
  AllPairs R [] = Unit
  AllPairs R (x ∷ xs) = All (R x) xs × AllPairs R xs

  pub All-imp {κ ι} :
      (P : A → Type κ) (Q : A → Type ι) (xs : List A) → ((x : A) → P x → Q x) → All P xs → All Q xs
  All-imp P Q [] f h = tt
  All-imp P Q (x ∷ xs) f h = (f x h.0, All-imp P Q xs f h.1)

  pub All-both {κ ι} :
      (P : A → Type κ) (Q : A → Type ι) (xs : List A)
      → All P xs
      → All Q xs
      → All (λ x. P x × Q x) xs
  All-both P Q [] h k = tt
  All-both P Q (x ∷ xs) h k = ((h.0, k.0), All-both P Q xs h.1 k.1)

  pub all_of-All {κ} :
      {P : A → Type κ} (p : A → Bool) (xs : List A)
      → ((x : A) → p x ≡ true → P x)
      → all_of p xs ≡ true
      → All P xs
  all_of-All p [] f h = tt
  all_of-All p (x ∷ xs) f h =
      (f x (and-true (p x) (all_of p xs) h).0, all_of-All p xs f (and-true (p x) (all_of p xs) h).1)

  pub append-All {κ} : (P : A → Type κ) (xs ys : List A) → All P xs → All P ys → All P (xs ++ ys)
  append-All P [] ys h k = k
  append-All P (x ∷ xs) ys h k = (h.0, append-All P xs ys h.1 k)

  pub retain-All {κ} :
      (P : A → Type κ) (p : A → Bool) (xs : List A) → All P xs → All P (retain p xs)
  retain-All P p [] h = tt
  retain-All P p (x ∷ xs) h =
      let rest = retain-All P p xs h.1 in
      elim (p x) as (λ b. All P (if b then x ∷ retain p xs else retain p xs)) [
        | true ↦ (h.0, rest)
        | false ↦ rest
      ]

  pub option-All {κ} :
      (P : A → Type κ) (o : Option A) (xs : List A)
      → ((x : A) → o ≡ some x → P x)
      → All P xs
      → All P (elim (o) [ none ↦ xs | some x ↦ x ∷ xs ])
  option-All P none xs f h = h
  option-All P (some x) xs f h = (f x refl, h)

  pub any_of-append :
      (p : A → Bool) (xs ys : List A) → any_of p (xs ++ ys) ≡ (any_of p xs || any_of p ys)
  any_of-append p [] ys = refl
  any_of-append p (x ∷ xs) ys = ground (arith, any_of-append p xs ys)

  pub any_of-retain :
      (p q : A → Bool) (xs : List A) → any_of p (retain q xs) ≡ true → any_of p xs ≡ true
  any_of-retain p q [] h = h
  any_of-retain p q (x ∷ xs) h = ground (arith, any_of-retain p q xs, h)

  -- The two parts of a partition have an element with `p` exactly if the list has one.
  pub any_of-partition :
      (p q : A → Bool) (xs : List A)
      → any_of p (retain q xs ++ retain (λ x. not (q x)) xs) ≡ any_of p xs
  any_of-partition p q [] = refl
  any_of-partition p q (x ∷ xs) = ground (
    arith,
    any_of-partition p q xs,
    any_of-append p (retain q xs) (retain (λ y. not (q y)) xs),
    any_of-append p (retain q (x ∷ xs)) (retain (λ y. not (q y)) (x ∷ xs)),
  )

  pub partition-All {κ} :
      (P : A → Type κ) (q : A → Bool) (xs : List A)
      → All P xs
      → All P (retain q xs ++ retain (λ x. not (q x)) xs)
  partition-All P q xs h =
      append-All P (retain q xs) _ (retain-All P q xs h) (retain-All P (λ x. not (q x)) xs h)

  -- An element with `p` has what holds of all.
  pub any_of-All {κ} :
      (P : A → Type κ) (p : A → Bool) (xs : List A)
      → any_of p xs ≡ true
      → All P xs
      → (x : A) × (p x ≡ true) × P x
  any_of-All P p [] h all = cc
  any_of-All P p (x ∷ xs) h all = elim (Bool-cases (p x)) [
    | inl holds ↦ (x, holds, all.0)
    | inr fails ↦ any_of-All P p xs (ground (arith, fails, h)) all.1
  ]

  pub length-append : (xs ys : List A) → length (xs ++ ys) ≡ length xs + length ys
  length-append [] ys = omega arith
  length-append (x ∷ xs) ys = omega (arith, length-append xs ys)

  pub take-append-drop : (n : ℕ) (xs : List A) → take n xs ++ drop n xs ≡ xs
  unfolding take drop
  take-append-drop zero xs = refl
  take-append-drop (suc n) [] = refl
  take-append-drop (suc n) (x ∷ xs) = rw (take-append-drop n xs)

  pub length-take : (n : ℕ) (xs : List A) → length (take n xs) ≡ min n (length xs)
  unfolding take
  length-take zero xs = omega arith
  length-take (suc n) [] = omega arith
  length-take (suc n) (x ∷ xs) = omega (arith, length-take n xs)

  pub length-drop : (n : ℕ) (xs : List A) → length (drop n xs) ≡ length xs - n
  unfolding drop
  length-drop zero xs = omega arith
  length-drop (suc n) [] = omega arith
  length-drop (suc n) (x ∷ xs) = omega (arith, length-drop n xs)

  pub take-append_length : (n : ℕ) (xs ys : List A) → length xs ≡ n → take n (xs ++ ys) ≡ xs
  unfolding take
  take-append_length zero [] ys h = refl
  take-append_length zero (x ∷ xs) ys h = absurd (omega arith)
  take-append_length (suc n) [] ys h = absurd (omega arith)
  take-append_length (suc n) (x ∷ xs) ys h = ap (◌∷◌ x) (take-append_length n xs ys (omega arith))

  pub drop-append_length : (n : ℕ) (xs ys : List A) → length xs ≡ n → drop n (xs ++ ys) ≡ ys
  unfolding drop
  drop-append_length zero [] ys h = refl
  drop-append_length zero (x ∷ xs) ys h = absurd (omega arith)
  drop-append_length (suc n) [] ys h = absurd (omega arith)
  drop-append_length (suc n) (x ∷ xs) ys h = drop-append_length n xs ys (omega arith)

  pub length-retain-le : (p : A → Bool) (xs : List A) → length (retain p xs) ≤ length xs
  length-retain-le p [] = omega arith
  length-retain-le p (x ∷ xs) = ground (arith, length-retain-le p xs)

  -- `v[i]` where the index is known to be in range.
  abbrev pub at_or : A → List A → ℕ → A
  at_or d xs i = elim (get_elem? xs i) [ none ↦ d | some x ↦ x ]

  -- `v.get(from..to)`
  abbrev pub get_range : List A → ℕ → ℕ → Option (List A)
  get_range xs from to =
      if leb from to && leb to (length xs) then some (take (to - from) (drop from xs)) else none

  abbrev pub concat : List (List A) → List A
  concat [] = []
  concat (xs ∷ rest) = xs ++ concat rest

-- `start..start + n`
abbrev pub range_from : ℕ → ℕ → List ℕ
range_from start zero = []
range_from start (suc n) = start ∷ range_from (start + 1) n

pub length-map {ℓ κ} :
    {A : Type ℓ} {B : Type κ} (f : A → B) (xs : List A) → length (map f xs) ≡ length xs
length-map f [] = refl
length-map f (x ∷ xs) = ap suc (length-map f xs)

-- `iter().max()`
abbrev pub max_of : List ℕ → Option ℕ
max_of [] = none
max_of (x ∷ xs) = some (elim (max_of xs) [ none ↦ x | some m ↦ max x m ])
