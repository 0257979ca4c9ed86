-- ===== src/Base/Dedup.antt =====
-- `dedup` on a sorted vector of numbers.
use Prim.Native.Nat.{ℕ, ◌≤◌, ◌<◌}
use mathlib.Core.Path.{◌≡◌, refl, sym, ◌∙◌}
use mathlib.Core.Logic.{inl, inr}
use mathlib.Core.Bool.{true}
use mathlib.Core.List.{List, [], ◌∷◌}
use native.Mathlib.Omega.{arith}
use anymone.Base.Tests.{if◌then◌else◌, Bool-cases}
use anymone.Base.Equality.{nat_eq, ◌==◌}
use anymone.Base.Sets.{contains, Distinct}
use anymone.Base.Sort.{IsSorted}

unfoldable pub dedup : List ℕ → List ℕ
dedup [] = []
dedup (x ∷ xs) =
    let rest = dedup xs in
    elim (rest) [ [] ↦ x ∷ [] | y ∷ ys ↦ if x == y then y ∷ ys else x ∷ y ∷ ys ]

pub contains-dedup : (xs : List ℕ) (k : ℕ) → contains (dedup xs) k ≡ contains xs k
unfolding dedup
contains-dedup [] k = refl
contains-dedup (x ∷ xs) k = ground (arith, contains-dedup xs k)

below-tail : (x : ℕ) (xs : List ℕ) (k : ℕ) → IsSorted (x ∷ xs) → contains xs k ≡ true → x ≤ k
below-tail x [] k s h = cc
below-tail x (y ∷ ys) k s h = ground (arith, below-tail y ys k)

-- Each element is below all the later ones.
abbrev pub IsUp : List ℕ → Type 0
IsUp [] = Unit
IsUp (x ∷ xs) = ((k : ℕ) → contains xs k ≡ true → x < k) × IsUp xs

IsSorted-tail : (x : ℕ) (xs : List ℕ) → IsSorted (x ∷ xs) → IsSorted xs
IsSorted-tail x [] s = tt
IsSorted-tail x (y ∷ ys) s = s.1

dedup_step :
    (x : ℕ) (rest : List ℕ)
    → ((k : ℕ) → contains rest k ≡ true → x ≤ k)
    → IsUp rest
    → IsUp (elim (rest) as (λ _. List ℕ) [
      | [] ↦ x ∷ []
      | y ∷ ys ↦ if x == y then y ∷ ys else x ∷ y ∷ ys
    ])
dedup_step x [] low u = (λ k h. cc, tt)
dedup_step x (y ∷ ys) low u = elim (Bool-cases (x == y)) [
  | inl same ↦ rw same u
  | inr other ↦ rw other (λ k h. ground (arith, other, h, low k, low y, u.0 k), u)
]

pub dedup-IsUp : (xs : List ℕ) → IsSorted xs → IsUp (dedup xs)
unfolding dedup
dedup-IsUp [] s = tt
dedup-IsUp (x ∷ xs) s =
    dedup_step x (dedup xs) (λ k h. below-tail x xs k s (sym (contains-dedup xs k) ∙ h))
      (dedup-IsUp xs (IsSorted-tail x xs s))

pub IsUp-Distinct : (xs : List ℕ) → IsUp xs → Distinct xs
IsUp-Distinct [] u = tt
IsUp-Distinct (x ∷ xs) u = ground (arith, u.0 x, IsUp-Distinct xs u.1)
