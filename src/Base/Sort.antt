-- ===== src/Base/Sort.antt =====
-- `sort` on numbers, with what the program relies on: order, the same elements, the same length.
use Prim.Native.Nat.{ℕ, suc, ◌≤◌}
use mathlib.Core.Path.{◌≡◌, refl, ap, ◌∙◌}
use mathlib.Core.Bool.{false, ◌||◌}
use mathlib.Core.List.{List, [], ◌∷◌}
use native.Mathlib.Omega.{arith}
use anymone.Base.Tests.{leb, if◌then◌else◌, eqb_iff}
use anymone.Base.Lists.{length}
use anymone.Base.Equality.{nat_eq, ◌==◌}
use anymone.Base.Sets.{contains, Distinct}

unfoldable pub place : ℕ → List ℕ → List ℕ
place x [] = x ∷ []
place x (y ∷ ys) = let rest = place x ys in if leb x y then x ∷ y ∷ ys else y ∷ rest

unfoldable pub sort : List ℕ → List ℕ
unfolding place
sort [] = []
sort (x ∷ xs) = place x (sort xs)

-- Each element is at most all the later ones.
abbrev pub IsSorted : List ℕ → Type 0
IsSorted [] = Unit
IsSorted (x ∷ []) = Unit
IsSorted (x ∷ y ∷ ys) = (x ≤ y) × IsSorted (y ∷ ys)

contains-place : (x : ℕ) (ys : List ℕ) (k : ℕ) → contains (place x ys) k ≡ (x == k || contains ys k)
unfolding place
contains-place x [] k = refl
contains-place x (y ∷ ys) k = ground (arith, contains-place x ys k)

pub contains-sort : (xs : List ℕ) (k : ℕ) → contains (sort xs) k ≡ contains xs k
unfolding sort
contains-sort [] k = refl
contains-sort (x ∷ xs) k = ground (arith, contains-place x (sort xs) k, contains-sort xs k)

length-place : (x : ℕ) (ys : List ℕ) → length (place x ys) ≡ suc (length ys)
unfolding place
length-place x [] = refl
length-place x (y ∷ ys) = ground (arith, length-place x ys)

pub length-sort : (xs : List ℕ) → length (sort xs) ≡ length xs
unfolding sort
length-sort [] = refl
length-sort (x ∷ xs) = length-place x (sort xs) ∙ ap suc (length-sort xs)

place-Distinct : (x : ℕ) (ys : List ℕ) → contains ys x ≡ false → Distinct ys → Distinct (place x ys)
unfolding place
place-Distinct x [] h d = (refl, tt)
place-Distinct x (y ∷ ys) h d =
    ground (arith, place-Distinct x ys, contains-place x ys y, eqb_iff x y, eqb_iff y x)

pub sort-Distinct : (xs : List ℕ) → Distinct xs → Distinct (sort xs)
unfolding sort
sort-Distinct [] d = tt
sort-Distinct (x ∷ xs) d =
    place-Distinct x (sort xs) (contains-sort xs x ∙ d.0) (sort-Distinct xs d.1)

place-IsSorted : (x : ℕ) (ys : List ℕ) → IsSorted ys → IsSorted (place x ys)
unfolding place
place-IsSorted x [] s = tt
place-IsSorted x (y ∷ []) s = ground arith
place-IsSorted x (y ∷ z ∷ ys) s = ground (arith, place-IsSorted x (z ∷ ys))

pub sort-IsSorted : (xs : List ℕ) → IsSorted (sort xs)
unfolding sort
sort-IsSorted [] = tt
sort-IsSorted (x ∷ xs) = place-IsSorted x (sort xs) (sort-IsSorted xs)
