-- ===== src/Base/Maps.antt =====
-- `HashMap` and `BTreeMap` as association lists. Entries are looked up, written in place and
-- removed by key; the order in which the program's maps are iterated is not modelled.
use mathlib.Core.Path.{◌≡◌, refl}
use mathlib.Core.Bool.{Bool, true, false, not}
use mathlib.Core.List.{List, [], ◌∷◌}
use mathlib.Core.Option.{Option, none, some}
use native.Mathlib.Omega.{arith}
use anymone.Base.Tests.{if◌then◌else◌}
use anymone.Base.Lists.{retain}
use anymone.Base.Equality.{Eq, ◌==◌}

module _ {ℓ κ} {K : Type ℓ} {V : Type κ} ⦃e : Eq K⦄ where
  abbrev pub get : List (K × V) → K → Option V
  get [] k = none
  get ((j, v) ∷ m) k = if j == k then some v else get m k

  abbrev pub put : List (K × V) → K → V → List (K × V)
  put [] k v = (k, v) ∷ []
  put ((j, w) ∷ m) k v = let rest = put m k v in if j == k then (k, v) ∷ m else (j, w) ∷ rest

  abbrev pub delete : List (K × V) → K → List (K × V)
  delete m k = retain (λ p. not (p.0 == k)) m

  abbrev pub contains_key : List (K × V) → K → Bool
  contains_key m k = elim (get m k) [ none ↦ false | some _ ↦ true ]

  pub get-put :
      (m : List (K × V)) (k j : K) (v : V)
      → get (put m k v) j ≡ (if k == j then some v else get m j)
  get-put [] k j v = refl
  get-put ((i, w) ∷ m) k j v =
      ground (arith, get-put m k j v, e.beq_iff k j, e.beq_iff i k, e.beq_iff i j)

  pub get-delete :
      (m : List (K × V)) (k j : K) → get (delete m k) j ≡ (if j == k then none else get m j)
  get-delete [] k j = ground arith
  get-delete ((i, w) ∷ m) k j =
      ground (arith, get-delete m k j, e.beq_iff i k, e.beq_iff j k, e.beq_iff i j)

  -- `retain` brings no key in.
  pub get-retain-none :
      (p : K × V → Bool) (m : List (K × V)) (k : K) → get m k ≡ none → get (retain p m) k ≡ none
  get-retain-none p [] k h = refl
  get-retain-none p ((i, w) ∷ m) k h = ground (arith, get-retain-none p m k)
