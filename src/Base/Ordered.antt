-- ===== src/Base/Ordered.antt =====
-- `BTreeMap` with numbers as keys: an association list in the order of its keys.
use Prim.Native.Nat.{ℕ, ◌<◌, ◌≤◌, suc}
use mathlib.Core.Path.{◌≡◌, refl}
use mathlib.Core.List.{List, [], ◌∷◌}
use mathlib.Core.Option.{Option, none, some}
use native.Mathlib.Omega.{arith}
use anymone.Base.Tests.{ltb, if◌then◌else◌}
use anymone.Base.Lists.{length}
use anymone.Base.Equality.{nat_eq, ◌==◌}
use anymone.Base.Maps.{get, contains_key}

module _ {κ} {V : Type κ} where
  -- `BTreeMap::insert`
  unfoldable pub put_at : List (ℕ × V) → ℕ → V → List (ℕ × V)
  put_at [] k v = (k, v) ∷ []
  put_at ((j, w) ∷ m) k v =
      let rest = put_at m k v in
      if k == j then (k, v) ∷ m else if ltb k j then (k, v) ∷ (j, w) ∷ m else (j, w) ∷ rest

  -- `BTreeMap::remove`: the value of the key, and the map without it.
  unfoldable pub take_at : List (ℕ × V) → ℕ → Option V × List (ℕ × V)
  take_at [] k = (none, [])
  take_at ((j, w) ∷ m) k =
      let rest = take_at m k in if j == k then (some w, m) else (rest.0, (j, w) ∷ rest.1)

  pub get-put_at :
      (m : List (ℕ × V)) (k j : ℕ) (v : V)
      → get (put_at m k v) j ≡ (if k == j then some v else get m j)
  unfolding put_at
  get-put_at [] k j v = refl
  get-put_at ((i, w) ∷ m) k j v = ground (arith, get-put_at m k j v)

  -- Each key is below all the later ones.
  abbrev pub IsAbove : ℕ → List (ℕ × V) → Type 0
  IsAbove k [] = Unit
  IsAbove k ((j, w) ∷ m) = (k < j) × IsAbove j m

  abbrev pub IsOrdered : List (ℕ × V) → Type 0
  IsOrdered [] = Unit
  IsOrdered ((j, w) ∷ m) = IsAbove j m

  put_at-IsAbove :
      (i : ℕ) (m : List (ℕ × V)) (k : ℕ) (v : V) → i < k → IsAbove i m → IsAbove i (put_at m k v)
  unfolding put_at
  put_at-IsAbove i [] k v h o = (h, tt)
  put_at-IsAbove i ((j, w) ∷ m) k v h o = ground (arith, put_at-IsAbove j m k v)

  pub put_at-IsOrdered : (m : List (ℕ × V)) (k : ℕ) (v : V) → IsOrdered m → IsOrdered (put_at m k v)
  unfolding put_at
  put_at-IsOrdered [] k v o = tt
  put_at-IsOrdered ((j, w) ∷ m) k v o = ground (arith, put_at-IsAbove j m k v)

  pub get-below : (i : ℕ) (m : List (ℕ × V)) (k : ℕ) → IsAbove i m → k ≤ i → get m k ≡ none
  get-below i [] k o h = refl
  get-below i ((j, w) ∷ m) k o h = ground (arith, get-below j m k)

  -- Writing a key makes the map one entry longer, or leaves its length when the key is there.
  length-put_at_above :
      (i : ℕ) (m : List (ℕ × V)) (k : ℕ) (v : V)
      → IsAbove i m
      → length (put_at m k v) ≡ (if contains_key m k then length m else suc (length m))
  unfolding put_at
  length-put_at_above i [] k v o = refl
  length-put_at_above i ((j, w) ∷ m) k v o =
      ground (arith, length-put_at_above j m k v, get-below j m k)

  pub length-put_at :
      (m : List (ℕ × V)) (k : ℕ) (v : V)
      → IsOrdered m
      → length (put_at m k v) ≡ (if contains_key m k then length m else suc (length m))
  unfolding put_at
  length-put_at [] k v o = refl
  length-put_at ((j, w) ∷ m) k v o = ground (arith, length-put_at_above j m k v, get-below j m k)
