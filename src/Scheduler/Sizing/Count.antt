-- ===== src/Scheduler/Sizing/Count.antt =====
-- The subnet count: its range, growth to the load, and the damped shrink.
use anymone.Base.{ℕ, ◌+◌, ◌/◌, ◌≤◌, ◌<◌, ◌≡◌, ◌⊎◌, arith, max}
use native.Mathlib.Nat.{div-lt_iff_lt-mul, lt-mul-div-succ, div_self, div-one}
use anymone.Scheduler.Sizing.{next_count, max_subnets, subnet_shrink_grace}

-- Enough subnets bring each one's load below the threshold.
div-lt_of_enough : (g load n : ℕ) → 1 ≤ g → load / g + 1 ≤ n → load / n < g
div-lt_of_enough g load n pos h =
    (div-lt_iff_lt-mul (omega arith)).1 (grind (arith, lt-mul-div-succ load {b = g} (omega arith)))

-- Between 1 and 16 subnets, and a streak that has not yet reached the grace.
pub record IsCount (s : ℕ × ℕ) : Type 0 where
  pub some_subnet : 1 ≤ s.0
  pub few_subnets : s.0 ≤ max_subnets
  pub below_grace : s.1 < subnet_shrink_grace

-- The count stays between 1 and 16, and the streak below the grace, at any load and threshold.
pub next_count-IsCount :
    (grow_at load : ℕ) (s : ℕ × ℕ) → IsCount s → IsCount (next_count grow_at load s)
unfolding next_count
next_count-IsCount grow_at load (count, streak) v = ground arith

-- A load at the threshold is absorbed at once: with the new count the load of each subnet is below
-- the threshold, or the count is at its cap; and the count does not fall.
pub next_count_absorbs :
    (grow_at load count streak : ℕ)
    → 1 ≤ grow_at
    → 1 ≤ count
    → count < max_subnets
    → grow_at ≤ load / count
    → (count ≤ (next_count grow_at load (count, streak)).0)
      × ((load / (next_count grow_at load (count, streak)).0 < grow_at)
          ⊎ ((next_count grow_at load (count, streak)).0 ≡ max_subnets))
unfolding next_count
next_count_absorbs grow_at load count streak g c m h =
    let whole : max grow_at 1 ≡ grow_at = omega arith in
    let alone : max count 1 ≡ count = omega arith in
    ground
      (arith, whole, alone, div-lt_of_enough grow_at load (max (load / max grow_at 1 + 1) count) g)

-- With a threshold of at least 10, a subnet that has just been removed is not added back at the
-- same load.
pub next_count_settles :
    (grow_at load : ℕ) (s : ℕ × ℕ)
    → 10 ≤ grow_at
    → IsCount s
    → (next_count grow_at load s).0 < s.0
    → (next_count grow_at load (next_count grow_at load s)).0 ≤ (next_count grow_at load s).0
unfolding next_count
next_count_settles grow_at load (count, streak) g v h = grind arith

-- With a positive threshold below 10 it may be: at a load equal to the threshold, two subnets whose
-- streak is about to end shrink to one and grow back to two at the next tick.
pub next_count_flaps :
    (grow_at : ℕ)
    → 1 ≤ grow_at
    → grow_at < 10
    → (next_count grow_at grow_at (2, 2) ≡ (1, 0)) × (next_count grow_at grow_at (1, 0) ≡ (2, 0))
unfolding next_count
next_count_flaps grow_at g h =
    let whole : max grow_at 1 ≡ grow_at = omega arith in
    (ground arith, ground (arith, whole, div_self {n = grow_at} g, div-one grow_at))

-- The count falls by at most one a tick, and only at the third shrinkable tick in a row.
pub next_count_damped :
    (grow_at load : ℕ) (s : ℕ × ℕ)
    → (next_count grow_at load s).0 < s.0
    → IsCount s
    → ((next_count grow_at load s).0 + 1 ≡ s.0) × (s.1 + 1 ≡ subnet_shrink_grace)
unfolding next_count
next_count_damped grow_at load (count, streak) h v = ground arith
