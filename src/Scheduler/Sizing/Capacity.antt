-- ===== src/Scheduler/Sizing/Capacity.antt =====
-- The capacity: its range, immediate growth, damping, and convergence at a constant count of clients.
use anymone.Base.{
  ℕ, zero, suc, ◌+◌, ◌*◌, ◌/◌, ◌^◌, ◌≤◌, ◌<◌, ◌≡◌, refl, sym, subst, ◌⊎◌, inl, inr, ◌∙◌, arith, max,
  min, Option, none, some, abs_diff,
}
use anymone.Scheduler.Sizing.{
  next_capacity, desired_capacity, size_capacity, capacity_resize_margin, max_subnet_clients,
  min_capacity_floor, capacity_resize_grace, half_sqrt, aggregator_group_count,
  aggregation_threshold,
}

-- A capacity has at least ten places, and a fifth more than its clients, to spare.
pub size_capacity_room :
    (clients : ℕ)
    → clients < 2 ^ 31
    → (clients + 10 ≤ size_capacity clients) × (clients * 6 ≤ size_capacity clients * 5)
unfolding size_capacity
size_capacity_room clients h = (omega arith, omega arith)

desired_bounds :
    (floor observed : ℕ)
    → observed < 2 ^ 31
    → (min (max (observed + 10) floor) 300 ≤ desired_capacity floor observed)
      × (desired_capacity floor observed ≤ 300)
unfolding desired_capacity
desired_bounds floor observed h = omega (arith, size_capacity_room observed h)

-- A capacity in the range that the scheduler keeps, with a streak below the grace.
pub record IsCapacity (floor : ℕ) (s : ℕ × ℕ) : Type 0 where
  pub large_enough : min (max floor min_capacity_floor) max_subnet_clients ≤ s.0
  pub small_enough : s.0 ≤ max_subnet_clients
  pub below_grace : s.1 < capacity_resize_grace

-- The desired capacity is never below its floor nor above the ceiling, at any count of clients.
desired_in_range :
    (floor observed : ℕ)
    → (min (max floor min_capacity_floor) max_subnet_clients ≤ desired_capacity floor observed)
      × (desired_capacity floor observed ≤ max_subnet_clients)
unfolding desired_capacity size_capacity
desired_in_range floor observed = (omega arith, omega arith)

-- The capacity stays at or above its floor and at or below 300 clients.
pub next_capacity-IsCapacity :
    (floor observed : ℕ) (s : ℕ × ℕ)
    → IsCapacity floor s
    → IsCapacity floor (next_capacity floor observed s)
unfolding next_capacity
next_capacity-IsCapacity floor observed (capacity, streak) v =
    ground (arith, desired_in_range floor observed, v.large_enough, v.small_enough, v.below_grace)

-- A subnet that overflows grows at once: to ten places more than its clients, up to the ceiling.
pub next_capacity_grows :
    (floor observed capacity streak : ℕ)
    → observed < 2 ^ 31
    → capacity ≤ observed
    → min (observed + 10) max_subnet_clients ≤ (next_capacity floor observed (capacity, streak)).0
unfolding next_capacity
next_capacity_grows floor observed capacity streak h o =
    ground (arith, desired_bounds floor observed h)

-- A subnet with room changes its capacity only at the third tick in a row that asks for a change of
-- at least the margin, and then to the desired capacity.
pub next_capacity_damped :
    (floor observed capacity streak : ℕ)
    → observed < 2 ^ 31
    → observed < capacity
    → IsCapacity floor (capacity, streak)
    → ((next_capacity floor observed (capacity, streak)).0 ≡ capacity)
      ⊎ (((next_capacity floor observed (capacity, streak)).0 ≡ desired_capacity floor observed)
          × (streak + 1 ≡ capacity_resize_grace)
          × (capacity_resize_margin capacity ≤ abs_diff (desired_capacity floor observed) capacity))
unfolding next_capacity
next_capacity_damped floor observed capacity streak h o v =
    ground (arith, desired_bounds floor observed h, v.small_enough, v.below_grace)

-- `n` computations of the next capacity at one observed count of clients in a subnet.
unfoldable pub ticks : ℕ → ℕ → ℕ → ℕ × ℕ → ℕ × ℕ
ticks floor observed zero s = s
ticks floor observed (suc n) s = ticks floor observed n (next_capacity floor observed s)

-- A capacity that another tick at the same load leaves alone.
abbrev pub Settled : ℕ → ℕ → ℕ × ℕ → Type 0
Settled floor observed s =
    (s.0 ≡ desired_capacity floor observed)
    ⊎ ((observed < s.0)
        × (abs_diff (desired_capacity floor observed) s.0 < capacity_resize_margin s.0))

Settled-next :
    (floor observed : ℕ) (s : ℕ × ℕ)
    → observed < 2 ^ 31
    → s.0 ≤ 300
    → Settled floor observed s
    → (next_capacity floor observed s).0 ≡ s.0
unfolding next_capacity
Settled-next floor observed (capacity, streak) h small settled =
    ground (arith, desired_bounds floor observed h)

-- Settled, or at least `k` ticks into a streak.
abbrev Near : ℕ → ℕ → ℕ → ℕ × ℕ → Type 0
Near floor observed k s = Settled floor observed s ⊎ (k ≤ s.1)

waiting_next :
    (floor observed k : ℕ) (s : ℕ × ℕ)
    → observed < 2 ^ 31
    → IsCapacity floor s
    → k ≤ s.1
    → Near floor observed (suc k) (next_capacity floor observed s)
unfolding next_capacity
waiting_next floor observed k (capacity, streak) h v w =
    ground (arith, desired_bounds floor observed h)

Near-next :
    (floor observed k : ℕ) (s : ℕ × ℕ)
    → observed < 2 ^ 31
    → IsCapacity floor s
    → Near floor observed k s
    → Near floor observed (suc k) (next_capacity floor observed s)
Near-next floor observed k s h v (inl settled) = inl (
    subst (λ c. Settled floor observed (c, 0))
      (sym (Settled-next floor observed s h v.small_enough settled)) settled)
Near-next floor observed k s h v (inr waiting) = waiting_next floor observed k s h v waiting

ticks-Near :
    (floor observed n k : ℕ) (s : ℕ × ℕ)
    → observed < 2 ^ 31
    → IsCapacity floor s
    → Near floor observed k s
    → Near floor observed (n + k) (ticks floor observed n s)
      × IsCapacity floor (ticks floor observed n s)
unfolding ticks
ticks-Near floor observed zero k s h v near =
    (subst (λ m. Near floor observed m s) (omega arith) near, v)
ticks-Near floor observed (suc n) k s h v near =
    let s' : ℕ × ℕ = next_capacity floor observed s in
    let rest =
      ticks-Near floor observed n (suc k) s' h (next_capacity-IsCapacity floor observed s v)
        (Near-next floor observed k s h v near) in
    (subst (λ m. Near floor observed m (ticks floor observed n s')) (omega arith) rest.0, rest.1)

ticks-Settled :
    (floor observed n : ℕ) (s : ℕ × ℕ)
    → observed < 2 ^ 31
    → IsCapacity floor s
    → Settled floor observed s
    → (ticks floor observed n s).0 ≡ s.0
unfolding ticks
ticks-Settled floor observed zero s h v settled = refl
ticks-Settled floor observed (suc n) s h v settled =
    let s' : ℕ × ℕ = next_capacity floor observed s in
    let same = Settled-next floor observed s h v.small_enough settled in
    ticks-Settled floor observed n s' h (next_capacity-IsCapacity floor observed s v)
      (subst (λ c. Settled floor observed (c, 0)) (sym same) settled)
    ∙ same

-- For one observed count of clients below 2^31, from a capacity in its range with a streak below the
-- grace: after three computations of the next capacity it is constant, and it is the desired
-- capacity, or is above the count and differs from the desired one by less than the margin.
pub ticks_converge :
    (floor observed n : ℕ) (s : ℕ × ℕ)
    → observed < 2 ^ 31
    → IsCapacity floor s
    → ((ticks floor observed n (ticks floor observed 3 s)).0 ≡ (ticks floor observed 3 s).0)
      × Settled floor observed (ticks floor observed 3 s)
ticks_converge floor observed n s h v =
    let (near, v') = ticks-Near floor observed 3 0 s h v (inr (omega arith)) in
    let settled : Settled floor observed (ticks floor observed 3 s) = elim near [
      | inl settled ↦ settled
      | inr late ↦ absurd (omega (arith, v'.below_grace))
    ] in
    (ticks-Settled floor observed n _ h v' settled, settled)

half_sqrt_bound : (k n : ℕ) → 4 * (half_sqrt k n * half_sqrt k n) ≤ n
unfolding half_sqrt
half_sqrt_bound zero n = omega arith
half_sqrt_bound (suc k) n = ground (arith, half_sqrt_bound k n)

square_mono : (a b : ℕ) → a ≤ b → a * a ≤ b * b
square_mono a b h = grind arith

-- What a group count may be for a capacity and a number of relays.
abbrev pub GroupsFit : ℕ → ℕ → Option ℕ → Type 0
GroupsFit capacity n_relays none = (capacity ≤ aggregation_threshold) ⊎ (n_relays ≡ 0)
GroupsFit capacity n_relays (some groups) =
    (aggregation_threshold < capacity)
    × (1 ≤ groups)
    × (groups ≤ n_relays)
    × (4 * (groups * groups) ≤ capacity)

-- An aggregation layer is built exactly above the threshold and over some relay; it has at least
-- one group, at most one for each relay, and at most half the capacity's square root.
pub aggregator_group_count-GroupsFit :
    (capacity n_relays : ℕ) → GroupsFit capacity n_relays (aggregator_group_count capacity n_relays)
unfolding aggregator_group_count
aggregator_group_count-GroupsFit capacity n_relays = ground (
  arith,
  half_sqrt_bound capacity capacity,
  square_mono (min (min (1 + capacity / 16) (half_sqrt capacity capacity)) n_relays)
      (half_sqrt capacity capacity),
)
