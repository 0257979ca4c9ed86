-- ===== src/Scheduler/Sizing.antt =====
-- crates/anymone-core/src/scheduler_core.rs: how `tick` sizes the network. The subnet count follows
-- the load with a damped shrink, the capacity of a subnet follows the clients observed. The float
-- `(clients as f64 * 1.2).ceil()` is the integer ceiling of 6/5 of a number below 2^32, and
-- `floor(sqrt(n) / 2)` is the largest k with 4 * k * k ≤ n.
pub mod Count
pub mod Capacity
use anymone.Base.{
  ℕ, zero, suc, ◌+◌, ◌-◌, ◌*◌, ◌/◌, ◌%◌, ◌^◌, Bool, ◌&&◌, ◌||◌, Option, none, some, ltb, leb, eqb,
  if◌then◌else◌, min, max, abs_diff,
}

abbrev pub subnet_shrink_grace : ℕ
subnet_shrink_grace = 3

abbrev pub max_subnets : ℕ
max_subnets = 16

abbrev pub min_capacity_floor : ℕ
min_capacity_floor = 8

abbrev pub capacity_resize_grace : ℕ
capacity_resize_grace = 3

abbrev pub max_subnet_clients : ℕ
max_subnet_clients = 300

abbrev pub aggregation_threshold : ℕ
aggregation_threshold = 16

unfoldable pub capacity_resize_margin : ℕ → ℕ
capacity_resize_margin current = max (current / 10) min_capacity_floor

unfoldable pub size_capacity : ℕ → ℕ
size_capacity clients = max (max (clients + 10) ((clients * 6 + 4) / 5) % 2 ^ 32) min_capacity_floor

unfoldable pub expected_active : ℕ → ℕ
expected_active set = max ((set + 1) / 2) (min_capacity_floor / 2)

-- The largest k up to `fuel` with 4 * k * k ≤ n; `fuel = n` is enough.
unfoldable pub half_sqrt : ℕ → ℕ → ℕ
half_sqrt zero n = 0
half_sqrt (suc k) n =
    let rest = half_sqrt k n in if leb (4 * (suc k * suc k)) n then suc k else rest

unfoldable pub aggregator_group_count : ℕ → ℕ → Option ℕ
unfolding half_sqrt
aggregator_group_count capacity n_relays =
    if leb capacity aggregation_threshold || eqb n_relays 0
    then none
    else some (max (min (min (1 + capacity / 16) (half_sqrt capacity capacity)) n_relays) 1)

-- The subnet count and its streak of shrinkable ticks.
unfoldable pub next_count : ℕ → ℕ → ℕ × ℕ → ℕ × ℕ
next_count grow_at load (count, streak) =
    if leb grow_at (load / max count 1) && ltb count max_subnets
    then (min (max (load / max grow_at 1 + 1) count) max_subnets, 0)
    else if ltb 1 count && leb (load / (max count 2 - 1)) (grow_at - grow_at / 10)
    then (if leb subnet_shrink_grace (streak + 1) then (count - 1, 0) else (count, streak + 1))
    else (count, 0)

-- The clients that a subnet is sized for.
unfoldable pub observed_clients : ℕ → ℕ → ℕ → ℕ
observed_clients busiest load count = max busiest ((load + max count 1 - 1) / max count 1)

unfoldable pub desired_capacity : ℕ → ℕ → ℕ
unfolding size_capacity
desired_capacity floor observed = min (max (size_capacity observed) floor) max_subnet_clients

-- The capacity and its streak of ticks with a worthwhile resize.
unfoldable pub next_capacity : ℕ → ℕ → ℕ × ℕ → ℕ × ℕ
unfolding desired_capacity capacity_resize_margin
next_capacity floor observed (capacity, streak) =
    let desired = desired_capacity floor observed in
    let sized : ℕ × ℕ =
      if leb capacity observed
      then (max desired capacity, 0)
      else if leb (capacity_resize_margin capacity) (abs_diff desired capacity)
      then (if leb capacity_resize_grace (streak + 1) then (desired, 0) else (capacity, streak + 1))
      else (capacity, 0) in
    (min sized.0 max_subnet_clients, sized.1)
