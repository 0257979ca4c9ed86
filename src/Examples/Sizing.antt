-- ===== src/Examples/Sizing.antt =====
-- The theorems on the sizes of the network, at small loads.
use anymone.Base.{◌<◌, ◌≡◌, arith}
use anymone.Scheduler.Sizing.{next_count}
use anymone.Scheduler.Sizing.Count.{IsCount}
use anymone.Scheduler.Sizing.Capacity.{IsCapacity, Settled, ticks, ticks_converge}

two_subnets : IsCount (2, 2)
two_subnets = record {
  some_subnet = omega arith;
  few_subnets = omega arith;
  below_grace = omega arith;
}

shrinks : (next_count 63 20 (2, 2)).0 < 2
unfolding next_count
shrinks = omega arith

sixty : IsCapacity 8 (60, 2)
sixty = record { large_enough = omega arith; small_enough = omega arith; below_grace = omega arith }

ticks_converge_example :
    ((ticks 8 20 5 (ticks 8 20 3 (60, 2))).0 ≡ (ticks 8 20 3 (60, 2)).0)
    × Settled 8 20 (ticks 8 20 3 (60, 2))
ticks_converge_example = ticks_converge 8 20 5 (60, 2) (omega arith) sixty
