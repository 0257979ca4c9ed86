-- ===== src/Examples/Pools.antt =====
-- The theorems on client pools: payloads are queued, the first is put back and then sent, and a
-- second client is spawned, then a third by the race between the count and the flag.
use anymone.Base.{ℕ, ◌+◌, ◌≤◌, ◌≡◌, max, some, List, [], ◌∷◌, ◌++◌, length, refl, arith}
use anymone.Base.Results.{ok, err}
use anymone.ClientPool.{
  closed, World, new, attach, send, free, begin_dispatch, next_member, settle, grow, claim, spawned,
  release, reap, stays, start, new_member,
}
use anymone.ClientPool.Events.{
  Event, attached, sending, ticked, turned, reaped, answered, client_spawned, released, run,
}
use anymone.ClientPool.Fifo.{pending, run-new_fifo}
use anymone.ClientPool.Bounds.{clients_of, IsLed, run-new_bounds}

abbrev at_time : ℕ → World
at_time now = record {
  now = now;
  queued_outbound = λ client. 0;
  round_duration = λ client. 10;
  check_size = λ client size. ok tt;
}

abbrev later : List (World × Event)
later =
    (at_time 30, sending (1 ∷ []))
    ∷ (at_time 31, sending (2 ∷ []))
    ∷ (at_time 32, ticked)
    ∷ (at_time 33, turned)
    ∷ (at_time 34, answered (err closed))
    ∷ (at_time 35, ticked)
    ∷ (at_time 36, turned)
    ∷ (at_time 37, answered (ok tt))
    ∷ (at_time 38, turned)
    ∷ (at_time 39, turned)
    ∷ (at_time 40, turned)
    ∷ (at_time 41, sending (3 ∷ []))
    ∷ (at_time 42, ticked)
    ∷ (at_time 43, turned)
    ∷ (at_time 44, answered (ok tt))
    ∷ (at_time 45, turned)
    ∷ (at_time 46, turned)
    ∷ (at_time 47, client_spawned (some 8))
    ∷ (at_time 48, released)
    ∷ (at_time 49, turned)
    ∷ (at_time 50, client_spawned (some 9))
    ∷ (at_time 51, released)
    ∷ (at_time 52, reaped)
    ∷ []

abbrev events : List (World × Event)
events = (at_time 1, attached 7) ∷ later

-- The dispatcher counts one client, the second one joins and its task clears the flag, and only then
-- the dispatcher takes the flag: a pool made for two clients has three.
one_too_many : length (run events (new 2)).pool.members ≡ 3
unfolding new start attach new_member send begin_dispatch next_member free settle grow claim spawned
    release reap stays
one_too_many = refl

-- Two payloads have left, the third waits.
handled_first : (run events (new 2)).handled ≡ (1 ∷ []) ∷ (2 ∷ []) ∷ []
unfolding new start attach new_member send begin_dispatch next_member free settle grow claim spawned
    release
handled_first = refl

run-new_fifo_example :
    (run events (new 2)).accepted
    ≡ (run events (new 2)).handled ++ pending (run events (new 2)).pool
run-new_fifo_example = run-new_fifo 2 events

run-new_bounds_example :
    (clients_of (run later (attach (at_time 1) 7 (new 2))).pool ≤ max 2 1 + 1)
    × IsLed 7 (run later (attach (at_time 1) 7 (new 2))).pool.members
    × (length (pending (run later (attach (at_time 1) 7 (new 2))).pool) ≤ 65)
run-new_bounds_example = run-new_bounds 2 7 (at_time 1) later (ground arith)
