-- ===== src/ClientPool/Events.antt =====
-- Runs of a pool: the steps of its tasks and callers, in any order.
use anymone.Base.{ℕ, Option, List, [], ◌∷◌, ◌++◌}
use anymone.Base.Results.{Result, ok, err}
use anymone.ClientPool.{
  SendError, PoolError, World, PoolInner, attach, send, spawned, release, begin_dispatch,
  next_member, settle, reap,
}

pub data Event : Type 0 where
  attached : (anymone : ℕ) → Event
  sending : (payload : List ℕ) → Event
  ticked turned reaped : Event
  answered : Result (Unit {0}) SendError → Event
  client_spawned : Option ℕ → Event
  released : Event

-- The next state, the payloads that were accepted, and those that left the pool for good.
pub record Effect : Type 0 where
  pub pool : PoolInner
  pub accepted : List (List ℕ)
  pub handled : List (List ℕ)

-- What a call of `send` accepts.
abbrev pub taken : List ℕ → Result (Unit {0}) PoolError → List (List ℕ)
taken payload (ok u) = payload ∷ []
taken payload (err e) = []

abbrev quiet : PoolInner → Effect
quiet p = record { pool = p; accepted = []; handled = [] }

abbrev pub step : World → Event → PoolInner → Effect
step w (attached anymone) p = quiet (attach w anymone p)
step w (sending payload) p =
    let done = send w payload p in
    record { pool = done.0; accepted = taken payload done.1; handled = [] }
step w ticked p = quiet (begin_dispatch p)
step w turned p = quiet (next_member w p)
step w reaped p = quiet (reap w p)
step w (answered answer) p =
    let done = settle w answer p in record { pool = done.0; accepted = []; handled = done.1 }
step w (client_spawned client) p = quiet (spawned w client p)
step w released p = quiet (release p)

-- Each event comes with the world it finds.
abbrev pub run : List (World × Event) → PoolInner → Effect
run [] p = quiet p
run ((w, event) ∷ events) p =
    let now = step w event p in
    let later : Effect = run events now.pool in
    record {
      pool = later.pool;
      accepted = now.accepted ++ later.accepted;
      handled = now.handled ++ later.handled;
    }
