-- ===== src/ClientPool.antt =====
-- crates/anymone-core/src/client_pool.rs: the queue of a channel and the clients that carry it. The
-- tasks of the pool run beside its callers, so what a task does between two waits is one function,
-- and the dispatcher's place in its loop is part of the state. Clocks, the outboxes of the clients
-- and what their pipes answer are a `World` that each function reads.
pub mod Events
pub mod Fifo
pub mod Bounds
use anymone.Base.{
  ℕ, ◌+◌, ◌*◌, ◌-◌, max, Bool, true, false, ◌&&◌, ◌||◌, not, Option, none, some, List, [], ◌∷◌,
  ◌++◌, map, length, ltb, leb, retain, if◌then◌else◌,
}
use anymone.Base.Equality.{nat_eq, ◌==◌}
use anymone.Base.Results.{Result, ok, err}

-- pipe.rs
pub data SendError : Type 0 where
  no_peer_tag closed subnet_gone : SendError
  encode : List ℕ → SendError
  payload_too_large : (size max' : ℕ) → SendError

abbrev pub is_too_large : SendError → Bool
is_too_large (payload_too_large size max') = true
is_too_large _ = false

pub data PoolError : Type 0 where
  not_attached : PoolError
  saturated : (queued : ℕ) → PoolError
  send_error : SendError → PoolError

-- Times are in milliseconds.
abbrev pub virtual_idle_timeout : ℕ
virtual_idle_timeout = 60000

abbrev pub max_queued : ℕ
max_queued = 64

abbrev pub warmup_rounds : ℕ
warmup_rounds = 2

pub record Member : Type 0 where
  pub anymone : ℕ
  pub joined : ℕ
  pub last_send : ℕ
  pub virtual_client : Bool

pub record World : Type 0 where
  pub now : ℕ
  pub queued_outbound : ℕ → ℕ
  pub round_duration : ℕ → ℕ
  pub check_size : ℕ → ℕ → Result (Unit {0}) SendError

-- Where `dispatch` stands: between ticks, before a member, in the wait for a send, or in `grow`,
-- before it counts the members and before it takes the flag.
pub data Dispatcher : Type 0 where
  idle : Dispatcher
  walking : List Member → Dispatcher
  growing claiming : Dispatcher
  carrying : Member → List ℕ → List Member → Dispatcher

-- `starting` counts the tasks of `grow` that wait for their client, `finishing` those that have added
-- what came and have not cleared the flag yet.
pub record PoolInner : Type 0 where
  pub spawn : Bool
  pub max_clients : ℕ
  pub members : List Member
  pub queue : List (List ℕ)
  pub spawning : Bool
  pub starting : ℕ
  pub finishing : ℕ
  pub dispatcher : Dispatcher

unfoldable pub start : Bool → ℕ → PoolInner
start spawn max_clients = record {
  spawn = spawn;
  max_clients = max max_clients 1;
  members = [];
  queue = [];
  spawning = false;
  starting = 0;
  finishing = 0;
  dispatcher = idle;
}

-- `ClientPool::new`
unfoldable pub new : ℕ → PoolInner
new max_clients = start (ltb 1 max_clients) max_clients

unfoldable pub single : PoolInner
single = start false 1

unfoldable pub new_member : World → ℕ → Bool → Member
new_member w anymone virtual_client = record {
  anymone = anymone;
  joined = w.now;
  last_send = w.now;
  virtual_client = virtual_client;
}

-- The task that `start` spawns: the caller's own client has a pipe.
unfoldable pub attach : World → ℕ → PoolInner → PoolInner
attach w anymone p = record p { members = p.members ++ new_member w anymone false ∷ [] }

unfoldable pub free : World → Member → Bool
free w m =
    w.queued_outbound m.anymone == 0
    && leb (warmup_rounds * w.round_duration m.anymone) (w.now - m.joined)

unfoldable pub send : World → List ℕ → PoolInner → PoolInner × Result (Unit {0}) PoolError
send w payload p = elim (p.members) [
  | [] ↦ (p, err not_attached)
  | m ∷ ms ↦ elim (w.check_size m.anymone (length payload)) [
    | err e ↦ (p, err (send_error e))
    | ok u ↦
        if leb max_queued (length p.queue)
        then (p, err (saturated (length p.queue)))
        else (record p { queue = p.queue ++ payload ∷ [] }, ok tt)
  ]
]

-- `grow` up to the count of the members, which it makes under their lock. Between the count and the
-- flag the task of an earlier call may add its client and clear the flag.
unfoldable pub grow : PoolInner → PoolInner
grow p =
    if not p.spawn
    then record p { dispatcher = idle }
    else if leb p.max_clients (length p.members)
    then record p { dispatcher = idle }
    else record p { dispatcher = claiming }

-- `self.spawning.swap(true)`, and the task that it starts where the flag was clear
unfoldable pub claim : PoolInner → PoolInner
claim p =
    if p.spawning
    then record p { dispatcher = idle }
    else record p { dispatcher = idle; spawning = true; starting = p.starting + 1 }

-- A task has a client with a pipe, which joins, or none.
unfoldable pub spawned : World → Option ℕ → PoolInner → PoolInner
spawned w client p = if p.starting == 0 then p else elim client [
  | none ↦ record p { starting = p.starting - 1; finishing = p.finishing + 1 }
  | some anymone ↦ record p {
    members = p.members ++ new_member w anymone true ∷ [];
    starting = p.starting - 1;
    finishing = p.finishing + 1;
  }
]

-- `inner.spawning.store(false)`, the end of a task
unfoldable pub release : PoolInner → PoolInner
release p =
    if p.finishing == 0 then p else record p { spawning = false; finishing = p.finishing - 1 }

-- The tick of `distribute` and the start of `dispatch`: the members as they are now. The one
-- task that dispatches does not tick again before it is done.
unfoldable pub begin_dispatch : PoolInner → PoolInner
begin_dispatch p = elim (p.dispatcher) [
  | idle ↦ record p { dispatcher = walking p.members }
  | walking ms ↦ p
  | growing ↦ p
  | claiming ↦ p
  | carrying m payload ms ↦ p
]

-- One turn of the loop of `dispatch` up to its wait, its end, or a step of `grow`.
unfoldable pub next_member : World → PoolInner → PoolInner
unfolding grow claim
next_member w p = elim (p.dispatcher) [
  | idle ↦ p
  | carrying m payload ms ↦ p
  | growing ↦ grow p
  | claiming ↦ claim p
  | walking [] ↦ record p { dispatcher = if length p.queue == 0 then idle else growing }
  | walking (m ∷ ms) ↦
      if not (free w m) then record p { dispatcher = walking ms } else elim (p.queue) [
        | [] ↦ record p { dispatcher = idle }
        | payload ∷ rest ↦ record p { queue = rest; dispatcher = carrying m payload ms }
      ]
]

-- `*member.last_send.lock().unwrap() = Instant::now()`
abbrev pub touch : ℕ → ℕ → List Member → List Member
touch now anymone members =
    map (λ (m : Member). if m.anymone == anymone then record m { last_send = now } else m) members

-- What the wait for a send ends with, and what becomes of the payload: sent or dropped for good, or
-- put back.
unfoldable pub settle : World → Result (Unit {0}) SendError → PoolInner → PoolInner × List (List ℕ)
settle w answer p = elim (p.dispatcher) [
  | idle ↦ (p, [])
  | walking ms ↦ (p, [])
  | growing ↦ (p, [])
  | claiming ↦ (p, [])
  | carrying m payload ms ↦ elim (answer) [
    | ok u ↦ (
      record p { members = touch w.now m.anymone p.members; dispatcher = walking ms },
      payload ∷ [],
    )
    | err e ↦
        if is_too_large e
        then (record p { dispatcher = walking ms }, payload ∷ [])
        else (record p { queue = payload ∷ p.queue; dispatcher = idle }, [])
  ]
]

-- The closure of `reap`.
unfoldable pub stays : World → Member → Bool
stays w m =
    not m.virtual_client
    || ltb 0 (w.queued_outbound m.anymone)
    || ltb (w.now - m.last_send) virtual_idle_timeout

unfoldable pub reap : World → PoolInner → PoolInner
reap w p = record p { members = retain (stays w) p.members }
