-- ===== src/ClientPool/Bounds.antt =====
-- How much a pool holds.
use anymone.Base.{
  ℕ, ◌+◌, ◌≤◌, ◌≡◌, refl, sym, ap, subst, ◌∙◌, max, Bool, true, false, Option, none, some, List, [],
  ◌∷◌, ◌++◌, retain, length, length-append, length-map, length-retain-le, inl, inr, All, Bool-cases,
  arith,
}
use anymone.Base.Results.{Result, ok, err}
use anymone.ClientPool.{
  SendError, is_too_large, PoolError, World, Member, Dispatcher, idle, walking, growing, claiming,
  carrying, PoolInner, new, start, attach, send, grow, claim, spawned, release, begin_dispatch,
  next_member, settle, stays, reap, touch, new_member,
}
use anymone.ClientPool.Events.{
  Event, attached, sending, ticked, turned, reaped, answered, client_spawned, released, step, run,
}
use anymone.ClientPool.Fifo.{
  pending, ahead_of, send-cases, list-cases, Dispatcher-cases, settle_pending, next_member_pending,
  begin_dispatch_pending,
}

-- A client that a spawned task waits for counts.
abbrev pub clients_of : PoolInner → ℕ
clients_of p = length p.members + p.starting

-- The room that a dispatcher counts on between its two steps of `grow`.
abbrev claims : Dispatcher → ℕ
claims claiming = 1
claims idle = 0
claims (walking ms) = 0
claims growing = 0
claims (carrying m payload ms) = 0

-- The caller's own client stands first.
abbrev pub IsLed : ℕ → List Member → Type 0
IsLed own [] = ⊥
IsLed own (m ∷ ms) = (m.anymone ≡ own) × (m.virtual_client ≡ false)

-- The count is at most one above the limit, and not above it while the dispatcher is about to take
-- the flag; there is at most one task, and it holds the flag.
abbrev HasRoom : PoolInner → Type 0
HasRoom p =
    (clients_of p + claims p.dispatcher ≤ p.max_clients + 1)
    × (p.spawning ≡ false → p.starting + p.finishing ≡ 0)
    × (p.starting + p.finishing ≤ 1)

-- One payload more than the queue's bound: the one that a client failed to take comes back to the
-- front of a queue that may have filled up in the meantime.
abbrev IsBounded : ℕ → ℕ → PoolInner → Type 0
IsBounded own limit p =
    (length (pending p) ≤ 65) × HasRoom p × (p.max_clients ≡ limit) × IsLed own p.members

length-ahead_of :
    (d : Dispatcher) (queue : List (List ℕ)) → length (ahead_of d queue) ≤ length queue + 1
length-ahead_of idle queue = omega arith
length-ahead_of (walking ms) queue = omega arith
length-ahead_of growing queue = omega arith
length-ahead_of claiming queue = omega arith
length-ahead_of (carrying m payload ms) queue = omega arith

send-IsBounded :
    (own limit : ℕ) (w : World) (payload : List ℕ) (p : PoolInner)
    → IsBounded own limit p
    → IsBounded own limit (send w payload p).0
send-IsBounded own limit w payload p v = elim (send-cases w payload p) [
  | inl (e, h) ↦
      subst (λ (d : PoolInner × Result (Unit {0}) PoolError). IsBounded own limit d.0) (sym h) v
  | inr (h, room, some_member) ↦
      subst (λ (d : PoolInner × Result (Unit {0}) PoolError). IsBounded own limit d.0) (sym h)
        (
          omega (
            arith,
            room,
            length-ahead_of p.dispatcher (p.queue ++ payload ∷ []),
            length-append p.queue (payload ∷ []),
          ),
          v.1,
          v.2,
          v.3,
        )
]

-- The other steps keep what is pending, or less of it.
with_pending :
    (own limit : ℕ) (p q : PoolInner)
    → length (pending q) ≤ length (pending p)
    → HasRoom q
    → q.max_clients ≡ p.max_clients
    → IsLed own q.members
    → IsBounded own limit p
    → IsBounded own limit q
with_pending own limit p q less room same led v = (omega (arith, less, v.0), room, same ∙ v.2, led)

touch-IsLed :
    (own now anymone : ℕ) (ms : List Member) → IsLed own ms → IsLed own (touch now anymone ms)
touch-IsLed own now anymone [] h = h
touch-IsLed own now anymone (m ∷ ms) h = ground (arith, h)

-- What the room and the members have become once a send was answered.
abbrev Settled : ℕ → PoolInner → PoolInner × List (List ℕ) → Type 0
Settled own p done =
    HasRoom done.0 × (done.0.max_clients ≡ p.max_clients) × IsLed own done.0.members

settle-carrying :
    (own : ℕ) (w : World) (answer : Result (Unit {0}) SendError) (p : PoolInner) (m : Member)
    (payload : List ℕ) (ms : List Member)
    → p.dispatcher ≡ carrying m payload ms
    → IsLed own p.members
    → HasRoom p
    → Settled own p (settle w answer p)
unfolding settle
settle-carrying own w (ok u) p m payload ms d h room =
    let same : length (touch w.now m.anymone p.members) ≡ length p.members =
      length-map _ p.members in
    let led = touch-IsLed own w.now m.anymone p.members h in
    rw d ((ground (arith, d, room, same), room.1, room.2), refl, led)
settle-carrying own w (err e) p m payload ms d h room = elim (Bool-cases (is_too_large e)) [
  | inl large ↦ rw (d, large) ((ground (arith, d, room), room.1, room.2), refl, h)
  | inr other ↦ rw (d, other) ((ground (arith, d, room), room.1, room.2), refl, h)
]

settle-fields :
    (own : ℕ) (w : World) (answer : Result (Unit {0}) SendError) (p : PoolInner)
    → IsLed own p.members
    → HasRoom p
    → Settled own p (settle w answer p)
unfolding settle
settle-fields own w answer p h room = elim (Dispatcher-cases p.dispatcher) [
  | inl d ↦ unchanged (rw d refl)
  | inr (inl (ms, d)) ↦ unchanged (rw d refl)
  | inr (inr (inl (m, payload, ms, d))) ↦ settle-carrying own w answer p m payload ms d h room
  | inr (inr (inr (inl d))) ↦ unchanged (rw d refl)
  | inr (inr (inr (inr d))) ↦ unchanged (rw d refl)
]
  where
    unchanged : settle w answer p ≡ (p, []) → Settled own p (settle w answer p)
    unchanged same = subst (Settled own p) (sym same) (room, refl, h)

settle-IsBounded :
    (own limit : ℕ) (w : World) (answer : Result (Unit {0}) SendError) (p : PoolInner)
    → IsBounded own limit p
    → IsBounded own limit (settle w answer p).0
settle-IsBounded own limit w answer p v =
    let (room, top, led) = settle-fields own w answer p v.3 v.1 in
    with_pending own limit p (settle w answer p).0
      (omega (
        arith,
        ap length (settle_pending w answer p),
        length-append (settle w answer p).1 (pending (settle w answer p).0),
      ))
      room top led v

-- The two steps of `grow` keep the room: the count leaves some, and the flag takes it.
next_member-fields :
    (w : World) (p : PoolInner)
    → HasRoom p
    → ((next_member w p).members ≡ p.members)
      × ((next_member w p).max_clients ≡ p.max_clients)
      × HasRoom (next_member w p)
unfolding next_member grow claim
next_member-fields w p room = elim (Dispatcher-cases p.dispatcher) [
  | inl d ↦ ground (arith, d, room)
  | inr (inl ([], d)) ↦ ground (arith, d, room)
  | inr (inl (m ∷ ms, d)) ↦ elim (list-cases p.queue) [
    | inl empty ↦ ground (arith, d, empty, room)
    | inr (payload, rest, full) ↦ ground (arith, d, full, room)
  ]
  | inr (inr (inl (m, payload, ms, d))) ↦ ground (arith, d, room)
  | inr (inr (inr (inl d))) ↦ ground (arith, d, room)
  | inr (inr (inr (inr d))) ↦ ground (arith, d, room)
]

next_member-IsBounded :
    (own limit : ℕ) (w : World) (p : PoolInner)
    → IsBounded own limit p
    → IsBounded own limit (next_member w p)
next_member-IsBounded own limit w p v =
    let (same, top, room) = next_member-fields w p v.1 in
    with_pending own limit p (next_member w p) (omega (arith, ap length (next_member_pending w p)))
      room top (subst (IsLed own) (sym same) v.3) v

reap-IsLed :
    (own : ℕ) (q : Member → Bool) (ms : List Member)
    → ((m : Member) → m.virtual_client ≡ false → q m ≡ true)
    → IsLed own ms
    → IsLed own (retain q ms)
reap-IsLed own q [] keeps h = h
reap-IsLed own q (m ∷ ms) keeps h = ground (arith, h, keeps m h.1)

reap-IsBounded :
    (own limit : ℕ) (w : World) (p : PoolInner)
    → IsBounded own limit p
    → IsBounded own limit (reap w p)
unfolding reap stays
reap-IsBounded own limit w p v =
    with_pending own limit p (reap w p) (omega arith)
      (omega (arith, length-retain-le (stays w) p.members, v.1.0), v.1.1, v.1.2) refl
      (reap-IsLed own (stays w) p.members (λ m h. ground (arith, h)) v.3) v

begin_dispatch-fields :
    (p : PoolInner)
    → HasRoom p
    → HasRoom (begin_dispatch p)
      × ((begin_dispatch p).members ≡ p.members)
      × ((begin_dispatch p).max_clients ≡ p.max_clients)
unfolding begin_dispatch
begin_dispatch-fields p room = ground (arith, room)

begin_dispatch-IsBounded :
    (own limit : ℕ) (p : PoolInner) → IsBounded own limit p → IsBounded own limit (begin_dispatch p)
begin_dispatch-IsBounded own limit p v =
    let (room, same, top) = begin_dispatch-fields p v.1 in
    with_pending own limit p (begin_dispatch p)
      (omega (arith, ap length (begin_dispatch_pending p))) room top
      (subst (IsLed own) (sym same) v.3) v

append-IsLed : (own : ℕ) (ms : List Member) (m : Member) → IsLed own ms → IsLed own (ms ++ m ∷ [])
append-IsLed own [] m h = absurd h
append-IsLed own (x ∷ ms) m h = h

spawned-IsBounded :
    (own limit : ℕ) (w : World) (client : Option ℕ) (p : PoolInner)
    → IsBounded own limit p
    → IsBounded own limit (spawned w client p)
unfolding spawned
spawned-IsBounded own limit w none p v = ground (arith, v.0, v.1, v.2, v.3)
spawned-IsBounded own limit w (some anymone) p v =
    let added = length-append p.members (new_member w anymone true ∷ []) in
    let led = append-IsLed own p.members (new_member w anymone true) v.3 in
    ground (arith, v.0, v.1, v.2, v.3, added, led)

release-IsBounded :
    (own limit : ℕ) (p : PoolInner) → IsBounded own limit p → IsBounded own limit (release p)
unfolding release
release-IsBounded own limit p v = ground (arith, v.0, v.1, v.2, v.3)

-- No second client of the caller's own is attached.
abbrev IsOther : World × Event → Type 0
IsOther (w, attached anymone) = ⊥
IsOther (w, event) = Unit

step-IsBounded :
    (own limit : ℕ) (w : World) (event : Event) (p : PoolInner)
    → IsOther (w, event)
    → IsBounded own limit p
    → IsBounded own limit (step w event p).pool
step-IsBounded own limit w (attached anymone) p o v = absurd o
step-IsBounded own limit w (sending payload) p o v = send-IsBounded own limit w payload p v
step-IsBounded own limit w ticked p o v = begin_dispatch-IsBounded own limit p v
step-IsBounded own limit w turned p o v = next_member-IsBounded own limit w p v
step-IsBounded own limit w reaped p o v = reap-IsBounded own limit w p v
step-IsBounded own limit w (answered answer) p o v = settle-IsBounded own limit w answer p v
step-IsBounded own limit w (client_spawned client) p o v = spawned-IsBounded own limit w client p v
step-IsBounded own limit w released p o v = release-IsBounded own limit p v

run-IsBounded :
    (own limit : ℕ) (events : List (World × Event)) (p : PoolInner)
    → All IsOther events
    → IsBounded own limit p
    → IsBounded own limit (run events p).pool
run-IsBounded own limit [] p o v = v
run-IsBounded own limit ((w, event) ∷ events) p o v =
    run-IsBounded own limit events (step w event p).pool o.1
      (step-IsBounded own limit w event p o.0 v)

-- From the moment that the caller's client has joined a new pool, whatever happens but a second such
-- join, the pool has at most one client more than it was made for, the one being spawned included,
-- the caller's own client stands first and is never retired, and at most 65 payloads wait.
pub run-new_bounds :
    (max_clients own : ℕ) (w : World) (events : List (World × Event))
    → All IsOther events
    → let p = (run events (attach w own (new max_clients))).pool in
      (clients_of p ≤ max max_clients 1 + 1) × IsLed own p.members × (length (pending p) ≤ 65)
unfolding new start attach new_member
run-new_bounds max_clients own w events others =
    let v =
      run-IsBounded own (max max_clients 1) events (attach w own (new max_clients)) others
        (omega arith, (omega arith, λ h. omega arith, omega arith), refl, (refl, refl)) in
    (omega (arith, v.1.0, v.2), v.3, v.0)
