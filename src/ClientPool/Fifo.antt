-- ===== src/ClientPool/Fifo.antt =====
-- The pool refines a queue: what is accepted leaves it in order, once.
use anymone.Base.{
  ℕ, ◌<◌, ◌≡◌, refl, sym, subst, ap, ◌∙◌, Option, List, [], ◌∷◌, ◌++◌, length, inl, inr, ◌⊎◌, leb,
  Bool-cases, arith,
}
use mathlib.Core.List.{append_assoc, append-nil}
use anymone.Base.Results.{Result, ok, err}
use anymone.ClientPool.{
  SendError, PoolError, not_attached, send_error, saturated, World, Member, Dispatcher, idle,
  walking, growing, claiming, carrying, PoolInner, new, start, attach, send, grow, claim, spawned,
  release, begin_dispatch, next_member, settle, reap,
}
use anymone.ClientPool.Events.{
  Event, attached, sending, ticked, turned, reaped, answered, client_spawned, released, Effect,
  taken, step, run,
}

-- The abstract queue: the payload on its way to a client, then those that wait.
abbrev pub ahead_of : Dispatcher → List (List ℕ) → List (List ℕ)
ahead_of idle queue = queue
ahead_of (walking ms) queue = queue
ahead_of growing queue = queue
ahead_of claiming queue = queue
ahead_of (carrying m payload ms) queue = payload ∷ queue

abbrev pub pending : PoolInner → List (List ℕ)
pending p = ahead_of p.dispatcher p.queue

pub Dispatcher-cases :
    (d : Dispatcher)
    → (d ≡ idle)
      ⊎ (((ms : List Member) × (d ≡ walking ms))
          ⊎ (((m : Member) × (payload : List ℕ) × (ms : List Member) × (d ≡ carrying m payload ms))
              ⊎ ((d ≡ growing) ⊎ (d ≡ claiming))))
Dispatcher-cases idle = inl refl
Dispatcher-cases (walking ms) = inr (inl (ms, refl))
Dispatcher-cases (carrying m payload ms) = inr (inr (inl (m, payload, ms, refl)))
Dispatcher-cases growing = inr (inr (inr (inl refl)))
Dispatcher-cases claiming = inr (inr (inr (inr refl)))

Result-cases {ℓ} : {E : Type ℓ} (r : Result (Unit {0}) E) → (r ≡ ok tt) ⊎ ((e : E) × (r ≡ err e))
Result-cases (ok u) = inl refl
Result-cases (err e) = inr (e, refl)

pub list-cases {ℓ} :
    {A : Type ℓ} (xs : List A) → (xs ≡ []) ⊎ ((x : A) × (rest : List A) × (xs ≡ x ∷ rest))
list-cases [] = inl refl
list-cases (x ∷ rest) = inr (x, rest, refl)

pub begin_dispatch_pending : (p : PoolInner) → pending (begin_dispatch p) ≡ pending p
unfolding begin_dispatch
begin_dispatch_pending p = elim (Dispatcher-cases p.dispatcher) [
  | inl h ↦ rw h (refl)
  | inr (inl (ms, h)) ↦ rw h (refl)
  | inr (inr (inl (m, payload, ms, h))) ↦ rw h (refl)
  | inr (inr (inr (inl h))) ↦ rw h (refl)
  | inr (inr (inr (inr h))) ↦ rw h (refl)
]

pub next_member_pending : (w : World) (p : PoolInner) → pending (next_member w p) ≡ pending p
unfolding next_member grow claim
next_member_pending w p = elim (Dispatcher-cases p.dispatcher) [
  | inl h ↦ ground (arith, h)
  | inr (inl ([], h)) ↦ ground (arith, h)
  | inr (inl (m ∷ ms, h)) ↦ elim (list-cases p.queue) [
    | inl empty ↦ ground (arith, h, empty)
    | inr (payload, rest, full) ↦ ground (arith, h, full)
  ]
  | inr (inr (inl (m, payload, ms, h))) ↦ ground (arith, h)
  | inr (inr (inr (inl h))) ↦ ground (arith, h)
  | inr (inr (inr (inr h))) ↦ ground (arith, h)
]

pub settle_pending :
    (w : World) (answer : Result (Unit {0}) SendError) (p : PoolInner)
    → pending p ≡ (settle w answer p).1 ++ pending (settle w answer p).0
unfolding settle
settle_pending w answer p = elim (Dispatcher-cases p.dispatcher) [
  | inl h ↦ ground (arith, h)
  | inr (inl (ms, h)) ↦ ground (arith, h)
  | inr (inr (inl (m, payload, ms, h))) ↦ ground (arith, h)
  | inr (inr (inr (inl h))) ↦ ground (arith, h)
  | inr (inr (inr (inr h))) ↦ ground (arith, h)
]

abbrev pub queued : List ℕ → PoolInner → PoolInner
queued payload p = record p { queue = p.queue ++ payload ∷ [] }

-- A call of `send` refuses and changes nothing, or finds a member and room and queues.
pub send-cases :
    (w : World) (payload : List ℕ) (p : PoolInner)
    → ((e : PoolError) × (send w payload p ≡ (p, err e)))
      ⊎ ((send w payload p ≡ (queued payload p, ok tt))
          × (length p.queue < 64)
          × (0 < length p.members))
unfolding send
send-cases w payload p = elim (list-cases p.members) [
  | inl h ↦ inl (not_attached, ground (arith, h))
  | inr (m, ms, h) ↦ elim (Result-cases (w.check_size m.anymone (length payload))) [
    | inr (e, k) ↦ inl (send_error e, ground (arith, h, k))
    | inl k ↦ elim (Bool-cases (leb 64 (length p.queue))) [
      | inl full ↦ inl (saturated (length p.queue), ground (arith, h, k, full))
      | inr room ↦ inr (ground (arith, h, k, room), ground (arith, room), ground (arith, h))
    ]
  ]
]

ahead_of-append :
    (d : Dispatcher) (queue : List (List ℕ)) (x : List ℕ)
    → ahead_of d queue ++ x ∷ [] ≡ ahead_of d (queue ++ x ∷ [])
ahead_of-append idle queue x = refl
ahead_of-append (walking ms) queue x = refl
ahead_of-append growing queue x = refl
ahead_of-append claiming queue x = refl
ahead_of-append (carrying m payload ms) queue x = refl

abbrev Queues : List ℕ → PoolInner → PoolInner × Result (Unit {0}) PoolError → Type 0
Queues payload p done = pending p ++ taken payload done.1 ≡ pending done.0

send_pending :
    (w : World) (payload : List ℕ) (p : PoolInner)
    → pending p ++ (step w (sending payload) p).accepted ≡ pending (step w (sending payload) p).pool
send_pending w payload p = elim (send-cases w payload p) [
  | inl (e, h) ↦ subst (Queues payload p) (sym h) (append-nil (pending p))
  | inr (h, room, some_member) ↦
      subst (Queues payload p) (sym h) (ahead_of-append p.dispatcher p.queue payload)
]

pub spawned_pending :
    (w : World) (client : Option ℕ) (p : PoolInner) → pending (spawned w client p) ≡ pending p
unfolding spawned
spawned_pending w client p = ground arith

pub release_pending : (p : PoolInner) → pending (release p) ≡ pending p
unfolding release
release_pending p = ground arith

step_pending :
    (w : World) (event : Event) (p : PoolInner)
    → pending p ++ (step w event p).accepted
      ≡ (step w event p).handled ++ pending (step w event p).pool
unfolding attach reap
step_pending w (attached anymone) p = append-nil (pending p)
step_pending w (sending payload) p = send_pending w payload p
step_pending w ticked p = append-nil (pending p) ∙ sym (begin_dispatch_pending p)
step_pending w turned p = append-nil (pending p) ∙ sym (next_member_pending w p)
step_pending w reaped p = append-nil (pending p)
step_pending w (answered answer) p = append-nil (pending p) ∙ settle_pending w answer p
step_pending w (client_spawned client) p = append-nil (pending p) ∙ sym (spawned_pending w client p)
step_pending w released p = append-nil (pending p) ∙ sym (release_pending p)

run_pending :
    (events : List (World × Event)) (p : PoolInner)
    → pending p ++ (run events p).accepted ≡ (run events p).handled ++ pending (run events p).pool
run_pending [] p = append-nil (pending p)
run_pending ((w, event) ∷ events) p =
    let now = step w event p in
    let later : Effect = run events now.pool in
    sym (append_assoc (pending p) now.accepted later.accepted)
    ∙ (ap (λ xs. xs ++ later.accepted) (step_pending w event p)
        ∙ (append_assoc now.handled (pending now.pool) later.accepted
            ∙ (ap (λ xs. now.handled ++ xs) (run_pending events now.pool)
                ∙ sym (append_assoc now.handled later.handled (pending later.pool)))))

-- A new pool is a queue: after any sequence of sends, ticks, answers, spawned clients and reapings,
-- the payloads that were accepted are, in their order, those that were sent or dropped as too
-- large, then the one on its way to a client, then those that wait. None is lost, doubled or
-- overtaken by another.
pub run-new_fifo :
    (max_clients : ℕ) (events : List (World × Event))
    → (run events (new max_clients)).accepted
      ≡ (run events (new max_clients)).handled ++ pending (run events (new max_clients)).pool
unfolding new start
run-new_fifo max_clients events = run_pending events (new max_clients)
