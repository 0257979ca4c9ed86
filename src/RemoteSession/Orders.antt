-- ===== src/RemoteSession/Orders.antt =====
-- The rounds of a session are in order: the repaired round, the finalized one, the current one.
use anymone.Base.{
  ℕ, ◌+◌, ◌≤◌, ◌<◌, ◌≡◌, refl, sym, ap, subst, Bool, true, false, Option, none, some, List, [], ◌∷◌,
  inl, inr, Bool-cases, Option-cases, map_or, ltb, arith,
}
use anymone.Base.Equality.{nat_eq, ◌==◌}
use anymone.Base.Results.{ok, err}
use anymone.RemoteSession.{
  Clients, Client, ProtocolAction, PanetiereAction, ScheduledPanetiereAction, FinalizedRound,
  Outcome, Answer, RemoteAttestedSession,
}
use anymone.RemoteSession.Guards.{
  u32_max, check, check_action, check_panetiere, check_scheduled, check_repair, check_finalized,
  finalized_by,
}
use anymone.RemoteSession.Perform.{execute_action, perform, repaired_by, save}
use anymone.RemoteSession.Requests.{close, admit, carry_out, expect}
use anymone.RemoteSession.Moves.{
  moved, check_round-le, perform-Moves, replied, gone, performed, execute_action-cases,
}
use anymone.RemoteSession.Commits.{checked-later}
use anymone.RemoteSession.Events.{
  Event, executing, applying, closing, applied, numbered, requested, after_request, after_action,
  step, run, execute-session, apply-session,
}

module _ {P S A B : Type 0} where
  pub record IsOrdered (s : RemoteAttestedSession P S A B) : Type 0 where
    pub below : s.status.current_round < u32_max
    pub reached : (f : FinalizedRound) → s.finalized ≡ some f → f.round ≤ s.status.current_round
    pub repaired :
        (r : ℕ × List (List ℕ))
        → s.repair ≡ some r
        → (f : FinalizedRound) × (s.finalized ≡ some f) × (r.0 ≤ f.round)

  -- The session is in order still, and its round has not gone back.
  abbrev pub Advances : RemoteAttestedSession P S A B → RemoteAttestedSession P S A B → Type 0
  Advances s t = IsOrdered t × (s.status.current_round ≤ t.status.current_round)

  moved-IsOrdered :
      (s : RemoteAttestedSession P S A B) (client : Option (Client P S A B)) (round : ℕ)
      → IsOrdered s
      → s.status.current_round ≤ round
      → round < u32_max
      → Advances s (moved s client round)
  moved-IsOrdered s client round v forward below = (
    record {
      below = below;
      reached = λ f e. let h = v.reached f e in omega arith;
      repaired = v.repaired;
    },
    forward,
  )

module _ {P S A B : Type 0} (c : Clients P S A B) (s : RemoteAttestedSession P S A B) where
  check_finalized-le :
      (input round : ℕ)
      → check_finalized s input (some round) ≡ none
      → (s.status.current_round ≤ round) × (round < u32_max)
  unfolding check_finalized
  check_finalized-le input round h = elim (Option-cases s.finalized) [
    | inl first ↦ check_round-le s round (ground (arith, h, first))
    | inr (f, e) ↦ elim (Bool-cases (ltb round f.round)) [
      | inl old ↦ absurd (ground (arith, h, e, old))
      | inr up ↦ elim (Bool-cases (round == f.round)) [
        | inl same ↦ absurd (ground (arith, h, e, up, same))
        | inr other ↦ check_round-le s round (ground (arith, h, e, up, other))
      ]
    ]
  ]

  checked-le :
      (action : ProtocolAction) (input round : ℕ)
      → check c s action input ≡ none
      → finalized_by s action ≡ some round
      → (s.status.current_round ≤ round) × (round < u32_max)
  unfolding check
  checked-le action input round h f = elim (Option-cases (check_finalized s input (some round))) [
    | inl passed ↦ check_finalized-le input round passed
    | inr (answer, early) ↦ absurd (ground (arith, h, f, early))
  ]

  abbrev Repairable : ℕ → Type 0
  Repairable round = (f : FinalizedRound) × (s.finalized ≡ some f) × (round ≤ f.round)

  check_repair-Repairable : (round : ℕ) → check_repair s round ≡ none → Repairable round
  unfolding check_repair
  check_repair-Repairable round h = elim (Option-cases s.finalized) [
    | inl first ↦ absurd (ground (arith, h, first))
    | inr (f, e) ↦ (f, e, ground (arith, h, e))
  ]

  check_action-Repairable :
      (action : ProtocolAction) (round : ℕ)
      → check_action c s action ≡ none
      → repaired_by c action ≡ some round
      → Repairable round × (finalized_by s action ≡ none)
  unfolding check_action check_panetiere check_scheduled finalized_by
  check_action-Repairable (ProtocolAction.panetiere (PanetiereAction.build_repair r)) round h e =
      (check_repair-Repairable round (ground (arith, h, e)), refl)
  check_action-Repairable
        (ProtocolAction.scheduled_panetiere (ScheduledPanetiereAction.build_repair r)) round h e =
      (check_repair-Repairable round (ground (arith, h, e)), refl)
  check_action-Repairable action round h e = absurd (cc)

  -- What is kept of the messages of an action leaves the rounds in order.
  save-Advances :
      (final repair : Option ℕ) (input : ℕ) (client : Option (Client P S A B)) (at : ℕ)
      (answer : Answer)
      → IsOrdered s
      → s.status.current_round ≤ at
      → at < u32_max
      → ((round : ℕ) → final ≡ some round → (at ≤ round) × (round < u32_max))
      → ((round : ℕ) → repair ≡ some round → Repairable round × (final ≡ none))
      → Advances s (save c final repair input (moved s client at, answer)).0
  save-Advances final repair input client at (err e) v f b l r = moved-IsOrdered s client at v f b
  save-Advances final repair input client at (ok []) v f b l r = moved-IsOrdered s client at v f b
  save-Advances none none input client at (ok (m ∷ ms)) v f b l r =
      moved-IsOrdered s client at v f b
  save-Advances none (some round) input client at (ok (m ∷ ms)) v f b l r = (
    record {
      below = b;
      reached = λ g e. let h = v.reached g e in omega arith;
      repaired = λ x e.
          let found = (r round refl).0 in
          (found.0, found.1, subst (λ (n : ℕ). n ≤ found.0.round) (cc) found.2);
    },
    f,
  )
  save-Advances (some round) none input client at (ok (m ∷ ms)) v f b l r =
      let order = l round refl in
      (
        record {
          below = order.1;
          reached = λ g e.
              let same : round ≡ g.round = ap (map_or 0 (λ (x : FinalizedRound). x.round)) e in
              omega arith;
          repaired = λ x e.
              let old = v.repaired x e in
              let h = v.reached old.0 old.1 in let low = old.2 in (_, refl, omega arith);
        },
        omega arith,
      )
  save-Advances (some round) (some other) input client at (ok (m ∷ ms)) v f b l r =
      absurd (let h = (r other refl).1 in cc)

  performed-Advances :
      (client : Client P S A B) (action : ProtocolAction) (input : ℕ)
      → s.client ≡ some client
      → check c s action input ≡ none
      → IsOrdered s
      → Advances s
          (save c
            (finalized_by s action)
            (repaired_by c action)
            input
            (perform c s client action)).0
  performed-Advances client action input live h v =
      let passed = checked-later c s action input h in
      let move = perform-Moves c s client action live passed.0 in
      let done = perform c s client action in
      subst
        (λ (t : RemoteAttestedSession P S A B).
          Advances s (save c (finalized_by s action) (repaired_by c action) input (t, done.1)).0)
        (sym move.same)
        (save-Advances (finalized_by s action) (repaired_by c action) input move.client move.round
          done.1 v move.forward (move.below v.below)
          (λ round f.
            let order = checked-le action input round h f in
            let still = move.stays round f in (omega arith, order.1))
          (λ round e. check_action-Repairable action round passed.0 e))

  execute_action-Advances :
      (action : ProtocolAction) (input : ℕ)
      → IsOrdered s
      → Advances s (execute_action c s action input).0
  execute_action-Advances action input v = elim (execute_action-cases c s action input) [
    | replied answer early same ↦ subst (λ done. Advances s done.0) (sym same) (v, omega arith)
    | gone same ↦ subst (λ done. Advances s done.0) (sym same) (v, omega arith)
    | performed client live passed same ↦
        subst (λ done. Advances s done.0) (sym same)
          (performed-Advances client action input live passed v)
  ]

module _ {P S A B : Type 0} (c : Clients P S A B) where
  applied-Advances :
      (s : RemoteAttestedSession P S A B) (action : ProtocolAction) (digest : Outcome ℕ)
      → IsOrdered s
      → Advances s (applied c s action digest).session
  applied-Advances s action (err text) v = (v, omega arith)
  applied-Advances s action (ok input) v = execute_action-Advances c s action input v

  after_action-Advances :
      (s : RemoteAttestedSession P S A B) (action : ProtocolAction) (shut : Bool)
      → IsOrdered s
      → Advances s (after_action c s action shut).session
  after_action-Advances s action true v = (v, omega arith)
  after_action-Advances s action false v = applied-Advances s action (c.action_digest action) v

  -- The number and the reply of a request are no part of the order.
  renumber :
      (s : RemoteAttestedSession P S A B) (next : ℕ) → IsOrdered s → IsOrdered (expect c s next)
  unfolding expect
  renumber s next v = record { below = v.below; reached = v.reached; repaired = v.repaired }

  carry_out-Advances :
      (s : RemoteAttestedSession P S A B) (sequence : ℕ) (action : ProtocolAction) (input : ℕ)
      → IsOrdered s
      → Advances s (carry_out c s sequence action input).0
  unfolding carry_out expect
  carry_out-Advances s sequence action input v =
      let h =
        execute_action-Advances c (expect c s (sequence + 1)) action input
          (renumber s (sequence + 1) v) in
      (record { below = h.0.below; reached = h.0.reached; repaired = h.0.repaired }, h.1)

  numbered-Advances :
      (s : RemoteAttestedSession P S A B) (sequence : ℕ) (action : ProtocolAction) (input : ℕ)
      (early : Option Answer)
      → IsOrdered s
      → Advances s (numbered c s sequence action input early).session
  numbered-Advances s sequence action input (some answer) v = (v, omega arith)
  numbered-Advances s sequence action input none v = carry_out-Advances s sequence action input v

  requested-Advances :
      (s : RemoteAttestedSession P S A B) (sequence : ℕ) (action : ProtocolAction)
      (digest : Outcome ℕ)
      → IsOrdered s
      → Advances s (requested c s sequence action digest).session
  requested-Advances s sequence action (err text) v = (v, omega arith)
  requested-Advances s sequence action (ok input) v =
      numbered-Advances s sequence action input (admit c s sequence input) v

  after_request-Advances :
      (s : RemoteAttestedSession P S A B) (sequence : ℕ) (action : ProtocolAction) (shut : Bool)
      → IsOrdered s
      → Advances s (after_request c s sequence action shut).session
  after_request-Advances s sequence action true v = (v, omega arith)
  after_request-Advances s sequence action false v =
      requested-Advances s sequence action (c.action_digest action) v

  close-Advances : (s : RemoteAttestedSession P S A B) → IsOrdered s → Advances s (close s)
  unfolding close
  close-Advances s v = (
    record { below = v.below; reached = λ f e. absurd (cc); repaired = λ r e. absurd (cc) },
    omega arith,
  )

  step-Advances :
      (s : RemoteAttestedSession P S A B) (event : Event)
      → IsOrdered s
      → Advances s (step c s event).session
  step-Advances s (executing sequence action) v =
      subst (Advances s) (sym (execute-session c s sequence action))
        (after_request-Advances s sequence action s.status.closed v)
  step-Advances s (applying action) v =
      subst (Advances s) (sym (apply-session c s action))
        (after_action-Advances s action s.status.closed v)
  step-Advances s closing v = close-Advances s v

  pub run-Advances :
      (events : List Event) (s : RemoteAttestedSession P S A B)
      → IsOrdered s
      → Advances s (run c events s).session
  run-Advances [] s v = (v, omega arith)
  run-Advances (event ∷ events) s v =
      let now = step-Advances s event v in
      let later = run-Advances events (step c s event).session now.0 in (later.0, omega arith)
