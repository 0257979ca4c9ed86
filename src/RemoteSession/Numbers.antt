-- ===== src/RemoteSession/Numbers.antt =====
-- Over a run the requests are carried out in the order of their numbers, each once; a request that comes
-- again is answered as before.
use anymone.Base.{
  ℕ, ◌+◌, ◌≡◌, refl, sym, ◌∙◌, ap, subst, Bool, true, false, Option, none, some, List, [], ◌∷◌,
  ◌++◌, inl, inr, Option-cases, length, range_from, arith,
}
use anymone.Base.Equality.{nat_eq}
use anymone.Base.Results.{ok, err}
use anymone.RemoteSession.{Clients, ProtocolAction, Outcome, Answer, RemoteAttestedSession}
use anymone.RemoteSession.Perform.{execute_action, save, perform, repaired_by}
use anymone.RemoteSession.Guards.{finalized_by}
use anymone.RemoteSession.Moves.{
  Moves, perform-Moves, replied, gone, performed, execute_action-cases,
}
use anymone.RemoteSession.Commits.{checked-later}
use anymone.RemoteSession.Requests.{close, admit, repeated, carry_out, expect}
use anymone.RemoteSession.Events.{
  Event, executing, applying, closing, applied, numbered, requested, after_request, after_action,
  step, run, execute-session, apply-session,
}

module _ {P S A B : Type 0} where
  -- What an action leaves alone.
  abbrev Keeps : RemoteAttestedSession P S A B → RemoteAttestedSession P S A B → Type 0
  Keeps s t =
      (t.status.closed ≡ s.status.closed)
      × (t.status.next_request ≡ s.status.next_request)
      × (t.last_reply ≡ s.last_reply)

module _ {P S A B : Type 0} (c : Clients P S A B) where
  save-Keeps :
      (s : RemoteAttestedSession P S A B) (final repair : Option ℕ) (input : ℕ)
      (t : RemoteAttestedSession P S A B) (answer : Answer)
      → Keeps s t
      → Keeps s (save c final repair input (t, answer)).0
  save-Keeps s final repair input t (err e) k = k
  save-Keeps s final repair input t (ok []) k = k
  save-Keeps s none none input t (ok (m ∷ ms)) k = k
  save-Keeps s none (some r) input t (ok (m ∷ ms)) k = k
  save-Keeps s (some f) none input t (ok (m ∷ ms)) k = k
  save-Keeps s (some f) (some r) input t (ok (m ∷ ms)) k = k

  Moves-Keeps :
      (s t : RemoteAttestedSession P S A B) (action : ProtocolAction) → Moves s action t → Keeps s t
  Moves-Keeps s t action m = subst (Keeps s) (sym m.same) (refl, refl, refl)

  pub execute_action-Keeps :
      (s : RemoteAttestedSession P S A B) (action : ProtocolAction) (input : ℕ)
      → Keeps s (execute_action c s action input).0
  execute_action-Keeps s action input = elim (execute_action-cases c s action input) [
    | replied answer early same ↦ subst (λ done. Keeps s done.0) (sym same) (refl, refl, refl)
    | gone same ↦ subst (λ done. Keeps s done.0) (sym same) (refl, refl, refl)
    | performed client live passed same ↦
        subst (λ done. Keeps s done.0) (sym same)
          (save-Keeps s (finalized_by s action) (repaired_by c action) input
            (perform c s client action).0 (perform c s client action).1
            (Moves-Keeps s _ action
              (perform-Moves c s client action live (checked-later c s action input passed).0)))
  ]

  -- A step carries out no request, or the one that is next.
  abbrev Counts : RemoteAttestedSession P S A B → List ℕ → RemoteAttestedSession P S A B → Type 0
  Counts s [] t = t.status.next_request ≡ s.status.next_request
  Counts s (n ∷ []) t =
      (n ≡ s.status.next_request) × (t.status.next_request ≡ s.status.next_request + 1)
  Counts s (n ∷ m ∷ out) t = ⊥

  admit-next :
      (s : RemoteAttestedSession P S A B) (sequence input : ℕ)
      → admit c s sequence input ≡ none
      → sequence ≡ s.status.next_request
  unfolding admit
  admit-next s sequence input h = elim (Option-cases (repeated c s sequence input)) [
    | inl fresh ↦ ground (arith, h, fresh)
    | inr (answer, old) ↦ absurd (ground (arith, h, old))
  ]

  numbered-Counts :
      (s : RemoteAttestedSession P S A B) (sequence : ℕ) (action : ProtocolAction) (input : ℕ)
      (early : Option Answer)
      → (early ≡ none → sequence ≡ s.status.next_request)
      → let now = numbered c s sequence action input early in Counts s now.numbers now.session
  unfolding carry_out expect
  numbered-Counts s sequence action input (some answer) next = refl
  numbered-Counts s sequence action input none next = (
    next refl,
    (execute_action-Keeps (expect c s (sequence + 1)) action input).1
        ∙ ap (λ (n : ℕ). n + 1) (next refl),
  )

  after_request-Counts :
      (s : RemoteAttestedSession P S A B) (sequence : ℕ) (action : ProtocolAction) (shut : Bool)
      → let now = after_request c s sequence action shut in Counts s now.numbers now.session
  after_request-Counts s sequence action true = refl
  after_request-Counts s sequence action false = digested (c.action_digest action)
    where
      digested :
          (digest : Outcome ℕ)
          → let now = requested c s sequence action digest in Counts s now.numbers now.session
      digested (err text) = refl
      digested (ok input) =
          numbered-Counts s sequence action input (admit c s sequence input)
            (admit-next s sequence input)

  after_action-Counts :
      (s : RemoteAttestedSession P S A B) (action : ProtocolAction) (shut : Bool)
      → (after_action c s action shut).session.status.next_request ≡ s.status.next_request
  after_action-Counts s action true = refl
  after_action-Counts s action false = digested (c.action_digest action)
    where
      digested :
          (digest : Outcome ℕ)
          → (applied c s action digest).session.status.next_request ≡ s.status.next_request
      digested (err text) = refl
      digested (ok input) = (execute_action-Keeps s action input).1

  step-Counts :
      (s : RemoteAttestedSession P S A B) (event : Event)
      → Counts s (step c s event).numbers (step c s event).session
  unfolding close
  step-Counts s (executing sequence action) =
      subst (Counts s (after_request c s sequence action s.status.closed).numbers)
        (sym (execute-session c s sequence action))
        (after_request-Counts s sequence action s.status.closed)
  step-Counts s (applying action) =
      subst (Counts s []) (sym (apply-session c s action))
        (after_action-Counts s action s.status.closed)
  step-Counts s closing = refl

  counted :
      (s t : RemoteAttestedSession P S A B) (out later : List ℕ) (next : ℕ)
      → Counts s out t
      → (later ≡ range_from t.status.next_request (length later))
        × (next ≡ t.status.next_request + length later)
      → ((out ++ later) ≡ range_from s.status.next_request (length (out ++ later)))
        × (next ≡ s.status.next_request + length (out ++ later))
  counted s t [] later next k h =
      (h.0 ∙ ap (λ (n : ℕ). range_from n (length later)) k, omega (arith, k, h.1))
  counted s t (n ∷ []) later next k h = (
    ap (◌∷◌ n) (h.0 ∙ ap (λ (n : ℕ). range_from n (length later)) k.1)
        ∙ ap (λ (m : ℕ). m ∷ range_from (s.status.next_request + 1) (length later)) k.0,
    omega (arith, k.1, h.1),
  )
  counted s t (n ∷ m ∷ out) later next k h = absurd k

  -- Over any run the requests that are carried out have the numbers from the one that was next, in order
  -- and each once, and the number after them is next.
  pub run_numbers :
      (events : List Event) (s : RemoteAttestedSession P S A B)
      → let done = run c events s in
        (done.numbers ≡ range_from s.status.next_request (length done.numbers))
        × (done.session.status.next_request ≡ s.status.next_request + length done.numbers)
  run_numbers [] s = (refl, omega arith)
  run_numbers (event ∷ events) s =
      let now = step c s event in
      counted s now.session now.numbers (run c events now.session).numbers
        (run c events now.session).session.status.next_request (step-Counts s event)
        (run_numbers events now.session)
