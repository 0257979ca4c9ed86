-- ===== src/RemoteSession/Retries.antt =====
-- A request that comes again, and a session that has ended.
use anymone.Base.{
  ℕ, ◌≡◌, ◌≢◌, refl, sym, ◌∙◌, ap, subst, Bool, true, false, Option, none, some, List, [], ◌∷◌,
  ◌++◌, ◌⊎◌, inl, inr, Bool-cases, Option-cases, arith,
}
use anymone.Base.Equality.{nat_eq}
use anymone.Base.Results.{ok, err, Result-cases}
use anymone.RemoteSession.{
  Clients, ProtocolAction, request_conflict, Outcome, Answer, RemoteAttestedSession,
}
use anymone.RemoteSession.Requests.{close, admit, repeated, carry_out, execute}
use anymone.RemoteSession.Events.{
  Event, executing, applying, closing, Effect, applied, numbered, requested, after_request,
  after_action, step, run, execute-session, apply-session,
}
use anymone.RemoteSession.Rounds.{closed_step}
use anymone.RemoteSession.Numbers.{execute_action-Keeps}

module _ {P S A B : Type 0} (c : Clients P S A B) where
  abbrev Recalls : RemoteAttestedSession P S A B → RemoteAttestedSession P S A B → Type 0
  Recalls s t = (t.status.closed ≡ true) ⊎ (t.last_reply ≡ s.last_reply)

  -- A step that carries out no request leaves the last reply, or closes the session.
  step-Recalls :
      (s : RemoteAttestedSession P S A B) (event : Event)
      → (step c s event).numbers ≡ []
      → Recalls s (step c s event).session
  unfolding close
  step-Recalls s (executing sequence action) h =
      subst (Recalls s) (sym (execute-session c s sequence action)) (request s.status.closed h)
    where
      digested :
          (digest : Outcome ℕ)
          → (requested c s sequence action digest).numbers ≡ []
          → Recalls s (requested c s sequence action digest).session
      digested (err text) h = inr refl
      digested (ok input) h = admitted (admit c s sequence input) h
        where
          admitted :
              (early : Option Answer)
              → (numbered c s sequence action input early).numbers ≡ []
              → Recalls s (numbered c s sequence action input early).session
          admitted none h = absurd (cc)
          admitted (some answer) h = inr refl

      request :
          (shut : Bool)
          → (after_request c s sequence action shut).numbers ≡ []
          → Recalls s (after_request c s sequence action shut).session
      request true h = inr refl
      request false h = digested (c.action_digest action) h
  step-Recalls s (applying action) h =
      subst (Recalls s) (sym (apply-session c s action)) (acted s.status.closed)
    where
      digested : (digest : Outcome ℕ) → Recalls s (applied c s action digest).session
      digested (err text) = inr refl
      digested (ok input) = inr (execute_action-Keeps c s action input).2

      acted : (shut : Bool) → Recalls s (after_action c s action shut).session
      acted true = inr refl
      acted false = digested (c.action_digest action)
  step-Recalls s closing h = inl refl

  run_closed :
      (events : List Event) (s : RemoteAttestedSession P S A B)
      → s.status.closed ≡ true
      → (run c events s).session.status.closed ≡ true
  run_closed [] s shut = shut
  run_closed (event ∷ events) s shut =
      run_closed events (step c s event).session (closed_step c s event shut).0

  nil-append : (xs ys : List ℕ) → (xs ++ ys) ≡ [] → (xs ≡ []) × (ys ≡ [])
  nil-append [] ys h = (refl, h)
  nil-append (x ∷ xs) ys h = absurd (cc)

  run-Recalls :
      (events : List Event) (s : RemoteAttestedSession P S A B)
      → (run c events s).numbers ≡ []
      → Recalls s (run c events s).session
  run-Recalls [] s h = inr refl
  run-Recalls (event ∷ events) s h =
      let now = step c s event in
      let later : Effect P S A B = run c events now.session in
      let none_carried = nil-append now.numbers later.numbers h in
      elim (step-Recalls s event none_carried.0) [
        | inl shut ↦ inl (run_closed events now.session shut)
        | inr same ↦ elim (run-Recalls events now.session none_carried.1) [
          | inl shut ↦ inl shut
          | inr kept ↦ inr (kept ∙ same)
        ]
      ]

  abbrev Remembers :
      RemoteAttestedSession P S A B
      → (sequence input : ℕ) → RemoteAttestedSession P S A B × Answer
      → Type 0
  Remembers s sequence input done =
      done.0.last_reply ≡ some (record { sequence = sequence; input = input; result = done.1 })

  carry_out-Remembers :
      (s : RemoteAttestedSession P S A B) (sequence : ℕ) (action : ProtocolAction) (input : ℕ)
      → Remembers s sequence input (carry_out c s sequence action input)
  unfolding carry_out
  carry_out-Remembers s sequence action input = refl

  execute-carry_out :
      (s : RemoteAttestedSession P S A B) (sequence : ℕ) (action : ProtocolAction) (input : ℕ)
      → s.status.closed ≡ false
      → c.action_digest action ≡ ok input
      → admit c s sequence input ≡ none
      → execute c s sequence action ≡ carry_out c s sequence action input
  unfolding execute
  execute-carry_out s sequence action input live e fresh = ground (arith, live, e, fresh)

  carried :
      (s : RemoteAttestedSession P S A B) (sequence : ℕ) (action : ProtocolAction)
      → (step c s (executing sequence action)).numbers ≡ sequence ∷ []
      → (input : ℕ) × (c.action_digest action ≡ ok input)
        × Remembers s sequence input (execute c s sequence action)
  unfolding execute
  carried s sequence action h = elim (Bool-cases s.status.closed) [
    | inl shut ↦ absurd (ground (arith, h, shut))
    | inr live ↦ elim (Result-cases (c.action_digest action)) [
      | inr (text, e) ↦ absurd (ground (arith, h, live, e))
      | inl (input, e) ↦ elim (Option-cases (admit c s sequence input)) [
        | inr (answer, early) ↦ absurd (ground (arith, h, live, e, early))
        | inl fresh ↦ (
          input,
          e,
          subst (Remembers s sequence input)
              (sym (execute-carry_out s sequence action input live e fresh))
              (carry_out-Remembers s sequence action input),
        )
      ]
    ]
  ]

  execute-answered :
      (t : RemoteAttestedSession P S A B) (sequence : ℕ) (action : ProtocolAction) (input : ℕ)
      (answer : Answer)
      → t.status.closed ≡ false
      → c.action_digest action ≡ ok input
      → repeated c t sequence input ≡ some answer
      → execute c t sequence action ≡ (t, answer)
  unfolding execute admit
  execute-answered t sequence action input answer live e old = ground (arith, live, e, old)

  repeated-same :
      (t : RemoteAttestedSession P S A B) (sequence input : ℕ) (answer : Answer)
      → t.last_reply ≡ some (record { sequence = sequence; input = input; result = answer })
      → repeated c t sequence input ≡ some answer
  unfolding repeated
  repeated-same t sequence input answer h = ground (arith, h)

  repeated-other :
      (t : RemoteAttestedSession P S A B) (sequence input other : ℕ) (answer : Answer)
      → t.last_reply ≡ some (record { sequence = sequence; input = input; result = answer })
      → other ≢ input
      → repeated c t sequence other ≡ some (err request_conflict)
  unfolding repeated
  repeated-other t sequence input other answer h differs = ground (arith, h, differs)

  -- Once a request was carried out, and while no other is and the session is open, the request is
  -- answered with what it was answered, and another action under its number with `request_conflict`;
  -- neither changes the session.
  pub run_retries :
      (s : RemoteAttestedSession P S A B) (sequence : ℕ) (action other : ProtocolAction)
      (events : List Event)
      → (step c s (executing sequence action)).numbers ≡ sequence ∷ []
      → (run c events (step c s (executing sequence action)).session).numbers ≡ []
      → (run c events (step c s (executing sequence action)).session).session.status.closed ≡ false
      → let t = (run c events (execute c s sequence action).0).session in
        (execute c t sequence action ≡ (t, (execute c s sequence action).1))
        × ((input : ℕ)
            → c.action_digest other ≡ ok input
            → c.action_digest action ≢ ok input
            → execute c t sequence other ≡ (t, err request_conflict))
  run_retries s sequence action other events fresh none_carried live =
      let (input, e, remembers) = carried s sequence action fresh in
      let done = execute c s sequence action in
      let t = (run c events done.0).session in
      let kept : t.last_reply ≡ done.0.last_reply = elim (run-Recalls events done.0 none_carried) [
        | inl shut ↦ absurd (cc)
        | inr same ↦ same
      ] in
      let recalled = kept ∙ remembers in
      (
        execute-answered t sequence action input done.1 live e
            (repeated-same t sequence input done.1 recalled),
        λ j k differs. execute-answered t sequence other j _ live k (
            repeated-other t sequence input j done.1 recalled
              (λ same. differs (e ∙ ap ok (sym same)))),
      )
