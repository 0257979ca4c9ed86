-- ===== src/RemoteSession/Rounds.antt =====
-- Over a run a session commits the messages of a round once.
use anymone.Base.{
  ℕ, ◌+◌, ◌<◌, ◌≡◌, refl, sym, ◌∙◌, subst, Bool, true, false, Option, none, some, List, [], ◌∷◌,
  ◌++◌, ◌⊎◌, inl, inr, All, AllPairs, All-imp, arith,
}
use anymone.Base.Results.{ok, err}
use anymone.RemoteSession.{
  Clients, ProtocolAction, FinalizedRound, Outcome, Answer, RemoteAttestedSession,
}
use anymone.RemoteSession.Requests.{close, apply, admit, carry_out, execute, expect}
use anymone.RemoteSession.Commits.{Follows, Commits, execute_action-Commits}
use anymone.RemoteSession.Events.{
  Event, executing, applying, closing, Effect, applied, numbered, requested, after_request,
  after_action, step, run, execute-session, apply-session, execute-finals, apply-finals,
}

module _ {P S A B : Type 0} where
  -- The session has `old` as its finalized round, or is closed.
  abbrev pub Holds : Option FinalizedRound → RemoteAttestedSession P S A B → Type 0
  Holds old s = (s.status.closed ≡ true) ⊎ (s.finalized ≡ old)

  -- What a step may commit, where `old` was finalized.
  abbrev Continues :
      Option FinalizedRound → List FinalizedRound → RemoteAttestedSession P S A B → Type 0
  Continues old [] t = Holds old t
  Continues old (f ∷ []) t = Holds (some f) t × ((g : FinalizedRound) → old ≡ some g → Follows g f)
  Continues old (f ∷ e ∷ out) t = ⊥

  continues :
      (old new : Option FinalizedRound) (out : List FinalizedRound)
      (t : RemoteAttestedSession P S A B)
      → Commits old new out
      → t.finalized ≡ new
      → Continues old out t
  continues old new [] t h e = inr (e ∙ h)
  continues old new (f ∷ []) t h e = (inr (e ∙ h.0), h.1)
  continues old new (f ∷ g ∷ out) t h e = absurd h

-- The last round of a list, or the one before it.
abbrev pub newest : Option FinalizedRound → List FinalizedRound → Option FinalizedRound
newest old [] = old
newest old (f ∷ out) = newest (some f) out

newest-append :
    (old : Option FinalizedRound) (out later : List FinalizedRound)
    → newest old (out ++ later) ≡ newest (newest old out) later
newest-append old [] later = refl
newest-append old (f ∷ out) later = newest-append (some f) out later

module _ {P S A B : Type 0} (c : Clients P S A B) where
  applied-Continues :
      (s : RemoteAttestedSession P S A B) (action : ProtocolAction) (digest : Outcome ℕ)
      → let now = applied c s action digest in Continues s.finalized now.finals now.session
  applied-Continues s action (err text) = inr refl
  applied-Continues s action (ok input) =
      continues s.finalized _ _ _ (execute_action-Commits c s action input) refl

  numbered-Continues :
      (s : RemoteAttestedSession P S A B) (sequence : ℕ) (action : ProtocolAction) (input : ℕ)
      (early : Option Answer)
      → let now = numbered c s sequence action input early in
        Continues s.finalized now.finals now.session
  unfolding carry_out expect
  numbered-Continues s sequence action input (some answer) = inr refl
  numbered-Continues s sequence action input none =
      continues s.finalized _ _ _
        (execute_action-Commits c (expect c s (sequence + 1)) action input) refl

  requested-Continues :
      (s : RemoteAttestedSession P S A B) (sequence : ℕ) (action : ProtocolAction)
      (digest : Outcome ℕ)
      → let now = requested c s sequence action digest in
        Continues s.finalized now.finals now.session
  requested-Continues s sequence action (err text) = inr refl
  requested-Continues s sequence action (ok input) =
      numbered-Continues s sequence action input (admit c s sequence input)

  after_request-Continues :
      (s : RemoteAttestedSession P S A B) (sequence : ℕ) (action : ProtocolAction) (shut : Bool)
      → let now = after_request c s sequence action shut in
        Continues s.finalized now.finals now.session
  after_request-Continues s sequence action true = inr refl
  after_request-Continues s sequence action false =
      requested-Continues s sequence action (c.action_digest action)

  after_action-Continues :
      (s : RemoteAttestedSession P S A B) (action : ProtocolAction) (shut : Bool)
      → let now = after_action c s action shut in Continues s.finalized now.finals now.session
  after_action-Continues s action true = inr refl
  after_action-Continues s action false = applied-Continues s action (c.action_digest action)

  open_step-Continues :
      (s : RemoteAttestedSession P S A B) (event : Event)
      → let now = step c s event in Continues s.finalized now.finals now.session
  unfolding close
  open_step-Continues s (executing sequence action) =
      subst (λ out. Continues s.finalized out (execute c s sequence action).0)
        (sym (execute-finals c s sequence action))
        (subst (Continues s.finalized (after_request c s sequence action s.status.closed).finals)
          (sym (execute-session c s sequence action))
          (after_request-Continues s sequence action s.status.closed))
  open_step-Continues s (applying action) =
      subst (λ out. Continues s.finalized out (apply c s action).0) (sym (apply-finals c s action))
        (subst (Continues s.finalized (after_action c s action s.status.closed).finals)
          (sym (apply-session c s action)) (after_action-Continues s action s.status.closed))
  open_step-Continues s closing = inl refl

  -- A closed session stays as it is, and commits nothing.
  pub closed_step :
      (s : RemoteAttestedSession P S A B) (event : Event)
      → s.status.closed ≡ true
      → ((step c s event).session.status.closed ≡ true) × ((step c s event).finals ≡ [])
  unfolding execute apply close
  closed_step s (executing sequence action) shut =
      (simp (shut) refl, execute-finals c s sequence action ∙ simp (shut) refl)
  closed_step s (applying action) shut =
      (simp (shut) refl, apply-finals c s action ∙ simp (shut) refl)
  closed_step s closing shut = (refl, refl)

  step-Continues :
      (old : Option FinalizedRound) (s : RemoteAttestedSession P S A B) (event : Event)
      → Holds old s
      → Continues old (step c s event).finals (step c s event).session
  step-Continues old s event (inr same) =
      subst (λ f. Continues f (step c s event).finals (step c s event).session) same
        (open_step-Continues s event)
  step-Continues old s event (inl shut) =
      subst (λ out. Continues old out (step c s event).session) (sym (closed_step s event shut).1)
        (inl (closed_step s event shut).0)

  -- All that is committed after `f` follows it.
  abbrev AfterAll : Option FinalizedRound → List FinalizedRound → Type 0
  AfterAll none out = AllPairs Follows out
  AfterAll (some f) out = All (Follows f) out × AllPairs Follows out

  Follows-trans : (f g h : FinalizedRound) → Follows f g → Follows g h → Follows f h
  Follows-trans f g h (inl same) q = subst (λ x. Follows x h) same q
  Follows-trans f g h (inr lt) (inl same) = inr (subst (λ x. f.round < x.round) (sym same) lt)
  Follows-trans f g h (inr lt) (inr less) = inr (omega arith)

  extend :
      (old : Option FinalizedRound) (f : FinalizedRound) (out : List FinalizedRound)
      → ((g : FinalizedRound) → old ≡ some g → Follows g f)
      → AfterAll (some f) out
      → AfterAll old (f ∷ out)
  extend none f out first h = h
  extend (some g) f out first h =
      let next = first g refl in
      ((next, All-imp (Follows f) (Follows g) out (λ e q. Follows-trans g f e next q) h.0), h)

  pairs :
      (old : Option FinalizedRound) (out : List FinalizedRound)
      → AfterAll old out
      → AllPairs Follows out
  pairs none out h = h
  pairs (some f) out h = h.1

  continued :
      (old : Option FinalizedRound) (out later : List FinalizedRound)
      (t : RemoteAttestedSession P S A B)
      → Continues old out t
      → ((f : Option FinalizedRound) → Holds f t → AfterAll f later)
      → AfterAll old (out ++ later)
  continued old [] later t k rest = rest old k
  continued old (f ∷ []) later t k rest = extend old f later k.1 (rest (some f) k.0)
  continued old (f ∷ e ∷ out) later t k rest = absurd k

  run-AfterAll :
      (events : List Event) (old : Option FinalizedRound) (s : RemoteAttestedSession P S A B)
      → Holds old s
      → AfterAll old (run c events s).finals
  run-AfterAll [] none s h = tt
  run-AfterAll [] (some f) s h = (tt, tt)
  run-AfterAll (event ∷ events) old s h =
      let now = step c s event in
      continued old now.finals (run c events now.session).finals now.session
        (step-Continues old s event h) (λ f k. run-AfterAll events f now.session k)

  Continues-last :
      (old : Option FinalizedRound) (out : List FinalizedRound) (t : RemoteAttestedSession P S A B)
      → Continues old out t
      → Holds (newest old out) t
  Continues-last old [] t k = k
  Continues-last old (f ∷ []) t k = k.0
  Continues-last old (f ∷ e ∷ out) t k = absurd k

  run-Holds :
      (events : List Event) (old : Option FinalizedRound) (s : RemoteAttestedSession P S A B)
      → Holds old s
      → let done = run c events s in Holds (newest old done.finals) done.session
  run-Holds [] old s h = h
  run-Holds (event ∷ events) old s h =
      let now = step c s event in
      let later : Effect P S A B = run c events now.session in
      subst (λ f. Holds f later.session) (sym (newest-append old now.finals later.finals))
        (run-Holds events (newest old now.finals) now.session
          (Continues-last old now.finals now.session (step-Continues old s event h)))

  -- Over any run of requests and actions, any two answers with messages to actions that finalize one
  -- round, but for the answers to requests that repeat the number of the last one, have the same
  -- messages and come from the same input, and rounds are finalized in order; and the session is
  -- closed or holds the last round so answered, or the one it began with if there is none.
  pub run_commits :
      (events : List Event) (s : RemoteAttestedSession P S A B)
      → let done = run c events s in
        AllPairs Follows done.finals × Holds (newest s.finalized done.finals) done.session
  run_commits events s = (
    pairs s.finalized _ (run-AfterAll events s.finalized s (inr refl)),
    run-Holds events s.finalized s (inr refl),
  )
