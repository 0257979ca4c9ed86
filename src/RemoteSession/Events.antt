-- ===== src/RemoteSession/Events.antt =====
-- Runs of a session: requests by number, actions of a caller that does not number them, and the end.
use anymone.Base.{
  ℕ, ◌+◌, ◌≡◌, refl, sym, subst, inl, inr, Bool-cases, Option-cases, Bool, true, false, Option,
  none, some, List, [], ◌∷◌, ◌++◌, ◌⊎◌, ap, map_or, if◌then◌else◌, arith,
}
use anymone.Base.Equality.{nat_eq, ◌==◌}
use anymone.Base.Results.{ok, err, Result-cases}
use anymone.RemoteSession.{
  Clients, ProtocolAction, RemoteSessionError, closed, protocol, request_sequence,
  sequence_exhausted, FinalizedRound, Outcome, Answer, RemoteAttestedSession,
}
use anymone.RemoteSession.Guards.{finalized_by}
use anymone.RemoteSession.Perform.{execute_action}
use anymone.RemoteSession.Requests.{close, apply, admit, carry_out, repeated, execute, expect}

pub data Event : Type 0 where
  executing : (sequence : ℕ) → ProtocolAction → Event
  applying : ProtocolAction → Event
  closing : Event

-- The messages of a round, where the action finalizes one and is answered with some.
abbrev pub committed : Option ℕ → (input : ℕ) → Answer → List FinalizedRound
committed none input answer = []
committed (some round) input (err e) = []
committed (some round) input (ok []) = []
committed (some round) input (ok (message ∷ messages)) =
    record { round = round; input = input; messages = message ∷ messages } ∷ []

-- The next session, the rounds finalized with their messages, and the numbers of the requests that
-- were carried out.
pub record Effect (P S A B : Type 0) : Type 0 where
  pub session : RemoteAttestedSession P S A B
  pub finals : List FinalizedRound
  pub numbers : List ℕ

module _ {P S A B : Type 0} (c : Clients P S A B) where
  abbrev pub quiet : RemoteAttestedSession P S A B → Effect P S A B
  quiet s = record { session = s; finals = []; numbers = [] }

  -- An action with its digest.
  abbrev pub applied : RemoteAttestedSession P S A B → ProtocolAction → Outcome ℕ → Effect P S A B
  applied s action (err text) = quiet s
  applied s action (ok input) =
      let done = execute_action c s action input in
      record {
        session = done.0;
        finals = committed (finalized_by s action) input done.1;
        numbers = [];
      }

  abbrev pub numbered :
      RemoteAttestedSession P S A B
      → (sequence : ℕ) → ProtocolAction
      → (input : ℕ) → Option Answer
      → Effect P S A B
  numbered s sequence action input (some answer) = quiet s
  numbered s sequence action input none =
      let done = carry_out c s sequence action input in
      record {
        session = done.0;
        finals = committed (finalized_by (expect c s (sequence + 1)) action) input done.1;
        numbers = sequence ∷ [];
      }

  abbrev pub requested :
      RemoteAttestedSession P S A B → (sequence : ℕ) → ProtocolAction → Outcome ℕ → Effect P S A B
  requested s sequence action (err text) = quiet s
  requested s sequence action (ok input) =
      numbered s sequence action input (admit c s sequence input)

  -- A request, and an action, by what becomes of it.
  abbrev pub after_request :
      RemoteAttestedSession P S A B → (sequence : ℕ) → ProtocolAction → Bool → Effect P S A B
  after_request s sequence action true = quiet s
  after_request s sequence action false = requested s sequence action (c.action_digest action)

  abbrev pub after_action : RemoteAttestedSession P S A B → ProtocolAction → Bool → Effect P S A B
  after_action s action true = quiet s
  after_action s action false = applied s action (c.action_digest action)

  -- What an answer to an action commits.
  abbrev pub commits :
      RemoteAttestedSession P S A B → ProtocolAction → Outcome ℕ → Answer → List FinalizedRound
  commits s action (err text) answer = []
  commits s action (ok input) answer = committed (finalized_by s action) input answer

  -- A request with the number of the last one is answered with the reply to that one, which is
  -- counted with it.
  abbrev pub is_repeat : RemoteAttestedSession P S A B → (sequence : ℕ) → Bool
  is_repeat s sequence = map_or false (λ r. sequence == r.sequence) s.last_reply

  -- What the answer to a request commits.
  abbrev pub request_commits :
      RemoteAttestedSession P S A B → (sequence : ℕ) → ProtocolAction → Answer → List FinalizedRound
  request_commits s sequence action answer =
      if is_repeat s sequence then [] else commits s action (c.action_digest action) answer

  abbrev pub step : RemoteAttestedSession P S A B → Event → Effect P S A B
  step s (executing sequence action) =
      let done = execute c s sequence action in
      record {
        session = done.0;
        finals = request_commits s sequence action done.1;
        numbers = (after_request s sequence action s.status.closed).numbers;
      }
  step s (applying action) =
      let done = apply c s action in
      record {
        session = done.0;
        finals = commits s action (c.action_digest action) done.1;
        numbers = [];
      }
  step s closing = quiet (close s)

  abbrev pub run : List Event → RemoteAttestedSession P S A B → Effect P S A B
  run [] s = quiet s
  run (event ∷ events) s =
      let now = step s event in
      let later : Effect P S A B = run events now.session in
      record {
        session = later.session;
        finals = now.finals ++ later.finals;
        numbers = now.numbers ++ later.numbers;
      }

  requested-session :
      (s : RemoteAttestedSession P S A B) (sequence : ℕ) (action : ProtocolAction)
      → s.status.closed ≡ false
      → (execute c s sequence action).0
        ≡ (requested s sequence action (c.action_digest action)).session
  unfolding execute
  requested-session s sequence action live = elim (Result-cases (c.action_digest action)) [
    | inr (text, e) ↦ simp (live, e) refl
    | inl (input, e) ↦ elim (Option-cases (admit c s sequence input)) [
      | inl h ↦ simp (live, e, h) refl
      | inr (answer, h) ↦ simp (live, e, h) refl
    ]
  ]

  pub execute-session :
      (s : RemoteAttestedSession P S A B) (sequence : ℕ) (action : ProtocolAction)
      → (execute c s sequence action).0 ≡ (after_request s sequence action s.status.closed).session
  unfolding execute
  execute-session s sequence action = elim (Bool-cases s.status.closed) [
    | inl shut ↦ simp shut refl
    | inr live ↦
        subst
          (λ shut. (execute c s sequence action).0 ≡ (after_request s sequence action shut).session)
          (sym live) (requested-session s sequence action live)
  ]

  pub apply-session :
      (s : RemoteAttestedSession P S A B) (action : ProtocolAction)
      → (apply c s action).0 ≡ (after_action s action s.status.closed).session
  unfolding apply
  apply-session s action = elim (Bool-cases s.status.closed) [
    | inl shut ↦ simp shut refl
    | inr live ↦ elim (Result-cases (c.action_digest action)) [
      | inl (input, e) ↦ simp (live, e) refl
      | inr (text, e) ↦ simp (live, e) refl
    ]
  ]

  refused-committed :
      (final : Option ℕ) (input : ℕ) (e : RemoteSessionError) → committed final input (err e) ≡ []
  refused-committed none input e = refl
  refused-committed (some round) input e = refl

  refused-commits :
      (s : RemoteAttestedSession P S A B) (action : ProtocolAction) (digest : Outcome ℕ)
      (e : RemoteSessionError)
      → commits s action digest (err e) ≡ []
  refused-commits s action (err text) e = refl
  refused-commits s action (ok input) e = refused-committed (finalized_by s action) input e

  -- The number that is expected next plays no part in what an action finalizes.
  finalized_by-expect :
      (s : RemoteAttestedSession P S A B) (next : ℕ) (action : ProtocolAction)
      → finalized_by (expect c s next) action ≡ finalized_by s action
  unfolding finalized_by expect
  finalized_by-expect s next action = ground arith

  -- A request that is not let through has been answered before or is refused.
  admit-some :
      (s : RemoteAttestedSession P S A B) (sequence input : ℕ) (answer : Answer)
      → admit c s sequence input ≡ some answer
      → (is_repeat s sequence ≡ true) ⊎ ((e : RemoteSessionError) × (answer ≡ err e))
  unfolding admit repeated
  admit-some s sequence input answer h = elim (Bool-cases (is_repeat s sequence)) [
    | inl again ↦ inl again
    | inr new ↦ elim (Bool-cases (sequence == s.status.next_request)) [
      | inl due ↦ inr (sequence_exhausted, ground (arith, h, new, due))
      | inr early ↦ inr (request_sequence s.status.next_request, ground (arith, h, new, early))
    ]
  ]

  admit-none :
      (s : RemoteAttestedSession P S A B) (sequence input : ℕ)
      → admit c s sequence input ≡ none
      → is_repeat s sequence ≡ false
  unfolding admit repeated
  admit-none s sequence input h = ground (arith, h)

  requested-finals :
      (s : RemoteAttestedSession P S A B) (sequence : ℕ) (action : ProtocolAction)
      → s.status.closed ≡ false
      → request_commits s sequence action (execute c s sequence action).1
        ≡ (requested s sequence action (c.action_digest action)).finals
  unfolding execute carry_out
  requested-finals s sequence action live = elim (Result-cases (c.action_digest action)) [
    | inr (text, e) ↦ ground (arith, live, e, refused-commits s action (err text) (protocol text))
    | inl (input, e) ↦ elim (Option-cases (admit c s sequence input)) [
      | inl h ↦
          simp (live, e, h, admit-none s sequence input h)
            (ap
              (λ f. committed f input (execute_action c (expect c s (sequence + 1)) action input).1)
              (sym (finalized_by-expect s (sequence + 1) action)))
      | inr (answer, h) ↦ elim (admit-some s sequence input answer h) [
        | inl again ↦ simp (again, e, h) refl
        | inr (why, refused) ↦
            simp (live, e, h, refused)
              (ground (arith, refused-committed (finalized_by s action) input why))
      ]
    ]
  ]

  pub execute-finals :
      (s : RemoteAttestedSession P S A B) (sequence : ℕ) (action : ProtocolAction)
      → request_commits s sequence action (execute c s sequence action).1
        ≡ (after_request s sequence action s.status.closed).finals
  unfolding execute
  execute-finals s sequence action = elim (Bool-cases s.status.closed) [
    | inl shut ↦
        simp shut (ground (arith, refused-commits s action (c.action_digest action) closed))
    | inr live ↦
        subst
          (λ shut.
            request_commits s sequence action (execute c s sequence action).1
            ≡ (after_request s sequence action shut).finals)
          (sym live) (requested-finals s sequence action live)
  ]

  pub apply-finals :
      (s : RemoteAttestedSession P S A B) (action : ProtocolAction)
      → commits s action (c.action_digest action) (apply c s action).1
        ≡ (after_action s action s.status.closed).finals
  unfolding apply
  apply-finals s action = elim (Bool-cases s.status.closed) [
    | inl shut ↦ simp shut (refused-commits s action (c.action_digest action) closed)
    | inr live ↦ elim (Result-cases (c.action_digest action)) [
      | inl (input, e) ↦ simp (live, e) refl
      | inr (text, e) ↦ simp (live, e) refl
    ]
  ]
