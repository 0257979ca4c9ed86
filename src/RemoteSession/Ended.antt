-- ===== src/RemoteSession/Ended.antt =====
-- A session that was closed.
use anymone.Base.{ℕ, ◌≡◌, refl, sym, subst, true, none, List, [], ◌∷◌, arith}
use anymone.Base.Results.{err}
use anymone.Config.{ExchangePublicKeyWire, Subnet}
use anymone.Scheduler.WireSize.{WireSizes}
use anymone.RemoteSession.{Clients, ProtocolAction, closed, RemoteAttestedSession}
use anymone.RemoteSession.Requests.{close, apply, execute}
use anymone.RemoteSession.Opening.{KeyOps, reconfigure}
use anymone.RemoteSession.Events.{Event, executing, applying, closing, step, run}

module _ {P S A B : Type 0} (c : Clients P S A B) (k : KeyOps) (w : WireSizes) where
  -- The session refuses every request, every action and every configuration, and stays as it is.
  abbrev pub IsOver : RemoteAttestedSession P S A B → Type 0
  IsOver s =
      ((sequence : ℕ) (action : ProtocolAction) → execute c s sequence action ≡ (s, err closed))
      × ((action : ProtocolAction) → apply c s action ≡ (s, err closed))
      × ((subnet : Subnet) (keys : List (ℕ × ExchangePublicKeyWire)) (round seed session_id : ℕ)
          → reconfigure c k w s subnet keys round seed session_id ≡ (s, err closed))

  closed-IsOver : (s : RemoteAttestedSession P S A B) → s.status.closed ≡ true → IsOver s
  unfolding execute apply reconfigure
  closed-IsOver s shut = (
    λ sequence action. ground (arith, shut),
    λ action. ground (arith, shut),
    λ subnet keys round seed session_id. ground (arith, shut),
  )

  step_closed :
      (s : RemoteAttestedSession P S A B) (event : Event)
      → (step c (close s) event).session ≡ close s
  unfolding execute apply close
  step_closed s (executing sequence action) = refl
  step_closed s (applying action) = refl
  step_closed s closing = refl

  run_closed :
      (s t : RemoteAttestedSession P S A B) (events : List Event)
      → t ≡ close s
      → (run c events t).session ≡ close s
  run_closed s t [] h = h
  run_closed s t (event ∷ events) h = run_closed s (step c t event).session events (
      subst (λ (x : RemoteAttestedSession P S A B). (step c x event).session ≡ close s) (sym h)
        (step_closed s event))

  -- Once closed, whatever is asked of it, a session holds no client, no identity and no messages, and
  -- refuses every request, every action and every configuration as closed.
  pub run-close-IsOver :
      (s : RemoteAttestedSession P S A B) (events : List Event)
      → let t = (run c events (close s)).session in
        IsOver t
        × (t.client ≡ none)
        × (t.identity ≡ none)
        × (t.finalized ≡ none)
        × (t.repair ≡ none)
        × (t.last_reply ≡ none)
  unfolding close
  run-close-IsOver s events =
      let same = run_closed s (close s) events refl in
      subst
        (λ (t : RemoteAttestedSession P S A B).
          IsOver t
          × (t.client ≡ none)
          × (t.identity ≡ none)
          × (t.finalized ≡ none)
          × (t.repair ≡ none)
          × (t.last_reply ≡ none))
        (sym same) (closed-IsOver (close s) refl, refl, refl, refl, refl, refl)
