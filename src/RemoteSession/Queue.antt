-- ===== src/RemoteSession/Queue.antt =====
-- The messages that a session of a scheduled ADCNet client lets wait.
use anymone.Base.{
  ℕ, ◌+◌, ◌-◌, ◌*◌, ◌≤◌, ◌≡◌, refl, sym, ◌∙◌, subst, Bool, true, false, Option, none, some, List,
  [], ◌∷◌, arith,
}
use anymone.Base.Int.{ℤ, as_unsigned}
use anymone.Base.Results.{ok, err}
use anymone.RemoteSession.{
  Clients, Client, ProtocolAction, ScheduledAdcnetAction, ScheduledAdcnetClient, Outcome, Answer,
  RemoteAttestedSession,
}
use anymone.RemoteSession.Guards.{
  check_action, check_auction, check_queue, pending_of, finalized_by,
}
use anymone.RemoteSession.Perform.{
  execute_action, perform, perform_auction, keep, advanced, save, repaired_by,
}
use anymone.RemoteSession.Requests.{close, admit, carry_out, expect}
use anymone.RemoteSession.Moves.{replied, gone, performed, execute_action-cases}
use anymone.RemoteSession.Commits.{checked-later}
use anymone.RemoteSession.Events.{
  Event, executing, applying, closing, applied, numbered, requested, after_request, after_action,
  step, run, execute-session, apply-session,
}

-- What the session relies on: a message adds one to the count, and nothing else adds to it.
pub record Counts {B : Type 0} (a : ScheduledAdcnetClient B) : Type 0 where
  pub set_cover_rate_le :
      (b : B) (rate : ℕ)
      → a.pending_message_count (a.set_cover_rate b rate) ≤ a.pending_message_count b
  pub advance_le :
      (b : B) (round : ℤ)
      → a.pending_message_count (a.advance_to_round b round).0 ≤ a.pending_message_count b
  pub schedule_le :
      (b : B) (payload : List ℕ) (bid : ℕ)
      → a.pending_message_count (a.schedule_message_for_next_round b payload bid).0
        ≤ a.pending_message_count b + 1
  pub broadcast_le :
      (b : B) (message : List ℕ)
      → a.pending_message_count (a.process_round_broadcast b message).0 ≤ a.pending_message_count b
  pub messages_le :
      (b : B)
      → a.pending_message_count (a.messages_for_current_round b).0 ≤ a.pending_message_count b

module _ {P S A B : Type 0} (c : Clients P S A B) (laws : Counts c.auction) where
  -- The client of the session is a scheduled ADCNet client, or it is closed; its messages fit.
  abbrev pub Fits : ℕ → Option (Client P S A B) → Type 0
  Fits limit none = Unit
  Fits limit (some (Client.panetiere p)) = ⊥
  Fits limit (some (Client.scheduled_panetiere s)) = ⊥
  Fits limit (some (Client.adcnet a)) = ⊥
  Fits limit (some (Client.scheduled_adcnet b)) =
      (c.auction.pending_message_count b ≤ 64)
      × (c.auction.pending_message_count b * limit ≤ 8388608)

  less_fits : (n m limit : ℕ) → n ≤ m → m * limit ≤ 8388608 → n * limit ≤ 8388608
  less_fits n m limit h k = grind arith

  shrink-Fits :
      (limit : ℕ) (b d : B)
      → c.auction.pending_message_count d ≤ c.auction.pending_message_count b
      → Fits limit (some (Client.scheduled_adcnet b))
      → Fits limit (some (Client.scheduled_adcnet d))
  shrink-Fits limit b d h v = (omega arith, less_fits _ _ limit h v.1)

  module _ (s : RemoteAttestedSession P S A B) where
    abbrev Keeps : RemoteAttestedSession P S A B → Type 0
    Keeps t = Fits t.max_payload t.client × (t.max_payload ≡ s.max_payload)

    check_queue-room :
        (b : B)
        → s.client ≡ some (Client.scheduled_adcnet b)
        → check_queue c s ≡ none
        → (c.auction.pending_message_count b + 1 ≤ 64)
          × ((c.auction.pending_message_count b + 1) * s.max_payload ≤ 8388608)
    unfolding check_queue pending_of
    check_queue-room b live h = ground (arith, live, h)

    advanced-Keeps :
        (b : B) (round : ℕ) (outcome : Outcome (Unit {0}))
        → Fits s.max_payload (some (Client.scheduled_adcnet b))
        → Keeps (advanced c (keep c s (Client.scheduled_adcnet b)) round outcome).0
    advanced-Keeps b round (ok u) v = (v, refl)
    advanced-Keeps b round (err text) v = (v, refl)

    auction-Keeps :
        (b : B) (action : ScheduledAdcnetAction)
        → s.client ≡ some (Client.scheduled_adcnet b)
        → check_auction c s action ≡ none
        → Fits s.max_payload (some (Client.scheduled_adcnet b))
        → Keeps (perform_auction c s b action).0
    unfolding perform_auction check_auction
    auction-Keeps b (ScheduledAdcnetAction.set_cover_rate rate) live h v =
        (shrink-Fits s.max_payload b _ (laws.set_cover_rate_le b rate) v, refl)
    auction-Keeps b (ScheduledAdcnetAction.advance_to_round round) live h v =
        advanced-Keeps _ (as_unsigned round - 1) (c.auction.advance_to_round b round).1
          (shrink-Fits s.max_payload b _ (laws.advance_le b round) v)
    auction-Keeps b (ScheduledAdcnetAction.schedule_message_for_next_round payload bid) live h v =
        let room = check_queue-room b live (ground (arith, h)) in
        let one = laws.schedule_le b payload bid in
        ((omega arith, less_fits _ _ s.max_payload one room.1), refl)
    auction-Keeps b (ScheduledAdcnetAction.process_round_broadcast message) live h v =
        (shrink-Fits s.max_payload b _ (laws.broadcast_le b message) v, refl)
    auction-Keeps b ScheduledAdcnetAction.messages_for_current_round live h v =
        (shrink-Fits s.max_payload b _ (laws.messages_le b) v, refl)

    perform-Keeps :
        (client : Client P S A B) (action : ProtocolAction)
        → s.client ≡ some client
        → check_action c s action ≡ none
        → Fits s.max_payload (some client)
        → Fits s.max_payload s.client
        → Keeps (perform c s client action).0
    unfolding perform check_action
    perform-Keeps (Client.scheduled_adcnet b) (ProtocolAction.scheduled_adcnet action) live h v w =
        auction-Keeps b action live h v
    perform-Keeps (Client.panetiere p) action live h v w = absurd v
    perform-Keeps (Client.scheduled_panetiere x) action live h v w = absurd v
    perform-Keeps (Client.adcnet a) action live h v w = absurd v
    perform-Keeps client action live h v w = (w, refl)

    save-Keeps :
        (final repair : Option ℕ) (input : ℕ) (t : RemoteAttestedSession P S A B) (answer : Answer)
        → Keeps t
        → Keeps (save c final repair input (t, answer)).0
    save-Keeps final repair input t (err e) k = k
    save-Keeps final repair input t (ok []) k = k
    save-Keeps none none input t (ok (m ∷ ms)) k = k
    save-Keeps none (some r) input t (ok (m ∷ ms)) k = k
    save-Keeps (some f) none input t (ok (m ∷ ms)) k = k
    save-Keeps (some f) (some r) input t (ok (m ∷ ms)) k = k

    execute_action-Keeps :
        (action : ProtocolAction) (input : ℕ)
        → Fits s.max_payload s.client
        → Keeps (execute_action c s action input).0
    execute_action-Keeps action input v = elim (execute_action-cases c s action input) [
      | replied answer early same ↦ subst (λ done. Keeps done.0) (sym same) (v, refl)
      | gone same ↦ subst (λ done. Keeps done.0) (sym same) (v, refl)
      | performed client live passed same ↦
          subst (λ done. Keeps done.0) (sym same)
            (save-Keeps (finalized_by s action) (repaired_by c action) input
              (perform c s client action).0 (perform c s client action).1
              (perform-Keeps client action live (checked-later c s action input passed).0
                (subst (Fits s.max_payload) live v) v))
    ]

  applied-Keeps :
      (s : RemoteAttestedSession P S A B) (action : ProtocolAction) (digest : Outcome ℕ)
      → Fits s.max_payload s.client
      → Keeps s (applied c s action digest).session
  applied-Keeps s action (err text) v = (v, refl)
  applied-Keeps s action (ok input) v = execute_action-Keeps s action input v

  after_action-Keeps :
      (s : RemoteAttestedSession P S A B) (action : ProtocolAction) (shut : Bool)
      → Fits s.max_payload s.client
      → Keeps s (after_action c s action shut).session
  after_action-Keeps s action true v = (v, refl)
  after_action-Keeps s action false v = applied-Keeps s action (c.action_digest action) v

  numbered-Keeps :
      (s : RemoteAttestedSession P S A B) (sequence : ℕ) (action : ProtocolAction) (input : ℕ)
      (early : Option Answer)
      → Fits s.max_payload s.client
      → Keeps s (numbered c s sequence action input early).session
  unfolding carry_out expect
  numbered-Keeps s sequence action input (some answer) v = (v, refl)
  numbered-Keeps s sequence action input none v =
      execute_action-Keeps (expect c s (sequence + 1)) action input v

  requested-Keeps :
      (s : RemoteAttestedSession P S A B) (sequence : ℕ) (action : ProtocolAction)
      (digest : Outcome ℕ)
      → Fits s.max_payload s.client
      → Keeps s (requested c s sequence action digest).session
  requested-Keeps s sequence action (err text) v = (v, refl)
  requested-Keeps s sequence action (ok input) v =
      numbered-Keeps s sequence action input (admit c s sequence input) v

  after_request-Keeps :
      (s : RemoteAttestedSession P S A B) (sequence : ℕ) (action : ProtocolAction) (shut : Bool)
      → Fits s.max_payload s.client
      → Keeps s (after_request c s sequence action shut).session
  after_request-Keeps s sequence action true v = (v, refl)
  after_request-Keeps s sequence action false v =
      requested-Keeps s sequence action (c.action_digest action) v

  step-Keeps :
      (s : RemoteAttestedSession P S A B) (event : Event)
      → Fits s.max_payload s.client
      → Keeps s (step c s event).session
  unfolding close
  step-Keeps s (executing sequence action) v =
      subst (Keeps s) (sym (execute-session c s sequence action))
        (after_request-Keeps s sequence action s.status.closed v)
  step-Keeps s (applying action) v =
      subst (Keeps s) (sym (apply-session c s action))
        (after_action-Keeps s action s.status.closed v)
  step-Keeps s closing v = (tt, refl)

  -- A session of a scheduled ADCNet client whose messages fit lets at most 64 messages wait, and at most
  -- as many as fill 8 MiB at its payload bound, after any run, until it is closed.
  pub run-Fits :
      (events : List Event) (s : RemoteAttestedSession P S A B)
      → Fits s.max_payload s.client
      → let t = (run c events s).session in
        Fits t.max_payload t.client × (t.max_payload ≡ s.max_payload)
  run-Fits [] s v = (v, refl)
  run-Fits (event ∷ events) s v =
      let now = step-Keeps s event v in
      let later = run-Fits events (step c s event).session now.0 in (later.0, later.1 ∙ now.1)
