-- ===== src/RemoteSession/Commits.antt =====
-- How an action changes the finalized round of a session.
use anymone.Base.{
  ℕ, ◌<◌, ◌≡◌, refl, sym, ap, subst, Option, none, some, List, [], ◌∷◌, ◌⊎◌, inl, inr, Option-cases,
  arith,
}
use anymone.Base.Equality.{nat_eq}
use anymone.Base.Results.{ok, err}
use anymone.RemoteSession.{
  Clients, Client, ProtocolAction, PanetiereAction, ScheduledPanetiereAction, AdcnetAction,
  ScheduledAdcnetAction, RemoteSessionError, FinalizedRound, Answer, RemoteAttestedSession,
}
use anymone.RemoteSession.Guards.{
  check_round, check_payload, check, check_action, check_panetiere, check_scheduled, check_adcnet,
  check_auction, check_payload_of, check_finalized, finalized_by,
}
use anymone.RemoteSession.Perform.{execute_action, perform, repaired_by, save}
use anymone.RemoteSession.Moves.{perform-Moves, replied, gone, performed, execute_action-cases}
use anymone.RemoteSession.Events.{committed}

-- A round and its messages that may come next: the same again, or a later round.
abbrev pub Follows : FinalizedRound → FinalizedRound → Type 0
Follows f e = (e ≡ f) ⊎ (f.round < e.round)

-- What an action that left `new` may have committed, where `old` was finalized.
abbrev pub Commits : Option FinalizedRound → Option FinalizedRound → List FinalizedRound → Type 0
Commits old new [] = new ≡ old
Commits old new (f ∷ []) = (new ≡ some f) × ((g : FinalizedRound) → old ≡ some g → Follows g f)
Commits old new (f ∷ e ∷ out) = ⊥

module _ {P S A B : Type 0} (c : Clients P S A B) (s : RemoteAttestedSession P S A B) where
  -- Past the test of the finalized round, a round is later.
  check_finalized-later :
      (input round : ℕ)
      → check_finalized s input (some round) ≡ none
      → (g : FinalizedRound) → s.finalized ≡ some g
      → g.round < round
  unfolding check_finalized
  check_finalized-later input round h g e = ground (arith, h, e)

  -- What the test answers with messages are those of the finalized round.
  check_finalized-ok :
      (input round : ℕ) (messages : List (List ℕ))
      → check_finalized s input (some round) ≡ some (ok messages)
      → s.finalized ≡ some (record { round = round; input = input; messages = messages })
  unfolding check_finalized check_round
  check_finalized-ok input round messages h = ground (arith, h)

  check_payload_of-refuses :
      (payload : Option (List ℕ)) (messages : List (List ℕ))
      → check_payload_of s payload ≡ some (ok messages)
      → ⊥
  unfolding check_payload_of check_payload
  check_payload_of-refuses none messages h = absurd (cc)
  check_payload_of-refuses (some payload) messages h = ground (arith, h)

  -- The second test does not answer an action that finalizes a round with messages.
  check_action-refuses :
      (action : ProtocolAction) (round : ℕ) (messages : List (List ℕ))
      → finalized_by s action ≡ some round
      → check_action c s action ≡ some (ok messages)
      → ⊥
  unfolding finalized_by check_action check_panetiere check_scheduled check_adcnet check_auction
  check_action-refuses (ProtocolAction.panetiere (PanetiereAction.finalize_round r p)) round
        messages f h =
      check_payload_of-refuses p messages h
  check_action-refuses (ProtocolAction.panetiere (PanetiereAction.prepare_round r)) round messages f
        h =
      absurd (cc)
  check_action-refuses (ProtocolAction.panetiere (PanetiereAction.accept_receipt_batch r b)) round
        messages f h =
      absurd (cc)
  check_action-refuses (ProtocolAction.panetiere (PanetiereAction.build_repair r)) round messages f
        h =
      absurd (cc)
  check_action-refuses (ProtocolAction.adcnet (AdcnetAction.contribute r p)) round messages f h =
      check_payload_of-refuses p messages h
  check_action-refuses (ProtocolAction.scheduled_panetiere a) round messages f h = scheduled a f h
    where
      scheduled :
          (a : ScheduledPanetiereAction)
          → finalized_by s (ProtocolAction.scheduled_panetiere a) ≡ some round
          → check_scheduled c s a ≡ some (ok messages)
          → ⊥
      scheduled (ScheduledPanetiereAction.finalize_round r) f h = absurd (cc)
      scheduled (ScheduledPanetiereAction.set_cover_rate r) f h = absurd (cc)
      scheduled (ScheduledPanetiereAction.advance_round r) f h = absurd (cc)
      scheduled (ScheduledPanetiereAction.reserve_message p) f h = absurd (cc)
      scheduled (ScheduledPanetiereAction.prepare_round r) f h = absurd (cc)
      scheduled (ScheduledPanetiereAction.accept_reservations m) f h = absurd (cc)
      scheduled (ScheduledPanetiereAction.accept_receipt_batch r b) f h = absurd (cc)
      scheduled (ScheduledPanetiereAction.build_repair r) f h = absurd (cc)
  check_action-refuses (ProtocolAction.scheduled_adcnet a) round messages f h = auction a f h
    where
      auction :
          (a : ScheduledAdcnetAction)
          → finalized_by s (ProtocolAction.scheduled_adcnet a) ≡ some round
          → check_auction c s a ≡ some (ok messages)
          → ⊥
      auction ScheduledAdcnetAction.messages_for_current_round f h = absurd (cc)
      auction (ScheduledAdcnetAction.set_cover_rate r) f h = absurd (cc)
      auction (ScheduledAdcnetAction.advance_to_round r) f h = absurd (cc)
      auction (ScheduledAdcnetAction.schedule_message_for_next_round p b) f h = absurd (cc)
      auction (ScheduledAdcnetAction.process_round_broadcast m) f h = absurd (cc)

  replied-finalized :
      (action : ProtocolAction) (input round : ℕ) (messages : List (List ℕ))
      → finalized_by s action ≡ some round
      → check c s action input ≡ some (ok messages)
      → s.finalized ≡ some (record { round = round; input = input; messages = messages })
  unfolding check
  replied-finalized action input round messages f h =
      elim (Option-cases (check_finalized s input (some round))) [
        | inl passed ↦
            absurd (check_action-refuses action round messages f (ground (arith, f, h, passed)))
        | inr (answer, early) ↦
            check_finalized-ok input round messages (ground (arith, f, h, early))
      ]

  replied-Commits :
      (action : ProtocolAction) (input : ℕ) (answer : Answer) (final : Option ℕ)
      → finalized_by s action ≡ final
      → check c s action input ≡ some answer
      → Commits s.finalized s.finalized (committed final input answer)
  replied-Commits action input answer none f h = refl
  replied-Commits action input (err e) (some round) f h = refl
  replied-Commits action input (ok []) (some round) f h = refl
  replied-Commits action input (ok (m ∷ ms)) (some round) f h =
      let kept = replied-finalized action input round (m ∷ ms) f h in (kept, λ g e. inl (cc))

  save-Commits :
      (final repair : Option ℕ) (input : ℕ) (t : RemoteAttestedSession P S A B) (answer : Answer)
      → t.finalized ≡ s.finalized
      → ((round : ℕ)
          → final ≡ some round
          → (g : FinalizedRound) → s.finalized ≡ some g
          → g.round < round)
      → let done = save c final repair input (t, answer) in
        Commits s.finalized done.0.finalized (committed final input done.1)
  save-Commits none repair input t (err e) kept later = kept
  save-Commits none repair input t (ok []) kept later = kept
  save-Commits none none input t (ok (m ∷ ms)) kept later = kept
  save-Commits none (some r) input t (ok (m ∷ ms)) kept later = kept
  save-Commits (some round) repair input t (err e) kept later = kept
  save-Commits (some round) repair input t (ok []) kept later = kept
  save-Commits (some round) none input t (ok (m ∷ ms)) kept later =
      (refl, λ g e. inr (later round refl g e))
  save-Commits (some round) (some r) input t (ok (m ∷ ms)) kept later =
      (refl, λ g e. inr (later round refl g e))

  pub checked-later :
      (action : ProtocolAction) (input : ℕ)
      → check c s action input ≡ none
      → (check_action c s action ≡ none)
        × ((round : ℕ)
            → finalized_by s action ≡ some round
            → (g : FinalizedRound) → s.finalized ≡ some g
            → g.round < round)
  unfolding check
  checked-later action input h =
      elim (Option-cases (check_finalized s input (finalized_by s action))) [
        | inl passed ↦ (
          ground (arith, h, passed),
          λ round f. check_finalized-later input round (ground (arith, passed, f)),
        )
        | inr (answer, early) ↦ absurd (ground (arith, h, early))
      ]

  performed-Commits :
      (client : Client P S A B) (action : ProtocolAction) (input : ℕ)
      → s.client ≡ some client
      → check c s action input ≡ none
      → let done =
          save c (finalized_by s action) (repaired_by c action) input (perform c s client action) in
        Commits s.finalized done.0.finalized (committed (finalized_by s action) input done.1)
  performed-Commits client action input live h =
      let passed = checked-later action input h in
      let move = perform-Moves c s client action live passed.0 in
      let done = perform c s client action in
      save-Commits (finalized_by s action) (repaired_by c action) input done.0 done.1
        (ap (λ (t : RemoteAttestedSession P S A B). t.finalized) move.same) passed.1

  refused-Commits :
      (final : Option ℕ) (input : ℕ) (e : RemoteSessionError)
      → Commits s.finalized s.finalized (committed final input (err e))
  refused-Commits none input e = refl
  refused-Commits (some round) input e = refl

  abbrev After : ProtocolAction → (input : ℕ) → RemoteAttestedSession P S A B × Answer → Type 0
  After action input done =
      Commits s.finalized done.0.finalized (committed (finalized_by s action) input done.1)

  pub execute_action-Commits :
      (action : ProtocolAction) (input : ℕ) → After action input (execute_action c s action input)
  execute_action-Commits action input = elim (execute_action-cases c s action input) [
    | replied answer early same ↦
        subst (After action input) (sym same)
          (replied-Commits action input answer (finalized_by s action) refl early)
    | gone same ↦
        subst (After action input) (sym same)
          (refused-Commits (finalized_by s action) input RemoteSessionError.closed)
    | performed client live passed same ↦
        subst (After action input) (sym same) (performed-Commits client action input live passed)
  ]
