-- ===== src/AuctionClient/Once.antt =====
-- A scheduled ADCNet client submits a round at most once, and in order.
use anymone.Base.{
  ℕ, ◌≡◌, refl, sym, ◌∙◌, ap, subst, Bool, true, false, ◌&&◌, ◌||◌, Option, none, some, List, [],
  ◌∷◌, ◌++◌, ◌⊎◌, inl, inr, Bool-cases, Option-cases, map_or, All, AllPairs, All-imp, or-false,
  arith,
}
use anymone.Base.Int.{ℤ, pos, ltz, eqz, gt_of, le_transz, ltz_trans, ltz_irrefl}
use anymone.Base.Results.{Result, ok, err, Result-cases}
use anymone.AuctionClient.{
  AuctionOps, AuctionClient, first, recall, recall_stale, is_idle, is_out_of_turn, submitted,
  submit, stage_message, schedule_message_for_next_round, advance_to_round,
  messages_for_current_round, client,
}
use anymone.AuctionClient.Events.{
  Event, scheduling, advancing, submitting, hearing, round_in, step, run,
}
use anymone.AuctionClient.Totals.{hearing-queues}

module _ {R : Type 0} where
  -- The client is at the same round, and has submitted the same one last.
  abbrev SameTurn : AuctionClient R → AuctionClient R → Type 0
  SameTurn s t = (t.submitted_round ≡ s.submitted_round) × (t.current_round ≡ s.current_round)

  -- What a call submits: nothing, or the current round.
  abbrev Submits : AuctionClient R → List ℤ → AuctionClient R → Type 0
  Submits s [] t = SameTurn s t
  Submits s (r ∷ []) t =
      (r ≡ s.current_round)
      × (t.submitted_round ≡ some s.current_round)
      × (t.current_round ≡ s.current_round)
  Submits s (r ∷ q ∷ out) t = ⊥

  recall_stale-SameTurn : (s : AuctionClient R) → SameTurn s (recall_stale s)
  unfolding recall_stale recall
  recall_stale-SameTurn s = elim (Option-cases s.inflight) [
    | inl grounded ↦ ground (arith, grounded)
    | inr (p, flies) ↦ ground (arith, flies)
  ]

  -- The last submitted round is not after the current one.
  abbrev Behind : AuctionClient R → Type 0
  Behind s = (r : ℤ) → s.submitted_round ≡ some r → ltz s.current_round r ≡ false

module _ {R : Type 0} (o : AuctionOps R) where
  -- A submission fails and changes nothing, or is made.
  submit-cases :
      (s : AuctionClient R)
      → ((text : List ℕ) × (submit o s ≡ (s, err text)))
        ⊎ ((won : Bool) × (wire : List ℕ) × (submit o s ≡ (submitted s won, ok (wire ∷ []))))
  unfolding submit
  submit-cases s =
      elim (Result-cases (
        o.prepare_message s.current_round s.previous (map_or [] (λ x. x.0.0) s.inflight)
          (first s.pending))) [
            | inr (text, failed) ↦ inl (text, ground (arith, failed))
            | inl ((message, won), made) ↦ elim (Result-cases (o.sign message)) [
              | inr (text, unsigned) ↦ inl (text, ground (arith, made, unsigned))
              | inl (signed, e) ↦ inr (won, o.encode (client signed o.key), ground (arith, made, e))
            ]
          ]

  fresh_turn :
      (s : AuctionClient R) (r : ℤ)
      → is_out_of_turn o s ≡ false
      → s.submitted_round ≡ some r
      → eqz r s.current_round ≡ false
  unfolding is_out_of_turn
  fresh_turn s r h e = ground (arith, h, e)

  abbrev Called : AuctionClient R → AuctionClient R × Result (List (List ℕ)) (List ℕ) → Type 0
  Called s done = Submits s (round_in s done.1) done.0

  submit-Called : (s t : AuctionClient R) → SameTurn s t → Called s (submit o t)
  unfolding submitted
  submit-Called s t same = elim (submit-cases t) [
    | inl (text, failed) ↦ subst (Called s) (sym failed) same
    | inr (won, wire, made) ↦ subst (Called s) (sym made) (refl, ap some same.1, same.1)
  ]

  -- A call submits nothing, or the current round where it was not the last one submitted.
  abbrev Turns : AuctionClient R → AuctionClient R × Result (List (List ℕ)) (List ℕ) → Type 0
  Turns s done =
      (round_in s done.1 ≡ [])
      ⊎ ((r : ℤ) → s.submitted_round ≡ some r → eqz r s.current_round ≡ false)

  messages-Called :
      (silent : Bool) (s : AuctionClient R)
      → Called s (messages_for_current_round o silent s)
        × Turns s (messages_for_current_round o silent s)
  unfolding messages_for_current_round
  messages-Called silent s = elim (Bool-cases (is_out_of_turn o s)) [
    | inl out ↦
        subst (λ done. Called s done × Turns s done) (sym (out_of_turn out))
          ((refl, refl), inl refl)
    | inr turn ↦ elim (Bool-cases (is_idle (recall_stale s) && silent)) [
      | inl quiet ↦
          subst (λ done. Called s done × Turns s done) (sym (no_cover turn quiet))
            (recall_stale-SameTurn s, inl refl)
      | inr due ↦
          subst (λ done. Called s done × Turns s done) (sym (in_turn turn due))
            (
              submit-Called s (recall_stale s) (recall_stale-SameTurn s),
              inr (λ r. fresh_turn s r turn),
            )
    ]
  ]
    where
      out_of_turn : is_out_of_turn o s ≡ true → messages_for_current_round o silent s ≡ (s, ok [])
      out_of_turn out = ground (arith, out)

      no_cover :
          is_out_of_turn o s ≡ false
          → (is_idle (recall_stale s) && silent) ≡ true
          → messages_for_current_round o silent s ≡ (recall_stale s, ok [])
      no_cover turn quiet = ground (arith, turn, quiet)

      in_turn :
          is_out_of_turn o s ≡ false
          → (is_idle (recall_stale s) && silent) ≡ false
          → messages_for_current_round o silent s ≡ submit o (recall_stale s)
      in_turn turn due = ground (arith, turn, due)

  -- What a step submits comes after all that was submitted before.
  abbrev Ascends : AuctionClient R → List ℤ → AuctionClient R → Type 0
  Ascends s [] t = (t.submitted_round ≡ s.submitted_round) × Behind t
  Ascends s (r ∷ []) t =
      (t.submitted_round ≡ some r)
      × Behind t
      × ((q : ℤ) → s.submitted_round ≡ some q → ltz q r ≡ true)
  Ascends s (r ∷ q ∷ out) t = ⊥

  same-Behind : (s t : AuctionClient R) → SameTurn s t → Behind s → Behind t
  same-Behind s t same v r e =
      subst (λ (cur : ℤ). ltz cur r ≡ false) (sym same.1) (v r (sym same.0 ∙ e))

  of_option : ℤ → Option ℤ → ℤ
  of_option d none = d
  of_option d (some r) = r

  called-Ascends :
      (s : AuctionClient R) (out : List ℤ) (t : AuctionClient R)
      → Behind s
      → Submits s out t
      → (out ≡ []) ⊎ ((r : ℤ) → s.submitted_round ≡ some r → eqz r s.current_round ≡ false)
      → Ascends s out t
  unfolding of_option
  called-Ascends s [] t v h turn = (h.0, same-Behind s t h v)
  called-Ascends s (r ∷ []) t v h (inl none_sent) = absurd (cc)
  called-Ascends s (r ∷ []) t v h (inr fresh) = (
    h.1 ∙ ap some (sym h.0),
    λ q e.
        let same : s.current_round ≡ q = ap (of_option q) (sym h.1 ∙ e) in
        subst (λ (cur : ℤ). ltz cur q ≡ false) (sym (h.2 ∙ same)) (ltz_irrefl q),
    λ q e.
        subst (λ (cur : ℤ). ltz q cur ≡ true) (sym h.0)
          (gt_of q s.current_round (v q e) (fresh q e)),
  )
  called-Ascends s (r ∷ q ∷ out) t v h turn = absurd h

  advance-Ascends :
      (s : AuctionClient R) (round : ℤ) → Behind s → Ascends s [] (advance_to_round s round).0
  unfolding advance_to_round
  advance-Ascends s round v = elim (Bool-cases (ltz round s.current_round || ltz round (pos 1))) [
    | inl back ↦ rw back (refl, v)
    | inr on ↦ rw on (
      refl,
      λ r e.
          le_transz r s.current_round round (v r e)
            (or-false (ltz round s.current_round) (ltz round (pos 1)) on).0,
    )
  ]

  schedule-SameTurn :
      (s : AuctionClient R) (payload : List ℕ) (bid : ℕ)
      → SameTurn s (schedule_message_for_next_round s payload bid).0
  unfolding schedule_message_for_next_round stage_message
  schedule-SameTurn s payload bid = ground arith

  step-Ascends :
      (s : AuctionClient R) (event : Event)
      → Behind s
      → Ascends s (step o s event).rounds (step o s event).client
  step-Ascends s (scheduling payload bid) v =
      let same = schedule-SameTurn s payload bid in
      (same.0, same-Behind s (step o s (scheduling payload bid)).client same v)
  step-Ascends s (advancing round) v = advance-Ascends s round v
  step-Ascends s (submitting silent) v =
      let called = messages-Called silent s in called-Ascends s _ _ v called.0 called.1
  step-Ascends s (hearing payload) v =
      let same = hearing-queues o s payload in
      (same.3, same-Behind s (step o s (hearing payload)).client (same.3, same.2) v)

  abbrev After : Option ℤ → List ℤ → Type 0
  After none out = AllPairs (λ a b. ltz a b ≡ true) out
  After (some q) out = All (λ b. ltz q b ≡ true) out × AllPairs (λ a b. ltz a b ≡ true) out

  ascend :
      (last : Option ℤ) (r : ℤ) (out : List ℤ)
      → ((q : ℤ) → last ≡ some q → ltz q r ≡ true)
      → After (some r) out
      → After last (r ∷ out)
  ascend none r out up h = h
  ascend (some q) r out up h =
      let lt = up q refl in
      (
        (
          lt,
          All-imp (λ b. ltz r b ≡ true) (λ b. ltz q b ≡ true) out
              (λ b more. ltz_trans q r b lt more) h.0,
        ),
        h,
      )

  joined :
      (s t : AuctionClient R) (out later : List ℤ) (last : Option ℤ)
      → s.submitted_round ≡ last
      → Ascends s out t
      → ((next : Option ℤ) → t.submitted_round ≡ next → Behind t → After next later)
      → After last (out ++ later)
  joined s t [] later last e h rest = rest last (h.0 ∙ e) h.1
  joined s t (r ∷ []) later last e h rest =
      ascend last r later (λ q same. h.2 q (e ∙ same)) (rest (some r) h.0 h.1)
  joined s t (r ∷ q ∷ out) later last e h rest = absurd h

  run-After :
      (events : List Event) (last : Option ℤ) (s : AuctionClient R)
      → s.submitted_round ≡ last
      → Behind s
      → After last (run o events s).rounds
  run-After [] none s e v = tt
  run-After [] (some q) s e v = (tt, tt)
  run-After (event ∷ events) last s e v =
      let now = step o s event in
      joined s now.client now.rounds (run o events now.client).rounds last e
        (step-Ascends s event v) (λ next same w. run-After events next now.client same w)

  pairs : (last : Option ℤ) (out : List ℤ) → After last out → AllPairs (λ a b. ltz a b ≡ true) out
  pairs none out h = h
  pairs (some q) out h = h.1

  -- Over any run of a client that has submitted no round yet, the rounds that it submits are each
  -- above all that it submitted before.
  pub run_submits_once :
      (events : List Event) (s : AuctionClient R)
      → s.submitted_round ≡ none
      → AllPairs (λ a b. ltz a b ≡ true) (run o events s).rounds
  run_submits_once events s fresh = run-After events none s fresh (λ r e. absurd (cc))
