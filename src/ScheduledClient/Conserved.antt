-- ===== src/ScheduledClient/Conserved.antt =====
-- A scheduled client neither loses nor doubles a message.
use anymone.Base.{ℕ, ◌+◌, ◌≡◌, true, List, [], ◌∷◌, ◌++◌, All, append-All, arith}
use anymone.ScheduledClient.{
  ScheduledClient, Codec, is_real, take_pending_messages, advance_round, accept_reservations,
  reserve_message,
}
use anymone.ScheduledClient.Submission.{finalize_round}
use anymone.ScheduledClient.Totals.{
  occurrences, held, occurrences-append, occurrences-take_pending_messages,
}
use anymone.ScheduledClient.Events.{
  Event, advancing, publishing, reserving, finalizing, Effect, sending, step, run, Rising,
}
use anymone.ScheduledClient.Granting.{
  accept_reservations-held, advance_round-held, reserve_message-held,
}
use anymone.ScheduledClient.Vectors.{Carries, finalize_round-Carries}
use anymone.ScheduledClient.Submitting.{finalize_round-held}
use anymone.ScheduledClient.Before.{
  IsBefore, get-before, accept_reservations-IsBefore, advance_round-IsBefore,
  reserve_message-IsBefore, finalize_round-IsBefore,
}

run-Carries :
    (codec : Codec) (events : List Event) (s : ScheduledClient)
    → All Carries (run codec events s).sendings
run-Carries codec [] s = tt
run-Carries codec (advancing round ∷ events) s = run-Carries codec events (advance_round s round)
run-Carries codec (publishing round entries signature ∷ events) s =
    run-Carries codec events (accept_reservations codec s round entries signature).0
run-Carries codec (reserving payload ∷ events) s =
    run-Carries codec events (reserve_message s payload).0
run-Carries codec (finalizing coins round ∷ events) s =
    let done = finalize_round codec coins s round in
    append-All Carries (sending codec s round done.1) (run codec events done.0).sendings
      (finalize_round-Carries codec coins s round) (run-Carries codec events done.0)

module _ (codec : Codec) (x : List ℕ) (real : is_real x ≡ true) where
  abbrev Conserves : ScheduledClient → Effect → Type 0
  Conserves s done =
      held x done.client + occurrences x done.placed ≡ held x s + occurrences x done.accepted

  joined :
      (s : ScheduledClient) (now later : Effect)
      → Conserves s now
      → Conserves now.client later
      → held x later.client + occurrences x (now.placed ++ later.placed)
        ≡ held x s + occurrences x (now.accepted ++ later.accepted)
  joined s now later h k = omega (
    arith,
    h,
    k,
    occurrences-append x now.placed later.placed,
    occurrences-append x now.accepted later.accepted,
  )

  run-Conserves :
      (events : List Event) (bound : ℕ) (s : ScheduledClient)
      → Rising bound events
      → IsBefore bound s
      → Conserves s (run codec events s)
  unfolding occurrences
  run-Conserves [] bound s rising v = omega arith
  run-Conserves (advancing round ∷ events) bound s rising v =
      joined s (step codec s (advancing round)) (run codec events (advance_round s round))
        (omega (arith, advance_round-held x real s round))
        (run-Conserves events bound (advance_round s round) rising
          (advance_round-IsBefore bound s round v))
  run-Conserves (publishing round entries signature ∷ events) bound s rising v =
      let event = publishing round entries signature in
      let next = (accept_reservations codec s round entries signature).0 in
      joined s (step codec s event) (run codec events next)
        (omega (arith, accept_reservations-held x real codec s round entries signature))
        (run-Conserves events bound next rising
          (accept_reservations-IsBefore codec bound s round entries signature v))
  run-Conserves (reserving payload ∷ events) bound s rising v =
      let next = (reserve_message s payload).0 in
      joined s (step codec s (reserving payload)) (run codec events next)
        (omega (arith, reserve_message-held x real s payload))
        (run-Conserves events bound next rising (reserve_message-IsBefore bound s payload v))
  run-Conserves (finalizing coins round ∷ events) bound s rising v =
      let next = (finalize_round codec coins s round).0 in
      joined s (step codec s (finalizing coins round)) (run codec events next)
        (omega (
          arith,
          finalize_round-held x real codec coins s round
              (get-before s.reserved bound round v rising.0),
        ))
        (run-Conserves events (round + 1) next rising.1
          (finalize_round-IsBefore codec coins bound s round rising.0 v))

  -- Where rounds are submitted in order, whatever the leader publishes and whatever the coins: a
  -- message that is not empty is, as often as it was held or accepted, either in a slot of a round
  -- that went out or still among the messages that are handed back; and each byte of a vector that
  -- went out is that of the last slot due in its round that covers it, or 0.
  pub run_conserves :
      (bound : ℕ) (s : ScheduledClient) (events : List Event)
      → Rising bound events
      → IsBefore bound s
      → let done = run codec events s in
        (occurrences x (take_pending_messages done.client).1 + occurrences x done.placed
          ≡ occurrences x (take_pending_messages s).1 + occurrences x done.accepted)
        × All Carries done.sendings
  run_conserves bound s events rising v = (
    omega (
      arith,
      run-Conserves events bound s rising v,
      occurrences-take_pending_messages x real s,
      occurrences-take_pending_messages x real (run codec events s).client,
    ),
    run-Carries codec events s,
  )
