-- ===== src/Scheduler/Proposals/Roster.antt =====
-- The roster invariant over every sequence of messages.
use anymone.Base.{ℕ, ◌≡◌, refl, sym, ap, ◌∙◌, subst, inl, inr, List, [], ◌∷◌, max, arith}
use anymone.Base.Equality.{nat_eq, list_eq}
use anymone.Base.Sets.{contains, insert, Distinct}
use anymone.Base.Maps.{contains_key}
use anymone.Config.{Body, Configuration, ExchangePublicKeyWire}
use anymone.Config.Multisig.{approve_bytes}
use anymone.Scheduler.State.{Env, SchedulerCore, SchedulerParams, new}
use anymone.Scheduler.FaultReports.Sidelining.{
  IsRoster, on_registration-IsRoster, on_fault_report-IsRoster,
}
use anymone.Scheduler.Proposals.{
  raise, add_sig, try_assemble, accept_body, on_published_config, learn_config,
}
use anymone.Scheduler.Proposals.Agreement.{on_decoded_body-cases}
use anymone.Scheduler.Proposals.Events.{
  Event, decoded_body, committee_sig, published_config, registration_seen, fault_reported, handle,
  handle_all,
}
use anymone.Scheduler.Proposals.Once.{try_assemble-cases, on_committee_sig-cases}

-- What the invariant reads.
abbrev roster_of :
    {A P : Type 0}
    → SchedulerCore A P
    → List ℕ × List ℕ × List (ℕ × ℕ) × List (ℕ × ExchangePublicKeyWire)
roster_of c = (c.registered, c.sidelined, c.integrity_offenders, c.relay_xpubs)

module _ {A P : Type 0} (env : Env A P) where
  roster_of-learn_config :
      (c : SchedulerCore A P) (body : Body) → roster_of (learn_config env c body) ≡ roster_of c
  unfolding learn_config
  roster_of-learn_config c body = ground arith

  roster_of-try_assemble :
      (c : SchedulerCore A P) (body : Body) → roster_of (try_assemble env c body).0 ≡ roster_of c
  roster_of-try_assemble c body = elim (try_assemble-cases env c body) [
    | inl h ↦ ap (λ r. roster_of r.0) h
    | inr (entry, unseen, verified, h) ↦ ap (λ r. roster_of r.0) h
  ]

  roster_of-accept_body :
      (c : SchedulerCore A P) (body : Body) → roster_of (accept_body env c body).0 ≡ roster_of c
  unfolding accept_body
  roster_of-accept_body c body =
      let filed : SchedulerCore A P =
        add_sig env (record c { last_accepted_round = raise c.last_accepted_round body.round })
          (env.crypto.canonical_bytes body) env.key (env.sign (approve_bytes env.crypto body)) in
      roster_of-try_assemble (learn_config env filed body) body ∙ roster_of-learn_config filed body

  roster_of-on_published_config :
      (c : SchedulerCore A P) (cfg : Configuration)
      → roster_of (on_published_config env c cfg).0 ≡ roster_of c
  unfolding on_published_config
  roster_of-on_published_config c cfg =
      let learnt =
        roster_of-learn_config
          (record c {
            last_accepted_round = raise c.last_accepted_round cfg.body.round;
            public_round = max c.public_round cfg.body.round;
            published_round = raise c.published_round cfg.body.round;
            published = insert c.published (env.crypto.canonical_bytes cfg.body);
          })
          cfg.body in
      ground (arith, learnt)

  same-IsRoster : (c d : SchedulerCore A P) → roster_of d ≡ roster_of c → IsRoster c → IsRoster d
  same-IsRoster c d h v =
      let registered = ap (λ r. r.0) h in
      let sidelined = ap (λ r. r.1) h in
      let offenders = ap (λ r. r.2) h in
      let keys = ap (λ r. r.3) h in
      record {
        not_sidelined = λ pk k.
            ap (λ l. contains l pk) sidelined
            ∙ v.not_sidelined pk (ap (λ l. contains l pk) (sym registered) ∙ k);
        not_offending = λ pk k.
            ap (λ l. contains_key l pk) offenders
            ∙ v.not_offending pk (ap (λ l. contains l pk) (sym registered) ∙ k);
        keyed = λ pk k.
            ap (λ l. contains_key l pk) keys
            ∙ v.keyed pk (ap (λ l. contains l pk) (sym registered) ∙ k);
        once = subst Distinct (sym registered) v.once;
      }

  handle-IsRoster : (c : SchedulerCore A P) (e : Event) → IsRoster c → IsRoster (handle env c e).0
  unfolding handle
  handle-IsRoster c (decoded_body p) v = elim (on_decoded_body-cases env c p) [
    | inr (refused, h) ↦ same-IsRoster c _ (ap (λ r. roster_of r.0) h) v
    | inl (w, h) ↦ same-IsRoster c _ (ap (λ r. roster_of r.0) h ∙ roster_of-accept_body c p.body) v
  ]
  handle-IsRoster c (committee_sig s) v = elim (on_committee_sig-cases env c s) [
    | inl h ↦ same-IsRoster c _ (ap (λ r. roster_of r.0) h) v
    | inr (body, h) ↦
        same-IsRoster c _
          (ap (λ r. roster_of r.0) h
            ∙ roster_of-try_assemble (add_sig env c s.body_bytes s.signer s.signature) body)
          v
  ]
  handle-IsRoster c (published_config cfg) v =
      same-IsRoster c _ (roster_of-on_published_config c cfg) v
  handle-IsRoster c (registration_seen r) v = on_registration-IsRoster c r v
  handle-IsRoster c (fault_reported from r now) v = on_fault_report-IsRoster env c from r now v

  handle_all_keeps-IsRoster :
      (es : List Event) (c : SchedulerCore A P) → IsRoster c → IsRoster (handle_all env es c).0
  unfolding handle_all
  handle_all_keeps-IsRoster [] c v = v
  handle_all_keeps-IsRoster (e ∷ es) c v =
      handle_all_keeps-IsRoster es (handle env c e).0 (handle-IsRoster c e v)

  -- From the state of a new member, after any sequence of messages, no registered relay is
  -- sidelined or serves an integrity backoff, each stands once in the list, and its exchange key is
  -- known.
  pub handle_all-new-IsRoster :
      (committee : List ℕ) (threshold : ℕ) (params : SchedulerParams) (es : List Event)
      → IsRoster (handle_all env es (new env committee threshold params)).0
  unfolding new
  handle_all-new-IsRoster committee threshold params es =
      handle_all_keeps-IsRoster es (new env committee threshold params) (record {
        not_sidelined = λ pk h. refl;
        not_offending = λ pk h. refl;
        keyed = λ pk h. ground (arith, h);
        once = tt;
      })
