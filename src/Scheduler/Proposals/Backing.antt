-- ===== src/Scheduler/Proposals/Backing.antt =====
-- What a committee member does when it acts on a proposal.
use anymone.Base.{
  ℕ, ◌≡◌, refl, sym, ap, ◌∙◌, subst, true, ◌⊎◌, inl, inr, Option, some, List, [], ◌∷◌, unwrap_or,
  if◌then◌else◌, arith,
}
use anymone.Base.Equality.{nat_eq, list_eq, ◌==◌}
use anymone.Base.Maps.{get, get-put}
use anymone.Config.{Body}
use anymone.Config.Multisig.{approve_bytes}
use anymone.Scheduler.State.{
  Env, SchedulerCore, SignedProposal, SchedulerAction, publish, committee_sigs,
}
use anymone.Scheduler.Proposals.{
  raise, add_sig, to_list, try_assemble, learn_config, accept_body, on_decoded_body,
}
use anymone.Scheduler.Proposals.Agreement.{Vouches, on_decoded_body-cases}
use anymone.Scheduler.Proposals.Once.{try_assemble-cases}

-- What the member remembers of the bodies that it acted on.
abbrev memory_of :
    {A P : Type 0} → SchedulerCore A P → List (List ℕ × List (ℕ × List ℕ)) × Option ℕ × Option ℕ
memory_of c = (c.sigs, c.last_accepted_round, c.epoch_unix_ms)

module _ {A P : Type 0} (env : Env A P) where
  memory_of-learn_config :
      (c : SchedulerCore A P) (body : Body)
      → memory_of (learn_config env c body)
        ≡ (c.sigs, c.last_accepted_round, some body.epoch_unix_ms)
  unfolding learn_config
  memory_of-learn_config c body = ground arith

  memory_of-try_assemble :
      (c : SchedulerCore A P) (body : Body) → memory_of (try_assemble env c body).0 ≡ memory_of c
  memory_of-try_assemble c body = elim (try_assemble-cases env c body) [
    | inl h ↦ ap (λ r. memory_of r.0) h
    | inr (entry, unseen, verified, h) ↦ ap (λ r. memory_of r.0) h
  ]

module _ {A P : Type 0} (env : Env A P) (c : SchedulerCore A P) where
  -- What acting on a body is: the member sends its signature of the body and then whatever the
  -- collected signatures now complete; its signature is filed under the body's bytes beside those
  -- that were there, the round counts as accepted, and the epoch is the body's.
  pub record Backs (body : Body) (done : SchedulerCore A P × List SchedulerAction) : Type 0 where
    pub sent :
        (assembled : List SchedulerAction) × (done.1
          ≡ publish committee_sigs (
              env.encode_sig (record {
                body_bytes = env.crypto.canonical_bytes body;
                signer = env.key;
                signature = env.sign (approve_bytes env.crypto body);
              }))
            ∷ assembled)
    pub filed :
        (signer : ℕ)
        → get (unwrap_or [] (get done.0.sigs (env.crypto.canonical_bytes body))) signer ≡ (
            if env.key == signer
            then some (env.sign (approve_bytes env.crypto body))
            else get (unwrap_or [] (get c.sigs (env.crypto.canonical_bytes body))) signer)
    pub accepted : done.0.last_accepted_round ≡ raise c.last_accepted_round body.round
    pub clocked : done.0.epoch_unix_ms ≡ some body.epoch_unix_ms

  accept_body-Backs : (body : Body) → Backs body (accept_body env c body)
  unfolding accept_body
  accept_body-Backs body =
      let canonical = env.crypto.canonical_bytes body in
      let sig = env.sign (approve_bytes env.crypto body) in
      let raised : SchedulerCore A P = record c {
        last_accepted_round = raise c.last_accepted_round body.round;
      } in
      let filed : SchedulerCore A P = add_sig env raised canonical env.key sig in
      let same_body : (canonical == canonical) ≡ true =
        (list_eq.beq_iff canonical canonical).1 refl in
      let same =
        memory_of-try_assemble env (learn_config env filed body) body
        ∙ memory_of-learn_config env filed body in
      record {
        sent = (to_list env (try_assemble env (learn_config env filed body) body).1, refl);
        filed = λ signer.
            ap (λ m. get (unwrap_or [] (get m.0 canonical)) signer) same
            ∙ ap (λ (o : Option (List (ℕ × List ℕ))). get (unwrap_or [] o) signer)
                (get-put c.sigs canonical canonical _)
            ∙ ground (
              arith,
              same_body,
              get-put (unwrap_or [] (get c.sigs canonical)) env.key signer sig,
            );
        accepted = ap (λ m. m.1) same;
        clocked = ap (λ m. m.2) same;
      }

  -- A member acts on a proposal exactly if it vouches for it: then it sends its signature of the body
  -- first, files it beside those collected for the body, counts the round as accepted and takes the
  -- body's epoch; otherwise it changes nothing and sends nothing.
  pub on_decoded_body-Vouches :
      (p : SignedProposal)
      → (Vouches env c p × Backs p.body (on_decoded_body env c p))
        ⊎ ((¬ Vouches env c p) × (on_decoded_body env c p ≡ (c, [])))
  on_decoded_body-Vouches p = elim (on_decoded_body-cases env c p) [
    | inl (v, h) ↦ inl (v, subst (Backs p.body) (sym h) (accept_body-Backs p.body))
    | inr refused ↦ inr refused
  ]
