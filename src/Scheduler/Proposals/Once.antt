-- ===== src/Scheduler/Proposals/Once.antt =====
-- A member never publishes a configuration without a quorum, nor two for one body.
use anymone.Base.{
  ℕ, ◌<◌, ◌^◌, ◌%◌, ◌≡◌, refl, sym, subst, ◌⊎◌, inl, inr, false, none, some, List, [], ◌∷◌, length,
  ltb, arith, Bool-cases, Option-cases,
}
use anymone.Base.Equality.{nat_eq, list_eq}
use anymone.Base.Sets.{contains, insert, contains-insert}
use anymone.Base.Maps.{get}
use anymone.Base.Results.{Result, ok, err}
use anymone.Config.{Body}
use anymone.Config.Multisig.{approve_bytes, ConfigError, verify_multisig}
use anymone.Config.Quorum.{verify_multisig-eq-ok_iff}
use anymone.Scheduler.State.{
  Env, SchedulerCore, config, publish, SignedProposal, CommitteeSig, committee_sigs,
}
use anymone.Scheduler.Proposals.{
  raise, add_sig, try_assemble, assembled, accept_body, on_decoded_body, on_committee_sig,
  learn_config, to_list,
}
use anymone.Scheduler.Proposals.Agreement.{on_decoded_body-cases}
use anymone.Scheduler.Proposals.Events.{configs_of}
use anymone.Scheduler.Proposals.Publications.{
  Publishes, SameBooks, nothing-Publishes, quiet-Publishes, append-Publishes,
}

module _ {A P : Type 0} (env : Env A P) where
  abbrev pub after_publishing : SchedulerCore A P → Body → SchedulerCore A P
  after_publishing c body = record c {
    published = insert c.published (env.crypto.canonical_bytes body);
    published_round = raise c.published_round body.round;
  }

  abbrev pub Assembles : SchedulerCore A P → Body → Type 0
  Assembles c body =
      (entry : List (ℕ × List ℕ)) × (contains c.published (env.crypto.canonical_bytes body) ≡ false)
      × (verify_multisig env.crypto (assembled env body entry) c.committee c.threshold ≡ ok tt)
      × (try_assemble env c body ≡ (
        after_publishing c body,
        some (publish config (env.encode_config (assembled env body entry))),
      ))

  pub try_assemble-cases :
      (c : SchedulerCore A P) (body : Body)
      → (try_assemble env c body ≡ (c, none)) ⊎ Assembles c body
  unfolding try_assemble
  try_assemble-cases c body =
      let key = env.crypto.canonical_bytes body in
      elim (Bool-cases (contains c.published key)) [
        | inl h ↦ inl (ground (arith, h))
        | inr new ↦ elim (Option-cases (get c.sigs key)) [
          | inl h ↦ inl (ground (arith, new, h))
          | inr (entry, h) ↦ elim (Bool-cases (ltb (length entry % 2 ^ 32) c.threshold)) [
            | inl few ↦ inl (ground (arith, new, h, few))
            | inr many ↦
                go entry new h many
                  (verify_multisig env.crypto (assembled env body entry) c.committee c.threshold)
                  refl
          ]
        ]
      ]
    where
      go :
          (entry : List (ℕ × List ℕ))
          → contains c.published (env.crypto.canonical_bytes body) ≡ false
          → get c.sigs (env.crypto.canonical_bytes body) ≡ some entry
          → ltb (length entry % 2 ^ 32) c.threshold ≡ false
          → (r : Result (Unit {0}) ConfigError)
          → verify_multisig env.crypto (assembled env body entry) c.committee c.threshold ≡ r
          → (try_assemble env c body ≡ (c, none)) ⊎ Assembles c body
      go entry new h many (err e) k = inl (ground (arith, new, h, many, k))
      go entry new h many (ok u) k = inr (entry, new, k, ground (arith, new, h, many, k))

  assembled-Publishes :
      (c : SchedulerCore A P) (body : Body) (entry : List (ℕ × List ℕ))
      → length c.committee < 2 ^ 32
      → contains c.published (env.crypto.canonical_bytes body) ≡ false
      → verify_multisig env.crypto (assembled env body entry) c.committee c.threshold ≡ ok tt
      → Publishes env c
          (after_publishing c body)
          (publish config (env.encode_config (assembled env body entry)) ∷ [])
  unfolding configs_of
  assembled-Publishes c body entry small new verified =
      let key = env.crypto.canonical_bytes body in
      record {
        cfgs = assembled env body entry ∷ [];
        emitted = refl;
        once = (refl, tt);
        fresh = λ k h.
            subst (λ x. contains c.published x ≡ false)
              ((list_eq.beq_iff key k).0 (ground (arith, h))) new;
        recorded = λ k h. ground (arith, h, contains-insert c.published key k);
        kept = λ k h. ground (arith, h, contains-insert c.published key k);
        quorum = (
          ((verify_multisig-eq-ok_iff env.crypto (assembled env body entry) c.committee c.threshold
                small).0
              verified).2,
          tt,
        );
        same_committee = refl;
        same_threshold = refl;
      }

  try_assemble-Publishes :
      (c : SchedulerCore A P) (body : Body)
      → length c.committee < 2 ^ 32
      → Publishes env c (try_assemble env c body).0 (to_list env (try_assemble env c body).1)
  unfolding configs_of
  try_assemble-Publishes c body small = elim (try_assemble-cases c body) [
    | inl h ↦
        subst (λ r. Publishes env c r.0 (to_list env r.1)) (sym h)
          (nothing-Publishes env c c [] refl (λ k e. e) refl refl)
    | inr (entry, new, verified, h) ↦
        subst (λ r. Publishes env c r.0 (to_list env r.1)) (sym h)
          (assembled-Publishes c body entry small new verified)
  ]

  pub learn_config-SameBooks :
      (c : SchedulerCore A P) (body : Body) → SameBooks env c (learn_config env c body)
  unfolding learn_config
  learn_config-SameBooks c body = (ground arith, ground arith, ground arith)

  -- A member's own signature is sent first; what follows is the assembly on the learned state.
  accept_body-Publishes :
      (c : SchedulerCore A P) (body : Body)
      → length c.committee < 2 ^ 32
      → Publishes env c (accept_body env c body).0 (accept_body env c body).1
  unfolding accept_body configs_of
  accept_body-Publishes c body small =
      let filed : SchedulerCore A P =
        add_sig env (record c { last_accepted_round = raise c.last_accepted_round body.round })
          (env.crypto.canonical_bytes body) env.key (env.sign (approve_bytes env.crypto body)) in
      let same = learn_config-SameBooks filed body in
      append-Publishes env c (learn_config env filed body) _
        (publish committee_sigs (
            env.encode_sig (record {
              body_bytes = env.crypto.canonical_bytes body;
              signer = env.key;
              signature = env.sign (approve_bytes env.crypto body);
            }))
          ∷ [])
        _ (quiet-Publishes env c (learn_config env filed body) _ refl same)
        (try_assemble-Publishes (learn_config env filed body) body
          (subst (λ l. length l < 2 ^ 32) (sym same.1) small))

  pub on_decoded_body-Publishes :
      (c : SchedulerCore A P) (p : SignedProposal)
      → length c.committee < 2 ^ 32
      → Publishes env c (on_decoded_body env c p).0 (on_decoded_body env c p).1
  unfolding configs_of
  on_decoded_body-Publishes c p small = elim (on_decoded_body-cases env c p) [
    | inr (refused, h) ↦
        subst (λ r. Publishes env c r.0 r.1) (sym h)
          (quiet-Publishes env c c [] refl (refl, refl, refl))
    | inl (v, h) ↦
        subst (λ r. Publishes env c r.0 r.1) (sym h) (accept_body-Publishes c p.body small)
  ]

  pub on_committee_sig-cases :
      (c : SchedulerCore A P) (s : CommitteeSig)
      → (on_committee_sig env c s ≡ (c, []))
        ⊎ ((body : Body) × (on_committee_sig env c s ≡ (
          (try_assemble env (add_sig env c s.body_bytes s.signer s.signature) body).0,
          to_list env (try_assemble env (add_sig env c s.body_bytes s.signer s.signature) body).1,
        )))
  unfolding on_committee_sig
  on_committee_sig-cases c s = elim (Bool-cases (contains c.committee s.signer)) [
    | inr h ↦ inl (ground (arith, h))
    | inl member ↦ elim (Option-cases (env.from_canonical_bytes s.body_bytes)) [
      | inl h ↦ inl (ground (arith, member, h))
      | inr (body, h) ↦
          elim (Bool-cases
            (env.crypto.verify s.signer (approve_bytes env.crypto body) s.signature)) [
              | inr bad ↦ inl (ground (arith, member, h, bad))
              | inl good ↦ inr (body, ground (arith, member, h, good))
            ]
    ]
  ]

  pub on_committee_sig-Publishes :
      (c : SchedulerCore A P) (s : CommitteeSig)
      → length c.committee < 2 ^ 32
      → Publishes env c (on_committee_sig env c s).0 (on_committee_sig env c s).1
  unfolding configs_of
  on_committee_sig-Publishes c s small = elim (on_committee_sig-cases c s) [
    | inl h ↦
        subst (λ r. Publishes env c r.0 r.1) (sym h)
          (quiet-Publishes env c c [] refl (refl, refl, refl))
    | inr (body, h) ↦
        let filed = add_sig env c s.body_bytes s.signer s.signature in
        subst (λ r. Publishes env c r.0 r.1) (sym h)
          (append-Publishes env c filed _ [] _
            (quiet-Publishes env c filed [] refl (refl, refl, refl))
            (try_assemble-Publishes filed body small))
  ]
