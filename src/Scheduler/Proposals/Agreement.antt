-- ===== src/Scheduler/Proposals/Agreement.antt =====
-- What a committee member vouches for when it acts on a proposal, and which configurations it
-- adopts.
use anymone.Base.{
  not, ◌&&◌, sym, subst, ◌↔◌, ℕ, ◌+◌, ◌≤◌, ◌<◌, ◌^◌, ◌≡◌, refl, ap, ◌⊎◌, inl, inr, Bool, true,
  false, Option, none, some, List, [], length, ltb, eqb_iff, min, all_of, all_of-All, All, map_or,
  arith, Bool-cases,
}
use anymone.Base.Equality.{nat_eq, list_eq, ◌==◌}
use anymone.Base.Sets.{contains}
use anymone.Base.Maps.{get}
use anymone.Base.Results.{Result, ok, err}
use anymone.Faults.{u64_max}
use anymone.Config.{ExchangePublicKeyWire, Body, Configuration}
use anymone.Config.Multisig.{propose_bytes, ConfigError, verify_multisig}
use anymone.Config.Quorum.{Quorum, verify_multisig-eq-ok_iff}
use anymone.Scheduler.State.{Env, SchedulerCore, SignedProposal}
use anymone.Scheduler.Structure.{validate_structure}
use anymone.Scheduler.Validation.{
  key_beq, maps_to, nat_same, exchange_keys_match, subnet_known, validate_body,
}
use anymone.Scheduler.Proposals.{
  max_round_advance, established, accept_body, on_decoded_body, on_published_config,
}

key_beq→eq : (a b : ExchangePublicKeyWire) → key_beq a b ≡ true → a ≡ b
key_beq→eq a b h =
    let ecdh = (list_eq.beq_iff a.ecdh b.ecdh).0 (ground arith) in
    let kem = (list_eq.beq_iff a.kem b.kem).0 (ground arith) in
    let set_sig = (list_eq.beq_iff a.set_sig b.set_sig).0 (ground arith) in
    λ i. record { ecdh = ecdh i; kem = kem i; set_sig = set_sig i }

module _ {W : Type 0} (same : W → W → Bool) where
  same-some :
      (o : Option W) (v : W)
      → ((a b : W) → same a b ≡ true → a ≡ b)
      → elim o [ none ↦ false | some w ↦ same w v ] ≡ true
      → o ≡ some v
  same-some none v sound e = ground arith
  same-some (some w) v sound e = ap some (sound w v e)

  maps_to→get :
      (m : List (ℕ × W)) (k : ℕ) (v : W)
      → ((a b : W) → same a b ≡ true → a ≡ b)
      → maps_to same m k v ≡ true
      → get m k ≡ some v
  maps_to→get m k v sound h = same-some (get m k) v sound h

-- A bound on every accepted round is the Boolean test.
not_older :
    (last : Option ℕ) (round : ℕ)
    → ((l : ℕ) → last ≡ some l → l ≤ round)
    → map_or false (λ l. ltb round l) last ≡ false
not_older none round h = refl
not_older (some l) round h = ground (arith, h l refl)

module _ {A P : Type 0} (env : Env A P) (c : SchedulerCore A P) where
  -- The lead proposed the body and signed it; the body is no older than the last accepted one and
  -- at most 8 rounds above the newest known; and the member's own test passes: the body keeps the
  -- established epoch and the structural bounds, and the member itself saw every relay, service and
  -- exchange key in it.
  pub record Vouches (proposal : SignedProposal) : Type 0 where
    pub from_lead : proposal.proposer ≡ c.lead
    pub authentic :
        env.crypto.verify c.lead (propose_bytes env.crypto proposal.body) proposal.signature ≡ true
    pub not_stale : (last : ℕ) → c.last_accepted_round ≡ some last → last ≤ proposal.body.round
    pub reachable : proposal.body.round ≤ min (established env c + max_round_advance) u64_max
    pub validated : validate_body env c proposal.body ≡ true
    pub structured : validate_structure env.sizes proposal.body ≡ true
    pub epoch_kept :
        (known : ℕ) → c.epoch_unix_ms ≡ some known → proposal.body.epoch_unix_ms ≡ known
    pub relays_seen :
        All (λ s. All (λ pk. contains c.registered pk ≡ true) s.relays) proposal.body.subnets
    pub services_seen : All (λ s. get c.services s.tag ≡ some s.pubkey) proposal.body.services
    pub keys_seen : All (λ e. get c.relay_xpubs e.0 ≡ some e.1) proposal.body.relay_exchange_keys

  relays_of_known :
      (body : Body)
      → all_of (subnet_known env c) body.subnets ≡ true
      → All (λ s. All (λ pk. contains c.registered pk ≡ true) s.relays) body.subnets
  unfolding subnet_known
  relays_of_known body h =
      all_of-All (subnet_known env c) body.subnets
        (λ s k. all_of-All (contains c.registered) s.relays (λ pk e. e) (ground arith)) h

  validated-Vouches :
      (p : SignedProposal)
      → (p.proposer == c.lead) ≡ true
      → env.crypto.verify p.proposer (propose_bytes env.crypto p.body) p.signature ≡ true
      → map_or false (λ last. ltb p.body.round last) c.last_accepted_round ≡ false
      → ltb (min (established env c + max_round_advance) u64_max) p.body.round ≡ false
      → validate_body env c p.body ≡ true
      → Vouches p
  unfolding validate_body exchange_keys_match
  validated-Vouches p lead signed fresh near valid = record {
    from_lead = (eqb_iff p.proposer c.lead).0 lead;
    authentic = rw (← (eqb_iff p.proposer c.lead).0 lead) signed;
    not_stale = λ last e. ground arith;
    reachable = ground arith;
    validated = valid;
    structured = ground arith;
    epoch_kept = λ known e. ground arith;
    relays_seen = relays_of_known p.body (ground arith);
    services_seen =
        all_of-All _ p.body.services
          (λ s k. maps_to→get nat_same c.services s.tag s.pubkey (λ a b. (eqb_iff a b).0) k)
          (ground arith);
    keys_seen =
        all_of-All _ p.body.relay_exchange_keys
          (λ e k. maps_to→get key_beq c.relay_xpubs e.0 e.1 key_beq→eq k) (ground arith);
  }

  -- A quorum signed the configuration, and it passes the structural test.
  abbrev pub Adoptable : Configuration → Type 0
  Adoptable cfg =
      ((0 < c.threshold)
        × (c.threshold ≤ length c.committee)
        × Quorum env.crypto cfg c.committee c.threshold)
      × (validate_structure env.sizes cfg.body ≡ true)

  -- The tests in the order of the code.
  passes : SignedProposal → Bool
  passes p =
      p.proposer == c.lead
      && env.crypto.verify p.proposer (propose_bytes env.crypto p.body) p.signature
      && not (map_or false (λ last. ltb p.body.round last) c.last_accepted_round)
      && not (ltb (min (established env c + max_round_advance) u64_max) p.body.round)
      && validate_body env c p.body

  Vouches-passes : (p : SignedProposal) → Vouches p → passes p ≡ true
  unfolding passes
  Vouches-passes p v =
      let lead = (eqb_iff p.proposer c.lead).1 v.from_lead in
      let signed : env.crypto.verify p.proposer (propose_bytes env.crypto p.body) p.signature
          ≡ true =
        subst (λ k. env.crypto.verify k (propose_bytes env.crypto p.body) p.signature ≡ true)
          (sym v.from_lead) v.authentic in
      ground (
        arith,
        lead,
        signed,
        not_older c.last_accepted_round p.body.round v.not_stale,
        v.reachable,
        v.validated,
      )

  pub on_decoded_body-cases :
      (p : SignedProposal)
      → (Vouches p × (on_decoded_body env c p ≡ accept_body env c p.body))
        ⊎ ((¬ Vouches p) × (on_decoded_body env c p ≡ (c, [])))
  unfolding on_decoded_body passes
  on_decoded_body-cases p = elim (Bool-cases (passes p)) [
    | inl h ↦ inl (
      validated-Vouches p (ground (arith, h)) (ground (arith, h)) (ground (arith, h))
          (ground (arith, h)) (ground (arith, h)),
      ground (arith, h),
    )
    | inr h ↦ inr (λ v. ground (arith, h, Vouches-passes p v), ground (arith, h))
  ]

  -- A member adopts a published configuration exactly if the threshold is at least 1 and at most the
  -- committee's size, a quorum of the committee signed the configuration, and it passes the
  -- structural test; otherwise nothing changes. The committee has fewer than 2^32 members.
  pub on_published_config-Quorum :
      (cfg : Configuration)
      → length c.committee < 2 ^ 32
      → (Adoptable cfg × ((on_published_config env c cfg).1 ≡ true))
        ⊎ ((¬ Adoptable cfg) × (on_published_config env c cfg ≡ (c, false)))
  unfolding on_published_config
  on_published_config-Quorum cfg small =
      go (verify_multisig env.crypto cfg c.committee c.threshold) refl
    where
      means : (verify_multisig env.crypto cfg c.committee c.threshold ≡ ok tt) ↔ (
          (0 < c.threshold)
          × (c.threshold ≤ length c.committee)
          × Quorum env.crypto cfg c.committee c.threshold)
      means = verify_multisig-eq-ok_iff env.crypto cfg c.committee c.threshold small

      go :
          (r : Result (Unit {0}) ConfigError)
          → verify_multisig env.crypto cfg c.committee c.threshold ≡ r
          → (Adoptable cfg × ((on_published_config env c cfg).1 ≡ true))
            ⊎ ((¬ Adoptable cfg) × (on_published_config env c cfg ≡ (c, false)))
      go (err e) h = inr (λ a. ground (arith, h, means.1 a.0), ground (arith, h))
      go (ok u) h = elim (Bool-cases (validate_structure env.sizes cfg.body)) [
        | inr bad ↦ inr (λ a. ground (arith, bad, a.1), ground (arith, h, bad))
        | inl good ↦ inl ((means.0 h, good), ground (arith, h, good))
      ]
