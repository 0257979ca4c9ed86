-- ===== src/Scheduler/Proposals/Publications.antt =====
-- What the handlers may publish, and how the publications of two steps are joined.
use anymone.Base.{
  ℕ, ◌≡◌, refl, sym, ap, ◌∙◌, subst, true, false, List, [], ◌∷◌, ◌++◌, map, All, arith,
}
use anymone.Base.Equality.{nat_eq, list_eq}
use anymone.Base.Sets.{contains, contains-append, Distinct, append-Distinct_disjoint}
use anymone.Config.{Configuration}
use anymone.Config.Quorum.{Quorum}
use anymone.Scheduler.State.{
  Env, SchedulerCore, SchedulerAction, Topic, config, publish, stage_proposal,
}
use anymone.Scheduler.Proposals.Events.{configs_of}

configs_of-append :
    (xs ys : List SchedulerAction) → configs_of (xs ++ ys) ≡ configs_of xs ++ configs_of ys
unfolding configs_of
configs_of-append [] ys = refl
configs_of-append (publish config bytes ∷ xs) ys = ap (λ l. bytes ∷ l) (configs_of-append xs ys)
configs_of-append (publish Topic.registration bytes ∷ xs) ys = configs_of-append xs ys
configs_of-append (publish Topic.faults bytes ∷ xs) ys = configs_of-append xs ys
configs_of-append (publish Topic.committee_body bytes ∷ xs) ys = configs_of-append xs ys
configs_of-append (publish Topic.committee_sigs bytes ∷ xs) ys = configs_of-append xs ys
configs_of-append (publish (Topic.shares n) bytes ∷ xs) ys = configs_of-append xs ys
configs_of-append (publish (Topic.broadcast n) bytes ∷ xs) ys = configs_of-append xs ys
configs_of-append (stage_proposal bytes ∷ xs) ys = configs_of-append xs ys

map-append : {X Y : Type 0} (f : X → Y) (xs ys : List X) → map f (xs ++ ys) ≡ map f xs ++ map f ys
map-append f [] ys = refl
map-append f (x ∷ xs) ys = ap (λ l. f x ∷ l) (map-append f xs ys)

All-append : {X : Type 0} (Q : X → Type 0) (xs ys : List X) → All Q xs → All Q ys → All Q (xs ++ ys)
All-append Q [] ys a b = b
All-append Q (x ∷ xs) ys a b = (a.0, All-append Q xs ys a.1 b)

module _ {A P : Type 0} (env : Env A P) where
  abbrev pub keys_of : List Configuration → List (List ℕ)
  keys_of cfgs = map (λ cfg. env.crypto.canonical_bytes cfg.body) cfgs

  -- Every configuration sent by `actions` carries a quorum; no two have the same body, and none has
  -- a body published before. `d` is the state after them.
  pub record Publishes (c d : SchedulerCore A P) (actions : List SchedulerAction) : Type 0 where
    pub cfgs : List Configuration
    pub emitted : configs_of actions ≡ map env.encode_config cfgs
    pub once : Distinct (keys_of cfgs)
    pub fresh : (k : List ℕ) → contains (keys_of cfgs) k ≡ true → contains c.published k ≡ false
    pub recorded : (k : List ℕ) → contains (keys_of cfgs) k ≡ true → contains d.published k ≡ true
    pub kept : (k : List ℕ) → contains c.published k ≡ true → contains d.published k ≡ true
    pub quorum : All (λ cfg. Quorum env.crypto cfg c.committee c.threshold) cfgs
    pub same_committee : d.committee ≡ c.committee
    pub same_threshold : d.threshold ≡ c.threshold

  pub nothing-Publishes :
      (c d : SchedulerCore A P) (actions : List SchedulerAction)
      → configs_of actions ≡ []
      → ((k : List ℕ) → contains c.published k ≡ true → contains d.published k ≡ true)
      → d.committee ≡ c.committee
      → d.threshold ≡ c.threshold
      → Publishes c d actions
  nothing-Publishes c d actions none_sent kept e f = record {
    cfgs = [];
    emitted = none_sent;
    once = tt;
    fresh = λ k h. ground (arith, h);
    recorded = λ k h. ground (arith, h);
    kept = kept;
    quorum = tt;
    same_committee = e;
    same_threshold = f;
  }

  pub append-Publishes :
      (b c d : SchedulerCore A P) (xs ys : List SchedulerAction)
      → Publishes b c xs
      → Publishes c d ys
      → Publishes b d (xs ++ ys)
  append-Publishes b c d xs ys p q =
      let key = λ (cfg : Configuration). env.crypto.canonical_bytes cfg.body in
      let split = map-append key p.cfgs q.cfgs in
      record {
        cfgs = p.cfgs ++ q.cfgs;
        emitted =
            configs_of-append xs ys
            ∙ (ap (λ l. l ++ configs_of ys) p.emitted
                ∙ (ap (λ l. map env.encode_config p.cfgs ++ l) q.emitted
                    ∙ sym (map-append env.encode_config p.cfgs q.cfgs)));
        once = subst Distinct (sym split) (
            append-Distinct_disjoint (keys_of p.cfgs) (keys_of q.cfgs) p.once q.once
              (λ k h. ground (arith, p.recorded k h, q.fresh k)));
        fresh = λ k h. ground (
          arith,
          contains-append (keys_of p.cfgs) (keys_of q.cfgs) k,
          ap (λ l. contains l k) split,
          p.fresh k,
          q.fresh k,
          p.kept k,
        );
        recorded = λ k h. ground (
          arith,
          contains-append (keys_of p.cfgs) (keys_of q.cfgs) k,
          ap (λ l. contains l k) split,
          p.recorded k,
          q.recorded k,
          q.kept k,
        );
        kept = λ k h. q.kept k (p.kept k h);
        quorum = All-append _ p.cfgs q.cfgs p.quorum (
            subst (λ t. All (λ cfg. Quorum env.crypto cfg b.committee t) q.cfgs) p.same_threshold
              (subst (λ l. All (λ cfg. Quorum env.crypto cfg l c.threshold) q.cfgs) p.same_committee
                q.quorum));
        same_committee = q.same_committee ∙ p.same_committee;
        same_threshold = q.same_threshold ∙ p.same_threshold;
      }

  -- A change that touches none of the books.
  abbrev pub SameBooks : SchedulerCore A P → SchedulerCore A P → Type 0
  SameBooks c d =
      (d.published ≡ c.published) × (d.committee ≡ c.committee) × (d.threshold ≡ c.threshold)

  pub quiet-Publishes :
      (c d : SchedulerCore A P) (actions : List SchedulerAction)
      → configs_of actions ≡ []
      → SameBooks c d
      → Publishes c d actions
  quiet-Publishes c d actions h same =
      nothing-Publishes c d actions h (λ k e. ap (λ l. contains l k) same.0 ∙ e) same.1 same.2
