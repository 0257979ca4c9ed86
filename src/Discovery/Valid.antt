-- ===== src/Discovery/Valid.antt =====
-- Which genesis and which configuration pass.
use anymone.Base.{
  ℕ, ◌≤◌, ◌<◌, ◌^◌, ◌≡◌, ◌↔◌, ◌≢◌, refl, ◌∙◌, inl, inr, ◌⊎◌, Bool, true, false, ◌||◌, Option, none,
  some, List, [], ◌∷◌, length, length-map, suc, map_or, arith, Bool-cases,
}
use anymone.Base.Equality.{nat_eq, ◌==◌}
use anymone.Base.Sets.{contains, Distinct}
use anymone.Base.Results.{Result, ok, err}
use anymone.Config.{Body, Configuration}
use anymone.Config.Multisig.{Crypto, verify_multisig}
use anymone.Config.Quorum.{Quorum, verify_multisig-eq-ok_iff}
use anymone.Discovery.{
  CommitteeMember, GovernanceConfig, Genesis, Error, config, rollback_or_equivocation, keys_of,
  place_member, sort_members, new, out_of_order, validate, verify_config, is_rollback, check_config,
}

-- The keys strictly increase.
abbrev pub IsIncreasing : List CommitteeMember → Type 0
IsIncreasing [] = Unit
IsIncreasing (x ∷ []) = Unit
IsIncreasing (x ∷ y ∷ ys) = (x.pubkey < y.pubkey) × IsIncreasing (y ∷ ys)

pub record IsGenesis (g : Genesis) : Type 0 where
  pub version_one : g.version ≡ 1
  pub some_member : 1 ≤ length g.governance.committee
  pub few_members : length g.governance.committee ≤ 256
  pub positive : 1 ≤ g.governance.threshold
  pub reachable : g.governance.threshold ≤ length g.governance.committee
  pub increasing : IsIncreasing g.governance.committee

out_of_order_iff : (ms : List CommitteeMember) → (out_of_order ms ≡ false) ↔ IsIncreasing ms
out_of_order_iff [] = (λ h. tt, λ h. refl)
out_of_order_iff (x ∷ []) = (λ h. tt, λ h. refl)
out_of_order_iff (x ∷ y ∷ ys) = ground (arith, out_of_order_iff (y ∷ ys))

pub validate-eq-ok_iff : (g : Genesis) → (validate g ≡ ok tt) ↔ IsGenesis g
unfolding validate
validate-eq-ok_iff g =
    let order = out_of_order_iff g.governance.committee in
    (
      λ h. record {
        version_one = ground (arith, h);
        some_member = ground (arith, h);
        few_members = ground (arith, h);
        positive = ground (arith, h);
        reachable = ground (arith, h);
        increasing = order.0 (ground (arith, h));
      },
      λ v. ground (
        arith,
        v.version_one,
        v.some_member,
        v.few_members,
        v.positive,
        v.reachable,
        order.1 v.increasing,
      ),
    )

length-place_member :
    (m : CommitteeMember) (ms : List CommitteeMember) → length (place_member m ms) ≡ suc (length ms)
unfolding place_member
length-place_member m [] = refl
length-place_member m (x ∷ xs) = ground (arith, length-place_member m xs)

length-sort_members : (ms : List CommitteeMember) → length (sort_members ms) ≡ length ms
unfolding sort_members
length-sort_members [] = refl
length-sort_members (m ∷ ms) =
    ground (arith, length-place_member m (sort_members ms), length-sort_members ms)

contains-place_member :
    (m : CommitteeMember) (ms : List CommitteeMember) (k : ℕ)
    → contains (keys_of (place_member m ms)) k ≡ (m.pubkey == k || contains (keys_of ms) k)
unfolding place_member
contains-place_member m [] k = refl
contains-place_member m (x ∷ xs) k = ground (arith, contains-place_member m xs k)

contains-sort_members :
    (ms : List CommitteeMember) (k : ℕ)
    → contains (keys_of (sort_members ms)) k ≡ contains (keys_of ms) k
unfolding sort_members
contains-sort_members [] k = refl
contains-sort_members (m ∷ ms) k =
    ground (arith, contains-place_member m (sort_members ms) k, contains-sort_members ms k)

place_member-IsIncreasing :
    (m : CommitteeMember) (ms : List CommitteeMember)
    → contains (keys_of ms) m.pubkey ≡ false
    → IsIncreasing ms
    → IsIncreasing (place_member m ms)
unfolding place_member
place_member-IsIncreasing m [] new_key v = tt
place_member-IsIncreasing m (x ∷ []) new_key v = ground (arith, new_key)
place_member-IsIncreasing m (x ∷ y ∷ ys) new_key v =
    ground (arith, new_key, v, place_member-IsIncreasing m (y ∷ ys))

sort_members-IsIncreasing :
    (ms : List CommitteeMember) → Distinct (keys_of ms) → IsIncreasing (sort_members ms)
unfolding sort_members
sort_members-IsIncreasing [] d = tt
sort_members-IsIncreasing (m ∷ ms) d =
    place_member-IsIncreasing m (sort_members ms) (contains-sort_members ms m.pubkey ∙ d.0)
      (sort_members-IsIncreasing ms d.1)

-- A genesis made of 1 to 256 members with distinct keys, in any order, and a threshold from 1 to
-- their number passes its own test, and has the same members' keys.
pub validate-new :
    (g : GovernanceConfig)
    → Distinct (keys_of g.committee)
    → 1 ≤ g.threshold
    → g.threshold ≤ length g.committee
    → length g.committee ≤ 256
    → (validate (new g) ≡ ok tt)
      × ((k : ℕ)
          → contains (keys_of (new g).governance.committee) k ≡ contains (keys_of g.committee) k)
unfolding new
validate-new g d low high few =
    let same = length-sort_members g.committee in
    (
      (validate-eq-ok_iff (new g)).1 (record {
        version_one = refl;
        some_member = omega (arith, low, high, same);
        few_members = omega (arith, few, same);
        positive = low;
        reachable = omega (arith, high, same);
        increasing = sort_members-IsIncreasing g.committee d;
      }),
      contains-sort_members g.committee,
    )

pub Result-cases {ℓ} :
    {E : Type ℓ} (r : Result (Unit {0}) E) → (r ≡ ok tt) ⊎ ((e : E) × (r ≡ err e))
Result-cases (ok u) = inl refl
Result-cases (err e) = inr (e, refl)

not_rollback : (g : Genesis) (e : Error) → validate g ≡ err e → e ≢ rollback_or_equivocation
unfolding validate
not_rollback g e h same = ground (arith, h, same)

-- Neither older than the configuration held, nor another one for its round.
abbrev pub IsForward : (Body → Body → Bool) → Configuration → Option Configuration → Type 0
IsForward same_body cfg none = Unit
IsForward same_body cfg (some previous) =
    (previous.body.round < cfg.body.round)
    ⊎ ((cfg.body.round ≡ previous.body.round) × (same_body cfg.body previous.body ≡ true))

abbrev pub QuorumOf : Crypto → Genesis → Configuration → Type 0
QuorumOf c g cfg = Quorum c cfg (keys_of g.governance.committee) g.governance.threshold

module _ (c : Crypto) (same_body : Body → Body → Bool) where
  verify_config-cases :
      (g : Genesis) (cfg : Configuration)
      → ((verify_config c g cfg ≡ ok tt) × IsGenesis g × QuorumOf c g cfg)
        ⊎ ((e : Error) × (verify_config c g cfg ≡ err e)
            × (e ≢ rollback_or_equivocation)
            × (¬ (IsGenesis g × QuorumOf c g cfg)))
  unfolding verify_config
  verify_config-cases g cfg =
      let keys = keys_of g.governance.committee in
      let small : IsGenesis g → length keys < 2 ^ 32 = λ v. omega (
        arith,
        v.few_members,
        length-map (λ (m : CommitteeMember). m.pubkey) g.governance.committee,
      ) in
      elim (Result-cases (validate g)) [
        | inr (e, h) ↦ inr (
          e,
          ground (arith, h),
          not_rollback g e h,
          λ v. ground (arith, h, (validate-eq-ok_iff g).1 v.0),
        )
        | inl h ↦
            let v = (validate-eq-ok_iff g).0 h in
            let test = verify_multisig-eq-ok_iff c cfg keys g.governance.threshold (small v) in
            elim (Result-cases (verify_multisig c cfg keys g.governance.threshold)) [
              | inl k ↦ inl (ground (arith, h, k), v, (test.0 k).2)
              | inr (e, k) ↦ inr (
                config e,
                ground (arith, h, k),
                λ same. cc,
                λ q.
                    let passes = test.1 (
                      v.positive,
                      omega (
                        arith,
                        v.reachable,
                        length-map (λ (m : CommitteeMember). m.pubkey) g.governance.committee,
                      ),
                      q.1,
                    ) in
                    ground (arith, k, passes),
              )
            ]
      ]

  is_rollback_iff :
      (cfg : Configuration) (previous : Option Configuration)
      → (map_or false (is_rollback same_body cfg) previous ≡ false)
        ↔ IsForward same_body cfg previous
  unfolding is_rollback
  is_rollback_iff cfg none = (λ h. tt, λ h. refl)
  is_rollback_iff cfg (some previous) = ground arith

  -- A configuration passes exactly if the genesis is well formed, a quorum of its committee signed
  -- the configuration, and it is neither older than the one held nor another one for its round;
  -- and it is refused for rollback or equivocation exactly if only the last condition fails.
  pub check_config-eq-ok_iff :
      (g : Genesis) (cfg : Configuration) (previous : Option Configuration)
      → ((check_config c same_body g cfg previous ≡ ok tt)
          ↔ (IsGenesis g × QuorumOf c g cfg × IsForward same_body cfg previous))
        × ((check_config c same_body g cfg previous ≡ err rollback_or_equivocation)
            ↔ (IsGenesis g × QuorumOf c g cfg × (¬ IsForward same_body cfg previous)))
  unfolding check_config
  check_config-eq-ok_iff g cfg previous =
      let fwd = is_rollback_iff cfg previous in
      elim (verify_config-cases g cfg) [
        | inl (h, v, q) ↦ elim (Bool-cases (map_or false (is_rollback same_body cfg) previous)) [
          | inl bad ↦ (
            (λ k. ground (arith, k, h, bad), λ k. ground (arith, bad, fwd.1 k.2)),
            (λ k. (v, q, λ f. ground (arith, bad, fwd.1 f)), λ k. ground (arith, h, bad)),
          )
          | inr good ↦ (
            (λ k. (v, q, fwd.0 good), λ k. ground (arith, h, good)),
            (λ k. ground (arith, k, h, good), λ k. absurd (k.2 (fwd.0 good))),
          )
        ]
        | inr (e, h, other, bad) ↦ (
          (λ k. ground (arith, k, h), λ k. absurd (bad (k.0, k.1))),
          (
            λ k.
                let same : e ≡ rollback_or_equivocation = ground (arith, k, h) in
                absurd (other same),
            λ k. absurd (bad (k.0, k.1)),
          ),
        )
      ]
