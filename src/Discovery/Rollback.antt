-- ===== src/Discovery/Rollback.antt =====
-- A client never goes back to an older configuration, nor to another one for the same round.
use anymone.Base.{
  ℕ, ◌≡◌, refl, sym, subst, ◌∙◌, inl, inr, ◌⊎◌, Bool, true, Option, none, some, List, [], ◌∷◌, take,
  arith, Bool-cases,
}
use anymone.Base.Equality.{nat_eq, ◌==◌}
use anymone.Base.Results.{ok}
use anymone.Config.{Body, Configuration}
use anymone.Config.Multisig.{Crypto}
use anymone.Discovery.{Genesis, NetworkInfo, Discovery, check_config, adopt_first, refresh}
use anymone.Discovery.Valid.{IsForward, QuorumOf, check_config-eq-ok_iff, Result-cases}

-- A later configuration is the same one, or one that a quorum signed for a later round, or for the
-- same round with the same body.
abbrev pub IsLater :
    Crypto → (Body → Body → Bool) → Genesis → Configuration → Configuration → Type 0
IsLater c same_body g later earlier =
    (later ≡ earlier) ⊎ (QuorumOf c g later × IsForward same_body later (some earlier))

module _ (c : Crypto) (same_body : Body → Body → Bool) (genesis_hash : Genesis → ℕ) where
  -- What is kept, or adopted after the test.
  Adopts : Discovery → Discovery → Type 0
  Adopts d e =
      (e ≡ d)
      ⊎ ((cfg : Configuration) × (e ≡ record d { config = some cfg })
          × (check_config c same_body d.genesis cfg d.config ≡ ok tt))

  adopt_first-Adopts :
      (answers : List (Option NetworkInfo)) (d : Discovery)
      → Adopts d (adopt_first c same_body genesis_hash answers d).0
  unfolding adopt_first Adopts
  adopt_first-Adopts [] d = inl refl
  adopt_first-Adopts (none ∷ answers) d = adopt_first-Adopts answers d
  adopt_first-Adopts (some network ∷ answers) d =
      elim (Bool-cases (genesis_hash network.genesis == genesis_hash d.genesis)) [
        | inr other ↦ rw other (adopt_first-Adopts answers d)
        | inl same ↦
            elim (Result-cases (check_config c same_body d.genesis network.config d.config)) [
              | inl h ↦ rw (same, h) (inr (network.config, refl, h))
              | inr (e, h) ↦ rw (same, h) (adopt_first-Adopts answers d)
            ]
      ]

  abbrev pub refresh_all : List (List (Option NetworkInfo)) → Discovery → Discovery
  refresh_all [] d = d
  refresh_all (answers ∷ rest) d = refresh_all rest (refresh c same_body genesis_hash d answers).0

  abbrev IsTransitive : Type 0
  IsTransitive = (a b d : Body) → same_body a b ≡ true → same_body b d ≡ true → same_body a d ≡ true

  IsForward-trans :
      (x y z : Configuration)
      → IsTransitive
      → IsForward same_body x (some y)
      → IsForward same_body y (some z)
      → IsForward same_body x (some z)
  IsForward-trans x y z trans (inl h) (inl k) = inl (omega (arith, h, k))
  IsForward-trans x y z trans (inl h) (inr (k, s)) = inl (omega (arith, h, k))
  IsForward-trans x y z trans (inr (h, s)) (inl k) = inl (omega (arith, h, k))
  IsForward-trans x y z trans (inr (h, s)) (inr (k, t)) =
      inr (h ∙ k, trans x.body y.body z.body s t)

  IsLater-trans :
      (g : Genesis) (x y z : Configuration)
      → IsTransitive
      → IsLater c same_body g x y
      → IsLater c same_body g y z
      → IsLater c same_body g x z
  IsLater-trans g x y z trans h (inl same) = subst (IsLater c same_body g x) same h
  IsLater-trans g x y z trans (inl same) (inr k) =
      subst (λ w. IsLater c same_body g w z) (sym same) (inr k)
  IsLater-trans g x y z trans (inr (q, h)) (inr (q', k)) = inr (q, IsForward-trans x y z trans h k)

  refresh-IsLater :
      (d : Discovery) (answers : List (Option NetworkInfo)) (e : Configuration)
      → d.config ≡ some e
      → ((refresh c same_body genesis_hash d answers).0.genesis ≡ d.genesis)
        × (l : Configuration) × ((refresh c same_body genesis_hash d answers).0.config ≡ some l)
        × IsLater c same_body d.genesis l e
  unfolding refresh Adopts
  refresh-IsLater d answers e h = elim (adopt_first-Adopts (take 8 answers) d) [
    | inl kept ↦ rw kept (refl, e, h, inl refl)
    | inr (cfg, adopted, passed) ↦
        let (v, q, forward) =
          (check_config-eq-ok_iff c same_body d.genesis cfg d.config).0.0 passed in
        rw adopted (refl, cfg, refl, inr (q, subst (IsForward same_body cfg) h forward))
  ]

  -- Once a client holds a configuration it always holds one, and after any refreshes, whatever the
  -- endpoints answered, it is the same one, or one that a quorum of the genesis committee signed
  -- for a later round, or for the same round with an equal body. The equality of bodies is
  -- transitive.
  pub refresh_all-IsLater :
      (rounds : List (List (Option NetworkInfo))) (d : Discovery) (e : Configuration)
      → ((a b d : Body) → same_body a b ≡ true → same_body b d ≡ true → same_body a d ≡ true)
      → d.config ≡ some e
      → (l : Configuration) × ((refresh_all rounds d).config ≡ some l)
        × IsLater c same_body d.genesis l e
  refresh_all-IsLater [] d e trans h = (e, h, inl refl)
  refresh_all-IsLater (answers ∷ rest) d e trans h =
      let next = (refresh c same_body genesis_hash d answers).0 in
      let (gen, l, held, later) = refresh-IsLater d answers e h in
      let (l', held', later') = refresh_all-IsLater rest next l trans held in
      (
        l',
        held',
        IsLater-trans d.genesis l' l e trans (subst (λ g. IsLater c same_body g l' l) gen later')
            later,
      )
