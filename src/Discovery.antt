-- ===== src/Discovery.antt =====
-- crates/anymone-core/src/discovery.rs and the refresh loop of
-- crates/anymone-rpc-client/src/discovery.rs: the genesis, the test of a configuration against it and
-- against the one held, and what a client adopts. The hash of a genesis and the derived equality of
-- bodies, which compares floats by value, are parameters; an endpoint's answer is an input.
pub mod Valid
pub mod Rollback
use anymone.Base.{
  ℕ, Bool, true, false, ◌&&◌, ◌||◌, not, Option, none, some, List, [], ◌∷◌, map, length, ltb, leb,
  eqb, take, map_or, if◌then◌else◌,
}
use anymone.Base.Equality.{nat_eq, ◌==◌}
use anymone.Base.Results.{Result, ok, err}
use anymone.Config.{ExchangePublicKeyWire, Body, Configuration}
use anymone.Config.Multisig.{Crypto, ConfigError, verify_multisig}

pub record CommitteeMember : Type 0 where
  pub pubkey : ℕ
  pub exchange_pubkey : ExchangePublicKeyWire

pub record GovernanceConfig : Type 0 where
  pub committee : List CommitteeMember
  pub threshold : ℕ

pub record Genesis : Type 0 where
  pub version : ℕ
  pub governance : GovernanceConfig

pub data Error : Type 0 where
  invalid_genesis rollback_or_equivocation : Error
  config : ConfigError → Error

abbrev pub keys_of : List CommitteeMember → List ℕ
keys_of members = map (λ (m : CommitteeMember). m.pubkey) members

-- `sort_by_key`, which is stable.
unfoldable pub place_member : CommitteeMember → List CommitteeMember → List CommitteeMember
place_member m [] = m ∷ []
place_member m (x ∷ xs) =
    let rest = place_member m xs in if leb m.pubkey x.pubkey then m ∷ x ∷ xs else x ∷ rest

unfoldable pub sort_members : List CommitteeMember → List CommitteeMember
sort_members [] = []
sort_members (m ∷ members) = place_member m (sort_members members)

unfoldable pub new : GovernanceConfig → Genesis
new governance = record {
  version = 1;
  governance = record governance { committee = sort_members governance.committee };
}

-- `windows(2).any(|members| members[0].pubkey >= members[1].pubkey)`
abbrev pub out_of_order : List CommitteeMember → Bool
out_of_order [] = false
out_of_order (x ∷ []) = false
out_of_order (x ∷ y ∷ ys) = leb y.pubkey x.pubkey || out_of_order (y ∷ ys)

unfoldable pub validate : Genesis → Result (Unit {0}) Error
validate g =
    let committee = g.governance.committee in
    if not (g.version == 1)
      || length committee == 0
      || ltb 256 (length committee)
      || g.governance.threshold == 0
      || ltb (length committee) g.governance.threshold
      || out_of_order committee
    then err invalid_genesis
    else ok tt

pub record NetworkInfo : Type 0 where
  pub genesis : Genesis
  pub config : Configuration

-- The fields of `Discovery` that the loop of `refresh` reads and writes.
pub record Discovery : Type 0 where
  pub genesis : Genesis
  pub config : Option Configuration

unfoldable pub verify_config : Crypto → Genesis → Configuration → Result (Unit {0}) Error
verify_config c g cfg = elim (validate g) [
  | err e ↦ err e
  | ok u ↦ elim (verify_multisig c cfg (keys_of g.governance.committee) g.governance.threshold) [
    | err e ↦ err (config e)
    | ok u ↦ ok tt
  ]
]

-- The closure of `is_some_and`.
unfoldable pub is_rollback : (Body → Body → Bool) → Configuration → Configuration → Bool
is_rollback same_body cfg previous =
    ltb cfg.body.round previous.body.round
    || (cfg.body.round == previous.body.round && not (same_body cfg.body previous.body))

unfoldable pub check_config :
    Crypto
    → (Body → Body → Bool)
    → Genesis
    → Configuration
    → Option Configuration
    → Result (Unit {0}) Error
check_config c same_body g cfg previous = elim (verify_config c g cfg) [
  | err e ↦ err e
  | ok u ↦
      if map_or false (is_rollback same_body cfg) previous
      then err rollback_or_equivocation
      else ok tt
]

module _ (c : Crypto) (same_body : Body → Body → Bool) (genesis_hash : Genesis → ℕ) where
  -- The loop of `refresh` over what the endpoints answered: `none` for an address that is not
  -- valid or does not answer.
  unfoldable pub adopt_first : List (Option NetworkInfo) → Discovery → Discovery × Bool
  adopt_first [] d = (d, false)
  adopt_first (none ∷ answers) d = adopt_first answers d
  adopt_first (some network ∷ answers) d =
      let later = adopt_first answers d in
      if not (genesis_hash network.genesis == genesis_hash d.genesis)
      then later
      else elim (check_config c same_body d.genesis network.config d.config) [
        | err e ↦ later
        | ok u ↦ (record d { config = some network.config }, true)
      ]

  -- `refresh` up to the test of `found`: at most eight endpoints are asked.
  unfoldable pub refresh : Discovery → List (Option NetworkInfo) → Discovery × Bool
  refresh d answers = adopt_first (take 8 answers) d
