-- ===== src/Examples/Networks.antt =====
-- The theorems on discovery and on network views: a genesis hash is its version, and two bodies are the
-- same when they have the same watchers.
use anymone.Base.{
  ℕ, ◌≡◌, ◌↔◌, refl, ◌∙◌, Bool, true, ◌||◌, Option, none, some, List, [], ◌∷◌, any_of, map_or,
}
use anymone.Base.Equality.{nat_eq, list_eq, ◌==◌}
use anymone.Base.Sets.{contains}
use anymone.Base.Results.{ok, err}
use anymone.Config.{Subnet, Body, Configuration}
use anymone.Scheduler.State.{config, registration, faults, shares, broadcast}
use anymone.Discovery.{
  CommitteeMember, Genesis, NetworkInfo, Discovery, rollback_or_equivocation, check_config,
}
use anymone.Discovery.Valid.{IsGenesis, QuorumOf, IsForward, check_config-eq-ok_iff}
use anymone.Discovery.Rollback.{refresh_all, IsLater, refresh_all-IsLater}
use anymone.Views.{net_view, is_noop}
use anymone.Views.Peers.{serves}
use anymone.Views.Admission.{may_send, subnet_of, net_view-Admission}
use anymone.Examples.Data.{crypto, body_at, noop_subnet, panetiere_subnet, signed_config}

abbrev member : ℕ → CommitteeMember
member key = record { pubkey = key; exchange_pubkey = record { ecdh = []; kem = []; set_sig = [] } }

abbrev genesis : Genesis
genesis = record {
  version = 1;
  governance = record { committee = member 1 ∷ member 2 ∷ member 3 ∷ []; threshold = 2 };
}

abbrev same_body : Body → Body → Bool
same_body a b = a.watchers == b.watchers

abbrev older : Configuration
older = record { body = body_at 1 noop_subnet; signatures = [] }

check_config-eq-ok_iff_example :
    ((check_config crypto same_body genesis signed_config (some older) ≡ ok tt) ↔ (
      IsGenesis genesis
      × QuorumOf crypto genesis signed_config
      × IsForward same_body signed_config (some older)))
    × ((check_config crypto same_body genesis signed_config (some older)
          ≡ err rollback_or_equivocation)
        ↔ (IsGenesis genesis
            × QuorumOf crypto genesis signed_config
            × (¬ IsForward same_body signed_config (some older))))
check_config-eq-ok_iff_example =
    check_config-eq-ok_iff crypto same_body genesis signed_config (some older)

abbrev client : Discovery
client = record { genesis = genesis; config = some older }

abbrev answers : List (List (Option NetworkInfo))
answers =
    (none ∷ some (record { genesis = genesis; config = signed_config }) ∷ [])
    ∷ (some (record { genesis = genesis; config = older }) ∷ [])
    ∷ []

same_body_trans :
    (a b d : Body) → same_body a b ≡ true → same_body b d ≡ true → same_body a d ≡ true
same_body_trans a b d h k =
    let e = (list_eq.beq_iff a.watchers b.watchers).0 h in
    let f = (list_eq.beq_iff b.watchers d.watchers).0 k in
    (list_eq.beq_iff a.watchers d.watchers).1 (e ∙ f)

refresh_all-IsLater_example :
    (l : Configuration) × ((refresh_all crypto same_body (λ g. g.version) answers client).config
      ≡ some l)
    × IsLater crypto same_body genesis l older
refresh_all-IsLater_example =
    refresh_all-IsLater crypto same_body (λ g. g.version) answers client older same_body_trans refl

abbrev two : List ℕ
two = 1 ∷ 2 ∷ []

abbrev watchers : List ℕ
watchers = 9 ∷ 2 ∷ 9 ∷ []

abbrev watched : Body
watched = record (body_at 7 panetiere_subnet) { watchers = watchers }

net_view-Admission_example :
    (may_send (net_view watched two) (shares 0) 12
      ≡ map_or true (serves 12) (subnet_of (panetiere_subnet ∷ []) 0))
    × (may_send (net_view watched two) (broadcast 0) 12
        ≡ map_or true
            (λ (s : Subnet). is_noop s.protocol || contains s.relays 12)
            (subnet_of (panetiere_subnet ∷ []) 0))
    × (may_send (net_view watched two) faults 12
        ≡ any_of (λ (s : Subnet). contains s.relays 12) (panetiere_subnet ∷ []))
    × (may_send (net_view watched two) config 12 ≡ contains two 12)
    × (may_send (net_view watched two) registration 12 ≡ true)
net_view-Admission_example = net_view-Admission watched two 0 12 (refl, tt)
