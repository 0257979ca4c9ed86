-- ===== src/Views.antt =====
-- crates/anymone-core/src/governance.rs: `net_view`, who may send on which topic and which peers a node
-- takes, with `subnet_aggregation` of runtime.rs.
pub mod Admission
pub mod Peers
use native.Mathlib.Decide.{ℕ_discrete}
use anymone.Base.{
  ℕ, Bool, true, false, not, Option, none, some, List, [], ◌∷◌, ◌++◌, map, retain, if◌then◌else◌,
}
use anymone.Base.Equality.{Eq, nat_eq, of_discrete}
use anymone.Base.Sets.{contains, insert}
use anymone.Base.Maps.{put}
use anymone.Base.Sort.{sort}
use anymone.Base.Dedup.{dedup}
use anymone.Config.{
  AggregatorGroup, Aggregation, ProtocolConfig, noop, Subnet, Body, aggregation_of,
}
use anymone.Scheduler.State.{Topic, config, faults, shares, broadcast}

unfoldable pub Topic-discrete : Discrete Topic
Topic-discrete = hlevel ℕ_discrete

instance abbrev pub topic_eq : Eq Topic
topic_eq = of_discrete Topic-discrete

pub record NetView : Type 0 where
  pub index : ℕ
  pub senders : List (Topic × List ℕ)
  pub primary : List ℕ
  pub secondary : List ℕ
  pub registration_recipients : List ℕ
  pub relay_client_addrs : List (ℕ × List ℕ)
  pub subnets : List ℕ

-- `collect` into a `HashSet`, and `extend` of one.
abbrev pub extend_set : List ℕ → List ℕ → List ℕ
extend_set set [] = set
extend_set set (x ∷ xs) = extend_set (insert set x) xs

-- The aggregators of a subnet, none where it has no aggregation.
unfoldable pub aggregators_of : Subnet → List ℕ
aggregators_of s = elim (aggregation_of s.protocol) [
  | none ↦ []
  | some agg ↦ map (λ (g : AggregatorGroup). g.aggregator) agg.groups
]

abbrev pub is_noop : ProtocolConfig → Bool
is_noop (noop c) = true
is_noop _ = false

-- One turn of the loop over the subnets: the topics of the subnet.
unfoldable pub add_subnet : Subnet → List (Topic × List ℕ) → List (Topic × List ℕ)
add_subnet s senders =
    let open_broadcast =
      put senders (shares s.id) (extend_set (extend_set [] s.relays) (aggregators_of s)) in
    if is_noop s.protocol
    then open_broadcast
    else put open_broadcast (broadcast s.id) (extend_set [] s.relays)

unfoldable pub add_subnets : List Subnet → List (Topic × List ℕ) → List (Topic × List ℕ)
add_subnets [] senders = senders
add_subnets (s ∷ rest) senders = add_subnets rest (add_subnet s senders)

unfoldable pub relays_of : List Subnet → List ℕ → List ℕ
relays_of [] all_relays = all_relays
relays_of (s ∷ rest) all_relays = relays_of rest (extend_set all_relays s.relays)

-- `primary.extend`
unfoldable pub dialed_of : List Subnet → List ℕ
dialed_of [] = []
dialed_of (s ∷ rest) = s.relays ++ (aggregators_of s ++ dialed_of rest)

abbrev pub sorted_unique : List ℕ → List ℕ
sorted_unique xs = dedup (sort xs)

-- A search of a sorted vector is the test for membership.
unfoldable pub net_view : Body → List ℕ → NetView
net_view body committee =
    let primary = sorted_unique (committee ++ dialed_of body.subnets) in
    record {
      index = body.round;
      senders =
          put (put (add_subnets body.subnets []) faults (relays_of body.subnets [])) config
            (extend_set [] committee);
      primary = primary;
      secondary = sorted_unique (retain (λ pk. not (contains primary pk)) body.watchers);
      registration_recipients = sorted_unique (committee ++ body.watchers);
      relay_client_addrs = body.relay_client_addrs;
      subnets = map (λ (s : Subnet). s.id) body.subnets;
    }
