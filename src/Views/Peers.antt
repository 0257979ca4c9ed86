-- ===== src/Views/Peers.antt =====
-- Which peers a node dials and which it takes.
use anymone.Base.{
  ℕ, ◌≡◌, refl, ◌∙◌, Bool, ◌&&◌, ◌||◌, not, List, [], ◌∷◌, ◌++◌, retain, any_of, arith,
}
use anymone.Base.Equality.{nat_eq}
use anymone.Base.Sets.{contains, contains-append, contains-retain}
use anymone.Base.Sort.{sort, contains-sort, sort-IsSorted}
use anymone.Base.Dedup.{contains-dedup, dedup-IsUp, IsUp}
use anymone.Config.{Subnet, Body}
use anymone.Views.{net_view, sorted_unique, dialed_of, aggregators_of}

contains-sorted_unique : (xs : List ℕ) (k : ℕ) → contains (sorted_unique xs) k ≡ contains xs k
contains-sorted_unique xs k = contains-dedup (sort xs) k ∙ contains-sort xs k

sorted_unique-IsUp : (xs : List ℕ) → IsUp (sorted_unique xs)
sorted_unique-IsUp xs = dedup-IsUp (sort xs) (sort-IsSorted xs)

-- Whether the key is a relay or an aggregator of the subnet.
abbrev pub serves : ℕ → Subnet → Bool
serves k s = contains s.relays k || contains (aggregators_of s) k

contains-dialed_of :
    (subnets : List Subnet) (k : ℕ) → contains (dialed_of subnets) k ≡ any_of (serves k) subnets
unfolding dialed_of
contains-dialed_of [] k = refl
contains-dialed_of (s ∷ rest) k = ground (
  arith,
  contains-dialed_of rest k,
  contains-append s.relays (aggregators_of s ++ dialed_of rest) k,
  contains-append (aggregators_of s) (dialed_of rest) k,
)

-- The peers that a node dials are the committee's members and the relays and aggregators of every
-- subnet; those that it only lets in are the watchers that it does not dial; registrations go to
-- the committee and the watchers. Each list is strictly increasing, so no peer stands twice in it,
-- and no peer stands both in the first and in the second.
pub net_view-Peers :
    (body : Body) (committee : List ℕ) (k : ℕ)
    → let view = net_view body committee in
      (contains view.primary k ≡ (contains committee k || any_of (serves k) body.subnets))
      × (contains view.secondary k ≡ (contains body.watchers k && not (contains view.primary k)))
      × (contains view.registration_recipients k
          ≡ (contains committee k || contains body.watchers k))
      × IsUp view.primary
      × IsUp view.secondary
      × IsUp view.registration_recipients
unfolding net_view
net_view-Peers body committee k =
    let primary = sorted_unique (committee ++ dialed_of body.subnets) in
    let kept = retain (λ pk. not (contains primary pk)) body.watchers in
    (
      ground (
        arith,
        contains-sorted_unique (committee ++ dialed_of body.subnets) k,
        contains-append committee (dialed_of body.subnets) k,
        contains-dialed_of body.subnets k,
      ),
      ground (
        arith,
        contains-sorted_unique kept k,
        contains-retain (λ pk. not (contains primary pk)) body.watchers k,
      ),
      ground (
        arith,
        contains-sorted_unique (committee ++ body.watchers) k,
        contains-append committee body.watchers k,
      ),
      sorted_unique-IsUp (committee ++ dialed_of body.subnets),
      sorted_unique-IsUp kept,
      sorted_unique-IsUp (committee ++ body.watchers),
    )
