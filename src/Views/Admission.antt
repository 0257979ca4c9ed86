-- ===== src/Views/Admission.antt =====
-- Who may send on a topic.
use anymone.Base.{
  ℕ, ◌≡◌, refl, ◌∙◌, ap, Bool, true, false, ◌&&◌, ◌||◌, not, Option, none, some, List, [], ◌∷◌, map,
  any_of, map_or, if◌then◌else◌, arith, Bool-cases, inl, inr,
}
use anymone.Base.Equality.{nat_eq, ◌==◌, beq_refl}
use anymone.Base.Sets.{contains, insert, Distinct, contains-insert}
use anymone.Base.Maps.{get, put, get-put}
use anymone.Config.{Subnet, Body}
use anymone.Scheduler.State.{Topic, config, registration, faults, shares, broadcast}
use anymone.Views.{
  NetView, net_view, extend_set, add_subnet, add_subnets, relays_of, aggregators_of, is_noop,
  topic_eq,
}
use anymone.Views.Peers.{serves}

-- A topic without an entry is open.
abbrev pub may_send : NetView → Topic → ℕ → Bool
may_send view topic k = map_or true (λ keys. contains keys k) (get view.senders topic)

contains-extend_set :
    (set xs : List ℕ) (k : ℕ) → contains (extend_set set xs) k ≡ (contains set k || contains xs k)
contains-extend_set set [] k = ground arith
contains-extend_set set (x ∷ xs) k =
    ground (arith, contains-extend_set (insert set x) xs k, contains-insert set x k)

contains-relays_of :
    (subnets : List Subnet) (all_relays : List ℕ) (k : ℕ)
    → contains (relays_of subnets all_relays) k
      ≡ (contains all_relays k || any_of (λ (s : Subnet). contains s.relays k) subnets)
unfolding relays_of
contains-relays_of [] all_relays k = ground arith
contains-relays_of (s ∷ rest) all_relays k = ground (
  arith,
  contains-relays_of rest (extend_set all_relays s.relays) k,
  contains-extend_set all_relays s.relays k,
)

abbrev allowed : List (Topic × List ℕ) → Topic → ℕ → Bool
allowed senders topic k = map_or true (λ keys. contains keys k) (get senders topic)

same-shares : (a b : ℕ) → topic_eq.beq (shares a) (shares b) ≡ (a == b)
same-shares a b =
    let out : shares a ≡ shares b → a ≡ b = λ h. cc in
    ground (
      arith,
      topic_eq.beq_iff (shares a) (shares b),
      out,
      λ (h : a ≡ b). ap shares h,
      nat_eq.beq_iff a b,
    )

same-broadcast : (a b : ℕ) → topic_eq.beq (broadcast a) (broadcast b) ≡ (a == b)
same-broadcast a b =
    let out : broadcast a ≡ broadcast b → a ≡ b = λ h. cc in
    ground (
      arith,
      topic_eq.beq_iff (broadcast a) (broadcast b),
      out,
      λ (h : a ≡ b). ap broadcast h,
      nat_eq.beq_iff a b,
    )

apart : (a b : Topic) → ¬ (a ≡ b) → topic_eq.beq a b ≡ false
apart a b h = ground (arith, topic_eq.beq_iff a b, h)

allowed-put :
    (m : List (Topic × List ℕ)) (t u : Topic) (keys : List ℕ) (k : ℕ)
    → allowed (put m t keys) u k ≡ (if topic_eq.beq t u then contains keys k else allowed m u k)
allowed-put m t u keys k = ground (arith, get-put m t u keys)

-- The subnet that bears an id.
abbrev pub subnet_of : List Subnet → ℕ → Option Subnet
subnet_of [] id = none
subnet_of (s ∷ rest) id = if s.id == id then some s else subnet_of rest id

subnet_of-none :
    (subnets : List Subnet) (id : ℕ)
    → contains (map (λ (s : Subnet). s.id) subnets) id ≡ false
    → subnet_of subnets id ≡ none
subnet_of-none [] id h = refl
subnet_of-none (s ∷ rest) id h = ground (arith, h, subnet_of-none rest id)

add_subnet-shares :
    (s : Subnet) (m : List (Topic × List ℕ)) (id k : ℕ)
    → allowed (add_subnet s m) (shares id) k
      ≡ (if s.id == id then serves k s else allowed m (shares id) k)
unfolding add_subnet
add_subnet-shares s m id k =
    let sharers = extend_set (extend_set [] s.relays) (aggregators_of s) in
    let open_broadcast = put m (shares s.id) sharers in
    ground (
      arith,
      allowed-put m (shares s.id) (shares id) sharers k,
      allowed-put open_broadcast (broadcast s.id) (shares id) (extend_set [] s.relays) k,
      same-shares s.id id,
      apart (broadcast s.id) (shares id) (λ h. cc),
      contains-extend_set (extend_set [] s.relays) (aggregators_of s) k,
      contains-extend_set [] s.relays k,
    )

add_subnet-broadcast :
    (s : Subnet) (m : List (Topic × List ℕ)) (id k : ℕ)
    → allowed (add_subnet s m) (broadcast id) k ≡ (
        if s.id == id && not (is_noop s.protocol)
        then contains s.relays k
        else allowed m (broadcast id) k)
unfolding add_subnet
add_subnet-broadcast s m id k =
    let sharers = extend_set (extend_set [] s.relays) (aggregators_of s) in
    let open_broadcast = put m (shares s.id) sharers in
    ground (
      arith,
      allowed-put m (shares s.id) (broadcast id) sharers k,
      allowed-put open_broadcast (broadcast s.id) (broadcast id) (extend_set [] s.relays) k,
      same-broadcast s.id id,
      apart (shares s.id) (broadcast id) (λ h. cc),
      contains-extend_set [] s.relays k,
    )

abbrev ids_of : List Subnet → List ℕ
ids_of subnets = map (λ (s : Subnet). s.id) subnets

add_subnets-shares :
    (subnets : List Subnet) (m : List (Topic × List ℕ)) (id k : ℕ)
    → Distinct (ids_of subnets)
    → allowed (add_subnets subnets m) (shares id) k
      ≡ map_or (allowed m (shares id) k) (serves k) (subnet_of subnets id)
unfolding add_subnets
add_subnets-shares [] m id k d = refl
add_subnets-shares (s ∷ rest) m id k d =
    let later = add_subnets-shares rest (add_subnet s m) id k d.1 in
    let first = add_subnet-shares s m id k in
    elim (Bool-cases (s.id == id)) [
      | inl same ↦ ground (
        arith,
        later,
        first,
        same,
        subnet_of-none rest s.id d.0,
        nat_eq.beq_iff s.id id,
        λ (h : s.id ≡ id). ap (subnet_of rest) h,
      )
      | inr other ↦ ground (arith, later, first, other)
    ]

add_subnets-broadcast :
    (subnets : List Subnet) (m : List (Topic × List ℕ)) (id k : ℕ)
    → Distinct (ids_of subnets)
    → allowed (add_subnets subnets m) (broadcast id) k
      ≡ map_or
          (allowed m (broadcast id) k)
          (λ (s : Subnet).
            if is_noop s.protocol then allowed m (broadcast id) k else contains s.relays k)
          (subnet_of subnets id)
unfolding add_subnets
add_subnets-broadcast [] m id k d = refl
add_subnets-broadcast (s ∷ rest) m id k d =
    let later = add_subnets-broadcast rest (add_subnet s m) id k d.1 in
    let first = add_subnet-broadcast s m id k in
    elim (Bool-cases (s.id == id)) [
      | inl same ↦ ground (
        arith,
        later,
        first,
        same,
        subnet_of-none rest s.id d.0,
        nat_eq.beq_iff s.id id,
        λ (h : s.id ≡ id). ap (subnet_of rest) h,
      )
      | inr other ↦ rw (other) (later ∙ ground (arith, first, other))
    ]

add_subnets-other :
    (subnets : List Subnet) (m : List (Topic × List ℕ)) (t : Topic) (k : ℕ)
    → ((id : ℕ) → ¬ (shares id ≡ t))
    → ((id : ℕ) → ¬ (broadcast id ≡ t))
    → allowed (add_subnets subnets m) t k ≡ allowed m t k
unfolding add_subnets add_subnet
add_subnets-other [] m t k h h' = refl
add_subnets-other (s ∷ rest) m t k h h' =
    let sharers = extend_set (extend_set [] s.relays) (aggregators_of s) in
    let open_broadcast = put m (shares s.id) sharers in
    add_subnets-other rest (add_subnet s m) t k h h'
    ∙ ground (
      arith,
      allowed-put m (shares s.id) t sharers k,
      allowed-put open_broadcast (broadcast s.id) t (extend_set [] s.relays) k,
      apart (shares s.id) t (h s.id),
      apart (broadcast s.id) t (h' s.id),
    )

may_send-net_view :
    (body : Body) (committee : List ℕ) (k : ℕ) (t : Topic)
    → may_send (net_view body committee) t k ≡ (
        if topic_eq.beq config t
        then contains committee k
        else if topic_eq.beq faults t
        then any_of (λ (s : Subnet). contains s.relays k) body.subnets
        else allowed (add_subnets body.subnets []) t k)
unfolding net_view
may_send-net_view body committee k t =
    let base = add_subnets body.subnets [] in
    let relays = relays_of body.subnets [] in
    ground (
      arith,
      allowed-put (put base faults relays) config t (extend_set [] committee) k,
      allowed-put base faults t relays k,
      contains-extend_set [] committee k,
      contains-relays_of body.subnets [] k,
    )

-- Where the subnets' ids are distinct, a key may send shares to a subnet exactly if it is a relay or
-- an aggregator of the subnet with that id, and on its broadcast topic exactly if it is a relay
-- of it or the subnet runs Noop; fault reports exactly if it is a relay of some subnet, and
-- configurations exactly if it is a committee member. Registrations, and the topics of an id
-- that no subnet bears, are open to all.
pub net_view-Admission :
    (body : Body) (committee : List ℕ) (id k : ℕ)
    → Distinct (map (λ (s : Subnet). s.id) body.subnets)
    → let view = net_view body committee in
      (may_send view (shares id) k ≡ map_or true (serves k) (subnet_of body.subnets id))
      × (may_send view (broadcast id) k
          ≡ map_or true
              (λ (s : Subnet). is_noop s.protocol || contains s.relays k)
              (subnet_of body.subnets id))
      × (may_send view faults k ≡ any_of (λ (s : Subnet). contains s.relays k) body.subnets)
      × (may_send view config k ≡ contains committee k)
      × (may_send view registration k ≡ true)
net_view-Admission body committee id k d =
    let base = add_subnets body.subnets [] in
    let topic = may_send-net_view body committee k in
    (
      topic (shares id)
          ∙ ground (
            arith,
            apart config (shares id) (λ h. cc),
            apart faults (shares id) (λ h. cc),
            add_subnets-shares body.subnets [] id k d,
          ),
      topic (broadcast id)
          ∙ ground (
            arith,
            apart config (broadcast id) (λ h. cc),
            apart faults (broadcast id) (λ h. cc),
            add_subnets-broadcast body.subnets [] id k d,
          ),
      topic faults ∙ ground (arith, apart config faults (λ h. cc), beq_refl faults),
      topic config ∙ ground (arith, beq_refl config),
      topic registration
          ∙ ground (
            arith,
            apart config registration (λ h. cc),
            apart faults registration (λ h. cc),
            add_subnets-other body.subnets [] registration k (λ i h. cc) (λ i h. cc),
          ),
    )
