-- ===== src/Scheduler/Structure/Bounds.antt =====
-- What the structural test guarantees of a configuration that passes it.
use anymone.Base.{
  ℕ, ◌+◌, ◌≤◌, ◌<◌, ◌≡◌, inl, inr, true, Option, none, some, List, ◌++◌, length, length-append,
  arith,
}
use anymone.Base.Equality.{nat_eq}
use anymone.Base.Sets.{
  contains, Distinct, contains-append, append-Distinct_disjoint, shared-or-apart,
  length-le_of_Distinct,
}
use anymone.Config.{
  ProtocolConfig, noop, panetiere, scheduled_panetiere, adcnet, scheduled_adcnet, Subnet,
}
use anymone.Scheduler.WireSize.{WireSizes}
use anymone.Scheduler.Structure.{protocol_ok, subnet_ok}

-- The relays that must cooperate to decode, in the protocols that have a threshold.
unfoldable pub decode_threshold : ProtocolConfig → Option ℕ
decode_threshold (panetiere c) = some c.threshold
decode_threshold (scheduled_panetiere c) = some c.threshold
decode_threshold (noop c) = none
decode_threshold (adcnet c) = none
decode_threshold (scheduled_adcnet c) = none

majority :
    (p : ProtocolConfig) (n threshold : ℕ)
    → decode_threshold p ≡ some threshold
    → protocol_ok p n ≡ true
    → n < threshold + threshold
unfolding decode_threshold protocol_ok
majority (panetiere c) n threshold e h = ground (arith, e, h)
majority (scheduled_panetiere c) n threshold e h = ground (arith, e, h)
majority (noop c) n threshold e h = ground (arith, e)
majority (adcnet c) n threshold e h = ground (arith, e)
majority (scheduled_adcnet c) n threshold e h = ground (arith, e)

-- In a subnet that passes the structural test, any two groups of relays that reach the decode
-- threshold share a relay.
pub quorums_meet :
    (w : WireSizes) (s : Subnet) (threshold : ℕ) (xs ys : List ℕ)
    → subnet_ok w s ≡ true
    → decode_threshold s.protocol ≡ some threshold
    → Distinct xs
    → Distinct ys
    → threshold ≤ length xs
    → threshold ≤ length ys
    → ((k : ℕ) → contains xs k ≡ true → contains s.relays k ≡ true)
    → ((k : ℕ) → contains ys k ≡ true → contains s.relays k ≡ true)
    → (k : ℕ) × (contains xs k ≡ true) × (contains ys k ≡ true)
unfolding subnet_ok
quorums_meet w s threshold xs ys h e dx dy lx ly sx sy = elim (shared-or-apart xs ys) [
  | inl found ↦ found
  | inr apart ↦
      let fits =
        length-le_of_Distinct (xs ++ ys) s.relays (append-Distinct_disjoint xs ys dx dy apart)
          (λ k c. ground (arith, contains-append xs ys k, sx k, sy k, c)) in
      let most = majority s.protocol (length s.relays) threshold e (ground (arith, h)) in
      ground (arith, fits, most, length-append xs ys, lx, ly)
]
