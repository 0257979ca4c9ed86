-- ===== src/RemoteSession/Opened.antt =====
-- What holds of a session from its opening on, and after it has ended.
use anymone.Base.{
  ℕ, ◌*◌, ◌≤◌, ◌<◌, ◌≡◌, sym, ap, true, not, none, List, [], ◌∷◌, length, and-true, arith,
}
use anymone.Base.Equality.{nat_eq}
use anymone.Base.Sets.{contains, Distinct}
use anymone.Base.Results.{Result, ok, err, >>=-eq-ok, require-eq-ok}
use anymone.Config.{ExchangePublicKeyWire, ProtocolConfig, Subnet}
use anymone.Scheduler.Structure.{unique}
use anymone.Scheduler.WireSize.{WireSizes, subnet_max_wire}
use anymone.RemoteSession.{Clients, RemoteSessionError, invalid_config, RemoteAttestedSession}
use anymone.RemoteSession.Guards.{u32_max}
use anymone.RemoteSession.Validity.{
  Limits, limits_of, limits_refused, roster_refused, wire_refused, fanout_of, payload_bound,
  validate_config,
}
use anymone.RemoteSession.Opening.{KeyOps, open_client, with_identity}
use anymone.RemoteSession.Orders.{IsOrdered, run-Advances}
use anymone.RemoteSession.Events.{Event, run}

unique-Distinct : (xs : List ℕ) → unique xs ≡ true → Distinct xs
unfolding unique
unique-Distinct [] h = tt
unique-Distinct (x ∷ xs) h =
    let both = and-true (not (contains xs x)) (unique xs) h in
    (ground (arith, both.0), unique-Distinct xs both.1)

-- A configuration that a session may be opened for, from a round on.
pub record IsServable (w : WireSizes) (subnet : Subnet) (starting_round : ℕ) : Type 0 where
  pub some_relay : 1 ≤ length subnet.relays
  pub few_relays : length subnet.relays ≤ 32
  pub distinct : Distinct subnet.relays
  pub early : starting_round < u32_max
  pub payload_fits : payload_bound subnet.protocol ≤ 1048576
  pub wire_fits :
      subnet_max_wire w subnet.protocol (length subnet.relays)
        * fanout_of subnet.protocol (length subnet.relays)
      ≤ 15728640

roster_facts :
    (subnet : Subnet) (starting_round : ℕ)
    → not (roster_refused subnet starting_round) ≡ true
    → (1 ≤ length subnet.relays)
      × (length subnet.relays ≤ 32)
      × (starting_round < u32_max)
      × (unique subnet.relays ≡ true)
unfolding roster_refused
roster_facts subnet starting_round h = ground (arith, h)

product-le : (a b : ℕ) → 1 ≤ b → a * b ≤ 1048576 → a ≤ 1048576
product-le a b h k = grind arith

bytes_fit : (l : Limits) (n : ℕ) → not (limits_refused l n) ≡ true → l.bytes ≤ 1048576
unfolding limits_refused
bytes_fit l n h = product-le l.bytes l.estimate (ground (arith, h)) (ground (arith, h))

limits-payload :
    (protocol : ProtocolConfig) (l : Limits)
    → limits_of protocol ≡ ok l
    → payload_bound protocol ≤ l.bytes
unfolding limits_of
limits-payload (ProtocolConfig.panetiere c) l h = ground (arith, h)
limits-payload (ProtocolConfig.scheduled_panetiere c) l h = ground (arith, h)
limits-payload (ProtocolConfig.adcnet c) l h = ground (arith, h)
limits-payload (ProtocolConfig.scheduled_adcnet c) l h = ground (arith, h)
limits-payload (ProtocolConfig.noop c) l h = absurd (cc)

wire_facts :
    (w : WireSizes) (subnet : Subnet)
    → not (wire_refused w subnet) ≡ true
    → subnet_max_wire w subnet.protocol (length subnet.relays)
        * fanout_of subnet.protocol (length subnet.relays)
      ≤ 15728640
unfolding wire_refused
wire_facts w subnet h = ground (arith, h)

validate_config-IsServable :
    (w : WireSizes) (subnet : Subnet) (starting_round : ℕ) {u : Unit {0}}
    → validate_config w subnet starting_round ≡ ok u
    → IsServable w subnet starting_round
unfolding validate_config
validate_config-IsServable w subnet starting_round h =
    let (_, a, rest) = >>=-eq-ok _ _ h in
    let roster = roster_facts subnet starting_round (require-eq-ok _ invalid_config a) in
    let (l, limited, rest) = >>=-eq-ok (limits_of subnet.protocol) _ rest in
    let (_, b, rest) = >>=-eq-ok _ _ rest in
    let (_, d, rest) = >>=-eq-ok _ _ rest in
    let bytes = bytes_fit l (length subnet.relays) (require-eq-ok _ invalid_config b) in
    let payload = limits-payload subnet.protocol l limited in
    record {
      some_relay = roster.0;
      few_relays = roster.1;
      distinct = unique-Distinct subnet.relays roster.3;
      early = roster.2;
      payload_fits = omega arith;
      wire_fits = wire_facts w subnet (require-eq-ok _ invalid_config d);
    }

module _ {P S A B : Type 0} (c : Clients P S A B) (k : KeyOps) (w : WireSizes) where
  fresh-IsOrdered :
      (s : RemoteAttestedSession P S A B) (round : ℕ)
      → s.status.current_round ≡ round
      → s.finalized ≡ none
      → s.repair ≡ none
      → round < u32_max
      → IsOrdered s
  fresh-IsOrdered s round at f r low = record {
    below = omega arith;
    reached = λ g e. absurd (cc);
    repaired = λ g e. absurd (cc);
  }

  -- A session that is opened is opened for a roster of 1 to 32 distinct relays, a payload of at most
  -- 1 MiB and messages that all relays together may send within 15 MiB; and after any run of requests
  -- and actions its round is between the starting round and the limit of 32 bits, the finalized round is
  -- not past it, and a round that was repaired is not past the finalized one.
  pub with_identity-run :
      (subnet : Subnet) (keys : List (ℕ × ExchangePublicKeyWire))
      (starting_round identity seed session_id : ℕ) {s : RemoteAttestedSession P S A B}
      (events : List Event)
      → with_identity c k w subnet keys starting_round identity seed session_id ≡ ok s
      → let t = (run c events s).session in
        IsServable w subnet starting_round × IsOrdered t × (starting_round ≤ t.status.current_round)
  unfolding with_identity
  with_identity-run subnet keys starting_round identity seed session_id {s} events h =
      let (_, valid, rest) = >>=-eq-ok (validate_config w subnet starting_round) _ h in
      let (client, opened, same) =
        >>=-eq-ok (open_client c k w subnet keys starting_round identity seed subnet.protocol) _
          rest in
      let servable = validate_config-IsServable w subnet starting_round valid in
      let at : starting_round ≡ s.status.current_round =
        ap
          (λ (r : Result (RemoteAttestedSession P S A B) RemoteSessionError). elim r [
            | ok x ↦ x.status.current_round
            | err e ↦ 0
          ])
          same in
      let order =
        run-Advances c events s
          (fresh-IsOrdered s starting_round (sym at) (cc) (cc) servable.early) in
      (servable, order.0, omega arith)
