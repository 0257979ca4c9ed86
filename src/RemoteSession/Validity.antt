-- ===== src/RemoteSession/Validity.antt =====
-- crates/anymone-core/src/remote_session.rs: which configurations a session is opened for. The estimate of
-- the largest message is that of each protocol's own file, which `subnet_max_wire` chooses between.
use anymone.Base.{ℕ, ◌+◌, ◌*◌, ◌%◌, min, Bool, ◌&&◌, ◌||◌, not, length, ltb, leb, if◌then◌else◌}
use anymone.Base.Equality.{nat_eq, ◌==◌}
use anymone.Base.Results.{Result, ok, err, require, ◌>>=◌, ◌>>◌}
use anymone.Config.{ProtocolConfig, Subnet}
use anymone.Scheduler.Structure.{unique}
use anymone.Scheduler.WireSize.{WireSizes, usize_max, subnet_max_wire}
use anymone.RemoteSession.{
  RemoteSessionError, invalid_config, unsupported_protocol, incomplete_roster,
}
use anymone.RemoteSession.Guards.{u32_max}

-- What the tests read of a protocol: bytes, estimate, min, max and threshold.
pub record Limits : Type 0 where
  pub bytes : ℕ
  pub estimate : ℕ
  pub least : ℕ
  pub most : ℕ
  pub threshold : ℕ

-- `max_payload` of the session that is opened.
abbrev pub payload_bound : ProtocolConfig → ℕ
payload_bound (ProtocolConfig.noop c) = 0
payload_bound (ProtocolConfig.panetiere c) = c.message_size
payload_bound (ProtocolConfig.scheduled_panetiere c) = c.message_size
payload_bound (ProtocolConfig.adcnet c) = c.max_payload_bytes
payload_bound (ProtocolConfig.scheduled_adcnet c) = c.message_length

-- The first `match` of `validate_config`.
unfoldable pub limits_of : ProtocolConfig → Result Limits RemoteSessionError
limits_of (ProtocolConfig.panetiere c) = ok (record {
  bytes = c.message_size;
  estimate = c.estimated_messages;
  least = c.client_set_min;
  most = c.client_set_max;
  threshold = c.threshold;
})
limits_of (ProtocolConfig.scheduled_panetiere c) =
    if ltb 65535 c.message_size || ltb c.vector_bytes c.message_size
    then err invalid_config
    else ok (record {
      bytes = c.vector_bytes;
      estimate = c.estimated_messages;
      least = c.client_set_min;
      most = c.client_set_max;
      threshold = c.threshold;
    })
limits_of (ProtocolConfig.adcnet c) = ok (record {
  bytes = c.max_payload_bytes;
  estimate = c.estimated_messages;
  least = c.client_set_min;
  most = c.client_set_max;
  threshold = 1;
})
limits_of (ProtocolConfig.scheduled_adcnet c) =
    if not (c.message_length % 1024 == 0) || ltb c.message_length c.min_message_size
    then err invalid_config
    else ok (record {
      bytes = c.message_length;
      estimate = c.auction_slots;
      least = c.client_set_min;
      most = c.client_set_max;
      threshold = 1;
    })
limits_of (ProtocolConfig.noop c) = err unsupported_protocol

unfoldable pub roster_refused : Subnet → ℕ → Bool
unfolding unique
roster_refused subnet starting_round =
    not (leb 1 (length subnet.relays) && leb (length subnet.relays) 32)
    || leb u32_max starting_round
    || not (unique subnet.relays)

unfoldable pub limits_refused : Limits → ℕ → Bool
limits_refused l n =
    l.bytes == 0
    || l.estimate == 0
    || ltb 4096 l.estimate
    || l.most == 0
    || ltb 65536 l.most
    || ltb l.most l.least
    || l.threshold == 0
    || ltb n l.threshold
    || ltb (1024 * 1024) (min (l.bytes * l.estimate) usize_max)

abbrev pub fanout_of : ProtocolConfig → ℕ → ℕ
fanout_of (ProtocolConfig.panetiere c) n = 1 + 2 * n
fanout_of (ProtocolConfig.scheduled_panetiere c) n = 1 + 2 * n
fanout_of protocol n = 1

unfoldable pub wire_refused : WireSizes → Subnet → Bool
wire_refused w subnet =
    let n = length subnet.relays in
    ltb (15 * 1024 * 1024)
      (min (subnet_max_wire w subnet.protocol n * fanout_of subnet.protocol n) usize_max)

unfoldable pub validate_config :
    WireSizes → Subnet → (starting_round : ℕ) → Result (Unit {0}) RemoteSessionError
validate_config w subnet starting_round = do
  require (not (roster_refused subnet starting_round)) invalid_config
  limits ← limits_of subnet.protocol
  require (not (limits_refused limits (length subnet.relays))) invalid_config
  require (not (wire_refused w subnet)) invalid_config
  ok tt

-- `require_roster`
unfoldable pub require_roster : ℕ → Subnet → Result (Unit {0}) RemoteSessionError
require_roster size subnet = if size == length subnet.relays then ok tt else err incomplete_roster
