-- ===== src/Scheduler/WireSize.antt =====
-- The wire-size estimators of adcnet.rs, panetiere.rs, panetiere_scheduled.rs and noop.rs, and the
-- scheduler's use of them. The sizes of the cryptographic objects come from the `adcnet` and
-- `panetiere` crates and are the fields of `WireSizes`. Sizes are `usize`; the operations that
-- saturate in the source saturate here.
use anymone.Base.{ℕ, ◌+◌, ◌-◌, ◌*◌, ◌/◌, max, min}
use anymone.Config.{
  Encoding, prony, mse, SetFormation, leader, consensus, ProtocolConfig, noop, panetiere,
  scheduled_panetiere, adcnet, scheduled_adcnet, ScheduledAdcnetConfig,
}

pub record WireSizes : Type 0 where
  -- `IbltMsgParams::encoded_len`, of the estimated messages and the payload bound
  pub iblt_encoded_len : ℕ → ℕ → ℕ
  -- `iblt_field_element_count`, at `AUCTION_BID_XI`
  pub auction_elements : ℕ → ℕ
  -- `ChannelParams::n_polys`, for Prony, MSE and the reservation channel
  pub prony_polys : ℕ → ℕ → ℕ
  pub mse_polys : ℕ → ℕ → ℕ
  pub reservation_polys : ℕ → ℕ
  pub bytes_per_poly : ℕ
  -- `RsParams::new(k, n).block_len(n_polys)`
  pub block_len : ℕ → ℕ → ℕ → ℕ
  pub rs_poly_packed_len : ℕ
  pub fresh_path_packed_len : ℕ → ℕ
  pub lane_post_packed_len : ℕ → ℕ → ℕ → ℕ
  -- `round_wire_sizes(n, n_polys, rho).server_entry`
  pub server_entry : ℕ → ℕ → ℕ → ℕ
  pub client_entry_packed_len : ℕ
  pub sig_len : ℕ
  pub pubkey_len : ℕ

abbrev pub usize_max : ℕ
usize_max = 18446744073709551615

abbrev sat_add : ℕ → ℕ → ℕ
sat_add a b = min (a + b) usize_max

abbrev sat_mul : ℕ → ℕ → ℕ
sat_mul a b = min (a * b) usize_max

abbrev pub max_subnet_wire : ℕ
max_subnet_wire = 16 * 1024 * 1024 * 3 / 4

module _ (w : WireSizes) where
  -- adcnet.rs `max_wire_estimate`
  adcnet_estimate : ℕ → ℕ → ℕ → ℕ → ℕ
  adcnet_estimate message_size estimated_messages client_set_max n_relays =
      let share = w.iblt_encoded_len estimated_messages message_size * 8 + 256 in
      let client_set = client_set_max * 200 + 256 in
      let decoded = estimated_messages * message_size + 256 in max (max share client_set) decoded

  -- `receipt`: client_set.rs `ReceiptBatch::packed_len`
  batch_packed_len : ℕ → ℕ
  batch_packed_len n_receipts = 8 + w.sig_len + n_receipts * (4 + w.pubkey_len + 32)

  consensus_estimate : ℕ → ℕ → ℕ → ℕ → ℕ
  unfolding batch_packed_len
  consensus_estimate n_polys client_set_max n_relays threshold =
      let n = max n_relays 1 in
      let rho = max client_set_max 1 in
      let block = w.block_len threshold n n_polys in
      let sealed = w.server_entry n n_polys rho + 1600 in
      let bundle = block * w.rs_poly_packed_len + w.fresh_path_packed_len n + sealed + 512 in
      let batch = batch_packed_len rho + 512 in
      let relay = max bundle batch + n * (4 + w.sig_len) + 512 in max (max bundle batch) relay

  -- panetiere.rs `consensus_wire_estimate`
  consensus_wire_estimate : ℕ → ℕ → ℕ → ℕ → SetFormation → ℕ
  unfolding consensus_estimate
  consensus_wire_estimate n_polys client_set_max n_relays threshold consensus =
      consensus_estimate n_polys client_set_max n_relays threshold
  consensus_wire_estimate n_polys client_set_max n_relays threshold leader = 0

  rs_wire_estimate : ℕ → ℕ → ℕ → ℕ → ℕ → ℕ
  rs_wire_estimate n_polys decoded_bytes client_set_max n_relays threshold =
      let n = max n_relays 1 in
      let rho = max client_set_max 1 in
      let block = w.block_len threshold n n_polys in
      let client_public = w.client_entry_packed_len + 512 in
      let slice = block * w.rs_poly_packed_len + w.fresh_path_packed_len n + 512 in
      let server_public =
        w.server_entry n n_polys rho + w.lane_post_packed_len block n rho + rho * 4 + 512 in
      max (max (max client_public slice) server_public) (decoded_bytes + 512)

  -- `channel_params(…).n_polys()`; the seed plays no part in the size
  channel_polys : ℕ → ℕ → Encoding → ℕ
  channel_polys rho message_bytes prony = w.prony_polys rho message_bytes
  channel_polys rho message_bytes mse = w.mse_polys rho message_bytes

  -- panetiere.rs `max_wire_estimate`
  panetiere_estimate : ℕ → ℕ → ℕ → ℕ → ℕ → Encoding → SetFormation → ℕ
  unfolding consensus_wire_estimate rs_wire_estimate channel_polys
  panetiere_estimate message_size estimated client_set_max n_relays threshold encoding formation =
      let n_polys = channel_polys estimated message_size encoding in
      max (rs_wire_estimate n_polys (estimated * message_size) client_set_max n_relays threshold)
        (consensus_wire_estimate n_polys client_set_max n_relays threshold formation)

  -- panetiere_scheduled.rs `max_wire_estimate`
  scheduled_estimate : ℕ → ℕ → ℕ → ℕ → ℕ → SetFormation → ℕ
  unfolding consensus_wire_estimate rs_wire_estimate
  scheduled_estimate vector_bytes estimated client_set_max n_relays threshold formation =
      let msg_polys = (vector_bytes + w.bytes_per_poly - 1) / w.bytes_per_poly in
      let n_polys = w.reservation_polys estimated + msg_polys in
      max
        (max (rs_wire_estimate n_polys vector_bytes client_set_max n_relays threshold)
          (4 * estimated + 512))
        (consensus_wire_estimate n_polys client_set_max n_relays threshold formation)

  -- adcnet.rs `scheduled_max_wire_estimate`
  auction_estimate : ScheduledAdcnetConfig → ℕ → ℕ
  auction_estimate c n_relays =
      let auction = sat_mul (w.auction_elements c.auction_slots) 8 in
      let contribution =
        sat_add (sat_add (sat_add auction c.message_length) (sat_mul n_relays 4)) 512 in
      let client_set = sat_add (sat_mul contribution c.client_set_max) 256 in
      let partial = sat_add (sat_mul contribution 2) (sat_mul c.client_set_max 128) in
      max client_set partial

  unfoldable pub subnet_max_wire : ProtocolConfig → ℕ → ℕ
  unfolding adcnet_estimate panetiere_estimate scheduled_estimate auction_estimate
  subnet_max_wire (adcnet c) n =
      adcnet_estimate c.max_payload_bytes c.estimated_messages c.client_set_max n
  subnet_max_wire (panetiere c) n =
      panetiere_estimate c.message_size c.estimated_messages c.client_set_max n c.threshold
        c.encoding c.set_formation
  subnet_max_wire (scheduled_panetiere c) n =
      scheduled_estimate c.vector_bytes c.estimated_messages c.client_set_max n c.threshold
        c.set_formation
  subnet_max_wire (noop c) n = c.client_set_max * c.message_size + 64
  subnet_max_wire (scheduled_adcnet c) n = auction_estimate c n
