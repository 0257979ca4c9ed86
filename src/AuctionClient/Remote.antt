-- ===== src/AuctionClient/Remote.antt =====
-- The scheduled ADCNet client as the client of a remote session.
use anymone.Base.{ℕ, Bool, [], if◌then◌else◌, arith}
use anymone.Base.Int.{pos}
use anymone.Base.Results.{ok, err}
use anymone.RemoteSession.{ScheduledAdcnetClient}
use anymone.RemoteSession.Queue.{Counts}
use anymone.AuctionClient.{
  AuctionOps, AuctionClient, new, schedule_message_for_next_round, advance_to_round,
  messages_for_current_round, process_round_broadcast, pending_message_count, take_pending_messages,
}
use anymone.AuctionClient.Counts.{messages-count, hearing-count, advance-count, schedule-count}

module _ {R : Type 0} (o : AuctionOps R) where
  -- `empty` is the broadcast without messages of round 0, `silent` the coin of a client, and `readable`
  -- whether the identity's scalar is an exchange key.
  abbrev pub auction_client :
      (empty : R) (silent : AuctionClient R → Bool) (readable : ℕ → Bool)
      → ScheduledAdcnetClient (AuctionClient R)
  auction_client empty silent readable = record {
    new = λ cfg identity servers round leader.
        if readable identity then ok (new cfg.message_length empty (pos round) leader) else err [];
    set_min_message_size = λ s size. record s { min_message_size = size };
    set_cover_rate = λ s rate. record s { cover_rate = rate };
    advance_to_round = advance_to_round;
    schedule_message_for_next_round = schedule_message_for_next_round;
    process_round_broadcast = process_round_broadcast o;
    messages_for_current_round = λ s. messages_for_current_round o (silent s) s;
    pending_message_count = pending_message_count;
    take_pending_messages = λ s. (take_pending_messages s).1;
  }

  pub auction_client-Counts :
      (empty : R) (silent : AuctionClient R → Bool) (readable : ℕ → Bool)
      → Counts (auction_client empty silent readable)
  unfolding pending_message_count
  auction_client-Counts empty silent readable = record {
    set_cover_rate_le = λ s rate. omega arith;
    advance_le = λ s round. omega (arith, advance-count s round);
    schedule_le = λ s payload bid. schedule-count s payload bid;
    broadcast_le = λ s message. omega (arith, hearing-count o s message);
    messages_le = λ s. messages-count o (silent s) s;
  }
