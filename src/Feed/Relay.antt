-- ===== src/Feed/Relay.antt =====
-- rollups/nitro/feed/relay.rs: the loop of `start`, which passes finalized messages on to the broadcast
-- server. rollups/nitro/feed/broadcaster.rs: the server behind it.
pub mod Retained
use chain_adjacent_service.Prelude.{ℕ, Bool, Option, none, some, List, [], ◌∷◌, map}
use chain_adjacent_service.Nitro.{BroadcastFeedMessage}
use chain_adjacent_service.Feed.{BroadcastMessage, SharedState, broadcast}

unfoldable pub broadcast_feed_messages : List BroadcastFeedMessage → SharedState → SharedState
unfolding broadcast
broadcast_feed_messages messages server =
    broadcast server
      record { version = 1; messages = map some messages; confirmed_sequence_number_message = none }

unfoldable pub confirm : ℕ → SharedState → SharedState
unfolding broadcast
confirm msg_idx server =
    broadcast server
      record { version = 1; messages = []; confirmed_sequence_number_message = some msg_idx }

-- An arm of the loop: a new finalized index, a first message with those that are pending behind it, and
-- the ends, of the sender of the index, of the channel, and of the client with its result.
pub data RelayEvent : Type 0 where
  l1_finalized_changed : ℕ → RelayEvent
  messages_received : BroadcastFeedMessage → List BroadcastFeedMessage → RelayEvent
  l1_sender_dropped espresso_channel_closed : RelayEvent
  client_exited : Bool → RelayEvent

pub data RelayEnd : Type 0 where
  shut_down : RelayEnd
  client_result : Bool → RelayEnd

pub record Relay : Type 0 where
  pub server : SharedState
  pub ended : Option RelayEnd

abbrev pub handle : RelayEvent → SharedState → Relay
handle (l1_finalized_changed finalized) server = record {
  server = confirm finalized server;
  ended = none;
}
handle (messages_received m ms) server = record {
  server = broadcast_feed_messages (m ∷ ms) server;
  ended = none;
}
handle l1_sender_dropped server = record { server = server; ended = some shut_down }
handle espresso_channel_closed server = record { server = server; ended = some shut_down }
handle (client_exited success) server = record {
  server = server;
  ended = some (client_result success);
}

abbrev pub relay_step : Option RelayEnd → RelayEvent → Relay → Relay
relay_step none event r = handle event r.server
relay_step (some end) event r = r

unfoldable pub relay_run : List RelayEvent → Relay → Relay
unfolding confirm broadcast_feed_messages
relay_run [] r = r
relay_run (event ∷ events) r = relay_run events (relay_step r.ended event r)
