-- ===== src/Feed/Clients.antt =====
-- rollups/nitro/feed/ws_server.rs: `run_ws_client`, what the server writes to a client. A session that ends
-- early, by a timeout, a lag or a closed connection, has written a front part of these frames.
pub mod Order
pub mod Complete
use chain_adjacent_service.Prelude.{
  is_nonempty, is_some, ltb, leb, if◌then◌else◌, last, filter, ℕ, Bool, true, false, not, ◌||◌,
  Option, none, some, List, [], ◌∷◌, ◌++◌, map,
}
use chain_adjacent_service.Nitro.{BroadcastFeedMessage}
use chain_adjacent_service.Feed.{BroadcastMessage, flatten, get_since, SharedState, broadcast}

abbrev pub any_newer : ℕ → List (Option BroadcastFeedMessage) → Bool
any_newer last_seq [] = false
any_newer last_seq (none ∷ ms) = any_newer last_seq ms
any_newer last_seq (some m ∷ ms) = ltb last_seq m.sequence_number || any_newer last_seq ms

abbrev pub any_to_send : Option ℕ → List (Option BroadcastFeedMessage) → Bool
any_to_send none ms = is_nonempty ms
any_to_send (some last_seq) ms = any_newer last_seq ms

unfoldable pub should_send : BroadcastMessage → Option ℕ → Bool
should_send bm last_sent_seq =
    if is_some bm.confirmed_sequence_number_message
    then true
    else any_to_send last_sent_seq bm.messages

abbrev pub or_zero : Option ℕ → ℕ
or_zero none = 0
or_zero (some n) = n

-- The loop of `update_last_sent`, over the messages that are there.
unfoldable pub update_last_sent : List BroadcastFeedMessage → Option ℕ → Option ℕ
update_last_sent [] last_sent_seq = last_sent_seq
update_last_sent (m ∷ ms) last_sent_seq = update_last_sent ms (
    if leb (or_zero last_sent_seq) m.sequence_number then some m.sequence_number else last_sent_seq)

-- The frames that are written for what comes in on the channel.
unfoldable pub deliver : Option ℕ → List BroadcastMessage → List BroadcastMessage
unfolding should_send update_last_sent
deliver last_sent_seq [] = []
deliver last_sent_seq (bm ∷ bms) =
    let sent = bm ∷ deliver (update_last_sent (flatten bm.messages) last_sent_seq) bms in
    let skipped = deliver last_sent_seq bms in
    if should_send bm last_sent_seq then sent else skipped

abbrev pub last_seq : List BroadcastFeedMessage → Option ℕ
last_seq ms = elim (last ms) [ none ↦ none | some m ↦ some m.sequence_number ]

abbrev pub backlog_frame : List BroadcastFeedMessage → BroadcastMessage
backlog_frame ms = record {
  version = 1;
  messages = map some ms;
  confirmed_sequence_number_message = none;
}

abbrev pub write_backlog : List BroadcastFeedMessage → List BroadcastMessage → List BroadcastMessage
write_backlog [] live = deliver none live
write_backlog (m ∷ ms) live = backlog_frame (m ∷ ms) ∷ deliver (last_seq (m ∷ ms)) live

-- `backlog` is the one at the moment when the session reads it; `live` is what is broadcast after the
-- session has subscribed, which it did before.
unfoldable pub run_ws_client :
    List BroadcastFeedMessage → ℕ → List BroadcastMessage → List BroadcastMessage
unfolding deliver
run_ws_client backlog seq_num live = write_backlog (get_since backlog seq_num) live

unfoldable pub broadcasts : SharedState → List BroadcastMessage → SharedState
unfolding broadcast
broadcasts s [] = s
broadcasts s (bm ∷ bms) = broadcasts (broadcast s bm) bms
