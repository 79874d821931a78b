-- ===== src/Feed.antt =====
-- rollups/nitro/feed/ws_server.rs: the backlog of the feed server, which holds the messages that are
-- sent to a client when it connects, and `broadcast`. rollups/nitro/feed/message.rs: the messages.
pub mod Handshake
pub mod Examples
pub mod Backlog
pub mod SessionExamples
pub mod Relay
pub mod Clients
pub mod Client
use chain_adjacent_service.Prelude.{
  ltb, leb, if◌then◌else◌, last, filter, ℕ, Option, none, some, List, [], ◌∷◌, ◌++◌,
}
use chain_adjacent_service.Nitro.{BroadcastFeedMessage, sequence_number}

pub record BroadcastMessage : Type 0 where
  pub version : ℕ
  pub messages : List (Option BroadcastFeedMessage)
  pub confirmed_sequence_number_message : Option ℕ

-- `iter().flatten()`
abbrev pub flatten : List (Option BroadcastFeedMessage) → List BroadcastFeedMessage
flatten [] = []
flatten (none ∷ ms) = flatten ms
flatten (some m ∷ ms) = m ∷ flatten ms

-- The body of the loop of `append`.
unfoldable pub push_newer :
    List BroadcastFeedMessage → BroadcastFeedMessage → List BroadcastFeedMessage
push_newer msgs m = elim (last msgs) [
  | none ↦ msgs ++ m ∷ []
  | some tail ↦ if leb m.sequence_number tail.sequence_number then msgs else msgs ++ m ∷ []
]

unfoldable pub append_messages :
    List BroadcastFeedMessage → List BroadcastFeedMessage → List BroadcastFeedMessage
unfolding push_newer
append_messages msgs [] = msgs
append_messages msgs (m ∷ ms) = append_messages (push_newer msgs m) ms

abbrev pub append : List BroadcastFeedMessage → BroadcastMessage → List BroadcastFeedMessage
append backlog bm = append_messages backlog (flatten bm.messages)

abbrev pub confirm : List BroadcastFeedMessage → ℕ → List BroadcastFeedMessage
confirm backlog confirmed = filter (λ m. ltb confirmed m.sequence_number) backlog

abbrev pub get_since : List BroadcastFeedMessage → ℕ → List BroadcastFeedMessage
get_since backlog from_seq = filter (λ m. leb from_seq m.sequence_number) backlog

-- The state of the server that a broadcast changes, and what it has put on the channel.
pub record SharedState : Type 0 where
  pub backlog : List BroadcastFeedMessage
  pub sent : List BroadcastMessage

abbrev pub confirm_if : List BroadcastFeedMessage → Option ℕ → List BroadcastFeedMessage
confirm_if backlog none = backlog
confirm_if backlog (some c) = confirm backlog c

unfoldable pub broadcast : SharedState → BroadcastMessage → SharedState
unfolding append_messages
broadcast s bm = record {
  backlog = append (confirm_if s.backlog bm.confirmed_sequence_number_message) bm;
  sent = s.sent ++ bm ∷ [];
}
