-- ===== src/Feed/SessionExamples.antt =====
-- Concrete runs of the feed client, of a client session of the server, and of the relay.
use chain_adjacent_service.Prelude.{
  ◌==◌, ℕ, ◌≡◌, refl, ◌⊎◌, inl, inr, true, false, ◌||◌, Option, none, some, List, [], ◌∷◌, arith,
}
use chain_adjacent_service.Prelude.Words.{Bytes}
use chain_adjacent_service.Nitro.Payload.{FeedMessageVerifier}
use chain_adjacent_service.Nitro.TestData.{bare}
use chain_adjacent_service.Feed.{BroadcastMessage, SharedState}
use chain_adjacent_service.Feed.Client.{
  default_client_config, Scheme, wss, Attempt, Event, attempted, received, text_or_binary,
  close_frame, start_session, run, Session,
}
use chain_adjacent_service.Feed.Client.Invariant.{Persists, run-Persists}
use chain_adjacent_service.Feed.Client.Sent.{Submits, run-Submits}
use chain_adjacent_service.Feed.Clients.{run_ws_client, broadcasts}
use chain_adjacent_service.Feed.Clients.Order.{In, ConfirmedIn, messages}
use chain_adjacent_service.Feed.Clients.Complete.{run_ws_client_complete}
use chain_adjacent_service.Feed.Relay.{
  RelayEvent, l1_finalized_changed, messages_received, espresso_channel_closed, relay_run,
}
use chain_adjacent_service.Feed.Relay.Retained.{relay_run-retain}

abbrev any_url : Bytes → Option Scheme
any_url url = some wss

abbrev below_nine : FeedMessageVerifier
below_nine chain_id addresses m = m.sequence_number == 5 || m.sequence_number == 6

abbrev two_and_a_forged : Bytes → Option BroadcastMessage
two_and_a_forged payload = some record {
  version = 1;
  messages = some (bare 5 1) ∷ some (bare 9 1) ∷ some (bare 6 1) ∷ [];
  confirmed_sequence_number_message = none;
}

abbrev works : Attempt
works = record {
  preflight = some record {
    switching_protocols = true;
    feed_server_version_header = some (some 2);
    chain_id_header = none;
  };
  opens = true;
}

abbrev fails : Attempt
fails = record works { opens = false }

abbrev events : List Event
events =
    attempted fails
    ∷ attempted works
    ∷ received (text_or_binary [] 10)
    ∷ received close_frame
    ∷ attempted fails
    ∷ attempted works
    ∷ []

abbrev session : Session
session =
    run default_client_config (119 ∷ []) any_url 1 below_nine two_and_a_forged events
      (start_session default_client_config (119 ∷ []) any_url 1 below_nine two_and_a_forged 5)

test_requested : session.client.requested ≡ 5 ∷ 7 ∷ []
unfolding run
test_requested = refl

run-Persists_example :
    Persists default_client_config (119 ∷ []) any_url 1 below_nine two_and_a_forged session
run-Persists_example =
    run-Persists default_client_config (119 ∷ []) any_url 1 below_nine two_and_a_forged events 5

run-Submits_example :
    Submits default_client_config (119 ∷ []) any_url 1 below_nine two_and_a_forged 5 session.client
run-Submits_example =
    run-Submits default_client_config (119 ∷ []) any_url 1 below_nine two_and_a_forged events 5

abbrev broadcast_of : ℕ → Option ℕ → BroadcastMessage
broadcast_of n c = record {
  version = 1;
  messages = some (bare n 1) ∷ [];
  confirmed_sequence_number_message = c;
}

abbrev server : SharedState
server = record { backlog = bare 3 1 ∷ bare 4 1 ∷ []; sent = [] }

run_ws_client_complete_example :
    In (bare 6 1) (
      messages (
        run_ws_client
          (broadcasts server (broadcast_of 5 (some 3) ∷ [])).backlog
          4
          (broadcast_of 5 (some 3) ∷ broadcast_of 6 none ∷ [])))
    ⊎ ConfirmedIn (bare 6 1) (broadcast_of 5 (some 3) ∷ [])
run_ws_client_complete_example =
    run_ws_client_complete 5 4 (bare 6 1) server (broadcast_of 5 (some 3) ∷ [])
      (broadcast_of 6 none ∷ []) (omega arith) (omega arith) (omega arith) (inr (inr (inl refl)))

abbrev relay_events : List RelayEvent
relay_events =
    messages_received (bare 5 1) (bare 6 1 ∷ [])
    ∷ l1_finalized_changed 4
    ∷ espresso_channel_closed
    ∷ []

relay_run-retain_example :
    (relay_run relay_events record { server = server; ended = none }).server.backlog
    ≡ bare 5 1 ∷ bare 6 1 ∷ []
relay_run-retain_example = relay_run-retain 5 relay_events server (omega arith) (omega arith)
