-- ===== src/Feed/Client.antt =====
-- rollups/nitro/feed/client.rs: the client of the sequencer's feed. The network is a parameter: what an
-- attempt to connect meets, and the frames that come in. Times are in milliseconds.
pub mod Invariant
pub mod Sent
use chain_adjacent_service.Prelude.{
  is_nonempty, ltb, ◌==◌, if◌then◌else◌, length, last, filter, take, ok, err, ◌>>=◌, ◌>>◌, guard,
  ok_or, Result, ℕ, ◌+◌, Bool, true, false, Option, none, some, List, [], ◌∷◌, ◌++◌,
}
use chain_adjacent_service.Prelude.Words.{Bytes, u64}
use chain_adjacent_service.Streamer.Poll.{exponential_backoff}
use chain_adjacent_service.Nitro.{BroadcastFeedMessage}
use chain_adjacent_service.Nitro.Payload.{FeedMessageVerifier}
use chain_adjacent_service.Feed.{BroadcastMessage, flatten}

abbrev pub feed_server_version : ℕ
feed_server_version = 2

abbrev pub message_version : ℕ
message_version = 1

pub record BroadcasterClientConfig : Type 0 where
  pub reconnect_initial_backoff : ℕ
  pub reconnect_maximum_backoff : ℕ
  pub retry_connect_max_backoff : ℕ
  pub retry_connect_backoff_step : ℕ
  pub require_feed_server_version : Bool
  pub require_chain_id : Bool
  pub trusted_sequencer_addresses : List ℕ

abbrev pub default_client_config : BroadcasterClientConfig
default_client_config = record {
  reconnect_initial_backoff = 1000;
  reconnect_maximum_backoff = 64000;
  retry_connect_max_backoff = 15000;
  retry_connect_backoff_step = 500;
  require_feed_server_version = false;
  require_chain_id = false;
  trusted_sequencer_addresses = [];
}

pub data BroadcasterClientError : Type 0 where
  incorrect_feed_version incorrect_chain_id missing_chain_id : BroadcasterClientError
  missing_feed_server_version invalid_config connection : BroadcasterClientError
  web_socket invalid_signature channel_send_error invalid_message : BroadcasterClientError

abbrev pub is_fatal : BroadcasterClientError → Bool
is_fatal incorrect_feed_version = true
is_fatal incorrect_chain_id = true
is_fatal missing_chain_id = true
is_fatal missing_feed_server_version = true
is_fatal invalid_config = true
is_fatal connection = false
is_fatal web_socket = false
is_fatal invalid_signature = false
is_fatal channel_send_error = false
is_fatal invalid_message = false

pub data Scheme : Type 0 where
  ws wss other : Scheme

-- A header: its value, where it is a number.
pub record PreflightResponse : Type 0 where
  pub switching_protocols : Bool
  pub feed_server_version_header : Option (Option ℕ)
  pub chain_id_header : Option (Option ℕ)

-- What one attempt to connect meets: the response to the preflight request, if there is one, and whether
-- the web socket then opens in time.
pub record Attempt : Type 0 where
  pub preflight : Option PreflightResponse
  pub opens : Bool

abbrev pub ClientResult : Type 0 → Type 0
ClientResult A = Result BroadcasterClientError A

-- The client, with the messages that it sent to the submission channel, and the sequence numbers that
-- it asked for when it connected.
pub record BroadcasterClient : Type 0 where
  pub next_seq_num : ℕ
  pub first_reconnect_attempt : Bool
  pub sent : List BroadcastFeedMessage
  pub requested : List ℕ

abbrev pub new_client : ℕ → BroadcasterClient
new_client current_message_count = record {
  next_seq_num = current_message_count;
  first_reconnect_attempt = true;
  sent = [];
  requested = [];
}

pub data Frame : Type 0 where
  timed_out stream_ended close_frame ping_or_pong : Frame
  text_or_binary : Bytes → ℕ → Frame

-- Where the client is: in `start`, in the loop of `run_read_loop`, in `retry_connect`, or at the end.
pub data Phase : Type 0 where
  starting : Phase
  reading : Phase
  retrying : ℕ → Phase
  failed : BroadcasterClientError → Phase

pub data Wait : Type 0 where
  start_wait reconnect_wait retry_wait : ℕ → Wait

-- The client while it runs, with the waits that it made.
pub record Session : Type 0 where
  pub client : BroadcasterClient
  pub phase : Phase
  pub backoff : ℕ
  pub waits : List Wait

pub data Event : Type 0 where
  attempted : Attempt → Event
  received : Frame → Event

module _ (config : BroadcasterClientConfig) (websocket_url : Bytes) (parse : Bytes → Option Scheme)
    (chain_id : ℕ) (verify_signature : FeedMessageVerifier)
    (from_slice : Bytes → Option BroadcastMessage) where
  -- A required header that is to have the given value.
  abbrev pub check_header :
      BroadcasterClientError
      → BroadcasterClientError
      → ℕ
      → Option (Option ℕ)
      → ClientResult (Unit {0})
  check_header missing incorrect expected header = ok_or header missing >>= λ value.
      ok_or value incorrect >>= λ got. guard (got == expected) incorrect

  abbrev pub check_if : Bool → ClientResult (Unit {0}) → ClientResult (Unit {0})
  check_if true check = check
  check_if false check = ok tt

  abbrev pub check_scheme : Scheme → ClientResult (Unit {0})
  check_scheme ws = ok tt
  check_scheme wss = ok tt
  check_scheme other = err connection

  unfoldable pub validate_preflight_headers :
      Scheme → Option PreflightResponse → ClientResult (Unit {0})
  validate_preflight_headers scheme preflight =
      check_scheme scheme
      >> (ok_or preflight connection >>= λ response.
          guard response.switching_protocols connection
          >> check_if config.require_feed_server_version (
              check_header missing_feed_server_version incorrect_feed_version feed_server_version
                response.feed_server_version_header)
          >> check_if config.require_chain_id
              (check_header missing_chain_id incorrect_chain_id chain_id response.chain_id_header))

  -- Whether `connect` succeeds.
  unfoldable pub try_connect : Attempt → ClientResult (Unit {0})
  unfolding validate_preflight_headers
  try_connect attempt =
      guard (is_nonempty websocket_url) invalid_config
      >> (ok_or (parse websocket_url) invalid_config >>= λ url.
          validate_preflight_headers url attempt.preflight >> guard attempt.opens connection)

  -- The client after `connect` succeeded for its `next_seq_num`.
  abbrev pub connected : BroadcasterClient → BroadcasterClient
  connected c = record c {
    first_reconnect_attempt = true;
    requested = c.requested ++ c.next_seq_num ∷ [];
  }

  abbrev pub verified_messages : BroadcastMessage → List BroadcastFeedMessage
  verified_messages msg =
      filter (verify_signature chain_id config.trusted_sequencer_addresses) (flatten msg.messages)

  -- The channel takes `room` messages before its receiver is gone. `next_seq_num` moves on only if it
  -- takes them all.
  abbrev pub submit : ℕ → List BroadcastFeedMessage → BroadcasterClient → BroadcasterClient
  submit room messages c =
      if ltb room (length messages)
      then record c { sent = c.sent ++ take room messages }
      else record c {
        sent = c.sent ++ messages;
        next_seq_num = elim (last messages) [
          | none ↦ c.next_seq_num
          | some m ↦ u64 (m.sequence_number + 1)
        ];
      }

  -- An error is only logged, so the state that is left is all that counts.
  unfoldable pub process_message : Bytes → ℕ → BroadcasterClient → BroadcasterClient
  process_message payload room c = elim (from_slice payload) [
    | none ↦ c
    | some msg ↦ if msg.version == message_version then submit room (verified_messages msg) c else c
  ]

  abbrev pub start_session : ℕ → Session
  start_session current_message_count = record {
    client = new_client current_message_count;
    phase = starting;
    backoff = config.reconnect_initial_backoff;
    waits = [];
  }

  -- An attempt of the loop of `start`.
  abbrev pub start_attempt : ClientResult (Unit {0}) → Session → Session
  start_attempt (ok u) s = record s {
    client = connected s.client;
    phase = reading;
    backoff = config.reconnect_initial_backoff;
  }
  start_attempt (err e) s = if is_fatal e then record s { phase = failed e } else record s {
    backoff = exponential_backoff s.backoff config.reconnect_maximum_backoff;
    waits = s.waits ++ start_wait s.backoff ∷ [];
  }

  -- The path to a reconnection, up to `retry_connect`.
  abbrev pub disconnected : Session → Session
  disconnected s =
      if s.client.first_reconnect_attempt
      then record s {
        client = record s.client { first_reconnect_attempt = false };
        phase = retrying 0;
      }
      else record s {
        client = record s.client { first_reconnect_attempt = false };
        phase = retrying 0;
        backoff = exponential_backoff s.backoff config.reconnect_maximum_backoff;
        waits = s.waits ++ reconnect_wait s.backoff ∷ [];
      }

  abbrev pub slept : ℕ → List Wait → List Wait
  slept wait waits = if wait == 0 then waits else waits ++ retry_wait wait ∷ []

  -- An attempt of `retry_connect`, before which it waits.
  abbrev pub retry_attempt : ℕ → ClientResult (Unit {0}) → Session → Session
  retry_attempt wait (ok u) s = record s {
    client = connected s.client;
    phase = reading;
    waits = slept wait s.waits;
  }
  retry_attempt wait (err e) s = record s {
    phase = retrying (
        if ltb wait config.retry_connect_max_backoff
        then wait + config.retry_connect_backoff_step
        else wait);
    waits = slept wait s.waits;
  }

  abbrev pub read_frame : Frame → Session → Session
  read_frame timed_out s = disconnected s
  read_frame stream_ended s = disconnected s
  read_frame close_frame s = disconnected s
  read_frame ping_or_pong s = s
  read_frame (text_or_binary payload room) s = record s {
    client = process_message payload room s.client;
    backoff = config.reconnect_initial_backoff;
  }

  -- An event that the client does not wait for changes nothing.
  abbrev pub react : Phase → Event → Session → Session
  react starting (attempted a) s = start_attempt (try_connect a) s
  react starting (received f) s = s
  react reading (attempted a) s = s
  react reading (received f) s = read_frame f s
  react (retrying wait) (attempted a) s = retry_attempt wait (try_connect a) s
  react (retrying wait) (received f) s = s
  react (failed e) event s = s

  unfoldable pub step : Event → Session → Session
  unfolding try_connect process_message
  step event s = react s.phase event s

  unfoldable pub run : List Event → Session → Session
  unfolding step
  run [] s = s
  run (event ∷ events) s = run events (step event s)
