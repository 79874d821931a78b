-- ===== src/Feed/Handshake.antt =====
-- rollups/nitro/feed/ws_server.rs: `handle_connection`, from the request of a client to its session, and
-- the headers that `connect` of feed/client.rs sends. A header is its value, where it is a number.
pub mod Agreement
use chain_adjacent_service.Prelude.{
  leb, if◌then◌else◌, ℕ, Bool, true, false, not, ◌&&◌, Option, none, some, List, [],
}
use chain_adjacent_service.Nitro.{BroadcastFeedMessage}
use chain_adjacent_service.Feed.{BroadcastMessage}
use chain_adjacent_service.Feed.Client.{feed_server_version, PreflightResponse, BroadcasterClient}
use chain_adjacent_service.Feed.Clients.{or_zero, run_ws_client}

abbrev pub feed_client_version : ℕ
feed_client_version = 2

pub record WsBroadcastServerConfig : Type 0 where
  pub require_version : Bool
  pub enable_compression : Bool
  pub require_compression : Bool

pub record FeedRequest : Type 0 where
  pub client_version_header : Option ℕ
  pub requested_seq_num_header : Option ℕ

-- The headers of the requests that a client makes.
abbrev pub request_of : BroadcasterClient → FeedRequest
request_of c = record {
  client_version_header = some feed_client_version;
  requested_seq_num_header = some c.next_seq_num;
}

-- The answer to a request: the status 400, or a response with the number that the session starts from
-- and whether compression was accepted.
pub data Handshake : Type 0 where
  bad_request : Handshake
  upgraded : PreflightResponse → ℕ → Bool → Handshake

abbrev pub version_ok : Bool → Option ℕ → Bool
version_ok false client_version = true
version_ok true none = false
version_ok true (some v) = leb feed_client_version v

abbrev pub response_headers : ℕ → PreflightResponse
response_headers chain_id = record {
  switching_protocols = true;
  feed_server_version_header = some (some feed_server_version);
  chain_id_header = some (some chain_id);
}

-- The argument is the upgrade of the request, with the compression that the server offers: none is an
-- error, and otherwise it says whether compression was accepted. It depends on the headers of the
-- request, in which the preflight check and the connection differ.
abbrev pub upgraded_with : ℕ → FeedRequest → Option Bool → Handshake
upgraded_with chain_id req none = bad_request
upgraded_with chain_id req (some compression_accepted) =
    upgraded (response_headers chain_id) (or_zero req.requested_seq_num_header) compression_accepted

unfoldable pub handshake :
    WsBroadcastServerConfig → ℕ → (Bool → Option Bool) → FeedRequest → Handshake
handshake config chain_id upgrade req =
    if version_ok config.require_version req.client_version_header
    then upgraded_with chain_id req (upgrade config.enable_compression)
    else bad_request

-- The response as the preflight check of the client sees it.
abbrev pub preflight_of : Handshake → PreflightResponse
preflight_of (upgraded response seq_num compression_accepted) = response
preflight_of bad_request = record {
  switching_protocols = false;
  feed_server_version_header = none;
  chain_id_header = none;
}

-- The frames of the session: none where compression is required and was not accepted.
abbrev pub session_frames :
    WsBroadcastServerConfig
    → Handshake
    → List BroadcastFeedMessage
    → List BroadcastMessage
    → List BroadcastMessage
session_frames config bad_request backlog live = []
session_frames config (upgraded response seq_num compression_accepted) backlog live =
    if config.require_compression && not compression_accepted
    then []
    else run_ws_client backlog seq_num live

unfoldable pub handle_connection :
    WsBroadcastServerConfig
    → ℕ
    → (Bool → Option Bool)
    → FeedRequest
    → List BroadcastFeedMessage
    → List BroadcastMessage
    → List BroadcastMessage
unfolding handshake
handle_connection config chain_id upgrade req backlog live =
    session_frames config (handshake config chain_id upgrade req) backlog live
