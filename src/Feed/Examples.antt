-- ===== src/Feed/Examples.antt =====
-- A concrete broadcast, and a client and a server that come together.
use chain_adjacent_service.Prelude.{
  ℕ, true, false, ok, ◌≢◌, ◌↔◌, none, some, [], ◌∷◌, map, ◌≡◌, refl,
}
use chain_adjacent_service.Feed.{BroadcastMessage, SharedState, get_since, broadcast}
use chain_adjacent_service.Nitro.TestData.{bare}
use chain_adjacent_service.Feed.Client.{
  BroadcasterClientConfig, default_client_config, new_client, wss, other,
  validate_preflight_headers,
}
use chain_adjacent_service.Feed.Clients.{run_ws_client}
use chain_adjacent_service.Feed.Handshake.{
  WsBroadcastServerConfig, request_of, handshake, preflight_of, handle_connection,
}
use chain_adjacent_service.Feed.Handshake.Agreement.{Upgrades, handshake_agrees}

abbrev test_state : SharedState
test_state = record { backlog = bare 3 1 ∷ bare 4 1 ∷ []; sent = [] }

abbrev test_broadcast : BroadcastMessage
test_broadcast = record {
  version = 1;
  messages = some (bare 4 1) ∷ none ∷ some (bare 5 1) ∷ [];
  confirmed_sequence_number_message = some 3;
}

-- The confirmed message goes, the one that is there already is not kept twice.
test_kept : map (λ m. m.sequence_number) (broadcast test_state test_broadcast).backlog ≡ 4 ∷ 5 ∷ []
unfolding broadcast
test_kept = refl

test_since : map (λ m. m.sequence_number) (get_since test_state.backlog 4) ≡ 4 ∷ []
test_since = refl

abbrev strict_server : WsBroadcastServerConfig
strict_server = record {
  require_version = true;
  enable_compression = true;
  require_compression = true;
}

abbrev strict_client : BroadcasterClientConfig
strict_client = record default_client_config {
  require_feed_server_version = true;
  require_chain_id = true;
}

abbrev test_chain : ℕ
test_chain = 42161

-- The preflight request asks for no compression, and the connection does.
handshake_agrees_example :
    ((validate_preflight_headers strict_client
          (119 ∷ [])
          (λ url. some wss)
          test_chain
          (λ chain_id addresses m. true)
          (λ payload. none)
          wss
          (some (
            preflight_of
              (handshake strict_server test_chain (λ on. some false) (request_of (new_client 4)))))
        ≡ ok tt)
      ↔ ((wss ≢ other)
          × Upgrades strict_server (λ on. some false)
          × (strict_client.require_chain_id ≡ true → test_chain ≡ test_chain)))
    × (handle_connection strict_server test_chain
          (λ on. some on)
          (request_of (new_client 4))
          (bare 4 1 ∷ [])
          []
        ≡ run_ws_client (bare 4 1 ∷ []) 4 [])
handshake_agrees_example =
    handshake_agrees strict_client (119 ∷ []) (λ url. some wss) test_chain
      (λ chain_id addresses m. true) (λ payload. none) strict_server test_chain (λ on. some false)
      (λ on. some on) (new_client 4) wss true (bare 4 1 ∷ []) [] refl (λ h. refl)
