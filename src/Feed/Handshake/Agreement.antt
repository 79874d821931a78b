-- ===== src/Feed/Handshake/Agreement.antt =====
-- feed/client.rs against feed/ws_server.rs: when a client and a server of this code come together.
use chain_adjacent_service.Prelude.{
  subst, sym, ap, ◌∙◌, ◌==◌, if◌then◌else◌, ok, ◌>>◌, seq_iff, guard_ok, not_both, ℕ, Bool, true,
  false, not, ◌&&◌, Option, none, some, List, [], ◌≡◌, ◌≢◌, ◌↔◌, refl, arith,
}
use chain_adjacent_service.Prelude.Words.{Bytes}
use chain_adjacent_service.Nitro.{BroadcastFeedMessage}
use chain_adjacent_service.Nitro.Payload.{FeedMessageVerifier}
use chain_adjacent_service.Feed.{BroadcastMessage}
use chain_adjacent_service.Feed.Client.{
  check_if, check_header, feed_server_version, missing_feed_server_version, incorrect_feed_version,
  missing_chain_id, incorrect_chain_id, BroadcasterClientConfig, Scheme, ws, wss, other,
  BroadcasterClient, validate_preflight_headers,
}
use chain_adjacent_service.Feed.Clients.{run_ws_client}
use chain_adjacent_service.Feed.Handshake.{
  upgraded_with, version_ok, session_frames, feed_client_version, WsBroadcastServerConfig,
  request_of, handshake, preflight_of, handle_connection,
}

-- The upgrade works, in the way that the server asks for.
abbrev pub Upgrades : WsBroadcastServerConfig → (Bool → Option Bool) → Type 0
Upgrades server upgrade = (accepted : Bool) × (upgrade server.enable_compression ≡ some accepted)

version_current : (required : Bool) → version_ok required (some feed_client_version) ≡ true
version_current true = refl
version_current false = refl

handshake_lem :
    (server : WsBroadcastServerConfig) (server_chain_id : ℕ) (upgrade : Bool → Option Bool)
    (c : BroadcasterClient)
    → handshake server server_chain_id upgrade (request_of c)
      ≡ upgraded_with server_chain_id (request_of c) (upgrade server.enable_compression)
unfolding handshake
handshake_lem server server_chain_id upgrade c = rw (version_current server.require_version) refl

session_open :
    (required accepted : Bool) (frames : List BroadcastMessage)
    → (required ≡ true → accepted ≡ true)
    → (if required && not accepted then [] else frames) ≡ frames
session_open true true frames h = refl
session_open true false frames h = absurd (ground (arith, h refl))
session_open false accepted frames h = refl

module _ (config : BroadcasterClientConfig) (websocket_url : Bytes) (parse : Bytes → Option Scheme)
    (chain_id : ℕ) (verify_signature : FeedMessageVerifier)
    (from_slice : Bytes → Option BroadcastMessage) where
  version_passes :
      (required : Bool)
      → check_if config websocket_url parse chain_id verify_signature from_slice required (
          check_header config websocket_url parse chain_id verify_signature from_slice
            missing_feed_server_version incorrect_feed_version feed_server_version
            (some (some feed_server_version)))
        ≡ ok tt
  version_passes true = refl
  version_passes false = refl

  chain_passes :
      (server_chain_id : ℕ) (required : Bool)
      → (check_if config websocket_url parse chain_id verify_signature from_slice required (
            check_header config websocket_url parse chain_id verify_signature from_slice
              missing_chain_id incorrect_chain_id chain_id
              (some (some server_chain_id)))
          ≡ ok tt)
        ↔ (required ≡ true → server_chain_id ≡ chain_id)
  chain_passes server_chain_id false = (λ h e. absurd (ground arith), λ h. refl)
  chain_passes server_chain_id true = (
    λ h e. same (guard_ok (server_chain_id == chain_id) incorrect_chain_id h),
    λ h. rw (h refl) (rw (reflexive chain_id) refl),
  )
    where
      same : {a b : ℕ} → (a == b) ≡ true → a ≡ b
      same h = ground arith

      reflexive : (a : ℕ) → (a == a) ≡ true
      reflexive a = ground arith

  checks_pass :
      (server_chain_id : ℕ)
      → ((check_if config websocket_url parse chain_id verify_signature from_slice
              config.require_feed_server_version
              (check_header config websocket_url parse chain_id verify_signature from_slice
                missing_feed_server_version incorrect_feed_version feed_server_version
                (some (some feed_server_version)))
            >> check_if config websocket_url parse chain_id verify_signature from_slice
                config.require_chain_id
                (check_header config websocket_url parse chain_id verify_signature from_slice
                  missing_chain_id incorrect_chain_id chain_id
                  (some (some server_chain_id))))
          ≡ ok tt)
        ↔ (config.require_chain_id ≡ true → server_chain_id ≡ chain_id)
  checks_pass server_chain_id =
      let versions = version_passes config.require_feed_server_version in
      let (forth, back) = chain_passes server_chain_id config.require_chain_id in
      (λ h. forth ((seq_iff _ _ tt).0 h).1, λ h. (seq_iff _ _ tt).1 (versions, back h))

  preflight_iff :
      (server_chain_id : ℕ) (c : BroadcasterClient) (scheme : Scheme) (o : Option Bool)
      → (validate_preflight_headers config websocket_url parse chain_id verify_signature from_slice
            scheme
            (some (preflight_of (upgraded_with server_chain_id (request_of c) o)))
          ≡ ok tt)
        ↔ ((scheme ≢ other)
            × ((accepted : Bool) × (o ≡ some accepted))
            × (config.require_chain_id ≡ true → server_chain_id ≡ chain_id))
  unfolding validate_preflight_headers
  preflight_iff server_chain_id c other o = (λ h. not_both h, λ h. absurd (h.0 refl))
  preflight_iff server_chain_id c ws none =
      (λ h. not_both h, λ (n, (a, e), q). absurd (ground arith))
  preflight_iff server_chain_id c wss none =
      (λ h. not_both h, λ (n, (a, e), q). absurd (ground arith))
  preflight_iff server_chain_id c ws (some a) = (
    λ h. ((λ e. absurd (ground arith)), (a, refl), (checks_pass server_chain_id).0 h),
    λ (n, o, q). (checks_pass server_chain_id).1 q,
  )
  preflight_iff server_chain_id c wss (some a) = (
    λ h. ((λ e. absurd (ground arith)), (a, refl), (checks_pass server_chain_id).0 h),
    λ (n, o, q). (checks_pass server_chain_id).1 q,
  )

  -- The preflight check of a client passes on a server of this code exactly if the scheme is one of web
  -- sockets, the upgrade of its request works, and the chains are the same where the client requires
  -- that; the checks of the versions never fail. Where then the upgrade of the connection works, and
  -- compression is accepted if the server requires it, the session starts from the number that the
  -- client asks for, with compression and without. The two requests differ in their headers, and so
  -- each has its own upgrade.
  pub handshake_agrees :
      (server : WsBroadcastServerConfig) (server_chain_id : ℕ)
      (preflight_upgrade upgrade : Bool → Option Bool) (c : BroadcasterClient) (scheme : Scheme)
      (accepted : Bool) (backlog : List BroadcastFeedMessage) (live : List BroadcastMessage)
      → upgrade server.enable_compression ≡ some accepted
      → (server.require_compression ≡ true → accepted ≡ true)
      → ((validate_preflight_headers config websocket_url parse chain_id verify_signature from_slice
              scheme
              (some
                (preflight_of (handshake server server_chain_id preflight_upgrade (request_of c))))
            ≡ ok tt)
          ↔ ((scheme ≢ other)
              × Upgrades server preflight_upgrade
              × (config.require_chain_id ≡ true → server_chain_id ≡ chain_id)))
        × (handle_connection server server_chain_id upgrade (request_of c) backlog live
            ≡ run_ws_client backlog c.next_seq_num live)
  unfolding handle_connection
  handshake_agrees server server_chain_id preflight_upgrade upgrade c scheme accepted backlog live e
        compressed =
      (
        subst
            (λ x.
              (validate_preflight_headers config websocket_url parse chain_id verify_signature
                  from_slice scheme (some (preflight_of x))
                ≡ ok tt)
              ↔ ((scheme ≢ other)
                  × Upgrades server preflight_upgrade
                  × (config.require_chain_id ≡ true → server_chain_id ≡ chain_id)))
            (sym (handshake_lem server server_chain_id preflight_upgrade c))
            (preflight_iff server_chain_id c scheme (preflight_upgrade server.enable_compression)),
        ap (λ x. session_frames server x backlog live)
              (handshake_lem server server_chain_id upgrade c
                ∙ ap (upgraded_with server_chain_id (request_of c)) e)
            ∙ session_open server.require_compression accepted
                (run_ws_client backlog c.next_seq_num live) compressed,
      )
