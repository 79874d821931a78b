-- ===== src/Feed/Client/Invariant.antt =====
-- rollups/nitro/feed/client.rs: what holds in every run of the client, for every network.
use chain_adjacent_service.Prelude.{
  ltb, ◌==◌, Bool-cases, Option-cases, length, ok, err, ℕ, ◌+◌, ◌-◌, ◌≤◌, max, ◌≡◌, refl, ◌∙◌, inl,
  inr, Bool, true, Option, List, [], ◌∷◌, ◌++◌, arith,
}
use chain_adjacent_service.Prelude.Words.{Bytes, All}
use chain_adjacent_service.Nitro.Payload.{FeedMessageVerifier}
use chain_adjacent_service.Feed.{BroadcastMessage}
use chain_adjacent_service.Feed.Client.{
  BroadcasterClientConfig, is_fatal, Scheme, BroadcasterClient, ClientResult, verified_messages,
  process_message, timed_out, stream_ended, close_frame, ping_or_pong, text_or_binary,
  message_version, Phase, starting, reading, retrying, failed, Wait, start_wait, reconnect_wait,
  retry_wait, Session, start_session, start_attempt, disconnected, slept, retry_attempt, Event,
  attempted, received, react, step, run,
}

pub All-snoc :
    {A : Type 0} (P : A → Type 0) (xs : List A) (x : A) → All P xs → P x → All P (xs ++ x ∷ [])
All-snoc P [] x h p = (p, tt)
All-snoc P (y ∷ ys) x h p = (h.0, All-snoc P ys x h.1 p)

module _ (config : BroadcasterClientConfig) (websocket_url : Bytes) (parse : Bytes → Option Scheme)
    (chain_id : ℕ) (verify_signature : FeedMessageVerifier)
    (from_slice : Bytes → Option BroadcastMessage) where
  abbrev pub longest_retry : ℕ
  longest_retry = config.retry_connect_max_backoff + config.retry_connect_backoff_step - 1

  abbrev pub longest_backoff : ℕ
  longest_backoff = max config.reconnect_initial_backoff config.reconnect_maximum_backoff

  -- The client never waits with its back-off before a reconnection; other waits are within the settings.
  abbrev pub WaitOk : Wait → Type 0
  WaitOk (start_wait w) = w ≤ longest_backoff
  WaitOk (reconnect_wait w) = ⊥
  WaitOk (retry_wait w) = w ≤ longest_retry

  -- The flag of a first reconnection is always set when a connection is lost, and the client ends only
  -- with a fatal error of `start`, when it was never connected.
  abbrev pub PhaseOk : Phase → Bool → List ℕ → Type 0
  PhaseOk starting first requested = (first ≡ true) × (requested ≡ [])
  PhaseOk reading first requested = first ≡ true
  PhaseOk (retrying wait) first requested = wait ≤ longest_retry
  PhaseOk (failed e) first requested = (is_fatal e ≡ true) × (requested ≡ [])

  abbrev pub Persists : Session → Type 0
  Persists s =
      PhaseOk s.phase s.client.first_reconnect_attempt s.client.requested
      × All WaitOk s.waits
      × (s.backoff ≤ longest_backoff)

  start_attempt-Persists :
      (r : ClientResult (Unit {0})) (s : Session)
      → s.phase ≡ starting
      → PhaseOk starting s.client.first_reconnect_attempt s.client.requested
      → All WaitOk s.waits
      → s.backoff ≤ longest_backoff
      → Persists (start_attempt config websocket_url parse chain_id verify_signature from_slice r s)
  start_attempt-Persists (ok u) s e p w b = (refl, w, omega arith)
  start_attempt-Persists (err x) s e p w b = elim (Bool-cases (is_fatal x)) [
    | inl g ↦ rw g ((g, p.1), w, b)
    | inr g ↦ rw (g, e) (p, All-snoc WaitOk s.waits (start_wait s.backoff) w b, omega arith)
  ]

  slept-WaitOk :
      (wait : ℕ) (waits : List Wait)
      → wait ≤ longest_retry
      → All WaitOk waits
      → All WaitOk
          (slept config websocket_url parse chain_id verify_signature from_slice wait waits)
  slept-WaitOk wait waits h w = elim (Bool-cases (wait == 0)) [
    | inl g ↦ rw g w
    | inr g ↦ rw g (All-snoc WaitOk waits (retry_wait wait) w h)
  ]

  retry_attempt-Persists :
      (wait : ℕ) (r : ClientResult (Unit {0})) (s : Session)
      → wait ≤ longest_retry
      → All WaitOk s.waits
      → s.backoff ≤ longest_backoff
      → Persists
          (retry_attempt config websocket_url parse chain_id verify_signature from_slice wait r s)
  retry_attempt-Persists wait (ok u) s h w b = (refl, slept-WaitOk wait s.waits h w, b)
  retry_attempt-Persists wait (err e) s h w b = (ground arith, slept-WaitOk wait s.waits h w, b)

  disconnected-Persists :
      (s : Session)
      → s.client.first_reconnect_attempt ≡ true
      → All WaitOk s.waits
      → s.backoff ≤ longest_backoff
      → Persists (disconnected config websocket_url parse chain_id verify_signature from_slice s)
  disconnected-Persists s f w b = rw f (omega arith, w, b)

  process_message-keeps :
      (payload : Bytes) (room : ℕ) (c : BroadcasterClient)
      → let d =
          process_message config websocket_url parse chain_id verify_signature from_slice payload
            room c in
        (d.first_reconnect_attempt ≡ c.first_reconnect_attempt) × (d.requested ≡ c.requested)
  unfolding process_message
  process_message-keeps payload room c = elim (Option-cases (from_slice payload)) [
    | inl e ↦ rw (process_message, e) (refl, refl)
    | inr (msg, e) ↦ elim (Bool-cases (msg.version == message_version)) [
      | inl g ↦
          elim (Bool-cases (
            ltb room (
              length (
                verified_messages config websocket_url parse chain_id verify_signature from_slice
                  msg)))) [
                    | inl k ↦ rw (process_message, e, g, k) (refl, refl)
                    | inr k ↦ rw (process_message, e, g, k) (refl, refl)
                  ]
      | inr g ↦ rw (process_message, e, g) (refl, refl)
    ]
  ]

  react-Persists :
      (phase : Phase) (event : Event) (s : Session)
      → s.phase ≡ phase
      → PhaseOk phase s.client.first_reconnect_attempt s.client.requested
      → Persists s
      → Persists
          (react config websocket_url parse chain_id verify_signature from_slice phase event s)
  react-Persists starting (attempted a) s e p (q, w, b) = start_attempt-Persists _ s e p w b
  react-Persists starting (received f) s e p v = v
  react-Persists reading (attempted a) s e p v = v
  react-Persists reading (received timed_out) s e p (q, w, b) = disconnected-Persists s p w b
  react-Persists reading (received stream_ended) s e p (q, w, b) = disconnected-Persists s p w b
  react-Persists reading (received close_frame) s e p (q, w, b) = disconnected-Persists s p w b
  react-Persists reading (received ping_or_pong) s e p v = v
  react-Persists reading (received (text_or_binary payload room)) s e p (q, w, b) =
      let (first, asked) = process_message-keeps payload room s.client in
      (rw e (first ∙ p), w, omega arith)
  react-Persists (retrying wait) (attempted a) s e p (q, w, b) =
      retry_attempt-Persists wait _ s p w b
  react-Persists (retrying wait) (received f) s e p v = v
  react-Persists (failed x) event s e p v = v

  run_from-Persists :
      (events : List Event) (s : Session)
      → Persists s
      → Persists (run config websocket_url parse chain_id verify_signature from_slice events s)
  unfolding run step
  run_from-Persists [] s v = v
  run_from-Persists (event ∷ events) s v =
      run_from-Persists events _ (react-Persists s.phase event s refl v.0 v)

  -- In every run of the client, whatever the network does: a lost connection is always taken for the
  -- first one, so the client never waits with the back-off of a reconnection; its other waits are at
  -- most as long as the settings say; and it ends only with a fatal error that it meets before its first
  -- connection: after that no error ends it.
  pub run-Persists :
      (events : List Event) (current_message_count : ℕ)
      → Persists (
          run config websocket_url parse chain_id verify_signature from_slice events (
            start_session config websocket_url parse chain_id verify_signature from_slice
              current_message_count))
  run-Persists events current_message_count =
      run_from-Persists events _ ((refl, refl), tt, omega arith)
