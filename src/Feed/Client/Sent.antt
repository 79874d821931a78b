-- ===== src/Feed/Client/Sent.antt =====
-- rollups/nitro/feed/client.rs: what the client sends to the submission channel, and where it asks the
-- feed to go on.
use mathlib.Core.List.{append_assoc}
use chain_adjacent_service.Prelude.{
  ltb, ◌==◌, Bool-cases, Option-cases, length, last, filter, take, ok, err, ℕ, zero, suc, ◌+◌, ◌≡◌,
  refl, sym, ap, ◌∙◌, ◌⊎◌, inl, inr, Bool, true, Option, some, List, [], ◌∷◌, ◌++◌,
}
use chain_adjacent_service.Prelude.Words.{Bytes, All, All-append, u64}
use chain_adjacent_service.Nitro.{BroadcastFeedMessage}
use chain_adjacent_service.Nitro.Payload.{FeedMessageVerifier}
use chain_adjacent_service.Feed.{BroadcastMessage, flatten}
use chain_adjacent_service.Feed.Client.{
  BroadcasterClientConfig, is_fatal, Scheme, BroadcasterClient, ClientResult, connected, submit,
  process_message, timed_out, stream_ended, close_frame, ping_or_pong, text_or_binary,
  message_version, Phase, starting, reading, retrying, failed, Session, start_session,
  start_attempt, disconnected, retry_attempt, Event, attempted, received, react, step, run,
}
use chain_adjacent_service.Feed.Client.Invariant.{All-snoc}

All-map :
    {A : Type 0} (P Q : A → Type 0) (xs : List A) → ((x : A) → P x → Q x) → All P xs → All Q xs
All-map P Q [] f h = tt
All-map P Q (x ∷ xs) f h = (f x h.0, All-map P Q xs f h.1)

All-filter :
    {A : Type 0} (test : A → Bool) (xs : List A) → All (λ x. test x ≡ true) (filter test xs)
All-filter test [] = tt
All-filter test (x ∷ xs) = elim (Bool-cases (test x)) [
  | inl e ↦ rw e (e, All-filter test xs)
  | inr e ↦ rw e (All-filter test xs)
]

All-take : {A : Type 0} (P : A → Type 0) (n : ℕ) (xs : List A) → All P xs → All P (take n xs)
All-take P zero xs h = tt
All-take P (suc n) [] h = tt
All-take P (suc n) (x ∷ xs) h = (h.0, All-take P n xs h.1)

last_split :
    {A : Type 0} (xs : List A) (x : A)
    → last xs ≡ some x
    → (front : List A) × (xs ≡ front ++ x ∷ [])
last_split [] x e = absurd (cc)
last_split (y ∷ []) x e = ([], ap (λ z. z ∷ []) (inside e))
  where
    inside : some y ≡ some x → y ≡ x
    inside e = cc
last_split (y ∷ z ∷ zs) x e =
    let (front, same) = last_split (z ∷ zs) x e in (y ∷ front, ap (λ l. y ∷ l) same)

-- A sequence number to go on from: that of the start, or one after a message that was sent.
abbrev pub Follows : ℕ → List BroadcastFeedMessage → ℕ → Type 0
Follows first sent next =
    (next ≡ first)
    ⊎ ((m : BroadcastFeedMessage) × ((front : List BroadcastFeedMessage) × (rest : List
            BroadcastFeedMessage)
          × (sent ≡ front ++ m ∷ rest))
        × (next ≡ u64 (m.sequence_number + 1)))

Follows-append :
    (first next : ℕ) (sent more : List BroadcastFeedMessage)
    → Follows first sent next
    → Follows first (sent ++ more) next
Follows-append first next sent more (inl e) = inl e
Follows-append first next sent more (inr (m, (front, rest, e), n)) =
    inr (m, (front, rest ++ more, ap (λ l. l ++ more) e ∙ append_assoc front (m ∷ rest) more), n)

module _ (config : BroadcasterClientConfig) (websocket_url : Bytes) (parse : Bytes → Option Scheme)
    (chain_id : ℕ) (verify_signature : FeedMessageVerifier)
    (from_slice : Bytes → Option BroadcastMessage) where
  abbrev pub Verified : BroadcastFeedMessage → Type 0
  Verified m = verify_signature chain_id config.trusted_sequencer_addresses m ≡ true

  abbrev pub Submits : ℕ → BroadcasterClient → Type 0
  Submits first c =
      All Verified c.sent
      × Follows first c.sent c.next_seq_num
      × All (Follows first c.sent) c.requested

  submit-Submits :
      (room first : ℕ) (messages : List BroadcastFeedMessage) (c : BroadcasterClient)
      → All Verified messages
      → Submits first c
      → Submits first
          (submit config websocket_url parse chain_id verify_signature from_slice room messages c)
  submit-Submits room first messages c fine (v, f, r) =
      elim (Bool-cases (ltb room (length messages))) [
        | inl e ↦ rw e (
          All-append Verified c.sent (take room messages) v (All-take Verified room messages fine),
          Follows-append first c.next_seq_num c.sent (take room messages) f,
          All-map (Follows first c.sent) (Follows first (c.sent ++ take room messages)) c.requested
              (λ n. Follows-append first n c.sent (take room messages)) r,
        )
        | inr e ↦
            let all = All-append Verified c.sent messages v fine in
            let asked =
              All-map (Follows first c.sent) (Follows first (c.sent ++ messages)) c.requested
                (λ n. Follows-append first n c.sent messages) r in
            elim (Option-cases (last messages)) [
              | inl g ↦
                  rw (e, g) (all, Follows-append first c.next_seq_num c.sent messages f, asked)
              | inr (m, g) ↦
                  let (front, same) = last_split messages m g in
                  let place =
                    ap (λ l. c.sent ++ l) same ∙ sym (append_assoc c.sent front (m ∷ [])) in
                  rw (e, g) (all, inr (m, (c.sent ++ front, [], place), refl), asked)
            ]
      ]

  process_message-Submits :
      (payload : Bytes) (room first : ℕ) (c : BroadcasterClient)
      → Submits first c
      → Submits first (
          process_message config websocket_url parse chain_id verify_signature from_slice payload
            room c)
  unfolding process_message
  process_message-Submits payload room first c v = elim (Option-cases (from_slice payload)) [
    | inl e ↦ rw (process_message, e) v
    | inr (msg, e) ↦ elim (Bool-cases (msg.version == message_version)) [
      | inl g ↦
          let fine =
            All-filter (verify_signature chain_id config.trusted_sequencer_addresses)
              (flatten msg.messages) in
          rw (process_message, e, g) (submit-Submits room first _ c fine v)
      | inr g ↦ rw (process_message, e, g) v
    ]
  ]

  connected-Submits :
      (first : ℕ) (c : BroadcasterClient)
      → Submits first c
      → Submits first (connected config websocket_url parse chain_id verify_signature from_slice c)
  connected-Submits first c (v, f, r) =
      (v, f, All-snoc (Follows first c.sent) c.requested c.next_seq_num r f)

  disconnected-Submits :
      (first : ℕ) (s : Session)
      → Submits first s.client
      → Submits first
          (disconnected config websocket_url parse chain_id verify_signature from_slice s).client
  disconnected-Submits first s v = elim (Bool-cases s.client.first_reconnect_attempt) [
    | inl e ↦ rw e v
    | inr e ↦ rw e v
  ]

  start_attempt-Submits :
      (first : ℕ) (r : ClientResult (Unit {0})) (s : Session)
      → Submits first s.client
      → Submits first
          (start_attempt config websocket_url parse chain_id verify_signature from_slice r s).client
  start_attempt-Submits first (ok u) s v = connected-Submits first s.client v
  start_attempt-Submits first (err e) s v = elim (Bool-cases (is_fatal e)) [
    | inl g ↦ rw g v
    | inr g ↦ rw g v
  ]

  retry_attempt-Submits :
      (first wait : ℕ) (r : ClientResult (Unit {0})) (s : Session)
      → Submits first s.client
      → Submits first
          (retry_attempt config websocket_url parse chain_id verify_signature from_slice wait r
            s).client
  retry_attempt-Submits first wait (ok u) s v = connected-Submits first s.client v
  retry_attempt-Submits first wait (err e) s v = v

  react-Submits :
      (first : ℕ) (phase : Phase) (event : Event) (s : Session)
      → Submits first s.client
      → Submits first
          (react config websocket_url parse chain_id verify_signature from_slice phase event
            s).client
  react-Submits first starting (attempted a) s v = start_attempt-Submits first _ s v
  react-Submits first starting (received f) s v = v
  react-Submits first reading (attempted a) s v = v
  react-Submits first reading (received timed_out) s v = disconnected-Submits first s v
  react-Submits first reading (received stream_ended) s v = disconnected-Submits first s v
  react-Submits first reading (received close_frame) s v = disconnected-Submits first s v
  react-Submits first reading (received ping_or_pong) s v = v
  react-Submits first reading (received (text_or_binary payload room)) s v =
      process_message-Submits payload room first s.client v
  react-Submits first (retrying wait) (attempted a) s v = retry_attempt-Submits first wait _ s v
  react-Submits first (retrying wait) (received f) s v = v
  react-Submits first (failed x) event s v = v

  run_from-Submits :
      (first : ℕ) (events : List Event) (s : Session)
      → Submits first s.client
      → Submits first
          (run config websocket_url parse chain_id verify_signature from_slice events s).client
  unfolding run step
  run_from-Submits first [] s v = v
  run_from-Submits first (event ∷ events) s v =
      run_from-Submits first events _ (react-Submits first s.phase event s v)

  -- In every run of the client, whatever the network, the feed and the receiver of the channel do: each
  -- message that is sent to the submission channel is one that the verifier accepts for the chain and
  -- the trusted addresses, and each connection asks for the messages from the number of the start on,
  -- or from the number after a message that was sent.
  pub run-Submits :
      (events : List Event) (current_message_count : ℕ)
      → Submits current_message_count
          (run config websocket_url parse chain_id verify_signature from_slice events (
            start_session config websocket_url parse chain_id verify_signature from_slice
              current_message_count)).client
  run-Submits events current_message_count =
      run_from-Submits current_message_count events _ (tt, inl refl, tt)
