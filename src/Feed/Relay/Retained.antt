-- ===== src/Feed/Relay/Retained.antt =====
-- rollups/nitro/feed/relay.rs: the backlog of the server behind the relay is the plain list of what was
-- relayed and not confirmed since.
use mathlib.Core.List.{append-nil}
use chain_adjacent_service.Prelude.{
  ltb, filter, ℕ, ◌<◌, ◌≡◌, refl, sym, ap, ◌∙◌, subst, Option, none, some, List, [], ◌∷◌, ◌++◌, map,
}
use chain_adjacent_service.Prelude.Words.{All-append}
use chain_adjacent_service.BtreeMap.{IncreasingFrom}
use chain_adjacent_service.Nitro.{BroadcastFeedMessage}
use chain_adjacent_service.Feed.Clients.{backlog_frame}
use chain_adjacent_service.Feed.{BroadcastMessage, SharedState}
use chain_adjacent_service.Feed.Backlog.{seq}
use chain_adjacent_service.Feed.Clients.Order.{AllBelow, AllBelow-mono, split_at, below}
use chain_adjacent_service.Feed.Clients.Complete.{broadcast_below, flatten-some}
use chain_adjacent_service.Feed.Relay.{
  broadcast_feed_messages, confirm, RelayEvent, l1_finalized_changed, messages_received,
  l1_sender_dropped, espresso_channel_closed, client_exited, RelayEnd, relay_run,
}

-- The specification: a list, to which the messages are added at the end and from which a finalized index
-- takes what is not above it. The relay looks at nothing after its end.
abbrev pub retain :
    Option RelayEnd → List BroadcastFeedMessage → List RelayEvent → List BroadcastFeedMessage
retain ended ms [] = ms
retain (some end) ms (event ∷ events) = ms
retain none ms (l1_finalized_changed c ∷ events) =
    retain none (filter (λ m. ltb c (seq m)) ms) events
retain none ms (messages_received x xs ∷ events) = retain none (ms ++ x ∷ xs) events
retain none ms (l1_sender_dropped ∷ events) = ms
retain none ms (espresso_channel_closed ∷ events) = ms
retain none ms (client_exited b ∷ events) = ms

-- The messages that come in.
abbrev pub relayed : List RelayEvent → List BroadcastFeedMessage
relayed [] = []
relayed (l1_finalized_changed c ∷ events) = relayed events
relayed (messages_received x xs ∷ events) = (x ∷ xs) ++ relayed events
relayed (l1_sender_dropped ∷ events) = relayed events
relayed (espresso_channel_closed ∷ events) = relayed events
relayed (client_exited b ∷ events) = relayed events

confirm_lem :
    (n c : ℕ) (server : SharedState)
    → AllBelow n server.backlog
    → (confirm c server).backlog ≡ filter (λ m. ltb c (seq m)) server.backlog
unfolding confirm
confirm_lem n c server h =
    broadcast_below n server confirm_frame h tt
    ∙ append-nil (filter (λ m. ltb c (seq m)) server.backlog)
  where
    confirm_frame : BroadcastMessage
    confirm_frame = record {
      version = 1;
      messages = [];
      confirmed_sequence_number_message = some c;
    }

broadcast_feed_messages_lem :
    (n : ℕ) (ms : List BroadcastFeedMessage) (server : SharedState)
    → AllBelow n server.backlog
    → IncreasingFrom n (map seq ms)
    → (broadcast_feed_messages ms server).backlog ≡ server.backlog ++ ms
unfolding broadcast_feed_messages
broadcast_feed_messages_lem n ms server h v =
    broadcast_below n server (backlog_frame ms) h
      (subst (λ l. IncreasingFrom n (map seq l)) (sym (flatten-some ms)) v)
    ∙ ap (λ l. server.backlog ++ l) (flatten-some ms)

relay_ended :
    (events : List RelayEvent) (server : SharedState) (end : RelayEnd)
    → (relay_run events (record { server = server; ended = some end })).server.backlog
      ≡ server.backlog
unfolding relay_run
relay_ended [] server end = refl
relay_ended (event ∷ events) server end = relay_ended events server end

-- The backlog refines the list: in every run of the relay in which the messages come in increasing order,
-- above those of the backlog at the start, the backlog of the server is the list of the specification,
-- so the skipping of old messages in `append` never loses one.
pub relay_run-retain :
    (n : ℕ) (events : List RelayEvent) (server : SharedState)
    → AllBelow n server.backlog
    → IncreasingFrom n (map seq (relayed events))
    → (relay_run events (record { server = server; ended = none })).server.backlog
      ≡ retain none server.backlog events
unfolding relay_run
relay_run-retain n [] server h v = refl
relay_run-retain n (l1_finalized_changed c ∷ events) server h v =
    let same = confirm_lem n c server h in
    relay_run-retain n events (confirm c server)
      (subst (AllBelow n) (sym same) (below n server.backlog (some c) h)) v
    ∙ ap (λ l. retain none l events) same
relay_run-retain n (messages_received x xs ∷ events) server h v =
    let (k, le, first, below_k, rest, least) = split_at n (x ∷ xs) (relayed events) v in
    let same = broadcast_feed_messages_lem n (x ∷ xs) server h first in
    relay_run-retain k events (broadcast_feed_messages (x ∷ xs) server)
      (subst (AllBelow k) (sym same) (
        All-append (λ m. seq m < k) server.backlog (x ∷ xs) (AllBelow-mono n k server.backlog le h)
          below_k))
      rest
    ∙ ap (λ l. retain none l events) same
relay_run-retain n (l1_sender_dropped ∷ events) server h v = relay_ended events server _
relay_run-retain n (espresso_channel_closed ∷ events) server h v = relay_ended events server _
relay_run-retain n (client_exited b ∷ events) server h v = relay_ended events server _
