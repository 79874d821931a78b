-- ===== src/Feed/Clients/Complete.antt =====
-- rollups/nitro/feed/ws_server.rs: a client misses no message, whenever it connects.
use chain_adjacent_service.Prelude.{
  is_some, ltb, leb, Bool-cases, Option-cases, lt→ltb, last, ℕ, ◌≤◌, ◌<◌, ◌≡◌, refl, sym, ap, ◌∙◌,
  subst, ◌⊎◌, inl, inr, true, Option, none, some, List, [], ◌∷◌, ◌++◌, map, arith,
}
use mathlib.Core.List.{append_assoc}
use chain_adjacent_service.Prelude.Words.{All-append}
use chain_adjacent_service.BtreeMap.{IncreasingFrom}
use chain_adjacent_service.Nitro.{BroadcastFeedMessage}
use chain_adjacent_service.Feed.{
  BroadcastMessage, flatten, get_since, SharedState, confirm_if, broadcast,
}
use chain_adjacent_service.Feed.Backlog.{seq, newer, filter_all, append_messages_lem}
use chain_adjacent_service.Feed.Clients.{
  any_newer, any_to_send, should_send, update_last_sent, or_zero, deliver, last_seq, write_backlog,
  run_ws_client, broadcasts,
}
use chain_adjacent_service.Feed.Clients.Order.{
  messages, In, ConfirmedIn, AllBelow, In-append_left, In-append_right, In-split, In-filter,
  AllBelow-filter, AllBelow-mono, AllBelow-last, In-below, split_at, AllBelow-append, below,
}

newer_below :
    (n : ℕ) (kept ms : List BroadcastFeedMessage)
    → AllBelow n kept
    → IncreasingFrom n (map seq ms)
    → newer kept ms ≡ ms
newer_below n kept ms h v = elim (Option-cases (last kept)) [
  | inl e ↦ rw (e, newer) refl
  | inr (t, e) ↦ rw (e, newer) (filter_all (seq t) n ms (AllBelow-last n kept t h e) v)
]

-- A broadcast in order puts its messages behind what it keeps.
pub broadcast_below :
    (n : ℕ) (s : SharedState) (bm : BroadcastMessage)
    → AllBelow n s.backlog
    → IncreasingFrom n (map seq (flatten bm.messages))
    → (broadcast s bm).backlog
      ≡ confirm_if s.backlog bm.confirmed_sequence_number_message ++ flatten bm.messages
unfolding broadcast
broadcast_below n s bm h v =
    let kept = confirm_if s.backlog bm.confirmed_sequence_number_message in
    append_messages_lem kept (flatten bm.messages) n v
    ∙ ap (λ l. kept ++ l)
        (newer_below n kept (flatten bm.messages)
          (below n s.backlog bm.confirmed_sequence_number_message h) v)

confirm_keeps :
    (m : BroadcastFeedMessage) (backlog : List BroadcastFeedMessage) (c : Option ℕ)
    → In m backlog
    → In m (confirm_if backlog c) ⊎ ((k : ℕ) × (c ≡ some k) × (seq m ≤ k))
confirm_keeps m backlog none h = inl h
confirm_keeps m backlog (some k) h = elim (Bool-cases (ltb k (seq m))) [
  | inl e ↦ inl (In-filter (λ x. ltb k (seq x)) m backlog e h)
  | inr e ↦ inr (k, refl, ground arith)
]

-- The backlog after broadcasts has what it had and what was broadcast, unless it was confirmed.
broadcasts_keep :
    (n : ℕ) (m : BroadcastFeedMessage) (s : SharedState) (bms : List BroadcastMessage)
    → AllBelow n s.backlog
    → IncreasingFrom n (map seq (messages bms))
    → In m s.backlog ⊎ In m (messages bms)
    → In m (broadcasts s bms).backlog ⊎ ConfirmedIn m bms
unfolding broadcasts
broadcasts_keep n m s [] h v (inl i) = inl i
broadcasts_keep n m s [] h v (inr i) = absurd i
broadcasts_keep n m s (bm ∷ bms) h v i =
    let (k, le, first, below_k, rest, least) = split_at n (flatten bm.messages) (messages bms) v in
    let kept = confirm_if s.backlog bm.confirmed_sequence_number_message in
    let same = broadcast_below n s bm h first in
    let all = subst (AllBelow k) (sym same) (
      All-append (λ x. seq x < k) kept (flatten bm.messages)
        (AllBelow-mono n k kept le (below n s.backlog bm.confirmed_sequence_number_message h))
        below_k) in
    let later = broadcasts_keep k m (broadcast s bm) bms all rest in
    let inside : In m kept ⊎ In m (flatten bm.messages) → In m (broadcast s bm).backlog = λ j.
      subst (In m) (sym same) (elim j [
        | inl a ↦ In-append_left m kept (flatten bm.messages) a
        | inr b ↦ In-append_right m kept (flatten bm.messages) b
      ]) in
    let done : In m (broadcasts (broadcast s bm) bms).backlog ⊎ ConfirmedIn m bms
        → In m (broadcasts (broadcast s bm) bms).backlog ⊎ ConfirmedIn m (bm ∷ bms) =
      λ j. elim j [ inl a ↦ inl a | inr b ↦ inr (inr b) ] in
    elim i [
      | inl old ↦ elim (confirm_keeps m s.backlog bm.confirmed_sequence_number_message old) [
        | inl a ↦ done (later (inl (inside (inl a))))
        | inr c ↦ inr (inl c)
      ]
      | inr new ↦ elim (In-split m (flatten bm.messages) (messages bms) new) [
        | inl a ↦ done (later (inl (inside (inr a))))
        | inr b ↦ done (later (inr b))
      ]
    ]

broadcasts_below :
    (n k : ℕ) (s : SharedState) (bms : List BroadcastMessage)
    → AllBelow n s.backlog
    → IncreasingFrom n (map seq (messages bms))
    → AllBelow k (messages bms)
    → n ≤ k
    → AllBelow k (broadcasts s bms).backlog
unfolding broadcasts
broadcasts_below n k s [] h v b le = AllBelow-mono n k s.backlog le h
broadcasts_below n k s (bm ∷ bms) h v b le =
    let (j, jle, first, below_j, rest, least) = split_at n (flatten bm.messages) (messages bms) v in
    let kept = confirm_if s.backlog bm.confirmed_sequence_number_message in
    let (front, back) = AllBelow-append k (flatten bm.messages) (messages bms) b in
    let all = subst (AllBelow j) (sym (broadcast_below n s bm h first)) (
      All-append (λ x. seq x < j) kept (flatten bm.messages)
        (AllBelow-mono n j kept jle (below n s.backlog bm.confirmed_sequence_number_message h))
        below_j) in
    broadcasts_below j k (broadcast s bm) bms all rest back (least k le front)

-- The number that was sent last is smaller than that of the message.
abbrev Before : Option ℕ → BroadcastFeedMessage → Type 0
Before none m = Unit {0}
Before (some l) m = l < seq m

update-Before :
    (m : BroadcastFeedMessage) (ms : List BroadcastFeedMessage) (l : Option ℕ)
    → AllBelow (seq m) ms
    → Before l m
    → Before (update_last_sent ms l) m
unfolding update_last_sent
update-Before m [] l h b = b
update-Before m (x ∷ xs) l h b = elim (Bool-cases (leb (or_zero l) (seq x))) [
  | inl e ↦ rw e (update-Before m xs (some (seq x)) h.1 h.0)
  | inr e ↦ rw e (update-Before m xs l h.1 b)
]

any_newer-In :
    (m : BroadcastFeedMessage) (l : ℕ) (ms : List (Option BroadcastFeedMessage))
    → In m (flatten ms)
    → l < seq m
    → any_newer l ms ≡ true
any_newer-In m l [] i h = absurd i
any_newer-In m l (none ∷ ms) i h = any_newer-In m l ms i h
any_newer-In m l (some x ∷ ms) (inl e) h =
    let newer_x : ltb l (seq x) ≡ true = lt→ltb l (seq x) (subst (λ y. l < seq y) (sym e) h) in
    rw newer_x refl
any_newer-In m l (some x ∷ ms) (inr i) h = elim (Bool-cases (ltb l (seq x))) [
  | inl e ↦ rw e refl
  | inr e ↦ rw e (any_newer-In m l ms i h)
]

any_to_send-In :
    (m : BroadcastFeedMessage) (l : Option ℕ) (ms : List (Option BroadcastFeedMessage))
    → In m (flatten ms)
    → Before l m
    → any_to_send l ms ≡ true
any_to_send-In m none [] i b = absurd i
any_to_send-In m none (x ∷ ms) i b = refl
any_to_send-In m (some l) ms i b = any_newer-In m l ms i b

should_send-In :
    (m : BroadcastFeedMessage) (l : Option ℕ) (bm : BroadcastMessage)
    → In m (flatten bm.messages)
    → Before l m
    → should_send bm l ≡ true
unfolding should_send
should_send-In m l bm i b = elim (Bool-cases (is_some bm.confirmed_sequence_number_message)) [
  | inl e ↦ rw e refl
  | inr e ↦ rw e (any_to_send-In m l bm.messages i b)
]

-- A message that is newer than what was sent before is delivered.
deliver-In :
    (n : ℕ) (m : BroadcastFeedMessage) (l : Option ℕ) (bms : List BroadcastMessage)
    → IncreasingFrom n (map seq (messages bms))
    → In m (messages bms)
    → Before l m
    → In m (messages (deliver l bms))
unfolding deliver
deliver-In n m l [] v i b = absurd i
deliver-In n m l (bm ∷ bms) v i b =
    let (k, le, first, below_k, rest, least) = split_at n (flatten bm.messages) (messages bms) v in
    elim (In-split m (flatten bm.messages) (messages bms) i) [
      | inl here ↦ rw (should_send-In m l bm here b) (In-append_left m (flatten bm.messages) _ here)
      | inr later ↦
          let bounded =
            AllBelow-mono k (seq m) (flatten bm.messages) (In-below k m (messages bms) rest later)
              below_k in
          elim (Bool-cases (should_send bm l)) [
            | inl e ↦ rw e (
                In-append_right m (flatten bm.messages) _ (
                  deliver-In k m (update_last_sent (flatten bm.messages) l) bms rest later
                    (update-Before m (flatten bm.messages) l bounded b)))
            | inr e ↦ rw e (deliver-In k m l bms rest later b)
          ]
    ]

pub flatten-some : (ms : List BroadcastFeedMessage) → flatten (map some ms) ≡ ms
flatten-some [] = refl
flatten-some (m ∷ ms) = ap (λ l. m ∷ l) (flatten-some ms)

-- What the client gets at first is what it asked for of the backlog.
write_backlog-In :
    (m : BroadcastFeedMessage) (ms : List BroadcastFeedMessage) (live : List BroadcastMessage)
    → In m ms
    → In m (messages (write_backlog ms live))
write_backlog-In m [] live i = absurd i
write_backlog-In m (x ∷ xs) live i =
    In-append_left m (flatten (map some (x ∷ xs))) _ (subst (In m) (sym (flatten-some (x ∷ xs))) i)

write_backlog-live :
    (n : ℕ) (m : BroadcastFeedMessage) (ms : List BroadcastFeedMessage)
    (live : List BroadcastMessage)
    → AllBelow (seq m) ms
    → IncreasingFrom n (map seq (messages live))
    → In m (messages live)
    → In m (messages (write_backlog ms live))
unfolding deliver
write_backlog-live n m [] live h v i = deliver-In n m none live v i tt
write_backlog-live n m (x ∷ xs) live h v i =
    In-append_right m (flatten (map some (x ∷ xs))) _ (elim (Option-cases (last (x ∷ xs))) [
      | inl e ↦ rw (last_seq, e) (deliver-In n m none live v i tt)
      | inr (t, e) ↦
          rw (last_seq, e)
            (deliver-In n m (some (seq t)) live v i (AllBelow-last (seq m) (x ∷ xs) t h e))
    ])

-- A client subscribes to broadcasts in increasing order and then reads the backlog, in between which there
-- may be broadcasts, and broadcasts follow. Every message that it asks for and that is in the backlog at
-- first, or is broadcast in between or later, is in a frame for the client, except where a broadcast
-- before the backlog is read confirms it.
pub run_ws_client_complete :
    (n from : ℕ) (m : BroadcastFeedMessage) (s : SharedState)
    (between later : List BroadcastMessage)
    → AllBelow n s.backlog
    → IncreasingFrom n (map seq (messages (between ++ later)))
    → from ≤ seq m
    → In m s.backlog ⊎ In m (messages (between ++ later))
    → In m (messages (run_ws_client (broadcasts s between).backlog from (between ++ later)))
      ⊎ ConfirmedIn m between
unfolding run_ws_client
run_ws_client_complete n from m s between later h v asked i =
    let whole = messages-append between later in
    let (k, le, first, below_k, rest, least) =
      split_at n (messages between) (messages later)
        (subst (λ l. IncreasingFrom n (map seq l)) whole v) in
    let read = (broadcasts s between).backlog in
    let snapshot : In m read
        → In m (messages (write_backlog (get_since read from) (between ++ later))) =
      λ j.
        write_backlog-In m (get_since read from) (between ++ later)
          (In-filter (λ x. leb from (seq x)) m read (ground arith) j) in
    let old : In m s.backlog ⊎ In m (messages between)
        → In m (messages (write_backlog (get_since read from) (between ++ later)))
          ⊎ ConfirmedIn m between =
      λ j. elim (broadcasts_keep n m s between h first j) [
        | inl a ↦ inl (snapshot a)
        | inr c ↦ inr c
      ] in
    elim i [
      | inl a ↦ old (inl a)
      | inr b ↦ elim (In-split m (messages between) (messages later) (subst (In m) whole b)) [
        | inl a ↦ old (inr a)
        | inr c ↦
            let bound =
              AllBelow-filter (λ x. leb from (seq x)) (seq m) read
                (broadcasts_below n (seq m) s between h first
                  (AllBelow-mono k (seq m) (messages between) (In-below k m (messages later) rest c)
                    below_k)
                  (omega (arith, le, In-below k m (messages later) rest c))) in
            inl (write_backlog-live n m (get_since read from) (between ++ later) bound v b)
      ]
    ]
  where
    messages-append :
        (xs ys : List BroadcastMessage) → messages (xs ++ ys) ≡ messages xs ++ messages ys
    messages-append [] ys = refl
    messages-append (x ∷ xs) ys =
        ap (λ l. flatten x.messages ++ l) (messages-append xs ys)
        ∙ sym (append_assoc (flatten x.messages) (messages xs) (messages ys))
