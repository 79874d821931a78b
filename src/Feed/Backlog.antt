-- ===== src/Feed/Backlog.antt =====
-- rollups/nitro/feed/ws_server.rs: the backlog is in the order of the sequence numbers, and what
-- `broadcast` does to it.
use mathlib.Core.List.{append_assoc, append-nil}
use chain_adjacent_service.Prelude.{
  ltb, leb, lt→ltb, Bool-cases, Option-cases, last, last_cons, filter, filter_append, ℕ, suc, ◌≤◌,
  ◌<◌, ◌≡◌, refl, sym, ap, ◌∙◌, subst, inl, inr, Bool, true, false, Option, none, some, List, [],
  ◌∷◌, ◌++◌, map, arith,
}
use chain_adjacent_service.BtreeMap.{IncreasingFrom, IsIncreasing, IncreasingFrom-mono}
use chain_adjacent_service.Nitro.{BroadcastFeedMessage}
use chain_adjacent_service.Feed.{
  BroadcastMessage, flatten, push_newer, append_messages, get_since, SharedState, confirm_if,
  broadcast,
}

abbrev pub seq : BroadcastFeedMessage → ℕ
seq m = m.sequence_number

abbrev pub InOrder : List BroadcastFeedMessage → Type 0
InOrder msgs = IsIncreasing (map seq msgs)

-- The messages of a list in order that are newer than the last of the backlog.
abbrev pub newer : List BroadcastFeedMessage → List BroadcastFeedMessage → List BroadcastFeedMessage
newer backlog ms = elim (last backlog) [
  | none ↦ ms
  | some tail ↦ filter (λ m. ltb tail.sequence_number m.sequence_number) ms
]

filter_InOrder :
    (test : BroadcastFeedMessage → Bool) (n : ℕ) (ms : List BroadcastFeedMessage)
    → IncreasingFrom n (map seq ms)
    → IncreasingFrom n (map seq (filter test ms))
filter_InOrder test n [] v = tt
filter_InOrder test n (m ∷ ms) v = elim (Bool-cases (test m)) [
  | inl e ↦ rw e (v.0, filter_InOrder test (suc (seq m)) ms v.1)
  | inr e ↦ rw e (
      IncreasingFrom-mono n (suc (seq m)) _ (omega (arith, v.0))
        (filter_InOrder test (suc (seq m)) ms v.1))
]

push_InOrder :
    (n : ℕ) (x : BroadcastFeedMessage) (xs : List BroadcastFeedMessage)
    (m tail : BroadcastFeedMessage)
    → IncreasingFrom n (map seq (x ∷ xs))
    → last (x ∷ xs) ≡ some tail
    → seq tail < seq m
    → IncreasingFrom n (map seq (x ∷ xs ++ m ∷ []))
push_InOrder n x [] m tail v e h = ground arith
push_InOrder n x (y ∷ ys) m tail v e h = (v.0, push_InOrder (suc (seq x)) y ys m tail v.1 e h)

push_first :
    (msgs : List BroadcastFeedMessage) (m : BroadcastFeedMessage)
    → last msgs ≡ none
    → push_newer msgs m ≡ msgs ++ m ∷ []
unfolding push_newer
push_first msgs m e = rw (e, push_newer) refl

push_old :
    (msgs : List BroadcastFeedMessage) (m t : BroadcastFeedMessage)
    → last msgs ≡ some t
    → leb (seq m) (seq t) ≡ true
    → push_newer msgs m ≡ msgs
unfolding push_newer
push_old msgs m t e h = rw (e, h, push_newer) refl

push_new :
    (msgs : List BroadcastFeedMessage) (m t : BroadcastFeedMessage)
    → last msgs ≡ some t
    → leb (seq m) (seq t) ≡ false
    → push_newer msgs m ≡ msgs ++ m ∷ []
unfolding push_newer
push_new msgs m t e h = rw (e, h, push_newer) refl

push_newer-InOrder :
    (msgs : List BroadcastFeedMessage) (m : BroadcastFeedMessage)
    → InOrder msgs
    → InOrder (push_newer msgs m)
unfolding push_newer
push_newer-InOrder [] m v = (omega arith, tt)
push_newer-InOrder (x ∷ xs) m v =
    let (t, e) = last_cons x xs in
    elim (Bool-cases (leb (seq m) (seq t))) [
      | inl h ↦ subst InOrder (sym (push_old (x ∷ xs) m t e h)) v
      | inr h ↦
          subst InOrder (sym (push_new (x ∷ xs) m t e h))
            (push_InOrder 0 x xs m t v e (ground arith))
    ]

append_messages-InOrder :
    (msgs ms : List BroadcastFeedMessage) → InOrder msgs → InOrder (append_messages msgs ms)
unfolding append_messages
append_messages-InOrder msgs [] v = v
append_messages-InOrder msgs (m ∷ ms) v =
    append_messages-InOrder (push_newer msgs m) ms (push_newer-InOrder msgs m v)

-- `broadcast` keeps the backlog in the order of the sequence numbers, each of them once, whatever the
-- messages and the confirmed number are.
pub broadcast-InOrder :
    (s : SharedState) (bm : BroadcastMessage) → InOrder s.backlog → InOrder (broadcast s bm).backlog
unfolding broadcast
broadcast-InOrder s bm v =
    append_messages-InOrder _ (flatten bm.messages)
      (confirmed s.backlog bm.confirmed_sequence_number_message v)
  where
    confirmed :
        (backlog : List BroadcastFeedMessage) (c : Option ℕ)
        → InOrder backlog
        → InOrder (confirm_if backlog c)
    confirmed backlog none v = v
    confirmed backlog (some c) v = filter_InOrder (λ m. ltb c m.sequence_number) 0 backlog v

pub filter_all :
    (t n : ℕ) (ms : List BroadcastFeedMessage)
    → t < n
    → IncreasingFrom n (map seq ms)
    → filter (λ m. ltb t (seq m)) ms ≡ ms
filter_all t n [] h v = refl
filter_all t n (m ∷ ms) h v =
    let above : ltb t (seq m) ≡ true = lt→ltb t (seq m) (omega (arith, v.0)) in
    rw above (ap (λ l. m ∷ l) (filter_all t (suc (seq m)) ms (omega (arith, v.0)) v.1))

last_append :
    (xs : List BroadcastFeedMessage) (m : BroadcastFeedMessage) → last (xs ++ m ∷ []) ≡ some m
last_append [] m = refl
last_append (x ∷ []) m = refl
last_append (x ∷ y ∷ ys) m = last_append (y ∷ ys) m

-- All of a list is newer than a backlog whose last message comes before it.
newer_after :
    (msgs : List BroadcastFeedMessage) (m : BroadcastFeedMessage) (ms : List BroadcastFeedMessage)
    → IncreasingFrom (suc (seq m)) (map seq ms)
    → newer (msgs ++ m ∷ []) ms ≡ ms
newer_after msgs m ms v =
    rw (last_append msgs m, newer) (filter_all (seq m) (suc (seq m)) ms (omega arith) v)

newer-none : (msgs ms : List BroadcastFeedMessage) → last msgs ≡ none → newer msgs ms ≡ ms
newer-none msgs ms e = rw (e, newer) refl

newer-some :
    (msgs ms : List BroadcastFeedMessage) (t : BroadcastFeedMessage)
    → last msgs ≡ some t
    → newer msgs ms ≡ filter (λ m. ltb (seq t) (seq m)) ms
newer-some msgs ms t e = rw (e, newer) refl

pub append_messages_lem :
    (msgs ms : List BroadcastFeedMessage) (n : ℕ)
    → IncreasingFrom n (map seq ms)
    → append_messages msgs ms ≡ msgs ++ newer msgs ms
unfolding append_messages
append_messages_lem msgs [] n v = elim (Option-cases (last msgs)) [
  | inl e ↦ sym (ap (λ l. msgs ++ l) (newer-none msgs [] e) ∙ append-nil msgs)
  | inr (t, e) ↦ sym (ap (λ l. msgs ++ l) (newer-some msgs [] t e) ∙ append-nil msgs)
]
append_messages_lem msgs (m ∷ ms) n v =
    let pushed : append_messages (msgs ++ m ∷ []) ms ≡ msgs ++ m ∷ ms =
      append_messages_lem (msgs ++ m ∷ []) ms (suc (seq m)) v.1
      ∙ ap (λ l. msgs ++ m ∷ [] ++ l) (newer_after msgs m ms v.1)
      ∙ append_assoc msgs (m ∷ []) ms in
    elim (Option-cases (last msgs)) [
      | inl e ↦
          ap (λ l. append_messages l ms) (push_first msgs m e)
          ∙ pushed
          ∙ ap (λ l. msgs ++ l) (sym (newer-none msgs (m ∷ ms) e))
      | inr (t, e) ↦ elim (Bool-cases (leb (seq m) (seq t))) [
        | inl h ↦
            ap (λ l. append_messages l ms) (push_old msgs m t e h)
            ∙ append_messages_lem msgs ms (suc (seq m)) v.1
            ∙ ap (λ l. msgs ++ l)
                (newer-some msgs ms t e ∙ sym (old t m ms h) ∙ sym (newer-some msgs (m ∷ ms) t e))
        | inr h ↦
            ap (λ l. append_messages l ms) (push_new msgs m t e h)
            ∙ pushed
            ∙ ap (λ l. msgs ++ l)
                (sym (
                  newer-some msgs (m ∷ ms) t e
                  ∙ filter_all (seq t) (suc (seq t)) (m ∷ ms) (omega arith) (above t m h, v.1)))
      ]
    ]
  where
    old :
        (t m : BroadcastFeedMessage) (ms : List BroadcastFeedMessage)
        → leb (seq m) (seq t) ≡ true
        → filter (λ x. ltb (seq t) (seq x)) (m ∷ ms) ≡ filter (λ x. ltb (seq t) (seq x)) ms
    old t m ms h = ground arith

    above : (t m : BroadcastFeedMessage) → leb (seq m) (seq t) ≡ false → suc (seq t) ≤ seq m
    above t m h = ground arith

-- What a client that asks for the messages from `from` on gets after a broadcast of messages in
-- order: what it would have got from the backlog without the confirmed messages, and then those of
-- the broadcast that are newer than the last message kept.
pub get_since-broadcast :
    (s : SharedState) (bm : BroadcastMessage) (from : ℕ)
    → InOrder (flatten bm.messages)
    → let kept = confirm_if s.backlog bm.confirmed_sequence_number_message in
      get_since (broadcast s bm).backlog from
      ≡ get_since kept from ++ get_since (newer kept (flatten bm.messages)) from
unfolding broadcast
get_since-broadcast s bm from v =
    let kept = confirm_if s.backlog bm.confirmed_sequence_number_message in
    ap (λ b. get_since b from) (append_messages_lem kept (flatten bm.messages) 0 v)
    ∙ filter_append (λ m. leb from m.sequence_number) kept (newer kept (flatten bm.messages))
