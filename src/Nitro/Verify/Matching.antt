-- ===== src/Nitro/Verify/Matching.antt =====
-- What it means for a batch to match the streamer's queue, apart from how the code finds out.

use chain_adjacent_service.Prelude.{
  ◌==◌, Bool-cases, Option-cases, length, drop, ℕ, suc, ◌+◌, ◌≤◌, ◌≡◌, refl, ap, subst, inl, inr,
  some, List, [], ◌∷◌, ◌++◌, map, arith,
}
use chain_adjacent_service.Prelude.Words.{Bytes, u64, bytes_eq_iff}
use chain_adjacent_service.BtreeMap.{IncreasingFrom}
use chain_adjacent_service.Nitro.{
  L1IncomingMessage, BatchMessage, l2_msg, delayed_msg, NitroRollupQueueEntry,
}
use chain_adjacent_service.Nitro.Verify.{binary_search_by_key, check_message, check_messages}

-- The messages of a batch against entries of the queue, one by one. The count of delayed messages
-- read starts at `n` and ends at the last index.
pub data Matches : ℕ → List BatchMessage → List NitroRollupQueueEntry → ℕ → Type 0 where
  done : {n : ℕ} {queue : List NitroRollupQueueEntry} → Matches n [] queue n
  sequenced :
      {n m : ℕ} {msgs : List BatchMessage} {queue : List NitroRollupQueueEntry} {content : Bytes}
      {entry : NitroRollupQueueEntry} (msg : L1IncomingMessage)
      → entry.feed_message.message.message ≡ some msg
      → content ≡ msg.l2msg
      → entry.feed_message.message.delayed_messages_read ≡ n
      → Matches n msgs queue m
      → Matches n (l2_msg content ∷ msgs) (entry ∷ queue) m
  delayed :
      {n m : ℕ} {msgs : List BatchMessage} {queue : List NitroRollupQueueEntry}
      {entry : NitroRollupQueueEntry}
      → entry.feed_message.message.delayed_messages_read ≡ u64 (n + 1)
      → Matches (u64 (n + 1)) msgs queue m
      → Matches n (delayed_msg ∷ msgs) (entry ∷ queue) m

-- The step of the relation, for one message.
abbrev Agrees : BatchMessage → NitroRollupQueueEntry → ℕ → ℕ → Type 0
Agrees (l2_msg content) entry n m =
    (msg : L1IncomingMessage) × (entry.feed_message.message.message ≡ some msg)
    × (content ≡ msg.l2msg)
    × (entry.feed_message.message.delayed_messages_read ≡ n)
    × (m ≡ n)
Agrees delayed_msg entry n m =
    (entry.feed_message.message.delayed_messages_read ≡ u64 (n + 1)) × (m ≡ u64 (n + 1))

check_message-Agrees :
    (b : BatchMessage) (entry : NitroRollupQueueEntry) (n m : ℕ)
    → check_message b entry n ≡ some m
    → Agrees b entry n m
unfolding check_message
check_message-Agrees (l2_msg content) entry n m h =
    elim (Option-cases entry.feed_message.message.message) [
      | inl missing ↦ absurd (ground arith)
      | inr (msg, e) ↦
          (msg, e, (bytes_eq_iff content msg.l2msg).0 (ground arith), ground arith, ground arith)
    ]
check_message-Agrees delayed_msg entry n m h = ground arith

Agrees-check_message :
    (b : BatchMessage) (entry : NitroRollupQueueEntry) (n m : ℕ)
    → Agrees b entry n m
    → check_message b entry n ≡ some m
unfolding check_message
Agrees-check_message (l2_msg content) entry n m (msg, e, c, d, k) =
    ground (arith, bytes_eq_iff content msg.l2msg)
Agrees-check_message delayed_msg entry n m a = ground arith

prepend-Matches :
    (b : BatchMessage) (entry : NitroRollupQueueEntry) (n k m : ℕ) (msgs : List BatchMessage)
    (queue : List NitroRollupQueueEntry)
    → Agrees b entry n k
    → Matches k msgs queue m
    → Matches n (b ∷ msgs) (entry ∷ queue) m
prepend-Matches (l2_msg content) entry n k m msgs queue (msg, e, c, d, same) rest =
    sequenced msg e c d (subst (λ j. Matches j msgs queue m) same rest)
prepend-Matches delayed_msg entry n k m msgs queue (d, same) rest =
    delayed d (subst (λ j. Matches j msgs queue m) same rest)

pub check_messages-Matches :
    (msgs : List BatchMessage) (queue : List NitroRollupQueueEntry) (n m : ℕ)
    → check_messages msgs queue n ≡ some m
    → Matches n msgs queue m
unfolding check_messages
check_messages-Matches [] queue n m h =
    let e : n ≡ m = ground arith in subst (λ k. Matches n [] queue k) e done
check_messages-Matches (b ∷ msgs) [] n m h = cc
check_messages-Matches (b ∷ msgs) (entry ∷ queue) n m h =
    elim (Option-cases (check_message b entry n)) [
      | inl e ↦ absurd (ground arith)
      | inr (k, e) ↦
          prepend-Matches b entry n k m msgs queue (check_message-Agrees b entry n k e)
            (check_messages-Matches msgs queue k m (ground arith))
    ]

pub Matches-check_messages :
    {n m : ℕ} {msgs : List BatchMessage} {queue : List NitroRollupQueueEntry}
    → Matches n msgs queue m
    → check_messages msgs queue n ≡ some m
unfolding check_messages
Matches-check_messages done = refl
Matches-check_messages {n} (sequenced {content = content} {entry = entry} msg e c d rest) =
    rw (Agrees-check_message (l2_msg content) entry n n (msg, e, c, d, refl), check_messages)
      (Matches-check_messages rest)
Matches-check_messages {n} (delayed {entry = entry} d rest) =
    rw (Agrees-check_message delayed_msg entry n (u64 (n + 1)) (d, refl), check_messages)
      (Matches-check_messages rest)

pub Matches-length :
    {n m : ℕ} {msgs : List BatchMessage} {queue : List NitroRollupQueueEntry}
    → Matches n msgs queue m
    → length msgs ≤ length queue
Matches-length done = omega arith
Matches-length (sequenced msg e c d rest) = omega (arith, Matches-length rest)
Matches-length (delayed d rest) = omega (arith, Matches-length rest)

-- A search that succeeds splits the items at one with the key.
pub binary_search_by_key_split {ℓ} :
    {A : Type ℓ} (k : ℕ) (f : A → ℕ) (xs : List A) (pos : ℕ)
    → binary_search_by_key k f xs ≡ some pos
    → (front : List A) × (x : A) × (rest : List A) × (drop pos xs ≡ x ∷ rest)
      × (f x ≡ k)
      × (xs ≡ front ++ x ∷ rest)
unfolding binary_search_by_key
binary_search_by_key_split {A} k f [] pos h = absurd (ground arith)
binary_search_by_key_split {A} k f (x ∷ xs) pos h = elim (Bool-cases (f x == k)) [
  | inl e ↦ let z : pos ≡ 0 = ground arith in ([], x, xs, rw (z, drop) refl, ground arith, refl)
  | inr e ↦ elim (Option-cases (binary_search_by_key k f xs)) [
    | inl g ↦ absurd (ground arith)
    | inr (q, g) ↦
        let (front, y, rest, d, key, whole) = binary_search_by_key_split k f xs q g in
        let z : pos ≡ suc q = ground arith in
        (x ∷ front, y, rest, rw (z, drop) d, key, ap (λ l. x ∷ l) whole)
  ]
]

IncreasingFrom-bound {ℓ} :
    {A : Type ℓ} (f : A → ℕ) (n : ℕ) (front : List A) (x : A) (rest : List A)
    → IncreasingFrom n (map f (front ++ x ∷ rest))
    → n ≤ f x
IncreasingFrom-bound f n [] x rest v = v.0
IncreasingFrom-bound f n (y ∷ ys) x rest v =
    omega (arith, v.0, IncreasingFrom-bound f (suc (f y)) ys x rest v.1)

-- The other way round: where keys increase, an item is found at its own position.
pub binary_search_by_key_found {ℓ} :
    {A : Type ℓ} (k n : ℕ) (f : A → ℕ) (front : List A) (x : A) (rest : List A)
    → IncreasingFrom n (map f (front ++ x ∷ rest))
    → f x ≡ k
    → binary_search_by_key k f (front ++ x ∷ rest) ≡ some (length front)
unfolding binary_search_by_key
binary_search_by_key_found {A} k n f [] x rest v e = ground arith
binary_search_by_key_found {A} k n f (y ∷ ys) x rest v e = ground (
  arith,
  IncreasingFrom-bound f (suc (f y)) ys x rest v.1,
  binary_search_by_key_found k (suc (f y)) f ys x rest v.1 e,
)
