-- ===== src/Streamer/Sending.antt =====
-- `try_broadcast_feed_message`: which feed messages go to the relay, and in which order.
use mathlib.Core.List.{append-nil, append_assoc}
use chain_adjacent_service.Prelude.{
  ltb, leb, ◌==◌, if◌then◌else◌, Bool-cases, length, take, drop, ℕ, suc, ◌+◌, ◌-◌, ◌<◌, min, ◌≡◌,
  sym, ◌∙◌, inl, inr, Bool, false, ◌||◌, List, [], ◌∷◌, ◌++◌, arith,
}
use chain_adjacent_service.Prelude.Words.{IsU64}
use chain_adjacent_service.Rollup.{Rollup}
use chain_adjacent_service.BtreeMap.{IncreasingFrom, IsIncreasing, member, partition_point}
use chain_adjacent_service.Streamer.{
  Sender, schedule, Broadcast, contiguous, find_contiguous_entries_after, broadcast_entries,
  try_broadcast_feed_message, seqs,
}
use chain_adjacent_service.Streamer.Queue.{length-drop_finalized}
use chain_adjacent_service.Streamer.Contiguous.{
  ConsecutiveFrom, contiguous-ConsecutiveFrom, contiguous_maximal, drop_above, not_queued,
}

module _ (R : Rollup) where
  open R use {Entry, FeedMessage, sequence_number, convert_entry_to_feed_message}

  -- How many of `k` messages a channel takes.
  abbrev pub accepted : Sender FeedMessage → ℕ → ℕ
  accepted s k = if s.closed then 0 else min s.room k

  abbrev pub refused : Sender FeedMessage → ℕ → Bool
  refused s k = if s.closed then false else ltb s.room k

  abbrev pub messages : List Entry → List FeedMessage
  messages [] = []
  messages (e ∷ es) = convert_entry_to_feed_message e ∷ messages es

  -- The state after a channel took as many of the entries as it could.
  abbrev pub after_sending : List Entry → Broadcast R → Broadcast R
  after_sending es b = record {
    streamer = record b.streamer {
      last_broadcast_position = b.streamer.last_broadcast_position + accepted b.sender (length es);
    };
    sender = record b.sender {
      room = b.sender.room - accepted b.sender (length es);
      sent = b.sender.sent ++ messages (take (accepted b.sender (length es)) es);
    };
    retry = if refused b.sender (length es) then schedule b.retry else b.retry;
  }

  sent_none :
      (es : List Entry) (b : Broadcast R)
      → accepted b.sender (length es) ≡ 0
      → refused b.sender (length es) ≡ false
      → after_sending es b ≡ b
  sent_none es b h k = rw (h, k) (ground (arith, append-nil b.sender.sent))

  -- The channel after it took one message.
  abbrev pub took : Entry → Broadcast R → Broadcast R
  took e b = record b {
    sender = record b.sender {
      room = b.sender.room - 1;
      sent = b.sender.sent ++ convert_entry_to_feed_message e ∷ [];
    };
    streamer = record b.streamer { last_broadcast_position = sequence_number e };
  }

  after_sending-took :
      (e : Entry) (es : List Entry) (b : Broadcast R)
      → b.sender.closed ≡ false
      → 0 < b.sender.room
      → sequence_number e ≡ b.streamer.last_broadcast_position + 1
      → after_sending es (took e b) ≡ after_sending (e ∷ es) b
  after_sending-took e es b h k c =
      let split : min b.sender.room (suc (length es)) ≡ suc (min (b.sender.room - 1) (length es)) =
        omega arith in
      rw (h, split)
        (ground (
          arith,
          append_assoc b.sender.sent (convert_entry_to_feed_message e ∷ [])
              (messages (take (min (b.sender.room - 1) (length es)) es)),
        ))

  pub broadcast_entries_step :
      (e : Entry) (es : List Entry) (b : Broadcast R)
      → b.sender.closed ≡ false
      → (b.sender.room == 0) ≡ false
      → broadcast_entries R (e ∷ es) b ≡ broadcast_entries R es (took e b)
  unfolding broadcast_entries
  broadcast_entries_step e es b h k = ground arith

  broadcast_entries_stop :
      (e : Entry) (es : List Entry) (b : Broadcast R)
      → accepted b.sender (length (e ∷ es)) ≡ 0
      → broadcast_entries R (e ∷ es) b
        ≡ (record b { retry = if b.sender.closed then b.retry else schedule b.retry })
  unfolding broadcast_entries
  broadcast_entries_stop e es b h = ground arith

  stopped-after_sending :
      (e : Entry) (es : List Entry) (b : Broadcast R)
      → accepted b.sender (length (e ∷ es)) ≡ 0
      → (record b { retry = if b.sender.closed then b.retry else schedule b.retry })
        ≡ after_sending (e ∷ es) b
  stopped-after_sending e es b h = rw h (ground (arith, append-nil b.sender.sent))

  -- The loop is `after_sending`: it sends what the channel has room for and stops at the first
  -- message that does not fit.
  pub broadcast_entries_lem :
      (es : List Entry) (b : Broadcast R)
      → ConsecutiveFrom (b.streamer.last_broadcast_position + 1) (seqs R es)
      → broadcast_entries R es b ≡ after_sending es b
  broadcast_entries_lem [] b c =
      unfold broadcast_entries in sym (sent_none [] b (ground arith) (ground arith))
  broadcast_entries_lem (e ∷ es) b c = elim (Bool-cases (b.sender.closed || b.sender.room == 0)) [
    | inl stuck ↦
        broadcast_entries_stop e es b (ground arith) ∙ stopped-after_sending e es b (ground arith)
    | inr spare ↦
        broadcast_entries_step e es b (ground arith) (ground arith)
        ∙ broadcast_entries_lem es (took e b) (ground (arith, c))
        ∙ after_sending-took e es b (ground arith) (ground arith) c.0
  ]

  -- A broadcast takes the run of queued messages that follow the last position without a gap, all
  -- of it, and sends as many of them, in order, as the channel has room for; the position moves on
  -- by as many, and a retry is asked for exactly if an open channel did not take them all.
  pub try_broadcast_feed_message_lem :
      (b : Broadcast R)
      → IsIncreasing (seqs R b.streamer.queue)
      → IsU64 (b.streamer.last_broadcast_position + 1 + length b.streamer.queue)
      → let run =
          find_contiguous_entries_after R b.streamer.queue b.streamer.last_broadcast_position in
        ConsecutiveFrom (b.streamer.last_broadcast_position + 1) (seqs R run)
        × (member (b.streamer.last_broadcast_position + 1 + length run) (seqs R b.streamer.queue)
            ≡ false)
        × (try_broadcast_feed_message R b ≡ after_sending run b)
  unfolding find_contiguous_entries_after try_broadcast_feed_message
  try_broadcast_feed_message_lem b i u = (
    run_lem,
    not_queued R _ b.streamer.last_broadcast_position b.streamer.queue (omega arith) i (
        contiguous_maximal R b.streamer.last_broadcast_position 0
          (b.streamer.last_broadcast_position + 1) rest (omega arith) above
          (omega (
            arith,
            u,
            length-drop_finalized R b.streamer.last_broadcast_position b.streamer.queue,
          ))),
    broadcast_entries_lem _ b run_lem,
  )
    where
      rest : List Entry
      rest =
          drop
            (partition_point (λ e. leb (sequence_number e) b.streamer.last_broadcast_position)
              b.streamer.queue)
            b.streamer.queue

      above : IncreasingFrom (b.streamer.last_broadcast_position + 1) (seqs R rest)
      above = drop_above R b.streamer.last_broadcast_position 0 b.streamer.queue i

      run_lem :
          ConsecutiveFrom
            (b.streamer.last_broadcast_position + 1)
            (seqs R (contiguous R b.streamer.last_broadcast_position 0 rest))
      run_lem =
          contiguous-ConsecutiveFrom R b.streamer.last_broadcast_position 0 _ rest (omega arith)
            above
