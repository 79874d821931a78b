-- ===== src/Nitro/Hotshot.antt =====
-- rollups/nitro/nitro.rs: `parse_hotshot_transactions`, which reads the transactions of HotShot blocks
-- in the current format and, where that fails, in the legacy one.
pub mod Authentic
pub mod Heights
use chain_adjacent_service.Prelude.{
  ltb, ◌==◌, if◌then◌else◌, length, take, drop, Result, ok, err, ◌>>=◌, ◌>>◌, guard, ℕ, zero, suc,
  ◌+◌, true, false, not, Option, none, some, List, [], ◌∷◌, ◌++◌,
}
use chain_adjacent_service.Prelude.Words.{Bytes, u64, from_be_bytes}
use chain_adjacent_service.BtreeMap.{member}
use chain_adjacent_service.Crypto.{Crypto}
use chain_adjacent_service.Nitro.{
  L1IncomingMessage, MessageWithMetadata, BroadcastFeedMessage, NitroRollupQueueEntry,
  sequence_number,
}
use chain_adjacent_service.Nitro.Payload.{
  Json, NitroConfig, FeedMessageVerifier, parse_nitro_hotshot_payload,
}
use chain_adjacent_service.Nitro.Signature.{
  recover_signer_address, verify_broadcast_feed_message_signature,
}

pub data LegacyError : Type 0 where
  too_short_to_parse_signature_size too_short_to_parse_signature : LegacyError
  too_short_to_index_size too_short_to_message_size legacy_out_of_fuel : LegacyError

pub record LegacyParsedNitroEspressoTransaction : Type 0 where
  pub signature : Bytes
  pub messages_hash : ℕ
  pub indices : List ℕ
  pub messages : List Bytes

abbrev pub push_message : ℕ → Bytes → List ℕ × List Bytes → List ℕ × List Bytes
push_message index [] parsed = parsed
push_message index (b ∷ bs) (indices, messages) = (index ∷ indices, (b ∷ bs) ∷ messages)

-- The loop of `parse_legacy_payload_bytes`, on what is left of the payload.
unfoldable pub parse_legacy_messages : ℕ → Bytes → Result LegacyError (List ℕ × List Bytes)
parse_legacy_messages fuel [] = ok ([], [])
parse_legacy_messages zero (b ∷ bs) = err legacy_out_of_fuel
parse_legacy_messages (suc fuel) (b ∷ bs) =
    guard (not (ltb (length (b ∷ bs)) 16)) too_short_to_index_size
    >> (let index = from_be_bytes (take 8 (b ∷ bs)) in
        let message_size = from_be_bytes (take 8 (drop 8 (b ∷ bs))) in
        let rest = drop 16 (b ∷ bs) in
        guard (not (ltb (length rest) message_size)) too_short_to_message_size
        >> (parse_legacy_messages fuel (drop message_size rest) >>= λ parsed.
            ok (push_message index (take message_size rest) parsed)))

module _ (C : Crypto) where
  unfoldable pub parse_legacy_payload_bytes :
      Bytes → Result LegacyError LegacyParsedNitroEspressoTransaction
  unfolding parse_legacy_messages
  parse_legacy_payload_bytes tx_payload =
      guard (not (ltb (length tx_payload) 8)) too_short_to_parse_signature_size
      >> (let signature_len = from_be_bytes (take 8 tx_payload) in
          let rest = drop 8 tx_payload in
          guard (not (ltb (length rest) signature_len)) too_short_to_parse_signature
          >> (parse_legacy_messages (length tx_payload) (drop signature_len rest) >>= λ parsed.
              ok record {
                signature = take signature_len rest;
                messages_hash = C.keccak256 (drop signature_len rest);
                indices = parsed.0;
                messages = parsed.1;
              }))

  abbrev pub legacy_entry : ℕ → MessageWithMetadata → ℕ → NitroRollupQueueEntry
  legacy_entry index message hotshot_height = record {
    feed_message = record {
      sequence_number = index;
      message = message;
      signature = [];
      block_metadata = [];
      cumulative_sum_msg_size = 0;
      block_hash = none;
    };
    hotshot_height = hotshot_height;
  }

  -- The loop over the parsed messages; the lists are of one length, which the code has checked.
  unfoldable pub legacy_entries :
      (Bytes → Option MessageWithMetadata) → ℕ → List ℕ → List Bytes → List NitroRollupQueueEntry
  legacy_entries rlp_decode height [] messages = []
  legacy_entries rlp_decode height (i ∷ is) [] = []
  legacy_entries rlp_decode height (i ∷ is) (m ∷ ms) =
      let rest = legacy_entries rlp_decode height is ms in
      elim (rlp_decode m) [ none ↦ rest | some message ↦ legacy_entry i message height ∷ rest ]

  unfoldable pub legacy_parse_nitro_hotshot_payload :
      (Bytes → Option MessageWithMetadata) → NitroConfig → Bytes → ℕ → List NitroRollupQueueEntry
  unfolding parse_legacy_payload_bytes recover_signer_address legacy_entries
  legacy_parse_nitro_hotshot_payload rlp_decode config tx_payload hotshot_height =
      elim (parse_legacy_payload_bytes tx_payload) [
        | err e ↦ []
        | ok parsed ↦ elim (recover_signer_address C parsed.messages_hash parsed.signature) [
          | err e ↦ []
          | ok signer ↦
              if not (member signer config.legacy_signer_addresses)
              then []
              else (if not (length parsed.indices == length parsed.messages)
                  then []
                  else legacy_entries rlp_decode hotshot_height parsed.indices parsed.messages)
        ]
      ]

  -- `verify_broadcast_feed_message_signature` as the verifier that the payload parser takes.
  abbrev pub verifier : (L1IncomingMessage → Bytes) → FeedMessageVerifier
  verifier rlp_encode chain_id addresses msg =
      elim (verify_broadcast_feed_message_signature C rlp_encode chain_id addresses msg) [
        | ok u ↦ true
        | err e ↦ false
      ]

  abbrev pub entries_at : ℕ → List BroadcastFeedMessage → List NitroRollupQueueEntry
  entries_at height [] = []
  entries_at height (m ∷ ms) =
      record { feed_message = m; hotshot_height = height } ∷ entries_at height ms

module _ (C : Crypto) (J : Json) (rlp_encode : L1IncomingMessage → Bytes)
    (rlp_decode : Bytes → Option MessageWithMetadata) where
  -- The body of the inner loop, on the payload of a transaction.
  unfoldable pub parse_transaction : NitroConfig → ℕ → Bytes → List NitroRollupQueueEntry
  unfolding legacy_parse_nitro_hotshot_payload parse_nitro_hotshot_payload
      verify_broadcast_feed_message_signature
  parse_transaction config hotshot_height payload =
      elim (parse_nitro_hotshot_payload J config payload (verifier C rlp_encode)) [
        | ok broadcast_messages ↦ entries_at C hotshot_height broadcast_messages
        | err e ↦ legacy_parse_nitro_hotshot_payload C rlp_decode config payload hotshot_height
      ]

  unfoldable pub parse_block : NitroConfig → ℕ → List Bytes → List NitroRollupQueueEntry
  unfolding parse_transaction
  parse_block config hotshot_height [] = []
  parse_block config hotshot_height (payload ∷ txs) =
      parse_transaction config hotshot_height payload ++ parse_block config hotshot_height txs

  unfoldable pub parse_hotshot_transactions :
      NitroConfig → List (List Bytes) → ℕ → List NitroRollupQueueEntry
  unfolding parse_block
  parse_hotshot_transactions config [] hotshot_height = []
  parse_hotshot_transactions config (block_txs ∷ blocks) hotshot_height =
      parse_block config hotshot_height block_txs
      ++ parse_hotshot_transactions config blocks (u64 (hotshot_height + 1))
