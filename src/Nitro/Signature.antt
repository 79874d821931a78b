-- ===== src/Nitro/Signature.antt =====
-- rollups/nitro/utils.rs: `recover_signer_address`; rollups/nitro/nitro.rs: `signature_hash`, in the
-- version of the feature nitro-v3_9_9, which is on by default, and
-- `verify_broadcast_feed_message_signature`.
use chain_adjacent_service.Prelude.{
  is_some, ◌==◌, if◌then◌else◌, length, get_elem?, take, Result, ok, ◌>>=◌, ◌>>◌, guard, ok_or, ℕ,
  Bool, true, false, ◌||◌, not, Option, none, some, List, [], ◌∷◌, ◌++◌,
}
use chain_adjacent_service.Prelude.Words.{Bytes, to_be_bytes}
use chain_adjacent_service.BtreeMap.{member}
use chain_adjacent_service.Crypto.{Crypto}
use chain_adjacent_service.Nitro.{L1IncomingMessage, BroadcastFeedMessage}

pub data SignatureError : Type 0 where
  invalid_signature_length invalid_signature_value invalid_signature : SignatureError
  non_canonical_high_s failed_to_recover_signer : SignatureError
  missing_message signer_is_not_valid : SignatureError

-- "Arbitrum Nitro Feed:"
abbrev pub feed_prefix : Bytes
feed_prefix =
    65 ∷ 114 ∷ 98 ∷ 105 ∷ 116 ∷ 114 ∷ 117 ∷ 109 ∷ 32 ∷ 78 ∷ 105 ∷ 116 ∷ 114 ∷ 111 ∷ 32 ∷ 70 ∷ 101
    ∷ 101 ∷ 100 ∷ 58 ∷ []

abbrev pub parity_of : ℕ → Option Bool
parity_of v =
    if v == 0 || v == 27 then some false else (if v == 1 || v == 28 then some true else none)

-- The bytes under the hash, with the RLP encoding of the message.
abbrev pub hashed_bytes :
    (L1IncomingMessage → Bytes) → BroadcastFeedMessage → ℕ → L1IncomingMessage → Bytes
hashed_bytes rlp_encode msg chain_id l1_msg =
    feed_prefix
    ++ (to_be_bytes msg.sequence_number
        ++ (to_be_bytes chain_id
            ++ (to_be_bytes msg.message.delayed_messages_read ++ rlp_encode l1_msg)))

module _ (C : Crypto) where
  unfoldable pub recover_signer_address : ℕ → Bytes → Result SignatureError ℕ
  recover_signer_address message_hash signature =
      guard (length signature == 65) invalid_signature_length
      >> (ok_or (elim (get_elem? signature 64) [ none ↦ none | some v ↦ parity_of v ])
            invalid_signature_value
          >>= λ parity.
              (let sig = C.from_bytes_and_parity (take 64 signature) parity in
                guard (not (C.r sig == 0 || C.s sig == 0)) invalid_signature
                >> guard (not (is_some (C.normalize_s sig))) non_canonical_high_s
                >> ok_or (C.recover_address_from_prehash sig message_hash)
                    failed_to_recover_signer))

  unfoldable pub signature_hash :
      (L1IncomingMessage → Bytes) → BroadcastFeedMessage → ℕ → Result SignatureError ℕ
  signature_hash rlp_encode msg chain_id = ok_or msg.message.message missing_message >>= λ l1_msg.
      ok (C.keccak256 (hashed_bytes rlp_encode msg chain_id l1_msg))

  unfoldable pub verify_broadcast_feed_message_signature :
      (L1IncomingMessage → Bytes)
      → ℕ
      → List ℕ
      → BroadcastFeedMessage
      → Result SignatureError (Unit {0})
  unfolding signature_hash recover_signer_address
  verify_broadcast_feed_message_signature rlp_encode chain_id sequencer_addresses msg =
      signature_hash rlp_encode msg chain_id >>= λ hash.
      recover_signer_address hash msg.signature >>= λ signer.
      guard (member signer sequencer_addresses) signer_is_not_valid
