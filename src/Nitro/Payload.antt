-- ===== src/Nitro/Payload.antt =====
-- rollups/nitro/nitro.rs: `build_espresso_tx_payload` and `parse_nitro_hotshot_payload`, the format
-- in which feed messages go to HotShot and come back; main.rs: `build_tx_fn`, which makes the
-- transactions of a list of messages.
pub mod Draining
pub mod Filling
pub mod Parsing
pub mod RoundTrip
use mathlib.Core.Option
use chain_adjacent_service.Prelude.{
  is_empty, ltb, if◌then◌else◌, length, take, drop, Result, ok, err, ◌>>=◌, ◌>>◌, guard, ok_or, ℕ,
  zero, suc, ◌+◌, Bool, true, false, not, Option, none, some, List, [], ◌∷◌, ◌++◌,
}
use chain_adjacent_service.Prelude.Words.{Bytes, to_be_bytes, from_be_bytes}
use chain_adjacent_service.Nitro.{BroadcastFeedMessage}

pub data NitroHeader : Type 0 where
  v1 : NitroHeader

-- serde_json on the two types that are written: `to_vec` and `from_slice`, with errors as `none`.
pub record Json : Type 0 where
  pub header_to_vec : NitroHeader → Option Bytes
  pub header_from_slice : Bytes → Option NitroHeader
  pub message_to_vec : BroadcastFeedMessage → Option Bytes
  pub message_from_slice : Bytes → Option BroadcastFeedMessage

abbrev pub len_size : ℕ
len_size = 8

abbrev pub hotshot_tx_payload_max_size : ℕ
hotshot_tx_payload_max_size = 921600

-- The part of `NitroConfig` that reading a payload needs.
pub record NitroConfig : Type 0 where
  pub legacy_signer_addresses : List ℕ
  pub chain_id : ℕ
  pub trusted_sequencer_addresses : List ℕ

-- `FeedMessageVerifier`: whether the result is `Ok`.
abbrev pub FeedMessageVerifier : Type 0
FeedMessageVerifier = ℕ → List ℕ → BroadcastFeedMessage → Bool

abbrev pub is_v1 : NitroHeader → Bool
is_v1 v1 = true

-- `extend_from_slice` of the length and then of the bytes.
abbrev pub with_len : Bytes → Bytes
with_len encoded = to_be_bytes (length encoded) ++ encoded

abbrev counted : Bytes × ℕ → Bytes × ℕ
counted (payload, count) = (payload, suc count)

pub data PayloadError : Type 0 where
  too_short_to_parse_header_size too_short_to_parse_header : PayloadError
  failed_to_parse_header unsupported_header_version : PayloadError
  too_short_to_parse_message_size too_short_to_parse_message : PayloadError
  failed_to_parse_message out_of_fuel : PayloadError

module _ (J : Json) where
  -- The loop over the messages: the payload, and the number of messages to drain.
  unfoldable pub fill : Bytes → List BroadcastFeedMessage → Bytes × ℕ
  fill payload [] = (payload, 0)
  fill payload (message ∷ messages) = elim (J.message_to_vec message) [
    | none ↦ counted (fill payload messages)
    | some encoded_msg ↦
        elim (ltb hotshot_tx_payload_max_size (length payload + len_size + length encoded_msg)) [
          | false ↦ counted (fill (payload ++ with_len encoded_msg) messages)
          | true ↦ elim (is_empty payload) [
            | true ↦ counted (fill payload messages)
            | false ↦ (payload, 0)
          ]
        ]
  ]

  -- The payload, and the messages that are left.
  unfoldable pub build_espresso_tx_payload :
      List BroadcastFeedMessage → Bytes × List BroadcastFeedMessage
  unfolding fill
  build_espresso_tx_payload messages = elim (J.header_to_vec v1) [
    | none ↦ ([], messages)
    | some encoded_header ↦
        let (payload, count) = fill (with_len encoded_header) messages in
        (payload, drop count messages)
  ]

  -- `build_tx_fn`, the payloads of its transactions, in a given number of rounds.
  unfoldable pub build_tx_fn : ℕ → List BroadcastFeedMessage → Option (List Bytes)
  unfolding build_espresso_tx_payload
  build_tx_fn fuel [] = some []
  build_tx_fn zero (message ∷ messages) = none
  build_tx_fn (suc fuel) (message ∷ messages) =
      let (payload, left) = build_espresso_tx_payload (message ∷ messages) in
      elim (is_empty payload) [
        | true ↦ some []
        | false ↦ Option.map (λ txes. payload ∷ txes) (build_tx_fn fuel left)
      ]

  -- The loop, on what is left of the payload; a message whose signature is not valid is skipped.
  unfoldable pub parse_messages :
      FeedMessageVerifier
      → NitroConfig
      → ℕ
      → Bytes
      → Result PayloadError (List BroadcastFeedMessage)
  parse_messages verify_signature config fuel [] = ok []
  parse_messages verify_signature config zero (b ∷ bs) = err out_of_fuel
  parse_messages verify_signature config (suc fuel) (b ∷ bs) =
      guard (not (ltb (length (b ∷ bs)) len_size)) too_short_to_parse_message_size
      >> (let message_size = from_be_bytes (take len_size (b ∷ bs)) in
          let rest = drop len_size (b ∷ bs) in
          guard (not (ltb (length rest) message_size)) too_short_to_parse_message
          >> (ok_or (J.message_from_slice (take message_size rest)) failed_to_parse_message
              >>= λ message.
                  parse_messages verify_signature config fuel (drop message_size rest)
                  >>= λ messages. ok (
                      if verify_signature config.chain_id config.trusted_sequencer_addresses message
                      then message ∷ messages
                      else messages)))

  -- The fuel is the length: each round reads at least one byte.
  unfoldable pub parse_nitro_hotshot_payload :
      NitroConfig → Bytes → FeedMessageVerifier → Result PayloadError (List BroadcastFeedMessage)
  unfolding parse_messages
  parse_nitro_hotshot_payload config tx_payload verify_signature =
      guard (not (ltb (length tx_payload) len_size)) too_short_to_parse_header_size
      >> (let header_len = from_be_bytes (take len_size tx_payload) in
          let rest = drop len_size tx_payload in
          guard (not (ltb (length rest) header_len)) too_short_to_parse_header
          >> (ok_or (J.header_from_slice (take header_len rest)) failed_to_parse_header
              >>= λ header.
                  guard (is_v1 header) unsupported_header_version
                  >> parse_messages verify_signature config (length tx_payload)
                      (drop header_len rest)))
