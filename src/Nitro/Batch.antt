-- ===== src/Nitro/Batch.antt =====
-- rollups/nitro/batch_parsing.rs and rollups/nitro/decompress/brotli.rs: the messages of a batch.
pub mod Fuel
pub mod Slots
use chain_adjacent_service.Prelude.{
  ltb, ◌==◌, if◌then◌else◌, length, Result, ok, err, ◌>>=◌, ◌>>◌, guard, ok_or, ℕ, zero, suc, ◌+◌,
  ◌||◌, not, Option, none, some, List, [], ◌∷◌,
}
use chain_adjacent_service.Prelude.Words.{Bytes}
use chain_adjacent_service.Nitro.{BatchMessage, l2_msg, delayed_msg}

abbrev pub max_decompressed_len : ℕ
max_decompressed_len = 16777216

abbrev pub max_l2_message_size : ℕ
max_l2_message_size = 262144

abbrev pub max_segments : ℕ
max_segments = 102400

pub data BatchError : Type 0 where
  empty_sequencer_message too_many_segments error_parsing_segment out_of_fuel : BatchError
  decompression_failed decompression_result_too_large : BatchError
  unsupported_header_byte unknown_segment_kind : ℕ → BatchError

pub data RlpError : Type 0 where
  input_too_short : RlpError
  other : RlpError

-- The libraries: the brotli decompressor, read up to a number of bytes, and the decoding of one RLP
-- string, with the rest of the buffer.
pub record Codecs : Type 0 where
  pub read_decompressed : Bytes → ℕ → Option Bytes
  pub decode_bytes : Bytes → Result RlpError (Bytes × Bytes)

abbrev pub push_if : Option BatchMessage → List BatchMessage → List BatchMessage
push_if none ms = ms
push_if (some m) ms = m ∷ ms

module _ (C : Codecs) where
  unfoldable pub decompress : Bytes → ℕ → Result BatchError Bytes
  decompress input max_size =
      ok_or (C.read_decompressed input (max_size + 1)) decompression_failed >>= λ output.
      guard (not (ltb max_size (length output))) decompression_result_too_large >> ok output

  -- The first loop, with the number of segments so far.
  unfoldable pub decode_segments : ℕ → ℕ → Bytes → Result BatchError (List Bytes)
  decode_segments fuel count [] = ok []
  decode_segments zero count (b ∷ bs) = err out_of_fuel
  decode_segments (suc fuel) count (b ∷ bs) =
      guard (ltb count max_segments) too_many_segments >> elim (C.decode_bytes (b ∷ bs)) [
        | ok decoded ↦
            decode_segments fuel (suc count) decoded.1 >>= λ segments. ok (decoded.0 ∷ segments)
        | err e ↦ elim e [ input_too_short ↦ ok [] | other ↦ err error_parsing_segment ]
      ]

  -- The body of the second loop: the message of a segment that has one.
  unfoldable pub convert_segment : ℕ → Bytes → Result BatchError (Option BatchMessage)
  unfolding decompress
  convert_segment kind content =
      if kind == 0
      then ok (some (l2_msg content))
      else (if kind == 1
          then (decompress content max_l2_message_size >>= λ decompressed_msg.
              ok (some (l2_msg decompressed_msg)))
          else (if kind == 2
              then ok (some delayed_msg)
              else (if kind == 3 || kind == 4 then ok none else err (unknown_segment_kind kind))))

  unfoldable pub convert_segments : List Bytes → Result BatchError (List BatchMessage)
  unfolding convert_segment
  convert_segments [] = ok []
  convert_segments ([] ∷ segments) = convert_segments segments
  convert_segments ((kind ∷ content) ∷ segments) = convert_segment kind content >>= λ message.
      convert_segments segments >>= λ messages. ok (push_if message messages)

  -- The fuel is the length of the buffer: each segment takes at least one byte.
  unfoldable pub parse_batch : Bytes → Result BatchError (List BatchMessage)
  unfolding decompress decode_segments convert_segments
  parse_batch [] = err empty_sequencer_message
  parse_batch (header ∷ payload) =
      guard (header == 0) (unsupported_header_byte header)
      >> (decompress payload max_decompressed_len >>= λ segment_data.
          decode_segments (length segment_data) 0 segment_data >>= λ segments.
          convert_segments segments)
