-- ===== src/Nitro/Rlp/Examples.antt =====
-- A message with a base fee of zero, written and read back.
use chain_adjacent_service.Prelude.{length, ok, ◌≡◌, refl, none, some, [], ◌∷◌, ◌++◌, arith}
use chain_adjacent_service.Nitro.{L1IncomingMessageHeader, BatchDataStats, L1IncomingMessage}
use chain_adjacent_service.Nitro.Rlp.{
  decode_message, header_length, encode_header, message_payload_length, message_length,
  encode_message,
}
use chain_adjacent_service.Nitro.Rlp.RoundTrip.{HeaderFits, normal_message, MessageFits}
use chain_adjacent_service.Nitro.Rlp.Message.{decode_message-encode_message}
use chain_adjacent_service.Nitro.Rlp.TestData.{test_rlp, test_rlp_laws, stats_fit}

abbrev test_header : L1IncomingMessageHeader
test_header = record {
  kind = 3;
  poster = 77;
  block_number = 1000;
  timestamp = 1700000000;
  request_id = some 161;
  l1_base_fee = some 0;
}

abbrev test_stats : BatchDataStats
test_stats = record { length = 3; non_zeros = 2 }

abbrev test_message : L1IncomingMessage
test_message = record {
  header = some test_header;
  l2msg = 1 ∷ 2 ∷ 3 ∷ [];
  legacy_batch_gas_cost = none;
  batch_data_stats = some test_stats;
}

header_fits : HeaderFits test_header
header_fits = record {
  kind_fits = omega arith;
  poster_fits = omega arith;
  block_number_fits = omega arith;
  timestamp_fits = omega arith;
  request_id_fits = omega arith;
  l1_base_fee_fits = omega arith;
}

message_fits : MessageFits test_rlp test_rlp_laws test_message
message_fits = record {
  header_fits = header_fits;
  l2msg_fits = omega arith;
  cost_fits = tt;
  stats_fits = stats_fit test_stats (omega arith) (omega arith);
}

test_length : length (encode_message test_rlp test_message) ≡ 54
unfolding encode_message message_payload_length header_length encode_header
test_length = refl

decode_message-encode_message_example :
    (message_length test_rlp test_message ≡ length (encode_message test_rlp test_message))
    × (decode_message test_rlp (encode_message test_rlp test_message ++ 9 ∷ [])
        ≡ ok (normal_message test_message, 9 ∷ []))
decode_message-encode_message_example =
    decode_message-encode_message test_rlp test_rlp_laws test_message (9 ∷ []) message_fits
      (omega (arith, test_length))
