-- ===== src/Certificate.antt =====
-- da_api/nitro/certificate/mod.rs and da_api/nitro/certificate/utils.rs: the certificate that the
-- service puts before the one of the downstream DA provider, its wire format, its signature; and
-- da_api/error.rs, the errors with their JSON-RPC codes.
pub mod Decoding
pub mod Examples
pub mod Extraction
pub mod RoundTrip
pub mod Signing
use chain_adjacent_service.Prelude.{
  ltb, ◌==◌, if◌then◌else◌, length, get_elem?, take, drop, Result, ok, err, ◌>>=◌, ◌>>◌, guard,
  ok_or, map_err, ℕ, ◌+◌, ◌-◌, not, [], ◌∷◌, ◌++◌,
}
use chain_adjacent_service.Prelude.Words.{Bytes, to_be_bytes, from_be_bytes}

-- The text of a message is left out, except for the numbers in it.
pub data DaApiError : Type 0 where
  certificate_serialization_failed invalid_params certificate_validation : DaApiError
  invalid_request : DaApiError
  invalid_header_byte : ℕ → DaApiError
  invalid_certificate_length : ℕ → DaApiError
  invalid_sequencer_message_length : ℕ → ℕ → DaApiError
  channel_error invalid_cas_signature : DaApiError
  unsupported_da_type : Bytes → DaApiError
  decoder_error downstream_da zk_circuit signing serialization configuration : DaApiError
  storage_unavailable rpc hex_decode io json parsing_error : DaApiError
  dynamic_batching_resize fallback_requested : DaApiError

abbrev pub DaApiResult : Type 0 → Type 0
DaApiResult A = Result DaApiError A

-- The code without its sign: `jsonrpc_code` is minus this number.
unfoldable pub jsonrpc_code : DaApiError → ℕ
jsonrpc_code invalid_params = 32602
jsonrpc_code (invalid_header_byte b) = 32602
jsonrpc_code (invalid_sequencer_message_length n m) = 32602
jsonrpc_code (invalid_certificate_length n) = 32602
jsonrpc_code certificate_validation = 32602
jsonrpc_code invalid_cas_signature = 32602
jsonrpc_code (unsupported_da_type b) = 32602
jsonrpc_code decoder_error = 32602
jsonrpc_code json = 32700
jsonrpc_code hex_decode = 32700
jsonrpc_code parsing_error = 32700
jsonrpc_code invalid_request = 32600
jsonrpc_code _ = 32603

abbrev pub message_pos_size : ℕ
message_pos_size = 8

abbrev pub hotshot_block_size : ℕ
hotshot_block_size = 8

abbrev pub after_delayed_size : ℕ
after_delayed_size = 8

abbrev pub cas_sig_size : ℕ
cas_sig_size = 65

abbrev pub cert_header_size_v0 : ℕ
cert_header_size_v0 = 32

abbrev pub context_fields_size : ℕ
context_fields_size =
    message_pos_size + message_pos_size + hotshot_block_size + after_delayed_size
    + hotshot_block_size

abbrev pub espresso_cert_size : ℕ
espresso_cert_size = cert_header_size_v0 + context_fields_size + cas_sig_size

pub data CasCertificateVersion : Type 0 where
  v0 : CasCertificateVersion

abbrev pub version_byte : CasCertificateVersion → ℕ
version_byte v0 = 112

abbrev pub version_try_from : ℕ → DaApiResult CasCertificateVersion
version_try_from value = if value == 112 then ok v0 else err serialization

abbrev pub header_size : CasCertificateVersion → ℕ
header_size v0 = cert_header_size_v0

pub record CasCertificate : Type 0 where
  pub header : Bytes
  pub start_message_pos : ℕ
  pub end_message_pos : ℕ
  pub start_hotshot_block : ℕ
  pub after_delayed_messages_read : ℕ
  pub min_hotshot_block_still_in_streamer_queue : ℕ
  pub cas_signature : Bytes
  pub downstream_certificate : Bytes

abbrev pub certificate_minimum_size : ℕ → ℕ
certificate_minimum_size size = size + hotshot_block_size + cas_sig_size

abbrev pub da_header_start_position : ℕ → ℕ
da_header_start_position size = size + hotshot_block_size + cas_sig_size

-- What `to_bytes` writes once the header has passed.
abbrev pub fields_bytes : CasCertificate → Bytes
fields_bytes c =
    to_be_bytes c.start_message_pos
    ++ to_be_bytes c.end_message_pos
    ++ to_be_bytes c.start_hotshot_block
    ++ to_be_bytes c.after_delayed_messages_read
    ++ to_be_bytes c.min_hotshot_block_still_in_streamer_queue
    ++ c.cas_signature
    ++ c.downstream_certificate

unfoldable pub to_bytes : CasCertificate → DaApiResult Bytes
to_bytes c = ok_or (get_elem? c.header 0) certificate_serialization_failed >>= λ cas_version.
    if cas_version == version_byte v0
    then (guard (length c.header == cert_header_size_v0) certificate_serialization_failed
        >> ok (c.header ++ fields_bytes c))
    else err certificate_serialization_failed

pub record Decoder : Type 0 where
  pub bytes : Bytes
  pub position : ℕ

abbrev pub remaining : Decoder → ℕ
remaining d = length d.bytes - d.position

unfoldable pub read_bytes : ℕ → Decoder → DaApiResult (Bytes × Decoder)
read_bytes len d =
    if ltb (remaining d) len
    then err (invalid_certificate_length (length d.bytes))
    else ok (
      take len (drop d.position d.bytes),
      record { bytes = d.bytes; position = d.position + len },
    )

-- The eight bytes that `read_bytes` returns always convert.
unfoldable pub read_u64 : Decoder → DaApiResult (ℕ × Decoder)
unfolding read_bytes
read_u64 d = read_bytes 8 d >>= λ result. ok (from_be_bytes result.0, result.1)

-- The rest of the data; the decoder is not used after it.
abbrev pub read_rest : Decoder → Bytes
read_rest d = drop d.position d.bytes

unfoldable pub decode_fields : Bytes → Decoder → DaApiResult CasCertificate
unfolding read_bytes read_u64
decode_fields header d = read_u64 d >>= λ a. read_u64 a.1 >>= λ b. read_u64 b.1 >>= λ c.
    read_u64 c.1 >>= λ e. read_u64 e.1 >>= λ f. read_bytes cas_sig_size f.1 >>= λ g. ok record {
      header = header;
      start_message_pos = a.0;
      end_message_pos = b.0;
      start_hotshot_block = c.0;
      after_delayed_messages_read = e.0;
      min_hotshot_block_still_in_streamer_queue = f.0;
      cas_signature = g.0;
      downstream_certificate = read_rest g.1;
    }

unfoldable pub from_bytes : Bytes → DaApiResult CasCertificate
unfolding decode_fields
from_bytes [] = err (invalid_certificate_length 0)
from_bytes (b ∷ bs) = version_try_from b >>= λ version.
    guard (not (ltb (length (b ∷ bs)) (certificate_minimum_size (header_size version))))
      (invalid_certificate_length (length (b ∷ bs)))
    >> (read_bytes (header_size version) record { bytes = b ∷ bs; position = 0 } >>= λ h.
        decode_fields h.0 h.1)

unfoldable pub validate_structure : CasCertificate → DaApiResult (Unit {0})
validate_structure c = ok_or (get_elem? c.header 0) certificate_validation >>= λ byte.
    map_err (λ _. invalid_header_byte byte) (version_try_from byte) >>= λ version.
    guard (length c.header == header_size version) certificate_validation
    >> guard (not (ltb (length c.downstream_certificate) 2))
        (invalid_certificate_length (length c.downstream_certificate))
