-- ===== src/Server.antt =====
-- da_api/nitro/server.rs: the requests that the DA API answers. HTTP and serde_json are parameters:
-- `Rpc` reads the fields of a request and writes an answer, `Downstream` is the provider.
pub mod Answers
pub mod TestData
pub mod Examples
pub mod Calldata
pub mod Routes
pub mod Verified
pub mod Signed
pub mod Recovery
use chain_adjacent_service.Prelude.{
  ltb, leb, ◌==◌, if◌then◌else◌, length, get_elem?, drop, ok, err, ◌>>=◌, ◌>>◌, guard, ok_or, ℕ,
  not, Bool, true, false, ◌||◌, Option, none, some, List, [], ◌∷◌,
}
use chain_adjacent_service.Prelude.Words.{Bytes, codes, bytes_eq}
use chain_adjacent_service.Rollup.{VerificationResult}
use chain_adjacent_service.Crypto.{Crypto, KeyManager}
use chain_adjacent_service.Certificate.{
  DaApiError, DaApiResult, certificate_validation, invalid_params, invalid_sequencer_message_length,
  channel_error, downstream_da, parsing_error, dynamic_batching_resize, to_bytes,
}
use chain_adjacent_service.Certificate.Signing.{
  sequencer_header_len, build_espresso_certificate,
  try_extract_da_sequencer_msg_from_espresso_da_cert,
}
use chain_adjacent_service.Store.{
  Reply, not_sent, no_body, replied, recover, json, raw, Downstream, DownstreamCertOutcome,
  downstream_cert, downstream_forward, ServerState, current_endpoint, nonempty_url,
  resolve_downstream_cert,
}

abbrev pub espresso_header_byte : ℕ
espresso_header_byte = 112

abbrev pub anytrust_das_header_byte : ℕ
anytrust_das_header_byte = 128

abbrev pub anytrust_das_tree_header_byte : ℕ
anytrust_das_tree_header_byte = 136

abbrev pub is_anytrust_header : ℕ → Bool
is_anytrust_header byte = byte == anytrust_das_header_byte || byte == anytrust_das_tree_header_byte

abbrev pub calldata_name : Bytes
calldata_name = codes "calldata"

pub record Response : Type 0 where
  pub status : ℕ
  pub body : Bytes

-- The results that the service writes itself, each with the id of the request.
pub data Answer (Value : Type 0) : Type 0 where
  store_answer : Value → Bytes → Answer Value
  payload_answer : Value → Bytes → Answer Value
  header_bytes_answer : Value → Bytes → Answer Value
  max_size_answer : Value → ℕ → Answer Value

pub record Rpc (D : Downstream) : Type 0 where
  pub method : D.Value → Option Bytes
  pub id : D.Value → D.Value
  pub params : D.Value → Option (List D.Value)
  pub as_bytes : D.Value → Option Bytes
  pub as_u64 : D.Value → Option ℕ
  pub as_b256 : D.Value → Option ℕ
  -- the decoded hexadecimal of the field `headerBytes` of the result
  pub result_header_bytes : D.Value → Option Bytes
  pub to_vec : Answer D.Value → Option Bytes

-- `filter(|p| p.len() >= 2)`
abbrev pub two_params : {A : Type 0} → Option (List A) → Option (A × A)
two_params none = none
two_params (some []) = none
two_params (some (a ∷ [])) = none
two_params (some (a ∷ b ∷ rest)) = some (a, b)

-- `filter(|p| p.len() == 3)`
abbrev pub three_params : {A : Type 0} → Option (List A) → Option (A × A × A)
three_params none = none
three_params (some []) = none
three_params (some (a ∷ [])) = none
three_params (some (a ∷ b ∷ [])) = none
three_params (some (a ∷ b ∷ c ∷ [])) = some (a, b, c)
three_params (some (a ∷ b ∷ c ∷ d ∷ rest)) = none

abbrev pub within_max_size : Option ℕ → Bytes → Bool
within_max_size none bytes = true
within_max_size (some max_size) bytes = not (ltb max_size (length bytes))

abbrev pub is_byte : Option ℕ → ℕ → Bool
is_byte none b = false
is_byte (some a) b = a == b

abbrev pub is_anytrust_byte : Option ℕ → Bool
is_anytrust_byte none = false
is_anytrust_byte (some byte) = is_anytrust_header byte

module _ (C : Crypto) (D : Downstream) (P : Rpc D) where
  -- The reply of the provider, passed on as it is.
  abbrev pub pass_on : Reply → DaApiResult Response
  pass_on not_sent = err downstream_da
  pass_on no_body = err parsing_error
  pass_on (replied status bytes) = ok record { status = status; body = bytes }

  abbrev pub answer_with : DaApiError → Answer D.Value → DaApiResult Response
  answer_with e answer =
      ok_or (P.to_vec answer) e >>= λ bytes. ok record { status = 200; body = bytes }

  abbrev pub forward_raw : ServerState → Bytes → DaApiResult Response
  forward_raw state body = pass_on (D.post 0 (current_endpoint state) (raw body))

  abbrev pub respond_header_bytes : D.Value → Bytes → DaApiResult Response
  respond_header_bytes id bytes = answer_with parsing_error (header_bytes_answer id bytes)

  abbrev pub combined_header_bytes : D.Value → ℕ → Bytes → DaApiResult Response
  combined_header_bytes body status bytes = ok_or (D.from_slice bytes) parsing_error >>= λ parsed.
      elim (D.error parsed) [
        | some e ↦ ok record { status = status; body = bytes }
        | none ↦ ok_or (P.result_header_bytes parsed) parsing_error >>= λ downstream_bytes.
            respond_header_bytes (P.id body) (espresso_header_byte ∷ downstream_bytes)
      ]

  abbrev pub after_header_bytes : D.Value → Reply → DaApiResult Response
  after_header_bytes body not_sent = err downstream_da
  after_header_bytes body no_body = err parsing_error
  after_header_bytes body (replied status bytes) =
      if D.is_success status
      then combined_header_bytes body status bytes
      else ok record { status = status; body = bytes }

  unfoldable pub handle_supported_header_bytes_forwarded :
      ServerState → D.Value → DaApiResult Response
  handle_supported_header_bytes_forwarded state body =
      after_header_bytes body (D.post 0 (current_endpoint state) (json body))

  -- The end of a store: the certificate of the service around that of the provider.
  unfoldable pub certify :
      KeyManager C → VerificationResult → D.Value → DownstreamCertOutcome → DaApiResult Response
  certify key_manager result id (downstream_forward status bytes) =
      ok record { status = status; body = bytes }
  certify key_manager result id (downstream_cert cert) =
      build_espresso_certificate C key_manager result.start_message_position
        result.end_message_position result.start_espresso_block result.after_delayed_messages_read
        result.min_espresso_block_still_in_queue cert
      >>= λ final_cert.
          to_bytes final_cert >>= λ bytes. answer_with parsing_error (store_answer id bytes)

  -- `verify` sends the data to the streamer and waits for its reply; it is none where a channel is closed.
  unfoldable pub handle_store :
      KeyManager C
      → (Bytes → Option VerificationResult)
      → ServerState
      → D.Value
      → DaApiResult Response
  unfolding certify
  handle_store key_manager verify state body =
      ok_or (two_params (P.params body)) invalid_params >>= λ params.
      ok_or (P.as_bytes params.0) invalid_params >>= λ message.
      ok_or (P.as_u64 params.1) invalid_params >>= λ timeout.
      guard (within_max_size state.max_message_size message) dynamic_batching_resize
      >> (ok_or (verify message) channel_error >>= λ result.
          guard result.success certificate_validation
          >> (resolve_downstream_cert D state message timeout (P.id body)
              >>= certify key_manager result (P.id body)))

  -- The DA certificate of a sequencer message, without the certificate of the service where it has one.
  unfoldable pub unwrap : KeyManager C → Bytes → DaApiResult Bytes
  unwrap key_manager sequencer_msg =
      if is_byte (get_elem? sequencer_msg sequencer_header_len) espresso_header_byte
      then try_extract_da_sequencer_msg_from_espresso_da_cert C sequencer_msg
          (C.address key_manager.signer) key_manager.parent_chain_id
          key_manager.tee_verifier_address
      else ok sequencer_msg

  abbrev pub recover_endpoint : ServerState → Option ℕ → Bytes
  recover_endpoint state inner_header = elim (nonempty_url state.da_config.anytrust_fallback_url) [
    | some url ↦ if is_anytrust_byte inner_header then url else current_endpoint state
    | none ↦ current_endpoint state
  ]

  -- The answer to a recovery, of the DA certificate behind the sequencer header.
  unfoldable pub route_recover :
      ServerState → D.Value → Bytes → ℕ → ℕ → Bytes → DaApiResult Response
  route_recover state body downstream_method batch_num batch_block_hash da_certificate =
      let inner_header = get_elem? da_certificate sequencer_header_len in
      if bytes_eq state.da_config.name calldata_name || is_byte inner_header 0
      then answer_with invalid_params
          (payload_answer (P.id body) (drop sequencer_header_len da_certificate))
      else pass_on (
          D.post 0 (recover_endpoint state inner_header)
            (recover downstream_method batch_num batch_block_hash da_certificate (P.id body)))

  unfoldable pub handle_recover_inner :
      KeyManager C → ServerState → D.Value → Bytes → DaApiResult Response
  unfolding unwrap route_recover
  handle_recover_inner key_manager state body downstream_method =
      ok_or (three_params (P.params body)) invalid_params >>= λ params.
      ok_or (P.as_u64 params.0) invalid_params >>= λ batch_num.
      ok_or (P.as_b256 params.1) invalid_params >>= λ batch_block_hash.
      ok_or (P.as_bytes params.2) invalid_params >>= λ sequencer_msg.
      guard (not (leb (length sequencer_msg) sequencer_header_len))
        (invalid_sequencer_message_length sequencer_header_len (length sequencer_msg))
      >> (unwrap key_manager sequencer_msg
          >>= route_recover state body downstream_method batch_num batch_block_hash)
