-- ===== src/Certificate/Signing.antt =====
-- da_api/nitro/certificate/mod.rs and da_api/nitro/utils.rs: building and validating a certificate,
-- and taking the DA message out of a sequencer message.
use chain_adjacent_service.Prelude.{
  ltb, leb, ◌==◌, length, set, take, drop, replicate, ok, ◌>>=◌, ◌>>◌, guard, ok_or, ℕ, ◌+◌, not,
  ◌++◌,
}
use chain_adjacent_service.Prelude.Words.{Bytes, u64, to_be_bytes}
use chain_adjacent_service.Crypto.{Crypto, compute_cas_signing_hash, KeyManager, sign_message}
use chain_adjacent_service.Certificate.{
  certificate_validation, invalid_certificate_length, invalid_sequencer_message_length,
  invalid_cas_signature, signing, DaApiResult, v0, version_byte, CasCertificate, from_bytes,
  validate_structure,
}

abbrev pub sequencer_header_len : ℕ
sequencer_header_len = 40

unfoldable pub build_payload : ℕ → ℕ → ℕ → ℕ → ℕ → Bytes → Bytes
build_payload start end start_block delayed min_block downstream_cert =
    to_be_bytes start
    ++ to_be_bytes (u64 (end + 1))
    ++ to_be_bytes start_block
    ++ to_be_bytes delayed
    ++ to_be_bytes min_block
    ++ downstream_cert

abbrev pub v0_header : Bytes
v0_header = set (replicate 32 0) 0 (version_byte v0)

module _ (C : Crypto) where
  abbrev pub sign_payload : Bytes → KeyManager C → DaApiResult Bytes
  sign_payload payload key_manager = ok_or (sign_message C key_manager payload) signing

  unfoldable pub build_espresso_certificate :
      KeyManager C → ℕ → ℕ → ℕ → ℕ → ℕ → Bytes → DaApiResult CasCertificate
  unfolding build_payload
  build_espresso_certificate key_manager start end start_block delayed min_block downstream_cert =
      guard (not (ltb (length downstream_cert) 2))
        (invalid_certificate_length (length downstream_cert))
      >> (sign_payload (build_payload start end start_block delayed min_block downstream_cert)
            key_manager
          >>= λ cas_signature. ok record {
            header = v0_header;
            start_message_pos = start;
            end_message_pos = end;
            start_hotshot_block = start_block;
            after_delayed_messages_read = delayed;
            min_hotshot_block_still_in_streamer_queue = min_block;
            cas_signature = cas_signature;
            downstream_certificate = downstream_cert;
          })

  abbrev pub signed_payload : CasCertificate → Bytes
  signed_payload c =
      build_payload c.start_message_pos c.end_message_pos c.start_hotshot_block
        c.after_delayed_messages_read c.min_hotshot_block_still_in_streamer_queue
        c.downstream_certificate

  unfoldable pub validate : CasCertificate → ℕ → ℕ → ℕ → DaApiResult (Unit {0})
  unfolding validate_structure build_payload
  validate c expected_signer parent_chain_id tee_verifier_address =
      validate_structure c
      >> (ok_or (C.signature_try_from c.cas_signature) certificate_validation >>= λ sig.
          ok_or
            (C.recover_address_from_prehash sig
              (compute_cas_signing_hash C (signed_payload c) parent_chain_id tee_verifier_address))
            invalid_cas_signature
          >>= λ recovered. guard (recovered == expected_signer) invalid_cas_signature)

  unfoldable pub try_extract_da_sequencer_msg_from_espresso_da_cert :
      Bytes → ℕ → ℕ → ℕ → DaApiResult Bytes
  unfolding from_bytes validate
  try_extract_da_sequencer_msg_from_espresso_da_cert sequencer_msg expected_signer parent_chain_id
        tee_verifier_address =
      guard (not (leb (length sequencer_msg) sequencer_header_len))
        (invalid_sequencer_message_length sequencer_header_len (length sequencer_msg))
      >> (from_bytes (drop sequencer_header_len sequencer_msg) >>= λ cas_cert.
          validate cas_cert expected_signer parent_chain_id tee_verifier_address
          >> ok (take sequencer_header_len sequencer_msg ++ cas_cert.downstream_certificate))
