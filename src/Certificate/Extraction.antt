-- ===== src/Certificate/Extraction.antt =====
-- da_api/nitro/certificate/mod.rs and da_api/nitro/utils.rs: a certificate that the service builds
-- is one that it accepts, and the DA message comes out of the sequencer message unchanged.
use chain_adjacent_service.Prelude.{
  ltb, leb, Bool-cases, Option-cases, ==_refl, length, length-append, take, drop, drop-append,
  take-append, drop-add, ok, bind_ok, not_both, ok-injective, ℕ, ◌≤◌, ◌<◌, ◌≡◌, refl, sym, ap, ◌∙◌,
  subst, inl, inr, false, some, ◌++◌, arith,
}
use chain_adjacent_service.Prelude.Words.{Bytes, IsU64}
use chain_adjacent_service.Crypto.{Crypto, SignsRecoverably, KeyManager, sign_message}
use chain_adjacent_service.Certificate.{
  DaApiError, invalid_certificate_length, invalid_sequencer_message_length, signing, CasCertificate,
  to_bytes, from_bytes, validate_structure,
}
use chain_adjacent_service.Certificate.Decoding.{from_bytes_iff}
use chain_adjacent_service.Certificate.RoundTrip.{IsCertificate, from_bytes-to_bytes}
use chain_adjacent_service.Certificate.Signing.{
  build_payload, v0_header, build_espresso_certificate, validate,
  try_extract_da_sequencer_msg_from_espresso_da_cert,
}

long_message :
    (header bs : Bytes)
    → length header ≡ 40
    → 0 < length bs
    → leb (length (header ++ bs)) 40 ≡ false
long_message header bs l p = ground (arith, length-append header bs)

module _ (C : Crypto) where
  abbrev pub certified : ℕ → ℕ → ℕ → ℕ → ℕ → Bytes → Bytes → CasCertificate
  certified start end block delayed min_block downstream sig = record {
    header = v0_header;
    start_message_pos = start;
    end_message_pos = end;
    start_hotshot_block = block;
    after_delayed_messages_read = delayed;
    min_hotshot_block_still_in_streamer_queue = min_block;
    cas_signature = sig;
    downstream_certificate = downstream;
  }

  pub built :
      (km : KeyManager C) (start end block delayed min_block : ℕ) (downstream : Bytes)
      (c : CasCertificate)
      → build_espresso_certificate C km start end block delayed min_block downstream ≡ ok c
      → (sig : Bytes) × (2 ≤ length downstream)
        × (sign_message C km (build_payload start end block delayed min_block downstream)
            ≡ some sig)
        × (c ≡ certified start end block delayed min_block downstream sig)
  unfolding build_espresso_certificate
  built km start end block delayed min_block downstream c h =
      elim (Bool-cases (ltb (length downstream) 2)) [
        | inl e ↦ not_both {e = invalid_certificate_length (length downstream)} {a = c} (rw e at h)
        | inr e ↦
            elim (Option-cases
              (sign_message C km (build_payload start end block delayed min_block downstream))) [
                | inl g ↦ not_both {e = signing} {a = c} (rw g at (rw e at h))
                | inr (sig, g) ↦
                    (sig, enough e, g, sym (ok-injective {E = DaApiError} (rw g at (rw e at h))))
              ]
      ]
    where
      enough : ltb (length downstream) 2 ≡ false → 2 ≤ length downstream
      enough e = ground arith

  validate-certified :
      (km : KeyManager C) (start end block delayed min_block : ℕ) (downstream sig : Bytes)
      → SignsRecoverably C
      → 2 ≤ length downstream
      → sign_message C km (build_payload start end block delayed min_block downstream) ≡ some sig
      → validate C
          (certified start end block delayed min_block downstream sig)
          (C.address km.signer)
          km.parent_chain_id
          km.tee_verifier_address
        ≡ ok tt
  unfolding validate validate_structure
  validate-certified km start end block delayed min_block downstream sig sound l g =
      let (size, bytes, (parsed, e, f)) = sound km.signer _ sig g in
      let long : ltb (length downstream) 2 ≡ false = ground arith in
      rw (long, e, f, ==_refl (C.address km.signer)) refl

  -- A certificate that `build_espresso_certificate` returns passes `validate` for the address of the
  -- signing key and the chain and verifier of the key manager.
  pub build_espresso_certificate-validate :
      (km : KeyManager C) (start end block delayed min_block : ℕ) (downstream : Bytes)
      (c : CasCertificate)
      → SignsRecoverably C
      → build_espresso_certificate C km start end block delayed min_block downstream ≡ ok c
      → validate C c (C.address km.signer) km.parent_chain_id km.tee_verifier_address ≡ ok tt
  build_espresso_certificate-validate km start end block delayed min_block downstream c sound h =
      let (sig, l, g, e) = built km start end block delayed min_block downstream c h in
      rw e (validate-certified km start end block delayed min_block downstream sig sound l g)

  extract_one :
      (header bs : Bytes) (c : CasCertificate) (signer chain verifier : ℕ)
      → length header ≡ 40
      → 0 < length bs
      → from_bytes bs ≡ ok c
      → validate C c signer chain verifier ≡ ok tt
      → try_extract_da_sequencer_msg_from_espresso_da_cert C (header ++ bs) signer chain verifier
        ≡ ok (header ++ c.downstream_certificate)
  unfolding try_extract_da_sequencer_msg_from_espresso_da_cert
  extract_one header bs c signer chain verifier l p read valid =
      let d : drop 40 (header ++ bs) ≡ bs =
        subst (λ n. drop n (header ++ bs) ≡ bs) l (drop-append header bs) in
      let t : take 40 (header ++ bs) ≡ header =
        subst (λ n. take n (header ++ bs) ≡ header) l (take-append header bs) in
      rw (long_message header bs l p, d, read, valid, t) refl

  -- The way of a certificate through the service: when one is built of numbers of 64 bits, written by
  -- `to_bytes` and put behind a sequencer header of 40 bytes, the extraction returns the header and
  -- the downstream certificate.
  pub extract-build_espresso_certificate :
      (km : KeyManager C) (start end block delayed min_block : ℕ) (downstream header bs : Bytes)
      (c : CasCertificate)
      → SignsRecoverably C
      → (IsU64 start × IsU64 end × IsU64 block × IsU64 delayed × IsU64 min_block)
      → length header ≡ 40
      → build_espresso_certificate C km start end block delayed min_block downstream ≡ ok c
      → to_bytes c ≡ ok bs
      → try_extract_da_sequencer_msg_from_espresso_da_cert C
          (header ++ bs)
          (C.address km.signer)
          km.parent_chain_id
          km.tee_verifier_address
        ≡ ok (header ++ downstream)
  extract-build_espresso_certificate km start end block delayed min_block downstream header bs c
        sound (f1, f2, f3, f4, f5) l h w =
      let (sig, m, g, e) = built km start end block delayed min_block downstream c h in
      let valid =
        build_espresso_certificate-validate km start end block delayed min_block downstream c sound
          h in
      let fine : IsCertificate (certified start end block delayed min_block downstream sig) =
        record {
          start_message_pos_fits = f1;
          end_message_pos_fits = f2;
          start_hotshot_block_fits = f3;
          after_delayed_messages_read_fits = f4;
          min_hotshot_block_fits = f5;
          signature_length = (sound km.signer _ sig g).0;
        } in
      let read = from_bytes-to_bytes c bs (subst IsCertificate (sym e) fine) w in
      let (first, long, z) = (from_bytes_iff bs c).0 read in
      extract_one header bs c (C.address km.signer) km.parent_chain_id km.tee_verifier_address l
        (omega arith) read valid
      ∙ ap (λ d. ok (header ++ d.downstream_certificate)) e

  -- A message that is extracted has a certificate behind its header that is valid for the expected
  -- signer, and what is returned is the message without the 137 bytes of the service.
  pub extract_sound :
      (msg res : Bytes) (signer chain verifier : ℕ)
      → try_extract_da_sequencer_msg_from_espresso_da_cert C msg signer chain verifier ≡ ok res
      → (c : CasCertificate) × (from_bytes (drop 40 msg) ≡ ok c)
        × (validate C c signer chain verifier ≡ ok tt)
        × (res ≡ take 40 msg ++ drop 177 msg)
  unfolding try_extract_da_sequencer_msg_from_espresso_da_cert
  extract_sound msg res signer chain verifier h = elim (Bool-cases (leb (length msg) 40)) [
    | inl e ↦ not_both {e = invalid_sequencer_message_length 40 (length msg)} {a = res} (rw e at h)
    | inr e ↦
        let (c, read, k) = bind_ok (from_bytes (drop 40 msg)) (rw e at h) in
        let (u, valid, same) = bind_ok (validate C c signer chain verifier) k in
        let (first, long, z) = (from_bytes_iff (drop 40 msg) c).0 read in
        let rest : c.downstream_certificate ≡ drop 177 msg =
          ap (λ x. x.downstream_certificate) z ∙ sym (drop-add 40 137 msg) in
        (c, read, valid, sym (ok-injective {E = DaApiError} same) ∙ ap (λ d. take 40 msg ++ d) rest)
  ]
