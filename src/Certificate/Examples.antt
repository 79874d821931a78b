-- ===== src/Certificate/Examples.antt =====
-- Concrete certificates.
use chain_adjacent_service.Prelude.{
  ltb, length, get_elem?, take, drop, replicate, ok, ◌≤◌, ◌≡◌, refl, ◌↔◌, Bool, true, ◌&&◌, some,
  [], ◌∷◌, ◌++◌, arith,
}
use chain_adjacent_service.Prelude.Words.{Bytes, All, IsByte, to_be_bytes}
use chain_adjacent_service.Crypto.{KeyManager}
use chain_adjacent_service.Certificate.{CasCertificate, fields_bytes, to_bytes, from_bytes}
use chain_adjacent_service.Certificate.Signing.{
  v0_header, build_espresso_certificate, validate,
  try_extract_da_sequencer_msg_from_espresso_da_cert,
}
use chain_adjacent_service.Certificate.Decoding.{decoded, from_bytes_iff}
use chain_adjacent_service.Certificate.RoundTrip.{
  IsCertificate, from_bytes-to_bytes, to_bytes-from_bytes,
}
use chain_adjacent_service.Certificate.Extraction.{
  extract-build_espresso_certificate, extract_sound,
}
use chain_adjacent_service.Nitro.TestData.{test_crypto, test_crypto-SignsRecoverably}

abbrev test_certificate : CasCertificate
test_certificate = record {
  header = v0_header;
  start_message_pos = 5;
  end_message_pos = 6;
  start_hotshot_block = 100;
  after_delayed_messages_read = 3;
  min_hotshot_block_still_in_streamer_queue = 101;
  cas_signature = replicate 65 1;
  downstream_certificate = 221 ∷ 222 ∷ [];
}

abbrev test_bytes : Bytes
test_bytes = v0_header ++ fields_bytes test_certificate

test_certificate-IsCertificate : IsCertificate test_certificate
test_certificate-IsCertificate = record {
  start_message_pos_fits = omega arith;
  end_message_pos_fits = omega arith;
  start_hotshot_block_fits = omega arith;
  after_delayed_messages_read_fits = omega arith;
  min_hotshot_block_fits = omega arith;
  signature_length = refl;
}

test_written : to_bytes test_certificate ≡ ok test_bytes
unfolding to_bytes
test_written = refl

from_bytes-to_bytes_example : from_bytes test_bytes ≡ ok test_certificate
from_bytes-to_bytes_example =
    from_bytes-to_bytes test_certificate test_bytes test_certificate-IsCertificate test_written

test_read : from_bytes test_bytes ≡ ok test_certificate
test_read =
    from_bytes-to_bytes test_certificate test_bytes test_certificate-IsCertificate test_written

all_bytes : Bytes → Bool
all_bytes [] = true
all_bytes (b ∷ bs) = ltb b 256 && all_bytes bs

all_bytes-IsByte : (bs : Bytes) → all_bytes bs ≡ true → All IsByte bs
unfolding all_bytes
all_bytes-IsByte [] h = tt
all_bytes-IsByte (b ∷ bs) h = (ground arith, all_bytes-IsByte bs (ground arith))

test_bytes-IsByte : All IsByte test_bytes
unfolding all_bytes to_be_bytes
test_bytes-IsByte = all_bytes-IsByte test_bytes refl

to_bytes-from_bytes_example : to_bytes test_certificate ≡ ok test_bytes
to_bytes-from_bytes_example =
    to_bytes-from_bytes test_bytes test_certificate test_bytes-IsByte test_read

from_bytes_iff_example : (from_bytes test_bytes ≡ ok test_certificate) ↔ (
    (get_elem? test_bytes 0 ≡ some 112)
    × (137 ≤ length test_bytes)
    × (test_certificate ≡ decoded test_bytes))
from_bytes_iff_example = from_bytes_iff test_bytes test_certificate

abbrev test_manager : KeyManager test_crypto
test_manager = record { signer = tt; parent_chain_id = 1; tee_verifier_address = 9 }

test_built :
    build_espresso_certificate test_crypto test_manager 5 6 100 3 101 (221 ∷ 222 ∷ [])
    ≡ ok test_certificate
unfolding build_espresso_certificate
test_built = refl

abbrev sequencer_header : Bytes
sequencer_header = replicate 40 2

extract-build_espresso_certificate_example :
    try_extract_da_sequencer_msg_from_espresso_da_cert test_crypto
      (sequencer_header ++ test_bytes)
      7
      1
      9
    ≡ ok (sequencer_header ++ 221 ∷ 222 ∷ [])
extract-build_espresso_certificate_example =
    extract-build_espresso_certificate test_crypto test_manager 5 6 100 3 101 (221 ∷ 222 ∷ [])
      sequencer_header test_bytes test_certificate test_crypto-SignsRecoverably
      (omega arith, omega arith, omega arith, omega arith, omega arith) refl test_built test_written

extract_sound_example :
    (c : CasCertificate) × (from_bytes (drop 40 (sequencer_header ++ test_bytes)) ≡ ok c)
    × (validate test_crypto c 7 1 9 ≡ ok tt)
    × (sequencer_header ++ 221 ∷ 222 ∷ []
        ≡ take 40 (sequencer_header ++ test_bytes) ++ drop 177 (sequencer_header ++ test_bytes))
extract_sound_example =
    extract_sound test_crypto (sequencer_header ++ test_bytes) (sequencer_header ++ 221 ∷ 222 ∷ [])
      7 1 9
      (extract-build_espresso_certificate test_crypto test_manager 5 6 100 3 101 (221 ∷ 222 ∷ [])
        sequencer_header test_bytes test_certificate test_crypto-SignsRecoverably
        (omega arith, omega arith, omega arith, omega arith, omega arith) refl test_built
        test_written)
