-- ===== src/Nitro/TestData.antt =====
-- Concrete libraries and messages for the runs of the Nitro rollup.
use chain_adjacent_service.Prelude.{
  ltb, if◌then◌else◌, Bool-cases, length, take, drop, replicate, length-drop, Result, ok, err,
  not_both, ok-injective, ℕ, ◌≡◌, refl, ap, subst, inl, inr, Option, none, some, [], ◌∷◌, arith,
}
use chain_adjacent_service.Prelude.Words.{Bytes, All, IsByte, All-replicate}
use chain_adjacent_service.Crypto.{Crypto, SignsRecoverably}
use chain_adjacent_service.Nitro.{L1IncomingMessage, BroadcastFeedMessage}
use chain_adjacent_service.Nitro.Payload.{NitroHeader, v1, Json}
use chain_adjacent_service.Nitro.Payload.Filling.{ReadsBack}
use chain_adjacent_service.Nitro.Batch.{RlpError, input_too_short, Codecs}
use chain_adjacent_service.Nitro.Batch.Fuel.{Consumes}

-- A message without contents.
abbrev pub bare : ℕ → ℕ → BroadcastFeedMessage
bare seq delayed = record {
  sequence_number = seq;
  message = record { message = none; delayed_messages_read = delayed };
  signature = [];
  block_metadata = [];
  cumulative_sum_msg_size = 0;
  block_hash = none;
}

-- A codec that writes the messages without contents.
abbrev pub write_parts : Option L1IncomingMessage → Bytes → Bytes → Option ℕ → ℕ → ℕ → Option Bytes
write_parts none [] [] none seq delayed = some (seq ∷ delayed ∷ [])
write_parts none [] [] (some h) seq delayed = none
write_parts none [] (b ∷ bs) hash seq delayed = none
write_parts none (b ∷ bs) metadata hash seq delayed = none
write_parts (some m) signature metadata hash seq delayed = none

abbrev pub read_bare : Bytes → Option BroadcastFeedMessage
read_bare [] = none
read_bare (seq ∷ []) = none
read_bare (seq ∷ delayed ∷ []) = some (bare seq delayed)
read_bare (a ∷ b ∷ c ∷ bs) = none

abbrev pub read_header : Bytes → Option NitroHeader
read_header [] = none
read_header (b ∷ bs) = some v1

abbrev pub test_json : Json
test_json = record {
  header_to_vec = λ h. some (123 ∷ []);
  header_from_slice = read_header;
  message_to_vec = λ m.
      write_parts m.message.message m.signature m.block_metadata m.block_hash m.sequence_number
        m.message.delayed_messages_read;
  message_from_slice = read_bare;
}

abbrev rebuilt : Option L1IncomingMessage → Bytes → Bytes → Option ℕ → ℕ → ℕ → BroadcastFeedMessage
rebuilt message signature metadata hash seq delayed = record {
  sequence_number = seq;
  message = record { message = message; delayed_messages_read = delayed };
  signature = signature;
  block_metadata = metadata;
  cumulative_sum_msg_size = 0;
  block_hash = hash;
}

parts_read :
    (message : Option L1IncomingMessage) (signature metadata : Bytes) (hash : Option ℕ)
    (seq delayed : ℕ) (e : Bytes)
    → write_parts message signature metadata hash seq delayed ≡ some e
    → read_bare e ≡ some (rebuilt message signature metadata hash seq delayed)
parts_read none [] [] none seq delayed e h =
    subst (λ x. read_bare x ≡ some (bare seq delayed)) (some-injective h) refl
  where
    some-injective : {a b : Bytes} → some a ≡ some b → a ≡ b
    some-injective h = ground arith
parts_read none [] [] (some h) seq delayed e k = absurd (ground arith)
parts_read none [] (b ∷ bs) hash seq delayed e k = absurd (ground arith)
parts_read none (b ∷ bs) metadata hash seq delayed e k = absurd (ground arith)
parts_read (some m) signature metadata hash seq delayed e k = absurd (ground arith)

pub test_json-ReadsBack : ReadsBack test_json
test_json-ReadsBack = (
  λ h e. subst (λ x. read_header x ≡ some v1) (written_header h e) refl,
  λ m e h.
      parts_read m.message.message m.signature m.block_metadata m.block_hash m.sequence_number
        m.message.delayed_messages_read e h,
)
  where
    written_header : (h : Bytes) → some (123 ∷ []) ≡ some h → (123 ∷ []) ≡ h
    written_header h e = ground arith

abbrev pub test_crypto : Crypto
test_crypto = record {
  PrivateKeySigner = Unit {0};
  Signature = Unit {0};
  keccak256 = length;
  eip712_signing_hash = λ commitment chain verifier. commitment;
  sign_hash_sync = λ key hash. some (replicate 65 1);
  address = λ key. 7;
  signature_try_from = λ bytes. some tt;
  from_bytes_and_parity = λ bytes parity. tt;
  r = λ sig. 1;
  s = λ sig. 1;
  normalize_s = λ sig. none;
  recover_address_from_prehash = λ sig hash. some 7;
}

pub test_crypto-SignsRecoverably : SignsRecoverably test_crypto
test_crypto-SignsRecoverably key hash bytes h =
    let same : replicate 65 1 ≡ bytes = inside h in
    (
      subst (λ b. length b ≡ 65) same refl,
      subst (All IsByte) same (All-replicate IsByte 65 1 (omega arith)),
      (tt, refl, refl),
    )
  where
    inside : {a b : Bytes} → some a ≡ some b → a ≡ b
    inside h = ground arith

-- A string is a length and then as many bytes; nothing is compressed.
abbrev pub read_string : Bytes → Result RlpError (Bytes × Bytes)
read_string [] = err input_too_short
read_string (k ∷ bs) = if ltb (length bs) k then err input_too_short else ok (take k bs, drop k bs)

abbrev pub test_codecs : Codecs
test_codecs = record {
  read_decompressed = λ bytes n. some (take n bytes);
  decode_bytes = read_string;
}

pub test_codecs-Consumes : Consumes test_codecs
test_codecs-Consumes [] segment rest h = absurd (ground arith)
test_codecs-Consumes (k ∷ bs) segment rest h = elim (Bool-cases (ltb (length bs) k)) [
  | inl e ↦ not_both {e = input_too_short} {a = (segment, rest)} (rw e at h)
  | inr e ↦
      let same : (take k bs, drop k bs) ≡ (segment, rest) =
        ok-injective {E = RlpError} (rw e at h) in
      omega (arith, length-drop k bs, ap (λ p. length p.1) same)
]
