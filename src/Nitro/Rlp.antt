-- ===== src/Nitro/Rlp.antt =====
-- rollups/nitro/types.rs: the RLP encoding of an incoming message, and its decoding. alloy_rlp is a
-- parameter, with the encodings of the primitive types and of `BatchDataStats`, which it derives.
pub mod Laws
pub mod Fields
pub mod RoundTrip
pub mod Message
pub mod TestData
mod Examples
use chain_adjacent_service.Prelude.{
  ◌==◌, length, get_elem?, if◌then◌else◌, is_some, ok, err, ◌>>=◌, Result, ℕ, ◌+◌, ◌||◌, Option,
  none, some, List, [], ◌∷◌, ◌++◌,
}
use chain_adjacent_service.Prelude.Words.{Bytes}
use chain_adjacent_service.Nitro.{
  L1IncomingMessageHeader, BatchDataStats, L1IncomingMessage, MessageWithMetadata,
}

pub data RlpError : Type 0 where
  unexpected_string unexpected_list unexpected_length : RlpError
  list_length_mismatch : ℕ → ℕ → RlpError
  other_error : ℕ → RlpError

abbrev pub RlpResult : Type 0 → Type 0
RlpResult A = Result RlpError A

-- The payload of an item: the bytes of a string, or the items of a list, each with its header.
pub data PayloadView : Type 0 where
  string : Bytes → PayloadView
  list : List Bytes → PayloadView

pub record Codec (A : Type 0) : Type 0 where
  pub encode : A → Bytes
  pub length_of : A → ℕ
  pub decode_exact : Bytes → RlpResult A

pub record Rlp : Type 1 where
  pub u8 : Codec ℕ
  pub u64 : Codec ℕ
  pub u256 : Codec ℕ
  pub address : Codec ℕ
  pub b256 : Codec ℕ
  pub b256_from_slice : Bytes → ℕ
  pub slice : Codec Bytes
  pub stats : Codec BatchDataStats
  pub list_header : ℕ → Bytes
  pub length_of_length : ℕ → ℕ
  -- an item at the front of the bytes, with what is behind it
  pub decode_raw : Bytes → RlpResult (PayloadView × Bytes)
  pub decode_exact : {T : Type 0} → (Bytes → RlpResult (T × Bytes)) → Bytes → RlpResult T

pub data NilPolicy : Type 0 where
  empty_string_only empty_list_only : NilPolicy

abbrev pub joined : List Bytes → Bytes
joined [] = []
joined (bs ∷ rest) = bs ++ joined rest

abbrev pub list_fields : PayloadView → RlpResult (List Bytes)
list_fields (list fields) = ok fields
list_fields (string bytes) = err unexpected_string

-- `decode_exact::<T>(buf).map(Some)` is `exact`, which a field that is there goes to.
abbrev pub field_view :
    {T : Type 0} → NilPolicy → (Bytes → RlpResult T) → Bytes → PayloadView → RlpResult (Option T)
field_view empty_string_only exact buf (string []) = ok none
field_view empty_string_only exact buf (string (b ∷ bs)) = exact buf >>= λ t. ok (some t)
field_view empty_string_only exact buf (list items) = err unexpected_list
field_view empty_list_only exact buf (string bytes) = err unexpected_string
field_view empty_list_only exact buf (list []) = ok none
field_view empty_list_only exact buf (list (i ∷ items)) = exact buf >>= λ t. ok (some t)

-- `if fields.len() > n { decode(fields[n])? } else { None }`
abbrev pub optional_at :
    {T : Type 0} → List Bytes → ℕ → (Bytes → RlpResult (Option T)) → RlpResult (Option T)
optional_at fields n decode = elim (get_elem? fields n) [
  | none ↦ ok none
  | some field ↦ decode field
]

module _ (R : Rlp) where
  abbrev pub decode_optional_field :
      {T : Type 0} → (Bytes → RlpResult T) → NilPolicy → Bytes → RlpResult (Option T)
  decode_optional_field exact nil_policy buf =
      R.decode_raw buf >>= λ raw. field_view nil_policy exact buf raw.0

  abbrev pub b256_view : PayloadView → RlpResult (Option ℕ)
  b256_view (string []) = ok none
  b256_view (string (b ∷ bs)) =
      if length (b ∷ bs) == 32
      then ok (some (R.b256_from_slice (b ∷ bs)))
      else err unexpected_length
  b256_view (list []) = ok none
  b256_view (list (i ∷ items)) = err unexpected_list

  abbrev pub decode_optional_b256_allow_nil_list : Bytes → RlpResult (Option ℕ)
  decode_optional_b256_allow_nil_list buf = R.decode_raw buf >>= λ raw. b256_view raw.0

  -- `decode` of the three types: the fields of a list, and what is behind the list.
  abbrev pub decode_list : {T : Type 0} → (List Bytes → RlpResult T) → Bytes → RlpResult (T × Bytes)
  decode_list of_fields buf = R.decode_raw buf >>= λ raw.
      list_fields raw.0 >>= λ fields. of_fields fields >>= λ t. ok (t, raw.1)

  abbrev pub header_of_fields : List Bytes → RlpResult L1IncomingMessageHeader
  header_of_fields [] = err (list_length_mismatch 4 0)
  header_of_fields (a ∷ []) = err (list_length_mismatch 4 1)
  header_of_fields (a ∷ b ∷ []) = err (list_length_mismatch 4 2)
  header_of_fields (a ∷ b ∷ c ∷ []) = err (list_length_mismatch 4 3)
  header_of_fields (a ∷ b ∷ c ∷ d ∷ rest) = R.u8.decode_exact a >>= λ kind.
      R.address.decode_exact b >>= λ poster. R.u64.decode_exact c >>= λ block_number.
      R.u64.decode_exact d >>= λ timestamp.
      optional_at rest 0 decode_optional_b256_allow_nil_list >>= λ request_id.
      optional_at rest 1 (decode_optional_field R.u256.decode_exact empty_string_only)
      >>= λ l1_base_fee. ok record {
        kind = kind;
        poster = poster;
        block_number = block_number;
        timestamp = timestamp;
        request_id = request_id;
        l1_base_fee = l1_base_fee;
      }

  unfoldable pub decode_header : Bytes → RlpResult (L1IncomingMessageHeader × Bytes)
  decode_header buf = decode_list header_of_fields buf

  abbrev pub message_of_fields : List Bytes → RlpResult L1IncomingMessage
  message_of_fields [] = err (list_length_mismatch 2 0)
  message_of_fields (a ∷ []) = err (list_length_mismatch 2 1)
  message_of_fields (a ∷ b ∷ rest) =
      decode_optional_field (R.decode_exact decode_header) empty_list_only a >>= λ header.
      R.slice.decode_exact b >>= λ l2msg.
      optional_at rest 0 (decode_optional_field R.u64.decode_exact empty_string_only)
      >>= λ legacy_batch_gas_cost.
          optional_at rest 1 (decode_optional_field R.stats.decode_exact empty_list_only)
          >>= λ batch_data_stats. ok record {
            header = header;
            l2msg = l2msg;
            legacy_batch_gas_cost = legacy_batch_gas_cost;
            batch_data_stats = batch_data_stats;
          }

  unfoldable pub decode_message : Bytes → RlpResult (L1IncomingMessage × Bytes)
  decode_message buf = decode_list message_of_fields buf

  abbrev pub delayed_messages_read_of : List Bytes → RlpResult ℕ
  delayed_messages_read_of [] = ok 0
  delayed_messages_read_of (field ∷ rest) = R.u64.decode_exact field

  abbrev pub metadata_of_fields : List Bytes → RlpResult MessageWithMetadata
  metadata_of_fields [] = err (list_length_mismatch 1 0)
  metadata_of_fields (a ∷ rest) =
      decode_optional_field (R.decode_exact decode_message) empty_list_only a >>= λ message.
      delayed_messages_read_of rest >>= λ delayed_messages_read.
      ok record { message = message; delayed_messages_read = delayed_messages_read }

  unfoldable pub decode_with_metadata : Bytes → RlpResult (MessageWithMetadata × Bytes)
  decode_with_metadata buf = decode_list metadata_of_fields buf

  -- The length of an optional value, which is one byte where there is none.
  abbrev pub length_or_one : {A : Type 0} → (A → ℕ) → Option A → ℕ
  length_or_one length_of none = 1
  length_or_one length_of (some a) = length_of a

  abbrev pub encode_or : {A : Type 0} → Bytes → (A → Bytes) → Option A → Bytes
  encode_or nil encode none = nil
  encode_or nil encode (some a) = encode a

  abbrev pub header_payload_length : L1IncomingMessageHeader → ℕ
  header_payload_length h =
      R.u8.length_of h.kind
      + R.address.length_of h.poster
      + R.u64.length_of h.block_number
      + R.u64.length_of h.timestamp
      + length_or_one R.b256.length_of h.request_id
      + length_or_one R.u256.length_of h.l1_base_fee

  unfoldable pub header_length : L1IncomingMessageHeader → ℕ
  header_length h = R.length_of_length (header_payload_length h) + header_payload_length h

  -- What is written behind the header of the list, one after the other.
  abbrev pub header_items : L1IncomingMessageHeader → List Bytes
  header_items h =
      R.u8.encode h.kind
      ∷ R.address.encode h.poster
      ∷ R.u64.encode h.block_number
      ∷ R.u64.encode h.timestamp
      ∷ encode_or (R.list_header 0) R.b256.encode h.request_id
      ∷ encode_or (128 ∷ []) R.u256.encode h.l1_base_fee
      ∷ []

  unfoldable pub encode_header : L1IncomingMessageHeader → Bytes
  encode_header h = R.list_header (header_payload_length h) ++ joined (header_items h)

  abbrev pub stats_length : Option BatchDataStats → ℕ
  stats_length none = 0
  stats_length (some s) = R.stats.length_of s

  abbrev pub stats_items : Option BatchDataStats → List Bytes
  stats_items none = []
  stats_items (some s) = R.stats.encode s ∷ []

  abbrev pub optional_length : Option ℕ → Option BatchDataStats → ℕ
  optional_length cost stats =
      if is_some cost || is_some stats then length_or_one R.u64.length_of cost else 0

  unfoldable pub message_payload_length : L1IncomingMessage → ℕ
  unfolding header_length
  message_payload_length m =
      length_or_one header_length m.header
      + R.slice.length_of m.l2msg
      + optional_length m.legacy_batch_gas_cost m.batch_data_stats
      + stats_length m.batch_data_stats

  unfoldable pub message_length : L1IncomingMessage → ℕ
  message_length m = R.length_of_length (message_payload_length m) + message_payload_length m

  abbrev pub cost_items : Option ℕ → Option BatchDataStats → List Bytes
  cost_items cost stats =
      if is_some cost || is_some stats then encode_or (128 ∷ []) R.u64.encode cost ∷ [] else []

  abbrev pub message_items : L1IncomingMessage → List Bytes
  message_items m =
      encode_or (R.list_header 0) encode_header m.header
      ∷ R.slice.encode m.l2msg
      ∷ (cost_items m.legacy_batch_gas_cost m.batch_data_stats ++ stats_items m.batch_data_stats)

  unfoldable pub encode_message : L1IncomingMessage → Bytes
  encode_message m = R.list_header (message_payload_length m) ++ joined (message_items m)
