-- ===== src/Nitro/Rlp/RoundTrip.antt =====
-- rollups/nitro/types.rs: the lengths that are computed are those of the encodings, and what is encoded is
-- decoded again.
use mathlib.Core.Option.{map as option_map}
use mathlib.Core.List.{append-nil}
use chain_adjacent_service.Prelude.{
  subst, length, length-append, ok, ℕ, ◌<◌, ◌^◌, ◌≡◌, refl, sym, ap, ◌∙◌, Option, none, some, [],
  ◌∷◌, ◌++◌, arith,
}
use chain_adjacent_service.Prelude.Words.{Bytes, IsU64, All}
use chain_adjacent_service.Nitro.{L1IncomingMessageHeader, L1IncomingMessage}
use chain_adjacent_service.Nitro.Rlp.{
  list, Rlp, joined, header_of_fields, decode_header, length_or_one, encode_or,
  header_payload_length, header_length, header_items, encode_header,
}
use chain_adjacent_service.Nitro.Rlp.Laws.{
  IsItem, RlpLaws, codec-IsItem, list-IsItem, read_list_alone, decode_list_lem,
}
use chain_adjacent_service.Nitro.Rlp.Fields.{
  OptionAll, nonzero, length-joined, decode_optional_number, decode_request_id, number-IsItem,
  request_id-IsItem,
}

-- What the types of the fields say.
pub record HeaderFits (h : L1IncomingMessageHeader) : Type 0 where
  pub kind_fits : h.kind < 2 ^ 8
  pub poster_fits : h.poster < 2 ^ 160
  pub block_number_fits : IsU64 h.block_number
  pub timestamp_fits : IsU64 h.timestamp
  pub request_id_fits : OptionAll (λ n. n < 2 ^ 256) h.request_id
  pub l1_base_fee_fits : OptionAll (λ n. n < 2 ^ 256) h.l1_base_fee

abbrev pub normal_header : L1IncomingMessageHeader → L1IncomingMessageHeader
normal_header h = record h { l1_base_fee = nonzero h.l1_base_fee }

abbrev pub normal_message : L1IncomingMessage → L1IncomingMessage
normal_message m = record m {
  header = option_map normal_header m.header;
  legacy_batch_gas_cost = nonzero m.legacy_batch_gas_cost;
}

module _ (R : Rlp) (L : RlpLaws R) where
  pub record MessageFits (m : L1IncomingMessage) : Type 0 where
    pub header_fits : OptionAll HeaderFits m.header
    pub l2msg_fits : IsU64 (length m.l2msg)
    pub cost_fits : OptionAll IsU64 m.legacy_batch_gas_cost
    pub stats_fits : OptionAll L.StatsFits m.batch_data_stats

  pub length_or_one_lem :
      {A : Type 0} (length_of : A → ℕ) (encode : A → Bytes) (nil : Bytes) (o : Option A)
      → length nil ≡ 1
      → OptionAll (λ a. length_of a ≡ length (encode a)) o
      → length_or_one R length_of o ≡ length (encode_or R nil encode o)
  length_or_one_lem length_of encode nil none n h = sym n
  length_or_one_lem length_of encode nil (some a) n h = h

  pub OptionAll-imp :
      {A : Type 0} {P Q : A → Type 0} (o : Option A)
      → ((a : A) → P a → Q a)
      → OptionAll P o
      → OptionAll Q o
  OptionAll-imp none f h = tt
  OptionAll-imp (some a) f h = f a h

  header_payload_length_lem :
      (h : L1IncomingMessageHeader)
      → HeaderFits h
      → header_payload_length R h ≡ length (joined (header_items R h))
  header_payload_length_lem h fits = omega (
    arith,
    length-joined (header_items R h),
    L.u8_laws.measured h.kind fits.kind_fits,
    L.address_laws.measured h.poster fits.poster_fits,
    L.u64_laws.measured h.block_number fits.block_number_fits,
    L.u64_laws.measured h.timestamp fits.timestamp_fits,
    length_or_one_lem R.b256.length_of R.b256.encode (R.list_header 0) h.request_id
        L.empty_list_measured
        (OptionAll-imp h.request_id L.b256_laws.measured fits.request_id_fits),
    length_or_one_lem R.u256.length_of R.u256.encode (128 ∷ []) h.l1_base_fee refl
        (OptionAll-imp h.l1_base_fee L.u256_laws.measured fits.l1_base_fee_fits),
  )

  header_items-IsItem :
      (h : L1IncomingMessageHeader) → HeaderFits h → All (IsItem R) (header_items R h)
  header_items-IsItem h fits = (
    codec-IsItem R L ℕ R.u8 L.be (λ n. n < 2 ^ 8) h.kind L.u8_laws fits.kind_fits,
    (
      codec-IsItem R L ℕ R.address L.address_bytes (λ n. n < 2 ^ 160) h.poster L.address_laws
          fits.poster_fits,
      (
        codec-IsItem R L ℕ R.u64 L.be IsU64 h.block_number L.u64_laws fits.block_number_fits,
        (
          codec-IsItem R L ℕ R.u64 L.be IsU64 h.timestamp L.u64_laws fits.timestamp_fits,
          (
            request_id-IsItem R L h.request_id fits.request_id_fits,
            (
              number-IsItem R L R.u256 (λ n. n < 2 ^ 256) h.l1_base_fee L.u256_laws
                  fits.l1_base_fee_fits,
              tt,
            ),
          ),
        ),
      ),
    ),
  )

  header_of_fields-header_items :
      (h : L1IncomingMessageHeader)
      → HeaderFits h
      → header_of_fields R (header_items R h) ≡ ok (normal_header h)
  header_of_fields-header_items h fits =
      rw
        (
          L.u8_laws.decodes h.kind fits.kind_fits,
          L.address_laws.decodes h.poster fits.poster_fits,
          L.u64_laws.decodes h.block_number fits.block_number_fits,
          L.u64_laws.decodes h.timestamp fits.timestamp_fits,
          decode_request_id R L h.request_id fits.request_id_fits,
          decode_optional_number R L R.u256 (λ n. n < 2 ^ 256) h.l1_base_fee L.u256_laws
              fits.l1_base_fee_fits,
        )
        refl

  encode_header_lem :
      (h : L1IncomingMessageHeader)
      → HeaderFits h
      → encode_header R h
        ≡ R.list_header (length (joined (header_items R h))) ++ joined (header_items R h)
  unfolding encode_header
  encode_header_lem h fits =
      ap (λ n. R.list_header n ++ joined (header_items R h)) (header_payload_length_lem h fits)

  header_small :
      (h : L1IncomingMessageHeader)
      → HeaderFits h
      → IsU64 (length (encode_header R h))
      → IsU64 (length (joined (header_items R h)))
  header_small h fits small = omega (
    arith,
    small,
    ap length (encode_header_lem h fits),
    length-append (R.list_header (length (joined (header_items R h)))) (joined (header_items R h)),
  )

  pub header_length-encode_header :
      (h : L1IncomingMessageHeader)
      → HeaderFits h
      → IsU64 (length (encode_header R h))
      → header_length R h ≡ length (encode_header R h)
  unfolding header_length
  header_length-encode_header h fits small =
      let pl = header_payload_length_lem h fits in
      let items = header_items R h in
      omega (
        arith,
        pl,
        ap R.length_of_length pl,
        L.header_measured (length (joined items)) (header_small h fits small),
        ap length (encode_header_lem h fits),
        length-append (R.list_header (length (joined items))) (joined items),
      )

  pub decode_header-encode_header :
      (h : L1IncomingMessageHeader) (rest : Bytes)
      → HeaderFits h
      → IsU64 (length (encode_header R h))
      → decode_header R (encode_header R h ++ rest) ≡ ok (normal_header h, rest)
  unfolding decode_header
  decode_header-encode_header h rest fits small =
      ap (λ bs. decode_header R (bs ++ rest)) (encode_header_lem h fits)
      ∙ decode_list_lem R L (header_of_fields R) (header_items R h) rest (normal_header h)
          (header_items-IsItem h fits) (header_small h fits small)
          (header_of_fields-header_items h fits)

  pub header-IsItem :
      (h : L1IncomingMessageHeader)
      → HeaderFits h
      → IsU64 (length (encode_header R h))
      → IsItem R (encode_header R h)
  header-IsItem h fits small =
      subst (IsItem R) (sym (encode_header_lem h fits)) (
        list-IsItem R L (header_items R h) (header_items-IsItem h fits) (header_small h fits small))

  -- With nothing behind the header.
  pub decode_header_alone :
      (h : L1IncomingMessageHeader)
      → HeaderFits h
      → IsU64 (length (encode_header R h))
      → (R.decode_raw (encode_header R h) ≡ ok (list (header_items R h), []))
        × (decode_header R (encode_header R h) ≡ ok (normal_header h, []))
  decode_header_alone h fits small = (
    ap R.decode_raw (encode_header_lem h fits)
        ∙ read_list_alone R L (header_items R h) (header_items-IsItem h fits)
            (header_small h fits small),
    ap (decode_header R) (sym (append-nil (encode_header R h)))
        ∙ decode_header-encode_header h [] fits small,
  )
