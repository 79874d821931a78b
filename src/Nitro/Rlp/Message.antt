-- ===== src/Nitro/Rlp/Message.antt =====
-- rollups/nitro/types.rs: the round trip of a whole message, and of the bytes with its metadata.
use chain_adjacent_service.Prelude.{
  length, length-append, ok, ◌>>=◌, ℕ, ◌+◌, ◌≡◌, refl, sym, ap, subst, ◌∙◌, Option, none, some,
  List, [], ◌∷◌, ◌++◌, arith,
}
use mathlib.Core.Option.{map as option_map}
use mathlib.Core.List.{append-nil}
use chain_adjacent_service.Prelude.Words.{Bytes, IsU64, All}
use chain_adjacent_service.Nitro.{
  L1IncomingMessageHeader, BatchDataStats, L1IncomingMessage, MessageWithMetadata,
}
use chain_adjacent_service.Nitro.Rlp.{
  list, Rlp, joined, empty_list_only, field_view, decode_optional_field, decode_header,
  message_of_fields, decode_message, metadata_of_fields, decode_with_metadata, encode_or,
  header_length, header_items, encode_header, stats_length, stats_items, message_payload_length,
  message_length, cost_items, message_items, encode_message, optional_length,
}
use chain_adjacent_service.Nitro.Rlp.Laws.{
  IsItem, RlpLaws, codec-IsItem, string-IsItem, list-IsItem, nil_list-IsItem, read_list_alone,
  read_nil_list, decode_list_lem,
}
use chain_adjacent_service.Nitro.Rlp.Fields.{
  OptionAll, total, length-joined, field_view_list, decode_cost, decode_batch_data_stats,
  tail-IsItem,
}
use chain_adjacent_service.Nitro.Rlp.RoundTrip.{
  HeaderFits, normal_header, normal_message, MessageFits, length_or_one_lem, header-IsItem,
  header_length-encode_header, decode_header_alone,
}

module _ (R : Rlp) (L : RlpLaws R) where
  -- The encoding of a header that is there is small.
  abbrev pub HeaderSmall : Option L1IncomingMessageHeader → Type 0
  HeaderSmall o = OptionAll (λ h. IsU64 (length (encode_header R h))) o

  tail_length_lem :
      (cost : Option ℕ) (stats : Option BatchDataStats)
      → OptionAll IsU64 cost
      → OptionAll L.StatsFits stats
      → optional_length R cost stats + stats_length R stats
        ≡ total (cost_items R cost stats ++ stats_items R stats)
  tail_length_lem none none h k = refl
  tail_length_lem none (some s) h k = omega (arith, L.stats_measured s k)
  tail_length_lem (some c) none h k = omega (arith, L.u64_laws.measured c h)
  tail_length_lem (some c) (some s) h k =
      omega (arith, L.u64_laws.measured c h, L.stats_measured s k)

  header_measured_or_one :
      (o : Option L1IncomingMessageHeader)
      → OptionAll HeaderFits o
      → HeaderSmall o
      → OptionAll (λ h. header_length R h ≡ length (encode_header R h)) o
  header_measured_or_one none f s = tt
  header_measured_or_one (some h) f s = header_length-encode_header R L h f s

  optional_header-IsItem :
      (o : Option L1IncomingMessageHeader)
      → OptionAll HeaderFits o
      → HeaderSmall o
      → IsItem R (encode_or R (R.list_header 0) (encode_header R) o)
  optional_header-IsItem none f s = nil_list-IsItem R L
  optional_header-IsItem (some h) f s = header-IsItem R L h f s

  decode_header_or_none :
      (o : Option L1IncomingMessageHeader)
      → OptionAll HeaderFits o
      → HeaderSmall o
      → decode_optional_field R
          (R.decode_exact (decode_header R))
          empty_list_only
          (encode_or R (R.list_header 0) (encode_header R) o)
        ≡ ok (option_map normal_header o)
  decode_header_or_none none f s = rw (read_nil_list R L) refl
  decode_header_or_none (some h) f s =
      let (raw, whole) = decode_header_alone R L h f s in
      ap
        (λ r. r >>= λ x.
          field_view empty_list_only (R.decode_exact (decode_header R)) (encode_header R h) x.0)
        raw
      ∙ field_view_list (R.decode_exact (decode_header R)) (encode_header R h) (header_items R h)
          (normal_header h) refl
          (L.exact (decode_header R) (encode_header R h) (normal_header h) whole)

  encoding_small :
      (m : L1IncomingMessage)
      → IsU64 (length (encode_message R m))
      → IsU64 (length (joined (message_items R m)))
  unfolding encode_message
  encoding_small m small = omega (
    arith,
    small,
    length-append (R.list_header (message_payload_length R m)) (joined (message_items R m)),
  )

  header-HeaderSmall :
      (m : L1IncomingMessage) → IsU64 (length (encode_message R m)) → HeaderSmall m.header
  header-HeaderSmall m small =
      inside m.header (omega (arith, encoding_small m small, length-joined (message_items R m)))
    where
      inside :
          (o : Option L1IncomingMessageHeader)
          → IsU64 (length (encode_or R (R.list_header 0) (encode_header R) o))
          → HeaderSmall o
      inside none h = tt
      inside (some h) k = k

  message_payload_length_lem :
      (m : L1IncomingMessage)
      → MessageFits R L m
      → HeaderSmall m.header
      → message_payload_length R m ≡ length (joined (message_items R m))
  unfolding message_payload_length
  message_payload_length_lem m fits small = omega (
    arith,
    length-joined (message_items R m),
    length_or_one_lem R L (header_length R) (encode_header R) (R.list_header 0) m.header
        L.empty_list_measured (header_measured_or_one m.header fits.header_fits small),
    L.slice_laws.measured m.l2msg fits.l2msg_fits,
    tail_length_lem m.legacy_batch_gas_cost m.batch_data_stats fits.cost_fits fits.stats_fits,
  )

  encode_message_lem :
      (m : L1IncomingMessage)
      → MessageFits R L m
      → HeaderSmall m.header
      → encode_message R m
        ≡ R.list_header (length (joined (message_items R m))) ++ joined (message_items R m)
  unfolding encode_message
  encode_message_lem m fits small =
      ap (λ n. R.list_header n ++ joined (message_items R m))
        (message_payload_length_lem m fits small)

  message_items-IsItem :
      (m : L1IncomingMessage)
      → MessageFits R L m
      → HeaderSmall m.header
      → All (IsItem R) (message_items R m)
  message_items-IsItem m fits small = (
    optional_header-IsItem m.header fits.header_fits small,
    (
      string-IsItem R L m.l2msg fits.l2msg_fits,
      tail-IsItem R L m.legacy_batch_gas_cost m.batch_data_stats fits.cost_fits fits.stats_fits,
    ),
  )

  message_of_fields-message_items :
      (m : L1IncomingMessage)
      → MessageFits R L m
      → HeaderSmall m.header
      → message_of_fields R (message_items R m) ≡ ok (normal_message m)
  message_of_fields-message_items m fits small =
      rw
        (
          decode_header_or_none m.header fits.header_fits small,
          L.slice_laws.decodes m.l2msg fits.l2msg_fits,
          decode_cost R L m.legacy_batch_gas_cost m.batch_data_stats fits.cost_fits,
          decode_batch_data_stats R L m.legacy_batch_gas_cost m.batch_data_stats fits.stats_fits,
        )
        refl

  -- A message whose fields fit their types, with an encoding shorter than `2 ^ 64`: `length` gives the
  -- length of the encoding, and `decode` reads the message back from in front of any other bytes, except
  -- that a base fee or a gas cost of zero is read back as missing.
  pub decode_message-encode_message :
      (m : L1IncomingMessage) (rest : Bytes)
      → MessageFits R L m
      → IsU64 (length (encode_message R m))
      → (message_length R m ≡ length (encode_message R m))
        × (decode_message R (encode_message R m ++ rest) ≡ ok (normal_message m, rest))
  unfolding message_length decode_message
  decode_message-encode_message m rest fits small =
      let s = header-HeaderSmall m small in
      let items = message_items R m in
      let pl = message_payload_length_lem m fits s in
      let same = encode_message_lem m fits s in
      (
        omega (
          arith,
          pl,
          ap R.length_of_length pl,
          L.header_measured (length (joined items)) (encoding_small m small),
          ap length same,
          length-append (R.list_header (length (joined items))) (joined items),
        ),
        ap (λ bs. decode_message R (bs ++ rest)) same
            ∙ decode_list_lem R L (message_of_fields R) items rest (normal_message m)
                (message_items-IsItem m fits s) (encoding_small m small)
                (message_of_fields-message_items m fits s),
      )

  message_alone :
      (m : L1IncomingMessage)
      → MessageFits R L m
      → IsU64 (length (encode_message R m))
      → R.decode_raw (encode_message R m) ≡ ok (list (message_items R m), [])
  message_alone m fits small =
      let s = header-HeaderSmall m small in
      ap R.decode_raw (encode_message_lem m fits s)
      ∙ read_list_alone R L (message_items R m) (message_items-IsItem m fits s)
          (encoding_small m small)

  abbrev pub MessageSmall : Option L1IncomingMessage → Type 0
  MessageSmall o = OptionAll (λ m. IsU64 (length (encode_message R m))) o

  message_or_none :
      (o : Option L1IncomingMessage)
      → OptionAll (MessageFits R L) o
      → MessageSmall o
      → (IsItem R (encode_or R (R.list_header 0) (encode_message R) o))
        × (decode_optional_field R
              (R.decode_exact (decode_message R))
              empty_list_only
              (encode_or R (R.list_header 0) (encode_message R) o)
            ≡ ok (option_map normal_message o))
  message_or_none none f s = (nil_list-IsItem R L, rw (read_nil_list R L) refl)
  message_or_none (some m) f s =
      let h = header-HeaderSmall m s in
      (
        subst (IsItem R) (sym (encode_message_lem m f h))
            (list-IsItem R L (message_items R m) (message_items-IsItem m f h) (encoding_small m s)),
        ap
              (λ r. r >>= λ x.
                field_view empty_list_only (R.decode_exact (decode_message R)) (encode_message R m)
                  x.0)
              (message_alone m f s)
            ∙ field_view_list (R.decode_exact (decode_message R)) (encode_message R m)
                (message_items R m) (normal_message m) refl
                (L.exact (decode_message R) (encode_message R m) (normal_message m) (
                  ap (decode_message R) (sym (append-nil (encode_message R m)))
                  ∙ (decode_message-encode_message m [] f s).1)),
      )

  -- The list of a message, which may be missing, and its count of delayed messages.
  abbrev pub metadata_items : MessageWithMetadata → List Bytes
  metadata_items w =
      encode_or R (R.list_header 0) (encode_message R) w.message
      ∷ R.u64.encode w.delayed_messages_read
      ∷ []

  -- `decode` of a message with metadata reads the list of the two back.
  pub decode_with_metadata-metadata_items :
      (w : MessageWithMetadata) (rest : Bytes)
      → OptionAll (MessageFits R L) w.message
      → MessageSmall w.message
      → IsU64 w.delayed_messages_read
      → IsU64 (length (joined (metadata_items w)))
      → decode_with_metadata R (
          (R.list_header (length (joined (metadata_items w))) ++ joined (metadata_items w)) ++ rest)
        ≡ ok (record w { message = option_map normal_message w.message }, rest)
  unfolding decode_with_metadata
  decode_with_metadata-metadata_items w rest fits small count whole =
      let (item, read) = message_or_none w.message fits small in
      decode_list_lem R L (metadata_of_fields R) (metadata_items w) rest
        (record w { message = option_map normal_message w.message })
        (item, (codec-IsItem R L ℕ R.u64 L.be IsU64 w.delayed_messages_read L.u64_laws count, tt))
        whole (rw (read, L.u64_laws.decodes w.delayed_messages_read count) refl)
