-- ===== src/Nitro/Hotshot/Authentic.antt =====
-- rollups/nitro/nitro.rs: the entries of HotShot transactions are signed, and stand at the height of
-- their block.
use chain_adjacent_service.Prelude.{
  ltb, ◌==◌, Bool-cases, Option-cases, length, take, drop, ok, err, guard, ok_or, Result-cases,
  bind_ok, guard_ok, not_both, ok-injective, ℕ, zero, suc, ◌≡◌, refl, sym, subst, ◌⊎◌, inl, inr,
  true, false, not, Option, none, some, List, [], ◌∷◌, arith,
}
use chain_adjacent_service.Prelude.Words.{Bytes, All, from_be_bytes}
use chain_adjacent_service.BtreeMap.{member}
use chain_adjacent_service.Crypto.{Crypto}
use chain_adjacent_service.Nitro.{
  L1IncomingMessage, MessageWithMetadata, BroadcastFeedMessage, NitroRollupQueueEntry,
}
use chain_adjacent_service.Nitro.Payload.{
  Json, NitroConfig, is_v1, PayloadError, too_short_to_parse_header_size, too_short_to_parse_header,
  failed_to_parse_header, unsupported_header_version, too_short_to_parse_message_size,
  too_short_to_parse_message, failed_to_parse_message, out_of_fuel, parse_messages,
  parse_nitro_hotshot_payload,
}
use chain_adjacent_service.Nitro.Signature.{
  signer_is_not_valid, recover_signer_address, signature_hash,
  verify_broadcast_feed_message_signature,
}
use chain_adjacent_service.Nitro.Hotshot.{
  LegacyParsedNitroEspressoTransaction, parse_legacy_payload_bytes, legacy_entry, legacy_entries,
  legacy_parse_nitro_hotshot_payload, verifier, entries_at, parse_transaction,
}

module _ (C : Crypto) (J : Json) (rlp_encode : L1IncomingMessage → Bytes)
    (rlp_decode : Bytes → Option MessageWithMetadata) (config : NitroConfig) where
  -- The entry has a signature of a trusted sequencer over the fields of its message.
  abbrev pub SequencerSigned : NitroRollupQueueEntry → Type 0
  SequencerSigned e =
      (hash : ℕ) × (signer : ℕ) × (signature_hash C rlp_encode e.feed_message config.chain_id
        ≡ ok hash)
      × (recover_signer_address C hash e.feed_message.signature ≡ ok signer)
      × (member signer config.trusted_sequencer_addresses ≡ true)

  -- The payload parses, with a signature of a legacy signer over the rest of it.
  abbrev pub SignedPayload : Bytes → LegacyParsedNitroEspressoTransaction → Type 0
  SignedPayload payload parsed =
      (signer : ℕ) × (parse_legacy_payload_bytes C payload ≡ ok parsed)
      × (recover_signer_address C parsed.messages_hash parsed.signature ≡ ok signer)
      × (member signer config.legacy_signer_addresses ≡ true)

  -- The index and the message stand at one place of the two lists.
  abbrev pub Carries : ℕ → Bytes → List ℕ → List Bytes → Type 0
  Carries index bytes [] messages = ⊥
  Carries index bytes (i ∷ is) [] = ⊥
  Carries index bytes (i ∷ is) (m ∷ ms) = ((index ≡ i) × (bytes ≡ m)) ⊎ Carries index bytes is ms

  -- The message of the entry, with its sequence number as the index, is in a payload that a legacy
  -- signer has signed.
  abbrev pub LegacySigned : Bytes → NitroRollupQueueEntry → Type 0
  LegacySigned payload e =
      (parsed : LegacyParsedNitroEspressoTransaction) × SignedPayload payload parsed
      × ((bytes : Bytes) × Carries e.feed_message.sequence_number bytes parsed.indices
            parsed.messages
          × (rlp_decode bytes ≡ some e.feed_message.message))

  -- What holds of an entry that was read from a payload at a height.
  abbrev pub Authentic : ℕ → Bytes → NitroRollupQueueEntry → Type 0
  Authentic height payload e =
      (e.hotshot_height ≡ height) × (SequencerSigned e ⊎ LegacySigned payload e)

  verified_message :
      (msg : BroadcastFeedMessage) (height : ℕ)
      → verifier C rlp_encode config.chain_id config.trusted_sequencer_addresses msg ≡ true
      → SequencerSigned record { feed_message = msg; hotshot_height = height }
  unfolding verify_broadcast_feed_message_signature
  verified_message msg height h =
      elim (Result-cases (
        verify_broadcast_feed_message_signature C rlp_encode config.chain_id
          config.trusted_sequencer_addresses msg)) [
            | inr (e, g) ↦ absurd (falsified (rw (g, verifier) at h))
            | inl (u, g) ↦
                let (hash, a, h1) = bind_ok (signature_hash C rlp_encode msg config.chain_id) g in
                let (signer, b, h2) = bind_ok (recover_signer_address C hash msg.signature) h1 in
                (
                  hash,
                  signer,
                  a,
                  b,
                  guard_ok (member signer config.trusted_sequencer_addresses) signer_is_not_valid
                      h2,
                )
          ]
    where
      falsified : false ≡ true → ⊥
      falsified e = ground arith

  -- What the payload parser lets through.
  accepted_messages :
      (fuel : ℕ) (bs : Bytes) (ms : List BroadcastFeedMessage) (height : ℕ)
      → parse_messages J (verifier C rlp_encode) config fuel bs ≡ ok ms
      → All SequencerSigned (entries_at C height ms)
  unfolding parse_messages
  accepted_messages fuel [] ms height h =
      subst (λ l. All SequencerSigned (entries_at C height l)) (ok-injective {E = PayloadError} h)
        tt
  accepted_messages zero (b ∷ bs) ms height h = not_both {e = out_of_fuel} {a = ms} h
  accepted_messages (suc fuel) (b ∷ bs) ms height h =
      let (u, e0, h0) =
        bind_ok (guard (not (ltb (length (b ∷ bs)) 8)) too_short_to_parse_message_size) h in
      let size = from_be_bytes (take 8 (b ∷ bs)) in
      let rest = drop 8 (b ∷ bs) in
      let (u1, e1, h1) =
        bind_ok (guard (not (ltb (length rest) size)) too_short_to_parse_message) h0 in
      let (m, e2, h2) =
        bind_ok (ok_or (J.message_from_slice (take size rest)) failed_to_parse_message) h1 in
      let (later, e3, h3) =
        bind_ok (parse_messages J (verifier C rlp_encode) config fuel (drop size rest)) h2 in
      let below = accepted_messages fuel (drop size rest) later height e3 in
      elim (Bool-cases
        (verifier C rlp_encode config.chain_id config.trusted_sequencer_addresses m)) [
          | inl t ↦
              subst (λ l. All SequencerSigned (entries_at C height l))
                (ok-injective {E = PayloadError} (rw t at h3)) (verified_message m height t, below)
          | inr t ↦
              subst (λ l. All SequencerSigned (entries_at C height l))
                (ok-injective {E = PayloadError} (rw t at h3)) below
        ]

  accepted_payload :
      (payload : Bytes) (ms : List BroadcastFeedMessage) (height : ℕ)
      → parse_nitro_hotshot_payload J config payload (verifier C rlp_encode) ≡ ok ms
      → All SequencerSigned (entries_at C height ms)
  unfolding parse_nitro_hotshot_payload
  accepted_payload payload ms height h =
      let (u, e0, h0) =
        bind_ok (guard (not (ltb (length payload) 8)) too_short_to_parse_header_size) h in
      let size = from_be_bytes (take 8 payload) in
      let rest = drop 8 payload in
      let (u1, e1, h1) =
        bind_ok (guard (not (ltb (length rest) size)) too_short_to_parse_header) h0 in
      let (header, e2, h2) =
        bind_ok (ok_or (J.header_from_slice (take size rest)) failed_to_parse_header) h1 in
      let (u3, e3, h3) = bind_ok (guard (is_v1 header) unsupported_header_version) h2 in
      accepted_messages (length payload) (drop size rest) ms height h3

  legacy_skip :
      (height i : ℕ) (is : List ℕ) (m : Bytes) (ms : List Bytes)
      → rlp_decode m ≡ none
      → legacy_entries C rlp_decode height (i ∷ is) (m ∷ ms)
        ≡ legacy_entries C rlp_decode height is ms
  unfolding legacy_entries
  legacy_skip height i is m ms e = rw (e, legacy_entries) refl

  legacy_keep :
      (height i : ℕ) (is : List ℕ) (m : Bytes) (ms : List Bytes) (msg : MessageWithMetadata)
      → rlp_decode m ≡ some msg
      → legacy_entries C rlp_decode height (i ∷ is) (m ∷ ms)
        ≡ legacy_entry C i msg height ∷ legacy_entries C rlp_decode height is ms
  unfolding legacy_entries
  legacy_keep height i is m ms msg e = rw (e, legacy_entries) refl

  legacy_entries-Authentic :
      (payload : Bytes) (height : ℕ) (parsed : LegacyParsedNitroEspressoTransaction) (is : List ℕ)
      (msgs : List Bytes)
      → SignedPayload payload parsed
      → ((i : ℕ) (m : Bytes) → Carries i m is msgs → Carries i m parsed.indices parsed.messages)
      → All (Authentic height payload) (legacy_entries C rlp_decode height is msgs)
  unfolding legacy_entries
  legacy_entries-Authentic payload height parsed [] msgs s lift = tt
  legacy_entries-Authentic payload height parsed (i ∷ is) [] s lift = tt
  legacy_entries-Authentic payload height parsed (i ∷ is) (m ∷ ms) s lift =
      let later =
        legacy_entries-Authentic payload height parsed is ms s (λ j x c. lift j x (inr c)) in
      elim (Option-cases (rlp_decode m)) [
        | inl e ↦
            subst (All (Authentic height payload)) (sym (legacy_skip height i is m ms e)) later
        | inr (msg, e) ↦
            subst (All (Authentic height payload)) (sym (legacy_keep height i is m ms msg e))
              ((refl, inr (parsed, s, (m, lift i m (inl (refl, refl)), e))), later)
      ]

  legacy_outcome :
      (payload : Bytes) (height : ℕ)
      → (legacy_parse_nitro_hotshot_payload C rlp_decode config payload height ≡ [])
        ⊎ ((parsed : LegacyParsedNitroEspressoTransaction) × SignedPayload payload parsed
            × (legacy_parse_nitro_hotshot_payload C rlp_decode config payload height
                ≡ legacy_entries C rlp_decode height parsed.indices parsed.messages))
  unfolding legacy_parse_nitro_hotshot_payload
  legacy_outcome payload height = elim (Result-cases (parse_legacy_payload_bytes C payload)) [
    | inr (e, g) ↦ inl (rw (g, legacy_parse_nitro_hotshot_payload) refl)
    | inl (p, g) ↦ elim (Result-cases (recover_signer_address C p.messages_hash p.signature)) [
      | inr (e, k) ↦ inl (rw (g, k, legacy_parse_nitro_hotshot_payload) refl)
      | inl (signer, k) ↦ elim (Bool-cases (member signer config.legacy_signer_addresses)) [
        | inr m ↦ inl (rw (g, k, m, legacy_parse_nitro_hotshot_payload) refl)
        | inl m ↦ elim (Bool-cases (length p.indices == length p.messages)) [
          | inr l ↦ inl (rw (g, k, m, l, legacy_parse_nitro_hotshot_payload) refl)
          | inl l ↦
              inr (p, (signer, g, k, m), rw (g, k, m, l, legacy_parse_nitro_hotshot_payload) refl)
        ]
      ]
    ]
  ]

  legacy_read :
      (payload : Bytes) (height : ℕ)
      → All
          (Authentic height payload)
          (legacy_parse_nitro_hotshot_payload C rlp_decode config payload height)
  legacy_read payload height = elim (legacy_outcome payload height) [
    | inl e ↦ subst (All (Authentic height payload)) (sym e) tt
    | inr (parsed, signed, e) ↦ subst (All (Authentic height payload)) (sym e) (
        legacy_entries-Authentic payload height parsed parsed.indices parsed.messages signed
          (λ i m c. c))
  ]

  tx_v1 :
      (height : ℕ) (payload : Bytes) (ms : List BroadcastFeedMessage)
      → parse_nitro_hotshot_payload J config payload (verifier C rlp_encode) ≡ ok ms
      → parse_transaction C J rlp_encode rlp_decode config height payload ≡ entries_at C height ms
  unfolding parse_transaction
  tx_v1 height payload ms e = rw (e, parse_transaction) refl

  tx_legacy :
      (height : ℕ) (payload : Bytes) (f : PayloadError)
      → parse_nitro_hotshot_payload J config payload (verifier C rlp_encode) ≡ err f
      → parse_transaction C J rlp_encode rlp_decode config height payload
        ≡ legacy_parse_nitro_hotshot_payload C rlp_decode config payload height
  unfolding parse_transaction
  tx_legacy height payload f e = rw (e, parse_transaction) refl

  at_height :
      (payload : Bytes) (height : ℕ) (ms : List BroadcastFeedMessage)
      → All SequencerSigned (entries_at C height ms)
      → All (Authentic height payload) (entries_at C height ms)
  at_height payload height [] h = tt
  at_height payload height (m ∷ ms) h = ((refl, inl h.0), at_height payload height ms h.1)

  -- Each entry that `parse_transaction` reads from the payload of a transaction stands at the height
  -- of the block, and is signed: either a trusted sequencer has signed its message, or its message and
  -- its sequence number are in the payload, which a legacy signer has signed.
  pub parse_transaction-Authentic :
      (height : ℕ) (payload : Bytes)
      → All
          (Authentic height payload)
          (parse_transaction C J rlp_encode rlp_decode config height payload)
  parse_transaction-Authentic height payload =
      elim (Result-cases (parse_nitro_hotshot_payload J config payload (verifier C rlp_encode))) [
        | inl (ms, e) ↦
            subst (All (Authentic height payload)) (sym (tx_v1 height payload ms e))
              (at_height payload height ms (accepted_payload payload ms height e))
        | inr (f, e) ↦
            subst (All (Authentic height payload)) (sym (tx_legacy height payload f e))
              (legacy_read payload height)
      ]
