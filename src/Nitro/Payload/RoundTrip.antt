-- ===== src/Nitro/Payload/RoundTrip.antt =====
-- rollups/nitro/nitro.rs: a payload of `build_espresso_tx_payload`, read by
-- `parse_nitro_hotshot_payload`.
use chain_adjacent_service.Prelude.{
  is_empty, ltb, length, length-append, take, drop, take-append-drop, length-drop, ok, ◌+◌, ◌≤◌,
  ◌<◌, ◌≡◌, refl, false, some, List, [], ◌∷◌, ◌++◌, arith,
}
use chain_adjacent_service.Prelude.Words.{Bytes, IsU64, to_be_bytes, length-to_be_bytes}
use chain_adjacent_service.Nitro.{BroadcastFeedMessage}
use chain_adjacent_service.Nitro.Payload.{
  v1, Json, NitroConfig, FeedMessageVerifier, with_len, fill, build_espresso_tx_payload,
  parse_nitro_hotshot_payload,
}
use chain_adjacent_service.Nitro.Payload.Parsing.{
  framed, behind_length, ltb-false, Reads, accepted, parse_messages-framed,
}
use chain_adjacent_service.Nitro.Payload.Filling.{written, sendable, ReadsBack, fill-Filled}

module _ (J : Json) where
  pub build_fill :
      (messages : List BroadcastFeedMessage) (h : Bytes)
      → J.header_to_vec v1 ≡ some h
      → build_espresso_tx_payload J messages
        ≡ ((fill J (with_len h) messages).0, drop (fill J (with_len h) messages).1 messages)
  unfolding build_espresso_tx_payload
  build_fill messages h e = rw (e, build_espresso_tx_payload) refl

  pub header_not_empty : (h : Bytes) → is_empty (with_len h) ≡ false
  header_not_empty h =
      nonempty (with_len h)
        (omega (arith, length-append (to_be_bytes (length h)) h, length-to_be_bytes (length h)))
    where
      nonempty : (xs : Bytes) → 0 < length xs → is_empty xs ≡ false
      nonempty [] p = absurd (omega arith)
      nonempty (x ∷ xs) p = refl

  pub parse_framed :
      (verify_signature : FeedMessageVerifier) (config : NitroConfig) (h : Bytes) (es : List Bytes)
      (ms : List BroadcastFeedMessage)
      → J.header_from_slice h ≡ some v1
      → IsU64 (length h)
      → Reads J es ms
      → parse_nitro_hotshot_payload J config (with_len h ++ framed es) verify_signature
        ≡ ok (accepted J verify_signature config ms)
  unfolding parse_nitro_hotshot_payload
  parse_framed verify_signature config h es ms read fits r =
      let xs = with_len h ++ framed es in
      let (long, size, mid, back) = behind_length xs h (framed es) refl fits in
      let t1 : ltb (length xs) 8 ≡ false = ltb-false (length xs) 8 (omega (arith, long)) in
      let t2 : ltb (length (drop 8 xs)) (length h) ≡ false =
        ltb-false _ (length h) (omega (arith, long, length-drop 8 xs)) in
      let body =
        parse_messages-framed J verify_signature config (length xs) es ms r
          (omega (arith, length-append (with_len h) (framed es))) in
      rw (t1, size, t2, mid, read, back, body) refl

  -- Where a header `h` can be written, `build_espresso_tx_payload` splits the messages in a front,
  -- which it has put in the payload, and the messages that are left. The payload is at most 900 KiB
  -- long if the header is not longer, and `parse_nitro_hotshot_payload` reads from it the messages of
  -- the front, less those that cannot be written and those whose signature is refused, in their order.
  pub parse-build_espresso_tx_payload :
      (verify_signature : FeedMessageVerifier) (config : NitroConfig)
      (messages : List BroadcastFeedMessage) (h : Bytes)
      → ReadsBack J
      → J.header_to_vec v1 ≡ some h
      → 8 + length h ≤ 921600
      → let (payload, left) = build_espresso_tx_payload J messages in
        (front : List BroadcastFeedMessage) × (front ++ left ≡ messages)
        × (length payload ≤ 921600)
        × (parse_nitro_hotshot_payload J config payload verify_signature
            ≡ ok (accepted J verify_signature config (sendable J front)))
  parse-build_espresso_tx_payload verify_signature config messages h back e size =
      let f = fill-Filled J (with_len h) messages (header_not_empty h) in
      let n = (fill J (with_len h) messages).1 in
      let wide : length (with_len h) ≤ 921600 =
        omega (arith, length-append (to_be_bytes (length h)) h, length-to_be_bytes (length h)) in
      rw (build_fill messages h e) (
        take n messages,
        take-append-drop n messages,
        f.size_bound wide,
        rw f.content (
            parse_framed verify_signature config h (written J (take n messages))
              (sendable J (take n messages)) (back.0 h e) (omega (arith, size)) (f.reads back)),
      )
