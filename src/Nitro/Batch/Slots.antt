-- ===== src/Nitro/Batch/Slots.antt =====
-- rollups/nitro/batch_parsing.rs: the messages of a batch are the ones that a replay of its segments
-- counts.
use chain_adjacent_service.Prelude.{
  ltb, ◌==◌, if◌then◌else◌, ltb→lt, ==_iff, Bool-cases, Option-cases, length, ok, Result-cases,
  bind_ok, not_both, ok-injective, ℕ, zero, suc, ◌+◌, ◌≤◌, ◌<◌, ◌≡◌, ap, subst, inl, inr, true,
  ◌||◌, Option, some, List, [], ◌∷◌, arith,
}
use chain_adjacent_service.Prelude.Words.{Bytes}
use chain_adjacent_service.Nitro.{BatchMessage, l2_msg, delayed_msg}
use chain_adjacent_service.Nitro.Batch.{
  BatchError, empty_sequencer_message, too_many_segments, error_parsing_segment,
  unsupported_header_byte, unknown_segment_kind, input_too_short, other, Codecs, push_if,
  decompress, decode_segments, convert_segment, convert_segments, parse_batch,
}

module _ (C : Codecs) where
  -- The message slots that a replay of the segments counts: each segment takes one, one that cannot
  -- be read too, unless it is empty or only advances the timestamp or the block number.
  abbrev pub slots : List Bytes → ℕ
  slots [] = 0
  slots ([] ∷ segments) = slots segments
  slots ((kind ∷ content) ∷ segments) =
      if kind == 3 || kind == 4 then slots segments else suc (slots segments)

  -- The messages of the segments, in their order, none of a kind that is not known.
  pub data Replays : List Bytes → List BatchMessage → Type 0 where
    done : Replays [] []
    blank :
        {segments : List Bytes} {ms : List BatchMessage}
        → Replays segments ms
        → Replays ([] ∷ segments) ms
    plain :
        {kind : ℕ} {content : Bytes} {segments : List Bytes} {ms : List BatchMessage}
        → kind ≡ 0
        → Replays segments ms
        → Replays ((kind ∷ content) ∷ segments) (l2_msg content ∷ ms)
    compressed :
        {kind : ℕ} {content message : Bytes} {segments : List Bytes} {ms : List BatchMessage}
        → kind ≡ 1
        → C.read_decompressed content 262145 ≡ some message
        → length message ≤ 262144
        → Replays segments ms
        → Replays ((kind ∷ content) ∷ segments) (l2_msg message ∷ ms)
    delayed_segment :
        {kind : ℕ} {content : Bytes} {segments : List Bytes} {ms : List BatchMessage}
        → kind ≡ 2
        → Replays segments ms
        → Replays ((kind ∷ content) ∷ segments) (delayed_msg ∷ ms)
    advance :
        {kind : ℕ} {content : Bytes} {segments : List Bytes} {ms : List BatchMessage}
        → (kind == 3 || kind == 4) ≡ true
        → Replays segments ms
        → Replays ((kind ∷ content) ∷ segments) ms

  decompress_ok :
      (input out : Bytes) (n : ℕ)
      → decompress C input n ≡ ok out
      → (C.read_decompressed input (n + 1) ≡ some out) × (length out ≤ n)
  unfolding decompress
  decompress_ok input out n h = elim (Option-cases (C.read_decompressed input (n + 1))) [
    | inl e ↦ absurd (ground arith)
    | inr (o, e) ↦ ground arith
  ]

  convert_one :
      (kind : ℕ) (content : Bytes) (m : Option BatchMessage) (segments : List Bytes)
      (ms : List BatchMessage)
      → convert_segment C kind content ≡ ok m
      → Replays segments ms
      → Replays ((kind ∷ content) ∷ segments) (push_if m ms)
  unfolding convert_segment
  convert_one kind content m segments ms h r =
      let to =
        λ (m' : Option BatchMessage). Replays ((kind ∷ content) ∷ segments) (push_if m' ms) in
      elim (Bool-cases (kind == 0)) [
        | inl e0 ↦
            subst to (ok-injective {E = BatchError} (rw e0 at h)) (plain ((==_iff kind 0).0 e0) r)
        | inr e0 ↦ elim (Bool-cases (kind == 1)) [
          | inl e1 ↦
              let (out, e, k) = bind_ok (decompress C content 262144) (rw e1 at (rw e0 at h)) in
              let (read, bound) = decompress_ok content out 262144 e in
              subst to (ok-injective {E = BatchError} k)
                (compressed ((==_iff kind 1).0 e1) read bound r)
          | inr e1 ↦ elim (Bool-cases (kind == 2)) [
            | inl e2 ↦
                subst to (ok-injective {E = BatchError} (rw e2 at (rw e1 at (rw e0 at h))))
                  (delayed_segment ((==_iff kind 2).0 e2) r)
            | inr e2 ↦ elim (Bool-cases (kind == 3 || kind == 4)) [
              | inl e3 ↦
                  subst to
                    (ok-injective {E = BatchError} (rw e3 at (rw e2 at (rw e1 at (rw e0 at h)))))
                    (advance e3 r)
              | inr e3 ↦
                  not_both {e = unknown_segment_kind kind} {a = m}
                    (rw e3 at (rw e2 at (rw e1 at (rw e0 at h))))
            ]
          ]
        ]
      ]

  convert_segments-Replays :
      (segments : List Bytes) (ms : List BatchMessage)
      → convert_segments C segments ≡ ok ms
      → Replays segments ms
  unfolding convert_segments
  convert_segments-Replays [] ms h = subst (Replays []) (ok-injective {E = BatchError} h) done
  convert_segments-Replays ([] ∷ segments) ms h = blank (convert_segments-Replays segments ms h)
  convert_segments-Replays ((kind ∷ content) ∷ segments) ms h =
      let (m, e, h1) = bind_ok (convert_segment C kind content) h in
      let (rest, e', h2) = bind_ok (convert_segments C segments) h1 in
      subst (Replays ((kind ∷ content) ∷ segments)) (ok-injective {E = BatchError} h2)
        (convert_one kind content m segments rest e (convert_segments-Replays segments rest e'))

  counted :
      (kind n m : ℕ) → kind < 3 → n ≡ m → suc n ≡ (if kind == 3 || kind == 4 then m else suc m)
  counted kind n m l e = ground arith

  Replays_slots :
      {segments : List Bytes} {ms : List BatchMessage}
      → Replays segments ms
      → length ms ≡ slots segments
  Replays_slots done = omega arith
  Replays_slots (blank r) = Replays_slots r
  Replays_slots (plain {kind} k r) = counted kind _ _ (omega (arith, k)) (Replays_slots r)
  Replays_slots (compressed {kind} k e l r) = counted kind _ _ (omega (arith, k)) (Replays_slots r)
  Replays_slots (delayed_segment {kind} k r) = counted kind _ _ (omega (arith, k)) (Replays_slots r)
  Replays_slots (advance k r) = rw k (Replays_slots r)

  decode_segments_bound :
      (fuel count : ℕ) (buf : Bytes) (segments : List Bytes)
      → count ≤ 102400
      → decode_segments C fuel count buf ≡ ok segments
      → count + length segments ≤ 102400
  unfolding decode_segments
  decode_segments_bound fuel count [] segments l h =
      let e : [] ≡ segments = ok-injective {E = BatchError} h in omega (arith, l, ap length e)
  decode_segments_bound zero count (b ∷ bs) segments l h =
      not_both {e = BatchError.out_of_fuel} {a = segments} h
  decode_segments_bound (suc fuel) count (b ∷ bs) segments l h =
      elim (Bool-cases (ltb count 102400)) [
        | inr e ↦ not_both {e = too_many_segments} {a = segments} (rw e at h)
        | inl e ↦ elim (Result-cases (C.decode_bytes (b ∷ bs))) [
          | inl (decoded, g) ↦
              let (rest, k, same) =
                bind_ok (decode_segments C fuel (suc count) decoded.1) (rw g at (rw e at h)) in
              let below =
                decode_segments_bound fuel (suc count) decoded.1 rest (ltb→lt count 102400 e) k in
              omega (arith, below, ap length (ok-injective {E = BatchError} same))
          | inr (input_too_short, g) ↦
              let same : [] ≡ segments = ok-injective {E = BatchError} (rw g at (rw e at h)) in
              omega (arith, l, ap length same)
          | inr (other, g) ↦
              not_both {e = error_parsing_segment} {a = segments} (rw g at (rw e at h))
        ]
      ]

  -- The invariant of the module: when `parse_batch` succeeds, the batch starts with the brotli header
  -- byte, it holds at most `max_segments` segments, and the messages are those of the segments in
  -- their order, exactly as many as a replay counts.
  pub parse_batch-Replays :
      (batch_content : Bytes) (ms : List BatchMessage)
      → parse_batch C batch_content ≡ ok ms
      → (payload segment_data : Bytes) × (segments : List Bytes) × (batch_content ≡ 0 ∷ payload)
        × (decompress C payload 16777216 ≡ ok segment_data)
        × (decode_segments C (length segment_data) 0 segment_data ≡ ok segments)
        × (length segments ≤ 102400)
        × Replays segments ms
        × (length ms ≡ slots segments)
  unfolding parse_batch
  parse_batch-Replays [] ms h = not_both {e = empty_sequencer_message} {a = ms} h
  parse_batch-Replays (header ∷ payload) ms h = elim (Bool-cases (header == 0)) [
    | inr e ↦ not_both {e = unsupported_header_byte header} {a = ms} (rw e at h)
    | inl e ↦
        let (segment_data, d, h1) = bind_ok (decompress C payload 16777216) (rw e at h) in
        let (segments, g, h2) =
          bind_ok (decode_segments C (length segment_data) 0 segment_data) h1 in
        let r = convert_segments-Replays segments ms h2 in
        let bound =
          decode_segments_bound (length segment_data) 0 segment_data segments (omega arith) g in
        (
          payload,
          segment_data,
          segments,
          ap (λ k. k ∷ payload) ((==_iff header 0).0 e),
          d,
          g,
          omega (arith, bound),
          r,
          Replays_slots r,
        )
  ]
