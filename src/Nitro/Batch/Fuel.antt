-- ===== src/Nitro/Batch/Fuel.antt =====
-- rollups/nitro/batch_parsing.rs: the loop over the buffer ends.
use chain_adjacent_service.Prelude.{
  ltb, ◌==◌, Bool-cases, Option-cases, length, Result, ok, err, Result-cases, bind_err, ℕ, zero,
  suc, ◌+◌, ◌≤◌, ◌<◌, ◌≡◌, inl, inr, ◌||◌, Option, none, some, List, [], ◌∷◌, arith,
}
use chain_adjacent_service.Prelude.Words.{Bytes}
use chain_adjacent_service.Nitro.{BatchMessage, l2_msg, delayed_msg}
use chain_adjacent_service.Nitro.Batch.{
  BatchError, too_many_segments, error_parsing_segment, out_of_fuel, unsupported_header_byte,
  unknown_segment_kind, input_too_short, other, Codecs, push_if, decompress, decode_segments,
  convert_segment, convert_segments, parse_batch,
}

ok_clash {ℓ κ} : {E : Type ℓ} {A : Type κ} (a : A) (e : E) → Path (Result E A) (ok a) (err e) → ⊥
ok_clash a e h = ground arith

module _ (C : Codecs) where
  -- What is relied on of the decoding: it takes at least one byte off the buffer.
  abbrev pub Consumes : Type 0
  Consumes =
      (buf segment rest : Bytes)
      → C.decode_bytes buf ≡ ok (segment, rest)
      → length rest < length buf

  decode_segments_enough :
      (fuel count : ℕ) (buf : Bytes)
      → Consumes
      → length buf ≤ fuel
      → decode_segments C fuel count buf ≡ err out_of_fuel
      → ⊥
  unfolding decode_segments
  decode_segments_enough fuel count [] c l h = ground arith
  decode_segments_enough zero count (b ∷ bs) c l h = omega (arith, l)
  decode_segments_enough (suc fuel) count (b ∷ bs) c l h = elim (Bool-cases (ltb count 102400)) [
    | inr e ↦ differ (rw e at h)
    | inl e ↦ elim (Result-cases (C.decode_bytes (b ∷ bs))) [
      | inl (decoded, g) ↦
          elim (bind_err (decode_segments C fuel (suc count) decoded.1) (rw g at (rw e at h))) [
            | inl k ↦
                decode_segments_enough fuel (suc count) decoded.1 c
                  (omega (arith, l, c (b ∷ bs) decoded.0 decoded.1 g)) k
            | inr (rest, k, same) ↦ ok_clash (decoded.0 ∷ rest) out_of_fuel same
          ]
      | inr (input_too_short, g) ↦ empty (rw g at (rw e at h))
      | inr (other, g) ↦ wrong (rw g at (rw e at h))
    ]
  ]
    where
      differ : Path (Result BatchError (List Bytes)) (err too_many_segments) (err out_of_fuel) → ⊥
      differ h = ground arith

      wrong :
          Path (Result BatchError (List Bytes)) (err error_parsing_segment) (err out_of_fuel) → ⊥
      wrong h = ground arith

      empty : Path (Result BatchError (List Bytes)) (ok []) (err out_of_fuel) → ⊥
      empty h = ground arith

  decompress_fuel : (input : Bytes) (n : ℕ) → decompress C input n ≡ err out_of_fuel → ⊥
  unfolding decompress
  decompress_fuel input n h = elim (Option-cases (C.read_decompressed input (n + 1))) [
    | inl e ↦ ground arith
    | inr (o, e) ↦ ground arith
  ]

  convert_segment_fuel :
      (kind : ℕ) (content : Bytes) → convert_segment C kind content ≡ err out_of_fuel → ⊥
  unfolding convert_segment
  convert_segment_fuel kind content h = elim (Bool-cases (kind == 0)) [
    | inl e0 ↦ ok_clash (some (l2_msg content)) out_of_fuel (rw e0 at h)
    | inr e0 ↦ elim (Bool-cases (kind == 1)) [
      | inl e1 ↦ elim (bind_err (decompress C content 262144) (rw e1 at (rw e0 at h))) [
        | inl k ↦ decompress_fuel content 262144 k
        | inr (o, k, same) ↦ ok_clash (some (l2_msg o)) out_of_fuel same
      ]
      | inr e1 ↦ elim (Bool-cases (kind == 2)) [
        | inl e2 ↦ ok_clash (some delayed_msg) out_of_fuel (rw e2 at (rw e1 at (rw e0 at h)))
        | inr e2 ↦ elim (Bool-cases (kind == 3 || kind == 4)) [
          | inl e3 ↦ ok_clash none out_of_fuel (rw e3 at (rw e2 at (rw e1 at (rw e0 at h))))
          | inr e3 ↦ unknown kind (rw e3 at (rw e2 at (rw e1 at (rw e0 at h))))
        ]
      ]
    ]
  ]
    where
      unknown :
          (k : ℕ)
          → Path
              (Result BatchError (Option BatchMessage))
              (err (unknown_segment_kind k))
              (err out_of_fuel)
          → ⊥
      unknown k h = ground arith

  convert_segments_fuel :
      (segments : List Bytes) → convert_segments C segments ≡ err out_of_fuel → ⊥
  unfolding convert_segments
  convert_segments_fuel [] h = ground arith
  convert_segments_fuel ([] ∷ segments) h = convert_segments_fuel segments h
  convert_segments_fuel ((kind ∷ content) ∷ segments) h =
      elim (bind_err (convert_segment C kind content) h) [
        | inl k ↦ convert_segment_fuel kind content k
        | inr (m, k, h1) ↦ elim (bind_err (convert_segments C segments) h1) [
          | inl g ↦ convert_segments_fuel segments g
          | inr (ms, g, h2) ↦ ok_clash (push_if m ms) out_of_fuel h2
        ]
      ]

  -- Where the decoding of an RLP string takes at least one byte, the fuel of `parse_batch` is enough:
  -- the answer is the messages or one of the errors of the code.
  pub parse_batch_terminates :
      (batch_content : Bytes) → Consumes → ¬ (parse_batch C batch_content ≡ err out_of_fuel)
  unfolding parse_batch
  parse_batch_terminates [] c h = ground arith
  parse_batch_terminates (header ∷ payload) c h = elim (Bool-cases (header == 0)) [
    | inr e ↦ unsupported header (rw e at h)
    | inl e ↦ elim (bind_err (decompress C payload 16777216) (rw e at h)) [
      | inl k ↦ decompress_fuel payload 16777216 k
      | inr (bytes, k, h1) ↦ elim (bind_err (decode_segments C (length bytes) 0 bytes) h1) [
        | inl g ↦ decode_segments_enough (length bytes) 0 bytes c (omega arith) g
        | inr (segments, g, h2) ↦ convert_segments_fuel segments h2
      ]
    ]
  ]
    where
      unsupported :
          (b : ℕ)
          → Path
              (Result BatchError (List BatchMessage))
              (err (unsupported_header_byte b))
              (err out_of_fuel)
          → ⊥
      unsupported b h = ground arith
