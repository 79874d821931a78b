-- ===== src/Certificate/Decoding.antt =====
-- da_api/nitro/certificate: `from_bytes` in closed form.
use chain_adjacent_service.Prelude.{
  ltb, ◌==◌, Bool-cases, length, get_elem?, take, drop, ok, ◌>>=◌, bind_ok, not_both, ℕ, ◌+◌, ◌≤◌,
  ◌<◌, ◌≡◌, refl, sym, ap, ◌∙◌, ◌↔◌, inl, inr, true, false, some, [], ◌∷◌, arith,
}
use chain_adjacent_service.Prelude.Words.{Bytes, from_be_bytes}
use chain_adjacent_service.Certificate.{
  invalid_certificate_length, cas_sig_size, CasCertificate, Decoder, read_bytes, read_u64,
  decode_fields, from_bytes,
}

-- The certificate whose fields stand at the offsets of the byte layout.
abbrev pub decoded_with : Bytes → Bytes → CasCertificate
decoded_with header bs = record {
  header = header;
  start_message_pos = from_be_bytes (take 8 (drop 32 bs));
  end_message_pos = from_be_bytes (take 8 (drop 40 bs));
  start_hotshot_block = from_be_bytes (take 8 (drop 48 bs));
  after_delayed_messages_read = from_be_bytes (take 8 (drop 56 bs));
  min_hotshot_block_still_in_streamer_queue = from_be_bytes (take 8 (drop 64 bs));
  cas_signature = take 65 (drop 72 bs);
  downstream_certificate = drop 137 bs;
}

abbrev pub decoded : Bytes → CasCertificate
decoded bs = decoded_with (take 32 bs) bs

read_bytes_fits :
    (n pos : ℕ) (bs : Bytes)
    → pos + n ≤ length bs
    → read_bytes n record { bytes = bs; position = pos }
      ≡ ok (take n (drop pos bs), record { bytes = bs; position = pos + n })
unfolding read_bytes
read_bytes_fits n pos bs h = ground arith

read_u64_fits :
    (pos : ℕ) (bs : Bytes)
    → pos + 8 ≤ length bs
    → read_u64 record { bytes = bs; position = pos }
      ≡ ok (from_be_bytes (take 8 (drop pos bs)), record { bytes = bs; position = pos + 8 })
unfolding read_u64
read_u64_fits pos bs h = rw (read_bytes_fits 8 pos bs h) refl

read_bytes_needs :
    (n : ℕ) (d : Decoder) (r : Bytes × Decoder)
    → 0 < n
    → read_bytes n d ≡ ok r
    → (d.position + n ≤ length d.bytes) × (r.1.bytes ≡ d.bytes) × (r.1.position ≡ d.position + n)
unfolding read_bytes
read_bytes_needs n d r p h = ground arith

read_u64_needs :
    (d : Decoder) (r : ℕ × Decoder)
    → read_u64 d ≡ ok r
    → (d.position + 8 ≤ length d.bytes) × (r.1.bytes ≡ d.bytes) × (r.1.position ≡ d.position + 8)
unfolding read_u64
read_u64_needs d r h =
    let (a, e, g) = bind_ok (read_bytes 8 d) h in
    let (x, y, z) = read_bytes_needs 8 d a (omega arith) e in (x, ground arith, ground arith)

decode_fields_fits :
    (header bs : Bytes)
    → 137 ≤ length bs
    → decode_fields header record { bytes = bs; position = 32 } ≡ ok (decoded_with header bs)
unfolding decode_fields
decode_fields_fits header bs h =
    rw
      (
        read_u64_fits 32 bs (omega arith),
        read_u64_fits 40 bs (omega arith),
        read_u64_fits 48 bs (omega arith),
        read_u64_fits 56 bs (omega arith),
        read_u64_fits 64 bs (omega arith),
        read_bytes_fits 65 72 bs (omega arith),
      )
      refl

decode_fields_needs :
    (header : Bytes) (d : Decoder) (c : CasCertificate)
    → decode_fields header d ≡ ok c
    → d.position + 105 ≤ length d.bytes
unfolding decode_fields
decode_fields_needs header d c h0 =
    let (r1, e1, h1) = bind_ok (read_u64 d) h0 in
    let (r2, e2, h2) = bind_ok (read_u64 r1.1) h1 in
    let (r3, e3, h3) = bind_ok (read_u64 r2.1) h2 in
    let (r4, e4, h4) = bind_ok (read_u64 r3.1) h3 in
    let (r5, e5, h5) = bind_ok (read_u64 r4.1) h4 in
    let (r6, e6, h6) = bind_ok (read_bytes cas_sig_size r5.1) h5 in
    let a1 = read_u64_needs d r1 e1 in
    let a2 = read_u64_needs r1.1 r2 e2 in
    let a3 = read_u64_needs r2.1 r3 e3 in
    let a4 = read_u64_needs r3.1 r4 e4 in
    let a5 = read_u64_needs r4.1 r5 e5 in
    let a6 = read_bytes_needs cas_sig_size r5.1 r6 (omega arith) e6 in ground arith

from_bytes_fits :
    (b : ℕ) (bs : Bytes)
    → b ≡ 112
    → 137 ≤ length (b ∷ bs)
    → from_bytes (b ∷ bs) ≡ ok (decoded (b ∷ bs))
unfolding from_bytes
from_bytes_fits b bs e h =
    let v : (b == 112) ≡ true = ground arith in
    let l : ltb (length (b ∷ bs)) 105 ≡ false = ground arith in
    rw (v, l, read_bytes_fits 32 0 (b ∷ bs) (omega arith))
      (decode_fields_fits (take 32 (b ∷ bs)) (b ∷ bs) h)

is_version : (b : ℕ) → (b == 112) ≡ true → b ≡ 112
is_version b e = ground arith

from_bytes_needs :
    (b : ℕ) (bs : Bytes) (c : CasCertificate)
    → from_bytes (b ∷ bs) ≡ ok c
    → (b ≡ 112) × (137 ≤ length (b ∷ bs))
unfolding from_bytes
from_bytes_needs b bs c h = elim (Bool-cases (b == 112)) [
  | inl e ↦ elim (Bool-cases (ltb (length (b ∷ bs)) 105)) [
    | inl l ↦
        not_both {e = invalid_certificate_length (length (b ∷ bs))} {a = c} (rw l at (rw e at h))
    | inr l ↦
        let start : Decoder = record { bytes = b ∷ bs; position = 0 } in
        let h' : (read_bytes 32 start >>= λ r. decode_fields r.0 r.1) ≡ ok c =
          rw l at (rw e at h) in
        let (r, er, hr) = bind_ok (read_bytes 32 start) h' in
        let a = read_bytes_needs 32 start r (omega arith) er in
        let k = decode_fields_needs r.0 r.1 c hr in
        (is_version b e, omega (arith, rw (a.1, a.2) at k))
  ]
  | inr e ↦ absurd (ground arith)
]

-- A certificate is read from bytes exactly if there are at least 137 of them and the first is the
-- version byte, and its fields then stand at the offsets of the byte layout. The length test in
-- front asks for 105 bytes only; the decoder refuses what is between.
pub from_bytes_iff :
    (bs : Bytes) (c : CasCertificate)
    → (from_bytes bs ≡ ok c) ↔ ((get_elem? bs 0 ≡ some 112) × (137 ≤ length bs) × (c ≡ decoded bs))
unfolding from_bytes
from_bytes_iff [] c = ground arith
from_bytes_iff (b ∷ bs) c = (
  λ h.
      let (e, l) = from_bytes_needs b bs c h in
      (ground arith, l, ground (arith, from_bytes_fits b bs e l)),
  λ (x, y, z). from_bytes_fits b bs (ground arith) y ∙ ap ok (sym z),
)
