-- ===== src/Certificate/RoundTrip.antt =====
-- da_api/nitro/certificate/mod.rs: `to_bytes` and `from_bytes` undo each other.
use mathlib.Core.List.{append_assoc}
use chain_adjacent_service.Prelude.{
  Option-cases, length, get_elem?, length-append, take, drop, first-append, slice_next, slice_join,
  length-slice, ok, ℕ, suc, ◌+◌, ◌≤◌, ◌≡◌, refl, ap, ◌∙◌, inl, inr, some, [], ◌∷◌, ◌++◌, arith,
}
use chain_adjacent_service.Prelude.Words.{
  Bytes, IsU64, All, IsByte, All-take, All-drop, to_be_bytes, from_be_bytes, length-to_be_bytes,
  from_be_bytes-to_be_bytes, to_be_bytes-from_be_bytes,
}
use chain_adjacent_service.Certificate.{CasCertificate, fields_bytes, to_bytes, from_bytes}
use chain_adjacent_service.Certificate.Decoding.{decoded, from_bytes_iff}

-- A certificate as the types of the code have it: numbers of 64 bits, and a signature of 65 bytes.
pub record IsCertificate (c : CasCertificate) : Type 0 where
  pub start_message_pos_fits : IsU64 c.start_message_pos
  pub end_message_pos_fits : IsU64 c.end_message_pos
  pub start_hotshot_block_fits : IsU64 c.start_hotshot_block
  pub after_delayed_messages_read_fits : IsU64 c.after_delayed_messages_read
  pub min_hotshot_block_fits : IsU64 c.min_hotshot_block_still_in_streamer_queue
  pub signature_length : length c.cas_signature ≡ 65

-- `to_bytes` succeeds exactly on a header of 32 bytes that starts with the version byte.
pub to_bytes_ok :
    (c : CasCertificate) (bs : Bytes)
    → to_bytes c ≡ ok bs
    → (get_elem? c.header 0 ≡ some 112) × (length c.header ≡ 32) × (bs ≡ c.header ++ fields_bytes c)
unfolding to_bytes
to_bytes_ok c bs h = elim (Option-cases (get_elem? c.header 0)) [
  | inl e ↦ absurd (ground arith)
  | inr (v, e) ↦ ground arith
]

-- The bytes with the parts in a row.
in_a_row :
    (c : CasCertificate)
    → c.header ++ fields_bytes c
      ≡ c.header
        ++ (to_be_bytes c.start_message_pos
            ++ (to_be_bytes c.end_message_pos
                ++ (to_be_bytes c.start_hotshot_block
                    ++ (to_be_bytes c.after_delayed_messages_read
                        ++ (to_be_bytes c.min_hotshot_block_still_in_streamer_queue
                            ++ (c.cas_signature ++ c.downstream_certificate))))))
in_a_row c = simp append_assoc

decoded_parts :
    (c : CasCertificate) (bs : Bytes)
    → IsCertificate c
    → length c.header ≡ 32
    → bs ≡ c.header ++ fields_bytes c
    → c ≡ decoded bs
decoded_parts c bs v l e =
    let size = length-to_be_bytes in
    let (h, p0) = slice_next 0 32 bs c.header _ (e ∙ in_a_row c) l in
    let (f1, p1) = slice_next 32 8 bs _ _ p0 (size c.start_message_pos) in
    let (f2, p2) = slice_next 40 8 bs _ _ p1 (size c.end_message_pos) in
    let (f3, p3) = slice_next 48 8 bs _ _ p2 (size c.start_hotshot_block) in
    let (f4, p4) = slice_next 56 8 bs _ _ p3 (size c.after_delayed_messages_read) in
    let (f5, p5) = slice_next 64 8 bs _ _ p4 (size c.min_hotshot_block_still_in_streamer_queue) in
    let (f6, p6) = slice_next 72 65 bs _ _ p5 v.signature_length in
    rw
      (
        h,
        f1,
        f2,
        f3,
        f4,
        f5,
        f6,
        p6,
        from_be_bytes-to_be_bytes c.start_message_pos v.start_message_pos_fits,
        from_be_bytes-to_be_bytes c.end_message_pos v.end_message_pos_fits,
        from_be_bytes-to_be_bytes c.start_hotshot_block v.start_hotshot_block_fits,
        from_be_bytes-to_be_bytes c.after_delayed_messages_read v.after_delayed_messages_read_fits,
        from_be_bytes-to_be_bytes c.min_hotshot_block_still_in_streamer_queue
            v.min_hotshot_block_fits,
      )
      refl

long_enough :
    (c : CasCertificate)
    → IsCertificate c
    → length c.header ≡ 32
    → 137 ≤ length (c.header ++ fields_bytes c)
long_enough c v l = rw (in_a_row c) (
    omega (
      arith,
      length-append c.header _,
      length-append (to_be_bytes c.start_message_pos) _,
      length-append (to_be_bytes c.end_message_pos) _,
      length-append (to_be_bytes c.start_hotshot_block) _,
      length-append (to_be_bytes c.after_delayed_messages_read) _,
      length-append (to_be_bytes c.min_hotshot_block_still_in_streamer_queue) _,
      length-append c.cas_signature c.downstream_certificate,
      length-to_be_bytes c.start_message_pos,
      length-to_be_bytes c.end_message_pos,
      length-to_be_bytes c.start_hotshot_block,
      length-to_be_bytes c.after_delayed_messages_read,
      length-to_be_bytes c.min_hotshot_block_still_in_streamer_queue,
      v.signature_length,
    ))

-- What `to_bytes` writes of a certificate with numbers of 64 bits and a signature of 65 bytes,
-- `from_bytes` reads back.
pub from_bytes-to_bytes :
    (c : CasCertificate) (bs : Bytes) → IsCertificate c → to_bytes c ≡ ok bs → from_bytes bs ≡ ok c
from_bytes-to_bytes c bs v h =
    let (first, l, e) = to_bytes_ok c bs h in
    (from_bytes_iff bs c).1 (
      rw e (first-append c.header (fields_bytes c) 112 first),
      rw e (long_enough c v l),
      decoded_parts c bs v l e,
    )

slice-IsByte : (pos n : ℕ) (bs : Bytes) → All IsByte bs → All IsByte (take n (drop pos bs))
slice-IsByte pos n bs v = All-take IsByte n (drop pos bs) (All-drop IsByte pos bs v)

slice_rewritten :
    (pos : ℕ) (bs : Bytes)
    → All IsByte bs
    → pos + 8 ≤ length bs
    → to_be_bytes (from_be_bytes (take 8 (drop pos bs))) ≡ take 8 (drop pos bs)
slice_rewritten pos bs v h =
    to_be_bytes-from_be_bytes (take 8 (drop pos bs)) (length-slice pos 8 bs h)
      (slice-IsByte pos 8 bs v)

rejoined :
    (bs : Bytes)
    → All IsByte bs
    → 137 ≤ length bs
    → (decoded bs).header ++ fields_bytes (decoded bs) ≡ bs
rejoined bs v h =
    in_a_row (decoded bs)
    ∙ rw
        (
          slice_rewritten 32 bs v (omega arith),
          slice_rewritten 40 bs v (omega arith),
          slice_rewritten 48 bs v (omega arith),
          slice_rewritten 56 bs v (omega arith),
          slice_rewritten 64 bs v (omega arith),
          slice_join 72 65 bs,
          slice_join 64 8 bs,
          slice_join 56 8 bs,
          slice_join 48 8 bs,
          slice_join 40 8 bs,
          slice_join 32 8 bs,
          slice_join 0 32 bs,
        )
        refl

first_of_take :
    (n : ℕ) (bs : Bytes) (b : ℕ) → get_elem? bs 0 ≡ some b → get_elem? (take (suc n) bs) 0 ≡ some b
first_of_take n [] b e = absurd (ground arith)
first_of_take n (x ∷ xs) b e = e

to_bytes-decoded :
    (bs : Bytes)
    → get_elem? bs 0 ≡ some 112
    → 137 ≤ length bs
    → to_bytes (decoded bs) ≡ ok ((decoded bs).header ++ fields_bytes (decoded bs))
unfolding to_bytes
to_bytes-decoded bs e h =
    let l : length (take 32 bs) ≡ 32 = length-slice 0 32 bs (omega arith) in
    rw (first_of_take 31 bs 112 e, l) refl

-- What `from_bytes` reads, `to_bytes` writes back, byte for byte.
pub to_bytes-from_bytes :
    (bs : Bytes) (c : CasCertificate) → All IsByte bs → from_bytes bs ≡ ok c → to_bytes c ≡ ok bs
to_bytes-from_bytes bs c v h =
    let (first, l, e) = (from_bytes_iff bs c).0 h in
    rw e (to_bytes-decoded bs first l ∙ ap ok (rejoined bs v l))
