-- ===== src/Nitro/Payload/Parsing.antt =====
-- rollups/nitro/nitro.rs: what `parse_nitro_hotshot_payload` reads from a payload of messages
-- written one after the other.
use mathlib.Core.List.{append_assoc}
use chain_adjacent_service.Prelude.{
  ltb, if◌then◌else◌, length, length-append, take, drop, drop-add, slice_next, length-drop, ok, ℕ,
  zero, suc, ◌+◌, ◌≤◌, ◌≡◌, refl, sym, ap, ◌∙◌, false, some, List, [], ◌∷◌, ◌++◌, arith,
}
use chain_adjacent_service.Prelude.Words.{
  Bytes, IsU64, to_be_bytes, from_be_bytes, length-to_be_bytes, from_be_bytes-to_be_bytes,
}
use chain_adjacent_service.Nitro.{BroadcastFeedMessage}
use chain_adjacent_service.Nitro.Payload.{
  Json, NitroConfig, FeedMessageVerifier, with_len, parse_messages,
}

-- The messages written one after the other, each behind its length.
abbrev pub framed : List Bytes → Bytes
framed [] = []
framed (e ∷ es) = with_len e ++ framed es

-- The slices that a reader takes behind a length.
pub behind_length :
    (xs e rest : Bytes)
    → xs ≡ with_len e ++ rest
    → IsU64 (length e)
    → (8 + length e ≤ length xs)
      × (from_be_bytes (take 8 xs) ≡ length e)
      × (take (length e) (drop 8 xs) ≡ e)
      × (drop (length e) (drop 8 xs) ≡ rest)
behind_length xs e rest h fits =
    let (a, b) =
      slice_next 0 8 xs (to_be_bytes (length e)) (e ++ rest) (rw (h, append_assoc) refl)
        (length-to_be_bytes (length e)) in
    let (c, d) = slice_next 8 (length e) xs e rest b refl in
    let l : length xs ≡ 8 + length e + length rest = omega (
      arith,
      ap length h,
      length-append (with_len e) rest,
      length-append (to_be_bytes (length e)) e,
      length-to_be_bytes (length e),
    ) in
    (
      omega (arith, l),
      ap from_be_bytes a ∙ from_be_bytes-to_be_bytes (length e) fits,
      c,
      sym (drop-add 8 (length e) xs) ∙ d,
    )

framed_length :
    (e : Bytes) (es : List Bytes) → length (framed (e ∷ es)) ≡ 8 + length e + length (framed es)
framed_length e es = omega (
  arith,
  length-append (with_len e) (framed es),
  length-append (to_be_bytes (length e)) e,
  length-to_be_bytes (length e),
)

pub ltb-false : (a b : ℕ) → b ≤ a → ltb a b ≡ false
ltb-false a b h = ground arith

module _ (J : Json) where
  -- Each of the byte strings is read as the message at its place, and its length fits a `u64`.
  abbrev pub Reads : List Bytes → List BroadcastFeedMessage → Type 0
  Reads [] [] = Unit {0}
  Reads [] (m ∷ ms) = ⊥
  Reads (e ∷ es) [] = ⊥
  Reads (e ∷ es) (m ∷ ms) = IsU64 (length e) × (J.message_from_slice e ≡ some m) × Reads es ms

module _ (J : Json) (verify_signature : FeedMessageVerifier) (config : NitroConfig) where
  abbrev pub accepted : List BroadcastFeedMessage → List BroadcastFeedMessage
  accepted [] = []
  accepted (m ∷ ms) =
      if verify_signature config.chain_id config.trusted_sequencer_addresses m
      then m ∷ accepted ms
      else accepted ms

  parse_step :
      (fuel : ℕ) (xs e rest : Bytes) (m : BroadcastFeedMessage) (ms : List BroadcastFeedMessage)
      → xs ≡ with_len e ++ rest
      → IsU64 (length e)
      → J.message_from_slice e ≡ some m
      → parse_messages J verify_signature config fuel rest ≡ ok ms
      → parse_messages J verify_signature config (suc fuel) xs
        ≡ ok (
            if verify_signature config.chain_id config.trusted_sequencer_addresses m
            then m ∷ ms
            else ms)
  unfolding parse_messages
  parse_step fuel [] e rest m ms h fits read later =
      absurd (omega (arith, (behind_length [] e rest h fits).0))
  parse_step fuel (x ∷ xs) e rest m ms h fits read later =
      let (long, size, mid, back) = behind_length (x ∷ xs) e rest h fits in
      let t1 : ltb (length (x ∷ xs)) 8 ≡ false =
        ltb-false (length (x ∷ xs)) 8 (omega (arith, long)) in
      let t2 : ltb (length (drop 8 (x ∷ xs))) (length e) ≡ false =
        ltb-false _ (length e) (omega (arith, long, length-drop 8 (x ∷ xs))) in
      rw (t1, size, t2, mid, read, back, later) refl

  pub parse_messages-framed :
      (fuel : ℕ) (es : List Bytes) (ms : List BroadcastFeedMessage)
      → Reads J es ms
      → length (framed es) ≤ fuel
      → parse_messages J verify_signature config fuel (framed es) ≡ ok (accepted ms)
  unfolding parse_messages
  parse_messages-framed fuel [] [] r l = refl
  parse_messages-framed zero (e ∷ es) (m ∷ ms) r l = absurd (omega (arith, l, framed_length e es))
  parse_messages-framed fuel [] (m ∷ ms) r l = elim r [ ]
  parse_messages-framed zero (e ∷ es) [] r l = elim r [ ]
  parse_messages-framed (suc fuel) (e ∷ es) [] r l = elim r [ ]
  parse_messages-framed (suc fuel) (e ∷ es) (m ∷ ms) (fits, read, r) l =
      parse_step fuel (with_len e ++ framed es) e (framed es) m (accepted ms) refl fits read
        (parse_messages-framed fuel es ms r (omega (arith, l, framed_length e es)))
