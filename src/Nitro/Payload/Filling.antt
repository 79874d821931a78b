-- ===== src/Nitro/Payload/Filling.antt =====
-- rollups/nitro/nitro.rs: what the loop of `build_espresso_tx_payload` writes and how many messages
-- it drains.
use mathlib.Core.List.{append_assoc, append-nil}
use chain_adjacent_service.Prelude.{
  is_empty, ltb, Bool-cases, Option-cases, length, length-append, take, ℕ, suc, ◌+◌, ◌≤◌, ◌<◌, ◌≡◌,
  refl, sym, ◌∙◌, subst, inl, inr, Bool, true, false, none, some, List, [], ◌∷◌, ◌++◌, arith,
}
use chain_adjacent_service.Prelude.Words.{Bytes, IsU64, to_be_bytes, length-to_be_bytes}
use chain_adjacent_service.Nitro.{BroadcastFeedMessage}
use chain_adjacent_service.Nitro.Payload.{v1, Json, with_len, fill}
use chain_adjacent_service.Nitro.Payload.Parsing.{framed, Reads}

module _ (J : Json) where
  -- The byte strings of the messages that can be written.
  abbrev pub written : List BroadcastFeedMessage → List Bytes
  written [] = []
  written (m ∷ ms) = elim (J.message_to_vec m) [ none ↦ written ms | some e ↦ e ∷ written ms ]

  -- These messages, as they are read back: the size is not a part of the JSON text.
  abbrev pub sent : BroadcastFeedMessage → BroadcastFeedMessage
  sent m = record {
    sequence_number = m.sequence_number;
    message = m.message;
    signature = m.signature;
    block_metadata = m.block_metadata;
    cumulative_sum_msg_size = 0;
    block_hash = m.block_hash;
  }

  abbrev pub sendable : List BroadcastFeedMessage → List BroadcastFeedMessage
  sendable [] = []
  sendable (m ∷ ms) = elim (J.message_to_vec m) [
    | none ↦ sendable ms
    | some e ↦ sent m ∷ sendable ms
  ]

  -- What is relied on of serde_json: what it writes, it reads back.
  abbrev pub ReadsBack : Type 0
  ReadsBack =
      ((h : Bytes) → J.header_to_vec v1 ≡ some h → J.header_from_slice h ≡ some v1)
      × ((m : BroadcastFeedMessage) (e : Bytes)
          → J.message_to_vec m ≡ some e
          → J.message_from_slice e ≡ some (sent m))

  abbrev over : Bytes → Bytes → Bool
  over payload e = ltb 921600 (length payload + 8 + length e)

  fill_skip :
      (payload : Bytes) (m : BroadcastFeedMessage) (ms : List BroadcastFeedMessage)
      → J.message_to_vec m ≡ none
      → fill J payload (m ∷ ms) ≡ ((fill J payload ms).0, suc (fill J payload ms).1)
  unfolding fill
  fill_skip payload m ms e = rw (e, fill) refl

  fill_add :
      (payload : Bytes) (m : BroadcastFeedMessage) (ms : List BroadcastFeedMessage) (e : Bytes)
      → J.message_to_vec m ≡ some e
      → over payload e ≡ false
      → fill J payload (m ∷ ms)
        ≡ ((fill J (payload ++ with_len e) ms).0, suc (fill J (payload ++ with_len e) ms).1)
  unfolding fill
  fill_add payload m ms e h t = rw (h, t, fill) refl

  pub fill_stop :
      (payload : Bytes) (m : BroadcastFeedMessage) (ms : List BroadcastFeedMessage) (e : Bytes)
      → J.message_to_vec m ≡ some e
      → over payload e ≡ true
      → is_empty payload ≡ false
      → fill J payload (m ∷ ms) ≡ (payload, 0)
  unfolding fill
  fill_stop payload m ms e h t p = rw (h, t, p, fill) refl

  -- What the loop has done when it ends with `out`.
  pub record Filled (payload : Bytes) (ms : List BroadcastFeedMessage) (out : Bytes × ℕ)
      : Type 0 where
    pub content : out.0 ≡ payload ++ framed (written (take out.1 ms))
    pub count_bound : out.1 ≤ length ms
    pub size_bound : length payload ≤ 921600 → length out.0 ≤ 921600
    pub reads : ReadsBack → Reads J (written (take out.1 ms)) (sendable (take out.1 ms))

  skip-Filled :
      (payload : Bytes) (m : BroadcastFeedMessage) (ms : List BroadcastFeedMessage)
      (out : Bytes × ℕ)
      → J.message_to_vec m ≡ none
      → Filled payload ms out
      → Filled payload (m ∷ ms) (out.0, suc out.1)
  skip-Filled payload m ms out e f = record {
    content = rw e f.content;
    count_bound = omega (arith, f.count_bound);
    size_bound = f.size_bound;
    reads = λ r. rw e (f.reads r);
  }

  add-Filled :
      (payload : Bytes) (m : BroadcastFeedMessage) (ms : List BroadcastFeedMessage) (e : Bytes)
      (out : Bytes × ℕ)
      → J.message_to_vec m ≡ some e
      → over payload e ≡ false
      → Filled (payload ++ with_len e) ms out
      → Filled payload (m ∷ ms) (out.0, suc out.1)
  add-Filled payload m ms e out h t f = record {
    content = rw h (f.content ∙ append_assoc payload (with_len e) _);
    count_bound = omega (arith, f.count_bound);
    size_bound = λ b. f.size_bound (longer payload e t);
    reads = λ r. rw h (below payload e t, r.1 m e h, f.reads r);
  }
    where
      below : (payload e : Bytes) → over payload e ≡ false → IsU64 (length e)
      below payload e t = ground arith

      longer :
          (payload e : Bytes) → over payload e ≡ false → length (payload ++ with_len e) ≤ 921600
      longer payload e t = ground (
        arith,
        length-append payload (with_len e),
        length-append (to_be_bytes (length e)) e,
        length-to_be_bytes (length e),
      )

  stop-Filled : (payload : Bytes) (ms : List BroadcastFeedMessage) → Filled payload ms (payload, 0)
  stop-Filled payload ms = record {
    content = sym (append-nil payload);
    count_bound = omega arith;
    size_bound = λ b. b;
    reads = λ r. tt;
  }

  pub not_empty : (xs ys : Bytes) → is_empty xs ≡ false → is_empty (xs ++ ys) ≡ false
  not_empty [] ys h = absurd (ground arith)
  not_empty (x ∷ xs) ys h = refl

  pub fill-Filled :
      (payload : Bytes) (ms : List BroadcastFeedMessage)
      → is_empty payload ≡ false
      → Filled payload ms (fill J payload ms)
  unfolding fill
  fill-Filled payload [] p = stop-Filled payload []
  fill-Filled payload (m ∷ ms) p = elim (Option-cases (J.message_to_vec m)) [
    | inl e ↦
        subst (λ o. Filled payload (m ∷ ms) o) (sym (fill_skip payload m ms e))
          (skip-Filled payload m ms (fill J payload ms) e (fill-Filled payload ms p))
    | inr (e, h) ↦ elim (Bool-cases (over payload e)) [
      | inl t ↦
          subst (λ o. Filled payload (m ∷ ms) o) (sym (fill_stop payload m ms e h t p))
            (stop-Filled payload (m ∷ ms))
      | inr t ↦
          subst (λ o. Filled payload (m ∷ ms) o) (sym (fill_add payload m ms e h t))
            (add-Filled payload m ms e (fill J (payload ++ with_len e) ms) h t
              (fill-Filled (payload ++ with_len e) ms (not_empty payload (with_len e) p)))
    ]
  ]

  -- The first message is drained where it cannot be written or there is room for it.
  pub fill_progress :
      (payload : Bytes) (m : BroadcastFeedMessage) (ms : List BroadcastFeedMessage)
      → ((e : Bytes) → J.message_to_vec m ≡ some e → length payload + 8 + length e ≤ 921600)
      → 0 < (fill J payload (m ∷ ms)).1
  fill_progress payload m ms room = elim (Option-cases (J.message_to_vec m)) [
    | inl e ↦ rw (fill_skip payload m ms e) (omega arith)
    | inr (e, h) ↦
        let t : over payload e ≡ false = ground (arith, room e h) in
        rw (fill_add payload m ms e h t) (omega arith)
  ]
