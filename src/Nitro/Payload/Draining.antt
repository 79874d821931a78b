-- ===== src/Nitro/Payload/Draining.antt =====
-- main.rs: `build_tx_fn`, which calls `build_espresso_tx_payload` until no message is left.
use mathlib.Core.Option
use chain_adjacent_service.Prelude.{
  is_empty, ltb, lt→ltb, Option-cases, length, length-append, take, drop, take-append-drop,
  length-drop, ok, ℕ, zero, suc, ◌+◌, ◌≤◌, ◌<◌, ◌≡◌, refl, sym, ap, ◌∙◌, inl, inr, true, false,
  Option, none, some, List, [], ◌∷◌, ◌++◌, arith,
}
use chain_adjacent_service.Prelude.Words.{Bytes, to_be_bytes, length-to_be_bytes}
use chain_adjacent_service.Nitro.{BroadcastFeedMessage}
use chain_adjacent_service.Nitro.Payload.{
  v1, Json, NitroConfig, FeedMessageVerifier, with_len, fill, build_espresso_tx_payload,
  build_tx_fn, parse_nitro_hotshot_payload,
}
use chain_adjacent_service.Nitro.Payload.Parsing.{accepted}
use chain_adjacent_service.Nitro.Payload.Filling.{
  written, sent, sendable, ReadsBack, fill_stop, not_empty, fill-Filled, fill_progress,
}
use chain_adjacent_service.Nitro.Payload.RoundTrip.{build_fill, header_not_empty, parse_framed}

module _ (J : Json) where
  -- There is room for each of the messages in a payload of its own behind the header `h`.
  abbrev pub Fit : Bytes → List BroadcastFeedMessage → Type 0
  Fit h [] = Unit {0}
  Fit h (m ∷ ms) =
      ((e : Bytes) → J.message_to_vec m ≡ some e → 8 + length h + 8 + length e ≤ 921600) × Fit h ms

  -- The payloads are read as the messages, in their order.
  abbrev pub Delivers :
      FeedMessageVerifier → NitroConfig → List Bytes → List BroadcastFeedMessage → Type 0
  Delivers verify_signature config [] ms = ms ≡ []
  Delivers verify_signature config (p ∷ ps) ms =
      (front : List BroadcastFeedMessage) × (rest : List BroadcastFeedMessage) × (ms
        ≡ front ++ rest)
      × (parse_nitro_hotshot_payload J config p verify_signature ≡ ok front)
      × Delivers verify_signature config ps rest

  Fit-drop : (h : Bytes) (n : ℕ) (ms : List BroadcastFeedMessage) → Fit h ms → Fit h (drop n ms)
  Fit-drop h zero ms f = f
  Fit-drop h (suc n) [] f = tt
  Fit-drop h (suc n) (m ∷ ms) f = Fit-drop h n ms f.1

  accepted_append :
      (verify_signature : FeedMessageVerifier) (config : NitroConfig)
      (xs ys : List BroadcastFeedMessage)
      → accepted J verify_signature config (xs ++ ys)
        ≡ accepted J verify_signature config xs ++ accepted J verify_signature config ys
  accepted_append verify_signature config [] ys = refl
  accepted_append verify_signature config (x ∷ xs) ys =
      ground (arith, accepted_append verify_signature config xs ys)

  sendable_skip :
      (x : BroadcastFeedMessage) (xs : List BroadcastFeedMessage)
      → J.message_to_vec x ≡ none
      → sendable J (x ∷ xs) ≡ sendable J xs
  sendable_skip x xs e = rw (e, sendable) refl

  sendable_keep :
      (x : BroadcastFeedMessage) (xs : List BroadcastFeedMessage) (b : Bytes)
      → J.message_to_vec x ≡ some b
      → sendable J (x ∷ xs) ≡ sent J x ∷ sendable J xs
  sendable_keep x xs b e = rw (e, sendable) refl

  sendable_append :
      (xs ys : List BroadcastFeedMessage) → sendable J (xs ++ ys) ≡ sendable J xs ++ sendable J ys
  sendable_append [] ys = refl
  sendable_append (x ∷ xs) ys = elim (Option-cases (J.message_to_vec x)) [
    | inl e ↦
        sendable_skip x (xs ++ ys) e
        ∙ sendable_append xs ys
        ∙ ap (λ l. l ++ sendable J ys) (sym (sendable_skip x xs e))
    | inr (b, e) ↦
        sendable_keep x (xs ++ ys) b e
        ∙ ap (λ l. sent J x ∷ l) (sendable_append xs ys)
        ∙ ap (λ l. l ++ sendable J ys) (sym (sendable_keep x xs b e))
  ]

  build_tx_fn_round :
      (fuel : ℕ) (m : BroadcastFeedMessage) (ms left : List BroadcastFeedMessage) (payload : Bytes)
      → build_espresso_tx_payload J (m ∷ ms) ≡ (payload, left)
      → is_empty payload ≡ false
      → build_tx_fn J (suc fuel) (m ∷ ms)
        ≡ Option.map (λ txes. payload ∷ txes) (build_tx_fn J fuel left)
  unfolding build_tx_fn
  build_tx_fn_round fuel m ms left payload e p =
      ap
        (λ (out : Bytes × List BroadcastFeedMessage).
          elim (is_empty out.0) as (λ b. Option (List Bytes)) [
            | true ↦ some []
            | false ↦ Option.map (λ txes. out.0 ∷ txes) (build_tx_fn J fuel out.1)
          ])
        e
      ∙ rw p refl

  -- If each message fits in a payload of its own, `build_tx_fn` ends after at most as many rounds as
  -- there are messages, and its payloads are read as the messages that can be written and whose
  -- signature is accepted, none missing and none twice, in their order.
  pub build_tx_fn-Delivers :
      (verify_signature : FeedMessageVerifier) (config : NitroConfig) (fuel : ℕ)
      (messages : List BroadcastFeedMessage) (h : Bytes)
      → ReadsBack J
      → J.header_to_vec v1 ≡ some h
      → 8 + length h ≤ 921600
      → Fit h messages
      → length messages ≤ fuel
      → (txes : List Bytes) × (build_tx_fn J fuel messages ≡ some txes)
        × Delivers verify_signature config txes
            (accepted J verify_signature config (sendable J messages))
  unfolding build_tx_fn
  build_tx_fn-Delivers verify_signature config fuel [] h back e size fit l = ([], refl, refl)
  build_tx_fn-Delivers verify_signature config zero (m ∷ ms) h back e size fit l =
      absurd (omega (arith, l))
  build_tx_fn-Delivers verify_signature config (suc fuel) (m ∷ ms) h back e size fit l =
      let out = fill J (with_len h) (m ∷ ms) in
      let f = fill-Filled J (with_len h) (m ∷ ms) (header_not_empty J h) in
      let left = drop out.1 (m ∷ ms) in
      let size_of_header : length (with_len h) ≡ 8 + length h =
        omega (arith, length-append (to_be_bytes (length h)) h, length-to_be_bytes (length h)) in
      let progress =
        fill_progress J (with_len h) m ms (λ b x. omega (arith, fit.0 b x, size_of_header)) in
      let filled : is_empty out.0 ≡ false =
        rw f.content (not_empty J (with_len h) _ (header_not_empty J h)) in
      let (ts, run, rest) =
        build_tx_fn-Delivers verify_signature config fuel left h back e size
          (Fit-drop h out.1 (m ∷ ms) fit)
          (omega (arith, l, progress, length-drop out.1 (m ∷ ms))) in
      (
        out.0 ∷ ts,
        build_tx_fn_round fuel m ms left out.0 (build_fill J (m ∷ ms) h e) filled ∙ rw run refl,
        (
          accepted J verify_signature config (sendable J (take out.1 (m ∷ ms))),
          accepted J verify_signature config (sendable J left),
          ap (λ xs. accepted J verify_signature config (sendable J xs))
                (sym (take-append-drop out.1 (m ∷ ms)))
              ∙ ap (accepted J verify_signature config) (sendable_append (take out.1 (m ∷ ms)) left)
              ∙ accepted_append verify_signature config (sendable J (take out.1 (m ∷ ms)))
                  (sendable J left),
          rw f.content (
              parse_framed J verify_signature config h (written J (take out.1 (m ∷ ms)))
                (sendable J (take out.1 (m ∷ ms))) (back.0 h e) (omega (arith, size))
                (f.reads back)),
          rest,
        ),
      )

  -- Where the first message does not fit in a payload of its own, `build_tx_fn` does not end in any
  -- number of rounds: each round drains no message, and its payload, which holds the header, is not
  -- empty.
  pub build_tx_fn_stuck :
      (fuel : ℕ) (m : BroadcastFeedMessage) (ms : List BroadcastFeedMessage) (h e : Bytes)
      → J.header_to_vec v1 ≡ some h
      → J.message_to_vec m ≡ some e
      → 921600 < 8 + length h + 8 + length e
      → build_tx_fn J fuel (m ∷ ms) ≡ none
  unfolding build_tx_fn
  build_tx_fn_stuck zero m ms h e eh em large = refl
  build_tx_fn_stuck (suc fuel) m ms h e eh em large =
      let t : ltb 921600 (length (with_len h) + 8 + length e) ≡ true = lt→ltb _ _ (
        omega (
          arith,
          large,
          length-append (to_be_bytes (length h)) h,
          length-to_be_bytes (length h),
        )) in
      let stop = fill_stop J (with_len h) m ms e em t (header_not_empty J h) in
      let same = build_fill J (m ∷ ms) h eh ∙ ap (λ out. (out.0, drop out.1 (m ∷ ms))) stop in
      build_tx_fn_round fuel m ms (m ∷ ms) (with_len h) same (header_not_empty J h)
      ∙ rw (build_tx_fn_stuck fuel m ms h e eh em large) refl
