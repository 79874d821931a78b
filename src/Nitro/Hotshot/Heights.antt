-- ===== src/Nitro/Hotshot/Heights.antt =====
-- rollups/nitro/nitro.rs: `parse_hotshot_transactions` over the blocks of a range.
use chain_adjacent_service.Prelude.{
  length, ℕ, suc, ◌+◌, ◌≤◌, ◌<◌, ◌≡◌, refl, sym, subst, ◌⊎◌, inl, inr, Option, List, [], ◌∷◌, arith,
}
use chain_adjacent_service.Prelude.Words.{Bytes, u64, IsU64, All, All-append, All-imp}
use chain_adjacent_service.Crypto.{Crypto}
use chain_adjacent_service.Nitro.{L1IncomingMessage, MessageWithMetadata, NitroRollupQueueEntry}
use chain_adjacent_service.Nitro.Payload.{Json, NitroConfig}
use chain_adjacent_service.Nitro.Hotshot.{parse_block, parse_hotshot_transactions}
use chain_adjacent_service.Nitro.Hotshot.Authentic.{
  SequencerSigned, LegacySigned, Authentic, parse_transaction-Authentic,
}

module _ (C : Crypto) (J : Json) (rlp_encode : L1IncomingMessage → Bytes)
    (rlp_decode : Bytes → Option MessageWithMetadata) (config : NitroConfig) where
  abbrev pub Contains : Bytes → List Bytes → Type 0
  Contains payload [] = ⊥
  Contains payload (tx ∷ txs) = (payload ≡ tx) ⊎ Contains payload txs

  -- The entry stands at the height of the block and is signed, and a legacy signature is that of a
  -- payload of the block that has the message of the entry.
  abbrev pub FromBlock : ℕ → List Bytes → NitroRollupQueueEntry → Type 0
  FromBlock height txs e =
      (e.hotshot_height ≡ height)
      × ((payload : Bytes) × Contains payload txs
          × (SequencerSigned C J rlp_encode rlp_decode config e
              ⊎ LegacySigned C J rlp_encode rlp_decode config payload e))

  -- The entry is of one of the blocks, which begin at a height.
  abbrev pub FromBlocks : ℕ → List (List Bytes) → NitroRollupQueueEntry → Type 0
  FromBlocks height [] e = ⊥
  FromBlocks height (txs ∷ blocks) e = FromBlock height txs e ⊎ FromBlocks (suc height) blocks e

  -- The entry is of one of the blocks, and its height is in their range.
  abbrev pub SignedWithin : ℕ → List (List Bytes) → NitroRollupQueueEntry → Type 0
  SignedWithin start blocks e =
      (start ≤ e.hotshot_height)
      × (e.hotshot_height < start + length blocks)
      × FromBlocks start blocks e

  pub parse_block-FromBlock :
      (height : ℕ) (txs : List Bytes)
      → All (FromBlock height txs) (parse_block C J rlp_encode rlp_decode config height txs)
  unfolding parse_block
  parse_block-FromBlock height [] = tt
  parse_block-FromBlock height (payload ∷ txs) =
      All-append (FromBlock height (payload ∷ txs)) _ _
        (All-imp _ first
          (parse_transaction-Authentic C J rlp_encode rlp_decode config height payload))
        (All-imp _ later (parse_block-FromBlock height txs))
    where
      first :
          (e : NitroRollupQueueEntry)
          → Authentic C J rlp_encode rlp_decode config height payload e
          → FromBlock height (payload ∷ txs) e
      first e (same, s) = (same, (payload, inl refl, s))

      later :
          (e : NitroRollupQueueEntry) → FromBlock height txs e → FromBlock height (payload ∷ txs) e
      later e (same, (p, c, s)) = (same, (p, inr c, s))

  parse_hotshot_transactions-FromBlocks :
      (blocks : List (List Bytes)) (height : ℕ)
      → IsU64 (height + length blocks)
      → All
          (FromBlocks height blocks)
          (parse_hotshot_transactions C J rlp_encode rlp_decode config blocks height)
  unfolding parse_hotshot_transactions
  parse_hotshot_transactions-FromBlocks [] height fits = tt
  parse_hotshot_transactions-FromBlocks (txs ∷ blocks) height fits =
      let next : u64 (height + 1) ≡ suc height = omega (arith, fits) in
      All-append (FromBlocks height (txs ∷ blocks)) _ _
        (All-imp _ (λ e f. inl f) (parse_block-FromBlock height txs))
        (All-imp _ (λ e f. inr f)
          (subst
            (λ n.
              All (FromBlocks (suc height) blocks)
                (parse_hotshot_transactions C J rlp_encode rlp_decode config blocks n))
            (sym next)
            (parse_hotshot_transactions-FromBlocks blocks (suc height) (omega (arith, fits)))))

  heights_within :
      (start : ℕ) (blocks : List (List Bytes)) (e : NitroRollupQueueEntry)
      → FromBlocks start blocks e
      → (start ≤ e.hotshot_height) × (e.hotshot_height < start + length blocks)
  heights_within start [] e f = absurd f
  heights_within start (txs ∷ blocks) e (inl (same, s)) = (omega (arith, same), omega (arith, same))
  heights_within start (txs ∷ blocks) e (inr f) =
      let (low, high) = heights_within (suc start) blocks e f in
      (omega (arith, low), omega (arith, high))

  -- Where the heights of the blocks fit in 64 bits, each entry that is read from them is of one of the
  -- blocks and stands at the height of that block, counted from the starting height on. A trusted
  -- sequencer has signed its message, or a legacy signer has signed a payload of that block in which
  -- the message stands, with the sequence number of the entry as its index.
  pub parse_hotshot_transactions-SignedWithin :
      (blocks : List (List Bytes)) (starting_hotshot_height : ℕ)
      → IsU64 (starting_hotshot_height + length blocks)
      → All (SignedWithin starting_hotshot_height blocks) (
          parse_hotshot_transactions C J rlp_encode rlp_decode config blocks
            starting_hotshot_height)
  parse_hotshot_transactions-SignedWithin blocks height fits =
      All-imp _ (λ e f. let (low, high) = heights_within height blocks e f in (low, high, f))
        (parse_hotshot_transactions-FromBlocks blocks height fits)
