-- ===== src/Server/Signed.antt =====
-- The whole way of a message, from HotShot to the certificate: streamer/streamer.rs reads it with
-- rollups/nitro/nitro.rs, and da_api/nitro/server.rs signs for the batches that match the queue.
use chain_adjacent_service.Prelude.{ok, ℕ, ◌+◌, ◌≡◌, ◌⊎◌, inl, inr, Option, some, List, [], ◌∷◌}
use chain_adjacent_service.Prelude.Words.{codes, Bytes, u64, All, All-append, All-imp}
use chain_adjacent_service.Config.{StreamerConfig}
use chain_adjacent_service.Rollup.{VerificationResult}
use chain_adjacent_service.Crypto.{Crypto, KeyManager, SignsRecoverably}
use chain_adjacent_service.Streamer.Run.{Loop, Reaches, start}
use chain_adjacent_service.Streamer.Run.Provenance.{Reaches-All}
use chain_adjacent_service.Nitro.{
  L1IncomingMessage, MessageWithMetadata, BatchCursor, NitroRollupQueueEntry,
}
use chain_adjacent_service.Nitro.Payload.{Json, NitroConfig}
use chain_adjacent_service.Nitro.Batch.{Codecs}
use chain_adjacent_service.Nitro.Hotshot.{parse_hotshot_transactions}
use chain_adjacent_service.Nitro.Hotshot.Authentic.{SequencerSigned, LegacySigned}
use chain_adjacent_service.Nitro.Hotshot.Heights.{FromBlock, parse_block-FromBlock}
use chain_adjacent_service.Nitro.Instance.{nitro_rollup}
use chain_adjacent_service.Store.{Downstream, ServerState}
use chain_adjacent_service.Server.{Response, Rpc}
use chain_adjacent_service.Server.Routes.{handle_rpc}
use chain_adjacent_service.Server.Answers.{ReadsStore, Forwarded, Certified}
use chain_adjacent_service.Server.Verified.{verification, Verified, handle_rpc-Verified}

module _ (C : Crypto) (J : Json) (Z : Codecs) (rlp_encode : L1IncomingMessage → Bytes)
    (rlp_decode : Bytes → Option MessageWithMetadata) (config : NitroConfig) where
  -- A trusted sequencer has signed the message of the entry, or a legacy signer a payload that has the
  -- message, with the sequence number of the entry as its index.
  abbrev pub Signed : NitroRollupQueueEntry → Type 0
  Signed e =
      SequencerSigned C J rlp_encode rlp_decode config e
      ⊎ ((payload : Bytes) × LegacySigned C J rlp_encode rlp_decode config payload e)

  parse_hotshot_transactions-Signed :
      (blocks : List (List Bytes)) (height : ℕ)
      → All Signed (parse_hotshot_transactions C J rlp_encode rlp_decode config blocks height)
  unfolding parse_hotshot_transactions
  parse_hotshot_transactions-Signed [] height = tt
  parse_hotshot_transactions-Signed (txs ∷ blocks) height =
      All-append Signed _ _
        (All-imp _ signed (parse_block-FromBlock C J rlp_encode rlp_decode config height txs))
        (parse_hotshot_transactions-Signed blocks (u64 (height + 1)))
    where
      signed :
          (e : NitroRollupQueueEntry)
          → FromBlock C J rlp_encode rlp_decode config height txs e
          → Signed e
      signed e (same, (payload, c, inl s)) = inl s
      signed e (same, (payload, c, inr s)) = inr (payload, s)

  module _ (D : Downstream) (P : Rpc D) (key_manager : KeyManager C) where
    -- In any run of the streamer, and for any answers of the reader, a trusted sequencer has signed the
    -- message of each entry of the queue, or a legacy signer a payload that has the message, with the
    -- sequence number of the entry as its index.
    -- If every signature that is made recovers to the address of its key, and the body is a call of
    -- `daprovider_store` that is answered without an error, then its batch matches these entries from the
    -- position of the cursor on, and the answer is the provider's own or has a certificate of the result
    -- of that comparison.
    pub handle_rpc-Signed :
        (streamer_config : StreamerConfig) (finalized_idx capacity : ℕ)
        (t : Loop (nitro_rollup C J Z rlp_encode rlp_decode config)) (fetched : Option BatchCursor)
        (state : ServerState) (bytes : Bytes) (body : D.Value) (r : Response)
        → Reaches
            (nitro_rollup C J Z rlp_encode rlp_decode config)
            (start
              (nitro_rollup C J Z rlp_encode rlp_decode config)
              streamer_config
              finalized_idx
              capacity)
            t
        → SignsRecoverably C
        → D.from_slice bytes ≡ some body
        → P.method body ≡ some (codes "daprovider_store")
        → handle_rpc C D P key_manager
            (verification C J Z rlp_encode rlp_decode config D P key_manager t.broadcast.streamer
              fetched)
            state
            bytes
          ≡ ok r
        → All Signed t.broadcast.streamer.queue
          × ((message : Bytes) × (timeout : ℕ) × (result : VerificationResult) × (ReadsStore C D P
                key_manager body message timeout)
              × (Verified C J Z rlp_encode rlp_decode config D P key_manager t.broadcast.streamer
                  fetched message result)
              × (Forwarded C D P key_manager state body message timeout r
                  ⊎ Certified C D P key_manager state body message timeout result r))
    handle_rpc-Signed streamer_config finalized_idx capacity t fetched state bytes body r reached
          sound parsed method h =
        (
          Reaches-All (nitro_rollup C J Z rlp_encode rlp_decode config) Signed
              parse_hotshot_transactions-Signed streamer_config finalized_idx capacity t reached,
          handle_rpc-Verified C J Z rlp_encode rlp_decode config D P key_manager
              t.broadcast.streamer fetched state bytes body r sound parsed method h,
        )
