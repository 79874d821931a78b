-- ===== src/Lib.antt =====
-- chain-adjacent-service: a service beside a rollup that signs a batch certificate only for messages
-- that Espresso has finalized.
--
-- The parts and how they interact. The sequencer's feed messages go to HotShot in payloads that the
-- submitter gets from `build_tx_fn` (src/main.rs) and `build_espresso_tx_payload`
-- (src/rollups/nitro/nitro.rs). The streamer (src/streamer/streamer.rs) reads the blocks of HotShot
-- back through `parse_hotshot_transactions`, keeps the messages in a queue, with stubs for what does
-- not fit, forgets what the parent chain has finalized, and broadcasts the gap-free part to the feed
-- relay (src/rollups/nitro/feed/relay.rs) and its server (src/rollups/nitro/feed/ws_server.rs). The
-- feed client (src/rollups/nitro/feed/client.rs) takes the sequencer's messages to the submitter.
-- When the batch poster asks for a certificate, its batch is parsed
-- (src/rollups/nitro/batch_parsing.rs) and compared with the queue by `verify_batch_messages`; the
-- certificate of the result (src/da_api/nitro/certificate/mod.rs) is signed and put before the one of
-- the DA provider. The L1 monitor (src/rollups/nitro/l1_monitor.rs) finds the checkpoint to start
-- from and follows finalization.
--
-- Which file models which part:
--   Prelude, Prelude/*       shared names, lists, results, 64-bit words and bytes
--   BtreeMap, BtreeMap/*     Rust's BTreeMap as an association list in order
--   Rollup, Config           the trait `Rollup` as a record, `VerificationResult`, `StreamerConfig`
--   Streamer, Streamer/*     `Streamer`: `filter_messages`, `promote_stubs`, `handle_finalization`,
--                            `try_broadcast_feed_message`, each under the name it has in the code;
--                            Streamer/Run has the loop of `run` as a step on events, Streamer/Poll
--                            the rounds of `poll_hotshot_blocks`, Streamer/Run/Provenance where the
--                            entries of the queue come from,
--                            Streamer/Run/Starting the position that the settings say
--   Nitro                    the data of types.rs and feed/message.rs
--   Nitro/Rlp, Rlp/*         the RLP encoding and decoding of a message (src/rollups/nitro/types.rs)
--   Nitro/Verify, Verify/*   `verify_batch_messages`
--   Nitro/Payload, Payload/* `build_espresso_tx_payload`, `parse_nitro_hotshot_payload`, `build_tx_fn`
--   Nitro/Signature          `recover_signer_address`, `signature_hash`,
--                            `verify_broadcast_feed_message_signature`
--   Nitro/Hotshot, Hotshot/* `parse_hotshot_transactions` and the legacy format
--   Nitro/Batch, Batch/*     `parse_batch`, `decompress`
--   Nitro/Instance           Nitro as an instance of `Rollup`
--   Crypto                   keccak, EIP-712 and ECDSA as parameters, and the signing of the key manager
--   Certificate, */          `CasCertificate`: `to_bytes`, `from_bytes`, `validate`,
--                            `build_espresso_certificate`, and the extraction of the DA message
--   Feed, Feed/Backlog       `Backlog` and `broadcast` of the feed server
--   Feed/Client, Client/*    the feed client (src/rollups/nitro/feed/client.rs): `start`,
--                            `run_read_loop` and `retry_connect` as steps, `process_message`
--   Feed/Clients, Clients/*  `run_ws_client`, the session of a client of the feed server
--   Feed/Handshake, */       `handle_connection`, the handshake of the feed server
--   Feed/Relay, Relay/*      the loop of `FeedRelay::start` and the `Broadcaster` behind it
--   KeyManager, */           `initialize`, the registration of the key
--                            (src/key_manager/key_manager.rs)
--   L1Monitor, L1Monitor/*   `scan_for_latest_checkpoint` and the loop of `start`
--   Submitter, Submitter/*   the loop of `submit_transactions` (src/submitter/submitter.rs), and
--                            the task that it starts for a transaction, under the semaphore
--   Startup, Startup/*       the positions that `run` starts from (src/main.rs), with
--                            `resolve_config_with_checkpoint` (src/rollups/nitro/nitro.rs)
--   Secrets, Secrets/*       the secret overrides and the checks before the start (src/secrets.rs), and
--                            the start of `main` up to the operator's key (src/main.rs)
--   Server, Server/*         the handlers of the DA API (src/da_api/nitro/server.rs): `handle_store`,
--                            `handle_recover_inner`; Server/Routes has `handle_rpc` and `build_app`,
--                            Server/Verified the store with Nitro behind it,
--                            Server/Signed the store behind any run of the streamer
--   Store, Store/*           `store_via` and `resolve_downstream_cert` (src/da_api/nitro/store_fallback.rs)
-- The modules called Examples hold concrete runs.
--
-- Numbers. A `u64` is a natural number; where the code can wrap, the wrap-around is written out
-- (`u64`). Bytes are natural numbers, with `IsByte` where the bound matters.
--
-- Fuel. The loops over a payload and over a batch take the length of the input as fuel, since each
-- round takes a byte at least; the search for a checkpoint takes one more than the number of the
-- latest block, since each round goes down by a block at least. `build_tx_fn` takes any number of
-- rounds, as it need not end.
--
-- What is not modelled: channels, timers, tasks and the network, which are arguments of the steps
-- that use them; log messages; serde_json, RLP, brotli and the primitives of alloy, which are
-- parameters (`Json`, `Codecs`, `Crypto`, `Rlp`) with what is relied on as named hypotheses, the JSON
-- form of a base fee (`go_bigint_u256` of src/rollups/nitro/types.rs) among them; the
-- contracts and providers of the parent chain (`LogScanner`), the DA provider (`Downstream`) with the
-- fields of a request and the text of an answer (`Rpc`), the attestation and registration of a key
-- (`Services`), and AWS with the url crate (`Cloud`).
pub mod Prelude
pub mod BtreeMap
pub mod Config
pub mod Rollup
pub mod Streamer
pub mod Nitro
pub mod Crypto
pub mod Certificate
pub mod Feed
pub mod L1Monitor
pub mod Submitter
pub mod KeyManager
pub mod Startup
pub mod Store
pub mod Secrets
pub mod Server
