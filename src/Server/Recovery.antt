-- ===== src/Server/Recovery.antt =====
-- da_api/nitro/server.rs: `handle_recover_inner`, which is called twice for a batch, with the
-- certificate of the service and without it.
use chain_adjacent_service.Prelude.{
  leb, Bool-cases, length, length-append, get_elem?, take, drop, drop-append, length-drop, ok,
  ◌>>=◌, bind_ok, guard_ok, ok_or_ok, ok-injective, ok_or, guard, ℕ, zero, suc, ◌<◌, ◌≡◌, refl, sym,
  ap, ◌∙◌, subst, ◌⊎◌, inl, inr, not, true, false, some, [], ◌∷◌, ◌++◌, arith,
}
use chain_adjacent_service.Prelude.Words.{Bytes, IsU64}
use chain_adjacent_service.Crypto.{Crypto, KeyManager, SignsRecoverably}
use chain_adjacent_service.Certificate.{CasCertificate, to_bytes, from_bytes}
use chain_adjacent_service.Certificate.Signing.{
  build_espresso_certificate, validate, try_extract_da_sequencer_msg_from_espresso_da_cert,
}
use chain_adjacent_service.Certificate.Extraction.{
  built, extract-build_espresso_certificate, extract_sound,
}
use chain_adjacent_service.Certificate.Decoding.{from_bytes_iff}
use chain_adjacent_service.Store.{Downstream, ServerState}
use chain_adjacent_service.Server.{
  Response, Rpc, three_params, is_byte, unwrap, route_recover, handle_recover_inner,
}

get_elem?-drop : (n : ℕ) (bs : Bytes) → get_elem? (drop n bs) 0 ≡ get_elem? bs n
get_elem?-drop zero bs = refl
get_elem?-drop (suc n) [] = refl
get_elem?-drop (suc n) (b ∷ bs) = get_elem?-drop n bs

module _ (C : Crypto) (D : Downstream) (P : Rpc D) (key_manager : KeyManager C) where
  -- The request is a recovery of the batch with the number and the block hash, from the message.
  abbrev pub ReadsRecover : D.Value → ℕ → ℕ → Bytes → Type 0
  ReadsRecover body batch_num batch_block_hash sequencer_msg =
      (params : D.Value × D.Value × D.Value) × (three_params (P.params body) ≡ some params)
      × (P.as_u64 params.0 ≡ some batch_num)
      × (P.as_b256 params.1 ≡ some batch_block_hash)
      × (P.as_bytes params.2 ≡ some sequencer_msg)

  -- What a message that claims a certificate of the service must have: a certificate that is valid for
  -- the key of the service, before the DA certificate that is recovered.
  abbrev pub Unwrapped : Bytes → Bytes → Type 0
  Unwrapped sequencer_msg da_certificate =
      (c : CasCertificate) × (from_bytes (drop 40 sequencer_msg) ≡ ok c)
      × (validate C c (C.address key_manager.signer) key_manager.parent_chain_id
            key_manager.tee_verifier_address
          ≡ ok tt)
      × (da_certificate ≡ take 40 sequencer_msg ++ drop 177 sequencer_msg)

  unwrap_sound :
      (sequencer_msg da_certificate : Bytes)
      → unwrap C D P key_manager sequencer_msg ≡ ok da_certificate
      → ((is_byte (get_elem? sequencer_msg 40) 112 ≡ true) × Unwrapped sequencer_msg da_certificate)
        ⊎ ((is_byte (get_elem? sequencer_msg 40) 112 ≡ false) × (da_certificate ≡ sequencer_msg))
  unfolding unwrap
  unwrap_sound sequencer_msg da_certificate h =
      elim (Bool-cases (is_byte (get_elem? sequencer_msg 40) 112)) [
        | inl e ↦ inl (
          e,
          extract_sound C sequencer_msg da_certificate (C.address key_manager.signer)
              key_manager.parent_chain_id key_manager.tee_verifier_address (rw e at h),
        )
        | inr e ↦ inr (e, sym (ok-injective (rw e at h)))
      ]

  -- A recovery is answered only for a request that is read as one, of a message that is longer than its
  -- header. A message with the header byte of the service is answered only if its certificate is valid
  -- for the key of the service, and then from the message without it; any other from the message as it
  -- is. The answer is that of `route_recover`.
  pub handle_recover_inner_sound :
      (state : ServerState) (body : D.Value) (downstream_method : Bytes) (r : Response)
      → handle_recover_inner C D P key_manager state body downstream_method ≡ ok r
      → (batch_num : ℕ) × (batch_block_hash : ℕ) × (sequencer_msg : Bytes)
        × (da_certificate : Bytes) × (ReadsRecover body batch_num batch_block_hash sequencer_msg)
        × (40 < length sequencer_msg)
        × (((is_byte (get_elem? sequencer_msg 40) 112 ≡ true)
              × Unwrapped sequencer_msg da_certificate)
            ⊎ ((is_byte (get_elem? sequencer_msg 40) 112 ≡ false)
                × (da_certificate ≡ sequencer_msg)))
        × (route_recover C D P state body downstream_method batch_num batch_block_hash
              da_certificate
            ≡ ok r)
  unfolding handle_recover_inner
  handle_recover_inner_sound state body downstream_method r h =
      let (params, e0, h0) = bind_ok (ok_or (three_params (P.params body)) _) h in
      let (batch_num, e1, h1) = bind_ok (ok_or (P.as_u64 params.0) _) h0 in
      let (batch_block_hash, e2, h2) = bind_ok (ok_or (P.as_b256 params.1) _) h1 in
      let (msg, e3, h3) = bind_ok (ok_or (P.as_bytes params.2) _) h2 in
      let (u, e4, h4) = bind_ok (guard (not (leb (length msg) 40)) _) h3 in
      let (cert, e5, h5) = bind_ok (unwrap C D P key_manager msg) h4 in
      (
        batch_num,
        batch_block_hash,
        msg,
        cert,
        (
          params,
          ok_or_ok (three_params (P.params body)) _ e0,
          ok_or_ok (P.as_u64 params.0) _ e1,
          ok_or_ok (P.as_b256 params.1) _ e2,
          ok_or_ok (P.as_bytes params.2) _ e3,
        ),
        longer msg (guard_ok (not (leb (length msg) 40)) _ e4),
        unwrap_sound msg cert e5,
        h5,
      )
    where
      longer : (msg : Bytes) → not (leb (length msg) 40) ≡ true → 40 < length msg
      longer msg h = ground arith

  handle_recover_inner_lem :
      (state : ServerState) (body : D.Value) (downstream_method : Bytes) (batch_num hash : ℕ)
      (msg : Bytes)
      → ReadsRecover body batch_num hash msg
      → 40 < length msg
      → handle_recover_inner C D P key_manager state body downstream_method ≡ (
          unwrap C D P key_manager msg
          >>= route_recover C D P state body downstream_method batch_num hash)
  unfolding handle_recover_inner
  handle_recover_inner_lem state body downstream_method batch_num hash msg (params, e0, e1, e2, e3)
        long =
      let test : leb (length msg) 40 ≡ false = ground arith in rw (e0, e1, e2, e3, test) refl

  unwrap-extracted :
      (msg da_certificate : Bytes)
      → try_extract_da_sequencer_msg_from_espresso_da_cert C msg
          (C.address key_manager.signer)
          key_manager.parent_chain_id
          key_manager.tee_verifier_address
        ≡ ok da_certificate
      → (40 < length msg) × (unwrap C D P key_manager msg ≡ ok da_certificate)
  unfolding unwrap
  unwrap-extracted msg da_certificate e =
      let (c, read, valid, same) =
        extract_sound C msg da_certificate (C.address key_manager.signer)
          key_manager.parent_chain_id key_manager.tee_verifier_address e in
      let (first, long, z) = (from_bytes_iff (drop 40 msg) c).0 read in
      let byte = sym (get_elem?-drop 40 msg) ∙ first in
      (omega (arith, long, length-drop 40 msg), rw byte e)

  route_recover-id :
      (state : ServerState) (body body' : D.Value) (downstream_method : Bytes) (n hash : ℕ)
      (cert : Bytes)
      → P.id body ≡ P.id body'
      → route_recover C D P state body downstream_method n hash cert
        ≡ route_recover C D P state body' downstream_method n hash cert
  unfolding route_recover
  route_recover-id state body body' downstream_method n hash cert e = rw e refl

  -- The two recoveries of a batch. A certificate that the service builds, of numbers of 64 bits, around
  -- a DA certificate that does not itself begin with the header byte of the service, is written behind a
  -- sequencer header of 40 bytes. The recovery from that message and the one from the message that has
  -- the DA certificate alone, with the same id, number and hash, have the same outcome.
  pub handle_recover_inner-build_espresso_certificate :
      (state : ServerState) (body body' : D.Value) (downstream_method : Bytes) (n hash : ℕ)
      (start end block delayed min_block : ℕ) (downstream header bs : Bytes) (c : CasCertificate)
      → SignsRecoverably C
      → (IsU64 start × IsU64 end × IsU64 block × IsU64 delayed × IsU64 min_block)
      → length header ≡ 40
      → build_espresso_certificate C key_manager start end block delayed min_block downstream ≡ ok c
      → to_bytes c ≡ ok bs
      → is_byte (get_elem? downstream 0) 112 ≡ false
      → P.id body ≡ P.id body'
      → ReadsRecover body n hash (header ++ bs)
      → ReadsRecover body' n hash (header ++ downstream)
      → handle_recover_inner C D P key_manager state body downstream_method
        ≡ handle_recover_inner C D P key_manager state body' downstream_method
  unfolding unwrap
  handle_recover_inner-build_espresso_certificate state body body' downstream_method n hash start
        end block delayed min_block downstream header bs c sound fits l made wrote bare same r r' =
      let extracted =
        extract-build_espresso_certificate C key_manager start end block delayed min_block
          downstream header bs c sound fits l made wrote in
      let (long, unwrapped) = unwrap-extracted (header ++ bs) (header ++ downstream) extracted in
      let (sig, enough, g, z) =
        built C key_manager start end block delayed min_block downstream c made in
      let long' : 40 < length (header ++ downstream) =
        omega (arith, length-append header downstream, enough, l) in
      let at_40 : drop 40 (header ++ downstream) ≡ downstream =
        subst (λ k. drop k (header ++ downstream) ≡ downstream) l (drop-append header downstream) in
      let byte : get_elem? (header ++ downstream) 40 ≡ get_elem? downstream 0 =
        sym (get_elem?-drop 40 (header ++ downstream)) ∙ ap (λ xs. get_elem? xs 0) at_40 in
      let plain : unwrap C D P key_manager (header ++ downstream) ≡ ok (header ++ downstream) =
        rw (byte, bare) refl in
      handle_recover_inner_lem state body downstream_method n hash (header ++ bs) r long
      ∙ ap (λ m. m >>= route_recover C D P state body downstream_method n hash) unwrapped
      ∙ route_recover-id state body body' downstream_method n hash (header ++ downstream) same
      ∙ sym (ap (λ m. m >>= route_recover C D P state body' downstream_method n hash) plain)
      ∙ sym (
          handle_recover_inner_lem state body' downstream_method n hash (header ++ downstream) r'
            long')
