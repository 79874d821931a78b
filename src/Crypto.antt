-- ===== src/Crypto.antt =====
-- alloy's primitives, which key_manager/key_manager.rs, da_api/nitro/certificate/mod.rs and
-- rollups/nitro/utils.rs call, and the functions of the code that only wrap them. A hash and an
-- address are numbers; a signature as bytes is `[r, s, v]`.
use chain_adjacent_service.Prelude.{length, ℕ, ◌≡◌, Bool, Option, some}
use chain_adjacent_service.Prelude.Words.{Bytes, All, IsByte}

pub record Crypto : Type 1 where
  pub PrivateKeySigner : Type 0
  pub Signature : Type 0
  pub keccak256 : Bytes → ℕ
  -- of the commitment, the chain id and the address of the verifying contract
  pub eip712_signing_hash : ℕ → ℕ → ℕ → ℕ
  pub sign_hash_sync : PrivateKeySigner → ℕ → Option Bytes
  pub address : PrivateKeySigner → ℕ
  pub signature_try_from : Bytes → Option Signature
  pub from_bytes_and_parity : Bytes → Bool → Signature
  pub r : Signature → ℕ
  pub s : Signature → ℕ
  pub normalize_s : Signature → Option Signature
  pub recover_address_from_prehash : Signature → ℕ → Option ℕ

module _ (C : Crypto) where
  -- What alloy documents of a signature: it is of 65 bytes, they are read back as a signature, and
  -- the address of the signer is recovered from it and the hash.
  abbrev pub SignsRecoverably : Type 0
  SignsRecoverably =
      (key : C.PrivateKeySigner) (hash : ℕ) (bytes : Bytes)
      → C.sign_hash_sync key hash ≡ some bytes
      → (length bytes ≡ 65)
        × (All IsByte bytes)
        × ((sig : C.Signature) × (C.signature_try_from bytes ≡ some sig)
            × (C.recover_address_from_prehash sig hash ≡ some (C.address key)))

  abbrev pub compute_cas_signing_hash : Bytes → ℕ → ℕ → ℕ
  compute_cas_signing_hash message parent_chain_id verifier_address =
      C.eip712_signing_hash (C.keccak256 message) parent_chain_id verifier_address

  -- The fields of `KeyManager` that signing reads.
  pub record KeyManager : Type 0 where
    pub signer : C.PrivateKeySigner
    pub parent_chain_id : ℕ
    pub tee_verifier_address : ℕ

  abbrev pub sign_typed_message : Bytes → C.PrivateKeySigner → ℕ → ℕ → Option Bytes
  sign_typed_message message signer parent_chain_id verifier_address =
      C.sign_hash_sync signer (compute_cas_signing_hash message parent_chain_id verifier_address)

  abbrev pub sign_message : KeyManager → Bytes → Option Bytes
  sign_message manager message =
      sign_typed_message message manager.signer manager.parent_chain_id manager.tee_verifier_address
