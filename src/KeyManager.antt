-- ===== src/KeyManager.antt =====
-- key_manager/key_manager.rs: the registration of the service's key. The verifier contract, the
-- attestation verifier and the security module are parameters; a call is told from the others of its
-- kind by the number of the attempt, and by 0 before the first.
pub mod Registration
pub mod Examples
use chain_adjacent_service.Prelude.{
  is_nonempty, ltb, ◌==◌, if◌then◌else◌, Result, ok, err, ◌>>=◌, ◌>>◌, guard, ok_or, ℕ, zero, suc,
  ◌+◌, not, Bool, true, false, Option, none, some, [], ◌∷◌,
}
use chain_adjacent_service.Prelude.Words.{Bytes}

pub data TeeType : Type 0 where
  nitro test : TeeType

abbrev pub tee_type_byte : TeeType → ℕ
tee_type_byte nitro = 0
tee_type_byte test = 1

pub data KeyManagerError : Type 0 where
  invalid_config : KeyManagerError
  empty_attestation empty_journal empty_proof : TeeType → KeyManagerError
  attestation_retrieval_failed zk_proof_generation_failed : KeyManagerError
  on_chain_verification_failed : KeyManagerError
  preparation_exhausted registration_exhausted : ℕ → ℕ → KeyManagerError
  signing_failed : KeyManagerError

-- What the calls of an attempt return; none is an error.
pub record Services : Type 0 where
  pub registered_services : ℕ → ℕ → ℕ → Option Bool
  pub register_service : ℕ → Bytes → Bytes → ℕ → Bool
  pub get_attestation : ℕ → Bytes → Option Bytes
  pub generate_zk_proof : ℕ → Bytes → Option (Bytes × Bytes)
  pub encode_mock_verifier_journal : Bytes → Bytes

-- The fields that the registration reads.
pub record Registrar : Type 0 where
  pub max_register_attempts : ℕ
  pub tee_type : TeeType
  pub signer_address : ℕ
  pub public_key : Bytes

unfoldable pub new_with_attestation_provider :
    ℕ → TeeType → ℕ → Bytes → Result KeyManagerError Registrar
new_with_attestation_provider max_register_attempts tee_type signer_address public_key =
    guard (not (max_register_attempts == 0)) invalid_config
    >> (guard (not (ltb 10 max_register_attempts)) invalid_config
        >> ok record {
          max_register_attempts = max_register_attempts;
          tee_type = tee_type;
          signer_address = signer_address;
          public_key = public_key;
        })

-- The result, with the numbers of preparations and of registrations that were tried.
pub record Outcome : Type 0 where
  pub result : Result KeyManagerError (Unit {0})
  pub preparations : ℕ
  pub registrations : ℕ

abbrev pub on_chain_tee_type : TeeType → TeeType
on_chain_tee_type test = nitro
on_chain_tee_type nitro = nitro

module _ (S : Services) (k : Registrar) where
  abbrev pub prepare_as : TeeType → ℕ → Result KeyManagerError (Bytes × Bytes)
  prepare_as test attempt = ok (S.encode_mock_verifier_journal k.public_key, [])
  prepare_as nitro attempt =
      ok_or (S.get_attestation attempt k.public_key) attestation_retrieval_failed >>= λ attestation.
      guard (is_nonempty attestation) (empty_attestation nitro)
      >> (ok_or (S.generate_zk_proof attempt attestation) zk_proof_generation_failed >>= λ proved.
          guard (is_nonempty proved.0) (empty_journal nitro)
          >> (guard (is_nonempty proved.1) (empty_proof nitro) >> ok proved))

  unfoldable pub prepare_register_service : ℕ → Result KeyManagerError (Bytes × Bytes)
  prepare_register_service attempt = prepare_as k.tee_type attempt

  abbrev pub verify_registration_on_chain : ℕ → Option Bool
  verify_registration_on_chain attempt =
      S.registered_services attempt k.signer_address (tee_type_byte (on_chain_tee_type k.tee_type))

  -- The first loop of `initialize`, with the number of its calls; `left` attempts are left.
  unfoldable pub prepare_loop : ℕ → ℕ → Option (Bytes × Bytes) × ℕ
  prepare_loop zero attempt = (none, 0)
  prepare_loop (suc left) attempt = elim (prepare_register_service attempt) [
    | ok registration ↦ (some registration, 1)
    | err e ↦ let rest = prepare_loop left (suc attempt) in (rest.0, rest.1 + 1)
  ]

  -- A round of the second loop, of what the registration and the check after it return and of the
  -- rounds behind it.
  abbrev pub register_round :
      Bool
      → Option Bool
      → Result KeyManagerError (Unit {0}) × ℕ
      → Result KeyManagerError (Unit {0}) × ℕ
  register_round true none rest = (err on_chain_verification_failed, 1)
  register_round true (some true) rest = (ok tt, 1)
  register_round true (some false) rest = (rest.0, rest.1 + 1)
  register_round false verified rest = (rest.0, rest.1 + 1)

  -- The second loop, with the number of its registrations.
  unfoldable pub register_loop : Bytes → Bytes → ℕ → ℕ → Result KeyManagerError (Unit {0}) × ℕ
  register_loop journal proof zero attempt =
      (err (registration_exhausted k.max_register_attempts k.signer_address), 0)
  register_loop journal proof (suc left) attempt =
      register_round
        (S.register_service attempt journal proof (tee_type_byte (on_chain_tee_type k.tee_type)))
        (verify_registration_on_chain attempt) (register_loop journal proof left (suc attempt))

  abbrev pub register_with : Option (Bytes × Bytes) × ℕ → Outcome
  register_with (none, calls) = record {
    result = err (preparation_exhausted k.max_register_attempts k.signer_address);
    preparations = calls;
    registrations = 0;
  }
  register_with (some (journal, proof), calls) =
      let registered = register_loop journal proof k.max_register_attempts 1 in
      record { result = registered.0; preparations = calls; registrations = registered.1 }

  unfoldable pub initialize : Outcome
  unfolding prepare_loop register_loop
  initialize = elim (verify_registration_on_chain 0) [
    | none ↦ record {
      result = err on_chain_verification_failed;
      preparations = 0;
      registrations = 0;
    }
    | some true ↦ record { result = ok tt; preparations = 0; registrations = 0 }
    | some false ↦ register_with (prepare_loop k.max_register_attempts 1)
  ]
