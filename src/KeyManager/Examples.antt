-- ===== src/KeyManager/Examples.antt =====
-- A registration that succeeds at the second attempt.
use chain_adjacent_service.Prelude.{◌==◌, ok, ◌≤◌, ◌≡◌, ◌↔◌, refl, true, some, [], ◌∷◌}
use chain_adjacent_service.KeyManager.{
  nitro, Services, Registrar, prepare_register_service, new_with_attestation_provider, initialize,
}
use chain_adjacent_service.KeyManager.Registration.{Initializes, initialize_iff}

abbrev test_services : Services
test_services = record {
  registered_services = λ attempt address tee_type. some (attempt == 2);
  register_service = λ attempt journal proof tee_type. true;
  get_attestation = λ attempt key. some (1 ∷ []);
  generate_zk_proof = λ attempt attestation. some (2 ∷ [], 3 ∷ []);
  encode_mock_verifier_journal = λ key. key;
}

abbrev registrar : Registrar
registrar = record {
  max_register_attempts = 5;
  tee_type = nitro;
  signer_address = 7;
  public_key = 4 ∷ [];
}

test_registrations : (initialize test_services registrar).registrations ≡ 2
unfolding initialize prepare_register_service
test_registrations = refl

initialize_iff_example :
    (((initialize test_services registrar).result ≡ ok tt) ↔ Initializes test_services registrar)
    × ((initialize test_services registrar).preparations ≤ 5)
    × ((initialize test_services registrar).registrations ≤ 5)
initialize_iff_example = initialize_iff test_services registrar

test_made : new_with_attestation_provider 5 nitro 7 (4 ∷ []) ≡ ok registrar
unfolding new_with_attestation_provider
test_made = refl
