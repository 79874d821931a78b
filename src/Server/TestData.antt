-- ===== src/Server/TestData.antt =====
-- A concrete provider, and requests to the service.
use chain_adjacent_service.Prelude.{◌==◌, ℕ, Option, none, some, List, [], ◌∷◌, false}
use chain_adjacent_service.Prelude.Words.{codes, Bytes}
use chain_adjacent_service.Crypto.{KeyManager}
use chain_adjacent_service.Store.{Downstream, replied, ServerState}
use chain_adjacent_service.Server.{
  Answer, store_answer, payload_answer, header_bytes_answer, max_size_answer, Rpc,
}
use chain_adjacent_service.Nitro.TestData.{test_crypto}

pub data TestValue : Type 0 where
  store_call : Bytes → ℕ → TestValue
  recover_call : ℕ → ℕ → Bytes → TestValue
  text : Bytes → TestValue
  num : ℕ → TestValue

abbrev pub test_method : TestValue → Option Bytes
test_method (store_call m t) = some (codes "daprovider_store")
test_method (recover_call n h m) = some (codes "daprovider_recoverPayload")
test_method (text m) = none
test_method (num n) = none

abbrev pub test_params : TestValue → Option (List TestValue)
test_params (store_call m t) = some (text m ∷ num t ∷ [])
test_params (recover_call n h m) = some (num n ∷ num h ∷ text m ∷ [])
test_params (text m) = none
test_params (num n) = none

abbrev pub test_bytes_of : TestValue → Option Bytes
test_bytes_of (store_call m t) = none
test_bytes_of (recover_call n h m) = none
test_bytes_of (text m) = some m
test_bytes_of (num n) = none

abbrev pub test_num : TestValue → Option ℕ
test_num (store_call m t) = none
test_num (recover_call n h m) = none
test_num (text m) = none
test_num (num n) = some n

abbrev pub test_to_vec : Answer TestValue → Option Bytes
test_to_vec (store_answer id bytes) = some bytes
test_to_vec (payload_answer id bytes) = some bytes
test_to_vec (header_bytes_answer id bytes) = some bytes
test_to_vec (max_size_answer id n) = some (n ∷ [])

-- The provider has the certificate of two bytes for any data; a body is the data of a store.
abbrev pub test_downstream : Downstream
test_downstream = record {
  Value = TestValue;
  Message = Bytes;
  post = λ number endpoint request. replied 200 (1 ∷ []);
  is_success = λ status. status == 200;
  from_slice = λ bytes. some (store_call bytes 60);
  error = λ value. none;
  json_rpc_error = λ value. none;
  is_too_large = λ message. false;
  is_fallback_requested = λ message. false;
  serialized_da_certificate = λ value. some (221 ∷ 222 ∷ []);
}

abbrev pub test_rpc : Rpc test_downstream
test_rpc = record {
  method = test_method;
  id = λ value. num 0;
  params = test_params;
  as_bytes = test_bytes_of;
  as_u64 = test_num;
  as_b256 = test_num;
  result_header_bytes = test_bytes_of;
  to_vec = test_to_vec;
}

abbrev pub test_state : ServerState
test_state = record {
  da_config = record {
    name = codes "celestia";
    endpoint_url = codes "http://celestia";
    is_anytrust = false;
    anytrust_fallback_url = none;
  };
  max_message_size = none;
  calldata_max_size = 1000;
}

abbrev pub test_key_manager : KeyManager test_crypto
test_key_manager = record { signer = tt; parent_chain_id = 1; tee_verifier_address = 9 }
