-- ===== src/Store/Examples.antt =====
-- A store whose primary endpoint asks for the fallback, and whose sidecar answers with a certificate.
use chain_adjacent_service.Prelude.{
  ok, ◌==◌, if◌then◌else◌, ◌≡◌, refl, true, false, Bool, none, some, [], ◌∷◌, ◌↔◌,
}
use chain_adjacent_service.Prelude.Words.{Bytes}
use chain_adjacent_service.Store.{
  Downstream, replied, downstream_cert, ServerState, store_via, resolve_downstream_cert,
}
use chain_adjacent_service.Store.Fallback.{Resolves, resolve_downstream_cert_iff}

abbrev is_one : Bytes → Bool
is_one [] = false
is_one (b ∷ bs) = b == 1

-- A body of the byte 1 is a request for the fallback; any other is a certificate.
abbrev test_downstream : Downstream
test_downstream = record {
  Value = Bytes;
  Message = Bytes;
  post = λ number endpoint request.
      if number == 0 then replied 200 (1 ∷ []) else replied 200 (7 ∷ 8 ∷ []);
  is_success = λ status. status == 200;
  from_slice = λ bytes. some bytes;
  error = λ bytes. if is_one bytes then some bytes else none;
  json_rpc_error = λ bytes. some bytes;
  is_too_large = λ message. false;
  is_fallback_requested = λ message. true;
  serialized_da_certificate = λ bytes. some bytes;
}

abbrev test_state : ServerState
test_state = record {
  da_config = record {
    name = 99 ∷ [];
    endpoint_url = 104 ∷ [];
    is_anytrust = false;
    anytrust_fallback_url = some (105 ∷ []);
  };
  max_message_size = none;
  calldata_max_size = 1000;
}

resolve_downstream_cert_iff_example :
    (resolve_downstream_cert test_downstream test_state (3 ∷ []) 60 []
      ≡ ok (downstream_cert (7 ∷ 8 ∷ [])))
    ↔ Resolves test_downstream test_state (3 ∷ []) 60 [] (7 ∷ 8 ∷ [])
resolve_downstream_cert_iff_example =
    resolve_downstream_cert_iff test_downstream test_state (3 ∷ []) 60 [] (7 ∷ 8 ∷ [])

test_resolved :
    resolve_downstream_cert test_downstream test_state (3 ∷ []) 60 []
    ≡ ok (downstream_cert (7 ∷ 8 ∷ []))
unfolding resolve_downstream_cert store_via
test_resolved = refl
