-- ===== src/Server/Routes.antt =====
-- da_api/nitro/server.rs: `handle_rpc`, which tells the methods apart, and `build_app`, which mounts a
-- route for each provider and one for calldata. da_api/config.rs: the limit of calldata.
use chain_adjacent_service.Prelude.{
  if◌then◌else◌, ok, ◌>>=◌, ◌>>◌, guard, ok_or, ℕ, not, Bool, true, false, ◌||◌, Option, none, some,
  List, [], ◌∷◌, ◌++◌, map, ◌≡◌, refl,
}
use chain_adjacent_service.Prelude.Words.{codes, Bytes, bytes_eq}
use chain_adjacent_service.Rollup.{VerificationResult}
use chain_adjacent_service.Crypto.{Crypto, KeyManager}
use chain_adjacent_service.Certificate.{
  DaApiResult, invalid_params, invalid_request, configuration, parsing_error,
}
use chain_adjacent_service.Store.{Downstream, DaProviderConfig, ServerState}
use chain_adjacent_service.Server.{
  espresso_header_byte, anytrust_das_header_byte, anytrust_das_tree_header_byte, calldata_name,
  Response, max_size_answer, Rpc, answer_with, forward_raw, respond_header_bytes,
  handle_supported_header_bytes_forwarded, handle_store, handle_recover_inner,
}

abbrev pub default_calldata_max_size : ℕ
default_calldata_max_size = 1000000

abbrev pub resolve_calldata_max_size : Option ℕ → ℕ
resolve_calldata_max_size none = default_calldata_max_size
resolve_calldata_max_size (some n) = n

abbrev pub calldata_provider : DaProviderConfig
calldata_provider = record {
  name = calldata_name;
  endpoint_url = [];
  is_anytrust = false;
  anytrust_fallback_url = none;
}

-- `ServerState::new`
abbrev pub new_state : ℕ → DaProviderConfig → ServerState
new_state calldata_max_size provider = record {
  da_config = provider;
  max_message_size = none;
  calldata_max_size = calldata_max_size;
}

-- The state of the route of a provider, under its name.
unfoldable pub mount : ℕ → DaProviderConfig → Bytes × ServerState
mount calldata_max_size provider =
    if bytes_eq provider.name calldata_name
    then (
      provider.name,
      record (new_state calldata_max_size provider) { max_message_size = some calldata_max_size },
    )
    else (provider.name, new_state calldata_max_size provider)

-- A fallback that would never be reached.
abbrev pub is_unreachable : Bytes → Option Bytes → Bool
is_unreachable endpoint none = false
is_unreachable [] (some url) = true
is_unreachable (b ∷ bs) (some url) = false

abbrev pub check_providers : List DaProviderConfig → DaApiResult (Unit {0})
check_providers [] = ok tt
check_providers (p ∷ ps) =
    guard (not (is_unreachable p.endpoint_url p.anytrust_fallback_url)) configuration
    >> check_providers ps

unfoldable pub build_app : List DaProviderConfig → ℕ → DaApiResult (List (Bytes × ServerState))
unfolding mount
build_app providers calldata_max_size =
    check_providers providers
    >> ok (map (mount calldata_max_size) (providers ++ calldata_provider ∷ []))

module _ (C : Crypto) (D : Downstream) (P : Rpc D) (key_manager : KeyManager C)
    (verify : Bytes → Option VerificationResult) (state : ServerState) where
  abbrev pub supported_header_bytes : D.Value → DaApiResult Response
  supported_header_bytes parsed =
      if bytes_eq state.da_config.name calldata_name
      then respond_header_bytes C D P (P.id parsed) (espresso_header_byte ∷ [])
      else if state.da_config.is_anytrust
      then respond_header_bytes C D P (P.id parsed)
          (espresso_header_byte ∷ anytrust_das_header_byte ∷ anytrust_das_tree_header_byte ∷ [])
      else handle_supported_header_bytes_forwarded C D P state parsed

  abbrev pub get_max_message_size : D.Value → Bytes → Option ℕ → DaApiResult Response
  get_max_message_size parsed body none = forward_raw C D P state body
  get_max_message_size parsed body (some max_size) =
      answer_with C D P parsing_error (max_size_answer (P.id parsed) max_size)

  unfoldable pub dispatch : Bytes → D.Value → Bytes → DaApiResult Response
  dispatch method parsed body =
      if bytes_eq method (codes "daprovider_store")
      then handle_store C D P key_manager verify state parsed
      else if bytes_eq method (codes "daprovider_recoverPayload")
          || bytes_eq method (codes "daprovider_collectPreimages")
          || bytes_eq method (codes "daprovider_recoverPayloadAndPreimages")
      then handle_recover_inner C D P key_manager state parsed method
      else if bytes_eq method (codes "daprovider_getSupportedHeaderBytes")
      then supported_header_bytes parsed
      else if bytes_eq method (codes "daprovider_getMaxMessageSize")
      then get_max_message_size parsed body state.max_message_size
      else forward_raw C D P state body

  unfoldable pub handle_rpc : Bytes → DaApiResult Response
  unfolding dispatch
  handle_rpc body = ok_or (D.from_slice body) invalid_params >>= λ parsed.
      ok_or (P.method parsed) invalid_request >>= λ method. dispatch method parsed body

  pub handle_rpc-store :
      (bytes : Bytes) (body : D.Value)
      → D.from_slice bytes ≡ some body
      → P.method body ≡ some (codes "daprovider_store")
      → handle_rpc bytes ≡ handle_store C D P key_manager verify state body
  unfolding handle_rpc bytes_eq
  handle_rpc-store bytes body parsed method = rw (parsed, method) refl
