-- ===== src/Secrets/Examples.antt =====
-- A start with a wrapped secret over a configuration with placeholders.
use chain_adjacent_service.Prelude.{ok, Option, none, some, true, false, [], ◌∷◌, ◌≡◌, ◌↔◌, refl}
use chain_adjacent_service.Prelude.Words.{Bytes, codes, bytes_eq}
use chain_adjacent_service.Config.{nitro}
use chain_adjacent_service.Store.{DaProviderConfig}
use chain_adjacent_service.Secrets.{
  placeholder_str, placeholder_url, SecretOverrides, ServiceConfig, Cloud, Environment, secret_key,
  overridden, resolve_operator_private_key, parse_secret_overrides, fetch_secret_overrides,
  apply_overrides_nitro, assert_no_placeholders_nitro, load,
}
use chain_adjacent_service.Secrets.Checks.{NoPlaceholders}
use chain_adjacent_service.Secrets.Loading.{Fetched, Applied, KeyFrom, load_iff}

abbrev test_overrides : SecretOverrides
test_overrides = record {
  espresso_base_url = codes "https://query";
  feed_ws_url = codes "wss://feed";
  l1_ws_url = codes "wss://l1";
  l1_http_url = codes "https://l1";
  anytrust_endpoint = codes "http://anytrust";
  starting_hotshot_height = 77;
  is_fresh_deployment = true;
  operator_private_key = none;
  log_filter = none;
}

abbrev test_cloud : Cloud
test_cloud = record {
  get_secret_value = λ region id. some (some (1 ∷ []));
  overrides_from_str = λ text. elim text [ [] ↦ some test_overrides | b ∷ bs ↦ none ];
  wrapper_from_str = λ text. some [];
  parse_url = λ text. some text;
  parse_private_key = λ text. some 44;
}

abbrev test_provider : DaProviderConfig
test_provider = record {
  name = codes "anytrust";
  endpoint_url = placeholder_str;
  is_anytrust = true;
  anytrust_fallback_url = none;
}

abbrev test_file : ServiceConfig
test_file = record {
  base_url = placeholder_url;
  stake_table = 5 ∷ [];
  web_socket_url = placeholder_str;
  l1_ws_url = placeholder_str;
  l1_http_url = placeholder_str;
  da_providers = test_provider ∷ [];
  starting_hotshot_height = 0;
  is_fresh_deployment = false;
  tee_type = nitro;
}

abbrev test_environment : Environment
test_environment = record {
  aws_region = some (2 ∷ []);
  aws_secret_id = some (3 ∷ []);
  operator_private_key_var = some (4 ∷ []);
}

abbrev test_started : ServiceConfig
test_started = overridden test_cloud test_file test_overrides (codes "https://query")

test_load : load test_cloud false test_environment test_file ≡ ok (test_started, 44)
unfolding load fetch_secret_overrides parse_secret_overrides apply_overrides_nitro
    assert_no_placeholders_nitro resolve_operator_private_key bytes_eq
test_load = refl

load_iff_example : (load test_cloud false test_environment test_file ≡ ok (test_started, 44)) ↔ (
    (overrides : Option SecretOverrides) × (text : Bytes) × Fetched test_cloud nitro
      (some (2 ∷ []))
      (some (3 ∷ []))
      overrides
    × Applied test_cloud test_file overrides test_started
    × NoPlaceholders test_cloud false test_started
    × KeyFrom (secret_key overrides) (some (4 ∷ [])) text
    × (test_cloud.parse_private_key text ≡ some 44))
load_iff_example = load_iff test_cloud false test_environment test_file test_started 44
