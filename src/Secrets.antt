-- ===== src/Secrets.antt =====
-- secrets.rs: the overrides of the configuration that AWS Secrets Manager holds, and the checks before
-- the service starts; main.rs: the start of `main`, up to the operator's key that is parsed. `Cloud` is
-- the parameter for AWS, serde_json, the url crate and the parser of a key; a URL is the text that
-- `as_str` gives. What the start does later, with the contracts on the parent chain, is left out.
pub mod Checks
pub mod Loading
mod Examples
use chain_adjacent_service.Prelude.{
  if◌then◌else◌, is_empty, ok, err, ◌>>=◌, ◌>>◌, guard, ok_or, Result, ℕ, not, Bool, true, false,
  ◌&&◌, ◌||◌, Option, none, some, List, [], ◌∷◌, map,
}
use chain_adjacent_service.Prelude.Words.{Bytes, codes, bytes_eq}
use chain_adjacent_service.Config.{TeeType, nitro, test}
use chain_adjacent_service.Store.{DaProviderConfig}

abbrev pub placeholder_str : Bytes
placeholder_str = codes "PLACEHOLDER"

abbrev pub placeholder_url : Bytes
placeholder_url = codes "http://placeholder.invalid/"

pub record SecretOverrides : Type 0 where
  pub espresso_base_url : Bytes
  pub feed_ws_url : Bytes
  pub l1_ws_url : Bytes
  pub l1_http_url : Bytes
  pub anytrust_endpoint : Bytes
  pub starting_hotshot_height : ℕ
  pub is_fresh_deployment : Bool
  pub operator_private_key : Option Bytes
  pub log_filter : Option Bytes

-- The settings that are overridden or checked here.
pub record ServiceConfig : Type 0 where
  pub base_url : Bytes
  pub stake_table : List ℕ
  pub web_socket_url : Bytes
  pub l1_ws_url : Bytes
  pub l1_http_url : Bytes
  pub da_providers : List DaProviderConfig
  pub starting_hotshot_height : ℕ
  pub is_fresh_deployment : Bool
  pub tee_type : TeeType

pub data SecretsError : Type 0 where
  aws_not_set aws_half_set fetch_failed no_secret_string : SecretsError
  bad_secret_json bad_parameters_json bad_base_url bad_l1_http_url : SecretsError
  placeholder_base_url placeholder_web_socket_url placeholder_l1_ws_url : SecretsError
  placeholder_l1_http_url placeholder_endpoint_url : SecretsError
  empty_stake_table no_operator_private_key bad_operator_private_key : SecretsError

abbrev pub SecretsResult : Type 0 → Type 0
SecretsResult A = Result SecretsError A

pub record Cloud : Type 0 where
  -- the answer of Secrets Manager, with the string of the secret where it has one
  pub get_secret_value : Bytes → Bytes → Option (Option Bytes)
  pub overrides_from_str : Bytes → Option SecretOverrides
  -- the field `parameters`
  pub wrapper_from_str : Bytes → Option Bytes
  pub parse_url : Bytes → Option Bytes
  pub parse_private_key : Bytes → Option ℕ

-- The environment variables.
pub record Environment : Type 0 where
  pub aws_region : Option Bytes
  pub aws_secret_id : Option Bytes
  pub operator_private_key_var : Option Bytes

abbrev pub is_nitro : TeeType → Bool
is_nitro nitro = true
is_nitro test = false

abbrev pub set_endpoint : Bytes → DaProviderConfig → DaProviderConfig
set_endpoint endpoint provider =
    if provider.is_anytrust then record provider { endpoint_url = endpoint } else provider

abbrev pub secret_key : Option SecretOverrides → Option Bytes
secret_key none = none
secret_key (some overrides) = overrides.operator_private_key

abbrev pub key_or : Option Bytes → Option Bytes → SecretsResult Bytes
key_or (some key) var = ok key
key_or none var = ok_or var no_operator_private_key

unfoldable pub resolve_operator_private_key :
    Option SecretOverrides → Option Bytes → SecretsResult Bytes
resolve_operator_private_key overrides var = key_or (secret_key overrides) var

abbrev pub check_endpoints : List DaProviderConfig → SecretsResult (Unit {0})
check_endpoints [] = ok tt
check_endpoints (p ∷ ps) =
    guard (not (p.is_anytrust && bytes_eq p.endpoint_url placeholder_str)) placeholder_endpoint_url
    >> check_endpoints ps

module _ (K : Cloud) where
  unfoldable pub parse_secret_overrides : Bytes → SecretsResult SecretOverrides
  parse_secret_overrides secret_str = elim (K.overrides_from_str secret_str) [
    | some overrides ↦ ok overrides
    | none ↦ ok_or (K.wrapper_from_str secret_str) bad_secret_json >>= λ parameters.
        ok_or (K.overrides_from_str parameters) bad_parameters_json
  ]

  abbrev pub without_aws : TeeType → SecretsResult (Option SecretOverrides)
  without_aws nitro = err aws_not_set
  without_aws test = ok none

  abbrev pub fetch_with :
      TeeType → Option Bytes → Option Bytes → SecretsResult (Option SecretOverrides)
  fetch_with tee_type none none = without_aws tee_type
  fetch_with tee_type (some region) none = err aws_half_set
  fetch_with tee_type none (some secret_id) = err aws_half_set
  fetch_with tee_type (some region) (some secret_id) =
      ok_or (K.get_secret_value region secret_id) fetch_failed >>= λ resp.
      ok_or resp no_secret_string >>= λ secret_str.
      parse_secret_overrides secret_str >>= λ overrides. ok (some overrides)

  unfoldable pub fetch_secret_overrides :
      Environment → TeeType → SecretsResult (Option SecretOverrides)
  fetch_secret_overrides env tee_type = fetch_with tee_type env.aws_region env.aws_secret_id

  -- The configuration behind the overrides, with the base URL that was parsed.
  abbrev pub overridden : ServiceConfig → SecretOverrides → Bytes → ServiceConfig
  overridden cfg overrides url = record cfg {
    base_url = url;
    web_socket_url = overrides.feed_ws_url;
    l1_ws_url = overrides.l1_ws_url;
    l1_http_url = overrides.l1_http_url;
    da_providers = map (set_endpoint overrides.anytrust_endpoint) cfg.da_providers;
    starting_hotshot_height = overrides.starting_hotshot_height;
    is_fresh_deployment = overrides.is_fresh_deployment;
  }

  unfoldable pub apply_overrides_nitro :
      ServiceConfig → SecretOverrides → SecretsResult ServiceConfig
  apply_overrides_nitro cfg overrides =
      ok_or (K.parse_url overrides.espresso_base_url) bad_base_url >>= λ url.
      ok (overridden cfg overrides url)

  -- The check of the genesis, which is compiled without the feature `unverified-reader` only.
  abbrev pub genesis_ok : Bool → ServiceConfig → Bool
  genesis_ok unverified_reader cfg =
      unverified_reader || not (is_nitro cfg.tee_type && is_empty cfg.stake_table)

  unfoldable pub assert_no_placeholders_nitro : Bool → ServiceConfig → SecretsResult (Unit {0})
  assert_no_placeholders_nitro unverified_reader cfg =
      guard (not (bytes_eq cfg.base_url placeholder_url)) placeholder_base_url
      >> (guard (not (bytes_eq cfg.web_socket_url placeholder_str)) placeholder_web_socket_url
          >> (guard (not (bytes_eq cfg.l1_ws_url placeholder_str)) placeholder_l1_ws_url
              >> (guard (not (bytes_eq cfg.l1_http_url placeholder_str)) placeholder_l1_http_url
                  >> (ok_or (K.parse_url cfg.l1_http_url) bad_l1_http_url >>= λ url.
                      check_endpoints cfg.da_providers
                      >> guard (genesis_ok unverified_reader cfg) empty_stake_table))))

  abbrev pub apply_if : ServiceConfig → Option SecretOverrides → SecretsResult ServiceConfig
  apply_if cfg none = ok cfg
  apply_if cfg (some overrides) = apply_overrides_nitro cfg overrides

  -- The start of `main`, of a build with or without the feature `unverified-reader`: the configuration
  -- that is run with, and the operator's key.
  unfoldable pub load : Bool → Environment → ServiceConfig → SecretsResult (ServiceConfig × ℕ)
  load unverified_reader env cfg = fetch_secret_overrides env cfg.tee_type >>= λ overrides.
      apply_if cfg overrides >>= λ started.
      assert_no_placeholders_nitro unverified_reader started
      >> (resolve_operator_private_key overrides env.operator_private_key_var >>= λ text.
          ok_or (K.parse_private_key text) bad_operator_private_key >>= λ key. ok (started, key))
