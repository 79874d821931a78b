-- ===== src/Store.antt =====
-- da_api/nitro/store_fallback.rs: the certificate of the DA provider for a message that is stored. HTTP
-- and serde_json are parameters.
pub mod Fallback
pub mod Examples
use chain_adjacent_service.Prelude.{
  Result, ok, err, ok_or, ◌>>=◌, ltb, if◌then◌else◌, length, ℕ, ◌+◌, Bool, Option, none, some, List,
  [], ◌∷◌,
}
use chain_adjacent_service.Prelude.Words.{Bytes}
use chain_adjacent_service.Certificate.{
  DaApiError, DaApiResult, downstream_da, parsing_error, dynamic_batching_resize,
  fallback_requested, espresso_cert_size,
}

-- What a request comes to: no reply, a reply whose body cannot be read, or a status and a body.
pub data Reply : Type 0 where
  not_sent : Reply
  no_body : Reply
  replied : ℕ → Bytes → Reply

-- The bodies of the requests to a provider: of `store_via`, of a forwarded recovery (with its method),
-- a value that is sent on as it is, and bytes that are.
pub data Request (Value : Type 0) : Type 0 where
  store : Bytes → ℕ → Value → Request Value
  recover : Bytes → ℕ → ℕ → Bytes → Value → Request Value
  json : Value → Request Value
  raw : Bytes → Request Value

pub record Downstream : Type 1 where
  pub Value : Type 0
  pub Message : Type 0
  -- the reply to a request, by its number and endpoint
  pub post : ℕ → Bytes → Request Value → Reply
  pub is_success : ℕ → Bool
  pub from_slice : Bytes → Option Value
  pub error : Value → Option Value
  -- the message of a value that is read as a JsonRpcError
  pub json_rpc_error : Value → Option Message
  pub is_too_large : Message → Bool
  pub is_fallback_requested : Message → Bool
  -- the certificate of the field `result`
  pub serialized_da_certificate : Value → Option Bytes

pub data StoreOutcome : Type 0 where
  cert : Bytes → StoreOutcome
  fallback : StoreOutcome
  forward : ℕ → Bytes → StoreOutcome

pub data DownstreamCertOutcome : Type 0 where
  downstream_cert : Bytes → DownstreamCertOutcome
  downstream_forward : ℕ → Bytes → DownstreamCertOutcome

pub record DaProviderConfig : Type 0 where
  pub name : Bytes
  pub endpoint_url : Bytes
  pub is_anytrust : Bool
  pub anytrust_fallback_url : Option Bytes

-- The state of a route, without the key manager and the channels, which are arguments.
pub record ServerState : Type 0 where
  pub da_config : DaProviderConfig
  pub max_message_size : Option ℕ
  pub calldata_max_size : ℕ

abbrev pub current_endpoint : ServerState → Bytes
current_endpoint state = state.da_config.endpoint_url

-- `filter(|s| !s.is_empty())`
abbrev pub nonempty_url : Option Bytes → Option Bytes
nonempty_url none = none
nonempty_url (some []) = none
nonempty_url (some (b ∷ bs)) = some (b ∷ bs)

module _ (D : Downstream) where
  abbrev pub from_json_rpc_error : D.Message → DaApiError
  from_json_rpc_error message =
      if D.is_too_large message
      then dynamic_batching_resize
      else if D.is_fallback_requested message
      then fallback_requested
      else downstream_da

  abbrev pub error_of : Option D.Message → DaApiError
  error_of none = downstream_da
  error_of (some message) = from_json_rpc_error message

  abbrev pub outcome_of_error : DaApiError → Bytes → StoreOutcome
  outcome_of_error fallback_requested bytes = fallback
  outcome_of_error _ bytes = forward 200 bytes

  abbrev pub outcome_of_json : D.Value → Bytes → DaApiResult StoreOutcome
  outcome_of_json value bytes = elim (D.error value) [
    | some err_val ↦ ok (outcome_of_error (error_of (D.json_rpc_error err_val)) bytes)
    | none ↦ ok_or (D.serialized_da_certificate value) parsing_error >>= λ c. ok (cert c)
  ]

  abbrev pub outcome_of_reply : Reply → DaApiResult StoreOutcome
  outcome_of_reply not_sent = err downstream_da
  outcome_of_reply no_body = err parsing_error
  outcome_of_reply (replied status bytes) =
      if D.is_success status
      then (ok_or (D.from_slice bytes) parsing_error >>= λ value. outcome_of_json value bytes)
      else ok (forward status bytes)

  unfoldable pub store_via : ℕ → Bytes → Bytes → ℕ → D.Value → DaApiResult StoreOutcome
  store_via number endpoint raw_data timeout body_id =
      outcome_of_reply (D.post number endpoint (store raw_data timeout body_id))

  -- The data goes to the parent chain itself, where it and the certificate fit.
  abbrev pub calldata : ServerState → Bytes → DaApiResult DownstreamCertOutcome
  calldata state raw_data =
      if ltb state.calldata_max_size (espresso_cert_size + length raw_data)
      then err dynamic_batching_resize
      else ok (downstream_cert raw_data)

  -- What the answer of the AnyTrust sidecar comes to.
  abbrev pub after_anytrust : ServerState → Bytes → StoreOutcome → DaApiResult DownstreamCertOutcome
  after_anytrust state raw_data (cert c) = ok (downstream_cert c)
  after_anytrust state raw_data (forward status bytes) = ok (downstream_forward status bytes)
  after_anytrust state raw_data fallback = calldata state raw_data

  abbrev pub after_primary :
      ServerState → Bytes → ℕ → D.Value → StoreOutcome → DaApiResult DownstreamCertOutcome
  after_primary state raw_data timeout body_id (cert c) = ok (downstream_cert c)
  after_primary state raw_data timeout body_id (forward status bytes) =
      ok (downstream_forward status bytes)
  after_primary state raw_data timeout body_id fallback =
      elim (nonempty_url state.da_config.anytrust_fallback_url) [
        | some url ↦ store_via 1 url raw_data timeout body_id >>= after_anytrust state raw_data
        | none ↦ calldata state raw_data
      ]

  abbrev pub resolve_at :
      Bytes → ServerState → Bytes → ℕ → D.Value → DaApiResult DownstreamCertOutcome
  resolve_at [] state raw_data timeout body_id = ok (downstream_cert raw_data)
  resolve_at (b ∷ bs) state raw_data timeout body_id =
      store_via 0 (b ∷ bs) raw_data timeout body_id >>= after_primary state raw_data timeout body_id

  unfoldable pub resolve_downstream_cert :
      ServerState → Bytes → ℕ → D.Value → DaApiResult DownstreamCertOutcome
  resolve_downstream_cert state raw_data timeout body_id =
      resolve_at (current_endpoint state) state raw_data timeout body_id
