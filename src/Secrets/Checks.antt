-- ===== src/Secrets/Checks.antt =====
-- secrets.rs: what `assert_no_placeholders_nitro` lets pass.
use chain_adjacent_service.Prelude.{
  is_empty, ℕ, ok, guard, ok_or, bind_ok, guard_ok, ok_or_ok, not, Bool, true, false, ◌&&◌, ◌||◌,
  some, List, [], ◌∷◌, ◌≡◌, ◌≢◌, ◌↔◌, refl, Bool-cases, inl, inr, seq_iff, guard_iff, arith,
}
use chain_adjacent_service.Prelude.Words.{Bytes, bytes_eq, bytes_eq_iff, All}
use chain_adjacent_service.Config.{TeeType, nitro, test}
use chain_adjacent_service.Store.{DaProviderConfig}
use chain_adjacent_service.Secrets.{
  placeholder_str, placeholder_url, ServiceConfig, is_nitro, genesis_ok, check_endpoints, Cloud,
  placeholder_endpoint_url, placeholder_base_url, placeholder_web_socket_url, placeholder_l1_ws_url,
  placeholder_l1_http_url, bad_l1_http_url, empty_stake_table, assert_no_placeholders_nitro,
}

abbrev pub EndpointSet : DaProviderConfig → Type 0
EndpointSet p = p.is_anytrust ≡ true → p.endpoint_url ≢ placeholder_str

pub record NoPlaceholders (K : Cloud) (unverified_reader : Bool) (cfg : ServiceConfig)
    : Type 0 where
  pub base_url_set : cfg.base_url ≢ placeholder_url
  pub web_socket_url_set : cfg.web_socket_url ≢ placeholder_str
  pub l1_ws_url_set : cfg.l1_ws_url ≢ placeholder_str
  pub l1_http_url_set : cfg.l1_http_url ≢ placeholder_str
  pub l1_http_url_valid : (url : Bytes) × (K.parse_url cfg.l1_http_url ≡ some url)
  pub endpoints_set : All EndpointSet cfg.da_providers
  pub genesis_set : unverified_reader ≡ false → cfg.tee_type ≡ nitro → cfg.stake_table ≢ []

differs_iff : (xs ys : Bytes) → (not (bytes_eq xs ys) ≡ true) ↔ (xs ≢ ys)
differs_iff xs ys = elim (Bool-cases (bytes_eq xs ys)) [
  | inl e ↦ (λ h. absurd (both h e), λ h. absurd (h ((bytes_eq_iff xs ys).0 e)))
  | inr e ↦ (λ h k. absurd (neither ((bytes_eq_iff xs ys).1 k) e), λ h. rw e refl)
]
  where
    both : {b : Bool} → not b ≡ true → b ≡ true → ⊥
    both h k = ground arith

    neither : {b : Bool} → b ≡ true → b ≡ false → ⊥
    neither h k = ground arith

endpoint_iff :
    (p : DaProviderConfig)
    → (not (p.is_anytrust && bytes_eq p.endpoint_url placeholder_str) ≡ true) ↔ EndpointSet p
endpoint_iff p = elim (Bool-cases p.is_anytrust) [
  | inl e ↦ rw e (
    λ h anytrust. (differs_iff p.endpoint_url placeholder_str).0 h,
    λ h. (differs_iff p.endpoint_url placeholder_str).1 (h refl),
  )
  | inr e ↦ rw e (λ h anytrust. absurd (ground arith), λ h. refl)
]

check_endpoints_iff :
    (ps : List DaProviderConfig) → (check_endpoints ps ≡ ok tt) ↔ All EndpointSet ps
check_endpoints_iff [] = (λ h. tt, λ h. refl)
check_endpoints_iff (p ∷ ps) =
    let test = not (p.is_anytrust && bytes_eq p.endpoint_url placeholder_str) in
    let first = guard test placeholder_endpoint_url in
    (
      λ h.
          let (g, k) = (seq_iff first (check_endpoints ps) tt).0 h in
          (
            (endpoint_iff p).0 ((guard_iff test placeholder_endpoint_url).0 g),
            (check_endpoints_iff ps).0 k,
          ),
      λ h. (seq_iff first (check_endpoints ps) tt).1 (
        (guard_iff test placeholder_endpoint_url).1 ((endpoint_iff p).1 h.0),
        (check_endpoints_iff ps).1 h.1,
      ),
    )

genesis_iff :
    (unverified_reader : Bool) (t : TeeType) (stake_table : List ℕ)
    → (unverified_reader || not (is_nitro t && is_empty stake_table) ≡ true)
      ↔ (unverified_reader ≡ false → t ≡ nitro → stake_table ≢ [])
genesis_iff true t stake_table = (λ h f e k. absurd (ground arith), λ h. refl)
genesis_iff false nitro [] = (λ h f e k. absurd (ground arith), λ h. absurd (h refl refl refl))
genesis_iff false nitro (x ∷ xs) = (λ h f e k. absurd (ground arith), λ h. refl)
genesis_iff false test stake_table = (λ h f e k. absurd (ground arith), λ h. refl)

-- The checks pass exactly on a configuration without placeholders, with a valid URL of the parent chain,
-- and, in a build that reads verified blocks, with a genesis where the service runs in an enclave.
pub assert_no_placeholders_nitro_iff :
    (K : Cloud) (unverified_reader : Bool) (cfg : ServiceConfig)
    → (assert_no_placeholders_nitro K unverified_reader cfg ≡ ok tt)
      ↔ NoPlaceholders K unverified_reader cfg
unfolding assert_no_placeholders_nitro
assert_no_placeholders_nitro_iff K unverified_reader cfg = (sound, complete)
  where
    sound :
        assert_no_placeholders_nitro K unverified_reader cfg ≡ ok tt
        → NoPlaceholders K unverified_reader cfg
    sound h =
        let (u1, g1, h1) =
          bind_ok (guard (not (bytes_eq cfg.base_url placeholder_url)) placeholder_base_url) h in
        let (u2, g2, h2) =
          bind_ok
            (guard (not (bytes_eq cfg.web_socket_url placeholder_str)) placeholder_web_socket_url)
            h1 in
        let (u3, g3, h3) =
          bind_ok (guard (not (bytes_eq cfg.l1_ws_url placeholder_str)) placeholder_l1_ws_url) h2 in
        let (u4, g4, h4) =
          bind_ok (guard (not (bytes_eq cfg.l1_http_url placeholder_str)) placeholder_l1_http_url)
            h3 in
        let (url, g5, h5) = bind_ok (ok_or (K.parse_url cfg.l1_http_url) bad_l1_http_url) h4 in
        let (g6, g7) =
          (seq_iff (check_endpoints cfg.da_providers)
              (guard (genesis_ok K unverified_reader cfg) empty_stake_table) tt).0
            h5 in
        record {
          base_url_set = (differs_iff cfg.base_url placeholder_url).0 (guard_ok _ _ g1);
          web_socket_url_set = (differs_iff cfg.web_socket_url placeholder_str).0 (guard_ok _ _ g2);
          l1_ws_url_set = (differs_iff cfg.l1_ws_url placeholder_str).0 (guard_ok _ _ g3);
          l1_http_url_set = (differs_iff cfg.l1_http_url placeholder_str).0 (guard_ok _ _ g4);
          l1_http_url_valid = (url, ok_or_ok (K.parse_url cfg.l1_http_url) bad_l1_http_url g5);
          endpoints_set = (check_endpoints_iff cfg.da_providers).0 g6;
          genesis_set =
              (genesis_iff unverified_reader cfg.tee_type cfg.stake_table).0 (guard_ok _ _ g7);
        }

    complete :
        NoPlaceholders K unverified_reader cfg
        → assert_no_placeholders_nitro K unverified_reader cfg ≡ ok tt
    complete n =
        rw
          (
            (differs_iff cfg.base_url placeholder_url).1 n.base_url_set,
            (differs_iff cfg.web_socket_url placeholder_str).1 n.web_socket_url_set,
            (differs_iff cfg.l1_ws_url placeholder_str).1 n.l1_ws_url_set,
            (differs_iff cfg.l1_http_url placeholder_str).1 n.l1_http_url_set,
            n.l1_http_url_valid.1,
            (check_endpoints_iff cfg.da_providers).1 n.endpoints_set,
            (genesis_iff unverified_reader cfg.tee_type cfg.stake_table).1 n.genesis_set,
          )
          refl
