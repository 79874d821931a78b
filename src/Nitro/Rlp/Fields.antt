-- ===== src/Nitro/Rlp/Fields.antt =====
-- rollups/nitro/types.rs: the optional fields, written and read back.
use chain_adjacent_service.Prelude.{
  length, length-append, is_empty, ok, ◌>>=◌, ℕ, zero, suc, ◌+◌, ◌<◌, ◌^◌, ◌≡◌, refl, ap, ◌∙◌,
  false, Option, none, some, List, [], ◌∷◌, ◌++◌, arith,
}
use chain_adjacent_service.Prelude.Words.{Bytes, IsU64, All}
use chain_adjacent_service.Nitro.{BatchDataStats}
use chain_adjacent_service.Nitro.Rlp.{
  string, list, Codec, Rlp, RlpResult, joined, empty_string_only, empty_list_only, field_view,
  optional_at, decode_optional_field, b256_view, decode_optional_b256_allow_nil_list, encode_or,
  stats_items, cost_items,
}
use chain_adjacent_service.Nitro.Rlp.Laws.{
  IsItem, CodecLaws, RlpLaws, codec-IsItem, stats-IsItem, nil_string-IsItem, nil_list-IsItem,
  read_string_alone, read_nil_string, read_stats_alone, read_nil_list,
}

abbrev pub OptionAll : {A : Type 0} → (A → Type 0) → Option A → Type 0
OptionAll P none = Unit {0}
OptionAll P (some a) = P a

-- A zero is written as a missing number is, and is read back as one.
abbrev pub nonzero : Option ℕ → Option ℕ
nonzero none = none
nonzero (some zero) = none
nonzero (some (suc n)) = some (suc n)

abbrev pub total : List Bytes → ℕ
total [] = 0
total (bs ∷ rest) = length bs + total rest

pub length-joined : (items : List Bytes) → length (joined items) ≡ total items
length-joined [] = refl
length-joined (bs ∷ rest) = omega (arith, length-append bs (joined rest), length-joined rest)

field_view_string :
    {T : Type 0} (exact : Bytes → RlpResult T) (buf bs : Bytes) (t : T)
    → is_empty bs ≡ false
    → exact buf ≡ ok t
    → field_view empty_string_only exact buf (string bs) ≡ ok (some t)
field_view_string exact buf [] t h e = absurd (ground arith)
field_view_string exact buf (b ∷ bs) t h e = rw e refl

pub field_view_list :
    {T : Type 0} (exact : Bytes → RlpResult T) (buf : Bytes) (items : List Bytes) (t : T)
    → is_empty items ≡ false
    → exact buf ≡ ok t
    → field_view empty_list_only exact buf (list items) ≡ ok (some t)
field_view_list exact buf [] t h e = absurd (ground arith)
field_view_list exact buf (i ∷ items) t h e = rw e refl

module _ (R : Rlp) (L : RlpLaws R) where
  -- A number that may be missing.
  pub decode_optional_number :
      (c : Codec ℕ) (Fits : ℕ → Type 0) (o : Option ℕ)
      → CodecLaws R ℕ c L.be Fits
      → OptionAll Fits o
      → decode_optional_field R c.decode_exact empty_string_only (encode_or R (128 ∷ []) c.encode o)
        ≡ ok (nonzero o)
  decode_optional_number c Fits none laws h = rw (read_nil_string R L) refl
  decode_optional_number c Fits (some zero) laws h =
      let e : c.encode 0 ≡ 128 ∷ [] =
        laws.encodes 0 h ∙ ap R.slice.encode L.be_zero ∙ L.empty_string in
      rw (e, read_nil_string R L) refl
  decode_optional_number c Fits (some (suc n)) laws h =
      ap (λ raw. raw >>= λ r. field_view empty_string_only c.decode_exact (c.encode (suc n)) r.0)
        (ap R.decode_raw (laws.encodes (suc n) h)
          ∙ read_string_alone R L (L.be (suc n)) (laws.short (suc n) h))
      ∙ field_view_string c.decode_exact (c.encode (suc n)) (L.be (suc n)) (suc n) (L.be_positive n)
          (laws.decodes (suc n) h)

  b256_view_lem :
      (bs : Bytes) → length bs ≡ 32 → b256_view R (string bs) ≡ ok (some (R.b256_from_slice bs))
  b256_view_lem [] h = absurd (omega arith)
  b256_view_lem (b ∷ bs) h = rw h refl

  pub decode_request_id :
      (o : Option ℕ)
      → OptionAll (λ n. n < 2 ^ 256) o
      → decode_optional_b256_allow_nil_list R (encode_or R (R.list_header 0) R.b256.encode o) ≡ ok o
  decode_request_id none h = rw (read_nil_list R L) refl
  decode_request_id (some id) h =
      ap (λ raw. raw >>= λ r. b256_view R r.0)
        (ap R.decode_raw (L.b256_laws.encodes id h)
          ∙ read_string_alone R L (L.b256_bytes id) (L.b256_laws.short id h))
      ∙ b256_view_lem (L.b256_bytes id) (L.b256_length id)
      ∙ ap (λ n. ok (some n)) (L.b256_read id h)

  pub decode_stats :
      (s : BatchDataStats)
      → L.StatsFits s
      → decode_optional_field R R.stats.decode_exact empty_list_only (R.stats.encode s)
        ≡ ok (some s)
  decode_stats s h =
      ap
        (λ raw. raw >>= λ r. field_view empty_list_only R.stats.decode_exact (R.stats.encode s) r.0)
        (read_stats_alone R L s h)
      ∙ field_view_list R.stats.decode_exact (R.stats.encode s) (L.stats_fields s) s
          (L.stats_nonempty s) (L.stats_decodes s h)

  -- The two fields at the end, which are left out where they and what follows is missing.
  pub decode_cost :
      (cost : Option ℕ) (stats : Option BatchDataStats)
      → OptionAll IsU64 cost
      → optional_at
          (cost_items R cost stats ++ stats_items R stats)
          0
          (decode_optional_field R R.u64.decode_exact empty_string_only)
        ≡ ok (nonzero cost)
  decode_cost none none h = refl
  decode_cost none (some s) h = decode_optional_number R.u64 IsU64 none L.u64_laws tt
  decode_cost (some c) none h = decode_optional_number R.u64 IsU64 (some c) L.u64_laws h
  decode_cost (some c) (some s) h = decode_optional_number R.u64 IsU64 (some c) L.u64_laws h

  pub decode_batch_data_stats :
      (cost : Option ℕ) (stats : Option BatchDataStats)
      → OptionAll L.StatsFits stats
      → optional_at
          (cost_items R cost stats ++ stats_items R stats)
          1
          (decode_optional_field R R.stats.decode_exact empty_list_only)
        ≡ ok stats
  decode_batch_data_stats none none h = refl
  decode_batch_data_stats none (some s) h = decode_stats s h
  decode_batch_data_stats (some c) none h = refl
  decode_batch_data_stats (some c) (some s) h = decode_stats s h

  pub optional-IsItem :
      {A : Type 0} (nil : Bytes) (encode : A → Bytes) (o : Option A)
      → IsItem R nil
      → OptionAll (λ a. IsItem R (encode a)) o
      → IsItem R (encode_or R nil encode o)
  optional-IsItem nil encode none n h = n
  optional-IsItem nil encode (some a) n h = h

  pub number-IsItem :
      (c : Codec ℕ) (Fits : ℕ → Type 0) (o : Option ℕ)
      → CodecLaws R ℕ c L.be Fits
      → OptionAll Fits o
      → IsItem R (encode_or R (128 ∷ []) c.encode o)
  number-IsItem c Fits none laws h = nil_string-IsItem R L
  number-IsItem c Fits (some n) laws h = codec-IsItem R L ℕ c L.be Fits n laws h

  pub request_id-IsItem :
      (o : Option ℕ)
      → OptionAll (λ n. n < 2 ^ 256) o
      → IsItem R (encode_or R (R.list_header 0) R.b256.encode o)
  request_id-IsItem none h = nil_list-IsItem R L
  request_id-IsItem (some id) h =
      codec-IsItem R L ℕ R.b256 L.b256_bytes (λ n. n < 2 ^ 256) id L.b256_laws h

  pub tail-IsItem :
      (cost : Option ℕ) (stats : Option BatchDataStats)
      → OptionAll IsU64 cost
      → OptionAll L.StatsFits stats
      → All (IsItem R) (cost_items R cost stats ++ stats_items R stats)
  tail-IsItem none none h k = tt
  tail-IsItem none (some s) h k = (nil_string-IsItem R L, (stats-IsItem R L s k, tt))
  tail-IsItem (some c) none h k = (number-IsItem R.u64 IsU64 (some c) L.u64_laws h, tt)
  tail-IsItem (some c) (some s) h k =
      (number-IsItem R.u64 IsU64 (some c) L.u64_laws h, (stats-IsItem R L s k, tt))
