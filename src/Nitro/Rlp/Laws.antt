-- ===== src/Nitro/Rlp/Laws.antt =====
-- rollups/nitro/types.rs: what the encoding and the decoding rely on of alloy_rlp.
use chain_adjacent_service.Prelude.{
  length, is_empty, ok, ℕ, suc, ◌^◌, ap, subst, sym, ◌<◌, ◌≡◌, refl, ◌∙◌, false, List, [], ◌∷◌,
  ◌++◌, arith,
}
use mathlib.Core.List.{append_assoc, append-nil}
use chain_adjacent_service.Prelude.Words.{Bytes, IsU64, All}
use chain_adjacent_service.Nitro.{BatchDataStats}
use chain_adjacent_service.Nitro.Rlp.{
  PayloadView, string, list, Codec, Rlp, RlpResult, joined, decode_list,
}

-- The bytes are an item: at the front of any others they are what is read.
pub record IsItem (R : Rlp) (bs : Bytes) : Type 0 where
  pub view : PayloadView
  pub reads : (rest : Bytes) → R.decode_raw (bs ++ rest) ≡ ok (view, rest)

-- The type is encoded as a string, of the bytes that `bytes_of` gives, and read back.
pub record CodecLaws (R : Rlp) (A : Type 0) (c : Codec A) (bytes_of : A → Bytes) (Fits : A → Type 0)
    : Type 0 where
  pub encodes : (a : A) → Fits a → c.encode a ≡ R.slice.encode (bytes_of a)
  pub short : (a : A) → Fits a → IsU64 (length (bytes_of a))
  pub decodes : (a : A) → Fits a → c.decode_exact (c.encode a) ≡ ok a
  pub measured : (a : A) → Fits a → c.length_of a ≡ length (c.encode a)

pub record RlpLaws (R : Rlp) : Type 1 where
  -- the bytes of a number without leading zeros
  pub be : ℕ → Bytes
  pub be_zero : be 0 ≡ []
  pub be_positive : (n : ℕ) → is_empty (be (suc n)) ≡ false
  pub address_bytes : ℕ → Bytes
  pub b256_bytes : ℕ → Bytes
  pub u8_laws : CodecLaws R ℕ R.u8 be (λ n. n < 2 ^ 8)
  pub u64_laws : CodecLaws R ℕ R.u64 be IsU64
  pub u256_laws : CodecLaws R ℕ R.u256 be (λ n. n < 2 ^ 256)
  pub address_laws : CodecLaws R ℕ R.address address_bytes (λ n. n < 2 ^ 160)
  pub b256_laws : CodecLaws R ℕ R.b256 b256_bytes (λ n. n < 2 ^ 256)
  pub b256_length : (n : ℕ) → length (b256_bytes n) ≡ 32
  pub b256_read : (n : ℕ) → n < 2 ^ 256 → R.b256_from_slice (b256_bytes n) ≡ n
  pub slice_laws : CodecLaws R Bytes R.slice (λ bs. bs) (λ bs. IsU64 (length bs))
  pub read_string :
      (bs rest : Bytes)
      → IsU64 (length bs)
      → R.decode_raw (R.slice.encode bs ++ rest) ≡ ok (string bs, rest)
  pub empty_string : R.slice.encode [] ≡ 128 ∷ []
  -- a derived encoding is a list of the fields
  pub StatsFits : BatchDataStats → Type 0
  pub stats_fields : BatchDataStats → List Bytes
  pub stats_nonempty : (s : BatchDataStats) → is_empty (stats_fields s) ≡ false
  pub read_stats :
      (s : BatchDataStats) (rest : Bytes)
      → StatsFits s
      → R.decode_raw (R.stats.encode s ++ rest) ≡ ok (list (stats_fields s), rest)
  pub stats_decodes :
      (s : BatchDataStats) → StatsFits s → R.stats.decode_exact (R.stats.encode s) ≡ ok s
  pub stats_measured :
      (s : BatchDataStats) → StatsFits s → R.stats.length_of s ≡ length (R.stats.encode s)
  pub read_list :
      (items : List Bytes) (rest : Bytes)
      → All (IsItem R) items
      → IsU64 (length (joined items))
      → R.decode_raw (R.list_header (length (joined items)) ++ (joined items ++ rest))
        ≡ ok (list items, rest)
  pub header_measured : (n : ℕ) → IsU64 n → R.length_of_length n ≡ length (R.list_header n)
  pub empty_list_measured : length (R.list_header 0) ≡ 1
  pub exact :
      {T : Type 0} (decode : Bytes → RlpResult (T × Bytes)) (bs : Bytes) (t : T)
      → decode bs ≡ ok (t, [])
      → R.decode_exact decode bs ≡ ok t

module _ (R : Rlp) (L : RlpLaws R) where
  pub string-IsItem : (bs : Bytes) → IsU64 (length bs) → IsItem R (R.slice.encode bs)
  string-IsItem bs h = record { view = string bs; reads = λ rest. L.read_string bs rest h }

  pub codec-IsItem :
      (A : Type 0) (c : Codec A) (bytes_of : A → Bytes) (Fits : A → Type 0) (a : A)
      → CodecLaws R A c bytes_of Fits
      → Fits a
      → IsItem R (c.encode a)
  codec-IsItem A c bytes_of Fits a laws h =
      rw (laws.encodes a h) (string-IsItem (bytes_of a) (laws.short a h))

  pub stats-IsItem : (s : BatchDataStats) → L.StatsFits s → IsItem R (R.stats.encode s)
  stats-IsItem s h = record {
    view = list (L.stats_fields s);
    reads = λ rest. L.read_stats s rest h;
  }

  pub nil_string-IsItem : IsItem R (128 ∷ [])
  nil_string-IsItem = subst (IsItem R) L.empty_string (string-IsItem [] (omega arith))

  read_list_item :
      (items : List Bytes) (rest : Bytes)
      → All (IsItem R) items
      → IsU64 (length (joined items))
      → R.decode_raw ((R.list_header (length (joined items)) ++ joined items) ++ rest)
        ≡ ok (list items, rest)
  read_list_item items rest h small =
      ap R.decode_raw (append_assoc (R.list_header (length (joined items))) (joined items) rest)
      ∙ L.read_list items rest h small

  pub list-IsItem :
      (items : List Bytes)
      → All (IsItem R) items
      → IsU64 (length (joined items))
      → IsItem R (R.list_header (length (joined items)) ++ joined items)
  list-IsItem items h small = record {
    view = list items;
    reads = λ rest. read_list_item items rest h small;
  }

  pub nil_list-IsItem : IsItem R (R.list_header 0)
  nil_list-IsItem = record { view = list []; reads = λ rest. L.read_list [] rest tt (omega arith) }

  -- The same with nothing behind the item.
  pub read_string_alone :
      (bs : Bytes) → IsU64 (length bs) → R.decode_raw (R.slice.encode bs) ≡ ok (string bs, [])
  read_string_alone bs h =
      ap R.decode_raw (sym (append-nil (R.slice.encode bs))) ∙ L.read_string bs [] h

  pub read_nil_string : R.decode_raw (128 ∷ []) ≡ ok (string [], [])
  read_nil_string = ap R.decode_raw (sym L.empty_string) ∙ read_string_alone [] (omega arith)

  pub read_stats_alone :
      (s : BatchDataStats)
      → L.StatsFits s
      → R.decode_raw (R.stats.encode s) ≡ ok (list (L.stats_fields s), [])
  read_stats_alone s h = ap R.decode_raw (sym (append-nil (R.stats.encode s))) ∙ L.read_stats s [] h

  pub read_nil_list : R.decode_raw (R.list_header 0) ≡ ok (list [], [])
  read_nil_list =
      ap R.decode_raw (sym (append-nil (R.list_header 0))) ∙ L.read_list [] [] tt (omega arith)

  pub read_list_alone :
      (items : List Bytes)
      → All (IsItem R) items
      → IsU64 (length (joined items))
      → R.decode_raw (R.list_header (length (joined items)) ++ joined items) ≡ ok (list items, [])
  read_list_alone items h small =
      ap R.decode_raw (sym (append-nil (R.list_header (length (joined items)) ++ joined items)))
      ∙ read_list_item items [] h small

  -- Reading a list of fields.
  pub decode_list_lem :
      {T : Type 0} (of_fields : List Bytes → RlpResult T) (items : List Bytes) (rest : Bytes)
      (t : T)
      → All (IsItem R) items
      → IsU64 (length (joined items))
      → of_fields items ≡ ok t
      → decode_list R of_fields ((R.list_header (length (joined items)) ++ joined items) ++ rest)
        ≡ ok (t, rest)
  decode_list_lem of_fields items rest t h small e = rw (read_list_item items rest h small, e) refl
