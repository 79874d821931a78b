-- ===== src/Nitro/Rlp/TestData.antt =====
-- A simple encoding with the laws of RLP: the first number of an item says whether it is a string or a
-- list, and how long it is.
use chain_adjacent_service.Prelude.{
  ltb, leb, if◌then◌else◌, length, length-append, length-drop, take, drop, take-append, drop-append,
  replicate, is_empty, ok, err, ◌>>=◌, ◌>>◌, guard, bind_ok, guard_ok, not_both, ℕ, zero, suc, ◌+◌,
  ◌-◌, ◌<◌, ◌≤◌, ◌^◌, ◌≡◌, refl, sym, ap, ◌∙◌, List, [], ◌∷◌, ◌++◌, true, false, arith,
}
use mathlib.Core.List.{append-nil}
use chain_adjacent_service.Prelude.Words.{Bytes, IsU64, All}
use chain_adjacent_service.Nitro.{BatchDataStats}
use chain_adjacent_service.Nitro.Rlp.{
  RlpResult, other_error, PayloadView, string, list, Codec, Rlp, joined,
}
use chain_adjacent_service.Nitro.Rlp.Laws.{IsItem, CodecLaws, RlpLaws}

-- A string of `n` bytes starts with `128 + n`, a list of `n` bytes with `2 ^ 64 + 128 + n`.
abbrev pub list_start : ℕ
list_start = 18446744073709551744

abbrev pub size : ℕ → ℕ
size c = if ltb c list_start then c - 128 else c - list_start

abbrev pub put_string : Bytes → Bytes
put_string bs = (128 + length bs) ∷ bs

-- The items of a payload.
unfoldable pub split : ℕ → Bytes → List Bytes
split fuel [] = []
split zero (c ∷ rest) = []
split (suc fuel) (c ∷ rest) = (c ∷ take (size c) rest) ∷ split fuel (drop (size c) rest)

abbrev pub view_of : ℕ → Bytes → PayloadView
unfolding split
view_of c payload =
    if ltb c list_start then string payload else list (split (length payload) payload)

abbrev pub read_item : Bytes → RlpResult (PayloadView × Bytes)
read_item [] = err (other_error 0)
read_item (c ∷ rest) =
    guard (leb 128 c) (other_error 1)
    >> (guard (leb (size c) (length rest)) (other_error 2)
        >> ok (view_of c (take (size c) rest), drop (size c) rest))

abbrev pub second : Bytes → ℕ
second [] = 0
second (a ∷ []) = 0
second (a ∷ b ∷ bs) = b

abbrev pub number_codec : (ℕ → Bytes) → Codec ℕ
number_codec bytes_of = record {
  encode = λ n. put_string (bytes_of n);
  length_of = λ n. length (put_string (bytes_of n));
  decode_exact = λ bs. ok (second bs);
}

abbrev pub minimal_bytes : ℕ → Bytes
minimal_bytes zero = []
minimal_bytes (suc n) = suc n ∷ []

abbrev pub fields_of : BatchDataStats → List Bytes
fields_of s = put_string (minimal_bytes s.length) ∷ put_string (minimal_bytes s.non_zeros) ∷ []

abbrev pub put_stats : BatchDataStats → Bytes
put_stats s = (list_start + length (joined (fields_of s))) ∷ joined (fields_of s)

abbrev pub stats_of : PayloadView → RlpResult BatchDataStats
stats_of (string bytes) = err (other_error 3)
stats_of (list []) = err (other_error 3)
stats_of (list (a ∷ [])) = err (other_error 3)
stats_of (list (a ∷ b ∷ items)) = ok record { length = second a; non_zeros = second b }

abbrev pub wide : ℕ → Bytes
wide n = n ∷ replicate 31 0

abbrev pub first : Bytes → ℕ
first [] = 0
first (b ∷ bs) = b

abbrev pub tail_of : Bytes → Bytes
tail_of [] = []
tail_of (b ∷ bs) = bs

abbrev pub test_rlp : Rlp
test_rlp = record {
  u8 = number_codec minimal_bytes;
  u64 = number_codec minimal_bytes;
  u256 = number_codec minimal_bytes;
  address = number_codec (λ n. n ∷ []);
  b256 = number_codec wide;
  b256_from_slice = first;
  slice = record {
    encode = put_string;
    length_of = λ bs. length (put_string bs);
    decode_exact = λ bs. ok (tail_of bs);
  };
  stats = record {
    encode = put_stats;
    length_of = λ s. length (put_stats s);
    decode_exact = λ bs. read_item bs >>= λ raw. stats_of raw.0;
  };
  list_header = λ n. (list_start + n) ∷ [];
  length_of_length = λ n. 1;
  decode_raw = read_item;
  decode_exact =
      λ decode bs. decode bs >>= λ raw. guard (is_empty raw.1) (other_error 4) >> ok raw.0;
}

size_string : (n : ℕ) → IsU64 n → size (128 + n) ≡ n
size_string n h = ground arith

size_list : (n : ℕ) → size (list_start + n) ≡ n
size_list n = ground arith

-- An item of the right size is read, whatever is behind it.
read_sized :
    (c : ℕ) (bs rest : Bytes)
    → 128 ≤ c
    → size c ≡ length bs
    → read_item (c ∷ (bs ++ rest)) ≡ ok (view_of c bs, rest)
read_sized c bs rest h e =
    rw (e, leb_true 128 c h, fits, take-append bs rest, drop-append bs rest) refl
  where
    leb_true : (a b : ℕ) → a ≤ b → leb a b ≡ true
    leb_true a b h = ground arith

    fits : leb (length bs) (length (bs ++ rest)) ≡ true
    fits = leb_true (length bs) (length (bs ++ rest)) (omega (arith, length-append bs rest))

read_put_string :
    (bs rest : Bytes) → IsU64 (length bs) → read_item (put_string bs ++ rest) ≡ ok (string bs, rest)
unfolding view_of
read_put_string bs rest h =
    read_sized (128 + length bs) bs rest (omega arith) (size_string (length bs) h)
    ∙ rw (below (length bs) h) refl
  where
    below : (n : ℕ) → IsU64 n → ltb (128 + n) list_start ≡ true
    below n h = ground arith

item_shape :
    (bs : Bytes) → IsItem test_rlp bs → (c : ℕ) × (t : Bytes) × (bs ≡ c ∷ t) × (size c ≡ length t)
item_shape [] i = not_both (i.reads [])
item_shape (c ∷ t) i =
    let (u, e0, h0) = bind_ok (guard (leb 128 c) (other_error 1)) (i.reads []) in
    let (v, e1, h1) = bind_ok (guard (leb (size c) (length (t ++ []))) (other_error 2)) h0 in
    (
      c,
      t,
      refl,
      exact_size (guard_ok (leb (size c) (length (t ++ []))) (other_error 2) e1)
          (ap length (rest_of h1)),
    )
  where
    rest_of :
        {v w : PayloadView} {x y : Bytes}
        → Path (RlpResult (PayloadView × Bytes)) (ok (v, x)) (ok (w, y))
        → x ≡ y
    rest_of h = cc

    le_of : (a b : ℕ) → leb a b ≡ true → a ≤ b
    le_of a b h = ground arith

    exact_size :
        leb (size c) (length (t ++ [])) ≡ true
        → length (drop (size c) (t ++ [])) ≡ 0
        → size c ≡ length t
    exact_size h k = omega (
      arith,
      le_of (size c) (length (t ++ [])) h,
      k,
      length-drop (size c) (t ++ []),
      length-append t [],
    )

split_item :
    (fuel c : ℕ) (t rest : Bytes)
    → size c ≡ length t
    → split (suc fuel) (c ∷ (t ++ rest)) ≡ (c ∷ t) ∷ split fuel rest
unfolding split
split_item fuel c t rest sized = rw (sized, take-append t rest, drop-append t rest) refl

split-joined :
    (fuel : ℕ) (items : List Bytes)
    → length (joined items) ≤ fuel
    → All (IsItem test_rlp) items
    → split fuel (joined items) ≡ items
unfolding split
split-joined fuel [] h k = split_nil fuel
  where
    split_nil : (fuel : ℕ) → split fuel [] ≡ []
    split_nil zero = refl
    split_nil (suc f) = refl
split-joined zero (item ∷ items) h (i, k) =
    let (c, t, shape, sized) = item_shape item i in
    absurd (omega (arith, h, ap (λ l. length (l ++ joined items)) shape))
split-joined (suc f) (item ∷ items) h (i, k) =
    let (c, t, shape, sized) = item_shape item i in
    let shorter : length (joined items) ≤ f =
      omega
        (arith, h, ap (λ l. length (l ++ joined items)) shape, length-append t (joined items)) in
    ap (λ l. split (suc f) (l ++ joined items)) shape
    ∙ split_item f c t (joined items) sized
    ∙ ap (λ l. (c ∷ t) ∷ l) (split-joined f items shorter k)
    ∙ ap (λ x. x ∷ items) (sym shape)

read_list :
    (items : List Bytes) (rest : Bytes)
    → All (IsItem test_rlp) items
    → read_item ((list_start + length (joined items)) ∷ (joined items ++ rest))
      ≡ ok (list items, rest)
unfolding view_of
read_list items rest h =
    read_sized (list_start + length (joined items)) (joined items) rest (omega arith)
      (size_list (length (joined items)))
    ∙ rw (above (length (joined items)), split-joined (length (joined items)) items (omega arith) h)
        refl
  where
    above : (n : ℕ) → ltb (list_start + n) list_start ≡ false
    above n = ground arith

number_laws :
    (bytes_of : ℕ → Bytes) (Fits : ℕ → Type 0)
    → ((n : ℕ) → Fits n → second (put_string (bytes_of n)) ≡ n)
    → ((n : ℕ) → Fits n → IsU64 (length (bytes_of n)))
    → CodecLaws test_rlp ℕ (number_codec bytes_of) bytes_of Fits
number_laws bytes_of Fits back small = record {
  encodes = λ n h. refl;
  short = small;
  decodes = λ n h. ap ok (back n h);
  measured = λ n h. refl;
}

be_short : (n : ℕ) → IsU64 (length (minimal_bytes n))
be_short zero = omega arith
be_short (suc n) = omega arith

be_second : (n : ℕ) → second (put_string (minimal_bytes n)) ≡ n
be_second zero = refl
be_second (suc n) = refl

read_fields :
    (s : BatchDataStats) (rest : Bytes)
    → read_item (put_stats s ++ rest) ≡ ok (list (fields_of s), rest)
read_fields s rest =
    read_list (fields_of s) rest (number_item s.length, (number_item s.non_zeros, tt))
  where
    number_item : (n : ℕ) → IsItem test_rlp (put_string (minimal_bytes n))
    number_item n = record {
      view = string (minimal_bytes n);
      reads = λ rest. read_put_string (minimal_bytes n) rest (be_short n);
    }

stats_back : (s : BatchDataStats) → test_rlp.stats.decode_exact (put_stats s) ≡ ok s
stats_back s =
    ap (λ m. m >>= λ raw. stats_of raw.0)
      (ap read_item (sym (append-nil (put_stats s))) ∙ read_fields s [])
    ∙ rw (be_second s.length, be_second s.non_zeros) refl

pub test_rlp_laws : RlpLaws test_rlp
test_rlp_laws = record {
  be = minimal_bytes;
  be_zero = refl;
  be_positive = λ n. refl;
  address_bytes = λ n. n ∷ [];
  b256_bytes = wide;
  u8_laws = number_laws minimal_bytes (λ n. n < 2 ^ 8) (λ n h. be_second n) (λ n h. be_short n);
  u64_laws = number_laws minimal_bytes IsU64 (λ n h. be_second n) (λ n h. be_short n);
  u256_laws = number_laws minimal_bytes (λ n. n < 2 ^ 256) (λ n h. be_second n) (λ n h. be_short n);
  address_laws = number_laws (λ n. n ∷ []) (λ n. n < 2 ^ 160) (λ n h. refl) (λ n h. omega arith);
  b256_laws = number_laws wide (λ n. n < 2 ^ 256) (λ n h. refl) (λ n h. omega arith);
  b256_length = λ n. refl;
  b256_read = λ n h. refl;
  slice_laws = record {
    encodes = λ bs h. refl;
    short = λ bs h. h;
    decodes = λ bs h. refl;
    measured = λ bs h. refl;
  };
  read_string = read_put_string;
  empty_string = refl;
  StatsFits = λ s. IsU64 s.length × IsU64 s.non_zeros;
  stats_fields = fields_of;
  stats_nonempty = λ s. refl;
  read_stats = λ s rest h. read_fields s rest;
  stats_decodes = λ s h. stats_back s;
  stats_measured = λ s h. refl;
  read_list = λ items rest h small. read_list items rest h;
  header_measured = λ n h. refl;
  empty_list_measured = refl;
  exact = λ decode bs t h. rw h refl;
}

pub stats_fit :
    (s : BatchDataStats) → IsU64 s.length → IsU64 s.non_zeros → test_rlp_laws.StatsFits s
unfolding test_rlp_laws
stats_fit s h k = (h, k)
