-- ===== src/Prelude/Words.antt =====
-- 64-bit words: wrap-around, and the eight bytes of `u64::to_be_bytes` and `u64::from_be_bytes`.
use Prim.Native.String.{String}
use Prim.Native.Char.{code}
use Prim.Native.Nat.{ℕ, zero, suc, ◌+◌, ◌*◌, ◌/◌, ◌%◌, ◌^◌, ◌<◌}
use mathlib.Core.Path.{◌≡◌, refl, ◌∙◌}
use mathlib.Core.List.{List, [], ◌∷◌, ◌++◌, append_assoc, append-nil}
use native.Mathlib.Nat.{pow-suc}
use native.Mathlib.Omega.{arith}
use mathlib.Core.Bool.{Bool, true, false, ◌&&◌}
use mathlib.Core.Logic.{◌↔◌}
use chain_adjacent_service.Prelude.Tests.{◌==◌}
use chain_adjacent_service.Prelude.Lists.{length, length-append, take, drop, replicate}

abbrev pub Bytes : Type 0
Bytes = List ℕ

-- The characters of a literal.
abbrev pub codes : String → Bytes
codes String.[] = []
codes (String.◌∷◌ c s) = code c ∷ codes s

-- Unsigned 64-bit arithmetic wraps in a release build.
abbrev pub u64 : ℕ → ℕ
u64 n = n % 18446744073709551616

abbrev pub IsU64 : ℕ → Type 0
IsU64 n = n < 18446744073709551616

abbrev pub All {ℓ κ} : {A : Type ℓ} → (A → Type κ) → List A → Type κ
All P [] = Unit
All P (x ∷ xs) = P x × All P xs

abbrev pub IsByte : ℕ → Type 0
IsByte b = b < 256

pub All-append {ℓ κ} :
    {A : Type ℓ} (P : A → Type κ) (xs ys : List A) → All P xs → All P ys → All P (xs ++ ys)
All-append P [] ys h k = k
All-append P (x ∷ xs) ys (hx, hxs) k = (hx, All-append P xs ys hxs k)

pub All-replicate {ℓ κ} :
    {A : Type ℓ} (P : A → Type κ) (n : ℕ) (a : A) → P a → All P (replicate n a)
All-replicate P zero a h = tt
All-replicate P (suc n) a h = (h, All-replicate P n a h)

pub All-imp {ℓ κ μ} :
    {A : Type ℓ} {P : A → Type κ} {Q : A → Type μ} (xs : List A)
    → ((x : A) → P x → Q x)
    → All P xs
    → All Q xs
All-imp [] f h = tt
All-imp (x ∷ xs) f h = (f x h.0, All-imp xs f h.1)

pub All-take {ℓ κ} :
    {A : Type ℓ} (P : A → Type κ) (n : ℕ) (xs : List A) → All P xs → All P (take n xs)
All-take P zero xs h = tt
All-take P (suc n) [] h = tt
All-take P (suc n) (x ∷ xs) h = (h.0, All-take P n xs h.1)

pub All-drop {ℓ κ} :
    {A : Type ℓ} (P : A → Type κ) (n : ℕ) (xs : List A) → All P xs → All P (drop n xs)
All-drop P zero xs h = h
All-drop P (suc n) [] h = tt
All-drop P (suc n) (x ∷ xs) h = All-drop P n xs h.1

-- The `k` low bytes of a number, highest first.
pub be_bytes : ℕ → ℕ → Bytes
be_bytes zero n = []
be_bytes (suc k) n = be_bytes k (n / 256) ++ (n % 256) ∷ []

unfoldable pub to_be_bytes : ℕ → Bytes
unfolding be_bytes
to_be_bytes n = be_bytes 8 n

-- The value of a slice of bytes, read on from `acc`.
unfoldable pub from_be : ℕ → Bytes → ℕ
from_be acc [] = acc
from_be acc (b ∷ bs) = from_be (acc * 256 + b) bs

unfoldable pub from_be_bytes : Bytes → ℕ
unfolding from_be
from_be_bytes bs = from_be 0 bs

length-be_bytes : (k n : ℕ) → length (be_bytes k n) ≡ k
unfolding be_bytes
length-be_bytes zero n = refl
length-be_bytes (suc k) n =
    omega
      (arith, length-append (be_bytes k (n / 256)) ((n % 256) ∷ []), length-be_bytes k (n / 256))

pub length-to_be_bytes : (n : ℕ) → length (to_be_bytes n) ≡ 8
unfolding to_be_bytes
length-to_be_bytes n = length-be_bytes 8 n

from_be-append : (acc : ℕ) (xs ys : Bytes) → from_be acc (xs ++ ys) ≡ from_be (from_be acc xs) ys
unfolding from_be
from_be-append acc [] ys = refl
from_be-append acc (x ∷ xs) ys = from_be-append (acc * 256 + x) xs ys

from_be-be_bytes : (k n : ℕ) → n < 256 ^ k → from_be 0 (be_bytes k n) ≡ n
unfolding from_be be_bytes
from_be-be_bytes zero n h = omega arith
from_be-be_bytes (suc k) n h =
    rw (from_be-append 0 (be_bytes k (n / 256)) ((n % 256) ∷ []))
      (omega (arith, from_be-be_bytes k (n / 256) (fits k n h)))
  where
    fits : (k n : ℕ) → n < 256 ^ suc k → n / 256 < 256 ^ k
    fits k n h = omega (arith, pow-suc 256 k)

-- Reading back the eight bytes of a 64-bit number gives the number.
pub from_be_bytes-to_be_bytes : (n : ℕ) → IsU64 n → from_be_bytes (to_be_bytes n) ≡ n
unfolding from_be_bytes to_be_bytes
from_be_bytes-to_be_bytes n h = from_be-be_bytes 8 n (omega arith)

be_bytes-from_be :
    (bs : Bytes) (j m acc : ℕ)
    → m ≡ j + length bs
    → All IsByte bs
    → be_bytes m (from_be acc bs) ≡ be_bytes j acc ++ bs
unfolding from_be be_bytes
be_bytes-from_be [] j m acc e h = let e' : m ≡ j = omega arith in rw (e', append-nil)
be_bytes-from_be (b ∷ bs) j m acc e (hb, hbs) =
    be_bytes-from_be bs (suc j) m (acc * 256 + b) (omega arith) hbs
    ∙ rw (div_eq, mod_eq, append_assoc)
  where
    div_eq : (acc * 256 + b) / 256 ≡ acc
    div_eq = omega arith

    mod_eq : (acc * 256 + b) % 256 ≡ b
    mod_eq = omega arith

-- Any eight bytes are the bytes of the number that they spell.
pub to_be_bytes-from_be_bytes :
    (bs : Bytes) → length bs ≡ 8 → All IsByte bs → to_be_bytes (from_be_bytes bs) ≡ bs
unfolding to_be_bytes from_be_bytes be_bytes
to_be_bytes-from_be_bytes bs e h = be_bytes-from_be bs 0 8 0 (omega arith) h

from_be-lt :
    (bs : Bytes) (acc j m : ℕ)
    → m ≡ j + length bs
    → acc < 256 ^ j
    → All IsByte bs
    → from_be acc bs < 256 ^ m
unfolding from_be
from_be-lt [] acc j m e h hb = let e' : m ≡ j = omega arith in rw e' h
from_be-lt (b ∷ bs) acc j m e h hb =
    from_be-lt bs (acc * 256 + b) (suc j) m (omega arith) (omega (arith, pow-suc 256 j)) hb.1

pub from_be_bytes-IsU64 : (bs : Bytes) → length bs ≡ 8 → All IsByte bs → IsU64 (from_be_bytes bs)
unfolding from_be_bytes
from_be_bytes-IsU64 bs e h = from_be-lt bs 0 0 8 (omega arith) (omega arith) h

be_bytes-IsByte : (k n : ℕ) → All IsByte (be_bytes k n)
unfolding be_bytes
be_bytes-IsByte zero n = tt
be_bytes-IsByte (suc k) n =
    All-append IsByte (be_bytes k (n / 256)) ((n % 256) ∷ []) (be_bytes-IsByte k (n / 256))
      (omega arith)

pub to_be_bytes-IsByte : (n : ℕ) → All IsByte (to_be_bytes n)
unfolding to_be_bytes
to_be_bytes-IsByte n = be_bytes-IsByte 8 n

unfoldable pub bytes_eq : Bytes → Bytes → Bool
bytes_eq [] [] = true
bytes_eq [] (y ∷ ys) = false
bytes_eq (x ∷ xs) [] = false
bytes_eq (x ∷ xs) (y ∷ ys) = x == y && bytes_eq xs ys

pub bytes_eq_iff : (xs ys : Bytes) → (bytes_eq xs ys ≡ true) ↔ (xs ≡ ys)
unfolding bytes_eq
bytes_eq_iff [] [] = ground arith
bytes_eq_iff [] (y ∷ ys) = ground arith
bytes_eq_iff (x ∷ xs) [] = ground arith
bytes_eq_iff (x ∷ xs) (y ∷ ys) = ground (arith, bytes_eq_iff xs ys)
