-- ===== src/BtreeMap/Increasing.antt =====
-- Strictly increasing lists of keys, membership, and the `Vec` operations of a sorted queue.
use chain_adjacent_service.Prelude.{
  ℕ, zero, suc, ◌≤◌, ◌<◌, ◌≡◌, refl, Bool, false, ◌||◌, List, [], ◌∷◌, ◌==◌, if◌then◌else◌, arith,
}

-- Strictly increasing from `n` on.
abbrev pub IncreasingFrom : ℕ → List ℕ → Type 0
IncreasingFrom n [] = Unit {0}
IncreasingFrom n (x ∷ xs) = (n ≤ x) × IncreasingFrom (suc x) xs

abbrev pub IsIncreasing : List ℕ → Type 0
IsIncreasing = IncreasingFrom 0

unfoldable pub member : ℕ → List ℕ → Bool
member k [] = false
member k (x ∷ xs) = k == x || member k xs

module _ {ℓ} {A : Type ℓ} where
  -- `slice::partition_point`: how many items at the front pass the test.
  unfoldable pub partition_point : (A → Bool) → List A → ℕ
  partition_point test [] = 0
  partition_point test (x ∷ xs) = if test x then suc (partition_point test xs) else 0

  -- `Vec::insert`
  unfoldable pub insert_at : ℕ → A → List A → List A
  insert_at zero a xs = a ∷ xs
  insert_at (suc n) a [] = a ∷ []
  insert_at (suc n) a (x ∷ xs) = x ∷ insert_at n a xs

  -- `Vec::pop` of the vector that holds `x` and then `xs`: what is left, and the last item.
  unfoldable pub pop_from : A → List A → List A × A
  pop_from x [] = ([], x)
  pop_from x (y ∷ ys) = let (front, last) = pop_from y ys in (x ∷ front, last)

pub IncreasingFrom-mono :
    (m n : ℕ) (xs : List ℕ) → m ≤ n → IncreasingFrom n xs → IncreasingFrom m xs
IncreasingFrom-mono m n [] h v = tt
IncreasingFrom-mono m n (x ∷ xs) h v = (omega arith, v.1)

pub member_below : (k n : ℕ) (xs : List ℕ) → k < n → IncreasingFrom n xs → member k xs ≡ false
unfolding member
member_below k n [] h v = refl
member_below k n (x ∷ xs) h v = ground (arith, member_below k (suc x) xs)
