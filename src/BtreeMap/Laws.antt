-- ===== src/BtreeMap/Laws.antt =====
-- What the map operations do to the keys.
use chain_adjacent_service.Prelude.{
  ℕ, suc, ◌≤◌, ◌≡◌, refl, ◌||◌, ◌&&◌, not, [], ◌∷◌, leb, ◌==◌, arith,
}
use chain_adjacent_service.BtreeMap.{BtreeMap, keys, insert, remove, split_off}
use chain_adjacent_service.BtreeMap.{IncreasingFrom, member, IncreasingFrom-mono, member_below}

module _ {ℓ} {V : Type ℓ} where
  pub member-insert :
      (a k : ℕ) (v : V) (m : BtreeMap V)
      → member a (keys (insert k v m)) ≡ (a == k || member a (keys m))
  unfolding insert member
  member-insert a k v [] = refl
  member-insert a k v ((j, w) ∷ m) = ground (arith, member-insert a k v m)

  pub insert-IncreasingFrom :
      (n k : ℕ) (v : V) (m : BtreeMap V)
      → n ≤ k
      → IncreasingFrom n (keys m)
      → IncreasingFrom n (keys (insert k v m))
  unfolding insert
  insert-IncreasingFrom n k v [] h i = (h, tt)
  insert-IncreasingFrom n k v ((j, w) ∷ m) h i = ground (arith, insert-IncreasingFrom (suc j) k v m)

  pub member-remove :
      (a k n : ℕ) (m : BtreeMap V)
      → IncreasingFrom n (keys m)
      → member a (keys (remove k m)) ≡ (not (a == k) && member a (keys m))
  unfolding remove member
  member-remove a k n [] i = ground arith
  member-remove a k n ((j, w) ∷ m) i =
      ground (arith, member-remove a k (suc j) m i.1, member_below a (suc j) (keys m))

  pub remove-IncreasingFrom :
      (n k : ℕ) (m : BtreeMap V) → IncreasingFrom n (keys m) → IncreasingFrom n (keys (remove k m))
  unfolding remove
  remove-IncreasingFrom n k [] i = tt
  remove-IncreasingFrom n k ((j, w) ∷ m) i =
      ground (arith, remove-IncreasingFrom (suc j) k m i.1, IncreasingFrom-mono n (suc j) (keys m))

  pub member-split_off :
      (a k n : ℕ) (m : BtreeMap V)
      → IncreasingFrom n (keys m)
      → member a (keys (split_off k m)) ≡ (leb k a && member a (keys m))
  unfolding split_off member
  member-split_off a k n [] i = ground arith
  member-split_off a k n ((j, w) ∷ m) i =
      ground (arith, member-split_off a k (suc j) m i.1, member_below a (suc j) (keys m))

  pub split_off-IncreasingFrom :
      (n k : ℕ) (m : BtreeMap V)
      → IncreasingFrom n (keys m)
      → IncreasingFrom n (keys (split_off k m))
  unfolding split_off
  split_off-IncreasingFrom n k [] i = tt
  split_off-IncreasingFrom n k ((j, w) ∷ m) i = ground (
    arith,
    split_off-IncreasingFrom (suc j) k m i.1,
    IncreasingFrom-mono n (suc j) (keys (split_off k m)),
  )
