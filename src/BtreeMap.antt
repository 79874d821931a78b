-- ===== src/BtreeMap.antt =====
-- The standard library's `BTreeMap` and `BTreeSet` over 64-bit keys, as lists in the order of the
-- keys, and `Vec` operations on lists that are sorted by a key.
mod Increasing
pub mod Laws
unfoldable pub use Increasing.*
use chain_adjacent_service.Prelude.{
  ℕ, zero, suc, ◌+◌, ◌≤◌, ◌<◌, ◌≡◌, Bool, true, false, ◌||◌, Option, none, some, List, [], ◌∷◌, map,
  ltb, leb, ◌==◌, if◌then◌else◌,
}

abbrev pub BtreeMap {ℓ} : Type ℓ → Type ℓ
BtreeMap V = List (ℕ × V)

module _ {ℓ} {V : Type ℓ} where
  abbrev pub keys : BtreeMap V → List ℕ
  keys [] = []
  keys ((j, w) ∷ m) = j ∷ keys m

  unfoldable pub insert : ℕ → V → BtreeMap V → BtreeMap V
  insert k v [] = (k, v) ∷ []
  insert k v ((j, w) ∷ m) =
      if ltb k j then (k, v) ∷ (j, w) ∷ m else if k == j then (k, v) ∷ m else (j, w) ∷ insert k v m

  unfoldable pub get : ℕ → BtreeMap V → Option V
  get k [] = none
  get k ((j, w) ∷ m) = if k == j then some w else get k m

  unfoldable pub remove : ℕ → BtreeMap V → BtreeMap V
  remove k [] = []
  remove k ((j, w) ∷ m) = if k == j then m else (j, w) ∷ remove k m

  -- The part with the keys from `k` on.
  unfoldable pub split_off : ℕ → BtreeMap V → BtreeMap V
  split_off k [] = []
  split_off k ((j, w) ∷ m) = if ltb j k then split_off k m else (j, w) ∷ m
