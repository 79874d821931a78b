-- ===== src/L1Monitor/Scan.antt =====
-- rollups/nitro/l1_monitor.rs: the search in windows finds what a search of the whole range finds.
use chain_adjacent_service.Prelude.{
  leb, if◌then◌else◌, Bool-cases, last, last_prepend, filter, Result, ok, ◌>>=◌, ℕ, suc, ◌≤◌, ◌≡◌,
  refl, ap, ◌∙◌, inl, inr, Bool, true, false, ◌&&◌, Option, none, some, List, [], ◌∷◌, arith,
}
use chain_adjacent_service.L1Monitor.{
  L1MonitorError, CasCheckpoint, LogScanner, checkpoint_of, not_found,
}

module _ (S : LogScanner) (block : S.Log → ℕ) where
  abbrev pub within : ℕ → ℕ → S.Log → Bool
  within from to log = leb from (block log) && leb (block log) to

  abbrev pub logs_within : ℕ → ℕ → List S.Log → List S.Log
  logs_within from to logs = filter (within from to) logs

  -- The logs of the chain, in the order of their blocks.
  abbrev pub Ordered : ℕ → List S.Log → Type 0
  Ordered n [] = Unit {0}
  Ordered n (x ∷ xs) = (n ≤ block x) × Ordered (block x) xs

  -- What is relied on of the provider: it returns the logs of the range in the order of the chain.
  abbrev pub Provides : List S.Log → Type 0
  Provides chain = (from to : ℕ) → S.get_logs from to ≡ ok (logs_within from to chain)

  abbrev pub outcome : ℕ → Option S.Log → Result L1MonitorError CasCheckpoint
  outcome max_l1_blocks none = not_found S max_l1_blocks
  outcome max_l1_blocks (some log) = S.decode_log log >>= λ event. ok (checkpoint_of event)

  within_cut :
      (a b c : ℕ) (x : S.Log) → within (suc b) c x ≡ false → b ≤ c → within a c x ≡ within a b x
  within_cut a b c x h l = ground arith

  -- With nothing above `b`, the logs up to `c` are those up to `b`.
  pub logs_within_cut :
      (a b c : ℕ) (xs : List S.Log)
      → b ≤ c
      → logs_within (suc b) c xs ≡ []
      → logs_within a c xs ≡ logs_within a b xs
  logs_within_cut a b c [] l e = refl
  logs_within_cut a b c (x ∷ xs) l e = elim (Bool-cases (within (suc b) c x)) [
    | inl h ↦ absurd (nonempty (rw h at e))
    | inr h ↦
        let e' = rw h at e in
        let same = within_cut a b c x h l in
        ap (λ t. if t then x ∷ logs_within a c xs else logs_within a c xs) same
        ∙ ap (λ ls. if within a b x then x ∷ ls else ls) (logs_within_cut a b c xs l e')
  ]
    where
      nonempty : {x : S.Log} {xs : List S.Log} → (x ∷ xs) ≡ [] → ⊥
      nonempty h = ground arith

  Ordered-all :
      (a b c n : ℕ) (xs : List S.Log)
      → a ≤ n
      → b ≤ n
      → Ordered n xs
      → logs_within a c xs ≡ logs_within b c xs
  Ordered-all a b c n [] l k v = refl
  Ordered-all a b c n (x ∷ xs) l k v =
      let same : within a c x ≡ within b c x = ground (arith, v.0) in
      ap (λ t. if t then x ∷ logs_within a c xs else logs_within a c xs) same
      ∙ ap (λ ls. if within b c x then x ∷ ls else ls)
          (Ordered-all a b c (block x) xs (omega (arith, v.0)) (omega (arith, v.0)) v.1)

  -- The last log of a range is the last log of a longer one.
  pub last_within :
      (a b c n : ℕ) (xs : List S.Log) (log : S.Log)
      → a ≤ b
      → Ordered n xs
      → last (logs_within b c xs) ≡ some log
      → last (logs_within a c xs) ≡ some log
  last_within a b c n [] log l v e = e
  last_within a b c n (x ∷ xs) log l v e = elim (Bool-cases (within b c x)) [
    | inl h ↦
        ap last (
          Ordered-all a b c (block x) (x ∷ xs) (below x b c h l) (above x b c h) (omega arith, v.1))
        ∙ e
    | inr h ↦
        let later = last_within a b c (block x) xs log l v.1 (rw h at e) in
        elim (Bool-cases (within a c x)) [
          | inl k ↦ rw k (last_prepend x (logs_within a c xs) log later)
          | inr k ↦ rw k later
        ]
  ]
    where
      below : (x : S.Log) (b c : ℕ) → within b c x ≡ true → {a : ℕ} → a ≤ b → a ≤ block x
      below x b c h l = ground arith

      above : (x : S.Log) (b c : ℕ) → within b c x ≡ true → b ≤ block x
      above x b c h = ground arith
