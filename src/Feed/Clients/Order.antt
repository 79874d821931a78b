-- ===== src/Feed/Clients/Order.antt =====
-- rollups/nitro/feed/ws_server.rs: messages in lists and frames, and the order of their sequence numbers.
use chain_adjacent_service.Prelude.{
  ltb, Bool-cases, last, filter, ℕ, suc, ◌≤◌, ◌<◌, ◌≡◌, ap, ◌∙◌, subst, ◌⊎◌, inl, inr, Bool, true,
  Option, none, some, List, [], ◌∷◌, ◌++◌, map, arith,
}
use chain_adjacent_service.Prelude.Words.{All}
use chain_adjacent_service.BtreeMap.{IncreasingFrom}
use chain_adjacent_service.Nitro.{BroadcastFeedMessage}
use chain_adjacent_service.Feed.{BroadcastMessage, flatten, confirm_if}
use chain_adjacent_service.Feed.Backlog.{seq}

-- The messages of frames.
abbrev pub messages : List BroadcastMessage → List BroadcastFeedMessage
messages [] = []
messages (bm ∷ bms) = flatten bm.messages ++ messages bms

abbrev pub In : BroadcastFeedMessage → List BroadcastFeedMessage → Type 0
In m [] = ⊥
In m (x ∷ xs) = (x ≡ m) ⊎ In m xs

-- A broadcast confirms the message.
abbrev pub ConfirmedIn : BroadcastFeedMessage → List BroadcastMessage → Type 0
ConfirmedIn m [] = ⊥
ConfirmedIn m (bm ∷ bms) =
    ((c : ℕ) × (bm.confirmed_sequence_number_message ≡ some c) × (seq m ≤ c)) ⊎ ConfirmedIn m bms

abbrev pub AllBelow : ℕ → List BroadcastFeedMessage → Type 0
AllBelow n ms = All (λ m. seq m < n) ms

pub In-append_left :
    (m : BroadcastFeedMessage) (xs ys : List BroadcastFeedMessage) → In m xs → In m (xs ++ ys)
In-append_left m [] ys h = absurd h
In-append_left m (x ∷ xs) ys (inl e) = inl e
In-append_left m (x ∷ xs) ys (inr h) = inr (In-append_left m xs ys h)

pub In-append_right :
    (m : BroadcastFeedMessage) (xs ys : List BroadcastFeedMessage) → In m ys → In m (xs ++ ys)
In-append_right m [] ys h = h
In-append_right m (x ∷ xs) ys h = inr (In-append_right m xs ys h)

pub In-split :
    (m : BroadcastFeedMessage) (xs ys : List BroadcastFeedMessage)
    → In m (xs ++ ys)
    → In m xs ⊎ In m ys
In-split m [] ys h = inr h
In-split m (x ∷ xs) ys (inl e) = inl (inl e)
In-split m (x ∷ xs) ys (inr h) = elim (In-split m xs ys h) [ inl k ↦ inl (inr k) | inr k ↦ inr k ]

pub In-filter :
    (test : BroadcastFeedMessage → Bool) (m : BroadcastFeedMessage) (xs : List BroadcastFeedMessage)
    → test m ≡ true
    → In m xs
    → In m (filter test xs)
In-filter test m [] t h = absurd h
In-filter test m (x ∷ xs) t (inl e) = let tx : test x ≡ true = ap test e ∙ t in rw tx (inl e)
In-filter test m (x ∷ xs) t (inr h) = elim (Bool-cases (test x)) [
  | inl e ↦ rw e (inr (In-filter test m xs t h))
  | inr e ↦ rw e (In-filter test m xs t h)
]

pub AllBelow-filter :
    (test : BroadcastFeedMessage → Bool) (n : ℕ) (xs : List BroadcastFeedMessage)
    → AllBelow n xs
    → AllBelow n (filter test xs)
AllBelow-filter test n [] h = tt
AllBelow-filter test n (x ∷ xs) h = elim (Bool-cases (test x)) [
  | inl e ↦ rw e (h.0, AllBelow-filter test n xs h.1)
  | inr e ↦ rw e (AllBelow-filter test n xs h.1)
]

pub AllBelow-mono :
    (n k : ℕ) (xs : List BroadcastFeedMessage) → n ≤ k → AllBelow n xs → AllBelow k xs
AllBelow-mono n k [] le h = tt
AllBelow-mono n k (x ∷ xs) le h = (omega (arith, h.0), AllBelow-mono n k xs le h.1)

pub AllBelow-last :
    (n : ℕ) (xs : List BroadcastFeedMessage) (t : BroadcastFeedMessage)
    → AllBelow n xs
    → last xs ≡ some t
    → seq t < n
AllBelow-last n [] t h e = absurd (cc)
AllBelow-last n (x ∷ []) t h e = subst (λ y. seq y < n) (inside e) h.0
  where
    inside : some x ≡ some t → x ≡ t
    inside e = cc
AllBelow-last n (x ∷ y ∷ ys) t h e = AllBelow-last n (y ∷ ys) t h.1 e

pub In-below :
    (n : ℕ) (m : BroadcastFeedMessage) (xs : List BroadcastFeedMessage)
    → IncreasingFrom n (map seq xs)
    → In m xs
    → n ≤ seq m
In-below n m [] v h = absurd h
In-below n m (x ∷ xs) v (inl e) = subst (λ y. n ≤ seq y) e v.0
In-below n m (x ∷ xs) v (inr h) = omega (arith, v.0, In-below (suc (seq x)) m xs v.1 h)

-- In increasing order, a front part is below a bound that the rest starts from, the least one.
pub split_at :
    (n : ℕ) (xs ys : List BroadcastFeedMessage)
    → IncreasingFrom n (map seq (xs ++ ys))
    → (k : ℕ) × (n ≤ k)
      × (IncreasingFrom n (map seq xs))
      × (AllBelow k xs)
      × (IncreasingFrom k (map seq ys))
      × ((b : ℕ) → n ≤ b → AllBelow b xs → k ≤ b)
split_at n [] ys v = (n, omega arith, tt, tt, v, λ b le h. le)
split_at n (x ∷ xs) ys v =
    let (k, le, front, below, rest, least) = split_at (suc (seq x)) xs ys v.1 in
    (
      k,
      omega (arith, le, v.0),
      (v.0, front),
      (omega (arith, le), below),
      rest,
      λ b h all. least b all.0 all.1,
    )

pub AllBelow-append :
    (k : ℕ) (xs ys : List BroadcastFeedMessage)
    → AllBelow k (xs ++ ys)
    → AllBelow k xs × AllBelow k ys
AllBelow-append k [] ys h = (tt, h)
AllBelow-append k (x ∷ xs) ys h = let (a, b) = AllBelow-append k xs ys h.1 in ((h.0, a), b)

-- What is confirmed leaves the backlog below its bound.
pub below :
    (n : ℕ) (backlog : List BroadcastFeedMessage) (c : Option ℕ)
    → AllBelow n backlog
    → AllBelow n (confirm_if backlog c)
below n backlog none h = h
below n backlog (some c) h = AllBelow-filter (λ m. ltb c m.sequence_number) n backlog h
