-- ===== src/PriceMap/Order.antt =====
-- The price map of one side of a book: what it means to be well formed, and where its best orders
-- stand.
use order_matching_engine.Prelude.{
  ℕ, suc, ◌≤◌, ◌<◌, ◌≡◌, ◌≢◌, refl, ◌⊎◌, inl, inr, none, some, List, [], ◌∷◌, true, false, contains,
  Distinct, All, arith, All-mono, All-contains,
}
use order_matching_engine.Price.{Price, is_nan, rank, lt_lem, lt_of_rank}
use order_matching_engine.Types.{OrderPtr}
use order_matching_engine.PriceMap.{PriceMap, find, first_order, last_order}

-- Levels in strictly ascending order of price, from rank `lo` on; no price is a NaN; no level is
-- empty or lists an order twice; and every order `p` at price `k` satisfies `R k p`.
abbrev pub IsSide : (Price → OrderPtr → Type 0) → ℕ → PriceMap → Type 0
IsSide R lo [] = Unit
IsSide R lo ((k, ps) ∷ m) =
    (lo ≤ rank k)
    × (is_nan k ≡ false)
    × (ps ≢ [])
    × Distinct ps
    × All (R k) ps
    × IsSide R (suc (rank k)) m

-- The order `p` stands at the level of price `k`.
abbrev pub At : Price → OrderPtr → PriceMap → Type 0
At k p [] = ⊥
At k p ((j, ps) ∷ m) = ((k ≡ j) × (contains p ps ≡ true)) ⊎ At k p m

pub IsSide-lower :
    (R : Price → OrderPtr → Type 0) (lo lo' : ℕ) (m : PriceMap)
    → lo' ≤ lo
    → IsSide R lo m
    → IsSide R lo' m
IsSide-lower R lo lo' [] h v = tt
IsSide-lower R lo lo' ((k, ps) ∷ m) h (a, b, c, d, e, f) = (omega arith, b, c, d, e, f)

module _ (R R' : Price → OrderPtr → Type 0) (f : (k : Price) (p : OrderPtr) → R k p → R' k p) where
  pub IsSide-mono : (lo : ℕ) (m : PriceMap) → IsSide R lo m → IsSide R' lo m
  IsSide-mono lo [] v = tt
  IsSide-mono lo ((k, ps) ∷ m) (a, b, c, d, e, g) =
      (a, b, c, d, All-mono (R k) (R' k) (f k) ps e, IsSide-mono (suc (rank k)) m g)

module _ (R : Price → OrderPtr → Type 0) where
  -- What holds of every order holds of one that is there.
  pub IsSide-At :
      (lo : ℕ) (m : PriceMap) {k : Price} {p : OrderPtr}
      → IsSide R lo m
      → At k p m
      → R k p × (is_nan k ≡ false) × (lo ≤ rank k)
  IsSide-At lo [] v a = elim a [ ]
  IsSide-At lo ((j, ps) ∷ m) {k} {p} (a, b, c, d, e, f) (inl (same, found)) =
      (rw same (All-contains (R j) p ps e found), rw same b, rw same a)
  IsSide-At lo ((j, ps) ∷ m) (a, b, c, d, e, f) (inr later) =
      let (r, n, h) = IsSide-At (suc (rank j)) m f later in (r, n, omega arith)

  -- `p` is the oldest order of the level of price `k`.
  abbrev pub Oldest : Price → OrderPtr → PriceMap → Type 0
  Oldest k p m = (rest : List OrderPtr) × (find k m ≡ some (p ∷ rest))

  -- The first order stands at the lowest price and is the oldest there.
  pub first_order_lem :
      (lo : ℕ) (m : PriceMap)
      → IsSide R lo m
      → ((m ≡ []) × (first_order m ≡ none))
        ⊎ ((k : Price) × (p : OrderPtr) × (first_order m ≡ some p)
            × At k p m
            × Oldest k p m
            × ((j : Price) (q : OrderPtr) → At j q m → rank k ≤ rank j))
  unfolding first_order find
  first_order_lem lo [] v = inl (refl, refl)
  first_order_lem lo ((k, []) ∷ m) (a, b, c, d, e, f) = absurd (c refl)
  first_order_lem lo ((k, p ∷ ps) ∷ m) (a, b, c, d, e, f) =
      inr (k, p, refl, inl (refl, ground arith), (ps, ground (arith, lt_lem k k b b)), least)
    where
      least : (j : Price) (q : OrderPtr) → At j q ((k, p ∷ ps) ∷ m) → rank k ≤ rank j
      least j q (inl (same, found)) = rw same (omega arith)
      least j q (inr later) = omega (arith, (IsSide-At (suc (rank k)) m f later).2)

  -- The last level is found behind a lower one.
  Oldest-cons :
      (j k : Price) (ps : List OrderPtr) (p : OrderPtr) (m : PriceMap)
      → is_nan j ≡ false
      → is_nan k ≡ false
      → rank j < rank k
      → Oldest k p m
      → Oldest k p ((j, ps) ∷ m)
  unfolding find
  Oldest-cons j k ps p m hj hk h (rest, e) = (rest, rw (lt_of_rank j k hj hk h) e)

  -- The last order stands at the highest price and is the oldest there.
  pub last_order_lem :
      (lo : ℕ) (m : PriceMap)
      → IsSide R lo m
      → ((m ≡ []) × (last_order m ≡ none))
        ⊎ ((k : Price) × (p : OrderPtr) × (last_order m ≡ some p)
            × At k p m
            × Oldest k p m
            × ((j : Price) (q : OrderPtr) → At j q m → rank j ≤ rank k))
  unfolding last_order find
  last_order_lem lo [] v = inl (refl, refl)
  last_order_lem lo ((k, []) ∷ m) (a, b, c, d, e, f) = absurd (c refl)
  last_order_lem lo ((k, p ∷ ps) ∷ []) (a, b, c, d, e, f) =
      inr (k, p, refl, inl (refl, ground arith), (ps, ground (arith, lt_lem k k b b)), greatest)
    where
      greatest : (j : Price) (q : OrderPtr) → At j q ((k, p ∷ ps) ∷ []) → rank j ≤ rank k
      greatest j q (inl (same, found)) = rw same (omega arith)
      greatest j q (inr later) = elim later [ ]
  last_order_lem lo ((j, ps) ∷ l ∷ m) (a, b, c, d, e, f) =
      elim (last_order_lem (suc (rank j)) (l ∷ m) f) [
        | inl (empty, _) ↦ cc
        | inr (k, p, found, at, oldest, greatest) ↦
            let (_, n, above) = IsSide-At (suc (rank j)) (l ∷ m) f at in
            inr (
              k,
              p,
              found,
              inr at,
              Oldest-cons j k ps p (l ∷ m) b n above oldest,
              (λ i q at'. elim at' [
                | inl (same, _) ↦ rw same (omega arith)
                | inr later ↦ greatest i q later
              ]),
            )
      ]
