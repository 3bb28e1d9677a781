-- ===== src/Engine/Priority/Levels.antt =====
-- OrderBook::getL2Quote (src/order_book.cpp) against Engine/Priority: the quote sums up the offers.
use mathlib.Core.List.{append_assoc, append-nil, map-append, reverse-cons}
use order_matching_engine.Prelude.{
  ℕ, zero, suc, ◌+◌, ◌%◌, ◌<◌, ◌≡◌, ◌≢◌, ◌-◌, refl, sym, ap, subst, ◌∙◌, true, List, [], ◌∷◌, ◌++◌,
  ◌==◌, map, take, reverse, All, All-append, if◌then◌else◌, u64_mod, add_u64, arith,
}
use order_matching_engine.Price.{Price, rank}
use order_matching_engine.Types.{OrderSide, buy, sell, OrderPtr, Quantity, remaining_qty}
use order_matching_engine.PriceMap.{PriceMap}
use order_matching_engine.PriceMap.Order.{IsSide}
use order_matching_engine.PriceMap.Queue.{from_front, from_back}
use order_matching_engine.Book.{OrderBook, Slots, total_qty, get_l2_quote}
use order_matching_engine.Book.Invariant.{Resting, IsBook}
use order_matching_engine.Book.Quotes.{quoted, get_l2_quote_lem}
use order_matching_engine.Engine.Removal.{remaining_lem}
use order_matching_engine.Engine.Priority.{Offer, offer_of, offers_of, offers_for}
use order_matching_engine.Engine.Exchange.Enough.{lefts, offers_of-append}

-- An offer joins the offers behind it when they are at its price.
abbrev join : Offer → List (ℕ × ℕ) → List (ℕ × ℕ)
join x [] = (rank x.price, x.left) ∷ []
join x ((r, n) ∷ ls) =
    if rank x.price == r then (r, x.left + n) ∷ ls else (rank x.price, x.left) ∷ (r, n) ∷ ls

-- The offers as pairs of the rank of a price and how much is left there: those next to one another at one price summed up.
abbrev pub levels : List Offer → List (ℕ × ℕ)
levels [] = []
levels (x ∷ xs) = join x (levels xs)

-- The prices of the quote as ranks, and the sums as 64-bit numbers.
abbrev pub ranked : Price × Quantity → ℕ × ℕ
ranked (k, qty) = (rank k, qty)

abbrev pub wrapped : ℕ × ℕ → ℕ × ℕ
wrapped (r, n) = (r, n % u64_mod)

module _ (s : Slots) where
  abbrev sums : Price × List OrderPtr → ℕ × ℕ
  sums (k, ps) = (rank k, lefts (offers_of s ps))

  -- No level comes first that is at this rank.
  abbrev Apart : ℕ → List (ℕ × ℕ) → Type 0
  Apart r [] = Unit
  Apart r ((k, n) ∷ ls) = r ≢ k

  join-Apart :
      (x : Offer) (ls : List (ℕ × ℕ))
      → Apart (rank x.price) ls
      → join x ls ≡ (rank x.price, x.left) ∷ ls
  join-Apart x [] h = refl
  join-Apart x ((k, n) ∷ ls) h = ground arith

  module _ (R : Price → OrderPtr → Type 0)
      (at_price : (k : Price) (p : OrderPtr) → R k p → rank (s p).price ≡ rank k) where
    -- The orders of one level in front of others are one level.
    level_first :
        (k : Price) (ps : List OrderPtr) (xs : List Offer)
        → ps ≢ []
        → All (R k) ps
        → Apart (rank k) (levels xs)
        → levels (offers_of s ps ++ xs) ≡ sums (k, ps) ∷ levels xs
    level_first k [] xs some h apart = absurd (some refl)
    level_first k (p ∷ []) xs some h apart =
        let here = at_price k p h.0 in
        let whole : (s p).quantity - (s p).quantity_filled ≡ lefts (offers_of s (p ∷ [])) =
          omega arith in
        join-Apart (offer_of (s p)) (levels xs)
          (subst (λ (r : ℕ). Apart r (levels xs)) (sym here) apart)
        ∙ (λ i. (here i, whole i) ∷ levels xs)
    level_first k (p ∷ q ∷ ps) xs some h apart =
        let here = at_price k p h.0 in
        let rest = level_first k (q ∷ ps) xs (λ e. cc) h.1 apart in
        let same : (rank (s p).price == rank k) ≡ true = ground (arith, here) in
        ap (join (offer_of (s p))) rest ∙ rw same refl

    levels-from_front :
        (lo : ℕ) (m : PriceMap) → IsSide R lo m → levels (offers_of s (from_front m)) ≡ map sums m
    levels-from_front lo [] v = refl
    levels-from_front lo ((k, ps) ∷ m) (a, real, some, d, all, g) =
        let rest = levels-from_front (suc (rank k)) m g in
        ap levels (offers_of-append s ps (from_front m))
        ∙ level_first k ps (offers_of s (from_front m)) some all
            (subst (Apart (rank k)) (sym rest) (above m g))
        ∙ ap (λ (ls : List (ℕ × ℕ)). sums (k, ps) ∷ ls) rest
      where
        above : (m : PriceMap) → IsSide R (suc (rank k)) m → Apart (rank k) (map sums m)
        above [] v = tt
        above ((j, qs) ∷ m) v = λ e. omega (arith, v.0, e)

    -- No level that comes first is at `lo` or above.
    abbrev Below : ℕ → List (ℕ × ℕ) → Type 0
    Below lo [] = Unit
    Below lo ((r, n) ∷ ls) = r < lo

    -- The orders from the back, in front of others that are lower.
    levels-from_back :
        (lo : ℕ) (m : PriceMap) (xs : List Offer)
        → IsSide R lo m
        → Below lo (levels xs)
        → levels (offers_of s (from_back m) ++ xs) ≡ map sums (reverse m) ++ levels xs
    levels-from_back lo [] xs v low = refl
    levels-from_back lo ((k, ps) ∷ m) xs (a, real, some, d, all, g) low =
        let level = level_first k ps xs some all (apart (levels xs) low) in
        ap (λ (l : List Offer). levels (l ++ xs)) (offers_of-append s (from_back m) ps)
        ∙ ap levels (append_assoc (offers_of s (from_back m)) (offers_of s ps) xs)
        ∙ levels-from_back (suc (rank k)) m (offers_of s ps ++ xs) g
            (subst (Below (suc (rank k))) (sym level) (omega arith))
        ∙ ap (λ (ls : List (ℕ × ℕ)). map sums (reverse m) ++ ls) level
        ∙ sym (append_assoc (map sums (reverse m)) (sums (k, ps) ∷ []) (levels xs))
        ∙ ap (λ (ls : List (ℕ × ℕ)). ls ++ levels xs)
            (sym
              (ap (map sums) (reverse-cons (k, ps) m) ∙ map-append sums (reverse m) ((k, ps) ∷ [])))
      where
        apart : (ls : List (ℕ × ℕ)) → Below lo ls → Apart (rank k) ls
        apart [] h = tt
        apart ((r, n) ∷ ls) h = λ e. omega (arith, a, h, e)

module _ (size : ℕ) (s : Slots) (out : List ℕ) (b : OrderBook) (v : IsBook size s out b) where
  abbrev Stands : OrderSide → Price → OrderPtr → Type 0
  Stands side = Resting size s out b.symbol b.order_lookup side

  -- The loop over the orders of a level adds up what is left of them, modulo 2 ^ 64.
  total_qty_lem :
      (side : OrderSide) (k : Price) (total : ℕ) (ps : List OrderPtr)
      → total < u64_mod
      → All (Stands side k) ps
      → total_qty s total ps ≡ (total + lefts (offers_of s ps)) % u64_mod
  unfolding total_qty
  total_qty_lem side k total [] h all = omega arith
  total_qty_lem side k total (p ∷ ps) h all =
      let left = remaining_lem (s p) all.0.bounded (omega (arith, all.0.open_qty)) in
      let next : ℕ = add_u64 total (remaining_qty (s p)) in
      let rest = total_qty_lem side k next ps (omega arith) all.1 in omega (arith, left, rest)

  -- A level is quoted with its price and the sum of what is left of its orders.
  abbrev IsQuoted : Price × List OrderPtr → Type 0
  IsQuoted l = ranked (quoted s l) ≡ wrapped (sums s l)

  All-IsQuoted :
      (side : OrderSide) (lo : ℕ) (m : PriceMap) → IsSide (Stands side) lo m → All IsQuoted m
  All-IsQuoted side lo [] v = tt
  All-IsQuoted side lo ((k, ps) ∷ m) (a, real, some, d, all, g) = (
    ap (λ (n : ℕ). (rank k, n)) (total_qty_lem side k 0 ps (omega arith) all ∙ omega arith),
    All-IsQuoted side (suc (rank k)) m g,
  )

  reverse-IsQuoted : (m : PriceMap) → All IsQuoted m → All IsQuoted (reverse m)
  reverse-IsQuoted [] h = tt
  reverse-IsQuoted (l ∷ m) h =
      subst (All IsQuoted) (sym (reverse-cons l m))
        (All-append IsQuoted (reverse m) (l ∷ []) (reverse-IsQuoted m h.1) (h.0, tt))

  take-IsQuoted :
      (n : ℕ) (m : PriceMap)
      → All IsQuoted m
      → map ranked (take n (map (quoted s) m)) ≡ take n (map wrapped (map (sums s) m))
  take-IsQuoted zero m h = refl
  take-IsQuoted (suc n) [] h = refl
  take-IsQuoted (suc n) (l ∷ m) h = λ i. h.0 i ∷ take-IsQuoted n m h.1 i

  -- On a well-formed book, the quote has the first `depth` prices of the offers that an order of
  -- the other side meets, best price first, each with the sum of what is left of the offers at this
  -- price, modulo 2 ^ 64; prices are compared by rank.
  pub get_l2_quote-levels :
      (depth : ℕ)
      → (map ranked (get_l2_quote s depth b).bids
          ≡ take depth (map wrapped (levels (offers_for sell s b))))
        × (map ranked (get_l2_quote s depth b).asks
            ≡ take depth (map wrapped (levels (offers_for buy s b))))
  get_l2_quote-levels depth =
      let (bids, asks) = get_l2_quote_lem s depth b in
      let sold = levels-from_front s (Stands sell) (λ k p r. r.has_price) 0 b.sell_orders v.sells in
      let bought =
        ap levels (sym (append-nil (offers_of s (from_back b.buy_orders))))
        ∙ levels-from_back s (Stands buy) (λ k p r. r.has_price) 0 b.buy_orders [] v.buys tt
        ∙ append-nil (map (sums s) (reverse b.buy_orders)) in
      (
        ap (map ranked) bids
            ∙ take-IsQuoted depth (reverse b.buy_orders)
                (reverse-IsQuoted b.buy_orders (All-IsQuoted buy 0 b.buy_orders v.buys))
            ∙ ap (λ (ls : List (ℕ × ℕ)). take depth (map wrapped ls)) (sym bought),
        ap (map ranked) asks
            ∙ take-IsQuoted depth b.sell_orders (All-IsQuoted sell 0 b.sell_orders v.sells)
            ∙ ap (λ (ls : List (ℕ × ℕ)). take depth (map wrapped ls)) (sym sold),
      )
