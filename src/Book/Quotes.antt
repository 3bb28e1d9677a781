-- ===== src/Book/Quotes.antt =====
-- OrderBook::getL2Quote, getL1Quote and the counts, on a well-formed book.
use mathlib.Core.List.{reverse-cons, map-append}
use order_matching_engine.Prelude.{
  ℕ, zero, suc, ◌+◌, ◌<◌, ◌≤◌, ◌≡◌, refl, ap, ◌∙◌, List, [], ◌∷◌, ◌++◌, map, take, length,
  length-take, reverse, arith, All, All-append, All-mono, ◌^◌,
}
use order_matching_engine.Price.{Price, rank, rank_bound}
use order_matching_engine.Types.{buy, sell, OrderPtr, Quantity}
use order_matching_engine.PriceMap.{PriceMap}
use order_matching_engine.PriceMap.Order.{IsSide}
use order_matching_engine.Book.{
  OrderBook, Slots, total_qty, top_levels, get_l2_quote, get_buy_orders, get_sell_orders,
  get_total_orders,
}
use order_matching_engine.Book.Invariant.{Resting, IsBook}

-- A level as it is quoted.
abbrev pub quoted : Slots → Price × List OrderPtr → Price × Quantity
quoted s (price, ps) = (price, total_qty s 0 ps)

top_levels-done :
    (s : Slots) (depth count : ℕ) (m : PriceMap) → depth ≤ count → top_levels s depth count m ≡ []
unfolding top_levels
top_levels-done s depth count [] h = refl
top_levels-done s depth count (l ∷ m) h = ground arith

-- The loop with its counter takes the first levels.
top_levels-take :
    (s : Slots) (k count : ℕ) (m : PriceMap)
    → top_levels s (count + k) count m ≡ take k (map (quoted s) m)
unfolding top_levels
top_levels-take s zero count [] = refl
top_levels-take s (suc k) count [] = refl
top_levels-take s zero count (l ∷ m) = ground arith
top_levels-take s (suc k) count (l ∷ m) =
    let e : top_levels s (count + suc k) (suc count) m ≡ take k (map (quoted s) m) =
      ap (λ (d : ℕ). top_levels s d (suc count) m) (omega arith)
      ∙ top_levels-take s k (suc count) m in
    ground (arith, e)

-- The quote holds the first `depth` levels of each side, of the buy orders from the back and of the
-- sell orders from the front, each with the sum of what is left of its orders.
pub get_l2_quote_lem :
    (s : Slots) (depth : ℕ) (b : OrderBook)
    → ((get_l2_quote s depth b).bids ≡ take depth (map (quoted s) (reverse b.buy_orders)))
      × ((get_l2_quote s depth b).asks ≡ take depth (map (quoted s) b.sell_orders))
unfolding get_l2_quote
get_l2_quote_lem s depth b = (
  ap (λ (d : ℕ). top_levels s d 0 (reverse b.buy_orders)) (omega arith)
      ∙ top_levels-take s depth 0 (reverse b.buy_orders),
  ap (λ (d : ℕ). top_levels s d 0 b.sell_orders) (omega arith)
      ∙ top_levels-take s depth 0 b.sell_orders,
)

-- Prices that go up from rank `lo`, and prices that go down from below rank `hi`.
abbrev pub Ascending : ℕ → List (Price × Quantity) → Type 0
Ascending lo [] = Unit
Ascending lo ((k, _) ∷ q) = (lo ≤ rank k) × Ascending (suc (rank k)) q

abbrev pub Descending : ℕ → List (Price × Quantity) → Type 0
Descending hi [] = Unit
Descending hi ((k, _) ∷ q) = (rank k < hi) × Descending (rank k) q

module _ (R : Price → OrderPtr → Type 0) (s : Slots) where
  quoted-Ascending :
      (lo n : ℕ) (m : PriceMap) → IsSide R lo m → Ascending lo (take n (map (quoted s) m))
  quoted-Ascending lo zero m v = tt
  quoted-Ascending lo (suc n) [] v = tt
  quoted-Ascending lo (suc n) ((k, ps) ∷ m) (a, b, c, d, e, f) =
      (a, quoted-Ascending (suc (rank k)) n m f)

  abbrev AllAbove : ℕ → List (Price × Quantity) → Type 0
  AllAbove lo = All (λ l. lo ≤ rank l.0)

  snoc-Descending :
      (hi : ℕ) (q : List (Price × Quantity)) (l : Price × Quantity)
      → rank l.0 < hi
      → AllAbove (suc (rank l.0)) q
      → Descending hi q
      → Descending hi (q ++ l ∷ [])
  snoc-Descending hi [] l h a d = (h, tt)
  snoc-Descending hi (x ∷ q) l h a d = (d.0, snoc-Descending (rank x.0) q l (omega arith) a.1 d.1)

  take-Descending :
      (hi n : ℕ) (q : List (Price × Quantity)) → Descending hi q → Descending hi (take n q)
  take-Descending hi zero q d = tt
  take-Descending hi (suc n) [] d = tt
  take-Descending hi (suc n) (x ∷ q) d = (d.0, take-Descending (rank x.0) n q d.1)

  quoted-reverse :
      (l : Price × List OrderPtr) (m : PriceMap)
      → map (quoted s) (reverse (l ∷ m)) ≡ map (quoted s) (reverse m) ++ quoted s l ∷ []
  quoted-reverse l m =
      ap (map (quoted s)) (reverse-cons l m) ∙ map-append (quoted s) (reverse m) (l ∷ [])

  quoted-AllAbove :
      (lo : ℕ) (m : PriceMap) → IsSide R lo m → AllAbove lo (map (quoted s) (reverse m))
  quoted-AllAbove lo [] v = tt
  quoted-AllAbove lo ((k, ps) ∷ m) (a, b, c, d, e, f) = rw (quoted-reverse (k, ps) m) (
      All-append (λ l. lo ≤ rank l.0) (map (quoted s) (reverse m)) _
        (All-mono (λ l. suc (rank k) ≤ rank l.0) (λ l. lo ≤ rank l.0) (λ l h. omega arith) _
          (quoted-AllAbove (suc (rank k)) m f))
        (a, tt))

  quoted-Descending :
      (lo : ℕ) (m : PriceMap) → IsSide R lo m → Descending (2 ^ 64) (map (quoted s) (reverse m))
  quoted-Descending lo [] v = tt
  quoted-Descending lo ((k, ps) ∷ m) (a, b, c, d, e, f) = rw (quoted-reverse (k, ps) m) (
      snoc-Descending (2 ^ 64) _ (k, total_qty s 0 ps) (rank_bound k)
        (quoted-AllAbove (suc (rank k)) m f) (quoted-Descending (suc (rank k)) m f))

-- On a well-formed book, the bids of a quote fall strictly and its asks rise strictly in price, and
-- neither list is longer than the depth that was asked for.
pub get_l2_quote-ordered :
    (size : ℕ) (s : Slots) (out : List ℕ) (depth : ℕ) (b : OrderBook)
    → IsBook size s out b
    → let q = get_l2_quote s depth b in
      Descending (2 ^ 64) q.bids
      × Ascending 0 q.asks
      × (length q.bids ≤ depth)
      × (length q.asks ≤ depth)
get_l2_quote-ordered size s out depth b v =
    let (bids, asks) = get_l2_quote_lem s depth b in
    (
      rw bids (
          take-Descending (Resting size s out b.symbol b.order_lookup buy) s (2 ^ 64) depth _ (
            quoted-Descending (Resting size s out b.symbol b.order_lookup buy) s 0 b.buy_orders
              v.buys)),
      rw asks (
          quoted-Ascending (Resting size s out b.symbol b.order_lookup sell) s 0 depth b.sell_orders
            v.sells),
      rw bids (omega (arith, length-take depth (map (quoted s) (reverse b.buy_orders)))),
      rw asks (omega (arith, length-take depth (map (quoted s) b.sell_orders))),
    )

-- The two counts of orders add up to the number of orders that the lookup knows.
pub get_total_orders_lem :
    (size : ℕ) (s : Slots) (out : List ℕ) (b : OrderBook)
    → IsBook size s out b
    → get_total_orders b ≡ get_buy_orders b + get_sell_orders b
unfolding get_total_orders get_buy_orders get_sell_orders
get_total_orders_lem size s out b v = v.counted
