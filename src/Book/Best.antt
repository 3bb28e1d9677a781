-- ===== src/Book/Best.antt =====
-- OrderBook::getBestBid and getBestAsk on a well-formed book: price first, then time.
use order_matching_engine.Prelude.{ℕ, ◌≤◌, ◌≡◌, Option, none, some, List, [], ◌∷◌, inl, inr}
use order_matching_engine.Price.{Price, rank}
use order_matching_engine.Types.{OrderSide, buy, sell, OrderPtr}
use order_matching_engine.PriceMap.{find}
use order_matching_engine.PriceMap.Order.{At, IsSide-At, first_order_lem, last_order_lem}
use order_matching_engine.Book.{OrderBook, Slots, side_orders, get_best_bid, get_best_ask}
use order_matching_engine.Book.Invariant.{Resting, IsBook}

-- `best` rests on its side of the book, is the oldest order at its price, and no order of that side
-- has a better price: none is lower among the sell orders, none is higher among the buy orders.
abbrev pub NoBetter : OrderSide → Price → Price → Type 0
NoBetter buy k j = rank j ≤ rank k
NoBetter sell k j = rank k ≤ rank j

pub record IsBest (size : ℕ) (s : Slots) (out : List ℕ) (b : OrderBook) (side : OrderSide)
    (best : OrderPtr) : Type 0 where
  pub level : Price
  pub stands : At level best (side_orders side b)
  pub rests : Resting size s out b.symbol b.order_lookup side level best
  pub is_oldest : (rest : List OrderPtr) × (find level (side_orders side b) ≡ some (best ∷ rest))
  pub no_better : (k : Price) (q : OrderPtr) → At k q (side_orders side b) → NoBetter side level k

abbrev pub best_of : OrderSide → OrderBook → Option OrderPtr
best_of buy b = get_best_bid b
best_of sell b = get_best_ask b

-- The best order of a side is found, unless the side is empty.
abbrev pub Finds : ℕ → Slots → List ℕ → OrderBook → OrderSide → Option OrderPtr → Type 0
Finds size s out b side none = side_orders side b ≡ []
Finds size s out b side (some best) = IsBest size s out b side best

module _ (size : ℕ) (s : Slots) (out : List ℕ) (b : OrderBook) where
  -- In a well-formed book, the best bid and the best ask are found unless their side is empty: no
  -- order of the side has a better price, and the order is the oldest one at its price.
  pub best_of-Finds :
      (side : OrderSide) → IsBook size s out b → Finds size s out b side (best_of side b)
  unfolding get_best_bid get_best_ask
  best_of-Finds buy v =
      elim (last_order_lem (Resting size s out b.symbol b.order_lookup buy) 0 b.buy_orders v.buys) [
        | inl (empty, e) ↦ rw e empty
        | inr (k, p, e, at, old, most) ↦ rw e (record {
          level = k;
          stands = at;
          rests =
              (IsSide-At (Resting size s out b.symbol b.order_lookup buy) 0 b.buy_orders v.buys
                at).0;
          is_oldest = old;
          no_better = most;
        })
      ]
  best_of-Finds sell v =
      elim (first_order_lem (Resting size s out b.symbol b.order_lookup sell) 0 b.sell_orders
        v.sells) [
          | inl (empty, e) ↦ rw e empty
          | inr (k, p, e, at, old, least) ↦ rw e (record {
            level = k;
            stands = at;
            rests =
                (IsSide-At (Resting size s out b.symbol b.order_lookup sell) 0 b.sell_orders v.sells
                  at).0;
            is_oldest = old;
            no_better = least;
          })
        ]
