-- ===== src/Book.antt =====
-- include/order_book.h and src/order_book.cpp: the book of one symbol. Pointers to orders are
-- indices into the order pool, so each method that reads an order takes the pool's slots `s`.
-- Log lines are left out.
pub mod Invariant
pub mod Update
pub mod Without
pub mod Cancel
pub mod Frame
pub mod Best
pub mod Quotes
use order_matching_engine.Prelude.{
  ℕ, zero, suc, ◌+◌, ◌≡◌, Bool, true, false, Option, none, some, List, [], ◌∷◌, ◌++◌, reverse,
  length, add_u64, ltb, if◌then◌else◌,
}
use order_matching_engine.Prelude.Dict.{Dict, lookup, insert, remove}
use order_matching_engine.Price.{Price, zero_price}
use order_matching_engine.Types.{
  OrderId, Quantity, Symbol, OrderSide, buy, sell, Order, OrderPtr, OrderInfo, L1Quote, L2Quote,
  remaining_qty,
}
use order_matching_engine.PriceMap.{
  PriceMap, push_back, find, erase_at, first_order, last_order, count_orders,
}

abbrev pub Slots : Type 0
Slots = OrderPtr → Order

pub record OrderBook : Type 0 where
  pub symbol : Symbol
  pub buy_orders : PriceMap
  pub sell_orders : PriceMap
  pub order_lookup : Dict OrderInfo

-- The constructor.
unfoldable pub new_book : Symbol → OrderBook
new_book symbol = record { symbol = symbol; buy_orders = []; sell_orders = []; order_lookup = [] }

-- `(side == OrderSide::BUY) ? buy_orders_ : sell_orders_`, read and written.
abbrev pub side_orders : OrderSide → OrderBook → PriceMap
side_orders buy b = b.buy_orders
side_orders sell b = b.sell_orders

abbrev pub with_side : OrderSide → PriceMap → OrderBook → OrderBook
with_side buy m b = record b { buy_orders = m }
with_side sell m b = record b { sell_orders = m }

unfoldable pub add_order : Slots → OrderPtr → OrderBook → OrderBook
add_order s p b =
    let side = (s p).side in
    record (with_side side (push_back (s p).price p (side_orders side b)) b) {
      order_lookup = insert (s p).id (record { order_ptr = p; list_it = p }) b.order_lookup;
    }

-- The branch of `cancel_order` for an order that the lookup knows, by its side and price.
unfoldable pub cancel_listed :
    OrderSide → Price → OrderId → OrderInfo → OrderBook → Option OrderPtr × OrderBook
cancel_listed side price id info b =
    let price_map = side_orders side b in
    elim (find price price_map) [
      | none ↦ (none, b)
      | some level ↦ (
        some info.order_ptr,
        record (with_side side (erase_at price info.list_it price_map) b) {
          order_lookup = remove id b.order_lookup;
        },
      )
    ]

-- The pointer that is returned (null is `none`), and the book.
unfoldable pub cancel_order : Slots → OrderId → OrderBook → Option OrderPtr × OrderBook
cancel_order s id b = elim (lookup id b.order_lookup) [
  | none ↦ (none, b)
  | some info ↦ cancel_listed (s info.order_ptr).side (s info.order_ptr).price id info b
]

unfoldable pub get_order_by_id : OrderId → OrderBook → Option OrderPtr
get_order_by_id id b = elim (lookup id b.order_lookup) [
  | none ↦ none
  | some info ↦ some info.order_ptr
]

-- On an empty level, which `Book/Invariant` rules out, `front()` is undefined in C++ and `none` here.
unfoldable pub get_best_bid : OrderBook → Option OrderPtr
get_best_bid b = last_order b.buy_orders

unfoldable pub get_best_ask : OrderBook → Option OrderPtr
get_best_ask b = first_order b.sell_orders

-- `sub` is the subtraction of doubles.
unfoldable pub get_spread : (Price → Price → Price) → Slots → OrderBook → Price
get_spread sub s b = elim (get_best_bid b) [
  | none ↦ zero_price
  | some bid ↦ elim (get_best_ask b) [
    | none ↦ zero_price
    | some ask ↦ sub (s ask).price (s bid).price
  ]
]

abbrev pub price_of : Slots → Option OrderPtr → Price
price_of s none = zero_price
price_of s (some p) = (s p).price

abbrev pub remaining_of : Slots → Option OrderPtr → Quantity
remaining_of s none = 0
remaining_of s (some p) = remaining_qty (s p)

unfoldable pub get_l1_quote : Slots → OrderBook → L1Quote
get_l1_quote s b = record {
  bid = price_of s (get_best_bid b);
  bid_qty = remaining_of s (get_best_bid b);
  ask = price_of s (get_best_ask b);
  ask_qty = remaining_of s (get_best_ask b);
}

-- `for (order : it->second) total_qty += order->remaining_qty();`
unfoldable pub total_qty : Slots → Quantity → List OrderPtr → Quantity
total_qty s total [] = total
total_qty s total (p ∷ ps) = total_qty s (add_u64 total (remaining_qty (s p))) ps

-- The loop over the levels: it stops at the end of the map, or when `count` has reached `depth`.
unfoldable pub top_levels : Slots → ℕ → ℕ → PriceMap → List (Price × Quantity)
top_levels s depth count [] = []
top_levels s depth count ((price, ps) ∷ m) =
    let rest = top_levels s depth (suc count) m in
    if ltb count depth then (price, total_qty s 0 ps) ∷ rest else []

unfoldable pub get_l2_quote : Slots → ℕ → OrderBook → L2Quote
get_l2_quote s depth b = record {
  bids = top_levels s depth 0 (reverse b.buy_orders);
  asks = top_levels s depth 0 b.sell_orders;
}

unfoldable pub get_buy_orders : OrderBook → ℕ
get_buy_orders b = count_orders b.buy_orders

unfoldable pub get_sell_orders : OrderBook → ℕ
get_sell_orders b = count_orders b.sell_orders

unfoldable pub get_total_orders : OrderBook → ℕ
get_total_orders b = length b.order_lookup

unfoldable pub get_symbol : OrderBook → Symbol
get_symbol b = b.symbol
