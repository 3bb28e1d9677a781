-- ===== src/Engine.antt =====
-- include/matching_engine.h and src/matching_engine.cpp. Log lines are left out. `clock n` is the
-- reading of the system clock at its n-th call. A `while` loop takes fuel, and `none` means that the
-- fuel ran out; Engine/Loop says how much is enough.
pub mod Removal
pub mod Round
pub mod Matched
pub mod Loop
pub mod Settle
pub mod Execute
pub mod Books
pub mod Route
pub mod Process
pub mod Priority
pub mod Offers
pub mod Refinement
pub mod Exchange
pub mod Accounts
pub mod Calls
pub mod Times
pub mod Cancel
pub mod Ledger
pub mod Defects
use Prim.Native.Nat.{min}
use order_matching_engine.Prelude.{
  ℕ, zero, suc, ◌+◌, ◌≡◌, Bool, true, false, not, ◌&&◌, Option, none, some, List, [], ◌∷◌, ◌++◌,
  ◌==◌, add_u64, sub_u64, if◌then◌else◌,
}
use order_matching_engine.Prelude.Bytes.{lookup, insert}
use order_matching_engine.Price.{Price, lt, le, zero_price}
use order_matching_engine.Types.{
  OrderId, Quantity, Symbol, OrderSide, buy, sell, OrderType, limit, market, fok, ioc, is_type,
  is_buy, Order, Trade, OrderPtr, is_filled, remaining_qty, reduce_quantity,
}
use order_matching_engine.Pool.{ObjectPool, init, allocate, deallocate, store}
use order_matching_engine.PriceMap.{PriceMap}
use order_matching_engine.Validation.{validate_order, can_fill_completely}
use order_matching_engine.Book.{
  OrderBook, Slots, new_book, add_order, cancel_order, get_best_bid, get_best_ask,
}

pub record Stats : Type 0 where
  pub total_orders : ℕ
  pub total_trades : ℕ
  pub total_volume : ℕ

abbrev pub zero_stats : Stats
zero_stats = record { total_orders = 0; total_trades = 0; total_volume = 0 }

pub record MatchingEngine : Type 0 where
  pub order_pool : ObjectPool Order
  pub order_books : List (Symbol × OrderBook)
  pub trade_history : List Trade
  pub stats : Stats
  pub clock_reads : ℕ

-- The members that matching changes, with the book that is passed by reference.
pub record Matching : Type 0 where
  pub order_pool : ObjectPool Order
  pub book : OrderBook
  pub trade_history : List Trade
  pub stats : Stats
  pub clock_reads : ℕ

abbrev pub at_book : MatchingEngine → OrderBook → Matching
at_book e b = record {
  order_pool = e.order_pool;
  book = b;
  trade_history = e.trade_history;
  stats = e.stats;
  clock_reads = e.clock_reads;
}

-- The engine when the changes made through the reference to the book of `symbol` are in place.
abbrev pub put_back : Symbol → Matching → MatchingEngine → MatchingEngine
put_back symbol m e = record {
  order_pool = m.order_pool;
  order_books = insert symbol m.book e.order_books;
  trade_history = m.trade_history;
  stats = m.stats;
  clock_reads = m.clock_reads;
}

-- The constructor; the program's `pool_size` is 100000.
unfoldable pub new_engine : Order → ℕ → MatchingEngine
new_engine blank pool_size = record {
  order_pool = init blank pool_size;
  order_books = [];
  trade_history = [];
  stats = zero_stats;
  clock_reads = 0;
}

abbrev pub slot_of : Matching → OrderPtr → Order
slot_of m = m.order_pool.slot

unfoldable pub get_order_book : Symbol → MatchingEngine → Option OrderBook
get_order_book symbol e = lookup symbol e.order_books

unfoldable pub get_or_create_order_book : Symbol → MatchingEngine → OrderBook × MatchingEngine
get_or_create_order_book symbol e = elim (lookup symbol e.order_books) [
  | some book ↦ (book, e)
  | none ↦
      (new_book symbol, record e { order_books = insert symbol (new_book symbol) e.order_books })
]

-- Whom an order of this side matches: the best order of the other side.
abbrev pub best_opposite : OrderSide → OrderBook → Option OrderPtr
best_opposite buy b = get_best_ask b
best_opposite sell b = get_best_bid b

-- `best->price > order->price && order->type != MARKET` for a buy order, `<` for a sell order.
abbrev pub no_match : OrderSide → Order → Order → Bool
no_match buy best o = lt o.price best.price && not (is_type o.type market)
no_match sell best o = lt best.price o.price && not (is_type o.type market)

-- `order->reduce_quantity(qty)`
abbrev pub reduce : OrderPtr → Quantity → Matching → Matching
reduce p qty m = record m { order_pool = store p (reduce_quantity (slot_of m p) qty) m.order_pool }

-- `if (best->is_filled()) { book.cancel_order(best->id); order_pool_.deallocate(best); }`
unfoldable pub remove_filled : OrderPtr → Matching → Matching
remove_filled best m =
    if is_filled (slot_of m best)
    then record m {
      order_pool = deallocate best m.order_pool;
      book = (cancel_order (slot_of m) (slot_of m best).id m.book).1;
    }
    else m

-- The trades of a round and of the rounds after it.
abbrev pub with_trade : Trade → Option (List Trade × Matching) → Option (List Trade × Matching)
with_trade trade none = none
with_trade trade (some (trades, m)) = some (trade ∷ trades, m)

-- Step 4 of `process_new_order`: what is not filled is cancelled, left or added to the book.
unfoldable pub settle : OrderPtr → Matching → Matching
settle p m =
    if not (is_filled (slot_of m p))
    then (if is_type (slot_of m p).type ioc
        then record m { order_pool = deallocate p m.order_pool }
        else if not (is_type (slot_of m p).type market)
        then record m {
          book = add_order (slot_of m) p m.book;
          stats = record {
            total_orders = add_u64 m.stats.total_orders 1;
            total_trades = m.stats.total_trades;
            total_volume = m.stats.total_volume;
          };
        }
        else m)
    else record m { order_pool = deallocate p m.order_pool }

abbrev pub settle_after : OrderPtr → Option (List Trade × Matching) → Option (List Trade × Matching)
settle_after p none = none
settle_after p (some (trades, m)) = some (trades, settle p m)

abbrev pub back_in :
    Symbol → MatchingEngine → Option (List Trade × Matching) → Option (List Trade × MatchingEngine)
back_in symbol e none = none
back_in symbol e (some (trades, m)) = some (trades, put_back symbol m e)

module _ (clock : ℕ → ℕ) where
  unfoldable pub create_trade : Order → Order → Quantity → Price → Matching → Trade × Matching
  create_trade buy_order sell_order qty price m =
      let trade : Trade = record {
        buy_order_id = buy_order.id;
        buy_user_id = buy_order.user_id;
        sell_order_id = sell_order.id;
        sell_user_id = sell_order.user_id;
        symbol = buy_order.symbol;
        price = price;
        quantity = qty;
        timestamp = clock m.clock_reads;
      } in
      (
        trade,
        record m {
          trade_history = m.trade_history ++ trade ∷ [];
          stats = record {
            total_orders = m.stats.total_orders;
            total_trades = add_u64 m.stats.total_trades 1;
            total_volume = add_u64 m.stats.total_volume qty;
          };
          clock_reads = suc m.clock_reads;
        },
      )

  -- `create_trade(buy_order, best_ask, ...)`, `create_trade(best_bid, sell_order, ...)`
  abbrev pub trade_with : OrderSide → Order → Order → Quantity → Matching → Trade × Matching
  trade_with buy taker best qty = create_trade taker best qty best.price
  trade_with sell taker best qty = create_trade best taker qty best.price

  -- One round of the matching loop, `best` being the best order of the other side.
  unfoldable pub match_round : OrderSide → OrderPtr → OrderPtr → Matching → Trade × Matching
  match_round side taker best m =
      let qty = min (remaining_qty (slot_of m taker)) (remaining_qty (slot_of m best)) in
      let (trade, m') = trade_with side (slot_of m taker) (slot_of m best) qty m in
      (trade, remove_filled best (reduce best qty (reduce taker qty m')))

  -- `match_against_sell_orders` for a buy order and `match_against_buy_orders` for a sell order: the
  -- two loops are mirror images of one another.
  unfoldable pub match_against :
      OrderSide → ℕ → OrderPtr → Matching → Option (List Trade × Matching)
  match_against side zero taker m = none
  match_against side (suc fuel) taker m = elim (remaining_qty (slot_of m taker) == 0) [
    | true ↦ some ([], m)
    | false ↦ elim (best_opposite side m.book) [
      | none ↦ some ([], m)
      | some best ↦ elim (no_match side (slot_of m best) (slot_of m taker)) [
        | true ↦ some ([], m)
        | false ↦
            with_trade (match_round side taker best m).0
              (match_against side fuel taker (match_round side taker best m).1)
      ]
    ]
  ]

  abbrev pub match_against_sell_orders : ℕ → OrderPtr → Matching → Option (List Trade × Matching)
  match_against_sell_orders = match_against buy

  abbrev pub match_against_buy_orders : ℕ → OrderPtr → Matching → Option (List Trade × Matching)
  match_against_buy_orders = match_against sell

  -- Steps 3 and 4, on the book of the order: match, then settle.
  unfoldable pub execute : ℕ → OrderPtr → Matching → Option (List Trade × Matching)
  execute fuel p m = settle_after p (match_against (slot_of m p).side fuel p m)

  -- `process_new_order` from its second step on, for an order that is stored at `p` and valid.
  unfoldable pub route : ℕ → OrderPtr → MatchingEngine → Option (List Trade × MatchingEngine)
  route fuel p e =
      let o = e.order_pool.slot p in
      let (book, e') = get_or_create_order_book o.symbol e in
      if is_type o.type fok && not (can_fill_completely e.order_pool.slot book o)
      then some ([], e')
      else back_in o.symbol e' (execute fuel p (at_book e' book))

  -- `process_new_order` behind the allocation: null when the pool is exhausted.
  unfoldable pub admit :
      ℕ
      → Order
      → MatchingEngine
      → Option (ℕ × ObjectPool Order)
      → Option (List Trade × MatchingEngine)
  admit fuel incoming e none = some ([], e)
  admit fuel incoming e (some (p, pool)) =
      if not (validate_order incoming)
      then some ([], record e { order_pool = deallocate p (store p incoming pool) })
      else route fuel p (record e { order_pool = store p incoming pool })

  unfoldable pub process_new_order :
      ℕ → Order → MatchingEngine → Option (List Trade × MatchingEngine)
  process_new_order fuel incoming e = admit fuel incoming e (allocate e.order_pool)

-- Behind `book.cancel_order(id)`: the order of a pointer that it returned is copied, and its slot is
-- freed.
unfoldable pub finish_cancel :
    Symbol → MatchingEngine → Option OrderPtr × OrderBook → Option Order × MatchingEngine
finish_cancel symbol e (none, b) = (none, record e { order_books = insert symbol b e.order_books })
finish_cancel symbol e (some p, b) = (
  some (e.order_pool.slot p),
  record e { order_pool = deallocate p e.order_pool; order_books = insert symbol b e.order_books },
)

-- `MatchingEngine::cancel_order`; its parameter `side` is not used.
unfoldable pub cancel_engine_order :
    OrderId → Symbol → MatchingEngine → Option Order × MatchingEngine
cancel_engine_order id symbol e =
    let (book, e') = get_or_create_order_book symbol e in
    finish_cancel symbol e' (cancel_order e'.order_pool.slot id book)

unfoldable pub reset_stats : MatchingEngine → MatchingEngine
reset_stats e = record e { stats = zero_stats }
