-- ===== src/Book/Invariant.antt =====
-- When the book of a symbol is well formed, over the pool that holds its orders.
use order_matching_engine.Prelude.{ℕ, ◌+◌, ◌<◌, ◌≡◌, false, some, List, length, contains, u64_mod}
use order_matching_engine.Prelude.Dict.{Dict, lookup, IsDict}
use order_matching_engine.Price.{Price, is_nan, rank}
use order_matching_engine.Types.{OrderId, Symbol, OrderSide, buy, sell, Order, OrderPtr, OrderInfo}
use order_matching_engine.PriceMap.{count_orders}
use order_matching_engine.PriceMap.Order.{IsSide, At}
use order_matching_engine.Book.{OrderBook, Slots, side_orders}

-- The order `o` in the slot `p` rests at the price `k` of one side of a book: the slot is in range
-- and not among the slots `out`, the order's fields belong there, something of it is left to trade,
-- and the lookup finds it by its id.
pub record Rests (size : ℕ) (out : List ℕ) (symbol : Symbol) (listed : Dict OrderInfo)
    (side : OrderSide) (k : Price) (p : OrderPtr) (o : Order) : Type 0 where
  pub in_range : p < size
  pub in_use : contains p out ≡ false
  pub has_symbol : o.symbol ≡ symbol
  pub has_side : o.side ≡ side
  pub has_price : rank o.price ≡ rank k
  pub no_nan : is_nan o.price ≡ false
  pub open_qty : o.quantity_filled < o.quantity
  pub bounded : o.quantity < u64_mod
  pub is_listed : lookup o.id listed ≡ some (record { order_ptr = p; list_it = p })

abbrev pub Resting :
    ℕ → Slots → List ℕ → Symbol → Dict OrderInfo → OrderSide → Price → OrderPtr → Type 0
Resting size s out symbol listed side k p = Rests size out symbol listed side k p (s p)

-- Both sides are well formed; the lookup has one entry to an id, as many as there are orders, and
-- each of them leads to the order of that id in the book.
pub record IsBook (size : ℕ) (s : Slots) (out : List ℕ) (b : OrderBook) : Type 0 where
  pub buys : IsSide (Resting size s out b.symbol b.order_lookup buy) 0 b.buy_orders
  pub sells : IsSide (Resting size s out b.symbol b.order_lookup sell) 0 b.sell_orders
  pub one_entry : IsDict b.order_lookup
  pub counted : length b.order_lookup ≡ count_orders b.buy_orders + count_orders b.sell_orders
  pub leads_to :
      (id : OrderId) (info : OrderInfo)
      → lookup id b.order_lookup ≡ some info
      → (info.list_it ≡ info.order_ptr)
        × ((s info.order_ptr).id ≡ id)
        × ((k : Price) × At k info.order_ptr (side_orders (s info.order_ptr).side b))
