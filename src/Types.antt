-- ===== src/Types.antt =====
-- include/types.h: the identifiers, enumerations and structures that the components share.
-- 64-bit identifiers and quantities are natural numbers; a quantity's arithmetic wraps at 2 ^ 64.
use order_matching_engine.Prelude.{ℕ, ◌≢◌, Bool, true, false, List, ◌==◌, leb, add_u64, sub_u64}
use order_matching_engine.Price.{Price}

abbrev pub OrderId : Type 0
OrderId = ℕ

abbrev pub Quantity : Type 0
Quantity = ℕ

-- `Symbol = std::string`: its bytes.
abbrev pub Symbol : Type 0
Symbol = List ℕ

pub data OrderSide : Type 0 where
  buy sell : OrderSide

pub data OrderType : Type 0 where
  limit market fok ioc gfd : OrderType

pub data OrderStatus : Type 0 where
  new partial filled cancelled : OrderStatus

-- `side == OrderSide::BUY`
abbrev pub is_buy : OrderSide → Bool
is_buy buy = true
is_buy sell = false

-- The values of `enum class OrderType`, by which `==` compares.
abbrev pub type_code : OrderType → ℕ
type_code limit = 0
type_code market = 1
type_code fok = 2
type_code ioc = 3
type_code gfd = 4

abbrev pub is_type : OrderType → OrderType → Bool
is_type s t = type_code s == type_code t

pub record Order : Type 0 where
  pub id : OrderId
  pub symbol : Symbol
  pub user_id : ℕ
  pub side : OrderSide
  pub type : OrderType
  pub price : Price
  pub quantity : Quantity
  pub quantity_filled : Quantity
  pub status : OrderStatus
  pub timestamp : ℕ

unfoldable pub is_filled : Order → Bool
is_filled o = leb o.quantity o.quantity_filled

unfoldable pub remaining_qty : Order → Quantity
remaining_qty o = sub_u64 o.quantity o.quantity_filled

unfoldable pub reduce_quantity : Order → Quantity → Order
reduce_quantity o qty = record o { quantity_filled = add_u64 o.quantity_filled qty }

pub record Trade : Type 0 where
  pub buy_order_id : OrderId
  pub buy_user_id : ℕ
  pub sell_order_id : OrderId
  pub sell_user_id : ℕ
  pub symbol : Symbol
  pub price : Price
  pub quantity : Quantity
  pub timestamp : ℕ

pub record L1Quote : Type 0 where
  pub bid : Price
  pub bid_qty : Quantity
  pub ask : Price
  pub ask_qty : Quantity

pub record L2Quote : Type 0 where
  pub bids : List (Price × Quantity)
  pub asks : List (Price × Quantity)

-- A pointer into the order pool: the index of its slot.
abbrev pub OrderPtr : Type 0
OrderPtr = ℕ

-- The list node to which `list_it` points is named by the pointer that it holds: no pointer is
-- queued twice in a price level that is well formed (Book/Invariant).
pub record OrderInfo : Type 0 where
  pub order_ptr : OrderPtr
  pub list_it : OrderPtr

pub buy-ne-sell : buy ≢ sell
buy-ne-sell h = cc
