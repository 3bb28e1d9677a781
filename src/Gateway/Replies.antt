-- ===== src/Gateway/Replies.antt =====
-- What the order handlers of src/client_gateway.cpp make of a request, and the reports that they send.
-- Where the C++ is undefined, the result is a fault.
use order_matching_engine.Prelude.{
  ℕ, ◌≡◌, ◌≢◌, refl, Option, none, some, [], ◌∷◌, ◌==◌, if◌then◌else◌,
}
use order_matching_engine.Prelude.Bytes.{Bytes}
use order_matching_engine.Price.{zero_price}
use order_matching_engine.Types.{
  OrderId, OrderPtr, Symbol, Quantity, OrderSide, buy, sell, limit, market, new, Order, Trade,
  is_buy, is_filled,
}
use order_matching_engine.Book.{OrderBook, get_order_by_id}
use order_matching_engine.Engine.{MatchingEngine, get_order_book}
use order_matching_engine.Gateway.Protocol.{
  NewOrderRequest, OrderCancelRequest, ExecutionReport, strncpy,
}
use order_matching_engine.Gateway.{clean_symbol}

-- A read past the end of a packet, a text without its final null, a null book, and a matching loop
-- that has no end.
pub data Fault : Type 0 where
  short_packet open_text null_book no_end : Fault

pub data Outcome {ℓ} (A : Type ℓ) : Type ℓ where
  ok : A → Outcome A
  fault : Fault → Outcome A

infixl 5 ◌>>=◌
abbrev pub ◌>>=◌ {ℓ κ} : {A : Type ℓ} → Outcome A → {B : Type κ} → (A → Outcome B) → Outcome B
fault why >>= next = fault why
ok result >>= next = next result

-- When the whole has a result, the first part had one, from which the rest made it.
pub >>=-eq-ok {ℓ κ} :
    {B : Type κ} {last : B} {A : Type ℓ} (next : A → Outcome B) (first : Outcome A)
    → (first >>= next) ≡ ok last
    → (given : A) × (first ≡ ok given) × (next given ≡ ok last)
>>=-eq-ok next (fault why) h = cc
>>=-eq-ok next (ok result) h = (result, refl, h)

pub ok-inj {ℓ} : {A : Type ℓ} {g g' : A} → ok g ≡ ok g' → g ≡ g'
ok-inj h = cc

pub fault-ne-ok {ℓ} : {A : Type ℓ} {e : Fault} {g : A} → fault e ≢ ok g
fault-ne-ok h = cc

-- A `char` array as a C string: what stands before its first null.
unfoldable pub c_string : Bytes → Outcome Symbol
c_string [] = fault open_text
c_string (c ∷ cs) = let rest = c_string cs in if c == 0 then ok [] else rest >>= λ s. ok (c ∷ s)

-- `timestamp` is not initialised, and not read.
abbrev pub order_of : NewOrderRequest → Order
order_of req = record {
  id = req.client_order_id;
  symbol = clean_symbol req.symbol;
  user_id = req.user_id;
  side = if req.side == 0 then buy else sell;
  type = if req.type == 0 then market else limit;
  price = req.price;
  quantity = req.quantity;
  quantity_filled = 0;
  status = new;
  timestamp = 0;
}

abbrev pub side_code : OrderSide → ℕ
side_code buy = 0
side_code sell = 1

-- `report`, after the trade was booked on the order.
abbrev pub taker_report : Order → Trade → ExecutionReport
taker_report o t = record {
  client_order_id = o.id;
  user_id = o.user_id;
  execution_id = t.buy_order_id;
  symbol = strncpy t.symbol;
  side = side_code o.side;
  price = t.price;
  quantity = t.quantity;
  filled_quantity = o.quantity_filled;
  status = if is_filled o then 2 else 1;
}

-- `m_report`
abbrev pub maker_report : Order → Trade → Quantity → ExecutionReport
maker_report o t filled = record {
  client_order_id = if is_buy o.side then t.sell_order_id else t.buy_order_id;
  user_id = if is_buy o.side then t.sell_order_id else t.buy_order_id;
  execution_id = t.buy_order_id;
  symbol = strncpy t.symbol;
  side = if is_buy o.side then 1 else 0;
  price = t.price;
  quantity = t.quantity;
  filled_quantity = filled;
  status = 2;
}

-- `report` when there was no trade.
abbrev pub new_report : Order → ExecutionReport
new_report o = record {
  client_order_id = o.id;
  user_id = o.user_id;
  execution_id = 0;
  symbol = strncpy o.symbol;
  side = side_code o.side;
  price = o.price;
  quantity = o.quantity;
  filled_quantity = 0;
  status = 0;
}

-- What `m_report` shows as filled, by what is found under the id of the incoming order.
abbrev pub shown_filled : Option OrderPtr → MatchingEngine → Trade → Quantity
shown_filled none e t = t.quantity
shown_filled (some p) e t = (e.order_pool.slot p).quantity_filled

abbrev pub shown_in : OrderId → MatchingEngine → Trade → Option OrderBook → Outcome Quantity
shown_in id e t none = fault null_book
shown_in id e t (some book) = ok (shown_filled (get_order_by_id id book) e t)

-- The book is looked up under the raw symbol.
unfoldable pub maker_filled : NewOrderRequest → Trade → MatchingEngine → Outcome Quantity
maker_filled req t e =
    c_string req.symbol >>= λ symbol. shown_in req.client_order_id e t (get_order_book symbol e)

-- What was found for a cancel request, and what was not.
abbrev pub cancel_report : OrderCancelRequest → Symbol → Option Order → ExecutionReport
cancel_report req symbol (some o) = record {
  client_order_id = req.client_order_id;
  user_id = req.user_id;
  execution_id = 0;
  symbol = strncpy symbol;
  side = side_code o.side;
  price = o.price;
  quantity = o.quantity;
  filled_quantity = o.quantity_filled;
  status = 3;
}
cancel_report req symbol none = record {
  client_order_id = req.client_order_id;
  user_id = req.user_id;
  execution_id = 0;
  symbol = strncpy symbol;
  side = req.side;
  price = zero_price;
  quantity = 0;
  filled_quantity = 0;
  status = 4;
}
