-- ===== src/Engine/Exchange.antt =====
-- What MatchingEngine::process_new_order promises of one symbol, without pools, maps and fuel: a new
-- order trades by Engine/Priority, and what is left of it takes its place in the queue of its side.
pub mod Trading
pub mod Unchanged
pub mod Routing
pub mod Enough
pub mod Scan
pub mod Submitting
pub mod AllOrNothing
pub mod LowBid
pub mod Withdrawing
pub mod History
use order_matching_engine.Prelude.{
  ℕ, ◌+◌, ◌-◌, ◌≡◌, refl, Bool, true, false, ◌||◌, List, [], ◌∷◌, ◌==◌, if◌then◌else◌, arith,
}
use order_matching_engine.Types.{
  OrderId, OrderSide, buy, sell, Order, OrderType, market, ioc, is_type, Trade,
}
use order_matching_engine.Book.{OrderBook, Slots}
use order_matching_engine.Engine.Removal.{opposite}
use order_matching_engine.Engine.Matched.{volume}
use order_matching_engine.Engine.Priority.{Offer, Fill, take_offers, place, offers_for, fills_of}

-- The offers of a book: those that a sell order meets, and those that a buy order meets.
pub record Depth : Type 0 where
  pub bids : List Offer
  pub asks : List Offer

abbrev pub no_offers : Depth
no_offers = record { bids = []; asks = [] }

abbrev pub depth_of : Slots → OrderBook → Depth
depth_of s b = record { bids = offers_for sell s b; asks = offers_for buy s b }

-- What an order of this side meets, and what stands on its own side.
abbrev pub met : OrderSide → Depth → List Offer
met buy d = d.asks
met sell d = d.bids

abbrev pub own : OrderSide → Depth → List Offer
own side d = met (opposite side) d

abbrev pub both_sides : OrderSide → List Offer → List Offer → Depth
both_sides buy mine theirs = record { bids = mine; asks = theirs }
both_sides sell mine theirs = record { bids = theirs; asks = mine }

abbrev pub taken : List Fill → ℕ
taken [] = 0
taken (f ∷ fs) = f.quantity + taken fs

-- An order with nothing left, and one that must not wait, do not enter the queue.
abbrev pub enters : Order → ℕ → List Offer → List Offer
enters o left mine =
    if left == 0 || (is_type o.type ioc || is_type o.type market)
    then mine
    else place o.side (record { id = o.id; price = o.price; left = left }) mine

-- The trades of a new order, and the offers afterwards.
unfoldable pub trade_on : Order → Depth → List Fill × Depth
trade_on o d =
    let wanted = o.quantity - o.quantity_filled in
    let (fills, theirs) = take_offers o.side o.type o.price wanted (met o.side d) in
    (fills, both_sides o.side (enters o (wanted - taken fills) (own o.side d)) theirs)

-- A fill-or-kill order may be killed before it trades.
unfoldable pub submit : Bool → Order → Depth → List Fill × Depth
submit killed o d = if killed then ([], d) else trade_on o d

-- A cancelled order leaves the offers.
unfoldable pub withdraw : OrderId → List Offer → List Offer
withdraw id [] = []
withdraw id (x ∷ xs) = let rest = withdraw id xs in if x.id == id then rest else x ∷ rest

abbrev pub withdraw_from : OrderId → Depth → Depth
withdraw_from id d = record { bids = withdraw id d.bids; asks = withdraw id d.asks }

pub taken-fills_of : (side : OrderSide) (ts : List Trade) → taken (fills_of side ts) ≡ volume ts
taken-fills_of side [] = refl
taken-fills_of buy (t ∷ ts) = omega (arith, taken-fills_of buy ts)
taken-fills_of sell (t ∷ ts) = omega (arith, taken-fills_of sell ts)
