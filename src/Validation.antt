-- ===== src/Validation.antt =====
-- MatchingEngine::validate_order and can_fill_completely (src/matching_engine.cpp): the checks before an
-- order is matched.
use order_matching_engine.Prelude.{
  Bool, true, false, ◌&&◌, Option, none, some, List, [], ◌∷◌, ◌==◌, sub_u64, if◌then◌else◌,
}
use order_matching_engine.Price.{Price, lt, le, zero_price}
use order_matching_engine.Types.{
  Quantity, Symbol, buy, sell, limit, is_type, Order, OrderPtr, remaining_qty,
}
use order_matching_engine.PriceMap.{PriceMap}
use order_matching_engine.Book.{OrderBook, Slots}

unfoldable pub is_empty : Symbol → Bool
is_empty [] = true
is_empty (c ∷ cs) = false

unfoldable pub validate_order : Order → Bool
validate_order o =
    if o.quantity == 0
    then false
    else if is_empty o.symbol
    then false
    else if is_type o.type limit && le o.price zero_price
    then false
    else if lt o.price zero_price
    then false
    else true

-- The inner loop of `can_fill_completely`: nothing when it returns true, else `needed_qty` after it.
-- `needed_qty` is unsigned, so `needed_qty <= 0` is a test for 0.
unfoldable pub take_level : Slots → Quantity → List OrderPtr → Option Quantity
take_level s needed [] = some needed
take_level s needed (p ∷ ps) =
    let needed' = sub_u64 needed (remaining_qty (s p)) in
    let rest = take_level s needed' ps in if needed' == 0 then none else rest

-- The loop over the levels, from the lowest price on: `too_far` is the test under which it breaks.
unfoldable pub scan_levels : Slots → (Price → Bool) → Quantity → PriceMap → Bool
scan_levels s too_far needed [] = false
scan_levels s too_far needed ((price, ps) ∷ m) =
    if too_far price then false else elim (take_level s needed ps) [
      | none ↦ true
      | some needed' ↦ scan_levels s too_far needed' m
    ]

unfoldable pub can_fill_completely : Slots → OrderBook → Order → Bool
can_fill_completely s b o = elim o.side [
  | buy ↦ scan_levels s (λ price. lt o.price price) o.quantity b.sell_orders
  | sell ↦ scan_levels s (λ price. lt price o.price) o.quantity b.buy_orders
]
