-- ===== src/PriceMap.antt =====
-- `std::map<Price, std::list<Order *>>` (include/order_book.h): the price levels of one side of a
-- book in ascending order of price, each with its queue of orders, the oldest first.
pub mod Order
pub mod Update
pub mod Positions
pub mod Queue
pub mod Enter
pub mod Drop
use order_matching_engine.Prelude.{
  ℕ, suc, ◌+◌, ◌≡◌, Option, none, some, List, [], ◌∷◌, ◌++◌, Bool, true, false, if◌then◌else◌,
  length, head?, erase,
}
use order_matching_engine.Price.{Price, lt}
use order_matching_engine.Types.{OrderPtr}

abbrev pub PriceMap : Type 0
PriceMap = List (Price × List OrderPtr)

-- `price_map[k].push_back(p)`, where `[]` makes an empty level in its place if there is none.
unfoldable pub push_back : Price → OrderPtr → PriceMap → PriceMap
push_back k p [] = (k, p ∷ []) ∷ []
push_back k p ((j, ps) ∷ m) =
    if lt k j
    then (k, p ∷ []) ∷ (j, ps) ∷ m
    else if lt j k
    then (j, ps) ∷ push_back k p m
    else (j, ps ++ p ∷ []) ∷ m

-- `price_map.find(k)`: the level that is neither below nor above `k`.
unfoldable pub find : Price → PriceMap → Option (List OrderPtr)
find k [] = none
find k ((j, ps) ∷ m) = if lt j k then find k m else if lt k j then none else some ps

-- A level from which an order went: an empty one is erased.
abbrev pub drop_empty : Price → List OrderPtr → PriceMap → PriceMap
drop_empty j [] m = m
drop_empty j (p ∷ ps) m = (j, p ∷ ps) ∷ m

-- `it->second.erase(node)` at `it = price_map.find(k)`, then `price_map.erase(it)` if that left the
-- level empty.
unfoldable pub erase_at : Price → OrderPtr → PriceMap → PriceMap
erase_at k p [] = []
erase_at k p ((j, ps) ∷ m) =
    if lt j k
    then (j, ps) ∷ erase_at k p m
    else if lt k j
    then (j, ps) ∷ m
    else drop_empty j (erase p ps) m

-- `begin()->second.front()`, if the map is not empty.
unfoldable pub first_order : PriceMap → Option OrderPtr
first_order [] = none
first_order ((j, ps) ∷ m) = head? ps

-- `rbegin()->second.front()`, if the map is not empty.
unfoldable pub last_order : PriceMap → Option OrderPtr
last_order [] = none
last_order ((j, ps) ∷ []) = head? ps
last_order (l ∷ l' ∷ m) = last_order (l' ∷ m)

-- The number of orders: the sum of the levels' sizes.
unfoldable pub count_orders : PriceMap → ℕ
count_orders [] = 0
count_orders ((j, ps) ∷ m) = length ps + count_orders m
