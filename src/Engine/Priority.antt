-- ===== src/Engine/Priority.antt =====
-- What the matching loops of MatchingEngine promise, without pools, maps and fuel: an order takes the
-- offers of the other side one after the other, the best price first and the oldest first at a price.
pub mod Front
pub mod Place
pub mod Levels
use order_matching_engine.Prelude.{
  ℕ, ◌-◌, ◌<◌, ◌≤◌, ◌≡◌, ◌≢◌, refl, Bool, true, false, not, ◌&&◌, ◌||◌, List, [], ◌∷◌, ◌==◌, ltb,
  if◌then◌else◌, arith,
}
use order_matching_engine.Price.{Price, lt}
use order_matching_engine.Types.{
  OrderId, OrderSide, buy, sell, OrderType, market, is_type, Quantity, Order, OrderPtr, Trade,
}
use order_matching_engine.PriceMap.{PriceMap}
use order_matching_engine.PriceMap.Queue.{from_front, from_back}
use order_matching_engine.Book.{OrderBook, Slots, side_orders}
use order_matching_engine.Engine.Removal.{opposite}

-- An order that rests, and how much of it is left.
pub record Offer : Type 0 where
  pub id : OrderId
  pub price : Price
  pub left : ℕ

-- A trade, from the side of the order that takes the offer.
pub record Fill : Type 0 where
  pub offer_id : OrderId
  pub price : Price
  pub quantity : ℕ

abbrev pub fill_from : Offer → ℕ → Fill
fill_from x n = record { offer_id = x.id; price = x.price; quantity = n }

-- For an order of this side, type and price, an offer at the last price is too expensive or too cheap.
abbrev pub beyond : OrderSide → OrderType → Price → Price → Bool
beyond buy type own price = lt own price && not (is_type type market)
beyond sell type own price = lt price own && not (is_type type market)

module _ (side : OrderSide) (type : OrderType) (own : Price) where
  -- The trades of an order that wants so much, and the offers that are left.
  unfoldable pub take_offers : ℕ → List Offer → List Fill × List Offer
  take_offers wanted [] = ([], [])
  take_offers wanted (x ∷ xs) =
      let (fills, rest) = take_offers (wanted - x.left) xs in
      if wanted == 0 || beyond side type own x.price
      then ([], x ∷ xs)
      else if ltb wanted x.left
      then (fill_from x wanted ∷ [], record x { left = x.left - wanted } ∷ xs)
      else (fill_from x x.left ∷ fills, rest)

  pub take_offers-zero : (xs : List Offer) → take_offers 0 xs ≡ ([], xs)
  unfolding take_offers
  take_offers-zero [] = refl
  take_offers-zero (x ∷ xs) = refl

  pub take_offers-beyond :
      (wanted : ℕ) (x : Offer) (xs : List Offer)
      → beyond side type own x.price ≡ true
      → take_offers wanted (x ∷ xs) ≡ ([], x ∷ xs)
  unfolding take_offers
  take_offers-beyond wanted x xs h = ground (arith, h)

  pub take_offers-part :
      (wanted : ℕ) (x : Offer) (xs : List Offer)
      → 0 < wanted
      → beyond side type own x.price ≡ false
      → wanted < x.left
      → take_offers wanted (x ∷ xs)
        ≡ (fill_from x wanted ∷ [], record x { left = x.left - wanted } ∷ xs)
  unfolding take_offers
  take_offers-part wanted x xs more fair h = ground (arith, fair)

  pub take_offers-whole :
      (wanted : ℕ) (x : Offer) (xs : List Offer)
      → 0 < wanted
      → beyond side type own x.price ≡ false
      → x.left ≤ wanted
      → take_offers wanted (x ∷ xs) ≡ (
        fill_from x x.left ∷ (take_offers (wanted - x.left) xs).0,
        (take_offers (wanted - x.left) xs).1,
      )
  unfolding take_offers
  take_offers-whole wanted x xs more fair h = ground (arith, fair)

-- What the pool and the book say about the offers.
abbrev pub offer_of : Order → Offer
offer_of o = record { id = o.id; price = o.price; left = o.quantity - o.quantity_filled }

abbrev pub offers_of : Slots → List OrderPtr → List Offer
offers_of s [] = []
offers_of s (p ∷ ps) = offer_of (s p) ∷ offers_of s ps

-- The orders of the map that an order of this side meets, in their order.
abbrev pub queue_in : OrderSide → PriceMap → List OrderPtr
queue_in buy m = from_front m
queue_in sell m = from_back m

abbrev pub queue_for : OrderSide → OrderBook → List OrderPtr
queue_for side b = queue_in side (side_orders (opposite side) b)

abbrev pub offers_for : OrderSide → Slots → OrderBook → List Offer
offers_for side s b = offers_of s (queue_for side b)

-- A trade, seen from the order of this side.
abbrev pub fill_of : OrderSide → Trade → Fill
fill_of buy t = record { offer_id = t.sell_order_id; price = t.price; quantity = t.quantity }
fill_of sell t = record { offer_id = t.buy_order_id; price = t.price; quantity = t.quantity }

abbrev pub fills_of : OrderSide → List Trade → List Fill
fills_of side [] = []
fills_of side (t ∷ ts) = fill_of side t ∷ fills_of side ts

-- For two orders of this side, the first price is matched before the second.
abbrev pub better : OrderSide → Price → Price → Bool
better buy price other = lt other price
better sell price other = lt price other

-- A new offer of this side goes behind all that are not worse.
unfoldable pub place : OrderSide → Offer → List Offer → List Offer
place side x [] = x ∷ []
place side x (y ∷ ys) =
    let rest = place side x ys in if better side x.price y.price then x ∷ y ∷ ys else y ∷ rest
