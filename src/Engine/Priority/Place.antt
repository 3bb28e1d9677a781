-- ===== src/Engine/Priority/Place.antt =====
-- OrderBook::add_order (src/order_book.cpp) puts an order at its place in the queue.
use order_matching_engine.Prelude.{
  ℕ, ◌≡◌, refl, ap, ◌∙◌, inl, inr, Bool, false, List, [], ◌∷◌, Bool-cases, arith,
}
use order_matching_engine.Price.{is_nan, lt_of_rank, not_lt_of_rank}
use order_matching_engine.Types.{OrderSide, buy, sell, OrderPtr}
use order_matching_engine.PriceMap.{push_back}
use order_matching_engine.PriceMap.Enter.{enter, from_front-push_back, from_back-push_back}
use order_matching_engine.Book.{OrderBook, Slots, side_orders, add_order}
use order_matching_engine.Book.Invariant.{Resting, IsBook}
use order_matching_engine.Engine.Removal.{opposite}
use order_matching_engine.Engine.Priority.{
  Offer, offer_of, offers_of, queue_in, queue_for, offers_for, better, place,
}

module _ (s : Slots) (p : OrderPtr) where
  abbrev beaten : OrderSide → OrderPtr → Bool
  beaten side q = better side (s p).price (s q).price

  enter-place :
      (side : OrderSide) (qs : List OrderPtr)
      → offers_of s (enter (beaten side) p qs) ≡ place side (offer_of (s p)) (offers_of s qs)
  unfolding enter place
  enter-place side [] = refl
  enter-place side (q ∷ qs) = elim (Bool-cases (beaten side q)) [
    | inl worse ↦ rw worse refl
    | inr not_worse ↦
        rw not_worse (ap (λ (l : List Offer). offer_of (s q) ∷ l) (enter-place side qs))
  ]

  module _ (size : ℕ) (out : List ℕ) (b : OrderBook) (no_nan : is_nan (s p).price ≡ false) where
    queue-push_back :
        (side : OrderSide)
        → IsBook size s (p ∷ out) b
        → queue_in (opposite side) (push_back (s p).price p (side_orders side b))
          ≡ enter (beaten side) p (queue_in (opposite side) (side_orders side b))
    queue-push_back sell v =
        from_front-push_back (beaten sell) p (Resting size s (p ∷ out) b.symbol b.order_lookup sell)
          (s p).price no_nan
          (λ k q r h.
            lt_of_rank (s p).price (s q).price no_nan r.no_nan (omega (arith, r.has_price)))
          (λ k q r h. not_lt_of_rank (s p).price (s q).price (omega (arith, r.has_price))) 0
          b.sell_orders v.sells
    queue-push_back buy v =
        from_back-push_back (beaten buy) p (Resting size s (p ∷ out) b.symbol b.order_lookup buy)
          (s p).price no_nan
          (λ k q r h.
            lt_of_rank (s q).price (s p).price r.no_nan no_nan (omega (arith, r.has_price)))
          (λ k q r h. not_lt_of_rank (s q).price (s p).price (omega (arith, r.has_price))) 0
          b.buy_orders v.buys

  side_lem :
      (side : OrderSide) (b : OrderBook)
      → (s p).side ≡ side
      → (side_orders side (add_order s p b) ≡ push_back (s p).price p (side_orders side b))
        × (side_orders (opposite side) (add_order s p b) ≡ side_orders (opposite side) b)
  unfolding add_order
  side_lem buy b h = rw h (refl, refl)
  side_lem sell b h = rw h (refl, refl)

  -- Adding an order with a price that is no NaN to a well-formed book puts its offer behind all
  -- offers of its side that are not worse and before all that are worse, and leaves the offers of
  -- the other side as they were.
  pub add_order-place :
      (size : ℕ) (out : List ℕ) (b : OrderBook) (side : OrderSide)
      → (s p).side ≡ side
      → is_nan (s p).price ≡ false
      → IsBook size s (p ∷ out) b
      → (offers_for (opposite side) s (add_order s p b)
          ≡ place side (offer_of (s p)) (offers_for (opposite side) s b))
        × (offers_for side s (add_order s p b) ≡ offers_for side s b)
  add_order-place size out b side h no_nan v =
      let (own, other) = side_lem side b h in
      (twice side own v, ap (λ m. offers_of s (queue_in side m)) other)
    where
      twice :
          (d : OrderSide)
          → side_orders d (add_order s p b) ≡ push_back (s p).price p (side_orders d b)
          → IsBook size s (p ∷ out) b
          → offers_for (opposite d) s (add_order s p b)
            ≡ place d (offer_of (s p)) (offers_for (opposite d) s b)
      twice buy own v =
          ap (λ m. offers_of s (queue_in sell m)) own
          ∙ ap (offers_of s) (queue-push_back size out b no_nan buy v)
          ∙ enter-place buy (queue_for sell b)
      twice sell own v =
          ap (λ m. offers_of s (queue_in buy m)) own
          ∙ ap (offers_of s) (queue-push_back size out b no_nan sell v)
          ∙ enter-place sell (queue_for buy b)
