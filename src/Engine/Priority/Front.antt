-- ===== src/Engine/Priority/Front.antt =====
-- The front of the queue (Engine/Priority) that the best order of a well-formed book stands at.
use order_matching_engine.Prelude.{
  ℕ, ◌≡◌, ◌≢◌, refl, ap, subst, false, none, some, List, [], ◌∷◌, contains, All, arith,
}
use order_matching_engine.Price.{is_nan}
use order_matching_engine.Types.{OrderSide, buy, sell, OrderPtr}
use order_matching_engine.PriceMap.{erase_at}
use order_matching_engine.PriceMap.Queue.{
  All-from_front, All-from_back, from_front-erase_at, from_back-erase_at,
}
use order_matching_engine.Book.{OrderBook, Slots, side_orders, get_best_ask, get_best_bid}
use order_matching_engine.Book.Invariant.{Resting, IsBook}
use order_matching_engine.Book.Frame.{refill, refill_ne}
use order_matching_engine.Book.Best.{Finds, best_of-Finds}
use order_matching_engine.Engine.{best_opposite}
use order_matching_engine.Engine.Removal.{opposite}
use order_matching_engine.Engine.Priority.{offers_of, queue_in, queue_for}

-- Orders that are neither of two look the same when those two are filled.
pub offers_of-refill :
    (s : Slots) (t best : OrderPtr) (a c : ℕ) (free ps : List ℕ)
    → All (λ q. contains q (best ∷ t ∷ free) ≡ false) ps
    → offers_of (refill (refill s t a) best c) ps ≡ offers_of s ps
offers_of-refill s t best a c free [] h = refl
offers_of-refill s t best a c free (p ∷ ps) h =
    let not_best : p ≢ best = λ e. ground (arith, h.0) in
    let not_taker : p ≢ t = λ e. ground (arith, h.0) in
    rw
      (
        refill_ne (refill s t a) best c p not_best,
        refill_ne s t a p not_taker,
        offers_of-refill s t best a c free ps h.1,
      )
      refl

module _ (size : ℕ) (s : Slots) (out : List ℕ) (b : OrderBook) (v : IsBook size s out b) where
  pub All-queue_for : (d : OrderSide) → All (λ q. contains q out ≡ false) (queue_for d b)
  All-queue_for buy =
      All-from_front (Resting size s out b.symbol b.order_lookup sell) (λ q. contains q out ≡ false)
        (λ k p r. r.in_use) 0 b.sell_orders v.sells
  All-queue_for sell =
      All-from_back (Resting size s out b.symbol b.order_lookup buy) (λ q. contains q out ≡ false)
        (λ k p r. r.in_use) 0 b.buy_orders v.buys

  -- The best order is at the front of the queue.
  pub front_lem :
      (d : OrderSide) (best : OrderPtr)
      → is_nan (s best).price ≡ false
      → best_opposite d b ≡ some best
      → queue_for d b
        ≡ best ∷ queue_in d (erase_at (s best).price best (side_orders (opposite d) b))
  unfolding get_best_ask get_best_bid
  front_lem buy best no_nan h =
      from_front-erase_at (Resting size s out b.symbol b.order_lookup sell) (s best).price best
        (λ k r. r.has_price) 0 b.sell_orders v.sells h
  front_lem sell best no_nan h =
      from_back-erase_at (Resting size s out b.symbol b.order_lookup buy) (s best).price best
        (λ k r. r.has_price) 0 b.buy_orders no_nan v.buys h

  pub nobody_lem : (d : OrderSide) → best_opposite d b ≡ none → queue_for d b ≡ []
  nobody_lem buy h =
      ap (queue_in buy) (subst (Finds size s out b sell) h (best_of-Finds size s out b sell v))
  nobody_lem sell h =
      ap (queue_in sell) (subst (Finds size s out b buy) h (best_of-Finds size s out b buy v))
