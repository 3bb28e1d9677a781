-- ===== src/Engine/Exchange/LowBid.antt =====
-- MatchingEngine::process_new_order (src/matching_engine.cpp) with a fill-or-kill sell order: the scan
-- of can_fill_completely starts at the lowest bid.
use order_matching_engine.Prelude.{
  ℕ, ◌<◌, ◌≡◌, refl, ap, ◌∙◌, Bool, true, false, Option, some, List, [], ◌∷◌, arith,
}
use order_matching_engine.Prelude.Bytes.{lookup}
use order_matching_engine.Price.{Price, is_nan, rank, lt, lt_of_rank}
use order_matching_engine.Types.{buy, sell, Order, OrderPtr, Trade, fok, is_type}
use order_matching_engine.Pool.{store}
use order_matching_engine.PriceMap.{PriceMap}
use order_matching_engine.PriceMap.Order.{IsSide, At, IsSide-At}
use order_matching_engine.Book.{OrderBook, Slots}
use order_matching_engine.Book.Invariant.{Resting}
use order_matching_engine.Validation.{scan_levels, can_fill_completely}
use order_matching_engine.Engine.{MatchingEngine, process_new_order}
use order_matching_engine.Engine.Books.{IsEngine}
use order_matching_engine.Engine.Route.{IsAcceptable}
use order_matching_engine.Engine.Exchange.{submit}
use order_matching_engine.Engine.Exchange.Unchanged.{depth_at}
use order_matching_engine.Engine.Exchange.AllOrNothing.{fills_of-nil}
use order_matching_engine.Engine.Exchange.Routing.{book_for, turned_away}
use order_matching_engine.Engine.Exchange.Submitting.{process_new_order-Submits}

-- When there is a bid below the limit, the lowest one is below it, and the scan ends there.
scan_levels-low_bid :
    (R : Price → OrderPtr → Type 0) (s : Slots) (own : Price) (needed : ℕ) (m : PriceMap)
    (k : Price) (p : OrderPtr)
    → is_nan own ≡ false
    → IsSide R 0 m
    → At k p m
    → rank k < rank own
    → scan_levels s (λ price. lt price own) needed m ≡ false
unfolding scan_levels
scan_levels-low_bid R s own needed [] k p real v at below = elim at [ ]
scan_levels-low_bid R s own needed ((j, ps) ∷ m) k p real (a, real_j, some_p, d, all, g) at below =
    let (_, _, lowest) =
      IsSide-At R (rank j) ((j, ps) ∷ m) (omega arith, real_j, some_p, d, all, g) at in
    let too_low : lt j own ≡ true = lt_of_rank j own real_j real (omega (arith, lowest, below)) in
    rw too_low refl

module _ (clock : ℕ → ℕ) (fuel : ℕ) (o : Order) (e : MatchingEngine) (b : OrderBook) (k : Price)
    (p : OrderPtr) (v : IsEngine e) (w : IsAcceptable fuel o e.order_books) (is_fok : o.type ≡ fok)
    (sells : o.side ≡ sell) (found : lookup o.symbol e.order_books ≡ some b)
    (bid : At k p b.buy_orders) (below : rank k < rank o.price) where
  unfit : (s : Slots) → can_fill_completely s b o ≡ false
  unfolding can_fill_completely
  unfit s =
      rw (sells, can_fill_completely)
        (scan_levels-low_bid
          (Resting e.order_pool.size e.order_pool.slot e.order_pool.free_indices b.symbol
            b.order_lookup buy)
          s o.price o.quantity b.buy_orders k p w.no_nan (v.books o.symbol b found).book.buys bid
          below)

  killed : (free : List ℕ) → turned_away o e free ≡ true
  killed [] = refl
  killed (t ∷ rest) =
      let kind : is_type o.type fok ≡ true = rw is_fok refl in
      let no : can_fill_completely (store t o e.order_pool).slot
            (book_for o.symbol (lookup o.symbol e.order_books)) o
          ≡ false =
        ap
          (λ (x : Option OrderBook).
            can_fill_completely (store t o e.order_pool).slot (book_for o.symbol x) o)
          found
        ∙ unfit (store t o e.order_pool).slot in
      ground (arith, kind, no)

  -- On a well-formed engine, `process_new_order` of a fill-or-kill sell order that it can accept
  -- returns without a trade and leaves the offers of the symbol as they were, as soon as there is
  -- any bid below the limit of the order in the book, however much the bids within the limit would
  -- take.
  pub process_new_order-low_bid :
      (e' : MatchingEngine) × (process_new_order clock fuel o e ≡ some ([], e'))
      × (depth_at o.symbol e' ≡ depth_at o.symbol e)
  unfolding submit
  process_new_order-low_bid =
      let (trades, e', is, done) = process_new_order-Submits clock fuel o e v w in
      let kill = killed e.order_pool.free_indices in
      let offers = depth_at o.symbol e in
      let none_made =
        fills_of-nil o.side trades (done.fills ∙ ap (λ (x : Bool). (submit x o offers).0) kill) in
      (
        e',
        is ∙ ap (λ (ts : List Trade). some (ts, e')) none_made,
        done.offers ∙ ap (λ (x : Bool). (submit x o offers).1) kill,
      )
