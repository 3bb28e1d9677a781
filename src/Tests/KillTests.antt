-- ===== src/Tests/KillTests.antt =====
-- A fill-or-kill order for 3 at 2.0 meets a bid for 8 at 2.0, behind which there is one for 5 at 1.0.
use order_matching_engine.Prelude.{
  zero, suc, ◌<◌, ◌≡◌, refl, sym, subst, ◌∙◌, none, some, [], ◌∷◌, none-ne-some, arith, inl, false,
}
use order_matching_engine.Prelude.Bytes.{insert, lookup-nil, lookup-insert_self}
use order_matching_engine.Prelude.Dict
use order_matching_engine.Price.{Price, is_nan, lt, rank}
use order_matching_engine.Types.{buy, sell, fok, Order}
use order_matching_engine.PriceMap.{push_back}
use order_matching_engine.PriceMap.Order.{At}
use order_matching_engine.Book.{OrderBook, Slots, new_book, add_order, get_total_orders}
use order_matching_engine.Book.Invariant.{IsBook}
use order_matching_engine.Book.Update.{IsNew, add_order-IsBook}
use order_matching_engine.Engine.{MatchingEngine, process_new_order, zero_stats}
use order_matching_engine.Engine.Books.{IsBookOf, IsEngine, new_book-IsBookOf, insert-books}
use order_matching_engine.Engine.Route.{IsAcceptable}
use order_matching_engine.Engine.Exchange.Unchanged.{depth_at}
use order_matching_engine.Engine.Exchange.LowBid.{process_new_order-low_bid}
use order_matching_engine.Tests.{acme, one_dollar, one_dollar-is_nan, order}

-- The bits of the double 2.0.
abbrev two_dollars : Price
two_dollars = 0x4000000000000000

two_dollars-is_nan : is_nan two_dollars ≡ false
unfolding is_nan
two_dollars-is_nan = refl

abbrev slots : Slots
slots zero = order 1 buy 5
slots (suc p) = record (order 2 buy 8) { price = two_dollars }

abbrev low : OrderBook
low = add_order slots 0 (new_book acme)

abbrev both : OrderBook
both = add_order slots 1 low

low-IsNew : IsNew 4 slots (1 ∷ 3 ∷ 2 ∷ []) (new_book acme) 0
unfolding new_book
low-IsNew = record {
  in_range = omega arith;
  not_out = refl;
  has_symbol = refl;
  no_nan = one_dollar-is_nan;
  open_qty = omega arith;
  bounded = omega arith;
  new_id = refl;
}

high-IsNew : IsNew 4 slots (3 ∷ 2 ∷ []) low 1
unfolding new_book add_order
high-IsNew = record {
  in_range = omega arith;
  not_out = refl;
  has_symbol = refl;
  no_nan = two_dollars-is_nan;
  open_qty = omega arith;
  bounded = omega arith;
  new_id = refl;
}

both-IsBook : IsBook 4 slots (3 ∷ 2 ∷ []) both
both-IsBook = add_order-IsBook 4 slots (3 ∷ 2 ∷ []) low 1 high-IsNew (
    add_order-IsBook 4 slots (1 ∷ 3 ∷ 2 ∷ []) (new_book acme) 0 low-IsNew
      (new_book-IsBookOf (record { size = 4; slot = slots; free_indices = [] }) (0 ∷ 1 ∷ 3 ∷ 2 ∷ [])
        acme).book)

abbrev engine : MatchingEngine
engine = record {
  order_pool = record { size = 4; slot = slots; free_indices = 3 ∷ 2 ∷ [] };
  order_books = insert acme both [];
  trade_history = [];
  stats = zero_stats;
  clock_reads = 0;
}

both-IsBookOf : IsBookOf engine.order_pool (3 ∷ 2 ∷ []) acme both
unfolding add_order new_book
both-IsBookOf = record {
  book = both-IsBook;
  of_symbol = refl;
  uncrossed = λ j k p q _ at. elim at [ ];
}

engine-IsEngine : IsEngine engine
engine-IsEngine = record {
  pool = record { distinct = (refl, (refl, tt)); in_range = (omega arith, (omega arith, tt)) };
  books =
      insert-books engine.order_pool engine.order_pool _ _ acme both [] both-IsBookOf (λ s b _ h. h)
        (λ s b found. absurd (none-ne-some (sym (lookup-nil s) ∙ found)));
}

abbrev killed : Order
killed = record (order 3 sell 3) { price = two_dollars; type = fok }

killed-is_new : Dict.lookup 3 both.order_lookup ≡ none
unfolding add_order new_book
killed-is_new = refl

both-total : get_total_orders both ≡ 2
unfolding add_order new_book get_total_orders
both-total = refl

killed-IsAcceptable : IsAcceptable 4 killed engine.order_books
killed-IsAcceptable = record {
  no_nan = two_dollars-is_nan;
  bounded = omega arith;
  fresh = refl;
  enough = omega arith;
  of_book = λ b found.
      let is : some both ≡ some b = sym (lookup-insert_self acme both []) ∙ found in
      let same_book : both ≡ b = cc in
      subst
        (λ (c : OrderBook). (Dict.lookup 3 c.order_lookup ≡ none) × (suc (get_total_orders c) < 4))
        same_book (killed-is_new, omega (arith, both-total));
}

low_bid : At one_dollar 0 both.buy_orders
unfolding add_order new_book push_back lt is_nan rank
low_bid = inl (refl, refl)

low_bid-below : rank one_dollar < rank two_dollars
unfolding rank
low_bid-below = omega arith

process_new_order-low_bid_example :
    (e' : MatchingEngine) × (process_new_order (λ n. n) 4 killed engine ≡ some ([], e'))
    × (depth_at acme e' ≡ depth_at acme engine)
process_new_order-low_bid_example =
    process_new_order-low_bid (λ n. n) 4 killed engine both one_dollar 0 engine-IsEngine
      killed-IsAcceptable refl refl (lookup-insert_self acme both []) low_bid low_bid-below
