-- ===== src/Tests/BookTests.antt =====
-- The pool, the book of Tests, and the defects of the engine at concrete states.
use order_matching_engine.Prelude.{
  ℕ, zero, suc, ◌<◌, ◌≤◌, ◌≡◌, refl, none, some, List, [], ◌∷◌, arith, false, length, map, take,
  contains, ◌⊎◌, ◌^◌,
}
use order_matching_engine.Price.{is_nan, lt, rank}
use order_matching_engine.Types.{buy, sell, Order, remaining_qty}
use order_matching_engine.Pool.{ObjectPool, allocate, deallocate, available, capacity}
use order_matching_engine.Pool.Laws.{IsValid, allocate_lem}
use order_matching_engine.PriceMap.{first_order}
use order_matching_engine.Book.{
  OrderBook, Slots, new_book, add_order, cancel_order, get_best_ask, get_l2_quote,
}
use order_matching_engine.Book.Best.{best_of, Finds, best_of-Finds}
use order_matching_engine.Book.Invariant.{IsBook}
use order_matching_engine.Book.Cancel.{Cancels, cancel_order-Cancels, cancel_order-add_order}
use order_matching_engine.Book.Quotes.{Ascending, Descending, get_l2_quote-ordered}
use order_matching_engine.Validation.{can_fill_completely}
use order_matching_engine.Engine.{Matching, match_against, zero_stats}
use order_matching_engine.Engine.Defects.{
  IsStuck, match_against-IsStuck, can_fill_completely-larger_order,
}
use order_matching_engine.Engine.Books.{new_book-IsBookOf}
use order_matching_engine.Engine.Priority.{offers_for}
use order_matching_engine.Engine.Priority.Levels.{levels, ranked, wrapped, get_l2_quote-levels}
use order_matching_engine.Types.{buy, sell}
use order_matching_engine.Tests.{
  acme, one_dollar, order, ask, bid, slots, book, ask-IsNew, book-IsBook, engine, engine-IsEngine,
}

abbrev out : List ℕ
out = 1 ∷ 3 ∷ 2 ∷ []

abbrev pool : ObjectPool Order
pool = engine.order_pool

allocate_lem_example :
    ((available pool ≡ 0) × (allocate pool ≡ none))
    ⊎ ((i : ℕ) × (q : ObjectPool Order) × (allocate pool ≡ some (i, q))
        × IsValid q
        × (i < capacity pool)
        × (contains i q.free_indices ≡ false)
        × (suc (available q) ≡ available pool)
        × (deallocate i q ≡ pool))
allocate_lem_example = allocate_lem pool engine-IsEngine.pool

best_of-Finds_example : Finds 4 slots out book sell (best_of sell book)
best_of-Finds_example = best_of-Finds 4 slots out book sell book-IsBook

cancel_order-Cancels_example : Cancels 4 slots out book 1 (cancel_order slots 1 book)
cancel_order-Cancels_example = cancel_order-Cancels 4 slots out book 1 book-IsBook

empty-IsBook : IsBook 4 slots (0 ∷ out) (new_book acme)
empty-IsBook =
    (new_book-IsBookOf (record { size = 4; slot = slots; free_indices = [] }) (0 ∷ out) acme).book

cancel_order-add_order_example :
    cancel_order slots 1 (add_order slots 0 (new_book acme)) ≡ (some 0, new_book acme)
cancel_order-add_order_example =
    cancel_order-add_order 4 slots out (new_book acme) 0 ask-IsNew empty-IsBook

get_l2_quote-ordered_example :
    let q = get_l2_quote slots 5 book in
    Descending (2 ^ 64) q.bids × Ascending 0 q.asks × (length q.bids ≤ 5) × (length q.asks ≤ 5)
get_l2_quote-ordered_example = get_l2_quote-ordered 4 slots out 5 book book-IsBook

-- Buy 3 against a sell order for 5 at the same price.
abbrev with_ask : OrderBook
with_ask = record (new_book acme) { sell_orders = (one_dollar, 0 ∷ []) ∷ [] }

same_price : lt one_dollar one_dollar ≡ false
unfolding lt is_nan rank
same_price = refl

ask-remaining : remaining_qty ask ≡ 5
unfolding remaining_qty
ask-remaining = refl

can_fill_completely-larger_order_example :
    can_fill_completely slots with_ask (order 2 buy 3) ≡ false
can_fill_completely-larger_order_example =
    can_fill_completely-larger_order slots with_ask (order 2 buy 3) one_dollar 0 refl refl
      same_price (omega (arith, ask-remaining)) (omega (arith, ask-remaining))

-- A sell order that is filled heads the book, and its id is not listed.
abbrev stuck_slots : Slots
stuck_slots zero = record ask { quantity_filled = 5 }
stuck_slots (suc p) = bid

abbrev endless : Matching
endless = record {
  order_pool = record { size = 4; slot = stuck_slots; free_indices = 3 ∷ 2 ∷ [] };
  book = with_ask;
  trade_history = [];
  stats = zero_stats;
  clock_reads = 0;
}

endless-IsStuck : IsStuck buy 1 0 endless.order_pool endless.book
unfolding new_book get_best_ask first_order lt is_nan rank
endless-IsStuck = record {
  is_best = refl;
  apart = λ e. omega arith;
  unknown = refl;
  full = refl;
  matches = refl;
  best_bounded = omega arith;
  wants = omega arith;
  bounded = omega arith;
}

match_against-IsStuck_example : match_against (λ n. n) buy 1000 1 endless ≡ none
match_against-IsStuck_example = match_against-IsStuck (λ n. n) buy 1 0 1000 endless endless-IsStuck

get_l2_quote-levels_example :
    (map ranked (get_l2_quote slots 5 book).bids
      ≡ take 5 (map wrapped (levels (offers_for sell slots book))))
    × (map ranked (get_l2_quote slots 5 book).asks
        ≡ take 5 (map wrapped (levels (offers_for buy slots book))))
get_l2_quote-levels_example = get_l2_quote-levels 4 slots out book book-IsBook 5
