-- ===== src/Tests.antt =====
-- A book with one sell order, a buy order that meets it, and the engine that holds them: the data of
-- the tests.
pub mod BookTests
pub mod KillTests
pub mod EngineTests
pub mod GatewayTests
pub mod ServerTests
pub mod LoggerTests
use order_matching_engine.Prelude.{
  ℕ, zero, suc, ◌+◌, ◌<◌, ◌≡◌, refl, sym, ◌∙◌, Option, none, some, List, [], ◌∷◌, inr, arith, Bool,
  false, subst, none-ne-some,
}
use order_matching_engine.Prelude.Bytes.{lookup, insert, lookup-insert_self, lookup-nil}
use order_matching_engine.Prelude.Dict
use order_matching_engine.Price.{Price, is_nan}
use order_matching_engine.Types.{
  OrderSide, buy, sell, OrderType, limit, new, Order, OrderPtr, Symbol, Quantity,
}
use order_matching_engine.Pool.{ObjectPool}
use order_matching_engine.Pool.Laws.{IsValid}
use order_matching_engine.Book.{OrderBook, Slots, new_book, add_order, get_total_orders}
use order_matching_engine.Book.Invariant.{IsBook}
use order_matching_engine.Book.Update.{IsNew, add_order-IsBook}
use order_matching_engine.Engine.{MatchingEngine, Matching, zero_stats}
use order_matching_engine.Engine.Removal.{IsMatching}
use order_matching_engine.Engine.Settle.{IsQueueable}
use order_matching_engine.Engine.Books.{IsEngine, IsBookOf, new_book-IsBookOf, insert-books}
use order_matching_engine.Engine.Route.{IsAcceptable}

abbrev pub acme : Symbol
acme = 65 ∷ []

-- The bits of the double 1.0.
abbrev pub one_dollar : Price
one_dollar = 0x3ff0000000000000

abbrev pub order : ℕ → OrderSide → Quantity → Order
order id side qty = record {
  id = id;
  symbol = acme;
  user_id = 7;
  side = side;
  type = limit;
  price = one_dollar;
  quantity = qty;
  quantity_filled = 0;
  status = new;
  timestamp = 0;
}

abbrev pub ask : Order
ask = order 1 sell 5

abbrev pub bid : Order
bid = order 2 buy 8

-- The sell order in slot 0, the buy order in the others.
abbrev pub slots : Slots
slots zero = ask
slots (suc p) = bid

abbrev pub book : OrderBook
book = add_order slots 0 (new_book acme)

pub one_dollar-is_nan : is_nan one_dollar ≡ false
unfolding is_nan
one_dollar-is_nan = refl

pub ask-IsNew : IsNew 4 slots (1 ∷ 3 ∷ 2 ∷ []) (new_book acme) 0
unfolding new_book
ask-IsNew = record {
  in_range = omega arith;
  not_out = refl;
  has_symbol = refl;
  no_nan = one_dollar-is_nan;
  open_qty = omega arith;
  bounded = omega arith;
  new_id = refl;
}

-- The sell order is in the book; the slots 1, 2 and 3 are not.
pub book-IsBook : IsBook 4 slots (1 ∷ 3 ∷ 2 ∷ []) book
book-IsBook =
    add_order-IsBook 4 slots (1 ∷ 3 ∷ 2 ∷ []) (new_book acme) 0 ask-IsNew
      (new_book-IsBookOf (record { size = 4; slot = slots; free_indices = [] }) (0 ∷ 1 ∷ 3 ∷ 2 ∷ [])
        acme).book

-- The buy order is being matched.
abbrev pub meeting : Matching
meeting = record {
  order_pool = record { size = 4; slot = slots; free_indices = 3 ∷ 2 ∷ [] };
  book = book;
  trade_history = [];
  stats = zero_stats;
  clock_reads = 0;
}

pub meeting-IsMatching : IsMatching 1 meeting.order_pool meeting.book
meeting-IsMatching = record {
  pool = record { distinct = (refl, (refl, tt)); in_range = (omega arith, (omega arith, tt)) };
  book = book-IsBook;
  in_range = omega arith;
  in_flight = refl;
  bounded = omega arith;
  not_over = omega arith;
}

pub bid-is_new : Dict.lookup 2 book.order_lookup ≡ none
unfolding add_order new_book
bid-is_new = refl

pub book-total : get_total_orders book ≡ 1
unfolding add_order new_book get_total_orders
book-total = refl

pub book-symbol : book.symbol ≡ acme
unfolding add_order new_book
book-symbol = refl

pub meeting-IsQueueable : IsQueueable buy 1 meeting
meeting-IsQueueable = record {
  has_symbol = sym book-symbol;
  no_nan = one_dollar-is_nan;
  new_id = bid-is_new;
  has_side = refl;
}

-- The engine before the buy order arrives.
abbrev pub engine : MatchingEngine
engine = record {
  order_pool = record { size = 4; slot = slots; free_indices = 1 ∷ 3 ∷ 2 ∷ [] };
  order_books = insert acme book [];
  trade_history = [];
  stats = zero_stats;
  clock_reads = 0;
}

book-IsBookOf : IsBookOf engine.order_pool (1 ∷ 3 ∷ 2 ∷ []) acme book
unfolding add_order new_book
book-IsBookOf = record {
  book = book-IsBook;
  of_symbol = refl;
  uncrossed = λ j k p q at _. elim at [ ];
}

pub engine-IsEngine : IsEngine engine
engine-IsEngine = record {
  pool = record {
    distinct = (refl, (refl, (refl, tt)));
    in_range = (omega arith, (omega arith, (omega arith, tt)));
  };
  books =
      insert-books engine.order_pool engine.order_pool _ _ acme book [] book-IsBookOf (λ s b _ h. h)
        (λ s b found. absurd (none-ne-some (sym (lookup-nil s) ∙ found)));
}

pub bid-IsAcceptable : IsAcceptable 3 bid engine.order_books
bid-IsAcceptable = record {
  no_nan = one_dollar-is_nan;
  bounded = omega arith;
  fresh = refl;
  enough = omega arith;
  of_book = λ b found.
      let is : some book ≡ some b = sym (lookup-insert_self acme book []) ∙ found in
      let same_book : book ≡ b = cc in
      subst
        (λ (c : OrderBook). (Dict.lookup 2 c.order_lookup ≡ none) × (suc (get_total_orders c) < 3))
        same_book (bid-is_new, omega (arith, book-total));
}
