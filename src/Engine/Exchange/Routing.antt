-- ===== src/Engine/Exchange/Routing.antt =====
-- MatchingEngine::process_new_order (src/matching_engine.cpp) behind the allocation, against
-- Engine/Exchange.
use order_matching_engine.Prelude.{
  ℕ, suc, ◌<◌, ◌≡◌, ◌≢◌, refl, sym, ap, ◌∙◌, Bool, true, false, not, ◌&&◌, ◌||◌, Option, none, some,
  List, [], ◌∷◌, inl, inr, Option-cases, Bool-cases, if◌then◌else◌, arith,
}
use order_matching_engine.Prelude.Bytes.{lookup, insert}
use order_matching_engine.Prelude.Dict
use order_matching_engine.Types.{Symbol, Order, OrderPtr, Trade, fok, is_type}
use order_matching_engine.Pool.{store}
use order_matching_engine.Book.{OrderBook, Slots, new_book, get_total_orders}
use order_matching_engine.Validation.{validate_order, can_fill_completely}
use order_matching_engine.Engine.{
  MatchingEngine, at_book, put_back, back_in, get_or_create_order_book, execute, route,
}
use order_matching_engine.Engine.Removal.{IsMatching}
use order_matching_engine.Engine.Settle.{IsQueueable}
use order_matching_engine.Engine.Books.{IsBookOf, new_book-IsBookOf}
use order_matching_engine.Engine.Route.{
  IsAcceptable, IsInFlight, with_new_book-IsInFlight, new_empty,
}
use order_matching_engine.Engine.Priority.{fills_of}
use order_matching_engine.Engine.Exchange.{Depth, depth_of, trade_on, submit}
use order_matching_engine.Engine.Exchange.Trading.{execute-Trades}
use order_matching_engine.Engine.Exchange.Unchanged.{
  depth_at, depth_in-same, depth_in-insert_self, depth_in-insert_ne, depth_of-new_book,
}

-- The order in the slot `t` is killed before it trades.
abbrev pub kills : Slots → OrderBook → Order → Bool
kills s b o = is_type o.type fok && not (can_fill_completely s b o)

-- What a call does to the offers: for the order's symbol it is what Engine/Exchange says, and for the
-- others nothing.
pub record Submitted (killed : Bool) (o : Order) (e e' : MatchingEngine) (trades : List Trade)
    : Type 0 where
  pub fills : fills_of o.side trades ≡ (submit killed o (depth_at o.symbol e)).0
  pub offers : depth_at o.symbol e' ≡ (submit killed o (depth_at o.symbol e)).1
  pub others : (symbol : Symbol) → symbol ≢ o.symbol → depth_at symbol e' ≡ depth_at symbol e

abbrev pub Submits : Bool → Order → MatchingEngine → Option (List Trade × MatchingEngine) → Type 0
Submits killed o e r =
    (trades : List Trade) × (e' : MatchingEngine) × (r ≡ some (trades, e'))
    × Submitted killed o e e' trades

-- The book that an order meets, or a new one.
abbrev pub book_for : Symbol → Option OrderBook → OrderBook
book_for symbol none = new_book symbol
book_for symbol (some b) = b

-- An order that is not let in, since the pool is exhausted, or the order is not valid, or it is killed.
abbrev pub turned_away : Order → MatchingEngine → List ℕ → Bool
turned_away o e [] = true
turned_away o e (t ∷ rest) =
    not (validate_order o)
    || kills (store t o e.order_pool).slot (book_for o.symbol (lookup o.symbol e.order_books)) o

module _ (clock : ℕ → ℕ) (fuel : ℕ) (t : OrderPtr) (e : MatchingEngine) (v : IsInFlight t e) where
  abbrev o : Order
  o = e.order_pool.slot t

  abbrev with_books : List (Symbol × OrderBook) → MatchingEngine
  with_books books = record e { order_books = books }

  -- The order trades in the book `b`, which is the one of its symbol.
  in_place :
      (books : List (Symbol × OrderBook)) (b : OrderBook)
      → IsAcceptable fuel o e.order_books
      → depth_of e.order_pool.slot b ≡ depth_at o.symbol e
      → ((symbol : Symbol)
          → symbol ≢ o.symbol
          → depth_at symbol (with_books books) ≡ depth_at symbol e)
      → IsInFlight t (with_books books)
      → IsBookOf e.order_pool (t ∷ e.order_pool.free_indices) o.symbol b
      → (Dict.lookup o.id b.order_lookup ≡ none) × (suc (get_total_orders b) < fuel)
      → Submits false o e (
          back_in o.symbol (with_books books) (execute clock fuel t (at_book (with_books books) b)))
  unfolding submit
  in_place books b w same kept v' old (new, enough) =
      let matching : IsMatching t e.order_pool b = record {
        pool = v.engine.pool;
        book = old.book;
        in_range = v.in_range;
        in_flight = v.in_flight;
        bounded = w.bounded;
        not_over = omega (arith, w.fresh);
      } in
      let queueable : IsQueueable o.side t (at_book (with_books books) b) = record {
        has_symbol = sym old.of_symbol;
        no_nan = w.no_nan;
        new_id = new;
        has_side = refl;
      } in
      let (trades, m', is, x, fills, offers) =
        execute-Trades clock o.side t (at_book (with_books books) b) fuel matching queueable
          (inr enough) in
      (
        trades,
        put_back o.symbol m' (with_books books),
        ap (back_in o.symbol (with_books books)) is,
        record {
          fills = fills ∙ ap (λ (d : Depth). (trade_on o d).0) same;
          offers =
              depth_in-insert_self m'.order_pool.slot o.symbol m'.book books
              ∙ offers
              ∙ ap (λ (d : Depth). (trade_on o d).1) same;
          others = λ symbol ne.
              depth_in-insert_ne m'.order_pool.slot symbol o.symbol m'.book books ne
              ∙ depth_in-same (t ∷ e.order_pool.free_indices) (with_books books) m'.order_pool.slot
                  symbol v'.engine
                  (λ q in_use of_it.
                    (x.others q (λ is. ground (arith, in_use))
                      (λ h. ne (sym of_it ∙ h ∙ old.of_symbol))).0)
              ∙ kept symbol ne;
        },
      )

  -- Behind the lookup of the book.
  checked :
      (books : List (Symbol × OrderBook)) (b : OrderBook)
      → IsAcceptable fuel o e.order_books
      → depth_of e.order_pool.slot b ≡ depth_at o.symbol e
      → depth_at o.symbol (with_books books) ≡ depth_at o.symbol e
      → ((symbol : Symbol)
          → symbol ≢ o.symbol
          → depth_at symbol (with_books books) ≡ depth_at symbol e)
      → IsInFlight t (with_books books)
      → IsBookOf e.order_pool (t ∷ e.order_pool.free_indices) o.symbol b
      → (Dict.lookup o.id b.order_lookup ≡ none) × (suc (get_total_orders b) < fuel)
      → Submits (kills e.order_pool.slot b o) o e (
          if kills e.order_pool.slot b o
          then some ([], with_books books)
          else back_in o.symbol
              (with_books books)
              (execute clock fuel t (at_book (with_books books) b)))
  unfolding submit
  checked books b w same here kept v' old new = elim (Bool-cases (kills e.order_pool.slot b o)) [
    | inl kill ↦
        rw kill ([], with_books books, refl, record { fills = refl; offers = here; others = kept })
    | inr go ↦ rw go (in_place books b w same kept v' old new)
  ]

  pub route-Submits :
      IsAcceptable fuel o e.order_books
      → Submits
          (kills e.order_pool.slot (book_for o.symbol (lookup o.symbol e.order_books)) o)
          o
          e
          (route clock fuel t e)
  unfolding route get_or_create_order_book
  route-Submits w = elim (Option-cases (lookup o.symbol e.order_books)) [
    | inr (b, found) ↦
        rw (found, get_or_create_order_book)
          (checked e.order_books b w (rw found refl) refl (λ symbol ne. refl) v
            (v.engine.books o.symbol b found) (w.of_book b found))
    | inl missing ↦
        let b = new_book o.symbol in
        let empty = depth_of-new_book e.order_pool.slot o.symbol in
        rw (missing, get_or_create_order_book)
          (checked (insert o.symbol b e.order_books) b w (rw missing empty)
            (depth_in-insert_self e.order_pool.slot o.symbol b e.order_books ∙ rw missing empty)
            (λ symbol ne. depth_in-insert_ne e.order_pool.slot symbol o.symbol b e.order_books ne)
            (with_new_book-IsInFlight clock fuel t e v)
            (new_book-IsBookOf e.order_pool (t ∷ e.order_pool.free_indices) o.symbol)
            (new_empty clock fuel t e v w.enough))
  ]
