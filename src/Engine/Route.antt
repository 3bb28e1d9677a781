-- ===== src/Engine/Route.antt =====
-- MatchingEngine::process_new_order behind the allocation: the book of the order is found or made, and
-- the order is matched, killed or queued.
use order_matching_engine.Prelude.{
  ℕ, suc, ◌<◌, ◌≤◌, ◌≡◌, ◌≢◌, refl, sym, ap, subst, ◌∙◌, false, not, ◌&&◌, Option, none, some, List,
  [], ◌∷◌, contains, u64_mod, arith, inl, inr, All, Option-cases, Bool-cases, if◌then◌else◌,
}
use order_matching_engine.Prelude.Bytes.{lookup, insert, lookup-insert_self}
use order_matching_engine.Prelude.Dict
use order_matching_engine.Price.{is_nan}
use order_matching_engine.Types.{Symbol, Order, OrderPtr, Trade, fok, is_type}
use order_matching_engine.Pool.{ObjectPool}
use order_matching_engine.Book.{OrderBook, new_book, get_total_orders}
use order_matching_engine.Book.Frame.{IsBook-change, IsBook-out}
use order_matching_engine.Validation.{can_fill_completely}
use order_matching_engine.Engine.{
  MatchingEngine, at_book, put_back, back_in, get_or_create_order_book, execute, route,
}
use order_matching_engine.Engine.Removal.{IsMatching, Untouched}
use order_matching_engine.Engine.Matched.{Respects, volume}
use order_matching_engine.Engine.Settle.{IsQueueable}
use order_matching_engine.Engine.Execute.{execute-Executed}
use order_matching_engine.Engine.Books.{
  IsBookOf, IsEngineBut, IsEngine, new_book-IsBookOf, insert-books,
}

-- The order in slot `t` can be queued in the book of its symbol, if there is one, and the fuel
-- suffices for that book.
pub record IsAcceptable (fuel : ℕ) (o : Order) (books : List (Symbol × OrderBook)) : Type 0 where
  pub no_nan : is_nan o.price ≡ false
  pub bounded : o.quantity < u64_mod
  pub fresh : o.quantity_filled ≡ 0
  pub enough : 1 < fuel
  pub of_book :
      (b : OrderBook)
      → lookup o.symbol books ≡ some b
      → (Dict.lookup o.id b.order_lookup ≡ none) × (suc (get_total_orders b) < fuel)

-- What a call leaves: a well-formed engine, and trades within the order's limit that are for no more
-- than its quantity.
pub record Processed (o : Order) (trades : List Trade) (e' : MatchingEngine) : Type 0 where
  pub engine : IsEngine e'
  pub respected : All (Respects o.side o) trades
  pub not_over : volume trades ≤ o.quantity

-- An order is in slot `t`, which is neither free nor in a book.
pub record IsInFlight (t : OrderPtr) (e : MatchingEngine) : Type 0 where
  pub engine : IsEngineBut (t ∷ e.order_pool.free_indices) e
  pub in_range : t < e.order_pool.size
  pub in_flight : contains t e.order_pool.free_indices ≡ false

-- A book of another symbol stays well formed when orders of one symbol are matched.
other_book :
    {t : OrderPtr} {matched : Symbol} (pool pool' : ObjectPool Order) (symbol : Symbol)
    (b : OrderBook)
    → symbol ≢ matched
    → pool'.size ≡ pool.size
    → Untouched t matched pool pool'
    → IsBookOf pool (t ∷ pool.free_indices) symbol b
    → IsBookOf pool' pool'.free_indices symbol b
other_book {t} {matched} pool pool' symbol b ne size others v = record {
  book = rw size (
      IsBook-change pool.size pool.slot pool'.slot (t ∷ pool.free_indices) pool'.free_indices b
        (λ q h of_b.
          let (e, kept) = others q (not_t q h) (λ h'. ne (sym v.of_symbol ∙ sym of_b ∙ h')) in
          (e, kept (not_free q h)))
        v.book);
  of_symbol = v.of_symbol;
  uncrossed = v.uncrossed;
}
  where
    not_t : (q : OrderPtr) → contains q (t ∷ pool.free_indices) ≡ false → q ≢ t
    not_t q h e = ground arith

    not_free :
        (q : OrderPtr)
        → contains q (t ∷ pool.free_indices) ≡ false
        → contains q pool.free_indices ≡ false
    not_free q h = ground arith

module _ (clock : ℕ → ℕ) (fuel : ℕ) (t : OrderPtr) where
  abbrev order_of : MatchingEngine → Order
  order_of e = e.order_pool.slot t

  -- The part of `route` behind the check for fill-or-kill orders.
  execute_in_place :
      (e : MatchingEngine) (b : OrderBook)
      → IsInFlight t e
      → IsAcceptable fuel (order_of e) e.order_books
      → IsBookOf e.order_pool (t ∷ e.order_pool.free_indices) (order_of e).symbol b
      → (Dict.lookup (order_of e).id b.order_lookup ≡ none) × (suc (get_total_orders b) < fuel)
      → (trades : List Trade) × (e' : MatchingEngine) × (back_in
            (order_of e).symbol
            e
            (execute clock fuel t (at_book e b))
          ≡ some (trades, e'))
        × Processed (order_of e) trades e'
  execute_in_place e b v w old (new, enough) =
      let o = order_of e in
      let matching : IsMatching t e.order_pool b = record {
        pool = v.engine.pool;
        book = old.book;
        in_range = v.in_range;
        in_flight = v.in_flight;
        bounded = w.bounded;
        not_over = omega (arith, w.fresh);
      } in
      let queueable : IsQueueable o.side t (at_book e b) = record {
        has_symbol = sym old.of_symbol;
        no_nan = w.no_nan;
        new_id = new;
        has_side = refl;
      } in
      let (trades, m', is, x) =
        execute-Executed clock o.side t (at_book e b) fuel matching queueable (inr enough) in
      (
        trades,
        put_back o.symbol m' e,
        ap (back_in o.symbol e) is,
        record {
          engine = record {
            pool = x.pool;
            books =
                insert-books e.order_pool m'.order_pool (t ∷ e.order_pool.free_indices)
                  m'.order_pool.free_indices o.symbol m'.book e.order_books
                  (record {
                    book = x.book;
                    of_symbol = x.same_symbol ∙ old.of_symbol;
                    uncrossed = x.uncrossed old.uncrossed;
                  })
                  (λ s b' ne kept.
                    other_book e.order_pool m'.order_pool s b' (λ h. ne (h ∙ old.of_symbol))
                      x.same_size x.others kept)
                  v.engine.books;
          };
          respected = x.respected;
          not_over = omega (arith, x.not_over);
        },
      )

  -- The order is given up and its slot is not given back: what the check for fill-or-kill does.
  given_up : (e : MatchingEngine) → IsInFlight t e → IsEngine e
  given_up e v = record {
    pool = v.engine.pool;
    books = λ symbol b found.
        let old = v.engine.books symbol b found in
        record {
          book = IsBook-out _ _ _ e.order_pool.free_indices b (λ q h. ground arith) old.book;
          of_symbol = old.of_symbol;
          uncrossed = old.uncrossed;
        };
  }

  module _ (e : MatchingEngine) (v : IsInFlight t e) where
    abbrev pub o : Order
    o = order_of e

    abbrev Routes : Option (List Trade × MatchingEngine) → Type 0
    Routes r =
        (trades : List Trade) × (e' : MatchingEngine) × (r ≡ some (trades, e'))
        × Processed o trades e'

    abbrev pub with_books : List (Symbol × OrderBook) → MatchingEngine
    with_books books = record e { order_books = books }

    -- Behind the lookup of the book.
    checked :
        (books : List (Symbol × OrderBook)) (b : OrderBook)
        → IsInFlight t (with_books books)
        → IsAcceptable fuel o books
        → IsBookOf e.order_pool (t ∷ e.order_pool.free_indices) o.symbol b
        → (Dict.lookup o.id b.order_lookup ≡ none) × (suc (get_total_orders b) < fuel)
        → Routes (
            if is_type o.type fok && not (can_fill_completely e.order_pool.slot b o)
            then some ([], with_books books)
            else back_in o.symbol
                (with_books books)
                (execute clock fuel t (at_book (with_books books) b)))
    checked books b v' w old new =
        elim (Bool-cases (is_type o.type fok && not (can_fill_completely e.order_pool.slot b o))) [
          | inl kill ↦ (
            [],
            with_books books,
            rw kill refl,
            record {
              engine = given_up (with_books books) v';
              respected = tt;
              not_over = omega arith;
            },
          )
          | inr go ↦
              let (trades, e', is, done) = execute_in_place (with_books books) b v' w old new in
              (trades, e', rw go is, done)
        ]

    pub new_empty :
        1 < fuel
        → (Dict.lookup o.id (new_book o.symbol).order_lookup ≡ none)
          × (suc (get_total_orders (new_book o.symbol)) < fuel)
    unfolding new_book get_total_orders
    new_empty h = (refl, h)

    -- A book was made for the order's symbol.
    pub with_new_book-IsInFlight :
        IsInFlight t (with_books (insert o.symbol (new_book o.symbol) e.order_books))
    with_new_book-IsInFlight = record {
      engine = record {
        pool = v.engine.pool;
        books =
            insert-books e.order_pool e.order_pool (t ∷ e.order_pool.free_indices)
              (t ∷ e.order_pool.free_indices) o.symbol (new_book o.symbol) e.order_books
              (new_book-IsBookOf e.order_pool (t ∷ e.order_pool.free_indices) o.symbol)
              (λ s c _ h. h) v.engine.books;
      };
      in_range = v.in_range;
      in_flight = v.in_flight;
    }

    -- Behind `get_or_create_order_book`.
    pub route-Routes : IsAcceptable fuel o e.order_books → Routes (route clock fuel t e)
    unfolding route get_or_create_order_book
    route-Routes w = elim (Option-cases (lookup o.symbol e.order_books)) [
      | inr (b, found) ↦
          rw (found, get_or_create_order_book)
            (checked e.order_books b v w (v.engine.books o.symbol b found) (w.of_book b found))
      | inl missing ↦
          let b = new_book o.symbol in
          let books = insert o.symbol b e.order_books in
          let empty = new_book-IsBookOf e.order_pool (t ∷ e.order_pool.free_indices) o.symbol in
          rw (missing, get_or_create_order_book)
            (checked books b with_new_book-IsInFlight
              (record {
                no_nan = w.no_nan;
                bounded = w.bounded;
                fresh = w.fresh;
                enough = w.enough;
                of_book = λ c found.
                    let is : some b ≡ some c =
                      sym (lookup-insert_self o.symbol b e.order_books) ∙ found in
                    let same_book : b ≡ c = cc in
                    subst
                      (λ (d : OrderBook).
                        (Dict.lookup o.id d.order_lookup ≡ none)
                        × (suc (get_total_orders d) < fuel))
                      same_book (new_empty w.enough);
              })
              empty (new_empty w.enough))
    ]
