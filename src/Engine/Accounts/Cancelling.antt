-- ===== src/Engine/Accounts/Cancelling.antt =====
-- MatchingEngine::cancel_order (src/matching_engine.cpp) and the slots of the pool.
use order_matching_engine.Prelude.{
  ◌≡◌, refl, ap, Option, none, some, List, inl, inr, Option-cases, arith,
}
use order_matching_engine.Prelude.Bytes.{lookup, insert, lookup-insert_self}
use order_matching_engine.Types.{OrderId, Symbol, OrderPtr}
use order_matching_engine.Pool.{deallocate}
use order_matching_engine.Book.{OrderBook, new_book, cancel_order, get_total_orders}
use order_matching_engine.Book.Cancel.{Cancels, cancel_order-Cancels}
use order_matching_engine.Engine.{
  MatchingEngine, get_or_create_order_book, cancel_engine_order, finish_cancel,
}
use order_matching_engine.Engine.Books.{IsEngine, new_book-IsBookOf}
use order_matching_engine.Engine.Accounts.{
  resting, held, total_in, resting-insert, new_book-IsEmpty,
}

module _ (id : OrderId) (symbol : Symbol) (e : MatchingEngine) where
  -- With the book of the symbol at hand, and `books` the engine's books with it in place.
  finished :
      (b : OrderBook) (books : List (Symbol × OrderBook))
      → lookup symbol books ≡ some b
      → resting books ≡ resting e.order_books
      → (r : Option OrderPtr × OrderBook)
      → Cancels e.order_pool.size e.order_pool.slot e.order_pool.free_indices b id r
      → held (finish_cancel symbol (record e { order_books = books }) r).1 ≡ held e
  unfolding finish_cancel deallocate
  finished b books found same (none, b') (_, as_it_was) = omega (
    arith,
    resting-insert symbol b' books,
    ap total_in found,
    ap get_total_orders as_it_was,
    same,
  )
  finished b books found same (some p, b') c =
      omega (arith, resting-insert symbol b' books, ap total_in found, c.one_less, same)

  pub held-cancel_engine_order : IsEngine e → held (cancel_engine_order id symbol e).1 ≡ held e
  unfolding cancel_engine_order get_or_create_order_book
  held-cancel_engine_order v = elim (Option-cases (lookup symbol e.order_books)) [
    | inr (b, found) ↦
        rw (found, get_or_create_order_book)
          (finished b e.order_books found refl (cancel_order e.order_pool.slot id b) (
            cancel_order-Cancels e.order_pool.size e.order_pool.slot e.order_pool.free_indices b id
              (v.books symbol b found).book))
    | inl missing ↦
        let b = new_book symbol in
        let old = new_book-IsBookOf e.order_pool e.order_pool.free_indices symbol in
        rw (missing, get_or_create_order_book)
          (finished b (insert symbol b e.order_books) (lookup-insert_self symbol b e.order_books)
            (omega (
              arith,
              resting-insert symbol b e.order_books,
              ap total_in missing,
              new_book-IsEmpty symbol,
            ))
            (cancel_order e.order_pool.slot id b)
            (cancel_order-Cancels e.order_pool.size e.order_pool.slot e.order_pool.free_indices b id
              old.book))
  ]
