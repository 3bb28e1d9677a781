-- ===== src/Engine/Cancel.antt =====
-- MatchingEngine::cancel_order: exactly the order of the given id leaves its book and the pool.
use order_matching_engine.Prelude.{
  ℕ, suc, ◌≡◌, ◌≢◌, refl, sym, ap, subst, ◌∙◌, false, Option, none, some, List, ◌∷◌, contains,
  arith, inl, inr, ◌⊎◌, Option-cases,
}
use order_matching_engine.Prelude.Bytes.{lookup, insert, lookup-insert_self, lookup-insert_ne}
use order_matching_engine.Types.{OrderId, Symbol, Order, OrderPtr}
use order_matching_engine.Pool.{ObjectPool, deallocate, available}
use order_matching_engine.Book.{OrderBook, new_book, cancel_order, get_order_by_id}
use order_matching_engine.Book.Cancel.{Cancels, cancel_order-Cancels}
use order_matching_engine.Book.Frame.{IsBook-change}
use order_matching_engine.Engine.{
  MatchingEngine, get_or_create_order_book, get_order_book, cancel_engine_order, finish_cancel,
}
use order_matching_engine.Engine.Settle.{Shrinks-IsUncrossed}
use order_matching_engine.Engine.Books.{IsBookOf, IsEngine, insert-books, new_book-IsBookOf}

-- The order that is found under an id in the book of a symbol.
abbrev pub order_at : Symbol → OrderId → MatchingEngine → Option OrderPtr
order_at symbol id e = elim (get_order_book symbol e) [
  | none ↦ none
  | some b ↦ get_order_by_id id b
]

-- Nothing is found under the id, and the pool stays; or the order of that id is handed back, its slot
-- is freed, and nothing is found under the id any more. The books of other symbols are as they were.
pub record EngineCancels (id : OrderId) (symbol : Symbol) (e : MatchingEngine)
    (r : Option Order × MatchingEngine) : Type 0 where
  pub engine : IsEngine r.1
  pub result :
      ((r.0 ≡ none)
        × (order_at symbol id e ≡ none)
        × (available r.1.order_pool ≡ available e.order_pool))
      ⊎ ((p : OrderPtr) × (r.0 ≡ some (e.order_pool.slot p))
          × (order_at symbol id e ≡ some p)
          × ((e.order_pool.slot p).id ≡ id)
          × (available r.1.order_pool ≡ suc (available e.order_pool)))
  pub not_found : order_at symbol id r.1 ≡ none
  pub others : (s : Symbol) → s ≢ symbol → get_order_book s r.1 ≡ get_order_book s e

module _ (id : OrderId) (symbol : Symbol) (e : MatchingEngine) (v : IsEngine e) where
  abbrev free : List ℕ
  free = e.order_pool.free_indices

  other_kept :
      (p : OrderPtr) (s : Symbol) (b : OrderBook)
      → (e.order_pool.slot p).symbol ≡ symbol
      → s ≢ symbol
      → IsBookOf e.order_pool free s b
      → IsBookOf (deallocate p e.order_pool) (p ∷ free) s b
  unfolding deallocate
  other_kept p s b of_p ne old = record {
    book =
        IsBook-change e.order_pool.size e.order_pool.slot e.order_pool.slot free (p ∷ free) b
          (λ q h of_q. (
            refl,
            not_p q h (λ (is : q ≡ p). ne (
                sym old.of_symbol
                ∙ sym of_q
                ∙ ap (λ (i : OrderPtr). (e.order_pool.slot i).symbol) is
                ∙ of_p)),
          ))
          old.book;
    of_symbol = old.of_symbol;
    uncrossed = old.uncrossed;
  }
    where
      not_p : (q : OrderPtr) → contains q free ≡ false → q ≢ p → contains q (p ∷ free) ≡ false
      not_p q h ne = ground arith

  -- With the book of the symbol at hand, and `books` the engine's books with it in place.
  module _ (b : OrderBook) (books : List (Symbol × OrderBook)) where
    abbrev e1 : MatchingEngine
    e1 = record e { order_books = books }

    order_after :
        (b' : OrderBook) (pool : ObjectPool Order)
        → order_at symbol id (record e1 { order_pool = pool; order_books = insert symbol b' books })
          ≡ get_order_by_id id b'
    unfolding get_order_book
    order_after b' pool = rw (lookup-insert_self symbol b' books, order_at) refl

    others_after :
        (b' : OrderBook) (pool : ObjectPool Order)
        → ((s : Symbol) → s ≢ symbol → lookup s books ≡ lookup s e.order_books)
        → (s : Symbol) → s ≢ symbol
        → get_order_book s (record e1 { order_pool = pool; order_books = insert symbol b' books })
          ≡ get_order_book s e
    unfolding get_order_book
    others_after b' pool same s ne = lookup-insert_ne s symbol b' books ne ∙ same s ne

    finished :
        (r : Option OrderPtr × OrderBook)
        → Cancels e.order_pool.size e.order_pool.slot free b id r
        → IsBookOf e.order_pool free symbol b
        → ((s : Symbol) (c : OrderBook) → lookup s books ≡ some c → IsBookOf e.order_pool free s c)
        → ((s : Symbol) → s ≢ symbol → lookup s books ≡ lookup s e.order_books)
        → order_at symbol id e ≡ get_order_by_id id b
        → EngineCancels id symbol e (finish_cancel symbol e1 r)
    unfolding finish_cancel available
    finished (none, b') (nothing, same) old olds kept now = record {
      engine = record {
        pool = v.pool;
        books =
            insert-books e.order_pool e.order_pool free free symbol b' books
              (subst (IsBookOf e.order_pool free symbol) (sym same) old) (λ s c _ h. h) olds;
      };
      result = inl (refl, now ∙ nothing, refl);
      not_found = order_after b' e.order_pool ∙ ap (get_order_by_id id) same ∙ nothing;
      others = others_after b' e.order_pool kept;
    }
    finished (some p, b') c old olds kept now = record {
      engine = record {
        pool =
            unfold deallocate in
            record {
              distinct = (c.in_use, v.pool.distinct);
              in_range = (c.in_range, v.pool.in_range);
            };
        books =
            unfold deallocate in
            insert-books e.order_pool (deallocate p e.order_pool) free (p ∷ free) symbol b' books
              (record {
                book = c.book;
                of_symbol = c.same_symbol ∙ old.of_symbol;
                uncrossed = Shrinks-IsUncrossed c.shrinks old.uncrossed;
              })
              (λ s d ne h. other_kept p s d (c.has_symbol ∙ old.of_symbol) ne h) olds;
      };
      result = inr (p, refl, now ∙ c.was_found, c.has_id, unfold deallocate in refl);
      not_found = order_after b' (deallocate p e.order_pool) ∙ c.not_found;
      others = others_after b' (deallocate p e.order_pool) kept;
    }

-- Cancelling in a well-formed engine hands back exactly the order that the book of the symbol lists
-- under the id, if there is one, frees its slot, and leaves a well-formed engine in which that id
-- is not listed; the books of other symbols are untouched.
pub cancel_engine_order-EngineCancels :
    (id : OrderId) (symbol : Symbol) (e : MatchingEngine)
    → IsEngine e
    → EngineCancels id symbol e (cancel_engine_order id symbol e)
unfolding cancel_engine_order get_or_create_order_book get_order_book
cancel_engine_order-EngineCancels id symbol e v =
    elim (Option-cases (lookup symbol e.order_books)) [
      | inr (b, found) ↦
          let old = v.books symbol b found in
          rw (found, get_or_create_order_book)
            (finished id symbol e v b e.order_books (cancel_order e.order_pool.slot id b)
              (cancel_order-Cancels e.order_pool.size e.order_pool.slot e.order_pool.free_indices b
                id old.book)
              old v.books (λ s _. refl) (rw (found, order_at) refl))
      | inl missing ↦
          let b = new_book symbol in
          let old = new_book-IsBookOf e.order_pool e.order_pool.free_indices symbol in
          rw (missing, get_or_create_order_book)
            (finished id symbol e v b (insert symbol b e.order_books)
              (cancel_order e.order_pool.slot id b)
              (cancel_order-Cancels e.order_pool.size e.order_pool.slot e.order_pool.free_indices b
                id old.book)
              old
              (insert-books e.order_pool e.order_pool _ _ symbol b e.order_books old (λ s c _ h. h)
                v.books)
              (λ s ne. lookup-insert_ne s symbol b e.order_books ne)
              (rw (missing, order_at) (unfold new_book get_order_by_id in refl)))
    ]
