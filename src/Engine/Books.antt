-- ===== src/Engine/Books.antt =====
-- When the books of an engine are well formed over its pool.
use order_matching_engine.Prelude.{
  ℕ, ◌≡◌, ◌≢◌, refl, sym, ap, subst, ◌∙◌, some, List, arith, inl, inr, Bool-cases, none-ne-some,
}
use order_matching_engine.Prelude.Bytes.{
  lookup, lookup-nil, insert, lookup-insert_self, lookup-insert_ne, bytes_eq, bytes_eq→≡,
  bytes_eq-false,
}
use order_matching_engine.Types.{Symbol, Order}
use order_matching_engine.Pool.{ObjectPool}
use order_matching_engine.Pool.Laws.{IsValid, init-IsValid}
use order_matching_engine.PriceMap.{count_orders}
use order_matching_engine.Book.{OrderBook, new_book}
use order_matching_engine.Book.Invariant.{IsBook}
use order_matching_engine.Engine.{MatchingEngine, new_engine}
use order_matching_engine.Engine.Settle.{IsUncrossed}

-- The book that is kept for a symbol is well formed over the slots that are not `out`, is that
-- symbol's, and is not crossed.
pub record IsBookOf (pool : ObjectPool Order) (out : List ℕ) (symbol : Symbol) (b : OrderBook)
    : Type 0 where
  pub book : IsBook pool.size pool.slot out b
  pub of_symbol : b.symbol ≡ symbol
  pub uncrossed : IsUncrossed b

-- The pool is valid, and so is each book over the slots that are not in `out`.
pub record IsEngineBut (out : List ℕ) (e : MatchingEngine) : Type 0 where
  pub pool : IsValid e.order_pool
  pub books :
      (symbol : Symbol) (b : OrderBook)
      → lookup symbol e.order_books ≡ some b
      → IsBookOf e.order_pool out symbol b

-- The engine between two calls: the slots in no book are the free ones (and any that were lost).
abbrev pub IsEngine : MatchingEngine → Type 0
IsEngine e = IsEngineBut e.order_pool.free_indices e

pub new_book-IsBookOf :
    (pool : ObjectPool Order) (out : List ℕ) (symbol : Symbol)
    → IsBookOf pool out symbol (new_book symbol)
unfolding new_book count_orders
new_book-IsBookOf pool out symbol = record {
  book = record {
    buys = tt;
    sells = tt;
    one_entry = tt;
    counted = omega arith;
    leads_to = λ id i found. cc;
  };
  of_symbol = refl;
  uncrossed = λ j k p q at _. elim at [ ];
}

-- The books after one of them was written.
pub insert-books :
    (pool pool' : ObjectPool Order) (out out' : List ℕ) (symbol : Symbol) (b' : OrderBook)
    (books : List (Symbol × OrderBook))
    → IsBookOf pool' out' symbol b'
    → ((s : Symbol) (b : OrderBook) → s ≢ symbol → IsBookOf pool out s b → IsBookOf pool' out' s b)
    → ((s : Symbol) (b : OrderBook) → lookup s books ≡ some b → IsBookOf pool out s b)
    → (s : Symbol) (b : OrderBook) → lookup s (insert symbol b' books) ≡ some b
    → IsBookOf pool' out' s b
insert-books pool pool' out out' symbol b' books new keep old s b found =
    elim (Bool-cases (bytes_eq s symbol)) [
      | inl same ↦
          let e = bytes_eq→≡ s symbol same in
          let is : some b' ≡ some b =
            sym (lookup-insert_self symbol b' books)
            ∙ ap (λ (k : Symbol). lookup k (insert symbol b' books)) (sym e)
            ∙ found in
          let same_book : b' ≡ b = cc in
          subst (IsBookOf pool' out' s) same_book
            (subst (λ (k : Symbol). IsBookOf pool' out' k b') (sym e) new)
      | inr other ↦
          let ne = bytes_eq-false s symbol other in
          keep s b ne (old s b (sym (lookup-insert_ne s symbol b' books ne) ∙ found))
    ]

-- A new engine is well formed, whatever its pool's size.
pub new_engine-IsEngine : (blank : Order) (pool_size : ℕ) → IsEngine (new_engine blank pool_size)
unfolding new_engine
new_engine-IsEngine blank pool_size = record {
  pool = (init-IsValid blank pool_size).0;
  books = λ symbol b found. absurd (none-ne-some (sym (lookup-nil symbol) ∙ found));
}
