-- ===== src/Engine/Process.antt =====
-- MatchingEngine::process_new_order: the engine stays well formed, whatever the order.
use order_matching_engine.Prelude.{
  ℕ, ◌<◌, ◌≡◌, refl, sym, ap, subst, ◌∙◌, false, some, List, [], ◌∷◌, contains, arith, inl, inr,
  All, Distinct, Bool-cases,
}
use order_matching_engine.Types.{Order, OrderPtr, Trade}
use order_matching_engine.Pool.{deallocate, store}
use order_matching_engine.Pool.Laws.{allocate_empty, allocate_cons}
use order_matching_engine.Book.Frame.{IsBook-change}
use order_matching_engine.Validation.{validate_order}
use order_matching_engine.Engine.{MatchingEngine, admit, process_new_order}
use order_matching_engine.Engine.Books.{IsEngine}
use order_matching_engine.Engine.Route.{IsAcceptable, Processed, IsInFlight, route-Routes}

-- The engine when the incoming order is stored in the first free slot.
pub stored-IsInFlight :
    (e : MatchingEngine) (incoming : Order) (t : OrderPtr) (rest : List ℕ)
    → IsEngine e
    → e.order_pool.free_indices ≡ t ∷ rest
    → IsInFlight t
        (record e { order_pool = store t incoming (record (e.order_pool) { free_indices = rest }) })
unfolding store
stored-IsInFlight e incoming t rest v is = record {
  engine = record {
    pool = record { distinct = distinct.1; in_range = in_range.1 };
    books = λ symbol b found.
        let old = v.books symbol b found in
        record {
          book =
              IsBook-change e.order_pool.size e.order_pool.slot _ e.order_pool.free_indices
                (t ∷ rest) b
                (λ q h _. let h' : contains q (t ∷ rest) ≡ false = rw is at h in (ground arith, h'))
                old.book;
          of_symbol = old.of_symbol;
          uncrossed = old.uncrossed;
        };
  };
  in_range = in_range.0;
  in_flight = distinct.0;
}
  where
    distinct : Distinct (t ∷ rest)
    distinct = subst Distinct is v.pool.distinct

    in_range : All (λ i. i < e.order_pool.size) (t ∷ rest)
    in_range = subst (All (λ i. i < e.order_pool.size)) is v.pool.in_range

-- The order is given up and its slot is given back: what becomes of an invalid order.
refused :
    (e : MatchingEngine) (t : OrderPtr)
    → IsInFlight t e
    → IsEngine (record e { order_pool = deallocate t e.order_pool })
unfolding deallocate
refused e t v = record {
  pool = record {
    distinct = (v.in_flight, v.engine.pool.distinct);
    in_range = (v.in_range, v.engine.pool.in_range);
  };
  books = λ symbol b found.
      let old = v.engine.books symbol b found in
      record { book = old.book; of_symbol = old.of_symbol; uncrossed = old.uncrossed };
}

-- Behind a successful allocation.
admitted :
    (clock : ℕ → ℕ) (fuel : ℕ) (incoming : Order) (e : MatchingEngine)
    → IsEngine e
    → IsAcceptable fuel incoming e.order_books
    → (t : OrderPtr) (rest : List ℕ) → e.order_pool.free_indices ≡ t ∷ rest
    → (trades : List Trade) × (e' : MatchingEngine) × (admit clock fuel incoming e
          (some (t, record (e.order_pool) { free_indices = rest }))
        ≡ some (trades, e'))
      × Processed incoming trades e'
unfolding admit
admitted clock fuel incoming e v w t rest is =
    let e1 = record e {
      order_pool = store t incoming (record (e.order_pool) { free_indices = rest });
    } in
    let flight = stored-IsInFlight e incoming t rest v is in
    let stored : e1.order_pool.slot t ≡ incoming = unfold store in ground arith in
    elim (Bool-cases (validate_order incoming)) [
      | inr invalid ↦ (
        [],
        record e { order_pool = deallocate t e1.order_pool },
        rw invalid refl,
        record { engine = refused e1 t flight; respected = tt; not_over = omega arith },
      )
      | inl valid ↦
          let (trades, e', is', done) =
            route-Routes clock fuel t e1 flight
              (subst (λ (o : Order). IsAcceptable fuel o e.order_books) (sym stored) w) in
          (trades, e', rw valid is', subst (λ (o : Order). Processed o trades e') stored done)
    ]

-- On a well-formed engine, `process_new_order` of an order that has no NaN as its price, a 64-bit
-- quantity, nothing filled and an id that the book of its symbol does not list, with more fuel than
-- that book has orders and one, returns. It leaves a well-formed engine with no crossed book, and
-- the trades that it returns are within the order's limit and for no more than its quantity,
-- whether the pool is exhausted or the order is invalid, killed, matched, queued or dropped.
pub process_new_order-Processed :
    (clock : ℕ → ℕ) (fuel : ℕ) (incoming : Order) (e : MatchingEngine)
    → IsEngine e
    → IsAcceptable fuel incoming e.order_books
    → (trades : List Trade) × (e' : MatchingEngine) × (process_new_order clock fuel incoming e
        ≡ some (trades, e'))
      × Processed incoming trades e'
unfolding process_new_order admit
process_new_order-Processed clock fuel incoming e v w = go e.order_pool.free_indices refl
  where
    go :
        (free : List ℕ)
        → e.order_pool.free_indices ≡ free
        → (trades : List Trade) × (e' : MatchingEngine) × (process_new_order clock fuel incoming e
            ≡ some (trades, e'))
          × Processed incoming trades e'
    go [] is = (
      [],
      e,
      ap (admit clock fuel incoming e) (allocate_empty e.order_pool is),
      record { engine = v; respected = tt; not_over = omega arith },
    )
    go (t ∷ rest) is =
        let (trades, e', done, p) = admitted clock fuel incoming e v w t rest is in
        (
          trades,
          e',
          ap (admit clock fuel incoming e) (allocate_cons e.order_pool t rest is) ∙ done,
          p,
        )
