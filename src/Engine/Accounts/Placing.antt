-- ===== src/Engine/Accounts/Placing.antt =====
-- MatchingEngine::process_new_order (src/matching_engine.cpp) and the slots of the pool.
use order_matching_engine.Prelude.{
  ℕ, suc, ◌+◌, ◌<◌, ◌≡◌, refl, sym, ap, subst, ◌∙◌, Option, none, some, List, [], ◌∷◌, inl, inr,
  Option-cases, Bool-cases, if◌then◌else◌, length, arith,
}
use order_matching_engine.Prelude.Bytes.{lookup, insert, lookup-insert_self}
use order_matching_engine.Prelude.Dict
use order_matching_engine.Types.{Symbol, Order, OrderPtr, Trade}
use order_matching_engine.Pool.{store, deallocate}
use order_matching_engine.Pool.Laws.{allocate_empty, allocate_cons}
use order_matching_engine.Book.{OrderBook, new_book, get_total_orders}
use order_matching_engine.Book.Frame.{refilled}
use order_matching_engine.Validation.{validate_order}
use order_matching_engine.Engine.{
  MatchingEngine, at_book, put_back, back_in, get_or_create_order_book, execute, route, admit,
  process_new_order,
}
use order_matching_engine.Engine.Removal.{IsMatching}
use order_matching_engine.Engine.Matched.{volume}
use order_matching_engine.Engine.Settle.{IsQueueable, leaked}
use order_matching_engine.Engine.Execute.{execute-Executed}
use order_matching_engine.Engine.Books.{IsBookOf, IsEngine, new_book-IsBookOf}
use order_matching_engine.Engine.Route.{IsAcceptable, IsInFlight, new_empty}
use order_matching_engine.Engine.Process.{stored-IsInFlight}
use order_matching_engine.Engine.Exchange.Routing.{kills}
use order_matching_engine.Engine.Accounts.{
  resting, held, kept_by, lost, total_in, resting-insert, new_book-IsEmpty,
}

-- A call returns, and the slots that it leaves free or in use by a book are as many as `before`, less
-- those that it has lost.
abbrev pub Accounts : (List Trade → ℕ) → ℕ → Option (List Trade × MatchingEngine) → Type 0
Accounts gone before r =
    (trades : List Trade) × (e' : MatchingEngine) × (r ≡ some (trades, e'))
    × (held e' + gone trades ≡ before)

module _ (clock : ℕ → ℕ) (fuel : ℕ) (t : OrderPtr) (e : MatchingEngine) (v : IsInFlight t e) where
  abbrev o : Order
  o = e.order_pool.slot t

  abbrev with_books : List (Symbol × OrderBook) → MatchingEngine
  with_books books = record e { order_books = books }

  -- The order trades in the book `b`, which is the one of its symbol.
  in_place :
      (books : List (Symbol × OrderBook)) (b : OrderBook)
      → IsAcceptable fuel o e.order_books
      → lookup o.symbol books ≡ some b
      → resting books ≡ resting e.order_books
      → IsBookOf e.order_pool (t ∷ e.order_pool.free_indices) o.symbol b
      → (Dict.lookup o.id b.order_lookup ≡ none) × (suc (get_total_orders b) < fuel)
      → Accounts
          (λ trades. leaked (refilled o (o.quantity_filled + volume trades)))
          (suc (held e))
          (back_in o.symbol
            (with_books books)
            (execute clock fuel t (at_book (with_books books) b)))
  in_place books b w found same old (new, enough) =
      let matching : IsMatching t e.order_pool b = record {
        pool = v.engine.pool;
        book = old.book;
        in_range = v.in_range;
        in_flight = v.in_flight;
        bounded = w.bounded;
        not_over = omega (arith, w.fresh);
      } in
      let queueable : IsQueueable o.side t (at_book (with_books books) b) = record {
        has_symbol = sym old.of_symbol;
        no_nan = w.no_nan;
        new_id = new;
        has_side = refl;
      } in
      let (trades, m', is, x) =
        execute-Executed clock o.side t (at_book (with_books books) b) fuel matching queueable
          (inr enough) in
      (
        trades,
        put_back o.symbol m' (with_books books),
        ap (back_in o.symbol (with_books books)) is,
        omega (arith, x.accounted, resting-insert o.symbol m'.book books, ap total_in found, same),
      )

  -- Behind the lookup of the book.
  checked :
      (books : List (Symbol × OrderBook)) (b : OrderBook)
      → IsAcceptable fuel o e.order_books
      → lookup o.symbol books ≡ some b
      → resting books ≡ resting e.order_books
      → IsBookOf e.order_pool (t ∷ e.order_pool.free_indices) o.symbol b
      → (Dict.lookup o.id b.order_lookup ≡ none) × (suc (get_total_orders b) < fuel)
      → Accounts
          (λ trades.
            if kills e.order_pool.slot b o
            then 1
            else leaked (refilled o (o.quantity_filled + volume trades)))
          (suc (held e))
          (if kills e.order_pool.slot b o
            then some ([], with_books books)
            else back_in o.symbol
                (with_books books)
                (execute clock fuel t (at_book (with_books books) b)))
  checked books b w found same old new = elim (Bool-cases (kills e.order_pool.slot b o)) [
    | inl kill ↦ rw kill ([], with_books books, refl, omega (arith, same))
    | inr go ↦ rw go (in_place books b w found same old new)
  ]

  route-Accounts :
      IsAcceptable fuel o e.order_books
      → Accounts (kept_by e.order_pool.slot e o) (suc (held e)) (route clock fuel t e)
  unfolding route get_or_create_order_book
  route-Accounts w = elim (Option-cases (lookup o.symbol e.order_books)) [
    | inr (b, found) ↦
        rw (found, get_or_create_order_book)
          (checked e.order_books b w found refl (v.engine.books o.symbol b found)
            (w.of_book b found))
    | inl missing ↦
        let b = new_book o.symbol in
        rw (missing, get_or_create_order_book)
          (checked (insert o.symbol b e.order_books) b w
            (lookup-insert_self o.symbol b e.order_books)
            (omega (
              arith,
              resting-insert o.symbol b e.order_books,
              ap total_in missing,
              new_book-IsEmpty o.symbol,
            ))
            (new_book-IsBookOf e.order_pool (t ∷ e.order_pool.free_indices) o.symbol)
            (new_empty clock fuel t e v w.enough))
  ]

module _ (clock : ℕ → ℕ) (fuel : ℕ) (incoming : Order) (e : MatchingEngine) (v : IsEngine e) where
  admitted :
      (t : OrderPtr) (rest : List ℕ)
      → e.order_pool.free_indices ≡ t ∷ rest
      → IsAcceptable fuel incoming e.order_books
      → Accounts
          (lost incoming e (t ∷ rest))
          (held e)
          (admit clock fuel incoming e (some (t, record (e.order_pool) { free_indices = rest })))
  unfolding admit store
  admitted t rest is w =
      let e1 = record e {
        order_pool = store t incoming (record (e.order_pool) { free_indices = rest });
      } in
      elim (Bool-cases (validate_order incoming)) [
        | inr invalid ↦ rw invalid (
          [],
          record e { order_pool = deallocate t e1.order_pool },
          refl,
          unfold deallocate in omega (arith, ap length is),
        )
        | inl valid ↦
            let stored : e1.order_pool.slot t ≡ incoming = unfold store in ground arith in
            let flight = stored-IsInFlight e incoming t rest v is in
            let routed : Accounts (kept_by e1.order_pool.slot e incoming) (suc (held e1))
                (route clock fuel t e1) =
              subst
                (λ (o : Order).
                  Accounts (kept_by e1.order_pool.slot e o) (suc (held e1)) (route clock fuel t e1))
                stored
                (route-Accounts clock fuel t e1 flight
                  (subst (λ (o : Order). IsAcceptable fuel o e.order_books) (sym stored) w)) in
            let (trades, e', is', sum) = routed in
            rw valid (trades, e', is', omega (arith, sum, ap length is))
      ]

  -- Placing an order returns, and each slot is free or in use by a book afterwards if it was before, but for one that is lost: that of a killed order or of a market order with a rest.
  pub process_new_order-Accounts :
      IsAcceptable fuel incoming e.order_books
      → Accounts
          (lost incoming e e.order_pool.free_indices)
          (held e)
          (process_new_order clock fuel incoming e)
  unfolding process_new_order admit
  process_new_order-Accounts w = go e.order_pool.free_indices refl
    where
      go :
          (free : List ℕ)
          → e.order_pool.free_indices ≡ free
          → Accounts (lost incoming e free) (held e) (process_new_order clock fuel incoming e)
      go [] is =
          ([], e, ap (admit clock fuel incoming e) (allocate_empty e.order_pool is), omega arith)
      go (t ∷ rest) is =
          let (trades, e', done, sum) = admitted t rest is w in
          (
            trades,
            e',
            ap (admit clock fuel incoming e) (allocate_cons e.order_pool t rest is) ∙ done,
            sum,
          )
