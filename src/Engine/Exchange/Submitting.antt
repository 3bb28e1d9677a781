-- ===== src/Engine/Exchange/Submitting.antt =====
-- MatchingEngine::process_new_order (src/matching_engine.cpp) against Engine/Exchange.
use order_matching_engine.Prelude.{
  ℕ, ◌≡◌, refl, sym, ap, subst, ◌∙◌, false, some, List, [], ◌∷◌, contains, inl, inr, Bool-cases,
  arith,
}
use order_matching_engine.Prelude.Bytes.{lookup}
use order_matching_engine.Types.{Symbol, Order, OrderPtr}
use order_matching_engine.Pool.{store, deallocate}
use order_matching_engine.Pool.Laws.{allocate_empty, allocate_cons}
use order_matching_engine.Validation.{validate_order}
use order_matching_engine.Engine.{MatchingEngine, route, admit, process_new_order}
use order_matching_engine.Engine.Books.{IsEngine}
use order_matching_engine.Engine.Route.{IsAcceptable}
use order_matching_engine.Engine.Process.{stored-IsInFlight}
use order_matching_engine.Engine.Exchange.{Depth, submit}
use order_matching_engine.Engine.Exchange.Unchanged.{depth_in, depth_at, depth_in-same}
use order_matching_engine.Engine.Exchange.Routing.{
  kills, Submits, book_for, turned_away, route-Submits,
}

module _ (clock : ℕ → ℕ) (fuel : ℕ) (incoming : Order) (e : MatchingEngine) (v : IsEngine e) where
  -- Storing the order in a free slot changes no offer.
  pub stored_same :
      (t : OrderPtr) (rest : List ℕ)
      → e.order_pool.free_indices ≡ t ∷ rest
      → (symbol : Symbol)
      → depth_in (store t incoming e.order_pool).slot (lookup symbol e.order_books)
        ≡ depth_at symbol e
  unfolding store
  stored_same t rest is symbol =
      depth_in-same e.order_pool.free_indices e (store t incoming e.order_pool).slot symbol v
        (λ q in_use _.
          let free : contains q (t ∷ rest) ≡ false = rw is at in_use in ground (arith, free))

  admitted :
      (t : OrderPtr) (rest : List ℕ)
      → e.order_pool.free_indices ≡ t ∷ rest
      → IsAcceptable fuel incoming e.order_books
      → Submits
          (turned_away incoming e (t ∷ rest))
          incoming
          e
          (admit clock fuel incoming e (some (t, record (e.order_pool) { free_indices = rest })))
  unfolding admit submit store
  admitted t rest is w =
      let e1 = record e {
        order_pool = store t incoming (record (e.order_pool) { free_indices = rest });
      } in
      let same = stored_same t rest is in
      elim (Bool-cases (validate_order incoming)) [
        | inr invalid ↦ rw invalid (
          [],
          record e { order_pool = deallocate t e1.order_pool },
          refl,
          record {
            fills = refl;
            offers = unfold deallocate in same incoming.symbol;
            others = λ symbol _. unfold deallocate in same symbol;
          },
        )
        | inl valid ↦
            let stored : e1.order_pool.slot t ≡ incoming = unfold store in ground arith in
            let flight = stored-IsInFlight e incoming t rest v is in
            let k =
              kills (store t incoming e.order_pool).slot
                (book_for incoming.symbol (lookup incoming.symbol e.order_books)) incoming in
            let routed : Submits k incoming e1 (route clock fuel t e1) =
              subst
                (λ (o : Order).
                  Submits
                    (kills e1.order_pool.slot (book_for o.symbol (lookup o.symbol e.order_books)) o)
                    o e1 (route clock fuel t e1))
                stored
                (route-Submits clock fuel t e1 flight
                  (subst (λ (o : Order). IsAcceptable fuel o e.order_books) (sym stored) w)) in
            let (trades, e', is', done) = routed in
            rw valid (
              trades,
              e',
              is',
              record {
                fills =
                    done.fills ∙ ap (λ (d : Depth). (submit k incoming d).0) (same incoming.symbol);
                offers =
                    done.offers
                    ∙ ap (λ (d : Depth). (submit k incoming d).1) (same incoming.symbol);
                others = λ symbol ne. done.others symbol ne ∙ same symbol;
              },
            )
      ]

  -- On a well-formed engine, `process_new_order` of an order that it can accept returns. Its trades
  -- are the fills, and the offers of the order's symbol afterwards are the offers, that
  -- Engine/Exchange gives for the order: none and no change when the pool is exhausted, the order
  -- is not valid or it is killed, else what it takes by price, then by age, with what is left of it
  -- in the queue unless it must not wait. The offers of the other symbols are as they were.
  pub process_new_order-Submits :
      IsAcceptable fuel incoming e.order_books
      → Submits
          (turned_away incoming e e.order_pool.free_indices)
          incoming
          e
          (process_new_order clock fuel incoming e)
  unfolding process_new_order admit submit
  process_new_order-Submits w = go e.order_pool.free_indices refl
    where
      go :
          (free : List ℕ)
          → e.order_pool.free_indices ≡ free
          → Submits
              (turned_away incoming e free)
              incoming
              e
              (process_new_order clock fuel incoming e)
      go [] is = (
        [],
        e,
        ap (admit clock fuel incoming e) (allocate_empty e.order_pool is),
        record { fills = refl; offers = refl; others = λ symbol _. refl },
      )
      go (t ∷ rest) is =
          let (trades, e', done, submitted) = admitted t rest is w in
          (
            trades,
            e',
            ap (admit clock fuel incoming e) (allocate_cons e.order_pool t rest is) ∙ done,
            submitted,
          )
