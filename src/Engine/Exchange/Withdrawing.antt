-- ===== src/Engine/Exchange/Withdrawing.antt =====
-- MatchingEngine::cancel_order (src/matching_engine.cpp) against Engine/Exchange.
use order_matching_engine.Prelude.{
  ℕ, ◌≡◌, ◌≢◌, refl, sym, ap, ◌∙◌, true, false, Option, none, some, List, [], ◌∷◌, ◌==◌, ==_iff,
  ==_false, All, Option-cases, Bool-cases, inl, inr, some-inj, none-ne-some, arith,
}
use order_matching_engine.Prelude.Bytes.{lookup, insert}
use order_matching_engine.Price.{Price, is_nan}
use order_matching_engine.Types.{OrderId, OrderSide, buy, sell, buy-ne-sell, Symbol, OrderPtr}
use order_matching_engine.PriceMap.Queue.{All-from_front, All-from_back}
use order_matching_engine.PriceMap.Drop.{
  leave_out, leave_out_apart, from_front-leave_out, from_back-leave_out,
}
use order_matching_engine.Pool.{deallocate}
use order_matching_engine.Book.{OrderBook, Slots, new_book, cancel_order, get_order_by_id}
use order_matching_engine.Book.Invariant.{Resting, IsBook}
use order_matching_engine.Book.Without.{without}
use order_matching_engine.Book.Cancel.{Cancels, cancel_order-Cancels}
use order_matching_engine.Engine.{
  MatchingEngine, cancel_engine_order, finish_cancel, get_or_create_order_book,
}
use order_matching_engine.Engine.Books.{IsEngine, new_book-IsBookOf}
use order_matching_engine.Engine.Priority.{Offer, offer_of, offers_of, queue_for}
use order_matching_engine.Engine.Exchange.{depth_of, withdraw, withdraw_from}
use order_matching_engine.Engine.Exchange.Unchanged.{
  depth_at, depth_in-insert_self, depth_in-insert_ne, depth_of-new_book,
}

offers_of-leave_out :
    (s : Slots) (p : OrderPtr) (qs : List OrderPtr)
    → All (λ q. (s q).id ≡ (s p).id → q ≡ p) qs
    → offers_of s (leave_out p qs) ≡ withdraw (s p).id (offers_of s qs)
unfolding leave_out withdraw
offers_of-leave_out s p [] h = refl
offers_of-leave_out s p (q ∷ qs) h = elim (Bool-cases (q == p)) [
  | inl same ↦
      let is : q ≡ p = (==_iff q p).0 same in
      let listed : ((s q).id == (s p).id) ≡ true =
        (==_iff (s q).id (s p).id).1 (ap (λ (i : OrderPtr). (s i).id) is) in
      rw (same, listed) (offers_of-leave_out s p qs h.1)
  | inr other ↦ elim (Bool-cases ((s q).id == (s p).id)) [
    | inl listed ↦ absurd (==_false q p other (h.0 ((==_iff (s q).id (s p).id).0 listed)))
    | inr unlisted ↦
        rw (other, unlisted)
          (ap (λ (l : List Offer). offer_of (s q) ∷ l) (offers_of-leave_out s p qs h.1))
  ]
]

withdraw_absent :
    (s : Slots) (id : OrderId) (qs : List OrderPtr)
    → All (λ q. (s q).id ≢ id) qs
    → withdraw id (offers_of s qs) ≡ offers_of s qs
unfolding withdraw
withdraw_absent s id [] h = refl
withdraw_absent s id (q ∷ qs) h =
    let other : ((s q).id == id) ≡ false = ground (arith, h.0) in
    rw other (ap (λ (l : List Offer). offer_of (s q) ∷ l) (withdraw_absent s id qs h.1))

module _ (size : ℕ) (s : Slots) (out : List ℕ) (b : OrderBook) (v : IsBook size s out b) where
  abbrev Stands : OrderSide → Price → OrderPtr → Type 0
  Stands side = Resting size s out b.symbol b.order_lookup side

  module _ {κ} (Q : OrderPtr → Type κ) where
    every_bid : ((k : Price) (q : OrderPtr) → Stands buy k q → Q q) → All Q (queue_for sell b)
    every_bid f = All-from_back (Stands buy) Q f 0 b.buy_orders v.buys

    every_ask : ((k : Price) (q : OrderPtr) → Stands sell k q → Q q) → All Q (queue_for buy b)
    every_ask f = All-from_front (Stands sell) Q f 0 b.sell_orders v.sells

  listed :
      (side : OrderSide) (k : Price) (q : OrderPtr)
      → Stands side k q
      → get_order_by_id (s q).id b ≡ some q
  unfolding get_order_by_id
  listed side k q r = rw (r.is_listed, get_order_by_id) refl

  -- An id names one order.
  unique :
      (p : OrderPtr) (side : OrderSide) (k : Price) (q : OrderPtr)
      → get_order_by_id (s p).id b ≡ some p
      → Stands side k q
      → (s q).id ≡ (s p).id
      → q ≡ p
  unique p side k q known r is =
      some-inj (sym (listed side k q r) ∙ ap (λ (i : OrderId). get_order_by_id i b) is ∙ known)

  -- No order in the book has an id that the book does not list.
  not_listed :
      (id : OrderId) → get_order_by_id id b ≡ none → depth_of s b ≡ withdraw_from id (depth_of s b)
  not_listed id h =
      let bids =
        withdraw_absent s id (queue_for sell b)
          (every_bid (λ q. (s q).id ≢ id) (λ k q r. apart buy k q r)) in
      let asks =
        withdraw_absent s id (queue_for buy b)
          (every_ask (λ q. (s q).id ≢ id) (λ k q r. apart sell k q r)) in
      rw (bids, asks) refl
    where
      apart : (side : OrderSide) (k : Price) (q : OrderPtr) → Stands side k q → (s q).id ≢ id
      apart side k q r is =
          none-ne-some
            (sym h ∙ ap (λ (i : OrderId). get_order_by_id i b) (sym is) ∙ listed side k q r)

  -- The order `p` has gone from its side.
  left_over :
      (p : OrderPtr) (side : OrderSide)
      → (s p).side ≡ side
      → is_nan (s p).price ≡ false
      → get_order_by_id (s p).id b ≡ some p
      → depth_of s (without size s out b p side) ≡ withdraw_from (s p).id (depth_of s b)
  left_over p buy of_side no_nan known =
      let bids =
        ap (offers_of s) (
          from_back-leave_out (Stands buy) (s p).price p (λ k r. r.has_price) no_nan 0 b.buy_orders
            v.buys)
        ∙ offers_of-leave_out s p (queue_for sell b)
            (every_bid (λ q. (s q).id ≡ (s p).id → q ≡ p) (λ k q r. unique p buy k q known r)) in
      let apart =
        every_ask (λ q. q ≢ p)
          (λ k q r is.
            buy-ne-sell (sym of_side ∙ ap (λ (i : OrderPtr). (s i).side) (sym is) ∙ r.has_side)) in
      let asks =
        sym (ap (offers_of s) (leave_out_apart p (queue_for buy b) apart))
        ∙ offers_of-leave_out s p (queue_for buy b)
            (every_ask (λ q. (s q).id ≡ (s p).id → q ≡ p) (λ k q r. unique p sell k q known r)) in
      rw (bids, sym asks) refl
  left_over p sell of_side no_nan known =
      let asks =
        ap (offers_of s) (
          from_front-leave_out (Stands sell) (s p).price p (λ k r. r.has_price) no_nan 0
            b.sell_orders v.sells)
        ∙ offers_of-leave_out s p (queue_for buy b)
            (every_ask (λ q. (s q).id ≡ (s p).id → q ≡ p) (λ k q r. unique p sell k q known r)) in
      let apart =
        every_bid (λ q. q ≢ p)
          (λ k q r is.
            buy-ne-sell (sym r.has_side ∙ ap (λ (i : OrderPtr). (s i).side) is ∙ of_side)) in
      let bids =
        sym (ap (offers_of s) (leave_out_apart p (queue_for sell b) apart))
        ∙ offers_of-leave_out s p (queue_for sell b)
            (every_bid (λ q. (s q).id ≡ (s p).id → q ≡ p) (λ k q r. unique p buy k q known r)) in
      rw (asks, sym bids) refl

  pub depth_of-cancel_order :
      (id : OrderId) → depth_of s (cancel_order s id b).1 ≡ withdraw_from id (depth_of s b)
  depth_of-cancel_order id = go (cancel_order s id b) (cancel_order-Cancels size s out b id v)
    where
      go :
          (r : Option OrderPtr × OrderBook)
          → Cancels size s out b id r
          → depth_of s r.1 ≡ withdraw_from id (depth_of s b)
      go (none, b') (unknown, same) = ap (depth_of s) same ∙ not_listed id unknown
      go (some p, b') c =
          ap (depth_of s) c.left_over
          ∙ left_over p (s p).side refl c.no_nan
              (ap (λ (i : OrderId). get_order_by_id i b) c.has_id ∙ c.was_found)
          ∙ ap (λ (i : OrderId). withdraw_from i (depth_of s b)) c.has_id

module _ (id : OrderId) (symbol : Symbol) (e : MatchingEngine) where
  -- What a call does to the offers: the one under the id goes, and those of other symbols stay.
  pub record Withdraws (e' : MatchingEngine) : Type 0 where
    pub offers : depth_at symbol e' ≡ withdraw_from id (depth_at symbol e)
    pub others : (s : Symbol) → s ≢ symbol → depth_at s e' ≡ depth_at s e

  -- With the book of the symbol at hand, and `books` the engine's books with it in place.
  finished :
      (b : OrderBook) (books : List (Symbol × OrderBook)) (r : Option OrderPtr × OrderBook)
      → depth_of e.order_pool.slot r.1 ≡ withdraw_from id (depth_at symbol e)
      → ((s : Symbol) → s ≢ symbol → depth_at s (record e { order_books = books }) ≡ depth_at s e)
      → Withdraws (finish_cancel symbol (record e { order_books = books }) r).1
  unfolding finish_cancel deallocate
  finished b books (none, b') now kept = record {
    offers = depth_in-insert_self e.order_pool.slot symbol b' books ∙ now;
    others = λ s ne. depth_in-insert_ne e.order_pool.slot s symbol b' books ne ∙ kept s ne;
  }
  finished b books (some p, b') now kept = record {
    offers = depth_in-insert_self e.order_pool.slot symbol b' books ∙ now;
    others = λ s ne. depth_in-insert_ne e.order_pool.slot s symbol b' books ne ∙ kept s ne;
  }

  -- Cancelling an id in a well-formed engine takes the offer under this id, if there is one, out of
  -- the offers of the symbol, keeps the order of the others, and changes no offer of another
  -- symbol.
  pub cancel_engine_order-Withdraws : IsEngine e → Withdraws (cancel_engine_order id symbol e).1
  unfolding cancel_engine_order get_or_create_order_book
  cancel_engine_order-Withdraws v = elim (Option-cases (lookup symbol e.order_books)) [
    | inr (b, found) ↦
        rw (found, get_or_create_order_book)
          (finished b e.order_books (cancel_order e.order_pool.slot id b)
            (rw found (
              depth_of-cancel_order e.order_pool.size e.order_pool.slot e.order_pool.free_indices b
                (v.books symbol b found).book id))
            (λ s ne. refl))
    | inl missing ↦
        let b = new_book symbol in
        let empty = depth_of-new_book e.order_pool.slot symbol in
        let old = new_book-IsBookOf e.order_pool e.order_pool.free_indices symbol in
        rw (missing, get_or_create_order_book)
          (finished b (insert symbol b e.order_books) (cancel_order e.order_pool.slot id b)
            (rw missing (
              depth_of-cancel_order e.order_pool.size e.order_pool.slot e.order_pool.free_indices b
                old.book id
              ∙ ap (withdraw_from id) empty))
            (λ s ne. depth_in-insert_ne e.order_pool.slot s symbol b e.order_books ne))
  ]
