-- ===== src/Engine/Settle.antt =====
-- Step 4 of MatchingEngine::process_new_order, and both steps 3 and 4 together: what becomes of the
-- order, and that the book is not crossed afterwards.
use order_matching_engine.Prelude.{
  ℕ, suc, ◌+◌, ◌<◌, ◌≡◌, ◌≢◌, refl, sym, ap, subst, ◌∙◌, false, not, ◌&&◌, none, List, ◌∷◌, length,
  contains, arith, inl, inr, Bool-cases, if◌then◌else◌,
}
use order_matching_engine.Prelude.Dict.{lookup}
use order_matching_engine.Price.{Price, rank, is_nan, rank_of_lt}
use order_matching_engine.Types.{
  OrderSide, buy, sell, Order, OrderPtr, market, ioc, is_type, is_filled,
}
use order_matching_engine.Pool.{ObjectPool, deallocate}
use order_matching_engine.Pool.Laws.{IsValid}
use order_matching_engine.PriceMap.Order.{At, IsSide-At}
use order_matching_engine.PriceMap.Positions.{At-push_back}
use order_matching_engine.Book.{OrderBook, get_total_orders, add_order}
use order_matching_engine.Book.Invariant.{IsBook}
use order_matching_engine.Book.Update.{
  IsNew, add_order-IsBook, added, add_order-added, added_fields,
}
use order_matching_engine.Book.Cancel.{Shrinks}
use order_matching_engine.Book.Frame.{IsBook-out}
use order_matching_engine.Book.Best.{Finds, best_of-Finds}
use order_matching_engine.Engine.{Matching, settle}
use order_matching_engine.Engine.Removal.{IsMatching, filled_lem}
use order_matching_engine.Engine.Matched.{Over}

-- Every buy order is priced below every sell order.
abbrev pub IsUncrossed : OrderBook → Type 0
IsUncrossed b =
    (j k : Price) (p q : OrderPtr) → At j p b.buy_orders → At k q b.sell_orders → rank j < rank k

pub Shrinks-IsUncrossed : {b b' : OrderBook} → Shrinks b b' → IsUncrossed b → IsUncrossed b'
Shrinks-IsUncrossed h u j k p q bought sold =
    u j k p q (h.stood buy j p bought) (h.stood sell k q sold)

-- The order that is left when nothing more can be matched is priced short of the other side.
abbrev Short : OrderSide → Order → OrderBook → Type 0
Short buy o b = (k : Price) (q : OrderPtr) → At k q b.sell_orders → rank o.price < rank k
Short sell o b = (k : Price) (q : OrderPtr) → At k q b.buy_orders → rank k < rank o.price

module _ (size : ℕ) (s : OrderPtr → Order) (out : List ℕ) (b : OrderBook) where
  Over-Short :
      (side : OrderSide) (o : Order)
      → IsBook size s out b
      → o.quantity_filled < o.quantity
      → Over side o s b
      → Short side o b
  Over-Short buy o v h (inl full) = λ k q at. absurd (omega arith)
  Over-Short buy o v h (inr (inl nobody)) = λ k q at. absurd (
      subst (At k q) (subst (Finds size s out b sell) nobody (best_of-Finds size s out b sell v))
        at)
  Over-Short buy o v h (inr (inr (best, found, beyond))) = λ k q at.
      let best_ask = subst (Finds size s out b sell) found (best_of-Finds size s out b sell v) in
      let r = rank_of_lt o.price (s best).price (ground arith) in
      omega (arith, r, best_ask.rests.has_price, best_ask.no_better k q at)
  Over-Short sell o v h (inl full) = λ k q at. absurd (omega arith)
  Over-Short sell o v h (inr (inl nobody)) = λ k q at.
      absurd (
        subst (At k q) (subst (Finds size s out b buy) nobody (best_of-Finds size s out b buy v))
          at)
  Over-Short sell o v h (inr (inr (best, found, beyond))) = λ k q at.
      let best_bid = subst (Finds size s out b buy) found (best_of-Finds size s out b buy v) in
      let r = rank_of_lt (s best).price o.price (ground arith) in
      omega (arith, r, best_bid.rests.has_price, best_bid.no_better k q at)

  -- Queueing such an order leaves the book uncrossed.
  added-IsUncrossed :
      (side : OrderSide) (t : OrderPtr)
      → Short side (s t) b
      → IsBook size s out (added size s out b t side)
      → IsUncrossed b
      → IsUncrossed (added size s out b t side)
  added-IsUncrossed buy t short v u j k p q bought sold =
      elim (At-push_back (s t).price j t p b.buy_orders bought) [
        | inl old ↦ u j k p q old sold
        | inr new ↦
            let (r, _, _) = IsSide-At _ 0 _ v.buys bought in
            let e : rank (s t).price ≡ rank j =
              ap (λ (i : OrderPtr). rank (s i).price) (sym new) ∙ r.has_price in
            omega (arith, short k q sold, e)
      ]
  added-IsUncrossed sell t short v u j k p q bought sold =
      elim (At-push_back (s t).price k t q b.sell_orders sold) [
        | inl old ↦ u j k p q bought old
        | inr new ↦
            let (r, _, _) = IsSide-At _ 0 _ v.sells sold in
            let e : rank (s t).price ≡ rank k =
              ap (λ (i : OrderPtr). rank (s i).price) (sym new) ∙ r.has_price in
            omega (arith, short j p bought, e)
      ]

-- Which orders stay in the pool without being queued anywhere: a market order that is not filled.
abbrev pub leaked : Order → ℕ
leaked o = if not (is_filled o) && is_type o.type market then 1 else 0

-- What settling the order in slot `t` leaves.
pub record Settled (t : OrderPtr) (p : ObjectPool Order) (b : OrderBook) (p' : ObjectPool Order)
    (b' : OrderBook) : Type 0 where
  pub pool : IsValid p'
  pub book : IsBook p'.size p'.slot p'.free_indices b'
  pub same_symbol : b'.symbol ≡ b.symbol
  pub same_size : p'.size ≡ p.size
  pub same_slots : p'.slot ≡ p.slot
  pub freed :
      (q : OrderPtr)
      → q ≢ t
      → contains q p.free_indices ≡ false
      → contains q p'.free_indices ≡ false
  pub uncrossed : IsUncrossed b → IsUncrossed b'
  pub accounted :
      suc (get_total_orders b + length p.free_indices)
      ≡ get_total_orders b' + length p'.free_indices + leaked (p.slot t)

module _ (side : OrderSide) (t : OrderPtr) (m : Matching) where
  abbrev o : Order
  o = m.order_pool.slot t

  abbrev Settles : Matching → Type 0
  Settles m' = Settled t m.order_pool m.book m'.order_pool m'.book

  -- The fields that an order wants to be queued in the book.
  pub record IsQueueable : Type 0 where
    pub has_symbol : o.symbol ≡ m.book.symbol
    pub no_nan : is_nan o.price ≡ false
    pub new_id : lookup o.id m.book.order_lookup ≡ none
    pub has_side : o.side ≡ side

  module _ (v : IsMatching t m.order_pool m.book) where
    released : leaked o ≡ 0 → Settles (record m { order_pool = deallocate t m.order_pool })
    unfolding deallocate
    released no_leak = record {
      pool = record {
        distinct = (v.in_flight, v.pool.distinct);
        in_range = (v.in_range, v.pool.in_range);
      };
      book = v.book;
      same_symbol = refl;
      same_size = refl;
      same_slots = refl;
      freed = λ q other h. ground arith;
      uncrossed = λ u. u;
      accounted = omega (arith, no_leak);
    }

    left_behind : leaked o ≡ 1 → Settles m
    left_behind leak = record {
      pool = v.pool;
      book = IsBook-out _ _ _ m.order_pool.free_indices m.book (λ q h. ground arith) v.book;
      same_symbol = refl;
      same_size = refl;
      same_slots = refl;
      freed = λ q other h. h;
      uncrossed = λ u. u;
      accounted = omega (arith, leak);
    }

    module _ (w : IsQueueable) (more : o.quantity_filled < o.quantity) where
      new : IsNew m.order_pool.size m.order_pool.slot m.order_pool.free_indices m.book t
      new = record {
        in_range = v.in_range;
        not_out = v.in_flight;
        has_symbol = w.has_symbol;
        no_nan = w.no_nan;
        open_qty = more;
        bounded = v.bounded;
        new_id = w.new_id;
      }

      abbrev with_order : OrderBook
      with_order = added m.order_pool.size m.order_pool.slot m.order_pool.free_indices m.book t side

      is_with_order : add_order m.order_pool.slot t m.book ≡ with_order
      is_with_order =
          add_order-added m.order_pool.size m.order_pool.slot m.order_pool.free_indices m.book t
          ∙ ap (added m.order_pool.size m.order_pool.slot m.order_pool.free_indices m.book t)
              w.has_side

      with_order-IsBook :
          IsBook m.order_pool.size m.order_pool.slot m.order_pool.free_indices with_order
      with_order-IsBook = rw is_with_order at (
          add_order-IsBook m.order_pool.size m.order_pool.slot m.order_pool.free_indices m.book t
            new v.book)

      rests :
          Over side o m.order_pool.slot m.book
          → leaked o ≡ 0
          → Settled t m.order_pool m.book m.order_pool with_order
      rests over no_leak =
          let (same, one) =
            added_fields m.order_pool.size m.order_pool.slot m.order_pool.free_indices m.book t side
              w.new_id in
          record {
            pool = v.pool;
            book = with_order-IsBook;
            same_symbol = same;
            same_size = refl;
            same_slots = refl;
            freed = λ q other h. h;
            uncrossed =
                added-IsUncrossed m.order_pool.size m.order_pool.slot m.order_pool.free_indices
                  m.book side t
                  (Over-Short m.order_pool.size m.order_pool.slot (t ∷ m.order_pool.free_indices)
                    m.book side o v.book more over)
                  with_order-IsBook;
            accounted = omega (arith, one, no_leak);
          }

    -- When the matching of an order that can be queued is over, settling it leaves a well-formed
    -- pool and book and keeps an uncrossed book uncrossed, whatever the order's type and however
    -- much of it was filled; no slot is lost but that of a market order with a rest.
    pub settle-Settled : IsQueueable → Over side o m.order_pool.slot m.book → Settles (settle t m)
    unfolding settle
    settle-Settled w over = elim (filled_lem o v.not_over) [
      | inl (full, _) ↦ rw full (released (ground arith))
      | inr (part, more) ↦ elim (Bool-cases (is_type o.type ioc)) [
        | inl is_ioc ↦ rw (part, is_ioc) (released (ground arith))
        | inr no_ioc ↦ elim (Bool-cases (is_type o.type market)) [
          | inl is_market ↦ rw (part, no_ioc, is_market) (left_behind (ground arith))
          | inr no_market ↦
              rw (part, no_ioc, no_market, is_with_order w more) (rests w more over (ground arith))
        ]
      ]
    ]
