-- ===== src/Engine/Round.antt =====
-- One round of the matching loops in MatchingEngine::match_against_buy_orders and
-- match_against_sell_orders.
use Prim.Native.Nat.{min}
use order_matching_engine.Prelude.{
  ℕ, ◌+◌, ◌-◌, ◌<◌, ◌≤◌, ◌≡◌, ◌≢◌, sym, ap, subst, ◌∙◌, ◌∷◌, add_u64, arith, inl, inr,
}
use order_matching_engine.Types.{
  OrderSide, buy, sell, Order, OrderPtr, remaining_qty, reduce_quantity,
}
use order_matching_engine.Pool.{store}
use order_matching_engine.Book.{OrderBook}
use order_matching_engine.Book.Frame.{
  refill, refilled, Resting-refill, refill_self, refill_ne, IsBook-refill,
}
use order_matching_engine.Book.Best.{IsBest}
use order_matching_engine.Engine.{
  Matching, slot_of, create_trade, reduce, remove_filled, match_round,
}
use order_matching_engine.Engine.Removal.{
  IsMatching, opposite, remaining_lem, filled_to, KeptOrGone, BookAfter, Untouched, IsRound,
  remove_filled-Removes,
}

module _ (side : OrderSide) (t best : OrderPtr) (qty : ℕ) (m : Matching) where
  abbrev taker : Order
  taker = m.order_pool.slot t

  abbrev maker : Order
  maker = m.order_pool.slot best

  module _ (v : IsMatching t m.order_pool m.book)
      (h : IsBest m.order_pool.size m.order_pool.slot
        (t ∷ m.order_pool.free_indices)
        m.book
        side
        best)
      (ft : taker.quantity_filled + qty ≤ taker.quantity)
      (fb : maker.quantity_filled + qty ≤ maker.quantity) where
    abbrev n1 : ℕ
    n1 = add_u64 taker.quantity_filled qty

    -- The state when the taker's quantity is booked.
    abbrev m1 : Matching
    m1 = filled_to t n1 m

    abbrev n2 : ℕ
    n2 = add_u64 (m1.order_pool.slot best).quantity_filled qty

    apart : t ≢ best
    apart e = ground (arith, h.rests.in_use)

    n1_lem : n1 ≡ taker.quantity_filled + qty
    n1_lem = omega (arith, v.bounded)

    taker1 : m1.order_pool.slot t ≡ refilled taker (taker.quantity_filled + qty)
    taker1 = refill_self m.order_pool.slot t n1 ∙ ap (refilled taker) n1_lem

    maker1 : m1.order_pool.slot best ≡ maker
    maker1 = refill_ne m.order_pool.slot t n1 best (λ e. apart (sym e))

    n2_lem : n2 ≡ maker.quantity_filled + qty
    n2_lem =
        ap (λ (o : Order). add_u64 o.quantity_filled qty) maker1 ∙ omega (arith, h.rests.bounded)

    matching1 : IsMatching t m1.order_pool m1.book
    matching1 = record {
      pool = record { distinct = v.pool.distinct; in_range = v.pool.in_range };
      book =
          IsBook-refill m.order_pool.slot t n1 m.order_pool.size (t ∷ m.order_pool.free_indices)
            m.book (inl (ground arith)) v.book;
      in_range = v.in_range;
      in_flight = v.in_flight;
      bounded = rw taker1 v.bounded;
      not_over = rw taker1 ft;
    }

    best1 :
        IsBest m.order_pool.size m1.order_pool.slot (t ∷ m.order_pool.free_indices) m.book side best
    best1 = record {
      level = h.level;
      stands = h.stands;
      rests =
          Resting-refill m.order_pool.slot t n1 m.order_pool.size (t ∷ m.order_pool.free_indices)
            m.book.symbol m.book.order_lookup side h.level best (inl (ground arith)) h.rests;
      is_oldest = h.is_oldest;
      no_better = h.no_better;
    }

    kept_or_gone :
        (m' : Matching)
        → KeptOrGone best n2 m1.order_pool m1.book m'.order_pool m'.book
        → KeptOrGone best (maker.quantity_filled + qty) m.order_pool m.book m'.order_pool m'.book
    kept_or_gone m' (inl (a, b, c)) = inl (
      a,
      b,
      subst (λ (k : ℕ). k < maker.quantity) n2_lem
          (subst (λ (o : Order). n2 < o.quantity) maker1 c),
    )
    kept_or_gone m' (inr (a, b, c)) =
        inr (a, b, sym n2_lem ∙ c ∙ ap (λ (o : Order). o.quantity) maker1)

    book_after :
        (b : OrderBook)
        → BookAfter best n2 (m1.order_pool.slot best) m1.book b
        → BookAfter best (maker.quantity_filled + qty) maker m.book b
    book_after b h =
        subst (λ (n : ℕ). BookAfter best n maker m.book b) n2_lem
          (subst (λ (o : Order). BookAfter best n2 o m.book b) maker1 h)

    untouched :
        (m' : Matching)
        → m'.order_pool.slot ≡ refill m1.order_pool.slot best n2
        → KeptOrGone best n2 m1.order_pool m1.book m'.order_pool m'.book
        → Untouched t m.book.symbol m.order_pool m'.order_pool
    untouched m' e kept q other foreign = (
      ap (λ (f : OrderPtr → Order). f q) e
          ∙ refill_ne m1.order_pool.slot best n2 q not_best
          ∙ refill_ne m.order_pool.slot t n1 q other,
      λ h. elim kept [
        | inl (_, same, _) ↦ rw same h
        | inr (_, freed, _) ↦ rw freed (ground (arith, not_best, h))
      ],
    )
      where
        not_best : q ≢ best
        not_best e =
            foreign (ap (λ (i : OrderPtr). (m.order_pool.slot i).symbol) e ∙ h.rests.has_symbol)

    -- The state after the round.
    abbrev after : Matching
    after = remove_filled best (reduce best qty (reduce t qty m))

    booked-IsRound : IsRound t best qty m.order_pool m.book after.order_pool after.book
    unfolding reduce_quantity store
    booked-IsRound =
        let full : n2 ≤ (m1.order_pool.slot best).quantity =
          subst (λ (o : Order). n2 ≤ o.quantity) (sym maker1)
            (subst (λ (k : ℕ). k ≤ maker.quantity) (sym n2_lem) fb) in
        let r = remove_filled-Removes side t best n2 m1 matching1 best1 full in
        let m' = remove_filled best (filled_to best n2 m1) in
        let taker2 : m'.order_pool.slot t ≡ refilled taker (taker.quantity_filled + qty) =
          ap (λ (f : OrderPtr → Order). f t) r.slots
          ∙ refill_ne m1.order_pool.slot best n2 t apart
          ∙ taker1 in
        record {
          still = record {
            pool = r.pool;
            book = rw (r.slots, r.same_size) r.book;
            in_range = rw r.same_size v.in_range;
            in_flight = r.in_flight;
            bounded = rw taker2 v.bounded;
            not_over = rw taker2 ft;
          };
          taker_filled = taker2;
          same_symbol = r.same_symbol;
          shrinks = r.shrinks;
          others = λ q other foreign. untouched m' r.slots r.kept_or_gone q other foreign;
          same_size = r.same_size;
          kept_or_gone = kept_or_gone m' r.kept_or_gone;
          book_after = book_after m'.book r.book_after;
          slots =
              r.slots
              ∙ ap (λ (n : ℕ). refill (refill m.order_pool.slot t n) best n2) n1_lem
              ∙ ap
                  (λ (n : ℕ).
                    refill (refill m.order_pool.slot t (taker.quantity_filled + qty)) best n)
                  n2_lem;
        }

-- The trade that a round makes: between the taker and the best order, at the best order's price, for
-- the lesser of what is left of the two.
abbrev pub traded : OrderPtr → OrderPtr → Matching → ℕ
traded t best m =
    min ((m.order_pool.slot t).quantity - (m.order_pool.slot t).quantity_filled)
      ((m.order_pool.slot best).quantity - (m.order_pool.slot best).quantity_filled)

abbrev pub Rounds : OrderPtr → OrderPtr → ℕ → Matching → Matching → Type 0
Rounds t best qty m m' = IsRound t best qty m.order_pool m.book m'.order_pool m'.book

module _ (clock : ℕ → ℕ) (t best : OrderPtr) (m : Matching) where
  abbrev left : OrderPtr → ℕ
  left p = (m.order_pool.slot p).quantity - (m.order_pool.slot p).quantity_filled

  pub traded_lem :
      (side : OrderSide)
      → IsMatching t m.order_pool m.book
      → IsBest m.order_pool.size m.order_pool.slot (t ∷ m.order_pool.free_indices) m.book side best
      → min (remaining_qty (slot_of m t)) (remaining_qty (slot_of m best)) ≡ traded t best m
  traded_lem side v h =
      ap (λ (k : ℕ). min k (remaining_qty (slot_of m best)))
        (remaining_lem (slot_of m t) v.bounded v.not_over)
      ∙ ap (λ (k : ℕ). min (left t) k)
          (remaining_lem (slot_of m best) h.rests.bounded (omega (arith, h.rests.open_qty)))

  -- A round with the best order of the other side, in a well-formed state, fills both orders by the
  -- smaller of what is left of them, and removes the best order and frees its slot exactly when it
  -- is filled; pool and book stay well formed, and slots of other symbols are untouched.
  pub match_round-Rounds :
      (side : OrderSide)
      → IsMatching t m.order_pool m.book
      → IsBest m.order_pool.size m.order_pool.slot
          (t ∷ m.order_pool.free_indices)
          m.book
          (opposite side)
          best
      → Rounds t best (traded t best m) m (match_round clock side t best m).1
  unfolding match_round create_trade
  match_round-Rounds buy v h = rw (traded_lem sell v h) (
      booked-IsRound sell t best (traded t best m) _ v h (omega (arith, v.not_over))
        (omega (arith, h.rests.open_qty)))
  match_round-Rounds sell v h = rw (traded_lem buy v h) (
      booked-IsRound buy t best (traded t best m) _ v h (omega (arith, v.not_over))
        (omega (arith, h.rests.open_qty)))
