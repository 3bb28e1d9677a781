-- ===== src/Engine/Exchange/Trading.antt =====
-- Steps 3 and 4 of MatchingEngine::process_new_order (src/matching_engine.cpp) against Engine/Exchange.
use order_matching_engine.Prelude.{
  ℕ, ◌+◌, ◌-◌, ◌≡◌, refl, sym, ap, subst, ◌∙◌, true, false, Option, some, List, inl, inr,
  Bool-cases, some-inj, arith, ◌==◌,
}
use order_matching_engine.Types.{OrderSide, buy, sell, Order, OrderPtr, Trade, market, ioc, is_type}
use order_matching_engine.Pool.{deallocate}
use order_matching_engine.Book.{OrderBook, Slots, get_total_orders}
use order_matching_engine.Engine.{Matching, execute, settle, match_against, settle_after}
use order_matching_engine.Engine.Removal.{IsMatching, opposite, filled_lem}
use order_matching_engine.Engine.Matched.{Matched, Enough, volume}
use order_matching_engine.Engine.Loop.{match_against-Ends}
use order_matching_engine.Engine.Settle.{IsQueueable}
use order_matching_engine.Engine.Execute.{Executed, queueable_after, settled_after}
use order_matching_engine.Engine.Priority.{Offer, take_offers, offers_for, fills_of}
use order_matching_engine.Engine.Priority.Place.{add_order-place}
use order_matching_engine.Engine.Offers.{Refines}
use order_matching_engine.Engine.Refinement.{match_against-Refines}
use order_matching_engine.Engine.Exchange.{
  depth_of, met, both_sides, taken, enters, trade_on, taken-fills_of,
}

both_sides_lem :
    (side : OrderSide) (s : Slots) (b : OrderBook)
    → depth_of s b ≡ both_sides side (offers_for (opposite side) s b) (offers_for side s b)
both_sides_lem buy s b = refl
both_sides_lem sell s b = refl

pub met_lem :
    (side : OrderSide) (s : Slots) (b : OrderBook) → met side (depth_of s b) ≡ offers_for side s b
met_lem buy s b = refl
met_lem sell s b = refl

module _ (side : OrderSide) (t : OrderPtr) (m : Matching) (v : IsMatching t m.order_pool m.book)
    (w : IsQueueable side t m) where
  abbrev o : Order
  o = m.order_pool.slot t

  abbrev left : ℕ
  left = o.quantity - o.quantity_filled

  abbrev Enters : Matching → Type 0
  Enters m' =
      (offers_for (opposite side) m'.order_pool.slot m'.book
        ≡ enters o left (offers_for (opposite side) m.order_pool.slot m.book))
      × (offers_for side m'.order_pool.slot m'.book ≡ offers_for side m.order_pool.slot m.book)

  -- What is left of an order takes its place, or nothing changes.
  settle-Enters : Enters (settle t m)
  unfolding settle deallocate
  settle-Enters = elim (filled_lem o v.not_over) [
    | inl (full, none_left) ↦
        let nothing : (left == 0) ≡ true = ground arith in rw (full, nothing) (refl, refl)
    | inr (part, more) ↦
        let something : (left == 0) ≡ false = ground arith in
        elim (Bool-cases (is_type o.type ioc)) [
          | inl is_ioc ↦ rw (part, is_ioc, something) (refl, refl)
          | inr no_ioc ↦ elim (Bool-cases (is_type o.type market)) [
            | inl is_market ↦ rw (part, no_ioc, is_market, something) (refl, refl)
            | inr no_market ↦
                let (mine, theirs) =
                  add_order-place m.order_pool.slot t m.order_pool.size m.order_pool.free_indices
                    m.book side w.has_side w.no_nan v.book in
                rw (part, no_ioc, no_market, something) (rw w.has_side mine, theirs)
          ]
        ]
  ]

module _ (clock : ℕ → ℕ) (side : OrderSide) (t : OrderPtr) (m : Matching) where
  abbrev pub Trades : Option (List Trade × Matching) → Type 0
  Trades r =
      (trades : List Trade) × (m' : Matching) × (r ≡ some (trades, m'))
      × Executed side t m.order_pool m.book trades m'.order_pool m'.book
      × (fills_of side trades
          ≡ (trade_on (m.order_pool.slot t) (depth_of m.order_pool.slot m.book)).0)
      × (depth_of m'.order_pool.slot m'.book
          ≡ (trade_on (m.order_pool.slot t) (depth_of m.order_pool.slot m.book)).1)

  -- The two accounts of the matching loop are of the same run.
  both_accounts :
      (fuel : ℕ)
      → IsMatching t m.order_pool m.book
      → Enough (m.order_pool.slot t) (get_total_orders m.book) fuel
      → (trades : List Trade) × (m' : Matching) × (match_against clock side fuel t m
          ≡ some (trades, m'))
        × Matched side t m.order_pool m.book trades m'.order_pool m'.book
        × Refines clock side t m trades m'
  both_accounts fuel v h =
      let (ts, m1, e1, d) = match_against-Ends clock side t fuel m v h in
      let (ts2, m2, e2, r) = match_against-Refines clock side t fuel m v h in
      (
        ts,
        m1,
        e1,
        d,
        subst (λ (x : List Trade × Matching). Refines clock side t m x.0 x.1)
            (some-inj (sym e2 ∙ e1)) r,
      )

  pub execute-Trades :
      (fuel : ℕ)
      → IsMatching t m.order_pool m.book
      → IsQueueable side t m
      → Enough (m.order_pool.slot t) (get_total_orders m.book) fuel
      → Trades (execute clock fuel t m)
  unfolding execute trade_on
  execute-Trades fuel v w h =
      let o = m.order_pool.slot t in
      let (ts, m1, is, d, (fills, theirs, mine)) = both_accounts fuel v h in
      let (placed, kept) =
        settle-Enters side t m1 d.still (queueable_after clock side t m ts m1 w d) in
      let m2 = settle t m1 in
      let amount : taken
            (take_offers side o.type o.price (o.quantity - o.quantity_filled)
              (offers_for side m.order_pool.slot m.book)).0
          ≡ volume ts =
        ap taken (sym fills) ∙ taken-fills_of side ts in
      let own_side : offers_for (opposite side) m2.order_pool.slot m2.book
          ≡ enters o (o.quantity - o.quantity_filled - volume ts)
              (offers_for (opposite side) m.order_pool.slot m.book) =
        placed
        ∙ ap
            (λ (o' : Order).
              enters o' (o'.quantity - o'.quantity_filled)
                (offers_for (opposite side) m1.order_pool.slot m1.book))
            d.taker_filled
        ∙ ap (λ (xs : List Offer). enters o (o.quantity - (o.quantity_filled + volume ts)) xs) mine
        ∙ ap (λ (k : ℕ). enters o k (offers_for (opposite side) m.order_pool.slot m.book))
            (omega arith) in
      let all_of_it : depth_of m2.order_pool.slot m2.book
          ≡ both_sides side
              (enters o (o.quantity - o.quantity_filled - volume ts)
                (offers_for (opposite side) m.order_pool.slot m.book))
              (take_offers side o.type o.price (o.quantity - o.quantity_filled)
                (offers_for side m.order_pool.slot m.book)).1 =
        both_sides_lem side m2.order_pool.slot m2.book
        ∙ ap (λ (xs : List Offer). both_sides side xs (offers_for side m2.order_pool.slot m2.book))
            own_side
        ∙ ap (both_sides side _) (kept ∙ theirs) in
      (
        ts,
        m2,
        ap (λ (d : OrderSide). settle_after t (match_against clock d fuel t m)) w.has_side
            ∙ ap (settle_after t) is,
        settled_after clock side t m ts m1 w d,
        rw (w.has_side, met_lem side m.order_pool.slot m.book) fills,
        rw
            (
              w.has_side,
              met_lem side m.order_pool.slot m.book,
              met_lem (opposite side) m.order_pool.slot m.book,
              amount,
            )
            (rw w.has_side at all_of_it),
      )
