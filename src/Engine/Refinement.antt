-- ===== src/Engine/Refinement.antt =====
-- The matching loops of MatchingEngine (src/matching_engine.cpp) against Engine/Priority.
use order_matching_engine.Prelude.{
  ℕ, zero, suc, ◌-◌, ◌≡◌, refl, sym, ap, ◌∙◌, true, some, List, [], ◌∷◌, inl, inr, Option-cases,
  Bool-cases, ◌==◌, ==_iff, ==_false, arith,
}
use order_matching_engine.Types.{OrderSide, buy, sell, Order, OrderPtr, Trade, remaining_qty}
use order_matching_engine.Book.{get_total_orders}
use order_matching_engine.Book.Best.{IsBest}
use order_matching_engine.Engine.{
  Matching, best_opposite, no_match, match_round, match_against, create_trade,
}
use order_matching_engine.Engine.Removal.{IsMatching, opposite, remaining_lem}
use order_matching_engine.Engine.Round.{traded, match_round-Rounds}
use order_matching_engine.Engine.Matched.{Enough, fuel_suffices, trade_lem, best_opposite-IsBest}
use order_matching_engine.Engine.Priority.{
  fill_from, take_offers, take_offers-zero, take_offers-beyond, offer_of, offers_of, offers_for,
  fill_of, beyond,
}
use order_matching_engine.Engine.Priority.Front.{front_lem, nobody_lem}
use order_matching_engine.Engine.Offers.{promised, Refines, round-Refines}

module _ (clock : ℕ → ℕ) (side : OrderSide) (t : OrderPtr) where
  -- The trade of a round, from the taker's side.
  fill_of-match_round :
      (d : OrderSide) (m : Matching) (best : OrderPtr) (qty : ℕ)
      → (match_round clock d t best m).0.quantity ≡ qty
      → fill_of d (match_round clock d t best m).0
        ≡ fill_from (offer_of (m.order_pool.slot best)) qty
  unfolding match_round create_trade
  fill_of-match_round buy m best qty h = ap (fill_from (offer_of (m.order_pool.slot best))) h
  fill_of-match_round sell m best qty h = ap (fill_from (offer_of (m.order_pool.slot best))) h

  no_match_lem :
      (d : OrderSide) (o best : Order) → no_match d best o ≡ beyond d o.type o.price best.price
  no_match_lem buy o best = refl
  no_match_lem sell o best = refl

  -- At the front of the queue stands the best order.
  beyond-Refines :
      (m : Matching) (best : OrderPtr)
      → IsMatching t m.order_pool m.book
      → IsBest m.order_pool.size m.order_pool.slot
          (t ∷ m.order_pool.free_indices)
          m.book
          (opposite side)
          best
      → best_opposite side m.book ≡ some best
      → no_match side (m.order_pool.slot best) (m.order_pool.slot t) ≡ true
      → Refines clock side t m [] m
  beyond-Refines m best v h found too_far =
      let s = m.order_pool.slot in
      let front = ap (offers_of s) (
        front_lem m.order_pool.size s (t ∷ m.order_pool.free_indices) m.book v.book side best
          h.rests.no_nan found) in
      let whole : promised clock side t m ≡ _ =
        ap (take_offers side (s t).type (s t).price ((s t).quantity - (s t).quantity_filled)) front
        ∙ take_offers-beyond side (s t).type (s t).price _ (offer_of (s best)) _
            (sym (no_match_lem side (s t) (s best)) ∙ too_far) in
      (rw whole refl, rw whole front, refl)

  -- With enough fuel, matching in a well-formed state returns, and what it did is what
  -- Engine/Priority describes: the trades are the fills that the order gets from the offers of the
  -- other side in the order of price and then of time, each at the price of the offer and under its
  -- id, up to its limit and to what it wants; and the offers that are left are those that it did
  -- not take, the last one less what was taken of it, while the offers of its own side are as they
  -- were.
  pub match_against-Refines :
      (fuel : ℕ) (m : Matching)
      → IsMatching t m.order_pool m.book
      → Enough (m.order_pool.slot t) (get_total_orders m.book) fuel
      → (trades : List Trade) × (m' : Matching) × (match_against clock side fuel t m
          ≡ some (trades, m'))
        × Refines clock side t m trades m'
  unfolding match_against
  match_against-Refines zero m v h = absurd (omega arith)
  match_against-Refines (suc fuel) m v h =
      let o = m.order_pool.slot t in
      let left = remaining_lem o v.bounded v.not_over in
      elim (Bool-cases (remaining_qty o == 0)) [
        | inl done ↦
            let nothing : promised clock side t m ≡ ([], offers_for side m.order_pool.slot m.book) =
              ap
                (λ (k : ℕ).
                  take_offers side o.type o.price k (offers_for side m.order_pool.slot m.book))
                (sym left ∙ (==_iff (remaining_qty o) 0).0 done)
              ∙ take_offers-zero side o.type o.price _ in
            ([], m, rw (done, match_against) refl, (rw nothing refl, rw nothing refl, refl))
        | inr more ↦ elim (Option-cases (best_opposite side m.book)) [
          | inl nobody ↦
              let none_there = ap (offers_of m.order_pool.slot) (
                nobody_lem m.order_pool.size m.order_pool.slot (t ∷ m.order_pool.free_indices)
                  m.book v.book side nobody) in
              let nothing : promised clock side t m ≡ ([], []) =
                ap (take_offers side o.type o.price (o.quantity - o.quantity_filled)) none_there
                ∙ unfold take_offers in refl in
              (
                [],
                m,
                rw (more, match_against) (rw nobody refl),
                (rw nothing refl, rw nothing none_there, refl),
              )
          | inr (best, found) ↦
              let h' = best_opposite-IsBest clock side t side m best v found in
              elim (Bool-cases (no_match side (m.order_pool.slot best) o)) [
                | inl too_far ↦ (
                  [],
                  m,
                  rw (more, match_against) (rw found (rw too_far refl)),
                  beyond-Refines m best v h' found too_far,
                )
                | inr go ↦
                    let r = match_round-Rounds clock t best m side v h' in
                    let (q, fair) = trade_lem clock side t m best side v h' more go in
                    let m1 = (match_round clock side t best m).1 in
                    let (trades, m2, e, d) =
                      match_against-Refines fuel m1 r.still
                        (fuel_suffices clock side t m m1 best fuel r v more h) in
                    (
                      (match_round clock side t best m).0 ∷ trades,
                      m2,
                      rw (more, match_against) (rw found (rw go (rw e refl))),
                      round-Refines clock side t m m1 best (traded t best m) v h' found r m2 _
                          trades refl (fill_of-match_round side m best _ q)
                          (omega (arith, left, ==_false (remaining_qty o) 0 more))
                          (sym (no_match_lem side o (m.order_pool.slot best)) ∙ go) d,
                    )
              ]
        ]
      ]
