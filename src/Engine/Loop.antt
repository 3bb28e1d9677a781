-- ===== src/Engine/Loop.antt =====
-- The matching loops of MatchingEngine::match_against_buy_orders and match_against_sell_orders, from
-- the first round to the last.
use order_matching_engine.Prelude.{
  ℕ, zero, suc, refl, [], ◌∷◌, arith, inl, inr, Option-cases, Bool-cases, ◌==◌, ==_iff,
}
use order_matching_engine.Types.{OrderSide, OrderPtr, remaining_qty}
use order_matching_engine.Book.{get_total_orders}
use order_matching_engine.Engine.{Matching, best_opposite, no_match, match_round, match_against}
use order_matching_engine.Engine.Removal.{IsMatching, remaining_lem}
use order_matching_engine.Engine.Round.{match_round-Rounds}
use order_matching_engine.Engine.Matched.{
  Enough, Ends, stops, continues, fuel_suffices, trade_lem, best_opposite-IsBest,
}

module _ (clock : ℕ → ℕ) (side : OrderSide) (t : OrderPtr) where
  -- With more fuel than the book has orders and one, or any for a filled order, the matching loop
  -- of a well-formed state returns. The taker is filled by the volume of the trades, each of which
  -- is for something and within its limit; nothing enters the book; free slots and orders in the
  -- book add up to as many as before; and the loop ended since the order is filled, nobody is left,
  -- or the best price is beyond the limit.
  pub match_against-Ends :
      (fuel : ℕ) (m : Matching)
      → IsMatching t m.order_pool m.book
      → Enough (m.order_pool.slot t) (get_total_orders m.book) fuel
      → Ends clock side t fuel m
  unfolding match_against
  match_against-Ends zero m v h = absurd (omega arith)
  match_against-Ends (suc fuel) m v h =
      let o = m.order_pool.slot t in
      elim (Bool-cases (remaining_qty o == 0)) [
        | inl done ↦ (
          [],
          m,
          rw (done, match_against) refl,
          stops clock side t m v (
              inl (
                omega (
                  arith,
                  remaining_lem o v.bounded v.not_over,
                  (==_iff (remaining_qty o) 0).0 done,
                  v.not_over,
                ))),
        )
        | inr more ↦ elim (Option-cases (best_opposite side m.book)) [
          | inl nobody ↦ (
            [],
            m,
            rw (more, match_against) (rw nobody refl),
            stops clock side t m v (inr (inl nobody)),
          )
          | inr (best, found) ↦ elim (Bool-cases (no_match side (m.order_pool.slot best) o)) [
            | inl beyond ↦ (
              [],
              m,
              rw (more, match_against) (rw found (rw beyond refl)),
              stops clock side t m v (inr (inr (best, found, beyond))),
            )
            | inr go ↦
                let h' = best_opposite-IsBest clock side t side m best v found in
                let r = match_round-Rounds clock t best m side v h' in
                let (q, fair) = trade_lem clock side t m best side v h' more go in
                let m1 = (match_round clock side t best m).1 in
                let (trades, m2, e, d) =
                  match_against-Ends fuel m1 r.still
                    (fuel_suffices clock side t m m1 best fuel r v more h) in
                (
                  (match_round clock side t best m).0 ∷ trades,
                  m2,
                  rw (more, match_against) (rw found (rw go (rw e refl))),
                  continues clock side t m m1 m2 best (match_round clock side t best m).0 trades
                      (rw q r) fair d,
                )
          ]
        ]
      ]
