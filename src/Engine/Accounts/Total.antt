-- ===== src/Engine/Accounts/Total.antt =====
-- The slots of the pool of a MatchingEngine (src/matching_engine.cpp) over any sequence of its calls.
use order_matching_engine.Prelude.{ℕ, ◌+◌, ◌≡◌, sym, subst, ◌∙◌, some, List, some-inj, arith}
use order_matching_engine.Types.{Order, Trade}
use order_matching_engine.Pool.{available}
use order_matching_engine.Pool.Laws.{init-IsValid}
use order_matching_engine.Engine.{MatchingEngine, new_engine, process_new_order}
use order_matching_engine.Engine.Route.{IsAcceptable}
use order_matching_engine.Engine.Books.{IsEngine}
use order_matching_engine.Engine.Exchange.History.{
  Market, History, opened, placed, cancelled, History-Shows,
}
use order_matching_engine.Engine.Accounts.{resting, held, lost}
use order_matching_engine.Engine.Accounts.Placing.{process_new_order-Accounts}
use order_matching_engine.Engine.Accounts.Cancelling.{held-cancel_engine_order}

module _ (clock : ℕ → ℕ) (blank : Order) (pool_size : ℕ) where
  -- The slots that the calls of a history have lost.
  unfoldable pub lost_in :
      (e : MatchingEngine) (market : Market) → History clock blank pool_size e market → ℕ
  lost_in _ _ opened = 0
  lost_in _ _ (placed {e} {e'} {market} fuel o trades h w ran) =
      lost o e e.order_pool.free_indices trades + lost_in e market h
  lost_in _ _ (cancelled {e} {market} id symbol h) = lost_in e market h

  held-placed :
      (fuel : ℕ) (o : Order) (trades : List Trade) (e e' : MatchingEngine)
      → IsEngine e
      → IsAcceptable fuel o e.order_books
      → process_new_order clock fuel o e ≡ some (trades, e')
      → held e' + lost o e e.order_pool.free_indices trades ≡ held e
  held-placed fuel o trades e e' v w ran =
      let (ts1, e1, is, sum) = process_new_order-Accounts clock fuel o e v w in
      subst
        (λ (r : List Trade × MatchingEngine).
          held r.1 + lost o e e.order_pool.free_indices r.0 ≡ held e)
        (some-inj (sym is ∙ ran)) sum

  -- After any sequence of calls that a new engine has had, of `process_new_order` with orders that
  -- it can accept and of `cancel_order`, the free slots, the orders in the books and the lost slots
  -- are together as many as the pool has slots; lost is one slot for each fill-or-kill order that
  -- was valid and killed and for each market order that was traded with something left.
  pub held-lost_in :
      (e : MatchingEngine) (market : Market) (h : History clock blank pool_size e market)
      → held e + lost_in e market h ≡ pool_size
  unfolding lost_in new_engine resting available
  held-lost_in _ _ opened = let (_, free, _) = init-IsValid blank pool_size in omega (arith, free)
  held-lost_in _ _ (placed {e} {e'} {market} fuel o trades h w ran) = omega (
    arith,
    held-lost_in e market h,
    held-placed fuel o trades e e' (History-Shows clock blank pool_size e market h).engine w ran,
  )
  held-lost_in _ _ (cancelled {e} {market} id symbol h) = omega (
    arith,
    held-lost_in e market h,
    held-cancel_engine_order id symbol e (History-Shows clock blank pool_size e market h).engine,
  )
