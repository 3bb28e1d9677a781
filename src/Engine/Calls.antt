-- ===== src/Engine/Calls.antt =====
-- MatchingEngine (src/matching_engine.cpp): sequences of calls, whatever orders are placed, and the
-- market of Engine/Exchange after them.
use order_matching_engine.Prelude.{ℕ, ◌≡◌, some, List}
use order_matching_engine.Types.{OrderId, Symbol, Order, Trade}
use order_matching_engine.Engine.{
  MatchingEngine, new_engine, process_new_order, cancel_engine_order,
}
use order_matching_engine.Engine.Route.{IsAcceptable}
use order_matching_engine.Engine.Exchange.{no_offers, submit, withdraw_from}
use order_matching_engine.Engine.Exchange.Routing.{turned_away}
use order_matching_engine.Engine.Exchange.History.{
  Market, change, History, opened, placed, cancelled, Shows, History-Shows,
}

-- What the engine `e` can become by calls of `process_new_order` that return and of `cancel_order`.
pub data Calls (clock : ℕ → ℕ) (fuel : ℕ) (e : MatchingEngine) : MatchingEngine → Type 0 where
  no_calls : Calls clock fuel e e
  placing :
      {e1 e2 : MatchingEngine} (o : Order) (trades : List Trade)
      → Calls clock fuel e e1
      → process_new_order clock fuel o e1 ≡ some (trades, e2)
      → Calls clock fuel e e2
  cancelling :
      {e1 : MatchingEngine} (id : OrderId) (symbol : Symbol)
      → Calls clock fuel e e1
      → Calls clock fuel e (cancel_engine_order id symbol e1).1

module _ (clock : ℕ → ℕ) (fuel : ℕ) where
  -- The engine could accept each order when it was placed.
  abbrev pub AllAcceptable :
      {e : MatchingEngine} (e' : MatchingEngine) → Calls clock fuel e e' → Type 0
  AllAcceptable _ no_calls = Unit
  AllAcceptable _ (placing {e1} o trades calls ran) =
      IsAcceptable fuel o e1.order_books × AllAcceptable e1 calls
  AllAcceptable _ (cancelling {e1} id symbol calls) = AllAcceptable e1 calls

  -- The market that the calls make of one without offers.
  unfoldable pub market_after :
      {e : MatchingEngine} (e' : MatchingEngine) → Calls clock fuel e e' → Market
  market_after _ no_calls = λ symbol. no_offers
  market_after _ (placing {e1} o trades calls ran) =
      change o.symbol
        (submit (turned_away o e1 e1.order_pool.free_indices) o (market_after e1 calls o.symbol)).1
        (market_after e1 calls)
  market_after _ (cancelling {e1} id symbol calls) =
      change symbol (withdraw_from id (market_after e1 calls symbol)) (market_after e1 calls)

  module _ (blank : Order) (pool_size : ℕ) where
    Calls-History :
        (e' : MatchingEngine) (calls : Calls clock fuel (new_engine blank pool_size) e')
        → AllAcceptable e' calls
        → History clock blank pool_size e' (market_after e' calls)
    unfolding market_after
    Calls-History _ no_calls acceptable = opened
    Calls-History _ (placing {e1} o trades calls ran) (now, before) =
        placed fuel o trades (Calls-History e1 calls before) now ran
    Calls-History _ (cancelling {e1} id symbol calls) acceptable =
        cancelled id symbol (Calls-History e1 calls acceptable)

    -- After any sequence of calls that a new engine has had, of `process_new_order` and of
    -- `cancel_order`, when it could accept each order that was placed: the engine is well formed,
    -- and its books have for each symbol the offers that the market of Engine/Exchange has after
    -- the same calls. There each order that is let in takes offers of the other side by price, then
    -- by age, what is left of it waits by price, then by age, and a cancelled order leaves.
    pub Calls-Shows :
        (e' : MatchingEngine) (calls : Calls clock fuel (new_engine blank pool_size) e')
        → AllAcceptable e' calls
        → Shows e' (market_after e' calls)
    Calls-Shows e' calls acceptable =
        History-Shows clock blank pool_size e' _ (Calls-History e' calls acceptable)
