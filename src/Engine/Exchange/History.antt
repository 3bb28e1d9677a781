-- ===== src/Engine/Exchange/History.antt =====
-- MatchingEngine (src/matching_engine.cpp) over any sequence of its calls, against Engine/Exchange.
use order_matching_engine.Prelude.{
  ℕ, ◌≡◌, ◌≢◌, sym, ap, subst, ◌∙◌, some, List, inl, inr, Bool-cases, some-inj, if◌then◌else◌,
}
use order_matching_engine.Prelude.Bytes.{lookup-nil, bytes_eq, bytes_eq→≡, bytes_eq-false}
use order_matching_engine.Types.{OrderId, Symbol, Order, Trade}
use order_matching_engine.Engine.{
  MatchingEngine, new_engine, process_new_order, cancel_engine_order,
}
use order_matching_engine.Engine.Books.{IsEngine, new_engine-IsEngine}
use order_matching_engine.Engine.Route.{IsAcceptable}
use order_matching_engine.Engine.Process.{process_new_order-Processed}
use order_matching_engine.Engine.Cancel.{cancel_engine_order-EngineCancels}
use order_matching_engine.Engine.Exchange.{Depth, no_offers, submit, withdraw_from}
use order_matching_engine.Engine.Exchange.Unchanged.{depth_in, depth_at}
use order_matching_engine.Engine.Exchange.Routing.{turned_away}
use order_matching_engine.Engine.Exchange.Submitting.{process_new_order-Submits}
use order_matching_engine.Engine.Exchange.Withdrawing.{cancel_engine_order-Withdraws}

-- The offers for each symbol.
abbrev pub Market : Type 0
Market = Symbol → Depth

-- A market with other offers for one symbol.
abbrev pub change : Symbol → Depth → Market → Market
change symbol d market s = if bytes_eq s symbol then d else market s

-- The calls that an engine has had since it was made, and the market that they make: `process_new_order`
-- that has returned, and `cancel_order`.
pub data History (clock : ℕ → ℕ) (blank : Order) (pool_size : ℕ)
    : MatchingEngine → Market → Type 0 where
  opened : History clock blank pool_size (new_engine blank pool_size) (λ _. no_offers)
  placed :
      {e e' : MatchingEngine} {market : Market} (fuel : ℕ) (o : Order) (trades : List Trade)
      → History clock blank pool_size e market
      → IsAcceptable fuel o e.order_books
      → process_new_order clock fuel o e ≡ some (trades, e')
      → History clock blank pool_size e' (
          change o.symbol
            (submit (turned_away o e e.order_pool.free_indices) o (market o.symbol)).1
            market)
  cancelled :
      {e : MatchingEngine} {market : Market} (id : OrderId) (symbol : Symbol)
      → History clock blank pool_size e market
      → History clock blank pool_size
          (cancel_engine_order id symbol e).1
          (change symbol (withdraw_from id (market symbol)) market)

-- The engine is well formed and has the market's offers.
pub record Shows (e : MatchingEngine) (market : Market) : Type 0 where
  pub engine : IsEngine e
  pub offers : (symbol : Symbol) → depth_at symbol e ≡ market symbol

change_lem :
    (symbol : Symbol) (d : Depth) (market : Market) (e' : MatchingEngine)
    → depth_at symbol e' ≡ d
    → ((s : Symbol) → s ≢ symbol → depth_at s e' ≡ market s)
    → (s : Symbol) → depth_at s e' ≡ change symbol d market s
change_lem symbol d market e' here elsewhere s = elim (Bool-cases (bytes_eq s symbol)) [
  | inl same ↦ rw same (ap (λ (k : Symbol). depth_at k e') (bytes_eq→≡ s symbol same) ∙ here)
  | inr other ↦ rw other (elsewhere s (bytes_eq-false s symbol other))
]

module _ (clock : ℕ → ℕ) (blank : Order) (pool_size : ℕ) where
  placed-Shows :
      (fuel : ℕ) (o : Order) (trades : List Trade) (e e' : MatchingEngine) (market : Market)
      → IsAcceptable fuel o e.order_books
      → process_new_order clock fuel o e ≡ some (trades, e')
      → Shows e market
      → Shows e' (
          change o.symbol
            (submit (turned_away o e e.order_pool.free_indices) o (market o.symbol)).1
            market)
  placed-Shows fuel o trades e e' market w ran shows =
      let killed = turned_away o e e.order_pool.free_indices in
      let (ts1, e1, is1, p) = process_new_order-Processed clock fuel o e shows.engine w in
      let (ts2, e2, is2, submitted) = process_new_order-Submits clock fuel o e shows.engine w in
      let same1 : e1 ≡ e' =
        ap (λ (x : List Trade × MatchingEngine). x.1) (some-inj (sym is1 ∙ ran)) in
      let same2 : e2 ≡ e' =
        ap (λ (x : List Trade × MatchingEngine). x.1) (some-inj (sym is2 ∙ ran)) in
      record {
        engine = subst IsEngine same1 p.engine;
        offers =
            subst
              (λ (k : MatchingEngine).
                (s : Symbol)
                → depth_at s k ≡ change o.symbol (submit killed o (market o.symbol)).1 market s)
              same2
              (change_lem o.symbol (submit killed o (market o.symbol)).1 market e2
                (submitted.offers
                  ∙ ap (λ (d : Depth). (submit killed o d).1) (shows.offers o.symbol))
                (λ s ne. submitted.others s ne ∙ shows.offers s));
      }

  -- After any sequence of calls that a new engine has had, of `process_new_order` with orders that
  -- it can accept and of `cancel_order`, the engine is well formed, and its books have for each
  -- symbol the offers that the market of Engine/Exchange has after the same calls: each order that
  -- is let in takes offers of the other side by price, then by age, what is left of it waits by
  -- price, then by age, and a cancelled order leaves.
  pub History-Shows :
      (e : MatchingEngine) (market : Market)
      → History clock blank pool_size e market
      → Shows e market
  unfolding new_engine
  History-Shows _ _ opened = record {
    engine = new_engine-IsEngine blank pool_size;
    offers =
        λ symbol. ap (depth_in (new_engine blank pool_size).order_pool.slot) (lookup-nil symbol);
  }
  History-Shows _ _ (placed {e} {e'} {market} fuel o trades h w ran) =
      placed-Shows fuel o trades e e' market w ran (History-Shows e market h)
  History-Shows _ _ (cancelled {e} {market} id symbol h) =
      let shows = History-Shows e market h in
      let gone = cancel_engine_order-Withdraws id symbol e shows.engine in
      record {
        engine = (cancel_engine_order-EngineCancels id symbol e shows.engine).engine;
        offers =
            change_lem symbol (withdraw_from id (market symbol)) market
              (cancel_engine_order id symbol e).1
              (gone.offers ∙ ap (withdraw_from id) (shows.offers symbol))
              (λ s ne. gone.others s ne ∙ shows.offers s);
      }
