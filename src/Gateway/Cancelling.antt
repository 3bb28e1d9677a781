-- ===== src/Gateway/Cancelling.antt =====
-- ClientGateway::handleOrderCancel (src/client_gateway.cpp) for a client that is logged in.
use mathlib.Core.List.{append-nil}
use order_matching_engine.Prelude.{
  ℕ, ◌≡◌, refl, ap, ◌∙◌, true, Option, none, some, List, [], ◌∷◌, ◌++◌, if◌then◌else◌, take, arith,
  inl, inr, sym, subst,
}
use order_matching_engine.Prelude.Bytes.{Bytes}
use order_matching_engine.Types.{OrderId, OrderSide, buy, sell, is_buy, Symbol, Order, OrderPtr}
use order_matching_engine.Engine.{MatchingEngine, cancel_engine_order}
use order_matching_engine.Engine.Books.{IsEngine}
use order_matching_engine.Engine.Cancel.{order_at, EngineCancels, cancel_engine_order-EngineCancels}
use order_matching_engine.Gateway.Protocol.{
  Packet, ExecutionReport, OrderCancelRequest, read_cancel, cancel_size,
}
use order_matching_engine.Gateway.{ClientGateway, session_of, touch, clean_symbol}
use order_matching_engine.Gateway.Broadcast.{sent}
use order_matching_engine.Gateway.Replies.{cancel_report, side_code}
use order_matching_engine.Gateway.Orders.{log_bytes, handle_order_cancel}
use order_matching_engine.Gateway.Reports.{reports_to, reports_to-append, market_data-Spreads}

-- The order in a slot, if a slot is given.
abbrev pub order_in : MatchingEngine → Option OrderPtr → Option Order
order_in e none = none
order_in e (some p) = some (e.order_pool.slot p)

found_is :
    {id : OrderId} {symbol : Symbol} {e : MatchingEngine} {r : Option Order × MatchingEngine}
    → EngineCancels id symbol e r
    → r.0 ≡ order_in e (order_at symbol id e)
found_is {id} {symbol} {e} c = elim c.result [
  | inl (nothing, unlisted, _) ↦ nothing ∙ ap (order_in e) (sym unlisted)
  | inr (p, found, listed, _, _) ↦ found ∙ ap (order_in e) (sym listed)
]

one_report :
    (fd : ℕ) (r : ExecutionReport) → reports_to fd ((fd, Packet.execution_report r) ∷ []) ≡ r ∷ []
one_report fd r = ground arith

-- What a report says of the order that was listed, or that none was.
abbrev pub Tells : ExecutionReport → MatchingEngine → Option OrderPtr → Type 0
Tells r e none = (r.status ≡ 4) × (r.quantity ≡ 0) × (r.filled_quantity ≡ 0)
Tells r e (some p) =
    let o = e.order_pool.slot p in
    (r.status ≡ 3)
    × (r.side ≡ (if is_buy o.side then 0 else 1))
    × (r.price ≡ o.price)
    × (r.quantity ≡ o.quantity)
    × (r.filled_quantity ≡ o.quantity_filled)

cancel_report-Tells :
    (req : OrderCancelRequest) (symbol : Symbol) (e : MatchingEngine) (found : Option OrderPtr)
    → Tells (cancel_report req symbol (order_in e found)) e found
cancel_report-Tells req symbol e none = (refl, refl, refl)
cancel_report-Tells req symbol e (some p) =
    (refl, of_side (e.order_pool.slot p).side, refl, refl, refl)
  where
    of_side : (side : OrderSide) → side_code side ≡ (if is_buy side then 0 else 1)
    of_side buy = refl
    of_side sell = refl

-- What a cancel request does: the order that its symbol's book listed under its id is reported, with
-- status 3, or that there is none, with status 4; the id is listed no more, and the engine is well
-- formed.
pub record Withdrawn (fd : ℕ) (packet : Bytes) (g g' : ClientGateway) : Type 0 where
  pub engine : IsEngine g'.engine
  pub gone :
      let req = read_cancel packet in
      order_at (clean_symbol req.symbol) req.client_order_id g'.engine ≡ none
  pub logged :
      g'.event_log ≡ (if g.log_is_open then g.event_log ++ take cancel_size packet else g.event_log)
  pub same_subscriptions : g'.subscriptions ≡ g.subscriptions
  pub same_sessions : g'.sessions ≡ (touch fd g).sessions
  pub reported :
      let req = read_cancel packet in
      let symbol = clean_symbol req.symbol in
      reports_to fd g'.outbox
      ≡ reports_to fd g.outbox
        ++ cancel_report req symbol
            (order_in g.engine (order_at symbol req.client_order_id g.engine))
          ∷ []
  pub tells :
      let req = read_cancel packet in
      let symbol = clean_symbol req.symbol in
      let found = order_at symbol req.client_order_id g.engine in
      Tells (cancel_report req symbol (order_in g.engine found)) g.engine found

-- When a client that is logged in cancels an order in a well-formed engine, the book of the symbol
-- lists the id no more and the engine stays well formed, the request is logged if the log is open,
-- and exactly one report goes to the client: that the order which was listed is cancelled, with its
-- side, its price, its quantity and what of it was filled, or that there was none.
pub handle_order_cancel-Withdrawn :
    (fd : ℕ) (packet : Bytes) (g : ClientGateway)
    → (session_of fd g).logged_in ≡ true
    → IsEngine g.engine
    → Withdrawn fd packet g (handle_order_cancel fd packet g)
unfolding handle_order_cancel session_of
handle_order_cancel-Withdrawn fd packet g logged v =
    let req = read_cancel packet in
    let symbol = clean_symbol req.symbol in
    let r = cancel_engine_order req.client_order_id symbol g.engine in
    let c = cancel_engine_order-EngineCancels req.client_order_id symbol g.engine v in
    let g1 : ClientGateway = record (log_bytes cancel_size packet (touch fd g)) { engine = r.1 } in
    let reports : List (ℕ × Packet) =
      (fd, Packet.execution_report (cancel_report req symbol r.0)) ∷ [] in
    let (qs, spread, none_there) = market_data-Spreads fd symbol (sent reports g1) in
    let is : handle_order_cancel fd packet g ≡ sent qs (sent reports g1) =
      rw (logged, handle_order_cancel) spread in
    subst (Withdrawn fd packet g) (sym is) (record {
      engine = c.engine;
      gone = c.not_found;
      logged = refl;
      same_subscriptions = refl;
      same_sessions = refl;
      reported =
          reports_to-append fd (g.outbox ++ reports) qs
          ∙ (λ i. reports_to-append fd g.outbox reports i ++ none_there i)
          ∙ append-nil (reports_to fd g.outbox ++ reports_to fd reports)
          ∙ ap (λ (l : List ExecutionReport). reports_to fd g.outbox ++ l)
              (one_report fd (cancel_report req symbol r.0)
                ∙ ap (λ (o : Option Order). cancel_report req symbol o ∷ []) (found_is c));
      tells =
          cancel_report-Tells req symbol g.engine (order_at symbol req.client_order_id g.engine);
    })
