-- ===== src/Gateway/Advancing.antt =====
-- ClientGateway::handleNewOrderInternal (src/client_gateway.cpp): how it advances the engine.
use order_matching_engine.Prelude.{
  ℕ, ◌≡◌, refl, sym, ap, ◌∙◌, true, false, Option, none, some, List, [], ◌∷◌, ◌++◌, length,
}
use order_matching_engine.Types.{Order, Trade, reduce_quantity}
use order_matching_engine.Engine.{MatchingEngine, process_new_order}
use order_matching_engine.Gateway.Protocol.{Packet, NewOrderRequest}
use order_matching_engine.Gateway.{ClientGateway, send, broadcast_trade_update}
use order_matching_engine.Gateway.Broadcast.{sent, sent-nil}
use order_matching_engine.Gateway.Replies.{
  ok, >>=-eq-ok, ok-inj, fault-ne-ok, order_of, maker_filled, maker_report, taker_report,
}
use order_matching_engine.Gateway.Orders.{
  send_reports, report_all, after_processing, handle_new_order_internal,
}
use order_matching_engine.Gateway.Reports.{market_data-Spreads, trade_update-Spreads, sent-sent}

-- A gateway that only sent packets.
abbrev pub OnlySent : ClientGateway → ClientGateway → Type 0
OnlySent g g' = (ps : List (ℕ × Packet)) × (g' ≡ sent ps g)

trans-OnlySent :
    (g : ClientGateway) {g1 g2 : ClientGateway} → OnlySent g g1 → OnlySent g1 g2 → OnlySent g g2
trans-OnlySent g (ps, a) (qs, b) = (ps ++ qs, b ∙ ap (sent qs) a ∙ sent-sent ps qs g)

module _ (clock wall : ℕ → ℕ) (fuel fd : ℕ) where
  send_reports-OnlySent :
      (req : NewOrderRequest) (o : Order) (ts : List Trade) (g g' : ClientGateway)
      → send_reports clock wall fuel fd req o ts g ≡ ok g'
      → OnlySent g g'
  unfolding send_reports
  send_reports-OnlySent req o [] g g' h = ([], sym (ok-inj h) ∙ sent-nil g)
  send_reports-OnlySent req o (t ∷ ts) g g' h =
      let o' = reduce_quantity o t.quantity in
      let g1 = send fd (Packet.execution_report (taker_report o' t)) g in
      let (filled, _, next) = >>=-eq-ok _ (maker_filled req t g1.engine) h in
      let g2 = send fd (Packet.execution_report (maker_report o' t filled)) g1 in
      let (spread, is, _) = trade_update-Spreads fd (wall (length g2.outbox)) t g2 in
      trans-OnlySent g (_, refl)
        (trans-OnlySent g1 (_, refl)
          (trans-OnlySent g2 (spread, is)
            (send_reports-OnlySent req o' ts (broadcast_trade_update (wall (length g2.outbox)) t g2)
              g' next)))

  report_all-OnlySent :
      (req : NewOrderRequest) (ts : List Trade) (g g' : ClientGateway)
      → report_all clock wall fuel fd req ts g ≡ ok g'
      → OnlySent g g'
  unfolding report_all
  report_all-OnlySent req [] g g' h = (_, sym (ok-inj h))
  report_all-OnlySent req (t ∷ ts) g g' h = send_reports-OnlySent req (order_of req) (t ∷ ts) g g' h

  -- A live order leaves the engine that its processing gives, and so does a replayed one.
  module _ (req : NewOrderRequest) where
    abbrev pub Advances : ClientGateway → ClientGateway → Type 0
    Advances g g' =
        (trades : List Trade) × (e : MatchingEngine) × (process_new_order clock fuel (order_of req)
            g.engine
          ≡ some (trades, e))
        × OnlySent (record g { engine = e }) g'

    pub live-Advances :
        (g g' : ClientGateway)
        → handle_new_order_internal clock wall fuel fd req false g ≡ ok g'
        → Advances g g'
    unfolding handle_new_order_internal
    live-Advances g g' h = go (process_new_order clock fuel (order_of req) g.engine) refl h
      where
        go :
            (r : Option (List Trade × MatchingEngine))
            → process_new_order clock fuel (order_of req) g.engine ≡ r
            → after_processing clock wall fuel fd req false g r ≡ ok g'
            → Advances g g'
        go none is h = absurd (fault-ne-ok h)
        go (some (trades, e)) is h =
            let g0 : ClientGateway = record g { engine = e } in
            let (g1, reported, next) =
              >>=-eq-ok _ (report_all clock wall fuel fd req trades g0) h in
            let (qs, spread, _) = market_data-Spreads fd (order_of req).symbol g1 in
            (
              trades,
              e,
              is,
              trans-OnlySent g0 (report_all-OnlySent req trades g0 g1 reported)
                  (qs, sym (ok-inj next) ∙ spread),
            )

    pub replay_advances :
        (user : ℕ) (g : ClientGateway) (trades : List Trade) (e : MatchingEngine)
        → process_new_order clock fuel (order_of req) g.engine ≡ some (trades, e)
        → handle_new_order_internal clock wall fuel user req true g ≡ ok (record g { engine = e })
    unfolding handle_new_order_internal
    replay_advances user g trades e is = rw (is, handle_new_order_internal) refl
