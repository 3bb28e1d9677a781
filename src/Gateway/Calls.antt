-- ===== src/Gateway/Calls.antt =====
-- ClientGateway (src/client_gateway.cpp) changes the matching engine by calls of process_new_order and
-- cancel_order only.
pub mod Received
use order_matching_engine.Prelude.{
  ℕ, ◌≡◌, refl, sym, subst, Bool, true, false, not, Option, none, some, List, [], ◌∷◌, ◌++◌,
  if◌then◌else◌, length, arith,
}
use order_matching_engine.Prelude.Bytes.{Bytes}
use order_matching_engine.Types.{Trade}
use order_matching_engine.Engine.{MatchingEngine, process_new_order, cancel_engine_order}
use order_matching_engine.Engine.Calls.{Calls, placing, cancelling}
use order_matching_engine.Gateway.Protocol.{
  MessageType, NewOrderRequest, SubscriptionRequest, Packet, message_type, read_new_order,
  read_cancel, read_symbol, read_subscription, new_order_size, cancel_size, market_data_size,
  subscription_size,
}
use order_matching_engine.Gateway.{
  ClientGateway, session_of, touch, send, clean_symbol, handle_login, handle_market_data,
  handle_subscription, broadcast_market_data,
}
use order_matching_engine.Gateway.Framing.{process_all, on_message}
use order_matching_engine.Gateway.Reports.{market_data-Spreads}
use order_matching_engine.Gateway.Replies.{
  Outcome, ok, fault, ◌>>=◌, ok-inj, order_of, cancel_report,
}
use order_matching_engine.Gateway.Orders.{
  log_bytes, keep_rest, after_processing, handle_new_order, handle_new_order_internal,
  handle_order_cancel, process_packet, receive, records, replay_records, replay_events,
}
use order_matching_engine.Gateway.Advancing.{live-Advances}
use order_matching_engine.Gateway.Isolation.{Ran, serve-Ran, read_through, each}

market_data-engine :
    (fd : ℕ) (raw : Bytes) (g : ClientGateway) → (handle_market_data fd raw g).engine ≡ g.engine
unfolding handle_market_data
market_data-engine fd raw g = ground arith

subscription-engine :
    (fd : ℕ) (request : SubscriptionRequest) (g : ClientGateway)
    → (handle_subscription fd request g).engine ≡ g.engine
unfolding handle_subscription
subscription-engine fd request g = ground arith

module _ (clock wall : ℕ → ℕ) (fuel : ℕ) (e : MatchingEngine) where
  -- The engine of the gateway is what calls make of `e`, unless something was undefined.
  abbrev pub Called : Outcome ClientGateway → Type 0
  Called (fault why) = Unit
  Called (ok g) = Calls clock fuel e g.engine

  same_Called : (g g' : ClientGateway) → g ≡ g' → Called (ok g) → Called (ok g')
  same_Called g g' is calls = subst (λ (x : ClientGateway). Calls clock fuel e x.engine) is calls

  cancel-Called :
      (fd : ℕ) (packet : Bytes) (g : ClientGateway)
      → Called (ok g)
      → Called (ok (handle_order_cancel fd packet g))
  unfolding handle_order_cancel
  cancel-Called fd packet g calls = go (session_of fd g).logged_in
    where
      symbol : Bytes
      symbol = clean_symbol (read_cancel packet).symbol

      after : ClientGateway
      after =
          let req = read_cancel packet in
          let r = cancel_engine_order req.client_order_id symbol g.engine in
          send fd (Packet.execution_report (cancel_report req symbol r.0))
            (record (log_bytes cancel_size packet (touch fd g)) { engine = r.1 })

      go :
          (logged_in : Bool)
          → Called (ok (if not logged_in then touch fd g else broadcast_market_data symbol after))
      go false = calls
      go true =
          let (qs, spread, _) = market_data-Spreads fd symbol after in
          same_Called _ _ (sym spread)
            (cancelling (read_cancel packet).client_order_id symbol calls)

  live-Called :
      (fd : ℕ) (req : NewOrderRequest) (g g' : ClientGateway)
      → handle_new_order_internal clock wall fuel fd req false g ≡ ok g'
      → Called (ok g)
      → Called (ok g')
  live-Called fd req g g' h calls =
      let (trades, e', is, (ps, sent_only)) = live-Advances clock wall fuel fd req g g' h in
      same_Called _ _ (sym sent_only) (placing (order_of req) trades calls is)

  new_order-Called :
      (fd : ℕ) (packet : Bytes) (g g' : ClientGateway)
      → handle_new_order clock wall fuel fd packet g ≡ ok g'
      → Called (ok g)
      → Called (ok g')
  unfolding handle_new_order
  new_order-Called fd packet g g' h calls = go (session_of fd g).logged_in h
    where
      go :
          (b : Bool)
          → (if not b
              then ok (touch fd g)
              else handle_new_order_internal clock wall fuel fd
                  (read_new_order packet)
                  false
                  (log_bytes new_order_size packet (touch fd g)))
            ≡ ok g'
          → Called (ok g')
      go false h = same_Called _ _ (ok-inj h) calls
      go true h = live-Called fd (read_new_order packet) _ g' h calls

  pub packet-Called :
      (fd : ℕ) (packet : Bytes) (g g' : ClientGateway) (type : MessageType)
      → message_type packet ≡ type
      → process_packet clock wall fuel fd packet g ≡ ok g'
      → Called (ok g)
      → Called (ok g')
  unfolding process_packet handle_login
  packet-Called fd packet g g' MessageType.login_request is h calls =
      let h' : ok (handle_login fd g) ≡ ok g' = rw (is, process_packet) at h in
      same_Called _ _ (ok-inj h') calls
  packet-Called fd packet g g' MessageType.new_order is h calls =
      new_order-Called fd packet g g'
        (read_through clock wall fuel fd new_order_size packet g g' _
          (rw (is, process_packet) at h))
        calls
  packet-Called fd packet g g' MessageType.market_data_request is h calls =
      same_Called _ _
        (ok-inj (
          read_through clock wall fuel fd market_data_size packet g g' _
            (rw (is, process_packet) at h)))
        (subst (Calls clock fuel e) (sym (market_data-engine fd (read_symbol packet) g)) calls)
  packet-Called fd packet g g' MessageType.subscription_request is h calls =
      same_Called _ _
        (ok-inj (
          read_through clock wall fuel fd subscription_size packet g g' _
            (rw (is, process_packet) at h)))
        (subst (Calls clock fuel e) (sym (subscription-engine fd (read_subscription packet) g))
          calls)
  packet-Called fd packet g g' MessageType.order_cancel is h calls =
      same_Called _ _
        (ok-inj (
          read_through clock wall fuel fd cancel_size packet g g' _ (rw (is, process_packet) at h)))
        (cancel-Called fd packet g calls)
  packet-Called fd packet g g' MessageType.unknown is h calls =
      let h' : ok g ≡ ok g' = rw (is, process_packet) at h in same_Called _ _ (ok-inj h') calls
