-- ===== src/Gateway/Orders.antt =====
-- The order handlers of src/client_gateway.cpp: handleNewOrder, handleNewOrderInternal,
-- handleOrderCancel, replayEvents and processPacket. `clock` is the engine's clock; `wall n` is the
-- reading of the millisecond clock when n packets have been sent; `fuel` is for the matching loop.
-- Where the C++ is undefined, the result is a fault.
use order_matching_engine.Prelude.{
  ℕ, zero, suc, Bool, true, false, not, ◌&&◌, Option, none, some, List, [], ◌∷◌, ◌++◌, ltb,
  if◌then◌else◌, length, take,
}
use order_matching_engine.Prelude.Bytes.{Bytes}
use order_matching_engine.Types.{Order, Trade, reduce_quantity}
use order_matching_engine.Engine.{MatchingEngine, process_new_order, cancel_engine_order}
use order_matching_engine.Gateway.Protocol.{
  MessageType, NewOrderRequest, Packet, message_type, read_new_order, read_cancel, read_symbol,
  read_subscription, drop_bytes, new_order_size, cancel_size, market_data_size, subscription_size,
}
use order_matching_engine.Gateway.{
  ClientGateway, session_of, touch, with_session, send, clean_symbol, handle_login,
  handle_market_data, handle_subscription, broadcast_market_data, broadcast_trade_update,
}
use order_matching_engine.Gateway.Framing.{on_message}
use order_matching_engine.Gateway.Replies.{
  ◌>>=◌, short_packet, no_end, Outcome, ok, fault, order_of, taker_report, maker_report, new_report,
  maker_filled, cancel_report,
}

-- `event_log_.write` of the first bytes of a packet, if the log is open.
abbrev pub log_bytes : ℕ → Bytes → ClientGateway → ClientGateway
log_bytes n packet g = record g {
  event_log = if g.log_is_open then g.event_log ++ take n packet else g.event_log;
}

-- `fault` if a handler for a client that is logged in reads more bytes than the packet has.
abbrev pub reading : ℕ → ℕ → Bytes → ClientGateway → Outcome ClientGateway → Outcome ClientGateway
reading n fd packet g result =
    if (session_of fd g).logged_in && ltb (length packet) n then fault short_packet else result

unfoldable pub handle_order_cancel : ℕ → Bytes → ClientGateway → ClientGateway
handle_order_cancel fd packet g =
    if not (session_of fd g).logged_in
    then touch fd g
    else (let req = read_cancel packet in
        let symbol = clean_symbol req.symbol in
        let g1 = log_bytes cancel_size packet (touch fd g) in
        let (found, e) = cancel_engine_order req.client_order_id symbol g1.engine in
        broadcast_market_data symbol (
          send fd (Packet.execution_report (cancel_report req symbol found))
            (record g1 { engine = e })))

-- The loop of `replayEvents`: a record of 49 bytes in each round, until fewer are left.
unfoldable pub records : ℕ → Bytes → List Bytes
records zero log = []
records (suc rounds) log =
    let rest = records rounds (drop_bytes new_order_size log) in
    if ltb (length log) new_order_size then [] else take new_order_size log ∷ rest

module _ (clock wall : ℕ → ℕ) (fuel : ℕ) where
  -- The loop over the trades.
  unfoldable pub send_reports :
      ℕ → NewOrderRequest → Order → List Trade → ClientGateway → Outcome ClientGateway
  send_reports fd req o [] g = ok g
  send_reports fd req o (t ∷ ts) g =
      let o' = reduce_quantity o t.quantity in
      let g1 = send fd (Packet.execution_report (taker_report o' t)) g in
      maker_filled req t g1.engine >>= λ filled.
      let g2 = send fd (Packet.execution_report (maker_report o' t filled)) g1 in
      send_reports fd req o' ts (broadcast_trade_update (wall (length g2.outbox)) t g2)

  -- What follows a trade-less order, and what follows trades; then the market data goes out.
  unfoldable pub report_all :
      ℕ → NewOrderRequest → List Trade → ClientGateway → Outcome ClientGateway
  report_all fd req [] g = ok (send fd (Packet.execution_report (new_report (order_of req))) g)
  report_all fd req (t ∷ ts) g = send_reports fd req (order_of req) (t ∷ ts) g

  -- Behind the call of the engine.
  abbrev pub after_processing :
      ℕ
      → NewOrderRequest
      → Bool
      → ClientGateway
      → Option (List Trade × MatchingEngine)
      → Outcome ClientGateway
  after_processing fd req is_replay g none = fault no_end
  after_processing fd req is_replay g (some (trades, e)) =
      if is_replay
      then ok (record g { engine = e })
      else report_all fd req trades (record g { engine = e }) >>= λ g1.
          ok (broadcast_market_data (order_of req).symbol g1)

  unfoldable pub handle_new_order_internal :
      ℕ → NewOrderRequest → Bool → ClientGateway → Outcome ClientGateway
  handle_new_order_internal fd req is_replay g =
      after_processing fd req is_replay g (process_new_order clock fuel (order_of req) g.engine)

  unfoldable pub handle_new_order : ℕ → Bytes → ClientGateway → Outcome ClientGateway
  handle_new_order fd packet g =
      if not (session_of fd g).logged_in
      then ok (touch fd g)
      else handle_new_order_internal fd (read_new_order packet) false
          (log_bytes new_order_size packet (touch fd g))

  unfoldable pub process_packet : ℕ → Bytes → ClientGateway → Outcome ClientGateway
  process_packet fd packet g = elim (message_type packet) [
    | MessageType.login_request ↦ ok (handle_login fd g)
    | MessageType.new_order ↦ reading new_order_size fd packet g (handle_new_order fd packet g)
    | MessageType.market_data_request ↦
        reading market_data_size fd packet g (ok (handle_market_data fd (read_symbol packet) g))
    | MessageType.subscription_request ↦
        reading subscription_size fd packet g
          (ok (handle_subscription fd (read_subscription packet) g))
    | MessageType.order_cancel ↦
        reading cancel_size fd packet g (ok (handle_order_cancel fd packet g))
    | MessageType.unknown ↦ ok g
  ]

  -- What is left of the bytes goes back to the session's buffer.
  abbrev pub keep_rest : ℕ → Option (Bytes × Outcome ClientGateway) → Outcome ClientGateway
  keep_rest fd none = fault no_end
  keep_rest fd (some (rest, r)) =
      r >>= λ g. ok (with_session fd (record (session_of fd g) { buffer = rest }) g)

  -- `onMessage`: `rounds` is the fuel of its loop.
  unfoldable pub receive : ℕ → ℕ → Bytes → ClientGateway → Outcome ClientGateway
  receive rounds fd received g = keep_rest fd (
      on_message (λ packet r. r >>= process_packet fd packet) rounds received
        (session_of fd g).buffer (ok (touch fd g)))

  unfoldable pub replay_records : List Bytes → ClientGateway → Outcome ClientGateway
  replay_records [] g = ok g
  replay_records (r ∷ rs) g =
      handle_new_order_internal 0 (read_new_order r) true g >>= replay_records rs

  -- `none` is a log that cannot be opened.
  unfoldable pub replay_events : Option Bytes → ClientGateway → Outcome ClientGateway
  replay_events none g = ok g
  replay_events (some log) g = replay_records (records (length log) log) g
