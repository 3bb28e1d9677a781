-- ===== src/Tests/ServerTests.antt =====
-- The order handlers of the gateway and the server's loop, over the gateway of GatewayTests.
use order_matching_engine.Prelude.{
  ℕ, suc, ◌≡◌, ◌≢◌, refl, sym, subst, Option, none, some, List, [], ◌∷◌, ◌++◌, arith, true, false,
}
use order_matching_engine.Prelude.Bytes.{Bytes, lookup-insert_self}
use order_matching_engine.Types.{Trade}
use order_matching_engine.Engine.{get_order_book}
use order_matching_engine.Engine.Route.{IsAcceptable}
use order_matching_engine.Gateway.Guards.{IsIgnored}
use order_matching_engine.Gateway.{
  session_of, ClientGateway, handle_login, touch, with_session, clean_symbol,
}
use order_matching_engine.Gateway.Protocol.{
  MessageType, message_type, little_endian, read_new_order,
}
use order_matching_engine.Gateway.Framing.{process_all, on_message, serve, next_packet}
use order_matching_engine.Gateway.Replies.{ok, ◌>>=◌, c_string, order_of}
use order_matching_engine.Gateway.Orders.{
  process_packet, send_reports, handle_new_order, handle_order_cancel, replay_events, receive,
}
use order_matching_engine.Gateway.Strangers.{process_all-IsIgnored}
use order_matching_engine.Gateway.Reports.{Reports, send_reports-Reports}
use order_matching_engine.Gateway.Placing.{Placed, handle_new_order-Placed}
use order_matching_engine.Gateway.Cancelling.{Withdrawn, handle_order_cancel-Withdrawn}
use order_matching_engine.Gateway.Replay.{live, replay_events-live}
use order_matching_engine.Gateway.Streaming.{on_message-append}
use order_matching_engine.Gateway.OwnSession.{IsOwn, has_session}
use order_matching_engine.Gateway.Isolation.{receive-IsOwn}
use order_matching_engine.TcpServer.{Round, run_round, start, started, next, bytes}
use order_matching_engine.TcpServer.Calls.{gateway_calls}
use order_matching_engine.TcpServer.Sessions.{Agrees}
use order_matching_engine.Engine.{new_engine}
use order_matching_engine.Config.{Config, default_config, parse_args}
use order_matching_engine.Logger.{new_logger, set_min_level_named}
use order_matching_engine.Main.{boot, new_gateway, listening, boot-Agrees}
use order_matching_engine.Tests.{
  acme, one_dollar, bid, book, engine, engine-IsEngine, bid-IsAcceptable,
}
use order_matching_engine.Gateway.Misread.{IsMixed, misread, replay_events-IsMixed}
use order_matching_engine.Gateway.Orders.{handle_new_order_internal}
use order_matching_engine.Gateway.Replies.{◌>>=◌}
use order_matching_engine.Gateway.Calls.{Called}
use order_matching_engine.Main.Running.{boot-Called}
use order_matching_engine.Engine.Times.Clocks.{SameButTimes}
use order_matching_engine.Prelude.{◌+◌}
use order_matching_engine.Tests.GatewayTests.{gateway, arrived, more, stranger}

abbrev zeros : Bytes
zeros = 0 ∷ 0 ∷ 0 ∷ 0 ∷ 0 ∷ 0 ∷ 0 ∷ []

-- The buy order of Tests as a packet: header, id, user, symbol, side, type, price and quantity.
abbrev placing : Bytes
placing =
    (0 ∷ 0 ∷ 78 ∷ 49 ∷ 0 ∷ [])
    ++ ((2 ∷ zeros)
        ++ ((7 ∷ zeros)
            ++ ((65 ∷ 0 ∷ 0 ∷ zeros)
                ++ ((0 ∷ 2 ∷ []) ++ ((0 ∷ 0 ∷ 0 ∷ 0 ∷ 0 ∷ 0 ∷ 240 ∷ 63 ∷ []) ++ (8 ∷ zeros))))))

-- The sell order of Tests is cancelled.
abbrev cancelling : Bytes
cancelling =
    (0 ∷ 0 ∷ 67 ∷ 32 ∷ 0 ∷ [])
    ++ ((1 ∷ zeros) ++ ((7 ∷ zeros) ++ ((65 ∷ 0 ∷ 0 ∷ zeros) ++ (1 ∷ []))))

placing-bid : order_of (read_new_order placing) ≡ bid
unfolding read_new_order little_endian clean_symbol
placing-bid = refl

placing-type : message_type placing ≡ MessageType.new_order
unfolding little_endian
placing-type = refl

book-found : get_order_book acme engine ≡ some book
unfolding get_order_book
book-found = lookup-insert_self acme book []

no_login : message_type placing ≢ MessageType.login_request
unfolding little_endian
no_login h = cc

process_all-IsIgnored_example :
    (g' : ClientGateway) × (process_all
        (λ packet r. r >>= process_packet (λ n. n) (λ n. n) 3 5 packet)
        (placing ∷ [])
        (ok gateway)
      ≡ ok g')
    × IsIgnored 5 gateway g'
process_all-IsIgnored_example =
    process_all-IsIgnored (λ n. n) (λ n. n) 3 5 (placing ∷ []) gateway stranger (no_login, tt)

name-read : c_string (read_new_order placing).symbol ≡ ok acme
unfolding read_new_order little_endian c_string
name-read = refl

abbrev trade : Trade
trade = record {
  buy_order_id = 2;
  buy_user_id = 7;
  sell_order_id = 1;
  sell_user_id = 7;
  symbol = acme;
  price = one_dollar;
  quantity = 5;
  timestamp = 0;
}

send_reports-Reports_example :
    Reports
      (λ n. n)
      (λ n. n)
      3
      4
      (read_new_order placing)
      acme
      book
      bid
      (trade ∷ [])
      gateway
      (send_reports (λ n. n) (λ n. n) 3 4 (read_new_order placing) bid (trade ∷ []) gateway)
send_reports-Reports_example =
    send_reports-Reports (λ n. n) (λ n. n) 3 4 (read_new_order placing) acme book bid (trade ∷ [])
      gateway name-read book-found (omega arith) (omega arith)

name-cleaned :
    c_string (read_new_order placing).symbol ≡ ok (clean_symbol (read_new_order placing).symbol)
unfolding read_new_order little_endian c_string clean_symbol
name-cleaned = refl

known : (session_of 4 gateway).logged_in ≡ true
unfolding session_of
known = refl

handle_new_order-Placed_example :
    (trades : List Trade) × (g' : ClientGateway) × (handle_new_order
        (λ n. n)
        (λ n. n)
        3
        4
        placing
        gateway
      ≡ ok g')
    × Placed (λ n. n) 3 4 placing gateway trades g'
handle_new_order-Placed_example =
    handle_new_order-Placed (λ n. n) (λ n. n) 3 4 placing gateway known engine-IsEngine
      (subst (λ o. IsAcceptable 3 o engine.order_books) (sym placing-bid) bid-IsAcceptable)
      name-cleaned

handle_order_cancel-Withdrawn_example :
    Withdrawn 4 cancelling gateway (handle_order_cancel 4 cancelling gateway)
handle_order_cancel-Withdrawn_example =
    handle_order_cancel-Withdrawn 4 cancelling gateway known engine-IsEngine

-- The gateway when the order was placed.
abbrev placed : ClientGateway
placed = handle_new_order-Placed_example.1

placed-live : live (λ n. n) (λ n. n) 3 4 (placing ∷ []) gateway ≡ ok placed
placed-live = rw handle_new_order-Placed_example.2 refl

-- The clock of the replay is a year ahead.
abbrev later : ℕ → ℕ
later n = n + 31536000

replay_events-live_example :
    (r' : ClientGateway) × (replay_events later later 3 (some placed.event_log) gateway ≡ ok r')
    × SameButTimes r'.engine placed.engine
replay_events-live_example =
    replay_events-live (λ n. n) (λ n. n) later later 3 4 (placing ∷ []) gateway placed gateway known
      refl refl (refl, tt) (record { pool = refl; books = refl; history = refl; stats = refl })
      placed-live

first_piece : on_message (λ (p : Bytes) (n : ℕ). suc n) 4 arrived [] 0 ≡ some (arrived, 0)
unfolding on_message serve next_packet little_endian
first_piece = refl

on_message-append_example :
    on_message (λ (p : Bytes) (n : ℕ). suc n) 8 (arrived ++ more) [] 0
    ≡ on_message (λ (p : Bytes) (n : ℕ). suc n) 9 more arrived 0
on_message-append_example =
    on_message-append (λ (p : Bytes) (n : ℕ). suc n) 4 8 9 [] arrived more arrived 0 0 first_piece
      (omega arith) (omega arith)

abbrev login : Bytes
login = 0 ∷ 0 ∷ 76 ∷ 5 ∷ 0 ∷ []

abbrev logged_in : ClientGateway
logged_in =
    let g = handle_login 5 (touch 5 gateway) in
    with_session 5 (record (session_of 5 g) { buffer = [] }) g

login-received : receive (λ n. n) (λ n. n) 3 6 5 login gateway ≡ ok logged_in
unfolding receive on_message serve next_packet little_endian process_packet session_of
login-received = refl

receive-IsOwn_example : IsOwn 5 gateway logged_in × (has_session 5 logged_in ≡ true)
receive-IsOwn_example = receive-IsOwn (λ n. n) (λ n. n) 3 5 6 login gateway logged_in login-received

-- A client connects and sends its login in the same round.
abbrev first_round : Round
first_round = record {
  activity_failed = false;
  server_is_set = true;
  is_set = λ fd. true;
  accepted = some 4;
  received = λ fd. bytes login;
}

-- The program without arguments and without an event file.
abbrev first_gateway : ClientGateway
first_gateway = new_gateway (new_engine bid 100000) none

abbrev defaults : Config ℕ
defaults = default_config 8080

abbrev number_of : Bytes → Option ℕ
number_of text = some (little_endian text)

booted :
    boot (λ n. n) (λ n. n) 3 number_of 8080 true bid none []
    ≡ listening defaults
        (set_min_level_named defaults.log_level (new_logger true))
        (ok first_gateway)
unfolding boot parse_args
booted = refl

boot-Agrees_example :
    Agrees
      (λ n. n)
      (λ n. n)
      3
      (run_round
        (gateway_calls (λ n. n) (λ n. n) 3)
        first_round
        (start (gateway_calls (λ n. n) (λ n. n) 3) (ok first_gateway)))
boot-Agrees_example =
    boot-Agrees (λ n. n) (λ n. n) 3 number_of 8080 true bid none [] defaults
      (set_min_level_named defaults.log_level (new_logger true)) first_gateway _ booted
      (next first_round started (λ fd _. refl))

-- The sell order was cancelled before the buy order was placed.
replay_events-IsMixed_example :
    (replay_events (λ n. n) (λ n. n) 3 (some (cancelling ++ placing)) gateway ≡ (
      handle_new_order_internal
        (λ n. n)
        (λ n. n)
        3
        0
        (misread cancelling placing refl refl)
        true
        gateway
      >>= ok))
    × IsMixed cancelling placing refl refl
replay_events-IsMixed_example =
    replay_events-IsMixed cancelling placing refl refl (λ n. n) (λ n. n) 3 gateway

boot-Called_example :
    Called
      (λ n. n)
      (λ n. n)
      3
      (new_engine bid 100000)
      (run_round
        (gateway_calls (λ n. n) (λ n. n) 3)
        first_round
        (start (gateway_calls (λ n. n) (λ n. n) 3) (ok first_gateway))).state
boot-Called_example =
    boot-Called (λ n. n) (λ n. n) 3 number_of 8080 true bid none [] defaults
      (set_min_level_named defaults.log_level (new_logger true)) (ok first_gateway) _ booted
      (next first_round started (λ fd _. refl))
