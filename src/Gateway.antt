-- ===== src/Gateway.antt =====
-- include/client_gateway.h and src/client_gateway.cpp, over the messages of include/protocol.h. Log
-- lines and latency measurements are left out. What is sent goes to the end of `outbox`, and the event
-- log is the bytes that were written to it.
pub mod Protocol
pub mod Framing
pub mod Broadcast
pub mod Guards
pub mod Replies
pub mod Orders
pub mod Strangers
pub mod Reports
pub mod Placing
pub mod Cancelling
pub mod Advancing
pub mod Replay
pub mod Streaming
pub mod OwnSession
pub mod Isolation
pub mod Misread
pub mod Calls
use order_matching_engine.Prelude.{
  ℕ, zero, suc, ◌+◌, ◌-◌, ◌/◌, ◌<◌, ◌≡◌, Bool, true, false, not, ◌&&◌, ◌||◌, Option, none, some,
  List, [], ◌∷◌, ◌++◌, ◌==◌, ltb, leb, if◌then◌else◌, length, take, add_u64, contains, reverse,
  erase,
}
use order_matching_engine.Prelude.Bytes.{Bytes}
use order_matching_engine.Prelude.Bytes
use order_matching_engine.Prelude.Dict.{Dict}
use order_matching_engine.Prelude.Dict
use order_matching_engine.Price.{Price, zero_price}
use order_matching_engine.Types.{
  OrderId, Symbol, Quantity, OrderSide, buy, sell, OrderType, limit, market, new, Order, Trade,
  OrderPtr, L2Quote, is_buy, is_filled, reduce_quantity,
}
use order_matching_engine.Book.{OrderBook, get_l2_quote, get_order_by_id}
use order_matching_engine.Engine.{
  MatchingEngine, process_new_order, cancel_engine_order, get_order_book,
}
use Protocol.{
  MessageType, NewOrderRequest, OrderCancelRequest, SubscriptionRequest, ExecutionReport,
  TradeUpdate, MarketDataSnapshot, Packet, strncpy,
}

-- `Session`; its field `fd` is never read.
pub record Session : Type 0 where
  pub logged_in : Bool
  pub user_id : ℕ
  pub buffer : Bytes

abbrev pub new_session : Session
new_session = record { logged_in = false; user_id = 0; buffer = [] }

pub record ClientGateway : Type 0 where
  pub engine : MatchingEngine
  pub sessions : Dict Session
  pub subscriptions : List (Symbol × List ℕ)
  pub log_is_open : Bool
  pub event_log : Bytes
  pub outbox : List (ℕ × Packet)

-- `isspace` of the C locale.
abbrev is_space : ℕ → Bool
is_space c = c == 32 || leb 9 c && leb c 13

abbrev remove_nulls : Bytes → Bytes
remove_nulls [] = []
remove_nulls (c ∷ cs) = if c == 0 then remove_nulls cs else c ∷ remove_nulls cs

-- The characters from the back on, up to the first that is no space.
abbrev drop_spaces : Bytes → Bytes
drop_spaces [] = []
drop_spaces (c ∷ cs) = if is_space c then drop_spaces cs else c ∷ cs

unfoldable pub clean_symbol : Bytes → Symbol
clean_symbol raw = reverse (drop_spaces (reverse (remove_nulls raw)))

-- `sessions_[fd]`, which makes a session if there is none.
unfoldable pub session_of : ℕ → ClientGateway → Session
session_of fd g = elim (Dict.lookup fd g.sessions) [ none ↦ new_session | some s ↦ s ]

abbrev pub with_session : ℕ → Session → ClientGateway → ClientGateway
with_session fd s g = record g { sessions = Dict.insert fd s g.sessions }

abbrev pub touch : ℕ → ClientGateway → ClientGateway
touch fd g = with_session fd (session_of fd g) g

abbrev pub send : ℕ → Packet → ClientGateway → ClientGateway
send fd p g = record g { outbox = g.outbox ++ (fd, p) ∷ [] }

unfoldable pub on_connection : ℕ → ClientGateway → ClientGateway
on_connection fd g = with_session fd new_session g

abbrev unsubscribe_all : ℕ → List (Symbol × List ℕ) → List (Symbol × List ℕ)
unsubscribe_all fd [] = []
unsubscribe_all fd ((symbol, fds) ∷ m) = (symbol, erase fd fds) ∷ unsubscribe_all fd m

unfoldable pub on_disconnection : ℕ → ClientGateway → ClientGateway
on_disconnection fd g = record g {
  sessions = Dict.remove fd g.sessions;
  subscriptions = unsubscribe_all fd g.subscriptions;
}

-- The text of the message, which `strncpy` fills up with zeros.
abbrev pub login_successful : Bytes
login_successful =
    b'L' ∷ b'o' ∷ b'g' ∷ b'i' ∷ b'n' ∷ b' ' ∷ b's' ∷ b'u' ∷ b'c' ∷ b'c' ∷ b'e' ∷ b's' ∷ b's' ∷ b'f'
    ∷ b'u' ∷ b'l' ∷ []

unfoldable pub handle_login : ℕ → ClientGateway → ClientGateway
handle_login fd g =
    send fd (Packet.login_response 1 login_successful)
      (with_session fd (record (session_of fd g) { logged_in = true; user_id = fd }) g)

-- `std::set<int>::insert`
abbrev insert_fd : ℕ → List ℕ → List ℕ
insert_fd fd [] = fd ∷ []
insert_fd fd (x ∷ xs) =
    if ltb fd x then fd ∷ x ∷ xs else if fd == x then x ∷ xs else x ∷ insert_fd fd xs

-- `market_data_subscriptions_[symbol]`, empty if there is none.
abbrev pub subscribers : Symbol → ClientGateway → List ℕ
subscribers symbol g = elim (Bytes.lookup symbol g.subscriptions) [ none ↦ [] | some fds ↦ fds ]

unfoldable pub handle_subscription : ℕ → SubscriptionRequest → ClientGateway → ClientGateway
handle_subscription fd req g =
    if not (session_of fd g).logged_in
    then touch fd g
    else (let symbol = clean_symbol req.symbol in
        let fds = subscribers symbol g in
        record (touch fd g) {
          subscriptions =
              Bytes.insert symbol (if req.is_subscribe == 0 then erase fd fds else insert_fd fd fds)
                g.subscriptions;
        })

-- The snapshot of a book: the five best levels of each side.
abbrev pub snapshot_of : Symbol → MatchingEngine → OrderBook → Packet
snapshot_of symbol e b =
    let quote = get_l2_quote e.order_pool.slot 5 b in
    Packet.market_data (record { symbol = strncpy symbol; bids = quote.bids; asks = quote.asks })

unfoldable pub handle_market_data : ℕ → Bytes → ClientGateway → ClientGateway
handle_market_data fd raw g =
    if not (session_of fd g).logged_in
    then touch fd g
    else elim (get_order_book (clean_symbol raw) g.engine) [
      | none ↦ touch fd g
      | some b ↦ send fd (snapshot_of (clean_symbol raw) g.engine b) (touch fd g)
    ]

-- The loop over the subscribers: those that are logged in get the packet.
unfoldable pub broadcast : List ℕ → Packet → ClientGateway → ClientGateway
broadcast [] p g = g
broadcast (fd ∷ fds) p g = broadcast fds p (elim (Dict.lookup fd g.sessions) [
  | none ↦ g
  | some s ↦ if s.logged_in then send fd p g else g
])

unfoldable pub broadcast_market_data : Symbol → ClientGateway → ClientGateway
broadcast_market_data symbol g = elim (Bytes.lookup symbol g.subscriptions) [
  | none ↦ g
  | some fds ↦ elim (get_order_book symbol g.engine) [
    | none ↦ g
    | some b ↦ broadcast fds (snapshot_of symbol g.engine b) g
  ]
]

unfoldable pub broadcast_trade_update : ℕ → Trade → ClientGateway → ClientGateway
broadcast_trade_update now_ms t g = elim (Bytes.lookup t.symbol g.subscriptions) [
  | none ↦ g
  | some fds ↦
      broadcast fds
        (Packet.trade_update (record {
          symbol = strncpy t.symbol;
          price = t.price;
          quantity = t.quantity;
          timestamp = now_ms;
          make_side = 0;
        }))
        g
]
