-- ===== src/Gateway/Guards.antt =====
-- What the handlers of src/client_gateway.cpp do for a client that is not logged in, and how a client
-- gets there.
use order_matching_engine.Prelude.{ℕ, ◌≡◌, refl, ap, false, true, arith}
use order_matching_engine.Prelude.Bytes.{Bytes}
use order_matching_engine.Prelude.Dict
use order_matching_engine.Gateway.Protocol.{SubscriptionRequest}
use order_matching_engine.Gateway.{
  Session, ClientGateway, session_of, touch, with_session, new_session, on_connection, handle_login,
  handle_subscription, handle_market_data,
}

-- Nothing is sent, subscribed or logged, and the engine and the client's session are as they were.
pub record IsIgnored (fd : ℕ) (g g' : ClientGateway) : Type 0 where
  pub nothing_sent : g'.outbox ≡ g.outbox
  pub same_subscriptions : g'.subscriptions ≡ g.subscriptions
  pub same_engine : g'.engine ≡ g.engine
  pub same_log : g'.event_log ≡ g.event_log
  pub same_session : session_of fd g' ≡ session_of fd g

pub session_of-with_session :
    (fd : ℕ) (s : Session) (g : ClientGateway) → session_of fd (with_session fd s g) ≡ s
unfolding session_of
session_of-with_session fd s g =
    rw (Dict.lookup-insert fd fd s g.sessions, session_of) (ground arith)

pub touch-IsIgnored : (fd : ℕ) (g : ClientGateway) → IsIgnored fd g (touch fd g)
touch-IsIgnored fd g = record {
  nothing_sent = refl;
  same_subscriptions = refl;
  same_engine = refl;
  same_log = refl;
  same_session = session_of-with_session fd (session_of fd g) g;
}

-- For a client that is not logged in, requests for market data and subscriptions send nothing,
-- subscribe nothing and leave the engine and the client's session as they were. A new connection is
-- not logged in, and a login makes it so.
pub handlers-IsIgnored :
    (fd : ℕ) (g : ClientGateway) (raw : Bytes) (request : SubscriptionRequest)
    → (session_of fd g).logged_in ≡ false
    → IsIgnored fd g (handle_subscription fd request g)
      × IsIgnored fd g (handle_market_data fd raw g)
      × ((session_of fd (on_connection fd g)).logged_in ≡ false)
      × ((session_of fd (handle_login fd g)).logged_in ≡ true)
unfolding handle_subscription handle_market_data on_connection handle_login session_of
handlers-IsIgnored fd g raw request out = (
  rw (out, handle_subscription) (touch-IsIgnored fd g),
  rw (out, handle_market_data) (touch-IsIgnored fd g),
  ap (λ (s : Session). s.logged_in) (session_of-with_session fd new_session g),
  ap (λ (s : Session). s.logged_in)
      (session_of-with_session fd (record (session_of fd g) { logged_in = true; user_id = fd }) g),
)
