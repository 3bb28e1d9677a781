-- ===== src/Gateway/Strangers.antt =====
-- ClientGateway::processPacket (src/client_gateway.cpp) for a client that is not logged in.
use order_matching_engine.Prelude.{ℕ, ◌≡◌, ◌≢◌, refl, ap, ◌∙◌, false, List, [], ◌∷◌, All}
use order_matching_engine.Prelude.Bytes.{Bytes}
use order_matching_engine.Gateway.Protocol.{
  MessageType, message_type, read_symbol, read_subscription,
}
use order_matching_engine.Gateway.{
  Session, ClientGateway, session_of, touch, handle_market_data, handle_subscription,
}
use order_matching_engine.Gateway.Framing.{process_all}
use order_matching_engine.Gateway.Guards.{IsIgnored, touch-IsIgnored, handlers-IsIgnored}
use order_matching_engine.Gateway.Replies.{Outcome, ok, ◌>>=◌}
use order_matching_engine.Gateway.Orders.{
  process_packet, handle_new_order, handle_order_cancel, reading,
}

refl-IsIgnored : (fd : ℕ) (g : ClientGateway) → IsIgnored fd g g
refl-IsIgnored fd g = record {
  nothing_sent = refl;
  same_subscriptions = refl;
  same_engine = refl;
  same_log = refl;
  same_session = refl;
}

trans-IsIgnored :
    {fd : ℕ} {g g1 g2 : ClientGateway} → IsIgnored fd g g1 → IsIgnored fd g1 g2 → IsIgnored fd g g2
trans-IsIgnored a b = record {
  nothing_sent = b.nothing_sent ∙ a.nothing_sent;
  same_subscriptions = b.same_subscriptions ∙ a.same_subscriptions;
  same_engine = b.same_engine ∙ a.same_engine;
  same_log = b.same_log ∙ a.same_log;
  same_session = b.same_session ∙ a.same_session;
}

module _ (clock wall : ℕ → ℕ) (fuel fd : ℕ) where
  abbrev Ignores : ClientGateway → Outcome ClientGateway → Type 0
  Ignores g r = (g' : ClientGateway) × (r ≡ ok g') × IsIgnored fd g g'

  one_packet :
      (packet : Bytes) (g : ClientGateway) (type : MessageType)
      → message_type packet ≡ type
      → type ≢ MessageType.login_request
      → (session_of fd g).logged_in ≡ false
      → Ignores g (process_packet clock wall fuel fd packet g)
  unfolding process_packet handle_new_order handle_order_cancel
  one_packet packet g MessageType.login_request is no_login out = absurd (no_login refl)
  one_packet packet g MessageType.new_order is no_login out =
      (touch fd g, rw (is, process_packet) (rw (out, reading) refl), touch-IsIgnored fd g)
  one_packet packet g MessageType.market_data_request is no_login out =
      let ignored = handlers-IsIgnored fd g (read_symbol packet) (read_subscription packet) out in
      (
        handle_market_data fd (read_symbol packet) g,
        rw (is, process_packet) (rw (out, reading) refl),
        ignored.1,
      )
  one_packet packet g MessageType.subscription_request is no_login out =
      let ignored = handlers-IsIgnored fd g (read_symbol packet) (read_subscription packet) out in
      (
        handle_subscription fd (read_subscription packet) g,
        rw (is, process_packet) (rw (out, reading) refl),
        ignored.0,
      )
  one_packet packet g MessageType.order_cancel is no_login out =
      (touch fd g, rw (is, process_packet) (rw (out, reading) refl), touch-IsIgnored fd g)
  one_packet packet g MessageType.unknown is no_login out =
      (g, rw (is, process_packet) refl, refl-IsIgnored fd g)

  -- Whatever packets a client that is not logged in sends, as long as none is a login, all of them
  -- are handled without a fault, nothing is sent, logged or subscribed, and the engine and the
  -- client's session stay as they were.
  pub process_all-IsIgnored :
      (packets : List Bytes) (g : ClientGateway)
      → (session_of fd g).logged_in ≡ false
      → All (λ packet. message_type packet ≢ MessageType.login_request) packets
      → (g' : ClientGateway) × (process_all
            (λ packet r. r >>= process_packet clock wall fuel fd packet)
            packets
            (ok g)
          ≡ ok g')
        × IsIgnored fd g g'
  process_all-IsIgnored [] g out h = (g, refl, refl-IsIgnored fd g)
  process_all-IsIgnored (p ∷ ps) g out h =
      let (g1, is, one) = one_packet p g (message_type p) refl h.0 out in
      let (g2, are, rest) =
        process_all-IsIgnored ps g1 (ap (λ (s : Session). s.logged_in) one.same_session ∙ out)
          h.1 in
      (
        g2,
        ap
              (process_all
                (λ packet (r : Outcome ClientGateway).
                  r >>= process_packet clock wall fuel fd packet)
                ps)
              is
            ∙ are,
        trans-IsIgnored one rest,
      )
