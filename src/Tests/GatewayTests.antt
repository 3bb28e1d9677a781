-- ===== src/Tests/GatewayTests.antt =====
-- The gateway over the engine of Tests.
use order_matching_engine.Prelude.{
  ℕ, suc, ◌≡◌, refl, none, some, [], ◌∷◌, ◌++◌, arith, true, false, ◌⊎◌,
}
use order_matching_engine.Prelude.Bytes.{Bytes}
use order_matching_engine.Book.{OrderBook}
use order_matching_engine.Engine.{get_order_book}
use order_matching_engine.Gateway.{
  session_of, ClientGateway, broadcast_market_data, snapshot_of, subscribers, clean_symbol,
  new_session,
}
use order_matching_engine.Gateway.Protocol.{little_endian}
use order_matching_engine.Gateway.Framing.{
  next_packet, serve, on_message, Served, on_message-Served, IsPoisoned, on_message-IsPoisoned,
}
use order_matching_engine.Gateway.Broadcast.{copies, sent, broadcast_market_data_lem}
use order_matching_engine.Tests.{acme, engine}

-- A login packet of 5 bytes arrives in two pieces, and then the beginning of another.
abbrev pub arrived : Bytes
arrived = 0 ∷ 0 ∷ 76 ∷ []

abbrev pub more : Bytes
more = 5 ∷ 0 ∷ 1 ∷ 0 ∷ []

on_message-Served_example :
    Served
      (λ (p : Bytes) (n : ℕ). suc n)
      (arrived ++ more)
      0
      (on_message (λ (p : Bytes) (n : ℕ). suc n) 8 more arrived 0)
on_message-Served_example =
    on_message-Served (λ (p : Bytes) (n : ℕ). suc n) 8 more arrived 0 (omega arith)

one_packet : on_message (λ (p : Bytes) (n : ℕ). suc n) 8 more arrived 0 ≡ some (1 ∷ 0 ∷ [], 1)
unfolding on_message serve next_packet little_endian
one_packet = refl

-- A header of length 4.
abbrev poison : Bytes
poison = 0 ∷ 0 ∷ 76 ∷ 4 ∷ 0 ∷ []

poison-IsPoisoned : IsPoisoned poison
unfolding little_endian
poison-IsPoisoned = (omega arith, refl)

on_message-IsPoisoned_example :
    on_message (λ (p : Bytes) (n : ℕ). suc n) 8 more poison 0 ≡ some (poison ++ more, 0)
on_message-IsPoisoned_example =
    on_message-IsPoisoned (λ (p : Bytes) (n : ℕ). suc n) 7 more poison 0 poison-IsPoisoned

-- " A\0 " is the symbol "A" behind a space.
cleaned : clean_symbol (32 ∷ 65 ∷ 0 ∷ 32 ∷ []) ≡ 32 ∷ 65 ∷ []
unfolding clean_symbol
cleaned = refl

abbrev pub gateway : ClientGateway
gateway = record {
  engine = engine;
  sessions = (4, record { logged_in = true; user_id = 4; buffer = [] }) ∷ (5, new_session) ∷ [];
  subscriptions = (acme, 4 ∷ 5 ∷ 6 ∷ []) ∷ [];
  log_is_open = true;
  event_log = [];
  outbox = [];
}

broadcast_market_data_lem_example :
    ((get_order_book acme gateway.engine ≡ none) × (broadcast_market_data acme gateway ≡ gateway))
    ⊎ ((b : OrderBook) × (get_order_book acme gateway.engine ≡ some b)
        × (broadcast_market_data acme gateway
            ≡ sent
                (copies gateway.sessions
                  (snapshot_of acme gateway.engine b)
                  (subscribers acme gateway))
                gateway))
broadcast_market_data_lem_example = broadcast_market_data_lem acme gateway

pub stranger : (session_of 5 gateway).logged_in ≡ false
unfolding session_of
stranger = refl
