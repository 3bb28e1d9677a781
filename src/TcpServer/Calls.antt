-- ===== src/TcpServer/Calls.antt =====
-- The callbacks that ClientGateway (src/client_gateway.cpp) gives to the server.
use order_matching_engine.Prelude.{
  ℕ, suc, ◌≡◌, sym, subst, ◌∙◌, Bool, true, false, Option, none, some, ◌++◌, length,
}
use order_matching_engine.Prelude.Dict.{IsDict}
use order_matching_engine.TcpServer.{Callbacks}
use order_matching_engine.Gateway.{
  Session, ClientGateway, session_of, on_connection, on_disconnection,
}
use order_matching_engine.Gateway.Replies.{Outcome, ok, fault, ◌>>=◌}
use order_matching_engine.Gateway.Orders.{receive}
use order_matching_engine.Gateway.OwnSession.{has_session}

-- The callbacks that ClientGateway's constructor sets; the loop of `onMessage` has rounds enough for
-- every byte.
abbrev pub gateway_calls : (ℕ → ℕ) → (ℕ → ℕ) → ℕ → Callbacks (Outcome ClientGateway)
gateway_calls clock wall fuel = record {
  on_message = λ fd received r. r >>= λ g.
      receive clock wall fuel (suc (length ((session_of fd g).buffer ++ received))) fd received g;
  on_connection = λ fd r. r >>= λ g. ok (on_connection fd g);
  on_disconnection = λ fd r. r >>= λ g. ok (on_disconnection fd g);
}

abbrev pub is_some : Option Session → Bool
is_some o = elim o [ none ↦ false | some s ↦ true ]

pub at_key :
    {j fd : ℕ} (g : ClientGateway) (member : ℕ → Bool)
    → j ≡ fd
    → has_session fd g ≡ member fd
    → has_session j g ≡ member j
at_key g member e h = subst (λ (k : ℕ). has_session k g ≡ member k) (sym e) h

-- Unless something was undefined, the clients with a session are those that `member` tells.
abbrev pub Has : (ℕ → Bool) → Outcome ClientGateway → Type 0
Has member (fault e) = Unit
Has member (ok g) = IsDict g.sessions × ((j : ℕ) → has_session j g ≡ member j)

pub Has-eq :
    (p q : ℕ → Bool) (r : Outcome ClientGateway) → ((j : ℕ) → p j ≡ q j) → Has p r → Has q r
Has-eq p q (fault e) same h = tt
Has-eq p q (ok g) same h = (h.0, λ j. h.1 j ∙ same j)
