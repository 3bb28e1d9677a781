-- ===== src/Gateway/OwnSession.antt =====
-- The sessions that the handlers of src/client_gateway.cpp change.
use order_matching_engine.Prelude.{
  ℕ, ◌≡◌, ◌≢◌, sym, ap, subst, ◌∙◌, Bool, true, false, not, none, some, if◌then◌else◌, arith, inl,
  inr, Bool-cases,
}
use order_matching_engine.Prelude.Bytes.{Bytes}
use order_matching_engine.Prelude.Dict.{Dict, IsDict}
use order_matching_engine.Prelude.Dict
use order_matching_engine.Engine.{cancel_engine_order}
use order_matching_engine.Gateway.Protocol.{SubscriptionRequest, Packet, read_cancel, cancel_size}
use order_matching_engine.Gateway.{
  Session, ClientGateway, session_of, touch, with_session, send, clean_symbol, handle_market_data,
  handle_subscription, broadcast_market_data,
}
use order_matching_engine.Gateway.Replies.{cancel_report}
use order_matching_engine.Gateway.Orders.{log_bytes, handle_order_cancel}
use order_matching_engine.Gateway.Reports.{market_data-Spreads}

abbrev pub has_session : ℕ → ClientGateway → Bool
has_session fd g = elim (Dict.lookup fd g.sessions) [ none ↦ false | some s ↦ true ]

-- The sessions of the other clients are as they were, the client's own is there if it was, and no
-- client has two if none had.
pub record IsOwn (fd : ℕ) (g g' : ClientGateway) : Type 0 where
  pub others : (j : ℕ) → j ≢ fd → Dict.lookup j g'.sessions ≡ Dict.lookup j g.sessions
  pub stays : has_session fd g ≡ true → has_session fd g' ≡ true
  pub one_entry : IsDict g.sessions → IsDict g'.sessions

pub trans-IsOwn :
    {fd : ℕ} {g g1 g2 : ClientGateway} → IsOwn fd g g1 → IsOwn fd g1 g2 → IsOwn fd g g2
trans-IsOwn a b = record {
  others = λ j ne. b.others j ne ∙ a.others j ne;
  stays = λ h. b.stays (a.stays h);
  one_entry = λ h. b.one_entry (a.one_entry h);
}

pub same_sessions-IsOwn : (fd : ℕ) (g g' : ClientGateway) → g'.sessions ≡ g.sessions → IsOwn fd g g'
same_sessions-IsOwn fd g g' e = record {
  others = λ j ne. ap (Dict.lookup j) e;
  stays = λ h.
      ap (λ (d : Dict Session). elim (Dict.lookup fd d) [ none ↦ false | some s ↦ true ]) e ∙ h;
  one_entry = λ h. subst IsDict (sym e) h;
}

pub with_session-has :
    (fd : ℕ) (s : Session) (g : ClientGateway) → has_session fd (with_session fd s g) ≡ true
with_session-has fd s g = ground (arith, Dict.lookup-insert fd fd s g.sessions)

pub with_session-IsOwn :
    (fd : ℕ) (s : Session) (g : ClientGateway) → IsOwn fd g (with_session fd s g)
with_session-IsOwn fd s g = record {
  others = λ j ne. ground (arith, Dict.lookup-insert fd j s g.sessions);
  stays = λ h. with_session-has fd s g;
  one_entry = Dict.insert-IsDict fd s g.sessions;
}

pub touched-IsOwn :
    (fd : ℕ) (g g' : ClientGateway) → g'.sessions ≡ (touch fd g).sessions → IsOwn fd g g'
touched-IsOwn fd g g' e =
    trans-IsOwn (with_session-IsOwn fd (session_of fd g) g)
      (same_sessions-IsOwn fd (touch fd g) g' e)

pub subscription-sessions :
    (fd : ℕ) (req : SubscriptionRequest) (g : ClientGateway)
    → (handle_subscription fd req g).sessions ≡ (touch fd g).sessions
unfolding handle_subscription
subscription-sessions fd req g = ground arith

pub market_data-sessions :
    (fd : ℕ) (raw : Bytes) (g : ClientGateway)
    → (handle_market_data fd raw g).sessions ≡ (touch fd g).sessions
unfolding handle_market_data
market_data-sessions fd raw g = ground arith

pub cancel-sessions :
    (fd : ℕ) (packet : Bytes) (g : ClientGateway)
    → (handle_order_cancel fd packet g).sessions ≡ (touch fd g).sessions
unfolding handle_order_cancel
cancel-sessions fd packet g = elim (Bool-cases (session_of fd g).logged_in) [
  | inr out ↦
      ap (λ (b : Bool). (if b then touch fd g else broadcast_market_data symbol after).sessions)
        (ap not out)
  | inl logged ↦
      ap (λ (b : Bool). (if b then touch fd g else broadcast_market_data symbol after).sessions)
        (ap not logged)
      ∙ spread after
]
  where
    symbol : Bytes
    symbol = clean_symbol (read_cancel packet).symbol

    after : ClientGateway
    after =
        let req = read_cancel packet in
        let r = cancel_engine_order req.client_order_id symbol g.engine in
        send fd (Packet.execution_report (cancel_report req symbol r.0))
          (record (log_bytes cancel_size packet (touch fd g)) { engine = r.1 })

    spread : (h : ClientGateway) → (broadcast_market_data symbol h).sessions ≡ h.sessions
    spread h =
        let (qs, is, _) = market_data-Spreads fd symbol h in
        ap (λ (x : ClientGateway). x.sessions) is
