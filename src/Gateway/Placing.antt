-- ===== src/Gateway/Placing.antt =====
-- ClientGateway::handleNewOrder (src/client_gateway.cpp) for a client that is logged in.
use mathlib.Core.List.{append-nil}
use order_matching_engine.Prelude.{
  ℕ, ◌<◌, ◌≡◌, refl, ap, subst, ◌∙◌, true, not, ◌&&◌, Option, none, some, List, [], ◌∷◌, ◌++◌,
  if◌then◌else◌, take, u64_mod, arith, inl, inr, Bool-cases,
}
use order_matching_engine.Prelude.Bytes.{Bytes, lookup-insert_self}
use order_matching_engine.Pool.{ObjectPool, allocate, store}
use order_matching_engine.Types.{Order, Trade, OrderPtr, Symbol, is_type, is_buy, fok}
use order_matching_engine.Gateway.Protocol.{strncpy}
use order_matching_engine.Book.{OrderBook, get_order_by_id}
use order_matching_engine.Validation.{validate_order, can_fill_completely}
use order_matching_engine.Engine.{
  MatchingEngine, Matching, process_new_order, admit, route, get_order_book,
  get_or_create_order_book, back_in, execute, at_book,
}
use order_matching_engine.Engine.Books.{IsEngine}
use order_matching_engine.Engine.Route.{IsAcceptable, Processed}
use order_matching_engine.Engine.Process.{process_new_order-Processed}
use order_matching_engine.Gateway.Protocol.{
  Packet, ExecutionReport, NewOrderRequest, read_new_order, new_order_size,
}
use order_matching_engine.Gateway.{
  ClientGateway, session_of, touch, clean_symbol, broadcast_market_data,
}
use order_matching_engine.Gateway.Broadcast.{sent}
use order_matching_engine.Gateway.Replies.{
  Outcome, ok, ◌>>=◌, c_string, order_of, new_report, shown_filled,
}
use order_matching_engine.Gateway.Orders.{
  log_bytes, report_all, handle_new_order_internal, handle_new_order,
}
use order_matching_engine.Gateway.Reports.{
  reports_to, reports_to-append, running, market_data-Spreads, send_reports-Reports,
}

-- When an order was traded, its symbol has a book.
abbrev HasBook : Symbol → Option (List Trade × MatchingEngine) → Type 0
HasBook symbol none = Unit
HasBook symbol (some ([], e)) = Unit
HasBook symbol (some (t ∷ ts, e)) = (b : OrderBook) × (get_order_book symbol e ≡ some b)

back_in-HasBook :
    (symbol : Symbol) (e : MatchingEngine) (r : Option (List Trade × Matching))
    → HasBook symbol (back_in symbol e r)
unfolding get_order_book
back_in-HasBook symbol e none = tt
back_in-HasBook symbol e (some ([], m)) = tt
back_in-HasBook symbol e (some (t ∷ ts, m)) =
    (m.book, lookup-insert_self symbol m.book e.order_books)

module _ (clock : ℕ → ℕ) (fuel : ℕ) where
  route-HasBook :
      (p : OrderPtr) (e : MatchingEngine)
      → HasBook (e.order_pool.slot p).symbol (route clock fuel p e)
  unfolding route
  route-HasBook p e = go (get_or_create_order_book (e.order_pool.slot p).symbol e)
    where
      go :
          (r : OrderBook × MatchingEngine)
          → let o = e.order_pool.slot p in
            HasBook o.symbol (
              if is_type o.type fok && not (can_fill_completely e.order_pool.slot r.0 o)
              then some ([], r.1)
              else back_in o.symbol r.1 (execute clock fuel p (at_book r.1 r.0)))
      go (b, e') =
          elim (Bool-cases (
            is_type (e.order_pool.slot p).type fok
            && not (can_fill_completely e.order_pool.slot b (e.order_pool.slot p)))) [
              | inl kill ↦ rw kill tt
              | inr pass ↦ rw pass (
                  back_in-HasBook (e.order_pool.slot p).symbol e'
                    (execute clock fuel p (at_book e' b)))
            ]

  admit-HasBook :
      (o : Order) (e : MatchingEngine) (r : Option (ℕ × ObjectPool Order))
      → HasBook o.symbol (admit clock fuel o e r)
  unfolding admit
  admit-HasBook o e none = tt
  admit-HasBook o e (some (p, pool)) = elim (Bool-cases (validate_order o)) [
    | inr invalid ↦ rw invalid tt
    | inl valid ↦
        let e' : MatchingEngine = record e { order_pool = store p o pool } in
        let is : e'.order_pool.slot p ≡ o = unfold store in ground arith in
        rw valid
          (subst (λ (q : Order). HasBook q.symbol (route clock fuel p e')) is (route-HasBook p e'))
  ]

  traded-HasBook :
      (o : Order) (e : MatchingEngine) (trades : List Trade) (e' : MatchingEngine)
      → process_new_order clock fuel o e ≡ some (trades, e')
      → HasBook o.symbol (some (trades, e'))
  unfolding process_new_order
  traded-HasBook o e trades e' h =
      subst (HasBook o.symbol) h (admit-HasBook o e (allocate e.order_pool))

-- The execution reports for an order: one that says that it is new, or those of its trades.
abbrev pub reports_for :
    Order → Option OrderBook → MatchingEngine → List Trade → List ExecutionReport
reports_for o b e [] =
    record {
      client_order_id = o.id;
      user_id = o.user_id;
      execution_id = 0;
      symbol = strncpy o.symbol;
      side = if is_buy o.side then 0 else 1;
      price = o.price;
      quantity = o.quantity;
      filled_quantity = 0;
      status = 0;
    }
    ∷ []
reports_for o none e (t ∷ ts) = []
reports_for o (some b) e (t ∷ ts) = running o (shown_filled (get_order_by_id o.id b) e) 0 (t ∷ ts)

-- What placing an order does: the engine processes it, its bytes are logged, and the client gets its
-- reports; subscriptions stay, and no other session changes.
pub record Placed (clock : ℕ → ℕ) (fuel fd : ℕ) (packet : Bytes) (g : ClientGateway)
    (trades : List Trade) (g' : ClientGateway) : Type 0 where
  pub processed :
      process_new_order clock fuel (order_of (read_new_order packet)) g.engine
      ≡ some (trades, g'.engine)
  pub fair : Processed (order_of (read_new_order packet)) trades g'.engine
  pub logged :
      g'.event_log
      ≡ (if g.log_is_open then g.event_log ++ take new_order_size packet else g.event_log)
  pub same_subscriptions : g'.subscriptions ≡ g.subscriptions
  pub same_sessions : g'.sessions ≡ (touch fd g).sessions
  pub reported :
      let o = order_of (read_new_order packet) in
      reports_to fd g'.outbox
      ≡ reports_to fd g.outbox ++ reports_for o (get_order_book o.symbol g'.engine) g'.engine trades

module _ (clock wall : ℕ → ℕ) (fuel fd : ℕ) (req : NewOrderRequest) where
  abbrev o : Order
  o = order_of req

  -- All reports, and the packets that they are among.
  abbrev ReportsAll : List Trade → ClientGateway → Outcome ClientGateway → Type 0
  ReportsAll trades g r =
      (ps : List (ℕ × Packet)) × (r ≡ ok (sent ps g))
      × (reports_to fd ps ≡ reports_for o (get_order_book o.symbol g.engine) g.engine trades)

  report_all-Reports :
      (trades : List Trade) (g : ClientGateway)
      → HasBook o.symbol (some (trades, g.engine))
      → Processed o trades g.engine
      → o.quantity < u64_mod
      → c_string req.symbol ≡ ok o.symbol
      → ReportsAll trades g (report_all clock wall fuel fd req trades g)
  unfolding report_all
  report_all-Reports [] g h v bounded named =
      ((fd, Packet.execution_report (new_report o)) ∷ [], refl, ground arith)
  report_all-Reports (t ∷ ts) g (b, found) v bounded named =
      let (ps, is, reports) =
        send_reports-Reports clock wall fuel fd req o.symbol b o (t ∷ ts) g named found bounded
          (omega (arith, v.not_over)) in
      (ps, is, reports ∙ rw found refl)

-- When a client that is logged in places an order that the engine can accept, under a symbol
-- without padding, and the engine is well formed, the handler returns without a fault. The engine
-- is as `process_new_order` leaves it and well formed with no crossed book, the client's session is
-- as it was, the request is logged if the log is open, and the reports to the client are the two
-- per trade with the running total of what is filled, or one that says that nothing was.
pub handle_new_order-Placed :
    (clock wall : ℕ → ℕ) (fuel fd : ℕ) (packet : Bytes) (g : ClientGateway)
    → (session_of fd g).logged_in ≡ true
    → IsEngine g.engine
    → IsAcceptable fuel (order_of (read_new_order packet)) g.engine.order_books
    → c_string (read_new_order packet).symbol ≡ ok (clean_symbol (read_new_order packet).symbol)
    → (trades : List Trade) × (g' : ClientGateway) × (handle_new_order clock wall fuel fd packet g
        ≡ ok g')
      × Placed clock fuel fd packet g trades g'
unfolding handle_new_order handle_new_order_internal session_of
handle_new_order-Placed clock wall fuel fd packet g logged v w named =
    let req = read_new_order packet in
    let o = order_of req in
    let g1 = log_bytes new_order_size packet (touch fd g) in
    let (trades, e', is, fair) = process_new_order-Processed clock fuel o g.engine v w in
    let g2 : ClientGateway = record g1 { engine = e' } in
    let (ps, sent_all, reports) =
      report_all-Reports clock wall fuel fd req trades g2
        (traded-HasBook clock fuel o g.engine trades e' is) fair w.bounded named in
    let (qs, spread, none_there) = market_data-Spreads fd o.symbol (sent ps g2) in
    (
      trades,
      sent qs (sent ps g2),
      rw (logged, handle_new_order)
          (rw (is, handle_new_order_internal)
            (ap (λ (r : Outcome ClientGateway). r >>= λ g3. ok (broadcast_market_data o.symbol g3))
                sent_all
              ∙ ap ok spread)),
      record {
        processed = is;
        fair = fair;
        logged = refl;
        same_subscriptions = refl;
        same_sessions = refl;
        reported =
            reports_to-append fd (g.outbox ++ ps) qs
            ∙ (λ i. reports_to-append fd g.outbox ps i ++ none_there i)
            ∙ append-nil (reports_to fd g.outbox ++ reports_to fd ps)
            ∙ ap (λ (l : List ExecutionReport). reports_to fd g.outbox ++ l) reports;
      },
    )
