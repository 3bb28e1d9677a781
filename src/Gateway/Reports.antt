-- ===== src/Gateway/Reports.antt =====
-- The execution reports of handleNewOrderInternal (src/client_gateway.cpp), told apart from what is
-- broadcast between them.
use mathlib.Core.List.{append_assoc}
use order_matching_engine.Prelude.{
  ℕ, ◌+◌, ◌<◌, ◌≤◌, ◌≡◌, refl, ap, ◌∙◌, some, List, [], ◌∷◌, ◌++◌, ◌==◌, if◌then◌else◌, length,
  u64_mod, arith, inl, inr, Option-cases, Bool-cases,
}
use order_matching_engine.Prelude.Bytes
use order_matching_engine.Prelude.Dict.{Dict}
use order_matching_engine.Types.{Order, Trade, Quantity, Symbol, is_filled, reduce_quantity}
use order_matching_engine.Book.{OrderBook, get_order_by_id}
use order_matching_engine.Engine.{MatchingEngine, get_order_book}
use order_matching_engine.Engine.Matched.{volume}
use order_matching_engine.Gateway.Protocol.{
  Packet, ExecutionReport, NewOrderRequest, MarketDataSnapshot, TradeUpdate, strncpy,
}
use order_matching_engine.Gateway.{
  Session, ClientGateway, broadcast_market_data, broadcast_trade_update, snapshot_of,
}
use order_matching_engine.Gateway.Broadcast.{copies, sent, sent-nil, broadcast-sent, is_logged_in}
use order_matching_engine.Gateway.Replies.{
  Outcome, ok, c_string, shown_filled, maker_filled, maker_report, taker_report, side_code,
}
use order_matching_engine.Gateway.Orders.{send_reports}

-- The execution reports among packets, to one client.
abbrev pub reports_to : ℕ → List (ℕ × Packet) → List ExecutionReport
reports_to fd [] = []
reports_to fd ((to, Packet.execution_report r) ∷ ps) =
    if to == fd then r ∷ reports_to fd ps else reports_to fd ps
reports_to fd ((to, Packet.login_response n message) ∷ ps) = reports_to fd ps
reports_to fd ((to, Packet.market_data m) ∷ ps) = reports_to fd ps
reports_to fd ((to, Packet.trade_update u) ∷ ps) = reports_to fd ps

pub reports_to-append :
    (fd : ℕ) (ps qs : List (ℕ × Packet))
    → reports_to fd (ps ++ qs) ≡ reports_to fd ps ++ reports_to fd qs
reports_to-append fd [] qs = refl
reports_to-append fd ((to, Packet.execution_report r) ∷ ps) qs =
    ground (arith, reports_to-append fd ps qs)
reports_to-append fd ((to, Packet.login_response n message) ∷ ps) qs = reports_to-append fd ps qs
reports_to-append fd ((to, Packet.market_data m) ∷ ps) qs = reports_to-append fd ps qs
reports_to-append fd ((to, Packet.trade_update u) ∷ ps) qs = reports_to-append fd ps qs

two_reports :
    (fd : ℕ) (r r' : ExecutionReport) (ps qs : List (ℕ × Packet))
    → reports_to fd ps ≡ []
    → reports_to fd
        ((fd, Packet.execution_report r) ∷ ((fd, Packet.execution_report r') ∷ (ps ++ qs)))
      ≡ r ∷ (r' ∷ reports_to fd qs)
two_reports fd r r' ps qs none_there = ground (arith, reports_to-append fd ps qs)

reports_to-snapshots :
    (fd : ℕ) (d : Dict Session) (m : MarketDataSnapshot) (fds : List ℕ)
    → reports_to fd (copies d (Packet.market_data m) fds) ≡ []
reports_to-snapshots fd d m [] = refl
reports_to-snapshots fd d m (f ∷ fds) = elim (Bool-cases (is_logged_in d f)) [
  | inl yes' ↦ rw yes' (reports_to-snapshots fd d m fds)
  | inr no' ↦ rw no' (reports_to-snapshots fd d m fds)
]

reports_to-updates :
    (fd : ℕ) (d : Dict Session) (u : TradeUpdate) (fds : List ℕ)
    → reports_to fd (copies d (Packet.trade_update u) fds) ≡ []
reports_to-updates fd d u [] = refl
reports_to-updates fd d u (f ∷ fds) = elim (Bool-cases (is_logged_in d f)) [
  | inl yes' ↦ rw yes' (reports_to-updates fd d u fds)
  | inr no' ↦ rw no' (reports_to-updates fd d u fds)
]

-- A gateway that only sent packets, none of them an execution report.
abbrev pub Spreads : ℕ → ClientGateway → ClientGateway → Type 0
Spreads fd g g' = (ps : List (ℕ × Packet)) × (g' ≡ sent ps g) × (reports_to fd ps ≡ [])

pub market_data-Spreads :
    (fd : ℕ) (symbol : Symbol) (g : ClientGateway) → Spreads fd g (broadcast_market_data symbol g)
unfolding broadcast_market_data
market_data-Spreads fd symbol g = elim (Option-cases (Bytes.lookup symbol g.subscriptions)) [
  | inl nobody ↦ ([], rw (nobody, broadcast_market_data) (sent-nil g), refl)
  | inr (fds, found) ↦ elim (Option-cases (get_order_book symbol g.engine)) [
    | inl no_book ↦ ([], rw (found, broadcast_market_data) (rw no_book (sent-nil g)), refl)
    | inr (b, has_book) ↦ (
      copies g.sessions (snapshot_of symbol g.engine b) fds,
      rw (found, broadcast_market_data)
          (rw has_book (broadcast-sent fds (snapshot_of symbol g.engine b) g g.sessions refl)),
      reports_to-snapshots fd g.sessions _ fds,
    )
  ]
]

pub trade_update-Spreads :
    (fd now_ms : ℕ) (t : Trade) (g : ClientGateway)
    → Spreads fd g (broadcast_trade_update now_ms t g)
unfolding broadcast_trade_update
trade_update-Spreads fd now_ms t g = elim (Option-cases (Bytes.lookup t.symbol g.subscriptions)) [
  | inl nobody ↦ ([], rw (nobody, broadcast_trade_update) (sent-nil g), refl)
  | inr (fds, found) ↦
      let u : TradeUpdate = record {
        symbol = strncpy t.symbol;
        price = t.price;
        quantity = t.quantity;
        timestamp = now_ms;
        make_side = 0;
      } in
      (
        copies g.sessions (Packet.trade_update u) fds,
        rw (found, broadcast_trade_update)
            (broadcast-sent fds (Packet.trade_update u) g g.sessions refl),
        reports_to-updates fd g.sessions u fds,
      )
]

-- The report about an order of which `filled` is filled.
abbrev pub report_at : Order → ℕ → Trade → ExecutionReport
report_at o filled t = record {
  client_order_id = o.id;
  user_id = o.user_id;
  execution_id = t.buy_order_id;
  symbol = strncpy t.symbol;
  side = side_code o.side;
  price = t.price;
  quantity = t.quantity;
  filled_quantity = filled;
  status = if filled == o.quantity then 2 else 1;
}

-- The reports of an order of which `filled` is filled, by running totals: of each trade one about the
-- order, with status 2 when the total reaches its quantity and 1 before, and one about the other side.
abbrev pub running : Order → (Trade → Quantity) → ℕ → List Trade → List ExecutionReport
running o shown filled [] = []
running o shown filled (t ∷ ts) =
    report_at o (filled + t.quantity) t
    ∷ (maker_report o t (shown t) ∷ running o shown (filled + t.quantity) ts)

running-reduced :
    (o : Order) (q : Quantity) (shown : Trade → Quantity) (n : ℕ) (ts : List Trade)
    → running (reduce_quantity o q) shown n ts ≡ running o shown n ts
unfolding reduce_quantity
running-reduced o q shown n [] = refl
running-reduced o q shown n (t ∷ ts) = rw (running-reduced o q shown (n + t.quantity) ts) refl

-- A trade booked on an order that is not exceeded.
booked :
    (o : Order) (t : Trade)
    → o.quantity < u64_mod
    → o.quantity_filled + t.quantity ≤ o.quantity
    → ((reduce_quantity o t.quantity).quantity_filled ≡ o.quantity_filled + t.quantity)
      × (taker_report (reduce_quantity o t.quantity) t
          ≡ report_at o (o.quantity_filled + t.quantity) t)
unfolding reduce_quantity is_filled
booked o t bounded fits = (
  total,
  λ i. record {
    client_order_id = o.id;
    user_id = o.user_id;
    execution_id = t.buy_order_id;
    symbol = strncpy t.symbol;
    side = side_code o.side;
    price = t.price;
    quantity = t.quantity;
    filled_quantity = total i;
    status = if full i then 2 else 1;
  },
)
  where
    total : (reduce_quantity o t.quantity).quantity_filled ≡ o.quantity_filled + t.quantity
    total = omega arith

    full : is_filled (reduce_quantity o t.quantity) ≡ (o.quantity_filled + t.quantity == o.quantity)
    full = ground arith

pub sent-sent :
    (ps qs : List (ℕ × Packet)) (g : ClientGateway) → sent qs (sent ps g) ≡ sent (ps ++ qs) g
sent-sent ps qs g =
    ap (λ (o : List (ℕ × Packet)). record g { outbox = o }) (append_assoc g.outbox ps qs)

module _ (clock wall : ℕ → ℕ) (fuel fd : ℕ) (req : NewOrderRequest) (symbol : Symbol)
    (book : OrderBook) where
  abbrev pub shown : MatchingEngine → Trade → Quantity
  shown = shown_filled (get_order_by_id req.client_order_id book)

  maker_filled_lem :
      (t : Trade) (e : MatchingEngine)
      → c_string req.symbol ≡ ok symbol
      → get_order_book symbol e ≡ some book
      → maker_filled req t e ≡ ok (shown e t)
  unfolding maker_filled
  maker_filled_lem t e named found = rw (named, maker_filled) (rw found refl)

  -- The packets that the loop over the trades sends, and the reports among them.
  abbrev pub Reports : Order → List Trade → ClientGateway → Outcome ClientGateway → Type 0
  Reports o ts g r =
      (ps : List (ℕ × Packet)) × (r ≡ ok (sent ps g))
      × (reports_to fd ps ≡ running o (shown g.engine) o.quantity_filled ts)

  -- When the quantity of an order is a 64-bit number and no less than what is filled with the
  -- volume of the trades, the reports of the loop over the trades, under a symbol that has a book,
  -- are two for each trade: the first shows the exact sum of what is filled so far, which never
  -- wraps, and says that the order is filled when the sum is its quantity.
  pub send_reports-Reports :
      (o : Order) (ts : List Trade) (g : ClientGateway)
      → c_string req.symbol ≡ ok symbol
      → get_order_book symbol g.engine ≡ some book
      → o.quantity < u64_mod
      → o.quantity_filled + volume ts ≤ o.quantity
      → Reports o ts g (send_reports clock wall fuel fd req o ts g)
  unfolding send_reports reduce_quantity
  send_reports-Reports o [] g named found bounded fits = ([], ap ok (sent-nil g), refl)
  send_reports-Reports o (t ∷ ts) g named found bounded fits =
      let o' = reduce_quantity o t.quantity in
      let (total, taker) = booked o t bounded (omega arith) in
      let one : List (ℕ × Packet) = (fd, Packet.execution_report (taker_report o' t)) ∷ [] in
      let two : List (ℕ × Packet) =
        (fd, Packet.execution_report (maker_report o' t (shown g.engine t))) ∷ [] in
      let g2 = sent two (sent one g) in
      let (spread, is, none_there) = trade_update-Spreads fd (wall (length g2.outbox)) t g2 in
      let (ps, are, reports) =
        send_reports-Reports o' ts (sent spread g2) named found bounded (omega (arith, total)) in
      (
        one ++ (two ++ (spread ++ ps)),
        rw (maker_filled_lem t g.engine named found, send_reports)
            (ap (send_reports clock wall fuel fd req o' ts) is
              ∙ are
              ∙ ap ok (
                  sent-sent spread ps g2
                  ∙ sent-sent two (spread ++ ps) (sent one g)
                  ∙ sent-sent one (two ++ (spread ++ ps)) g)),
        two_reports fd (taker_report o' t) (maker_report o' t (shown g.engine t)) spread ps
              none_there
            ∙ ap
                (λ (l : List ExecutionReport).
                  taker_report o' t ∷ (maker_report o t (shown g.engine t) ∷ l))
                (reports
                  ∙ running-reduced o t.quantity (shown g.engine) o'.quantity_filled ts
                  ∙ ap (λ (n : ℕ). running o (shown g.engine) n ts) total)
            ∙ ap
                (λ (r : ExecutionReport).
                  r
                  ∷ (maker_report o t (shown g.engine t)
                      ∷ running o (shown g.engine) (o.quantity_filled + t.quantity) ts))
                taker,
      )
