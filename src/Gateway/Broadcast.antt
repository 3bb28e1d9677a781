-- ===== src/Gateway/Broadcast.antt =====
-- ClientGateway::broadcastMarketData and broadcastTradeUpdate (src/client_gateway.cpp): who gets what.
use order_matching_engine.Prelude.{
  ℕ, ◌≡◌, refl, sym, ap, ◌∙◌, Bool, false, Option, none, some, List, [], ◌∷◌, ◌++◌, if◌then◌else◌,
  inl, inr, Bool-cases, Option-cases, ◌⊎◌,
}
use mathlib.Core.List.{append_assoc, append-nil}
use order_matching_engine.Prelude.Bytes
use order_matching_engine.Prelude.Dict.{Dict}
use order_matching_engine.Prelude.Dict
use order_matching_engine.Types.{Symbol}
use order_matching_engine.Book.{OrderBook}
use order_matching_engine.Engine.{get_order_book}
use order_matching_engine.Gateway.Protocol.{Packet}
use order_matching_engine.Gateway.{
  Session, ClientGateway, broadcast, broadcast_market_data, snapshot_of, subscribers, send,
}

-- Whether a client has a session that is logged in.
abbrev pub is_logged_in : Dict Session → ℕ → Bool
is_logged_in sessions fd = elim (Dict.lookup fd sessions) [ none ↦ false | some s ↦ s.logged_in ]

-- The packet, once for each of the clients that is logged in.
abbrev pub copies : Dict Session → Packet → List ℕ → List (ℕ × Packet)
copies sessions p [] = []
copies sessions p (fd ∷ fds) =
    if is_logged_in sessions fd then (fd, p) ∷ copies sessions p fds else copies sessions p fds

-- A gateway after packets were sent.
abbrev pub sent : List (ℕ × Packet) → ClientGateway → ClientGateway
sent ps g = record g { outbox = g.outbox ++ ps }

pub sent-nil : (g : ClientGateway) → g ≡ sent [] g
sent-nil g = ap (λ (o : List (ℕ × Packet)). record g { outbox = o }) (sym (append-nil g.outbox))

pub sent-cons :
    (x : ℕ × Packet) (ps : List (ℕ × Packet)) (g : ClientGateway)
    → sent ps (sent (x ∷ []) g) ≡ sent (x ∷ ps) g
sent-cons x ps g =
    ap (λ (o : List (ℕ × Packet)). record g { outbox = o }) (append_assoc g.outbox (x ∷ []) ps)

-- One client of the loop, by what the lookup of its session gave.
turn-sent :
    (fd : ℕ) (fds : List ℕ) (p : Packet) (g : ClientGateway) (session : Option Session)
    → ((h : ClientGateway)
        → h.sessions ≡ g.sessions
        → broadcast fds p h ≡ sent (copies g.sessions p fds) h)
    → Dict.lookup fd g.sessions ≡ session
    → broadcast (fd ∷ fds) p g ≡ sent (copies g.sessions p (fd ∷ fds)) g
unfolding broadcast
turn-sent fd fds p g none rest is = rw (is, broadcast, copies, if◌then◌else◌) (rest g refl)
turn-sent fd fds p g (some s) rest is = elim (Bool-cases s.logged_in) [
  | inl logged_in ↦
      rw (is, broadcast, copies, if◌then◌else◌)
        (rw (logged_in, if◌then◌else◌)
          (rest (send fd p g) refl ∙ sent-cons (fd, p) (copies g.sessions p fds) g))
  | inr not_yet ↦
      rw (is, broadcast, copies, if◌then◌else◌) (rw (not_yet, if◌then◌else◌) (rest g refl))
]

pub broadcast-sent :
    (fds : List ℕ) (p : Packet) (g : ClientGateway) (sessions : Dict Session)
    → g.sessions ≡ sessions
    → broadcast fds p g ≡ sent (copies sessions p fds) g
unfolding broadcast
broadcast-sent [] p g sessions e = sent-nil g
broadcast-sent (fd ∷ fds) p g sessions e =
    turn-sent fd fds p g (Dict.lookup fd g.sessions)
      (λ h same. broadcast-sent fds p h g.sessions same) refl
    ∙ ap (λ (d : Dict Session). sent (copies d p (fd ∷ fds)) g) e

-- A broadcast of market data sends to each subscriber of the symbol that is logged in, in the order
-- of the subscriptions, one snapshot of its book, and changes nothing else; it does nothing when
-- the symbol has no book.
pub broadcast_market_data_lem :
    (symbol : Symbol) (g : ClientGateway)
    → ((get_order_book symbol g.engine ≡ none) × (broadcast_market_data symbol g ≡ g))
      ⊎ ((b : OrderBook) × (get_order_book symbol g.engine ≡ some b)
          × (broadcast_market_data symbol g
              ≡ sent (copies g.sessions (snapshot_of symbol g.engine b) (subscribers symbol g)) g))
unfolding broadcast_market_data
broadcast_market_data_lem symbol g = elim (Option-cases (get_order_book symbol g.engine)) [
  | inl no_book ↦ inl (
    no_book,
    elim (Option-cases (Bytes.lookup symbol g.subscriptions)) [
      | inl nobody ↦ rw (nobody, broadcast_market_data) refl
      | inr (fds, some_fds) ↦ rw (some_fds, broadcast_market_data) (rw no_book refl)
    ],
  )
  | inr (b, has_book) ↦ inr (
    b,
    has_book,
    elim (Option-cases (Bytes.lookup symbol g.subscriptions)) [
      | inl nobody ↦ rw (nobody, broadcast_market_data, subscribers) (sent-nil g)
      | inr (fds, some_fds) ↦
          rw (some_fds, broadcast_market_data, subscribers)
            (rw has_book (broadcast-sent fds (snapshot_of symbol g.engine b) g g.sessions refl))
    ],
  )
]
