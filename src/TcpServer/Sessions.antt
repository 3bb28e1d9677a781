-- ===== src/TcpServer/Sessions.antt =====
-- TcpServer::start (src/tcp_server.cpp) with the callbacks of ClientGateway (src/client_gateway.cpp):
-- the clients of the server are those that have a session.
use order_matching_engine.Prelude.{
  ℕ, suc, ◌≡◌, refl, sym, ap, subst, ◌∙◌, Bool, true, false, ◌||◌, List, [], ◌∷◌, ◌++◌, ◌==◌,
  if◌then◌else◌, length, contains, contains-append, Distinct, append-Distinct, Option-cases, arith,
  inl, inr, Bool-cases, ==_false, ==_iff,
}
use order_matching_engine.Prelude.Bytes.{Bytes}
use order_matching_engine.Prelude.Dict.{Dict, IsDict}
use order_matching_engine.Prelude.Dict
use order_matching_engine.TcpServer.{
  Received, bytes, closed, failed, Round, Callbacks, Server, turn, serve_clients, accept_client,
  run_round, IsFresh, Reach, started, next,
}
use order_matching_engine.Gateway.{
  Session, ClientGateway, session_of, new_session, on_connection, on_disconnection,
}
use order_matching_engine.Gateway.Replies.{Outcome, ok, fault}
use order_matching_engine.Gateway.Orders.{receive}
use order_matching_engine.Gateway.OwnSession.{with_session-IsOwn, with_session-has}
use order_matching_engine.Gateway.Isolation.{receive-IsOwn}
use order_matching_engine.TcpServer.Calls.{gateway_calls, is_some, at_key, Has, Has-eq}

module _ (clock wall : ℕ → ℕ) (fuel : ℕ) where
  abbrev calls : Callbacks (Outcome ClientGateway)
  calls = gateway_calls clock wall fuel

  -- A client that is a member sends bytes.
  message-Has :
      (member : ℕ → Bool) (fd : ℕ) (received : Bytes) (r : Outcome ClientGateway)
      → member fd ≡ true
      → Has member r
      → Has member (calls.on_message fd received r)
  message-Has member fd received (fault e) is h = tt
  message-Has member fd received (ok g) is h =
      go (receive clock wall fuel rounds fd received g) refl
    where
      rounds : ℕ
      rounds = suc (length ((session_of fd g).buffer ++ received))

      go :
          (r : Outcome ClientGateway)
          → receive clock wall fuel rounds fd received g ≡ r
          → Has member r
      go (fault e) e' = tt
      go (ok g') e' =
          let (own, has) = receive-IsOwn clock wall fuel fd rounds received g g' e' in
          (
            own.one_entry h.0,
            λ j. elim (Bool-cases (j == fd)) [
              | inl same ↦ at_key g' member ((==_iff j fd).0 same) (has ∙ sym is)
              | inr other ↦ ap is_some (own.others j (==_false j fd other)) ∙ h.1 j
            ],
          )

  disconnection-Has :
      (member : ℕ → Bool) (fd : ℕ) (r : Outcome ClientGateway)
      → member fd ≡ false
      → Has (λ j. j == fd || member j) r
      → Has member (calls.on_disconnection fd r)
  unfolding on_disconnection
  disconnection-Has member fd (fault e) out h = tt
  disconnection-Has member fd (ok g) out h = (
    Dict.remove-IsDict fd g.sessions h.0,
    λ j. elim (Bool-cases (j == fd)) [
      | inl same ↦
          at_key (on_disconnection fd g) member ((==_iff j fd).0 same)
            (ap is_some (Dict.lookup-remove_self fd g.sessions h.0) ∙ sym out)
      | inr other ↦
          ap is_some (Dict.lookup-remove_ne j fd g.sessions (==_false j fd other))
          ∙ h.1 j
          ∙ ap (λ (b : Bool). b || member j) other
    ],
  )

  connection-Has :
      (member : ℕ → Bool) (fd : ℕ) (r : Outcome ClientGateway)
      → Has member r
      → Has (λ j. member j || (j == fd || false)) (calls.on_connection fd r)
  unfolding on_connection
  connection-Has member fd (fault e) h = tt
  connection-Has member fd (ok g) h =
      let own = with_session-IsOwn fd new_session g in
      (
        own.one_entry h.0,
        λ j. elim (Bool-cases (j == fd)) [
          | inl same ↦
              at_key (on_connection fd g) (λ k. member k || (k == fd || false))
                ((==_iff j fd).0 same) (with_session-has fd new_session g ∙ ground arith)
          | inr other ↦ ap is_some (own.others j (==_false j fd other)) ∙ h.1 j ∙ ground arith
        ],
      )

  -- After a client's turn: it has stayed, or it is gone.
  abbrev After : (ℕ → Bool) → (ℕ → Bool) → Bool × Outcome ClientGateway → Type 0
  After member without (true, r) = Has member r
  After member without (false, r) = Has without r

  turn-After :
      (is_set : Bool) (received : Received) (fd : ℕ) (r : Outcome ClientGateway)
      (member without : ℕ → Bool)
      → without fd ≡ false
      → ((j : ℕ) → member j ≡ (j == fd || without j))
      → Has member r
      → After member without (turn calls is_set received fd r)
  turn-After false received fd r member without out same h = h
  turn-After true (bytes b) fd r member without out same h =
      message-Has member fd b r (same fd ∙ ground arith) h
  turn-After true closed fd r member without out same h =
      disconnection-Has without fd r out (Has-eq member _ r same h)
  turn-After true (failed true) fd r member without out same h = h
  turn-After true (failed false) fd r member without out same h =
      disconnection-Has without fd r out (Has-eq member _ r same h)

  -- The loop over the clients, when `before` are the clients that it has passed and kept.
  abbrev Passed : (ℕ → Bool) → List ℕ → List ℕ × Outcome ClientGateway → Type 0
  Passed before fds (kept, r) =
      Has (λ j. before j || contains j kept) r
      × Distinct kept
      × ((j : ℕ) → contains j fds ≡ false → contains j kept ≡ false)

  serve_clients-Passed :
      (round : Round) (before : ℕ → Bool) (fds : List ℕ) (r : Outcome ClientGateway)
      → Distinct fds
      → ((j : ℕ) → contains j fds ≡ true → before j ≡ false)
      → Has (λ j. before j || contains j fds) r
      → Passed before fds (serve_clients calls round fds r)
  unfolding serve_clients
  serve_clients-Passed round before [] r d apart h = (h, tt, λ j out. out)
  serve_clients-Passed round before (fd ∷ fds) r d apart h =
      go (turn calls (round.is_set fd) (round.received fd) fd r)
        (turn-After (round.is_set fd) (round.received fd) fd r
          (λ j. before j || contains j (fd ∷ fds)) (λ j. before j || contains j fds)
          (ground (arith, apart fd, d.0)) (λ j. ground arith) h)
        (λ b s. serve_clients-Passed round b fds s d.1)
    where
      fd_out : before fd ≡ false
      fd_out = ground (arith, apart fd)

      go :
          (x : Bool × Outcome ClientGateway)
          → After (λ j. before j || contains j (fd ∷ fds)) (λ j. before j || contains j fds) x
          → ((b : ℕ → Bool) (s : Outcome ClientGateway)
              → ((j : ℕ) → contains j fds ≡ true → b j ≡ false)
              → Has (λ j. b j || contains j fds) s
              → Passed b fds (serve_clients calls round fds s))
          → Passed before (fd ∷ fds) (
            if x.0
                then fd ∷ (serve_clients calls round fds x.1).0
                else (serve_clients calls round fds x.1).0,
            (serve_clients calls round fds x.1).1,
          )
      go (true, s) after ih =
          let (has, distinct, fewer) =
            ih (λ j. before j || j == fd) s (λ j in_fds. ground (arith, apart j, d.0))
              (Has-eq _ _ s (λ j. ground arith) after) in
          (
            Has-eq _ _ _ (λ j. ground arith) has,
            (fewer fd d.0, distinct),
            λ j out. ground (arith, fewer j),
          )
      go (false, s) after ih =
          let (has, distinct, fewer) = ih before s (λ j in_fds. ground (arith, apart j)) after in
          (has, distinct, λ j out. ground (arith, fewer j))

  -- The clients are distinct, and they are those that have a session.
  abbrev pub Agrees : Server (Outcome ClientGateway) → Type 0
  Agrees server = Distinct server.clients × Has (λ j. contains j server.clients) server.state

  accept_client-Agrees :
      (round : Round) (server : Server (Outcome ClientGateway))
      → IsFresh round server.clients
      → Agrees server
      → Agrees (accept_client calls round server)
  accept_client-Agrees round server fresh (distinct, has) = elim (Bool-cases round.server_is_set) [
    | inr quiet ↦ rw quiet (distinct, has)
    | inl waiting ↦ elim (Option-cases round.accepted) [
      | inl nobody ↦ rw (waiting, nobody) (distinct, has)
      | inr (fd, somebody) ↦
          rw (waiting, somebody)
            (
              append-Distinct server.clients fd distinct (fresh fd somebody),
              Has-eq _ _ (calls.on_connection fd server.state)
                  (λ j. sym (contains-append j server.clients (fd ∷ [])))
                  (connection-Has (λ j. contains j server.clients) fd server.state has),
            )
    ]
  ]

  run_round-Agrees :
      (round : Round) (server : Server (Outcome ClientGateway))
      → IsFresh round server.clients
      → Agrees server
      → Agrees (run_round calls round server)
  unfolding run_round serve_clients
  run_round-Agrees round server fresh agrees = elim (Bool-cases round.activity_failed) [
    | inl bad ↦ rw (bad, run_round) agrees
    | inr fine ↦
        let (distinct, has) = accept_client-Agrees round server fresh agrees in
        let after = accept_client calls round server in
        let (has', distinct', _) =
          serve_clients-Passed round (λ j. false) after.clients after.state distinct (λ j _. refl)
            has in
        rw (fine, run_round) (distinct', has')
  ]

  -- Whatever the system calls answer, as long as `accept` gives no descriptor that a client has:
  -- the server's clients are distinct, and unless something was undefined they are exactly those
  -- for which the gateway has a session, one each.
  pub reachable-Agrees :
      (g : ClientGateway) (server : Server (Outcome ClientGateway))
      → g.sessions ≡ []
      → Reach calls (ok g) server
      → Agrees server
  reachable-Agrees g _ none_yet started = (
    tt,
    (
      subst IsDict (sym none_yet) tt,
      λ j. ap (λ (d : Dict Session). is_some (Dict.lookup j d)) none_yet,
    ),
  )
  reachable-Agrees g _ none_yet (next {server} round r fresh) =
      run_round-Agrees round server fresh (reachable-Agrees g server none_yet r)
