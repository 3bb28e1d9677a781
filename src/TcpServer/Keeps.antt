-- ===== src/TcpServer/Keeps.antt =====
-- TcpServer::start (src/tcp_server.cpp): what the callbacks keep, the loop keeps.
use order_matching_engine.Prelude.{
  ℕ, Bool, true, false, List, [], ◌∷◌, inl, inr, Bool-cases, Option-cases,
}
use order_matching_engine.Prelude.Bytes.{Bytes}
use order_matching_engine.TcpServer.{
  Received, bytes, closed, failed, Round, Callbacks, Server, turn, serve_clients, accept_client,
  run_round, Reach, started, next,
}

module _ {ℓ κ} {S : Type ℓ} (calls : Callbacks S) (P : S → Type κ)
    (message : (fd : ℕ) (received : Bytes) (s : S) → P s → P (calls.on_message fd received s))
    (connection : (fd : ℕ) (s : S) → P s → P (calls.on_connection fd s))
    (disconnection : (fd : ℕ) (s : S) → P s → P (calls.on_disconnection fd s)) where
  turn-keeps :
      (is_set : Bool) (received : Received) (fd : ℕ) (s : S)
      → P s
      → P (turn calls is_set received fd s).1
  turn-keeps false received fd s p = p
  turn-keeps true (bytes b) fd s p = message fd b s p
  turn-keeps true closed fd s p = disconnection fd s p
  turn-keeps true (failed true) fd s p = p
  turn-keeps true (failed false) fd s p = disconnection fd s p

  serve_clients-keeps :
      (round : Round) (fds : List ℕ) (s : S) → P s → P (serve_clients calls round fds s).1
  unfolding serve_clients
  serve_clients-keeps round [] s p = p
  serve_clients-keeps round (fd ∷ fds) s p =
      serve_clients-keeps round fds _ (turn-keeps (round.is_set fd) (round.received fd) fd s p)

  accept_client-keeps :
      (round : Round) (server : Server S)
      → P server.state
      → P (accept_client calls round server).state
  accept_client-keeps round server p = elim (Bool-cases round.server_is_set) [
    | inr quiet ↦ rw quiet p
    | inl waiting ↦ elim (Option-cases round.accepted) [
      | inl nobody ↦ rw (waiting, nobody) p
      | inr (fd, somebody) ↦ rw (waiting, somebody) (connection fd server.state p)
    ]
  ]

  run_round-keeps :
      (round : Round) (server : Server S) → P server.state → P (run_round calls round server).state
  unfolding run_round serve_clients
  run_round-keeps round server p = elim (Bool-cases round.activity_failed) [
    | inl bad ↦ rw (bad, run_round) p
    | inr fine ↦
        rw (fine, run_round)
          (serve_clients-keeps round (accept_client calls round server).clients _
            (accept_client-keeps round server p))
  ]

  pub Reach-keeps : (s : S) (server : Server S) → P s → Reach calls s server → P server.state
  Reach-keeps s _ p started = p
  Reach-keeps s _ p (next {server} round r fresh) =
      run_round-keeps round server (Reach-keeps s server p r)
