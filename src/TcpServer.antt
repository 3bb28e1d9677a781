-- ===== src/TcpServer.antt =====
-- include/tcp_server.h and src/tcp_server.cpp: the loop of TcpServer::start. The system calls are the
-- environment: a round is what they answer. The state of the callbacks is `S`. File descriptors are
-- below FD_SETSIZE.
pub mod Calls
pub mod Sessions
pub mod Keeps
use order_matching_engine.Prelude.{
  ℕ, ◌≡◌, contains, Bool, true, false, Option, none, some, List, [], ◌∷◌, ◌++◌, if◌then◌else◌,
}
use order_matching_engine.Prelude.Bytes.{Bytes}

-- What `recv` gives: some bytes, the end of the stream, or an error; `again` is EWOULDBLOCK or EAGAIN.
pub data Received : Type 0 where
  bytes : Bytes → Received
  closed : Received
  failed : (again : Bool) → Received

pub record Round : Type 0 where
  pub activity_failed : Bool  -- `select` is negative
  pub server_is_set : Bool
  pub is_set : ℕ → Bool
  pub accepted : Option ℕ
  pub received : ℕ → Received

-- `accept` gives a descriptor that no client has.
abbrev pub IsFresh : Round → List ℕ → Type 0
IsFresh round clients = (fd : ℕ) → round.accepted ≡ some fd → contains fd clients ≡ false

-- The three `std::function`s.
pub record Callbacks {ℓ} (S : Type ℓ) : Type ℓ where
  pub on_message : ℕ → Bytes → S → S
  pub on_connection : ℕ → S → S
  pub on_disconnection : ℕ → S → S

-- `clients` and what the callbacks work on.
pub record Server {ℓ} (S : Type ℓ) : Type ℓ where
  pub clients : List ℕ
  pub state : S

module _ {ℓ} {S : Type ℓ} (calls : Callbacks S) where
  -- Whether the client stays in the list, and the state after its turn.
  abbrev pub turn : Bool → Received → ℕ → S → Bool × S
  turn false r fd s = (true, s)
  turn true (bytes received) fd s = (true, calls.on_message fd received s)
  turn true closed fd s = (false, calls.on_disconnection fd s)
  turn true (failed again) fd s = if again then (true, s) else (false, calls.on_disconnection fd s)

  -- The loop over the clients.
  unfoldable pub serve_clients : Round → List ℕ → S → List ℕ × S
  serve_clients round [] s = ([], s)
  serve_clients round (fd ∷ fds) s =
      let (stays, s') = turn (round.is_set fd) (round.received fd) fd s in
      let (rest, s'') = serve_clients round fds s' in (if stays then fd ∷ rest else rest, s'')

  abbrev pub accept_client : Round → Server S → Server S
  accept_client round server =
      if round.server_is_set
      then elim round.accepted [
        | none ↦ server
        | some fd ↦ record {
          clients = server.clients ++ fd ∷ [];
          state = calls.on_connection fd server.state;
        }
      ]
      else server

  -- One round of the `while` loop.
  unfoldable pub run_round : Round → Server S → Server S
  run_round round server =
      if round.activity_failed
      then server
      else (let server' = accept_client round server in
          let (clients, state) = serve_clients round server'.clients server'.state in
          record { clients = clients; state = state })

  abbrev pub start : S → Server S
  start s = record { clients = []; state = s }

  -- What the loop can come to.
  pub data Reach (s : S) : Server S → Type ℓ where
    started : Reach s (start s)
    next :
        {server : Server S} (round : Round)
        → Reach s server
        → IsFresh round server.clients
        → Reach s (run_round round server)
