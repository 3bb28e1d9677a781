-- ===== src/Main.antt =====
-- src/main.cpp: the parts of the program put together, up to the server's loop. What `main` logs is
-- left out. `event_file` is the contents of bins/orders.bin, `none` if it cannot be opened; `blank` is
-- what the slots of a new pool hold.
pub mod Running
use order_matching_engine.Prelude.{
  ℕ, ◌≡◌, sym, ap, ◌∙◌, Bool, true, false, Option, none, some, List, [], ◌∷◌, if◌then◌else◌,
}
use order_matching_engine.Prelude.Bytes.{Bytes}
use order_matching_engine.Types.{Order, Trade}
use order_matching_engine.Config.{Config, Parsed, parsed, helped, threw, default_config, parse_args}
use order_matching_engine.Logger.{Logger, new_logger, set_min_level_named}
use order_matching_engine.Engine.{MatchingEngine, new_engine, process_new_order}
use order_matching_engine.Gateway.{ClientGateway}
use order_matching_engine.Gateway.Protocol.{NewOrderRequest, read_new_order}
use order_matching_engine.Gateway.Replies.{Outcome, ok, >>=-eq-ok, ok-inj, fault-ne-ok, order_of}
use order_matching_engine.Gateway.Orders.{
  after_processing, handle_new_order_internal, records, replay_records, replay_events,
}
use order_matching_engine.TcpServer.{Server, Reach}
use order_matching_engine.TcpServer.Calls.{gateway_calls}
use order_matching_engine.TcpServer.Sessions.{Agrees, reachable-Agrees}
use order_matching_engine.Prelude.{length}

-- Before the loop of the server: the program has ended, or there are its parts.
pub data Booted {ℓ} (A : Type ℓ) : Type ℓ where
  ended : Booted A
  listening : Config A → Logger → Outcome ClientGateway → Booted A

-- ClientGateway::startLogging opens the file to append to it.
abbrev pub new_gateway : MatchingEngine → Option Bytes → ClientGateway
new_gateway engine none = record {
  engine = engine;
  sessions = [];
  subscriptions = [];
  log_is_open = false;
  event_log = [];
  outbox = [];
}
new_gateway engine (some bytes) = record {
  engine = engine;
  sessions = [];
  subscriptions = [];
  log_is_open = true;
  event_log = bytes;
  outbox = [];
}

module _ (clock wall : ℕ → ℕ) (fuel : ℕ) where
  abbrev pub set_up : Bool → Order → Option Bytes → Outcome ClientGateway
  set_up replay_mode blank event_file =
      let g = new_gateway (new_engine blank 100000) event_file in
      if replay_mode then replay_events clock wall fuel event_file g else ok g

  abbrev pub boot_with {ℓ} : {A : Type ℓ} → Bool → Order → Option Bytes → Parsed A → Booted A
  boot_with log_opened blank event_file helped = ended
  boot_with log_opened blank event_file threw = ended
  boot_with log_opened blank event_file (parsed c) =
      listening c (set_min_level_named c.log_level (new_logger log_opened))
        (set_up c.replay_mode blank event_file)

  -- `log_opened`: the logger's own file could be opened.
  unfoldable pub boot {ℓ} :
      {A : Type ℓ} → (Bytes → Option A) → A → Bool → Order → Option Bytes → List Bytes → Booted A
  boot stoi default_port log_opened blank event_file args =
      boot_with log_opened blank event_file (parse_args stoi args (default_config default_port))

  -- A replayed order opens no session.
  internal-sessions :
      (req : NewOrderRequest) (g g' : ClientGateway)
      → handle_new_order_internal clock wall fuel 0 req true g ≡ ok g'
      → g'.sessions ≡ g.sessions
  unfolding handle_new_order_internal
  internal-sessions req g g' h = go (process_new_order clock fuel (order_of req) g.engine) h
    where
      go :
          (r : Option (List Trade × MatchingEngine))
          → after_processing clock wall fuel 0 req true g r ≡ ok g'
          → g'.sessions ≡ g.sessions
      go none h = absurd (fault-ne-ok h)
      go (some (trades, e)) h = ap (λ (k : ClientGateway). k.sessions) (sym (ok-inj h))

  replay_records-sessions :
      (rs : List Bytes) (g g' : ClientGateway)
      → replay_records clock wall fuel rs g ≡ ok g'
      → g'.sessions ≡ g.sessions
  unfolding replay_records
  replay_records-sessions [] g g' h = ap (λ (k : ClientGateway). k.sessions) (sym (ok-inj h))
  replay_records-sessions (r ∷ rs) g g' h =
      let (g1, one, others) =
        >>=-eq-ok _ (handle_new_order_internal clock wall fuel 0 (read_new_order r) true g) h in
      replay_records-sessions rs g1 g' others ∙ internal-sessions (read_new_order r) g g1 one

  set_up-sessions :
      (replay_mode : Bool) (blank : Order) (event_file : Option Bytes) (g : ClientGateway)
      → set_up replay_mode blank event_file ≡ ok g
      → g.sessions ≡ []
  unfolding replay_events
  set_up-sessions false blank none g h = ap (λ (k : ClientGateway). k.sessions) (sym (ok-inj h))
  set_up-sessions false blank (some bytes) g h =
      ap (λ (k : ClientGateway). k.sessions) (sym (ok-inj h))
  set_up-sessions true blank none g h = ap (λ (k : ClientGateway). k.sessions) (sym (ok-inj h))
  set_up-sessions true blank (some bytes) g h =
      replay_records-sessions (records (length bytes) bytes)
        (new_gateway (new_engine blank 100000) (some bytes)) g h

  -- However the program is started, with or without a replay of the event file, if it comes to the
  -- server's loop without a fault, then whatever the system calls answer there, as long as `accept`
  -- gives no descriptor that a client has: the server's clients are distinct, and unless something
  -- was undefined they are exactly those for which the gateway has a session.
  pub boot-Agrees {ℓ} :
      {A : Type ℓ} (stoi : Bytes → Option A) (default_port : A) (log_opened : Bool) (blank : Order)
      (event_file : Option Bytes) (args : List Bytes) (c : Config A) (l : Logger)
      (g : ClientGateway) (server : Server (Outcome ClientGateway))
      → boot stoi default_port log_opened blank event_file args ≡ listening c l (ok g)
      → Reach (gateway_calls clock wall fuel) (ok g) server
      → Agrees clock wall fuel server
  unfolding boot
  boot-Agrees stoi default_port log_opened blank event_file args c l g server h r =
      reachable-Agrees clock wall fuel g server
        (go (parse_args stoi args (default_config default_port)) h) r
    where
      go :
          (p : _) → boot_with log_opened blank event_file p ≡ listening c l (ok g) → g.sessions ≡ []
      go helped h = cc
      go threw h = cc
      go (parsed c') h =
          let is : set_up c'.replay_mode blank event_file ≡ ok g = cc in
          set_up-sessions c'.replay_mode blank event_file g is
