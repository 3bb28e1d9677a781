-- ===== src/Main/Running.antt =====
-- src/main.cpp: what the running program does to its matching engine.
use order_matching_engine.Prelude.{
  ℕ, suc, ◌≡◌, subst, ◌++◌, Bool, true, false, Option, none, some, List, length,
}
use order_matching_engine.Prelude.Bytes.{Bytes}
use order_matching_engine.Types.{Order}
use order_matching_engine.Config.{Config, parsed, helped, threw, default_config, parse_args}
use order_matching_engine.Logger.{Logger}
use order_matching_engine.Engine.{MatchingEngine, new_engine}
use order_matching_engine.Engine.Calls.{no_calls}
use order_matching_engine.Gateway.{ClientGateway, session_of, on_connection, on_disconnection}
use order_matching_engine.Gateway.Replies.{Outcome, ok, fault}
use order_matching_engine.Gateway.Calls.{Called}
use order_matching_engine.Gateway.Calls.Received.{receive-Called, replay_events-Called}
use order_matching_engine.TcpServer.{Server, Reach}
use order_matching_engine.TcpServer.Calls.{gateway_calls}
use order_matching_engine.TcpServer.Keeps.{Reach-keeps}
use order_matching_engine.Main.{boot, boot_with, set_up, listening}

module _ (clock wall : ℕ → ℕ) (fuel : ℕ) where
  Reach-Called :
      (e : MatchingEngine) (r : Outcome ClientGateway) (server : Server (Outcome ClientGateway))
      → Called clock wall fuel e r
      → Reach (gateway_calls clock wall fuel) r server
      → Called clock wall fuel e server.state
  unfolding on_connection on_disconnection
  Reach-Called e r server calls reached =
      Reach-keeps (gateway_calls clock wall fuel) (Called clock wall fuel e) message connection
        disconnection r server calls reached
    where
      message :
          (fd : ℕ) (received : Bytes) (s : Outcome ClientGateway)
          → Called clock wall fuel e s
          → Called clock wall fuel e ((gateway_calls clock wall fuel).on_message fd received s)
      message fd received (fault why) c = tt
      message fd received (ok g) c =
          receive-Called clock wall fuel e fd (suc (length ((session_of fd g).buffer ++ received)))
            received g c

      connection :
          (fd : ℕ) (s : Outcome ClientGateway)
          → Called clock wall fuel e s
          → Called clock wall fuel e ((gateway_calls clock wall fuel).on_connection fd s)
      connection fd (fault why) c = tt
      connection fd (ok g) c = c

      disconnection :
          (fd : ℕ) (s : Outcome ClientGateway)
          → Called clock wall fuel e s
          → Called clock wall fuel e ((gateway_calls clock wall fuel).on_disconnection fd s)
      disconnection fd (fault why) c = tt
      disconnection fd (ok g) c = c

  set_up-Called :
      (replay_mode : Bool) (blank : Order) (event_file : Option Bytes)
      → Called clock wall fuel
          (new_engine blank 100000)
          (set_up clock wall fuel replay_mode blank event_file)
  set_up-Called false blank none = no_calls
  set_up-Called false blank (some log) = no_calls
  set_up-Called true blank none = replay_events-Called clock wall fuel _ none _ no_calls
  set_up-Called true blank (some log) = replay_events-Called clock wall fuel _ (some log) _ no_calls

  module _ {ℓ} {A : Type ℓ} (stoi : Bytes → Option A) (default_port : A) (log_opened : Bool)
      (blank : Order) (event_file : Option Bytes) (args : List Bytes) where
    booted-Called :
        (c : Config A) (l : Logger) (r : Outcome ClientGateway)
        → boot clock wall fuel stoi default_port log_opened blank event_file args ≡ listening c l r
        → Called clock wall fuel (new_engine blank 100000) r
    unfolding boot
    booted-Called c l r h = go (parse_args stoi args (default_config default_port)) h
      where
        go :
            (p : _)
            → boot_with clock wall fuel log_opened blank event_file p ≡ listening c l r
            → Called clock wall fuel (new_engine blank 100000) r
        go helped h = cc
        go threw h = cc
        go (parsed c') h =
            let is : set_up clock wall fuel c'.replay_mode blank event_file ≡ r = cc in
            subst (Called clock wall fuel (new_engine blank 100000)) is
              (set_up-Called c'.replay_mode blank event_file)

    -- However the program is started, with or without a replay of the event file, and whatever
    -- clients and system calls do then, as long as `accept` gives no descriptor that a client has:
    -- unless something was undefined, the engine of the program is what a sequence of calls of
    -- `process_new_order` that returned and of `cancel_order` makes of the engine that it started
    -- with.
    pub boot-Called :
        (c : Config A) (l : Logger) (r : Outcome ClientGateway)
        (server : Server (Outcome ClientGateway))
        → boot clock wall fuel stoi default_port log_opened blank event_file args ≡ listening c l r
        → Reach (gateway_calls clock wall fuel) r server
        → Called clock wall fuel (new_engine blank 100000) server.state
    boot-Called c l r server h reached = Reach-Called _ r server (booted-Called c l r h) reached
