-- ===== src/Gateway/Calls/Received.antt =====
-- ClientGateway::onMessage and replayEvents (src/client_gateway.cpp) change the matching engine by its
-- calls only.
use order_matching_engine.Prelude.{
  ℕ, ◌≡◌, refl, sym, subst, true, Option, none, some, List, [], ◌∷◌, ◌++◌, length,
}
use order_matching_engine.Prelude.Bytes.{Bytes}
use order_matching_engine.Types.{Trade}
use order_matching_engine.Engine.{MatchingEngine, process_new_order}
use order_matching_engine.Engine.Calls.{placing}
use order_matching_engine.Gateway.Protocol.{message_type, read_new_order}
use order_matching_engine.Gateway.{ClientGateway, session_of, touch}
use order_matching_engine.Gateway.Framing.{process_all, on_message}
use order_matching_engine.Gateway.Replies.{Outcome, ok, fault, ◌>>=◌, order_of}
use order_matching_engine.Gateway.Orders.{
  keep_rest, after_processing, handle_new_order_internal, process_packet, receive, records,
  replay_records, replay_events,
}
use order_matching_engine.Gateway.Isolation.{Ran, serve-Ran, each}
use order_matching_engine.Gateway.Calls.{Called, packet-Called}

module _ (clock wall : ℕ → ℕ) (fuel : ℕ) (e : MatchingEngine) where
  -- It is enough to look at what is not undefined.
  then_Called :
      (r : Outcome ClientGateway)
      → ((g' : ClientGateway) → r ≡ ok g' → Called clock wall fuel e (ok g'))
      → Called clock wall fuel e r
  then_Called (fault why) h = tt
  then_Called (ok g) h = h g refl

  each-Called :
      (fd : ℕ) (packet : Bytes) (r : Outcome ClientGateway)
      → Called clock wall fuel e r
      → Called clock wall fuel e (each clock wall fuel fd packet r)
  each-Called fd packet (fault why) calls = tt
  each-Called fd packet (ok g) calls =
      then_Called (process_packet clock wall fuel fd packet g) (λ g' is.
        packet-Called clock wall fuel e fd packet g g' (message_type packet) refl is calls)

  packets-Called :
      (fd : ℕ) (ps : List Bytes) (r : Outcome ClientGateway)
      → Called clock wall fuel e r
      → Called clock wall fuel e (process_all (each clock wall fuel fd) ps r)
  packets-Called fd [] r calls = calls
  packets-Called fd (p ∷ ps) r calls = packets-Called fd ps _ (each-Called fd p r calls)

  pub receive-Called :
      (fd rounds : ℕ) (received : Bytes) (g : ClientGateway)
      → Called clock wall fuel e (ok g)
      → Called clock wall fuel e (receive clock wall fuel rounds fd received g)
  unfolding receive on_message
  receive-Called fd rounds received g calls =
      go
        (on_message (each clock wall fuel fd) rounds received (session_of fd g).buffer
          (ok (touch fd g)))
        (serve-Ran (each clock wall fuel fd) rounds ((session_of fd g).buffer ++ received)
          (ok (touch fd g)))
    where
      go :
          (x : Option (Bytes × Outcome ClientGateway))
          → Ran (each clock wall fuel fd) (ok (touch fd g)) x
          → Called clock wall fuel e (keep_rest clock wall fuel fd x)
      go none ran = tt
      go (some (rest, r)) (ps, is) =
          kept r (
            subst (Called clock wall fuel e) (sym is)
              (packets-Called fd ps (ok (touch fd g)) calls))
        where
          kept :
              (r : Outcome ClientGateway)
              → Called clock wall fuel e r
              → Called clock wall fuel e (keep_rest clock wall fuel fd (some (rest, r)))
          kept (fault why) calls = tt
          kept (ok g1) calls = calls

  replay_records-Called :
      (rs : List Bytes) (g : ClientGateway)
      → Called clock wall fuel e (ok g)
      → Called clock wall fuel e (replay_records clock wall fuel rs g)
  unfolding replay_records handle_new_order_internal
  replay_records-Called [] g calls = calls
  replay_records-Called (r ∷ rs) g calls =
      go (process_new_order clock fuel (order_of (read_new_order r)) g.engine) refl
        (λ g1. replay_records-Called rs g1)
    where
      go :
          (x : Option (List Trade × MatchingEngine))
          → process_new_order clock fuel (order_of (read_new_order r)) g.engine ≡ x
          → ((g1 : ClientGateway)
              → Called clock wall fuel e (ok g1)
              → Called clock wall fuel e (replay_records clock wall fuel rs g1))
          → Called clock wall fuel e (
              after_processing clock wall fuel 0 (read_new_order r) true g x
              >>= replay_records clock wall fuel rs)
      go none is ih = tt
      go (some (trades, e')) is ih =
          ih (record g { engine = e' }) (placing (order_of (read_new_order r)) trades calls is)

  pub replay_events-Called :
      (log : Option Bytes) (g : ClientGateway)
      → Called clock wall fuel e (ok g)
      → Called clock wall fuel e (replay_events clock wall fuel log g)
  unfolding replay_events
  replay_events-Called none g calls = calls
  replay_events-Called (some log) g calls = replay_records-Called (records (length log) log) g calls
