-- ===== src/Gateway/Replay.antt =====
-- ClientGateway::replayEvents (src/client_gateway.cpp) on the log that handleNewOrder wrote.
use mathlib.Core.List.{append_assoc, append-nil}
use order_matching_engine.Prelude.{
  ℕ, zero, suc, ◌≤◌, ◌≡◌, refl, sym, ap, subst, ◌∙◌, Bool, true, false, not, some, List, [], ◌∷◌,
  ◌++◌, if◌then◌else◌, ltb, length, length-append, take, All, arith,
}
use order_matching_engine.Prelude.Bytes.{Bytes}
use order_matching_engine.Engine.{MatchingEngine}
use order_matching_engine.Engine.Times.Clocks.{SameButTimes, process_new_order-SameButTimes}
use order_matching_engine.Gateway.Protocol.{read_new_order, new_order_size}
use order_matching_engine.Gateway.{Session, ClientGateway, session_of, touch}
use order_matching_engine.Gateway.Framing.{concat, take-append, drop_bytes-append}
use order_matching_engine.Gateway.Guards.{session_of-with_session}
use order_matching_engine.Gateway.Replies.{Outcome, ok, >>=-eq-ok, ok-inj, ◌>>=◌, order_of}
use order_matching_engine.Gateway.Orders.{
  log_bytes, handle_new_order_internal, handle_new_order, records, replay_records, replay_events,
}
use order_matching_engine.Gateway.Advancing.{live-Advances, replay_advances}

abbrev IsRecord : Bytes → Type 0
IsRecord p = length p ≡ new_order_size

-- What was written record by record is read record by record.
records-concat :
    (rounds : ℕ) (ps : List Bytes)
    → All IsRecord ps
    → length (concat ps) ≤ rounds
    → records rounds (concat ps) ≡ ps
unfolding records
records-concat zero [] a h = refl
records-concat zero (p ∷ ps) a h = absurd (omega (arith, length-append p (concat ps), a.0))
records-concat (suc rounds) [] a h = refl
records-concat (suc rounds) (p ∷ ps) a h =
    let size = length-append p (concat ps) in
    let more : ltb (length (p ++ concat ps)) new_order_size ≡ false = ground (arith, size, a.0) in
    rw (more, records)
      (λ i.
        take-append new_order_size p (concat ps) a.0 i
        ∷ (ap (records rounds) (drop_bytes-append new_order_size p (concat ps) a.0)
              ∙ records-concat rounds ps a.1 (omega (arith, size, a.0)))
            i)

module _ (clock wall : ℕ → ℕ) (fuel fd : ℕ) where
  -- The packets handled one after the other, as long as nothing is undefined.
  abbrev pub live : List Bytes → ClientGateway → Outcome ClientGateway
  live [] g = ok g
  live (p ∷ ps) g = handle_new_order clock wall fuel fd p g >>= live ps

-- The clocks of the program that is replaying are `clock'` and `wall'`.
module _ (clock wall clock' wall' : ℕ → ℕ) (fuel fd : ℕ) where
  abbrev CanLog : ClientGateway → Type 0
  CanLog g = ((session_of fd g).logged_in ≡ true) × (g.log_is_open ≡ true)

  -- One packet, live and from the log.
  handled :
      (p : Bytes) (g g' : ClientGateway)
      → CanLog g
      → IsRecord p
      → handle_new_order clock wall fuel fd p g ≡ ok g'
      → CanLog g'
        × (g'.event_log ≡ g.event_log ++ p)
        × ((r : ClientGateway)
            → SameButTimes r.engine g.engine
            → (d : MatchingEngine) × (handle_new_order_internal clock' wall' fuel 0
                  (read_new_order p)
                  true
                  r
                ≡ ok (record r { engine = d }))
              × SameButTimes d g'.engine)
  unfolding handle_new_order session_of
  handled p g g' (logged, open') whole h =
      let req = read_new_order p in
      let g1 = log_bytes new_order_size p (touch fd g) in
      let h' : handle_new_order_internal clock wall fuel fd req false g1 ≡ ok g' =
        subst
          (λ (b : Bool).
            (if not b
              then ok (touch fd g)
              else handle_new_order_internal clock wall fuel fd req false g1)
            ≡ ok g')
          logged h in
      let exact : take new_order_size p ≡ p =
        sym (ap (take new_order_size) (append-nil p)) ∙ take-append new_order_size p [] whole in
      let (trades, e, is, (ps, sent_only)) = live-Advances clock wall fuel fd req g1 g' h' in
      (
        (
          ap (λ (x : ClientGateway). (session_of fd x).logged_in) sent_only
              ∙ ap (λ (s : Session). s.logged_in) (session_of-with_session fd (session_of fd g) g)
              ∙ logged,
          ap (λ (x : ClientGateway). x.log_is_open) sent_only ∙ open',
        ),
        ap (λ (x : ClientGateway). x.event_log) sent_only
            ∙ ap (λ (b : Bool). if b then g.event_log ++ take new_order_size p else g.event_log)
                open'
            ∙ ap (λ (l : Bytes). g.event_log ++ l) exact,
        λ r same.
            let (trades', d, is', same') =
              process_new_order-SameButTimes clock clock' fuel (order_of req) g.engine r.engine e
                trades same is in
            (
              d,
              replay_advances clock' wall' fuel fd req 0 r trades' d is',
              subst (SameButTimes d) (sym (ap (λ (x : ClientGateway). x.engine) sent_only)) same',
            ),
      )

  abbrev Follows : List Bytes → ClientGateway → ClientGateway → ClientGateway → Type 0
  Follows ps g g' r =
      (g'.event_log ≡ g.event_log ++ concat ps)
      × ((r' : ClientGateway) × (replay_records clock' wall' fuel ps r ≡ ok r')
          × SameButTimes r'.engine g'.engine)

  follows :
      (ps : List Bytes) (g g' r : ClientGateway)
      → CanLog g
      → All IsRecord ps
      → SameButTimes r.engine g.engine
      → live clock wall fuel fd ps g ≡ ok g'
      → Follows ps g g' r
  unfolding replay_records
  follows [] g g' r can whole same h = (
    ap (λ (x : ClientGateway). x.event_log) (sym (ok-inj h)) ∙ sym (append-nil g.event_log),
    (r, refl, subst (λ (x : ClientGateway). SameButTimes r.engine x.engine) (ok-inj h) same),
  )
  follows (p ∷ ps) g g' r can whole same h =
      let (g1, first, others) = >>=-eq-ok _ (handle_new_order clock wall fuel fd p g) h in
      let (can', log, replayed) = handled p g g1 can whole.0 first in
      let (d, is, after) = replayed r same in
      let (logs, (r', are, same')) =
        follows ps g1 g' (record r { engine = d }) can' whole.1 after others in
      (
        logs ∙ ap (λ (l : Bytes). l ++ concat ps) log ∙ append_assoc g.event_log p (concat ps),
        (
          r',
          ap (λ (x : Outcome ClientGateway). x >>= replay_records clock' wall' fuel ps) is ∙ are,
          same',
        ),
      )

  -- When a client that is logged in has sent orders of 49 bytes one after the other, with an open
  -- log that was empty, and nothing was undefined, the log is replayed without a fault, whatever
  -- the clocks say at that time, from any engine that is the one from before but for the timestamps
  -- of its trades; and that gives the engine that there is now but for the timestamps of its
  -- trades: the same pool, the same books, the same statistics, and the same trades in the history.
  pub replay_events-live :
      (packets : List Bytes) (g g' r : ClientGateway)
      → (session_of fd g).logged_in ≡ true
      → g.log_is_open ≡ true
      → g.event_log ≡ []
      → All (λ p. length p ≡ new_order_size) packets
      → SameButTimes r.engine g.engine
      → live clock wall fuel fd packets g ≡ ok g'
      → (r' : ClientGateway) × (replay_events clock' wall' fuel (some g'.event_log) r ≡ ok r')
        × SameButTimes r'.engine g'.engine
  unfolding replay_events
  replay_events-live packets g g' r logged open' empty whole same h =
      let (log, (r', are, same')) = follows packets g g' r (logged, open') whole same h in
      let is : g'.event_log ≡ concat packets =
        log ∙ ap (λ (l : Bytes). l ++ concat packets) empty in
      (
        r',
        ap (λ (l : Bytes). replay_records clock' wall' fuel (records (length l) l) r) is
            ∙ ap (λ (rs : List Bytes). replay_records clock' wall' fuel rs r)
                (records-concat (length (concat packets)) packets whole (omega arith))
            ∙ are,
        same',
      )
