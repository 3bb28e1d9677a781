-- ===== src/Gateway/Isolation.antt =====
-- ClientGateway::onMessage (src/client_gateway.cpp) changes the session of one client only.
use order_matching_engine.Prelude.{
  ℕ, zero, suc, ◌≡◌, refl, sym, ap, subst, ◌∙◌, Bool, true, false, not, ◌&&◌, Option, none, some,
  List, [], ◌∷◌, ◌++◌, if◌then◌else◌, ltb, length, inl, inr, Option-cases, Bool-cases,
}
use order_matching_engine.Prelude.Bytes.{Bytes}
use order_matching_engine.Gateway.Protocol.{
  MessageType, message_type, read_new_order, read_symbol, read_subscription, new_order_size,
  cancel_size, market_data_size, subscription_size,
}
use order_matching_engine.Gateway.{ClientGateway, session_of, touch, with_session, handle_login}
use order_matching_engine.Gateway.Framing.{next_packet, serve, process_all, on_message}
use order_matching_engine.Gateway.Replies.{
  Fault, Outcome, ok, fault, ◌>>=◌, >>=-eq-ok, ok-inj, fault-ne-ok,
}
use order_matching_engine.Gateway.Orders.{
  log_bytes, reading, keep_rest, handle_new_order, handle_new_order_internal, process_packet,
  receive,
}
use order_matching_engine.Gateway.Advancing.{live-Advances}
use order_matching_engine.Gateway.OwnSession.{
  has_session, IsOwn, trans-IsOwn, same_sessions-IsOwn, with_session-has, with_session-IsOwn,
  touched-IsOwn, subscription-sessions, market_data-sessions, cancel-sessions,
}

-- Whenever the loop of `onMessage` returns, it has processed some packets.
abbrev pub Ran {ℓ} : {S : Type ℓ} → (Bytes → S → S) → S → Option (Bytes × S) → Type ℓ
Ran process s none = Unit
Ran process s (some (rest, s')) = (ps : List Bytes) × (s' ≡ process_all process ps s)

pub serve-Ran {ℓ} :
    {S : Type ℓ} (process : Bytes → S → S) (n : ℕ) (buffer : Bytes) (s : S)
    → Ran process s (serve process n buffer s)
unfolding serve
serve-Ran {S} process zero buffer s = tt
serve-Ran {S} process (suc n) buffer s = elim (Option-cases (next_packet buffer)) [
  | inl stop ↦ rw (stop, serve) ([], refl)
  | inr ((packet, rest), next) ↦
      rw (next, serve)
        (more packet (serve process n rest (process packet s))
          (serve-Ran process n rest (process packet s)))
]
  where
    more :
        (packet : Bytes) (r : Option (Bytes × S))
        → Ran process (process packet s) r
        → Ran process s r
    more packet none h = tt
    more packet (some (rest, s')) (ps, is) = (packet ∷ ps, is)

module _ (clock wall : ℕ → ℕ) (fuel fd : ℕ) where
  new_order-sessions :
      (packet : Bytes) (g g' : ClientGateway)
      → handle_new_order clock wall fuel fd packet g ≡ ok g'
      → g'.sessions ≡ (touch fd g).sessions
  unfolding handle_new_order
  new_order-sessions packet g g' h = go (session_of fd g).logged_in h
    where
      go :
          (b : Bool)
          → (if not b
              then ok (touch fd g)
              else handle_new_order_internal clock wall fuel fd
                  (read_new_order packet)
                  false
                  (log_bytes new_order_size packet (touch fd g)))
            ≡ ok g'
          → g'.sessions ≡ (touch fd g).sessions
      go false h = ap (λ (x : ClientGateway). x.sessions) (sym (ok-inj h))
      go true h =
          let (_, _, _, (ps, is)) =
            live-Advances clock wall fuel fd (read_new_order packet)
              (log_bytes new_order_size packet (touch fd g)) g' h in
          ap (λ (x : ClientGateway). x.sessions) is

  -- What passed the check of a packet's length.
  pub read_through :
      (n : ℕ) (packet : Bytes) (g g' : ClientGateway) (r : Outcome ClientGateway)
      → reading n fd packet g r ≡ ok g'
      → r ≡ ok g'
  read_through n packet g g' r h =
      elim (Bool-cases ((session_of fd g).logged_in && ltb (length packet) n)) [
        | inl short ↦ absurd (fault-ne-ok (rw (short, reading) at h))
        | inr fits ↦ rw (fits, reading) at h
      ]

  packet-IsOwn :
      (packet : Bytes) (g g' : ClientGateway) (type : MessageType)
      → message_type packet ≡ type
      → process_packet clock wall fuel fd packet g ≡ ok g'
      → IsOwn fd g g'
  unfolding process_packet handle_login
  packet-IsOwn packet g g' MessageType.login_request is h =
      let h' : ok (handle_login fd g) ≡ ok g' = rw (is, process_packet) at h in
      subst (IsOwn fd g) (ok-inj h') (
        trans-IsOwn
          (with_session-IsOwn fd (record (session_of fd g) { logged_in = true; user_id = fd }) g)
          (same_sessions-IsOwn fd _ (handle_login fd g) refl))
  packet-IsOwn packet g g' MessageType.new_order is h = touched-IsOwn fd g g' (
      new_order-sessions packet g g'
        (read_through new_order_size packet g g' _ (rw (is, process_packet) at h)))
  packet-IsOwn packet g g' MessageType.market_data_request is h = touched-IsOwn fd g g' (
      ap (λ (x : ClientGateway). x.sessions)
        (sym (ok-inj (read_through market_data_size packet g g' _ (rw (is, process_packet) at h))))
      ∙ market_data-sessions fd (read_symbol packet) g)
  packet-IsOwn packet g g' MessageType.subscription_request is h = touched-IsOwn fd g g' (
      ap (λ (x : ClientGateway). x.sessions)
        (sym (ok-inj (read_through subscription_size packet g g' _ (rw (is, process_packet) at h))))
      ∙ subscription-sessions fd (read_subscription packet) g)
  packet-IsOwn packet g g' MessageType.order_cancel is h = touched-IsOwn fd g g' (
      ap (λ (x : ClientGateway). x.sessions)
        (sym (ok-inj (read_through cancel_size packet g g' _ (rw (is, process_packet) at h))))
      ∙ cancel-sessions fd packet g)
  packet-IsOwn packet g g' MessageType.unknown is h =
      same_sessions-IsOwn fd g g'
        (ap (λ (x : ClientGateway). x.sessions) (sym (ok-inj (rw (is, process_packet) at h))))

  abbrev pub each : Bytes → Outcome ClientGateway → Outcome ClientGateway
  each packet r = r >>= process_packet clock wall fuel fd packet

  process_all-fault : (ps : List Bytes) (e : Fault) → process_all each ps (fault e) ≡ fault e
  process_all-fault [] e = refl
  process_all-fault (p ∷ ps) e = process_all-fault ps e

  packets-IsOwn :
      (ps : List Bytes) (g g' : ClientGateway) → process_all each ps (ok g) ≡ ok g' → IsOwn fd g g'
  packets-IsOwn [] g g' h =
      same_sessions-IsOwn fd g g' (ap (λ (x : ClientGateway). x.sessions) (sym (ok-inj h)))
  packets-IsOwn (p ∷ ps) g g' h =
      go (process_packet clock wall fuel fd p g) refl (λ g1. packets-IsOwn ps g1 g') h
    where
      go :
          (r : Outcome ClientGateway)
          → process_packet clock wall fuel fd p g ≡ r
          → ((g1 : ClientGateway) → process_all each ps (ok g1) ≡ ok g' → IsOwn fd g1 g')
          → process_all each ps r ≡ ok g'
          → IsOwn fd g g'
      go (fault e) is ih h = absurd (fault-ne-ok (sym (process_all-fault ps e) ∙ h))
      go (ok g1) is ih h = trans-IsOwn (packet-IsOwn p g g1 (message_type p) refl is) (ih g1 h)

  -- When the bytes of a client were handled and nothing was undefined, the sessions of the other
  -- clients are as they were, the client has a session, and no client has two if none had.
  pub receive-IsOwn :
      (rounds : ℕ) (received : Bytes) (g g' : ClientGateway)
      → receive clock wall fuel rounds fd received g ≡ ok g'
      → IsOwn fd g g' × (has_session fd g' ≡ true)
  unfolding receive on_message
  receive-IsOwn rounds received g g' h =
      go (on_message each rounds received (session_of fd g).buffer (ok (touch fd g)))
        (serve-Ran each rounds ((session_of fd g).buffer ++ received) (ok (touch fd g))) h
    where
      go :
          (r : Option (Bytes × Outcome ClientGateway))
          → Ran each (ok (touch fd g)) r
          → keep_rest clock wall fuel fd r ≡ ok g'
          → IsOwn fd g g' × (has_session fd g' ≡ true)
      go none ran h = absurd (fault-ne-ok h)
      go (some (rest, r)) (ps, is) h =
          let (g1, done, next) = >>=-eq-ok _ r h in
          let end : with_session fd (record (session_of fd g1) { buffer = rest }) g1 ≡ g' =
            ok-inj next in
          (
            trans-IsOwn (with_session-IsOwn fd (session_of fd g) g) (
                trans-IsOwn (packets-IsOwn ps (touch fd g) g1 (sym is ∙ done)) (
                  subst (IsOwn fd g1) end
                    (with_session-IsOwn fd (record (session_of fd g1) { buffer = rest }) g1))),
            subst (λ (x : ClientGateway). has_session fd x ≡ true) end
                (with_session-has fd (record (session_of fd g1) { buffer = rest }) g1),
          )
