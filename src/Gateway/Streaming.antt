-- ===== src/Gateway/Streaming.antt =====
-- ClientGateway::onMessage (src/client_gateway.cpp): how the bytes are cut into calls does not matter.
use order_matching_engine.Prelude.{
  ℕ, zero, suc, ◌<◌, ◌≡◌, refl, sym, ap, subst, ◌∙◌, Option, some, ◌++◌, length, length-append,
  arith, inl, inr, Option-cases,
}
use order_matching_engine.Prelude.Bytes.{Bytes}
use order_matching_engine.Gateway.Protocol.{msg_len}
use order_matching_engine.Gateway.Framing.{
  next_packet, serve, on_message, IsPacket, next_packet-Cuts, msg_len-append, take-append,
  drop_bytes-append, append_assoc,
}

-- A packet at the front of a buffer is found.
next_packet-append : (p rest : Bytes) → IsPacket p → next_packet (p ++ rest) ≡ some (p, rest)
unfolding next_packet
next_packet-append p rest (size, long, short) =
    let header = msg_len-append p rest (omega arith) in
    let total = length-append p rest in
    let front = take-append (msg_len p) p rest size in
    let back = drop_bytes-append (msg_len p) p rest size in
    rw header (ground (arith, total, front, back, size, long, short))

-- More bytes behind a buffer do not change the packet at its front.
next_packet-grows :
    (buffer more packet rest : Bytes)
    → next_packet buffer ≡ some (packet, rest)
    → next_packet (buffer ++ more) ≡ some (packet, rest ++ more)
next_packet-grows buffer more packet rest h =
    let c = next_packet-Cuts buffer packet rest h in
    ap (λ (l : Bytes). next_packet (l ++ more)) (sym c.whole)
    ∙ ap next_packet (append_assoc packet rest more)
    ∙ next_packet-append packet (rest ++ more) c.is_packet

module _ {ℓ} {S : Type ℓ} (process : Bytes → S → S) where
  -- Any fuel that is enough gives the same.
  serve-enough :
      (n k : ℕ) (buffer : Bytes) (s : S)
      → length buffer < n
      → length buffer < k
      → serve process n buffer s ≡ serve process k buffer s
  unfolding serve
  serve-enough zero k buffer s hn hk = absurd (omega arith)
  serve-enough (suc n) zero buffer s hn hk = absurd (omega arith)
  serve-enough (suc n) (suc k) buffer s hn hk = elim (Option-cases (next_packet buffer)) [
    | inl stop ↦ rw (stop, serve) refl
    | inr ((packet, rest), go) ↦
        let c = next_packet-Cuts buffer packet rest go in
        rw (go, serve)
          (serve-enough n k rest (process packet s) (omega (arith, c.shorter))
            (omega (arith, c.shorter)))
  ]

  serve-append :
      (m n k : ℕ) (buffer more rest : Bytes) (s s' : S)
      → serve process m buffer s ≡ some (rest, s')
      → length (buffer ++ more) < n
      → length (rest ++ more) < k
      → serve process n (buffer ++ more) s ≡ serve process k (rest ++ more) s'
  unfolding serve
  serve-append zero n k buffer more rest s s' h hn hk = cc
  serve-append (suc m) zero k buffer more rest s s' h hn hk = absurd (omega arith)
  serve-append (suc m) (suc n) k buffer more rest s s' h hn hk =
      elim (Option-cases (next_packet buffer)) [
        | inl stop ↦
            let same : ◌≡◌ {A = Option (Bytes × S)} (some (buffer, s)) (some (rest, s')) =
              rw (stop, serve) at h in
            let b : rest ≡ buffer = cc in
            let e : s ≡ s' = cc in
            serve-enough (suc n) k (buffer ++ more) s hn
              (subst (λ (l : Bytes). length (l ++ more) < k) b hk)
            ∙ (λ i. serve process k (sym b i ++ more) (e i))
        | inr ((packet, left), go) ↦
            let next : serve process m left (process packet s) ≡ some (rest, s') =
              rw (go, serve) at h in
            let c = next_packet-Cuts buffer packet left go in
            rw (next_packet-grows buffer more packet left go, serve)
              (serve-append m n k left more rest (process packet s) s' next
                (omega (arith, c.shorter, length-append left more, length-append buffer more)) hk)
      ]

  -- It does not matter how bytes are cut into calls: when a first call has handled some bytes, a
  -- second call for the bytes behind them, with the buffer that the first one left, ends as one
  -- call for all of them does, the fuel of both being more than there are bytes.
  pub on_message-append :
      (m n k : ℕ) (buffer xs ys rest : Bytes) (s s' : S)
      → on_message process m xs buffer s ≡ some (rest, s')
      → length (buffer ++ (xs ++ ys)) < n
      → length (rest ++ ys) < k
      → on_message process n (xs ++ ys) buffer s ≡ on_message process k ys rest s'
  unfolding on_message
  on_message-append m n k buffer xs ys rest s s' h hn hk =
      ap (λ (l : Bytes). serve process n l s) (sym (append_assoc buffer xs ys))
      ∙ serve-append m n k (buffer ++ xs) ys rest s s' h
          (subst (λ (l : Bytes). length l < n) (sym (append_assoc buffer xs ys)) hn) hk
