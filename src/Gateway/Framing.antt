-- ===== src/Gateway/Framing.antt =====
-- ClientGateway::onMessage (src/client_gateway.cpp): the loop that cuts the session's buffer into
-- packets. A header with an invalid length ends the loop, and the bytes stay in the buffer.
use order_matching_engine.Prelude.{
  ℕ, zero, suc, ◌+◌, ◌<◌, ◌≤◌, ◌≡◌, refl, ap, sym, ◌∙◌, true, ◌||◌, Option, none, some, List, [],
  ◌∷◌, ◌++◌, ltb, if◌then◌else◌, length, take, All, arith, Option-cases, inl, inr,
}
use order_matching_engine.Prelude.Bytes.{Bytes}
use order_matching_engine.Gateway.Protocol.{header_size, msg_len, drop_bytes}

-- The packet at the front of a buffer and the bytes behind it, if it is there in full.
unfoldable pub next_packet : Bytes → Option (Bytes × Bytes)
next_packet buffer =
    if ltb (length buffer) header_size
    then none
    else if ltb 1024 (msg_len buffer) || ltb (msg_len buffer) header_size
    then none
    else if ltb (length buffer) (msg_len buffer)
    then none
    else some (take (msg_len buffer) buffer, drop_bytes (msg_len buffer) buffer)

module _ {ℓ} {S : Type ℓ} (process : Bytes → S → S) where
  -- The `while` loop, on fuel: the bytes that are left, and what `process` made of the packets.
  unfoldable pub serve : ℕ → Bytes → S → Option (Bytes × S)
  serve zero buffer s = none
  serve (suc fuel) buffer s = elim (next_packet buffer) [
    | none ↦ some (buffer, s)
    | some (packet, rest) ↦ serve fuel rest (process packet s)
  ]

  -- `onMessage`: the bytes that arrived go behind those that are left from before.
  unfoldable pub on_message : ℕ → Bytes → Bytes → S → Option (Bytes × S)
  on_message fuel received buffer s = serve fuel (buffer ++ received) s

  abbrev pub process_all : List Bytes → S → S
  process_all [] s = s
  process_all (p ∷ ps) s = process_all ps (process p s)

abbrev pub concat : List Bytes → Bytes
concat [] = []
concat (p ∷ ps) = p ++ concat ps

-- A packet is as long as its header says, which is between the header's size and 1024.
abbrev pub IsPacket : Bytes → Type 0
IsPacket p = (length p ≡ msg_len p) × (header_size ≤ length p) × (length p ≤ 1024)

take-drop : (n : ℕ) (xs : Bytes) → take n xs ++ drop_bytes n xs ≡ xs
take-drop zero xs = refl
take-drop (suc n) [] = refl
take-drop (suc n) (x ∷ xs) = ap (λ (l : Bytes). x ∷ l) (take-drop n xs)

pub take-append : (n : ℕ) (xs ys : Bytes) → length xs ≡ n → take n (xs ++ ys) ≡ xs
take-append zero [] ys h = refl
take-append zero (x ∷ xs) ys h = absurd (omega arith)
take-append (suc n) [] ys h = absurd (omega arith)
take-append (suc n) (x ∷ xs) ys h = ap (λ (l : Bytes). x ∷ l) (take-append n xs ys (omega arith))

pub drop_bytes-append : (n : ℕ) (xs ys : Bytes) → length xs ≡ n → drop_bytes n (xs ++ ys) ≡ ys
drop_bytes-append zero [] ys h = refl
drop_bytes-append zero (x ∷ xs) ys h = absurd (omega arith)
drop_bytes-append (suc n) [] ys h = absurd (omega arith)
drop_bytes-append (suc n) (x ∷ xs) ys h = drop_bytes-append n xs ys (omega arith)

length-take_le : (n : ℕ) (xs : Bytes) → n ≤ length xs → length (take n xs) ≡ n
length-take_le zero xs h = omega arith
length-take_le (suc n) [] h = omega arith
length-take_le (suc n) (x ∷ xs) h = omega (arith, length-take_le n xs (omega arith))

length-drop_lt : (n : ℕ) (xs : Bytes) → n ≤ length xs → n + length (drop_bytes n xs) ≡ length xs
length-drop_lt zero xs h = omega arith
length-drop_lt (suc n) [] h = omega arith
length-drop_lt (suc n) (x ∷ xs) h = omega (arith, length-drop_lt n xs (omega arith))

-- The header of a packet is within the packet.
pub msg_len-append : (xs ys : Bytes) → header_size ≤ length xs → msg_len (xs ++ ys) ≡ msg_len xs
msg_len-append (a ∷ b ∷ c ∷ d ∷ e ∷ xs) ys h = refl
msg_len-append (a ∷ b ∷ c ∷ d ∷ []) ys h = omega arith
msg_len-append (a ∷ b ∷ c ∷ []) ys h = omega arith
msg_len-append (a ∷ b ∷ []) ys h = omega arith
msg_len-append (a ∷ []) ys h = omega arith
msg_len-append [] ys h = omega arith

-- What `next_packet` gives, when it gives something.
pub record Cuts (buffer packet rest : Bytes) : Type 0 where
  pub whole : packet ++ rest ≡ buffer
  pub is_packet : IsPacket packet
  pub shorter : length rest < length buffer

pub next_packet-Cuts :
    (buffer packet rest : Bytes)
    → next_packet buffer ≡ some (packet, rest)
    → Cuts buffer packet rest
unfolding next_packet
next_packet-Cuts buffer packet rest h =
    let n = msg_len buffer in
    let long : header_size ≤ n = ground arith in
    let short : n ≤ 1024 = ground arith in
    let fits : n ≤ length buffer = ground arith in
    let is_packet : take n buffer ≡ packet = ground arith in
    let is_rest : drop_bytes n buffer ≡ rest = ground arith in
    let size = length-take_le n buffer fits in
    let same_len : msg_len (take n buffer) ≡ n =
      sym (msg_len-append (take n buffer) (drop_bytes n buffer) (omega (arith, size)))
      ∙ ap msg_len (take-drop n buffer) in
    rw (sym is_packet, sym is_rest)
      (record {
        whole = take-drop n buffer;
        is_packet = (size ∙ sym same_len, omega (arith, size), omega (arith, size));
        shorter = omega (arith, length-drop_lt n buffer fits);
      })

pub append_assoc : (xs ys zs : Bytes) → (xs ++ ys) ++ zs ≡ xs ++ (ys ++ zs)
append_assoc [] ys zs = refl
append_assoc (x ∷ xs) ys zs = ap (λ (l : Bytes). x ∷ l) (append_assoc xs ys zs)

module _ {ℓ} {S : Type ℓ} (process : Bytes → S → S) where
  -- What the loop does: it takes packets off the front, and stops where there is none.
  abbrev pub Served : Bytes → S → Option (Bytes × S) → Type ℓ
  Served buffer s result =
      (packets : List Bytes) × (rest : Bytes) × (result
        ≡ some (rest, process_all process packets s))
      × (concat packets ++ rest ≡ buffer)
      × All IsPacket packets
      × (next_packet rest ≡ none)

  serve-Served :
      (fuel : ℕ) (buffer : Bytes) (s : S)
      → length buffer < fuel
      → Served buffer s (serve process fuel buffer s)
  unfolding serve
  serve-Served zero buffer s h = absurd (omega arith)
  serve-Served (suc fuel) buffer s h = elim (Option-cases (next_packet buffer)) [
    | inl stop ↦ ([], buffer, rw (stop, serve) refl, refl, tt, stop)
    | inr ((packet, rest), go) ↦
        let c = next_packet-Cuts buffer packet rest go in
        let (packets, left, is, whole, are, stop) =
          serve-Served fuel rest (process packet s) (omega (arith, c.shorter)) in
        (
          packet ∷ packets,
          left,
          rw (go, serve) is,
          append_assoc packet (concat packets) left ∙ ap (λ l. packet ++ l) whole ∙ c.whole,
          (c.is_packet, are),
          stop,
        )
  ]

  -- With more fuel than there are bytes, `onMessage` returns, and what it did is to process packets
  -- that are, with the bytes that it leaves in the buffer, the bytes of the buffer and those
  -- received, in their order. Each packet is as long as its header says, and no packet is at the
  -- front of what is left.
  pub on_message-Served :
      (fuel : ℕ) (received buffer : Bytes) (s : S)
      → length (buffer ++ received) < fuel
      → Served (buffer ++ received) s (on_message process fuel received buffer s)
  unfolding on_message
  on_message-Served fuel received buffer s h = serve-Served fuel (buffer ++ received) s h

-- A header with a length that is not allowed: no packet is cut from the buffer, whatever arrives later.
abbrev pub IsPoisoned : Bytes → Type 0
IsPoisoned buffer =
    (header_size ≤ length buffer)
    × (ltb 1024 (msg_len buffer) || ltb (msg_len buffer) header_size ≡ true)

-- A session whose buffer begins with a header of an invalid length is served no more: whatever
-- arrives, `onMessage` processes nothing, and the bytes pile up in the buffer.
pub on_message-IsPoisoned {ℓ} :
    {S : Type ℓ} (process : Bytes → S → S) (fuel : ℕ) (received buffer : Bytes) (s : S)
    → IsPoisoned buffer
    → on_message process (suc fuel) received buffer s ≡ some (buffer ++ received, s)
unfolding on_message serve next_packet
on_message-IsPoisoned process fuel received buffer s (long, bad) =
    let same = msg_len-append buffer received long in
    let bad' : ltb 1024 (msg_len (buffer ++ received))
          || ltb (msg_len (buffer ++ received)) header_size
        ≡ true =
      rw same bad in
    let stop : next_packet (buffer ++ received) ≡ none = ground arith in
    rw (stop, on_message, serve) refl
