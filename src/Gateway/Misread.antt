-- ===== src/Gateway/Misread.antt =====
-- ClientGateway::handleOrderCancel and replayEvents (src/client_gateway.cpp): the cancel requests in the
-- event log.
use order_matching_engine.Prelude.{
  ℕ, zero, suc, ◌+◌, ◌-◌, ◌<◌, ◌≤◌, ◌≡◌, refl, ap, ◌∙◌, true, false, some, List, [], ◌∷◌, ◌++◌,
  length, take, ltb, length-append, arith,
}
use order_matching_engine.Prelude.Bytes.{Bytes}
use order_matching_engine.Gateway.{ClientGateway}
use order_matching_engine.Gateway.Protocol.{
  drop_bytes, field_at, number_at, little_endian, new_order_size, cancel_size, read_new_order,
  read_cancel, NewOrderRequest,
}
use order_matching_engine.Gateway.Replies.{ok, ◌>>=◌}
use order_matching_engine.Gateway.Orders.{
  records, replay_records, replay_events, handle_new_order_internal,
}

take_prefix : (n : ℕ) (xs ys : Bytes) → n ≤ length xs → take n (xs ++ ys) ≡ take n xs
take_prefix zero xs ys h = refl
take_prefix (suc n) [] ys h = absurd (omega arith)
take_prefix (suc n) (x ∷ xs) ys h = ap (λ (l : Bytes). x ∷ l) (take_prefix n xs ys (omega arith))

-- A field within the first of two parts.
field_at_first :
    (offset n : ℕ) (xs ys : Bytes)
    → offset + n ≤ length xs
    → field_at offset n (xs ++ ys) ≡ field_at offset n xs
field_at_first zero n xs ys h = take_prefix n xs ys (omega arith)
field_at_first (suc k) n [] ys h = absurd (omega arith)
field_at_first (suc k) n (x ∷ xs) ys h = field_at_first k n xs ys (omega arith)

-- A field behind it.
field_at_second :
    (offset k n : ℕ) (xs ys : Bytes)
    → offset ≡ length xs + k
    → field_at offset n (xs ++ ys) ≡ field_at k n ys
field_at_second offset k n [] ys h = ap (λ (i : ℕ). field_at i n ys) (omega (arith, h))
field_at_second zero k n (x ∷ xs) ys h = absurd (omega arith)
field_at_second (suc offset) k n (x ∷ xs) ys h = field_at_second offset k n xs ys (omega arith)

take-take : (n m : ℕ) (xs : Bytes) → n ≤ m → take n (take m xs) ≡ take n xs
take-take zero m xs h = refl
take-take (suc n) zero xs h = absurd (omega arith)
take-take (suc n) (suc m) [] h = refl
take-take (suc n) (suc m) (x ∷ xs) h = ap (λ (l : Bytes). x ∷ l) (take-take n m xs (omega arith))

field_at-take :
    (offset n m : ℕ) (xs : Bytes)
    → offset + n ≤ m
    → field_at offset n (take m xs) ≡ field_at offset n xs
field_at-take zero n m xs h = take-take n m xs (omega arith)
field_at-take (suc k) n zero xs h = absurd (omega arith)
field_at-take (suc k) n (suc m) [] h = refl
field_at-take (suc k) n (suc m) (x ∷ xs) h = field_at-take k n m xs (omega arith)

take_past : (n k : ℕ) (xs ys : Bytes) → n ≡ length xs + k → take n (xs ++ ys) ≡ xs ++ take k ys
take_past n k [] ys h = ap (λ (i : ℕ). take i ys) (omega (arith, h))
take_past zero k (x ∷ xs) ys h = absurd (omega arith)
take_past (suc n) k (x ∷ xs) ys h = ap (λ (l : Bytes). x ∷ l) (take_past n k xs ys (omega arith))

length-drop_bytes : (n : ℕ) (xs : Bytes) → length (drop_bytes n xs) ≡ length xs - n
length-drop_bytes zero xs = omega arith
length-drop_bytes (suc n) [] = omega arith
length-drop_bytes (suc n) (x ∷ xs) = omega (arith, length-drop_bytes n xs)

-- A log that holds one record, and less than another.
records_one :
    (k : ℕ) (log : Bytes)
    → new_order_size ≤ length log
    → length log < 98
    → records (suc (suc k)) log ≡ take new_order_size log ∷ []
unfolding records
records_one k log full short =
    let rest = drop_bytes new_order_size log in
    let more : ltb (length log) new_order_size ≡ false = ground (arith, full) in
    let last : ltb (length rest) new_order_size ≡ true =
      ground (arith, short, length-drop_bytes new_order_size log) in
    rw (more, last) refl

module _ (cancel order : Bytes) (whole_cancel : length cancel ≡ cancel_size)
    (whole_order : length order ≡ new_order_size) where
  -- The record that is read: the cancel request, and the first 17 bytes of the order.
  abbrev pub misread : NewOrderRequest
  misread = read_new_order (cancel ++ take 17 order)

  two_records :
      records (length (cancel ++ order)) (cancel ++ order) ≡ (cancel ++ take 17 order) ∷ []
  two_records =
      let size : length (cancel ++ order) ≡ suc (suc 79) =
        length-append cancel order ∙ omega (arith, whole_cancel, whole_order) in
      ap (λ (n : ℕ). records n (cancel ++ order)) size
      ∙ records_one 79 (cancel ++ order) (omega (arith, size)) (omega (arith, size))
      ∙ ap (λ (r : Bytes). r ∷ [])
          (take_past new_order_size 17 cancel order (omega (arith, whole_cancel)))

  -- Which parts of the two requests the fields of that record are.
  pub record IsMixed : Type 0 where
    pub id : misread.client_order_id ≡ (read_cancel cancel).client_order_id
    pub user : misread.user_id ≡ (read_cancel cancel).user_id
    pub symbol : misread.symbol ≡ (read_cancel cancel).symbol
    pub side : misread.side ≡ (read_cancel cancel).side
    pub type : misread.type ≡ number_at 0 1 order
    pub price : misread.price ≡ number_at 1 8 order
    pub quantity : misread.quantity ≡ number_at 9 8 order

  misread-IsMixed : IsMixed
  unfolding read_new_order read_cancel
  misread-IsMixed = record {
    id = ap little_endian (field_at_first 5 8 cancel (take 17 order) (omega (arith, whole_cancel)));
    user =
        ap little_endian (field_at_first 13 8 cancel (take 17 order) (omega (arith, whole_cancel)));
    symbol = field_at_first 21 10 cancel (take 17 order) (omega (arith, whole_cancel));
    side =
        ap little_endian (field_at_first 31 1 cancel (take 17 order) (omega (arith, whole_cancel)));
    type = ap little_endian (
        field_at_second 32 0 1 cancel (take 17 order) (omega (arith, whole_cancel))
        ∙ field_at-take 0 1 17 order (omega arith));
    price = ap little_endian (
        field_at_second 33 1 8 cancel (take 17 order) (omega (arith, whole_cancel))
        ∙ field_at-take 1 8 17 order (omega arith));
    quantity = ap little_endian (
        field_at_second 41 9 8 cancel (take 17 order) (omega (arith, whole_cancel))
        ∙ field_at-take 9 8 17 order (omega arith));
  }

  module _ (clock wall : ℕ → ℕ) (fuel : ℕ) (g : ClientGateway) where
    -- When the event log has a cancel request of 32 bytes and a new order of 49 bytes behind it,
    -- the replay handles one new order only: its id, user, symbol and side are those of the cancel
    -- request, and its type, price and quantity are what the first 17 bytes of the new order read
    -- as at those places; the rest of the log is dropped.
    pub replay_events-IsMixed :
        (replay_events clock wall fuel (some (cancel ++ order)) g
          ≡ (handle_new_order_internal clock wall fuel 0 misread true g >>= ok))
        × IsMixed
    unfolding replay_events replay_records
    replay_events-IsMixed =
        (ap (λ (rs : List Bytes). replay_records clock wall fuel rs g) two_records, misread-IsMixed)
