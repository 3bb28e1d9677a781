-- ===== src/Book/Frame.antt =====
-- A book under changes of the pool that holds its orders: trades move quantities and nothing else.
use order_matching_engine.Prelude.{
  ℕ, ◌<◌, ◌≡◌, ◌≢◌, refl, sym, ap, subst, ◌∙◌, true, false, List, contains, arith, inl, inr, ◌⊎◌,
  Option-cases, Bool-cases, ◌==◌, if◌then◌else◌, ==_iff,
}
use order_matching_engine.Prelude.Dict.{Dict, lookup}
use order_matching_engine.Price.{Price}
use order_matching_engine.Types.{OrderId, Symbol, OrderSide, buy, sell, Order, OrderPtr, OrderInfo}
use order_matching_engine.PriceMap.Order.{At, IsSide-At, IsSide-mono}
use order_matching_engine.Book.{OrderBook, Slots, side_orders, cancel_listed, cancel_order}
use order_matching_engine.Book.Invariant.{Rests, Resting, IsBook}

-- The order as it is with another filled quantity.
abbrev pub refilled : Order → ℕ → Order
refilled o n = record o { quantity_filled = n }

-- The slots after the filled quantity of one order has changed.
abbrev pub refill : Slots → OrderPtr → ℕ → Slots
refill s p n q = if q == p then refilled (s p) n else s q

module _ (s : Slots) (p : OrderPtr) (n : ℕ) where
  -- All fields but the filled quantity are what they were.
  pub refill-id : (q : OrderPtr) → (refill s p n q).id ≡ (s q).id
  refill-id q = elim (Bool-cases (q == p)) [
    | inl same ↦ rw same (ap (λ (r : OrderPtr). (s r).id) (sym ((==_iff q p).0 same)))
    | inr other ↦ rw other refl
  ]

  pub refill-side : (q : OrderPtr) → (refill s p n q).side ≡ (s q).side
  refill-side q = elim (Bool-cases (q == p)) [
    | inl same ↦ rw same (ap (λ (r : OrderPtr). (s r).side) (sym ((==_iff q p).0 same)))
    | inr other ↦ rw other refl
  ]

  pub refill-price : (q : OrderPtr) → (refill s p n q).price ≡ (s q).price
  refill-price q = elim (Bool-cases (q == p)) [
    | inl same ↦ rw same (ap (λ (r : OrderPtr). (s r).price) (sym ((==_iff q p).0 same)))
    | inr other ↦ rw other refl
  ]

  pub refill_self : refill s p n p ≡ refilled (s p) n
  refill_self = ground arith

  pub refill_ne : (q : OrderPtr) → q ≢ p → refill s p n q ≡ s q
  refill_ne q h = ground arith

  -- What rests still rests, if the order is outside the book or stays open.
  pub Resting-refill :
      (size : ℕ) (out : List ℕ) (symbol : Symbol) (listed : Dict OrderInfo) (side : OrderSide)
      (k : Price) (q : OrderPtr)
      → (contains p out ≡ true) ⊎ (n < (s p).quantity)
      → Resting size s out symbol listed side k q
      → Resting size (refill s p n) out symbol listed side k q
  Resting-refill size out symbol listed side k q h r = elim (Bool-cases (q == p)) [
    | inr other ↦ rw other r
    | inl same ↦
        let e = (==_iff q p).0 same in
        let r' : Rests size out symbol listed side k q (s p) =
          subst (λ (t : OrderPtr). Rests size out symbol listed side k q (s t)) e r in
        let still : n < (s p).quantity = ground (arith, r.in_use) in
        rw same (record {
          in_range = r'.in_range;
          in_use = r'.in_use;
          has_symbol = r'.has_symbol;
          has_side = r'.has_side;
          has_price = r'.has_price;
          no_nan = r'.no_nan;
          open_qty = still;
          bounded = r'.bounded;
          is_listed = r'.is_listed;
        })
  ]

  -- A trade keeps the book well formed, if its order is outside the book or stays open.
  pub IsBook-refill :
      (size : ℕ) (out : List ℕ) (b : OrderBook)
      → (contains p out ≡ true) ⊎ (n < (s p).quantity)
      → IsBook size s out b
      → IsBook size (refill s p n) out b
  IsBook-refill size out b h v = record {
    buys =
        IsSide-mono _ _ (λ k q. Resting-refill size out b.symbol b.order_lookup buy k q h) 0
          b.buy_orders v.buys;
    sells =
        IsSide-mono _ _ (λ k q. Resting-refill size out b.symbol b.order_lookup sell k q h) 0
          b.sell_orders v.sells;
    one_entry = v.one_entry;
    counted = v.counted;
    leads_to = λ id i found.
        let (it, is, (k, at)) = v.leads_to id i found in
        (
          it,
          refill-id i.order_ptr ∙ is,
          (
            k,
            subst (λ (side : OrderSide). At k i.order_ptr (side_orders side b))
                (sym (refill-side i.order_ptr)) at,
          ),
        );
  }

  -- What is cancelled does not depend on filled quantities.
  pub cancel_order-refill :
      (id : OrderId) (b : OrderBook) → cancel_order (refill s p n) id b ≡ cancel_order s id b
  unfolding cancel_order
  cancel_order-refill id b = elim (Option-cases (lookup id b.order_lookup)) [
    | inl missing ↦ rw (missing, cancel_order) refl
    | inr (i, found) ↦
        rw (found, cancel_order)
          (ap (λ (side : OrderSide). cancel_listed side (refill s p n i.order_ptr).price id i b)
              (refill-side i.order_ptr)
            ∙ ap (λ (price : Price). cancel_listed (s i.order_ptr).side price id i b)
                (refill-price i.order_ptr))
  ]

-- A book stays well formed when more slots count as taken by it or fewer as out, its own apart.
pub IsBook-out :
    (size : ℕ) (s : Slots) (out out' : List ℕ) (b : OrderBook)
    → ((q : OrderPtr) → contains q out ≡ false → contains q out' ≡ false)
    → IsBook size s out b
    → IsBook size s out' b
IsBook-out size s out out' b h v = record {
  buys = IsSide-mono _ _ (λ k q. move buy k q) 0 b.buy_orders v.buys;
  sells = IsSide-mono _ _ (λ k q. move sell k q) 0 b.sell_orders v.sells;
  one_entry = v.one_entry;
  counted = v.counted;
  leads_to = v.leads_to;
}
  where
    move :
        (side : OrderSide) (k : Price) (q : OrderPtr)
        → Resting size s out b.symbol b.order_lookup side k q
        → Resting size s out' b.symbol b.order_lookup side k q
    move side k q r = record {
      in_range = r.in_range;
      in_use = h q r.in_use;
      has_symbol = r.has_symbol;
      has_side = r.has_side;
      has_price = r.has_price;
      no_nan = r.no_nan;
      open_qty = r.open_qty;
      bounded = r.bounded;
      is_listed = r.is_listed;
    }

-- A book whose orders are as they were, in slots that are still in use, is well formed as before.
pub IsBook-change :
    (size : ℕ) (s s' : Slots) (out out' : List ℕ) (b : OrderBook)
    → ((q : OrderPtr)
        → contains q out ≡ false
        → (s q).symbol ≡ b.symbol
        → (s' q ≡ s q) × (contains q out' ≡ false))
    → IsBook size s out b
    → IsBook size s' out' b
IsBook-change size s s' out out' b h v = record {
  buys = IsSide-mono _ _ (λ k q. move buy k q) 0 b.buy_orders v.buys;
  sells = IsSide-mono _ _ (λ k q. move sell k q) 0 b.sell_orders v.sells;
  one_entry = v.one_entry;
  counted = v.counted;
  leads_to = λ id i found.
      let (it, is, (k, at)) = v.leads_to id i found in
      let e = same (s i.order_ptr).side i.order_ptr k at in
      (
        it,
        ap (λ (o : Order). o.id) e ∙ is,
        (
          k,
          subst (λ (side : OrderSide). At k i.order_ptr (side_orders side b))
              (ap (λ (o : Order). o.side) (sym e)) at,
        ),
      );
}
  where
    move :
        (side : OrderSide) (k : Price) (q : OrderPtr)
        → Resting size s out b.symbol b.order_lookup side k q
        → Resting size s' out' b.symbol b.order_lookup side k q
    move side k q r =
        let (e, used) = h q r.in_use r.has_symbol in
        subst (λ (o : Order). Rests size out' b.symbol b.order_lookup side k q o) (sym e)
          (record {
            in_range = r.in_range;
            in_use = used;
            has_symbol = r.has_symbol;
            has_side = r.has_side;
            has_price = r.has_price;
            no_nan = r.no_nan;
            open_qty = r.open_qty;
            bounded = r.bounded;
            is_listed = r.is_listed;
          })

    same : (side : OrderSide) (q : OrderPtr) (k : Price) → At k q (side_orders side b) → s' q ≡ s q
    same buy q k at =
        let (r, _, _) = IsSide-At _ 0 b.buy_orders v.buys at in (h q r.in_use r.has_symbol).0
    same sell q k at =
        let (r, _, _) = IsSide-At _ 0 b.sell_orders v.sells at in (h q r.in_use r.has_symbol).0
