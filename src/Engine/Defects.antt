-- ===== src/Engine/Defects.antt =====
-- Where process_new_order and what it calls do not do what their comments say.
use order_matching_engine.Prelude.{
  ℕ, zero, suc, ◌<◌, ◌≡◌, ◌≢◌, refl, sym, ap, ◌∙◌, true, false, Option, none, some, [], ◌∷◌,
  u64_mod, add_u64, sub_u64, arith, ◌==◌, min,
}
use order_matching_engine.Prelude.Dict.{lookup}
use order_matching_engine.Price.{Price, is_nan, lt, zero_price, lt-nan_left, le-nan_left}
use order_matching_engine.Types.{
  OrderSide, buy, sell, Order, OrderPtr, OrderId, remaining_qty, is_filled, reduce_quantity,
  Quantity,
}
use order_matching_engine.Pool.{ObjectPool, deallocate, store}
use order_matching_engine.Book.{OrderBook, Slots, cancel_order}
use order_matching_engine.Book.Frame.{refill, refilled, refill_self, refill_ne}
use order_matching_engine.Validation.{
  validate_order, is_empty, can_fill_completely, scan_levels, take_level,
}
use order_matching_engine.Engine.{
  Matching, match_against, best_opposite, no_match, match_round, with_trade, remove_filled, reduce,
  slot_of, create_trade,
}
use order_matching_engine.Engine.Removal.{remaining_lem}

-- An order with a quantity and a symbol is accepted with a NaN as its price, a limit order too.
validate_order-nan :
    (o : Order) → is_nan o.price ≡ true → o.quantity ≢ 0 → o.symbol ≢ [] → validate_order o ≡ true
unfolding validate_order is_empty
validate_order-nan o nan some_qty named =
    ground (arith, le-nan_left o.price zero_price nan, lt-nan_left o.price zero_price nan)

-- A fill-or-kill buy order is killed although the only sell order, within its limit, has more left
-- than it wants: the unsigned `needed_qty` wraps past 0.
pub can_fill_completely-larger_order :
    (s : Slots) (b : OrderBook) (o : Order) (k : Price) (p : OrderPtr)
    → o.side ≡ buy
    → b.sell_orders ≡ (k, p ∷ []) ∷ []
    → lt o.price k ≡ false
    → o.quantity < remaining_qty (s p)
    → remaining_qty (s p) < u64_mod
    → can_fill_completely s b o ≡ false
unfolding can_fill_completely scan_levels take_level
can_fill_completely-larger_order s b o k p side sells within more fits =
    rw (side, can_fill_completely)
      (ap (scan_levels s (λ price. lt o.price price) o.quantity) sells ∙ wraps)
  where
    left : sub_u64 o.quantity (remaining_qty (s p)) ≢ 0
    left e = omega arith

    wraps : scan_levels s (λ price. lt o.price price) o.quantity ((k, p ∷ []) ∷ []) ≡ false
    wraps = ground (arith, left, within)

-- The matching loop's state when the best order of the other side is filled already and the lookup
-- does not know its id any more.
pub record IsStuck (side : OrderSide) (t best : OrderPtr) (p : ObjectPool Order) (b : OrderBook)
    : Type 0 where
  pub is_best : best_opposite side b ≡ some best
  pub apart : t ≢ best
  pub unknown : lookup (p.slot best).id b.order_lookup ≡ none
  pub full : (p.slot best).quantity_filled ≡ (p.slot best).quantity
  pub matches : no_match side (p.slot best) (p.slot t) ≡ false
  pub best_bounded : (p.slot best).quantity < u64_mod
  pub wants : (p.slot t).quantity_filled < (p.slot t).quantity
  pub bounded : (p.slot t).quantity < u64_mod

transport-IsStuck :
    (side : OrderSide) (t best : OrderPtr) (p p' : ObjectPool Order) (b b' : OrderBook)
    → p'.slot t ≡ p.slot t
    → p'.slot best ≡ p.slot best
    → b' ≡ b
    → IsStuck side t best p b
    → IsStuck side t best p' b'
transport-IsStuck side t best p p' b b' et eb e v = rw e (record {
  is_best = v.is_best;
  apart = v.apart;
  unknown = rw eb v.unknown;
  full = rw eb v.full;
  matches = rw (eb, et) v.matches;
  best_bounded = rw eb v.best_bounded;
  wants = rw et v.wants;
  bounded = rw et v.bounded;
})

cancel_order-unknown :
    (s : Slots) (id : OrderId) (b : OrderBook)
    → lookup id b.order_lookup ≡ none
    → cancel_order s id b ≡ (none, b)
unfolding cancel_order
cancel_order-unknown s id b unknown = rw (unknown, cancel_order) refl

-- Booking quantity 0 changes nothing.
module _ (side : OrderSide) (t best : OrderPtr) (qty : Quantity) (m : Matching) where
  abbrev s : Slots
  s = m.order_pool.slot

  abbrev after : Matching
  after = remove_filled best (reduce best qty (reduce t qty m))

  module _ (none_left : qty ≡ 0) (v : IsStuck side t best m.order_pool m.book) where
    abbrev n1 : ℕ
    n1 = add_u64 (s t).quantity_filled qty

    abbrev s1 : Slots
    s1 = refill s t n1

    abbrev n2 : ℕ
    n2 = add_u64 (s1 best).quantity_filled qty

    abbrev s2 : Slots
    s2 = refill s1 best n2

    taker2 : s2 t ≡ s t
    taker2 =
        refill_ne s1 best n2 t v.apart
        ∙ refill_self s t n1
        ∙ ap (refilled (s t)) (omega (arith, none_left, v.bounded, v.wants))

    maker2 : s2 best ≡ s best
    maker2 =
        refill_self s1 best n2
        ∙ ap (λ (o : Order). refilled o (add_u64 o.quantity_filled qty))
            (refill_ne s t n1 best (λ e. v.apart (sym e)))
        ∙ ap (refilled (s best)) (omega (arith, none_left, v.best_bounded, v.full))

    full2 : is_filled (s2 best) ≡ true
    full2 = ap is_filled maker2 ∙ (unfold is_filled in ground (arith, v.full))

    book2 : (cancel_order s2 (s2 best).id m.book).1 ≡ m.book
    book2 =
        ap (λ (c : Option OrderPtr × OrderBook). c.1)
          (cancel_order-unknown s2 (s2 best).id m.book
            (ap (λ (o : Order). lookup o.id m.book.order_lookup) maker2 ∙ v.unknown))

    after-IsStuck : IsStuck side t best after.order_pool after.book
    unfolding remove_filled deallocate store reduce_quantity
    after-IsStuck =
        rw full2 (transport-IsStuck side t best m.order_pool _ m.book _ taker2 maker2 book2 v)

module _ (clock : ℕ → ℕ) (side : OrderSide) (t best : OrderPtr) where
  nothing_left :
      (m : Matching) (d : OrderSide)
      → IsStuck d t best m.order_pool m.book
      → min (remaining_qty (slot_of m t)) (remaining_qty (slot_of m best)) ≡ 0
  nothing_left m d v =
      omega (arith, remaining_lem (slot_of m best) v.best_bounded (omega (arith, v.full)), v.full)

  match_round-IsStuck :
      (d : OrderSide) (m : Matching)
      → IsStuck d t best m.order_pool m.book
      → let m' = (match_round clock d t best m).1 in IsStuck d t best m'.order_pool m'.book
  unfolding match_round create_trade
  match_round-IsStuck buy m v = after-IsStuck buy t best _ _ (nothing_left m buy v) v
  match_round-IsStuck sell m v = after-IsStuck sell t best _ _ (nothing_left m sell v) v

  -- When the best order of the other side is filled, is not listed under its id, and is within the
  -- limit of an order that wants something, the matching loop never returns, whatever the fuel.
  pub match_against-IsStuck :
      (fuel : ℕ) (m : Matching)
      → IsStuck side t best m.order_pool m.book
      → match_against clock side fuel t m ≡ none
  unfolding match_against
  match_against-IsStuck zero m v = refl
  match_against-IsStuck (suc fuel) m v =
      let wants : (remaining_qty (m.order_pool.slot t) == 0) ≡ false =
        ground (arith, remaining_lem (m.order_pool.slot t) v.bounded, v.wants) in
      rw (wants, match_against)
        (rw v.is_best (
          rw v.matches (
            ap (with_trade (match_round clock side t best m).0) (
              match_against-IsStuck fuel (match_round clock side t best m).1
                (match_round-IsStuck side m v)))))
