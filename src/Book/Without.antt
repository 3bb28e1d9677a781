-- ===== src/Book/Without.antt =====
-- A book without one of its orders, which is what OrderBook::cancel_order leaves.
use order_matching_engine.Prelude.{
  ℕ, suc, ◌≡◌, ◌≢◌, refl, sym, ap, ◌∙◌, none, some, List, ◌∷◌, arith, inl, inr, Option-cases,
  Bool-cases, ◌==◌, ==_iff, ==_false, some-ne-none,
}
use order_matching_engine.Prelude.Dict.{
  Dict, lookup, remove, lookup-remove_ne, lookup-remove_self, remove-IsDict, length-remove,
}
use order_matching_engine.Price.{Price}
use order_matching_engine.Types.{
  OrderId, OrderSide, buy, sell, buy-ne-sell, Order, OrderPtr, OrderInfo,
}
use order_matching_engine.PriceMap.{find, erase_at, count_orders}
use order_matching_engine.PriceMap.Order.{IsSide, At, IsSide-At, IsSide-mono}
use order_matching_engine.PriceMap.Update.{erase_at_lem}
use order_matching_engine.PriceMap.Positions.{At-erase_at_ne}
use order_matching_engine.Book.{
  OrderBook, Slots, side_orders, with_side, cancel_listed, cancel_order, get_total_orders,
}
use order_matching_engine.Book.Invariant.{Resting, IsBook}
use order_matching_engine.Book.Update.{shrink, info}

module _ (size : ℕ) (s : Slots) (out : List ℕ) (b : OrderBook) (p : OrderPtr) where
  abbrev o : Order
  o = s p

  abbrev pub left : Dict OrderInfo
  left = remove o.id b.order_lookup

  -- The book when `p` has gone from one side.
  abbrev pub without : OrderSide → OrderBook
  without side = record (with_side side (erase_at o.price p (side_orders side b)) b) {
    order_lookup = left;
  }

  module _ (known : lookup o.id b.order_lookup ≡ some (info size s out b.symbol p)) where
    -- The side that `p` leaves, and the other one.
    pub leaves :
        (side : OrderSide) (k : Price)
        → At k p (side_orders side b)
        → IsSide (Resting size s out b.symbol b.order_lookup side) 0 (side_orders side b)
        → (find o.price (side_orders side b) ≢ none)
          × IsSide
              (Resting size s (p ∷ out) b.symbol left side)
              0
              (erase_at o.price p (side_orders side b))
          × (count_orders (side_orders side b)
              ≡ suc (count_orders (erase_at o.price p (side_orders side b))))
    leaves side k at v =
        let (r, _, _) =
          IsSide-At (Resting size s out b.symbol b.order_lookup side) 0 (side_orders side b) v at in
        let (found, rest, one) =
          erase_at_lem (Resting size s out b.symbol b.order_lookup side) o.price p r.no_nan
            (λ j r. sym r.has_price) 0 (side_orders side b) k (sym r.has_price) v at in
        (
          found,
          IsSide-mono _ _
              (λ j q r. shrink size s out b.symbol p b.order_lookup side j q known r.1 r.0) 0
              (erase_at o.price p (side_orders side b)) rest,
          one,
        )

    stays :
        (side : OrderSide)
        → o.side ≢ side
        → IsSide (Resting size s out b.symbol b.order_lookup side) 0 (side_orders side b)
        → IsSide (Resting size s (p ∷ out) b.symbol left side) 0 (side_orders side b)
    stays side other v =
        IsSide-mono _ _
          (λ j q r.
            shrink size s out b.symbol p b.order_lookup side j q known
              (λ e. other (ap (λ (i : OrderPtr). (s i).side) (sym e) ∙ r.has_side)) r)
          0 (side_orders side b) v

    At-without :
        (side at_side : OrderSide) (k : Price) (q : OrderPtr)
        → q ≢ p
        → At k q (side_orders at_side b)
        → At k q (side_orders at_side (without side))
    At-without buy buy k q h at = At-erase_at_ne o.price k p q b.buy_orders h at
    At-without buy sell k q h at = at
    At-without sell buy k q h at = at
    At-without sell sell k q h at = At-erase_at_ne o.price k p q b.sell_orders h at

    leads-without :
        (side : OrderSide)
        → IsBook size s out b
        → (id : OrderId) (i : OrderInfo) → lookup id left ≡ some i
        → (i.list_it ≡ i.order_ptr)
          × ((s i.order_ptr).id ≡ id)
          × ((k : Price) × At k i.order_ptr (side_orders (s i.order_ptr).side (without side)))
    leads-without side v id i found = elim (Bool-cases (id == o.id)) [
      | inl same ↦
          let gone = lookup-remove_self o.id b.order_lookup v.one_entry in
          absurd
            (some-ne-none (sym found ∙ ap (λ j. lookup j left) ((==_iff id o.id).0 same) ∙ gone))
      | inr other ↦
          let old = sym (lookup-remove_ne id o.id b.order_lookup (ground arith)) ∙ found in
          let (it, is, (k, at)) = v.leads_to id i old in
          (
            it,
            is,
            (
              k,
              At-without side (s i.order_ptr).side k i.order_ptr
                  (λ e.
                    absurd (==_false id o.id other (sym is ∙ ap (λ (j : OrderPtr). (s j).id) e)))
                  at,
            ),
          )
    ]

    without-IsBook :
        (side : OrderSide) (k : Price)
        → o.side ≡ side
        → At k p (side_orders side b)
        → IsBook size s out b
        → (find o.price (side_orders side b) ≢ none) × IsBook size s (p ∷ out) (without side)
    without-IsBook buy k e at v =
        let (found, side, one) = leaves buy k at v.buys in
        (
          found,
          record {
            buys = side;
            sells = stays sell (λ h. buy-ne-sell (sym e ∙ h)) v.sells;
            one_entry = remove-IsDict o.id b.order_lookup v.one_entry;
            counted = omega (
              arith,
              one,
              v.counted,
              length-remove o.id {v = info size s out b.symbol p} b.order_lookup known,
            );
            leads_to = leads-without buy v;
          },
        )
    without-IsBook sell k e at v =
        let (found, side, one) = leaves sell k at v.sells in
        (
          found,
          record {
            buys = stays buy (λ h. buy-ne-sell (sym h ∙ e)) v.buys;
            sells = side;
            one_entry = remove-IsDict o.id b.order_lookup v.one_entry;
            counted = omega (
              arith,
              one,
              v.counted,
              length-remove o.id {v = info size s out b.symbol p} b.order_lookup known,
            );
            leads_to = leads-without sell v;
          },
        )

    -- An order that stands in a well-formed book is found by its id and taken out.
    pub cancel_order-present :
        (k : Price)
        → At k p (side_orders o.side b)
        → IsBook size s out b
        → (cancel_order s o.id b ≡ (some p, without o.side))
          × IsBook size s (p ∷ out) (without o.side)
          × (get_total_orders b ≡ suc (get_total_orders (without o.side)))
    unfolding cancel_order cancel_listed get_total_orders
    cancel_order-present k at v =
        let (found, book) = without-IsBook o.side k refl at v in
        elim (Option-cases (find o.price (side_orders o.side b))) [
          | inl missing ↦ absurd (found missing)
          | inr (level, e) ↦ (
            rw (known, cancel_order) (rw (e, cancel_listed) refl),
            book,
            length-remove o.id {v = info size s out b.symbol p} b.order_lookup known,
          )
        ]
