-- ===== src/Book/Update.antt =====
-- OrderBook::add_order and OrderBook::cancel_order keep the book well formed.
use order_matching_engine.Prelude.{
  ℕ, suc, ◌<◌, ◌≡◌, ◌≢◌, refl, sym, ap, ◌∙◌, false, Option, none, some, List, ◌∷◌, contains,
  u64_mod, arith, inl, inr, Bool-cases, ◌==◌,
}
use order_matching_engine.Prelude.Dict.{
  Dict, lookup, insert, remove, lookup-insert, lookup-remove_ne, insert-IsDict, length-insert_new,
}
use order_matching_engine.Price.{Price, is_nan, rank}
use order_matching_engine.Types.{OrderId, Symbol, OrderSide, buy, sell, Order, OrderPtr, OrderInfo}
use order_matching_engine.PriceMap.{push_back, count_orders}
use order_matching_engine.PriceMap.Order.{IsSide, At, IsSide-mono}
use order_matching_engine.PriceMap.Update.{push_back_lem}
use order_matching_engine.PriceMap.Positions.{At-push_back_old, At-push_back_new}
use order_matching_engine.Book.{
  OrderBook, Slots, side_orders, with_side, add_order, get_total_orders,
}
use order_matching_engine.Book.Invariant.{Resting, IsBook}

module _ (size : ℕ) (s : Slots) (out : List ℕ) (symbol : Symbol) (p : OrderPtr) where
  abbrev pub info : OrderInfo
  info = record { order_ptr = p; list_it = p }

  -- What rests stays listed when an order with a new id is listed.
  pub grow :
      (listed : Dict OrderInfo) (side : OrderSide) (k : Price) (q : OrderPtr)
      → lookup (s p).id listed ≡ none
      → Resting size s (p ∷ out) symbol listed side k q
      → Resting size s out symbol (insert (s p).id info listed) side k q × (q ≢ p)
  grow listed side k q new r = (
    record {
      in_range = r.in_range;
      in_use = ground (arith, r.in_use);
      has_symbol = r.has_symbol;
      has_side = r.has_side;
      has_price = r.has_price;
      no_nan = r.no_nan;
      open_qty = r.open_qty;
      bounded = r.bounded;
      is_listed = rw (lookup-insert (s p).id (s q).id info listed) (ground (arith, r.is_listed));
    },
    ground (arith, r.in_use),
  )

  -- What rests stays listed when another order goes.
  pub shrink :
      (listed : Dict OrderInfo) (side : OrderSide) (k : Price) (q : OrderPtr)
      → lookup (s p).id listed ≡ some info
      → q ≢ p
      → Resting size s out symbol listed side k q
      → Resting size s (p ∷ out) symbol (remove (s p).id listed) side k q
  shrink listed side k q known other r = record {
    in_range = r.in_range;
    in_use = ground (arith, r.in_use);
    has_symbol = r.has_symbol;
    has_side = r.has_side;
    has_price = r.has_price;
    no_nan = r.no_nan;
    open_qty = r.open_qty;
    bounded = r.bounded;
    is_listed =
        lookup-remove_ne (s q).id (s p).id listed (λ e. other (
          ap (λ (o : Option OrderInfo). ptr_of o)
            (sym r.is_listed ∙ ap (λ i. lookup i listed) e ∙ known)))
        ∙ r.is_listed;
  }
    where
      ptr_of : Option OrderInfo → OrderPtr
      ptr_of none = q
      ptr_of (some i) = i.order_ptr

-- An order that is not in the book, fresh from the pool, with a new id and something to trade.
pub record IsNew (size : ℕ) (s : Slots) (out : List ℕ) (b : OrderBook) (p : OrderPtr) : Type 0 where
  pub in_range : p < size
  pub not_out : contains p out ≡ false
  pub has_symbol : (s p).symbol ≡ b.symbol
  pub no_nan : is_nan (s p).price ≡ false
  pub open_qty : (s p).quantity_filled < (s p).quantity
  pub bounded : (s p).quantity < u64_mod
  pub new_id : lookup (s p).id b.order_lookup ≡ none

module _ (size : ℕ) (s : Slots) (out : List ℕ) (b : OrderBook) (p : OrderPtr) where
  abbrev o : Order
  o = s p

  abbrev pub listed : Dict OrderInfo
  listed = insert o.id (info size s out b.symbol p) b.order_lookup

  -- The side that `p` joins, and the other one.
  joined :
      (side : OrderSide)
      → o.side ≡ side
      → IsNew size s out b p
      → IsSide (Resting size s (p ∷ out) b.symbol b.order_lookup side) 0 (side_orders side b)
      → IsSide
          (Resting size s out b.symbol listed side)
          0
          (push_back o.price p (side_orders side b))
        × (count_orders (push_back o.price p (side_orders side b))
            ≡ suc (count_orders (side_orders side b)))
  joined side e n v =
      push_back_lem (Resting size s out b.symbol listed side) o.price p n.no_nan 0
        (side_orders side b) (omega arith) rests
        (IsSide-mono _ _ (λ k q. grow size s out b.symbol p b.order_lookup side k q n.new_id) 0
          (side_orders side b) v)
    where
      rests : (k : Price) → rank k ≡ rank o.price → Resting size s out b.symbol listed side k p
      rests k same = record {
        in_range = n.in_range;
        in_use = n.not_out;
        has_symbol = n.has_symbol;
        has_side = e;
        has_price = sym same;
        no_nan = n.no_nan;
        open_qty = n.open_qty;
        bounded = n.bounded;
        is_listed =
            rw (lookup-insert o.id o.id (info size s out b.symbol p) b.order_lookup) (ground arith);
      }

  unjoined :
      (side : OrderSide)
      → IsNew size s out b p
      → IsSide (Resting size s (p ∷ out) b.symbol b.order_lookup side) 0 (side_orders side b)
      → IsSide (Resting size s out b.symbol listed side) 0 (side_orders side b)
  unjoined side n v =
      IsSide-mono _ _ (λ k q r. (grow size s out b.symbol p b.order_lookup side k q n.new_id r).0) 0
        (side_orders side b) v

  abbrev pub added : OrderSide → OrderBook
  added side = record (with_side side (push_back o.price p (side_orders side b)) b) {
    order_lookup = listed;
  }

  At-added :
      (side at_side : OrderSide) (k : Price) (q : OrderPtr)
      → At k q (side_orders at_side b)
      → At k q (side_orders at_side (added side))
  At-added buy buy k q at = At-push_back_old o.price k p q b.buy_orders at
  At-added buy sell k q at = at
  At-added sell buy k q at = at
  At-added sell sell k q at = At-push_back_old o.price k p q b.sell_orders at

  pub At-added_new : (side : OrderSide) → (k : Price) × At k p (side_orders side (added side))
  At-added_new buy = At-push_back_new o.price p b.buy_orders
  At-added_new sell = At-push_back_new o.price p b.sell_orders

  leads-added :
      (side : OrderSide)
      → o.side ≡ side
      → IsBook size s (p ∷ out) b
      → (id : OrderId) (i : OrderInfo) → lookup id listed ≡ some i
      → (i.list_it ≡ i.order_ptr)
        × ((s i.order_ptr).id ≡ id)
        × ((k : Price) × At k i.order_ptr (side_orders (s i.order_ptr).side (added side)))
  leads-added side e v id i found = elim (Bool-cases (id == o.id)) [
    | inl same ↦
        let this : info size s out b.symbol p ≡ i =
          ground
            (arith, found, lookup-insert o.id id (info size s out b.symbol p) b.order_lookup) in
        rw (← this) (refl, ground arith, rw e (At-added_new side))
    | inr other ↦
        let old : lookup id b.order_lookup ≡ some i =
          ground
            (arith, found, lookup-insert o.id id (info size s out b.symbol p) b.order_lookup) in
        let (it, is, (k, at)) = v.leads_to id i old in
        (it, is, (k, At-added side (s i.order_ptr).side k i.order_ptr at))
  ]

  add_to-IsBook :
      (side : OrderSide)
      → o.side ≡ side
      → IsNew size s out b p
      → IsBook size s (p ∷ out) b
      → IsBook size s out (added side)
  add_to-IsBook buy e n v =
      let (side, one) = joined buy e n v.buys in
      record {
        buys = side;
        sells = unjoined sell n v.sells;
        one_entry = insert-IsDict o.id (info size s out b.symbol p) b.order_lookup v.one_entry;
        counted = omega (
          arith,
          one,
          v.counted,
          length-insert_new o.id (info size s out b.symbol p) b.order_lookup n.new_id,
        );
        leads_to = leads-added buy e v;
      }
  add_to-IsBook sell e n v =
      let (side, one) = joined sell e n v.sells in
      record {
        buys = unjoined buy n v.buys;
        sells = side;
        one_entry = insert-IsDict o.id (info size s out b.symbol p) b.order_lookup v.one_entry;
        counted = omega (
          arith,
          one,
          v.counted,
          length-insert_new o.id (info size s out b.symbol p) b.order_lookup n.new_id,
        );
        leads_to = leads-added sell e v;
      }

  -- Adding an order with something left to trade, a price that is no NaN, the book's symbol and a
  -- new id keeps the book well formed.
  pub add_order-IsBook :
      IsNew size s out b p → IsBook size s (p ∷ out) b → IsBook size s out (add_order s p b)
  unfolding add_order
  add_order-IsBook n v = add_to-IsBook o.side refl n v

  pub add_order-added : add_order s p b ≡ added o.side
  unfolding add_order
  add_order-added = refl

  pub added_fields :
      (side : OrderSide)
      → lookup o.id b.order_lookup ≡ none
      → ((added side).symbol ≡ b.symbol)
        × (get_total_orders (added side) ≡ suc (get_total_orders b))
  unfolding get_total_orders
  added_fields buy new =
      (refl, length-insert_new o.id (info size s out b.symbol p) b.order_lookup new)
  added_fields sell new =
      (refl, length-insert_new o.id (info size s out b.symbol p) b.order_lookup new)
