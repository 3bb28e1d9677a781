-- ===== src/Book/Cancel.antt =====
-- OrderBook::cancel_order on a well-formed book.
use order_matching_engine.Prelude.{
  ℕ, suc, ◌<◌, ◌≡◌, refl, sym, ap, subst, ◌∙◌, false, Option, none, some, List, ◌∷◌, contains,
  arith, inl, inr, Option-cases,
}
use order_matching_engine.Prelude.Dict.{
  lookup, remove, lookup-insert, lookup-remove_self, remove-insert_new, lookup-remove-none,
}
use order_matching_engine.Price.{Price, is_nan}
use order_matching_engine.Types.{OrderId, OrderSide, buy, sell, OrderPtr}
use order_matching_engine.PriceMap.{push_back, erase_at}
use order_matching_engine.PriceMap.Order.{IsSide, At, IsSide-At, IsSide-mono}
use order_matching_engine.PriceMap.Update.{erase_at-push_back}
use order_matching_engine.PriceMap.Positions.{At-erase_at}
use order_matching_engine.Book.{
  OrderBook, Slots, side_orders, add_order, cancel_order, get_total_orders, get_order_by_id,
}
use order_matching_engine.Book.Invariant.{Resting, IsBook}
use order_matching_engine.Book.Update.{
  grow, info, IsNew, added, listed, At-added_new, add_order-IsBook,
}
use order_matching_engine.Book.Without.{without, cancel_order-present}

-- What stands or is listed when an order has gone did so before.
pub record Shrinks (b b' : OrderBook) : Type 0 where
  pub stood :
      (side : OrderSide) (k : Price) (q : OrderPtr)
      → At k q (side_orders side b')
      → At k q (side_orders side b)
  pub unlisted : (id : OrderId) → lookup id b.order_lookup ≡ none → lookup id b'.order_lookup ≡ none

pub Shrinks-refl : (b : OrderBook) → Shrinks b b
Shrinks-refl b = record { stood = λ side k q at. at; unlisted = λ id h. h }

pub Shrinks-trans : {a b c : OrderBook} → Shrinks a b → Shrinks b c → Shrinks a c
Shrinks-trans f g = record {
  stood = λ side k q at. f.stood side k q (g.stood side k q at);
  unlisted = λ id h. g.unlisted id (f.unlisted id h);
}

module _ (size : ℕ) (s : Slots) (out : List ℕ) (b : OrderBook) (p : OrderPtr) where
  stood_before :
      (side at_side : OrderSide) (k : Price) (q : OrderPtr)
      → At k q (side_orders at_side (without size s out b p side))
      → At k q (side_orders at_side b)
  stood_before buy buy k q at = At-erase_at (s p).price k p q b.buy_orders at
  stood_before buy sell k q at = at
  stood_before sell buy k q at = at
  stood_before sell sell k q at = At-erase_at (s p).price k p q b.sell_orders at

  pub without-Shrinks : (side : OrderSide) → Shrinks b (without size s out b p side)
  without-Shrinks side = record {
    stood = stood_before side;
    unlisted = λ id h. lookup-remove-none id (s p).id b.order_lookup h;
  }

module _ (size : ℕ) (s : Slots) (out : List ℕ) (b : OrderBook) where
  -- The order `p` of the given id was in the book, has left it, and nothing is found under the id.
  pub record Cancelled (id : OrderId) (p : OrderPtr) (b' : OrderBook) : Type 0 where
    pub was_found : get_order_by_id id b ≡ some p
    pub has_id : (s p).id ≡ id
    pub in_range : p < size
    pub in_use : contains p out ≡ false
    pub no_nan : is_nan (s p).price ≡ false
    pub has_symbol : (s p).symbol ≡ b.symbol
    pub book : IsBook size s (p ∷ out) b'
    pub left_over : b' ≡ without size s out b p (s p).side
    pub one_less : get_total_orders b ≡ suc (get_total_orders b')
    pub not_found : get_order_by_id id b' ≡ none
    pub same_symbol : b'.symbol ≡ b.symbol
    pub shrinks : Shrinks b b'

  -- An id that the book does not list changes nothing; an id that it lists names one order, which is
  -- handed back and leaves the book.
  abbrev pub Cancels : OrderId → Option OrderPtr × OrderBook → Type 0
  Cancels id (none, b') = (get_order_by_id id b ≡ none) × (b' ≡ b)
  Cancels id (some p, b') = Cancelled id p b'

  standing_order :
      (side : OrderSide) (p : OrderPtr) (k : Price)
      → IsBook size s out b
      → At k p (side_orders side b)
      → Resting size s out b.symbol b.order_lookup side k p
  standing_order buy p k v at = (IsSide-At _ 0 b.buy_orders v.buys at).0
  standing_order sell p k v at = (IsSide-At _ 0 b.sell_orders v.sells at).0

  without-symbol :
      (p : OrderPtr) (side : OrderSide) → (without size s out b p side).symbol ≡ b.symbol
  without-symbol p buy = refl
  without-symbol p sell = refl

  gone :
      (p : OrderPtr) (id : OrderId) (side : OrderSide)
      → (s p).id ≡ id
      → IsBook size s out b
      → get_order_by_id id (without size s out b p side) ≡ none
  unfolding get_order_by_id
  gone p id side is v =
      rw
        (
          ap (λ (j : OrderId). lookup id (remove j b.order_lookup)) is
              ∙ lookup-remove_self id b.order_lookup v.one_entry,
          get_order_by_id,
        )
        refl

  -- In a well-formed book, cancelling an id that is not listed changes nothing; one that is listed
  -- names one order, which is handed back and has left a book that is well formed, has one order
  -- less, and does not list the id.
  pub cancel_order-Cancels : (id : OrderId) → IsBook size s out b → Cancels id (cancel_order s id b)
  unfolding get_order_by_id
  cancel_order-Cancels id v = elim (Option-cases (lookup id b.order_lookup)) [
    | inl unknown ↦
        let e : cancel_order s id b ≡ (none, b) =
          unfold cancel_order in rw (unknown, cancel_order) refl in
        rw e (rw (unknown, get_order_by_id) refl, refl)
    | inr (i, known) ↦
        let (it, is, (k, at)) = v.leads_to id i known in
        let r = standing_order (s i.order_ptr).side i.order_ptr k v at in
        let known' : lookup (s i.order_ptr).id b.order_lookup
            ≡ some (info size s out b.symbol i.order_ptr) =
          ap (λ (j : OrderId). lookup j b.order_lookup) is
          ∙ known
          ∙ ap (λ (l : OrderPtr). some (record { order_ptr = i.order_ptr; list_it = l })) it in
        let (e, book, one) = cancel_order-present size s out b i.order_ptr known' k at v in
        subst (Cancels id) (sym (ap (λ (j : OrderId). cancel_order s j b) (sym is) ∙ e)) (record {
          was_found = rw (known, get_order_by_id) refl;
          has_id = is;
          in_range = r.in_range;
          in_use = r.in_use;
          no_nan = r.no_nan;
          has_symbol = r.has_symbol;
          book = book;
          left_over = refl;
          one_less = one;
          not_found = gone i.order_ptr id (s i.order_ptr).side is v;
          same_symbol = without-symbol i.order_ptr (s i.order_ptr).side;
          shrinks = without-Shrinks size s out b i.order_ptr (s i.order_ptr).side;
        })
  ]

module _ (size : ℕ) (s : Slots) (out : List ℕ) (b : OrderBook) (p : OrderPtr) where
  undo :
      (side : OrderSide)
      → IsNew size s out b p
      → IsSide (Resting size s (p ∷ out) b.symbol b.order_lookup side) 0 (side_orders side b)
      → without size s out (added size s out b p side) p side ≡ b
  undo side n v =
      go side
        (erase_at-push_back (Resting size s out b.symbol (listed size s out b p) side) (s p).price p
          n.no_nan 0 (side_orders side b)
          (IsSide-mono _ _ (λ k q. grow size s out b.symbol p b.order_lookup side k q n.new_id) 0
            (side_orders side b) v))
        (remove-insert_new (s p).id (info size s out b.symbol p) b.order_lookup n.new_id)
    where
      go :
          (side : OrderSide)
          → erase_at (s p).price p (push_back (s p).price p (side_orders side b))
            ≡ side_orders side b
          → remove (s p).id (listed size s out b p) ≡ b.order_lookup
          → without size s out (added size s out b p side) p side ≡ b
      go buy e f = rw (e, f) refl
      go sell e f = rw (e, f) refl

  -- Cancelling the order that was just added to a well-formed book, in which its id was new, gives
  -- back the book as it was.
  pub cancel_order-add_order :
      IsNew size s out b p
      → IsBook size s (p ∷ out) b
      → cancel_order s (s p).id (add_order s p b) ≡ (some p, b)
  unfolding add_order
  cancel_order-add_order n v =
      let side = (s p).side in
      let (k, at) = At-added_new size s out b p side in
      let known : lookup (s p).id (listed size s out b p) ≡ some (info size s out b.symbol p) =
        rw (lookup-insert (s p).id (s p).id (info size s out b.symbol p) b.order_lookup)
          (ground arith) in
      let (e, _, _) =
        cancel_order-present size s out (added size s out b p side) p known k at
          (add_order-IsBook size s out b p n v) in
      e ∙ ap (λ (c : OrderBook). (some p, c)) (undo side n (side_ok side v))
    where
      side_ok :
          (side : OrderSide)
          → IsBook size s (p ∷ out) b
          → IsSide (Resting size s (p ∷ out) b.symbol b.order_lookup side) 0 (side_orders side b)
      side_ok buy v = v.buys
      side_ok sell v = v.sells
