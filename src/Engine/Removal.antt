-- ===== src/Engine/Removal.antt =====
-- When an order is being matched, and how remove_filled takes a filled order out of the book.
use order_matching_engine.Prelude.{
  ℕ, suc, ◌+◌, ◌-◌, ◌<◌, ◌≤◌, ◌≡◌, ◌≢◌, refl, sym, ap, subst, ◌∙◌, true, false, Option, some, List,
  ◌∷◌, contains, u64_mod, arith, inl, inr, ◌⊎◌, Bool-cases, leb,
}
use order_matching_engine.Types.{
  OrderId, Symbol, OrderSide, buy, sell, Order, OrderPtr, is_filled, remaining_qty,
}
use order_matching_engine.Pool.{ObjectPool, deallocate}
use order_matching_engine.Pool.Laws.{IsValid}
use order_matching_engine.PriceMap.{erase_at}
use order_matching_engine.PriceMap.Order.{At}
use order_matching_engine.Book.{OrderBook, side_orders, cancel_order, get_total_orders}
use order_matching_engine.Book.Invariant.{IsBook}
use order_matching_engine.Book.Without.{without, cancel_order-present}
use order_matching_engine.Book.Cancel.{Shrinks, Shrinks-refl, without-Shrinks}
use order_matching_engine.Book.Frame.{
  refill, refilled, IsBook-refill, cancel_order-refill, IsBook-out, refill-id,
}
use order_matching_engine.Book.Best.{IsBest}
use order_matching_engine.Engine.{Matching, remove_filled}

-- The order in slot `t` is being matched: it is allocated and in no book, the book is well formed
-- over the slots that are neither free nor `t`, and the order's quantities are in range.
pub record IsMatching (t : OrderPtr) (p : ObjectPool Order) (b : OrderBook) : Type 0 where
  pub pool : IsValid p
  pub book : IsBook p.size p.slot (t ∷ p.free_indices) b
  pub in_range : t < p.size
  pub in_flight : contains t p.free_indices ≡ false
  pub bounded : (p.slot t).quantity < u64_mod
  pub not_over : (p.slot t).quantity_filled ≤ (p.slot t).quantity

abbrev pub opposite : OrderSide → OrderSide
opposite buy = sell
opposite sell = buy

-- What is left of an order whose quantities are in range.
pub remaining_lem :
    (o : Order)
    → o.quantity < u64_mod
    → o.quantity_filled ≤ o.quantity
    → remaining_qty o ≡ o.quantity - o.quantity_filled
unfolding remaining_qty
remaining_lem o h k = omega arith

pub filled_lem :
    (o : Order)
    → o.quantity_filled ≤ o.quantity
    → ((is_filled o ≡ true) × (o.quantity_filled ≡ o.quantity))
      ⊎ ((is_filled o ≡ false) × (o.quantity_filled < o.quantity))
unfolding is_filled
filled_lem o h = elim (Bool-cases (leb o.quantity o.quantity_filled)) [
  | inl full ↦ inl (full, ground arith)
  | inr more ↦ inr (more, ground arith)
]

-- The best order of the other side after its filled quantity was set to `n`.
abbrev pub filled_to : OrderPtr → ℕ → Matching → Matching
filled_to best n m = record m {
  order_pool = record (m.order_pool) { slot = refill m.order_pool.slot best n };
}

-- Either the best order stayed, partly filled, or it was filled, has left the book, and its slot is
-- free.
abbrev pub KeptOrGone :
    OrderPtr → ℕ → ObjectPool Order → OrderBook → ObjectPool Order → OrderBook → Type 0
KeptOrGone best n p b p' b' =
    ((get_total_orders b' ≡ get_total_orders b)
      × (p'.free_indices ≡ p.free_indices)
      × (n < (p.slot best).quantity))
    ⊎ ((get_total_orders b ≡ suc (get_total_orders b'))
        × (p'.free_indices ≡ best ∷ p.free_indices)
        × (n ≡ (p.slot best).quantity))

-- The book when the best order was filled to `n`: as it was, or without that order on its side.
abbrev pub BookAfter : OrderPtr → ℕ → Order → OrderBook → OrderBook → Type 0
BookAfter best n o b b' =
    ((n < o.quantity) × (b' ≡ b))
    ⊎ ((n ≡ o.quantity)
        × (side_orders o.side b' ≡ erase_at o.price best (side_orders o.side b))
        × (side_orders (opposite o.side) b' ≡ side_orders (opposite o.side) b))

-- The slots apart from `t` and from the orders of one symbol are as they were, and none of them was
-- freed.
abbrev pub Untouched : OrderPtr → Symbol → ObjectPool Order → ObjectPool Order → Type 0
Untouched t symbol p p' =
    (q : OrderPtr)
    → q ≢ t
    → (p.slot q).symbol ≢ symbol
    → (p'.slot q ≡ p.slot q)
      × (contains q p.free_indices ≡ false → contains q p'.free_indices ≡ false)

-- What a round that trades `qty` leaves: the taker's filled quantity has grown by `qty`, and the
-- best order was filled by `qty` too.
pub record IsRound (t best : OrderPtr) (qty : ℕ) (p : ObjectPool Order) (b : OrderBook)
    (p' : ObjectPool Order) (b' : OrderBook) : Type 0 where
  pub still : IsMatching t p' b'
  pub taker_filled : p'.slot t ≡ refilled (p.slot t) ((p.slot t).quantity_filled + qty)
  pub same_symbol : b'.symbol ≡ b.symbol
  pub shrinks : Shrinks b b'
  pub others : Untouched t b.symbol p p'
  pub same_size : p'.size ≡ p.size
  pub kept_or_gone : KeptOrGone best ((p.slot best).quantity_filled + qty) p b p' b'
  pub book_after : BookAfter best ((p.slot best).quantity_filled + qty) (p.slot best) b b'
  pub slots :
      p'.slot
      ≡ refill
          (refill p.slot t ((p.slot t).quantity_filled + qty))
          best
          ((p.slot best).quantity_filled + qty)

module _ (side : OrderSide) (t best : OrderPtr) (n : ℕ) (m : Matching) where
  abbrev s : OrderPtr → Order
  s = m.order_pool.slot

  abbrev free : List ℕ
  free = m.order_pool.free_indices

  pub record Removes (m' : Matching) : Type 0 where
    pub book : IsBook m.order_pool.size (refill s best n) (t ∷ m'.order_pool.free_indices) m'.book
    pub pool : IsValid m'.order_pool
    pub in_flight : contains t m'.order_pool.free_indices ≡ false
    pub slots : m'.order_pool.slot ≡ refill s best n
    pub same_size : m'.order_pool.size ≡ m.order_pool.size
    pub same_symbol : m'.book.symbol ≡ m.book.symbol
    pub shrinks : Shrinks m.book m'.book
    pub kept_or_gone : KeptOrGone best n m.order_pool m.book m'.order_pool m'.book
    pub book_after : BookAfter best n (s best) m.book m'.book

  -- What `cancel_order` finds when the best order is filled.
  gone : OrderBook
  gone = without m.order_pool.size s (t ∷ free) m.book best (s best).side

  cancel_best :
      IsMatching t m.order_pool m.book
      → IsBest m.order_pool.size s (t ∷ free) m.book side best
      → (cancel_order (refill s best n) (refill s best n best).id m.book ≡ (some best, gone))
        × IsBook m.order_pool.size s (best ∷ t ∷ free) gone
        × (get_total_orders m.book ≡ suc (get_total_orders gone))
  unfolding gone
  cancel_best v h =
      let at =
        subst (λ (d : OrderSide). At h.level best (side_orders d m.book)) (sym h.rests.has_side)
          h.stands in
      let (e, book, one) =
        cancel_order-present m.order_pool.size s (t ∷ free) m.book best h.rests.is_listed h.level at
          v.book in
      (
        ap (λ (id : OrderId). cancel_order (refill s best n) id m.book) (refill-id s best n best)
            ∙ cancel_order-refill s best n (s best).id m.book
            ∙ e,
        book,
        one,
      )

  gone-symbol :
      (d : OrderSide)
      → (without m.order_pool.size s (t ∷ free) m.book best d).symbol ≡ m.book.symbol
  gone-symbol buy = refl
  gone-symbol sell = refl

  gone-orders :
      (d : OrderSide)
      → side_orders d (without m.order_pool.size s (t ∷ free) m.book best d)
        ≡ erase_at (s best).price best (side_orders d m.book)
  gone-orders buy = refl
  gone-orders sell = refl

  gone-others :
      (d : OrderSide)
      → side_orders (opposite d) (without m.order_pool.size s (t ∷ free) m.book best d)
        ≡ side_orders (opposite d) m.book
  gone-others buy = refl
  gone-others sell = refl

  -- The orders that are there besides the best one.
  pub set_aside :
      IsMatching t m.order_pool m.book
      → IsBest m.order_pool.size s (t ∷ free) m.book side best
      → (b : OrderBook) × IsBook m.order_pool.size s (best ∷ t ∷ free) b
        × (side_orders (s best).side b
            ≡ erase_at (s best).price best (side_orders (s best).side m.book))
        × (side_orders (opposite (s best).side) b ≡ side_orders (opposite (s best).side) m.book)
  unfolding gone
  set_aside v h = (gone, (cancel_best v h).1, gone-orders (s best).side, gone-others (s best).side)

  out_swap :
      (q : OrderPtr) → contains q (best ∷ t ∷ free) ≡ false → contains q (t ∷ best ∷ free) ≡ false
  out_swap q h = ground arith

  full_quantity : is_filled (refill s best n best) ≡ leb (s best).quantity n
  unfolding is_filled
  full_quantity = ground arith

  pub remove_filled-Removes :
      IsMatching t m.order_pool m.book
      → IsBest m.order_pool.size s (t ∷ free) m.book side best
      → n ≤ (s best).quantity
      → Removes (remove_filled best (filled_to best n m))
  unfolding remove_filled deallocate
  remove_filled-Removes v h full = elim (Bool-cases (leb (s best).quantity n)) [
    | inr more ↦ rw (full_quantity ∙ more) (record {
      book = IsBook-refill s best n m.order_pool.size (t ∷ free) m.book (inr (ground arith)) v.book;
      pool = record { distinct = v.pool.distinct; in_range = v.pool.in_range };
      in_flight = v.in_flight;
      slots = refl;
      same_size = refl;
      same_symbol = refl;
      shrinks = Shrinks-refl m.book;
      kept_or_gone = inl (refl, refl, ground arith);
      book_after = inl (ground arith, refl);
    })
    | inl done ↦
        let (e, book, one) = cancel_best v h in
        let e' : (cancel_order (refill s best n) (refill s best n best).id m.book).1 ≡ gone =
          ap (λ (c : Option OrderPtr × OrderBook). c.1) e in
        rw (full_quantity ∙ done, e')
          (record {
            book =
                IsBook-out m.order_pool.size (refill s best n) (best ∷ t ∷ free) (t ∷ best ∷ free)
                  gone out_swap
                  (IsBook-refill s best n m.order_pool.size (best ∷ t ∷ free) gone
                    (inl (ground arith)) book);
            pool = record {
              distinct = (ground (arith, h.rests.in_use), v.pool.distinct);
              in_range = (h.rests.in_range, v.pool.in_range);
            };
            in_flight = ground (arith, h.rests.in_use, v.in_flight);
            slots = refl;
            same_size = refl;
            same_symbol = unfold gone in gone-symbol (s best).side;
            shrinks =
                unfold gone in
                without-Shrinks m.order_pool.size s (t ∷ free) m.book best (s best).side;
            kept_or_gone = inr (one, refl, ground arith);
            book_after = inr (
              ground arith,
              unfold gone in gone-orders (s best).side,
              unfold gone in gone-others (s best).side,
            );
          })
  ]
