-- ===== src/Engine/Offers.antt =====
-- What a round of the matching loops (src/matching_engine.cpp) does to the offers of Engine/Priority.
use order_matching_engine.Prelude.{
  ℕ, ◌+◌, ◌-◌, ◌<◌, ◌≤◌, ◌≡◌, ◌≢◌, refl, ap, subst, ◌∙◌, false, ◌⊎◌, some, List, ◌∷◌, contains, inl,
  inr, All, arith,
}
use order_matching_engine.Types.{OrderSide, Order, OrderPtr, Trade}
use order_matching_engine.PriceMap.{PriceMap, erase_at}
use order_matching_engine.Book.{OrderBook, Slots, side_orders}
use order_matching_engine.Book.Frame.{refill, refilled, refill_self, refill_ne}
use order_matching_engine.Book.Best.{IsBest}
use order_matching_engine.Engine.{Matching, best_opposite}
use order_matching_engine.Engine.Removal.{IsMatching, opposite, set_aside}
use order_matching_engine.Engine.Round.{Rounds, traded}
use order_matching_engine.Engine.Priority.{
  Offer, Fill, fill_from, take_offers, take_offers-zero, take_offers-part, take_offers-whole,
  offer_of, offers_of, queue_in, queue_for, offers_for, fill_of, fills_of, beyond,
}
use order_matching_engine.Engine.Priority.Front.{offers_of-refill, All-queue_for, front_lem}

module _ (clock : ℕ → ℕ) (side : OrderSide) (t : OrderPtr) where
  -- What the order should do and leave.
  abbrev pub promised : Matching → List Fill × List Offer
  promised m =
      let o = m.order_pool.slot t in
      take_offers side o.type o.price (o.quantity - o.quantity_filled)
        (offers_for side m.order_pool.slot m.book)

  abbrev pub Refines : Matching → List Trade → Matching → Type 0
  Refines m trades m' =
      (fills_of side trades ≡ (promised m).0)
      × (offers_for side m'.order_pool.slot m'.book ≡ (promised m).1)
      × (offers_for (opposite side) m'.order_pool.slot m'.book
          ≡ offers_for (opposite side) m.order_pool.slot m.book)

  module _ (m m1 : Matching) (best : OrderPtr) (qty : ℕ) (v : IsMatching t m.order_pool m.book)
      (h : IsBest m.order_pool.size m.order_pool.slot
        (t ∷ m.order_pool.free_indices)
        m.book
        (opposite side)
        best)
      (found : best_opposite side m.book ≡ some best) (r : Rounds t best qty m m1) where
    abbrev s : Slots
    s = m.order_pool.slot

    abbrev n : ℕ
    n = (s best).quantity_filled + qty

    -- The orders behind the best one.
    abbrev behind : List OrderPtr
    behind = queue_in side (erase_at (s best).price best (side_orders (opposite side) m.book))

    behind_apart : All (λ q. contains q (best ∷ t ∷ m.order_pool.free_indices) ≡ false) behind
    behind_apart =
        let (b, w, is, _) = set_aside (opposite side) t best n m v h in
        let is' : side_orders (opposite side) b
            ≡ erase_at (s best).price best (side_orders (opposite side) m.book) =
          subst
            (λ (d : OrderSide).
              side_orders d b ≡ erase_at (s best).price best (side_orders d m.book))
            h.rests.has_side is in
        subst
          (λ (l : PriceMap).
            All (λ q. contains q (best ∷ t ∷ m.order_pool.free_indices) ≡ false) (queue_in side l))
          is' (All-queue_for m.order_pool.size s (best ∷ t ∷ m.order_pool.free_indices) b w side)

    behind_same : offers_of m1.order_pool.slot behind ≡ offers_of s behind
    behind_same =
        ap (λ (f : Slots). offers_of f behind) r.slots
        ∙ offers_of-refill s t best _ n m.order_pool.free_indices behind behind_apart

    -- The orders of the taker's own side are apart from it and from the best order.
    own_apart :
        All
          (λ q. contains q (best ∷ t ∷ m.order_pool.free_indices) ≡ false)
          (queue_for (opposite side) m.book)
    own_apart =
        let (b, w, _, is) = set_aside (opposite side) t best n m v h in
        let is' : side_orders (opposite (opposite side)) b
            ≡ side_orders (opposite (opposite side)) m.book =
          subst (λ (d : OrderSide). side_orders (opposite d) b ≡ side_orders (opposite d) m.book)
            h.rests.has_side is in
        subst
          (λ (l : PriceMap).
            All (λ q. contains q (best ∷ t ∷ m.order_pool.free_indices) ≡ false)
              (queue_in (opposite side) l))
          is'
          (All-queue_for m.order_pool.size s (best ∷ t ∷ m.order_pool.free_indices) b w
            (opposite side))

    own_queue : queue_for (opposite side) m1.book ≡ queue_for (opposite side) m.book
    own_queue = elim r.book_after [
      | inl (_, same) ↦ ap (queue_for (opposite side)) same
      | inr (_, _, same) ↦ ap (queue_in (opposite side)) (
          subst
            (λ (d : OrderSide). side_orders (opposite d) m1.book ≡ side_orders (opposite d) m.book)
            h.rests.has_side same)
    ]

    own_same :
        offers_for (opposite side) m1.order_pool.slot m1.book ≡ offers_for (opposite side) s m.book
    own_same =
        ap (offers_of m1.order_pool.slot) own_queue
        ∙ ap (λ (f : Slots). offers_of f (queue_for (opposite side) m.book)) r.slots
        ∙ offers_of-refill s t best _ n m.order_pool.free_indices (queue_for (opposite side) m.book)
            own_apart

    best_now : m1.order_pool.slot best ≡ refilled (s best) n
    best_now =
        let apart : best ≢ t = λ e. ground (arith, h.rests.in_use) in
        ap (λ (f : Slots). f best) r.slots
        ∙ refill_self (refill s t ((s t).quantity_filled + qty)) best n
        ∙ ap (λ (o : Order). refilled o n) (refill_ne s t ((s t).quantity_filled + qty) best apart)

    front : queue_for side m.book ≡ best ∷ behind
    front =
        front_lem m.order_pool.size s (t ∷ m.order_pool.free_indices) m.book v.book side best
          h.rests.no_nan found

    offers_before : offers_for side s m.book ≡ offer_of (s best) ∷ offers_of s behind
    offers_before = ap (offers_of s) front

    -- The best offer has become smaller, or is gone.
    offers_after :
        ((n < (s best).quantity)
          × (offers_for side m1.order_pool.slot m1.book
              ≡ offer_of (refilled (s best) n) ∷ offers_of s behind))
        ⊎ ((n ≡ (s best).quantity)
            × (offers_for side m1.order_pool.slot m1.book ≡ offers_of s behind))
    offers_after = elim r.book_after [
      | inl (more, same) ↦ inl (
        more,
        ap (λ (b : OrderBook). offers_for side m1.order_pool.slot b) same
            ∙ ap (offers_of m1.order_pool.slot) front
            ∙ ap (λ (o : Order). offer_of o ∷ offers_of m1.order_pool.slot behind) best_now
            ∙ ap (λ (xs : List Offer). offer_of (refilled (s best) n) ∷ xs) behind_same,
      )
      | inr (done, left, _) ↦ inr (
        done,
        ap (λ (l : PriceMap). offers_of m1.order_pool.slot (queue_in side l))
              (subst
                (λ (d : OrderSide).
                  side_orders d m1.book ≡ erase_at (s best).price best (side_orders d m.book))
                h.rests.has_side left)
            ∙ behind_same,
      )
    ]

    promised_after :
        (k : ℕ) (xs : List Offer)
        → (s t).quantity - ((s t).quantity_filled + qty) ≡ k
        → offers_for side m1.order_pool.slot m1.book ≡ xs
        → promised m1 ≡ take_offers side (s t).type (s t).price k xs
    promised_after k xs is are =
        ap
          (λ (o : Order).
            take_offers side o.type o.price (o.quantity - o.quantity_filled)
              (offers_for side m1.order_pool.slot m1.book))
          r.taker_filled
        ∙ ap
            (λ (j : ℕ).
              take_offers side (s t).type (s t).price j
                (offers_for side m1.order_pool.slot m1.book))
            is
        ∙ ap (take_offers side (s t).type (s t).price k) are

    -- A round is what the first offer asks for.
    pub round-Refines :
        (m2 : Matching) (trade : Trade) (trades : List Trade)
        → qty ≡ traded t best m
        → fill_of side trade ≡ fill_from (offer_of (s best)) qty
        → 0 < (s t).quantity - (s t).quantity_filled
        → beyond side (s t).type (s t).price (s best).price ≡ false
        → Refines m1 trades m2
        → Refines m (trade ∷ trades) m2
    round-Refines m2 trade trades q this more fair (fills, rest, own) = elim offers_after [
      | inl (part, are) ↦
          let less : (s t).quantity - (s t).quantity_filled
              < (s best).quantity - (s best).quantity_filled =
            omega (arith, h.rests.open_qty) in
          let all : qty ≡ (s t).quantity - (s t).quantity_filled = omega (arith, q, less) in
          let nothing =
            promised_after 0 _ (omega (arith, all)) are
            ∙ take_offers-zero side (s t).type (s t).price _ in
          let whole : promised m ≡ _ =
            ap (take_offers side (s t).type (s t).price ((s t).quantity - (s t).quantity_filled))
              offers_before
            ∙ take_offers-part side (s t).type (s t).price _ (offer_of (s best))
                (offers_of s behind) more fair less in
          let smaller : ℕ → List Offer = λ k.
            record { id = (s best).id; price = (s best).price; left = k } ∷ offers_of s behind in
          (
            rw (whole, this, fills, nothing, all) refl,
            rw (rest, nothing, whole) (ap smaller (omega (arith, all))),
            own ∙ own_same,
          )
      | inr (done, are) ↦
          let most : (s best).quantity - (s best).quantity_filled
              ≤ (s t).quantity - (s t).quantity_filled =
            omega (arith, q, done, h.rests.open_qty) in
          let all : qty ≡ (s best).quantity - (s best).quantity_filled = omega (arith, done) in
          let others =
            promised_after
              ((s t).quantity
                - (s t).quantity_filled
                - ((s best).quantity - (s best).quantity_filled))
              _ (omega (arith, all)) are in
          let whole : promised m ≡ _ =
            ap (take_offers side (s t).type (s t).price ((s t).quantity - (s t).quantity_filled))
              offers_before
            ∙ take_offers-whole side (s t).type (s t).price _ (offer_of (s best))
                (offers_of s behind) more fair most in
          (rw (whole, this, fills, others, all) refl, rw (rest, others, whole) refl, own ∙ own_same)
    ]
