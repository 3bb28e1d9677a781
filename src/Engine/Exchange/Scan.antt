-- ===== src/Engine/Exchange/Scan.antt =====
-- MatchingEngine::can_fill_completely (src/matching_engine.cpp): what it has found when it says yes.
use mathlib.Core.List.{append_assoc, append-nil}
use order_matching_engine.Prelude.{
  ℕ, suc, ◌+◌, ◌-◌, ◌<◌, ◌≤◌, ◌≡◌, refl, sym, ap, ◌∙◌, Bool, true, false, Option, none, some, List,
  [], ◌∷◌, ◌++◌, ◌==◌, All, All-append, All-mono, inl, inr, Bool-cases, u64_mod, sub_u64, arith,
}
use order_matching_engine.Price.{Price, is_nan, rank, lt, lt_lem, not_lt_of_rank}
use order_matching_engine.Types.{OrderSide, buy, sell, Order, OrderPtr, remaining_qty}
use order_matching_engine.PriceMap.{PriceMap}
use order_matching_engine.PriceMap.Order.{IsSide}
use order_matching_engine.PriceMap.Queue.{from_front, from_back}
use order_matching_engine.Book.{Slots, OrderBook}
use order_matching_engine.Book.Invariant.{Resting, IsBook}
use order_matching_engine.Validation.{take_level, scan_levels, can_fill_completely}
use order_matching_engine.Engine.Removal.{remaining_lem}
use order_matching_engine.Engine.Priority.{Offer, beyond, take_offers, offers_of, offers_for}
use order_matching_engine.Engine.Exchange.{taken}
use order_matching_engine.Engine.Exchange.Enough.{
  lefts, take_enough, lefts-append, offers_of-append, lefts-back_front, near_offers,
}

module _ (s : Slots) (R : Price → OrderPtr → Type 0)
    (bounded : (k : Price) (p : OrderPtr) → R k p → (s p).quantity < u64_mod)
    (not_over : (k : Price) (p : OrderPtr) → R k p → (s p).quantity_filled ≤ (s p).quantity) where
  -- What the scan of a level has taken off, in spite of the wrap-around.
  abbrev Level : ℕ → List OrderPtr → Option ℕ → Type 0
  Level needed ps none = needed ≤ lefts (offers_of s ps)
  Level needed ps (some n) = (needed ≤ lefts (offers_of s ps) + n) × (n < u64_mod)

  take_level_lem :
      (k : Price) (needed : ℕ) (ps : List OrderPtr)
      → needed < u64_mod
      → All (R k) ps
      → Level needed ps (take_level s needed ps)
  unfolding take_level
  take_level_lem k needed [] h all = (omega arith, h)
  take_level_lem k needed (p ∷ ps) h all =
      let left = remaining_lem (s p) (bounded k p all.0) (not_over k p all.0) in
      let needed' = sub_u64 needed (remaining_qty (s p)) in
      let below : needed' < u64_mod = omega arith in
      let sum : needed ≤ (s p).quantity - (s p).quantity_filled + needed' =
        omega (arith, left, bounded k p all.0) in
      let rest = take_level_lem k needed' ps below all.1 in
      elim (Bool-cases (needed' == 0)) [
        | inl over ↦
            rw over (let zero_left : needed' ≡ 0 = ground arith in omega (arith, sum, zero_left))
        | inr more ↦ rw more (with_this needed' (take_level s needed' ps) sum rest)
      ]
    where
      with_this :
          (n : ℕ) (r : Option ℕ)
          → needed ≤ (s p).quantity - (s p).quantity_filled + n
          → Level n ps r
          → Level needed (p ∷ ps) r
      with_this n none sum rest = omega arith
      with_this n (some m) sum (rest, below) = (omega arith, below)

  module _ (too_far : Price → Bool) (near : OrderPtr → Type 0)
      (is_near : (k : Price) (p : OrderPtr)
        → is_nan k ≡ false
        → too_far k ≡ false
        → R k p
        → near p) where
    -- The orders that a scan has passed when it says yes: they stand first, they are near, and they are enough.
    abbrev Scanned : ℕ → PriceMap → Type 0
    Scanned needed m =
        (ps qs : List OrderPtr) × (from_front m ≡ ps ++ qs)
        × All near ps
        × (needed ≤ lefts (offers_of s ps))

    scan_levels-Scanned :
        (lo needed : ℕ) (m : PriceMap)
        → needed < u64_mod
        → IsSide R lo m
        → scan_levels s too_far needed m ≡ true
        → Scanned needed m
    unfolding scan_levels
    scan_levels-Scanned lo needed [] h v found = cc
    scan_levels-Scanned lo needed ((k, ps) ∷ m) h (a, real, c, d, all, g) found =
        elim (Bool-cases (too_far k)) [
          | inl far ↦ let no : false ≡ true = rw far at found in cc
          | inr here ↦
              go (take_level s needed ps) (take_level_lem k needed ps h all)
                (λ n below. scan_levels-Scanned (suc (rank k)) n m below g) (rw here at found)
                (All-mono (R k) near (λ p. is_near k p real here) ps all)
        ]
      where
        go :
            (r : Option ℕ)
            → Level needed ps r
            → ((n : ℕ) → n < u64_mod → scan_levels s too_far n m ≡ true → Scanned n m)
            → elim r [ none ↦ true | some n ↦ scan_levels s too_far n m ] ≡ true
            → All near ps
            → Scanned needed ((k, ps) ∷ m)
        go none enough ih found nears = (ps, from_front m, refl, nears, enough)
        go (some n) (sum, below) ih found nears =
            let (more, qs, first, nears', enough) = ih n below found in
            (
              ps ++ more,
              qs,
              ap (λ (x : List OrderPtr). ps ++ x) first ∙ sym (append_assoc ps more qs),
              All-append near ps more nears nears',
              omega (arith, sum, enough, lefts-append s ps more),
            )

module _ (size : ℕ) (s : Slots) (out : List ℕ) (b : OrderBook) (v : IsBook size s out b) (o : Order)
    (real : is_nan o.price ≡ false) (in_range : o.quantity < u64_mod) where
  abbrev Stands : OrderSide → Price → OrderPtr → Type 0
  Stands side = Resting size s out b.symbol b.order_lookup side

  -- The order `p` is within the limit of `o`.
  abbrev Fair : OrderSide → OrderPtr → Type 0
  Fair side p = beyond side o.type o.price (s p).price ≡ false

  within_ask :
      (k : Price) (p : OrderPtr)
      → is_nan k ≡ false
      → lt o.price k ≡ false
      → Stands sell k p
      → Fair buy p
  within_ask k p real_k near r =
      let level : rank k ≤ rank o.price = ground (arith, lt_lem o.price k real real_k) in
      let not_dear = not_lt_of_rank o.price (s p).price (omega (arith, r.has_price)) in
      rw not_dear refl

  -- No bid is below the limit when the lowest is not.
  within_bids :
      (lo : ℕ) (m : PriceMap)
      → rank o.price ≤ lo
      → IsSide (Stands buy) lo m
      → All (Fair sell) (from_back m)
  within_bids lo [] h v = tt
  within_bids lo ((k, ps) ∷ m) h (a, real_k, c, d, all, g) =
      All-append (Fair sell) (from_back m) ps (within_bids (suc (rank k)) m (omega arith) g) (
        All-mono (Stands buy k) (Fair sell)
          (λ p r.
            let not_cheap = not_lt_of_rank (s p).price o.price (omega (arith, r.has_price)) in
            rw not_cheap refl)
          ps all)

  within_from_lowest :
      (needed : ℕ) (m : PriceMap)
      → IsSide (Stands buy) 0 m
      → scan_levels s (λ price. lt price o.price) needed m ≡ true
      → All (Fair sell) (from_back m)
  unfolding scan_levels
  within_from_lowest needed [] v found = tt
  within_from_lowest needed ((k, ps) ∷ m) (a, real_k, c, d, all, g) found =
      elim (Bool-cases (lt k o.price)) [
        | inl far ↦ let no : false ≡ true = rw far at found in cc
        | inr near ↦
            let level : rank o.price ≤ rank k = ground (arith, lt_lem k o.price real_k real) in
            within_bids (rank k) ((k, ps) ∷ m) level (omega arith, real_k, c, d, all, g)
      ]

  -- What the order takes when the scan of the other side says yes.
  abbrev Fills : OrderSide → Type 0
  Fills side =
      taken (take_offers side o.type o.price o.quantity (offers_for side s b)).0 ≡ o.quantity

  asks-Fills : scan_levels s (λ price. lt o.price price) o.quantity b.sell_orders ≡ true → Fills buy
  asks-Fills found =
      let (ps, qs, first, fair, enough) =
        scan_levels-Scanned s (Stands sell) (λ k p r. r.bounded)
          (λ k p r. omega (arith, r.open_qty)) (λ price. lt o.price price) (Fair buy) within_ask 0
          o.quantity b.sell_orders in_range v.sells found in
      ap (λ (xs : List Offer). taken (take_offers buy o.type o.price o.quantity xs).0)
        (ap (offers_of s) first ∙ offers_of-append s ps qs)
      ∙ take_enough buy o.type o.price o.quantity (offers_of s ps) (offers_of s qs)
          (near_offers s (λ x. beyond buy o.type o.price x.price ≡ false) ps fair) enough

  bids-Fills : scan_levels s (λ price. lt price o.price) o.quantity b.buy_orders ≡ true → Fills sell
  bids-Fills found =
      let (ps, qs, first, _, enough) =
        scan_levels-Scanned s (Stands buy) (λ k p r. r.bounded) (λ k p r. omega (arith, r.open_qty))
          (λ price. lt price o.price) (λ p. Unit) (λ k p real_k near r. tt) 0 o.quantity
          b.buy_orders in_range v.buys found in
      let all = offers_of s (from_back b.buy_orders) in
      ap (λ (xs : List Offer). taken (take_offers sell o.type o.price o.quantity xs).0)
        (sym (append-nil all))
      ∙ take_enough sell o.type o.price o.quantity all []
          (near_offers s (λ x. beyond sell o.type o.price x.price ≡ false) (from_back b.buy_orders)
            (within_from_lowest o.quantity b.buy_orders v.buys found))
          (omega (
            arith,
            enough,
            lefts-back_front s b.buy_orders,
            lefts-append s ps qs,
            ap (λ (x : List OrderPtr). lefts (offers_of s x)) first,
          ))

  -- When the check for fill-or-kill orders says yes, the offers within the limit fill the order completely.
  pub can_fill_completely-Fills : can_fill_completely s b o ≡ true → Fills o.side
  unfolding can_fill_completely
  can_fill_completely-Fills found = go o.side found
    where
      go :
          (side : OrderSide)
          → elim side [
            | buy ↦ scan_levels s (λ price. lt o.price price) o.quantity b.sell_orders
            | sell ↦ scan_levels s (λ price. lt price o.price) o.quantity b.buy_orders
          ]
            ≡ true
          → Fills side
      go buy found = asks-Fills found
      go sell found = bids-Fills found
