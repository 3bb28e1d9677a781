-- ===== src/Engine/Matched.antt =====
-- What the matching loops of MatchingEngine (src/matching_engine.cpp) leave, and what a round adds to
-- it.
use order_matching_engine.Prelude.{
  ℕ, suc, ◌+◌, ◌<◌, ◌≡◌, refl, sym, ap, subst, ◌∙◌, true, false, not, ◌&&◌, none, some, List, [],
  ◌∷◌, length, arith, inl, inr, ◌⊎◌, ◌==◌, ==_false, All, All-mono,
}
use order_matching_engine.Price.{lt}
use order_matching_engine.Types.{
  OrderSide, buy, sell, Order, OrderPtr, Trade, market, is_type, remaining_qty,
}
use order_matching_engine.Pool.{ObjectPool}
use order_matching_engine.Book.{OrderBook, get_total_orders}
use order_matching_engine.Book.Cancel.{Shrinks, Shrinks-refl, Shrinks-trans}
use order_matching_engine.Book.Frame.{refilled}
use order_matching_engine.Book.Best.{IsBest, Finds, best_of-Finds}
use order_matching_engine.Engine.{
  Matching, best_opposite, no_match, match_round, match_against, create_trade,
}
use order_matching_engine.Engine.Removal.{
  IsMatching, Untouched, KeptOrGone, opposite, remaining_lem,
}
use order_matching_engine.Engine.Round.{Rounds, traded, traded_lem}

abbrev pub volume : List Trade → ℕ
volume [] = 0
volume (t ∷ ts) = t.quantity + volume ts

-- A trade within the limit of the order `o`: it is for something, at no worse price than the order's
-- own unless that is a market order, and it names the order on its side.
abbrev pub Respects : OrderSide → Order → Trade → Type 0
Respects buy o t =
    (0 < t.quantity)
    × ((lt o.price t.price && not (is_type o.type market)) ≡ false)
    × (t.buy_order_id ≡ o.id)
Respects sell o t =
    (0 < t.quantity)
    × ((lt t.price o.price && not (is_type o.type market)) ≡ false)
    × (t.sell_order_id ≡ o.id)

-- Why the loop ends: the order is filled, or nobody is left to match, or the best price is beyond
-- the limit.
abbrev pub Over : OrderSide → Order → (OrderPtr → Order) → OrderBook → Type 0
Over side o s b =
    (o.quantity_filled ≡ o.quantity)
    ⊎ ((best_opposite side b ≡ none)
        ⊎ ((best : OrderPtr) × (best_opposite side b ≡ some best)
            × (no_match side (s best) o ≡ true)))

pub record Matched (side : OrderSide) (t : OrderPtr) (p : ObjectPool Order) (b : OrderBook)
    (trades : List Trade) (p' : ObjectPool Order) (b' : OrderBook) : Type 0 where
  pub still : IsMatching t p' b'
  pub taker_filled : p'.slot t ≡ refilled (p.slot t) ((p.slot t).quantity_filled + volume trades)
  pub same_symbol : b'.symbol ≡ b.symbol
  pub same_size : p'.size ≡ p.size
  pub shrinks : Shrinks b b'
  pub others : Untouched t b.symbol p p'
  pub accounted :
      get_total_orders b + length p.free_indices ≡ get_total_orders b' + length p'.free_indices
  pub over : Over side (p'.slot t) p'.slot b'
  pub respected : All (Respects side (p.slot t)) trades

Respects-refilled :
    (side : OrderSide) (o : Order) (n : ℕ) (tr : Trade)
    → Respects side (refilled o n) tr
    → Respects side o tr
Respects-refilled buy o n tr h = h
Respects-refilled sell o n tr h = h

-- Fuel for the rounds to come: one that trades and one to stop for each order in the book.
abbrev pub Enough : Order → ℕ → ℕ → Type 0
Enough o total fuel = ((o.quantity_filled ≡ o.quantity) × (0 < fuel)) ⊎ (suc total < fuel)

module _ (clock : ℕ → ℕ) (side : OrderSide) (t : OrderPtr) where
  abbrev pub Ends : ℕ → Matching → Type 0
  Ends fuel m =
      (trades : List Trade) × (m' : Matching) × (match_against clock side fuel t m
        ≡ some (trades, m'))
      × Matched side t m.order_pool m.book trades m'.order_pool m'.book

  -- No round is played.
  pub stops :
      (m : Matching)
      → IsMatching t m.order_pool m.book
      → Over side (m.order_pool.slot t) m.order_pool.slot m.book
      → Matched side t m.order_pool m.book [] m.order_pool m.book
  stops m v over = record {
    still = v;
    taker_filled = ap (refilled (m.order_pool.slot t)) (omega arith);
    same_symbol = refl;
    same_size = refl;
    shrinks = Shrinks-refl m.book;
    others = λ q other sym'. (refl, λ h. h);
    accounted = refl;
    over = over;
    respected = tt;
  }

  accounted_round :
      (m m1 m2 : Matching) (best : OrderPtr) (n : ℕ)
      → KeptOrGone best n m.order_pool m.book m1.order_pool m1.book
      → get_total_orders m1.book + length m1.order_pool.free_indices
        ≡ get_total_orders m2.book + length m2.order_pool.free_indices
      → get_total_orders m.book + length m.order_pool.free_indices
        ≡ get_total_orders m2.book + length m2.order_pool.free_indices
  accounted_round m m1 m2 best n (inl (a, b, _)) h = omega (arith, a, ap length b)
  accounted_round m m1 m2 best n (inr (a, b, _)) h = omega (arith, a, ap length b)

  -- One round is played, then the others.
  pub continues :
      (m m1 m2 : Matching) (best : OrderPtr) (trade : Trade) (trades : List Trade)
      → Rounds t best trade.quantity m m1
      → Respects side (m.order_pool.slot t) trade
      → Matched side t m1.order_pool m1.book trades m2.order_pool m2.book
      → Matched side t m.order_pool m.book (trade ∷ trades) m2.order_pool m2.book
  continues m m1 m2 best trade trades r fair d = record {
    still = d.still;
    taker_filled =
        d.taker_filled
        ∙ ap (λ (o : Order). refilled o (o.quantity_filled + volume trades)) r.taker_filled
        ∙ ap (refilled (m.order_pool.slot t)) (omega arith);
    same_symbol = d.same_symbol ∙ r.same_symbol;
    same_size = d.same_size ∙ r.same_size;
    shrinks = Shrinks-trans r.shrinks d.shrinks;
    others = λ q other foreign.
        let (e1, f1) = r.others q other foreign in
        let (e2, f2) =
          d.others q other
            (λ e. foreign (ap (λ (o : Order). o.symbol) (sym e1) ∙ e ∙ r.same_symbol)) in
        (e2 ∙ e1, λ h. f2 (f1 h));
    accounted = accounted_round m m1 m2 best _ r.kept_or_gone d.accounted;
    over = d.over;
    respected = (
      fair,
      All-mono _ _ (λ tr. Respects-refilled side (m.order_pool.slot t) _ tr) trades
          (subst (λ (o : Order). All (Respects side o) trades) r.taker_filled d.respected),
    );
  }

  pub some_left :
      (m : Matching) (best : OrderPtr) (d : OrderSide)
      → IsMatching t m.order_pool m.book
      → IsBest m.order_pool.size m.order_pool.slot (t ∷ m.order_pool.free_indices) m.book d best
      → (remaining_qty (m.order_pool.slot t) == 0) ≡ false
      → 0 < traded t best m
  some_left m best d v h more = omega (
    arith,
    ==_false (remaining_qty (m.order_pool.slot t)) 0 more,
    remaining_lem (m.order_pool.slot t) v.bounded v.not_over,
    h.rests.open_qty,
  )

  -- After a round the fuel that is left is enough for the others.
  pub fuel_suffices :
      (m m1 : Matching) (best : OrderPtr) (fuel : ℕ)
      → Rounds t best (traded t best m) m m1
      → IsMatching t m.order_pool m.book
      → (remaining_qty (m.order_pool.slot t) == 0) ≡ false
      → Enough (m.order_pool.slot t) (get_total_orders m.book) (suc fuel)
      → Enough (m1.order_pool.slot t) (get_total_orders m1.book) fuel
  fuel_suffices m m1 best fuel r v more (inl (done, _)) = absurd (
      omega (
        arith,
        ==_false (remaining_qty (m.order_pool.slot t)) 0 more,
        remaining_lem (m.order_pool.slot t) v.bounded v.not_over,
      ))
  fuel_suffices m m1 best fuel r v more (inr h) = elim r.kept_or_gone [
    | inl (a, _, c) ↦ inl (rw r.taker_filled (omega (arith, c, v.not_over)), omega arith)
    | inr (a, _, _) ↦ inr (omega (arith, a, h))
  ]

  -- The trade of a round.
  pub trade_lem :
      (m : Matching) (best : OrderPtr) (d : OrderSide)
      → IsMatching t m.order_pool m.book
      → IsBest m.order_pool.size m.order_pool.slot
          (t ∷ m.order_pool.free_indices)
          m.book
          (opposite d)
          best
      → (remaining_qty (m.order_pool.slot t) == 0) ≡ false
      → no_match d (m.order_pool.slot best) (m.order_pool.slot t) ≡ false
      → ((match_round clock d t best m).0.quantity ≡ traded t best m)
        × Respects d (m.order_pool.slot t) (match_round clock d t best m).0
  unfolding match_round create_trade
  trade_lem m best buy v h more go =
      let q = traded_lem clock t best m sell v h in
      (q, (rw q (some_left m best sell v h more), go, refl))
  trade_lem m best sell v h more go =
      let q = traded_lem clock t best m buy v h in
      (q, (rw q (some_left m best buy v h more), go, refl))

  pub best_opposite-IsBest :
      (d : OrderSide) (m : Matching) (best : OrderPtr)
      → IsMatching t m.order_pool m.book
      → best_opposite d m.book ≡ some best
      → IsBest m.order_pool.size m.order_pool.slot
          (t ∷ m.order_pool.free_indices)
          m.book
          (opposite d)
          best
  best_opposite-IsBest buy m best v e =
      subst (Finds m.order_pool.size m.order_pool.slot (t ∷ m.order_pool.free_indices) m.book sell)
        e (best_of-Finds _ _ _ _ sell v.book)
  best_opposite-IsBest sell m best v e =
      subst (Finds m.order_pool.size m.order_pool.slot (t ∷ m.order_pool.free_indices) m.book buy) e
        (best_of-Finds _ _ _ _ buy v.book)
