-- ===== src/Engine/Execute.antt =====
-- Steps 3 and 4 of MatchingEngine::process_new_order on the book of the order: the matching loop runs
-- to its end, and what is left of the order is settled.
use order_matching_engine.Prelude.{
  ℕ, suc, ◌+◌, ◌≤◌, ◌≡◌, sym, ap, subst, ◌∙◌, some, List, length, arith, All,
}
use order_matching_engine.Types.{OrderSide, Order, OrderPtr, Trade}
use order_matching_engine.Pool.{ObjectPool}
use order_matching_engine.Pool.Laws.{IsValid}
use order_matching_engine.Book.{OrderBook, get_total_orders}
use order_matching_engine.Book.Invariant.{IsBook}
use order_matching_engine.Book.Frame.{refilled}
use order_matching_engine.Engine.{Matching, settle, execute, match_against, settle_after}
use order_matching_engine.Engine.Removal.{IsMatching, Untouched}
use order_matching_engine.Engine.Matched.{Matched, Respects, volume, Enough}
use order_matching_engine.Engine.Loop.{match_against-Ends}
use order_matching_engine.Engine.Settle.{
  IsUncrossed, Shrinks-IsUncrossed, leaked, IsQueueable, settle-Settled,
}

-- What the book's part of `process_new_order` leaves, for an order in slot `t`.
pub record Executed (side : OrderSide) (t : OrderPtr) (p : ObjectPool Order) (b : OrderBook)
    (trades : List Trade) (p' : ObjectPool Order) (b' : OrderBook) : Type 0 where
  pub pool : IsValid p'
  pub book : IsBook p'.size p'.slot p'.free_indices b'
  pub same_symbol : b'.symbol ≡ b.symbol
  pub same_size : p'.size ≡ p.size
  pub others : Untouched t b.symbol p p'
  pub uncrossed : IsUncrossed b → IsUncrossed b'
  pub respected : All (Respects side (p.slot t)) trades
  pub not_over : (p.slot t).quantity_filled + volume trades ≤ (p.slot t).quantity
  pub accounted :
      suc (get_total_orders b + length p.free_indices)
      ≡ get_total_orders b'
        + length p'.free_indices
        + leaked (refilled (p.slot t) ((p.slot t).quantity_filled + volume trades))

module _ (clock : ℕ → ℕ) (side : OrderSide) (t : OrderPtr) (m : Matching) where
  pub queueable_after :
      (trades : List Trade) (m' : Matching)
      → IsQueueable side t m
      → Matched side t m.order_pool m.book trades m'.order_pool m'.book
      → IsQueueable side t m'
  queueable_after trades m' w d = record {
    has_symbol = ap (λ (o : Order). o.symbol) d.taker_filled ∙ w.has_symbol ∙ sym d.same_symbol;
    no_nan = rw d.taker_filled w.no_nan;
    new_id = rw d.taker_filled (d.shrinks.unlisted (m.order_pool.slot t).id w.new_id);
    has_side = rw d.taker_filled w.has_side;
  }

  pub settled_after :
      (trades : List Trade) (m' : Matching)
      → IsQueueable side t m
      → Matched side t m.order_pool m.book trades m'.order_pool m'.book
      → Executed side t m.order_pool m.book trades (settle t m').order_pool (settle t m').book
  settled_after trades m' w d =
      let z = settle-Settled side t m' d.still (queueable_after trades m' w d) d.over in
      record {
        pool = z.pool;
        book = z.book;
        same_symbol = z.same_symbol ∙ d.same_symbol;
        same_size = z.same_size ∙ d.same_size;
        others = λ q other foreign.
            let (e, kept) = d.others q other foreign in
            (ap (λ (f : OrderPtr → Order). f q) z.same_slots ∙ e, λ h. z.freed q other (kept h));
        uncrossed = λ u. z.uncrossed (Shrinks-IsUncrossed d.shrinks u);
        respected = d.respected;
        not_over =
            subst (λ (o : Order). o.quantity_filled ≤ o.quantity) d.taker_filled d.still.not_over;
        accounted = omega (arith, d.accounted, z.accounted, ap leaked d.taker_filled);
      }

  -- With enough fuel, matching an order in flight and settling it returns: pool and book are well
  -- formed, other symbols' slots are untouched, an uncrossed book stays uncrossed, the trades are
  -- within the order's limit and for no more than its quantity, and every slot is accounted for but
  -- that of a market order with a rest.
  pub execute-Executed :
      (fuel : ℕ)
      → IsMatching t m.order_pool m.book
      → IsQueueable side t m
      → Enough (m.order_pool.slot t) (get_total_orders m.book) fuel
      → (trades : List Trade) × (m' : Matching) × (execute clock fuel t m ≡ some (trades, m'))
        × Executed side t m.order_pool m.book trades m'.order_pool m'.book
  unfolding execute
  execute-Executed fuel v w h =
      let (trades, m', e, d) = match_against-Ends clock side t fuel m v h in
      (
        trades,
        settle t m',
        ap (λ (d : OrderSide). settle_after t (match_against clock d fuel t m)) w.has_side
            ∙ ap (settle_after t) e,
        settled_after trades m' w d,
      )
