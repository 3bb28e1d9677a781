-- ===== src/Engine/Times.antt =====
-- MatchingEngine (src/matching_engine.cpp) with two clocks: what the system clock says goes into the
-- timestamps of trades and nowhere else.
use mathlib.Core.List.{map-append}
pub mod Clocks
use Prim.Native.Nat.{min}
use order_matching_engine.Prelude.{
  ℕ, zero, suc, ◌≡◌, refl, sym, ap, ◌∙◌, Bool, true, false, not, ◌&&◌, Option, none, some, List, [],
  ◌∷◌, ◌++◌, map, ◌==◌, inl, inr, Bool-cases, Option-cases, if◌then◌else◌, arith,
}
use order_matching_engine.Prelude.Bytes.{lookup, insert}
use order_matching_engine.Types.{
  OrderSide, buy, sell, ioc, market, Symbol, Quantity, Order, OrderPtr, Trade, fok, is_type,
  is_filled, remaining_qty,
}
use order_matching_engine.Pool.{ObjectPool, allocate, deallocate, store}
use order_matching_engine.Book.{OrderBook, new_book}
use order_matching_engine.Validation.{validate_order, can_fill_completely}
use order_matching_engine.Engine.{
  MatchingEngine, Matching, Stats, slot_of, at_book, put_back, back_in, get_or_create_order_book,
  best_opposite, no_match, create_trade, trade_with, reduce, remove_filled, match_round,
  match_against, with_trade, settle, settle_after, execute, route, admit, process_new_order,
}

-- The trade without its timestamp.
abbrev pub untimed : Trade → Trade
untimed t = record t { timestamp = 0 }

abbrev pub untimed_matching : Matching → Matching
untimed_matching m = record m { trade_history = map untimed m.trade_history; clock_reads = 0 }

abbrev pub untimed_engine : MatchingEngine → MatchingEngine
untimed_engine e = record e { trade_history = map untimed e.trade_history; clock_reads = 0 }

abbrev pub untimed_run : Option (List Trade × Matching) → Option (List Trade × Matching)
untimed_run none = none
untimed_run (some (trades, m)) = some (map untimed trades, untimed_matching m)

abbrev pub untimed_call :
    Option (List Trade × MatchingEngine) → Option (List Trade × MatchingEngine)
untimed_call none = none
untimed_call (some (trades, e)) = some (map untimed trades, untimed_engine e)

pub untimed-twice : (ts : List Trade) → map untimed (map untimed ts) ≡ map untimed ts
untimed-twice [] = refl
untimed-twice (t ∷ ts) = ap (λ (l : List Trade). untimed t ∷ l) (untimed-twice ts)

-- A trade is added to a history, and one that differs in its timestamp to the history without timestamps.
untimed-snoc :
    (ts : List Trade) (t t' : Trade)
    → untimed t ≡ untimed t'
    → map untimed (ts ++ t ∷ []) ≡ map untimed (map untimed ts ++ t' ∷ [])
untimed-snoc [] t t' same = ap (λ (u : Trade). u ∷ []) same
untimed-snoc (x ∷ ts) t t' same = ap (λ (l : List Trade). untimed x ∷ l) (untimed-snoc ts t t' same)

abbrev pub no_clock : ℕ → ℕ
no_clock n = 0

untimed_matching-twice : (m : Matching) → untimed_matching m ≡ untimed_matching (untimed_matching m)
untimed_matching-twice m =
    ap (λ (h : List Trade). record m { trade_history = h; clock_reads = 0 })
      (sym (untimed-twice m.trade_history))

with_trade-untimed :
    (t : Trade) (r : Option (List Trade × Matching))
    → untimed_run (with_trade t r) ≡ with_trade (untimed t) (untimed_run r)
with_trade-untimed t none = refl
with_trade-untimed t (some (trades, m)) = refl

remove_filled-untimed :
    (best : OrderPtr) (m : Matching)
    → untimed_matching (remove_filled best m) ≡ remove_filled best (untimed_matching m)
unfolding remove_filled
remove_filled-untimed best m = elim (Bool-cases (is_filled (slot_of m best))) [
  | inl full ↦ rw full refl
  | inr part ↦ rw part refl
]

settle-untimed :
    (p : OrderPtr) (m : Matching) → untimed_matching (settle p m) ≡ settle p (untimed_matching m)
unfolding settle
settle-untimed p m = elim (Bool-cases (is_filled (slot_of m p))) [
  | inl full ↦ rw full refl
  | inr part ↦ elim (Bool-cases (is_type (slot_of m p).type ioc)) [
    | inl is_ioc ↦ rw (part, is_ioc) refl
    | inr no_ioc ↦ elim (Bool-cases (is_type (slot_of m p).type market)) [
      | inl is_market ↦ rw (part, no_ioc, is_market) refl
      | inr no_market ↦ rw (part, no_ioc, no_market) refl
    ]
  ]
]

module _ (t : OrderPtr) where
  -- The round's changes but for the removal.
  abbrev booked : OrderSide → OrderPtr → Matching → Matching
  booked side best m =
      let qty = min (remaining_qty (slot_of m t)) (remaining_qty (slot_of m best)) in
      reduce best qty
        (reduce t qty (trade_with no_clock side (slot_of m t) (slot_of m best) qty m).1)

  -- A round makes the trade that it makes without a clock, but for the timestamp, and leaves the same.
  match_round-untimed :
      (clock : ℕ → ℕ) (side : OrderSide) (best : OrderPtr) (m : Matching)
      → let without = match_round no_clock side t best (untimed_matching m) in
        (untimed (match_round clock side t best m).0 ≡ untimed without.0)
        × (untimed_matching (match_round clock side t best m).1 ≡ untimed_matching without.1)
  unfolding match_round create_trade
  match_round-untimed clock buy best m = (
    refl,
    remove_filled-untimed best _
        ∙ ap
            (λ (h : List Trade).
              remove_filled best
                (record (booked buy best m) { trade_history = h; clock_reads = 0 }))
            (untimed-snoc m.trade_history _ _ refl)
        ∙ sym (remove_filled-untimed best _),
  )
  match_round-untimed clock sell best m = (
    refl,
    remove_filled-untimed best _
        ∙ ap
            (λ (h : List Trade).
              remove_filled best
                (record (booked sell best m) { trade_history = h; clock_reads = 0 }))
            (untimed-snoc m.trade_history _ _ refl)
        ∙ sym (remove_filled-untimed best _),
  )

  abbrev WithoutClock : (ℕ → ℕ) → OrderSide → ℕ → Matching → Type 0
  WithoutClock clock side fuel m =
      untimed_run (match_against clock side fuel t m)
      ≡ untimed_run (match_against no_clock side fuel t (untimed_matching m))

  match_against-untimed :
      (clock : ℕ → ℕ) (side : OrderSide) (fuel : ℕ) (m : Matching) → WithoutClock clock side fuel m
  unfolding match_against
  match_against-untimed clock side zero m = refl
  match_against-untimed clock side (suc fuel) m =
      elim (Bool-cases (remaining_qty (slot_of m t) == 0)) [
        | inl full ↦ rw (full, match_against) (still m)
        | inr wants ↦ elim (Option-cases (best_opposite side m.book)) [
          | inl nobody ↦ rw (wants, match_against) (rw nobody (still m))
          | inr (best, found) ↦ elim (Bool-cases (no_match side (slot_of m best) (slot_of m t))) [
            | inl far ↦ rw (wants, match_against) (rw found (rw far (still m)))
            | inr near ↦
                rw (wants, match_against)
                  (rw found (
                    rw near (
                      round best (match_against-untimed clock side fuel)
                        (match_against-untimed no_clock side fuel))))
          ]
        ]
      ]
    where
      still :
          (m : Matching) → untimed_run (some ([], m)) ≡ untimed_run (some ([], untimed_matching m))
      still m = ap (λ (n : Matching). some ([], n)) (untimed_matching-twice m)

      round :
          (best : OrderPtr)
          → ((n : Matching) → WithoutClock clock side fuel n)
          → ((n : Matching) → WithoutClock no_clock side fuel n)
          → untimed_run (
              with_trade
                (match_round clock side t best m).0
                (match_against clock side fuel t (match_round clock side t best m).1))
            ≡ untimed_run (
                with_trade (match_round no_clock side t best (untimed_matching m)).0 (
                  match_against no_clock side fuel t
                    (match_round no_clock side t best (untimed_matching m)).1))
      round best ih ih0 =
          let (trade, left) = match_round-untimed clock side best m in
          let rest =
            ih (match_round clock side t best m).1
            ∙ ap (λ (n : Matching). untimed_run (match_against no_clock side fuel t n)) left
            ∙ sym (ih0 (match_round no_clock side t best (untimed_matching m)).1) in
          with_trade-untimed _ _
          ∙ (λ i. with_trade (trade i) (rest i))
          ∙ sym (with_trade-untimed _ _)

  settle_after-untimed :
      (r : Option (List Trade × Matching))
      → untimed_run (settle_after t r) ≡ settle_after t (untimed_run r)
  settle_after-untimed none = refl
  settle_after-untimed (some (trades, m)) =
      ap (λ (n : Matching). some (map untimed trades, n)) (settle-untimed t m)

  pub execute-untimed :
      (clock : ℕ → ℕ) (fuel : ℕ) (m : Matching)
      → untimed_run (execute clock fuel t m)
        ≡ untimed_run (execute no_clock fuel t (untimed_matching m))
  unfolding execute
  execute-untimed clock fuel m =
      settle_after-untimed _
      ∙ ap (settle_after t) (match_against-untimed clock (slot_of m t).side fuel m)
      ∙ sym (settle_after-untimed _)
