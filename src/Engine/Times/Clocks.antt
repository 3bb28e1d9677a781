-- ===== src/Engine/Times/Clocks.antt =====
-- MatchingEngine::process_new_order (src/matching_engine.cpp) of two engines that may differ in the
-- timestamps of their trades, each with a clock of its own.
use order_matching_engine.Prelude.{
  ℕ, ◌≡◌, refl, sym, ap, ◌∙◌, not, ◌&&◌, Option, none, some, List, [], map, inl, inr, Bool-cases,
  Option-cases, if◌then◌else◌, none-ne-some, some-inj,
}
use order_matching_engine.Prelude.Bytes.{lookup, insert}
use order_matching_engine.Types.{Symbol, Order, OrderPtr, Trade, fok, is_type}
use order_matching_engine.Pool.{ObjectPool, allocate, deallocate, store}
use order_matching_engine.Book.{OrderBook, new_book}
use order_matching_engine.Validation.{validate_order, can_fill_completely}
use order_matching_engine.Engine.{
  MatchingEngine, Matching, at_book, back_in, get_or_create_order_book, execute, route, admit,
  process_new_order,
}
use order_matching_engine.Engine.Times.{
  untimed, untimed_engine, untimed_run, untimed_call, no_clock, untimed-twice, execute-untimed,
}

back_in-untimed :
    (symbol : Symbol) (e : MatchingEngine) (r : Option (List Trade × Matching))
    → untimed_call (back_in symbol e r) ≡ back_in symbol (untimed_engine e) (untimed_run r)
back_in-untimed symbol e none = refl
back_in-untimed symbol e (some (trades, m)) = refl

untimed_engine-twice : (e : MatchingEngine) → untimed_engine e ≡ untimed_engine (untimed_engine e)
untimed_engine-twice e =
    ap (λ (h : List Trade). record e { trade_history = h; clock_reads = 0 })
      (sym (untimed-twice e.trade_history))

module _ (t : OrderPtr) where
  routed :
      (clock : ℕ → ℕ) (fuel : ℕ) (o : Order) (b : OrderBook) (e : MatchingEngine)
      → untimed_call (
          if is_type o.type fok && not (can_fill_completely e.order_pool.slot b o)
          then some ([], e)
          else back_in o.symbol e (execute clock fuel t (at_book e b)))
        ≡ untimed_call (
            if is_type o.type fok && not (can_fill_completely e.order_pool.slot b o)
            then some ([], untimed_engine e)
            else back_in o.symbol
                (untimed_engine e)
                (execute no_clock fuel t (at_book (untimed_engine e) b)))
  routed clock fuel o b e =
      elim (Bool-cases (is_type o.type fok && not (can_fill_completely e.order_pool.slot b o))) [
        | inl kill ↦ rw kill (ap (λ (d : MatchingEngine). some ([], d)) (untimed_engine-twice e))
        | inr go ↦ rw go (
            back_in-untimed o.symbol e _
            ∙ ap (back_in o.symbol (untimed_engine e)) (execute-untimed t clock fuel (at_book e b))
            ∙ sym (back_in-untimed o.symbol (untimed_engine e) _))
      ]

  route-untimed :
      (clock : ℕ → ℕ) (fuel : ℕ) (e : MatchingEngine)
      → untimed_call (route clock fuel t e)
        ≡ untimed_call (route no_clock fuel t (untimed_engine e))
  unfolding route get_or_create_order_book
  route-untimed clock fuel e =
      let o = e.order_pool.slot t in
      elim (Option-cases (lookup o.symbol e.order_books)) [
        | inl missing ↦
            let b = new_book o.symbol in
            rw (missing, get_or_create_order_book)
              (routed clock fuel o b (record e { order_books = insert o.symbol b e.order_books }))
        | inr (b, found) ↦ rw (found, get_or_create_order_book) (routed clock fuel o b e)
      ]

admit-untimed :
    (clock : ℕ → ℕ) (fuel : ℕ) (o : Order) (e : MatchingEngine) (r : Option (ℕ × ObjectPool Order))
    → untimed_call (admit clock fuel o e r)
      ≡ untimed_call (admit no_clock fuel o (untimed_engine e) r)
unfolding admit
admit-untimed clock fuel o e none =
    ap (λ (d : MatchingEngine). some ([], d)) (untimed_engine-twice e)
admit-untimed clock fuel o e (some (t, pool)) = elim (Bool-cases (validate_order o)) [
  | inl valid ↦ rw valid (route-untimed t clock fuel (record e { order_pool = store t o pool }))
  | inr invalid ↦ rw invalid (
      ap (λ (d : MatchingEngine). some ([], d))
        (untimed_engine-twice (record e { order_pool = deallocate t (store t o pool) })))
]

process_new_order-untimed :
    (clock : ℕ → ℕ) (fuel : ℕ) (o : Order) (e : MatchingEngine)
    → untimed_call (process_new_order clock fuel o e)
      ≡ untimed_call (process_new_order no_clock fuel o (untimed_engine e))
unfolding process_new_order
process_new_order-untimed clock fuel o e = admit-untimed clock fuel o e (allocate e.order_pool)

-- Two engines that differ in the timestamps of the trades in their histories, if at all.
pub record SameButTimes (e e' : MatchingEngine) : Type 0 where
  pub pool : e.order_pool ≡ e'.order_pool
  pub books : e.order_books ≡ e'.order_books
  pub history : map untimed e.trade_history ≡ map untimed e'.trade_history
  pub stats : e.stats ≡ e'.stats

untimed-SameButTimes :
    (e e' : MatchingEngine) → untimed_engine e ≡ untimed_engine e' → SameButTimes e e'
untimed-SameButTimes e e' same = record {
  pool = ap (λ (d : MatchingEngine). d.order_pool) same;
  books = ap (λ (d : MatchingEngine). d.order_books) same;
  history = ap (λ (d : MatchingEngine). d.trade_history) same;
  stats = ap (λ (d : MatchingEngine). d.stats) same;
}

SameButTimes-untimed :
    (e e' : MatchingEngine) → SameButTimes e e' → untimed_engine e ≡ untimed_engine e'
SameButTimes-untimed e e' same = λ i. record {
  order_pool = same.pool i;
  order_books = same.books i;
  trade_history = same.history i;
  stats = same.stats i;
  clock_reads = 0;
}

-- When a call returns on one of two such engines, it returns on the other, whatever its clock says,
-- and leaves two such engines.
pub process_new_order-SameButTimes :
    (clock clock' : ℕ → ℕ) (fuel : ℕ) (o : Order) (e e' d : MatchingEngine) (trades : List Trade)
    → SameButTimes e' e
    → process_new_order clock fuel o e ≡ some (trades, d)
    → (trades' : List Trade) × (d' : MatchingEngine) × (process_new_order clock' fuel o e'
        ≡ some (trades', d'))
      × SameButTimes d' d
process_new_order-SameButTimes clock clock' fuel o e e' d trades same ran =
    go (process_new_order clock' fuel o e') refl (
      process_new_order-untimed clock' fuel o e'
      ∙ ap (λ (x : MatchingEngine). untimed_call (process_new_order no_clock fuel o x))
          (SameButTimes-untimed e' e same)
      ∙ sym (process_new_order-untimed clock fuel o e)
      ∙ ap untimed_call ran)
  where
    go :
        (r : Option (List Trade × MatchingEngine))
        → process_new_order clock' fuel o e' ≡ r
        → untimed_call r ≡ some (map untimed trades, untimed_engine d)
        → (trades' : List Trade) × (d' : MatchingEngine) × (process_new_order clock' fuel o e'
            ≡ some (trades', d'))
          × SameButTimes d' d
    go none is both = absurd (none-ne-some both)
    go (some (trades', d')) is both = (
      trades',
      d',
      is,
      untimed-SameButTimes d' d (ap (λ (x : List Trade × MatchingEngine). x.1) (some-inj both)),
    )
