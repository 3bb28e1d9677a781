-- ===== src/Engine/Ledger.antt =====
-- The trade history and the statistics that MatchingEngine::create_trade keeps: every trade that a
-- loop returns is recorded, in order, and counted. This holds of every state, well formed or not.
use mathlib.Core.List.{append_assoc, append-nil}
use order_matching_engine.Prelude.{
  ℕ, zero, suc, ◌+◌, ◌%◌, ◌≡◌, refl, sym, ap, ◌∙◌, Option, none, some, List, [], ◌∷◌, ◌++◌, length,
  u64_mod, add_u64, arith, inl, inr, Option-cases, Bool-cases, subst, ◌==◌,
}
use order_matching_engine.Types.{OrderSide, buy, sell, OrderPtr, Trade, remaining_qty, is_filled}
use order_matching_engine.Engine.{
  Matching, slot_of, best_opposite, no_match, create_trade, remove_filled, match_round,
  match_against, with_trade, settle, execute, settle_after,
}
use order_matching_engine.Engine.Matched.{volume}

-- The trades are appended to the history, and counted modulo 2 ^ 64.
pub record Records (m : Matching) (trades : List Trade) (m' : Matching) : Type 0 where
  pub history : m'.trade_history ≡ m.trade_history ++ trades
  pub trades_counted :
      m'.stats.total_trades % u64_mod ≡ (m.stats.total_trades + length trades) % u64_mod
  pub volume_counted :
      m'.stats.total_volume % u64_mod ≡ (m.stats.total_volume + volume trades) % u64_mod

abbrev Recorded : Matching → Option (List Trade × Matching) → Type 0
Recorded m none = Unit
Recorded m (some (trades, m')) = Records m trades m'

-- A change that leaves the history and both counters alone.
abbrev SameLedger : Matching → Matching → Type 0
SameLedger m m' =
    (m'.trade_history ≡ m.trade_history)
    × (m'.stats.total_trades ≡ m.stats.total_trades)
    × (m'.stats.total_volume ≡ m.stats.total_volume)

remove_filled-SameLedger : (best : OrderPtr) (m : Matching) → SameLedger m (remove_filled best m)
unfolding remove_filled
remove_filled-SameLedger best m = elim (Bool-cases (is_filled (slot_of m best))) [
  | inl full ↦ rw full (refl, refl, refl)
  | inr part ↦ rw part (refl, refl, refl)
]

settle-SameLedger : (p : OrderPtr) (m : Matching) → SameLedger m (settle p m)
unfolding settle
settle-SameLedger p m = ground arith

module _ (clock : ℕ → ℕ) (side : OrderSide) (t : OrderPtr) where
  match_round-Records :
      (d : OrderSide) (best : OrderPtr) (m : Matching)
      → let (trade, m') = match_round clock d t best m in
        (m'.trade_history ≡ m.trade_history ++ trade ∷ [])
        × (m'.stats.total_trades ≡ add_u64 m.stats.total_trades 1)
        × (m'.stats.total_volume ≡ add_u64 m.stats.total_volume trade.quantity)
  unfolding match_round create_trade
  match_round-Records buy best m = remove_filled-SameLedger best _
  match_round-Records sell best m = remove_filled-SameLedger best _

  no_trade : (m : Matching) → Records m [] m
  no_trade m = record {
    history = sym (append-nil m.trade_history);
    trades_counted = omega arith;
    volume_counted = omega arith;
  }

  more_trades :
      (m m1 : Matching) (trade : Trade) (r : Option (List Trade × Matching))
      → m1.trade_history ≡ m.trade_history ++ trade ∷ []
      → m1.stats.total_trades ≡ add_u64 m.stats.total_trades 1
      → m1.stats.total_volume ≡ add_u64 m.stats.total_volume trade.quantity
      → Recorded m1 r
      → Recorded m (with_trade trade r)
  more_trades m m1 trade none h n v d = tt
  more_trades m m1 trade (some (trades, m')) h n v d = record {
    history =
        d.history
        ∙ ap (λ (ts : List Trade). ts ++ trades) h
        ∙ append_assoc m.trade_history (trade ∷ []) trades;
    trades_counted = omega (arith, d.trades_counted, n);
    volume_counted = omega (arith, d.volume_counted, v);
  }

  match_against-Recorded :
      (fuel : ℕ) (m : Matching) → Recorded m (match_against clock side fuel t m)
  unfolding match_against
  match_against-Recorded zero m = tt
  match_against-Recorded (suc fuel) m = elim (Bool-cases (remaining_qty (slot_of m t) == 0)) [
    | inl done ↦ rw (done, match_against) (no_trade m)
    | inr more ↦ elim (Option-cases (best_opposite side m.book)) [
      | inl nobody ↦ rw (more, match_against) (rw nobody (no_trade m))
      | inr (best, found) ↦ elim (Bool-cases (no_match side (slot_of m best) (slot_of m t))) [
        | inl beyond ↦ rw (more, match_against) (rw found (rw beyond (no_trade m)))
        | inr go ↦
            let (h, n, v) = match_round-Records side best m in
            rw (more, match_against)
              (rw found (
                rw go (
                  more_trades m (match_round clock side t best m).1
                    (match_round clock side t best m).0
                    (match_against clock side fuel t (match_round clock side t best m).1) h n v
                    (match_against-Recorded fuel (match_round clock side t best m).1))))
      ]
    ]
  ]

settled-Recorded :
    (p : OrderPtr) (m : Matching) (r : Option (List Trade × Matching))
    → Recorded m r
    → Recorded m (settle_after p r)
settled-Recorded p m none d = tt
settled-Recorded p m (some (trades, m')) d =
    let (h, n, v) = settle-SameLedger p m' in
    record {
      history = h ∙ d.history;
      trades_counted = ap (λ (k : ℕ). k % u64_mod) n ∙ d.trades_counted;
      volume_counted = ap (λ (k : ℕ). k % u64_mod) v ∙ d.volume_counted;
    }

-- Whenever matching and settling an order returns, the trades that it returns stand at the end of
-- the trade history, in order, and are counted with their volume, modulo 2 ^ 64.
pub execute-Records :
    (clock : ℕ → ℕ) (fuel : ℕ) (p : OrderPtr) (m m' : Matching) (trades : List Trade)
    → execute clock fuel p m ≡ some (trades, m')
    → Records m trades m'
unfolding execute
execute-Records clock fuel p m m' trades h =
    subst (Recorded m) h
      (settled-Recorded p m _ (match_against-Recorded clock (slot_of m p).side p fuel m))
