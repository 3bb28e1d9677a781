-- ===== src/Engine/Exchange/AllOrNothing.antt =====
-- MatchingEngine::process_new_order (src/matching_engine.cpp) with a fill-or-kill order.
use order_matching_engine.Prelude.{
  ℕ, ◌-◌, ◌≡◌, refl, sym, ap, ◌∙◌, ◌⊎◌, Bool, true, false, Option, some, List, [], ◌∷◌, inl, inr,
  Option-cases, Bool-cases, arith,
}
use mathlib.Core.Bool.{false≢true}
use order_matching_engine.Prelude.Bytes.{lookup}
use order_matching_engine.Price.{lt}
use order_matching_engine.Types.{OrderSide, buy, sell, Symbol, Order, OrderPtr, Trade, fok, is_type}
use order_matching_engine.Pool.{store}
use order_matching_engine.Book.{OrderBook, Slots, new_book}
use order_matching_engine.Validation.{scan_levels, can_fill_completely}
use order_matching_engine.Engine.{MatchingEngine, process_new_order}
use order_matching_engine.Engine.Matched.{volume}
use order_matching_engine.Engine.Books.{IsEngine}
use order_matching_engine.Engine.Route.{IsAcceptable}
use order_matching_engine.Engine.Process.{stored-IsInFlight}
use order_matching_engine.Engine.Priority.{Offer, take_offers, offers_for, fills_of}
use order_matching_engine.Engine.Exchange.{
  Depth, depth_of, met, submit, trade_on, taken, taken-fills_of,
}
use order_matching_engine.Engine.Exchange.Trading.{met_lem}
use order_matching_engine.Engine.Exchange.Unchanged.{depth_in, depth_at}
use order_matching_engine.Engine.Exchange.Scan.{can_fill_completely-Fills}
use order_matching_engine.Engine.Exchange.Routing.{book_for, turned_away}
use order_matching_engine.Engine.Exchange.Submitting.{stored_same, process_new_order-Submits}

-- Nothing can be filled from a book without orders.
can_fill_completely-new_book :
    (s : Slots) (symbol : Symbol) (o : Order) → can_fill_completely s (new_book symbol) o ≡ false
unfolding can_fill_completely scan_levels new_book
can_fill_completely-new_book s symbol o = go o.side
  where
    go :
        (side : OrderSide)
        → elim side [
          | buy ↦ scan_levels s (λ price. lt o.price price) o.quantity []
          | sell ↦ scan_levels s (λ price. lt price o.price) o.quantity []
        ]
          ≡ false
    go buy = refl
    go sell = refl

pub fills_of-nil :
    (side : OrderSide) (trades : List Trade) → fills_of side trades ≡ [] → trades ≡ []
fills_of-nil side [] h = refl
fills_of-nil side (t ∷ ts) h = cc

module _ (clock : ℕ → ℕ) (fuel : ℕ) (o : Order) (e : MatchingEngine) (v : IsEngine e)
    (w : IsAcceptable fuel o e.order_books) (is_fok : o.type ≡ fok) where
  -- Nothing is traded and the offers stay, or all that the order wants is traded.
  abbrev pub AllOrNothing : List Trade → MatchingEngine → Type 0
  AllOrNothing trades e' =
      ((trades ≡ []) × (depth_at o.symbol e' ≡ depth_at o.symbol e)) ⊎ (volume trades ≡ o.quantity)

  -- The check of an order that is let in has said yes.
  checked :
      (t : OrderPtr) (rest : List ℕ)
      → turned_away o e (t ∷ rest) ≡ false
      → can_fill_completely
          (store t o e.order_pool).slot
          (book_for o.symbol (lookup o.symbol e.order_books))
          o
        ≡ true
  checked t rest let_in =
      let kind : is_type o.type fok ≡ true = rw is_fok refl in ground (arith, kind, let_in)

  -- An order that is let in takes as much as it wants.
  takes_all :
      (free : List ℕ)
      → e.order_pool.free_indices ≡ free
      → turned_away o e free ≡ false
      → taken (submit false o (depth_at o.symbol e)).0 ≡ o.quantity
  unfolding submit trade_on
  takes_all [] is let_in = cc
  takes_all (t ∷ rest) is let_in = elim (Option-cases (lookup o.symbol e.order_books)) [
    | inl missing ↦
        let fits : can_fill_completely s (new_book o.symbol) o ≡ true =
          ap (λ (x : Option OrderBook). can_fill_completely s (book_for o.symbol x) o) (sym missing)
          ∙ checked t rest let_in in
        absurd (false≢true (sym (can_fill_completely-new_book s o.symbol o) ∙ fits))
    | inr (b, found) ↦
        let fits : can_fill_completely s b o ≡ true =
          ap (λ (x : Option OrderBook). can_fill_completely s (book_for o.symbol x) o) (sym found)
          ∙ checked t rest let_in in
        let old = (stored-IsInFlight e o t rest v is).engine.books o.symbol b found in
        let filled =
          can_fill_completely-Fills e.order_pool.size s (t ∷ rest) b (unfold store in old.book) o
            w.no_nan w.bounded fits in
        let here : depth_at o.symbol e ≡ depth_of s b =
          sym (stored_same clock fuel o e v t rest is o.symbol) ∙ ap (depth_in s) found in
        ap (λ (d : Depth). taken (submit false o d).0) here ∙ in_book b filled
  ]
    where
      s : Slots
      s = (store t o e.order_pool).slot

      in_book :
          (b : OrderBook)
          → taken (take_offers o.side o.type o.price o.quantity (offers_for o.side s b)).0
            ≡ o.quantity
          → taken (submit false o (depth_of s b)).0 ≡ o.quantity
      in_book b filled =
          let wants : o.quantity - o.quantity_filled ≡ o.quantity = omega (arith, w.fresh) in
          ap (λ (n : ℕ). taken (take_offers o.side o.type o.price n (met o.side (depth_of s b))).0)
            wants
          ∙ ap (λ (xs : List Offer). taken (take_offers o.side o.type o.price o.quantity xs).0)
              (met_lem o.side s b)
          ∙ filled

  -- On a well-formed engine, `process_new_order` of a fill-or-kill order that it can accept
  -- returns, and either it gives no trades and leaves the offers of the order's symbol as they
  -- were, or the volume of its trades is the whole quantity of the order.
  pub process_new_order-AllOrNothing :
      (trades : List Trade) × (e' : MatchingEngine) × (process_new_order clock fuel o e
        ≡ some (trades, e'))
      × AllOrNothing trades e'
  unfolding submit
  process_new_order-AllOrNothing =
      let (trades, e', is, done) = process_new_order-Submits clock fuel o e v w in
      let amount : volume trades
          ≡ taken (submit (turned_away o e e.order_pool.free_indices) o (depth_at o.symbol e)).0 =
        sym (taken-fills_of o.side trades) ∙ ap taken done.fills in
      let offers = depth_at o.symbol e in
      (
        trades,
        e',
        is,
        elim (Bool-cases (turned_away o e e.order_pool.free_indices)) [
          | inl gone ↦ inl (
            fills_of-nil o.side trades (done.fills ∙ ap (λ (b : Bool). (submit b o offers).0) gone),
            done.offers ∙ ap (λ (b : Bool). (submit b o offers).1) gone,
          )
          | inr let_in ↦ inr (
              amount
              ∙ ap (λ (b : Bool). taken (submit b o offers).0) let_in
              ∙ takes_all e.order_pool.free_indices refl let_in)
        ],
      )
