-- ===== src/Engine/Accounts.antt =====
-- The slots of the pool of a MatchingEngine (src/matching_engine.cpp): each is free, or holds an order
-- that is in a book, or is lost.
pub mod Placing
pub mod Cancelling
pub mod Total
use order_matching_engine.Prelude.{
  ℕ, ◌+◌, ◌≡◌, refl, Bool, Bool-cases, inl, inr, true, false, not, Option, none, some, List, [],
  ◌∷◌, length, arith, if◌then◌else◌,
}
use order_matching_engine.Prelude.Bytes.{lookup, insert, bytes_eq}
use order_matching_engine.Types.{Symbol, Order, Trade}
use order_matching_engine.Pool.{store}
use order_matching_engine.Book.{OrderBook, Slots, new_book, get_total_orders}
use order_matching_engine.Book.Frame.{refilled}
use order_matching_engine.Validation.{validate_order}
use order_matching_engine.Engine.{MatchingEngine}
use order_matching_engine.Engine.Matched.{volume}
use order_matching_engine.Engine.Settle.{leaked}
use order_matching_engine.Engine.Exchange.Routing.{kills, book_for}

-- How many orders are in the books.
unfoldable pub resting : List (Symbol × OrderBook) → ℕ
resting [] = 0
resting ((symbol, b) ∷ books) = get_total_orders b + resting books

-- The slots that are free or that a book uses.
abbrev pub held : MatchingEngine → ℕ
held e = length e.order_pool.free_indices + resting e.order_books

-- An order that is stored and valid keeps a slot that nobody can give back when it is killed, or when it
-- is a market order of which something is left.
abbrev pub kept_by : Slots → MatchingEngine → Order → List Trade → ℕ
kept_by s e o trades =
    if kills s (book_for o.symbol (lookup o.symbol e.order_books)) o
    then 1
    else leaked (refilled o (o.quantity_filled + volume trades))

-- The slots that placing an order loses, with these free slots before it.
abbrev pub lost : Order → MatchingEngine → List ℕ → List Trade → ℕ
lost o e [] trades = 0
lost o e (t ∷ rest) trades =
    if validate_order o then kept_by (store t o e.order_pool).slot e o trades else 0

abbrev pub total_in : Option OrderBook → ℕ
total_in none = 0
total_in (some b) = get_total_orders b

-- With another book for one symbol.
pub resting-insert :
    (symbol : Symbol) (b : OrderBook) (books : List (Symbol × OrderBook))
    → resting (insert symbol b books) + total_in (lookup symbol books)
      ≡ resting books + get_total_orders b
unfolding resting insert lookup
resting-insert symbol b [] = omega arith
resting-insert symbol b ((s, c) ∷ books) = elim (Bool-cases (bytes_eq symbol s)) [
  | inl same ↦ rw same (omega arith)
  | inr other ↦ rw other (omega (arith, resting-insert symbol b books))
]

pub new_book-IsEmpty : (symbol : Symbol) → get_total_orders (new_book symbol) ≡ 0
unfolding new_book get_total_orders
new_book-IsEmpty symbol = refl
