-- ===== src/Engine/Exchange/Unchanged.antt =====
-- The offers of a book, and of the books of an engine, when orders that are not in it change.
use order_matching_engine.Prelude.{
  ℕ, ◌≡◌, ◌≢◌, refl, ap, ◌∙◌, false, Option, none, some, List, [], ◌∷◌, contains, All,
}
use order_matching_engine.Prelude.Bytes.{lookup, insert, lookup-insert_self, lookup-insert_ne}
use order_matching_engine.Types.{buy, sell, Symbol, OrderPtr}
use order_matching_engine.PriceMap.Queue.{All-from_front, All-from_back}
use order_matching_engine.Book.{OrderBook, Slots, new_book}
use order_matching_engine.Book.Invariant.{Resting, IsBook}
use order_matching_engine.Engine.{MatchingEngine}
use order_matching_engine.Engine.Books.{IsEngineBut}
use order_matching_engine.Engine.Priority.{offers_of, queue_for}
use order_matching_engine.Engine.Exchange.{Depth, no_offers, depth_of}

offers_of-same :
    (s s' : Slots) (qs : List OrderPtr)
    → All (λ q. s' q ≡ s q) qs
    → offers_of s' qs ≡ offers_of s qs
offers_of-same s s' [] h = refl
offers_of-same s s' (q ∷ qs) h = rw (h.0, offers_of-same s s' qs h.1) refl

pub depth_of-same :
    (size : ℕ) (s s' : Slots) (out : List ℕ) (b : OrderBook)
    → IsBook size s out b
    → ((q : OrderPtr) → contains q out ≡ false → (s q).symbol ≡ b.symbol → s' q ≡ s q)
    → depth_of s' b ≡ depth_of s b
depth_of-same size s s' out b v same =
    let bids = offers_of-same s s' (queue_for sell b) (
      All-from_back (Resting size s out b.symbol b.order_lookup buy) (λ q. s' q ≡ s q)
        (λ k q r. same q r.in_use r.has_symbol) 0 b.buy_orders v.buys) in
    let asks = offers_of-same s s' (queue_for buy b) (
      All-from_front (Resting size s out b.symbol b.order_lookup sell) (λ q. s' q ≡ s q)
        (λ k q r. same q r.in_use r.has_symbol) 0 b.sell_orders v.sells) in
    rw (bids, asks) refl

abbrev pub depth_in : Slots → Option OrderBook → Depth
depth_in s none = no_offers
depth_in s (some b) = depth_of s b

-- The offers for a symbol.
abbrev pub depth_at : Symbol → MatchingEngine → Depth
depth_at symbol e = depth_in e.order_pool.slot (lookup symbol e.order_books)

-- Orders changed, but none of this symbol's book.
pub depth_in-same :
    (out : List ℕ) (e : MatchingEngine) (s' : Slots) (symbol : Symbol)
    → IsEngineBut out e
    → ((q : OrderPtr)
        → contains q out ≡ false
        → (e.order_pool.slot q).symbol ≡ symbol
        → s' q ≡ e.order_pool.slot q)
    → depth_in s' (lookup symbol e.order_books) ≡ depth_at symbol e
depth_in-same out e s' symbol v same = go (lookup symbol e.order_books) refl
  where
    go :
        (found : Option OrderBook)
        → lookup symbol e.order_books ≡ found
        → depth_in s' found ≡ depth_in e.order_pool.slot found
    go none h = refl
    go (some b) h =
        let is = v.books symbol b h in
        depth_of-same e.order_pool.size e.order_pool.slot s' out b is.book
          (λ q in_use of_b. same q in_use (of_b ∙ is.of_symbol))

-- The books when the one of a symbol was written.
pub depth_in-insert_self :
    (s : Slots) (symbol : Symbol) (b : OrderBook) (books : List (Symbol × OrderBook))
    → depth_in s (lookup symbol (insert symbol b books)) ≡ depth_of s b
depth_in-insert_self s symbol b books = ap (depth_in s) (lookup-insert_self symbol b books)

pub depth_in-insert_ne :
    (s : Slots) (other symbol : Symbol) (b : OrderBook) (books : List (Symbol × OrderBook))
    → other ≢ symbol
    → depth_in s (lookup other (insert symbol b books)) ≡ depth_in s (lookup other books)
depth_in-insert_ne s other symbol b books ne =
    ap (depth_in s) (lookup-insert_ne other symbol b books ne)

pub depth_of-new_book : (s : Slots) (symbol : Symbol) → depth_of s (new_book symbol) ≡ no_offers
unfolding new_book
depth_of-new_book s symbol = refl
