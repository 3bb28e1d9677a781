-- ===== src/Tests/EngineTests.antt =====
-- The engine of Tests: a buy order for 8 meets the sell order for 5.
use order_matching_engine.Prelude.{
  ◌+◌, none-ne-some, ◌≡◌, refl, Option, none, some, List, [], ◌∷◌, inr, arith,
}
use order_matching_engine.Prelude.Bytes.{lookup, insert, bytes_eq}
use order_matching_engine.Price.{is_nan, lt, le, rank}
use order_matching_engine.Types.{buy, sell, Trade, remaining_qty, reduce_quantity, is_filled}
use order_matching_engine.Pool.{deallocate, store, allocate}
use order_matching_engine.PriceMap.{first_order, push_back, find, erase_at}
use order_matching_engine.Book.{new_book, add_order, cancel_order, cancel_listed, get_best_ask}
use order_matching_engine.Book.Best.{best_of-Finds, IsBest}
use order_matching_engine.Validation.{validate_order, can_fill_completely, is_empty}
use order_matching_engine.Engine.{
  MatchingEngine, Matching, process_new_order, execute, match_against, match_round, settle,
  cancel_engine_order, get_or_create_order_book, admit, route, create_trade, remove_filled,
}
use order_matching_engine.Engine.Execute.{Executed, execute-Executed}
use order_matching_engine.Engine.Route.{Processed}
use order_matching_engine.Engine.Process.{process_new_order-Processed}
use order_matching_engine.Engine.Cancel.{EngineCancels, cancel_engine_order-EngineCancels}
use order_matching_engine.Engine.Ledger.{Records, execute-Records}
use order_matching_engine.Engine.Priority.{offer_of, offers_for, place}
use order_matching_engine.Engine.Priority.Place.{add_order-place}
use order_matching_engine.Engine.Offers.{Refines}
use order_matching_engine.Engine.Refinement.{match_against-Refines}
use order_matching_engine.Engine.{new_engine}
use order_matching_engine.Engine.Books.{new_engine-IsEngine}
use order_matching_engine.Engine.Route.{IsAcceptable}
use order_matching_engine.Engine.Exchange.{no_offers, submit, withdraw_from}
use order_matching_engine.Engine.Exchange.Routing.{Submits, turned_away}
use order_matching_engine.Engine.Exchange.Submitting.{process_new_order-Submits}
use order_matching_engine.Engine.Exchange.Withdrawing.{Withdraws, cancel_engine_order-Withdraws}
use order_matching_engine.Engine.Exchange.History.{
  Market, History, opened, placed, cancelled, change, Shows,
}
use order_matching_engine.Engine.Calls.{
  Calls, no_calls, placing, cancelling, market_after, Calls-Shows,
}
use order_matching_engine.Types.{Order, fok}
use order_matching_engine.Engine.Exchange.AllOrNothing.{
  AllOrNothing, process_new_order-AllOrNothing,
}
use order_matching_engine.Engine.Accounts.{held}
use order_matching_engine.Engine.Accounts.Total.{lost_in, held-lost_in}
use order_matching_engine.Tests.{
  acme, one_dollar, one_dollar-is_nan, bid, slots, book, book-IsBook, book-total, meeting,
  meeting-IsMatching, meeting-IsQueueable, engine, engine-IsEngine, bid-IsAcceptable,
}

process_new_order-Processed_example :
    (trades : List Trade) × (e' : MatchingEngine) × (process_new_order (λ n. n) 3 bid engine
      ≡ some (trades, e'))
    × Processed bid trades e'
process_new_order-Processed_example =
    process_new_order-Processed (λ n. n) 3 bid engine engine-IsEngine bid-IsAcceptable

execute-Executed_example :
    (trades : List Trade) × (m' : Matching) × (execute (λ n. n) 3 1 meeting ≡ some (trades, m'))
    × Executed buy 1 meeting.order_pool meeting.book trades m'.order_pool m'.book
execute-Executed_example =
    execute-Executed (λ n. n) buy 1 meeting 3 meeting-IsMatching meeting-IsQueueable
      (inr (omega (arith, book-total)))

cancel_engine_order-EngineCancels_example :
    EngineCancels 1 acme engine (cancel_engine_order 1 acme engine)
cancel_engine_order-EngineCancels_example =
    cancel_engine_order-EngineCancels 1 acme engine engine-IsEngine

book-best_ask : get_best_ask book ≡ some 0
unfolding get_best_ask add_order new_book first_order push_back
book-best_ask = refl

ask-IsBest : IsBest 4 slots (1 ∷ 3 ∷ 2 ∷ []) book sell 0
unfolding get_best_ask add_order new_book first_order push_back
ask-IsBest = best_of-Finds 4 slots (1 ∷ 3 ∷ 2 ∷ []) book sell book-IsBook

execute-Records_example : Records meeting execute-Executed_example.0 execute-Executed_example.1
execute-Records_example =
    execute-Records (λ n. n) 3 1 meeting execute-Executed_example.1 execute-Executed_example.0
      execute-Executed_example.2

-- The trade of the two orders, and what is left in the slots.
abbrev trades_of : Option (List Trade × MatchingEngine) → List Trade
trades_of none = []
trades_of (some (trades, e)) = trades

the_trade :
    trades_of (process_new_order (λ n. n) 3 bid engine)
    ≡ record {
      buy_order_id = 2;
      buy_user_id = 7;
      sell_order_id = 1;
      sell_user_id = 7;
      symbol = acme;
      price = one_dollar;
      quantity = 5;
      timestamp = 0;
    }
      ∷ []
unfolding process_new_order admit route execute match_against match_round create_trade remove_filled
    get_best_ask first_order add_order new_book push_back cancel_order allocate validate_order
    is_empty le lt is_nan rank store remaining_qty get_or_create_order_book lookup insert bytes_eq
    reduce_quantity is_filled deallocate settle can_fill_completely find erase_at cancel_listed
the_trade = refl

match_against-Refines_example :
    (trades : List Trade) × (m' : Matching) × (match_against (λ n. n) buy 3 1 meeting
      ≡ some (trades, m'))
    × Refines (λ n. n) buy 1 meeting trades m'
match_against-Refines_example =
    match_against-Refines (λ n. n) buy 1 3 meeting meeting-IsMatching
      (inr (omega (arith, book-total)))

add_order-place_example :
    (offers_for sell slots (add_order slots 1 book)
      ≡ place buy (offer_of bid) (offers_for sell slots book))
    × (offers_for buy slots (add_order slots 1 book) ≡ offers_for buy slots book)
add_order-place_example =
    add_order-place slots 1 4 (3 ∷ 2 ∷ []) book buy refl one_dollar-is_nan book-IsBook

process_new_order-Submits_example :
    Submits
      (turned_away bid engine (1 ∷ 3 ∷ 2 ∷ []))
      bid
      engine
      (process_new_order (λ n. n) 3 bid engine)
process_new_order-Submits_example =
    process_new_order-Submits (λ n. n) 3 bid engine engine-IsEngine bid-IsAcceptable

cancel_engine_order-Withdraws_example :
    Withdraws 1 acme engine (cancel_engine_order 1 acme engine).1
cancel_engine_order-Withdraws_example = cancel_engine_order-Withdraws 1 acme engine engine-IsEngine

-- A new engine gets the buy order, which is cancelled then.
abbrev at_first : MatchingEngine
at_first = new_engine bid 4

at_first-IsAcceptable : IsAcceptable 3 bid at_first.order_books
unfolding new_engine lookup
at_first-IsAcceptable = record {
  no_nan = one_dollar-is_nan;
  bounded = omega arith;
  fresh = refl;
  enough = omega arith;
  of_book = λ b found. absurd (none-ne-some found);
}

bid_placed :
    (trades : List Trade) × (e' : MatchingEngine) × (process_new_order (λ n. n) 3 bid at_first
      ≡ some (trades, e'))
    × Processed bid trades e'
bid_placed =
    process_new_order-Processed (λ n. n) 3 bid at_first (new_engine-IsEngine bid 4)
      at_first-IsAcceptable

abbrev with_bid : Market
with_bid =
    change acme (submit (turned_away bid at_first at_first.order_pool.free_indices) bid no_offers).1
      (λ symbol. no_offers)

abbrev two_calls :
    History
      (λ n. n)
      bid
      4
      (cancel_engine_order 2 acme bid_placed.1).1
      (change acme (withdraw_from 2 (with_bid acme)) with_bid)
two_calls = cancelled 2 acme (placed 3 bid bid_placed.0 opened at_first-IsAcceptable bid_placed.2)

abbrev same_calls : Calls (λ n. n) 3 at_first (cancel_engine_order 2 acme bid_placed.1).1
same_calls = cancelling 2 acme (placing bid bid_placed.0 no_calls bid_placed.2)

Calls-Shows_example :
    Shows (cancel_engine_order 2 acme bid_placed.1).1 (market_after (λ n. n) 3 _ same_calls)
Calls-Shows_example = Calls-Shows (λ n. n) 3 bid 4 _ same_calls (at_first-IsAcceptable, tt)

held-lost_in_example :
    held (cancel_engine_order 2 acme bid_placed.1).1 + lost_in (λ n. n) bid 4 _ _ two_calls ≡ 4
held-lost_in_example = held-lost_in (λ n. n) bid 4 _ _ two_calls

-- A fill-or-kill order for what the sell order has.
abbrev fill_or_kill : Order
fill_or_kill = record bid { type = fok; quantity = 5 }

fill_or_kill-IsAcceptable : IsAcceptable 3 fill_or_kill engine.order_books
fill_or_kill-IsAcceptable = record {
  no_nan = one_dollar-is_nan;
  bounded = omega arith;
  fresh = refl;
  enough = omega arith;
  of_book = bid-IsAcceptable.of_book;
}

process_new_order-AllOrNothing_example :
    (trades : List Trade) × (e' : MatchingEngine) × (process_new_order
        (λ n. n)
        3
        fill_or_kill
        engine
      ≡ some (trades, e'))
    × AllOrNothing
        (λ n. n)
        3
        fill_or_kill
        engine
        engine-IsEngine
        fill_or_kill-IsAcceptable
        refl
        trades
        e'
process_new_order-AllOrNothing_example =
    process_new_order-AllOrNothing (λ n. n) 3 fill_or_kill engine engine-IsEngine
      fill_or_kill-IsAcceptable refl
