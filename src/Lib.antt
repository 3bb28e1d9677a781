-- ===== src/Lib.antt =====
-- The order matching engine: a TCP server hands bytes to a gateway, which cuts them into packets and
-- calls the matching engine; the engine keeps a book for each symbol and takes the orders in them from
-- a pool of fixed size.
--
-- Which file models which part (paths from the repository's root):
--   Types          include/types.h: Order, Trade, the quotes, the enums.
--   Price          the doubles that prices are: a price is its bit pattern, compared as IEEE 754 does.
--   Pool           include/object_pool.h: allocate, deallocate. A pointer to an order is the index of
--                  its slot.
--   PriceMap       std::map<Price, std::list<Order *>>: the levels of one side, in ascending order.
--   Book           include/order_book.h, src/order_book.cpp: add_order, cancel_order, the best orders
--                  and the quotes. A book reads orders through `Slots`, the contents of the pool.
--   Validation     MatchingEngine::validate_order and can_fill_completely.
--   Engine         include/matching_engine.h, src/matching_engine.cpp: process_new_order, the matching
--                  loops (one function with the side as a parameter), settling, cancel_order.
--   Gateway        include/client_gateway.h, src/client_gateway.cpp: sessions, market data,
--                  subscriptions and broadcasts;
--   Gateway/Orders    the same files: the handlers of orders and cancels, replay, processPacket, with
--                  their reports in Gateway/Replies;
--   Gateway/Misread   the cancel requests in the event log, as replayEvents reads them;
--   Gateway/Protocol  include/protocol.h: the packed messages, as bytes;
--   Gateway/Framing   ClientGateway::onMessage, with what is done to a packet as a parameter.
--   TcpServer      src/tcp_server.cpp: the loop of TcpServer::start over what the system calls answer;
--                  TcpServer/Calls has the callbacks of the gateway.
--   Engine/Priority  what the matching loops promise: offers are taken by price, then by age.
--   Engine/Exchange  what the engine promises of each symbol, without pools, maps and fuel: the offers
--                  that wait, an order that is submitted and one that is withdrawn;
--                  Engine/Exchange/AllOrNothing and Engine/Exchange/LowBid have the fill-or-kill
--                  orders, Engine/Calls sequences of calls.
--   Engine/Priority/Levels  the offers summed up by price, against OrderBook::getL2Quote.
--   Engine/Accounts  the slots of the pool: free, used by a book, or lost.
--   Logger         logging/logger.hpp, logging/logger.cpp: the queue of lines and its worker, as steps;
--                  Logger/Flush has what `flush` waits for, Logger/Streams the
--                  macros.
--   Config         include/config.h: parseArgs.
--   Printing       include/order.h: the texts of orders and enumerations.
--   Main           src/main.cpp: the parts put together, up to the loop of the server; Main/Running
--                  has what the program does to its engine.
--   Prelude        shared names, Boolean tests, unsigned 64-bit arithmetic, lists and dictionaries.
--   Tests          a small engine, and the theorems applied to it.
--
-- State is passed explicitly. `MatchingEngine` has the members of the class that its operations
-- change; `Matching` is what a matching loop sees: the members and the book that it got by reference.
-- The book of a symbol is written back when the loop has ended. The clock is a parameter `clock`,
-- which gives the reading of each call. Engine/Times has runs with different clocks: they differ in
-- the timestamps of the trades.
--
-- A well-formed book (Book/Invariant.IsBook) has strictly ascending levels, none of them empty; every
-- order in it is open, stands in a slot that is not free, at the level of its price, on its side, and
-- is listed under its id. A well-formed engine (Engine/Books.IsEngine) has a valid pool and
-- well-formed books with no crossed prices.
--
-- Fuel: the matching loop takes fuel for one round per order in the book and one more, since a round
-- that does not end the loop removes the best order of the other side. The loop of onMessage takes
-- fuel for one packet per byte, since a packet has at least the five bytes of its header.
--
-- The server gives the loop of onMessage one round per byte and one more.
--
-- Where the C++ is undefined (a packet that is read past its end, a text without its final null, a null
-- book), and where the fuel ran out, the handlers of Gateway/Orders give a fault.
--
-- Not modelled: latencies, the sockets' set-up and what `send` does with the bytes, the text of a log
-- line.
pub mod Prelude
pub mod Price
pub mod Types
pub mod Pool
pub mod Printing
pub mod PriceMap
pub mod Book
pub mod Validation
pub mod Engine
pub mod Gateway
pub mod TcpServer
pub mod Logger
pub mod Config
pub mod Main
pub mod Tests
