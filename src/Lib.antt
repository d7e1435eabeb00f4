-- ===== src/Lib.antt =====
-- Models and proofs for a collection of trading programs in C++. The parts that are modelled:
--
-- * Exchange (Phase_4/include, Phase_4/src): a simulated exchange. Order (Order.hpp) is an order
--   with its status; Pool (MemoryPool.h) the slots that orders live in; Levels one side of the book,
--   a std::multimap; Book (OrderBook.hpp, OrderBook.cpp) the limit order book on a pool, with the
--   two sides and id_lookup; Matching (MatchingEngine.hpp, MatchingEngine.cpp) the loop of
--   match_orders on a book; Logger (TradeLogger.hpp, TradeLogger.cpp) the log of trades; Manager
--   (OrderManager.hpp, OrderManager.cpp) the shared orders of the order manager; Simulation
--   (main.cpp) the ticks that are fed to the book; Feed (MarketDataFeedSimulator.cpp) a drawn tick;
--   Latency (test/test_latency.cpp) the ticks that go through manager, book, engine and logger. A
--   pointer is a slot of the pool or an index into the manager's heap.
-- * LevelBook and RecentOrders (Phase_5/src/OrderBook.cpp): the classes OrderBook and
--   OptimizedOrderBook; LevelBook/Stress the stress tests of both.
-- * TradeQueue (Session7/ConcurrentQueue.hpp): the ring buffer between threads, as one thread sees
--   it and with the atomic steps of several threads in any order.
-- * Matrix (Phase 1/MatrixOps.h, Phase 1/MatrixOps.cpp): the matrix-vector products, and in Products
--   those of two matrices. The arrays do not overlap: `result` is apart from the inputs, which the
--   functions do not test.
-- * Experimental (Session7/ExperimentalQueue.hpp): the ring of TradeQueue in three versions.
-- * BenchmarkResults (Session7/Benchmarks.hpp): durations by name, and the statistics of them.
-- * FeedTrader (Phase_3): a trading strategy. Feed (feed_parser.h) reads the lines of a feed, with
--   the stream of a line as a parameter; Snapshot (market_snapshot.h, market_snapshot.cpp) keeps the
--   price levels, Orders (order_manager.h, order_manager.cpp) the strategy's own orders; Strategy
--   (main.cpp) is the loop over the events, which updates the two and sells.
-- * Challenge (final_project/main_server.cpp): a challenge, how it is made (Generate), its message
--   (Broadcast) and packets, the line of a client (Session), and the handler of a response.
-- * ChallengeClient (final_project/client.cpp; in Earlier, Client.cpp): what the client reads in a
--   packet of Challenge, the fields of its response, and the line for it (Reply). Round runs both
--   sides: packets of the server, lines of the client, and the server's handler.
-- * TradeEngine (final_project/TradeEngine.cpp, TradeInterface.cpp): the parsing of a security and the
--   line that is sent; in Sections, Buffer.cpp.
-- * TradeProcessing (Session7/OrderTypes.hpp, Session7/OrderProcessing.cpp): the orders of a
--   producer, and what a consumer does with an order; Threads (with Session7/main.cpp) runs both on
--   TradeQueue, a call of the queue being one step, so its runs are those in which no two calls of
--   the queue overlap; Analytics (Session7/Analytics.cpp) is the report on the orders that consumers
--   completed.
-- * PriceHits (Phase_2/hft_server.cpp): the prices that the server sends, and who hits them first;
--   Clients the connections, with the turns of each thread as steps. Followed has a client of
--   PriceClient at one of them.
-- * PriceClient (Phase_2/hft_client.cpp): the orders that a client sends on the prices it receives.
--
-- Operations keep the names of the source in snake case (getters are the fields). Base holds what
-- all share; Price is what the code needs of prices, a strict weak order, in place of double. A
-- value of type Option stands for a null pointer, or, where a function returns a state, for
-- undefined behaviour. Quantities are integers in place of int, ids unsigned numbers. A fill in the
-- matching loop is undefined where its sum overflows an int (fill_fits); the theorems about the loop
-- are about orders of at most 2^30, which never do. The sums of fills in Manager and of volumes in
-- TradeProcessing are the mathematical ones.
--
-- match_orders runs on fuel, one unit a turn. A book of n resting orders needs n + 1 turns, as every
-- trade of open orders takes at least one order out of the book. The client's parse_packet runs on
-- fuel too: a turn passes at least one byte, so a packet of n bytes needs at most n + 1 turns, and
-- has as many. No other definition needs fuel.
--
-- Not modelled: printing (but for messages), sockets, clocks and random numbers, whose draws are an
-- input; the matrix tests; the timed runs of Session7/MemoryOrderingBenchmark.cpp, whose threads race
-- inside the queues; of final_project/TradeInterface.cpp and Buffer.cpp what goes on with pointers to
-- arrays that are gone, and the threads that fill the map, which are not written to compile.
-- Weak memory is not modelled either: threads act on one memory, one step after the other.
pub mod Base
pub mod Price
pub mod Exchange
pub mod LevelBook
pub mod RecentOrders
pub mod Round
pub mod TradeEngine
pub mod TradeQueue
pub mod Matrix
pub mod Challenge
pub mod FeedTrader
pub mod TradeProcessing
pub mod PriceHits
pub mod PriceClient
pub mod ChallengeClient
pub mod Experimental
pub mod BenchmarkResults
