-- ===== src/Lib.antt =====
-- A model of the match engine: orders come in as JSON texts over a message queue, are matched by price
-- and time, and the results go over a second queue to a program that writes them to MySQL; a third
-- queue carries the printed order book to the web servers. main.cpp starts one component each.
-- How the parts interact: the generator (src/OrderGenerator.cpp) inserts an order in the database
-- and sends it to the engine (src/MatchingEngine.cpp); the engine sends a message for each trade
-- and for each order that finds nothing; the persistence program (src/PersistenceProgram.cpp) turns
-- each message into SQL statements on a connection (src/DbConnection.cpp).
--
-- Which file models which part, where paths are those of the repository:
-- - Order.antt: include/Order.h and include/TradeRecord.h. An order is a record with the fields of the
--   struct.
-- - Double.antt: `double`, as a parameter with its operations; `IsRanked` and `IsExact` say what a
--   theorem uses of them (prices are ordered as their ranks; quantities on a grid add and subtract
--   exactly up to a limit). Double/Whole.antt gives whole numbers up to 2^53 as an instance.
-- - Json.antt: jsoncpp, as a parameter with laws; Json/Coded.antt is an instance.
-- - Serialization: src/Serialization.cpp. Enums for the names of enumerators, Times for time points
--   (the C library's calendar is a parameter), Orders for orders, trade records and messages,
--   RoundTrip, Members and Typed for theorems.
-- - OrderedMap.antt: std::map as a list of entries in the order of their keys.
-- - Engine: src/MatchingEngine.cpp. Trade (processTrade, createTradeRecord, roundToPrecision), Match
--   (matchBuyOrders, matchSellOrders), Book (addOrderToBook, formatOrderBook), Process (processOrder,
--   matchOrders, publishOrderBook), Run (run and one round of it). The state is the record `Engine`: the two
--   books, when the book was published last, and the lists of what was sent and published so far. The
--   random number and the clock of a trade are read from `Env` by the number of trades made before. A
--   level of a book is a list of orders by their ids, as std::map keeps it. The other files of Engine
--   hold proofs: Exact and Levels on quantities, Sweep on a side of the book, Invariant and
--   Validity on the well-formed book, Messages, Trading and Reports on trades and messages,
--   Priority on price and time, Throttle on publication, Words on the machine words of ids,
--   Entries, Units and Totals on whole runs, Booked and Resent on orders that come again, Arrivals
--   on the messages that `run` gets. Failing has the same loops with sends that throw, as inputs
--   that say which, and FailingRun the loop of run around it; Faultless, Losses, Unsent, Emptied,
--   Live, Lossy and LossyRun have proofs.
-- - Database: src/DbConnection.cpp. Connection has the class, with the MySQL client as the parameter
--   `Mysql`; Pool has src/DbConnectionPool.cpp, where a pointer to a connection is its number in the
--   pool; Config has src/DbConfig.cpp; Waiting has the threads that wait for a connection; Reconnect and
--   Exclusive have theorems; Handles has the destructors, and theorems on what stays open.
-- - Persistence: src/PersistenceProgram.cpp. Statements has the SQL texts, Program a message's way
--   through run and processMessage, Lifetime the constructor, the destructor, start and
--   reconnectResultClient; stop, which waits for the thread, is in Threads. Delivery and Status have theorems on messages, Pipeline on the way from an
--   order's text to the SQL statements, Constructed on constructors that throw.
-- - Generator: src/OrderGenerator.cpp. Orders has the class, Feed, Ids, Columns, Rows and Resend
--   theorems. Random draws
--   are a parameter.
-- - Market: the generator, the engine and the persistence program one behind the other. Orders has the
--   orders of the generator as the engine reads them, Clearing a theorem on all three.
-- - Servers: Socket has src/WebSocketServer.cpp, as events that happen to the server, Health has
--   src/HealthCheckServer.cpp, Broadcast, Table and Timeliness theorems.
-- - Threads: the thread of src/PersistenceProgram.cpp and the calls of start and stop, as a list of
--   actions of the two threads. A test of `running`, which is a std::atomic there, reads what was
--   written last. The servers and the engine have the same code on a plain bool; of them the theorems
--   say something as far as their tests do the same. Stop has theorems on a call of stop,
--   Serving on the time before it, Handled on the messages in between.
-- - Startup: main.cpp. Dispatch has the choice of the component and the exit code, Parts the sockets of
--   the components and the functions that start the programs on the database, Serve those that start
--   the servers, with the destructors, Matching the one that starts the engine; Names, Starts and Ends
--   have theorems.
-- - Logger: include/Logger.h. Lines has the class, Files and Entries theorems.
--
-- The matching loops are recursion on the levels and on the orders of a level, so there is no fuel there.
-- The digits of a number take one step each, with the number plus one as the bound on the steps: a
-- number has no more digits. The loop of reconnectResultClient has fuel, one unit for each round; it has
-- as many rounds as the socket fails to connect with an error of ZeroMQ.
--
-- Not modelled: how threads interleave where no lock or message orders them, the texts of the log's
-- messages, and sockets: what `recv` gives and which sends of the engine throw are inputs, and the sends
-- of the generator are taken to succeed. The libraries under third_party are not modelled either.
pub mod Prelude
pub mod Double
pub mod Order
pub mod Json
pub mod Serialization
pub mod OrderedMap
pub mod Engine
pub mod Database
pub mod Persistence
pub mod Generator
pub mod Servers
pub mod Startup
pub mod Logger
pub mod Threads
pub mod Market
