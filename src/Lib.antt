-- ===== src/Lib.antt =====
-- Models and proofs for the arbitrage trading system of this repository.
--
-- The order server (OrderServer-20151216-AtHome) runs strategies for clients. A strategy trades a
-- spread of two or three contracts: it quotes leg 1 at a price that leaves the difference that the
-- client asked for, and when leg 1 trades it orders legs 2 and 3 at the market. The exchange's
-- answers, the prices and the client's requests reach a strategy as events; its orders go into two
-- queues, which one thread empties towards the exchange. The market data server (Depth Data
-- 20151224) follows the exchange's stream, keeps a book of orders for each subscribed contract and
-- publishes the best prices to the strategies.
--
--   Common      numbers, tests and lists that the parts share: signed integers, and the machine's
--               `int`, `short` and byte orders with their wrap-around (Common/Words)
--   Messages    the structures of include/Enums.h
--   Queue       concurrent_queue and FillData of include/StaticClass.h; a run of threads is the
--               sequence of their calls, since each call holds the mutex
--   Tag         StrategyClass::concat, and the tag under which a strategy subscribes
--   Strategy    class StrategyClass (src/StrategyClass.cpp): Orders (BOARD_LOT_IN_TRBuy to
--               ORDER_CANCEL_IN_TR), Subscribe (the client's requests), Prices and Quote
--               (OnDataEventHandler), Confirm (the exchange's answers), Trade
--               (TRADE_CONFIRMATION_TR), Events (any sequence of these)
--   Contracts   the hash table of ContractStore.h
--   Session     TapSignOn::SendToExchange and TapSignOn::GetPF (src/TapSignOn.cpp); Answers (the
--               answers of the exchange in TapSignOn::BindConnection, with the orders by number
--               of PFMap.h), LogOn (the log-on, with Packets.cpp)
--   Client      class AutoClient (src/AutoClient.cpp): Tags (which answers a client hears, and how it
--               reads their tags), Packs (the orders that it prepares), Pairs (its user's requests),
--               Prices (Datasubscriber), Reports (Eventsubscriber), Manual (orders placed by hand),
--               Stop (StopAllOrder and Dispose), Orphan (an unsubscription while an
--               order waits), Life (any sequence of these)
--   Handler     class ClientHandler (src/ClientHandler.cpp): Login; Receive (RecieveDataAsServer, the
--               packets of the front ends), History (packets, prices and answers in any order)
--   Depth       the market data server: Bimap (an interface for boost::bimap), Book and Token
--               (TokenWiseClass.h), Stream (main.cpp)
--
-- A function of the source has its name here in snake_case, a handler is one function from the state
-- before it to the state after it, and `none` is a division by zero or an access that C++ leaves
-- undefined. Loops are recursion on their list or, for `concat`, on well-founded descent; no
-- definition runs on fuel. Threads are interleaved between the calls that hold a mutex, and for the
-- send loop between its rounds.
--
-- Parameters, for code that is not in the repository: the container boost::bimap, whose documented
-- laws are the record IsBimap, which Depth/Bimap/Assoc fulfils, for the books (a comment in Depth Data
-- 20151224/TokenWiseClass.h says that std::greater, which orders their right side, does not work as
-- expected; the laws `highest` and `lowest` state what is documented for it, and only the published
-- best prices rest on them), and IsOrderMap for the orders by number; what a read at the end of a book
-- gives (`past_end`); the single precision product of TRADE_CONFIRMATION_TR (FloatHit), of which
-- IsExact says that small whole numbers are exact; the md5 sums of the packets; boost::signals2, whose
-- documented laws are the record IsHub, which Client/Sample fulfils; std::hash of a number, the bit
-- pattern of a number as double, and what memory holds where an object without an initialiser is made
-- (Machine).
--
-- Not modelled: sockets, threads, files and printing; sending the log-off (src/TapSignOn.cpp); a text
-- that is longer than the field that it is copied into; the map `_InPF` of PFMap.h, which no code reads,
-- and the fields of AutoClient that are only written; functions of StrategyClass and AutoClient that
-- nothing calls; the simulator.
pub mod Common
pub mod Messages
pub mod Queue
pub mod Tag
pub mod Strategy
pub mod Contracts
pub mod Depth
pub mod Session
pub mod Client
pub mod Handler
