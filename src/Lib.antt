-- ===== src/Lib.antt =====
-- Verification library of the Bitcoin indexing service: the pipeline from a block of the node to the
-- rows of the database, as functions on the state of each part, and what these functions guarantee.
--
-- A harvester follows the chain of a node and hands each block to the processor, which writes it to
-- the chain tables in one transaction and sends the balance changes of its taproot outputs, one event
-- for each transaction and address, over a channel. The aggregator takes the events from the channel
-- and writes them to the ledger tables: those of a coinbase transaction wait as pending rows until
-- 100 blocks have passed, all others are recorded, with the total of each address and its change per
-- hour. After a fork the processor replaces the blocks and the aggregator takes back the events.
--
-- - Prelude: shared types, lists, integers, and Run, the monad of code that returns, fails with an
--   error or panics, and leaves a state in each case.
-- - Types: core/src/bitcoin/types.rs (BtcP2trEvent, BtcUtxoInfo, Action, AggregatorMsg).
-- - Sql: what a statement does on its tables, the errors of sqlx the code tells apart, and
--   ensure_affected of core/src/sqlx_postgres/mod.rs.
-- - Chain, Ledger: the tables of core/migrations/20241120123711_bitcoin.sql and the queries of
--   core/src/sqlx_postgres/bitcoin.rs on them, one function for each. Tables are lists of rows, keys
--   and the conditions of a query are written out.
-- - Processor: core/src/bitcoin/harvester/processor.rs. World is the database, the messages sent, and
--   the faults to come; process, process_block, process_fork, is_processed are the methods, and the
--   loops inside process_block are functions of their own. Chain/Unspent has the set of unspent
--   outputs, the abstract view of the utxo table, and Spending what a block does to it.
-- - Aggregator: core/src/bitcoin/aggregator.rs. start and cleanup are the loops over the messages,
--   handle_event and handle_reorg the handlers; Book is the abstract view of its ledger. Task is the
--   loop with the signal to shut down, and run.
-- - Client: core/src/rpc_client.rs and core/src/bitcoin/harvester/client.rs. Node is what the node
--   answers to each request, by the number of requests made before.
-- - Rpc: core/src/rpc_client.rs, the requests themselves over HTTP. Transport is what the crates
--   reqwest, serde_json and bitcoin do; node_of is the Node that a client sees over it.
-- - Harvester: core/src/bitcoin/harvester/mod.rs. harvest, handle_reorg, get_fork_blocks, scan_from and
--   start are the methods; the loop of start is a function on the rounds of its select!, each a
--   command or the end of the sleep. In Cancelled a command comes while a harvest runs.
-- - ConfigTable: core/src/sqlx_postgres/mod.rs, the table `config`.
-- - Startup: bin/bis/src/mono.rs and assert_environment of core/src/bitcoin/harvester/client.rs: a
--   start of the service up to the point where its tasks run, which is one of a sequence of starts on
--   the same database, with connect_and_migrate of core/src/sqlx_postgres/mod.rs, which makes the
--   database where there is none, and its tables.
-- - Commands: core/src/lib.rs, the sending end of the harvester's command channel.
-- - Api: bin/bis/src/api: Defs has the handler of the balance snapshots with its query and the status
--   of each error, Reads the handlers that read rows, Protected those that send commands, Params the
--   parameters of a query, and Service the whole service of mod.rs as a function of a request.
--   PostgreSQL's date_trunc and its series of times are arguments, and so are the reading of the parts
--   of a path and the parser of an address; the connection does not fail here.
-- - Tools: bin/bis/src/tools.rs, the subcommands that drive the service over HTTP.
-- - System: the processor and the aggregator joined by the channel, Interleaving with both at work at
--   the same time, and Running the whole service of bin/bis/src/mono.rs: the web API, the two tasks
--   and the signal as the steps of one machine. A harvest is one step there, or ends at any of its
--   calls if a command cuts it short.
-- - Tests: runs on small inputs, and the theorems at these inputs.
--
-- A database call fails when the next entry of a list of faults says so, and past its end none does;
-- this covers every point at which the connection can be lost. A transaction that does not commit
-- restores the tables, but not the channel and not a number a sequence has given out. The loops run by
-- structural recursion on the list they go through, except two of the harvester: the search for a
-- fork runs on the height of its first block plus one, and the harvest on the desired height plus
-- one, which is enough on a node whose answers belong to what was asked for (IsSound).
--
-- Code of other packages is a parameter: Externals holds what the processor calls of the crates
-- bitcoin and chrono and of HashMap, whose order of iteration is any permutation (IsWalk); `arrange`
-- is the order in which the database returns rows where a query asks for none, any permutation too
-- (IsArrangement); the clock is a function of the number of its readings. Amounts are integers, as
-- BigDecimal and NUMERIC hold them. Ids, hashes and scripts are numbers, of which only equality is
-- used.
--
-- A query or a commit that a command cuts off counts as not done, and so does a commit whose answer is
-- lost.
--
-- Not modelled: the reading of the command line and of the configuration file, which clap and toml do,
-- CORS and the checks of actix_web before a service is chosen, logging, and the options of the pool and
-- of the runtime. The two methods of HandlerStorage are todo!() in the source. The integration tests
-- run the service against a database and a node.
pub mod Prelude
pub mod Types
pub mod Sql
pub mod Chain
pub mod Processor
pub mod Ledger
pub mod Aggregator
pub mod Client
pub mod Rpc
pub mod Harvester
pub mod Commands
pub mod ConfigTable
pub mod Startup
pub mod Api
pub mod Tools
pub mod System
mod Tests
