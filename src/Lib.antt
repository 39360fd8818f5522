-- ===== src/Lib.antt =====
-- Verification of Demiplane: the query compiler, the PostgreSQL dialect, the connection configuration,
-- the connection pools, transactions and errors of the database component, the Outcome of gears, the
-- asynchronous logger over its disruptor, the sliding window sorter, the registry of services and the
-- HTTP route registry.
--
-- A query is built as a tree of expression templates (components/database/query/expressions) over
-- columns, tables and values (components/database/primitives). QueryCompiler visits the tree with a
-- SqlGeneratorVisitor, which appends SQL to a string through the static functions of a dialect and,
-- by its ParamMode, writes values into the SQL, captures them in a tuple or pushes them into a sink.
-- A ConnectionConfig says how to reach the server, as a text that libpq reads; an error of the server
-- comes back as an SQLSTATE, which is mapped to an ErrorCode and returned in an Outcome.
-- A session sends the result over a connection that it borrows from a pool; a transaction holds
-- such a connection from its BEGIN to its destructor.
-- Logger::log claims a sequence of a DynamicDisruptor, writes its event into the ring buffer and
-- publishes it; consumer_loop reads what is published in order and hands it to the sinks.
--
-- Files (paths from the repository's root):
--   Prelude, Prelude/*   shared names, lists over the native numbers, the ruleset `arith`.
--   Query/Ast            the expression tree, tables, schemas, FieldValue. Templates over operand
--                        types are one constructor, parameter packs are lists.
--   Query/Visitor, Query/Keywords, Query/Statements
--                        the state and the visit_*_impl methods of SqlGeneratorVisitor
--                        (components/database/query/compiler/query_visitor/detail/
--                        sql_generator_visitor.inl). `sql_` is a list of pieces: texts, and calls
--                        of the dialect, which Dialect.render turns into bytes.
--   Query/Nodes, Query/Joined, Query/Generate
--                        the visit overloads of QueryVisitor (.../query_visitor.hpp).
--   Query/Compile        QueryCompiler (components/database/query/compiler/query_compiler.hpp): the
--                        string of compile_static has a fixed capacity, MaxLen, and an append beyond
--                        it throws; that of compile_dynamic grows.
--   Query/Words, Query/Grammar
--                        the SQL grammar of an expression, as fixed texts and slots for values.
--   Query/Emit, Query/Loops, Query/Refine, Query/Lower, Query/Params
--                        the visitor against the grammar, and what each mode makes of the slots.
--   Query/Gaps           what queries lose: parameters, numbers, grouping.
--   Dialect, Dialect/*   PostgresDialect (components/database/providers/postgresql/dialect).
--   Gears, Gears/ToString
--                        constexpr_to_string (common/gears/utilities/gears_utils.hpp).
--   Gears/Outcome, Gears/Variants
--                        Outcome and chain_outcomes (common/gears/outcome/gears_outcome.hpp), and the
--                        lists of error types that their results have.
--   Gears/Outcome/Chain, Typing
--                        the values of the combinators, and the types of their errors.
--   Connection/Credentials, Config, Builder
--                        ConnectionCredentials, ConnectionConfig, its builder and presets (components/
--                        database/providers/postgresql/config).
--   Connection/Reader, Legible, Parameters, Written, Keys, Illegible, RoundTrip
--                        libpq's reading of a connection string, the escaping of values, and the
--                        string of a configuration as its parameters.
--   Connection/Valid     what validate accepts.
--   Errors, Errors/Names, Typed
--                        ErrorCode and its enumerations (components/database/base/errors/
--                        db_error_codes.hpp).
--   Errors/Classes, Sqlstate, Retry
--                        map_sqlstate (components/database/providers/postgresql/errors/detail/
--                        sqlstate_mapping.inl), and which codes are retryable.
--   Errors/Extract, Agree
--                        the extraction of errors (components/database/providers/postgresql/errors).
--   Pool/Blocking        BlockingPool and QueuedHolder (components/database/providers/postgresql/
--                        session/blocking/pool). A function is one critical section of the mutex or
--                        one atomic access, so that the sections of several calls can interleave.
--   Pool/Blocking/Counts, Queue, Handlers, Invariant, Promises, Clients, Places, System, Stats, Races
--                        how often a holder occurs, the order of the queue, the posted handlers,
--                        sequential calls, concurrent clients and where the holders are, the counts, surprising
--                        interleavings.
--   Pool/Slots           ConnectionPool, SlotHolder and PoolJanitor (components/database/providers/
--                        postgresql/session/free_lock/pool), one atomic access a function.
--   Pool/Slots/Borrow, Exhaustion, Steps, Exclusive
--                        acquire_slot alone, when it fails, and under concurrent access.
--   Pool/Config          PoolConfig::validate (components/database/providers/postgresql/session/
--                        shared/pool_config.hpp).
--   Transaction, Transaction/Lifecycle
--                        Transaction, TransactionOptions and Savepoint (components/database/providers/
--                        postgresql/transaction), over a log of what is sent on the connection.
--   Transaction/Auto     AutoTransaction, how a session begins one (components/database/providers/
--                        postgresql/session/blocking/postgres_blocking_session.cpp), and the
--                        destructor and move assignment of Savepoint.
--   Disruptor            the sequencer (common/multithread/disruptor/multi_producer_sequencer/
--                        dynamic_multi_producer_sequencer.hpp) and the place of a slot in the ring.
--   Disruptor/Scan, Disruptor/Waiting
--                        the published prefix; BlockingWaitStrategy (.../wait_strategies/blocking.hpp).
--   Logger               Logger (common/scroll/logger): the calls of log and shutdown, and
--                        consumer_loop, with the loop of `next` and the scan of
--                        get_highest_published, one access of a shared atomic a step.
--   Logger/Invariant, Logging, Scanning, Reading, ConsumerLoop, Runs
--                        the invariant, its preservation by each step, and any interleaving.
--   Logger/Halting, Shutdown, Progress
--                        what a shutdown leaves behind, and how the consumer gets to the end.
--   Sorter               SlidingWindowSorter (common/algorithms/sliding_window_sorter).
--   Sorter/Order         its comparator and the routines of `<algorithm>`.
--   Sorter/Insertion, Gather, Output, Batch, Calls, Stream
--                        insertion_sort, the merge into the window, the output, process_batch as a
--                        whole, sequences of calls, the order across batches.
--   Routes, Routes/Lookup
--                        RouteRegistry (components/http/http_server/source/route_registry.cpp).
--   Nexus                the registry of shared services (common/nexus/core/source/nexus.inl,
--                        nexus.cpp). `section` is one section of `get` under the lock of the map.
--   Nexus/Keeping, Lifetimes
--                        what becomes of the slot of a key; one call of `get` after another.
--   Nexus/Calls, Single  calls of `get` from several threads.
--   */Tests              concrete runs.
--
-- Bounds and fuel. The loop of constexpr_to_string recurses on fuel, the value itself: a round
-- divides by 100, so that many rounds are always enough. A call of Nexus::get has at most six sections.
-- The numbers of placeholders and the counters of the pool are natural numbers: none of them can
-- reach 2 ^ 64 in memory. The counters of the sorter wrap at 2 ^ 64. The sequences of the disruptor are
-- natural numbers, counted from 0 where the source starts at -1: an `int64_t` is not used up. The scan
-- of get_highest_published recurses on the number of sequences in its range.
--
-- The loops of std::to_string in Prelude/Numerals recurse on one more than the number.
--
-- Parameters. `std::to_chars` of numbers is the record ToChars; the text of a float is whatever it
-- gives. PQconnectdb and the check of a connection are arguments of the sections: the new holder or
-- none, healthy or not. Executors and condition variables are not modelled: a handler that is
-- posted stands in a list, from which Pool/Blocking/Clients runs it at any time, and a blocked thread may
-- wake at any time. When wait_for of a wait strategy returns to consumer_loop is a step of its own, which
-- may come at any time or never.
--
-- `std::sort`, `std::merge`, `std::inplace_merge` and `std::upper_bound` are a record with the laws that
-- their documentation states, for a comparator that is a strict weak ordering; the capacity of a
-- vector is given with each call. `std::regex`, with whether it accepts a pattern, and `std::to_string` are a record of functions. The server
-- of a transaction is a function from what was sent before to the success of a command.
-- What libpq says of a result or a connection is a record of the values of its accessors. The error types
-- of an Outcome are numbers, compared as std::is_same compares types; a static_assert is a statement.
-- A factory of Nexus is the object that it gives, another one in each call, or its exception.
-- Memory is sequentially consistent: the release and acquire pairs of the source are not weakened.
--
-- Not modelled: the builder methods that make expressions, records, the executors of
-- PostgreSQL, the rest of the sessions around the pools, the HTTP server but for its routes, the entries and sinks
-- of the logger, the static sequencer (the same code with a compile-time size), thread pools, the thread of the janitor of
-- Nexus.
pub mod Prelude
pub mod Connection
pub mod Dialect
pub mod Disruptor
pub mod Errors
pub mod Gears
pub mod Logger
pub mod Nexus
pub mod Pool
pub mod Query
pub mod Routes
pub mod Sorter
pub mod Transaction
