-- ===== src/Lib.antt =====
-- CppGrpcDb: a gRPC server that answers from DB2. Its own logic stands in a few parts, which the
-- servers under src/ put together.
--
-- ResourcePool (src/resource/resource_pool.hpp) and HandlePool (src/resource/resource_handle.h)
-- lend resources, such as database connections, to the threads of a server: the first as
-- `shared_ptr`s, the second as `ResourceHandle`s. Both run a factory and a validator that the
-- client supplies; Callbacks names the outcomes of these, and a schedule chooses them.
--   create, perform_warmup: ResourcePool.Creation. acquire, acquire_for, acquire_until,
--   try_acquire, release_raw, make_shared_from_idle_locked, make_shared_from_factory, shutdown:
--   ResourcePool. The constructor of the second: HandlePool.Construction. acquire, tryAcquire,
--   returnResource, shutdown, shutdownAndWait: HandlePool. getStats: HandlePool.Stats. The class
--   ResourceHandle: HandlePool.Handles.
-- WorkerPool (src/worker/WorkerPool.h) runs the tasks of asynchronous calls on its own threads:
--   try_post, post, submit, shutdown, worker_loop, normalize: WorkerPool. What becomes of a task,
--   and so of the future of submit: WorkerPool.Outcomes. The join in shutdown: WorkerPool.Joining.
--   The names of the threads: WorkerPool.Names. The stop flag is set without the mutex, also while
--   a producer is inside that has tested it: such a producer goes on by an event of its own.
-- The three share Interleaving: a system is the shared object and one program point per thread, a
-- schedule is a list of events, each with the thread that it moves, and what a thread does under
-- the mutex is one move. The runs of a system are the interleavings of its threads; spurious
-- wake-ups are among them. Interleaving.Waits adds a condition variable to a system, which counts
-- the threads asleep and those notified, and Wakeups in each pool says what its moves notify: cv_,
-- task_cv_ and space_cv_. HandlePool.Wakeups.Deadline is wait_until at its deadline. The counters
-- are words of 64 bits and wrap. `length` of the idle list and the maximal size are bounded by the
-- counters, where a theorem says so.
--
-- Db2 (src/db2/db2.cpp, include/db2/db2.hpp) is the connection that the pools lend: the
-- constructor, the destructor (cleanup), connect_with_dsn, connect_with_conn_str, disconnect, the
-- moves and try_reconnect_locked: Db2. execute, execute_prepared_locked: Db2.Statements.
-- query_to_callback: Db2.Query, and query_impl: Db2.Mapped. The getters of Row: Db2.Getters.
-- diag_message: Db2.Diagnostics. The call level interface of DB2 is a parameter: what a call
-- answers may depend on all the calls before it, whose list is part of the state. The retry loops
-- run on fuel 2, which is enough whatever the driver answers; the loop over rows has fuel for the
-- fetches that a theorem assumes, and that of getString runs on fuel 2 or more, which is enough for
-- a driver that follows its documentation; that of diag_message runs on fuel 20, the records that
-- it shows at most.
--
-- Sql (src/util/sql_util.cpp, anonymize), StringUtil (src/util/string_util.cpp, SanitizeUuid and
-- CopyStringToBuffer), Msvc (src/msvc/msvc.cpp, stricmp, strset and strupr) and ByteLogging
-- (src/encode/byte_logging.cpp, ToHexSpaceDelimited) work on strings: lists of bytes, in the C
-- locale. The loop of anonymize runs on fuel, two rounds for each byte and one more; its theorems
-- show that this is enough. The other loops over strings are structural.
--
-- Interceptor (src/interceptor/string_transform_interceptor.cpp) rewrites the strings of a message:
-- TransformMessageStrings and Intercept, on the tree of fields that reflection shows.
--
-- Greeting, CallData, CqServer (src/call_data, src/complex_async_server_single_cq.cpp) are the
-- asynchronous server: the messages and HandleRpc are Greeting, the objects that serve one RPC each
-- and their Proceed are CallData, GenerateUuid is CallData.Uuid, and SpwanHandlers, HandleRpcs and
-- Run are CqServer. Objects live in a heap, an address is an index, and `delete this` leaves a
-- hole; a completion takes one operation out of those under way, in any order, with any `ok` and
-- any request. The loop is structural in the list of completions. CqServer.Lifecycle puts main, Run
-- and Shutdown around it, as threads of Interleaving: its main thread, that of the server, and
-- whoever sends a signal.
--
-- Service (src/greeter_server.cpp, src/greeter_callback_server.cpp,
-- src/greeter_callback_server_no_db2.cpp, src/greeter_client.cpp, src/greeter_async_client.cpp) is
-- SayHello of the other servers and of the clients, and the string interceptor around it with the
-- transformations that RunServer sets. Service.Clients has the clients of
-- src/greeter_girl_client.cpp and src/greeter_callback_client.cpp, the callback of which is a
-- thread. The converters between UTF-8 and Big5 are parameters.
--
-- MetricsInterceptor (src/interceptor/metrics_interceptor.cpp) is Intercept over the metrics that
-- all RPCs share, with Interleaving for the RPCs; LoggingInterceptor
-- (src/interceptor/message_logging_interceptor.cpp) is what Intercept logs. Service.Pooling puts
-- ResourcePool under the callback server.
--
-- Startup is what the servers do around the calls. Startup.Port has the port argument of main
-- (src/greeter_callback_server_no_db2.cpp, src/complex_async_server_single_cq.cpp), with std::stoi
-- on bytes, and the address that the server listens at. Startup.Watcher has RunServer of
-- src/greeter_callback_server_no_db2.cpp and its signal_waiter, as threads of Interleaving; gRPC's
-- Shutdown waits for the calls in flight, and Wait for Shutdown.
--
-- Prelude has the lemmas on lists, numbers and characters; Tests has runs on concrete input.
--
-- Not modelled: the flags of the other servers, the set-up of health service, reflection and
-- metrics, and the retry policy of the client, which are glue around gRPC; the loggers, apart from
-- what the interceptor for them writes; `forceShutdown`, which cannot be compiled; the clocks,
-- whose deadlines pass or do not as the schedule says.
pub mod Prelude
pub mod Interleaving
pub mod Callbacks
pub mod ResourcePool
pub mod HandlePool
pub mod WorkerPool
pub mod Db2
pub mod Interceptor
pub mod MetricsInterceptor
pub mod LoggingInterceptor
pub mod Sql
pub mod StringUtil
pub mod Msvc
pub mod ByteLogging
pub mod Greeting
pub mod CallData
pub mod CqServer
pub mod Service
pub mod Startup
pub mod Tests
