-- ===== src/Lib.antt =====
-- c9y is a C++ library for concurrent code over the threads of the standard library. This library
-- models its parts as they stand in c9y/*.h and c9y/*.cpp (the variants of the sources that do not
-- fall back on std::jthread and std::latch), and proves what they do.
--
-- The parts, from the bottom up, with the file that models each.
--   Base: Boolean tests, integers and lists over the native numbers, shared by all.
--   Exceptions: c9y/exceptions.cpp, the handler for exceptions that nobody can catch. A function acts
--     on a state, and returns or throws (Outcome); `guarded` is the try block that hands an exception
--     to the handler, which sync, sync_point and the pool's threads share. `none` stands for the end of
--     the process.
--   Latch, Barrier: c9y/latch.h, c9y/latch.cpp and c9y/barrier.h. The counters (ptrdiff_t) are integers:
--     the sources leave their overflow undefined. Barrier/Phases has barriers on which nobody drops out,
--     Barrier/Dropping arrive_and_drop, Barrier/Rendezvous threads that call arrive_and_wait in a loop.
--   Monitor: what the latch and the barrier have in common, a mutex and notifications under it: an
--     interface of a state's changes and waits with their laws, and the threads on it, step by step.
--     Latch/Sleepers and Barrier/Sleepers implement it.
--   Queue: c9y/queue.h, a call at a time under its mutex. Queue/History and Queue/Draining have
--     sequences of calls, and Queue/Monitor the threads that sleep on its condition variable, in steps:
--     what one thread does with the mutex held, a notification after it is released, and a thread that
--     wakes up.
--   Stop, Jthread, ThreadPool: c9y/jthread.h, c9y/jthread.cpp, c9y/thread_pool.h and
--     c9y/thread_pool.cpp. Stop states stand on a heap that tokens, sources and threads point into;
--     Stop/Handles has the copies and moves of tokens and sources, and programs that call them.
--     ThreadPool/Destruction and ThreadPool/Shutdown are the end of a pool's life.
--     std::thread is a parameter: what happens until a thread has ended.
--   TaskPool: c9y/task_pool.cpp and c9y/async.cpp, a queue, its threads and the count of what is not
--     done (unsigned int, so modulo 2^32). TaskPool/Threads cuts enqueue, the threads' loop and flush
--     into steps of one access to shared state each, in any order; TaskPool/Destruction is the destructor,
--     and TaskPool/Workers the threads that it joins.
--   Defer: c9y/defer.cpp, functions that a thread puts off, and catch_up.
--   Sync: c9y/sync.cpp and the adapters of c9y/sync.h, functions queued for other threads, and
--     sync_point. Sync/Threads has the threads that do so, step by step.
--   Futures: the overloads of sync and async, in c9y/sync.h and c9y/async.h, that return a std::future.
--     std::packaged_task is a store of tasks and their results, which the queued λ runs.
--   Coroutine: c9y/coroutine.h (compiled with C9Y_OLD_COROUTINE alone), coroutines that await futures;
--     what continues them is queued with async or with delay. Coroutine/Blocking has the threads of async,
--     and Coroutine/SyncPoint the sync_point of a thread.
--   Parallel: c9y/parallel.h. Parallel/Schedule is `parallel` itself, whose tasks run in the order that
--     a schedule names; Parallel/Chunks cuts a range into chunks; Parallel/Queries and Parallel/Updates
--     are the algorithms, under every schedule, and Parallel/MapReduce builds on them.
--     Parallel/Pool has one call of `parallel` on the shared pool of c9y/parallel.cpp in steps, with the
--     pool's threads and other callers, which refines the model with schedules; Parallel/Nested has the
--     calls that tasks of the pool make.
--   Utils: c9y/utils.h.
--
-- How the parts meet: parallel counts a latch down once for each task; the task pool is a queue whose
-- values are functions, a count, and a row of threads, each a jthread with a stop state of its own;
-- sync_point and the pool's threads hand what is thrown to the handler.
--
-- Functions that the program stores (std::function) are numbers, and a parameter says what a call of
-- each does. A call that waits is modelled by its predicate: it returns none while it would sleep, and
-- is made again after a notification. asserts on empty functions are left out, as every number is a
-- function; the one on the main thread's id ends the process.
--
-- Bounds and fuel. The loops of parallel.h over a range have as much fuel as the range has elements and
-- one round more, which is enough as each chunk takes one element at least (a chunk size of 0 is a
-- division by zero, or for the algorithms without results a loop that does not end; the theorems ask
-- for a positive one). The loops of catch_up and of a pool's thread take fuel, and the theorems say how
-- much is enough. A chunk's index `ri` is an int in the sources: ranges have fewer than 2^31 chunks.
--
-- In parallel.h a task is one step. This holds of a function that does not race with others; the
-- results of the Boolean queries are bits of a std::vector<bool>, which share words, so that their model
-- in Parallel/Queries is of tasks that run one at a time, and no result listed below is about it;
-- Parallel/Queries/Packed has tasks that do not. Tasks throw nothing there, but in Parallel/Pool, where
-- they may; and there a function that a thread calls may also block the thread for good. Iterators are distances from the beginning of a
-- list, so that the input and the output of an algorithm do not overlap.
--
-- Not modelled: the end of the life of a task pool's members, which its threads outlive; the end of a
-- stop state when its last handle goes; what a coroutine's body does besides returning, throwing and
-- awaiting, and other functions in the queue of a thread whose coroutines wait with co_sync, where a
-- thread that sleeps in a call does nothing more; and time: a wait with a time limit is told whether its
-- time is up.
pub mod Barrier
pub mod Base
pub mod Coroutine
pub mod Defer
pub mod Exceptions
pub mod Futures
pub mod Jthread
pub mod Latch
pub mod Monitor
pub mod Parallel
pub mod Queue
pub mod Stop
pub mod Sync
pub mod TaskPool
pub mod ThreadPool
pub mod Utils
