-- ===== src/Lib.antt =====
-- traffik limits the rate of requests: a throttle asks a strategy how long a client has to wait, and
-- the strategy counts in a backend, whose locks come from a pool. This library models the parts
-- that keep state and decide.
--
-- Which file models which part (paths from the repository's root):
-- - Shard, InMemory: `InMemoryBackend` of src/traffik/backends/inmemory.py. Shard is one shard (the
--   dictionary of entries and the sampling index beside it), with the part of each method that runs
--   on it; InMemory is the backend: the shards, the readiness check, `multi_get` and `multi_set`,
--   `clear`, `keys`, `initialize` and `close`. The hash of a key is a parameter. Shard.View is what a
--   reader sees of an entry at a time; InMemory.Views is the same of the backend.
-- - Cleanup: the sampling clean-up of one shard, with `adaptive_expire_sample` of src/traffik/_utils.py.
-- - Store: the operations of `ThrottleBackend` (src/traffik/backends/base.py) that a strategy calls,
--   with their laws, as an interface; InMemory.AsStore fills it.
-- - Rate: `Rate` of src/traffik/rates.py, the constructor and the properties that strategies read.
-- - FixedWindow: `FixedWindowStrategy` of src/traffik/strategies/fixed_window.py, over any Store.
-- - SlidingLog: `SlidingWindowLogStrategy` of src/traffik/strategies/sliding_window.py, over the cell of its
--   key. The wall clock before the lock and the backend's clock in `get` and in `set` are three
--   inputs of a call. SlidingLog.Promise is what the strategy promises, in terms of the history of the
--   admitted requests. SlidingLog.Stat has `get_stat`.
-- - FairLock: `FairAsyncRLock` of src/traffik/_locks.py with the tasks that use it.
-- - UnfairLock: `AsyncRLock` of src/traffik/_locks.py, over the `asyncio.Lock` that it wraps.
-- - LockPool: `NamedLockPool` and `NamedLockHandle` of src/traffik/_locks.py.
-- - CircuitBreaker: `CircuitBreaker` of src/traffik/_utils.py.
-- - SharedLayout: the sizes and offsets that `MultiProcessInMemoryBackend` of
--   src/traffik/backends/multiprocess.py computes when it is constructed, and their estimate.
-- - SharedTable: the hash table of one of its shards: probing, tombstones and the rebuild in place.
-- - SharedShard: one of its shards: the table, the free stack, the slots and their generations. Calls
--   has `_get`, `_set`, `_increment`, `_increment_with_ttl`, `_expire` and `_delete` in their two
--   phases, Reap the clean-up and `_clear`, Start the shard as `start` leaves it. What runs under one
--   hold of a semaphore is a step, and what other processes do between two phases is a parameter
--   (`between`), which Generations instantiates by any sequence of atomic steps. SharedShard.View is
--   what a reader sees of a shard.
-- - Quota: `QuotaContext` and its entries of src/traffik/quotas.py: the queue with its aggregation, merging,
--   cancelling, and `apply` with the retries of each hit. The throttles that are hit are a parameter.
-- - Base and Result are shared: lists and integers over the native numbers, text as code points with
--   `str` and `int` of integers, dictionaries, and calls that return or raise.
--
-- How state corresponds: a record has the fields of the object, a method takes the state and returns
-- the new one beside its value, or raises an error of Result. Clocks are inputs of each call: whole
-- milliseconds for backend and strategies (the code's floats), any unit for the breaker. A body that
-- the code runs under a lock without a suspension is one step. In FairLock the tasks are explicit: a
-- waiting task waits for one future, cancellation and the order of resumption are events, and `held`
-- records what the tasks may assume.
--
-- Bounds: numbers are unbounded, as the source's integers are, except where the shared memory packs
-- them: a generation is a word of 32 bits, and a count of 64 bits and a length of 16 bits raise where they do
-- not fit. Every
-- loop is a recursion on its list or its range; the rounds of the clean-up are counted down from the
-- source's five, the retries from `max_aba_retries`. The loop that doubles the capacity has the
-- number of buckets asked for as its fuel, which is enough. `str(int)` recurses on the digits of the
-- number. The capacity of the shared hash table is a power of two, so `& mask` is `% capacity`, and
-- its FNV hash is a parameter. The load factor 0.65 is the fraction 13 / 20.
--
-- What is not modelled: the loop of the clean-up over the shards and its task; `multi_get`, `multi_set`,
-- the locks, the executor and the fork handlers of the shared-memory backend, and how its bytes encode
-- a bucket or a slot; the sliding window counter, buckets
-- and the custom strategies, whose floats are stored by
-- src/traffik/strategies/_serde.py; the clients of Redis and Memcached; the exit of a quota
-- context, `check` and `stat`; registry, throttles, specs,
-- headers and backoff; the framework glue of middleware and decorators. Times are whole milliseconds
-- where the code multiplies floats.
pub mod Base
pub mod Result
pub mod Shard
pub mod InMemory
pub mod Cleanup
pub mod Store
pub mod SharedLayout
pub mod SharedTable
pub mod SharedShard
pub mod Quota
pub mod Rate
pub mod FixedWindow
pub mod SlidingLog
pub mod CircuitBreaker
pub mod FairLock
pub mod UnfairLock
pub mod LockPool
