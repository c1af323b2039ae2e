-- ===== src/Lib.antt =====
-- A model of ranked-semaphore, an asynchronous counting semaphore in Rust whose waiters have
-- priorities, with the theorems that say what its operations do to permits, waiters and wakers.
--
-- The crate keeps its permits in one atomic word, twice the number of permits plus a closed flag,
-- and its waiters in a wait queue behind a lock. `try_acquire` methods replace the word. A future
-- of an `acquire` method takes its permits from the word in its first poll or enters the wait
-- queue. Permit objects that are dropped, and `add_permits`, hand permits to the selected waiters
-- and put the remainder into the word. `close` sets the flag and cancels the queued waiters.
--
-- Which file models which part (paths below ranked-semaphore/src):
--   Config         config.rs: rules, builders, `resolve_strategy`; its child UnitTests has the
--                  tests of that file
--   Waker          wait_queue/waker.rs: `SafeWakerCell`, `WakeList`
--   Waiter         wait_queue/waiter.rs: `WaiterState`; the store of all waiters
--   PriorityMap    the hash map of queues in wait_queue/queue.rs, as an association list
--   PriorityHeap   the binary heap of active priorities, as a list with the greatest first
--   WaitQueue      wait_queue/queue.rs; its child Select has `select_waiters_to_notify`
--   Error          error.rs, and the result of a call that may panic
--   Semaphore      semaphore/core.rs; its child Release has `add_permits_locked`, and Sections the
--                  pieces of it that other threads can come between
--   TryAcquire     semaphore/methods.rs, the methods that do not wait
--   Permit         semaphore/permits.rs; its child Owned has `OwnedRankedSemaphorePermit`
--   Acquire        semaphore/futures.rs, and the methods of semaphore/methods.rs that make futures;
--                  its child Owned has `AcquireOwned`
--   System         threads that share a semaphore, as steps made of the parts above
--   Common         lists, Boolean tests, `isize` and machine words
--   Samples        small semaphores that the examples run on
--
-- State. A `World` is the semaphore, the store of all waiters, and the list of the tasks woken so
-- far. An `Arc<WaiterState>` is the number of its waiter in the store, so that the queue and the
-- future share it. A waker is the number of its task. A call takes the world to a new one; a call
-- that may panic has a result in `Exit`. Well-formedness is `IsValid` for the queue and `IsSound`
-- for a world between two calls.
--
-- Other threads. The methods that loop on a compare-exchange take the list of the words that their
-- failing exchanges find. A poll takes what other threads do to the world before its lock, behind
-- its push, between its reads of the waiter and of the flag, and before it sets the waker. The
-- exchange that succeeds is on the word last read. `close` is two steps, since it sets the flag
-- before it takes the lock. `add_permits` is one step: it reads the flag in the word that it
-- starts on.
--
-- In `System` threads act in any order, step by step: an exchange that succeeds, a push under the
-- lock, a waker that is left, a look that finds a permit, a future or a permit object that is
-- dropped, each section of an `add_permits_locked` that has begun, and each of the two steps of
-- `close`. Its state has the world, the permit objects and the calls that are under way. A
-- selection is one step, since the lock is held; a future that is dropped without the lock
-- meanwhile is dropped before or behind it (WaitQueue/Cancelling compares the two). `add_permits`
-- is called within the documented maximum, counted over the whole life of the semaphore. A future
-- of the fast path has a demand below 2^32, and the counter of the queue does not overflow.
--
-- Numbers. `usize` has 64 bits and `u32` 32, and both wrap as in a release build. Subtractions
-- that the source guards are exact.
--
-- Specifications. WaitQueue/ServiceOrder has the order in which waiters are to be served, and one
-- loop that hands permits out along it, written apart from the loops of the source; its comparison
-- with them is in WaitQueue/HandingOut. System/Standing relates it to the states of a system, and
-- System/Precedence and System/Ranking say which of two tasks comes first there, of one priority and
-- of two.
-- System/Serial has threads whose calls do not overlap, with a bound on what is given back at once:
-- add_permits_locked serves one batch of wakers only and offers waiters only the permits that it
-- gives back, not those of the word, and a poll does not look at the permits again behind the lock,
-- so that without these conditions permits can lie available while tasks wait. Semaphore/Starving
-- folds add_permits over a list of numbers, for calls that come one after the other.
--
-- The hash map. `HashMap` leaves open in which order it has its entries; the model has them in the
-- order of a list. WaitQueue/Hashing compares the operations on two such lists that are one map.
--
-- Fuel. Only the loop of `add_permits_locked` runs on fuel. Fuel 1 is enough, since the test for a
-- second round reads the count of a wake list that `wake_all` has just emptied.
--
-- Formatting. What the source uses of `std::fmt` is the parameter `Formatting` of Common/Format,
-- whose operations any functions can stand for.
--
-- Not modelled: the `Send` and `Sync` markers, memory orderings, a poisoned lock, the integration
-- tests and the benchmarks. An allocation does not fail.
pub mod Common
pub mod Config
pub mod Waker
pub mod Waiter
pub mod PriorityMap
pub mod PriorityHeap
pub mod WaitQueue
pub mod Error
pub mod Semaphore
pub mod TryAcquire
pub mod Permit
pub mod Acquire
pub mod System
pub mod Samples
