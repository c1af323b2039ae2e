-- ===== src/Semaphore.antt =====
-- ranked-semaphore/src/semaphore/core.rs: the semaphore, its constructors, and the operations on
-- its word of permits. The word is a `usize`: the permits shifted left by one, and the closed flag
-- in the lowest bit.
pub mod Release
pub mod Word
pub mod Overflow
pub mod Batches
pub mod Closing
pub mod Sections
pub mod Waking
pub mod Leftover
pub mod Starving
mod Tests
mod Crowd
use ranked_semaphore.Common.{
  ℕ, ◌+◌, ◌-◌, ◌*◌, ◌/◌, ◌^◌, Bool, true, false, List, [], ◌∷◌, ◌++◌, ltb, ◌==◌, min, if◌then◌else◌,
}
use ranked_semaphore.Common.Word.{usize_mod, add_usize, shl_one, shr_one, and_one, or_one}
use ranked_semaphore.Config
use ranked_semaphore.Config.{QueueStrategy, fifo, lifo, PriorityConfig}
use ranked_semaphore.Error.{Exit, returns, panics}
use ranked_semaphore.Waiter.{Store}
use ranked_semaphore.WaitQueue
use ranked_semaphore.WaitQueue.{WaitQueue}

pub record RankedSemaphore : Type 0 where
  pub permits : ℕ
  pub waiters : WaitQueue

-- A semaphore with the waiters that exist, and the tasks that were woken so far.
pub record World : Type 0 where
  pub sem : RankedSemaphore
  pub open sem use *
  pub store : Store
  pub woken : List ℕ

abbrev pub set_word : World → ℕ → World
set_word w word = record w { sem = record { permits = word; waiters = w.waiters } }

abbrev pub set_queue : World → WaitQueue → World
set_queue w q = record w { sem = record { permits = w.permits; waiters = q } }

-- `usize::MAX >> 3`.
abbrev pub max_permits : ℕ
max_permits = (usize_mod - 1) / 2 ^ 3

unfoldable pub new_with_config : ℕ → PriorityConfig → Exit RankedSemaphore
new_with_config permits config =
    if ltb max_permits permits
    then panics
    else returns (record { permits = shl_one permits; waiters = WaitQueue.new config })

unfoldable pub new : ℕ → QueueStrategy → Exit RankedSemaphore
unfolding new_with_config
new permits strategy =
    if ltb max_permits permits
    then panics
    else new_with_config permits (Config.default_strategy Config.new strategy)

unfoldable pub new_fifo : ℕ → Exit RankedSemaphore
unfolding new
new_fifo permits = if ltb max_permits permits then panics else new permits fifo

unfoldable pub new_lifo : ℕ → Exit RankedSemaphore
unfolding new
new_lifo permits = if ltb max_permits permits then panics else new permits lifo

-- These two read the word.
unfoldable pub available_permits : ℕ → ℕ
available_permits word = shr_one word

unfoldable pub is_closed : ℕ → Bool
is_closed word = and_one word == 1

-- `permits.fetch_add(n << PERMIT_SHIFT)`.
abbrev pub fetch_add : World → ℕ → World
fetch_add w n = set_word w (add_usize w.permits (shl_one n))

-- The two steps of `close`: the flag is set before the lock on the queue is taken.
unfoldable pub close_word : World → World
close_word w = set_word w (or_one w.permits)

unfoldable pub close_queue : World → World
close_queue w =
    let (q, m, woken) = WaitQueue.close w.waiters w.store in
    record {
      sem = record { permits = w.permits; waiters = q };
      store = m;
      woken = w.woken ++ woken;
    }

unfoldable pub close : World → World
unfolding close_word close_queue
close w = close_queue (close_word w)

-- The loop of `forget_permits`, from the word that was read. `rivals` are the words that the failed
-- compare-exchanges found; behind them one succeeds. What was removed, and the new word.
forget_loop : ℕ → ℕ → List ℕ → ℕ × ℕ
forget_loop n curr [] =
    let curr_permits = shr_one curr in
    let removed = min curr_permits n in (removed, (shl_one (curr_permits - removed) + and_one curr))
forget_loop n curr (actual ∷ rivals) = forget_loop n actual rivals

unfoldable pub forget_permits : ℕ → ℕ → List ℕ → ℕ × ℕ
unfolding forget_loop
forget_permits n word rivals = if n == 0 then (0, word) else forget_loop n word rivals
