-- ===== src/Acquire/Races.antt =====
-- futures.rs: a first poll that another thread overtakes before it takes the lock.
use ranked_semaphore.Common.{ℕ, ◌≤◌, ◌<◌, ◌≡◌, true, false, some, none, List, leb, arith}
use ranked_semaphore.Common.Word.{u32_mod, shl_one}
use ranked_semaphore.Waiter.{is_waiting}
use ranked_semaphore.WaitQueue
use ranked_semaphore.WaitQueue.{push_waiter}
use ranked_semaphore.Semaphore.{World, available_permits, is_closed}
use ranked_semaphore.Permit
use ranked_semaphore.Permit.{RankedSemaphorePermit}
use ranked_semaphore.Acquire.{Acquire, pending, Rivals, Polled, poll_first, poll, quiet}

-- Another thread drops a permit of `k` before the poll takes the lock.
abbrev pub dropped_meanwhile : ℕ → World → World
dropped_meanwhile k w = elim (Permit.drop 1 (record { sem = 0; permits = k }) w) [
  | none ↦ w
  | some (v, exit) ↦ v
]

abbrev pub overtaken : ℕ → Rivals
overtaken k = record quiet { before_lock = dropped_meanwhile k }

pub not_enough : (n w : ℕ) → n < u32_mod → available_permits w < n → leb (shl_one n) w ≡ false
unfolding available_permits
not_enough n w small few = ground arith

pub poll-first :
    (f : Acquire) (task : ℕ) (r : Rivals) (w : World)
    → f.waiter_handle ≡ none
    → poll f task r w ≡ poll_first f task r w
unfolding poll
poll-first f task r w new = ground arith

-- A poll that leaves its task in the queue although the permits for it are there.
pub data Stranded (f : Acquire) (woken : List ℕ) : Polled → Type 0 where
  stranded :
      (i : ℕ) (v : World)
      → f.permits_needed ≤ available_permits v.permits
      → is_closed v.permits ≡ false
      → is_waiting (v.store.cell i) ≡ true
      → v.waiters.total_waiters ≡ 1
      → v.woken ≡ woken
      → Stranded f woken
          (record { future = record f { waiter_handle = some i }; world = v; poll = pending })
