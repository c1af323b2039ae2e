-- ===== src/Semaphore/Release.antt =====
-- core.rs, `add_permits` and `add_permits_locked`: permits come back to the semaphore.
use ranked_semaphore.Common.{
  ℕ, zero, suc, ◌-◌, not, ◌||◌, Option, none, some, ◌++◌, ltb, ◌==◌, if◌then◌else◌,
}
use ranked_semaphore.Common.Word.{add_usize, shr_one}
use ranked_semaphore.Waker
use ranked_semaphore.WaitQueue
use ranked_semaphore.WaitQueue.Select.{select_waiters_to_notify}
use ranked_semaphore.Error.{Exit, returns, panics}
use ranked_semaphore.Semaphore.{World, fetch_add, is_closed, max_permits}

-- How the `while` loop is left: by the early return, or with permits still to add.
pub data Leaves : Type 0 where
  returns_early : World → Leaves
  leaves : ℕ → World → Leaves

-- The loop, with fuel; `none` means that the fuel ran out. What `select_waiters_to_notify` assigns
-- is at most `rem`, so the subtraction is exact.
unfoldable pub release_loop : ℕ → ℕ → World → Option Leaves
release_loop zero rem w = none
release_loop (suc fuel) rem w =
    let s = select_waiters_to_notify w.waiters w.store rem in
    let rem' = rem - s.assigned in
    let w' : World = record {
      sem = record { permits = w.permits; waiters = s.queue };
      store = s.store;
      woken = w.woken;
    } in
    let (wake_list, woken) = Waker.wake_all s.wake_list in
    let w'' : World = record w' { woken = w.woken ++ woken } in
    let next = release_loop fuel rem' w'' in
    if rem == 0
    then some (leaves rem w)
    else if WaitQueue.is_empty w.waiters
    then some (leaves rem w)
    else if s.assigned == 0 || Waker.is_empty s.wake_list
    then some (leaves rem' w')
    else if is_closed w'.permits
    then some (returns_early (fetch_add w' s.assigned))
    else if not (Waker.was_full wake_list)
    then some (leaves rem' w'')
    else next

-- The part behind the loop, with the panic that follows the addition.
unfoldable pub add_remaining : ℕ → World → World × Exit (Unit {0})
add_remaining rem w =
    let exit : Exit (Unit {0}) =
      if ltb max_permits (add_usize (shr_one w.permits) rem) then panics else returns tt in
    if ltb 0 rem then (fetch_add w rem, exit) else (w, returns tt)

unfoldable pub finish_release : Leaves → World × Exit (Unit {0})
finish_release (returns_early w) = (w, returns tt)
finish_release (leaves rem w) = add_remaining rem w

unfoldable pub add_permits_locked : ℕ → ℕ → World → Option (World × Exit (Unit {0}))
add_permits_locked fuel rem w = elim (release_loop fuel rem w) [
  | none ↦ none
  | some l ↦ some (finish_release l)
]

unfoldable pub add_permits : ℕ → ℕ → World → Option (World × Exit (Unit {0}))
add_permits fuel added w =
    if added == 0 then some (w, returns tt) else add_permits_locked fuel added w
