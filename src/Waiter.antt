-- ===== src/Waiter.antt =====
-- ranked-semaphore/src/wait_queue/waiter.rs: the shared state of a waiting task.
-- An `Arc<WaiterState>` is a number, and `Store` holds the state behind each: the queue and the
-- future of a task hold the same number, so each sees what the other writes. `Arc::ptr_eq` is the
-- equality of numbers. The weak reference of a handle is never read and is left out.
pub mod Life
pub mod Reserved
use ranked_semaphore.Common.Format.{Formatting}
use ranked_semaphore.Common.{
  ℕ, ◌+◌, Bool, true, false, Option, none, some, List, [], ◌∷◌, ◌==◌, if◌then◌else◌,
}
use ranked_semaphore.Common.Int.{ℤ}
use ranked_semaphore.Waker.{
  SafeWakerCell, new_cell, has_waker_under_lock, set_under_lock, take_under_lock,
  wake_by_ref_under_lock,
}

-- The constants `WAITING`, `NOTIFIED` and `CANCELLED`.
pub data Status : Type 0 where
  waiting : Status
  notified : Status
  cancelled : Status

abbrev pub same_status : Status → Status → Bool
same_status waiting waiting = true
same_status notified notified = true
same_status cancelled cancelled = true
same_status _ _ = false

pub record WaiterState : Type 0 where
  pub state : Status
  pub permits_needed : ℕ
  pub waker : SafeWakerCell
  pub priority : ℤ

unfoldable pub new : ℕ → ℤ → WaiterState
unfolding new_cell
new permits_needed priority = record {
  state = waiting;
  permits_needed = permits_needed;
  waker = new_cell;
  priority = priority;
}

-- `state.compare_exchange(expected, next)`, and whether it succeeds.
compare_exchange : WaiterState → Status → Status → WaiterState × Bool
compare_exchange w expected next =
    if same_status w.state expected then (record w { state = next }, true) else (w, false)

-- The new state, and the tasks that are woken.
unfoldable pub cancel : WaiterState → WaiterState × List ℕ
unfolding compare_exchange wake_by_ref_under_lock
cancel w =
    let (w₁, was_waiting) = compare_exchange w waiting cancelled in
    let (w₂, was_notified) = compare_exchange w notified cancelled in
    if was_waiting
    then (w₁, wake_by_ref_under_lock w.waker)
    else if was_notified
    then (w₂, wake_by_ref_under_lock w.waker)
    else (w, [])

unfoldable pub is_notified : WaiterState → Bool
is_notified w = same_status w.state notified

unfoldable pub is_cancelled : WaiterState → Bool
is_cancelled w = same_status w.state cancelled

unfoldable pub is_waiting : WaiterState → Bool
is_waiting w = same_status w.state waiting

unfoldable pub set_waker : WaiterState → ℕ → WaiterState
unfolding set_under_lock
set_waker w k = record w { waker = set_under_lock w.waker k }

unfoldable pub take_waker_under_lock : WaiterState → Option ℕ × WaiterState
unfolding take_under_lock
take_waker_under_lock w = let (k, c) = take_under_lock w.waker in (k, record w { waker = c })

unfoldable pub try_notify : WaiterState → WaiterState × Bool
unfolding compare_exchange
try_notify w = compare_exchange w waiting notified

-- The waiters that exist: those below `next`, each with its state.
pub record Store : Type 0 where
  pub next : ℕ
  pub cell : ℕ → WaiterState

abbrev pub update : (ℕ → WaiterState) → ℕ → WaiterState → ℕ → WaiterState
update f i w j = if i == j then w else f j

abbrev pub write : Store → ℕ → WaiterState → Store
write m i w = record m { cell = update m.cell i w }

-- `WaiterHandle::new`: a fresh waiter, named by its handle.
unfoldable pub new_handle : Store → ℕ → ℤ → ℕ × Store
unfolding new
new_handle m permits_needed priority = (
  m.next,
  record { next = m.next + 1; cell = update m.cell m.next (new permits_needed priority) },
)

-- The state as the number that the source stores.
abbrev state_number : Status → ℕ
state_number waiting = 0
state_number notified = 1
state_number cancelled = 2

unfoldable pub fmt : {F : Type 0} {D : Type 0} {R : Type 0} → Formatting F D R → WaiterState → F → R
unfolding has_waker_under_lock
fmt out w f =
    let has_waker = has_waker_under_lock w.waker in
    let d = out.debug_struct f "WaiterState" in
    let d = out.field_nat d "permits_needed" w.permits_needed in
    let d = out.field_int d "priority" w.priority in
    let d = out.field_nat d "state" (state_number w.state) in
    out.finish (out.field_bool d "has_waker" has_waker)
