-- ===== src/Semaphore/Sections.antt =====
-- core.rs, `add_permits_locked`, in the pieces that other threads can come between: the section
-- under the lock, the check of the closed flag behind it, and the addition at the end.
use ranked_semaphore.Common.{
  ℕ, zero, suc, ◌-◌, ◌≡◌, ◌≢◌, not, ◌||◌, Option, none, some, ◌++◌, ◌==◌, arith, if◌then◌else◌,
  if_rule,
}
use ranked_semaphore.Waker
use ranked_semaphore.Waker.{WakeList}
use ranked_semaphore.WaitQueue
use ranked_semaphore.WaitQueue.Select.{select_waiters_to_notify}
use ranked_semaphore.Error.{Exit}
use ranked_semaphore.Semaphore.{World, fetch_add, is_closed}
use ranked_semaphore.Semaphore.Release.{
  release_loop, add_remaining, finish_release, add_permits_locked,
}
use ranked_semaphore.Semaphore.Batches.{wake_all_not_full}

-- A call of `add_permits_locked` with `rem` permits left: before the lock is taken, behind the
-- section under the lock with the permits assigned and the wakers to wake, and before the addition.
pub data Call : Type 0 where
  locking : ℕ → Call
  selected : ℕ → ℕ → WakeList → Call
  adding : ℕ → Call

lock_section : ℕ → World → World × Call
lock_section rem w =
    let s = select_waiters_to_notify w.waiters w.store rem in
    let rem' = rem - s.assigned in
    let v : World = record {
      sem = record { permits = w.permits; waiters = s.queue };
      store = s.store;
      woken = w.woken;
    } in
    if rem == 0
    then (w, adding rem)
    else if WaitQueue.is_empty w.waiters
    then (w, adding rem)
    else if s.assigned == 0 || Waker.is_empty s.wake_list
    then (v, adding rem')
    else (v, selected rem' s.assigned s.wake_list)

check_section : ℕ → ℕ → WakeList → World → World × Option Call
check_section rem assigned wake_list w =
    let (wake_list', woken) = Waker.wake_all wake_list in
    let v : World = record w { woken = w.woken ++ woken } in
    if is_closed w.permits
    then (fetch_add w assigned, none)
    else if not (Waker.was_full wake_list')
    then (v, some (adding rem))
    else (v, some (locking rem))

-- One piece of a call, and what is left of the call behind it.
unfoldable pub advance : Call → World → World × Option Call
unfolding lock_section check_section
advance (locking rem) w = let (v, c) = lock_section rem w in (v, some c)
advance (selected rem assigned wake_list) w = check_section rem assigned wake_list w
advance (adding rem) w = ((add_remaining rem w).0, none)

-- The pieces of a call one behind the other, with nobody between them.
unfoldable pub uninterrupted : ℕ → Call → World → Option World
unfolding advance
uninterrupted zero c w = none
uninterrupted (suc fuel) c w = elim (advance c w).1 [
  | none ↦ some (advance c w).0
  | some next ↦ uninterrupted fuel next (advance c w).0
]

-- The pieces of a call, with other threads that change the world before each of them.
unfoldable pub interrupted : ℕ → (ℕ → World → World) → Call → World → Option World
unfolding advance
interrupted zero rivals c w = none
interrupted (suc fuel) rivals c w = elim (advance c (rivals fuel w)).1 [
  | none ↦ some (advance c (rivals fuel w)).0
  | some next ↦ interrupted fuel rivals next (advance c (rivals fuel w)).0
]

abbrev pub world_of : Option (World × Exit (Unit {0})) → Option World
world_of none = none
world_of (some (w, e)) = some w

agree :
    (fuel fuel' n : ℕ) (w : World)
    → uninterrupted (suc (suc (suc fuel))) (locking n) w
      ≡ world_of (add_permits_locked (suc fuel') n w)
unfolding uninterrupted advance lock_section check_section add_permits_locked finish_release
    release_loop
agree fuel fuel' n w =
    ground (arith, wake_all_not_full (select_waiters_to_notify w.waiters w.store n).wake_list)

adding_ends :
    (fuel rem : ℕ) (rivals : ℕ → World → World) (w : World)
    → interrupted (suc fuel) rivals (adding rem) w ≢ none
unfolding interrupted advance
adding_ends fuel rem rivals w e = ground (arith, e)

selected_ends :
    (fuel rem assigned : ℕ) (l : WakeList) (rivals : ℕ → World → World) (w : World)
    → interrupted (suc (suc fuel)) rivals (selected rem assigned l) w ≢ none
unfolding interrupted advance check_section
selected_ends fuel rem assigned l rivals w e = ground (arith, wake_all_not_full l, e)

-- A call that is behind its section under the lock.
IsBehind : Call → Type 0
IsBehind (locking rem) = ⊥
IsBehind _ = Unit

lock_section-IsBehind : (n : ℕ) (w : World) → IsBehind (lock_section n w).1
unfolding lock_section IsBehind
lock_section-IsBehind n w =
    let s = select_waiters_to_notify w.waiters w.store n in
    let P = λ (r : World × Call). IsBehind r.1 in
    if_rule P (n == 0) tt (
      if_rule P (WaitQueue.is_empty w.waiters) tt
        (if_rule P (s.assigned == 0 || Waker.is_empty s.wake_list) tt tt))

behind_ends :
    (fuel : ℕ) (c : Call) (rivals : ℕ → World → World) (w : World)
    → IsBehind c
    → interrupted (suc (suc fuel)) rivals c w ≢ none
unfolding IsBehind
behind_ends fuel (locking rem) rivals w h = elim h [ ]
behind_ends fuel (selected rem assigned l) rivals w h = selected_ends fuel rem assigned l rivals w
behind_ends fuel (adding rem) rivals w h = adding_ends (suc fuel) rem rivals w

locking_ends :
    (fuel n : ℕ) (rivals : ℕ → World → World) (w : World)
    → interrupted (suc (suc (suc fuel))) rivals (locking n) w ≢ none
unfolding interrupted advance
locking_ends fuel n rivals w =
    let v = rivals (suc (suc fuel)) w in
    behind_ends fuel (lock_section n v).1 rivals (lock_section n v).0 (lock_section-IsBehind n v)

-- A call that has come anywhere.
pub call_ends :
    (c : Call) (rivals : ℕ → World → World) (w : World) → interrupted 3 rivals c w ≢ none
call_ends (locking rem) rivals w = locking_ends 0 rem rivals w
call_ends (selected rem assigned l) rivals w = selected_ends 1 rem assigned l rivals w
call_ends (adding rem) rivals w = adding_ends 2 rem rivals w

-- Whatever other threads do to the world before each of its pieces, a call of
-- `add_permits_locked` ends after at most three of them; and with nobody between them it leaves the
-- world that the whole function leaves.
pub sections-agree :
    (fuel fuel' n : ℕ) (rivals : ℕ → World → World) (w : World)
    → (interrupted (suc (suc (suc fuel))) rivals (locking n) w ≢ none)
      × (uninterrupted (suc (suc (suc fuel))) (locking n) w
          ≡ world_of (add_permits_locked (suc fuel') n w))
sections-agree fuel fuel' n rivals w = (locking_ends fuel n rivals w, agree fuel fuel' n w)
