-- ===== src/Acquire.antt =====
-- ranked-semaphore/src/semaphore/futures.rs: the futures of the `acquire` methods, and the methods
-- of methods.rs that make them. The semaphore that a future refers to is a number. The poll and the
-- drop of `AcquireOwned` stand in the child Owned.
--
-- Between its accesses to shared state a `poll` can be overtaken by other threads. `Rivals` says
-- what they do: whether the single compare-exchange succeeds (a weak one may fail at random), and
-- what happens to the world before the lock on the queue is taken, behind the push, between the two
-- reads of the waiter's state, before the flag is read again, and before the waker is set.
pub mod Dropping
pub mod Outcomes
pub mod Races
pub mod Owned
pub mod Missed
pub mod Refusing
mod Tests
use ranked_semaphore.Common.Format.{Formatting}
use ranked_semaphore.Common.{
  ℕ, ◌+◌, ◌-◌, ◌%◌, Bool, true, false, not, ◌&&◌, Option, none, some, List, [], ◌∷◌, ◌++◌, ltb, leb,
  ◌==◌, if◌then◌else◌,
}
use ranked_semaphore.Common.Int.{ℤ, pos}
use ranked_semaphore.Common.Word.{shl_one, and_one, u32_mod}
use ranked_semaphore.Error.{AcquireError, closed_acquire}
use ranked_semaphore.Waiter
use ranked_semaphore.Waiter.{Store, write, is_cancelled, is_notified, is_waiting, set_waker}
use ranked_semaphore.WaitQueue.{push_waiter, remove_waiter}
use ranked_semaphore.Semaphore.{World, set_word, set_queue, is_closed}
use ranked_semaphore.Permit.{RankedSemaphorePermit}

pub record Acquire : Type 0 where
  pub semaphore : ℕ
  pub permits_needed : ℕ
  pub priority : ℤ
  pub waiter_handle : Option ℕ

-- The methods of the semaphore `s` that make a future.
unfoldable pub acquire_many_with_priority : ℕ → ℤ → ℕ → Acquire
acquire_many_with_priority s priority n = record {
  semaphore = s;
  permits_needed = n;
  priority = priority;
  waiter_handle = none;
}

unfoldable pub acquire_many : ℕ → ℕ → Acquire
acquire_many s n = acquire_many_with_priority s (pos 0) n

unfoldable pub acquire_with_priority : ℕ → ℤ → Acquire
acquire_with_priority s priority = acquire_many_with_priority s priority 1

unfoldable pub acquire : ℕ → Acquire
acquire s = acquire_many_with_priority s (pos 0) 1

unfoldable pub acquire_many_owned_with_priority : ℕ → ℤ → ℕ → Acquire
acquire_many_owned_with_priority s priority n = record {
  semaphore = s;
  permits_needed = n;
  priority = priority;
  waiter_handle = none;
}

unfoldable pub acquire_many_owned : ℕ → ℕ → Acquire
acquire_many_owned s n = acquire_many_owned_with_priority s (pos 0) n

unfoldable pub acquire_owned_with_priority : ℕ → ℤ → Acquire
acquire_owned_with_priority s priority = acquire_many_owned_with_priority s priority 1

unfoldable pub acquire_owned : ℕ → Acquire
acquire_owned s = acquire_many_owned_with_priority s (pos 0) 1

pub data Poll : Type 0 where
  ready : RankedSemaphorePermit → Poll
  failed : AcquireError → Poll
  pending : Poll

pub record Rivals : Type 0 where
  pub exchange : Bool
  pub before_lock : World → World
  pub before_check : World → World
  pub before_look : World → World
  pub before_flag : World → World
  pub before_waker : World → World

abbrev pub quiet : Rivals
quiet = record {
  exchange = true;
  before_lock = λ w. w;
  before_check = λ w. w;
  before_look = λ w. w;
  before_flag = λ w. w;
  before_waker = λ w. w;
}

pub record Polled : Type 0 where
  pub future : Acquire
  pub world : World
  pub poll : Poll

-- `permits: this.permits_needed as u32`.
abbrev pub granted : Acquire → Poll
granted f = ready (record { sem = f.semaphore; permits = f.permits_needed % u32_mod })

-- The part behind the queueing, for a future with the waiter `i` and the task `task`.
unfoldable pub wait : Acquire → ℕ → ℕ → Rivals → World → Polled
wait f i task rivals w =
    let looked = rivals.before_look w in
    let flagged = rivals.before_flag looked in
    let later = rivals.before_waker looked in
    if is_cancelled (w.store.cell i)
    then record { future = f; world = w; poll = failed closed_acquire }
    else if is_notified (looked.store.cell i)
    then (if is_closed flagged.permits
        then record { future = f; world = flagged; poll = failed closed_acquire }
        else record { future = f; world = flagged; poll = granted f })
    else record {
      future = f;
      world = record later { store = write later.store i (set_waker (later.store.cell i) task) };
      poll = pending;
    }

-- The slow path of a future that is not queued yet, from the lock on.
unfoldable pub queue_up : Acquire → ℕ → Rivals → World → Polled
queue_up f task rivals w =
    let (i, q, m) = push_waiter w.waiters w.store f.permits_needed f.priority in
    let w' : World = record {
      sem = record { permits = w.permits; waiters = q };
      store = m;
      woken = w.woken;
    } in
    if not (and_one w.permits == 0)
    then record { future = f; world = w; poll = failed closed_acquire }
    else wait (record f { waiter_handle = some i }) i task rivals (rivals.before_check w')

-- The fast path of a future that is not queued yet, and the slow path behind it. The test makes
-- the subtraction exact.
unfoldable pub poll_first : Acquire → ℕ → Rivals → World → Polled
poll_first f task rivals w =
    let n_shifted = shl_one f.permits_needed in
    if not (and_one w.permits == 0)
    then record { future = f; world = w; poll = failed closed_acquire }
    else if leb n_shifted w.permits && rivals.exchange
    then record { future = f; world = set_word w (w.permits - n_shifted); poll = granted f }
    else queue_up f task rivals (rivals.before_lock w)

unfoldable pub poll : Acquire → ℕ → Rivals → World → Polled
poll f task rivals w = elim f.waiter_handle [
  | none ↦ poll_first f task rivals w
  | some i ↦ wait f i task rivals w
]

-- `Drop::drop`.
unfoldable pub drop : Acquire → World → World
drop f w = elim f.waiter_handle [
  | none ↦ w
  | some i ↦
      let (waiter, woken) = Waiter.cancel (w.store.cell i) in
      let w' : World = record {
        sem = w.sem;
        store = write w.store i waiter;
        woken = w.woken ++ woken;
      } in
      if is_waiting waiter then set_queue w' (remove_waiter w'.waiters w'.store i) else w'
]

unfoldable pub fmt : {F : Type 0} {D : Type 0} {R : Type 0} → Formatting F D R → Acquire → F → R
fmt out a f =
    let d = out.debug_struct f "Acquire" in
    let d = out.field_nat d "permits_needed" a.permits_needed in
    let d = out.field_int d "priority" a.priority in
    out.finish (out.field_bool d "queued" (elim a.waiter_handle [ none ↦ false | some i ↦ true ]))
