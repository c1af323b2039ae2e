-- ===== src/System.antt =====
-- Several threads that use one semaphore: the sections of core.rs, futures.rs, methods.rs and
-- permits.rs between which threads can change, as the steps of one system. A compare-exchange that
-- fails changes nothing, so only the successful ones are steps. What a call does under the lock on
-- the queue is one step, and a future that is dropped meanwhile is dropped before or behind it. A
-- future is dropped in the step in which it becomes ready.
pub mod Accounts
pub mod Shifts
pub mod Advances
pub mod Invariant
pub mod Conservation
pub mod Shutdown
pub mod Queued
pub mod Stepping
pub mod Standing
pub mod Serial
pub mod Finishing
pub mod InTurn
pub mod Precedence
pub mod Quiet
pub mod Ranking
mod Tests
mod Crowd
use ranked_semaphore.Common.{
  ℕ, ◌+◌, ◌-◌, ◌≤◌, ◌<◌, ◌≡◌, ◌≢◌, true, false, Option, none, some, List, [], ◌∷◌, ◌++◌,
}
use ranked_semaphore.Common.Int.{ℤ, pos}
use ranked_semaphore.Common.Word.{usize_mod, u32_mod}
use ranked_semaphore.Config.{PriorityConfig}
use ranked_semaphore.Error.{Exit, returns}
use ranked_semaphore.Waiter
use ranked_semaphore.Waiter.{Store, write, set_waker}
use ranked_semaphore.Waiter.Reserved.{share}
use ranked_semaphore.WaitQueue.{push_waiter}
use ranked_semaphore.Semaphore.{
  RankedSemaphore, World, set_word, max_permits, new_with_config, is_closed, close_word,
  close_queue, forget_permits,
}
use ranked_semaphore.Semaphore.Sections.{Call, locking, selected, adding, advance}
use ranked_semaphore.TryAcquire.{TryResult, ok, try_acquire_many}
use ranked_semaphore.Permit
use ranked_semaphore.Permit.{RankedSemaphorePermit, merge, split}
use ranked_semaphore.Acquire
use ranked_semaphore.Acquire.{Acquire, Polled, poll, ready, quiet}

-- The permit objects that are alive, and the calls of `add_permits_locked` that have not returned.
-- `supply` counts the permits that the semaphore was made with and those that `add_permits` was
-- given; `gone` counts the permits that were forgotten or lost.
pub record System : Type 0 where
  pub world : World
  pub held : List RankedSemaphorePermit
  pub calls : List Call
  pub supply : ℕ
  pub gone : ℕ

-- The future behind the waiter `i`, which was pushed with its demand and its priority.
abbrev pub future_of : World → ℕ → Acquire
future_of w i = record {
  semaphore = 0;
  permits_needed = (w.store.cell i).permits_needed;
  priority = (w.store.cell i).priority;
  waiter_handle = some i;
}

-- The section of a first poll under the lock: the future of `n` permits enters the queue.
abbrev pub enter : ℕ → ℤ → World → World
enter n p w =
    let (i, q, m) = push_waiter w.waiters w.store n p in
    record { sem = record { permits = w.permits; waiters = q }; store = m; woken = w.woken }

abbrev pub leave_waker : ℕ → ℕ → World → World
leave_waker i task w = record w { store = write w.store i (set_waker (w.store.cell i) task) }

-- What is left of a call stays among the calls.
abbrev pub unfinished : Option Call → List Call → List Call
unfinished none cs = cs
unfinished (some c) cs = c ∷ cs

pub data Step (s : System) : System → Type 0 where
  -- `try_acquire_many(n)` succeeds.
  takes :
      (n v : ℕ)
      → 0 < n
      → n < u32_mod
      → try_acquire_many n s.world.permits [] ≡ returns (ok n, v)
      → Step s
          (record s { world = set_word s.world v; held = record { sem = 0; permits = n } ∷ s.held })
  -- A first poll succeeds on its fast path.
  takes_at_once :
      (f g : Acquire) (task : ℕ) (v : World) (p : RankedSemaphorePermit)
      → f.waiter_handle ≡ none
      → f.permits_needed < u32_mod
      → s.world.waiters.total_waiters + 1 < usize_mod
      → poll f task quiet s.world ≡ record { future = g; world = v; poll = ready p }
      → Step s (record s { world = v; held = p ∷ s.held })
  -- A first poll enters the queue.
  enters :
      (n : ℕ) (p : ℤ)
      → is_closed s.world.permits ≡ false
      → s.world.waiters.total_waiters + 1 < usize_mod
      → Step s (record s { world = enter n p s.world })
  -- A poll that found its waiter waiting leaves a waker. Its look at the state may be out of date.
  leaves_waker :
      (i task : ℕ)
      → i < s.world.store.next
      → Step s (record s { world = leave_waker i task s.world })
  -- A poll finds its waiter notified and returns a permit; the future is dropped.
  receives :
      (i task : ℕ) (g : Acquire) (v : World) (p : RankedSemaphorePermit)
      → i < s.world.store.next
      → poll (future_of s.world i) task quiet s.world
        ≡ record { future = g; world = v; poll = ready p }
      → Step s (record s {
        world = Acquire.drop (future_of s.world i) v;
        held = p ∷ s.held;
        gone = s.gone + (share (s.world.store.cell i) - p.permits);
      })
  -- A future is dropped before it is ready.
  gives_up :
      (i : ℕ)
      → i < s.world.store.next
      → Step s (record s {
        world = Acquire.drop (future_of s.world i) s.world;
        gone = s.gone + share (s.world.store.cell i);
      })
  splits :
      (xs ys : List RankedSemaphorePermit) (p p' q : RankedSemaphorePermit) (n : ℕ)
      → s.held ≡ xs ++ p ∷ ys
      → split p n ≡ (p', some q)
      → Step s (record s { held = xs ++ p' ∷ q ∷ ys })
  merges :
      (xs ys us vs : List RankedSemaphorePermit) (p q p' q' : RankedSemaphorePermit)
      → s.held ≡ xs ++ p ∷ ys
      → xs ++ ys ≡ us ++ q ∷ vs
      → merge p q ≡ returns (p', q')
      → Step s (record s {
        held = p' ∷ (us ++ vs);
        gone = s.gone + (p.permits + q.permits - p'.permits);
      })
  forgets :
      (xs ys : List RankedSemaphorePermit) (p : RankedSemaphorePermit)
      → s.held ≡ xs ++ p ∷ ys
      → Step s (record s { held = xs ++ ys; gone = s.gone + p.permits })
  -- A permit object is dropped, which starts a call of `add_permits_locked`.
  drops :
      (xs ys : List RankedSemaphorePermit) (p : RankedSemaphorePermit)
      → s.held ≡ xs ++ p ∷ ys
      → Step s (record s { held = xs ++ ys; calls = locking p.permits ∷ s.calls })
  -- `add_permits(n)` starts, within the documented maximum.
  adds :
      (n : ℕ)
      → s.supply + n ≤ max_permits
      → Step s (record s { calls = locking n ∷ s.calls; supply = s.supply + n })
  -- A call goes on by one section.
  goes_on :
      (xs ys : List Call) (c : Call)
      → s.calls ≡ xs ++ c ∷ ys
      → Step s (record s {
        world = (advance c s.world).0;
        calls = unfinished (advance c s.world).1 (xs ++ ys);
      })
  forgets_permits :
      (n : ℕ)
      → Step s (record s {
        world = set_word s.world (forget_permits n s.world.permits []).1;
        gone = s.gone + (forget_permits n s.world.permits []).0;
      })
  -- The two sections of `close`.
  closes : Step s (record s { world = close_word s.world })
  cancels : is_closed s.world.permits ≡ true → Step s (record s { world = close_queue s.world })

-- A semaphore that was just made, with nobody using it.
abbrev pub fresh : ℕ → RankedSemaphore → System
fresh permits sem = record {
  world = record {
    sem = sem;
    store = record { next = 0; cell = λ i. Waiter.new 0 (pos 0) };
    woken = [];
  };
  held = [];
  calls = [];
  supply = permits;
  gone = 0;
}

-- The states that the system can come to from a semaphore with these permits.
pub data Reach (permits : ℕ) (config : PriorityConfig) : System → Type 0 where
  start :
      (sem : RankedSemaphore)
      → new_with_config permits config ≡ returns sem
      → Reach permits config (fresh permits sem)
  later : {s t : System} → Reach permits config s → Step s t → Reach permits config t

-- The steps that threads can make from one state to another.
pub data Steps (s : System) : System → Type 0 where
  here : Steps s s
  then : {t u : System} → Steps s t → Step t u → Steps s u

pub reach-Steps :
    {permits : ℕ} {config : PriorityConfig} {s t : System}
    → Reach permits config s
    → Steps s t
    → Reach permits config t
reach-Steps r here = r
reach-Steps r (then st x) = later (reach-Steps r st) x
