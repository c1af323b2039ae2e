-- ===== src/System/Serial.antt =====
-- Threads whose calls do not overlap: each call runs from its start to its end with nobody between
-- its sections. A future is polled first, and later polled again or dropped, in calls of its own.
-- Every task asks for one permit, and at most a batch of 32 permits is given back at once.
pub mod Released
pub mod Calm
pub mod Queueing
pub mod Runs
pub mod Busy
use ranked_semaphore.Common.{
  ℕ, zero, suc, ◌+◌, ◌≤◌, ◌<◌, ◌≡◌, refl, ap, sym, ◌∙◌, Option, none, some, List, [], ◌∷◌, ◌++◌,
  arith, Option-cases, inl, inr, subst,
}
use ranked_semaphore.Common.Word.{usize_mod}
use ranked_semaphore.Config.{PriorityConfig}
use ranked_semaphore.Error.{Exit, returns}
use ranked_semaphore.Waker.{num_wakers}
use ranked_semaphore.Semaphore.{RankedSemaphore, World, max_permits, new_with_config, close}
use ranked_semaphore.Semaphore.Release.{add_permits}
use ranked_semaphore.Semaphore.Sections.{Call, locking, advance, uninterrupted}
use ranked_semaphore.Permit
use ranked_semaphore.Permit.{RankedSemaphorePermit}
use ranked_semaphore.Acquire.{Acquire, poll, pending, quiet}
use ranked_semaphore.System.{
  System, Step, takes, takes_at_once, enters, leaves_waker, receives, gives_up, splits, merges,
  forgets, drops, adds, goes_on, forgets_permits, closes, cancels, fresh, unfinished, Reach, start,
  later,
}

-- The steps that are calls of their own: they have one section that other threads can see.
abbrev pub IsWhole : {s t : System} → Step s t → Type 0
IsWhole (enters n p o room) = ⊥
IsWhole (drops xs ys p e) = ⊥
IsWhole (adds n room) = ⊥
IsWhole (goes_on xs ys c e) = ⊥
IsWhole closes = ⊥
IsWhole (cancels o) = ⊥
IsWhole _ = Unit

pub data Turn (s : System) : System → Type 0 where
  steps : {t : System} (x : Step s t) → IsWhole x → Turn s t
  -- The first poll of a future of one permit returns pending.
  queues :
      (f g : Acquire) (task : ℕ) (v : World)
      → f.waiter_handle ≡ none
      → f.permits_needed ≡ 1
      → s.world.waiters.total_waiters + 1 < usize_mod
      → poll f task quiet s.world ≡ record { future = g; world = v; poll = pending }
      → Turn s (record s { world = v })
  -- A permit object is dropped.
  gives_back :
      (xs ys : List RankedSemaphorePermit) (p : RankedSemaphorePermit) (v : World)
      (e : Exit (Unit {0}))
      → s.held ≡ xs ++ p ∷ ys
      → p.permits ≤ num_wakers
      → Permit.drop 1 p s.world ≡ some (v, e)
      → Turn s (record s { world = v; held = xs ++ ys })
  -- `add_permits(n)`, within the documented maximum.
  gives :
      (n : ℕ) (v : World) (e : Exit (Unit {0}))
      → s.supply + n ≤ max_permits
      → n ≤ num_wakers
      → add_permits 1 n s.world ≡ some (v, e)
      → Turn s (record s { world = v; supply = s.supply + n })
  shuts : Turn s (record s { world = close s.world })

-- The states that such threads can come to.
pub data Serial (permits : ℕ) (config : PriorityConfig) : System → Type 0 where
  begins :
      (sem : RankedSemaphore)
      → new_with_config permits config ≡ returns sem
      → Serial permits config (fresh permits sem)
  goes : {s t : System} → Serial permits config s → Turn s t → Serial permits config t
