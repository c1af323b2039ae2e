-- ===== src/WaitQueue/Ready.antt =====
-- queue.rs: what the waiters in a queue are like between two calls: each is in one queue, that of
-- its own priority, once, and is waiting or cancelled.
use ranked_semaphore.Common.{
  ℕ, ◌<◌, ◌≡◌, refl, ◌≢◌, Bool, false, ◌||◌, List, [], ◌∷◌, ◌++◌, ◌==◌, arith, retain, some,
}
use ranked_semaphore.Common.Int.{ℤ}
use ranked_semaphore.Waiter.{WaiterState, Store, write, is_notified}
use ranked_semaphore.PriorityMap.{PriorityQueues, get}

unfoldable pub member : ℕ → List ℕ → Bool
member i [] = false
member i (j ∷ js) = j == i || member i js

pub member-append : (i : ℕ) (is js : List ℕ) → member i (is ++ js) ≡ (member i is || member i js)
unfolding member
member-append i [] js = refl
member-append i (k ∷ is) js = ground (arith, member-append i is js)

abbrev pub Ready : ℤ → Store → List ℕ → Type 0
Ready p m [] = Unit
Ready p m (i ∷ is) =
    (i < m.next)
    × ((m.cell i).priority ≡ p)
    × (is_notified (m.cell i) ≡ false)
    × (member i is ≡ false)
    × Ready p m is

abbrev pub AllReady : PriorityQueues → Store → Type 0
AllReady queues m = (p : ℤ) (is : List ℕ) → get p queues ≡ some is → Ready p m is

-- A waiter of another priority is not in the queue.
pub Ready-not_member :
    (p : ℤ) (m : Store) (is : List ℕ) (i : ℕ)
    → (m.cell i).priority ≢ p
    → Ready p m is
    → member i is ≡ false
unfolding member
Ready-not_member p m [] i ne r = refl
Ready-not_member p m (j ∷ is) i ne r = ground (arith, Ready-not_member p m is i ne r.4)

-- A write to a waiter outside the queue leaves the queue as it is.
pub Ready-write :
    (p : ℤ) (m : Store) (is : List ℕ) (i : ℕ) (w : WaiterState)
    → member i is ≡ false
    → Ready p m is
    → Ready p (write m i w) is
unfolding member
Ready-write p m [] i w out r = tt
Ready-write p m (j ∷ is) i w out r = ground (arith, Ready-write p m is i w)

member-retain :
    (keep : ℕ → Bool) (is : List ℕ) (i : ℕ)
    → member i is ≡ false
    → member i (retain keep is) ≡ false
unfolding member
member-retain keep [] i out = refl
member-retain keep (j ∷ is) i out = ground (arith, member-retain keep is i)

pub Ready-retain :
    (p : ℤ) (m : Store) (keep : ℕ → Bool) (is : List ℕ) → Ready p m is → Ready p m (retain keep is)
Ready-retain p m keep [] r = tt
Ready-retain p m keep (i ∷ is) r =
    ground (arith, Ready-retain p m keep is r.4, member-retain keep is i r.3)
