-- ===== src/Acquire/Dropping.antt =====
-- futures.rs: what dropping a future does, and what a notified one gets.
use ranked_semaphore.Common.{
  ℕ, ◌+◌, ◌<◌, ◌≡◌, refl, true, false, some, List, ◌++◌, arith, if◌then◌else◌,
}
use ranked_semaphore.Error.{closed_acquire}
use ranked_semaphore.Waiter
use ranked_semaphore.Waiter.{
  WaiterState, waiting, notified, cancelled, Store, write, is_cancelled, is_notified, is_waiting,
  set_waker, new_handle,
}
use ranked_semaphore.Waiter.Reserved.{share, reserved-write}
use ranked_semaphore.WaitQueue.Upkeep.{Ready-rewrite}
use ranked_semaphore.Semaphore.{World, is_closed}
use ranked_semaphore.Semaphore.Batches.{IsSound, granted}
use ranked_semaphore.Acquire
use ranked_semaphore.Acquire.{
  Acquire, Poll, ready, failed, pending, quiet, Polled, wait, queue_up, poll_first, poll, drop,
}

-- A write to a waiter that keeps its priority and after which it is not notified.
pub write-IsSound :
    (w : World) (i : ℕ) (x : WaiterState) (woken : List ℕ)
    → x.priority ≡ (w.store.cell i).priority
    → is_notified x ≡ false
    → IsSound w
    → IsSound (record { sem = w.sem; store = write w.store i x; woken = woken })
write-IsSound w i x woken e f s = record {
  valid = s.valid;
  ready = λ p is g. Ready-rewrite p w.store is i x e f (s.ready p is g);
  word = s.word;
}

pub cancel_facts :
    (x : WaiterState)
    → ((Waiter.cancel x).0.priority ≡ x.priority)
      × (is_notified (Waiter.cancel x).0 ≡ false)
      × (is_waiting (Waiter.cancel x).0 ≡ false)
      × (is_cancelled (Waiter.cancel x).0 ≡ true)
      × (share (Waiter.cancel x).0 ≡ 0)
unfolding Waiter.cancel is_notified is_waiting is_cancelled share
cancel_facts x = ground arith

-- What dropping a future with the waiter `i` leaves.
pub record Dropped (i : ℕ) (w v : World) : Type 0 where
  pub sound : IsSound v
  pub same_sem : v.sem ≡ w.sem
  pub ended : is_cancelled (v.store.cell i) ≡ true
  pub lost : granted v + share (w.store.cell i) ≡ granted w

pub drop-eq :
    (f : Acquire) (w : World) (i : ℕ)
    → f.waiter_handle ≡ some i
    → drop f w ≡ record {
      sem = w.sem;
      store = write w.store i (Waiter.cancel (w.store.cell i)).0;
      woken = w.woken ++ (Waiter.cancel (w.store.cell i)).1;
    }
unfolding drop
drop-eq f w i e = rw (e, (cancel_facts (w.store.cell i)).2, drop)

-- Dropping a future that was queued, between two calls: its waiter is cancelled, the semaphore with
-- its queue and its word is left exactly as it was (so the waiter stays in the queue, if it is
-- there), and the share of a notified waiter is given back to nobody: the permits available and
-- those set aside shrink together by what the waiter was given.
pub drop-Dropped :
    (f : Acquire) (w : World) (i : ℕ)
    → f.waiter_handle ≡ some i
    → i < w.store.next
    → IsSound w
    → Dropped i w (drop f w)
unfolding granted
drop-Dropped f w i e exists s =
    let x = (Waiter.cancel (w.store.cell i)).0 in
    let facts = cancel_facts (w.store.cell i) in
    rw (drop-eq f w i e) (record {
      sound = write-IsSound w i x _ facts.0 facts.1 s;
      same_sem = refl;
      ended = ground (arith, facts.3);
      lost = omega (arith, reserved-write w.store i x exists, facts.4);
    })

-- A queued future that was notified, polled on an open semaphore with nobody overtaking it, returns
-- a permit of what it needs and changes nothing; on a closed semaphore it fails, though its permits
-- were set aside.
pub poll_notified :
    (f : Acquire) (task i : ℕ) (w : World)
    → f.waiter_handle ≡ some i
    → is_notified (w.store.cell i) ≡ true
    → poll f task quiet w ≡ record {
      future = f;
      world = w;
      poll = if is_closed w.permits then failed closed_acquire else Acquire.granted f;
    }
unfolding poll wait is_cancelled is_notified
poll_notified f task i w e n = rw (e, poll) (ground arith)
