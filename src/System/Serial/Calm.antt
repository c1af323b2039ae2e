-- ===== src/System/Serial/Calm.antt =====
-- Steps of the system after which nobody new waits and no more permits are available.
use ranked_semaphore.Common.{ℕ, ◌≤◌, ◌≡◌, refl, ap, false, List, arith, subst}
use ranked_semaphore.Waiter
use ranked_semaphore.Waiter.{WaiterState, Store, write, is_waiting, set_waker}
use ranked_semaphore.WaitQueue.Settling.{OneEach}
use ranked_semaphore.Semaphore.{World, is_closed, available_permits}
use ranked_semaphore.Semaphore.Batches.{granted}
use ranked_semaphore.Acquire
use ranked_semaphore.Acquire.{Acquire, Polled, poll, ready, quiet}
use ranked_semaphore.Acquire.Dropping.{cancel_facts, drop-eq}
use ranked_semaphore.Acquire.Outcomes.{FirstPoll, takes, poll-FirstPoll}
use ranked_semaphore.Permit.{RankedSemaphorePermit}
use ranked_semaphore.System.{
  System, Step, takes, takes_at_once, enters, leaves_waker, receives, gives_up, splits, merges,
  forgets, drops, adds, goes_on, forgets_permits, closes, cancels, future_of, leave_waker,
}
use ranked_semaphore.System.Shifts.{Shifts, try-Shifts, ready-Shifts, receive_facts, forget-Shifts}
use ranked_semaphore.System.Stepping.{at_once}
use ranked_semaphore.System.Invariant.{Inv}
use ranked_semaphore.System.Serial.{IsWhole}
use ranked_semaphore.System.Serial.Released.{Nobody, IsBusy}

pub record Calm (w v : World) : Type 0 where
  pub settled : Nobody w.store → Nobody v.store
  pub one : OneEach w.store → OneEach v.store
  pub flag : is_closed v.permits ≡ is_closed w.permits
  pub fewer : available_permits v.permits ≤ available_permits w.permits

pub Calm-IsBusy : (w v : World) → Calm w v → IsBusy w → IsBusy v
Calm-IsBusy w v c busy shown = c.settled (busy (ground (arith, c.flag, c.fewer)))

-- The waiters stay as they are.
still-Calm : (w v : World) (n : ℕ) → v.store ≡ w.store → Shifts n w v → Calm w v
unfolding granted
still-Calm w v n e h = record {
  settled = λ idle. rw e idle;
  one = λ each. rw e each;
  flag = h.flag;
  fewer = omega (arith, h.sum, ap Waiter.Reserved.reserved e);
}

-- One waiter is changed, who keeps its demand and does not come to wait.
write-Calm :
    (w : World) (i : ℕ) (x : WaiterState) (woken : List ℕ)
    → x.permits_needed ≡ (w.store.cell i).permits_needed
    → (is_waiting (w.store.cell i) ≡ false → is_waiting x ≡ false)
    → Calm w (record { sem = w.sem; store = write w.store i x; woken = woken })
write-Calm w i x woken same settles = record {
  settled = λ idle j exists. ground (arith, settles, idle j exists);
  one = λ each j exists. ground (arith, same, each j exists);
  flag = refl;
  fewer = omega arith;
}

leave_waker-Calm : (w : World) (i task : ℕ) → Calm w (leave_waker i task w)
unfolding set_waker is_waiting
leave_waker-Calm w i task = write-Calm w i (set_waker (w.store.cell i) task) w.woken refl (λ e. e)

pub cancel_demand : (x : WaiterState) → (Waiter.cancel x).0.permits_needed ≡ x.permits_needed
unfolding Waiter.cancel
cancel_demand x = ground arith

drop-Calm : (w : World) (i : ℕ) → Calm w (Acquire.drop (future_of w i) w)
drop-Calm w i =
    rw (drop-eq (future_of w i) w i refl)
      (write-Calm w i _ _ (cancel_demand (w.store.cell i)) (λ e. (cancel_facts (w.store.cell i)).2))

idle-Calm : (w : World) → Calm w w
idle-Calm w = record { settled = λ h. h; one = λ h. h; flag = refl; fewer = omega arith }

ready-Calm :
    (f : Acquire) (task : ℕ) (w : World) (q : Polled) (p : RankedSemaphorePermit)
    → q.poll ≡ ready p
    → FirstPoll f task w q
    → Calm w q.world
ready-Calm f task w q p e h =
    still-Calm w q.world p.permits (at_once f task w q p e h).0 (ready-Shifts f task w q p e h).1

pub Step-Calm : {s t : System} (x : Step s t) → IsWhole x → Inv s → Calm s.world t.world
Step-Calm {s} (takes n v pos small e) whole i =
    still-Calm s.world _ n refl (try-Shifts s.world n v i.sound pos small e).1
Step-Calm {s} (takes_at_once f g task v p new small room e) whole i =
    subst (Calm s.world) (ap (λ (r : Polled). r.world) e) (
      ready-Calm f task s.world _ p (ap (λ (r : Polled). r.poll) e)
        (poll-FirstPoll f task s.world new small i.sound room))
Step-Calm {s} (enters n p o room) whole i = elim whole [ ]
Step-Calm {s} (leaves_waker j task exists) whole i = leave_waker-Calm s.world j task
Step-Calm {s} (receives j task g v p exists e) whole i =
    let (same, o, le) = receive_facts s.world j task g v p e in rw same (drop-Calm s.world j)
Step-Calm {s} (gives_up j exists) whole i = drop-Calm s.world j
Step-Calm {s} (splits xs ys p p' q n e f) whole i = idle-Calm s.world
Step-Calm {s} (merges xs ys us vs p q p' q' e f g) whole i = idle-Calm s.world
Step-Calm {s} (forgets xs ys p e) whole i = idle-Calm s.world
Step-Calm {s} (drops xs ys p e) whole i = elim whole [ ]
Step-Calm {s} (adds n room) whole i = elim whole [ ]
Step-Calm {s} (goes_on xs ys c e) whole i = elim whole [ ]
Step-Calm {s} (forgets_permits n) whole i =
    still-Calm s.world _ _ refl (forget-Shifts s.world n i.sound)
Step-Calm {s} closes whole i = elim whole [ ]
Step-Calm {s} (cancels o) whole i = elim whole [ ]
