-- ===== src/System/Shifts.antt =====
-- What the sections of one thread do to the permits available and those set aside.
use ranked_semaphore.Common.{
  ℕ, zero, suc, ◌+◌, ◌-◌, ◌≤◌, ◌<◌, ◌≡◌, refl, ap, ◌∙◌, sym, false, List, [], ◌∷◌, arith, min,
}
use ranked_semaphore.Common.Int.{ℤ}
use ranked_semaphore.Common.Word.{usize_mod, u32_mod}
use ranked_semaphore.Error.{returns}
use ranked_semaphore.Waiter.{WaiterState, Store, write, is_notified, is_cancelled, set_waker}
use ranked_semaphore.Waiter.Reserved.{reserved, share, reserved-write, reserved-new_handle}
use ranked_semaphore.WaitQueue.{push_waiter}
use ranked_semaphore.WaitQueue.Invariant.{push_waiter-IsValid}
use ranked_semaphore.WaitQueue.Ready.{Ready}
use ranked_semaphore.WaitQueue.Upkeep.{push_waiter-AllReady}
use ranked_semaphore.Semaphore.{
  RankedSemaphore, World, set_word, available_permits, is_closed, forget_permits,
}
use ranked_semaphore.Semaphore.Word.{encode_roundtrip, forget_permits_lem}
use ranked_semaphore.Semaphore.Batches.{IsSound, granted}
use ranked_semaphore.TryAcquire.{ok, try_acquire_many}
use ranked_semaphore.TryAcquire.Outcome.{Attempted, try_acquire_many-Attempted}
use ranked_semaphore.Permit.{RankedSemaphorePermit}
use ranked_semaphore.Acquire
use ranked_semaphore.Acquire.{Acquire, Polled, Poll, poll, ready, quiet, wait}
use ranked_semaphore.Acquire.Outcomes.{FirstPoll, fails, takes, queues}
use ranked_semaphore.Acquire.Dropping.{drop-Dropped}
use ranked_semaphore.System.{future_of, enter, leave_waker}

-- The world stays sound and keeps its flag, and `out` permits leave those available and set aside.
pub record Shifts (out : ℕ) (w v : World) : Type 0 where
  pub sound : IsSound v
  pub flag : is_closed v.permits ≡ is_closed w.permits
  pub sum : granted v + out ≡ granted w

pub word-Shifts :
    (w : World) (n v : ℕ)
    → IsSound w
    → is_closed v ≡ is_closed w.permits
    → available_permits v + n ≡ available_permits w.permits
    → Shifts n w (set_word w v)
unfolding granted available_permits
word-Shifts w n v s flag sum = record {
  sound = record { valid = s.valid; ready = s.ready; word = omega (arith, s.word) };
  flag = flag;
  sum = omega arith;
}

-- `try_acquire_many` succeeds on an open semaphore.
pub try-Shifts :
    (w : World) (n v : ℕ)
    → IsSound w
    → 0 < n
    → n < u32_mod
    → try_acquire_many n w.permits [] ≡ returns (ok n, v)
    → (is_closed w.permits ≡ false) × Shifts n w (set_word w v)
unfolding Attempted
try-Shifts w n v s pos small e =
    let a = try_acquire_many-Attempted n w.permits (ok n, v) pos small e in
    (a.1, word-Shifts w n v s (a.2 ∙ sym a.1) a.3)

pub ready-Shifts :
    (f : Acquire) (task : ℕ) (w : World) (q : Polled) (p : RankedSemaphorePermit)
    → q.poll ≡ ready p
    → FirstPoll f task w q
    → (is_closed w.permits ≡ false) × Shifts p.permits w q.world
unfolding granted
ready-Shifts f task w q p e (fails c) = cc
ready-Shifts f task w q p e (takes v s o o' sum same queue) =
    let e' : f.permits_needed ≡ p.permits = ground arith in
    (o, record { sound = s; flag = o' ∙ sym o; sum = omega (arith, ap reserved same) })
ready-Shifts f task w q p e (queues i v a b c d g h k l m) = cc

-- A write to a waiter that keeps its priority and whether it is notified.
Ready-keep :
    (p : ℤ) (m : Store) (is : List ℕ) (i : ℕ) (x : WaiterState)
    → x.priority ≡ (m.cell i).priority
    → is_notified x ≡ is_notified (m.cell i)
    → Ready p m is
    → Ready p (write m i x) is
Ready-keep p m [] i x e f r = tt
Ready-keep p m (j ∷ is) i x e f r = ground (arith, Ready-keep p m is i x e f r.4)

set_waker_facts :
    (x : WaiterState) (task : ℕ)
    → ((set_waker x task).priority ≡ x.priority)
      × (is_notified (set_waker x task) ≡ is_notified x)
      × (share (set_waker x task) ≡ share x)
unfolding set_waker is_notified share
set_waker_facts x task = ground arith

pub leave_waker-Shifts :
    (w : World) (i task : ℕ) → IsSound w → i < w.store.next → Shifts 0 w (leave_waker i task w)
unfolding granted
leave_waker-Shifts w i task s exists =
    let x = set_waker (w.store.cell i) task in
    let facts = set_waker_facts (w.store.cell i) task in
    record {
      sound = record {
        valid = s.valid;
        ready = λ p is g. Ready-keep p w.store is i x facts.0 facts.1 (s.ready p is g);
        word = s.word;
      };
      flag = refl;
      sum = omega (arith, reserved-write w.store i x exists, facts.2);
    }

pub enter-Shifts :
    (w : World) (n : ℕ) (p : ℤ)
    → IsSound w
    → w.waiters.total_waiters + 1 < usize_mod
    → Shifts 0 w (enter n p w)
unfolding granted push_waiter
enter-Shifts w n p s room = record {
  sound = record {
    valid = push_waiter-IsValid w.waiters w.store n p s.valid room;
    ready = push_waiter-AllReady w.waiters w.store n p s.ready;
    word = s.word;
  };
  flag = refl;
  sum = omega (arith, reserved-new_handle w.store n p);
}

pub drop-Shifts :
    (w : World) (i : ℕ)
    → IsSound w
    → i < w.store.next
    → Shifts (share (w.store.cell i)) w (Acquire.drop (future_of w i) w)
drop-Shifts w i s exists =
    let d = drop-Dropped (future_of w i) w i refl exists s in
    record {
      sound = d.sound;
      flag = ap (λ (r : RankedSemaphore). is_closed r.permits) d.same_sem;
      sum = d.lost;
    }

-- A poll of a queued future that is ready found its waiter notified, on an open semaphore.
pub receive_facts :
    (w : World) (i task : ℕ) (g : Acquire) (v : World) (p : RankedSemaphorePermit)
    → poll (future_of w i) task quiet w ≡ record { future = g; world = v; poll = ready p }
    → (v ≡ w) × (is_closed w.permits ≡ false) × (p.permits ≤ share (w.store.cell i))
unfolding poll wait share is_notified is_cancelled
receive_facts w i task g v p e = (ground arith, ground arith, ground arith)

forget_some :
    (n w : ℕ)
    → 0 < n
    → w < usize_mod
    → (is_closed (forget_permits n w []).1 ≡ is_closed w)
      × (available_permits (forget_permits n w []).1 + (forget_permits n w []).0
          ≡ available_permits w)
forget_some n w pos small =
    let taken = min (available_permits w) n in
    let back = encode_roundtrip w (available_permits w - taken) (is_closed w) in
    rw (forget_permits_lem n w [] pos small) (back.2, omega (arith, back.1))

-- `forget_permits` takes what it reports off the word.
forget_facts :
    (n w : ℕ)
    → w < usize_mod
    → (is_closed (forget_permits n w []).1 ≡ is_closed w)
      × (available_permits (forget_permits n w []).1 + (forget_permits n w []).0
          ≡ available_permits w)
unfolding forget_permits
forget_facts zero w small = (refl, omega arith)
forget_facts (suc n) w small = forget_some (suc n) w (omega arith) small

pub forget-Shifts :
    (w : World) (n : ℕ)
    → IsSound w
    → Shifts (forget_permits n w.permits []).0 w (set_word w (forget_permits n w.permits []).1)
forget-Shifts w n s =
    let (flag, sum) = forget_facts n w.permits s.word in word-Shifts w _ _ s flag sum
