-- ===== src/System/Quiet.antt =====
-- Steps that make no waiter wait and notify none: what they leave as it was.
use ranked_semaphore.Common.{
  ℕ, ◌≤◌, ◌<◌, ◌≡◌, refl, ap, sym, false, ◌==◌, arith, Bool-cases, inl, inr, subst, if_rule,
}
use ranked_semaphore.Common.Int.{ℤ}
use ranked_semaphore.Waiter
use ranked_semaphore.Waiter.{
  WaiterState, Store, write, is_waiting, is_notified, set_waker, try_notify, take_waker_under_lock,
}
use ranked_semaphore.PriorityMap.{drain_all_waiters}
use ranked_semaphore.WaitQueue
use ranked_semaphore.WaitQueue.{push_waiter}
use ranked_semaphore.Semaphore.{World, close_queue}
use ranked_semaphore.Semaphore.Closing.{cancel_all-cell}
use ranked_semaphore.Acquire.Dropping.{cancel_facts}
use ranked_semaphore.System.{enter}
use ranked_semaphore.System.Queued.{cancel_all-next}
use ranked_semaphore.System.InTurn.{pushed_store}

-- One waiter, before and after: its demand and its priority stay, and it comes neither to wait nor
-- to be notified.
pub record Quiet (x y : WaiterState) : Type 0 where
  pub needs : y.permits_needed ≡ x.permits_needed
  pub rank : y.priority ≡ x.priority
  pub waits : is_waiting x ≡ false → is_waiting y ≡ false
  pub told : is_notified x ≡ false → is_notified y ≡ false

itself : (x : WaiterState) → Quiet x x
itself x = record { needs = refl; rank = refl; waits = λ e. e; told = λ e. e }

pub cancel-Quiet : (x : WaiterState) → Quiet x (Waiter.cancel x).0
unfolding Waiter.cancel
cancel-Quiet x =
    let facts = cancel_facts x in
    record { needs = ground arith; rank = facts.0; waits = λ e. facts.2; told = λ e. facts.1 }

pub waker-Quiet : (x : WaiterState) (task : ℕ) → Quiet x (set_waker x task)
unfolding set_waker is_waiting is_notified
waker-Quiet x task = record { needs = refl; rank = refl; waits = λ e. e; told = λ e. e }

-- All waiters that exist, before and after.
pub record Aside (m m' : Store) : Type 0 where
  pub most : m.next ≤ m'.next
  pub quiet : (k : ℕ) → k < m.next → Quiet (m.cell k) (m'.cell k)

pub same-Aside : (m m' : Store) → m' ≡ m → Aside m m'
same-Aside m m' e = record {
  most = omega (arith, ap (λ (s : Store). s.next) e);
  quiet = λ k below. rw e (itself (m.cell k));
}

pub write-Aside : (m : Store) (k : ℕ) (x : WaiterState) → Quiet (m.cell k) x → Aside m (write m k x)
write-Aside m k x h = record {
  most = omega arith;
  quiet = λ l below. elim (Bool-cases (k == l)) [
    | inl e ↦ let here : k ≡ l = ground arith in rw e (subst (λ o. Quiet (m.cell o) x) here h)
    | inr e ↦ rw e (itself (m.cell l))
  ];
}

pub enter-Aside : (w : World) (n : ℕ) (p : ℤ) → Aside w.store (enter n p w).store
enter-Aside w n p =
    let old = pushed_store w n p in
    record {
      most = omega (arith, old.next);
      quiet = λ k below.
          subst (Quiet (w.store.cell k)) (sym (old.cell k below)) (itself (w.store.cell k));
    }

pub close-Aside : (w : World) → Aside w.store (close_queue w).store
unfolding close_queue WaitQueue.close
close-Aside w =
    let drained = drain_all_waiters w.waiters.priority_queues in
    record {
      most = omega (arith, cancel_all-next drained w.store);
      quiet = λ k below.
          let x = w.store.cell k in
          subst (Quiet x) (sym (cancel_all-cell drained w.store k))
            (if_rule (Quiet x) _ (cancel-Quiet x) (itself x));
    }
