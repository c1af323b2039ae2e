-- ===== src/Semaphore/Waking.antt =====
-- core.rs and queue.rs: which tasks a call of `add_permits` wakes.
use ranked_semaphore.Common.{
  ℕ, suc, ◌<◌, ◌≡◌, true, false, ◌||◌, Option, none, some, ◌++◌, ltb, ◌==◌, arith, Bool-cases, inl,
  inr, if_rule, List-cases,
}
use ranked_semaphore.Waker
use ranked_semaphore.Waker.{WakeList, can_push, push, push_unchecked}
use ranked_semaphore.Waker.Contents.{wake_all-Holds}
use ranked_semaphore.Waiter.{WaiterState, is_notified, is_waiting}
use ranked_semaphore.WaitQueue
use ranked_semaphore.WaitQueue.{WaitQueue}
use ranked_semaphore.WaitQueue.Ready.{member}
use ranked_semaphore.WaitQueue.Telling.{member-append_right, Tells, Told, select-Tells}
use ranked_semaphore.WaitQueue.Select.{Selection, select_waiters_to_notify}
use ranked_semaphore.Error.{Exit}
use ranked_semaphore.Semaphore.{World, is_closed}
use ranked_semaphore.Semaphore.Batches.{wake_all_not_full}
use ranked_semaphore.Semaphore.Release.{
  Leaves, leaves, returns_early, release_loop, add_remaining, finish_release, add_permits_locked,
  add_permits,
}

idle-not_notified : (x : WaiterState) → is_waiting x ≡ true → is_notified x ≡ false
unfolding is_waiting is_notified
idle-not_notified x e = ground arith

-- If the waiter `i` was notified, the task `t` was woken.
abbrev pub Heard : ℕ → ℕ → World → Type 0
Heard i t v = is_notified (v.store.cell i) ≡ true → member t v.woken ≡ true

-- `add_permits` has ended, and the task was woken if its waiter was notified.
abbrev pub Wakes : ℕ → ℕ → Option (World × Exit (Unit {0})) → Type 0
Wakes i t none = ⊥
Wakes i t (some (v, e)) = Heard i t v

LoopHeard : ℕ → ℕ → Option Leaves → Type 0
LoopHeard i t none = ⊥
LoopHeard i t (some (returns_early v)) = ⊥
LoopHeard i t (some (leaves rem v)) = Heard i t v

module _ (n i t : ℕ) (w : World) (o : is_closed w.permits ≡ false)
    (idle : is_waiting (w.store.cell i) ≡ true) (set : (w.store.cell i).waker.waker ≡ some t)
    (needs : 0 < (w.store.cell i).permits_needed) where
  abbrev chosen : Selection
  chosen = select_waiters_to_notify w.waiters w.store n

  tells : Tells i t w.store idle set needs chosen.store chosen.wake_list chosen.assigned
  tells = select-Tells i t w.store idle set needs w.waiters n

  told_when_notified :
      is_notified (chosen.store.cell i) ≡ true
      → (0 < chosen.assigned) × (member t tells.wakers ≡ true)
  unfolding Told
  told_when_notified e = elim tells.told [
    | inl same ↦ absurd (ground (arith, idle-not_notified (w.store.cell i) idle))
    | inr known ↦ known
  ]

  -- Nobody is passed over when the loop stops for want of wakers.
  quiet_stop :
      (chosen.assigned == 0 || Waker.is_empty chosen.wake_list) ≡ true
      → is_notified (chosen.store.cell i) ≡ false
  unfolding Waker.is_empty member
  quiet_stop stops = elim (Bool-cases (is_notified (chosen.store.cell i))) [
    | inl e ↦
        let (pos, known) = told_when_notified e in
        absurd (elim (List-cases tells.wakers) [
          | inl nil ↦ ground arith
          | inr (k, ks, cons) ↦ ground (arith, tells.held.counted)
        ])
    | inr e ↦ e
  ]

  woken_batch :
      is_notified (chosen.store.cell i) ≡ true
      → member t (w.woken ++ (Waker.wake_all chosen.wake_list).1) ≡ true
  woken_batch e =
      rw (wake_all-Holds chosen.wake_list tells.wakers tells.held)
        (member-append_right t w.woken tells.wakers (told_when_notified e).1)

  unheard : (rem : ℕ) → LoopHeard i t (some (leaves rem w))
  unfolding LoopHeard
  unheard rem e = absurd (ground (arith, idle-not_notified (w.store.cell i) idle))

  release_loop-LoopHeard : (fuel : ℕ) → LoopHeard i t (release_loop (suc fuel) n w)
  unfolding release_loop LoopHeard
  release_loop-LoopHeard fuel =
      rw (o, wake_all_not_full chosen.wake_list)
        (if_rule (LoopHeard i t) (n == 0) (unheard n) (
          if_rule (LoopHeard i t) (WaitQueue.is_empty w.waiters) (unheard n)
            (elim (Bool-cases (chosen.assigned == 0 || Waker.is_empty chosen.wake_list)) [
              | inl e ↦ rw e (λ f. ground (arith, quiet_stop e))
              | inr e ↦ rw e woken_batch
            ])))

finish-Wakes :
    (i t : ℕ) (l : Option Leaves)
    → LoopHeard i t l
    → Wakes i t (elim l [ none ↦ none | some x ↦ some (finish_release x) ])
unfolding LoopHeard finish_release add_remaining
finish-Wakes i t none h = elim h [ ]
finish-Wakes i t (some (returns_early v)) h = elim h [ ]
finish-Wakes i t (some (leaves rem v)) h =
    if_rule (λ (r : World × Exit (Unit {0})). Heard i t r.0) (ltb 0 rem) h h

-- If a waiter waits with the waker of a task `t` and needs a permit, then `add_permits(n)` on an
-- open semaphore ends, and if it has notified that waiter, the task `t` is woken.
pub add_permits-Wakes :
    (fuel n i t : ℕ) (w : World)
    → is_closed w.permits ≡ false
    → is_waiting (w.store.cell i) ≡ true
    → (w.store.cell i).waker.waker ≡ some t
    → 0 < (w.store.cell i).permits_needed
    → Wakes i t (add_permits (suc fuel) n w)
unfolding add_permits add_permits_locked
add_permits-Wakes fuel n i t w o idle set needs =
    let quiet : Heard i t w =
      λ e. absurd (ground (arith, idle-not_notified (w.store.cell i) idle)) in
    if_rule (Wakes i t) (n == 0) quiet
      (finish-Wakes i t _ (release_loop-LoopHeard n i t w o idle set needs fuel))
