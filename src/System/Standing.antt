-- ===== src/System/Standing.antt =====
-- Where a task stands that waits: what holds of it in every state of the system of threads.
use ranked_semaphore.Common.{
  ℕ, ◌<◌, ◌≡◌, sym, true, List, [], ◌∷◌, arith, Bool-cases, Option-cases, List-cases, inl, inr,
  subst,
}
use ranked_semaphore.Config.{PriorityConfig}
use ranked_semaphore.Common.Int.{ℤ, eqb_ℤ, eqb_ℤ_iff}
use ranked_semaphore.Waiter.{is_waiting}
use ranked_semaphore.PriorityMap.{PriorityQueues, get, get_mut_or_create, has_non_empty_queue}
use ranked_semaphore.PriorityHeap.Laws.{contains}
use ranked_semaphore.WaitQueue.Ready.{member, member-append}
use ranked_semaphore.WaitQueue.ServiceOrder.{queue_at, clear, service_order}
use ranked_semaphore.Semaphore.{World}
use ranked_semaphore.Semaphore.Batches.{IsSound}
use ranked_semaphore.System.{System, Reach, start, later}
use ranked_semaphore.System.Conservation.{reach-Inv}
use ranked_semaphore.System.Stepping.{Kept, Step-Kept}
use ranked_semaphore.System.Queued.{
  AllQueued, word-AllQueued, advance-AllQueued, leave_waker-AllQueued, drop-AllQueued,
  enter-AllQueued, close-AllQueued,
}

AllQueued-Kept : Kept AllQueued
AllQueued-Kept = record {
  by_word = word-AllQueued;
  by_enter = enter-AllQueued;
  by_waker = leave_waker-AllQueued;
  by_drop = drop-AllQueued;
  by_advance = advance-AllQueued;
  by_close = close-AllQueued;
}

pub reach-AllQueued :
    {permits : ℕ} {config : PriorityConfig} {s : System}
    → Reach permits config s
    → AllQueued s.world
reach-AllQueued (start sem e) = record { queued = λ i exists waits. absurd (omega arith) }
reach-AllQueued (later r st) =
    Step-Kept AllQueued AllQueued-Kept st (reach-Inv r) (reach-AllQueued r)

-- The service order has every waiter of a priority in it.
in_service_order :
    (i : ℕ) (p : ℤ) (ps : List ℤ) (f : ℤ → List ℕ)
    → contains p ps ≡ true
    → member i (f p) ≡ true
    → member i (service_order ps f) ≡ true
unfolding service_order contains
in_service_order i p [] f c at = cc
in_service_order i p (q ∷ ps) f c at = elim (Bool-cases (eqb_ℤ q p)) [
  | inl e ↦
      let here : member i (f q) ≡ true =
        subst (λ r. member i (f r) ≡ true) (sym ((eqb_ℤ_iff q p).0 e)) at in
      ground (arith, member-append i (f q) (service_order ps (clear q f)))
  | inr e ↦
      let rest = in_service_order i p ps (clear q f) (ground arith) (rw e at) in
      ground (arith, member-append i (f q) (service_order ps (clear q f)))
]

has_queue :
    (i : ℕ) (p : ℤ) (m : PriorityQueues)
    → member i (queue_at m p) ≡ true
    → has_non_empty_queue p m ≡ true
unfolding get_mut_or_create has_non_empty_queue member
has_queue i p m at = elim (Option-cases (get p m)) [
  | inl e ↦ absurd (ground arith)
  | inr (is, e) ↦ elim (List-cases is) [
    | inl nil ↦ absurd (ground arith)
    | inr (x, xs, cons) ↦ ground arith
  ]
]

pub waiting-standing :
    (w : World) (i : ℕ)
    → IsSound w
    → AllQueued w
    → i < w.store.next
    → is_waiting (w.store.cell i) ≡ true
    → member i (service_order w.waiters.active_priorities (queue_at w.waiters.priority_queues))
      ≡ true
waiting-standing w i s all exists waits =
    let q = w.waiters in
    let p = (w.store.cell i).priority in
    let at = all.queued i exists waits in
    in_service_order i p q.active_priorities (queue_at q.priority_queues)
      (s.valid.covered p (has_queue i p q.priority_queues at)) at

-- In every state that threads can come to from a semaphore just made, open or closed, every waiter
-- that waits is in the queue of its own priority, that priority is active, and so the waiter stands
-- in the service order of the wait queue, which goes over the queues of the active priorities.
pub reach-standing :
    {permits : ℕ} {config : PriorityConfig} {s : System} (i : ℕ)
    → Reach permits config s
    → i < s.world.store.next
    → is_waiting (s.world.store.cell i) ≡ true
    → let q = s.world.waiters in
      let p = (s.world.store.cell i).priority in
      (member i (queue_at q.priority_queues p) ≡ true)
      × (contains p q.active_priorities ≡ true)
      × (member i (service_order q.active_priorities (queue_at q.priority_queues)) ≡ true)
reach-standing {permits} {config} {s} i r exists waits =
    let q = s.world.waiters in
    let p = (s.world.store.cell i).priority in
    let all = reach-AllQueued r in
    let sound = (reach-Inv r).sound in
    let at = all.queued i exists waits in
    (
      at,
      sound.valid.covered p (has_queue i p q.priority_queues at),
      waiting-standing s.world i sound all exists waits,
    )
