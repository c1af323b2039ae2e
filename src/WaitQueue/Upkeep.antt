-- ===== src/WaitQueue/Upkeep.antt =====
-- queue.rs and waiter.rs, the operations other than the selection: the queued waiters.
use ranked_semaphore.Common.{
  ℕ, ◌≤◌, ◌≡◌, refl, false, ◌||◌, Option, some, none, List, [], ◌∷◌, ◌++◌, ◌==◌, arith, Bool-cases,
  inl, inr, subst,
}
use ranked_semaphore.Common.Int.{ℤ, eqb_ℤ, eqb_ℤ_iff}
use ranked_semaphore.Config.{QueueStrategy, fifo, lifo, resolve_strategy}
use ranked_semaphore.Waiter
use ranked_semaphore.Waiter.{WaiterState, Store, write, is_notified, new_handle}
use ranked_semaphore.PriorityMap.{PriorityQueues, get, insert, get_mut_or_create}
use ranked_semaphore.PriorityMap.Laws.{get-insert}
use ranked_semaphore.WaitQueue.{WaitQueue, enqueue, insert_waiter_optimized, push_waiter}
use ranked_semaphore.WaitQueue.Ready.{member, Ready, AllReady}

-- A write that keeps the priority, and after which the waiter is not notified, leaves every queue
-- ready.
pub Ready-rewrite :
    (p : ℤ) (m : Store) (is : List ℕ) (i : ℕ) (w : WaiterState)
    → w.priority ≡ (m.cell i).priority
    → is_notified w ≡ false
    → Ready p m is
    → Ready p (write m i w) is
Ready-rewrite p m [] i w e f r = tt
Ready-rewrite p m (j ∷ is) i w e f r = ground (arith, Ready-rewrite p m is i w e f r.4)

fresh-member :
    (p : ℤ) (m : Store) (is : List ℕ) (i : ℕ) → m.next ≤ i → Ready p m is → member i is ≡ false
unfolding member
fresh-member p m [] i h r = refl
fresh-member p m (j ∷ is) i h r = ground (arith, fresh-member p m is i h r.4)

Ready-new_handle :
    (p q : ℤ) (m : Store) (needed : ℕ) (is : List ℕ)
    → Ready p m is
    → Ready p (new_handle m needed q).1 is
unfolding new_handle
Ready-new_handle p q m needed [] r = tt
Ready-new_handle p q m needed (j ∷ is) r = ground (arith, Ready-new_handle p q m needed is r.4)

member-snoc : (i j : ℕ) (is : List ℕ) → member i (is ++ j ∷ []) ≡ (j == i || member i is)
unfolding member
member-snoc i j [] = refl
member-snoc i j (k ∷ is) = ground (arith, member-snoc i j is)

Ready-snoc :
    (p : ℤ) (m : Store) (is : List ℕ) (i : ℕ)
    → Ready p m is
    → Ready p m (i ∷ [])
    → member i is ≡ false
    → Ready p m (is ++ i ∷ [])
unfolding member
Ready-snoc p m [] i r one out = one
Ready-snoc p m (j ∷ is) i r one out =
    ground (arith, Ready-snoc p m is i r.4 one, member-snoc j i is)

Ready-enqueue :
    (s : QueueStrategy) (p : ℤ) (m : Store) (is : List ℕ) (i : ℕ)
    → Ready p m is
    → Ready p m (i ∷ [])
    → member i is ≡ false
    → Ready p m (enqueue s i is)
Ready-enqueue fifo p m is i r one out = Ready-snoc p m is i r one out
Ready-enqueue lifo p m is i r one out = (one.0, one.1, one.2, out, r)

module _ (queues : PriorityQueues) (m : Store) (needed : ℕ) (p : ℤ) (all : AllReady queues m) where
  found-Ready :
      (o : Option (List ℕ)) → get p queues ≡ o → Ready p m (elim o [ none ↦ [] | some is ↦ is ])
  found-Ready none e = tt
  found-Ready (some is) e = all p is e

  old-Ready : Ready p m (get_mut_or_create p queues)
  unfolding get_mut_or_create
  old-Ready = found-Ready (get p queues) refl

  one-Ready : Ready p (new_handle m needed p).1 (m.next ∷ [])
  unfolding new_handle Waiter.new is_notified member
  one-Ready = ground arith

  enqueued-Ready :
      (s : QueueStrategy)
      → Ready p (new_handle m needed p).1 (enqueue s m.next (get_mut_or_create p queues))
  enqueued-Ready s =
      Ready-enqueue s p _ _ m.next (Ready-new_handle p p m needed _ old-Ready) one-Ready
        (fresh-member p m _ m.next (omega arith) old-Ready)

  inserted-AllReady :
      (s : QueueStrategy)
      → AllReady
          (insert p (enqueue s m.next (get_mut_or_create p queues)) queues)
          (new_handle m needed p).1
  inserted-AllReady s q js e = elim (Bool-cases (eqb_ℤ p q)) [
    | inl same ↦
        let f : enqueue s m.next (get_mut_or_create p queues) ≡ js =
          ground (arith, get-insert q p (enqueue s m.next (get_mut_or_create p queues)) queues) in
        let g : p ≡ q = (eqb_ℤ_iff p q).0 same in
        subst (λ is. Ready q (new_handle m needed p).1 is) f
          (subst
            (λ t. Ready t (new_handle m needed p).1 (enqueue s m.next (get_mut_or_create p queues)))
            g (enqueued-Ready s))
    | inr other ↦ Ready-new_handle q p m needed js (
        all q js
          (ground (arith, get-insert q p (enqueue s m.next (get_mut_or_create p queues)) queues)))
  ]

pub push_waiter-AllReady :
    (q : WaitQueue) (m : Store) (needed : ℕ) (p : ℤ)
    → AllReady q.priority_queues m
    → AllReady (push_waiter q m needed p).1.priority_queues (push_waiter q m needed p).2
unfolding push_waiter insert_waiter_optimized new_handle
push_waiter-AllReady q m needed p all =
    inserted-AllReady q.priority_queues m needed p all (resolve_strategy q.config p)
