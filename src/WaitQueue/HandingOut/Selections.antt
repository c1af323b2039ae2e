-- ===== src/WaitQueue/HandingOut/Selections.antt =====
-- queue.rs, `select_waiters_to_notify`, where every waiter needs one permit, against the loop along
-- the service order.
use mathlib.Core.List.{append-nil}
use ranked_semaphore.Common.{
  ℕ, ◌+◌, ◌-◌, ◌<◌, ◌≡◌, refl, ap, sym, ◌∙◌, Bool, true, false, not, ◌||◌, Option, none, some, List,
  [], ◌∷◌, ◌++◌, length, ltb, ◌==◌, arith, if◌then◌else◌, Bool-cases, Option-cases, List-cases, inl,
  inr, ◌⊎◌, subst, if_rule,
}
use ranked_semaphore.Common
use ranked_semaphore.Common.Int.{ℤ, eqb_ℤ, eqb_ℤ_iff}
use ranked_semaphore.Waker.Contents.{Holds, Holds-new}
use ranked_semaphore.Waiter.{Store}
use ranked_semaphore.PriorityMap.{PriorityQueues, get, insert, remove, get_mut_or_create}
use ranked_semaphore.PriorityMap.Laws.{get-le-total}
use ranked_semaphore.PriorityHeap
use ranked_semaphore.WaitQueue.{WaitQueue}
use ranked_semaphore.WaitQueue.Invariant.{IsValid}
use ranked_semaphore.WaitQueue.Ready.{member, member-append, Ready, AllReady}
use ranked_semaphore.WaitQueue.Settling.{OneEach, Ready-member}
use ranked_semaphore.WaitQueue.ServiceOrder.{
  Handed, hand_out, hand_out-over, queue_at, clear, service_order, service_order-nobody,
}
use ranked_semaphore.WaitQueue.HandingOut.{Unserved, Follows, serve_single-Follows}
use ranked_semaphore.WaitQueue.HandingOut.Levels.{serve_levels-Follows}
use ranked_semaphore.WaitQueue.Select.{
  Batch, serve_single, Selection, start, finish, select_single, select_multiple, select_by,
  select_waiters_to_notify,
}

-- Each queue is unserved, and holds waiters of its own priority only.
record IsTidy (m : Store) (f : ℤ → List ℕ) : Type 0 where
  unserved : (p : ℤ) → Unserved m (f p)
  owner : (p : ℤ) (i : ℕ) → member i (f p) ≡ true → (m.cell i).priority ≡ p

clear-IsTidy : (m : Store) (f : ℤ → List ℕ) (p : ℤ) → IsTidy m f → IsTidy m (clear p f)
unfolding member
clear-IsTidy m f p t = record {
  unserved = λ r. elim (Bool-cases (eqb_ℤ p r)) [ inl e ↦ rw e tt | inr e ↦ rw e (t.unserved r) ];
  owner =
      λ r i. elim (Bool-cases (eqb_ℤ p r)) [ inl e ↦ rw e (λ at. cc) | inr e ↦ rw e (t.owner r i) ];
}

member-clear :
    (i : ℕ) (p r : ℤ) (f : ℤ → List ℕ)
    → member i (clear p f r) ≡ true
    → (eqb_ℤ p r ≡ false) × (member i (f r) ≡ true)
unfolding member
member-clear i p r f at = elim (Bool-cases (eqb_ℤ p r)) [
  | inl e ↦ absurd (ground arith)
  | inr e ↦ (e, ground arith)
]

-- A waiter in the service order is in the queue of its priority.
in_order :
    (m : Store) (f : ℤ → List ℕ) (i : ℕ) (ps : List ℤ)
    → IsTidy m f
    → member i (service_order ps f) ≡ true
    → member i (f (m.cell i).priority) ≡ true
unfolding service_order member
in_order m f i [] t at = cc
in_order m f i (p ∷ ps) t at = elim (Bool-cases (member i (f p))) [
  | inl e ↦ subst (λ r. member i (f r) ≡ true) (sym (t.owner p i e)) e
  | inr e ↦
      let behind : member i (service_order ps (clear p f)) ≡ true =
        ground (arith, member-append i (f p) (service_order ps (clear p f))) in
      (member-clear i p (m.cell i).priority f
        (in_order m (clear p f) i ps (clear-IsTidy m f p t) behind)).1
]

Unserved-join :
    (m : Store) (xs ys : List ℕ)
    → Unserved m xs
    → Unserved m ys
    → ((i : ℕ) → member i xs ≡ true → member i ys ≡ false)
    → Unserved m (xs ++ ys)
unfolding member
Unserved-join m [] ys u v apart = v
Unserved-join m (x ∷ xs) ys u v apart = (
  u.0,
  u.1,
  ground (arith, u.2, member-append x xs ys, apart x),
  Unserved-join m xs ys u.3 v (λ i e. apart i (ground arith)),
)

order-Unserved :
    (m : Store) (f : ℤ → List ℕ) (ps : List ℤ) → IsTidy m f → Unserved m (service_order ps f)
unfolding service_order member
order-Unserved m f [] t = tt
order-Unserved m f (p ∷ ps) t =
    Unserved-join m (f p) (service_order ps (clear p f)) (t.unserved p)
      (order-Unserved m (clear p f) ps (clear-IsTidy m f p t))
      (λ i e. elim (Bool-cases (member i (service_order ps (clear p f)))) [
        | inl g ↦
            let own = in_order m (clear p f) i ps (clear-IsTidy m f p t) g in
            let (ne, at) = member-clear i p (m.cell i).priority f own in
            absurd (ground (arith, (eqb_ℤ_iff p (m.cell i).priority).1 (sym (t.owner p i e))))
        | inr g ↦ g
      ])

Ready-Unserved : (p : ℤ) (m : Store) (is : List ℕ) → Ready p m is → OneEach m → Unserved m is
Ready-Unserved p m [] r one = tt
Ready-Unserved p m (i ∷ is) r one = (r.2, one i r.0, r.3, Ready-Unserved p m is r.4 one)

queues-IsTidy :
    (queues : PriorityQueues) (m : Store)
    → AllReady queues m
    → OneEach m
    → IsTidy m (queue_at queues)
unfolding get_mut_or_create member
queues-IsTidy queues m all one = record {
  unserved = λ p. elim (Option-cases (get p queues)) [
    | inl e ↦ rw (e, get_mut_or_create) tt
    | inr (is, e) ↦ rw (e, get_mut_or_create) (Ready-Unserved p m is (all p is e) one)
  ];
  owner = λ p i. elim (Option-cases (get p queues)) [
    | inl e ↦ rw (e, get_mut_or_create) (λ at. cc)
    | inr (is, e) ↦ rw (e, get_mut_or_create) (λ at. (Ready-member p m is i (all p is e) at).1)
  ];
}

pub service-Unserved :
    (queues : PriorityQueues) (m : Store) (ps : List ℤ)
    → AllReady queues m
    → OneEach m
    → Unserved m (service_order ps (queue_at queues))
service-Unserved queues m ps all one =
    order-Unserved m (queue_at queues) ps (queues-IsTidy queues m all one)

-- A selection that assigned permits, told tasks and changed waiters as the specification does.
pub record HandsOut (n : ℕ) (s : Selection) (h : Handed) : Type 0 where
  pub store : s.store ≡ h.store
  pub tasks : Holds s.wake_list h.tasks
  pub divided : s.assigned + h.left ≡ n

module _ (q : WaitQueue) (m : Store) (n : ℕ) (v : IsValid q) (all : AllReady q.priority_queues m)
    (one : OneEach m) where
  abbrev order : List ℤ → List ℕ
  order ps = service_order ps (queue_at q.priority_queues)

  tidy : IsTidy m (queue_at q.priority_queues)
  tidy = queues-IsTidy q.priority_queues m all one

  Follows-HandsOut :
      (queues : PriorityQueues) (heap : List ℤ) (b : Batch) (h : Handed)
      → Follows (0 + n) b h
      → HandsOut n (finish q queues heap b) h
  Follows-HandsOut queues heap b h f = record {
    store = f.store;
    tasks = f.held;
    divided = omega (arith, f.divided);
  }

  multiple-HandsOut :
      HandsOut n (select_multiple q (start q m n)) (hand_out (order q.active_priorities) n [] m)
  unfolding select_multiple
  multiple-HandsOut = Follows-HandsOut _ _ _ _ (
      serve_levels-Follows q.active_priorities q.priority_queues (start q m n) [] []
        (order-Unserved m (queue_at q.priority_queues) q.active_priorities tidy) Holds-new)

  start-HandsOut :
      (queues : PriorityQueues) (heap : List ℤ)
      → HandsOut n (finish q queues heap (start q m n)) (record { left = n; tasks = []; store = m })
  start-HandsOut queues heap = record { store = refl; tasks = Holds-new; divided = omega arith }

  one_order : (p : ℤ) (is : List ℕ) → queue_at q.priority_queues p ≡ is → order (p ∷ []) ≡ is
  unfolding service_order
  one_order p is e = append-nil (queue_at q.priority_queues p) ∙ e

  single-HandsOut :
      (p : ℤ) → HandsOut n (select_single q p (start q m n)) (hand_out (order (p ∷ [])) n [] m)
  unfolding select_single get_mut_or_create hand_out
  single-HandsOut p = elim (Option-cases (get p q.priority_queues)) [
    | inl e ↦
        rw (e, select_single, one_order p [] (ground (arith, e)))
          (start-HandsOut q.priority_queues [])
    | inr (is, e) ↦
        let found : queue_at q.priority_queues p ≡ is = ground (arith, e) in
        let rest = (serve_single is (start q m n)).0 in
        let b = (serve_single is (start q m n)).1 in
        let done = λ (queues : PriorityQueues) (heap : List ℤ). Follows-HandsOut queues heap b _ (
          serve_single-Follows is (start q m n) [] (subst (Unserved m) found (tidy.unserved p))
            Holds-new) in
        let removed = remove p q.priority_queues in
        rw (e, select_single, one_order p is found)
          (if_rule (λ s. HandsOut n s (hand_out is n [] m)) (Common.is_empty rest) (done removed [])
            (done (insert p rest removed) (PriorityHeap.push p [])))
  ]

  by-HandsOut :
      (ps : List ℤ)
      → q.active_priorities ≡ ps
      → HandsOut n (select_by ps q (start q m n)) (hand_out (order ps) n [] m)
  unfolding select_by
  by-HandsOut [] e = rw (sym e) multiple-HandsOut
  by-HandsOut (p ∷ []) e = single-HandsOut p
  by-HandsOut (p ∷ r ∷ ps) e = rw (sym e) multiple-HandsOut

  pub nobody_order : q.total_waiters ≡ 0 → order q.active_priorities ≡ []
  nobody_order e = service_order-nobody q.active_priorities (queue_at q.priority_queues) (λ p.
      let (r, f) = get-le-total p q.priority_queues in
      elim (List-cases (queue_at q.priority_queues p)) [
        | inl nil ↦ nil
        | inr (i, is, cons) ↦ absurd (ground (arith, v.counted, f))
      ])

  early :
      (n == 0 || q.total_waiters == 0) ≡ true
      → hand_out (order q.active_priorities) n [] m ≡ record { left = n; tasks = []; store = m }
  unfolding hand_out
  early e = elim (Bool-cases (n == 0)) [
    | inl f ↦ hand_out-over (order q.active_priorities) n [] m (ground arith)
    | inr f ↦ rw (nobody_order (ground arith)) refl
  ]

-- If every waiter needs one permit, then selecting with n permits, on any sound wait queue whatever
-- the strategies, so also on that of a semaphore of `new_fifo` or `new_lifo`, does what one loop
-- along the service order does, the waiters of all active priorities from the highest down, each in
-- the order of its queue: it gives a permit to each that still waits, until the permits are used up
-- or 32 tasks are to be woken. The waiters afterwards, the tasks in the wake list, in their order,
-- and the number of permits assigned are those of that loop.
pub select-HandsOut :
    (q : WaitQueue) (m : Store) (n : ℕ)
    → IsValid q
    → AllReady q.priority_queues m
    → OneEach m
    → HandsOut n
        (select_waiters_to_notify q m n)
        (hand_out (service_order q.active_priorities (queue_at q.priority_queues)) n [] m)
unfolding select_waiters_to_notify
select-HandsOut q m n v all one =
    let by = by-HandsOut q m n v all one q.active_priorities refl in
    elim (Bool-cases (n == 0 || q.total_waiters == 0)) [
      | inl e ↦
          rw (e, early q m n v all one e)
            (start-HandsOut q m n v all one q.priority_queues q.active_priorities)
      | inr e ↦ rw e by
    ]
