-- ===== src/System/Queued.antt =====
-- That no waiting task gets lost: where the waiters stand that wait.
use ranked_semaphore.WaitQueue.Hashing.Drained.{member-drained}
use ranked_semaphore.Common.{
  ℕ, ◌<◌, ◌≡◌, refl, sym, ◌∙◌, true, ◌||◌, List, [], ◌∷◌, ◌==◌, arith, Bool-cases, inl, inr, ◌⊎◌,
  subst,
}
use ranked_semaphore.Common.Int.{ℤ, eqb_ℤ, eqb_ℤ_iff}
use ranked_semaphore.Waiter
use ranked_semaphore.Waiter.{
  WaiterState, Store, write, is_waiting, try_notify, take_waker_under_lock, set_waker, new_handle,
}
use ranked_semaphore.PriorityMap.{get_mut_or_create, drain_all_waiters}
use ranked_semaphore.Config.{QueueStrategy, fifo, lifo, resolve_strategy}
use ranked_semaphore.WaitQueue
use ranked_semaphore.WaitQueue.{
  WaitQueue, cancel_all, enqueue, insert_waiter_optimized, push_waiter,
}
use ranked_semaphore.WaitQueue.Ready.{member, member-append}
use ranked_semaphore.WaitQueue.Rules.{Keeps}
use ranked_semaphore.WaitQueue.Selected.{select-keeps}
use ranked_semaphore.WaitQueue.Remaining.{select-Remains, queue_at-insert}
use ranked_semaphore.WaitQueue.ServiceOrder.{queue_at}
use ranked_semaphore.WaitQueue.Select.{serve, discard, select_waiters_to_notify}
use ranked_semaphore.Semaphore.{World, close_queue}
use ranked_semaphore.Semaphore.Batches.{IsSound}
use ranked_semaphore.Semaphore.Sections.{Call, locking, selected, adding, advance}
use ranked_semaphore.Semaphore.Release.{add_remaining}
use ranked_semaphore.Acquire
use ranked_semaphore.Acquire.Dropping.{cancel_facts, drop-eq}
use ranked_semaphore.Semaphore.Closing.{cancel_all-cell}
use ranked_semaphore.System.{enter, leave_waker, future_of}

-- Every waiter that waits is in the queue of its priority.
pub record AllQueued (w : World) : Type 0 where
  pub queued :
      (i : ℕ)
      → i < w.store.next
      → is_waiting (w.store.cell i) ≡ true
      → member i (queue_at w.waiters.priority_queues (w.store.cell i).priority) ≡ true

-- The waiters of `m'` are those of `m`, and who waits in `m'` waited in `m`.
pub record Aged (m m' : Store) : Type 0 where
  pub same_waiters : m'.next ≡ m.next
  pub priority : (i : ℕ) → (m'.cell i).priority ≡ (m.cell i).priority
  pub waited : (i : ℕ) → is_waiting (m'.cell i) ≡ true → is_waiting (m.cell i) ≡ true

Aged-Keeps : (m : Store) → Keeps (λ is b. Aged m b.store)
unfolding discard serve try_notify take_waker_under_lock is_waiting
Aged-Keeps m = record {
  by_discard = λ i is b c h. h;
  by_serve = λ i is b r c le h. record {
    same_waiters = h.same_waiters;
    priority = λ j. ground (arith, h.priority j);
    waited = λ j e. h.waited j (ground arith);
  };
}

pub select-Aged :
    (q : WaitQueue) (m : Store) (n : ℕ) → Aged m (select_waiters_to_notify q m n).store
select-Aged q m n =
    select-keeps (λ s l a. Aged m s) (Aged-Keeps m) q m n
      (record { same_waiters = refl; priority = λ i. refl; waited = λ i e. e })

-- A selection.
select-AllQueued :
    (w : World) (n : ℕ)
    → IsSound w
    → AllQueued w
    → let s = select_waiters_to_notify w.waiters w.store n in
      AllQueued (record {
        sem = record { permits = w.permits; waiters = s.queue };
        store = s.store;
        woken = w.woken;
      })
select-AllQueued w n s all = record {
  queued = λ i exists waits.
      let a = select-Aged w.waiters w.store n in
      let before = all.queued i (omega (arith, a.same_waiters)) (a.waited i waits) in
      elim (select-Remains i (w.store.cell i).priority w.waiters w.store n s.valid.unique before) [
        | inl done ↦ absurd (ground arith)
        | inr at ↦ rw (a.priority i) at
      ];
}

-- Steps that leave the waiters and the queue alone.
pub word-AllQueued :
    (w v : World) → v.store ≡ w.store → v.waiters ≡ w.waiters → AllQueued w → AllQueued v
word-AllQueued w v e f all = record { queued = rw (e, f) all.queued }

-- The section under the lock selects, or leaves the world alone.
pub locked :
    (rem : ℕ) (w : World)
    → let s = select_waiters_to_notify w.waiters w.store rem in
      ((advance (locking rem) w).0 ≡ w)
      ⊎ ((advance (locking rem) w).0 ≡ record {
        sem = record { permits = w.permits; waiters = s.queue };
        store = s.store;
        woken = w.woken;
      })
unfolding advance
locked rem w = elim (Bool-cases (rem == 0)) [
  | inl e ↦ inl (rw e refl)
  | inr e ↦ elim (Bool-cases (WaitQueue.is_empty w.waiters)) [
    | inl f ↦ inl (rw (e, f) refl)
    | inr f ↦ inr (ground (arith, e, f))
  ]
]

pub advance-AllQueued : (c : Call) (w : World) → IsSound w → AllQueued w → AllQueued (advance c w).0
unfolding advance add_remaining
advance-AllQueued (locking rem) w s all = elim (locked rem w) [
  | inl e ↦ subst AllQueued (sym e) all
  | inr e ↦ subst AllQueued (sym e) (select-AllQueued w rem s all)
]
advance-AllQueued (selected rem assigned l) w s all =
    word-AllQueued w _ (ground arith) (ground arith) all
advance-AllQueued (adding rem) w s all = word-AllQueued w _ (ground arith) (ground arith) all

-- A waiter is changed that keeps its priority and does not come to wait.
write-AllQueued :
    (w : World) (i : ℕ) (x : WaiterState) (woken : List ℕ)
    → x.priority ≡ (w.store.cell i).priority
    → (is_waiting x ≡ true → is_waiting (w.store.cell i) ≡ true)
    → AllQueued w
    → AllQueued (record { sem = w.sem; store = write w.store i x; woken = woken })
write-AllQueued w i x woken same waited all = record {
  queued = λ j exists waits. elim (Bool-cases (i == j)) [
    | inl e ↦
        let f : i ≡ j = ground arith in
        let now : (write w.store i x).cell j ≡ x = ground (arith, e) in
        rw (now, same)
          (subst
            (λ k. member k (queue_at w.waiters.priority_queues (w.store.cell i).priority) ≡ true) f
            (all.queued i (omega (arith, f)) (waited (subst (λ y. is_waiting y ≡ true) now waits))))
    | inr e ↦
        let now : (write w.store i x).cell j ≡ w.store.cell j = ground (arith, e) in
        rw now (all.queued j exists (subst (λ y. is_waiting y ≡ true) now waits))
  ];
}

waker_kept :
    (x : WaiterState) (task : ℕ)
    → ((set_waker x task).priority ≡ x.priority) × (is_waiting (set_waker x task) ≡ is_waiting x)
unfolding set_waker is_waiting
waker_kept x task = ground arith

pub leave_waker-AllQueued :
    (w : World) (i task : ℕ) → AllQueued w → AllQueued (leave_waker i task w)
leave_waker-AllQueued w i task all =
    let kept = waker_kept (w.store.cell i) task in
    write-AllQueued w i (set_waker (w.store.cell i) task) w.woken kept.0 (λ e. sym kept.1 ∙ e) all

pub drop-AllQueued : (w : World) (i : ℕ) → AllQueued w → AllQueued (Acquire.drop (future_of w i) w)
drop-AllQueued w i all =
    let facts = cancel_facts (w.store.cell i) in
    rw (drop-eq (future_of w i) w i refl) (write-AllQueued w i _ _ facts.0 (λ e. cc) all)

-- Where the queue of a priority holds one more waiter.
enqueue-member :
    (s : QueueStrategy) (i j : ℕ) (is : List ℕ)
    → member i (enqueue s j is) ≡ (j == i || member i is)
unfolding member
enqueue-member fifo i j is = ground (arith, member-append i is (j ∷ []))
enqueue-member lifo i j is = refl

-- The queue of the priority `p` with the newcomer.
abbrev entered : World → ℤ → List ℕ
entered w p =
    enqueue (resolve_strategy w.waiters.config p) w.store.next
      (get_mut_or_create p w.waiters.priority_queues)

pub enter-AllQueued : (w : World) (n : ℕ) (p : ℤ) → AllQueued w → AllQueued (enter n p w)
unfolding push_waiter insert_waiter_optimized new_handle Waiter.new
enter-AllQueued w n p all = record {
  queued = λ i exists. elim (Bool-cases (w.store.next == i)) [
    | inl e ↦
        rw (e, queue_at-insert p p (entered w p) w.waiters.priority_queues, (eqb_ℤ_iff p p).1 refl)
          (λ waits.
            rw
              (
                enqueue-member (resolve_strategy w.waiters.config p) i w.store.next
                    (queue_at w.waiters.priority_queues p),
                e,
              )
              refl)
    | inr e ↦ rw e (λ waits.
        let at = all.queued i (ground arith) waits in
        rw (queue_at-insert (w.store.cell i).priority p (entered w p) w.waiters.priority_queues)
          (elim (Bool-cases (eqb_ℤ p (w.store.cell i).priority)) [
            | inl f ↦
                rw
                  (
                    f,
                    enqueue-member (resolve_strategy w.waiters.config p) i w.store.next
                        (queue_at w.waiters.priority_queues p),
                    e,
                    (eqb_ℤ_iff p (w.store.cell i).priority).0 f,
                  )
                  at
            | inr f ↦ rw f at
          ]))
  ];
}

-- Closing cancels all who are queued.
pub cancel_all-next : (is : List ℕ) (m : Store) → (cancel_all is m).0.next ≡ m.next
unfolding cancel_all
cancel_all-next [] m = refl
cancel_all-next (i ∷ is) m = cancel_all-next is (write m i (Waiter.cancel (m.cell i)).0)

pub close-AllQueued : (w : World) → AllQueued w → AllQueued (close_queue w)
unfolding close_queue WaitQueue.close
close-AllQueued w all = record {
  queued = λ i exists waits.
      let drained = drain_all_waiters w.waiters.priority_queues in
      let p = (w.store.cell i).priority in
      absurd (
        ground (
          arith,
          cancel_all-cell drained w.store i,
          cancel_all-next drained w.store,
          cancel_facts (w.store.cell i),
          all.queued i,
          member-drained i p w.waiters.priority_queues,
        ));
}
