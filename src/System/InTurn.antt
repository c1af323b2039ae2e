-- ===== src/System/InTurn.antt =====
-- Two tasks of one priority: what holds of them while threads act in any order.
use ranked_semaphore.Common.{
  ℕ, ◌+◌, ◌<◌, ◌≡◌, refl, ap, sym, ◌∙◌, ◌≢◌, true, false, List, ◌==◌, arith, Bool-cases,
  Option-cases, inl, inr, ◌⊎◌, subst, some,
}
use ranked_semaphore.Common.Int.{ℤ}
use ranked_semaphore.Config.{resolve_strategy}
use ranked_semaphore.Waiter
use ranked_semaphore.Waiter.{
  WaiterState, Store, write, is_waiting, is_notified, set_waker, new_handle,
}
use ranked_semaphore.PriorityMap.{PriorityQueues, get, get_mut_or_create, drain_all_waiters}
use ranked_semaphore.WaitQueue
use ranked_semaphore.WaitQueue.{push_waiter}
use ranked_semaphore.WaitQueue.Ready.{member}
use ranked_semaphore.WaitQueue.ServiceOrder.{queue_at}
use ranked_semaphore.WaitQueue.Select.{select_waiters_to_notify}
use ranked_semaphore.WaitQueue.Turns.{Lines, select-Lines}
use ranked_semaphore.WaitQueue.Turns.Newcomers.{Aligned, push-Aligned}
use ranked_semaphore.WaitQueue.Turns.Kept.{push-Lines}
use ranked_semaphore.Semaphore.{World, close_queue}
use ranked_semaphore.Semaphore.Batches.{IsSound}
use ranked_semaphore.Semaphore.Sections.{Call, locking, selected, adding, advance}
use ranked_semaphore.Semaphore.Release.{add_remaining}
use ranked_semaphore.Acquire
use ranked_semaphore.Acquire.Dropping.{cancel_facts, drop-eq}
use ranked_semaphore.System.{enter, leave_waker, future_of}
use ranked_semaphore.System.Stepping.{Kept}
use ranked_semaphore.System.Queued.{
  word-AllQueued, enter-AllQueued, leave_waker-AllQueued, drop-AllQueued, advance-AllQueued,
  AllQueued, select-Aged, locked, close-AllQueued, cancel_all-next,
}

-- The waiters of `m` are in `m'` as they were.
pub record Extends (m m' : Store) : Type 0 where
  pub next : m'.next ≡ m.next + 1
  pub cell : (k : ℕ) → k < m.next → m'.cell k ≡ m.cell k

pub pushed_store :
    (w : World) (n : ℕ) (p : ℤ) → Extends w.store (push_waiter w.waiters w.store n p).2
unfolding push_waiter new_handle
pushed_store w n p = record { next = refl; cell = λ k below. ground arith }

module _ (i j : ℕ) (apart : i ≢ j) where
  -- Once `i` does not wait any more, nothing is said of `j`; until then `j` is not notified, and
  -- wherever it is queued it is behind `i`.
  pub record Behind (w : World) : Type 0 where
    pub first : i < w.store.next
    pub second : j < w.store.next
    pub turn :
        (is_waiting (w.store.cell i) ≡ false)
        ⊎ ((is_notified (w.store.cell j) ≡ false) × Lines i j apart w.waiters.priority_queues)

  pub word-Behind : (w v : World) → v.store ≡ w.store → v.waiters ≡ w.waiters → Behind w → Behind v
  word-Behind w v e f b = record {
    first = rw e b.first;
    second = rw e b.second;
    turn = rw (e, f) b.turn;
  }

  select-Behind :
      (w : World) (n : ℕ)
      → IsSound w
      → Behind w
      → let s = select_waiters_to_notify w.waiters w.store n in
        Behind (record {
          sem = record { permits = w.permits; waiters = s.queue };
          store = s.store;
          woken = w.woken;
        })
  select-Behind w n s b =
      let a = select-Aged w.waiters w.store n in
      record {
        first = omega (arith, a.same_waiters, b.first);
        second = omega (arith, a.same_waiters, b.second);
        turn = elim b.turn [
          | inl done ↦ inl (ground (arith, a.waited i, done))
          | inr (never, lines) ↦
              elim (select-Lines i j apart w.store w.waiters n lines s.valid.unique) [
                | inl done ↦ inl done
                | inr (same, kept) ↦ inr (ap is_notified same ∙ never, kept)
              ]
        ];
      }

  pub advance-Behind : (c : Call) (w : World) → IsSound w → Behind w → Behind (advance c w).0
  unfolding advance add_remaining
  advance-Behind (locking rem) w s b = elim (locked rem w) [
    | inl e ↦ subst Behind (sym e) b
    | inr e ↦ subst Behind (sym e) (select-Behind w rem s b)
  ]
  advance-Behind (selected rem assigned l) w s b = word-Behind w _ (ground arith) (ground arith) b
  advance-Behind (adding rem) w s b = word-Behind w _ (ground arith) (ground arith) b

  -- A waiter is changed that comes neither to wait nor to be notified.
  write-Behind :
      (w : World) (k : ℕ) (x : WaiterState) (woken : List ℕ)
      → (is_waiting (w.store.cell k) ≡ false → is_waiting x ≡ false)
      → (is_notified (w.store.cell k) ≡ false → is_notified x ≡ false)
      → Behind w
      → Behind (record { sem = w.sem; store = write w.store k x; woken = woken })
  write-Behind w k x woken waits told b = record {
    first = b.first;
    second = b.second;
    turn = elim b.turn [
      | inl done ↦ inl (elim (Bool-cases (k == i)) [
        | inl e ↦
            rw e (waits (subst (λ o. is_waiting (w.store.cell o) ≡ false) (sym (here k i e)) done))
        | inr e ↦ rw e done
      ])
      | inr (never, lines) ↦ inr (
        elim (Bool-cases (k == j)) [
          | inl e ↦
              rw e
                (told (subst (λ o. is_notified (w.store.cell o) ≡ false) (sym (here k j e)) never))
          | inr e ↦ rw e never
        ],
        lines,
      )
    ];
  }
    where
      here : (a c : ℕ) → (a == c) ≡ true → a ≡ c
      here a c e = ground arith

  pub leave_waker-Behind : (w : World) (k task : ℕ) → Behind w → Behind (leave_waker k task w)
  unfolding set_waker is_waiting is_notified
  leave_waker-Behind w k task b =
      write-Behind w k (set_waker (w.store.cell k) task) w.woken (λ e. e) (λ e. e) b

  pub drop-Behind : (w : World) (k : ℕ) → Behind w → Behind (Acquire.drop (future_of w k) w)
  drop-Behind w k b =
      let facts = cancel_facts (w.store.cell k) in
      rw (drop-eq (future_of w k) w k refl) (write-Behind w k _ _ (λ e. facts.2) (λ e. facts.1) b)

  pub enter-Behind : (w : World) (n : ℕ) (p : ℤ) → Behind w → Behind (enter n p w)
  enter-Behind w n p b =
      let old = pushed_store w n p in
      record {
        first = omega (arith, old.next, b.first);
        second = omega (arith, old.next, b.second);
        turn = elim b.turn [
          | inl done ↦ inl (ap is_waiting (old.cell i b.first) ∙ done)
          | inr (never, lines) ↦ inr (
            ap is_notified (old.cell j b.second) ∙ never,
            push-Lines i j apart w.waiters w.store n p (λ e. absurd (omega (arith, e, b.second)))
                lines,
          )
        ];
      }

  -- The queues are empty behind `close`, so that nobody waits.
  pub close-Behind : (w : World) → AllQueued w → Behind w → Behind (close_queue w)
  unfolding close_queue WaitQueue.close get get_mut_or_create member
  close-Behind w all b =
      let next = cancel_all-next (drain_all_waiters w.waiters.priority_queues) w.store in
      record {
        first = omega (arith, next, b.first);
        second = omega (arith, next, b.second);
        turn = elim (Bool-cases (is_waiting ((close_queue w).store.cell i))) [
          | inl e ↦
              let at = (close-AllQueued w all).queued i (omega (arith, next, b.first)) e in
              absurd (ground arith)
          | inr e ↦ inl e
        ];
      }

  -- With where the waiters stand.
  pub Behind-Kept : Kept (λ w. AllQueued w × Behind w)
  Behind-Kept = record {
    by_word = λ w v e f h. (word-AllQueued w v e f h.0, word-Behind w v e f h.1);
    by_enter = λ w n p h. (enter-AllQueued w n p h.0, enter-Behind w n p h.1);
    by_waker = λ w k task h. (leave_waker-AllQueued w k task h.0, leave_waker-Behind w k task h.1);
    by_drop = λ w k h. (drop-AllQueued w k h.0, drop-Behind w k h.1);
    by_advance = λ c w s h. (advance-AllQueued c w s h.0, advance-Behind c w s h.1);
    by_close = λ w h. (close-AllQueued w h.0, close-Behind w h.0 h.1);
  }

-- The queue in which a waiter stands.
pub found :
    (i : ℕ) (p : ℤ) (queues : PriorityQueues)
    → member i (queue_at queues p) ≡ true
    → (is : List ℕ) × (get p queues ≡ some is) × (member i is ≡ true)
unfolding get_mut_or_create member
found i p queues at = elim (Option-cases (get p queues)) [
  | inl e ↦ absurd (ground (arith, at))
  | inr (is, e) ↦ (is, e, ground (arith, at))
]

-- A newcomer at the priority of a waiter that waits, in the world that it has entered.
pub enter-Aligned :
    (w : World) (n i : ℕ) (p : ℤ)
    → IsSound w
    → AllQueued w
    → i < w.store.next
    → is_waiting (w.store.cell i) ≡ true
    → (w.store.cell i).priority ≡ p
    → (ne : i ≢ w.store.next) × Aligned
        (resolve_strategy w.waiters.config p)
        i
        w.store.next
        ne
        (enter n p w).waiters.priority_queues
enter-Aligned w n i p s all exists waits same =
    let (is, e, at) = found i p w.waiters.priority_queues (
      subst (λ r. member i (queue_at w.waiters.priority_queues r) ≡ true) same
        (all.queued i exists waits)) in
    push-Aligned w.waiters w.store n p is i s.ready e at

-- Both are there, and neither is notified.
pub enter-facts :
    (w : World) (n i : ℕ) (p : ℤ)
    → i < w.store.next
    → is_waiting (w.store.cell i) ≡ true
    → (i < (enter n p w).store.next)
      × (w.store.next < (enter n p w).store.next)
      × (is_notified ((enter n p w).store.cell i) ≡ false)
      × (is_notified ((enter n p w).store.cell w.store.next) ≡ false)
unfolding push_waiter new_handle Waiter.new is_notified is_waiting
enter-facts w n i p exists waits = (omega arith, omega arith, ground arith, ground arith)
