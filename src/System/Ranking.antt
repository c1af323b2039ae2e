-- ===== src/System/Ranking.antt =====
-- Two tasks of different priorities: what holds of them while threads act in any order.
use ranked_semaphore.Common.{
  ℕ, ◌<◌, ◌≡◌, refl, ap, sym, ◌∙◌, false, arith, Bool-cases, inl, inr, ◌⊎◌, subst,
}
use ranked_semaphore.Common.Int.{◌<ℤ◌}
use ranked_semaphore.Config.{PriorityConfig}
use ranked_semaphore.Waiter.{Store, is_waiting, is_notified, try_notify, take_waker_under_lock}
use ranked_semaphore.WaitQueue.Rules.{Keeps}
use ranked_semaphore.WaitQueue.Selected.{select-keeps}
use ranked_semaphore.WaitQueue.Settling.{OneEach}
use ranked_semaphore.WaitQueue.Ranking.{select-Ranked}
use ranked_semaphore.WaitQueue.Select.{serve, discard, select_waiters_to_notify}
use ranked_semaphore.Semaphore.{World, close_queue}
use ranked_semaphore.Semaphore.Batches.{IsSound}
use ranked_semaphore.Semaphore.Sections.{Call, locking, selected, adding, advance}
use ranked_semaphore.Semaphore.Release.{add_remaining}
use ranked_semaphore.Acquire
use ranked_semaphore.Acquire.Dropping.{drop-eq}
use ranked_semaphore.System.{System, Reach, Steps, enter, leave_waker, future_of}
use ranked_semaphore.System.Queued.{
  AllQueued, select-Aged, locked, word-AllQueued, enter-AllQueued, leave_waker-AllQueued,
  drop-AllQueued, advance-AllQueued, close-AllQueued,
}
use ranked_semaphore.System.Standing.{reach-AllQueued}
use ranked_semaphore.System.Stepping.{Kept, steps-Kept}
use ranked_semaphore.System.InTurn.{found}
use ranked_semaphore.System.Quiet.{
  Aside, cancel-Quiet, waker-Quiet, same-Aside, write-Aside, enter-Aside, close-Aside,
}

-- The demands and the silence of waiters through a selection.
needs-Keeps :
    (m : Store)
    → Keeps (λ is b. (k : ℕ) → (b.store.cell k).permits_needed ≡ (m.cell k).permits_needed)
unfolding discard serve try_notify take_waker_under_lock
needs-Keeps m = record {
  by_discard = λ i is b c h. h;
  by_serve = λ i is b r c le h k. ground (arith, h k);
}

silent-Keeps :
    (j : ℕ)
    → Keeps (λ is b. (is_waiting (b.store.cell j) ≡ false) × (is_notified (b.store.cell j) ≡ false))
unfolding discard serve try_notify take_waker_under_lock is_waiting is_notified
silent-Keeps j = record {
  by_discard = λ i is b c h. h;
  by_serve = λ i is b r c le h. ground (arith, h);
}

module _ (i j : ℕ) where
  -- The waiter `j` has the lower priority, and if all demands are one permit, it is not notified as
  -- long as `i` waits.
  record Guarded (w : World) : Type 0 where
    first : i < w.store.next
    second : j < w.store.next
    ranks : (w.store.cell j).priority <ℤ (w.store.cell i).priority
    turn :
        OneEach w.store
        → (is_notified (w.store.cell j) ≡ false) ⊎ (is_waiting (w.store.cell i) ≡ false)

  Aside-Guarded : (w v : World) → Aside w.store v.store → Guarded w → Guarded v
  Aside-Guarded w v a g =
      let qi = a.quiet i g.first in
      let qj = a.quiet j g.second in
      record {
        first = omega (arith, a.most, g.first);
        second = omega (arith, a.most, g.second);
        ranks = rw (qi.rank, qj.rank) g.ranks;
        turn = λ one.
            elim (g.turn
              (λ k below. sym (a.quiet k below).needs ∙ one k (omega (arith, a.most, below)))) [
                | inl never ↦ inl (qj.told never)
                | inr done ↦ inr (qi.waits done)
              ];
      }

  -- The turn of the two behind a selection.
  selected-turn :
      (w : World) (n : ℕ)
      → IsSound w
      → AllQueued w
      → Guarded w
      → OneEach w.store
      → let s = select_waiters_to_notify w.waiters w.store n in
        (is_notified (s.store.cell j) ≡ false) ⊎ (is_waiting (s.store.cell i) ≡ false)
  selected-turn w n s all g one =
      let q = w.waiters in
      let m = w.store in
      let a = select-Aged q m n in
      elim (g.turn one) [
        | inr done ↦ inr (ground (arith, a.waited i, done))
        | inl never ↦ elim (Bool-cases (is_waiting (m.cell i))) [
          | inr e ↦ inr (ground (arith, a.waited i, e))
          | inl e ↦ elim (Bool-cases (is_waiting (m.cell j))) [
            | inr f ↦ inl (
                (select-keeps
                  (λ x l k. (is_waiting (x.cell j) ≡ false) × (is_notified (x.cell j) ≡ false))
                  (silent-Keeps j) q m n (f, never)).1)
            | inl f ↦
                let (is, upper, at) =
                  found i (m.cell i).priority q.priority_queues (all.queued i g.first e) in
                let (js, under, below) =
                  found j (m.cell j).priority q.priority_queues (all.queued j g.second f) in
                elim (select-Ranked q m n _ _ is js i j s.valid s.ready one g.ranks upper under at
                  below) [ inl same ↦ inl (ap is_notified same ∙ never) | inr done ↦ inr done ]
          ]
        ]
      ]

  select-Guarded :
      (w : World) (n : ℕ)
      → IsSound w
      → AllQueued w
      → Guarded w
      → let s = select_waiters_to_notify w.waiters w.store n in
        Guarded (record {
          sem = record { permits = w.permits; waiters = s.queue };
          store = s.store;
          woken = w.woken;
        })
  select-Guarded w n s all g =
      let a = select-Aged w.waiters w.store n in
      let needs =
        select-keeps
          (λ x l k. (o : ℕ) → (x.cell o).permits_needed ≡ (w.store.cell o).permits_needed)
          (needs-Keeps w.store) w.waiters w.store n (λ o. refl) in
      record {
        first = omega (arith, a.same_waiters, g.first);
        second = omega (arith, a.same_waiters, g.second);
        ranks = rw (a.priority i, a.priority j) g.ranks;
        turn = λ one.
            selected-turn w n s all g
              (λ k below. sym (needs k) ∙ one k (omega (arith, a.same_waiters, below)));
      }

  advance-Guarded :
      (c : Call) (w : World) → IsSound w → AllQueued w → Guarded w → Guarded (advance c w).0
  unfolding advance add_remaining
  advance-Guarded (locking rem) w s all g = elim (locked rem w) [
    | inl e ↦ subst Guarded (sym e) g
    | inr e ↦ subst Guarded (sym e) (select-Guarded w rem s all g)
  ]
  advance-Guarded (selected rem assigned l) w s all g =
      Aside-Guarded w _ (same-Aside _ _ (ground arith)) g
  advance-Guarded (adding rem) w s all g = Aside-Guarded w _ (same-Aside _ _ (ground arith)) g

  drop-Guarded : (w : World) (k : ℕ) → Guarded w → Guarded (Acquire.drop (future_of w k) w)
  drop-Guarded w k g =
      rw (drop-eq (future_of w k) w k refl)
        (Aside-Guarded w _ (write-Aside w.store k _ (cancel-Quiet (w.store.cell k))) g)

  Guarded-Kept : Kept (λ w. AllQueued w × Guarded w)
  Guarded-Kept = record {
    by_word = λ w v e f h.
        (word-AllQueued w v e f h.0, Aside-Guarded w v (same-Aside w.store v.store e) h.1);
    by_enter = λ w n p h.
        (enter-AllQueued w n p h.0, Aside-Guarded w (enter n p w) (enter-Aside w n p) h.1);
    by_waker = λ w k task h. (
      leave_waker-AllQueued w k task h.0,
      Aside-Guarded w (leave_waker k task w)
          (write-Aside w.store k _ (waker-Quiet (w.store.cell k) task)) h.1,
    );
    by_drop = λ w k h. (drop-AllQueued w k h.0, drop-Guarded w k h.1);
    by_advance = λ c w s h. (advance-AllQueued c w s h.0, advance-Guarded c w s h.0 h.1);
    by_close = λ w h. (close-AllQueued w h.0, Aside-Guarded w (close_queue w) (close-Aside w) h.1);
  }

-- In a state that threads can come to from a semaphore just made, with any configuration, also that
-- of `new_fifo` or `new_lifo`, the task `j` has a lower priority than the task `i` and is not
-- notified, whichever came first. Whatever threads do from then on, and in whatever order, to a
-- state in which every task that ever queued up has asked for one permit: `j` is not notified there
-- as long as `i` waits.
pub steps-Ranked :
    {permits : ℕ} {config : PriorityConfig} {s t : System} (i j : ℕ)
    → Reach permits config s
    → i < s.world.store.next
    → j < s.world.store.next
    → (s.world.store.cell j).priority <ℤ (s.world.store.cell i).priority
    → is_notified (s.world.store.cell j) ≡ false
    → Steps s t
    → OneEach t.world.store
    → (is_notified (t.world.store.cell j) ≡ false) ⊎ (is_waiting (t.world.store.cell i) ≡ false)
steps-Ranked {permits} {config} {s} {t} i j r first second ranks never st one =
    let kept =
      steps-Kept (λ w. AllQueued w × Guarded i j w) (Guarded-Kept i j) r
        (
          reach-AllQueued r,
          record { first = first; second = second; ranks = ranks; turn = λ each. inl never },
        )
        st in
    kept.1.turn one
