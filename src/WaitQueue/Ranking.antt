-- ===== src/WaitQueue/Ranking.antt =====
-- queue.rs, `select_waiters_to_notify`: waiters of different priorities.
use ranked_semaphore.Common.{
  ℕ, ◌≡◌, refl, true, ◌||◌, some, List, [], ◌∷◌, ◌==◌, arith, Bool-cases, List-cases, inl, inr,
  subst,
}
use ranked_semaphore.Common.Int.{ℤ, ◌<ℤ◌, eqb_ℤ_iff}
use ranked_semaphore.Waiter.{Store}
use ranked_semaphore.Waiter.Reserved.{reserved}
use ranked_semaphore.PriorityMap.{get, has_non_empty_queue}
use ranked_semaphore.PriorityHeap.Laws.{contains}
use ranked_semaphore.WaitQueue.{WaitQueue}
use ranked_semaphore.WaitQueue.Invariant.{IsValid}
use ranked_semaphore.WaitQueue.Ready.{member, AllReady}
use ranked_semaphore.WaitQueue.Accounting.{start-Balanced}
use ranked_semaphore.WaitQueue.Settling.{OneEach}
use ranked_semaphore.WaitQueue.Select.{select_multiple, select_by, select_waiters_to_notify, start}
use ranked_semaphore.WaitQueue.LevelRanking.{Ranked, RankedLevels-Ranked, serve_levels-RankedLevels}

-- In a well-formed queue a priority with a waiter is active.
pub active :
    (q : WaitQueue) (p : ℤ) (is : List ℕ) (i : ℕ)
    → IsValid q
    → get p q.priority_queues ≡ some is
    → member i is ≡ true
    → contains p q.active_priorities ≡ true
unfolding has_non_empty_queue member
active q p is i v e at = elim (List-cases is) [
  | inl nil ↦ absurd (ground arith)
  | inr (o, os, cons) ↦ v.covered p (ground arith)
]

module _ (q : WaitQueue) (m : Store) (n : ℕ) (p r : ℤ) (is js : List ℕ) (i j : ℕ) (v : IsValid q)
    (all : AllReady q.priority_queues m) (one : OneEach m) (lower : r <ℤ p)
    (upper : get p q.priority_queues ≡ some is) (under : get r q.priority_queues ≡ some js)
    (at : member i is ≡ true) (below : member j js ≡ true) where
  multiple-Ranked : Ranked i j m (select_multiple q (start q m n)).store
  unfolding select_multiple
  multiple-Ranked = RankedLevels-Ranked n (reserved m) i j p r lower is js at below m _ (
      serve_levels-RankedLevels n (reserved m) i j p r lower is js at below q.active_priorities
        q.priority_queues (start q m n) []
        (record {
          running = record { ready = all; balanced = start-Balanced q m n };
          one = one;
          sorted = v.descending;
          upper = upper;
          under = under;
        })
        (active q p is i v upper at))

  by-Ranked :
      (ps : List ℤ) → q.active_priorities ≡ ps → Ranked i j m (select_by ps q (start q m n)).store
  unfolding select_by contains
  by-Ranked [] e = multiple-Ranked
  by-Ranked (x ∷ []) e =
      let f : contains p (x ∷ []) ≡ true =
        subst (λ ps. contains p ps ≡ true) e (active q p is i v upper at) in
      let g : contains r (x ∷ []) ≡ true =
        subst (λ ps. contains r ps ≡ true) e (active q r js j v under below) in
      absurd (ground (arith, eqb_ℤ_iff x p, eqb_ℤ_iff x r))
  by-Ranked (x ∷ y ∷ ps) e = multiple-Ranked

-- If every waiter needs one permit, then selecting with any number of permits serves by rank: of a
-- waiter `i` queued at a priority and a waiter `j` queued at a lower one, `j` is left exactly as it
-- was, or `i` does not wait any more, being notified or cancelled.
pub select-Ranked :
    (q : WaitQueue) (m : Store) (n : ℕ) (p r : ℤ) (is js : List ℕ) (i j : ℕ)
    → IsValid q
    → AllReady q.priority_queues m
    → OneEach m
    → r <ℤ p
    → get p q.priority_queues ≡ some is
    → get r q.priority_queues ≡ some js
    → member i is ≡ true
    → member j js ≡ true
    → Ranked i j m (select_waiters_to_notify q m n).store
unfolding select_waiters_to_notify
select-Ranked q m n p r is js i j v all one lower upper under at below =
    let by =
      by-Ranked q m n p r is js i j v all one lower upper under at below q.active_priorities refl in
    elim (Bool-cases (n == 0 || q.total_waiters == 0)) [ inl e ↦ rw e (inl refl) | inr e ↦ rw e by ]
