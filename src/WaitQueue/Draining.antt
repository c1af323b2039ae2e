-- ===== src/WaitQueue/Draining.antt =====
-- queue.rs, `process_multiple_priorities_optimized`: how far the loop over the priorities goes.
pub mod Selections
use ranked_semaphore.Common
use ranked_semaphore.PriorityHeap
use ranked_semaphore.Common.{
  ℕ, ◌+◌, ◌≤◌, ◌<◌, ◌≡◌, refl, ap, ◌∙◌, ◌≢◌, Bool, true, false, not, ◌&&◌, ◌||◌, Option, some, none,
  List, [], ◌∷◌, ltb, ◌==◌, arith, if◌then◌else◌, Bool-cases, Option-cases, List-cases, inl, inr,
  ◌⊎◌, if_rule, subst,
}
use ranked_semaphore.Common.Int.{ℤ, eqb_ℤ, eqb_ℤ_iff}
use ranked_semaphore.Waker.{can_push}
use ranked_semaphore.Waiter.{Store, is_waiting}
use ranked_semaphore.Waiter.Reserved.{reserved}
use ranked_semaphore.PriorityMap.{PriorityQueues, get, insert, remove, get_mut_or_create}
use ranked_semaphore.PriorityMap.Laws.{get-insert, get-le-total}
use ranked_semaphore.PriorityHeap.Laws.{contains}
use ranked_semaphore.WaitQueue.{WaitQueue}
use ranked_semaphore.WaitQueue.Invariant.{IsValid}
use ranked_semaphore.WaitQueue.Ready.{member, AllReady}
use ranked_semaphore.WaitQueue.Rules.{serve_levels-Keeps, after_level}
use ranked_semaphore.WaitQueue.Accounting.{Running, Running-LevelKeeps, start-Balanced}
use ranked_semaphore.WaitQueue.Order.{serve_single-InOrder}
use ranked_semaphore.WaitQueue.Ranking.{active}
use ranked_semaphore.WaitQueue.Settling.{
  OneEach, settled-LevelKeeps, process_level-OneEach, Ready-member, is_spent, Settles,
  process_level-Settles, serve_level-Settles, serve_levels-spent, vacant,
  serve_single-eq-serve_level,
}
use ranked_semaphore.WaitQueue.Select.{
  Batch, process_level, Levels, serve_single, serve_levels, Selection, start, finish, select_single,
  select_multiple, select_by, select_waiters_to_notify,
}

-- The waiter `i` queued at the priority `p`.
module _ (n k i : ℕ) (p : ℤ) (is : List ℕ) (at : member i is ≡ true) where
  -- The batch is spent, or the waiter does not wait any more.
  pub Drains : Batch → Type 0
  Drains b = (is_spent b ≡ true) ⊎ (is_waiting (b.store.cell i) ≡ false)

  pub record Starts (ps : List ℤ) (m : PriorityQueues) (b : Batch) (restore : List ℤ) : Type 0 where
    pub running : Running n k (record { active = ps; queues = m; batch = b; to_restore = restore })
    pub one : OneEach b.store
    pub found : get p m ≡ some is
    pub listed : contains p ps ≡ true

  skip :
      (q : ℤ) (ps : List ℤ) (m : PriorityQueues) (b : Batch) (restore : List ℤ)
      → ((o : ℕ) (os : List ℕ) → get q m ≢ some (o ∷ os))
      → Starts (q ∷ ps) m b restore
      → Starts ps m b restore
  unfolding contains member
  skip q ps m b restore nobody s = elim (List-cases is) [
    | inl nil ↦ absurd (ground arith)
    | inr (o, os, cons) ↦
        let apart : q ≢ p = λ e. nobody o os (ap (λ t. get t m) e ∙ s.found ∙ ap some cons) in
        record {
          running = (Running-LevelKeeps n k).by_skip q ps m b restore (vacant q m nobody) s.running;
          one = s.one;
          found = s.found;
          listed = ground (arith, s.listed, eqb_ℤ_iff q p, apart);
        }
  ]

  module _ (q : ℤ) (ps : List ℤ) (m : PriorityQueues) (b : Batch) (restore : List ℤ) (x : ℕ)
      (xs : List ℕ) (there : get q m ≡ some (x ∷ xs)) (s : Starts (q ∷ ps) m b restore) where
    next : Levels
    next = after_level q ps m b restore (x ∷ xs)

    one_of : (j : ℕ) → member j (x ∷ xs) ≡ true → (b.store.cell j).permits_needed ≡ 1
    one_of j e = s.one j (Ready-member q b.store (x ∷ xs) j (s.running.ready q (x ∷ xs) there) e).0

    next-Starts : q ≢ p → Starts ps next.queues next.batch next.to_restore
    unfolding next contains
    next-Starts ne = record {
      running = (Running-LevelKeeps n k).by_level q ps m b restore x xs there s.running;
      one = process_level-OneEach (x ∷ xs) b s.one;
      found =
          ground
            (arith, get-insert p q (process_level (x ∷ xs) b).queue m, eqb_ℤ_iff q p, ne, s.found);
      listed = ground (arith, s.listed, eqb_ℤ_iff q p, ne);
    }

    -- What follows if the loop goes on.
    goes_on :
        (q ≢ p → Drains (serve_levels ps next.queues next.batch next.to_restore).batch)
        → Drains (serve_levels ps next.queues next.batch next.to_restore).batch
    unfolding Drains Settles next
    goes_on rest = elim (Bool-cases (eqb_ℤ q p)) [
      | inl e ↦ elim (process_level-Settles (x ∷ xs) b one_of) [
        | inl f ↦ rw (serve_levels-spent ps next.queues next.batch next.to_restore f) (inl f)
        | inr h ↦
            let g : is ≡ x ∷ xs = ground (arith, (eqb_ℤ_iff q p).0 e, s.found, there) in
            inr (
              serve_levels-Keeps _ (settled-LevelKeeps i) ps next.queues next.batch next.to_restore
                (h i (subst (λ l. member i l ≡ true) g at)))
      ]
      | inr e ↦ rest (λ f. ground (arith, (eqb_ℤ_iff q p).1 f))
    ]

  pub DrainsLevels : Levels → Type 0
  DrainsLevels l = Drains l.batch

  pub serve_levels-DrainsLevels :
      (ps : List ℤ) (m : PriorityQueues) (b : Batch) (restore : List ℤ)
      → Starts ps m b restore
      → DrainsLevels (serve_levels ps m b restore)
  unfolding serve_levels DrainsLevels Drains is_spent next contains member
  serve_levels-DrainsLevels [] m b restore s = absurd (ground (arith, s.listed))
  serve_levels-DrainsLevels (q ∷ ps) m b restore s = elim (Bool-cases (is_spent b)) [
    | inl f ↦ rw f (inl f)
    | inr f ↦ elim (Option-cases (get q m)) [
      | inl e ↦
          rw (f, e, serve_levels)
            (serve_levels-DrainsLevels ps m b restore (skip q ps m b restore (λ o os g. cc) s))
      | inr (queue, e) ↦ elim (List-cases queue) [
        | inl nil ↦
            rw (f, e, nil, serve_levels)
              (serve_levels-DrainsLevels ps m b restore (skip q ps m b restore (λ o os g. cc) s))
        | inr (x, xs, cons) ↦
            let there : get q m ≡ some (x ∷ xs) = e ∙ ap some cons in
            let needs : (b.store.cell x).permits_needed ≡ 1 =
              one_of q ps m b restore x xs there s x (ground arith) in
            let enough : ltb b.available (b.store.cell x).permits_needed ≡ false = ground arith in
            let after = after_level q ps m b restore (x ∷ xs) in
            elim (Bool-cases
              ((process_level (x ∷ xs) b).processed_any && not (can_push after.batch.wake_list))) [
                | inl stops ↦ rw (f, e, cons, serve_levels, enough, stops) (inl (ground arith))
                | inr goes ↦
                    rw (f, e, cons, serve_levels, enough, goes)
                      (goes_on q ps m b restore x xs there s (λ ne.
                        serve_levels-DrainsLevels ps _ _ _
                          (next-Starts q ps m b restore x xs there s ne)))
              ]
      ]
    ]
  ]
