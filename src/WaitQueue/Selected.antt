-- ===== src/WaitQueue/Selected.antt =====
-- queue.rs, `select_waiters_to_notify`: one invariant rule for the whole selection.
use ranked_semaphore.Common.{ℕ, false, ◌||◌, List, [], ◌∷◌, ◌==◌, if_rule, Option-cases, inl, inr}
use ranked_semaphore.Common.Int.{ℤ}
use ranked_semaphore.Waker
use ranked_semaphore.Waker.{WakeList}
use ranked_semaphore.Waiter.{Store}
use ranked_semaphore.PriorityMap.{get}
use ranked_semaphore.WaitQueue.{WaitQueue}
use ranked_semaphore.WaitQueue.Rules.{
  Keeps, serve_single-Keeps, serve_level-Keeps, LevelKeeps, serve_levels-Keeps,
}
use ranked_semaphore.WaitQueue.Select.{
  process_level, Levels, Selection, start, select_single, select_multiple, select_by,
  select_waiters_to_notify,
}

-- A statement about the waiters, the wake list and the permits assigned.
module _ {ℓ} (P : Store → WakeList → ℕ → Type ℓ)
    (keep : Keeps (λ is b. P b.store b.wake_list b.assigned)) where
  AtLevels : Levels → Type ℓ
  AtLevels l = P l.batch.store l.batch.wake_list l.batch.assigned

  levels-keep : LevelKeeps AtLevels
  unfolding AtLevels process_level
  levels-keep = record {
    by_skip = λ p ps m b restore e h. h;
    by_level = λ p ps m b restore i is e h. serve_level-Keeps _ keep (i ∷ is) b false h;
  }

  AtSelection : Selection → Type ℓ
  AtSelection s = P s.store s.wake_list s.assigned

  select_single-keeps :
      (q : WaitQueue) (m : Store) (n : ℕ) (p : ℤ)
      → P m Waker.new 0
      → AtSelection (select_single q p (start q m n))
  unfolding AtSelection select_single
  select_single-keeps q m n p h = elim (Option-cases (get p q.priority_queues)) [
    | inl e ↦ rw (e, select_single) h
    | inr (queue, e) ↦
        let done = serve_single-Keeps _ keep queue (start q m n) h in
        rw (e, select_single) (if_rule AtSelection _ done done)
  ]

  select_multiple-keeps :
      (q : WaitQueue) (m : Store) (n : ℕ)
      → P m Waker.new 0
      → AtSelection (select_multiple q (start q m n))
  unfolding AtSelection AtLevels select_multiple
  select_multiple-keeps q m n h =
      serve_levels-Keeps AtLevels levels-keep q.active_priorities q.priority_queues (start q m n) []
        h

  select_by-keeps :
      (active : List ℤ) (q : WaitQueue) (m : Store) (n : ℕ)
      → P m Waker.new 0
      → AtSelection (select_by active q (start q m n))
  unfolding select_by
  select_by-keeps [] q m n h = select_multiple-keeps q m n h
  select_by-keeps (p ∷ []) q m n h = select_single-keeps q m n p h
  select_by-keeps (p ∷ r ∷ ps) q m n h = select_multiple-keeps q m n h

  -- What holds at the start and is kept by discarding and by serving a waiter holds at the end.
  pub select-keeps :
      (q : WaitQueue) (m : Store) (n : ℕ)
      → P m Waker.new 0
      → let s = select_waiters_to_notify q m n in P s.store s.wake_list s.assigned
  unfolding select_waiters_to_notify AtSelection
  select-keeps q m n h =
      if_rule AtSelection (n == 0 || q.total_waiters == 0) h
        (select_by-keeps q.active_priorities q m n h)
