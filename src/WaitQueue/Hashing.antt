-- ===== src/WaitQueue/Hashing.antt =====
-- queue.rs: the wait queue on two lists of entries that are one hash map, and what a selection does.
pub mod Drained
pub mod Shuffled
pub mod Updates
use ranked_semaphore.Common
use ranked_semaphore.Common.{
  ℕ, ◌<◌, ◌≡◌, refl, sym, ◌∙◌, ap, Bool, true, false, not, ◌&&◌, ◌||◌, Option, none, some, List, [],
  ◌∷◌, ◌==◌, ltb, arith, Bool-cases, Option-cases, List-cases, inl, inr, if_rule, if◌then◌else◌,
}
use ranked_semaphore.Common.Int.{ℤ}
use ranked_semaphore.Waker.{WakeList, can_push}
use ranked_semaphore.Config.{PriorityConfig}
use ranked_semaphore.Waiter.{Store}
use ranked_semaphore.PriorityMap.{PriorityQueues, get, insert, remove}
use ranked_semaphore.PriorityMap.Hashing.{SameMap, insert-SameMap, remove-SameMap}
use ranked_semaphore.PriorityHeap
use ranked_semaphore.WaitQueue.{WaitQueue}
use ranked_semaphore.WaitQueue.Rules.{after_level}
use ranked_semaphore.WaitQueue.Settling.{is_spent, served_round}
use ranked_semaphore.WaitQueue.HandingOut.Levels.{serve_levels-none, serve_levels-nil}
use ranked_semaphore.WaitQueue.Select.{
  Batch, process_level, serve_single, Levels, serve_levels, Selection, finish, select_single,
  select_multiple, select_by, select_waiters_to_notify, start,
}

-- The queue with another list of entries.
abbrev pub rehashed : WaitQueue → PriorityQueues → WaitQueue
rehashed q n = record q { priority_queues = n }

-- The loop over the priorities, on two lists of entries.
record SameLevels (k l : Levels) : Type 0 where
  queues : SameMap k.queues l.queues
  active : k.active ≡ l.active
  batch : k.batch ≡ l.batch
  restore : k.to_restore ≡ l.to_restore

stay :
    (ps : List ℤ) (m n : PriorityQueues) (b : Batch) (restore : List ℤ)
    → SameMap m n
    → SameLevels
        (record { active = ps; queues = m; batch = b; to_restore = restore })
        (record { active = ps; queues = n; batch = b; to_restore = restore })
stay ps m n b restore h = record { queues = h; active = refl; batch = refl; restore = refl }

serve_levels-over :
    (p : ℤ) (ps : List ℤ) (m : PriorityQueues) (b : Batch) (restore : List ℤ)
    → is_spent b ≡ true
    → serve_levels (p ∷ ps) m b restore
      ≡ record { active = p ∷ ps; queues = m; batch = b; to_restore = restore }
unfolding serve_levels is_spent
serve_levels-over p ps m b restore e = rw e refl

serve_levels-few :
    (p : ℤ) (ps : List ℤ) (m : PriorityQueues) (b : Batch) (restore : List ℤ) (i : ℕ) (is : List ℕ)
    → is_spent b ≡ false
    → get p m ≡ some (i ∷ is)
    → ltb b.available (b.store.cell i).permits_needed ≡ true
    → serve_levels (p ∷ ps) m b restore
      ≡ record { active = p ∷ ps; queues = m; batch = b; to_restore = restore }
unfolding serve_levels is_spent
serve_levels-few p ps m b restore i is e there few = rw (e, there, serve_levels, few) refl

serve_levels-SameLevels :
    (ps : List ℤ) (m n : PriorityQueues) (b : Batch) (restore : List ℤ)
    → SameMap m n
    → SameLevels (serve_levels ps m b restore) (serve_levels ps n b restore)
unfolding serve_levels
serve_levels-SameLevels [] m n b restore h = stay [] m n b restore h
serve_levels-SameLevels (p ∷ ps) m n b restore h = elim (Bool-cases (is_spent b)) [
  | inl f ↦
      rw (serve_levels-over p ps m b restore f, serve_levels-over p ps n b restore f)
        (stay (p ∷ ps) m n b restore h)
  | inr f ↦ elim (Option-cases (get p m)) [
    | inl e ↦
        rw
          (
            serve_levels-none p ps m b restore f e,
            serve_levels-none p ps n b restore f (sym (h.found p) ∙ e),
          )
          (serve_levels-SameLevels ps m n b restore h)
    | inr (queue, e) ↦ elim (List-cases queue) [
      | inl nil ↦
          let empty = e ∙ ap some nil in
          rw
            (
              serve_levels-nil p ps m b restore f empty,
              serve_levels-nil p ps n b restore f (sym (h.found p) ∙ empty),
            )
            (serve_levels-SameLevels ps m n b restore h)
      | inr (i, is, cons) ↦
          let there = e ∙ ap some cons in
          let there' = sym (h.found p) ∙ there in
          let level = process_level (i ∷ is) b in
          let next = insert-SameMap p level.queue m n h in
          let restore' = if Common.is_empty level.queue then restore else p ∷ restore in
          elim (Bool-cases (ltb b.available (b.store.cell i).permits_needed)) [
            | inl few ↦
                rw
                  (
                    serve_levels-few p ps m b restore i is f there few,
                    serve_levels-few p ps n b restore i is f there' few,
                  )
                  (stay (p ∷ ps) m n b restore h)
            | inr fits ↦
                rw
                  (
                    served_round p ps m b restore i is f there fits,
                    served_round p ps n b restore i is f there' fits,
                  )
                  (elim (Bool-cases (level.processed_any && not (can_push level.batch.wake_list))) [
                    | inl full ↦ rw full (stay ps _ _ level.batch restore' next)
                    | inr goes ↦ rw goes (serve_levels-SameLevels ps _ _ level.batch restore' next)
                  ])
          ]
    ]
  ]
]

-- Two wait queues differ in nothing but the list of entries.
pub record SameQueue (q r : WaitQueue) : Type 0 where
  pub queues : SameMap q.priority_queues r.priority_queues
  pub others : r ≡ rehashed q r.priority_queues

pub record SameSelection (s t : Selection) : Type 0 where
  pub queue : SameQueue s.queue t.queue
  pub store : s.store ≡ t.store
  pub wake_list : s.wake_list ≡ t.wake_list
  pub assigned : s.assigned ≡ t.assigned

module _ (q : WaitQueue) (n : PriorityQueues) (h : SameMap q.priority_queues n) where
  finish-SameSelection :
      (k l : PriorityQueues) (active : List ℤ) (b : Batch)
      → SameMap k l
      → SameSelection (finish q k active b) (finish (rehashed q n) l active b)
  finish-SameSelection k l active b same = record {
    queue = record { queues = same; others = refl };
    store = refl;
    wake_list = refl;
    assigned = refl;
  }

  select_multiple-SameSelection :
      (b : Batch) → SameSelection (select_multiple q b) (select_multiple (rehashed q n) b)
  unfolding select_multiple
  select_multiple-SameSelection b =
      let same = serve_levels-SameLevels q.active_priorities q.priority_queues n b [] h in
      let l = serve_levels q.active_priorities q.priority_queues b [] in
      rw (sym same.active, sym same.batch, sym same.restore)
        (finish-SameSelection _ _ (PriorityHeap.push_all (Common.reverse l.to_restore) l.active)
          l.batch same.queues)

  select_single-SameSelection :
      (p : ℤ) (b : Batch) → SameSelection (select_single q p b) (select_single (rehashed q n) p b)
  unfolding select_single
  select_single-SameSelection p b = elim (Option-cases (get p q.priority_queues)) [
    | inl e ↦ rw (select_single, e, sym (h.found p) ∙ e) (finish-SameSelection _ _ [] b h)
    | inr (queue, e) ↦
        let removed = remove-SameMap p q.priority_queues n h in
        let rest = (serve_single queue b).0 in
        rw (select_single, e, sym (h.found p) ∙ e)
          (elim (Bool-cases (Common.is_empty rest)) [
            | inl nil ↦ rw nil (finish-SameSelection _ _ [] (serve_single queue b).1 removed)
            | inr more ↦ rw more (
                finish-SameSelection _ _ (PriorityHeap.push p []) (serve_single queue b).1
                  (insert-SameMap p rest _ _ removed))
          ])
  ]

  select_by-SameSelection :
      (active : List ℤ) (b : Batch)
      → SameSelection (select_by active q b) (select_by active (rehashed q n) b)
  unfolding select_by
  select_by-SameSelection [] b = select_multiple-SameSelection b
  select_by-SameSelection (p ∷ []) b = select_single-SameSelection p b
  select_by-SameSelection (p ∷ r ∷ ps) b = select_multiple-SameSelection b

  pub select-SameSelection :
      (m : Store) (k : ℕ)
      → SameSelection (select_waiters_to_notify q m k) (select_waiters_to_notify (rehashed q n) m k)
  unfolding select_waiters_to_notify
  select-SameSelection m k = elim (Bool-cases (k == 0 || q.total_waiters == 0)) [
    | inl e ↦ rw e (finish-SameSelection _ _ q.active_priorities (start q m k) h)
    | inr e ↦ rw e (select_by-SameSelection q.active_priorities (start q m k))
  ]
