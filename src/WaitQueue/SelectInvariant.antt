-- ===== src/WaitQueue/SelectInvariant.antt =====
-- queue.rs, `select_waiters_to_notify`: the well-formedness of the wait queue.
use ranked_semaphore.Common
use ranked_semaphore.Common.{
  ℕ, suc, ◌+◌, ◌-◌, ◌≤◌, ◌<◌, ◌≡◌, refl, Bool, true, false, not, ◌||◌, ◌==◌, Option, none, some,
  List, [], ◌∷◌, length, retain, reverse, arith, if◌then◌else◌, Option-cases, Bool-cases, inl, inr,
}
use ranked_semaphore.Common.Int.{ℤ, eqb_ℤ_iff}
use ranked_semaphore.Waiter.{Store}
use ranked_semaphore.PriorityMap.{get, insert, remove, get_mut_or_create, has_non_empty_queue}
use ranked_semaphore.PriorityMap.Laws.{
  total, get-remove, insert-IsUnique, remove-IsUnique, total-insert, total-remove,
  has_non_empty_queue-insert, has_non_empty_queue-remove,
}
use ranked_semaphore.PriorityHeap.{push}
use ranked_semaphore.PriorityHeap.Laws.{contains}
use ranked_semaphore.Common.Word.{usize_mod}
use ranked_semaphore.WaitQueue
use ranked_semaphore.WaitQueue.{WaitQueue, push_waiter, remove_waiter}
use ranked_semaphore.WaitQueue.Invariant.{
  IsValid, push_waiter-IsValid, remove_waiter-IsValid, close-IsValid,
}
use ranked_semaphore.WaitQueue.Rules.{serve_single-Keeps}
use ranked_semaphore.WaitQueue.Select.{
  Batch, serve_single, select_single, select_by, select_waiters_to_notify, start,
}
use ranked_semaphore.WaitQueue.LevelInvariant.{Counts, Counts-Keeps, select_multiple-IsValid}

-- With one active priority no other queue has a waiter.
module _ (q : WaitQueue) (p : ℤ) (b : Batch) (v : IsValid q) (one : q.active_priorities ≡ p ∷ [])
    (counted : b.total_waiters ≡ q.total_waiters) where
  alone : (j : ℤ) → has_non_empty_queue j (remove p q.priority_queues) ≡ true → ⊥
  unfolding contains
  alone j h =
      ground (
        arith,
        has_non_empty_queue-remove j p q.priority_queues v.unique,
        v.covered j,
        eqb_ℤ_iff p j,
      )

  module _ (queue : List ℕ) (found : get p q.priority_queues ≡ some queue) where
    counts : Counts (length queue) (total (remove p q.priority_queues)) b
    unfolding get_mut_or_create
    counts = ground (arith, total-remove p q.priority_queues, v.counted, v.small)

    rest : List ℕ
    rest = (serve_single queue b).0

    rest-Counts : Counts (length rest) (total (remove p q.priority_queues)) (serve_single queue b).1
    unfolding rest
    rest-Counts = serve_single-Keeps _ (Counts-Keeps _) queue b counts

    restored :
        total (insert p rest (remove p q.priority_queues))
        ≡ total (remove p q.priority_queues) + length rest
    unfolding get_mut_or_create
    restored = ground (
      arith,
      total-insert p rest (remove p q.priority_queues),
      get-remove p p q.priority_queues v.unique,
      eqb_ℤ_iff p p,
    )

    empty-IsValid : Common.is_empty rest ≡ true → IsValid (select_single q p b).queue
    unfolding select_single rest
    empty-IsValid e =
        rw (found, e, select_single)
          (record {
            counted = ground (arith, rest-Counts);
            small = omega (arith, rest-Counts);
            unique = remove-IsUnique p q.priority_queues v.unique;
            descending = tt;
            covered = λ j h. absurd (alone j h);
          })

    left-IsValid : Common.is_empty rest ≡ false → IsValid (select_single q p b).queue
    unfolding select_single rest contains push
    left-IsValid e =
        rw (found, e, select_single)
          (record {
            counted = omega (arith, rest-Counts, restored);
            small = omega (arith, rest-Counts, restored);
            unique = insert-IsUnique p rest _ (remove-IsUnique p q.priority_queues v.unique);
            descending = (tt, tt);
            covered = λ j h.
                ground (
                  arith,
                  has_non_empty_queue-insert j p rest (remove p q.priority_queues),
                  alone j,
                );
          })

  missing-IsValid : get p q.priority_queues ≡ none → IsValid (select_single q p b).queue
  unfolding select_single contains has_non_empty_queue
  missing-IsValid e =
      rw (e, select_single)
        (record {
          counted = omega (arith, counted, v.counted);
          small = v.small;
          unique = v.unique;
          descending = tt;
          covered = λ j h. ground (arith, v.covered j h, eqb_ℤ_iff p j);
        })

  select_single-IsValid : IsValid (select_single q p b).queue
  unfolding rest
  select_single-IsValid = elim (Option-cases (get p q.priority_queues)) [
    | inl e ↦ missing-IsValid e
    | inr (queue, e) ↦ elim (Bool-cases (Common.is_empty (serve_single queue b).0)) [
      | inl f ↦ empty-IsValid queue e f
      | inr f ↦ left-IsValid queue e f
    ]
  ]

select_by-IsValid :
    (active : List ℤ) (q : WaitQueue) (m : Store) (available : ℕ)
    → q.active_priorities ≡ active
    → IsValid q
    → IsValid (select_by active q (start q m available)).queue
unfolding select_by
select_by-IsValid [] q m available e v = select_multiple-IsValid q m available v
select_by-IsValid (p ∷ []) q m available e v =
    select_single-IsValid q p (start q m available) v e refl
select_by-IsValid (p ∷ _ ∷ _) q m available e v = select_multiple-IsValid q m available v

pub select-IsValid :
    (q : WaitQueue) (m : Store) (available : ℕ)
    → IsValid q
    → IsValid (select_waiters_to_notify q m available).queue
unfolding select_waiters_to_notify
select-IsValid q m available v =
    let by = select_by-IsValid q.active_priorities q m available refl v in
    elim (Bool-cases (available == 0 || q.total_waiters == 0)) [ inl e ↦ rw e v | inr e ↦ rw e by ]

-- Every operation keeps the wait queue well formed (its counter counts the waiters in its queues, no
-- priority has two queues, the heap is in order and holds every priority with a waiter): selecting,
-- for any number of permits and whatever the waiters went through, removing a waiter, whether it is
-- in the queue or not, closing, and pushing one, as long as one more waiter does not overflow the
-- counter.
pub operations-IsValid :
    (q : WaitQueue) (m : Store) (n i needed : ℕ) (p : ℤ)
    → IsValid q
    → q.total_waiters + 1 < usize_mod
    → IsValid (select_waiters_to_notify q m n).queue
      × IsValid (push_waiter q m needed p).1
      × IsValid (remove_waiter q m i)
      × IsValid (WaitQueue.close q m).0
operations-IsValid q m n i needed p v room = (
  select-IsValid q m n v,
  push_waiter-IsValid q m needed p v room,
  remove_waiter-IsValid q m i v,
  close-IsValid q m,
)
