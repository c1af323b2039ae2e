-- ===== src/WaitQueue/Remaining.antt =====
-- queue.rs, `select_waiters_to_notify`: who stays in the queue.
use ranked_semaphore.Common.{
  ℕ, ◌<◌, ◌≡◌, refl, ap, sym, ◌∙◌, Bool, true, false, not, ◌||◌, some, none, List, [], ◌∷◌, ◌++◌,
  ◌==◌, arith, Bool-cases, Option-cases, List-cases, inl, inr, ◌⊎◌, if_rule, subst, retain,
  if◌then◌else◌,
}
use ranked_semaphore.Common
use ranked_semaphore.Common.Int.{ℤ, eqb_ℤ, eqb_ℤ_iff}
use ranked_semaphore.Waiter.{Store, is_waiting, is_cancelled}
use ranked_semaphore.PriorityHeap
use ranked_semaphore.PriorityMap.{PriorityQueues, get, insert, remove, get_mut_or_create}
use ranked_semaphore.PriorityMap.Laws.{IsUnique, get-insert, get-remove}
use ranked_semaphore.WaitQueue.{WaitQueue}
use ranked_semaphore.WaitQueue.Ready.{member}
use ranked_semaphore.WaitQueue.Order.{cancelled-not_waiting, serve-not_waiting}
use ranked_semaphore.WaitQueue.ServiceOrder.{queue_at}
use ranked_semaphore.WaitQueue.Settling.{settled-Keeps, settled-LevelKeeps}
use ranked_semaphore.WaitQueue.Turns.{waiting-live}
use ranked_semaphore.WaitQueue.Rules.{
  Keeps, LevelKeeps, serve_single-Keeps, serve_level-Keeps, serve_levels-Keeps,
}
use ranked_semaphore.WaitQueue.Select.{
  Batch, serve, discard, serve_single, serve_level, process_level, Levels, Selection, start, finish,
  select_single, select_multiple, select_by, select_waiters_to_notify,
}

member-retain :
    (keep : ℕ → Bool) (is : List ℕ) (i : ℕ)
    → keep i ≡ true
    → member i is ≡ true
    → member i (retain keep is) ≡ true
unfolding member
member-retain keep [] i stays at = at
member-retain keep (j ∷ js) i stays at = elim (Bool-cases (j == i)) [
  | inl e ↦
      let f : j ≡ i = ground arith in let g : keep j ≡ true = ap keep f ∙ stays in ground arith
  | inr e ↦
      let rest = member-retain keep js i stays (ground arith) in
      elim (Bool-cases (keep j)) [ inl g ↦ ground arith | inr g ↦ ground arith ]
]

pub queue_at-insert :
    (r p : ℤ) (is : List ℕ) (m : PriorityQueues)
    → queue_at (insert p is m) r ≡ (if eqb_ℤ p r then is else queue_at m r)
unfolding get_mut_or_create
queue_at-insert r p is m = ground (arith, get-insert r p is m)

queue_at-remove :
    (r p : ℤ) (m : PriorityQueues)
    → IsUnique m
    → queue_at (remove p m) r ≡ (if eqb_ℤ p r then [] else queue_at m r)
unfolding get_mut_or_create
queue_at-remove r p m u = ground (arith, get-remove r p m u)

found_at : (p : ℤ) (is : List ℕ) (m : PriorityQueues) → get p m ≡ some is → queue_at m p ≡ is
unfolding get_mut_or_create
found_at p is m e = ground (arith, e)

-- The waiter `i` of the priority `p`.
module _ (i : ℕ) (p : ℤ) where
  -- The waiter does not wait any more, or it is in the queue.
  Remains : List ℕ → Batch → Type 0
  Remains is b = (is_waiting (b.store.cell i) ≡ false) ⊎ (member i is ≡ true)

  Remains-Keeps : Keeps Remains
  unfolding Remains discard member
  Remains-Keeps = record {
    by_discard = λ k is b c h. elim h [
      | inl done ↦ inl done
      | inr at ↦ elim (Bool-cases (k == i)) [
        | inl e ↦
            let f : k ≡ i = ground arith in
            inl (
              cancelled-not_waiting (b.store.cell i)
                (subst (λ o. is_cancelled (b.store.cell o) ≡ true) f c))
        | inr e ↦ inr (ground arith)
      ]
    ];
    by_serve = λ k is b r c le h. elim h [
      | inl done ↦ inl ((settled-Keeps i).by_serve k is b r c le done)
      | inr at ↦ elim (Bool-cases (k == i)) [
        | inl e ↦
            let f : k ≡ i = ground arith in
            inl
              (subst (λ o. is_waiting ((serve k b).store.cell o) ≡ false) f (serve-not_waiting k b))
        | inr e ↦ inr (ground arith)
      ]
    ];
  }

  RemainsLevels : Levels → Type 0
  RemainsLevels l =
      (is_waiting (l.batch.store.cell i) ≡ false) ⊎ (member i (queue_at l.queues p) ≡ true)

  level-Remains :
      (is : List ℕ) (b : Batch)
      → member i is ≡ true
      → Remains (process_level is b).queue (process_level is b).batch
  unfolding process_level Remains
  level-Remains is b at =
      let done = serve_level-Keeps Remains Remains-Keeps is b false (inr at) in
      let after = (serve_level is b false).1 in
      elim (Bool-cases (is_waiting (after.store.cell i))) [
        | inr e ↦ inl e
        | inl e ↦ elim done [
          | inl f ↦ inl f
          | inr rest ↦ inr (member-retain _ _ i (waiting-live (after.store.cell i) e) rest)
        ]
      ]

  Remains-LevelKeeps : LevelKeeps RemainsLevels
  unfolding RemainsLevels Remains
  Remains-LevelKeeps = record {
    by_skip = λ r ps queues b restore e h. h;
    by_level = λ r ps queues b restore k is e h. elim h [
      | inl done ↦ inl ((settled-LevelKeeps i).by_level r ps queues b restore k is e done)
      | inr at ↦ elim (Bool-cases (eqb_ℤ r p)) [
        | inr f ↦ inr (rw (queue_at-insert p r (process_level (k ∷ is) b).queue queues, f) at)
        | inl f ↦
            let same : queue_at queues p ≡ k ∷ is =
              ap (queue_at queues) (sym ((eqb_ℤ_iff r p).0 f)) ∙ found_at r (k ∷ is) queues e in
            elim (level-Remains (k ∷ is) b (subst (λ js. member i js ≡ true) same at)) [
              | inl g ↦ inl g
              | inr g ↦ inr (rw (queue_at-insert p r (process_level (k ∷ is) b).queue queues, f) g)
            ]
      ]
    ];
  }

  RemainsSelection : Selection → Type 0
  RemainsSelection s =
      (is_waiting (s.store.cell i) ≡ false) ⊎ (member i (queue_at s.queue.priority_queues p) ≡ true)

  module _ (q : WaitQueue) (m : Store) (n : ℕ) (u : IsUnique q.priority_queues)
      (at : member i (queue_at q.priority_queues p) ≡ true) where
    unserved :
        (queues : PriorityQueues) (heap : List ℤ) (b : Batch)
        → Remains (queue_at queues p) b
        → RemainsSelection (finish q queues heap b)
    unfolding Remains RemainsSelection
    unserved queues heap b h = h

    start-Remains : Remains (queue_at q.priority_queues p) (start q m n)
    unfolding Remains
    start-Remains = inr at

    multiple-Remains : RemainsSelection (select_multiple q (start q m n))
    unfolding select_multiple RemainsSelection RemainsLevels
    multiple-Remains =
        serve_levels-Keeps RemainsLevels Remains-LevelKeeps q.active_priorities q.priority_queues
          (start q m n) [] (inr at)

    module _ (r : ℤ) (is : List ℕ) (e : get r q.priority_queues ≡ some is) where
      abbrev rest : List ℕ
      rest = (serve_single is (start q m n)).0

      abbrev batch : Batch
      batch = (serve_single is (start q m n)).1

      abbrev removed : PriorityQueues
      removed = remove r q.priority_queues

      served : eqb_ℤ r p ≡ true → Remains rest batch
      unfolding Remains
      served f =
          let same : queue_at q.priority_queues p ≡ is =
            ap (queue_at q.priority_queues) (sym ((eqb_ℤ_iff r p).0 f))
            ∙ found_at r is q.priority_queues e in
          serve_single-Keeps Remains Remains-Keeps is (start q m n)
            (inr (subst (λ js. member i js ≡ true) same at))

      kept : Remains (queue_at (insert r rest removed) p) batch
      unfolding Remains
      kept = elim (Bool-cases (eqb_ℤ r p)) [
        | inl f ↦ rw (queue_at-insert p r rest removed, f) (served f)
        | inr f ↦ inr (
            rw (queue_at-insert p r rest removed, f, queue_at-remove p r q.priority_queues u, f) at)
      ]

      emptied : Common.is_empty rest ≡ true → Remains (queue_at removed p) batch
      unfolding Remains member
      emptied none_left = elim (Bool-cases (eqb_ℤ r p)) [
        | inl f ↦ elim (served f) [
          | inl g ↦ inl g
          | inr g ↦ elim (List-cases rest) [
            | inl nil ↦ absurd (ground arith)
            | inr (x, xs, cons) ↦ absurd (ground arith)
          ]
        ]
        | inr f ↦ inr (rw (queue_at-remove p r q.priority_queues u, f) at)
      ]

      found-Remains : RemainsSelection (select_single q r (start q m n))
      unfolding select_single
      found-Remains = elim (Bool-cases (Common.is_empty rest)) [
        | inl f ↦ rw (e, select_single, f) (unserved removed [] batch (emptied f))
        | inr f ↦
            rw (e, select_single, f)
              (unserved (insert r rest removed) (PriorityHeap.push r []) batch kept)
      ]

    -- The branch for the single active priority `r`.
    single-Remains : (r : ℤ) → RemainsSelection (select_single q r (start q m n))
    unfolding select_single
    single-Remains r = elim (Option-cases (get r q.priority_queues)) [
      | inl e ↦ rw (e, select_single) (unserved q.priority_queues [] (start q m n) start-Remains)
      | inr (is, e) ↦ found-Remains r is e
    ]

    by-Remains : (active : List ℤ) → RemainsSelection (select_by active q (start q m n))
    unfolding select_by
    by-Remains [] = multiple-Remains
    by-Remains (r ∷ []) = single-Remains r
    by-Remains (r ∷ s ∷ ps) = multiple-Remains

    -- A queued waiter does not wait any more behind a selection, or it is still queued.
    pub select-Remains :
        let s = select_waiters_to_notify q m n in
        (is_waiting (s.store.cell i) ≡ false)
        ⊎ (member i (queue_at s.queue.priority_queues p) ≡ true)
    unfolding select_waiters_to_notify RemainsSelection
    select-Remains =
        let by = by-Remains q.active_priorities in
        elim (Bool-cases (n == 0 || q.total_waiters == 0)) [
          | inl e ↦ rw e (inr at)
          | inr e ↦ rw e by
        ]
