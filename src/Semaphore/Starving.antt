-- ===== src/Semaphore/Starving.antt =====
-- core.rs, `add_permits`: waiters that need more permits than one call gives back.
use ranked_semaphore.Common.{
  ℕ, ◌+◌, ◌≤◌, ◌<◌, ◌≡◌, refl, ◌∙◌, false, ◌||◌, Option, none, some, List, [], ◌∷◌, All, ltb, ◌==◌,
  arith, Bool-cases, inl, inr, if_rule,
}
use ranked_semaphore.Error.{Exit, returns, panics}
use ranked_semaphore.Waker
use ranked_semaphore.Waiter.{Store}
use ranked_semaphore.WaitQueue
use ranked_semaphore.WaitQueue.Demands.{Wants, Same, Same-reserved, Same-Wants, select-Same}
use ranked_semaphore.WaitQueue.Select.{Selection, select_waiters_to_notify}
use ranked_semaphore.Semaphore.{World, is_closed, available_permits, max_permits}
use ranked_semaphore.Semaphore.Batches.{
  IsSound, Released, released, granted, wake_all_not_full, add_permits-Released,
}
use ranked_semaphore.Semaphore.Release.{
  Leaves, leaves, returns_early, release_loop, add_remaining, finish_release, add_permits_locked,
  add_permits,
}

-- Permits come back in several calls, one after the other; `none` if one of them panics.
unfoldable pub releases : List ℕ → World → Option World
releases [] w = some w
releases (n ∷ ns) w = elim (add_permits 1 n w) [
  | none ↦ none
  | some (v, e) ↦ elim e [ returns done ↦ releases ns v | panics ↦ none ]
]

abbrev pub sum : List ℕ → ℕ
sum [] = 0
sum (n ∷ ns) = n + sum ns

-- How the loop leaves the waiters as they were.
Unchanged : Store → Option Leaves → Type 0
Unchanged m none = ⊥
Unchanged m (some (returns_early v)) = Same m v.store
Unchanged m (some (leaves rem v)) = Same m v.store

-- How a call leaves them so.
Ends : Store → Option (World × Exit (Unit {0})) → Type 0
Ends m none = ⊥
Ends m (some (v, e)) = Same m v.store

itself : (m : Store) → Same m m
itself m = record { next = refl; cell = λ i below. refl }

finish-Ends :
    (m : Store) (o : Option Leaves)
    → Unchanged m o
    → Ends m (elim o [ none ↦ none | some l ↦ some (finish_release l) ])
unfolding Unchanged Ends finish_release add_remaining
finish-Ends m none h = h
finish-Ends m (some (returns_early v)) h = h
finish-Ends m (some (leaves rem v)) h = elim (Bool-cases (ltb 0 rem)) [
  | inl e ↦ rw e h
  | inr e ↦ rw e h
]

module _ (k n : ℕ) (w : World) (s : IsSound w) (wants : Wants k w.store) (few : n < k) where
  abbrev chosen : Selection
  chosen = select_waiters_to_notify w.waiters w.store n

  chosen-Same : Same w.store chosen.store
  chosen-Same = select-Same k n w.waiters w.store s.valid s.ready wants few

  loop-Unchanged : Unchanged w.store (release_loop 1 n w)
  unfolding Unchanged release_loop
  loop-Unchanged =
      let P = Unchanged w.store in
      rw (wake_all_not_full chosen.wake_list) (
        if_rule P (n == 0) (itself w.store) (
          if_rule P (WaitQueue.is_empty w.waiters) (itself w.store) (
            if_rule P (chosen.assigned == 0 || Waker.is_empty chosen.wake_list) chosen-Same
              (if_rule P (is_closed w.permits) chosen-Same chosen-Same))))

  call-Ends : Ends w.store (add_permits 1 n w)
  unfolding add_permits add_permits_locked Ends
  call-Ends = elim (Bool-cases (n == 0)) [
    | inl e ↦ rw e (itself w.store)
    | inr e ↦ rw (e, add_permits_locked) (finish-Ends w.store (release_loop 1 n w) loop-Unchanged)
  ]

-- The permits that are available grew by `more`, and every waiter is as it was.
abbrev pub Starves : ℕ → World → Option World → Type 0
Starves more w none = ⊥
Starves more w (some v) =
    (available_permits v.permits ≡ available_permits w.permits + more) × Same w.store v.store

-- Two calls in a row.
Starves-later :
    (a b : ℕ) (w v : World) (o : Option World)
    → available_permits v.permits ≡ available_permits w.permits + a
    → Same w.store v.store
    → Starves b v o
    → Starves (a + b) w o
Starves-later a b w v none grown same h = h
Starves-later a b w v (some u) grown same h = (
  omega (arith, h.0, grown),
  record {
    next = h.1.next ∙ same.next;
    cell = λ i below. h.1.cell i (omega (arith, same.next)) ∙ same.cell i below;
  },
)

available-grows :
    (n : ℕ) (w v : World)
    → Same w.store v.store
    → granted v ≡ granted w + n
    → available_permits v.permits ≡ available_permits w.permits + n
unfolding granted
available-grows n w v same sum = omega (arith, sum, Same-reserved w.store v.store same)

-- One call, and the calls behind it.
Starves-step :
    (n : ℕ) (ns : List ℕ) (w : World) (o : Option (World × Exit (Unit {0})))
    → available_permits w.permits + (n + sum ns) ≤ max_permits
    → ((v : World)
        → IsSound v
        → is_closed v.permits ≡ false
        → Same w.store v.store
        → available_permits v.permits + sum ns ≤ max_permits
        → Starves (sum ns) v (releases ns v))
    → Ends w.store o
    → Released n w o
    → Starves (n + sum ns) w (elim o [
      | none ↦ none
      | some (v, e) ↦ elim e [ returns done ↦ releases ns v | panics ↦ none ]
    ])
unfolding Ends
Starves-step n ns w o room rest same (released v e t opened balance grown exit) =
    let more = available-grows n w v same balance in
    elim exit [
      | inl fine ↦ rw fine (
          Starves-later n (sum ns) w v (releases ns v) more same
            (rest v t opened same (omega (arith, more, room))))
      | inr full ↦ absurd (omega (arith, full, more, room))
    ]

-- If every waiting task needs at least `k` permits, and permits come back in calls of
-- `add_permits` with fewer than `k` each, on an open semaphore between two calls with room for all
-- of them under the maximum, then no call panics, the permits that are available grow by their sum,
-- and every waiter is left exactly as it was: whoever waits goes on waiting, however many permits
-- become available.
pub add_permits-Starves :
    (k : ℕ) (ns : List ℕ) (w : World)
    → IsSound w
    → is_closed w.permits ≡ false
    → Wants k w.store
    → All (λ n. n < k) ns
    → available_permits w.permits + sum ns ≤ max_permits
    → Starves (sum ns) w (releases ns w)
unfolding releases
add_permits-Starves k [] w s opened wants few room = (omega arith, itself w.store)
add_permits-Starves k (n ∷ ns) w s opened wants few room =
    Starves-step n ns w (add_permits 1 n w) room
      (λ v t going same.
        add_permits-Starves k ns v t going (Same-Wants k w.store v.store same wants) few.1)
      (call-Ends k n w s wants few.0) (add_permits-Released 0 n w s opened (omega (arith, room)))
