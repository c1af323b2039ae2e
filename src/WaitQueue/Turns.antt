-- ===== src/WaitQueue/Turns.antt =====
-- queue.rs, `select_waiters_to_notify`: two waiters of one priority.
pub mod Newcomers
pub mod Kept
use ranked_semaphore.Common.{
  ℕ, ◌+◌, ◌<◌, ◌≡◌, refl, ap, ◌∙◌, sym, ◌≢◌, Bool, true, false, not, ◌||◌, some, none, List, [],
  ◌∷◌, ◌++◌, ◌==◌, arith, Bool-cases, Option-cases, inl, inr, ◌⊎◌, if_rule, subst, retain,
  if◌then◌else◌,
}
use ranked_semaphore.Common
use ranked_semaphore.PriorityHeap
use ranked_semaphore.Common.Int.{ℤ, eqb_ℤ, eqb_ℤ_iff}
use ranked_semaphore.Waiter.{WaiterState, new_handle, Store, is_waiting, is_cancelled}
use ranked_semaphore.PriorityMap.{PriorityQueues, get, insert, remove, get_mut_or_create}
use ranked_semaphore.PriorityMap.Laws.{IsUnique, get-insert, get-remove}
use ranked_semaphore.WaitQueue.{WaitQueue, enqueue, insert_waiter_optimized, push_waiter}
use ranked_semaphore.Config.{QueueStrategy, fifo, lifo, resolve_strategy}
use ranked_semaphore.WaitQueue.Ready.{member, AllReady, Ready-not_member}
use ranked_semaphore.WaitQueue.Order.{cancelled-not_waiting, serve-not_waiting, serve-others}
use ranked_semaphore.WaitQueue.Settling.{settled-Keeps, settled-LevelKeeps, Ready-member}
use ranked_semaphore.WaitQueue.LevelRanking.{Ranked}
use ranked_semaphore.WaitQueue.Rules.{
  Keeps, LevelKeeps, serve_single-Keeps, serve_level-Keeps, serve_levels-Keeps,
}
use ranked_semaphore.WaitQueue.Select.{
  Selection, Batch, serve, discard, serve_single, serve_level, process_level, Levels, serve_levels,
  select_single, select_multiple, select_by, select_waiters_to_notify, start, finish,
}

-- The waiter `i` stands in the queue before any `j`.
pub before : ℕ → ℕ → List ℕ → Bool
before i j [] = false
before i j (k ∷ ks) = if k == i then true else if k == j then false else before i j ks

pub waiting-live : (x : WaiterState) → is_waiting x ≡ true → not (is_cancelled x) ≡ true
unfolding is_waiting is_cancelled
waiting-live x e = ground arith

module _ (r p : ℤ) (new js : List ℕ) (queues : PriorityQueues) where
  pub put : eqb_ℤ p r ≡ true → get r (insert p new queues) ≡ some js → new ≡ js
  put e f = ground (arith, get-insert r p new queues)

  pub others : eqb_ℤ p r ≡ false → get r (insert p new queues) ≡ some js → get r queues ≡ some js
  others e f = ground (arith, get-insert r p new queues)

module _ (i j : ℕ) (apart : i ≢ j) where
  -- If `j` is in the queue then behind `i`.
  pub Line : List ℕ → Type 0
  Line is = (not (member j is) || before i j is) ≡ true

  tail-Line : (k : ℕ) (is : List ℕ) → Line (k ∷ is) → k ≢ i → (k ≢ j) × Line is
  unfolding Line member before
  tail-Line k is h ne = ground arith

  retain-Line : (keep : ℕ → Bool) (is : List ℕ) → keep i ≡ true → Line is → Line (retain keep is)
  unfolding Line member before
  retain-Line keep [] stays h = refl
  retain-Line keep (k ∷ ks) stays h = elim (Bool-cases (k == i)) [
    | inl e ↦
        let f : k ≡ i = ground arith in let g : keep k ≡ true = ap keep f ∙ stays in ground arith
    | inr e ↦
        let rest = retain-Line keep ks stays (tail-Line k ks h (λ f. ground arith)).1 in
        elim (Bool-cases (keep k)) [ inl g ↦ ground arith | inr g ↦ ground arith ]
  ]

  -- In every queue `j` is behind `i`.
  pub Lines : PriorityQueues → Type 0
  Lines queues = (p : ℤ) (is : List ℕ) → get p queues ≡ some is → Line is

  pub insert-Lines :
      (p : ℤ) (new : List ℕ) (queues : PriorityQueues)
      → Line new
      → Lines queues
      → Lines (insert p new queues)
  unfolding Lines
  insert-Lines p new queues line lines r js f = elim (Bool-cases (eqb_ℤ p r)) [
    | inl g ↦ subst Line (put r p new js queues g f) line
    | inr g ↦ lines r js (others r p new js queues g f)
  ]

  remove-Lines :
      (p : ℤ) (queues : PriorityQueues) → IsUnique queues → Lines queues → Lines (remove p queues)
  unfolding Lines
  remove-Lines p queues u lines r js f = lines r js (ground (arith, get-remove r p queues u, f))

  module _ (m : Store) where
    -- The waiter `i` does not wait any more, or `j` is as it was and behind it.
    Turn : List ℕ → Batch → Type 0
    Turn is b = (is_waiting (b.store.cell i) ≡ false) ⊎ ((b.store.cell j ≡ m.cell j) × Line is)

    Turn-Keeps : Keeps Turn
    unfolding Turn discard
    Turn-Keeps = record {
      by_discard = λ k is b c h. elim h [
        | inl done ↦ inl done
        | inr (same, line) ↦ elim (Bool-cases (k == i)) [
          | inl e ↦
              let f : k ≡ i = ground arith in
              inl (
                cancelled-not_waiting (b.store.cell i)
                  (subst (λ o. is_cancelled (b.store.cell o) ≡ true) f c))
          | inr e ↦ inr (same, (tail-Line k is line (λ f. ground arith)).1)
        ]
      ];
      by_serve = λ k is b r c le h. elim h [
        | inl done ↦ inl ((settled-Keeps i).by_serve k is b r c le done)
        | inr (same, line) ↦ elim (Bool-cases (k == i)) [
          | inl e ↦
              let f : k ≡ i = ground arith in
              inl (
                subst (λ o. is_waiting ((serve k b).store.cell o) ≡ false) f
                  (serve-not_waiting k b))
          | inr e ↦
              let (ne, rest) = tail-Line k is line (λ f. ground arith) in
              inr (serve-others k b j (ground arith) ∙ same, rest)
        ]
      ];
    }

    LevelTurn : Levels → Type 0
    LevelTurn l =
        (is_waiting (l.batch.store.cell i) ≡ false)
        ⊎ ((l.batch.store.cell j ≡ m.cell j) × Lines l.queues)

    level-Turn :
        (is : List ℕ) (b : Batch)
        → Turn is b
        → Turn (process_level is b).queue (process_level is b).batch
    unfolding process_level Turn
    level-Turn is b h =
        let done = serve_level-Keeps Turn Turn-Keeps is b false h in
        let after = (serve_level is b false).1 in
        elim (Bool-cases (is_waiting (after.store.cell i))) [
          | inr e ↦ inl e
          | inl e ↦ elim done [
            | inl f ↦ inl f
            | inr (same, line) ↦
                inr (same, retain-Line _ _ (waiting-live (after.store.cell i) e) line)
          ]
        ]

    Turn-LevelKeeps : LevelKeeps LevelTurn
    unfolding LevelTurn Lines Turn
    Turn-LevelKeeps = record {
      by_skip = λ p ps queues b restore e h. h;
      by_level = λ p ps queues b restore k is e h. elim h [
        | inl done ↦ inl ((settled-LevelKeeps i).by_level p ps queues b restore k is e done)
        | inr (same, lines) ↦ elim (level-Turn (k ∷ is) b (inr (same, lines p (k ∷ is) e))) [
          | inl x ↦ inl x
          | inr (same', line) ↦ inr (same', insert-Lines p _ queues line lines)
        ]
      ];
    }

    module _ (q : WaitQueue) (n : ℕ) (lines : Lines q.priority_queues) where
      -- The same of a selection, with its queues if no priority had two.
      Turned : Store → PriorityQueues → Type 0
      Turned s queues =
          (is_waiting (s.cell i) ≡ false)
          ⊎ ((s.cell j ≡ m.cell j) × (IsUnique q.priority_queues → Lines queues))

      TurnedSelection : Selection → Type 0
      TurnedSelection s = Turned s.store s.queue.priority_queues

      unserved :
          (active : List ℤ) → TurnedSelection (finish q q.priority_queues active (start q m n))
      unfolding TurnedSelection Turned
      unserved active = inr (refl, λ u. lines)

      single-Turned : (p : ℤ) → TurnedSelection (select_single q p (start q m n))
      unfolding select_single Turn Lines TurnedSelection Turned
      single-Turned p = elim (Option-cases (get p q.priority_queues)) [
        | inl e ↦ rw (e, select_single) (unserved [])
        | inr (is, e) ↦
            let rest = (serve_single is (start q m n)).0 in
            let b = (serve_single is (start q m n)).1 in
            let removed = remove p q.priority_queues in
            let turn : Turn rest b =
              serve_single-Keeps Turn Turn-Keeps is (start q m n) (inr (refl, lines p is e)) in
            let without : Turned b.store removed = elim turn [
              | inl done ↦ inl done
              | inr (same, line) ↦ inr (same, λ u. remove-Lines p q.priority_queues u lines)
            ] in
            let with_rest : Turned b.store (insert p rest removed) = elim turn [
              | inl done ↦ inl done
              | inr (same, line) ↦ inr (
                same,
                λ u. insert-Lines p rest removed line (remove-Lines p q.priority_queues u lines),
              )
            ] in
            rw (e, select_single) (if_rule TurnedSelection (Common.is_empty rest) without with_rest)
      ]

      multiple-Turned : TurnedSelection (select_multiple q (start q m n))
      unfolding select_multiple LevelTurn TurnedSelection Turned
      multiple-Turned =
          elim (serve_levels-Keeps LevelTurn Turn-LevelKeeps q.active_priorities q.priority_queues
            (start q m n) [] (inr (refl, lines))) [
              | inl done ↦ inl done
              | inr (same, kept) ↦ inr (same, λ u. kept)
            ]

      by-Turned : (active : List ℤ) → TurnedSelection (select_by active q (start q m n))
      unfolding select_by
      by-Turned [] = multiple-Turned
      by-Turned (p ∷ []) = single-Turned p
      by-Turned (p ∷ r ∷ ps) = multiple-Turned

      turned : TurnedSelection (select_waiters_to_notify q m n)
      unfolding select_waiters_to_notify
      turned =
          if_rule TurnedSelection (n == 0 || q.total_waiters == 0) (unserved q.active_priorities)
            (by-Turned q.active_priorities)

      pub select-Turns : Ranked i j m (select_waiters_to_notify q m n).store
      unfolding TurnedSelection Turned
      select-Turns = elim turned [ inl done ↦ inr done | inr (same, kept) ↦ inl same ]

      -- Behind a selection that leaves `i` waiting, `j` is as it was and behind it still.
      pub select-Lines :
          IsUnique q.priority_queues
          → let s = select_waiters_to_notify q m n in
            (is_waiting (s.store.cell i) ≡ false)
            ⊎ ((s.store.cell j ≡ m.cell j) × Lines s.queue.priority_queues)
      unfolding TurnedSelection Turned
      select-Lines u = elim turned [ inl done ↦ inl done | inr (same, kept) ↦ inr (same, kept u) ]
