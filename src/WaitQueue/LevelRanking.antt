-- ===== src/WaitQueue/LevelRanking.antt =====
-- queue.rs, `process_multiple_priorities_optimized`: waiters of different priorities.
use ranked_semaphore.Common.{
  ℕ, ◌≡◌, refl, ap, ◌∙◌, sym, ◌≢◌, true, false, some, List, [], ◌∷◌, arith, Bool-cases,
  Option-cases, List-cases, inl, inr, ◌⊎◌, if_rule, subst,
}
use ranked_semaphore.Common.Int.{ℤ, ◌≤ℤ◌, ◌<ℤ◌, eqb_ℤ, eqb_ℤ_iff}
use ranked_semaphore.Waiter.{Store, is_waiting}
use ranked_semaphore.PriorityMap.{PriorityQueues, get}
use ranked_semaphore.PriorityMap.Laws.{get-insert}
use ranked_semaphore.PriorityHeap.Laws.{contains, IsDescending}
use ranked_semaphore.WaitQueue.Ready.{member}
use ranked_semaphore.WaitQueue.Rules.{serve_levels-Keeps, after_level}
use ranked_semaphore.WaitQueue.Accounting.{Running, Running-LevelKeeps, process_level-Serving}
use ranked_semaphore.WaitQueue.Settling.{
  OneEach, settled-LevelKeeps, process_level-OneEach, Ready-member, is_spent, Settles,
  process_level-Settles, serve_levels-spent, All-contains, vacant,
}
use ranked_semaphore.WaitQueue.Select.{Batch, process_level, Levels, serve_levels}

-- A waiter `j` of a lower priority is touched between two stores only if the waiter `i` of a higher
-- one does not wait afterwards.
abbrev pub Ranked : ℕ → ℕ → Store → Store → Type 0
Ranked i j m m' = (m'.cell j ≡ m.cell j) ⊎ (is_waiting (m'.cell i) ≡ false)

-- A waiter `i` at the higher priority `p` and a waiter `j` at the lower priority `r`.
module _ (n k i j : ℕ) (p r : ℤ) (lower : r <ℤ p) (is js : List ℕ) (at : member i is ≡ true)
    (below : member j js ≡ true) where
  abbrev levels : List ℤ → PriorityQueues → Batch → List ℤ → Levels
  levels ps m b restore = record { active = ps; queues = m; batch = b; to_restore = restore }

  pub record Starts (ps : List ℤ) (m : PriorityQueues) (b : Batch) (restore : List ℤ) : Type 0 where
    pub running : Running n k (levels ps m b restore)
    pub one : OneEach b.store
    pub sorted : IsDescending ps
    pub upper : get p m ≡ some is
    pub under : get r m ≡ some js

  module _ (q : ℤ) (ps : List ℤ) (m : PriorityQueues) (b : Batch) (restore : List ℤ) (x : ℕ)
      (xs : List ℕ) (found : get q m ≡ some (x ∷ xs)) (s : Starts (q ∷ ps) m b restore)
      (highest : p ≤ℤ q) where
    next : Levels
    next = after_level q ps m b restore (x ∷ xs)

    apart : r ≢ q
    apart e = absurd (ground arith)

    same : next.batch.store.cell j ≡ b.store.cell j
    unfolding next
    same =
        let rank = (Ready-member r b.store js j (s.running.ready r js s.under) below).1 in
        let served =
          process_level-Serving q n k (x ∷ xs) b (s.running.ready q (x ∷ xs) found)
            s.running.balanced in
        served.local.untouched j (λ e. apart (sym rank ∙ e))

    next-Starts : q ≢ p → Starts ps next.queues next.batch next.to_restore
    unfolding next
    next-Starts ne =
        let level = process_level (x ∷ xs) b in
        record {
          running = (Running-LevelKeeps n k).by_level q ps m b restore x xs found s.running;
          one = process_level-OneEach (x ∷ xs) b s.one;
          sorted = s.sorted.1;
          upper = ground (arith, get-insert p q level.queue m, eqb_ℤ_iff q p, ne, s.upper);
          under = ground (arith, get-insert r q level.queue m, eqb_ℤ_iff q r, apart, s.under);
        }

    settles : Settles (x ∷ xs) next.batch
    unfolding next
    settles =
        process_level-Settles (x ∷ xs) b (λ h f.
          s.one h (Ready-member q b.store (x ∷ xs) h (s.running.ready q (x ∷ xs) found) f).0)

    at_top : q ≡ p → member i (x ∷ xs) ≡ true
    at_top e =
        let f : get p m ≡ some (x ∷ xs) = subst (λ t. get t m ≡ some (x ∷ xs)) e found in
        let g : is ≡ x ∷ xs = ground (arith, s.upper) in subst (λ l. member i l ≡ true) g at

    -- What follows if the loop goes on, from what holds of it with the rest of the priorities.
    goes_on :
        (contains p ps ≡ true
          → q ≢ p
          → Ranked i j next.batch.store
              (serve_levels ps next.queues next.batch next.to_restore).batch.store)
        → contains p (q ∷ ps) ≡ true
        → Ranked i j b.store (serve_levels ps next.queues next.batch next.to_restore).batch.store
    unfolding Settles contains
    goes_on rest c = elim (Bool-cases (eqb_ℤ q p)) [
      | inl e ↦ elim settles [
        | inl f ↦ rw (serve_levels-spent ps next.queues next.batch next.to_restore f) (inl same)
        | inr h ↦ inr (
            serve_levels-Keeps _ (settled-LevelKeeps i) ps next.queues next.batch next.to_restore
              (h i (at_top ((eqb_ℤ_iff q p).0 e))))
      ]
      | inr e ↦ elim (rest (ground arith) (λ f. ground (arith, (eqb_ℤ_iff q p).1 f))) [
        | inl f ↦ inl (f ∙ same)
        | inr g ↦ inr g
      ]
    ]

  highest_first :
      (q : ℤ) (ps : List ℤ) → IsDescending (q ∷ ps) → contains p (q ∷ ps) ≡ true → p ≤ℤ q
  unfolding contains
  highest_first q ps d c = elim (Bool-cases (eqb_ℤ q p)) [
    | inl f ↦ let g : q ≡ p = (eqb_ℤ_iff q p).0 f in subst (λ t. t ≤ℤ q) g (omega arith)
    | inr f ↦ All-contains p q ps d.0 (ground arith)
  ]

  -- Skipping a priority without waiters.
  skip :
      (q : ℤ) (ps : List ℤ) (m : PriorityQueues) (b : Batch) (restore : List ℤ)
      → ((o : ℕ) (os : List ℕ) → get q m ≢ some (o ∷ os))
      → Starts (q ∷ ps) m b restore
      → contains p (q ∷ ps) ≡ true
      → (contains p ps ≡ true) × Starts ps m b restore
  unfolding contains member
  skip q ps m b restore nobody s c = elim (List-cases is) [
    | inl nil ↦ absurd (ground arith)
    | inr (o, os, cons) ↦
        let apart : q ≢ p = λ e.
          nobody o os (subst (λ t. get t m ≡ some (o ∷ os)) (sym e) (s.upper ∙ ap some cons)) in
        (
          ground (arith, eqb_ℤ_iff q p, apart),
          record {
            running =
                (Running-LevelKeeps n k).by_skip q ps m b restore (vacant q m nobody) s.running;
            one = s.one;
            sorted = s.sorted.1;
            upper = s.upper;
            under = s.under;
          },
        )
  ]

  -- `Ranked` between a store and the state of the loop.
  pub RankedLevels : Store → Levels → Type 0
  RankedLevels m l = Ranked i j m l.batch.store

  Ranked-RankedLevels : (m : Store) (l : Levels) → Ranked i j m l.batch.store → RankedLevels m l
  unfolding RankedLevels
  Ranked-RankedLevels m l h = h

  pub RankedLevels-Ranked : (m : Store) (l : Levels) → RankedLevels m l → Ranked i j m l.batch.store
  unfolding RankedLevels
  RankedLevels-Ranked m l h = h

  pub serve_levels-RankedLevels :
      (ps : List ℤ) (m : PriorityQueues) (b : Batch) (restore : List ℤ)
      → Starts ps m b restore
      → contains p ps ≡ true
      → RankedLevels b.store (serve_levels ps m b restore)
  unfolding serve_levels is_spent contains next
  serve_levels-RankedLevels [] m b restore s c = cc
  serve_levels-RankedLevels (q ∷ ps) m b restore s c = elim (Bool-cases (is_spent b)) [
    | inl f ↦ rw f (Ranked-RankedLevels _ _ (inl refl))
    | inr f ↦ elim (Option-cases (get q m)) [
      | inl e ↦
          let (d, t) = skip q ps m b restore (λ o os g. cc) s c in
          rw (f, e, serve_levels) (serve_levels-RankedLevels ps m b restore t d)
      | inr (queue, e) ↦ elim (List-cases queue) [
        | inl nil ↦
            let (d, t) = skip q ps m b restore (λ o os g. cc) s c in
            rw (f, e, nil, serve_levels) (serve_levels-RankedLevels ps m b restore t d)
        | inr (x, xs, cons) ↦
            let found : get q m ≡ some (x ∷ xs) = e ∙ ap some cons in
            let highest = highest_first q ps s.sorted c in
            let after = after_level q ps m b restore (x ∷ xs) in
            let stays : RankedLevels b.store (levels (q ∷ ps) m b restore) =
              Ranked-RankedLevels _ _ (inl refl) in
            let now : RankedLevels b.store after =
              Ranked-RankedLevels _ _ (inl (same q ps m b restore x xs found s highest)) in
            let rest : RankedLevels b.store
                (serve_levels ps after.queues after.batch after.to_restore) =
              Ranked-RankedLevels _ _ (
                goes_on q ps m b restore x xs found s highest
                  (λ d ne. RankedLevels-Ranked _ _ (
                    serve_levels-RankedLevels ps _ _ _
                      (next-Starts q ps m b restore x xs found s highest ne) d))
                  c) in
            rw (f, e, cons, serve_levels)
              (if_rule (RankedLevels b.store) _ stays (if_rule (RankedLevels b.store) _ now rest))
      ]
    ]
  ]
