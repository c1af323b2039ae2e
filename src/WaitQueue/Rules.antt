-- ===== src/WaitQueue/Rules.antt =====
-- queue.rs, the loops of `select_waiters_to_notify`: one invariant rule for each.
use ranked_semaphore.Common
use ranked_semaphore.Common.{
  ℕ, ◌≤◌, ◌<◌, ◌≡◌, refl, ap, ◌∙◌, Bool, true, false, not, ◌&&◌, ◌||◌, Option, none, some, List, [],
  ◌∷◌, ltb, ltb→le, ◌==◌, arith, if◌then◌else◌, Option-cases, Bool-cases, if_rule, List-cases, inl,
  inr,
}
use ranked_semaphore.Common.Int.{ℤ}
use ranked_semaphore.Waker.{can_push}
use ranked_semaphore.Waiter.{is_cancelled}
use ranked_semaphore.PriorityMap.{PriorityQueues, get, insert, has_non_empty_queue}
use ranked_semaphore.WaitQueue.Select.{
  Batch, serve, discard, serve_single, serve_level, process_level, Levels, serve_levels,
}

-- A statement about a queue and a batch that holds on as waiters are dropped and served.
pub record Keeps {ℓ} (P : List ℕ → Batch → Type ℓ) : Type ℓ where
  pub by_discard :
      (i : ℕ) (is : List ℕ) (b : Batch)
      → is_cancelled (b.store.cell i) ≡ true
      → P (i ∷ is) b
      → P is (discard b)
  pub by_serve :
      (i : ℕ) (is : List ℕ) (b : Batch)
      → can_push b.wake_list ≡ true
      → is_cancelled (b.store.cell i) ≡ false
      → (b.store.cell i).permits_needed ≤ b.available
      → P (i ∷ is) b
      → P is (serve i b)

stops : Batch → Bool
stops b = not (can_push b.wake_list) || b.available == 0

stops-room : (b : Batch) → stops b ≡ false → can_push b.wake_list ≡ true
unfolding stops
stops-room b e = ground arith

module _ {ℓ} (P : List ℕ → Batch → Type ℓ) (keep : Keeps P) where
  pub serve_single-Keeps :
      (is : List ℕ) (b : Batch) → P is b → P (serve_single is b).0 (serve_single is b).1
  unfolding serve_single stops
  serve_single-Keeps [] b h = h
  serve_single-Keeps (i ∷ is) b h = elim (Bool-cases (stops b)) [
    | inl s ↦ rw s h
    | inr s ↦ elim (Bool-cases (is_cancelled (b.store.cell i))) [
      | inl c ↦ rw (s, c) (serve_single-Keeps is (discard b) (keep.by_discard i is b c h))
      | inr c ↦ elim (Bool-cases (ltb b.available (b.store.cell i).permits_needed)) [
        | inl n ↦ rw (s, c, n) h
        | inr n ↦
            rw (s, c, n)
              (serve_single-Keeps is (serve i b)
                (keep.by_serve i is b (stops-room b s) c (ltb→le _ _ n) h))
      ]
    ]
  ]

  pub serve_level-Keeps :
      (is : List ℕ) (b : Batch) (processed : Bool)
      → P is b
      → P (serve_level is b processed).0 (serve_level is b processed).1
  unfolding serve_level stops
  serve_level-Keeps [] b processed h = h
  serve_level-Keeps (i ∷ is) b processed h = elim (Bool-cases (stops b)) [
    | inl s ↦ rw s h
    | inr s ↦ elim (Bool-cases (ltb b.available (b.store.cell i).permits_needed)) [
      | inl n ↦ rw (s, n) h
      | inr n ↦ elim (Bool-cases (is_cancelled (b.store.cell i))) [
        | inl c ↦
            rw (s, n, c) (serve_level-Keeps is (discard b) processed (keep.by_discard i is b c h))
        | inr c ↦
            rw (s, n, c)
              (serve_level-Keeps is (serve i b) true
                (keep.by_serve i is b (stops-room b s) c (ltb→le _ _ n) h))
      ]
    ]
  ]

-- The state of the outer loop after one priority.
abbrev pub after_level : ℤ → List ℤ → PriorityQueues → Batch → List ℤ → List ℕ → Levels
after_level p ps m b restore queue =
    let level = process_level queue b in
    record {
      active = ps;
      queues = insert p level.queue m;
      batch = level.batch;
      to_restore = if Common.is_empty level.queue then restore else p ∷ restore;
    }

-- A statement about the outer loop that holds on as a priority is skipped or processed.
pub record LevelKeeps {ℓ} (P : Levels → Type ℓ) : Type ℓ where
  pub by_skip :
      (p : ℤ) (ps : List ℤ) (m : PriorityQueues) (b : Batch) (restore : List ℤ)
      → has_non_empty_queue p m ≡ false
      → P (record { active = p ∷ ps; queues = m; batch = b; to_restore = restore })
      → P (record { active = ps; queues = m; batch = b; to_restore = restore })
  pub by_level :
      (p : ℤ) (ps : List ℤ) (m : PriorityQueues) (b : Batch) (restore : List ℤ) (i : ℕ)
      (is : List ℕ)
      → get p m ≡ some (i ∷ is)
      → P (record { active = p ∷ ps; queues = m; batch = b; to_restore = restore })
      → P (after_level p ps m b restore (i ∷ is))

none-empty : (p : ℤ) (m : PriorityQueues) → get p m ≡ none → has_non_empty_queue p m ≡ false
unfolding has_non_empty_queue
none-empty p m e = ground arith

nil-empty : (p : ℤ) (m : PriorityQueues) → get p m ≡ some [] → has_non_empty_queue p m ≡ false
unfolding has_non_empty_queue
nil-empty p m e = ground arith

spent : Batch → Bool
spent b = b.available == 0 || not (can_push b.wake_list)

module _ {ℓ} (P : Levels → Type ℓ) (keep : LevelKeeps P) where
  pub serve_levels-Keeps :
      (ps : List ℤ) (m : PriorityQueues) (b : Batch) (restore : List ℤ)
      → P (record { active = ps; queues = m; batch = b; to_restore = restore })
      → P (serve_levels ps m b restore)
  unfolding serve_levels spent
  serve_levels-Keeps [] m b restore h = h
  serve_levels-Keeps (p ∷ ps) m b restore h = elim (Bool-cases (spent b)) [
    | inl s ↦ rw s h
    | inr s ↦ elim (Option-cases (get p m)) [
      | inl e ↦
          rw (s, e, serve_levels)
            (serve_levels-Keeps ps m b restore (keep.by_skip p ps m b restore (none-empty p m e) h))
      | inr (queue, e) ↦ elim (List-cases queue) [
        | inl n ↦
            rw (s, e, n, serve_levels)
              (serve_levels-Keeps ps m b restore
                (keep.by_skip p ps m b restore (nil-empty p m (rw n at e)) h))
        | inr (i, is, c) ↦
            let done = keep.by_level p ps m b restore i is (e ∙ ap some c) h in
            rw (s, e, c, serve_levels)
              (if_rule P _ h (if_rule P _ done (serve_levels-Keeps ps _ _ _ done)))
      ]
    ]
  ]
