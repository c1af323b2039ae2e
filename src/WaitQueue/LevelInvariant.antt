-- ===== src/WaitQueue/LevelInvariant.antt =====
-- queue.rs, `process_multiple_priorities_optimized`: the queue stays well formed.
use ranked_semaphore.Common.{
  ℕ, suc, ◌+◌, ◌≤◌, ◌<◌, ◌≡◌, Bool, true, false, not, ◌||◌, some, List, [], ◌∷◌, length, retain,
  reverse, arith,
}
use ranked_semaphore.Common.Int.{ℤ, eqb_ℤ_iff}
use ranked_semaphore.Common.Word.{usize_mod}
use ranked_semaphore.Waiter.{Store, is_cancelled}
use ranked_semaphore.PriorityMap.{
  PriorityQueues, get, insert, remove, get_mut_or_create, has_non_empty_queue,
}
use ranked_semaphore.PriorityMap.Laws.{
  IsUnique, total, insert-IsUnique, total-insert, total-remove, has_non_empty_queue-insert,
}
use ranked_semaphore.PriorityHeap.Laws.{
  contains, IsDescending, contains-push_all, contains-reverse, push_all-IsDescending,
}
use ranked_semaphore.WaitQueue.{WaitQueue}
use ranked_semaphore.WaitQueue.Invariant.{IsValid}
use ranked_semaphore.WaitQueue.Rules.{
  Keeps, serve_level-Keeps, after_level, LevelKeeps, serve_levels-Keeps,
}
use ranked_semaphore.WaitQueue.Select.{
  Batch, serve, discard, serve_level, process_level, Levels, serve_levels, select_multiple, start,
}

-- `n` waiters of the queue at hand are in it, beside `others` in other queues.
abbrev pub Counts : ℕ → ℕ → Batch → Type 0
Counts n others b = (b.total_waiters ≡ n + others) × (n + others < usize_mod)

pub serve-Counts :
    (i n others : ℕ) (b : Batch) → Counts (suc n) others b → Counts n others (serve i b)
unfolding serve
serve-Counts i n others b c = omega arith

pub discard-Counts :
    (n others : ℕ) (b : Batch) → Counts (suc n) others b → Counts n others (discard b)
unfolding discard
discard-Counts n others b c = omega arith

pub Counts-Keeps : (others : ℕ) → Keeps (λ is b. Counts (length is) others b)
Counts-Keeps others = record {
  by_discard = λ i is b c h. discard-Counts (length is) others b h;
  by_serve = λ i is b r c n h. serve-Counts i (length is) others b h;
}

length-retain-le : (keep : ℕ → Bool) (is : List ℕ) → length (retain keep is) ≤ length is
length-retain-le keep [] = omega arith
length-retain-le keep (i ∷ is) = ground (arith, length-retain-le keep is)

process_level-Counts :
    (is : List ℕ) (b : Batch) (others : ℕ)
    → Counts (length is) others b
    → Counts (length (process_level is b).queue) others (process_level is b).batch
unfolding process_level
process_level-Counts is b others c =
    let (rest, b', processed) = serve_level is b false in
    let c' : Counts (length rest) others b' =
      serve_level-Keeps _ (Counts-Keeps others) is b false c in
    let keep : ℕ → Bool = λ i. not (is_cancelled (b'.store.cell i)) in
    ground (arith, c', length-retain-le keep rest)

-- What the outer loop keeps: the priorities still in the heap and those to restore hold every
-- priority with a waiter.
record Going (l : Levels) : Type 0 where
  counted : l.batch.total_waiters ≡ total l.queues
  small : total l.queues < usize_mod
  unique : IsUnique l.queues
  descending : IsDescending l.active
  covered :
      (p : ℤ)
      → has_non_empty_queue p l.queues ≡ true
      → (contains p l.active || contains p l.to_restore) ≡ true

module _ (p : ℤ) (ps : List ℤ) (m : PriorityQueues) (b : Batch) (restore : List ℤ) where
  abbrev here : List ℤ → Levels
  here active = record { active = active; queues = m; batch = b; to_restore = restore }

  skip-Going : has_non_empty_queue p m ≡ false → Going (here (p ∷ ps)) → Going (here ps)
  unfolding contains
  skip-Going empty g = record {
    counted = g.counted;
    small = g.small;
    unique = g.unique;
    descending = g.descending.1;
    covered = λ j h. ground (arith, g.covered j h, eqb_ℤ_iff p j);
  }

  module _ (i : ℕ) (is : List ℕ) (found : get p m ≡ some (i ∷ is)) (g : Going (here (p ∷ ps))) where
    others : ℕ
    others = total (remove p m)

    left : List ℕ
    left = (process_level (i ∷ is) b).queue

    before : suc (length is) + others ≡ total m
    unfolding others get_mut_or_create
    before = ground (arith, total-remove p m)

    after : total (insert p left m) ≡ length left + others
    unfolding get_mut_or_create
    after = ground (arith, total-insert p left m, before)

    level-Counts : Counts (length left) others (process_level (i ∷ is) b).batch
    unfolding left
    level-Counts =
        process_level-Counts (i ∷ is) b others (omega (arith, before, g.counted, g.small))

    level-Going : Going (after_level p ps m b restore (i ∷ is))
    unfolding left contains has_non_empty_queue
    level-Going = record {
      counted = omega (arith, after, level-Counts);
      small = omega (arith, after, level-Counts);
      unique = insert-IsUnique p _ m g.unique;
      descending = g.descending.1;
      covered =
          λ j h. ground (arith, has_non_empty_queue-insert j p left m, eqb_ℤ_iff p j, g.covered j);
    }

Going-LevelKeeps : LevelKeeps Going
Going-LevelKeeps = record { by_skip = skip-Going; by_level = level-Going }

pub select_multiple-IsValid :
    (q : WaitQueue) (m : Store) (available : ℕ)
    → IsValid q
    → IsValid (select_multiple q (start q m available)).queue
unfolding select_multiple contains
select_multiple-IsValid q m available v = record {
  counted = g.counted;
  small = g.small;
  unique = g.unique;
  descending = push_all-IsDescending (reverse l.to_restore) l.active g.descending;
  covered = λ p h. ground (
    arith,
    g.covered p h,
    contains-push_all p (reverse l.to_restore) l.active,
    contains-reverse p l.to_restore,
  );
}
  where
    l : Levels
    l = serve_levels q.active_priorities q.priority_queues (start q m available) []

    g : Going l
    g =
        serve_levels-Keeps Going Going-LevelKeeps q.active_priorities q.priority_queues
          (start q m available) []
          (record {
            counted = v.counted;
            small = v.small;
            unique = v.unique;
            descending = v.descending;
            covered = λ p h. ground (arith, v.covered p h);
          })
