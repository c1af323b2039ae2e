-- ===== src/WaitQueue/HandingOut/Levels.antt =====
-- queue.rs, `process_multiple_priorities_optimized`, where every waiter needs one permit.
use ranked_semaphore.Common.{
  ℕ, ◌+◌, ◌≡◌, refl, ap, sym, ◌∙◌, true, false, not, ◌&&◌, none, some, List, [], ◌∷◌, ◌++◌, arith,
  if◌then◌else◌, Bool-cases, Option-cases, List-cases, inl, inr, subst,
}
use ranked_semaphore.Common.Int.{ℤ}
use ranked_semaphore.Waker.{can_push}
use ranked_semaphore.Waker.Contents.{Holds}
use ranked_semaphore.Waiter.{Store}
use ranked_semaphore.PriorityMap.{PriorityQueues, get, insert, get_mut_or_create}
use ranked_semaphore.WaitQueue.Settling.{is_spent, serve_levels-spent, served_round}
use ranked_semaphore.WaitQueue.Rules.{after_level}
use ranked_semaphore.WaitQueue.ServiceOrder.{
  Handed, is_over, hand_out, hand_out-over, hand_out-append, queue_at, clear-vacant,
  queue_at-cleared, service_order,
}
use ranked_semaphore.WaitQueue.HandingOut.{Unserved, Follows, Processed, process_level-Processed}
use ranked_semaphore.WaitQueue.Select.{Batch, process_level, Levels, serve_levels}

-- The outer loop, against the specification from the same state.
abbrev pub LevelsRun : ℕ → List ℕ → ℕ → List ℕ → Store → Batch → Type 0
LevelsRun total is n ks m b = Follows total b (hand_out is n ks m)

module _ (p : ℤ) (ps : List ℤ) (m : PriorityQueues) where
  skip-order :
      queue_at m p ≡ [] → service_order (p ∷ ps) (queue_at m) ≡ service_order ps (queue_at m)
  unfolding service_order
  skip-order e = rw (e, clear-vacant p (queue_at m) e) refl

  none-vacant : get p m ≡ none → queue_at m p ≡ []
  unfolding get_mut_or_create
  none-vacant e = ground (arith, e)

  some-queue : (is : List ℕ) → get p m ≡ some is → queue_at m p ≡ is
  unfolding get_mut_or_create
  some-queue is e = ground (arith, e)

  first-order :
      (is : List ℕ)
      → get p m ≡ some is
      → service_order (p ∷ ps) (queue_at m) ≡ is ++ service_order ps (queue_at (insert p [] m))
  unfolding service_order
  first-order is e = rw (some-queue is e, queue_at-cleared p m) refl

spent-over :
    (b : Batch) (n : ℕ) (ks : List ℕ)
    → b.available ≡ n
    → Holds b.wake_list ks
    → is_spent b ≡ is_over n ks
unfolding is_spent can_push
spent-over b n ks e h = ground (arith, h.counted, h.fits)

-- Where the batch is spent, the specification hands out nothing more.
Follows-spent :
    (total : ℕ) (b : Batch) (h : Handed) (is : List ℕ)
    → is_spent b ≡ true
    → Follows total b h
    → Follows total b (hand_out is h.left h.tasks h.store)
Follows-spent total b h is e f =
    rw
      (hand_out-over is h.left h.tasks h.store
        (sym (spent-over b h.left h.tasks f.left f.held) ∙ e))
      f

-- From where the specification is after one queue, to where it is after the rest.
go_on :
    (total : ℕ) (b : Batch) (h : Handed) (is : List ℕ) (c : Batch)
    → Follows total b h
    → LevelsRun (b.assigned + b.available) is b.available h.tasks b.store c
    → Follows total c (hand_out is h.left h.tasks h.store)
go_on total b h is c f run =
    let sum : b.assigned + b.available ≡ total = omega (arith, f.left, f.divided) in
    subst (λ t. Follows t c (hand_out is h.left h.tasks h.store)) sum
      (subst (λ n. Follows (b.assigned + b.available) c (hand_out is n h.tasks h.store)) f.left
        (subst (λ m. Follows (b.assigned + b.available) c (hand_out is b.available h.tasks m))
          f.store run))

-- One queue and the rest of the loop, against the specification.
module _ (p : ℤ) (ps : List ℤ) (m : PriorityQueues) (b : Batch) (restore : List ℤ) (ks : List ℕ)
    (x : ℕ) (xs : List ℕ) (there : get p m ≡ some (x ∷ xs))
    (u : Unserved b.store (service_order (p ∷ ps) (queue_at m))) (h : Holds b.wake_list ks) where
  abbrev rest : List ℕ
  rest = service_order ps (queue_at (insert p [] m))

  abbrev after : Levels
  after = after_level p ps m b restore (x ∷ xs)

  abbrev more : Levels
  more = serve_levels ps after.queues after.batch after.to_restore

  abbrev handed : Handed
  handed = hand_out (x ∷ xs) b.available ks b.store

  unserved : Unserved b.store ((x ∷ xs) ++ rest)
  unserved = subst (Unserved b.store) (first-order p ps m (x ∷ xs) there) u

  processed : Processed b (x ∷ xs) rest ks (process_level (x ∷ xs) b)
  processed = process_level-Processed b (x ∷ xs) rest ks unserved h

  total_order :
      (c : Batch)
      → Follows (b.assigned + b.available) c (hand_out rest handed.left handed.tasks handed.store)
      → LevelsRun
          (b.assigned + b.available)
          (service_order (p ∷ ps) (queue_at m))
          b.available
          ks
          b.store
          c
  total_order c f =
      rw (first-order p ps m (x ∷ xs) there, hand_out-append (x ∷ xs) rest b.available ks b.store) f

  after-spent :
      is_spent after.batch ≡ true
      → (c : Batch) → c ≡ after.batch
      → Follows (b.assigned + b.available) c (hand_out rest handed.left handed.tasks handed.store)
  after-spent e c same =
      rw same (Follows-spent (b.assigned + b.available) _ _ rest e processed.follows)

  next_order :
      (process_level (x ∷ xs) b).queue ≡ [] → service_order ps (queue_at after.queues) ≡ rest
  next_order e = ap (λ is. service_order ps (queue_at (insert p is m))) e

  served_eq :
      is_spent b ≡ false
      → serve_levels (p ∷ ps) m b restore ≡ (
          if (process_level (x ∷ xs) b).processed_any && not (can_push after.batch.wake_list)
          then after
          else more)
  unfolding is_spent
  served_eq e = served_round p ps m b restore x xs e there (ground (arith, unserved.1))

pub serve_levels-none :
    (p : ℤ) (ps : List ℤ) (m : PriorityQueues) (b : Batch) (restore : List ℤ)
    → is_spent b ≡ false
    → get p m ≡ none
    → serve_levels (p ∷ ps) m b restore ≡ serve_levels ps m b restore
unfolding serve_levels is_spent
serve_levels-none p ps m b restore e f = rw (e, f, serve_levels) refl

pub serve_levels-nil :
    (p : ℤ) (ps : List ℤ) (m : PriorityQueues) (b : Batch) (restore : List ℤ)
    → is_spent b ≡ false
    → get p m ≡ some []
    → serve_levels (p ∷ ps) m b restore ≡ serve_levels ps m b restore
unfolding serve_levels is_spent
serve_levels-nil p ps m b restore e f = rw (e, f, serve_levels) refl

Follows-start :
    (b : Batch) (ks : List ℕ)
    → Holds b.wake_list ks
    → Follows
        (b.assigned + b.available)
        b
        (record { left = b.available; tasks = ks; store = b.store })
Follows-start b ks h = record { left = refl; store = refl; held = h; divided = refl }

-- The loop over the priorities does what the specification does along the service order.
pub serve_levels-Follows :
    (ps : List ℤ) (m : PriorityQueues) (b : Batch) (restore : List ℤ) (ks : List ℕ)
    → Unserved b.store (service_order ps (queue_at m))
    → Holds b.wake_list ks
    → LevelsRun
        (b.assigned + b.available)
        (service_order ps (queue_at m))
        b.available
        ks
        b.store
        (serve_levels ps m b restore).batch
unfolding serve_levels service_order hand_out is_spent
serve_levels-Follows [] m b restore ks u h = Follows-start b ks h
serve_levels-Follows (p ∷ ps) m b restore ks u h = elim (Bool-cases (is_spent b)) [
  | inl f ↦
      rw (serve_levels-spent (p ∷ ps) m b restore f)
        (Follows-spent _ b _ (service_order (p ∷ ps) (queue_at m)) f (Follows-start b ks h))
  | inr f ↦ elim (Option-cases (get p m)) [
    | inl e ↦
        let skipped = skip-order p ps m (none-vacant p ps m e) in
        rw (serve_levels-none p ps m b restore f e, skipped)
          (serve_levels-Follows ps m b restore ks (subst (Unserved b.store) skipped u) h)
    | inr (queue, e) ↦ elim (List-cases queue) [
      | inl nil ↦
          let empty = e ∙ ap some nil in
          let skipped = skip-order p ps m (some-queue p ps m [] empty) in
          rw (serve_levels-nil p ps m b restore f empty, skipped)
            (serve_levels-Follows ps m b restore ks (subst (Unserved b.store) skipped u) h)
      | inr (x, xs, cons) ↦
          let there : get p m ≡ some (x ∷ xs) = e ∙ ap some cons in
          let known = processed p ps m b restore ks x xs there u h in
          let over = after-spent p ps m b restore ks x xs there u h in
          let level = process_level (x ∷ xs) b in
          let next = after_level p ps m b restore (x ∷ xs) in
          rw (served_eq p ps m b restore ks x xs there u h f) (
            total_order p ps m b restore ks x xs there u h _
              (elim (Bool-cases (level.processed_any && not (can_push next.batch.wake_list))) [
                | inl full ↦ rw full (over (ground arith) _ refl)
                | inr goes ↦ rw goes (elim known.done [
                  | inl stops ↦
                      over stops _
                        (serve_levels-spent ps next.queues next.batch next.to_restore stops)
                  | inr (empty, behind) ↦
                      let same = next_order p ps m b restore ks x xs there u h empty in
                      go_on _ _ _ _ _ known.follows (
                        subst
                          (λ is.
                            LevelsRun (next.batch.assigned + next.batch.available) is
                              next.batch.available (hand_out (x ∷ xs) b.available ks b.store).tasks
                              next.batch.store
                              (serve_levels ps next.queues next.batch next.to_restore).batch)
                          same
                          (serve_levels-Follows ps next.queues next.batch next.to_restore _
                            (subst (Unserved next.batch.store) (sym same) behind)
                            known.follows.held))
                ])
              ]))
    ]
  ]
]
