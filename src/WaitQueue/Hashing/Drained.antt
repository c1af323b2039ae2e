-- ===== src/WaitQueue/Hashing/Drained.antt =====
-- queue.rs, `drain_all_waiters`: which waiters it collects, whatever the order of the entries.
use ranked_semaphore.Common.{ℕ, ◌≡◌, true, [], ◌∷◌, sym, ◌∙◌, ap, arith, Bool-cases, inl, inr}
use ranked_semaphore.Common.Int.{ℤ, eqb_ℤ_iff}
use ranked_semaphore.PriorityMap.{PriorityQueues, get, get_mut_or_create, drain_all_waiters}
use ranked_semaphore.PriorityMap.Laws.{IsUnique}
use ranked_semaphore.PriorityMap.Hashing.{SameMap, queue-SameMap}
use ranked_semaphore.WaitQueue.Ready.{member, member-append}

pub member-drained :
    (i : ℕ) (p : ℤ) (m : PriorityQueues)
    → member i (get_mut_or_create p m) ≡ true
    → member i (drain_all_waiters m) ≡ true
unfolding get_mut_or_create get drain_all_waiters member
member-drained i p [] at = at
member-drained i p ((k, q) ∷ m) at =
    ground (arith, member-append i q (drain_all_waiters m), member-drained i p m)

-- A waiter of the map is in one of its queues.
drained-member :
    (i : ℕ) (m : PriorityQueues)
    → IsUnique m
    → member i (drain_all_waiters m) ≡ true
    → (p : ℤ) × (member i (get_mut_or_create p m) ≡ true)
unfolding drain_all_waiters get get_mut_or_create member
drained-member i [] u e = cc
drained-member i ((k, q) ∷ m) u e = elim (Bool-cases (member i q)) [
  | inl f ↦ (k, ground (arith, eqb_ℤ_iff k k))
  | inr f ↦
      let (p, g) =
        drained-member i m u.1 (ground (arith, member-append i q (drain_all_waiters m))) in
      (p, ground (arith, eqb_ℤ_iff k p, u.0))
]

drained-le :
    (i : ℕ) (m n : PriorityQueues)
    → IsUnique m
    → ((p : ℤ) → get_mut_or_create p m ≡ get_mut_or_create p n)
    → member i (drain_all_waiters m) ≡ true
    → member i (drain_all_waiters n) ≡ true
drained-le i m n u same e =
    let (p, f) = drained-member i m u e in member-drained i p n (ap (member i) (sym (same p)) ∙ f)

pub drained-SameMap :
    (i : ℕ) (m n : PriorityQueues)
    → SameMap m n
    → member i (drain_all_waiters m) ≡ member i (drain_all_waiters n)
drained-SameMap i m n h =
    let to = drained-le i m n h.unique (λ p. queue-SameMap p m n h) in
    let back = drained-le i n m h.unique' (λ p. sym (queue-SameMap p m n h)) in
    ground (arith, to, back)
