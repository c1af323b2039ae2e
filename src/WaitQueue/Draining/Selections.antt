-- ===== src/WaitQueue/Draining/Selections.antt =====
-- queue.rs, `select_waiters_to_notify`: how far a selection goes.
use ranked_semaphore.Common
use ranked_semaphore.PriorityHeap
use ranked_semaphore.Common.{
  ℕ, ◌+◌, ◌≤◌, ◌<◌, ◌≡◌, refl, ap, ◌∙◌, ◌≢◌, Bool, true, false, not, ◌&&◌, ◌||◌, Option, some, none,
  List, [], ◌∷◌, ltb, ◌==◌, arith, if◌then◌else◌, Bool-cases, Option-cases, List-cases, inl, inr,
  ◌⊎◌, if_rule, subst,
}
use ranked_semaphore.Common.Int.{ℤ, eqb_ℤ_iff}
use ranked_semaphore.Waker.{can_push}
use ranked_semaphore.Waiter.{Store, is_waiting}
use ranked_semaphore.Waiter.Reserved.{reserved}
use ranked_semaphore.PriorityMap.{PriorityQueues, get, insert, remove, get_mut_or_create}
use ranked_semaphore.PriorityMap.Laws.{get-le-total}
use ranked_semaphore.PriorityHeap.Laws.{contains}
use ranked_semaphore.WaitQueue.{WaitQueue}
use ranked_semaphore.WaitQueue.Invariant.{IsValid}
use ranked_semaphore.WaitQueue.Ready.{member, AllReady}
use ranked_semaphore.WaitQueue.Rules.{serve_levels-Keeps}
use ranked_semaphore.WaitQueue.Accounting.{Running, Running-LevelKeeps, start-Balanced}
use ranked_semaphore.WaitQueue.Order.{serve_single-InOrder}
use ranked_semaphore.WaitQueue.Ranking.{active}
use ranked_semaphore.WaitQueue.Settling.{
  OneEach, Ready-member, is_spent, Settles, serve_level-Settles, serve_single-eq-serve_level,
}
use ranked_semaphore.WaitQueue.Select.{
  Batch, serve_single, Selection, start, finish, select_single, select_multiple, select_by,
  select_waiters_to_notify,
}
use ranked_semaphore.WaitQueue.Draining.{Drains, DrainsLevels, serve_levels-DrainsLevels}

-- A selection has used up `n` permits or filled its wake list.
abbrev pub Exhausts : ℕ → Selection → Type 0
Exhausts n s = (s.assigned ≡ n) ⊎ (can_push s.wake_list ≡ false)

module _ (q : WaitQueue) (m : Store) (n : ℕ) (v : IsValid q) (all : AllReady q.priority_queues m)
    (one : OneEach m) (p : ℤ) (is : List ℕ) (i : ℕ) (found : get p q.priority_queues ≡ some is)
    (at : member i is ≡ true) where
  -- The selection is exhausted, or the waiter does not wait any more.
  DrainsSelection : Selection → Type 0
  DrainsSelection s = Exhausts n s ⊎ (is_waiting (s.store.cell i) ≡ false)

  batch-Drains :
      (b : Batch) (s : Selection)
      → b.available + b.assigned ≡ n
      → s.store ≡ b.store
      → s.wake_list ≡ b.wake_list
      → s.assigned ≡ b.assigned
      → Drains n (reserved m) i p is at b
      → DrainsSelection s
  unfolding DrainsSelection Drains is_spent
  batch-Drains b s sum e f g (inl spent) = elim (Bool-cases (can_push b.wake_list)) [
    | inl room ↦ inl (inl (ground (arith, sum, g)))
    | inr full ↦ inl (inr (rw f full))
  ]
  batch-Drains b s sum e f g (inr settled) = inr (rw e settled)

  multiple_drains : DrainsSelection (select_multiple q (start q m n))
  unfolding select_multiple DrainsLevels
  multiple_drains =
      let running : Running n (reserved m) _ = record {
        ready = all;
        balanced = start-Balanced q m n;
      } in
      let ends =
        serve_levels-Keeps _ (Running-LevelKeeps n (reserved m)) q.active_priorities
          q.priority_queues (start q m n) [] running in
      batch-Drains _ _ ends.balanced.divided refl refl refl (
        serve_levels-DrainsLevels n (reserved m) i p is at q.active_priorities q.priority_queues
          (start q m n) []
          (record {
            running = running;
            one = one;
            found = found;
            listed = active q p is i v found at;
          }))

  single_batch : Drains n (reserved m) i p is at (serve_single is (start q m n)).1
  unfolding Settles Drains is_spent
  single_batch =
      let b = start q m n in
      let one_of : (j : ℕ) → member j is ≡ true → (m.cell j).permits_needed ≡ 1 =
        λ j e. one j (Ready-member p m is j (all p is found) e).0 in
      rw (serve_single-eq-serve_level is b false one_of)
        (elim (serve_level-Settles is b false one_of) [
          | inl spent ↦ inl spent
          | inr settled ↦ inr (settled i at)
        ])

  single_drains :
      (x : ℤ) → q.active_priorities ≡ x ∷ [] → DrainsSelection (select_single q x (start q m n))
  unfolding select_single contains
  single_drains x e =
      let listed : contains p (x ∷ []) ≡ true =
        subst (λ ps. contains p ps ≡ true) e (active q p is i v found at) in
      let same : x ≡ p = (eqb_ℤ_iff x p).0 (ground arith) in
      let here : get x q.priority_queues ≡ some is =
        ap (λ t. get t q.priority_queues) same ∙ found in
      let done = λ (queues : PriorityQueues) (heap : List ℤ).
        batch-Drains (serve_single is (start q m n)).1
          (finish q queues heap (serve_single is (start q m n)).1)
          (omega (arith, (serve_single-InOrder is (start q m n)).spent)) refl refl refl
          single_batch in
      let rest = (serve_single is (start q m n)).0 in
      let others = remove x q.priority_queues in
      rw (here, select_single)
        (if_rule DrainsSelection (Common.is_empty rest) (done others [])
          (done (insert x rest others) (PriorityHeap.push x [])))

  by_drains :
      (ps : List ℤ) → q.active_priorities ≡ ps → DrainsSelection (select_by ps q (start q m n))
  unfolding select_by
  by_drains [] e = multiple_drains
  by_drains (x ∷ []) e = single_drains x e
  by_drains (x ∷ y ∷ ps) e = multiple_drains

  somebody : 0 < q.total_waiters
  unfolding get_mut_or_create member
  somebody =
      let (r, e) = get-le-total p q.priority_queues in
      elim (List-cases is) [
        | inl nil ↦ absurd (ground arith)
        | inr (o, os, cons) ↦ ground (arith, v.counted, e)
      ]

  early :
      (n == 0 || q.total_waiters == 0) ≡ true
      → DrainsSelection (finish q q.priority_queues q.active_priorities (start q m n))
  unfolding DrainsSelection
  early e = inl (inl (ground (arith, somebody)))

  one_drains : DrainsSelection (select_waiters_to_notify q m n)
  unfolding select_waiters_to_notify DrainsSelection
  one_drains =
      let by = by_drains q.active_priorities refl in
      elim (Bool-cases (n == 0 || q.total_waiters == 0)) [
        | inl e ↦ rw e (early e)
        | inr e ↦ rw e by
      ]

-- If every waiter needs one permit, then selecting with n permits gives all of them out or fills the
-- wake list, or else none of the waiters that were queued waits any more: each is notified, or was
-- cancelled.
pub select-drains :
    (q : WaitQueue) (m : Store) (n : ℕ)
    → IsValid q
    → AllReady q.priority_queues m
    → OneEach m
    → let s = select_waiters_to_notify q m n in
      Exhausts n s
      ⊎ ((p : ℤ) (is : List ℕ) (i : ℕ)
          → get p q.priority_queues ≡ some is
          → member i is ≡ true
          → is_waiting (s.store.cell i) ≡ false)
unfolding DrainsSelection
select-drains q m n v all one =
    let s = select_waiters_to_notify q m n in
    elim (Bool-cases (s.assigned == n)) [
      | inl e ↦ inl (inl (ground arith))
      | inr e ↦ elim (Bool-cases (can_push s.wake_list)) [
        | inr full ↦ inl (inr full)
        | inl room ↦ inr (λ p is i found at. elim (one_drains q m n v all one p is i found at) [
          | inr settled ↦ settled
          | inl (inl all_given) ↦ absurd (ground arith)
          | inl (inr full) ↦ cc
        ])
      ]
    ]
