-- ===== src/WaitQueue/Turns/Newcomers.antt =====
-- queue.rs: a waiter that is pushed at a priority at which others wait, and the next selection.
use ranked_semaphore.Common.{
  ℕ, ◌<◌, ◌≡◌, refl, ap, ◌∙◌, sym, ◌≢◌, true, false, some, List, [], ◌∷◌, ◌++◌, ◌==◌, arith,
  Bool-cases, inl, inr, subst,
}
use ranked_semaphore.Common.Int.{ℤ, eqb_ℤ, eqb_ℤ_iff}
use ranked_semaphore.Waiter.{new_handle, Store}
use ranked_semaphore.PriorityMap.{PriorityQueues, get, insert, get_mut_or_create}
use ranked_semaphore.WaitQueue.{WaitQueue, enqueue, insert_waiter_optimized, push_waiter}
use ranked_semaphore.Config.{QueueStrategy, fifo, lifo, resolve_strategy}
use ranked_semaphore.WaitQueue.Ready.{member, AllReady, Ready-not_member}
use ranked_semaphore.WaitQueue.Settling.{Ready-member}
use ranked_semaphore.WaitQueue.LevelRanking.{Ranked}
use ranked_semaphore.WaitQueue.Select.{select_waiters_to_notify}
use ranked_semaphore.WaitQueue.Turns.{before, Line, Lines, put, others, select-Turns}

-- At a priority of first come, first served the waiter `i` that came first is served first, and at
-- one of last come, first served the waiter `j` that came last.
unfoldable pub InTurn : QueueStrategy → ℕ → ℕ → Store → Store → Type 0
InTurn fifo i j m m' = Ranked i j m m'
InTurn lifo i j m m' = Ranked j i m m'

-- Where the newcomer `j` of a priority stands to `i`, which was there.
unfoldable pub Aligned : QueueStrategy → (i j : ℕ) → i ≢ j → PriorityQueues → Type 0
Aligned fifo i j apart queues = Lines i j apart queues
Aligned lifo i j apart queues = Lines j i (λ e. apart (sym e)) queues

Line-outside : (i j : ℕ) (apart : i ≢ j) (is : List ℕ) → member j is ≡ false → Line i j apart is
unfolding Line
Line-outside i j apart is e = ground arith

Line-last :
    (i j : ℕ) (apart : i ≢ j) (is : List ℕ)
    → member i is ≡ true
    → member j is ≡ false
    → Line i j apart (is ++ j ∷ [])
unfolding Line before member
Line-last i j apart [] at new = ground arith
Line-last i j apart (k ∷ ks) at new = elim (Bool-cases (k == i)) [
  | inl e ↦ ground arith
  | inr e ↦ let rest = Line-last i j apart ks (ground arith) (ground arith) in ground arith
]

Line-first : (i j : ℕ) (apart : i ≢ j) (is : List ℕ) → Line i j apart (i ∷ is)
unfolding Line before member
Line-first i j apart is = ground arith

module _ (q : WaitQueue) (m : Store) (n needed : ℕ) (p : ℤ) (is : List ℕ) (i : ℕ)
    (all : AllReady q.priority_queues m) (found : get p q.priority_queues ≡ some is)
    (at : member i is ≡ true) where
  ranked : (i < m.next) × ((m.cell i).priority ≡ p)
  ranked = Ready-member p m is i (all p is found) at

  unborn : (r : ℤ) (js : List ℕ) → get r q.priority_queues ≡ some js → member m.next js ≡ false
  unborn r js e = elim (Bool-cases (member m.next js)) [
    | inl f ↦ absurd (omega (arith, (Ready-member r m js m.next (all r js e) f).0))
    | inr f ↦ f
  ]

  elsewhere :
      (r : ℤ) (js : List ℕ)
      → eqb_ℤ p r ≡ false
      → get r q.priority_queues ≡ some js
      → member i js ≡ false
  elsewhere r js ne e =
      Ready-not_member r m js i (λ f. ground (arith, eqb_ℤ_iff p r, sym ranked.1 ∙ f)) (all r js e)

  apart : i ≢ m.next
  apart e = absurd (omega (arith, ranked.0, e))

  -- The queues in which the newcomer stands last at its priority, and those in which it stands first.
  last-Lines : Lines i m.next apart (insert p (is ++ m.next ∷ []) q.priority_queues)
  unfolding Lines
  last-Lines r js f = elim (Bool-cases (eqb_ℤ p r)) [
    | inl g ↦
        subst (Line i m.next apart) (put r p _ js q.priority_queues g f)
          (Line-last i m.next apart is at (unborn p is found))
    | inr g ↦ Line-outside i m.next apart js (unborn r js (others r p _ js q.priority_queues g f))
  ]

  first-Lines : Lines m.next i (λ e. apart (sym e)) (insert p (m.next ∷ is) q.priority_queues)
  unfolding Lines
  first-Lines r js f = elim (Bool-cases (eqb_ℤ p r)) [
    | inl g ↦
        subst (Line m.next i (λ e. apart (sym e))) (put r p _ js q.priority_queues g f)
          (Line-first m.next i (λ e. apart (sym e)) is)
    | inr g ↦
        Line-outside m.next i (λ e. apart (sym e)) js
          (elsewhere r js g (others r p _ js q.priority_queues g f))
  ]

  queue_found : get_mut_or_create p q.priority_queues ≡ is
  unfolding get_mut_or_create
  queue_found = ground (arith, found)

  abbrev pushed : WaitQueue
  pushed = (push_waiter q m needed p).1

  pushed_queues :
      pushed.priority_queues
      ≡ insert p (enqueue (resolve_strategy q.config p) m.next is) q.priority_queues
  unfolding push_waiter insert_waiter_optimized new_handle
  pushed_queues =
      ap (λ old. insert p (enqueue (resolve_strategy q.config p) m.next old) q.priority_queues)
        queue_found

  aligned :
      (s : QueueStrategy)
      → resolve_strategy q.config p ≡ s
      → Aligned s i m.next apart pushed.priority_queues
  unfolding Aligned
  aligned fifo e = subst (Lines i m.next apart) (sym (pushed_queues ∙ rw e refl)) last-Lines
  aligned lifo e =
      subst (Lines m.next i (λ f. apart (sym f))) (sym (pushed_queues ∙ rw e refl)) first-Lines

  turn :
      (m' : Store) (s : QueueStrategy)
      → Aligned s i m.next apart pushed.priority_queues
      → InTurn s i m.next m' (select_waiters_to_notify pushed m' n).store
  unfolding InTurn Aligned
  turn m' fifo lines = select-Turns i m.next apart m' pushed n lines
  turn m' lifo lines = select-Turns m.next i (λ f. apart (sym f)) m' pushed n lines

-- A waiter `j` is pushed at a priority at which the waiter `i` is queued, and then waiters are
-- selected with any number of permits. If the strategy of the priority is FIFO, `j` is left exactly
-- as it was, or `i` does not wait any more; if it is LIFO, the same holds with `i` and `j` exchanged.
-- This is so whatever the two need and whichever other priorities are active.
pub select-InTurn :
    (q : WaitQueue) (m : Store) (n needed : ℕ) (p : ℤ) (is : List ℕ) (i : ℕ)
    → AllReady q.priority_queues m
    → get p q.priority_queues ≡ some is
    → member i is ≡ true
    → let (j, r, m') = push_waiter q m needed p in
      InTurn (resolve_strategy q.config p) i j m' (select_waiters_to_notify r m' n).store
unfolding push_waiter new_handle
select-InTurn q m n needed p is i all found at =
    turn q m n needed p is i all found at (push_waiter q m needed p).2 (resolve_strategy q.config p)
      (aligned q m n needed p is i all found at (resolve_strategy q.config p) refl)

-- Where a newcomer is put.
pub push-Aligned :
    (q : WaitQueue) (m : Store) (needed : ℕ) (p : ℤ) (is : List ℕ) (i : ℕ)
    → AllReady q.priority_queues m
    → get p q.priority_queues ≡ some is
    → member i is ≡ true
    → (ne : i ≢ m.next) × Aligned
        (resolve_strategy q.config p)
        i
        m.next
        ne
        (push_waiter q m needed p).1.priority_queues
push-Aligned q m needed p is i all found at = (
  apart q m 0 needed p is i all found at,
  aligned q m 0 needed p is i all found at (resolve_strategy q.config p) refl,
)
