-- ===== src/WaitQueue/ServiceOrder.antt =====
-- queue.rs, what a selection is for, where every waiter needs one permit: the waiters of all
-- priorities in one list, in the order in which they are to be served, and one loop that hands out
-- permits along it. Nothing of the map of queues, the heap of priorities, the array of wakers and
-- the two strategies of `select_waiters_to_notify` is left in it.
use mathlib.Core.Path.{fun_ext}
use ranked_semaphore.Common.{
  ℕ, ◌-◌, ◌≡◌, refl, ap, sym, ◌∙◌, Bool, true, ◌||◌, Option, none, some, List, [], ◌∷◌, ◌++◌,
  length, ◌==◌, arith, if◌then◌else◌, Bool-cases, inl, inr,
}
use ranked_semaphore.Common.Int.{ℤ, eqb_ℤ, eqb_ℤ_iff}
use ranked_semaphore.Waker.{num_wakers}
use ranked_semaphore.Waiter.{WaiterState, notified, Store, write, is_waiting}
use ranked_semaphore.PriorityMap.{PriorityQueues, insert, get_mut_or_create}
use ranked_semaphore.PriorityMap.Laws.{get-insert}

-- The permits that are left, the tasks to wake, and the waiters.
pub record Handed : Type 0 where
  pub left : ℕ
  pub tasks : List ℕ
  pub store : Store

-- A waiter that was given its permit.
abbrev pub told : WaiterState → WaiterState
told w = record w { state = notified; waker = record { waker = none } }

abbrev pub task_of : Option ℕ → List ℕ
task_of none = []
task_of (some k) = k ∷ []

abbrev pub is_over : ℕ → List ℕ → Bool
is_over n ks = n == 0 || length ks == num_wakers

-- Each waiter that waits gets a permit in turn, until there are none left or a batch of tasks is
-- full.
unfoldable pub hand_out : List ℕ → ℕ → List ℕ → Store → Handed
hand_out [] n ks m = record { left = n; tasks = ks; store = m }
hand_out (i ∷ is) n ks m =
    let passed = hand_out is n ks m in
    let given =
      hand_out is (n - 1) (ks ++ task_of (m.cell i).waker.waker) (write m i (told (m.cell i))) in
    if is_over n ks
    then record { left = n; tasks = ks; store = m }
    else if is_waiting (m.cell i)
    then given
    else passed

-- The queue of each priority, whatever represents it.
abbrev pub queue_at : PriorityQueues → ℤ → List ℕ
queue_at m p = get_mut_or_create p m

abbrev pub clear : ℤ → (ℤ → List ℕ) → ℤ → List ℕ
clear p f r = if eqb_ℤ p r then [] else f r

-- The waiters of the priorities, in the order of the priorities.
unfoldable pub service_order : List ℤ → (ℤ → List ℕ) → List ℕ
service_order [] f = []
service_order (p ∷ ps) f = f p ++ service_order ps (clear p f)

pub hand_out-over :
    (is : List ℕ) (n : ℕ) (ks : List ℕ) (m : Store)
    → is_over n ks ≡ true
    → hand_out is n ks m ≡ record { left = n; tasks = ks; store = m }
unfolding hand_out
hand_out-over [] n ks m e = refl
hand_out-over (i ∷ is) n ks m e = rw e refl

-- Handing out along one list and then another.
pub hand_out-append :
    (xs ys : List ℕ) (n : ℕ) (ks : List ℕ) (m : Store)
    → hand_out (xs ++ ys) n ks m
      ≡ (let h = hand_out xs n ks m in hand_out ys h.left h.tasks h.store)
unfolding hand_out
hand_out-append [] ys n ks m = refl
hand_out-append (i ∷ is) ys n ks m = elim (Bool-cases (is_over n ks)) [
  | inl e ↦ rw (e, hand_out-over ys n ks m e) refl
  | inr e ↦ elim (Bool-cases (is_waiting (m.cell i))) [
    | inl f ↦ rw (e, f) (hand_out-append is ys _ _ _)
    | inr f ↦ rw (e, f) (hand_out-append is ys n ks m)
  ]
]

pub clear-vacant : (p : ℤ) (f : ℤ → List ℕ) → f p ≡ [] → clear p f ≡ f
clear-vacant p f e = fun_ext λ r. elim (Bool-cases (eqb_ℤ p r)) [
  | inl g ↦ rw g (sym e ∙ ap f ((eqb_ℤ_iff p r).0 g))
  | inr g ↦ rw g refl
]

pub service_order-nobody :
    (ps : List ℤ) (f : ℤ → List ℕ) → ((p : ℤ) → f p ≡ []) → service_order ps f ≡ []
unfolding service_order
service_order-nobody [] f e = refl
service_order-nobody (p ∷ ps) f e = rw (e p, clear-vacant p f (e p)) (service_order-nobody ps f e)

pub queue_at-cleared :
    (p : ℤ) (m : PriorityQueues) → queue_at (insert p [] m) ≡ clear p (queue_at m)
unfolding get_mut_or_create
queue_at-cleared p m = fun_ext λ r. ground (arith, get-insert r p [] m)
