-- ===== src/WaitQueue/Accounting.antt =====
-- queue.rs, `select_waiters_to_notify`: the permits that it assigns.
use ranked_semaphore.Common.{
  ℕ, ◌+◌, ◌≤◌, ◌≡◌, refl, sym, ◌∙◌, ◌≢◌, false, List, [], ◌∷◌, arith, Bool-cases, Option-cases, inl,
  inr, subst, if_rule,
}
use ranked_semaphore.Common.Int.{ℤ, eqb_ℤ, eqb_ℤ_iff}
use ranked_semaphore.Waker.Contents.{Holds, Holds-new}
use ranked_semaphore.Waiter.{Store}
use ranked_semaphore.Waiter.Reserved.{reserved}
use ranked_semaphore.PriorityMap.{PriorityQueues, get, insert, remove}
use ranked_semaphore.PriorityMap.Laws.{IsUnique, get-insert, get-remove}
use ranked_semaphore.WaitQueue.{WaitQueue}
use ranked_semaphore.WaitQueue.Invariant.{IsValid}
use ranked_semaphore.WaitQueue.Ready.{Ready, AllReady, Ready-retain}
use ranked_semaphore.WaitQueue.Serving.{Balanced, IsLocal, Serving, Serving-Keeps}
use ranked_semaphore.WaitQueue.Rules.{
  serve_single-Keeps, serve_level-Keeps, LevelKeeps, serve_levels-Keeps,
}
use ranked_semaphore.WaitQueue.Select.{
  Batch, process_level, Levels, Selection, select_single, select_multiple, select_by,
  select_waiters_to_notify, start,
}

Ready-IsLocal :
    (p q : ℤ) (m m' : Store) (is : List ℕ) → q ≢ p → IsLocal p m m' → Ready q m is → Ready q m' is
Ready-IsLocal p q m m' [] ne l r = tt
Ready-IsLocal p q m m' (i ∷ is) ne l r =
    let e = l.untouched i (λ f. ne (sym r.1 ∙ f)) in
    (
      omega (arith, l.same_next, r.0),
      l.same_priority i ∙ r.1,
      rw e (r.2),
      r.3,
      Ready-IsLocal p q m m' is ne l r.4,
    )

begin :
    (p : ℤ) (n k : ℕ) (is : List ℕ) (b : Batch)
    → Ready p b.store is
    → Balanced n k b
    → Serving p b.store n k is b
begin p n k is b r h = record {
  ready = r;
  balanced = h;
  local = record { same_next = refl; same_priority = λ i. refl; untouched = λ i ne. refl };
}

pub process_level-Serving :
    (p : ℤ) (n k : ℕ) (is : List ℕ) (b : Batch)
    → Ready p b.store is
    → Balanced n k b
    → Serving p b.store n k (process_level is b).queue (process_level is b).batch
unfolding process_level
process_level-Serving p n k is b r h =
    let s = serve_level-Keeps _ (Serving-Keeps p b.store n k) is b false (begin p n k is b r h) in
    record {
      ready = Ready-retain p _ _ _ s.ready;
      balanced = record {
        divided = s.balanced.divided;
        set_aside = s.balanced.set_aside;
        wakers = s.balanced.wakers;
        held = s.balanced.held;
      };
      local = s.local;
    }

-- The queues after one of them was served, and put back as `is`.
insert-AllReady :
    (p : ℤ) (queues : PriorityQueues) (m m' : Store) (is : List ℕ)
    → AllReady queues m
    → IsLocal p m m'
    → Ready p m' is
    → AllReady (insert p is queues) m'
insert-AllReady p queues m m' is all l r q js e = elim (Bool-cases (eqb_ℤ p q)) [
  | inl same ↦
      let f : is ≡ js = ground (arith, get-insert q p is queues) in
      let g : p ≡ q = (eqb_ℤ_iff p q).0 same in
      subst (λ j. Ready q m' j) f (subst (λ t. Ready t m' is) g r)
  | inr other ↦
      Ready-IsLocal p q m m' js (λ f. ground (arith, eqb_ℤ_iff p q)) l
        (all q js (ground (arith, get-insert q p is queues)))
]

remove-AllReady :
    (p : ℤ) (queues : PriorityQueues) (m m' : Store)
    → IsUnique queues
    → AllReady queues m
    → IsLocal p m m'
    → AllReady (remove p queues) m'
remove-AllReady p queues m m' u all l q js e =
    Ready-IsLocal p q m m' js (λ f. ground (arith, get-remove q p queues u, eqb_ℤ_iff p q)) l
      (all q js (ground (arith, get-remove q p queues u)))

pub record Running (n k : ℕ) (l : Levels) : Type 0 where
  pub ready : AllReady l.queues l.batch.store
  pub balanced : Balanced n k l.batch

pub Running-LevelKeeps : (n k : ℕ) → LevelKeeps (Running n k)
Running-LevelKeeps n k = record {
  by_skip = λ p ps m b restore e r. record { ready = r.ready; balanced = r.balanced };
  by_level = λ p ps m b restore i is e r.
      let s = process_level-Serving p n k (i ∷ is) b (r.ready p (i ∷ is) e) r.balanced in
      record {
        ready = insert-AllReady p m b.store _ _ r.ready s.local s.ready;
        balanced = s.balanced;
      };
}

pub start-Balanced : (q : WaitQueue) (m : Store) (n : ℕ) → Balanced n (reserved m) (start q m n)
start-Balanced q m n = record {
  divided = omega arith;
  set_aside = omega arith;
  wakers = [];
  held = Holds-new;
}

-- What the selection does with `n` permits.
pub record Accounted (m : Store) (n : ℕ) (s : Selection) : Type 0 where
  pub ready : AllReady s.queue.priority_queues s.store
  pub within : s.assigned ≤ n
  pub set_aside : reserved s.store ≡ reserved m + s.assigned
  pub wakers : List ℕ
  pub held : Holds s.wake_list wakers

accounted :
    (n : ℕ) (m : Store) (s : Selection) (b : Batch)
    → AllReady s.queue.priority_queues s.store
    → s.store ≡ b.store
    → s.assigned ≡ b.assigned
    → s.wake_list ≡ b.wake_list
    → Balanced n (reserved m) b
    → Accounted m n s
accounted n m s b r e f g h = record {
  ready = r;
  within = omega (arith, h.divided, f);
  set_aside = rw (e, f) h.set_aside;
  wakers = h.wakers;
  held = rw g h.held;
}

select_single-Accounted :
    (q : WaitQueue) (m : Store) (n : ℕ) (p : ℤ)
    → IsUnique q.priority_queues
    → AllReady q.priority_queues m
    → Accounted m n (select_single q p (start q m n))
unfolding select_single
select_single-Accounted q m n p u all = elim (Option-cases (get p q.priority_queues)) [
  | inl e ↦ rw (e, select_single) (accounted n m _ b all refl refl refl (start-Balanced q m n))
  | inr (queue, e) ↦
      let s =
        serve_single-Keeps _ (Serving-Keeps p m n (reserved m)) queue b
          (begin p n (reserved m) queue b (all p queue e) (start-Balanced q m n)) in
      let removed = remove-AllReady p q.priority_queues m _ u all s.local in
      let restored =
        insert-AllReady p (remove p q.priority_queues) _ _ _ removed
          (record { same_next = refl; same_priority = λ i. refl; untouched = λ i ne. refl })
          s.ready in
      rw (e, select_single)
        (if_rule (Accounted m n) _ (accounted n m _ _ removed refl refl refl s.balanced)
          (accounted n m _ _ restored refl refl refl s.balanced))
]
  where
    b : Batch
    b = start q m n

select_multiple-Accounted :
    (q : WaitQueue) (m : Store) (n : ℕ)
    → AllReady q.priority_queues m
    → Accounted m n (select_multiple q (start q m n))
unfolding select_multiple
select_multiple-Accounted q m n all =
    let r =
      serve_levels-Keeps _ (Running-LevelKeeps n (reserved m)) q.active_priorities q.priority_queues
        (start q m n) [] (record { ready = all; balanced = start-Balanced q m n }) in
    accounted n m _ _ r.ready refl refl refl r.balanced

select_by-Accounted :
    (active : List ℤ) (q : WaitQueue) (m : Store) (n : ℕ)
    → IsUnique q.priority_queues
    → AllReady q.priority_queues m
    → Accounted m n (select_by active q (start q m n))
unfolding select_by
select_by-Accounted [] q m n u all = select_multiple-Accounted q m n all
select_by-Accounted (p ∷ []) q m n u all = select_single-Accounted q m n p u all
select_by-Accounted (p ∷ _ ∷ _) q m n u all = select_multiple-Accounted q m n all

-- If every queued waiter is in the queue of its priority, once, and is waiting or cancelled, then
-- selecting with `n` permits assigns at most `n` of them, the permits set aside for notified
-- waiters grow by exactly what is assigned, the wake list holds its at most 32 wakers in its first
-- slots, and the waiters left in the queues are as required before.
pub select-Accounted :
    (q : WaitQueue) (m : Store) (n : ℕ)
    → IsValid q
    → AllReady q.priority_queues m
    → Accounted m n (select_waiters_to_notify q m n)
unfolding select_waiters_to_notify
select-Accounted q m n v all =
    if_rule (Accounted m n) _
      (accounted n m _ (start q m n) all refl refl refl (start-Balanced q m n))
      (select_by-Accounted q.active_priorities q m n v.unique all)
