-- ===== src/WaitQueue/Order.antt =====
-- queue.rs, `process_single_priority_fast`: in which order the waiters of one priority are served,
-- and when serving ends.
use ranked_semaphore.Common.{
  ℕ, ◌+◌, ◌-◌, ◌≤◌, ◌<◌, ◌≡◌, refl, ap, ◌≢◌, Bool, true, false, not, ◌||◌, Option, some, none, List,
  [], ◌∷◌, ◌++◌, ltb, leb, ◌==◌, arith, if◌then◌else◌, Bool-cases, inl, inr, ◌⊎◌, if_rule, subst,
  Option-cases, ltb→lt, ltb→le,
}
use ranked_semaphore.Common
use ranked_semaphore.Common.Int.{ℤ, eqb_ℤ_iff}
use ranked_semaphore.Waker.{WakeList, can_push}
use ranked_semaphore.Waiter.{
  WaiterState, Store, is_cancelled, is_waiting, try_notify, take_waker_under_lock,
}
use ranked_semaphore.PriorityMap.{PriorityQueues, get, insert, remove, get_mut_or_create}
use ranked_semaphore.PriorityMap.Laws.{IsUnique, get-insert, get-remove}
use ranked_semaphore.WaitQueue.{WaitQueue, is_empty}
use ranked_semaphore.WaitQueue.Invariant.{IsValid}
use ranked_semaphore.WaitQueue.Ready.{member}
use ranked_semaphore.WaitQueue.Select.{
  Batch, serve, discard, serve_single, Selection, select_single, select_by,
  select_waiters_to_notify, start, finish,
}

-- Why the first waiter of a queue is not served: the wake list is full, no permits are left, or they
-- are fewer than it needs.
abbrev pub Blocked : List ℕ → ℕ → WakeList → Store → Type 0
Blocked [] available l m = Unit
Blocked (i ∷ is) available l m =
    (can_push l ≡ false)
    ⊎ (available ≡ 0)
    ⊎ ((is_cancelled (m.cell i) ≡ false) × (available < (m.cell i).permits_needed))

-- A queue was served in order, from the batch `b` to `b'`: the waiters before `rest` do not wait any
-- more, the others were not touched, and `rest` is blocked.
pub record InOrder (queue : List ℕ) (b : Batch) (rest : List ℕ) (b' : Batch) : Type 0 where
  pub passed : List ℕ
  pub divided : queue ≡ passed ++ rest
  pub settled : (i : ℕ) → member i passed ≡ true → is_waiting (b'.store.cell i) ≡ false
  pub untouched : (i : ℕ) → member i passed ≡ false → b'.store.cell i ≡ b.store.cell i
  pub spent : b'.available + b'.assigned ≡ b.available + b.assigned
  pub blocked : Blocked rest b'.available b'.wake_list b'.store

stop :
    (queue : List ℕ) (b : Batch)
    → Blocked queue b.available b.wake_list b.store
    → InOrder queue b queue b
unfolding member
stop queue b h = record {
  passed = [];
  divided = refl;
  settled = λ i e. ground arith;
  untouched = λ i e. refl;
  spent = refl;
  blocked = h;
}

-- One more waiter in front, which the step to `b₁` settles.
pass :
    (i : ℕ) (is : List ℕ) (b b₁ : Batch) (rest : List ℕ) (b' : Batch)
    → is_waiting (b₁.store.cell i) ≡ false
    → ((j : ℕ) → (i == j) ≡ false → b₁.store.cell j ≡ b.store.cell j)
    → b₁.available + b₁.assigned ≡ b.available + b.assigned
    → InOrder is b₁ rest b'
    → InOrder (i ∷ is) b rest b'
unfolding member
pass i is b b₁ rest b' done same e o = record {
  passed = i ∷ o.passed;
  divided = ap (◌∷◌ i) o.divided;
  settled = λ j f. elim (Bool-cases (member j o.passed)) [
    | inl g ↦ o.settled j g
    | inr g ↦
        let e : i ≡ j = ground arith in
        rw (o.untouched j g) (subst (λ k. is_waiting (b₁.store.cell k) ≡ false) e done)
  ];
  untouched = λ j f. ground (arith, o.untouched j, same j);
  spent = omega (arith, o.spent);
  blocked = o.blocked;
}

pub cancelled-not_waiting : (x : WaiterState) → is_cancelled x ≡ true → is_waiting x ≡ false
unfolding is_cancelled is_waiting
cancelled-not_waiting x e = ground arith

pub serve-not_waiting : (i : ℕ) (b : Batch) → is_waiting ((serve i b).store.cell i) ≡ false
unfolding serve try_notify take_waker_under_lock is_waiting
serve-not_waiting i b = ground arith

pub serve-others :
    (i : ℕ) (b : Batch) (j : ℕ) → (i == j) ≡ false → (serve i b).store.cell j ≡ b.store.cell j
unfolding serve
serve-others i b j e = ground arith

serve-spent :
    (i : ℕ) (b : Batch)
    → (b.store.cell i).permits_needed ≤ b.available
    → (serve i b).available + (serve i b).assigned ≡ b.available + b.assigned
unfolding serve
serve-spent i b h = omega arith

full :
    {A : Type 0} (b : Batch)
    → (not (can_push b.wake_list) || b.available == 0) ≡ true
    → (can_push b.wake_list ≡ false) ⊎ (b.available ≡ 0) ⊎ A
full b e = elim (Bool-cases (can_push b.wake_list)) [
  | inl f ↦ inr (inl (ground arith))
  | inr f ↦ inl f
]

pub serve_single-InOrder :
    (queue : List ℕ) (b : Batch) → InOrder queue b (serve_single queue b).0 (serve_single queue b).1
unfolding serve_single discard
serve_single-InOrder [] b = stop [] b tt
serve_single-InOrder (i ∷ is) b =
    elim (Bool-cases (not (can_push b.wake_list) || b.available == 0)) [
      | inl e ↦ rw e (stop (i ∷ is) b (full b e))
      | inr e ↦ elim (Bool-cases (is_cancelled (b.store.cell i))) [
        | inl c ↦
            rw (e, c)
              (pass i is b (discard b) _ _ (cancelled-not_waiting (b.store.cell i) c) (λ j f. refl)
                refl (serve_single-InOrder is (discard b)))
        | inr c ↦ elim (Bool-cases (ltb b.available (b.store.cell i).permits_needed)) [
          | inl f ↦ rw (e, c, f) (stop (i ∷ is) b (inr (inr (c, ltb→lt _ _ f))))
          | inr f ↦
              rw (e, c, f)
                (pass i is b (serve i b) _ _ (serve-not_waiting i b) (serve-others i b)
                  (serve-spent i b (ltb→le _ _ f)) (serve_single-InOrder is (serve i b)))
        ]
      ]
    ]

empty : (is : List ℕ) → Common.is_empty is ≡ true → is ≡ []
empty [] e = refl
empty (i ∷ is) e = cc

-- What selecting with `n` permits does to the one queue that is active, that of the priority `p`.
pub record ServesQueue (p : ℤ) (n : ℕ) (queue : List ℕ) (m : Store) (s : Selection) : Type 0 where
  pub passed : List ℕ
  pub rest : List ℕ
  pub divided : queue ≡ passed ++ rest
  pub left : get_mut_or_create p s.queue.priority_queues ≡ rest
  pub settled : (i : ℕ) → member i passed ≡ true → is_waiting (s.store.cell i) ≡ false
  pub untouched : (i : ℕ) → member i passed ≡ false → s.store.cell i ≡ m.cell i
  pub blocked : Blocked rest (n - s.assigned) s.wake_list s.store

module _ (q : WaitQueue) (m : Store) (n : ℕ) (p : ℤ) (u : IsUnique q.priority_queues) where
  missing-ServesQueue :
      get p q.priority_queues ≡ none → ServesQueue p n [] m (select_single q p (start q m n))
  unfolding select_single get_mut_or_create member get
  missing-ServesQueue e =
      rw (e, select_single)
        (record {
          passed = [];
          rest = [];
          divided = refl;
          left = rw e refl;
          settled = λ i f. ground arith;
          untouched = λ i f. refl;
          blocked = tt;
        })

  module _ (queue : List ℕ) (found : get p q.priority_queues ≡ some queue) where
    rest : List ℕ
    rest = (serve_single queue (start q m n)).0

    order : InOrder queue (start q m n) rest (serve_single queue (start q m n)).1
    unfolding rest
    order = serve_single-InOrder queue (start q m n)

    left_when_empty :
        Common.is_empty rest ≡ true → get_mut_or_create p (remove p q.priority_queues) ≡ rest
    unfolding get_mut_or_create
    left_when_empty e =
        ground (arith, get-remove p p q.priority_queues u, eqb_ℤ_iff p p, empty rest e)

    left_otherwise : get_mut_or_create p (insert p rest (remove p q.priority_queues)) ≡ rest
    unfolding get_mut_or_create
    left_otherwise = ground (arith, get-insert p p rest (remove p q.priority_queues), eqb_ℤ_iff p p)

    finished :
        (queues : PriorityQueues) (active : List ℤ)
        → get_mut_or_create p queues ≡ rest
        → ServesQueue p n queue m (finish q queues active (serve_single queue (start q m n)).1)
    finished queues active e =
        let b = (serve_single queue (start q m n)).1 in
        let remaining : b.available ≡ n - b.assigned = omega (arith, order.spent) in
        record {
          passed = order.passed;
          rest = rest;
          divided = order.divided;
          left = e;
          settled = order.settled;
          untouched = order.untouched;
          blocked = subst (λ k. Blocked rest k b.wake_list b.store) remaining order.blocked;
        }

    found-ServesQueue : ServesQueue p n queue m (select_single q p (start q m n))
    unfolding select_single rest
    found-ServesQueue = elim (Bool-cases (Common.is_empty rest)) [
      | inl e ↦ rw (found, e, select_single) (finished _ _ (left_when_empty e))
      | inr e ↦ rw (found, e, select_single) (finished _ _ left_otherwise)
    ]

  single-ServesQueue :
      ServesQueue p n (get_mut_or_create p q.priority_queues) m (select_single q p (start q m n))
  unfolding get_mut_or_create
  single-ServesQueue = elim (Option-cases (get p q.priority_queues)) [
    | inl e ↦
        let f : get_mut_or_create p q.priority_queues ≡ [] = ground arith in
        rw f (missing-ServesQueue e)
    | inr (queue, e) ↦
        let f : get_mut_or_create p q.priority_queues ≡ queue = ground arith in
        rw f (found-ServesQueue queue e)
  ]

-- If only the priority `p` is active, there are permits and the counter says that somebody waits,
-- then selecting passes over the queue of `p` from its front: those passed over do not wait any
-- more, being cancelled or notified, no other waiter is touched, and the rest stays in the queue in
-- the same order. It stops only at the end of the queue, with a full wake list, without permits, or
-- at a live waiter that needs more permits than are left.
pub select-ServesQueue :
    (q : WaitQueue) (m : Store) (n : ℕ) (p : ℤ)
    → IsValid q
    → q.active_priorities ≡ p ∷ []
    → 0 < n
    → is_empty q ≡ false
    → ServesQueue p n (get_mut_or_create p q.priority_queues) m (select_waiters_to_notify q m n)
unfolding select_waiters_to_notify select_by select_single is_empty
select-ServesQueue q m n p v e pos some_wait =
    let f : (n == 0 || q.total_waiters == 0) ≡ false = ground arith in
    rw (f, e, select_by) (single-ServesQueue q m n p v.unique)
