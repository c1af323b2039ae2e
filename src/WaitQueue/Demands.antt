-- ===== src/WaitQueue/Demands.antt =====
-- queue.rs, `select_waiters_to_notify`: waiters that need more than the permits at hand.
use ranked_semaphore.Common.{
  ℕ, ◌+◌, ◌≤◌, ◌<◌, ◌≡◌, refl, ap, sym, ◌∙◌, true, false, ◌==◌, arith, Bool-cases, inl, inr, ◌⊎◌,
}
use ranked_semaphore.Waker.{WakeList}
use ranked_semaphore.Waiter.{Store, is_waiting, try_notify}
use ranked_semaphore.Waiter.Reserved.{reserved, reserved-same}
use ranked_semaphore.WaitQueue.{WaitQueue}
use ranked_semaphore.WaitQueue.Ready.{AllReady}
use ranked_semaphore.WaitQueue.Invariant.{IsValid}
use ranked_semaphore.WaitQueue.Rules.{Keeps}
use ranked_semaphore.WaitQueue.Selected.{select-keeps}
use ranked_semaphore.WaitQueue.Accounting.{select-Accounted}
use ranked_semaphore.WaitQueue.Select.{Batch, serve, discard, select_waiters_to_notify}

-- The waiter `i` is as it was, or it waited and was assigned its demand.
abbrev Untouched : Store → ℕ → Store → WakeList → ℕ → Type 0
Untouched m i m' l assigned =
    (m'.cell i ≡ m.cell i)
    ⊎ ((is_waiting (m.cell i) ≡ true) × ((m.cell i).permits_needed ≤ assigned))

serve-settled :
    (i j : ℕ) (b : Batch)
    → is_waiting (b.store.cell j) ≡ false
    → (serve j b).store.cell i ≡ b.store.cell i
unfolding serve try_notify is_waiting
serve-settled i j b f = ground (arith, f)

serve-apart : (i j : ℕ) (b : Batch) → (j == i) ≡ false → (serve j b).store.cell i ≡ b.store.cell i
unfolding serve
serve-apart i j b e = ground (arith, e)

serve-assigned :
    (j : ℕ) (b : Batch) → (serve j b).assigned ≡ b.assigned + (b.store.cell j).permits_needed
unfolding serve
serve-assigned j b = refl

Untouched-serve :
    (m : Store) (i j : ℕ) (b : Batch)
    → (b.store.cell i ≡ m.cell i)
    → Untouched m i (serve j b).store (serve j b).wake_list (serve j b).assigned
Untouched-serve m i j b same = elim (Bool-cases (j == i)) [
  | inl e ↦ elim (Bool-cases (is_waiting (b.store.cell j))) [
    | inl f ↦
        let here : j ≡ i = ground arith in
        let cell : b.store.cell j ≡ m.cell i = ap b.store.cell here ∙ same in
        inr (
          sym (ap is_waiting cell) ∙ f,
          omega (arith, serve-assigned j b, ap (λ w. w.permits_needed) cell),
        )
    | inr f ↦ inl (serve-settled i j b f ∙ same)
  ]
  | inr e ↦ inl (serve-apart i j b e ∙ same)
]

Untouched-Keeps : (m : Store) (i : ℕ) → Keeps (λ is b. Untouched m i b.store b.wake_list b.assigned)
unfolding discard serve
Untouched-Keeps m i = record {
  by_discard = λ j is b c h. h;
  by_serve = λ j is b room c enough h. elim h [
    | inl same ↦ Untouched-serve m i j b same
    | inr told ↦ inr (told.0, omega (arith, told.1))
  ];
}

-- Every waiter that waits needs at least `k` permits.
abbrev pub Wants : ℕ → Store → Type 0
Wants k m = (i : ℕ) → i < m.next → is_waiting (m.cell i) ≡ true → k ≤ (m.cell i).permits_needed

-- The same waiters, as they were.
pub record Same (m m' : Store) : Type 0 where
  pub next : m'.next ≡ m.next
  pub cell : (i : ℕ) → i < m.next → m'.cell i ≡ m.cell i

pub Same-reserved : (m m' : Store) → Same m m' → reserved m' ≡ reserved m
Same-reserved m m' s = reserved-same m m' s.next s.cell

pub Same-Wants : (k : ℕ) (m m' : Store) → Same m m' → Wants k m → Wants k m'
Same-Wants k m m' s h i exists waits =
    let below : i < m.next = omega (arith, s.next) in
    let e = s.cell i below in rw e (h i below (sym (ap is_waiting e) ∙ waits))

-- The waiters stay as many.
next-Keeps : (m : Store) → Keeps (λ is b. b.store.next ≡ m.next)
unfolding discard serve
next-Keeps m = record { by_discard = λ j is b c h. h; by_serve = λ j is b room c enough h. h }

-- A selection with fewer permits than any waiter needs changes no waiter.
pub select-Same :
    (k n : ℕ) (q : WaitQueue) (m : Store)
    → IsValid q
    → AllReady q.priority_queues m
    → Wants k m
    → n < k
    → Same m (select_waiters_to_notify q m n).store
select-Same k n q m valid ready wants few = record {
  next = select-keeps (λ s l a. s.next ≡ m.next) (next-Keeps m) q m n refl;
  cell = λ i below. elim (select-keeps (Untouched m i) (Untouched-Keeps m i) q m n (inl refl)) [
    | inl same ↦ same
    | inr told ↦
        let a = select-Accounted q m n valid ready in
        let need = wants i below told.0 in absurd (omega (arith, a.within, told.1, need, few))
  ];
}
