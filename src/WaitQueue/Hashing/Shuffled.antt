-- ===== src/WaitQueue/Hashing/Shuffled.antt =====
-- queue.rs, `drain_all_waiters` and `close`: in which order waiters are drained and tasks are woken.
use mathlib.Core.Path.{fun_ext}
use mathlib.Core.List.{Perm, Permᴰ}
use mathlib.Core.List.Permᴰ
use ranked_semaphore.Common.{
  ℕ, ◌≡◌, refl, ap, true, false, some, List, [], ◌∷◌, ◌++◌, ◌==◌, arith, Bool-cases, inl, inr,
  subst,
}
use ranked_semaphore.Common.Int.{ℤ, eqb_ℤ, eqb_ℤ_iff}
use ranked_semaphore.Waiter
use ranked_semaphore.Waiter.{WaiterState, Store, update, write}
use ranked_semaphore.PriorityMap.{PriorityQueues, get, remove, drain_all_waiters}
use ranked_semaphore.PriorityMap.Hashing.{SameMap, remove-SameMap}
use ranked_semaphore.WaitQueue.{cancel_all}

exchange : (xs ys zs : List ℕ) → Permᴰ (xs ++ (ys ++ zs)) (ys ++ (xs ++ zs))
exchange [] ys zs = Permᴰ.refl _
exchange (x ∷ xs) ys zs =
    Permᴰ.trans (Permᴰ.cons refl (exchange xs ys zs)) (Permᴰ.symm (Permᴰ.middle x ys (xs ++ zs)))

-- One queue is taken to the front.
drained-front :
    (k : ℤ) (q : List ℕ) (n : PriorityQueues)
    → get k n ≡ some q
    → Permᴰ (drain_all_waiters n) (q ++ drain_all_waiters (remove k n))
unfolding get remove drain_all_waiters
drained-front k q [] e = cc
drained-front k q ((j, r) ∷ n) e = elim (Bool-cases (eqb_ℤ j k)) [
  | inl f ↦
      let here : r ≡ q = ground (arith, f, e) in
      rw (f, here) (Permᴰ.refl (q ++ drain_all_waiters n))
  | inr f ↦
      let rest = drained-front k q n (ground (arith, f, e)) in
      rw f (Permᴰ.trans (Permᴰ.append_left r rest) (exchange r q (drain_all_waiters (remove k n))))
]

-- The waiters of a map, whatever the order of its entries.
drained-Perm :
    (m n : PriorityQueues) → SameMap m n → Permᴰ (drain_all_waiters m) (drain_all_waiters n)
unfolding get remove drain_all_waiters
drained-Perm [] [] h = Permᴰ.nil
drained-Perm [] ((k, q) ∷ n) h = absurd (ground (arith, h.found k, eqb_ℤ_iff k k))
drained-Perm ((k, q) ∷ m) n h =
    let same : eqb_ℤ k k ≡ true = (eqb_ℤ_iff k k).1 refl in
    let there : get k n ≡ some q = ground (arith, h.found k, same) in
    let tails : SameMap m (remove k n) =
      subst (λ l. SameMap l (remove k n)) (ground (arith, same)) (remove-SameMap k _ n h) in
    Permᴰ.trans (Permᴰ.append_left q (drained-Perm m (remove k n) tails))
      (Permᴰ.symm (drained-front k q n there))

abbrev cancelled_at : ℕ → Store → Store
cancelled_at i m = write m i (Waiter.cancel (m.cell i)).0

writes-commute :
    (i j : ℕ) (x y : WaiterState) (m : Store)
    → (i == j) ≡ false
    → write (write m i x) j y ≡ write (write m j y) i x
writes-commute i j x y m e = ap with_cells (fun_ext λ k. ground (arith, e))
  where
    with_cells : (ℕ → WaiterState) → Store
    with_cells f = record { next = m.next; cell = f }

-- Two waiters that are cancelled one after the other.
cancel-swap :
    (i j : ℕ) (is : List ℕ) (m : Store)
    → Permᴰ (cancel_all (i ∷ j ∷ is) m).1 (cancel_all (j ∷ i ∷ is) m).1
unfolding cancel_all
cancel-swap i j is m = elim (Bool-cases (i == j)) [
  | inl e ↦
      let here : i ≡ j = ground arith in
      subst (λ o. Permᴰ (cancel_all (i ∷ o ∷ is) m).1 (cancel_all (o ∷ i ∷ is) m).1) here
        (Permᴰ.refl _)
  | inr e ↦
      let e' : (j == i) ≡ false = ground arith in
      let x = (Waiter.cancel (m.cell i)).0 in
      let y = (Waiter.cancel (m.cell j)).0 in
      let told = (Waiter.cancel (m.cell i)).1 in
      let told' = (Waiter.cancel (m.cell j)).1 in
      let first = write (write m i x) j y in
      rw (e, e')
        (subst
          (λ s.
            Permᴰ (told ++ (told' ++ (cancel_all is first).1))
              (told' ++ (told ++ (cancel_all is s).1)))
          (writes-commute i j x y m e) (exchange told told' (cancel_all is first).1))
]

cancel_all-Perm :
    {is js : List ℕ} (m : Store) → Permᴰ is js → Permᴰ (cancel_all is m).1 (cancel_all js m).1
unfolding cancel_all
cancel_all-Perm m Permᴰ.nil = Permᴰ.nil
cancel_all-Perm m (Permᴰ.cons {a} {b} {l₁ = is} {l₂ = js} e d) =
    subst (λ o. Permᴰ (cancel_all (a ∷ is) m).1 (cancel_all (o ∷ js) m).1) e
      (Permᴰ.append_left (Waiter.cancel (m.cell a)).1 (cancel_all-Perm (cancelled_at a m) d))
cancel_all-Perm m (Permᴰ.swap {a} {b} {a'} {b'} {l = is} e f) =
    subst (λ o. Permᴰ (cancel_all (a ∷ b ∷ is) m).1 (cancel_all (o ∷ b' ∷ is) m).1) f
      (subst (λ o. Permᴰ (cancel_all (a ∷ b ∷ is) m).1 (cancel_all (b ∷ o ∷ is) m).1) e
        (cancel-swap a b is m))
cancel_all-Perm m (Permᴰ.trans c d) = Permᴰ.trans (cancel_all-Perm m c) (cancel_all-Perm m d)

-- The tasks that closing wakes.
pub woken-Perm :
    (m n : PriorityQueues) (s : Store)
    → SameMap m n
    → Perm (cancel_all (drain_all_waiters m) s).1 (cancel_all (drain_all_waiters n) s).1
woken-Perm m n s h = ∣ cancel_all-Perm s (drained-Perm m n h) ∣₁
