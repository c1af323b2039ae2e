-- ===== src/WaitQueue/HandingOut/Complete.antt =====
-- queue.rs, what a selection is for: the loop along the service order serves everyone or has no
-- permits left, if it starts with few enough for one batch.
use ranked_semaphore.Common.{
  ℕ, ◌+◌, ◌-◌, ◌≤◌, ◌≡◌, refl, true, false, Option, none, some, List, [], ◌∷◌, ◌++◌, length,
  length-append, arith, Bool-cases, inl, inr, ◌⊎◌,
}
use ranked_semaphore.Waker.{num_wakers}
use ranked_semaphore.Waiter.{WaiterState, Store, write, is_waiting}
use ranked_semaphore.WaitQueue.Ready.{member}
use ranked_semaphore.WaitQueue.ServiceOrder.{Handed, told, task_of, is_over, hand_out}

told-settled : (w : WaiterState) → is_waiting (told w) ≡ false
unfolding is_waiting
told-settled w = refl

-- Who does not wait comes not to wait.
hand_out-settled :
    (is : List ℕ) (n : ℕ) (ks : List ℕ) (m : Store) (i : ℕ)
    → is_waiting (m.cell i) ≡ false
    → is_waiting ((hand_out is n ks m).store.cell i) ≡ false
unfolding hand_out
hand_out-settled [] n ks m i e = e
hand_out-settled (j ∷ is) n ks m i e = elim (Bool-cases (is_over n ks)) [
  | inl f ↦ rw f e
  | inr f ↦ elim (Bool-cases (is_waiting (m.cell j))) [
    | inl g ↦ rw (f, g) (hand_out-settled is _ _ _ i (ground (arith, told-settled (m.cell j))))
    | inr g ↦ rw (f, g) (hand_out-settled is n ks m i e)
  ]
]

length-task_of : (k : Option ℕ) → length (task_of k) ≤ 1
length-task_of none = omega arith
length-task_of (some k) = omega arith

-- The loop gave all permits away, or nobody on the list waits any more.
abbrev pub Complete : List ℕ → Handed → Type 0
Complete is h = (h.left ≡ 0) ⊎ ((i : ℕ) → member i is ≡ true → is_waiting (h.store.cell i) ≡ false)

-- One more waiter on the list, who does not wait.
Complete-cons :
    (j : ℕ) (is : List ℕ) (h : Handed)
    → is_waiting (h.store.cell j) ≡ false
    → Complete is h
    → Complete (j ∷ is) h
unfolding member
Complete-cons j is h e (inl f) = inl f
Complete-cons j is h e (inr f) = inr (λ i at. ground (arith, e, f i))

pub hand_out-Complete :
    (is : List ℕ) (n : ℕ) (ks : List ℕ) (m : Store)
    → n + length ks ≤ num_wakers
    → Complete is (hand_out is n ks m)
unfolding hand_out member
hand_out-Complete [] n ks m le = inr (λ i at. cc)
hand_out-Complete (j ∷ is) n ks m le = elim (Bool-cases (is_over n ks)) [
  | inl f ↦ rw f (inl (ground arith))
  | inr f ↦ elim (Bool-cases (is_waiting (m.cell j))) [
    | inl g ↦
        let k = (m.cell j).waker.waker in
        let h = hand_out is (n - 1) (ks ++ task_of k) (write m j (told (m.cell j))) in
        rw (f, g)
          (Complete-cons j is h
            (hand_out-settled is _ _ _ j (ground (arith, told-settled (m.cell j))))
            (hand_out-Complete is (n - 1) (ks ++ task_of k) (write m j (told (m.cell j)))
              (ground (arith, length-append ks (task_of k), length-task_of k))))
    | inr g ↦
        rw (f, g)
          (Complete-cons j is (hand_out is n ks m) (hand_out-settled is n ks m j g)
            (hand_out-Complete is n ks m le))
  ]
]
