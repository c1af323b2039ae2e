-- ===== src/Waiter/Reserved.antt =====
-- waiter.rs: the permits that are set aside for waiters that were notified and have not yet taken
-- them, and what the operations on one waiter do to their number.
use ranked_semaphore.Common.{
  ℕ, zero, suc, ◌+◌, ◌≤◌, ◌<◌, ◌≡◌, refl, ap, ◌==◌, arith, if◌then◌else◌, Bool-cases, inl, inr,
}
use ranked_semaphore.Common.Int.{ℤ}
use ranked_semaphore.Waiter.{WaiterState, Store, update, write, is_notified, new, new_handle}

-- What a waiter has been given: its demand, while it is notified.
unfoldable pub share : WaiterState → ℕ
share w = if is_notified w then w.permits_needed else 0

reserved_below : ℕ → (ℕ → WaiterState) → ℕ
reserved_below zero f = 0
reserved_below (suc n) f = reserved_below n f + share (f n)

-- The shares of all waiters.
pub reserved : Store → ℕ
reserved m = reserved_below m.next m.cell

reserved_below-outside :
    (n i : ℕ) (f : ℕ → WaiterState) (w : WaiterState)
    → n ≤ i
    → reserved_below n (update f i w) ≡ reserved_below n f
unfolding reserved_below
reserved_below-outside zero i f w h = refl
reserved_below-outside (suc n) i f w h = ground (arith, reserved_below-outside n i f w)

reserved_below-update :
    (n i : ℕ) (f : ℕ → WaiterState) (w : WaiterState)
    → i < n
    → reserved_below n (update f i w) + share (f i) ≡ reserved_below n f + share w
unfolding reserved_below
reserved_below-update zero i f w h = absurd (omega arith)
reserved_below-update (suc n) i f w h = elim (Bool-cases (i == n)) [
  | inl last ↦ ground (arith, reserved_below-outside n i f w)
  | inr below ↦ ground (arith, reserved_below-update n i f w)
]

-- Writing one waiter changes the sum by the difference of its shares.
pub reserved-write :
    (m : Store) (i : ℕ) (w : WaiterState)
    → i < m.next
    → reserved (write m i w) + share (m.cell i) ≡ reserved m + share w
unfolding reserved
reserved-write m i w h = reserved_below-update m.next i m.cell w h

-- A fresh waiter holds nothing.
pub reserved-new_handle :
    (m : Store) (needed : ℕ) (p : ℤ) → reserved (new_handle m needed p).1 ≡ reserved m
unfolding reserved new_handle share is_notified reserved_below new
reserved-new_handle m needed p =
    let e : m.next + 1 ≡ suc m.next = omega arith in
    rw e (ground (arith, reserved_below-outside m.next m.next m.cell (new needed p)))

pub reserved-none : (m : Store) → m.next ≡ 0 → reserved m ≡ 0
unfolding reserved reserved_below
reserved-none m e = rw e refl

reserved_below-same :
    (n : ℕ) (f g : ℕ → WaiterState)
    → ((i : ℕ) → i < n → g i ≡ f i)
    → reserved_below n g ≡ reserved_below n f
unfolding reserved_below
reserved_below-same zero f g h = refl
reserved_below-same (suc n) f g h =
    omega (
      arith,
      reserved_below-same n f g (λ i below. h i (omega arith)),
      ap share (h n (omega arith)),
    )

-- The same waiters hold the same.
pub reserved-same :
    (m m' : Store)
    → m'.next ≡ m.next
    → ((i : ℕ) → i < m.next → m'.cell i ≡ m.cell i)
    → reserved m' ≡ reserved m
unfolding reserved
reserved-same m m' e h = rw e (reserved_below-same m.next m.cell m'.cell h)
