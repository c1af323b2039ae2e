-- ===== src/WaitQueue/HandingOut/Full.antt =====
-- queue.rs, what a selection is for: the loop along the service order, where a full batch of tasks
-- waits at the front.
use ranked_semaphore.Common.{
  ℕ, ◌+◌, ◌-◌, ◌≤◌, ◌≡◌, refl, true, false, some, List, [], ◌∷◌, ◌++◌, length, length-append, arith,
}
use ranked_semaphore.Waker.{num_wakers}
use ranked_semaphore.Waiter.{WaiterState, Store, write, is_waiting}
use ranked_semaphore.WaitQueue.Ready.{member, member-append}
use ranked_semaphore.WaitQueue.HandingOut.{Unserved}
use ranked_semaphore.WaitQueue.ServiceOrder.{Handed, told, is_over, hand_out}

-- A waiter that waits and has left a waker.
abbrev pub IsKeen : WaiterState → Type 0
IsKeen x = (is_waiting x ≡ true) × ((k : ℕ) × (x.waker.waker ≡ some k))

-- Different waiters who all wait and have left wakers.
pub AllKeen : Store → List ℕ → Type 0
AllKeen m [] = Unit
AllKeen m (i ∷ is) = IsKeen (m.cell i) × (member i is ≡ false) × AllKeen m is

write-AllKeen :
    (m : Store) (i : ℕ) (x : WaiterState) (is : List ℕ)
    → member i is ≡ false
    → AllKeen m is
    → AllKeen (write m i x) is
unfolding AllKeen member
write-AllKeen m i x [] out h = tt
write-AllKeen m i x (j ∷ is) out h =
    let same : (write m i x).cell j ≡ m.cell j = ground arith in
    (rw same h.0, h.1, write-AllKeen m i x is (ground arith) h.2)

-- What the loop leaves that gave a permit to everyone on the list.
pub record Given (is : List ℕ) (n : ℕ) (ks : List ℕ) (m : Store) (h : Handed) : Type 0 where
  pub left : h.left + length is ≡ n
  pub tasks : length h.tasks ≡ length ks + length is
  pub others : (j : ℕ) → member j is ≡ false → h.store.cell j ≡ m.cell j

pub hand_out-Given :
    (is : List ℕ) (n : ℕ) (ks : List ℕ) (m : Store)
    → AllKeen m is
    → length is ≤ n
    → length ks + length is ≤ num_wakers
    → Given is n ks m (hand_out is n ks m)
unfolding hand_out AllKeen member
hand_out-Given [] n ks m keen some_left room = record {
  left = omega arith;
  tasks = omega arith;
  others = λ j out. refl;
}
hand_out-Given (i ∷ is) n ks m keen some_left room =
    let goes : is_over n ks ≡ false = ground arith in
    let (k, waker) = keen.0.1 in
    let one : length (ks ++ k ∷ []) ≡ length ks + 1 = length-append ks (k ∷ []) in
    let m' = write m i (told (m.cell i)) in
    let rest =
      hand_out-Given is (n - 1) (ks ++ k ∷ []) m'
        (write-AllKeen m i (told (m.cell i)) is keen.1 keen.2) (omega arith) (omega (arith, one)) in
    rw (goes, keen.0.0, waker)
      (record {
        left = omega (arith, rest.left);
        tasks = omega (arith, rest.tasks, one);
        others = λ j out. ground (arith, rest.others j);
      })

-- Waiters at the front of a list without repetitions, who all are keen.
pub front-AllKeen :
    (m : Store) (j : ℕ) (front back : List ℕ)
    → Unserved m (front ++ j ∷ back)
    → ((i : ℕ) → member i front ≡ true → IsKeen (m.cell i))
    → AllKeen m front × (member j front ≡ false)
unfolding AllKeen member
front-AllKeen m j [] back u keen = (tt, refl)
front-AllKeen m j (i ∷ front) back u keen =
    let rest = front-AllKeen m j front back u.3 (λ k at. keen k (ground arith)) in
    let apart = member-append i front (j ∷ back) in
    (
      (keen i (ground arith), ground (arith, u.2, apart), rest.0),
      ground (arith, u.2, apart, rest.1),
    )
