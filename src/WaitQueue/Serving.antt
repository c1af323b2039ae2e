-- ===== src/WaitQueue/Serving.antt =====
-- queue.rs, the loops of `select_waiters_to_notify`: the permits that they assign.
use ranked_semaphore.Common.{
  ℕ, ◌+◌, ◌-◌, ◌≤◌, ◌<◌, ◌≡◌, refl, ◌∙◌, ◌≢◌, true, false, Option, some, none, List, [], ◌∷◌, ◌++◌,
  arith,
}
use ranked_semaphore.Common.Int.{ℤ}
use ranked_semaphore.Waker.{can_push, push, push_unchecked}
use ranked_semaphore.Waker.Contents.{Holds, push-Holds}
use ranked_semaphore.Waiter.{
  WaiterState, Store, write, try_notify, take_waker_under_lock, is_notified, is_cancelled,
}
use ranked_semaphore.Waiter.Reserved.{share, reserved, reserved-write}
use ranked_semaphore.WaitQueue.Ready.{Ready, Ready-write}
use ranked_semaphore.WaitQueue.Rules.{Keeps}
use ranked_semaphore.WaitQueue.Select.{Batch, serve, discard, collect}

-- The permits of a batch: those left and those assigned make `n`, those set aside for waiters are
-- `k` more than those assigned, and the wake list holds wakers in its first slots.
pub record Balanced (n k : ℕ) (b : Batch) : Type 0 where
  pub divided : b.available + b.assigned ≡ n
  pub set_aside : reserved b.store ≡ k + b.assigned
  pub wakers : List ℕ
  pub held : Holds b.wake_list wakers

-- What `serve` writes for a live waiter that is not notified.
served : WaiterState → WaiterState
served w = (take_waker_under_lock (try_notify w).0).1

module _ (w : WaiterState) (idle : is_notified w ≡ false) (live : is_cancelled w ≡ false) where
  wins : (try_notify w).1 ≡ true
  unfolding is_notified is_cancelled try_notify
  wins = ground arith

  share-serve : (share w ≡ 0) × (share (served w) ≡ w.permits_needed)
  unfolding served share is_notified is_cancelled try_notify take_waker_under_lock
  share-serve = ground arith

served_priority : (w : WaiterState) → (served w).priority ≡ w.priority
unfolding served try_notify take_waker_under_lock
served_priority w = ground arith

collect-Holds :
    (waker : Option ℕ) (b : Batch) (ks : List ℕ)
    → Holds b.wake_list ks
    → can_push b.wake_list ≡ true
    → (js : List ℕ) × Holds (collect waker b.wake_list) js
unfolding collect can_push push push_unchecked
collect-Holds none b ks h room = (ks, h)
collect-Holds (some k) b ks h room =
    (ks ++ k ∷ [], rw (room, collect) (push-Holds b.wake_list ks k h (ground (arith, h.counted))))

module _ (n k i : ℕ) (b : Batch) (exists : i < b.store.next)
    (idle : is_notified (b.store.cell i) ≡ false)
    (live : is_cancelled (b.store.cell i) ≡ false) where
  serve-store : (serve i b).store ≡ write b.store i (served (b.store.cell i))
  unfolding serve served
  serve-store = rw (wins (b.store.cell i) idle live)

  serve-numbers :
      ((serve i b).available ≡ b.available - (b.store.cell i).permits_needed)
      × ((serve i b).assigned ≡ b.assigned + (b.store.cell i).permits_needed)
  unfolding serve
  serve-numbers = (refl, refl)

  serve-Holds :
      (ks : List ℕ)
      → Holds b.wake_list ks
      → can_push b.wake_list ≡ true
      → (js : List ℕ) × Holds (serve i b).wake_list js
  unfolding serve
  serve-Holds ks h room = rw (wins (b.store.cell i) idle live) (collect-Holds _ b ks h room)

  serve-reserved : reserved (serve i b).store ≡ reserved b.store + (b.store.cell i).permits_needed
  serve-reserved = rw serve-store (
      omega (
        arith,
        reserved-write b.store i (served (b.store.cell i)) exists,
        share-serve (b.store.cell i) idle live,
      ))

  serve-Balanced :
      can_push b.wake_list ≡ true
      → (b.store.cell i).permits_needed ≤ b.available
      → Balanced n k b
      → Balanced n k (serve i b)
  serve-Balanced room enough h =
      let (js, held) = serve-Holds h.wakers h.held room in
      record {
        divided = omega (arith, serve-numbers, h.divided);
        set_aside = omega (arith, serve-numbers, serve-reserved, h.set_aside);
        wakers = js;
        held = held;
      }

discard-Balanced : (n k : ℕ) (b : Batch) → Balanced n k b → Balanced n k (discard b)
unfolding discard
discard-Balanced n k b h = record {
  divided = h.divided;
  set_aside = h.set_aside;
  wakers = h.wakers;
  held = h.held;
}

-- Serving the queue of one priority touches only waiters of that priority, and no priority.
pub record IsLocal (p : ℤ) (m m' : Store) : Type 0 where
  pub same_next : m'.next ≡ m.next
  pub same_priority : (i : ℕ) → (m'.cell i).priority ≡ (m.cell i).priority
  pub untouched : (i : ℕ) → (m.cell i).priority ≢ p → m'.cell i ≡ m.cell i

pub record Serving (p : ℤ) (m : Store) (n k : ℕ) (is : List ℕ) (b : Batch) : Type 0 where
  pub ready : Ready p b.store is
  pub balanced : Balanced n k b
  pub local : IsLocal p m b.store

write-IsLocal :
    (p : ℤ) (m m' : Store) (i : ℕ) (w : WaiterState)
    → (m'.cell i).priority ≡ p
    → w.priority ≡ p
    → IsLocal p m m'
    → IsLocal p m (write m' i w)
write-IsLocal p m m' i w e f l = record {
  same_next = l.same_next;
  same_priority = λ j. ground (arith, l.same_priority j);
  untouched = λ j ne. ground (arith, l.same_priority j, l.untouched j ne);
}

serve-Serving :
    (p : ℤ) (m : Store) (n k i : ℕ) (is : List ℕ) (b : Batch)
    → can_push b.wake_list ≡ true
    → is_cancelled (b.store.cell i) ≡ false
    → (b.store.cell i).permits_needed ≤ b.available
    → Serving p m n k (i ∷ is) b
    → Serving p m n k is (serve i b)
serve-Serving p m n k i is b room live enough s =
    let (exists, rank, idle, once, ready) = s.ready in
    let w = served (b.store.cell i) in
    let e = serve-store n k i b exists idle live in
    record {
      ready = rw e (Ready-write p b.store is i w once ready);
      balanced = serve-Balanced n k i b exists idle live room enough s.balanced;
      local =
          rw e
            (write-IsLocal p m b.store i w rank (served_priority (b.store.cell i) ∙ rank) s.local);
    }

pub Serving-Keeps : (p : ℤ) (m : Store) (n k : ℕ) → Keeps (Serving p m n k)
unfolding discard
Serving-Keeps p m n k = record {
  by_discard = λ i is b c s. record {
    ready = s.ready.4;
    balanced = discard-Balanced n k b s.balanced;
    local = s.local;
  };
  by_serve = λ i is b r c e s. serve-Serving p m n k i is b r c e s;
}
