-- ===== src/System/Conservation.antt =====
-- What holds in every state that the system of threads can come to.
use ranked_semaphore.Common.{
  ℕ, ◌+◌, ◌-◌, ◌≤◌, ◌<◌, ◌≡◌, refl, ap, ◌∙◌, false, [], ◌∷◌, ◌++◌, arith, subst,
}
use ranked_semaphore.Config.{PriorityConfig, fifo, resolve_strategy}
use ranked_semaphore.PriorityMap.{get}
use ranked_semaphore.WaitQueue
use ranked_semaphore.WaitQueue.Invariant.{IsValid}
use ranked_semaphore.Error.{returns}
use ranked_semaphore.Waiter.Reserved.{share, reserved, reserved-none}
use ranked_semaphore.Semaphore.{
  World, RankedSemaphore, max_permits, is_closed, available_permits, new_with_config, close_queue,
}
use ranked_semaphore.Semaphore.Word.{close_word_lem, Makes, constructors-Make}
use ranked_semaphore.Semaphore.Batches.{IsSound, granted}
use ranked_semaphore.Semaphore.Sections.{locking}
use ranked_semaphore.Permit.{RankedSemaphorePermit}
use ranked_semaphore.Acquire
use ranked_semaphore.Acquire.{Acquire, Polled, poll, ready, quiet}
use ranked_semaphore.Acquire.Outcomes.{poll-FirstPoll}
use ranked_semaphore.System.{
  System, Step, takes, takes_at_once, enters, leaves_waker, receives, gives_up, splits, merges,
  forgets, drops, adds, goes_on, forgets_permits, closes, cancels, Reach, start, later, fresh,
  future_of,
}
use ranked_semaphore.System.Accounts.{
  held_sum, calls_sum, held_sum-cons, held_sum-middle, calls_sum-cons,
}
use ranked_semaphore.System.Shifts.{
  Shifts, try-Shifts, ready-Shifts, leave_waker-Shifts, enter-Shifts, drop-Shifts, receive_facts,
  forget-Shifts,
}
use ranked_semaphore.System.Invariant.{
  Inv, accounted, shift-Inv, move-Inv, call-Inv, shut-Inv, close_word-IsSound, close_queue-IsSound,
  split_sum, merge_sum,
}

-- A step that takes a permit object out of the world, on an open semaphore.
taken-Inv :
    (s : System) (v : World) (p : RankedSemaphorePermit) (out lost gone : ℕ)
    → gone ≡ s.gone + lost
    → is_closed s.world.permits ≡ false
    → Shifts out s.world v
    → p.permits + lost ≡ out
    → Inv s
    → Inv (record s { world = v; held = p ∷ s.held; gone = gone })
taken-Inv s v p out lost gone e o h sum i =
    shift-Inv s v (p ∷ s.held) out lost gone e h (λ o'. omega (arith, held_sum-cons p s.held, sum))
      (λ c. cc) i

receive-Inv :
    (s : System) (i task : ℕ) (g : Acquire) (v : World) (p : RankedSemaphorePermit)
    → i < s.world.store.next
    → poll (future_of s.world i) task quiet s.world
      ≡ record { future = g; world = v; poll = ready p }
    → Inv s
    → Inv (record s {
      world = Acquire.drop (future_of s.world i) v;
      held = p ∷ s.held;
      gone = s.gone + (share (s.world.store.cell i) - p.permits);
    })
receive-Inv s i task g v p exists e k =
    let (same, o, le) = receive_facts s.world i task g v p e in
    let h = drop-Shifts s.world i k.sound exists in
    let given = share (s.world.store.cell i) in
    taken-Inv s (Acquire.drop (future_of s.world i) v) p given (given - p.permits) _ refl o
      (rw same h) (omega arith) k

pub close_queue_word : (w : World) → (close_queue w).permits ≡ w.permits
unfolding close_queue
close_queue_word w = refl

-- Every step keeps the invariant.
pub Step-Inv : {s t : System} → Step s t → Inv s → Inv t
Step-Inv {s} (takes n v pos small e) i =
    let (o, h) = try-Shifts s.world n v i.sound pos small e in
    taken-Inv s _ _ n 0 _ (omega arith) o h (omega arith) i
Step-Inv {s} (takes_at_once f g task v p new small room e) i =
    let (o, h) =
      ready-Shifts f task s.world _ p (ap (λ (r : Polled). r.poll) e)
        (poll-FirstPoll f task s.world new small i.sound room) in
    taken-Inv s v p p.permits 0 _ (omega arith) o
      (subst (Shifts p.permits s.world) (ap (λ (r : Polled). r.world) e) h) (omega arith) i
Step-Inv {s} (enters n p o room) i =
    shift-Inv s _ s.held 0 0 _ (omega arith) (enter-Shifts s.world n p i.sound room) (λ o'. refl)
      (λ c. omega arith) i
Step-Inv {s} (leaves_waker j task exists) i =
    shift-Inv s _ s.held 0 0 _ (omega arith) (leave_waker-Shifts s.world j task i.sound exists)
      (λ o'. refl) (λ c. omega arith) i
Step-Inv {s} (receives j task g v p exists e) i = receive-Inv s j task g v p exists e i
Step-Inv {s} (gives_up j exists) i =
    let out = share (s.world.store.cell j) in
    shift-Inv s _ s.held out out _ refl (drop-Shifts s.world j i.sound exists) (λ o'. refl)
      (λ c. omega arith) i
Step-Inv {s} (splits xs ys p p' q n e f) i =
    let held = ap held_sum e ∙ held_sum-middle xs ys p in
    let sum = held_sum-middle xs (q ∷ ys) p' in
    let rest = held_sum-middle xs ys q in
    move-Inv s _ s.calls 0 0 _ _ (omega arith) (omega arith)
      (omega (arith, held, sum, rest, split_sum p p' q n f))
      (omega (arith, held, sum, rest, split_sum p p' q n f)) (omega (arith, i.small)) i
Step-Inv {s} (merges xs ys us vs p q p' q' e f g) i =
    let held = ap held_sum e ∙ held_sum-middle xs ys p in
    let others = ap held_sum f ∙ held_sum-middle us vs q in
    let now = held_sum-cons p' (us ++ vs) in
    let le = merge_sum p q p' q' g in
    move-Inv s _ s.calls (p.permits + q.permits - p'.permits) 0 _ _ refl (omega arith)
      (omega (arith, held, others, now, le)) (omega (arith, held, others, now, le))
      (omega (arith, i.small)) i
Step-Inv {s} (forgets xs ys p e) i =
    let held = ap held_sum e ∙ held_sum-middle xs ys p in
    move-Inv s _ s.calls p.permits 0 _ _ refl (omega arith) (omega (arith, held))
      (omega (arith, held)) (omega (arith, i.small)) i
Step-Inv {s} (drops xs ys p e) i =
    let held = ap held_sum e ∙ held_sum-middle xs ys p in
    move-Inv s _ _ 0 0 _ _ (omega arith) (omega arith)
      (omega (arith, held, calls_sum-cons (locking p.permits) s.calls)) (omega (arith, held))
      (omega (arith, i.small)) i
Step-Inv {s} (adds n room) i =
    move-Inv s s.held _ 0 n _ _ (omega arith) refl
      (omega (arith, calls_sum-cons (locking n) s.calls)) (omega arith) room i
Step-Inv {s} (goes_on xs ys c e) i = call-Inv s xs ys c e i
Step-Inv {s} (forgets_permits n) i =
    shift-Inv s _ s.held _ _ _ refl (forget-Shifts s.world n i.sound) (λ o'. refl)
      (λ c. omega arith) i
Step-Inv {s} closes i =
    shut-Inv s _ (close_word-IsSound s.world i.sound) (close_word_lem s.world).1 i
Step-Inv {s} (cancels c) i =
    shut-Inv s _ (close_queue-IsSound s.world i.sound) (ap is_closed (close_queue_word s.world) ∙ c)
      i

module _ (permits : ℕ) (config : PriorityConfig) (sem : RankedSemaphore)
    (made : new_with_config permits config ≡ returns sem) where
  fresh_facts :
      (permits ≤ max_permits)
      × (available_permits sem.permits ≡ permits)
      × IsValid sem.waiters
      × (sem.waiters.priority_queues ≡ [])
  unfolding new_with_config WaitQueue.new
  fresh_facts =
      let (le, f) =
        subst (Makes permits (resolve_strategy config)) made
          (constructors-Make permits config fifo).0 in
      (le, f.has, f.valid, ground arith)

  fresh-Inv : Inv (fresh permits sem)
  unfolding accounted granted held_sum calls_sum get available_permits
  fresh-Inv =
      let (le, has, valid, nobody) = fresh_facts in
      record {
        sound = record {
          valid = valid;
          ready = λ p is e. ground (arith, nobody);
          word = omega (arith, has);
        };
        small = le;
        balance = λ o. omega (arith, has, reserved-none (fresh permits sem).world.store refl);
        held_small = omega arith;
      }

pub reach-Inv :
    {permits : ℕ} {config : PriorityConfig} {s : System} → Reach permits config s → Inv s
reach-Inv {permits} {config} (start sem e) = fresh-Inv permits config sem e
reach-Inv (later r st) = Step-Inv st (reach-Inv r)

-- In every state that threads can come to, in any order of their steps, from a semaphore that was
-- made with some permits: while the semaphore is open, the permits available, those set aside for
-- notified waiters, those in permit objects, those in calls that have not returned and those
-- forgotten or lost are together exactly the permits that the semaphore was made with and was given.
pub reach-accounted :
    {permits : ℕ} {config : PriorityConfig} {s : System}
    → Reach permits config s
    → is_closed s.world.permits ≡ false
    → available_permits s.world.permits
        + reserved s.world.store
        + held_sum s.held
        + calls_sum s.calls
        + s.gone
      ≡ s.supply
unfolding accounted granted
reach-accounted r o = (reach-Inv r).balance o

-- In every state that threads can come to, open or closed, the permit objects hold together no more
-- permits than the semaphore was made with and was given, these are within the maximum, and the
-- world is sound: the wait queue is well formed and its waiters are waiting or cancelled.
pub reach-within :
    {permits : ℕ} {config : PriorityConfig} {s : System}
    → Reach permits config s
    → (held_sum s.held ≤ s.supply) × (s.supply ≤ max_permits) × IsSound s.world
reach-within r = let i = reach-Inv r in (i.held_small, i.small, i.sound)
