-- ===== src/System/Stepping.antt =====
-- A rule for statements about the world that every step of the system keeps.
use ranked_semaphore.Common.{ℕ, ◌≡◌, refl, ap, sym, ◌∙◌}
use ranked_semaphore.Config.{PriorityConfig}
use ranked_semaphore.Common.Int.{ℤ}
use ranked_semaphore.Semaphore.{World, close_word, close_queue}
use ranked_semaphore.Semaphore.Sections.{Call, advance}
use ranked_semaphore.Acquire
use ranked_semaphore.Semaphore.Batches.{IsSound}
use ranked_semaphore.Acquire.{Acquire, Polled, ready}
use ranked_semaphore.Acquire.Outcomes.{FirstPoll, fails, takes, queues, poll-FirstPoll}
use ranked_semaphore.Permit.{RankedSemaphorePermit}
use ranked_semaphore.System.{
  System, Step, enter, leave_waker, future_of, takes, takes_at_once, enters, leaves_waker, receives,
  gives_up, splits, merges, forgets, drops, adds, goes_on, forgets_permits, closes, cancels, Reach,
  Steps, here, then, reach-Steps,
}
use ranked_semaphore.System.Shifts.{receive_facts}
use ranked_semaphore.System.Invariant.{Inv}
use ranked_semaphore.System.Conservation.{reach-Inv}

-- A poll that is ready at once leaves the waiters and the queue alone.
pub at_once :
    (f : Acquire) (task : ℕ) (w : World) (q : Polled) (p : RankedSemaphorePermit)
    → q.poll ≡ ready p
    → FirstPoll f task w q
    → (q.world.store ≡ w.store) × (q.world.waiters ≡ w.waiters)
at_once f task w q p e (fails c) = cc
at_once f task w q p e (takes v s o o' sum same queue) = (same, queue)
at_once f task w q p e (queues i v a b c d g h k l m) = cc

-- What the pieces of the steps keep.
pub record Kept (P : World → Type 0) : Type 0 where
  pub by_word : (w v : World) → v.store ≡ w.store → v.waiters ≡ w.waiters → P w → P v
  pub by_enter : (w : World) (n : ℕ) (p : ℤ) → P w → P (enter n p w)
  pub by_waker : (w : World) (i task : ℕ) → P w → P (leave_waker i task w)
  pub by_drop : (w : World) (i : ℕ) → P w → P (Acquire.drop (future_of w i) w)
  pub by_advance : (c : Call) (w : World) → IsSound w → P w → P (advance c w).0
  pub by_close : (w : World) → P w → P (close_queue w)

module _ (P : World → Type 0) (kept : Kept P) where
  -- Whatever step is made.
  pub Step-Kept : {s t : System} → Step s t → Inv s → P s.world → P t.world
  unfolding close_word
  Step-Kept {s} (takes n v pos small e) i all = kept.by_word s.world _ refl refl all
  Step-Kept {s} (takes_at_once f g task v p new small room e) i all =
      let (store, waiters) =
        at_once f task s.world _ p (ap (λ (r : Polled). r.poll) e)
          (poll-FirstPoll f task s.world new small i.sound room) in
      let same = ap (λ (r : Polled). r.world) e in
      kept.by_word s.world v (ap (λ (x : World). x.store) (sym same) ∙ store)
        (ap (λ (x : World). x.waiters) (sym same) ∙ waiters) all
  Step-Kept {s} (enters n p o room) i all = kept.by_enter s.world n p all
  Step-Kept {s} (leaves_waker j task exists) i all = kept.by_waker s.world j task all
  Step-Kept {s} (receives j task g v p exists e) i all =
      let (same, o, le) = receive_facts s.world j task g v p e in
      rw same (kept.by_drop s.world j all)
  Step-Kept {s} (gives_up j exists) i all = kept.by_drop s.world j all
  Step-Kept {s} (splits xs ys p p' q n e f) i all = all
  Step-Kept {s} (merges xs ys us vs p q p' q' e f g) i all = all
  Step-Kept {s} (forgets xs ys p e) i all = all
  Step-Kept {s} (drops xs ys p e) i all = all
  Step-Kept {s} (adds n room) i all = all
  Step-Kept {s} (goes_on xs ys c e) i all = kept.by_advance c s.world i.sound all
  Step-Kept {s} (forgets_permits n) i all = kept.by_word s.world _ refl refl all
  Step-Kept {s} closes i all = kept.by_word s.world _ refl refl all
  Step-Kept {s} (cancels o) i all = kept.by_close s.world all

  -- Whatever steps are made, from a state that threads can come to.
  pub steps-Kept :
      {permits : ℕ} {config : PriorityConfig} {s t : System}
      → Reach permits config s
      → P s.world
      → Steps s t
      → P t.world
  steps-Kept r h here = h
  steps-Kept r h (then st x) = Step-Kept x (reach-Inv (reach-Steps r st)) (steps-Kept r h st)
