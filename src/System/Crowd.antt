-- ===== src/System/Crowd.antt =====
-- Examples for two tasks that wait.
use ranked_semaphore.Config.{resolve_strategy}
use ranked_semaphore.Waiter.{take_waker_under_lock, try_notify}
use ranked_semaphore.Common.{inr}
use ranked_semaphore.Waiter.{is_cancelled, is_notified}
use ranked_semaphore.Semaphore.{World}
use ranked_semaphore.Common.{◌≡◌, refl, false, [], ◌∷◌, arith}
use ranked_semaphore.Common.Int.{pos}
use ranked_semaphore.Config.{new}
use ranked_semaphore.Waiter.{is_waiting, new_handle, set_waker}
use ranked_semaphore.WaitQueue
use ranked_semaphore.WaitQueue.{push_waiter, insert_waiter_optimized}
use ranked_semaphore.Semaphore.{is_closed}
use ranked_semaphore.Semaphore.Sections.{locking, advance}
use ranked_semaphore.System.{System, enters, adds, drops, goes_on, Reach, later, enter, unfinished}
use ranked_semaphore.System.{here, then, Steps}
use ranked_semaphore.System.Ranking.{steps-Ranked}
use ranked_semaphore.System.Queued.{locked}
use ranked_semaphore.WaitQueue.Settling.{OneEach, OneEach-Keeps}
use ranked_semaphore.WaitQueue.Selected.{select-keeps}
use ranked_semaphore.Common.{sym, subst, ◌⊎◌, inl, suc, zero}
use ranked_semaphore.System.Precedence.{Precedes, steps-Precedes}
use ranked_semaphore.Waiter
use ranked_semaphore.System.Tests.{taken, queued, taken-Reach, queued-Reach}

-- Another task for two permits enters at the same priority, and then the permit object is dropped.
abbrev both : System
both = record queued { world = enter 2 (pos 5) queued.world }

abbrev both_dropping : System
both_dropping = record both { held = []; calls = locking 2 ∷ [] }

abbrev both_notifying : System
both_notifying = record both_dropping {
  world = (advance (locking 2) both_dropping.world).0;
  calls = unfinished (advance (locking 2) both_dropping.world).1 [];
}

both-Steps : Steps both both_notifying
both-Steps =
    then (then here (drops [] [] (record { sem = 0; permits = 2 }) refl))
      (goes_on [] [] (locking 2) refl)

steps-Precedes_example :
    Precedes
      (resolve_strategy queued.world.waiters.config (pos 5))
      0
      queued.world.store.next
      both_notifying.world.store
unfolding is_closed is_waiting push_waiter new_handle set_waker WaitQueue.new
steps-Precedes_example =
    steps-Precedes 2 0 (pos 5) queued-Reach (omega arith) refl refl refl (omega arith) both-Steps

-- A task at priority 0 and a task at priority 5 for one permit each, and one permit that comes back.
abbrev two : System
two = record taken { world = enter 1 (pos 5) (enter 1 (pos 0) taken.world) }

abbrev two_adding : System
two_adding = record two { calls = locking 1 ∷ []; supply = 4 }

abbrev two_notifying : System
two_notifying = record two_adding {
  world = (advance (locking 1) two_adding.world).0;
  calls = unfinished (advance (locking 1) two_adding.world).1 [];
}

two-Reach : Reach 3 new two
unfolding is_closed WaitQueue.new push_waiter new_handle insert_waiter_optimized
two-Reach =
    later (later taken-Reach (enters 1 (pos 0) refl (omega arith)))
      (enters 1 (pos 5) refl (omega arith))

two-OneEach : OneEach two.world.store
unfolding push_waiter new_handle Waiter.new
two-OneEach zero exists = refl
two-OneEach (suc zero) exists = refl
two-OneEach (suc (suc i)) exists = absurd (omega arith)

notified-OneEach : OneEach two_notifying.world.store
notified-OneEach =
    let w = two_adding.world in
    elim (locked 1 w) [
      | inl e ↦ subst (λ (v : World). OneEach v.store) (sym e) two-OneEach
      | inr e ↦
          subst (λ (v : World). OneEach v.store) (sym e)
            (select-keeps (λ m l a. OneEach m) OneEach-Keeps w.waiters w.store 1 two-OneEach)
    ]

steps-Ranked_example :
    (is_notified (two_notifying.world.store.cell 0) ≡ false)
    ⊎ (is_waiting (two_notifying.world.store.cell 1) ≡ false)
unfolding push_waiter new_handle Waiter.new is_notified
steps-Ranked_example =
    steps-Ranked 1 0 two-Reach (omega arith) (omega arith) (omega arith) refl
      (then (then here (adds 1 (omega arith))) (goes_on [] [] (locking 1) refl)) notified-OneEach
