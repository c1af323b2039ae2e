-- ===== src/System/Precedence.antt =====
-- In which order tasks of one priority are notified while threads act in any order.
use ranked_semaphore.Common.{ℕ, ◌+◌, ◌<◌, ◌≡◌, ◌≢◌, sym, true, false, inl, inr, ◌⊎◌}
use ranked_semaphore.Common.Int.{ℤ}
use ranked_semaphore.Common.Word.{usize_mod}
use ranked_semaphore.Config.{PriorityConfig, QueueStrategy, fifo, lifo, resolve_strategy}
use ranked_semaphore.Waiter.{Store, is_waiting, is_notified}
use ranked_semaphore.WaitQueue.Turns.Newcomers.{Aligned}
use ranked_semaphore.Semaphore.{World, is_closed}
use ranked_semaphore.System.{System, Reach, later, enter, enters, Steps}
use ranked_semaphore.System.Conservation.{reach-Inv}
use ranked_semaphore.System.Queued.{AllQueued, enter-AllQueued}
use ranked_semaphore.System.Standing.{reach-AllQueued}
use ranked_semaphore.System.Stepping.{steps-Kept}
use ranked_semaphore.System.InTurn.{Behind, Behind-Kept, enter-Aligned, enter-facts}

-- First come, first served: the newcomer `j` is not notified, or `i` does not wait any more. Last
-- come, first served: `i` is not notified, or `j` does not wait any more.
unfoldable pub Precedes : QueueStrategy → ℕ → ℕ → Store → Type 0
Precedes fifo i j m = (is_notified (m.cell j) ≡ false) ⊎ (is_waiting (m.cell i) ≡ false)
Precedes lifo i j m = (is_notified (m.cell i) ≡ false) ⊎ (is_waiting (m.cell j) ≡ false)

Behind-settled :
    (i j : ℕ) (apart : i ≢ j) (w : World)
    → Behind i j apart w
    → (is_notified (w.store.cell j) ≡ false) ⊎ (is_waiting (w.store.cell i) ≡ false)
Behind-settled i j apart w b = elim b.turn [ inl done ↦ inr done | inr (never, lines) ↦ inl never ]

module _ {permits : ℕ} {config : PriorityConfig} {s t : System} (n i : ℕ) (p : ℤ)
    (r : Reach permits config s) (exists : i < s.world.store.next)
    (waits : is_waiting (s.world.store.cell i) ≡ true) (same : (s.world.store.cell i).priority ≡ p)
    (opened : is_closed s.world.permits ≡ false)
    (room : s.world.waiters.total_waiters + 1 < usize_mod)
    (st : Steps (record s { world = enter n p s.world }) t) where
  abbrev j : ℕ
  j = s.world.store.next

  keeps :
      (a b : ℕ) (apart : a ≢ b) → Behind a b apart (enter n p s.world) → Behind a b apart t.world
  keeps a b apart h =
      (steps-Kept (λ w. AllQueued w × Behind a b apart w) (Behind-Kept a b apart)
        (later r (enters n p opened room)) (enter-AllQueued s.world n p (reach-AllQueued r), h)
        st).1

  settles :
      (strategy : QueueStrategy) (apart : i ≢ j)
      → Aligned strategy i j apart (enter n p s.world).waiters.priority_queues
      → Precedes strategy i j t.world.store
  unfolding Aligned Precedes
  settles fifo apart lines =
      let facts = enter-facts s.world n i p exists waits in
      Behind-settled i j apart t.world (
        keeps i j apart (record { first = facts.0; second = facts.1; turn = inr (facts.3, lines) }))
  settles lifo apart lines =
      let facts = enter-facts s.world n i p exists waits in
      let away : j ≢ i = λ e. apart (sym e) in
      Behind-settled j i away t.world
        (keeps j i away (record { first = facts.1; second = facts.0; turn = inr (facts.2, lines) }))

-- In a state that threads can come to from a semaphore just made, a task `j` enters the queue of an
-- open semaphore at the priority of a task `i` that waits there. Whatever threads do from then on,
-- and in whatever order: if the strategy of the priority is FIFO, `j` is not notified as long as
-- `i` waits, and if it is LIFO, `i` is not notified as long as `j` waits, whatever the two need and
-- whoever else comes and goes.
pub steps-Precedes :
    {permits : ℕ} {config : PriorityConfig} {s t : System} (n i : ℕ) (p : ℤ)
    → Reach permits config s
    → i < s.world.store.next
    → is_waiting (s.world.store.cell i) ≡ true
    → (s.world.store.cell i).priority ≡ p
    → is_closed s.world.permits ≡ false
    → s.world.waiters.total_waiters + 1 < usize_mod
    → Steps (record s { world = enter n p s.world }) t
    → Precedes (resolve_strategy s.world.waiters.config p) i s.world.store.next t.world.store
steps-Precedes n i p r exists waits same opened room st =
    let (apart, lines) =
      enter-Aligned _ n i p (reach-Inv r).sound (reach-AllQueued r) exists waits same in
    settles n i p r exists waits same opened room st _ apart lines
