-- ===== src/Acquire/Owned.antt =====
-- futures.rs, `AcquireOwned`: its `poll` and its `Drop`, which repeat those of `Acquire` for a
-- semaphore behind an `Arc`.
use ranked_semaphore.Common.Format.{Formatting}
use ranked_semaphore.Common.{
  ℕ, ◌-◌, ◌%◌, ◌≡◌, refl, true, false, not, none, some, ◌++◌, leb, ◌==◌, arith, if◌then◌else◌,
}
use ranked_semaphore.Common.Word.{shl_one, and_one, u32_mod}
use ranked_semaphore.Error.{closed_acquire}
use ranked_semaphore.Waiter
use ranked_semaphore.Waiter.{write, is_cancelled, is_notified, is_waiting, set_waker}
use ranked_semaphore.WaitQueue.{push_waiter, remove_waiter}
use ranked_semaphore.Semaphore.{World, set_word, set_queue, is_closed}
use ranked_semaphore.Permit.Owned.{OwnedRankedSemaphorePermit}
use ranked_semaphore.Acquire
use ranked_semaphore.Acquire.{
  Acquire, Poll, ready, failed, pending, Rivals, Polled, acquire_many_with_priority,
  acquire_many_owned_with_priority,
}

-- The fields are those of `Acquire`: the number of the semaphore stands for the `Arc`.
abbrev pub AcquireOwned : Type 0
AcquireOwned = Acquire

owned_permit : AcquireOwned → OwnedRankedSemaphorePermit
owned_permit f = record { sem = f.semaphore; permits = f.permits_needed % u32_mod }

-- From the check of the waiter `i` on.
check_waiter : AcquireOwned → ℕ → ℕ → Rivals → World → Polled
unfolding owned_permit
check_waiter f i task rivals w =
    let looked = rivals.before_look w in
    let later = rivals.before_waker looked in
    let flagged = rivals.before_flag looked in
    let fails : Polled = record { future = f; world = flagged; poll = failed closed_acquire } in
    let waits : Polled = record {
      future = f;
      world = record later { store = write later.store i (set_waker (later.store.cell i) task) };
      poll = pending;
    } in
    if is_cancelled (w.store.cell i)
    then record { future = f; world = w; poll = failed closed_acquire }
    else if is_notified (looked.store.cell i)
    then (if is_closed flagged.permits
        then fails
        else record { future = f; world = flagged; poll = ready (owned_permit f) })
    else waits

unfoldable pub poll : AcquireOwned → ℕ → Rivals → World → Polled
unfolding check_waiter owned_permit
poll f task rivals w = elim f.waiter_handle [
  | some i ↦ check_waiter f i task rivals w
  | none ↦
      let n_shifted = shl_one f.permits_needed in
      let locked = rivals.before_lock w in
      let (i, q, m) = push_waiter locked.waiters locked.store f.permits_needed f.priority in
      let queued : World = record {
        sem = record { permits = locked.permits; waiters = q };
        store = m;
        woken = locked.woken;
      } in
      let slow : Polled =
        if not (and_one locked.permits == 0)
        then record { future = f; world = locked; poll = failed closed_acquire }
        else check_waiter (record f { waiter_handle = some i }) i task rivals
            (rivals.before_check queued) in
      if not (and_one w.permits == 0)
      then record { future = f; world = w; poll = failed closed_acquire }
      else if leb n_shifted w.permits
      then (if rivals.exchange
          then record {
            future = f;
            world = set_word w (w.permits - n_shifted);
            poll = ready (owned_permit f);
          }
          else slow)
      else slow
]

-- `Drop::drop`.
unfoldable pub drop : AcquireOwned → World → World
drop f w = elim f.waiter_handle [
  | none ↦ w
  | some i ↦
      let (waiter, woken) = Waiter.cancel (w.store.cell i) in
      let cancelled : World = record {
        sem = w.sem;
        store = write w.store i waiter;
        woken = w.woken ++ woken;
      } in
      if is_waiting waiter
      then set_queue cancelled (remove_waiter cancelled.waiters cancelled.store i)
      else cancelled
]

-- An owned acquire future behaves as a borrowed one of the same semaphore, in every state and
-- against every interference: it is made with the same fields, each poll leaves the same future and
-- world and returns a permit of the same number, and dropping it leaves the same world.
pub owned-agrees :
    (f : AcquireOwned) (s n task : ℕ) (rivals : Rivals) (w : World)
    → (acquire_many_owned_with_priority s f.priority n ≡ acquire_many_with_priority s f.priority n)
      × (poll f task rivals w ≡ Acquire.poll f task rivals w)
      × (drop f w ≡ Acquire.drop f w)
unfolding poll drop Acquire.poll Acquire.drop Acquire.poll_first Acquire.queue_up Acquire.wait
    check_waiter owned_permit acquire_many_owned_with_priority acquire_many_with_priority
owned-agrees f s n task rivals w = (refl, ground arith, refl)

unfoldable pub fmt :
    {F : Type 0} {D : Type 0} {R : Type 0} → Formatting F D R → AcquireOwned → F → R
fmt out a f =
    let d = out.debug_struct f "AcquireOwned" in
    let d = out.field_nat d "permits_needed" a.permits_needed in
    let d = out.field_int d "priority" a.priority in
    out.finish (out.field_bool d "queued" (elim a.waiter_handle [ none ↦ false | some i ↦ true ]))
