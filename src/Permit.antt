-- ===== src/Permit.antt =====
-- ranked-semaphore/src/semaphore/permits.rs: the permit objects. A reference to a semaphore, or an
-- `Arc` of it, is a number, so that two permits can be told to be of one semaphore. Both kinds of
-- permit hold the same; the methods of the owned kind stand in the module `Owned`.
-- `u32` addition wraps, as in a release build.
pub mod Owned
pub mod Shares
mod Tests
use ranked_semaphore.Common.Format.{Formatting}
use ranked_semaphore.Common.{
  ℕ, ◌+◌, ◌-◌, ◌%◌, Bool, true, false, not, Option, none, some, ltb, ◌==◌, if◌then◌else◌,
}
use ranked_semaphore.Common.Word.{u32_mod}
use ranked_semaphore.Error.{Exit, returns, panics}
use ranked_semaphore.WaitQueue
use ranked_semaphore.Semaphore.{World, fetch_add}
use ranked_semaphore.Semaphore.Release.{add_permits_locked}

pub record RankedSemaphorePermit : Type 0 where
  pub sem : ℕ
  pub permits : ℕ

-- The permit as its destructor finds it: `forget` takes it by value.
unfoldable pub forget : RankedSemaphorePermit → RankedSemaphorePermit
forget p = record p { permits = 0 }

unfoldable pub num_permits : RankedSemaphorePermit → ℕ
num_permits p = p.permits

-- The permit that is merged into, and the other one as its destructor finds it.
unfoldable pub merge :
    RankedSemaphorePermit
    → RankedSemaphorePermit
    → Exit (RankedSemaphorePermit × RankedSemaphorePermit)
merge p other =
    if not (p.sem == other.sem)
    then panics
    else returns
        (record p { permits = (p.permits + other.permits) % u32_mod }, record other { permits = 0 })

-- The permit that is split, and the new one. The test makes the subtraction exact.
unfoldable pub split :
    RankedSemaphorePermit → ℕ → RankedSemaphorePermit × Option RankedSemaphorePermit
split p n =
    if ltb p.permits n
    then (p, none)
    else (record p { permits = p.permits - n }, some (record { sem = p.sem; permits = n }))

-- `Drop::drop`, in a world of the semaphore of the permit, with fuel for `add_permits_locked`.
unfoldable pub drop : ℕ → RankedSemaphorePermit → World → Option (World × Exit (Unit {0}))
drop fuel p w =
    if p.permits == 0
    then some (w, returns tt)
    else if WaitQueue.is_empty w.waiters
    then some (fetch_add w p.permits, returns tt)
    else add_permits_locked fuel p.permits w

unfoldable pub fmt :
    {F : Type 0} {D : Type 0} {R : Type 0} → Formatting F D R → RankedSemaphorePermit → F → R
fmt out p f =
    let d = out.debug_struct f "RankedSemaphorePermit" in
    out.finish (out.field_nat d "permits" p.permits)
