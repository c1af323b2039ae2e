-- ===== src/Permit/Owned.antt =====
-- permits.rs, `OwnedRankedSemaphorePermit`: its methods.
use ranked_semaphore.Common.Format.{Formatting}
use ranked_semaphore.Common.{
  ℕ, ◌+◌, ◌-◌, ◌%◌, ◌<◌, ◌≡◌, not, Option, none, some, ltb, ◌==◌, arith, if◌then◌else◌, refl,
}
use ranked_semaphore.Common.Word.{u32_mod}
use ranked_semaphore.Error.{Exit, returns, panics}
use ranked_semaphore.WaitQueue
use ranked_semaphore.Semaphore.{World, fetch_add}
use ranked_semaphore.Semaphore.Release.{add_permits_locked}
use ranked_semaphore.Permit
use ranked_semaphore.Permit.{RankedSemaphorePermit}

abbrev pub OwnedRankedSemaphorePermit : Type 0
OwnedRankedSemaphorePermit = RankedSemaphorePermit

unfoldable pub forget : OwnedRankedSemaphorePermit → OwnedRankedSemaphorePermit
forget p = record p { permits = 0 }

unfoldable pub num_permits : OwnedRankedSemaphorePermit → ℕ
num_permits p = p.permits

unfoldable pub merge :
    OwnedRankedSemaphorePermit
    → OwnedRankedSemaphorePermit
    → Exit (OwnedRankedSemaphorePermit × OwnedRankedSemaphorePermit)
merge p other =
    if not (p.sem == other.sem)
    then panics
    else returns
        (record p { permits = (p.permits + other.permits) % u32_mod }, record other { permits = 0 })

-- `n` is a `usize`, and `u32::try_from` fails on one that a `u32` cannot hold.
unfoldable pub split :
    OwnedRankedSemaphorePermit → ℕ → OwnedRankedSemaphorePermit × Option OwnedRankedSemaphorePermit
split p n =
    if not (ltb n u32_mod)
    then (p, none)
    else if ltb p.permits n
    then (p, none)
    else (record p { permits = p.permits - n }, some (record { sem = p.sem; permits = n }))

unfoldable pub semaphore : OwnedRankedSemaphorePermit → ℕ
semaphore p = p.sem

unfoldable pub drop : ℕ → OwnedRankedSemaphorePermit → World → Option (World × Exit (Unit {0}))
drop fuel p w =
    if p.permits == 0
    then some (w, returns tt)
    else if WaitQueue.is_empty w.waiters
    then some (fetch_add w p.permits, returns tt)
    else add_permits_locked fuel p.permits w

-- For an owned permit, whose number is below 2^32, `split` takes a `usize`, and gives what the
-- `split` of a borrowed permit would give for a number of any size.
pub split-eq-split :
    (p : OwnedRankedSemaphorePermit) (n : ℕ) → p.permits < u32_mod → split p n ≡ Permit.split p n
unfolding split Permit.split
split-eq-split p n h = ground arith

-- An owned permit whose number is below 2^32 behaves as a borrowed one, in every world: forgetting,
-- counting, merging and dropping do the same, and so does splitting off any `usize`, although the
-- owned `split` first tries to convert the number to a `u32`.
pub owned_permits-agree :
    (p other : OwnedRankedSemaphorePermit) (fuel n : ℕ) (w : World)
    → p.permits < u32_mod
    → (forget p ≡ Permit.forget p)
      × (num_permits p ≡ Permit.num_permits p)
      × (semaphore p ≡ p.sem)
      × (merge p other ≡ Permit.merge p other)
      × (split p n ≡ Permit.split p n)
      × (drop fuel p w ≡ Permit.drop fuel p w)
unfolding forget num_permits semaphore merge drop Permit.forget Permit.num_permits Permit.merge
    Permit.drop
owned_permits-agree p other fuel n w small =
    (refl, refl, refl, ground arith, split-eq-split p n small, ground arith)

unfoldable pub fmt :
    {F : Type 0} {D : Type 0} {R : Type 0} → Formatting F D R → OwnedRankedSemaphorePermit → F → R
fmt out p f =
    let d = out.debug_struct f "OwnedRankedSemaphorePermit" in
    out.finish (out.field_nat d "permits" p.permits)
