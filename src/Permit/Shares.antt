-- ===== src/Permit/Shares.antt =====
-- permits.rs: splitting, merging and dropping permit objects.
use ranked_semaphore.Common.{
  ℕ, suc, ◌+◌, ◌-◌, ◌^◌, ◌<◌, ◌≡◌, refl, false, none, some, ltb, ◌==◌, arith, if◌then◌else◌,
  Bool-cases, inl, inr, ◌⊎◌, ltb→le, ltb→lt,
}
use ranked_semaphore.Common.Word.{u32_mod}
use ranked_semaphore.Error.{returns, panics}
use ranked_semaphore.WaitQueue
use ranked_semaphore.Semaphore.{World, available_permits, is_closed}
use ranked_semaphore.Semaphore.Batches.{
  IsSound, Released, released, fetch_add-Released, add_permits_locked-Released,
}
use ranked_semaphore.Permit.{RankedSemaphorePermit, forget, num_permits, merge, split, drop}

-- For every `u32` permit and every n: if n is more than the permit holds, `split` changes nothing
-- and gives no permit; otherwise the two permits are of the same semaphore, the new one holds n,
-- both together hold what the one held, and merging them again gives the permit back.
pub split-merge :
    (p : RankedSemaphorePermit) (n : ℕ)
    → p.permits < u32_mod
    → (split p n ≡ (p, none)) × (p.permits < n)
      ⊎ ((p' : RankedSemaphorePermit) × (q : RankedSemaphorePermit) × (split p n ≡ (p', some q))
          × (num_permits q ≡ n)
          × (num_permits p' + num_permits q ≡ num_permits p)
          × (merge p' q ≡ returns (p, record q { permits = 0 })))
unfolding split merge num_permits
split-merge p n small = elim (Bool-cases (ltb p.permits n)) [
  | inl e ↦ inl (rw e refl, ltb→lt _ _ e)
  | inr e ↦
      let le = ltb→le _ _ e in
      inr (
        record p { permits = p.permits - n },
        record { sem = p.sem; permits = n },
        rw e refl,
        refl,
        omega arith,
        ground arith,
      )
]

-- Merging permits of one semaphore moves the permits of the other over, except that their sum
-- wraps at 2^32: from there on 2^32 permits are lost. Permits of different semaphores panic.
pub merge_lem :
    (p other : RankedSemaphorePermit)
    → p.permits < u32_mod
    → other.permits < u32_mod
    → merge p other ≡ (
        if p.sem == other.sem
        then returns (
          record p {
            permits =
                if ltb (p.permits + other.permits) u32_mod
                then p.permits + other.permits
                else p.permits + other.permits - u32_mod;
          },
          forget other,
        )
        else panics)
unfolding merge forget
merge_lem p other h k = ground arith

-- Dropping a permit on an open semaphore between two calls gives back exactly what the permit
-- holds, to the semaphore or to waiters, as `add_permits` does; and a permit that was forgotten
-- gives back nothing.
pub drop-Released :
    (fuel : ℕ) (p : RankedSemaphorePermit) (w : World)
    → IsSound w
    → is_closed w.permits ≡ false
    → available_permits w.permits + p.permits < 2 ^ 63
    → Released p.permits w (drop (suc fuel) p w)
      × (drop (suc fuel) (forget p) w ≡ some (w, returns tt))
unfolding drop forget
drop-Released fuel p w s opened room = (
  elim (Bool-cases (p.permits == 0)) [
    | inl e ↦ rw e (released w (returns tt) s opened (ground arith) (omega arith) (inl refl))
    | inr e ↦ elim (Bool-cases (WaitQueue.is_empty w.waiters)) [
      | inl f ↦ rw (e, f) (fetch_add-Released p.permits w s opened room)
      | inr f ↦ rw (e, f) (add_permits_locked-Released fuel p.permits w s opened room)
    ]
  ],
  refl,
)
