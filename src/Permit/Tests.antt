-- ===== src/Permit/Tests.antt =====
-- Examples for permits.rs.
use ranked_semaphore.Common.{◌+◌, ◌<◌, ◌≡◌, refl, ◌⊎◌, some, none, arith}
use ranked_semaphore.Error.{returns}
use ranked_semaphore.Semaphore.{is_closed, available_permits}
use ranked_semaphore.Semaphore.Batches.{Released}
use ranked_semaphore.Permit
use ranked_semaphore.Permit.{RankedSemaphorePermit, forget, num_permits, merge, split, drop}
use ranked_semaphore.Permit.Owned
use ranked_semaphore.Permit.Owned.{owned_permits-agree}
use ranked_semaphore.Permit.Shares.{split-merge, merge_lem, drop-Released}
use ranked_semaphore.Samples.{busy, busy-IsSound}

abbrev five : RankedSemaphorePermit
five = record { sem = 0; permits = 5 }

split-merge_example :
    (split five 2 ≡ (five, none)) × (5 < 2)
    ⊎ ((p' : RankedSemaphorePermit) × (q : RankedSemaphorePermit) × (split five 2 ≡ (p', some q))
        × (num_permits q ≡ 2)
        × (num_permits p' + num_permits q ≡ num_permits five)
        × (merge p' q ≡ returns (five, record q { permits = 0 })))
split-merge_example = split-merge five 2 (omega arith)

merge_lem_example :
    merge five five ≡ returns (record { sem = 0; permits = 10 }, record { sem = 0; permits = 0 })
unfolding forget
merge_lem_example = merge_lem five five (omega arith) (omega arith)

owned_permits-agree_example :
    (Owned.forget five ≡ Permit.forget five)
    × (Owned.num_permits five ≡ Permit.num_permits five)
    × (Owned.semaphore five ≡ 0)
    × (Owned.merge five five ≡ Permit.merge five five)
    × (Owned.split five 7 ≡ Permit.split five 7)
    × (Owned.drop 1 five busy ≡ Permit.drop 1 five busy)
owned_permits-agree_example = owned_permits-agree five five 1 7 busy (omega arith)

drop-Released_example :
    Released 5 busy (drop 1 five busy) × (drop 1 (forget five) busy ≡ some (busy, returns tt))
unfolding is_closed available_permits
drop-Released_example = drop-Released 0 five busy busy-IsSound refl (omega arith)
