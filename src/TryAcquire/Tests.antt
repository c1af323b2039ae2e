-- ===== src/TryAcquire/Tests.antt =====
-- Examples for the methods of methods.rs that do not wait.
use ranked_semaphore.Common.{◌≡◌, [], ◌∷◌, arith}
use ranked_semaphore.Error.{no_permits, returns}
use ranked_semaphore.Semaphore.{available_permits, is_closed}
use ranked_semaphore.TryAcquire.{
  err, try_acquire, try_acquire_many, try_acquire_owned, try_acquire_many_owned,
}
use ranked_semaphore.TryAcquire.Outcome.{
  attempt, decisive, try_acquire_many-attempt, try_acquire-agree,
}

try_acquire_many-attempt_example :
    try_acquire_many 2 8 (4 ∷ 2 ∷ 9 ∷ []) ≡ returns (err no_permits, 2)
unfolding attempt decisive is_closed available_permits
try_acquire_many-attempt_example =
    try_acquire_many-attempt 2 8 (4 ∷ 2 ∷ 9 ∷ []) (omega arith) (omega arith)

try_acquire-agree_example :
    (returns (try_acquire 8 (4 ∷ [])) ≡ try_acquire_many 1 8 (4 ∷ []))
    × (returns (try_acquire_owned 8 (4 ∷ [])) ≡ try_acquire_many 1 8 (4 ∷ []))
    × (try_acquire_many_owned 3 8 (4 ∷ []) ≡ try_acquire_many 3 8 (4 ∷ []))
try_acquire-agree_example = try_acquire-agree 3 8 (4 ∷ [])
