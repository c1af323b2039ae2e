-- ===== src/TryAcquire.antt =====
-- ranked-semaphore/src/semaphore/methods.rs, the methods that do not wait. Each reads the word of
-- permits and replaces it by compare-exchange. `rivals` are the words that the compare-exchanges
-- that fail find, one for each; the one behind them succeeds. A weak exchange may fail on the very
-- word that it expects. The result comes with the word that is left: the one put in place by the
-- exchange, or the last one read.
pub mod Outcome
mod Tests
use ranked_semaphore.Common.{
  ℕ, ◌+◌, ◌-◌, ◌*◌, Bool, true, false, not, List, [], ◌∷◌, ltb, ◌==◌, if◌then◌else◌,
}
use ranked_semaphore.Common.Word.{shl_one, and_one}
use ranked_semaphore.Error.{TryAcquireError, closed, no_permits, Exit, returns, panics}
use ranked_semaphore.Semaphore.{max_permits}

-- `Ok` holds the number of permits of the permit object.
pub data TryResult : Type 0 where
  ok : ℕ → TryResult
  err : TryAcquireError → TryResult

-- `try_acquire_retry_loop` from the word that it reads.
unfoldable pub try_acquire_retry_loop : ℕ → List ℕ → TryResult × ℕ
try_acquire_retry_loop curr [] =
    if and_one curr == 1
    then (err closed, curr)
    else if ltb curr (shl_one 1)
    then (err no_permits, curr)
    else (ok 1, curr - shl_one 1)
try_acquire_retry_loop curr (actual ∷ rivals) =
    let again = try_acquire_retry_loop actual rivals in
    if and_one curr == 1
    then (err closed, curr)
    else if ltb curr (shl_one 1)
    then (err no_permits, curr)
    else again

-- The first exchange, and the loop if it fails: the loop reads the word again.
unfoldable pub try_acquire : ℕ → List ℕ → TryResult × ℕ
try_acquire curr rivals =
    if not (and_one curr == 0)
    then (err closed, curr)
    else if ltb curr (shl_one 1)
    then (err no_permits, curr)
    else elim rivals [
      | [] ↦ (ok 1, curr - shl_one 1)
      | actual ∷ rest ↦ try_acquire_retry_loop actual rest
    ]

many_loop : ℕ → ℕ → List ℕ → TryResult × ℕ
many_loop n curr [] =
    if and_one curr == 1
    then (err closed, curr)
    else if ltb curr (shl_one n)
    then (err no_permits, curr)
    else (ok n, curr - shl_one n)
many_loop n curr (actual ∷ rivals) =
    let again = many_loop n actual rivals in
    if and_one curr == 1
    then (err closed, curr)
    else if ltb curr (shl_one n)
    then (err no_permits, curr)
    else again

unfoldable pub try_acquire_many : ℕ → ℕ → List ℕ → Exit (TryResult × ℕ)
unfolding many_loop
try_acquire_many n word rivals =
    if n == 0
    then returns (ok 0, word)
    else if ltb max_permits n
    then panics
    else returns (many_loop n word rivals)

unfoldable pub try_acquire_owned : ℕ → List ℕ → TryResult × ℕ
try_acquire_owned curr [] =
    if and_one curr == 1
    then (err closed, curr)
    else if ltb curr (shl_one 1)
    then (err no_permits, curr)
    else (ok 1, curr - shl_one 1)
try_acquire_owned curr (actual ∷ rivals) =
    let again = try_acquire_owned actual rivals in
    if and_one curr == 1
    then (err closed, curr)
    else if ltb curr (shl_one 1)
    then (err no_permits, curr)
    else again

many_owned_loop : ℕ → ℕ → List ℕ → TryResult × ℕ
many_owned_loop n curr [] =
    if and_one curr == 1
    then (err closed, curr)
    else if ltb curr (shl_one n)
    then (err no_permits, curr)
    else (ok n, curr - shl_one n)
many_owned_loop n curr (actual ∷ rivals) =
    let again = many_owned_loop n actual rivals in
    if and_one curr == 1
    then (err closed, curr)
    else if ltb curr (shl_one n)
    then (err no_permits, curr)
    else again

unfoldable pub try_acquire_many_owned : ℕ → ℕ → List ℕ → Exit (TryResult × ℕ)
unfolding many_owned_loop
try_acquire_many_owned n word rivals =
    if n == 0
    then returns (ok 0, word)
    else if ltb max_permits n
    then panics
    else returns (many_owned_loop n word rivals)
