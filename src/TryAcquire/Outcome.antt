-- ===== src/TryAcquire/Outcome.antt =====
-- methods.rs, the methods that do not wait: what they return, whatever other threads do meanwhile.
use ranked_semaphore.Common.{
  ℕ, ◌+◌, ◌-◌, ◌<◌, ◌≡◌, refl, ◌≢◌, true, false, ◌||◌, List, [], ◌∷◌, ltb, arith, if◌then◌else◌,
}
use ranked_semaphore.Common.Word.{u32_mod}
use ranked_semaphore.Error.{closed, no_permits, returns}
use ranked_semaphore.Semaphore.{available_permits, is_closed}
use ranked_semaphore.Semaphore.Word.{encode}
use ranked_semaphore.TryAcquire.{
  TryResult, ok, err, try_acquire_retry_loop, try_acquire, many_loop, try_acquire_many,
  try_acquire_owned, many_owned_loop, try_acquire_many_owned,
}

-- One indivisible attempt to take `n` permits from a semaphore whose word is `w`.
unfoldable pub attempt : ℕ → ℕ → TryResult × ℕ
attempt n w =
    if is_closed w
    then (err closed, w)
    else if ltb (available_permits w) n
    then (err no_permits, w)
    else (ok n, encode (available_permits w - n) false)

-- The word at which the attempt is made: the first one read that refuses, or else the last one.
unfoldable pub decisive : ℕ → ℕ → List ℕ → ℕ
decisive n w [] = w
decisive n w (v ∷ vs) = if is_closed w || ltb (available_permits w) n then w else decisive n v vs

many_loop-attempt :
    (n w : ℕ) (rivals : List ℕ)
    → n < u32_mod
    → many_loop n w rivals ≡ attempt n (decisive n w rivals)
unfolding many_loop attempt decisive is_closed available_permits
many_loop-attempt n w [] h = ground arith
many_loop-attempt n w (v ∷ vs) h = ground (arith, many_loop-attempt n v vs h)

-- For every `u32` n above 0 and whatever other threads write meanwhile, `try_acquire_many(n)` does
-- not panic, and does what one indivisible attempt does on the first word it reads that is closed
-- or has too few permits, or else on the last word it reads.
pub try_acquire_many-attempt :
    (n w : ℕ) (rivals : List ℕ)
    → 0 < n
    → n < u32_mod
    → try_acquire_many n w rivals ≡ returns (attempt n (decisive n w rivals))
unfolding try_acquire_many
try_acquire_many-attempt n w rivals pos h = ground (arith, many_loop-attempt n w rivals h)

retry_loop-eq : (w : ℕ) (rivals : List ℕ) → try_acquire_retry_loop w rivals ≡ many_loop 1 w rivals
unfolding try_acquire_retry_loop many_loop
retry_loop-eq w [] = ground arith
retry_loop-eq w (v ∷ vs) = ground (arith, retry_loop-eq v vs)

try_acquire-eq : (w : ℕ) (rivals : List ℕ) → try_acquire w rivals ≡ many_loop 1 w rivals
unfolding try_acquire many_loop
try_acquire-eq w [] = ground arith
try_acquire-eq w (v ∷ vs) = ground (arith, retry_loop-eq v vs)

try_acquire_owned-eq : (w : ℕ) (rivals : List ℕ) → try_acquire_owned w rivals ≡ many_loop 1 w rivals
unfolding try_acquire_owned many_loop
try_acquire_owned-eq w [] = ground arith
try_acquire_owned-eq w (v ∷ vs) = ground (arith, try_acquire_owned-eq v vs)

many_owned_loop-eq : (n w : ℕ) (rivals : List ℕ) → many_owned_loop n w rivals ≡ many_loop n w rivals
unfolding many_owned_loop many_loop
many_owned_loop-eq n w [] = ground arith
many_owned_loop-eq n w (v ∷ vs) = ground (arith, many_owned_loop-eq n v vs)

-- On every word and against every interference the four methods agree: `try_acquire`, with its
-- fast path, and `try_acquire_owned` do what `try_acquire_many(1)` does, and
-- `try_acquire_many_owned(n)` what `try_acquire_many(n)` does.
pub try_acquire-agree :
    (n w : ℕ) (rivals : List ℕ)
    → (returns (try_acquire w rivals) ≡ try_acquire_many 1 w rivals)
      × (returns (try_acquire_owned w rivals) ≡ try_acquire_many 1 w rivals)
      × (try_acquire_many_owned n w rivals ≡ try_acquire_many n w rivals)
unfolding try_acquire_many try_acquire_many_owned
try_acquire-agree n w rivals = (
  ground (arith, try_acquire-eq w rivals),
  ground (arith, try_acquire_owned-eq w rivals),
  ground (arith, many_owned_loop-eq n w rivals),
)

-- An attempt on a word that succeeds takes exactly `n` permits and leaves the semaphore open; it
-- fails with `Closed` exactly on a closed word, and with `NoPermits` exactly on an open word with
-- fewer than `n` permits; a failure leaves the word alone.
unfoldable pub Attempted : ℕ → ℕ → TryResult × ℕ → Type 0
Attempted n w (ok k, v) =
    (k ≡ n)
    × (is_closed w ≡ false)
    × (is_closed v ≡ false)
    × (available_permits v + n ≡ available_permits w)
Attempted n w (err closed, v) = (v ≡ w) × (is_closed w ≡ true)
Attempted n w (err no_permits, v) = (v ≡ w) × (is_closed w ≡ false) × (available_permits w < n)

-- For every word that is read with no interference, a `u32` n above 0 and the result of
-- `try_acquire_many(n)`: on success the permit holds n, the semaphore was open and stays so, and
-- its permits are n fewer; `Closed` is returned only by a closed semaphore and `NoPermits` only by
-- an open one with fewer than n permits, and then the word is left alone.
pub try_acquire_many-Attempted :
    (n w : ℕ) (r : TryResult × ℕ)
    → 0 < n
    → n < u32_mod
    → try_acquire_many n w [] ≡ returns r
    → Attempted n w r
unfolding try_acquire_many many_loop Attempted is_closed available_permits
try_acquire_many-Attempted n w (ok k, v) pos small e = ground arith
try_acquire_many-Attempted n w (err closed, v) pos small e = ground arith
try_acquire_many-Attempted n w (err no_permits, v) pos small e = ground arith

-- `try_acquire_many(0)` returns an empty permit on every word, of a closed semaphore too, although
-- `try_acquire_many` is documented to return `Closed` there.
pub try_acquire_many-zero :
    (w : ℕ) (rivals : List ℕ)
    → is_closed w ≡ true
    → (try_acquire_many 0 w rivals ≡ returns (ok 0, w))
      × (try_acquire_many 0 w rivals ≢ returns (err closed, w))
unfolding try_acquire_many
try_acquire_many-zero w rivals h = (refl, λ e. ground arith)
