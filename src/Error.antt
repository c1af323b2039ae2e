-- ===== src/Error.antt =====
-- ranked-semaphore/src/error.rs: the errors of the acquire methods, and how a call ends.
use ranked_semaphore.Common.Format.{Formatting}
use ranked_semaphore.Common.{Bool, true, false}

pub data AcquireError : Type 0 where
  closed_error : AcquireError

abbrev pub closed_acquire : AcquireError
closed_acquire = closed_error

pub data TryAcquireError : Type 0 where
  closed : TryAcquireError
  no_permits : TryAcquireError

unfoldable pub is_closed : TryAcquireError → Bool
is_closed closed = true
is_closed no_permits = false

unfoldable pub is_no_permits : TryAcquireError → Bool
is_no_permits closed = false
is_no_permits no_permits = true

-- How a call ends that returns a value or panics.
pub data Exit {ℓ} (A : Type ℓ) : Type ℓ where
  returns : A → Exit A
  panics : Exit A

module _ {F : Type 0} {D : Type 0} {R : Type 0} (out : Formatting F D R) where
  -- The two `Display` implementations.
  unfoldable pub acquire_error_fmt : AcquireError → F → R
  acquire_error_fmt e f = out.write_str f "semaphore closed"

  unfoldable pub try_acquire_error_fmt : TryAcquireError → F → R
  try_acquire_error_fmt closed f = out.write_str f "semaphore closed"
  try_acquire_error_fmt no_permits f = out.write_str f "no permits available"
