-- ===== src/Semaphore/Overflow.antt =====
-- core.rs, `add_permits` for every `usize`: the word wraps around, and the test behind the addition
-- adds with a wrap too.
use ranked_semaphore.Common.{
  ℕ, suc, ◌+◌, ◌%◌, ◌^◌, ◌<◌, ◌≡◌, refl, ◌↔◌, true, Option, some, ltb, arith, if◌then◌else◌,
  Bool-cases, inl, inr,
}
use ranked_semaphore.Common.Word.{usize_mod, add_usize, shr_one}
use ranked_semaphore.Error.{Exit, returns, panics}
use ranked_semaphore.WaitQueue
use ranked_semaphore.Semaphore.{World, fetch_add, max_permits, is_closed, available_permits}
use ranked_semaphore.Semaphore.Release.{
  release_loop, add_remaining, finish_release, add_permits_locked, add_permits,
}

-- The permits are added modulo 2^63, everything else stays, and the call panics exactly if the sum
-- modulo 2^64 is more than the maximum.
pub data Added (n : ℕ) (w : World) : Option (World × Exit (Unit {0})) → Type 0 where
  added :
      (v : World) (e : Exit (Unit {0}))
      → available_permits v.permits ≡ (available_permits w.permits + n) % 2 ^ 63
      → is_closed v.permits ≡ is_closed w.permits
      → v.waiters ≡ w.waiters
      → v.store ≡ w.store
      → v.woken ≡ w.woken
      → (e ≡ panics) ↔ (max_permits < (available_permits w.permits + n) % usize_mod)
      → Added n w (some (v, e))

module _ (n : ℕ) (w : World) (word : w.permits < usize_mod) where
  fetch_add-wraps :
      (available_permits (fetch_add w n).permits ≡ (available_permits w.permits + n) % 2 ^ 63)
      × (is_closed (fetch_add w n).permits ≡ is_closed w.permits)
  unfolding available_permits is_closed
  fetch_add-wraps = (omega arith, ground arith)

  abbrev exit : Exit (Unit {0})
  exit = if ltb max_permits (add_usize (shr_one w.permits) n) then panics else returns tt

  exit-wraps : (exit ≡ panics) ↔ (max_permits < (available_permits w.permits + n) % usize_mod)
  unfolding available_permits
  exit-wraps = elim (Bool-cases (ltb max_permits (add_usize (shr_one w.permits) n))) [
    | inl e ↦ rw e (λ h. ground arith, λ h. refl)
    | inr e ↦ rw e (λ h. absurd cc, λ h. absurd (ground arith))
  ]

  fetch_add-Added : Added n w (some (fetch_add w n, exit))
  fetch_add-Added =
      let (sum, flag) = fetch_add-wraps in added _ _ sum flag refl refl refl exit-wraps

-- If nobody is queued, then `add_permits(n)`, for every `usize` n above 0 and whether the semaphore
-- is open or closed, ends, adds n to the permits available modulo 2^63, also when it panics, changes
-- nothing else, and panics exactly if the sum modulo 2^64 is more than the maximum of permits. So a
-- sum of 2^64 or more that wraps to a small number does not panic and takes permits away.
pub add_permits-Added :
    (fuel n : ℕ) (w : World)
    → 0 < n
    → n < usize_mod
    → w.permits < usize_mod
    → WaitQueue.is_empty w.waiters ≡ true
    → Added n w (add_permits (suc fuel) n w)
unfolding add_permits add_permits_locked release_loop finish_release add_remaining
add_permits-Added fuel n w pos small word e = ground (arith, fetch_add-Added n w word)
