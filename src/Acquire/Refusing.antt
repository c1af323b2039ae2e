-- ===== src/Acquire/Refusing.antt =====
-- futures.rs: a poll that starts when the semaphore is closed, whoever overtakes it.
use ranked_semaphore.Common.{
  ℕ, ◌≡◌, sym, subst, not, ◌==◌, true, false, some, Option-cases, Bool-cases, inl, inr, arith,
}
use ranked_semaphore.Acquire.Races.{poll-first}
use ranked_semaphore.Common.Word.{and_one}
use ranked_semaphore.Error.{closed_acquire}
use ranked_semaphore.Waiter.{is_cancelled, is_notified}
use ranked_semaphore.Semaphore.{World, is_closed}
use ranked_semaphore.Acquire.{
  Acquire, Poll, failed, pending, Rivals, Polled, wait, poll_first, poll,
}

-- Other threads do not open the semaphore again between the reads of a poll.
pub record NeverReopens (r : Rivals) : Type 0 where
  pub on_look :
      (w : World) → is_closed w.permits ≡ true → is_closed (r.before_look w).permits ≡ true
  pub on_flag :
      (w : World) → is_closed w.permits ≡ true → is_closed (r.before_flag w).permits ≡ true

-- The poll fails, or the future is queued and its waiter was found waiting.
pub data Refused (f : Acquire) (w : World) (r : Rivals) : Poll → Type 0 where
  fails : Refused f w r (failed closed_acquire)
  waits :
      (i : ℕ)
      → f.waiter_handle ≡ some i
      → is_cancelled (w.store.cell i) ≡ false
      → is_notified ((r.before_look w).store.cell i) ≡ false
      → Refused f w r pending

poll-wait :
    (f : Acquire) (task : ℕ) (r : Rivals) (w : World) (i : ℕ)
    → f.waiter_handle ≡ some i
    → poll f task r w ≡ wait f i task r w
unfolding poll
poll-wait f task r w i e = ground arith

module _ (f : Acquire) (task : ℕ) (r : Rivals) (w : World) (c : is_closed w.permits ≡ true)
    (never : NeverReopens r) where
  shut_test : not (and_one w.permits == 0) ≡ true
  unfolding is_closed
  shut_test = ground arith

  first-Refused : Refused f w r (poll_first f task r w).poll
  unfolding poll_first
  first-Refused = rw shut_test fails

  wait-Refused : (i : ℕ) → f.waiter_handle ≡ some i → Refused f w r (wait f i task r w).poll
  unfolding wait
  wait-Refused i e =
      let shut = never.on_flag (r.before_look w) (never.on_look w c) in
      elim (Bool-cases (is_cancelled (w.store.cell i))) [
        | inl x ↦ rw x fails
        | inr x ↦ elim (Bool-cases (is_notified ((r.before_look w).store.cell i))) [
          | inl y ↦ rw (x, y, shut) fails
          | inr y ↦ rw (x, y) (waits i e x y)
        ]
      ]

-- Whatever other threads do to a poll that starts when the semaphore is closed, as long as they do
-- not open the semaphore again, it gives out no permit: it fails, or its future was queued before,
-- its waiter was found neither cancelled nor notified, and it waits.
pub poll-Refused :
    (f : Acquire) (task : ℕ) (r : Rivals) (w : World)
    → is_closed w.permits ≡ true
    → NeverReopens r
    → Refused f w r (poll f task r w).poll
poll-Refused f task r w c never = elim (Option-cases f.waiter_handle) [
  | inl e ↦
      subst (λ (s : Polled). Refused f w r s.poll) (sym (poll-first f task r w e))
        (first-Refused f task r w c never)
  | inr (i, e) ↦
      subst (λ (s : Polled). Refused f w r s.poll) (sym (poll-wait f task r w i e))
        (wait-Refused f task r w c never i e)
]
