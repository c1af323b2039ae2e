-- ===== src/Semaphore/Batches.antt =====
-- core.rs, `add_permits`: what becomes of the permits that are added.
use ranked_semaphore.Common.{
  ℕ, suc, ◌+◌, ◌-◌, ◌^◌, ◌≤◌, ◌<◌, ◌≡◌, refl, ap, ◌∙◌, ◌≢◌, false, ◌||◌, Option, none, some, List,
  ltb, ◌==◌, arith, if◌then◌else◌, Bool-cases, if_rule, inl, inr, ◌⊎◌, ltb→le, ltb→lt,
}
use ranked_semaphore.Common.Word.{usize_mod, add_usize, shr_one}
use ranked_semaphore.Waker
use ranked_semaphore.Waiter.Reserved.{reserved}
use ranked_semaphore.WaitQueue
use ranked_semaphore.WaitQueue.{WaitQueue}
use ranked_semaphore.WaitQueue.Invariant.{IsValid}
use ranked_semaphore.WaitQueue.Ready.{AllReady}
use ranked_semaphore.WaitQueue.SelectInvariant.{select-IsValid}
use ranked_semaphore.WaitQueue.Accounting.{select-Accounted}
use ranked_semaphore.WaitQueue.Select.{Selection, select_waiters_to_notify}
use ranked_semaphore.Error.{Exit, returns, panics}
use ranked_semaphore.Semaphore.{World, fetch_add, max_permits, available_permits, is_closed}
use ranked_semaphore.Semaphore.Release.{
  Leaves, leaves, release_loop, add_remaining, finish_release, add_permits_locked, add_permits,
}

-- `wake_all` empties the list, so the test for a full list behind it never holds.
pub wake_all_not_full : (l : Waker.WakeList) → Waker.was_full (Waker.wake_all l).0 ≡ false
unfolding Waker.was_full Waker.wake_all
wake_all_not_full l = refl

release_loop-once :
    (fuel rem : ℕ) (w : World) → release_loop (suc fuel) rem w ≡ release_loop 1 rem w
unfolding release_loop
release_loop-once fuel rem w =
    ground (arith, wake_all_not_full (select_waiters_to_notify w.waiters w.store rem).wake_list)

first_round : (rem : ℕ) (w : World) → release_loop 1 rem w ≢ none
unfolding release_loop
first_round rem w e =
    ground (arith, wake_all_not_full (select_waiters_to_notify w.waiters w.store rem).wake_list)

-- The loop of `add_permits_locked` ends in its first round, whatever the state: with any fuel it
-- gives what it gives with fuel 1. The test for a full wake list stands behind `wake_all`, which
-- has emptied the list, so there is no second batch.
pub add_permits_one_batch :
    (fuel n : ℕ) (w : World)
    → (add_permits (suc fuel) n w ≡ add_permits 1 n w) × (add_permits (suc fuel) n w ≢ none)
unfolding add_permits add_permits_locked
add_permits_one_batch fuel n w = ground (arith, release_loop-once fuel n w, first_round n w)

-- A world between two calls: the queue is well formed, the waiters in it are waiting or cancelled,
-- and the word is a `usize`.
pub record IsSound (w : World) : Type 0 where
  pub valid : IsValid w.waiters
  pub ready : AllReady w.waiters.priority_queues w.store
  pub word : w.permits < usize_mod

-- The permits that can be taken, and those set aside for waiters that were notified.
unfoldable pub granted : World → ℕ
granted w = available_permits w.permits + reserved w.store

-- What the loop leaves of `n` permits on an open semaphore.
data Left (n : ℕ) (w : World) : Option Leaves → Type 0 where
  left :
      (rem : ℕ) (v : World)
      → IsSound v
      → v.permits ≡ w.permits
      → rem ≤ n
      → reserved v.store + rem ≡ reserved w.store + n
      → Left n w (some (leaves rem v))

after_select : World → ℕ → List ℕ → World
after_select w n woken =
    let s = select_waiters_to_notify w.waiters w.store n in
    record {
      sem = record { permits = w.permits; waiters = s.queue };
      store = s.store;
      woken = woken;
    }

module _ (w : World) (n : ℕ) (s : IsSound w) where
  abbrev selection : Selection
  selection = select_waiters_to_notify w.waiters w.store n

  after_select-Left :
      (woken : List ℕ) → Left n w (some (leaves (n - selection.assigned) (after_select w n woken)))
  unfolding after_select
  after_select-Left woken =
      let a = select-Accounted w.waiters w.store n s.valid s.ready in
      left _ _
        (record {
          valid = select-IsValid w.waiters w.store n s.valid;
          ready = a.ready;
          word = s.word;
        })
        refl (omega arith) (omega (arith, a.within, a.set_aside))

  untouched-Left : Left n w (some (leaves n w))
  untouched-Left = left n w s refl (omega arith) refl

  release_loop-Left : is_closed w.permits ≡ false → Left n w (release_loop 1 n w)
  unfolding release_loop after_select
  release_loop-Left opened =
      rw (opened, wake_all_not_full selection.wake_list)
        (if_rule (Left n w) (n == 0) untouched-Left (
          if_rule (Left n w) (WaitQueue.is_empty w.waiters) untouched-Left (
            if_rule (Left n w) (selection.assigned == 0 || Waker.is_empty selection.wake_list)
              (after_select-Left w.woken) (after_select-Left _))))

-- What `add_permits(n)` comes to on an open semaphore that has room for the permits.
pub data Released (n : ℕ) (w : World) : Option (World × Exit (Unit {0})) → Type 0 where
  released :
      (v : World) (e : Exit (Unit {0}))
      → IsSound v
      → is_closed v.permits ≡ false
      → granted v ≡ granted w + n
      → available_permits w.permits ≤ available_permits v.permits
      → (e ≡ returns tt) ⊎ (max_permits < available_permits v.permits)
      → Released n w (some (v, e))

-- Adding to a word that has room.
pub fetch_add-room :
    (v : World) (rem : ℕ)
    → available_permits v.permits + rem < 2 ^ 63
    → v.permits < usize_mod
    → (available_permits (fetch_add v rem).permits ≡ available_permits v.permits + rem)
      × (is_closed (fetch_add v rem).permits ≡ is_closed v.permits)
      × ((fetch_add v rem).permits < usize_mod)
unfolding available_permits is_closed
fetch_add-room v rem room small = (omega arith, ground arith, omega arith)

exit_or_full :
    (v : World) (rem : ℕ)
    → available_permits v.permits + rem < 2 ^ 63
    → ((if ltb max_permits (add_usize (shr_one v.permits) rem) then panics else returns (tt {0}))
        ≡ returns tt)
      ⊎ (max_permits < available_permits (fetch_add v rem).permits)
unfolding available_permits
exit_or_full v rem room = elim (Bool-cases (ltb max_permits (add_usize (shr_one v.permits) rem))) [
  | inl e ↦ let lt = ltb→lt _ _ e in inr (omega arith)
  | inr e ↦ inl (rw e)
]

pub fetch_add-IsSound :
    (v : World) (rem : ℕ)
    → available_permits v.permits + rem < 2 ^ 63
    → IsSound v
    → IsSound (fetch_add v rem)
fetch_add-IsSound v rem room s = record {
  valid = s.valid;
  ready = s.ready;
  word = (fetch_add-room v rem room s.word).2;
}

module _ (n rem : ℕ) (w v : World) (opened : is_closed w.permits ≡ false)
    (room : available_permits w.permits + n < 2 ^ 63) (t : IsSound v) (e : v.permits ≡ w.permits)
    (le : rem ≤ n) (f : reserved v.store + rem ≡ reserved w.store + n) where
  same : available_permits v.permits ≡ available_permits w.permits
  same = ap available_permits e

  added-Released : Released n w (
      some (
        fetch_add v rem,
        if ltb max_permits (add_usize (shr_one v.permits) rem) then panics else returns tt,
      ))
  unfolding granted
  added-Released =
      let (sum, flag, small) = fetch_add-room v rem (omega (arith, same)) t.word in
      released _ _ (record { valid = t.valid; ready = t.ready; word = small })
        (flag ∙ ap is_closed e ∙ opened) (omega (arith, sum, same)) (omega (arith, sum, same))
        (exit_or_full v rem (omega (arith, same)))

  add_remaining-Released : Released n w (some (add_remaining rem v))
  unfolding add_remaining granted
  add_remaining-Released = elim (Bool-cases (ltb 0 rem)) [
    | inl p ↦ rw p added-Released
    | inr p ↦ rw p (
        released v (returns tt) t (ap is_closed e ∙ opened) (omega (arith, same, ltb→le 0 rem p))
          (omega (arith, same)) (inl refl))
  ]

finish-Released :
    (n : ℕ) (w : World) {o : Option Leaves}
    → is_closed w.permits ≡ false
    → available_permits w.permits + n < 2 ^ 63
    → Left n w o
    → Released n w (elim o [ none ↦ none | some l ↦ some (finish_release l) ])
unfolding finish_release
finish-Released n w opened room (left rem v t e le f) =
    add_remaining-Released n rem w v opened room t e le f

pub add_permits_locked-Released :
    (fuel n : ℕ) (w : World)
    → IsSound w
    → is_closed w.permits ≡ false
    → available_permits w.permits + n < 2 ^ 63
    → Released n w (add_permits_locked (suc fuel) n w)
unfolding add_permits_locked
add_permits_locked-Released fuel n w s opened room =
    rw (release_loop-once fuel n w, add_permits_locked)
      (finish-Released n w opened room (release_loop-Left w n s opened))

-- On an open semaphore between two calls, with room in the word for `n` more permits,
-- `add_permits(n)` ends, leaves the semaphore open and ready for the next call, and makes no permit
-- and loses none: the permits available and those set aside for notified waiters grow together by
-- exactly `n`, those available do not shrink, and it panics only if more than the maximum of
-- permits are available then.
pub add_permits-Released :
    (fuel n : ℕ) (w : World)
    → IsSound w
    → is_closed w.permits ≡ false
    → available_permits w.permits + n < 2 ^ 63
    → Released n w (add_permits (suc fuel) n w)
unfolding add_permits
add_permits-Released fuel n w s opened room = elim (Bool-cases (n == 0)) [
  | inl e ↦ rw e (released w (returns tt) s opened (ground arith) (omega arith) (inl refl))
  | inr e ↦ rw e (add_permits_locked-Released fuel n w s opened room)
]

pub fetch_add-Released :
    (n : ℕ) (w : World)
    → IsSound w
    → is_closed w.permits ≡ false
    → available_permits w.permits + n < 2 ^ 63
    → Released n w (some (fetch_add w n, returns tt))
unfolding granted
fetch_add-Released n w s opened room =
    let (sum, flag, small) = fetch_add-room w n room s.word in
    released _ _ (fetch_add-IsSound w n room s) (flag ∙ opened) (omega (arith, sum))
      (omega (arith, sum)) (inl refl)
