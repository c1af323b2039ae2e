-- ===== src/System/Advances.antt =====
-- What one section of a call of `add_permits_locked` does to the permits of the system.
use ranked_semaphore.Common.{
  ℕ, ◌+◌, ◌-◌, ◌^◌, ◌<◌, ◌≡◌, refl, false, ◌||◌, Option, none, some, ltb, ltb→le, ◌==◌, arith,
  Bool-cases, inl, inr, if_rule,
}
use ranked_semaphore.Common.Word.{usize_mod}
use ranked_semaphore.Waker
use ranked_semaphore.Waker.{WakeList}
use ranked_semaphore.WaitQueue
use ranked_semaphore.WaitQueue.SelectInvariant.{select-IsValid}
use ranked_semaphore.WaitQueue.Accounting.{select-Accounted}
use ranked_semaphore.WaitQueue.Select.{Selection, select_waiters_to_notify}
use ranked_semaphore.Semaphore.{World, fetch_add, available_permits, is_closed}
use ranked_semaphore.Semaphore.Release.{add_remaining}
use ranked_semaphore.Semaphore.Batches.{IsSound, granted, fetch_add-room, wake_all_not_full}
use ranked_semaphore.Semaphore.Sections.{Call, locking, selected, adding, advance}
use ranked_semaphore.System.Accounts.{in_call, left_sum}

pub record Advances (before : ℕ) (w : World) (r : World × Option Call) : Type 0 where
  pub sound : IsSound r.0
  pub flag : is_closed r.0.permits ≡ is_closed w.permits
  pub sum : is_closed w.permits ≡ false → granted r.0 + left_sum r.1 ≡ granted w + before

-- Adding never touches the flag, whether the word overflows or not.
pub fetch_add_flag :
    (w : World) (n : ℕ)
    → (is_closed (fetch_add w n).permits ≡ is_closed w.permits)
      × ((fetch_add w n).permits < usize_mod)
unfolding is_closed
fetch_add_flag w n = (ground arith, omega arith)

fetch_add-IsSound : (w : World) (n : ℕ) → IsSound w → IsSound (fetch_add w n)
fetch_add-IsSound w n s = record { valid = s.valid; ready = s.ready; word = (fetch_add_flag w n).1 }

added-Advances :
    (w : World) (n : ℕ)
    → IsSound w
    → (is_closed w.permits ≡ false → available_permits w.permits + n < 2 ^ 63)
    → Advances n w (fetch_add w n, none)
unfolding granted
added-Advances w n s room = record {
  sound = fetch_add-IsSound w n s;
  flag = (fetch_add_flag w n).0;
  sum = λ o. omega (arith, (fetch_add-room w n (room o) s.word).0);
}

adding-Advances :
    (w : World) (n : ℕ)
    → IsSound w
    → (is_closed w.permits ≡ false → available_permits w.permits + n < 2 ^ 63)
    → Advances n w (advance (adding n) w)
unfolding advance add_remaining
adding-Advances w n s room = elim (Bool-cases (ltb 0 n)) [
  | inl e ↦ rw e (added-Advances w n s room)
  | inr e ↦ rw e (record { sound = s; flag = refl; sum = λ o. omega (arith, ltb→le 0 n e) })
]

selected-Advances :
    (w : World) (rem assigned : ℕ) (l : WakeList)
    → IsSound w
    → Advances rem w (advance (selected rem assigned l) w)
unfolding advance granted
selected-Advances w rem assigned l s = elim (Bool-cases (is_closed w.permits)) [
  | inl c ↦ rw c (record {
    sound = fetch_add-IsSound w assigned s;
    flag = (fetch_add_flag w assigned).0;
    sum = λ o. cc;
  })
  | inr o ↦
      rw (o, wake_all_not_full l)
        (record {
          sound = record { valid = s.valid; ready = s.ready; word = s.word };
          flag = refl;
          sum = λ o'. refl;
        })
]

module _ (w : World) (n : ℕ) (s : IsSound w) where
  abbrev selection : Selection
  selection = select_waiters_to_notify w.waiters w.store n

  after : World
  after = record {
    sem = record { permits = w.permits; waiters = selection.queue };
    store = selection.store;
    woken = w.woken;
  }

  after-Advances : (c : Call) → in_call c ≡ n - selection.assigned → Advances n w (after, some c)
  unfolding after granted
  after-Advances c e =
      let a = select-Accounted w.waiters w.store n s.valid s.ready in
      record {
        sound = record {
          valid = select-IsValid w.waiters w.store n s.valid;
          ready = a.ready;
          word = s.word;
        };
        flag = refl;
        sum = λ o. omega (arith, a.within, a.set_aside, e);
      }

  Keeping : World × Call → Type 0
  Keeping (v, c) = Advances n w (v, some c)

  untouched : Keeping (w, adding n)
  unfolding Keeping
  untouched = record { sound = s; flag = refl; sum = λ o. refl }

  locking-Advances : Advances n w (advance (locking n) w)
  unfolding advance after Keeping
  locking-Advances = if_rule Keeping (n == 0) untouched (
      if_rule Keeping (WaitQueue.is_empty w.waiters) untouched (
        if_rule Keeping (selection.assigned == 0 || Waker.is_empty selection.wake_list)
          (after-Advances (adding (n - selection.assigned)) refl)
          (after-Advances (selected (n - selection.assigned) selection.assigned selection.wake_list)
            refl)))

pub advance-Advances :
    (c : Call) (w : World)
    → IsSound w
    → (is_closed w.permits ≡ false → available_permits w.permits + in_call c < 2 ^ 63)
    → Advances (in_call c) w (advance c w)
advance-Advances (locking rem) w s room = locking-Advances w rem s
advance-Advances (selected rem assigned l) w s room = selected-Advances w rem assigned l s
advance-Advances (adding rem) w s room = adding-Advances w rem s room
