-- ===== src/Waker.antt =====
-- ranked-semaphore/src/wait_queue/waker.rs: the cell that holds a task's waker, and the list of at
-- most 32 wakers that a batch of notifications fills.
-- A `std::task::Waker` is the number of its task, and to wake it is to list that number.
pub mod Contents
mod Tests
use ranked_semaphore.Common.{
  ℕ, zero, suc, ◌+◌, Bool, true, false, Option, none, some, List, [], ◌∷◌, ltb, ◌==◌, get_elem?,
  set, replicate, if◌then◌else◌,
}

pub record SafeWakerCell : Type 0 where
  pub waker : Option ℕ

unfoldable pub new_cell : SafeWakerCell
new_cell = record { waker = none }

unfoldable pub set_under_lock : SafeWakerCell → ℕ → SafeWakerCell
set_under_lock c k = record c { waker = some k }

-- The waker that was in the cell, and the emptied cell.
unfoldable pub take_under_lock : SafeWakerCell → Option ℕ × SafeWakerCell
take_under_lock c = (c.waker, record c { waker = none })

-- The tasks that are woken.
unfoldable pub wake_by_ref_under_lock : SafeWakerCell → List ℕ
wake_by_ref_under_lock c = elim c.waker [ none ↦ [] | some k ↦ k ∷ [] ]

unfoldable pub has_waker_under_lock : SafeWakerCell → Bool
has_waker_under_lock c = elim c.waker [ none ↦ false | some k ↦ true ]

abbrev pub num_wakers : ℕ
num_wakers = 32

-- `wakers` is the array of `num_wakers` slots. A write behind its end, at which the source panics,
-- leaves the array alone and still counts, so `count` shows it.
pub record WakeList : Type 0 where
  pub wakers : List (Option ℕ)
  pub count : ℕ

unfoldable pub new : WakeList
new = record { wakers = replicate num_wakers none; count = 0 }

unfoldable pub can_push : WakeList → Bool
can_push l = ltb l.count num_wakers

unfoldable pub is_empty : WakeList → Bool
is_empty l = l.count == 0

unfoldable pub was_full : WakeList → Bool
was_full l = l.count == num_wakers

unfoldable pub push : WakeList → ℕ → WakeList
push l k = record l { wakers = set l.wakers l.count (some k); count = l.count + 1 }

unfoldable pub push_unchecked : WakeList → ℕ → WakeList
push_unchecked l k = record l { wakers = set l.wakers l.count (some k); count = l.count + 1 }

-- `for i in i..i + n`: the tasks in the slots, in order.
wake_slots : ℕ → ℕ → List (Option ℕ) → List ℕ
wake_slots zero i wakers = []
wake_slots (suc n) i wakers =
    let rest = wake_slots n (i + 1) wakers in
    elim (get_elem? wakers i) [ none ↦ rest | some none ↦ rest | some (some k) ↦ k ∷ rest ]

clear_slots : ℕ → ℕ → List (Option ℕ) → List (Option ℕ)
clear_slots zero i wakers = wakers
clear_slots (suc n) i wakers = clear_slots n (i + 1) (set wakers i none)

-- The emptied list, and the tasks woken, in order.
unfoldable pub wake_all : WakeList → WakeList × List ℕ
unfolding wake_slots clear_slots
wake_all l =
    (record { wakers = clear_slots l.count 0 l.wakers; count = 0 }, wake_slots l.count 0 l.wakers)

-- `take().wake()` on each slot in one loop.
take_slots : ℕ → ℕ → List (Option ℕ) → List (Option ℕ) × List ℕ
take_slots zero i wakers = (wakers, [])
take_slots (suc n) i wakers =
    let (cleared, rest) = take_slots n (i + 1) (set wakers i none) in
    elim (get_elem? wakers i) [
      | none ↦ (cleared, rest)
      | some none ↦ (cleared, rest)
      | some (some k) ↦ (cleared, k ∷ rest)
    ]

unfoldable pub wake_all_unchecked : WakeList → WakeList × List ℕ
unfolding take_slots
wake_all_unchecked l =
    let (cleared, woken) = take_slots l.count 0 l.wakers in
    (record { wakers = cleared; count = 0 }, woken)
