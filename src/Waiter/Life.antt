-- ===== src/Waiter/Life.antt =====
-- waiter.rs: the life of a waiter as a state machine.
use ranked_semaphore.Common.{ℕ, ◌≡◌, refl, ◌∙◌, List, [], ◌∷◌, arith}
use ranked_semaphore.Waiter.{
  Status, waiting, notified, cancelled, WaiterState, cancel, try_notify, set_waker,
  take_waker_under_lock,
}

-- What can be done to a waiter.
pub data Operation : Type 0 where
  cancels : Operation
  notifies : Operation
  sets_waker : ℕ → Operation
  takes_waker : Operation

pub apply : WaiterState → Operation → WaiterState
unfolding cancel try_notify set_waker take_waker_under_lock
apply w cancels = (cancel w).0
apply w notifies = (try_notify w).0
apply w (sets_waker k) = set_waker w k
apply w takes_waker = (take_waker_under_lock w).1

pub apply_all : WaiterState → List Operation → WaiterState
apply_all w [] = w
apply_all w (o ∷ os) = apply_all (apply w o) os

-- The transitions that a state may make.
pub data Ages : Status → Status → Type 0 where
  stays : (s : Status) → Ages s s
  is_served : Ages waiting notified
  gives_up : Ages waiting cancelled
  loses : Ages notified cancelled

Ages-trans : {s t u : Status} → Ages s t → Ages t u → Ages s u
Ages-trans (stays s) b = b
Ages-trans is_served (stays _) = is_served
Ages-trans is_served loses = gives_up
Ages-trans gives_up (stays _) = gives_up
Ages-trans loses (stays _) = loses

cancel-Ages : (s : Status) (w : WaiterState) → w.state ≡ s → Ages s (cancel w).0.state
unfolding cancel
cancel-Ages waiting w e = rw e gives_up
cancel-Ages notified w e = rw e loses
cancel-Ages cancelled w e = rw e (stays cancelled)

notify-Ages : (s : Status) (w : WaiterState) → w.state ≡ s → Ages s (try_notify w).0.state
unfolding try_notify
notify-Ages waiting w e = rw e is_served
notify-Ages notified w e = rw e (stays notified)
notify-Ages cancelled w e = rw e (stays cancelled)

apply-Ages : (w : WaiterState) (o : Operation) → Ages w.state (apply w o).state
unfolding apply
apply-Ages w cancels = cancel-Ages w.state w refl
apply-Ages w notifies = notify-Ages w.state w refl
apply-Ages w (sets_waker k) = stays w.state
apply-Ages w takes_waker = stays w.state

apply_keeps :
    (w : WaiterState) (o : Operation)
    → ((apply w o).permits_needed ≡ w.permits_needed) × ((apply w o).priority ≡ w.priority)
unfolding apply
apply_keeps w cancels = ground arith
apply_keeps w notifies = ground arith
apply_keeps w (sets_waker k) = (refl, refl)
apply_keeps w takes_waker = (refl, refl)

-- Whatever operations are made on a waiter in whatever order, its state only moves forward, from
-- waiting to notified and from either to cancelled, and its demand and priority never change.
pub apply_all-Ages :
    (w : WaiterState) (os : List Operation)
    → Ages w.state (apply_all w os).state
      × ((apply_all w os).permits_needed ≡ w.permits_needed)
      × ((apply_all w os).priority ≡ w.priority)
unfolding apply_all
apply_all-Ages w [] = (stays w.state, refl, refl)
apply_all-Ages w (o ∷ os) =
    let (ages, needs, rank) = apply_all-Ages (apply w o) os in
    let (needs₁, rank₁) = apply_keeps w o in
    (Ages-trans (apply-Ages w o) ages, needs ∙ needs₁, rank ∙ rank₁)
