-- ===== src/System/Serial/Released.antt =====
-- core.rs: whether somebody waits while a permit is available, before and after `add_permits`.
use ranked_semaphore.Common.{
  ℕ, suc, ◌-◌, ◌≤◌, ◌<◌, ◌≡◌, refl, ap, sym, true, false, ◌||◌, Option, none, some, List, [], ltb,
  ◌==◌, arith, Bool-cases, inl, inr, ◌⊎◌, subst, if_rule,
}
use ranked_semaphore.Waker
use ranked_semaphore.Waker.{num_wakers}
use ranked_semaphore.Waiter.{Store, is_waiting}
use ranked_semaphore.WaitQueue
use ranked_semaphore.WaitQueue.Ready.{member}
use ranked_semaphore.WaitQueue.Settling.{OneEach, OneEach-Keeps}
use ranked_semaphore.WaitQueue.Selected.{select-keeps}
use ranked_semaphore.Semaphore.Sections.{world_of}
use ranked_semaphore.WaitQueue.ServiceOrder.{queue_at, service_order}
use ranked_semaphore.WaitQueue.HandingOut.Selections.{select-HandsOut, nobody_order}
use ranked_semaphore.WaitQueue.HandingOut.Complete.{hand_out-Complete}
use ranked_semaphore.WaitQueue.Select.{Selection, select_waiters_to_notify}
use ranked_semaphore.Semaphore.{World, is_closed, available_permits}
use ranked_semaphore.Semaphore.Batches.{IsSound, wake_all_not_full}
use ranked_semaphore.Semaphore.Release.{
  Leaves, leaves, returns_early, release_loop, add_remaining, finish_release, add_permits_locked,
}
use ranked_semaphore.System.Queued.{AllQueued, Aged, select-Aged}
use ranked_semaphore.System.Standing.{waiting-standing}

-- No task waits.
abbrev pub Nobody : Store → Type 0
Nobody m = (i : ℕ) → i < m.next → is_waiting (m.cell i) ≡ false

-- While a permit is available, or the semaphore is closed, no task waits.
abbrev pub IsBusy : World → Type 0
IsBusy w = (is_closed w.permits || ltb 0 (available_permits w.permits)) ≡ true → Nobody w.store

pub Aged-Nobody : (m m' : Store) → Aged m m' → Nobody m → Nobody m'
Aged-Nobody m m' a idle i exists = elim (Bool-cases (is_waiting (m'.cell i))) [
  | inl e ↦ absurd (ground (arith, idle i (omega (arith, a.same_waiters)), a.waited i e))
  | inr e ↦ e
]

-- Where the loop leaves a world in which the permits that are left are for nobody.
LoopBusy : World → Option Leaves → Type 0
LoopBusy w none = ⊥
LoopBusy w (some (returns_early v)) = Nobody v.store × OneEach v.store
LoopBusy w (some (leaves rem v)) =
    (v.permits ≡ w.permits)
    × (Nobody w.store → Nobody v.store)
    × ((rem ≡ 0) ⊎ Nobody v.store)
    × OneEach v.store

module _ (n : ℕ) (w : World) (s : IsSound w) (all : AllQueued w) (one : OneEach w.store) where
  abbrev chosen : Selection
  chosen = select_waiters_to_notify w.waiters w.store n

  abbrev order : List ℕ
  order = service_order w.waiters.active_priorities (queue_at w.waiters.priority_queues)

  chosen-Nobody : Nobody w.store → Nobody chosen.store
  chosen-Nobody = Aged-Nobody w.store chosen.store (select-Aged w.waiters w.store n)

  chosen_one : OneEach chosen.store
  chosen_one = select-keeps (λ m l a. OneEach m) OneEach-Keeps w.waiters w.store n one

  empty-Nobody : WaitQueue.is_empty w.waiters ≡ true → Nobody w.store
  unfolding WaitQueue.is_empty member
  empty-Nobody e i exists = elim (Bool-cases (is_waiting (w.store.cell i))) [
    | inl f ↦
        let at = waiting-standing w i s all exists f in
        let nil = nobody_order w.waiters w.store n s.valid s.ready one (ground arith) in
        absurd (ground (arith, subst (λ is. member i is ≡ true) nil at))
    | inr f ↦ f
  ]

  served_all : n ≤ num_wakers → (n - chosen.assigned ≡ 0) ⊎ Nobody chosen.store
  served_all small =
      let h = select-HandsOut w.waiters w.store n s.valid s.ready one in
      elim (hand_out-Complete order n [] w.store (omega (arith, small))) [
        | inl e ↦ inl (omega (arith, h.divided, e))
        | inr f ↦ inr (λ i exists. elim (Bool-cases (is_waiting (chosen.store.cell i))) [
          | inl e ↦
              let a = select-Aged w.waiters w.store n in
              let at = waiting-standing w i s all (omega (arith, a.same_waiters)) (a.waited i e) in
              absurd (ground (arith, ap (λ m. is_waiting (m.cell i)) h.store, f i at))
          | inr e ↦ e
        ])
      ]

  loop-Busy :
      (fuel : ℕ)
      → n ≤ num_wakers
      → (is_closed w.permits ≡ true → Nobody w.store)
      → LoopBusy w (release_loop (suc fuel) n w)
  unfolding release_loop LoopBusy
  loop-Busy fuel small shut =
      let P = LoopBusy w in
      rw (wake_all_not_full chosen.wake_list) (elim (Bool-cases (n == 0)) [
        | inl e ↦ rw e (refl, λ idle. idle, inl (ground arith), one)
        | inr e ↦ elim (Bool-cases (WaitQueue.is_empty w.waiters)) [
          | inl f ↦ rw (e, f) (refl, λ idle. idle, inr (empty-Nobody f), one)
          | inr f ↦
              let kept : (w.permits ≡ w.permits)
                  × (Nobody w.store → Nobody chosen.store)
                  × ((n - chosen.assigned ≡ 0) ⊎ Nobody chosen.store)
                  × OneEach chosen.store =
                (refl, chosen-Nobody, served_all small, chosen_one) in
              rw (e, f)
                (if_rule P (chosen.assigned == 0 || Waker.is_empty chosen.wake_list) kept
                  (elim (Bool-cases (is_closed w.permits)) [
                    | inl c ↦ rw c (chosen-Nobody (shut c), chosen_one)
                    | inr c ↦ rw c kept
                  ]))
        ]
      ])

finish-Busy :
    (w : World) (l : Leaves)
    → IsBusy w
    → LoopBusy w (some l)
    → OneEach (finish_release l).0.store × IsBusy (finish_release l).0
unfolding finish_release add_remaining LoopBusy
finish-Busy w (returns_early v) busy (idle, one) = (one, λ shown. idle)
finish-Busy w (leaves rem v) busy (same, keeps, done, one) = elim (Bool-cases (ltb 0 rem)) [
  | inl e ↦ rw e (one, λ g. elim done [ inl z ↦ absurd (ground arith) | inr idle ↦ idle ])
  | inr e ↦ rw e (one, λ g. keeps (busy (rw (sym same) g)))
]

ends-Busy :
    (w v : World) (l : Option Leaves)
    → IsBusy w
    → LoopBusy w l
    → world_of (elim l [ none ↦ none | some x ↦ some (finish_release x) ]) ≡ some v
    → OneEach v.store × IsBusy v
unfolding LoopBusy
ends-Busy w v none busy h ends = elim h [ ]
ends-Busy w v (some l) busy h ends =
    let same : (finish_release l).0 ≡ v = ground (arith, ends) in
    subst (λ x. OneEach x.store × IsBusy x) same (finish-Busy w l busy h)

-- Giving back at most 32 permits leaves no permit available while somebody waits.
pub released-Busy :
    (n : ℕ) (w v : World)
    → IsSound w
    → AllQueued w
    → OneEach w.store
    → n ≤ num_wakers
    → IsBusy w
    → world_of (add_permits_locked 1 n w) ≡ some v
    → OneEach v.store × IsBusy v
unfolding add_permits_locked LoopBusy
released-Busy n w v s all one small busy ends =
    let shut : is_closed w.permits ≡ true → Nobody w.store = λ c. busy (rw c refl) in
    ends-Busy w v _ busy (loop-Busy n w s all one 0 small shut) ends
