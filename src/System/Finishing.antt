-- ===== src/System/Finishing.antt =====
-- The calls that are under way can all be run to their end, from every state of the system.
use ranked_semaphore.Common.{
  ℕ, zero, suc, ◌+◌, ◌≡◌, refl, ap, sym, ◌∙◌, false, Option, none, some, List, [], ◌∷◌, arith,
  Option-cases, inl, inr,
}
use ranked_semaphore.Config.{PriorityConfig}
use ranked_semaphore.Waiter.Reserved.{reserved}
use ranked_semaphore.Semaphore.{World, is_closed, available_permits}
use ranked_semaphore.Semaphore.Release.{add_remaining}
use ranked_semaphore.Semaphore.Sections.{
  Call, locking, selected, adding, advance, uninterrupted, interrupted, call_ends,
}
use ranked_semaphore.System.{System, Reach, Steps, here, reach-Steps}
use ranked_semaphore.System.Accounts.{held_sum, calls_sum}
use ranked_semaphore.System.Advances.{fetch_add_flag}
use ranked_semaphore.System.Conservation.{reach-accounted}
use ranked_semaphore.System.Queued.{locked}
use ranked_semaphore.System.Serial.Runs.{resumed, run-Steps}

advance_flag : (c : Call) (w : World) → is_closed (advance c w).0.permits ≡ is_closed w.permits
unfolding advance add_remaining
advance_flag (locking rem) w = elim (locked rem w) [
  | inl e ↦ ap (λ (v : World). is_closed v.permits) e
  | inr e ↦ ap (λ (v : World). is_closed v.permits) e
]
advance_flag (selected rem assigned l) w = ground (arith, fetch_add_flag w assigned)
advance_flag (adding rem) w = ground (arith, fetch_add_flag w rem)

next_flag :
    (o : Option Call) (fuel : ℕ) (x v : World)
    → ((c : Call) → uninterrupted fuel c x ≡ some v → is_closed v.permits ≡ is_closed x.permits)
    → (elim o [ none ↦ some x | some next ↦ uninterrupted fuel next x ]) ≡ some v
    → is_closed v.permits ≡ is_closed x.permits
next_flag none fuel x v rest ends =
    let same : v ≡ x = ground (arith, ends) in ap (λ (y : World). is_closed y.permits) same
next_flag (some next) fuel x v rest ends = rest next ends

run_flag :
    (fuel : ℕ) (c : Call) (w v : World)
    → uninterrupted fuel c w ≡ some v
    → is_closed v.permits ≡ is_closed w.permits
unfolding uninterrupted
run_flag zero c w v ends = cc
run_flag (suc fuel) c w v ends =
    next_flag (advance c w).1 fuel (advance c w).0 v
      (λ next more. run_flag fuel next (advance c w).0 v more) ends
    ∙ advance_flag c w

-- With nobody between its pieces a call runs as one that is interrupted by nothing.
undisturbed :
    (fuel : ℕ) (c : Call) (w : World) → uninterrupted fuel c w ≡ interrupted fuel (λ k v. v) c w
unfolding uninterrupted interrupted
undisturbed zero c w = refl
undisturbed (suc fuel) c w = elim (Option-cases (advance c w).1) [
  | inl e ↦ rw (uninterrupted, interrupted, e) refl
  | inr (next, e) ↦ rw (uninterrupted, interrupted, e) (undisturbed fuel next (advance c w).0)
]

ends_in : (c : Call) (w : World) → (v : World) × (uninterrupted 3 c w ≡ some v)
ends_in c w = elim (Option-cases (uninterrupted 3 c w)) [
  | inl e ↦ absurd (call_ends c (λ k v. v) w (sym (undisturbed 3 c w) ∙ e))
  | inr found ↦ found
]

finish :
    {before : System} (cs : List Call) (s : System) (w : World)
    → Steps before (resumed s w cs)
    → (v : World) × Steps before (resumed s v []) × (is_closed v.permits ≡ is_closed w.permits)
finish [] s w r = (w, r, refl)
finish (c ∷ cs) s w r =
    let (v, ends) = ends_in c w in
    let (u, later_steps, flag) = finish cs s v (run-Steps cs s v 3 c w ends r) in
    (u, later_steps, flag ∙ run_flag 3 c w v ends)

-- From every state that threads can come to in which the semaphore is open, however far their calls
-- have got, there are steps to a state in which no call is under way, the semaphore is open, the
-- permit objects are the same, and the permits available, those set aside for notified waiters,
-- those in permit objects and those forgotten or lost are together the permits that the semaphore
-- was made with and was given.
pub reach-finishes :
    {permits : ℕ} {config : PriorityConfig} {s : System}
    → Reach permits config s
    → is_closed s.world.permits ≡ false
    → (v : World) × Steps s (record s { world = v; calls = [] })
      × (is_closed v.permits ≡ false)
      × (available_permits v.permits + reserved v.store + held_sum s.held + s.gone ≡ s.supply)
unfolding calls_sum
reach-finishes {s = s} r o =
    let (v, st, flag) = finish s.calls s s.world here in
    (v, st, flag ∙ o, omega (arith, reach-accounted (reach-Steps r st) (flag ∙ o)))
