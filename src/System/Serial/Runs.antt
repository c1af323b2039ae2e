-- ===== src/System/Serial/Runs.antt =====
-- Calls that do not overlap, section by section: what such threads do, the system of threads can do.
use ranked_semaphore.Common.{
  ℕ, zero, suc, ◌+◌, ◌≡◌, refl, ap, sym, ◌∙◌, true, false, Option, none, some, List, [], ◌∷◌, ◌++◌,
  ltb, ◌==◌, arith, Bool-cases, inl, inr, subst,
}
use ranked_semaphore.Config.{PriorityConfig}
use ranked_semaphore.WaitQueue
use ranked_semaphore.Semaphore.{World, fetch_add, close}
use ranked_semaphore.Semaphore.Release.{
  release_loop, add_remaining, finish_release, add_permits_locked, add_permits,
}
use ranked_semaphore.Semaphore.Sections.{
  Call, locking, advance, uninterrupted, world_of, sections-agree,
}
use ranked_semaphore.Permit
use ranked_semaphore.Permit.{RankedSemaphorePermit}
use ranked_semaphore.System.{
  System, enters, leaves_waker, drops, adds, goes_on, closes, cancels, Reach, start, later, Steps,
  here, then, reach-Steps, unfinished,
}
use ranked_semaphore.WaitQueue.{push_waiter}
use ranked_semaphore.Waiter.{new_handle}
use ranked_semaphore.Semaphore.Word.{close_word_lem}
use ranked_semaphore.System.Conservation.{reach-Inv}
use ranked_semaphore.System.Serial.Queueing.{pending_facts}
use ranked_semaphore.System.Serial.{
  Turn, steps, queues, gives_back, gives, shuts, Serial, begins, goes,
}

nothing_left : (n : ℕ) (w : World) → (n == 0) ≡ true → world_of (add_permits_locked 1 n w) ≡ some w
unfolding add_permits_locked release_loop finish_release add_remaining
nothing_left n w z =
    let over : ltb 0 n ≡ false = ground arith in
    rw (add_permits_locked, release_loop, z, finish_release, add_remaining, over) refl

nobody_queued :
    (n : ℕ) (w : World)
    → (n == 0) ≡ false
    → WaitQueue.is_empty w.waiters ≡ true
    → world_of (add_permits_locked 1 n w) ≡ some (fetch_add w n)
unfolding add_permits_locked release_loop finish_release add_remaining
nobody_queued n w z f =
    let some_left : ltb 0 n ≡ true = ground arith in
    rw (add_permits_locked, release_loop, z, f, finish_release, add_remaining, some_left) refl

-- Dropping a permit object leaves the world that `add_permits_locked` leaves, and so does
-- `add_permits`.
pub drop_world :
    (p : RankedSemaphorePermit) (w : World)
    → world_of (Permit.drop 1 p w) ≡ world_of (add_permits_locked 1 p.permits w)
unfolding Permit.drop
drop_world p w = elim (Bool-cases (p.permits == 0)) [
  | inl z ↦ rw (z, nothing_left p.permits w z) refl
  | inr z ↦ elim (Bool-cases (WaitQueue.is_empty w.waiters)) [
    | inl f ↦ rw (z, f, nobody_queued p.permits w z f) refl
    | inr f ↦ rw (z, f) refl
  ]
]

pub add_world :
    (n : ℕ) (w : World) → world_of (add_permits 1 n w) ≡ world_of (add_permits_locked 1 n w)
unfolding add_permits
add_world n w = elim (Bool-cases (n == 0)) [
  | inl z ↦ rw (z, nothing_left n w z) refl
  | inr z ↦ rw z refl
]

-- The system with another world and other calls.
abbrev pub resumed : System → World → List Call → System
resumed s w cs = record s { world = w; calls = cs }

-- A call that has begun runs to its end.
module _ {before : System} (cs : List Call) (s : System) (v : World) where
  one_section :
      (o : Option Call) (fuel : ℕ) (x : World)
      → ((c : Call)
          → uninterrupted fuel c x ≡ some v
          → Steps before (resumed s x (c ∷ cs))
          → Steps before (resumed s v cs))
      → (elim o [ none ↦ some x | some next ↦ uninterrupted fuel next x ]) ≡ some v
      → Steps before (resumed s x (unfinished o cs))
      → Steps before (resumed s v cs)
  one_section none fuel x rest ends r =
      let same : x ≡ v = ground (arith, ends) in subst (λ y. Steps before (resumed s y cs)) same r
  one_section (some next) fuel x rest ends r = rest next ends r

  pub run-Steps :
      (fuel : ℕ) (c : Call) (w : World)
      → uninterrupted fuel c w ≡ some v
      → Steps before (resumed s w (c ∷ cs))
      → Steps before (resumed s v cs)
  unfolding uninterrupted
  run-Steps zero c w ends r = cc
  run-Steps (suc fuel) c w ends r =
      one_section (advance c w).1 fuel (advance c w).0
        (λ next more begun. run-Steps fuel next (advance c w).0 more begun) ends
        (then r (goes_on [] cs c refl))

-- So does one of `add_permits_locked`.
released-Reach :
    {permits : ℕ} {config : PriorityConfig} (s : System) (n : ℕ) (v : World)
    → world_of (add_permits_locked 1 n s.world) ≡ some v
    → Reach permits config (record s { calls = locking n ∷ s.calls })
    → Reach permits config (record s { world = v })
released-Reach s n v ends r = reach-Steps r (
    run-Steps s.calls s v 3 (locking n) s.world ((sections-agree 0 0 n (λ k w. w) s.world).1 ∙ ends)
      here)

Turn-Reach :
    {permits : ℕ} {config : PriorityConfig} {s t : System}
    → Turn s t
    → Reach permits config s
    → Reach permits config t
unfolding close push_waiter new_handle
Turn-Reach (steps x whole) r = later r x
Turn-Reach {permits} {config} {s} (queues f g task v new one room e) r =
    let (o, few, same) =
      pending_facts f g task s.world v new (omega (arith, one)) (reach-Inv r).sound room e in
    subst (λ w. Reach permits config (record s { world = w })) (sym same)
      (later (later r (enters f.permits_needed f.priority o room))
        (leaves_waker s.world.store.next task (omega arith)))
Turn-Reach {s = s} (gives_back xs ys p v e held small ends) r =
    released-Reach (record s { held = xs ++ ys }) p.permits v
      (sym (drop_world p s.world) ∙ ap world_of ends) (later r (drops xs ys p held))
Turn-Reach {s = s} (gives n v e room small ends) r =
    released-Reach (record s { supply = s.supply + n }) n v
      (sym (add_world n s.world) ∙ ap world_of ends) (later r (adds n room))
Turn-Reach {s = s} shuts r = later (later r closes) (cancels (close_word_lem s.world).1)

-- Whatever such threads do, other threads could have done.
pub Serial-Reach :
    {permits : ℕ} {config : PriorityConfig} {s : System}
    → Serial permits config s
    → Reach permits config s
Serial-Reach (begins sem e) = start sem e
Serial-Reach (goes r t) = Turn-Reach t (Serial-Reach r)
