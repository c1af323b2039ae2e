-- ===== src/WaitQueue/HandingOut.antt =====
-- queue.rs, the loops of `select_waiters_to_notify`, where every waiter needs one permit: they hand
-- out permits in service order.
pub mod Levels
pub mod Selections
pub mod Complete
pub mod Full
use mathlib.Core.List.{append-nil}
use ranked_semaphore.Common.{
  ℕ, ◌+◌, ◌-◌, ◌<◌, ◌≡◌, refl, ap, sym, ◌∙◌, Bool, true, false, not, ◌||◌, Option, none, some, List,
  [], ◌∷◌, ◌++◌, length, length-append, ltb, ◌==◌, arith, if◌then◌else◌, Bool-cases, inl, inr, ◌⊎◌,
  subst,
}
use ranked_semaphore.Common.Int.{ℤ, eqb_ℤ, eqb_ℤ_iff}
use ranked_semaphore.Waker.{num_wakers, can_push, push, push_unchecked, WakeList}
use ranked_semaphore.Waker.Contents.{Holds, push-Holds}
use ranked_semaphore.Waiter.{
  WaiterState, Store, write, is_waiting, is_notified, is_cancelled, try_notify,
  take_waker_under_lock,
}
use ranked_semaphore.WaitQueue.Ready.{member, member-append}
use ranked_semaphore.WaitQueue.Order.{cancelled-not_waiting}
use ranked_semaphore.WaitQueue.Rules.{Keeps, serve_level-Keeps}
use ranked_semaphore.WaitQueue.Settling.{is_spent, serve_single-eq-serve_level}
use ranked_semaphore.WaitQueue.ServiceOrder.{
  Handed, told, task_of, is_over, hand_out, hand_out-over,
}
use ranked_semaphore.WaitQueue.Select.{
  Batch, collect, serve, discard, serve_single, serve_level, Level, process_level,
}

-- The waiters of a list before they are served: each is waiting or cancelled, needs one permit, and
-- stands in the list once.
abbrev pub Unserved : Store → List ℕ → Type 0
Unserved m [] = Unit
Unserved m (i ∷ is) =
    (is_notified (m.cell i) ≡ false)
    × ((m.cell i).permits_needed ≡ 1)
    × (member i is ≡ false)
    × Unserved m is

pub Unserved-write :
    (m : Store) (i : ℕ) (w : WaiterState) (is : List ℕ)
    → member i is ≡ false
    → Unserved m is
    → Unserved (write m i w) is
unfolding member
Unserved-write m i w [] out u = tt
Unserved-write m i w (j ∷ js) out u = ground (arith, Unserved-write m i w js)

member-append_none : (i : ℕ) (xs ys : List ℕ) → member i (xs ++ ys) ≡ false → member i xs ≡ false
member-append_none i xs ys e = ground (arith, member-append i xs ys)

-- A batch of `total` permits is where the specification is.
pub record Follows (total : ℕ) (b : Batch) (h : Handed) : Type 0 where
  pub left : b.available ≡ h.left
  pub store : b.store ≡ h.store
  pub held : Holds b.wake_list h.tasks
  pub divided : b.assigned + h.left ≡ total

module _ (w : WaiterState) (idle : is_notified w ≡ false) (live : is_cancelled w ≡ false) where
  live_waits : is_waiting w ≡ true
  unfolding is_notified is_cancelled is_waiting
  live_waits = ground arith

  notify-told : try_notify w ≡ (record w { state = (told w).state }, true)
  unfolding is_notified is_cancelled try_notify
  notify-told = ground arith

module _ (i : ℕ) (b : Batch) (ks : List ℕ) (held : Holds b.wake_list ks)
    (idle : is_notified (b.store.cell i) ≡ false) (live : is_cancelled (b.store.cell i) ≡ false)
    (one : (b.store.cell i).permits_needed ≡ 1) where
  serve-told :
      ((serve i b).store ≡ write b.store i (told (b.store.cell i)))
      × ((serve i b).available ≡ b.available - 1)
      × ((serve i b).assigned ≡ b.assigned + 1)
      × ((serve i b).wake_list ≡ collect (b.store.cell i).waker.waker b.wake_list)
  unfolding serve take_waker_under_lock
  serve-told = rw (notify-told (b.store.cell i) idle live) (refl, omega arith, omega arith, refl)

  collect-task :
      can_push b.wake_list ≡ true → (k : Option ℕ) → Holds (collect k b.wake_list) (ks ++ task_of k)
  unfolding collect can_push push push_unchecked
  collect-task room none = rw (append-nil ks) held
  collect-task room (some k) =
      rw (room, collect) (push-Holds b.wake_list ks k held (ground (arith, held.counted)))

  serve-Holds :
      can_push b.wake_list ≡ true
      → Holds (serve i b).wake_list (ks ++ task_of (b.store.cell i).waker.waker)
  serve-Holds room = rw (serve-told.3) (collect-task room (b.store.cell i).waker.waker)

-- The loop over one queue, against the specification from the same state.
LevelRuns : ℕ → List ℕ → ℕ → List ℕ → Store → List ℕ × Batch × Bool → Type 0
LevelRuns total is n ks m r =
    Follows total r.1 (hand_out is n ks m) × ((r.0 ≡ []) ⊎ (is_spent r.1 ≡ true))

LevelRuns-eq :
    {t t' n n' : ℕ} {m m' : Store} (is ks : List ℕ) (r : List ℕ × Batch × Bool)
    → t ≡ t'
    → n ≡ n'
    → m ≡ m'
    → LevelRuns t is n ks m r
    → LevelRuns t' is n' ks m' r
LevelRuns-eq is ks r e f g h = rw (sym e, sym f, sym g) h

over-eq :
    (b : Batch) (ks : List ℕ)
    → Holds b.wake_list ks
    → (not (can_push b.wake_list) || b.available == 0) ≡ is_over b.available ks
unfolding can_push
over-eq b ks h = ground (arith, h.counted, h.fits)

stay :
    (b : Batch) (ks : List ℕ)
    → Holds b.wake_list ks
    → Follows
        (b.assigned + b.available)
        b
        (record { left = b.available; tasks = ks; store = b.store })
stay b ks h = record { left = refl; store = refl; held = h; divided = refl }

serve_level-Follows :
    (is : List ℕ) (b : Batch) (processed : Bool) (ks : List ℕ)
    → Unserved b.store is
    → Holds b.wake_list ks
    → LevelRuns (b.assigned + b.available) is b.available ks b.store (serve_level is b processed)
unfolding serve_level hand_out LevelRuns is_spent discard
serve_level-Follows [] b processed ks u h = (stay b ks h, inl refl)
serve_level-Follows (i ∷ is) b processed ks u h = elim (Bool-cases (is_over b.available ks)) [
  | inl e ↦ let f = over-eq b ks h ∙ e in rw (e, f) (stay b ks h, inr (ground arith))
  | inr e ↦
      let f = over-eq b ks h ∙ e in
      let enough : ltb b.available (b.store.cell i).permits_needed ≡ false = ground (arith, u.1) in
      elim (Bool-cases (is_cancelled (b.store.cell i))) [
        | inl c ↦
            rw (e, f, enough, c, cancelled-not_waiting (b.store.cell i) c)
              (serve_level-Follows is (discard b) processed ks u.3 h)
        | inr c ↦
            let (store, left, given, list) = serve-told i b ks h u.0 c u.1 in
            let rest =
              serve_level-Follows is (serve i b) true (ks ++ task_of (b.store.cell i).waker.waker)
                (rw store (Unserved-write b.store i (told (b.store.cell i)) is u.2 u.3))
                (serve-Holds i b ks h u.0 c u.1 (ground arith)) in
            rw (e, f, enough, c, live_waits (b.store.cell i) u.0 c)
              (LevelRuns-eq is (ks ++ task_of (b.store.cell i).waker.waker)
                (serve_level is (serve i b) true) (ground arith) left store rest)
      ]
]

-- What is behind the queue stays unserved.
behind-Keeps : (ys : List ℕ) → Keeps (λ is b. Unserved b.store (is ++ ys))
unfolding discard serve
behind-Keeps ys = record {
  by_discard = λ i is b c u. u.3;
  by_serve = λ i is b r c le u. Unserved-write b.store i _ (is ++ ys) u.2 u.3;
}

pub Unserved-append : (m : Store) (xs ys : List ℕ) → Unserved m (xs ++ ys) → Unserved m xs
unfolding member
Unserved-append m [] ys u = tt
Unserved-append m (x ∷ xs) ys u =
    (u.0, u.1, member-append_none x xs ys u.2, Unserved-append m xs ys u.3)

-- The queue of a priority before others, and what processing it leaves.
pub record Processed (b : Batch) (is ys ks : List ℕ) (l : Level) : Type 0 where
  pub follows : Follows (b.assigned + b.available) l.batch (hand_out is b.available ks b.store)
  pub done : (is_spent l.batch ≡ true) ⊎ ((l.queue ≡ []) × Unserved l.batch.store ys)

pub process_level-Processed :
    (b : Batch) (is ys ks : List ℕ)
    → Unserved b.store (is ++ ys)
    → Holds b.wake_list ks
    → Processed b is ys ks (process_level is b)
unfolding process_level LevelRuns is_spent
process_level-Processed b is ys ks u h =
    let (f, rest) = serve_level-Follows is b false ks (Unserved-append b.store is ys u) h in
    let after = serve_level-Keeps _ (behind-Keeps ys) is b false u in
    record {
      follows = record { left = f.left; store = f.store; held = f.held; divided = f.divided };
      done = elim rest [
        | inl e ↦
            inr
              (rw e refl, subst (λ r. Unserved (serve_level is b false).1.store (r ++ ys)) e after)
        | inr e ↦ inl e
      ];
    }

Unserved-needs :
    (m : Store) (is : List ℕ) (i : ℕ)
    → Unserved m is
    → member i is ≡ true
    → (m.cell i).permits_needed ≡ 1
unfolding member
Unserved-needs m [] i u at = cc
Unserved-needs m (j ∷ js) i u at = elim (Bool-cases (j == i)) [
  | inl e ↦ let f : j ≡ i = ground arith in subst (λ k. (m.cell k).permits_needed ≡ 1) f u.1
  | inr e ↦ Unserved-needs m js i u.3 (ground arith)
]

-- The loop of the strategy for a single priority.
pub serve_single-Follows :
    (is : List ℕ) (b : Batch) (ks : List ℕ)
    → Unserved b.store is
    → Holds b.wake_list ks
    → Follows (b.assigned + b.available) (serve_single is b).1 (hand_out is b.available ks b.store)
unfolding LevelRuns
serve_single-Follows is b ks u h =
    rw (serve_single-eq-serve_level is b false (λ i at. Unserved-needs b.store is i u at))
      (serve_level-Follows is b false ks u h).0
