-- ===== src/System/Shutdown.antt =====
-- What threads can still do once the semaphore is closed.
use ranked_semaphore.Common.{ℕ, ◌≤◌, ◌≡◌, ap, ◌∙◌, true, ◌∷◌, ◌++◌, arith}
use ranked_semaphore.Config.{PriorityConfig}
use ranked_semaphore.Semaphore.{is_closed}
use ranked_semaphore.Semaphore.Word.{close_word_lem}
use ranked_semaphore.Acquire.{Polled}
use ranked_semaphore.Acquire.Outcomes.{poll-FirstPoll}
use ranked_semaphore.System.{
  System, Step, takes, takes_at_once, enters, leaves_waker, receives, gives_up, splits, merges,
  forgets, drops, adds, goes_on, forgets_permits, closes, cancels, Reach, Steps, here, then,
  reach-Steps,
}
use ranked_semaphore.System.Accounts.{held_sum, held_sum-cons, held_sum-middle}
use ranked_semaphore.System.Shifts.{
  try-Shifts, ready-Shifts, drop-Shifts, receive_facts, forget-Shifts,
}
use ranked_semaphore.System.Advances.{advance-Advances}
use ranked_semaphore.System.Invariant.{Inv, split_sum, merge_sum}
use ranked_semaphore.System.Conservation.{close_queue_word, reach-Inv}

-- A closed semaphore stays closed, and the permit objects hold no more than before.
abbrev pub Shut : System → System → Type 0
Shut s t = (is_closed t.world.permits ≡ true) × (held_sum t.held ≤ held_sum s.held)

Step-Shut : {s t : System} → Step s t → Inv s → is_closed s.world.permits ≡ true → Shut s t
Step-Shut {s} (takes n v pos small e) i c =
    let (o, h) = try-Shifts s.world n v i.sound pos small e in cc
Step-Shut {s} (takes_at_once f g task v p new small room e) i c =
    let (o, h) =
      ready-Shifts f task s.world _ p (ap (λ (r : Polled). r.poll) e)
        (poll-FirstPoll f task s.world new small i.sound room) in
    cc
Step-Shut {s} (enters n p o room) i c = cc
Step-Shut {s} (leaves_waker j task exists) i c = (c, omega arith)
Step-Shut {s} (receives j task g v p exists e) i c =
    let (same, o, le) = receive_facts s.world j task g v p e in cc
Step-Shut {s} (gives_up j exists) i c =
    ((drop-Shifts s.world j i.sound exists).flag ∙ c, omega arith)
Step-Shut {s} (splits xs ys p p' q n e f) i c =
    let held = ap held_sum e ∙ held_sum-middle xs ys p in
    (
      c,
      omega (
        arith,
        held,
        held_sum-middle xs (q ∷ ys) p',
        held_sum-middle xs ys q,
        split_sum p p' q n f,
      ),
    )
Step-Shut {s} (merges xs ys us vs p q p' q' e f g) i c =
    let held = ap held_sum e ∙ held_sum-middle xs ys p in
    let others = ap held_sum f ∙ held_sum-middle us vs q in
    (c, omega (arith, held, others, held_sum-cons p' (us ++ vs), merge_sum p q p' q' g))
Step-Shut {s} (forgets xs ys p e) i c =
    let held = ap held_sum e ∙ held_sum-middle xs ys p in (c, omega (arith, held))
Step-Shut {s} (drops xs ys p e) i c =
    let held = ap held_sum e ∙ held_sum-middle xs ys p in (c, omega (arith, held))
Step-Shut {s} (adds n room) i c = (c, omega arith)
Step-Shut {s} (goes_on xs ys d e) i c =
    ((advance-Advances d s.world i.sound (λ o. cc)).flag ∙ c, omega arith)
Step-Shut {s} (forgets_permits n) i c = ((forget-Shifts s.world n i.sound).flag ∙ c, omega arith)
Step-Shut {s} closes i c = ((close_word_lem s.world).1, omega arith)
Step-Shut {s} (cancels o) i c = (ap is_closed (close_queue_word s.world) ∙ c, omega arith)

-- Whatever threads do from a state that they came to in which the semaphore is closed, and in
-- whatever order, it stays closed, and no permit is given out: the permit objects never hold more
-- together than they did.
pub steps-Shut :
    {permits : ℕ} {config : PriorityConfig} {s t : System}
    → Reach permits config s
    → is_closed s.world.permits ≡ true
    → Steps s t
    → Shut s t
steps-Shut r c here = (c, omega arith)
steps-Shut r c (then st x) =
    let (c', le) = steps-Shut r c st in
    let (c'', le') = Step-Shut x (reach-Inv (reach-Steps r st)) c' in (c'', omega arith)
