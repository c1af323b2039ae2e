-- ===== src/System/Invariant.antt =====
-- The invariant of the system of threads: the books over all permits.
use ranked_semaphore.Common.{
  ℕ, ◌+◌, ◌^◌, ◌≤◌, ◌<◌, ◌≡◌, ap, ◌∙◌, sym, true, false, some, List, ◌∷◌, ◌++◌, arith, Bool-cases,
  inl, inr,
}
use ranked_semaphore.Error.{returns}
use ranked_semaphore.PriorityMap.{get}
use ranked_semaphore.WaitQueue
use ranked_semaphore.WaitQueue.Invariant.{close-IsValid}
use ranked_semaphore.Semaphore.{
  World, max_permits, available_permits, is_closed, close_word, close_queue,
}
use ranked_semaphore.Semaphore.Batches.{IsSound, granted}
use ranked_semaphore.Semaphore.Sections.{Call, advance}
use ranked_semaphore.Permit.{RankedSemaphorePermit, merge, split}
use ranked_semaphore.System.{System, unfinished}
use ranked_semaphore.System.Accounts.{
  held_sum, calls_sum, in_call, calls_sum-middle, calls_sum-unfinished,
}
use ranked_semaphore.System.Shifts.{Shifts}
use ranked_semaphore.System.Advances.{advance-Advances}

-- All permits that the system knows of: available, set aside for notified waiters, in permit
-- objects, in unfinished calls, and gone.
unfoldable pub accounted : System → ℕ
accounted s = granted s.world + held_sum s.held + calls_sum s.calls + s.gone

pub record Inv (s : System) : Type 0 where
  pub sound : IsSound s.world
  pub small : s.supply ≤ max_permits
  pub balance : is_closed s.world.permits ≡ false → accounted s ≡ s.supply
  pub held_small : held_sum s.held ≤ s.supply

-- A step on the world and the permit objects that takes `out` permits off the world.
pub shift-Inv :
    (s : System) (v : World) (held : List RankedSemaphorePermit) (out lost gone : ℕ)
    → gone ≡ s.gone + lost
    → Shifts out s.world v
    → (is_closed s.world.permits ≡ false → held_sum held + lost ≡ held_sum s.held + out)
    → (is_closed s.world.permits ≡ true → held_sum held ≤ held_sum s.held)
    → Inv s
    → Inv (record s { world = v; held = held; gone = gone })
unfolding accounted
shift-Inv s v held out lost gone e h opened closed i = record {
  sound = h.sound;
  small = i.small;
  balance = λ o. let o' = sym h.flag ∙ o in omega (arith, h.sum, opened o', i.balance o', e);
  held_small = elim (Bool-cases (is_closed s.world.permits)) [
    | inl c ↦ omega (arith, closed c, i.held_small)
    | inr o ↦ omega (arith, h.sum, opened o, i.balance o)
  ];
}

-- A step on the permit objects, the calls and the books alone.
pub move-Inv :
    (s : System) (held : List RankedSemaphorePermit) (calls : List Call) (lost more gone supply : ℕ)
    → gone ≡ s.gone + lost
    → supply ≡ s.supply + more
    → held_sum held + calls_sum calls + lost ≡ held_sum s.held + calls_sum s.calls + more
    → held_sum held ≤ held_sum s.held
    → supply ≤ max_permits
    → Inv s
    → Inv (record s { held = held; calls = calls; gone = gone; supply = supply })
unfolding accounted
move-Inv s held calls lost more gone supply e f same le room i = record {
  sound = i.sound;
  small = room;
  balance = λ o. omega (arith, i.balance o, e, f);
  held_small = omega (arith, i.held_small);
}

-- A call goes on.
pub call-Inv :
    (s : System) (xs ys : List Call) (c : Call)
    → s.calls ≡ xs ++ c ∷ ys
    → Inv s
    → Inv (record s {
      world = (advance c s.world).0;
      calls = unfinished (advance c s.world).1 (xs ++ ys);
    })
unfolding accounted granted
call-Inv s xs ys c e i =
    let before : calls_sum s.calls ≡ calls_sum (xs ++ ys) + in_call c =
      ap calls_sum e ∙ calls_sum-middle xs ys c in
    let room : is_closed s.world.permits ≡ false
        → available_permits s.world.permits + in_call c < 2 ^ 63 =
      λ o. omega (arith, i.balance o, i.small) in
    let a = advance-Advances c s.world i.sound room in
    record {
      sound = a.sound;
      small = i.small;
      balance = λ o.
          let o' = sym a.flag ∙ o in
          omega (
            arith,
            a.sum o',
            i.balance o',
            before,
            calls_sum-unfinished (advance c s.world).1 (xs ++ ys),
          );
      held_small = i.held_small;
    }

-- The flag is set: from then on only the permit objects count.
pub shut-Inv :
    (s : System) (v : World)
    → IsSound v
    → is_closed v.permits ≡ true
    → Inv s
    → Inv (record s { world = v })
shut-Inv s v t c i = record {
  sound = t;
  small = i.small;
  balance = λ o. cc;
  held_small = i.held_small;
}

pub close_word-IsSound : (w : World) → IsSound w → IsSound (close_word w)
unfolding close_word
close_word-IsSound w s = record { valid = s.valid; ready = s.ready; word = omega (arith, s.word) }

pub close_queue-IsSound : (w : World) → IsSound w → IsSound (close_queue w)
unfolding close_queue WaitQueue.close get
close_queue-IsSound w s = record {
  valid = close-IsValid w.waiters w.store;
  ready = λ p is e. cc;
  word = s.word;
}

pub split_sum :
    (p p' q : RankedSemaphorePermit) (n : ℕ)
    → split p n ≡ (p', some q)
    → p'.permits + q.permits ≡ p.permits
unfolding split
split_sum p p' q n e = ground arith

pub merge_sum :
    (p q p' q' : RankedSemaphorePermit)
    → merge p q ≡ returns (p', q')
    → p'.permits ≤ p.permits + q.permits
unfolding merge
merge_sum p q p' q' e = ground arith
