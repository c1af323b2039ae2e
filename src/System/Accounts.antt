-- ===== src/System/Accounts.antt =====
-- The permits in permit objects and in unfinished calls, as sums.
use ranked_semaphore.Common.{ℕ, ◌+◌, ◌≡◌, refl, Option, none, some, List, [], ◌∷◌, ◌++◌, arith}
use ranked_semaphore.Semaphore.Sections.{Call, locking, selected, adding}
use ranked_semaphore.Permit.{RankedSemaphorePermit}
use ranked_semaphore.System.{unfinished}

unfoldable pub held_sum : List RankedSemaphorePermit → ℕ
held_sum [] = 0
held_sum (p ∷ ps) = p.permits + held_sum ps

abbrev pub in_call : Call → ℕ
in_call (locking rem) = rem
in_call (selected rem assigned wake_list) = rem
in_call (adding rem) = rem

unfoldable pub calls_sum : List Call → ℕ
calls_sum [] = 0
calls_sum (c ∷ cs) = in_call c + calls_sum cs

abbrev pub left_sum : Option Call → ℕ
left_sum none = 0
left_sum (some c) = in_call c

pub held_sum-append :
    (xs ys : List RankedSemaphorePermit) → held_sum (xs ++ ys) ≡ held_sum xs + held_sum ys
unfolding held_sum
held_sum-append [] ys = omega arith
held_sum-append (x ∷ xs) ys = omega (arith, held_sum-append xs ys)

pub held_sum-cons :
    (p : RankedSemaphorePermit) (ps : List RankedSemaphorePermit)
    → held_sum (p ∷ ps) ≡ p.permits + held_sum ps
unfolding held_sum
held_sum-cons p ps = refl

-- Taking one permit object out of the middle.
pub held_sum-middle :
    (xs ys : List RankedSemaphorePermit) (p : RankedSemaphorePermit)
    → held_sum (xs ++ p ∷ ys) ≡ held_sum (xs ++ ys) + p.permits
unfolding held_sum
held_sum-middle [] ys p = omega arith
held_sum-middle (x ∷ xs) ys p = omega (arith, held_sum-middle xs ys p)

pub calls_sum-cons : (c : Call) (cs : List Call) → calls_sum (c ∷ cs) ≡ in_call c + calls_sum cs
unfolding calls_sum
calls_sum-cons c cs = refl

pub calls_sum-middle :
    (xs ys : List Call) (c : Call) → calls_sum (xs ++ c ∷ ys) ≡ calls_sum (xs ++ ys) + in_call c
unfolding calls_sum
calls_sum-middle [] ys c = omega arith
calls_sum-middle (x ∷ xs) ys c = omega (arith, calls_sum-middle xs ys c)

pub calls_sum-unfinished :
    (o : Option Call) (cs : List Call) → calls_sum (unfinished o cs) ≡ left_sum o + calls_sum cs
unfolding calls_sum
calls_sum-unfinished none cs = omega arith
calls_sum-unfinished (some c) cs = refl
