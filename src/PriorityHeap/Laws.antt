-- ===== src/PriorityHeap/Laws.antt =====
-- The laws of the heap of priorities.
use mathlib.Core.List.{reverse-cons}
use ranked_semaphore.Common.{◌≡◌, refl, Bool, false, ◌||◌, List, [], ◌∷◌, ◌++◌, reverse, arith, All}
use ranked_semaphore.Common.Int.{ℤ, eqb_ℤ, ◌≤ℤ◌}
use ranked_semaphore.PriorityHeap.{push, push_all}

unfoldable pub contains : ℤ → List ℤ → Bool
contains p [] = false
contains p (q ∷ h) = eqb_ℤ q p || contains p h

-- Greatest first.
abbrev pub IsDescending : List ℤ → Type 0
IsDescending [] = Unit
IsDescending (p ∷ h) = All (λ q. q ≤ℤ p) h × IsDescending h

pub contains-push : (j p : ℤ) (h : List ℤ) → contains j (push p h) ≡ (eqb_ℤ p j || contains j h)
unfolding contains push
contains-push j p [] = refl
contains-push j p (q ∷ h) = ground (arith, contains-push j p h)

pub contains-push_all :
    (j : ℤ) (ps h : List ℤ) → contains j (push_all ps h) ≡ (contains j ps || contains j h)
unfolding contains push_all
contains-push_all j [] h = refl
contains-push_all j (p ∷ ps) h =
    ground (arith, contains-push_all j ps (push p h), contains-push j p h)

All-le_trans : (p q : ℤ) (h : List ℤ) → p ≤ℤ q → All (λ r. r ≤ℤ p) h → All (λ r. r ≤ℤ q) h
All-le_trans p q [] le a = tt
All-le_trans p q (r ∷ h) le a = (omega arith, All-le_trans p q h le a.1)

All-push : (p q : ℤ) (h : List ℤ) → p ≤ℤ q → All (λ r. r ≤ℤ q) h → All (λ r. r ≤ℤ q) (push p h)
unfolding push
All-push p q [] le a = (le, tt)
All-push p q (r ∷ h) le a = ground (arith, All-push p q h le a.1)

pub push-IsDescending : (p : ℤ) (h : List ℤ) → IsDescending h → IsDescending (push p h)
unfolding push
push-IsDescending p [] d = (tt, tt)
push-IsDescending p (q ∷ h) d =
    ground (arith, push-IsDescending p h d.1, All-push p q h, All-le_trans q p h)

pub push_all-IsDescending : (ps h : List ℤ) → IsDescending h → IsDescending (push_all ps h)
unfolding push_all
push_all-IsDescending [] h d = d
push_all-IsDescending (p ∷ ps) h d = push_all-IsDescending ps (push p h) (push-IsDescending p h d)

contains-append :
    (j : ℤ) (xs ys : List ℤ) → contains j (xs ++ ys) ≡ (contains j xs || contains j ys)
unfolding contains
contains-append j [] ys = refl
contains-append j (x ∷ xs) ys = ground (arith, contains-append j xs ys)

pub contains-reverse : (j : ℤ) (xs : List ℤ) → contains j (reverse xs) ≡ contains j xs
unfolding contains
contains-reverse j [] = refl
contains-reverse j (x ∷ xs) =
    rw (reverse-cons x xs, contains-append j (reverse xs) (x ∷ []))
      (ground (arith, contains-reverse j xs))
