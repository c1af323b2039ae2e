-- ===== src/Waker/Contents.antt =====
-- waker.rs, `WakeList`: the array with its count, and the list of tasks that it stands for.
use ranked_semaphore.Common.{
  ℕ, zero, suc, ◌+◌, ◌-◌, ◌≤◌, ◌<◌, ◌≡◌, refl, sym, ap, ◌↔◌, subst, ◌∙◌, true, Option, none, some,
  List, [], ◌∷◌, ◌++◌, map, length, length-append, get_elem?, set, replicate, arith,
}
use mathlib.Core.Path.{ap₂, ◌≡⟨◌⟩◌, ◌∎}
use mathlib.Core.List.{append_assoc, append-nil}
use ranked_semaphore.Waker.{
  WakeList, num_wakers, new, was_full, push, wake_all, wake_all_unchecked, wake_slots, clear_slots,
  take_slots,
}

-- The list holds the tasks `ks`, in its first slots.
pub record Holds (l : WakeList) (ks : List ℕ) : Type 0 where
  pub slots : l.wakers ≡ map some ks ++ replicate (num_wakers - length ks) none
  pub counted : l.count ≡ length ks
  pub fits : length ks ≤ num_wakers

abbrev pub push_all : WakeList → List ℕ → WakeList
push_all l [] = l
push_all l (k ∷ ks) = push_all (push l k) ks

pub Holds-new : Holds new []
unfolding new
Holds-new = record { slots = refl; counted = refl; fits = omega arith }

set-map :
    (ks : List ℕ) (k : ℕ) (rest : List (Option ℕ))
    → set (map some ks ++ none ∷ rest) (length ks) (some k) ≡ map some (ks ++ k ∷ []) ++ rest
set-map [] k rest = refl
set-map (j ∷ ks) k rest = ap (◌∷◌ (some j)) (set-map ks k rest)

replicate_suc : (n : ℕ) → 0 < n → replicate {A = Option ℕ} n none ≡ none ∷ replicate (n - 1) none
replicate_suc zero h = elim h [ ]
replicate_suc (suc n) h = let e : suc n - 1 ≡ n = omega arith in rw e

pub push-Holds :
    (l : WakeList) (ks : List ℕ) (k : ℕ)
    → Holds l ks
    → length ks < num_wakers
    → Holds (push l k) (ks ++ k ∷ [])
unfolding push
push-Holds l ks k h room = record {
  slots =
      set l.wakers l.count (some k)
      ≡⟨ ap₂ (λ ws i. set ws i (some k)) h.slots h.counted ⟩
        set (map some ks ++ replicate (num_wakers - length ks) none) (length ks) (some k)
      ≡⟨ ap (λ r. set (map some ks ++ r) (length ks) (some k))
          (replicate_suc (num_wakers - length ks) (omega arith)) ⟩
        set (map some ks ++ none ∷ replicate (num_wakers - length ks - 1) none) (length ks) (some k)
      ≡⟨ set-map ks k _ ⟩ map some (ks ++ k ∷ []) ++ replicate (num_wakers - length ks - 1) none
      ≡⟨ ap (λ n. map some (ks ++ k ∷ []) ++ replicate n none)
          (omega (arith, length-append ks (k ∷ []))) ⟩
        map some (ks ++ k ∷ []) ++ replicate (num_wakers - length (ks ++ k ∷ [])) none ∎;
  counted = omega (arith, length-append ks (k ∷ []), h.counted);
  fits = omega (arith, length-append ks (k ∷ []));
}

push_all-Holds :
    (l : WakeList) (js ks : List ℕ)
    → Holds l js
    → length js + length ks ≤ num_wakers
    → Holds (push_all l ks) (js ++ ks)
push_all-Holds l js [] h room = rw (append-nil js) h
push_all-Holds l js (k ∷ ks) h room =
    let next : Holds (push_all (push l k) ks) ((js ++ k ∷ []) ++ ks) =
      push_all-Holds (push l k) (js ++ k ∷ []) ks (push-Holds l js k h (omega arith))
        (omega (arith, length-append js (k ∷ []))) in
    subst (Holds (push_all (push l k) ks)) (append_assoc js (k ∷ []) ks) next

get_elem?-append :
    (pre : List (Option ℕ)) (x : Option ℕ) (rest : List (Option ℕ))
    → get_elem? (pre ++ x ∷ rest) (length pre) ≡ some x
get_elem?-append [] x rest = refl
get_elem?-append (y ∷ pre) x rest = get_elem?-append pre x rest

set-append :
    (pre : List (Option ℕ)) (x y : Option ℕ) (rest : List (Option ℕ))
    → set (pre ++ x ∷ rest) (length pre) y ≡ (pre ++ y ∷ []) ++ rest
set-append [] x y rest = refl
set-append (z ∷ pre) x y rest = ap (◌∷◌ z) (set-append pre x y rest)

shift :
    (pre : List (Option ℕ)) (x : Option ℕ) (rest : List (Option ℕ))
    → pre ++ x ∷ rest ≡ (pre ++ x ∷ []) ++ rest
shift pre x rest = sym (append_assoc pre (x ∷ []) rest)

length-snoc : (pre : List (Option ℕ)) (x : Option ℕ) → length (pre ++ x ∷ []) ≡ length pre + 1
length-snoc pre x = omega (arith, length-append pre (x ∷ []))

wake_slots-map :
    (pre : List (Option ℕ)) (ks : List ℕ) (rest : List (Option ℕ))
    → wake_slots (length ks) (length pre) (pre ++ (map some ks ++ rest)) ≡ ks
unfolding wake_slots
wake_slots-map pre [] rest = refl
wake_slots-map pre (k ∷ ks) rest =
    rw (get_elem?-append pre (some k) (map some ks ++ rest), wake_slots)
      (ap (◌∷◌ k) (
        ap₂ (wake_slots (length ks)) (sym (length-snoc pre (some k)))
          (shift pre (some k) (map some ks ++ rest))
        ∙ wake_slots-map (pre ++ some k ∷ []) ks rest))

-- Emptying a slot, and the tail of a loop that goes on behind it.
cleared_step :
    (pre : List (Option ℕ)) (x : Option ℕ) (n : ℕ) (rest : List (Option ℕ))
    → (pre ++ x ∷ []) ++ (replicate n none ++ rest) ≡ pre ++ x ∷ (replicate n none ++ rest)
cleared_step pre x n rest = sym (shift pre x (replicate n none ++ rest))

clear_slots-map :
    (pre : List (Option ℕ)) (ks : List ℕ) (rest : List (Option ℕ))
    → clear_slots (length ks) (length pre) (pre ++ (map some ks ++ rest))
      ≡ pre ++ (replicate (length ks) none ++ rest)
unfolding clear_slots
clear_slots-map pre [] rest = refl
clear_slots-map pre (k ∷ ks) rest =
    ap₂ (clear_slots (length ks)) (sym (length-snoc pre none))
      (set-append pre (some k) none (map some ks ++ rest))
    ∙ clear_slots-map (pre ++ none ∷ []) ks rest
    ∙ cleared_step pre none (length ks) rest

take_slots-map :
    (pre : List (Option ℕ)) (ks : List ℕ) (rest : List (Option ℕ))
    → take_slots (length ks) (length pre) (pre ++ (map some ks ++ rest))
      ≡ (pre ++ (replicate (length ks) none ++ rest), ks)
unfolding take_slots
take_slots-map pre [] rest = refl
take_slots-map pre (k ∷ ks) rest =
    rw
      (
        get_elem?-append pre (some k) (map some ks ++ rest),
        set-append pre (some k) none (map some ks ++ rest),
        ← length-snoc pre none,
        take_slots-map (pre ++ none ∷ []) ks rest,
        take_slots,
      )
      (ap (λ ws. (ws, k ∷ ks)) (cleared_step pre none (length ks) rest))

replicate-append :
    (m n : ℕ) → replicate {A = Option ℕ} m none ++ replicate n none ≡ replicate (m + n) none
replicate-append zero n = let e : 0 + n ≡ n = omega arith in rw e
replicate-append (suc m) n =
    let e : suc m + n ≡ suc (m + n) = omega arith in rw e (ap (◌∷◌ none) (replicate-append m n))

emptied :
    (ks : List ℕ)
    → length ks ≤ num_wakers
    → replicate {A = Option ℕ} (length ks) none ++ replicate (num_wakers - length ks) none
      ≡ replicate num_wakers none
emptied ks h =
    replicate-append (length ks) (num_wakers - length ks)
    ∙ ap (λ n. replicate n none) {y = num_wakers} (omega arith)

pub wake_all-Holds : (l : WakeList) (ks : List ℕ) → Holds l ks → wake_all l ≡ (new, ks)
unfolding wake_all new
wake_all-Holds l ks h =
    rw (h.counted, h.slots)
      (ap₂ (λ ws out. (record { wakers = ws; count = 0 }, out))
        (clear_slots-map [] ks _ ∙ emptied ks h.fits) (wake_slots-map [] ks _))

pub wake_all_unchecked-Holds :
    (l : WakeList) (ks : List ℕ) → Holds l ks → wake_all_unchecked l ≡ (new, ks)
unfolding wake_all_unchecked new
wake_all_unchecked-Holds l ks h =
    rw (h.counted, h.slots, take_slots-map [] ks (replicate (num_wakers - length ks) none))
      (ap (λ ws. (record { wakers = ws; count = 0 }, ks)) (emptied ks h.fits))

-- If at most 32 wakers are pushed onto a new list, the list counts them, it is full exactly if
-- there are 32, and `wake_all` and `wake_all_unchecked` both wake exactly these, in the order in
-- which they were pushed, and leave a new list.
pub wake_all-push_all :
    (ks : List ℕ)
    → length ks ≤ num_wakers
    → ((push_all new ks).count ≡ length ks)
      × ((was_full (push_all new ks) ≡ true) ↔ (length ks ≡ num_wakers))
      × (wake_all (push_all new ks) ≡ (new, ks))
      × (wake_all_unchecked (push_all new ks) ≡ (new, ks))
unfolding was_full
wake_all-push_all ks room =
    let held = push_all-Holds new [] ks Holds-new (omega arith) in
    (
      held.counted,
      ground (arith, held.counted),
      wake_all-Holds _ ks held,
      wake_all_unchecked-Holds _ ks held,
    )
