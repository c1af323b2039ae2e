-- ===== src/WaitQueue/Settling.antt =====
-- queue.rs, the loops over several active priorities: what becomes of the waiters of one priority.
use ranked_semaphore.Common.{
  ℕ, ◌<◌, ◌≡◌, ◌&&◌, if◌then◌else◌, refl, ap, ◌≢◌, some, Option-cases, List-cases, ◌∙◌, Bool, true,
  false, not, ◌||◌, List, [], ◌∷◌, ltb, ◌==◌, arith, Bool-cases, inl, inr, ◌⊎◌, subst, All,
}
use ranked_semaphore.Common.Int.{ℤ, ◌≤ℤ◌, eqb_ℤ, eqb_ℤ_iff}
use ranked_semaphore.Waker.{can_push}
use ranked_semaphore.Waiter.{Store, is_cancelled, is_waiting, try_notify, take_waker_under_lock}
use ranked_semaphore.PriorityMap.{PriorityQueues, get, has_non_empty_queue}
use ranked_semaphore.PriorityHeap.Laws.{contains}
use ranked_semaphore.WaitQueue.Ready.{member, Ready}
use ranked_semaphore.WaitQueue.Order.{cancelled-not_waiting, serve-not_waiting}
use ranked_semaphore.WaitQueue.Rules.{Keeps, serve_level-Keeps, LevelKeeps, after_level}
use ranked_semaphore.WaitQueue.Select.{
  Batch, serve, discard, serve_single, serve_level, process_level, serve_levels,
}

-- Every waiter needs one permit, as those of `acquire` do.
abbrev pub OneEach : Store → Type 0
OneEach m = (i : ℕ) → i < m.next → (m.cell i).permits_needed ≡ 1

-- A waiter that does not wait stays so.
pub settled-Keeps : (i : ℕ) → Keeps (λ is b. is_waiting (b.store.cell i) ≡ false)
unfolding discard serve try_notify take_waker_under_lock is_waiting
settled-Keeps i = record { by_discard = λ j is b c h. h; by_serve = λ j is b r c e h. ground arith }

pub settled-LevelKeeps : (i : ℕ) → LevelKeeps (λ l. is_waiting (l.batch.store.cell i) ≡ false)
unfolding process_level
settled-LevelKeeps i = record {
  by_skip = λ p ps m b restore e h. h;
  by_level = λ p ps m b restore j is e h. serve_level-Keeps _ (settled-Keeps i) (j ∷ is) b false h;
}

pub OneEach-Keeps : Keeps (λ is b. OneEach b.store)
unfolding discard serve try_notify take_waker_under_lock
OneEach-Keeps = record {
  by_discard = λ j is b c h. h;
  by_serve = λ j is b r c e h i below. ground (arith, h i below);
}

pub process_level-OneEach :
    (is : List ℕ) (b : Batch) → OneEach b.store → OneEach (process_level is b).batch.store
unfolding process_level
process_level-OneEach is b h = serve_level-Keeps _ OneEach-Keeps is b false h

pub Ready-member :
    (p : ℤ) (m : Store) (is : List ℕ) (i : ℕ)
    → Ready p m is
    → member i is ≡ true
    → (i < m.next) × ((m.cell i).priority ≡ p)
unfolding member
Ready-member p m [] i r e = cc
Ready-member p m (j ∷ is) i r e = elim (Bool-cases (j == i)) [
  | inl f ↦
      let g : j ≡ i = ground arith in
      subst (λ k. (k < m.next) × ((m.cell k).priority ≡ p)) g (r.0, r.1)
  | inr f ↦ Ready-member p m is i r.4 (ground arith)
]

unfoldable pub is_spent : Batch → Bool
is_spent b = b.available == 0 || not (can_push b.wake_list)

-- Serving the queue of a priority settles all its waiters, unless it uses up the permits or the
-- wake list.
unfoldable pub Settles : List ℕ → Batch → Type 0
Settles is b =
    (is_spent b ≡ true) ⊎ ((i : ℕ) → member i is ≡ true → is_waiting (b.store.cell i) ≡ false)

settle_one :
    (i : ℕ) (is : List ℕ) (b : Batch)
    → is_waiting (b.store.cell i) ≡ false
    → Settles is b
    → Settles (i ∷ is) b
unfolding Settles member
settle_one i is b done (inl e) = inl e
settle_one i is b done (inr h) = inr (λ j e. elim (Bool-cases (i == j)) [
  | inl f ↦ let g : i ≡ j = ground arith in subst (λ k. is_waiting (b.store.cell k) ≡ false) g done
  | inr f ↦ h j (ground arith)
])

serve-needs :
    (i : ℕ) (b : Batch) (j : ℕ)
    → ((serve i b).store.cell j).permits_needed ≡ (b.store.cell j).permits_needed
unfolding serve try_notify take_waker_under_lock
serve-needs i b j = ground arith

pub serve_level-Settles :
    (is : List ℕ) (b : Batch) (processed : Bool)
    → ((i : ℕ) → member i is ≡ true → (b.store.cell i).permits_needed ≡ 1)
    → Settles is (serve_level is b processed).1
unfolding serve_level Settles is_spent member discard
serve_level-Settles [] b processed one = inr (λ i e. cc)
serve_level-Settles (i ∷ is) b processed one =
    elim (Bool-cases (not (can_push b.wake_list) || b.available == 0)) [
      | inl e ↦ rw e (inl (ground arith))
      | inr e ↦ elim (Bool-cases (ltb b.available (b.store.cell i).permits_needed)) [
        | inl f ↦
            let needs : (b.store.cell i).permits_needed ≡ 1 = one i (ground arith) in
            absurd (ground arith)
        | inr f ↦ elim (Bool-cases (is_cancelled (b.store.cell i))) [
          | inl c ↦
              rw (e, f, c)
                (settle_one i is (serve_level is (discard b) processed).1
                  (serve_level-Keeps _ (settled-Keeps i) is (discard b) processed
                    (cancelled-not_waiting (b.store.cell i) c))
                  (serve_level-Settles is (discard b) processed (λ j g. one j (ground arith))))
          | inr c ↦
              rw (e, f, c)
                (settle_one i is (serve_level is (serve i b) true).1
                  (serve_level-Keeps _ (settled-Keeps i) is (serve i b) true
                    (serve-not_waiting i b))
                  (serve_level-Settles is (serve i b) true
                    (λ j g. serve-needs i b j ∙ one j (ground arith))))
        ]
      ]
    ]

pub process_level-Settles :
    (is : List ℕ) (b : Batch)
    → ((i : ℕ) → member i is ≡ true → (b.store.cell i).permits_needed ≡ 1)
    → Settles is (process_level is b).batch
unfolding process_level Settles is_spent
process_level-Settles is b one = serve_level-Settles is b false one

-- A loop that starts without permits or with a full wake list does nothing.
pub serve_levels-spent :
    (ps : List ℤ) (m : PriorityQueues) (b : Batch) (restore : List ℤ)
    → is_spent b ≡ true
    → (serve_levels ps m b restore).batch ≡ b
unfolding serve_levels is_spent
serve_levels-spent [] m b restore e = refl
serve_levels-spent (p ∷ ps) m b restore e = rw e refl

pub All-contains : (p q : ℤ) (h : List ℤ) → All (λ r. r ≤ℤ q) h → contains p h ≡ true → p ≤ℤ q
unfolding contains
All-contains p q [] a e = cc
All-contains p q (r ∷ h) a e = elim (Bool-cases (eqb_ℤ r p)) [
  | inl f ↦ let g : r ≡ p = (eqb_ℤ_iff r p).0 f in subst (λ k. k ≤ℤ q) g a.0
  | inr f ↦ All-contains p q h a.1 (ground arith)
]

-- A priority without waiters.
pub vacant :
    (q : ℤ) (m : PriorityQueues)
    → ((o : ℕ) (os : List ℕ) → get q m ≢ some (o ∷ os))
    → has_non_empty_queue q m ≡ false
unfolding has_non_empty_queue
vacant q m nobody = elim (Option-cases (get q m)) [
  | inl e ↦ ground arith
  | inr (queue, e) ↦ elim (List-cases queue) [
    | inl nil ↦ ground arith
    | inr (o, os, cons) ↦ absurd (nobody o os (e ∙ ap some cons))
  ]
]

-- Where every waiter needs one permit, the two loops over a queue do the same: they differ in
-- whether a waiter that needs too much is looked at before a cancelled one.
pub serve_single-eq-serve_level :
    (is : List ℕ) (b : Batch) (processed : Bool)
    → ((i : ℕ) → member i is ≡ true → (b.store.cell i).permits_needed ≡ 1)
    → (serve_single is b).1 ≡ (serve_level is b processed).1
unfolding serve_single serve_level member discard
serve_single-eq-serve_level [] b processed one = refl
serve_single-eq-serve_level (i ∷ is) b processed one =
    elim (Bool-cases (not (can_push b.wake_list) || b.available == 0)) [
      | inl e ↦ rw e refl
      | inr e ↦
          let needs : (b.store.cell i).permits_needed ≡ 1 = one i (ground arith) in
          let f : ltb b.available (b.store.cell i).permits_needed ≡ false = ground arith in
          elim (Bool-cases (is_cancelled (b.store.cell i))) [
            | inl c ↦
                rw (e, f, c)
                  (serve_single-eq-serve_level is (discard b) processed
                    (λ j g. one j (ground arith)))
            | inr c ↦
                rw (e, f, c)
                  (serve_single-eq-serve_level is (serve i b) true
                    (λ j g. serve-needs i b j ∙ one j (ground arith)))
          ]
    ]

-- One round of the loop over the priorities, where the first waiter of the highest one fits.
pub served_round :
    (p : ℤ) (ps : List ℤ) (m : PriorityQueues) (b : Batch) (restore : List ℤ) (i : ℕ) (is : List ℕ)
    → is_spent b ≡ false
    → get p m ≡ some (i ∷ is)
    → ltb b.available (b.store.cell i).permits_needed ≡ false
    → serve_levels (p ∷ ps) m b restore ≡ (
        let after = after_level p ps m b restore (i ∷ is) in
        if (process_level (i ∷ is) b).processed_any && not (can_push after.batch.wake_list)
        then after
        else serve_levels ps after.queues after.batch after.to_restore)
unfolding serve_levels is_spent
served_round p ps m b restore i is e there fits = rw (e, there, serve_levels, fits) refl
