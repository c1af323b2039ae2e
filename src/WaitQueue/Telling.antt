-- ===== src/WaitQueue/Telling.antt =====
-- queue.rs, `select_waiters_to_notify`: the wakers that it collects.
use ranked_semaphore.Common.{
  ℕ, ◌+◌, ◌<◌, ◌≡◌, refl, ap, ◌∙◌, true, false, Option, none, some, List, [], ◌∷◌, ◌++◌, ◌==◌,
  arith, Bool-cases, inl, inr, ◌⊎◌,
}
use ranked_semaphore.Waker.{WakeList, can_push, push, push_unchecked}
use ranked_semaphore.Waker.Contents.{Holds, Holds-new, push-Holds}
use ranked_semaphore.Waiter.{
  WaiterState, Store, write, is_waiting, try_notify, take_waker_under_lock,
}
use ranked_semaphore.WaitQueue.{WaitQueue}
use ranked_semaphore.WaitQueue.Ready.{member}
use ranked_semaphore.WaitQueue.Rules.{Keeps}
use ranked_semaphore.WaitQueue.Selected.{select-keeps}
use ranked_semaphore.WaitQueue.Select.{Batch, collect, serve, discard, select_waiters_to_notify}

member-append_left : (t : ℕ) (ks js : List ℕ) → member t ks ≡ true → member t (ks ++ js) ≡ true
unfolding member
member-append_left t [] js e = cc
member-append_left t (k ∷ ks) js e = ground (arith, member-append_left t ks js)

pub member-append_right : (t : ℕ) (ks js : List ℕ) → member t js ≡ true → member t (ks ++ js) ≡ true
unfolding member
member-append_right t [] js e = e
member-append_right t (k ∷ ks) js e = ground (arith, member-append_right t ks js e)

-- Collecting a waker keeps those that are in the list, and adds it.
record Collects (waker : Option ℕ) (l : WakeList) (ks : List ℕ) : Type 0 where
  after : List ℕ
  held : Holds (collect waker l) after
  kept : (t : ℕ) → member t ks ≡ true → member t after ≡ true
  added : (t : ℕ) → waker ≡ some t → member t after ≡ true

collect-Collects :
    (waker : Option ℕ) (l : WakeList) (ks : List ℕ)
    → Holds l ks
    → can_push l ≡ true
    → Collects waker l ks
unfolding collect can_push push push_unchecked member
collect-Collects none l ks h room = record {
  after = ks;
  held = h;
  kept = λ t e. e;
  added = λ t e. cc;
}
collect-Collects (some k) l ks h room = record {
  after = ks ++ k ∷ [];
  held = rw (room, collect) (push-Holds l ks k h (ground (arith, h.counted)));
  kept = λ t e. member-append_left t ks (k ∷ []) e;
  added = λ t e. member-append_right t ks (k ∷ []) (ground arith);
}

notify_waker : (x : WaiterState) → (take_waker_under_lock (try_notify x).0).0 ≡ x.waker.waker
unfolding take_waker_under_lock try_notify
notify_waker x = ground arith

lost_same : (x : WaiterState) → (try_notify x).1 ≡ false → (try_notify x).0 ≡ x
unfolding try_notify
lost_same x e = ground arith

-- The waiter `i` with the waker of the task `t` is as it was, or permits are assigned and the waker
-- is in the wake list.
module _ (i t : ℕ) (m : Store) (idle : is_waiting (m.cell i) ≡ true)
    (set : (m.cell i).waker.waker ≡ some t) (needs : 0 < (m.cell i).permits_needed) where
  pub record Tells (m' : Store) (l : WakeList) (assigned : ℕ) : Type 0 where
    pub wakers : List ℕ
    pub held : Holds l wakers
    pub told : (m'.cell i ≡ m.cell i) ⊎ ((0 < assigned) × (member t wakers ≡ true))

  unfoldable pub Told : Store → List ℕ → ℕ → Type 0
  Told m' wakers assigned = (m'.cell i ≡ m.cell i) ⊎ ((0 < assigned) × (member t wakers ≡ true))

  Told-won :
      (j : ℕ) (x : WaiterState) (b : Batch) (ks : List ℕ)
      → (c : Collects (take_waker_under_lock (try_notify (b.store.cell j)).0).0 b.wake_list ks)
      → Told b.store ks b.assigned
      → Told (write b.store j x) c.after (b.assigned + (b.store.cell j).permits_needed)
  unfolding Told
  Told-won j x b ks c (inl same) = elim (Bool-cases (j == i)) [
    | inl e ↦
        let here : b.store.cell j ≡ m.cell i = ground arith in
        let needed : (b.store.cell j).permits_needed ≡ (m.cell i).permits_needed =
          ap (λ (y : WaiterState). y.permits_needed) here in
        inr (
          omega (arith, needed),
          c.added t
              (notify_waker (b.store.cell j) ∙ ap (λ (y : WaiterState). y.waker.waker) here ∙ set),
        )
    | inr e ↦ inl (ground arith)
  ]
  Told-won j x b ks c (inr (pos, known)) = inr (omega arith, c.kept t known)

  Told-lost :
      (j : ℕ) (b : Batch) (ks : List ℕ)
      → (try_notify (b.store.cell j)).1 ≡ false
      → Told b.store ks b.assigned
      → Told
          (write b.store j (try_notify (b.store.cell j)).0)
          ks
          (b.assigned + (b.store.cell j).permits_needed)
  unfolding Told
  Told-lost j b ks lost (inl same) = inl (ground (arith, lost_same (b.store.cell j)))
  Told-lost j b ks lost (inr (pos, known)) = inr (omega arith, known)

  serve-Tells :
      (j : ℕ) (b : Batch)
      → can_push b.wake_list ≡ true
      → Tells b.store b.wake_list b.assigned
      → Tells (serve j b).store (serve j b).wake_list (serve j b).assigned
  unfolding serve Told
  serve-Tells j b room h = elim (Bool-cases (try_notify (b.store.cell j)).1) [
    | inl won ↦
        let c =
          collect-Collects (take_waker_under_lock (try_notify (b.store.cell j)).0).0 b.wake_list
            h.wakers h.held room in
        rw won (record { wakers = c.after; held = c.held; told = Told-won j _ b h.wakers c h.told })
    | inr lost ↦
        rw lost
          (record { wakers = h.wakers; held = h.held; told = Told-lost j b h.wakers lost h.told })
  ]

  Tells-Keeps : Keeps (λ is b. Tells b.store b.wake_list b.assigned)
  unfolding discard
  Tells-Keeps = record {
    by_discard = λ j is b c h. h;
    by_serve = λ j is b r c e h. serve-Tells j b r h;
  }

  pub select-Tells :
      (q : WaitQueue) (n : ℕ)
      → let s = select_waiters_to_notify q m n in Tells s.store s.wake_list s.assigned
  select-Tells q n =
      select-keeps Tells Tells-Keeps q m n
        (record { wakers = []; held = Holds-new; told = inl refl })
