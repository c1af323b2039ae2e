-- ===== src/Waker/Tests.antt =====
-- Examples for waker.rs.
use ranked_semaphore.Common.{ℕ, ◌≡◌, refl, ◌↔◌, true, [], ◌∷◌, arith}
use ranked_semaphore.Waker.{num_wakers, new, push, was_full, wake_all, wake_all_unchecked}
use ranked_semaphore.Waker.Contents.{push_all, wake_all-push_all}

wakes_in_order : (wake_all (push (push new 7) 9)).1 ≡ 7 ∷ 9 ∷ []
unfolding wake_all push new
wakes_in_order = refl

wake_all-push_all_example :
    let l = push_all new (7 ∷ 9 ∷ []) in
    (l.count ≡ 2)
    × ((was_full l ≡ true) ↔ (◌≡◌ {A = ℕ} 2 num_wakers))
    × (wake_all l ≡ (new, 7 ∷ 9 ∷ []))
    × (wake_all_unchecked l ≡ (new, 7 ∷ 9 ∷ []))
wake_all-push_all_example = wake_all-push_all (7 ∷ 9 ∷ []) (omega arith)
