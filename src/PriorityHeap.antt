-- ===== src/PriorityHeap.antt =====
-- queue.rs, `active_priorities: BinaryHeap<isize>`: the heap as the list of its entries, greatest
-- first, with what the source uses of it: `peek` is the head, `pop` the tail, `len` the length and
-- `clear` the empty list.
pub mod Laws
use ranked_semaphore.Common.{Bool, List, [], ◌∷◌, if◌then◌else◌}
use ranked_semaphore.Common.Int.{ℤ, leb_ℤ}

unfoldable pub push : ℤ → List ℤ → List ℤ
push p [] = p ∷ []
push p (q ∷ h) = if leb_ℤ q p then p ∷ q ∷ h else q ∷ push p h

-- `for priority in ps { heap.push(priority) }`
unfoldable pub push_all : List ℤ → List ℤ → List ℤ
push_all [] h = h
push_all (p ∷ ps) h = push_all ps (push p h)
