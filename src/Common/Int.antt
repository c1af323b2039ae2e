-- ===== src/Common/Int.antt =====
-- `isize`: signed integers over the native numbers, under the library's names, with the 64-bit
-- bounds and the two saturating operations that the source uses.
use Prim.Native.Nat.{ℕ, zero, suc, ◌+◌, ◌-◌, ◌^◌, ◌≤◌, ◌<◌}
use mathlib.Core.Path.{◌≡◌}
use mathlib.Core.Logic.{◌↔◌}
use mathlib.Core.Bool.{Bool, true, ◌||◌}
use native.Mathlib.Omega.{arith}
use ranked_semaphore.Common.Tests.{leb, ltb, ◌==◌, if◌then◌else◌}

-- `negsuc n` is -(n + 1).
pub data ℤ : Type 0 where
  pos : ℕ → ℤ
  negsuc : ℕ → ℤ

abbrev pub pos_part : ℤ → ℕ
pos_part (pos n) = n
pos_part (negsuc n) = 0

abbrev pub neg_part : ℤ → ℕ
neg_part (pos n) = 0
neg_part (negsuc n) = suc n

infix 50 ◌≤ℤ◌ ◌<ℤ◌
abbrev pub ◌≤ℤ◌ : ℤ → ℤ → Type 0
a ≤ℤ b = pos_part a + neg_part b ≤ pos_part b + neg_part a

abbrev pub ◌<ℤ◌ : ℤ → ℤ → Type 0
a <ℤ b = pos_part a + neg_part b < pos_part b + neg_part a

abbrev pub leb_ℤ : ℤ → ℤ → Bool
leb_ℤ a b = leb (pos_part a + neg_part b) (pos_part b + neg_part a)

abbrev pub ltb_ℤ : ℤ → ℤ → Bool
ltb_ℤ a b = ltb (pos_part a + neg_part b) (pos_part b + neg_part a)

unfoldable pub eqb_ℤ : ℤ → ℤ → Bool
eqb_ℤ a b = (pos_part a + neg_part b) == (pos_part b + neg_part a)

pub eqb_ℤ_iff : (a b : ℤ) → (eqb_ℤ a b ≡ true) ↔ (a ≡ b)
unfolding eqb_ℤ
eqb_ℤ_iff (pos a) (pos b) = ground arith
eqb_ℤ_iff (pos a) (negsuc b) = ground arith
eqb_ℤ_iff (negsuc a) (pos b) = ground arith
eqb_ℤ_iff (negsuc a) (negsuc b) = ground arith

-- `isize::MAX` and `isize::MIN` on a 64-bit target.
abbrev pub isize_max : ℤ
isize_max = pos (2 ^ 63 - 1)

abbrev pub isize_min : ℤ
isize_min = negsuc (2 ^ 63 - 1)

abbrev pub IsIsize : ℤ → Type 0
IsIsize a = (isize_min ≤ℤ a) × (a ≤ℤ isize_max)

add_one : ℤ → ℤ
add_one (pos n) = pos (n + 1)
add_one (negsuc zero) = pos 0
add_one (negsuc (suc n)) = negsuc n

sub_one : ℤ → ℤ
sub_one (pos zero) = negsuc 0
sub_one (pos (suc n)) = pos n
sub_one (negsuc n) = negsuc (n + 1)

-- `saturating_add(1)` and `saturating_sub(1)`.
unfoldable pub saturating_add_one : ℤ → ℤ
unfolding add_one
saturating_add_one a = if leb_ℤ isize_max a then isize_max else add_one a

unfoldable pub saturating_sub_one : ℤ → ℤ
unfolding sub_one
saturating_sub_one a = if leb_ℤ a isize_min then isize_min else sub_one a

add_one_parts : (a : ℤ) → pos_part (add_one a) + neg_part a ≡ pos_part a + neg_part (add_one a) + 1
unfolding add_one
add_one_parts (pos n) = omega arith
add_one_parts (negsuc zero) = omega arith
add_one_parts (negsuc (suc n)) = omega arith

sub_one_parts : (a : ℤ) → pos_part (sub_one a) + neg_part a + 1 ≡ pos_part a + neg_part (sub_one a)
unfolding sub_one
sub_one_parts (pos zero) = omega arith
sub_one_parts (pos (suc n)) = omega arith
sub_one_parts (negsuc n) = omega arith

-- Below the maximum, the successor bounds exactly the integers above `a`.
-- From the successor, which stops at the upper end, on: everything above, and the upper end.
pub saturating_add_one_le :
    (a b : ℤ)
    → IsIsize a
    → IsIsize b
    → leb_ℤ (saturating_add_one a) b ≡ (ltb_ℤ a b || eqb_ℤ b isize_max)
unfolding saturating_add_one eqb_ℤ
saturating_add_one_le a b h k = ground (arith, add_one_parts a)

pub le_saturating_sub_one :
    (a b : ℤ)
    → IsIsize a
    → IsIsize b
    → leb_ℤ b (saturating_sub_one a) ≡ (ltb_ℤ b a || eqb_ℤ b isize_min)
unfolding saturating_sub_one eqb_ℤ
le_saturating_sub_one a b h k = ground (arith, sub_one_parts a)
