-- ===== src/Common/Word.antt =====
-- 64-bit `usize` arithmetic of a release build, where addition and subtraction wrap around.
use Prim.Native.Nat.{ℕ, ◌+◌, ◌-◌, ◌*◌, ◌/◌, ◌%◌, ◌^◌}

abbrev pub usize_mod : ℕ
usize_mod = 2 ^ 64

abbrev pub u32_mod : ℕ
u32_mod = 2 ^ 32

abbrev pub add_usize : ℕ → ℕ → ℕ
add_usize a b = (a + b) % usize_mod

-- `-` on ℕ stops at 0, so the modulus is added first.
abbrev pub sub_usize : ℕ → ℕ → ℕ
sub_usize a b = (a + usize_mod - b) % usize_mod

-- `x << 1`, which drops the highest bit, and `x >> 1`.
abbrev pub shl_one : ℕ → ℕ
shl_one x = x * 2 % usize_mod

abbrev pub shr_one : ℕ → ℕ
shr_one x = x / 2

-- `x & 1` and `x | 1`.
abbrev pub and_one : ℕ → ℕ
and_one x = x % 2

abbrev pub or_one : ℕ → ℕ
or_one x = x / 2 * 2 + 1
