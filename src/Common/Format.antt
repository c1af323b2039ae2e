-- ===== src/Common/Format.antt =====
-- What the source uses of `std::fmt`: a formatter `F`, the builder `D` that `debug_struct` starts,
-- and `R`, the formatter and the result of writing to it. The operations are parameters.
use Prim.Native.String.{String}
use ranked_semaphore.Common.{ℕ, Bool}
use ranked_semaphore.Common.Int.{ℤ}

pub record Formatting (F : Type 0) (D : Type 0) (R : Type 0) : Type 0 where
  pub write_str : F → String → R
  pub debug_struct : F → String → D
  pub field_nat : D → String → ℕ → D
  pub field_int : D → String → ℤ → D
  pub field_bool : D → String → Bool → D
  pub finish : D → R
