-- ===== src/Config/Tests.antt =====
-- Examples for config.rs; the first follows a test of the source.
use ranked_semaphore.Common.{◌≡◌, refl, [], ◌∷◌, arith}
use ranked_semaphore.Common.Int.{pos, eqb_ℤ, isize_max}
use ranked_semaphore.Config.{
  fifo, lifo, PriorityConfig, default_rule, exact_rule, range_rule, new, default_strategy, exact,
  greater_or_equal, greater_than, less_or_equal, less_than, resolve_strategy,
}
use ranked_semaphore.Config.Resolve.{first_exact, first_range, last_default, resolve_strategy-order}
use ranked_semaphore.Config.Bounds.{thresholds-Covering}

exact_overrides_range :
    resolve_strategy
      (exact (greater_or_equal (default_strategy new fifo) (pos 5) lifo) (pos 10) fifo)
      (pos 10)
    ≡ fifo
unfolding resolve_strategy eqb_ℤ exact greater_or_equal default_strategy new
exact_overrides_range = refl

-- A range, an exact rule behind it, and a default behind both.
abbrev mixed : PriorityConfig
mixed = record {
  rules = range_rule (pos 1) (pos 9) fifo ∷ exact_rule (pos 5) lifo ∷ default_rule lifo ∷ [];
}

resolve_strategy-order_example : resolve_strategy mixed (pos 5) ≡ lifo
unfolding first_exact first_range last_default eqb_ℤ
resolve_strategy-order_example = resolve_strategy-order mixed (pos 5)

thresholds-Covering_example :
    (resolve_strategy (greater_or_equal mixed isize_max fifo) isize_max ≡ fifo)
    × (resolve_strategy (less_or_equal mixed isize_max fifo) isize_max ≡ fifo)
    × (resolve_strategy (greater_than mixed isize_max fifo) isize_max ≡ fifo)
    × (resolve_strategy (less_than mixed isize_max fifo) isize_max
        ≡ resolve_strategy mixed isize_max)
unfolding first_exact first_range eqb_ℤ
thresholds-Covering_example =
    thresholds-Covering mixed isize_max isize_max fifo (omega arith, omega arith)
      (omega arith, omega arith)
