-- ===== src/Config/UnitTests.antt =====
-- config.rs, the unit tests of the module: whether all assertions of a test hold.
use ranked_semaphore.Common.{Bool, true, false, ◌&&◌, ◌≡◌, refl}
use ranked_semaphore.Common.Int.{ℤ, pos, negsuc, isize_max, eqb_ℤ}
use ranked_semaphore.Config.{
  QueueStrategy, fifo, lifo, PriorityConfig, new, default_strategy, exact, range, greater_or_equal,
  greater_than, less_or_equal, less_than, resolve_strategy,
}

-- `==` of the derived `PartialEq`.
abbrev same_strategy : QueueStrategy → QueueStrategy → Bool
same_strategy fifo fifo = true
same_strategy lifo lifo = true
same_strategy _ _ = false

-- `assert_eq!(config.resolve_strategy(priority), expected)`
abbrev resolves : PriorityConfig → ℤ → QueueStrategy → Bool
resolves config priority expected = same_strategy (resolve_strategy config priority) expected

unfoldable test_exact_match : Bool
test_exact_match =
    let config = exact (default_strategy new fifo) (pos 5) lifo in
    resolves config (pos 5) lifo && resolves config (pos 4) fifo && resolves config (pos 6) fifo

unfoldable test_range_match : Bool
test_range_match =
    let config = range (default_strategy new fifo) (pos 1) (pos 10) lifo in
    resolves config (pos 0) fifo
    && resolves config (pos 1) lifo
    && resolves config (pos 5) lifo
    && resolves config (pos 10) lifo
    && resolves config (pos 11) fifo

unfoldable test_greater_or_equal : Bool
test_greater_or_equal =
    let config = greater_or_equal (default_strategy new fifo) (pos 5) lifo in
    resolves config (pos 4) fifo && resolves config (pos 5) lifo && resolves config (pos 10) lifo

unfoldable test_greater_than : Bool
test_greater_than =
    let config = greater_than (default_strategy new fifo) (pos 5) lifo in
    resolves config (pos 5) fifo && resolves config (pos 6) lifo && resolves config (pos 10) lifo

unfoldable test_less_or_equal : Bool
test_less_or_equal =
    let config = less_or_equal (default_strategy new lifo) (pos 0) fifo in
    resolves config (negsuc 4) fifo && resolves config (pos 0) fifo && resolves config (pos 1) lifo

unfoldable test_less_than : Bool
test_less_than =
    let config = less_than (default_strategy new fifo) (pos 0) lifo in
    resolves config (negsuc 4) lifo && resolves config (pos 0) fifo && resolves config (pos 1) fifo

unfoldable test_priority_order : Bool
test_priority_order =
    let config = exact (greater_or_equal (default_strategy new fifo) (pos 5) lifo) (pos 10) fifo in
    resolves config (pos 5) lifo && resolves config (pos 8) lifo && resolves config (pos 10) fifo

unfoldable test_multiple_thresholds : Bool
test_multiple_thresholds =
    let config =
      range (range (default_strategy new fifo) (pos 5) isize_max lifo) (pos 10) isize_max fifo in
    resolves config (pos 4) fifo && resolves config (pos 7) lifo && resolves config (pos 15) lifo

-- All of them pass.
pass :
    (test_exact_match && test_range_match && test_greater_or_equal && test_greater_than
      && test_less_or_equal && test_less_than && test_priority_order && test_multiple_thresholds)
    ≡ true
unfolding test_exact_match test_range_match test_greater_or_equal test_greater_than
    test_less_or_equal test_less_than test_priority_order test_multiple_thresholds new
    default_strategy exact range greater_or_equal greater_than less_or_equal less_than
    resolve_strategy eqb_ℤ
pass = refl
