-- ===== src/Config.antt =====
-- ranked-semaphore/src/config.rs: queue strategies, the rules that choose one by priority, and the
-- builder methods of `PriorityConfig`. A builder takes the configuration by value and returns it.
pub mod Resolve
pub mod Bounds
mod Tests
mod UnitTests
use ranked_semaphore.Common.{Bool, true, false, List, [], ◌∷◌, ◌++◌, ◌&&◌, if◌then◌else◌}
use ranked_semaphore.Common.Int.{
  ℤ, leb_ℤ, eqb_ℤ, isize_max, isize_min, saturating_add_one, saturating_sub_one,
}

pub data QueueStrategy : Type 0 where
  fifo : QueueStrategy
  lifo : QueueStrategy

pub data PriorityRule : Type 0 where
  default_rule : QueueStrategy → PriorityRule
  exact_rule : ℤ → QueueStrategy → PriorityRule
  range_rule : ℤ → ℤ → QueueStrategy → PriorityRule

pub record PriorityConfig : Type 0 where
  pub rules : List PriorityRule

unfoldable pub new : PriorityConfig
new = record { rules = [] }

push_rule : PriorityConfig → PriorityRule → PriorityConfig
push_rule c r = record { rules = c.rules ++ r ∷ [] }

unfoldable pub default_strategy : PriorityConfig → QueueStrategy → PriorityConfig
unfolding push_rule
default_strategy c s = push_rule c (default_rule s)

unfoldable pub exact : PriorityConfig → ℤ → QueueStrategy → PriorityConfig
unfolding push_rule
exact c priority s = push_rule c (exact_rule priority s)

unfoldable pub greater_or_equal : PriorityConfig → ℤ → QueueStrategy → PriorityConfig
unfolding push_rule
greater_or_equal c threshold s = push_rule c (range_rule threshold isize_max s)

unfoldable pub greater_than : PriorityConfig → ℤ → QueueStrategy → PriorityConfig
unfolding push_rule saturating_add_one
greater_than c threshold s =
    let min = saturating_add_one threshold in push_rule c (range_rule min isize_max s)

unfoldable pub less_or_equal : PriorityConfig → ℤ → QueueStrategy → PriorityConfig
unfolding push_rule
less_or_equal c threshold s = push_rule c (range_rule isize_min threshold s)

unfoldable pub less_than : PriorityConfig → ℤ → QueueStrategy → PriorityConfig
unfolding push_rule saturating_sub_one
less_than c threshold s =
    let max = saturating_sub_one threshold in push_rule c (range_rule isize_min max s)

unfoldable pub range : PriorityConfig → ℤ → ℤ → QueueStrategy → PriorityConfig
unfolding push_rule
range c min max s = push_rule c (range_rule min max s)

-- What a pass over the rules ends with: an early return, or the default seen last.
pub data Pass : Type 0 where
  returns : QueueStrategy → Pass
  falls_through : QueueStrategy → Pass

-- The first loop of `resolve_strategy`, with its variable `default_strategy`.
exact_pass : ℤ → QueueStrategy → List PriorityRule → Pass
exact_pass priority default [] = falls_through default
exact_pass priority default (default_rule s ∷ rules) = exact_pass priority s rules
exact_pass priority default (exact_rule p s ∷ rules) =
    let rest = exact_pass priority default rules in if eqb_ℤ p priority then returns s else rest
exact_pass priority default (range_rule min max s ∷ rules) = exact_pass priority default rules

-- The second loop, and the `default_strategy` behind it.
range_pass : ℤ → QueueStrategy → List PriorityRule → QueueStrategy
range_pass priority default [] = default
range_pass priority default (default_rule s ∷ rules) = range_pass priority default rules
range_pass priority default (exact_rule p s ∷ rules) = range_pass priority default rules
range_pass priority default (range_rule min max s ∷ rules) =
    let rest = range_pass priority default rules in
    if leb_ℤ min priority && leb_ℤ priority max then s else rest

unfoldable pub resolve_strategy : PriorityConfig → ℤ → QueueStrategy
unfolding exact_pass range_pass
resolve_strategy c priority = elim (exact_pass priority fifo c.rules) [
  | returns s ↦ s
  | falls_through default ↦ range_pass priority default c.rules
]

unfoldable pub strategy_for_priority : PriorityConfig → ℤ → QueueStrategy
unfolding resolve_strategy
strategy_for_priority c priority = resolve_strategy c priority

-- `impl Default for PriorityConfig`.
unfoldable pub default : PriorityConfig
unfolding new default_strategy
default = default_strategy new fifo
