-- ===== src/Config/Bounds.antt =====
-- config.rs: which priorities the threshold builders cover, and the two ends of `isize`.
use ranked_semaphore.Common.{Bool, ◌≡◌, ◌||◌, if◌then◌else◌, arith}
use ranked_semaphore.Common.Int.{
  ℤ, leb_ℤ, ltb_ℤ, eqb_ℤ, isize_max, isize_min, IsIsize, saturating_add_one, saturating_sub_one,
  saturating_add_one_le, le_saturating_sub_one,
}
use ranked_semaphore.Config.{
  QueueStrategy, PriorityConfig, range, greater_or_equal, greater_than, less_or_equal, less_than,
  resolve_strategy,
}
use ranked_semaphore.Config.Resolve.{or_else, first_exact, first_range, resolve_strategy-range}

strict_thresholds :
    (c : PriorityConfig) (t p : ℤ) (s : QueueStrategy)
    → IsIsize t
    → IsIsize p
    → (resolve_strategy (greater_than c t s) p
        ≡ or_else (first_exact p c.rules) (
            or_else
              (first_range p c.rules)
              (if ltb_ℤ t p || eqb_ℤ p isize_max then s else resolve_strategy c p)))
      × (resolve_strategy (less_than c t s) p
          ≡ or_else (first_exact p c.rules) (
              or_else
                (first_range p c.rules)
                (if ltb_ℤ p t || eqb_ℤ p isize_min then s else resolve_strategy c p)))
unfolding greater_than less_than range
strict_thresholds c t p s valid_t valid = (
  ground (
    arith,
    resolve_strategy-range c (saturating_add_one t) isize_max p s,
    saturating_add_one_le t p valid_t valid,
  ),
  ground (
    arith,
    resolve_strategy-range c isize_min (saturating_sub_one t) p s,
    le_saturating_sub_one t p valid_t valid,
  ),
)

inclusive_thresholds :
    (c : PriorityConfig) (t p : ℤ) (s : QueueStrategy)
    → IsIsize p
    → (resolve_strategy (greater_or_equal c t s) p
        ≡ or_else
            (first_exact p c.rules)
            (or_else (first_range p c.rules) (if leb_ℤ t p then s else resolve_strategy c p)))
      × (resolve_strategy (less_or_equal c t s) p
          ≡ or_else
              (first_exact p c.rules)
              (or_else (first_range p c.rules) (if leb_ℤ p t then s else resolve_strategy c p)))
unfolding greater_or_equal less_or_equal range
inclusive_thresholds c t p s valid = (
  ground (arith, resolve_strategy-range c t isize_max p s),
  ground (arith, resolve_strategy-range c isize_min t p s),
)

-- Where a builder gives its strategy to the priorities of a test, and no earlier exact or range
-- rule covers the priority.
abbrev pub Covering : PriorityConfig → PriorityConfig → ℤ → QueueStrategy → Bool → Type 0
Covering built c p s test =
    resolve_strategy built p
    ≡ or_else (first_exact p c.rules)
        (or_else (first_range p c.rules) (if test then s else resolve_strategy c p))

-- For all `isize` priorities `p` and thresholds `t`: where no earlier exact or range rule covers
-- `p`, `greater_or_equal(t, s)` gives the strategy `s` to `p` exactly if `t ≤ p`,
-- `less_or_equal(t, s)` exactly if `p ≤ t`, `greater_than(t, s)` exactly if `p` is above `t` or
-- is `isize::MAX`, and `less_than(t, s)` exactly if `p` is below `t` or is `isize::MIN`; otherwise
-- `p` resolves as before. So the last two cover their own threshold at their end of `isize`.
pub thresholds-Covering :
    (c : PriorityConfig) (t p : ℤ) (s : QueueStrategy)
    → IsIsize t
    → IsIsize p
    → Covering (greater_or_equal c t s) c p s (leb_ℤ t p)
      × Covering (less_or_equal c t s) c p s (leb_ℤ p t)
      × Covering (greater_than c t s) c p s (ltb_ℤ t p || eqb_ℤ p isize_max)
      × Covering (less_than c t s) c p s (ltb_ℤ p t || eqb_ℤ p isize_min)
thresholds-Covering c t p s valid_t valid =
    let (from, up_to) = inclusive_thresholds c t p s valid in
    let (above, below) = strict_thresholds c t p s valid_t valid in (from, up_to, above, below)
