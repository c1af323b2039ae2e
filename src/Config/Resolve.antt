-- ===== src/Config/Resolve.antt =====
-- config.rs, `resolve_strategy`: the two passes against the documented order of the rules.
use ranked_semaphore.Common.{
  ◌≡◌, refl, Option, none, some, List, [], ◌∷◌, ◌++◌, ◌&&◌, if◌then◌else◌, arith,
}
use ranked_semaphore.Common.Int.{ℤ, leb_ℤ, eqb_ℤ}
use ranked_semaphore.Config.{
  QueueStrategy, fifo, PriorityRule, default_rule, exact_rule, range_rule, PriorityConfig, new,
  exact, default_strategy, range, returns, falls_through, exact_pass, range_pass, resolve_strategy,
}

-- The strategy of the first rule for exactly this priority.
unfoldable pub first_exact : ℤ → List PriorityRule → Option QueueStrategy
first_exact p [] = none
first_exact p (default_rule s ∷ rules) = first_exact p rules
first_exact p (exact_rule q s ∷ rules) = if eqb_ℤ q p then some s else first_exact p rules
first_exact p (range_rule min max s ∷ rules) = first_exact p rules

-- The strategy of the first range that holds this priority.
unfoldable pub first_range : ℤ → List PriorityRule → Option QueueStrategy
first_range p [] = none
first_range p (default_rule s ∷ rules) = first_range p rules
first_range p (exact_rule q s ∷ rules) = first_range p rules
first_range p (range_rule min max s ∷ rules) =
    if leb_ℤ min p && leb_ℤ p max then some s else first_range p rules

-- The strategy of the last default rule.
unfoldable pub last_default : List PriorityRule → Option QueueStrategy
last_default [] = none
last_default (default_rule s ∷ rules) = elim (last_default rules) [
  | none ↦ some s
  | some t ↦ some t
]
last_default (exact_rule q s ∷ rules) = last_default rules
last_default (range_rule min max s ∷ rules) = last_default rules

abbrev pub or_else : Option QueueStrategy → QueueStrategy → QueueStrategy
or_else none d = d
or_else (some s) d = s

exact_pass-eq :
    (p : ℤ) (d : QueueStrategy) (rules : List PriorityRule)
    → exact_pass p d rules ≡ elim (first_exact p rules) [
      | some s ↦ returns s
      | none ↦ falls_through (or_else (last_default rules) d)
    ]
unfolding exact_pass first_exact last_default
exact_pass-eq p d [] = refl
exact_pass-eq p d (default_rule s ∷ rules) = ground (arith, exact_pass-eq p s rules)
exact_pass-eq p d (exact_rule q s ∷ rules) = ground (arith, exact_pass-eq p d rules)
exact_pass-eq p d (range_rule min max s ∷ rules) = exact_pass-eq p d rules

range_pass-eq :
    (p : ℤ) (d : QueueStrategy) (rules : List PriorityRule)
    → range_pass p d rules ≡ or_else (first_range p rules) d
unfolding range_pass first_range
range_pass-eq p d [] = refl
range_pass-eq p d (default_rule s ∷ rules) = range_pass-eq p d rules
range_pass-eq p d (exact_rule q s ∷ rules) = range_pass-eq p d rules
range_pass-eq p d (range_rule min max s ∷ rules) = ground (arith, range_pass-eq p d rules)

-- For every configuration and priority, the resolved strategy is that of the first exact rule for
-- the priority; without one, that of the first range that holds it; without one, that of the last
-- default rule; and FIFO where there is no default rule.
pub resolve_strategy-order :
    (c : PriorityConfig) (p : ℤ)
    → resolve_strategy c p
      ≡ or_else
          (first_exact p c.rules)
          (or_else (first_range p c.rules) (or_else (last_default c.rules) fifo))
unfolding resolve_strategy
resolve_strategy-order c p = ground (
  arith,
  exact_pass-eq p fifo c.rules,
  range_pass-eq p (or_else (last_default c.rules) fifo) c.rules,
)

first_exact-append :
    (p : ℤ) (xs ys : List PriorityRule)
    → first_exact p (xs ++ ys)
      ≡ elim (first_exact p xs) [ some s ↦ some s | none ↦ first_exact p ys ]
unfolding first_exact
first_exact-append p [] ys = refl
first_exact-append p (default_rule s ∷ xs) ys = first_exact-append p xs ys
first_exact-append p (exact_rule q s ∷ xs) ys = ground (arith, first_exact-append p xs ys)
first_exact-append p (range_rule min max s ∷ xs) ys = first_exact-append p xs ys

first_range-append :
    (p : ℤ) (xs ys : List PriorityRule)
    → first_range p (xs ++ ys)
      ≡ elim (first_range p xs) [ some s ↦ some s | none ↦ first_range p ys ]
unfolding first_range
first_range-append p [] ys = refl
first_range-append p (default_rule s ∷ xs) ys = first_range-append p xs ys
first_range-append p (exact_rule q s ∷ xs) ys = first_range-append p xs ys
first_range-append p (range_rule min max s ∷ xs) ys = ground (arith, first_range-append p xs ys)

last_default-append :
    (xs ys : List PriorityRule)
    → last_default (xs ++ ys) ≡ elim (last_default ys) [ some s ↦ some s | none ↦ last_default xs ]
unfolding last_default
last_default-append [] ys = ground arith
last_default-append (default_rule s ∷ xs) ys = ground (arith, last_default-append xs ys)
last_default-append (exact_rule q s ∷ xs) ys = last_default-append xs ys
last_default-append (range_rule min max s ∷ xs) ys = last_default-append xs ys

-- After `exact(q, s)` a priority that an earlier exact rule names keeps its strategy, `q` gets `s`
-- if no earlier exact rule names it, and every other priority resolves as before.
resolve_strategy-exact :
    (c : PriorityConfig) (q p : ℤ) (s : QueueStrategy)
    → resolve_strategy (exact c q s) p ≡ elim (first_exact p c.rules) [
      | some t ↦ t
      | none ↦ if eqb_ℤ q p then s else resolve_strategy c p
    ]
unfolding exact first_exact first_range last_default
resolve_strategy-exact c q p s = ground (
  arith,
  resolve_strategy-order c p,
  resolve_strategy-order (exact c q s) p,
  first_exact-append p c.rules (exact_rule q s ∷ []),
  first_range-append p c.rules (exact_rule q s ∷ []),
  last_default-append c.rules (exact_rule q s ∷ []),
)

-- After `range(min, max, s)` a priority that an earlier exact or range rule covers keeps its
-- strategy; any other gets `s` exactly if it lies in the range, and resolves as before if not.
pub resolve_strategy-range :
    (c : PriorityConfig) (min max p : ℤ) (s : QueueStrategy)
    → resolve_strategy (range c min max s) p
      ≡ or_else (first_exact p c.rules) (
          or_else
            (first_range p c.rules)
            (if leb_ℤ min p && leb_ℤ p max then s else resolve_strategy c p))
unfolding range first_exact first_range last_default
resolve_strategy-range c min max p s = ground (
  arith,
  resolve_strategy-order c p,
  resolve_strategy-order (range c min max s) p,
  first_exact-append p c.rules (range_rule min max s ∷ []),
  first_range-append p c.rules (range_rule min max s ∷ []),
  last_default-append c.rules (range_rule min max s ∷ []),
)

-- A later `default_strategy(s)` replaces every earlier default, and gives way to exact and range
-- rules, also to those set before it.
resolve_strategy-default :
    (c : PriorityConfig) (p : ℤ) (s : QueueStrategy)
    → resolve_strategy (default_strategy c s) p
      ≡ or_else (first_exact p c.rules) (or_else (first_range p c.rules) s)
unfolding default_strategy first_exact first_range last_default
resolve_strategy-default c p s = ground (
  arith,
  resolve_strategy-order (default_strategy c s) p,
  first_exact-append p c.rules (default_rule s ∷ []),
  first_range-append p c.rules (default_rule s ∷ []),
  last_default-append c.rules (default_rule s ∷ []),
)

-- What a builder adds to a configuration `c`, for every priority `p`. After `exact(q, s)` earlier
-- exact rules keep precedence, `q` gets `s` if none names it, and every other priority resolves as
-- before. After `range(min, max, s)` the priorities that earlier exact or range rules cover keep
-- their strategy, and any other gets `s` exactly if it lies in the range. A later
-- `default_strategy(s)` replaces every earlier default, and gives way to exact and range rules.
pub resolve_strategy-added :
    (c : PriorityConfig) (q min max p : ℤ) (s : QueueStrategy)
    → (resolve_strategy (exact c q s) p ≡ elim (first_exact p c.rules) [
      | some t ↦ t
      | none ↦ if eqb_ℤ q p then s else resolve_strategy c p
    ])
      × (resolve_strategy (range c min max s) p
          ≡ or_else (first_exact p c.rules) (
              or_else
                (first_range p c.rules)
                (if leb_ℤ min p && leb_ℤ p max then s else resolve_strategy c p)))
      × (resolve_strategy (default_strategy c s) p
          ≡ or_else (first_exact p c.rules) (or_else (first_range p c.rules) s))
resolve_strategy-added c q min max p s = (
  resolve_strategy-exact c q p s,
  resolve_strategy-range c min max p s,
  resolve_strategy-default c p s,
)

pub resolve_strategy-only_default :
    (s : QueueStrategy) (p : ℤ) → resolve_strategy (default_strategy new s) p ≡ s
unfolding resolve_strategy exact_pass range_pass default_strategy new
resolve_strategy-only_default s p = refl
