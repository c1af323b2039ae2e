-- ===== src/Semaphore/Word.antt =====
-- core.rs: the word of permits as a pair of a number and a flag.
use ranked_semaphore.Common.{
  ℕ, ◌+◌, ◌-◌, ◌*◌, ◌/◌, ◌≤◌, ◌<◌, ◌≡◌, refl, ap, Bool, true, false, List, [], ◌∷◌, ltb, min, arith,
  Bool-cases, inl, inr, ltb→lt, ltb→le,
}
use ranked_semaphore.Common.Int.{ℤ}
use ranked_semaphore.Common.Word.{usize_mod, shl_one}
use ranked_semaphore.Config
use ranked_semaphore.Config.{QueueStrategy, fifo, lifo, PriorityConfig, resolve_strategy}
use ranked_semaphore.Config.Resolve.{resolve_strategy-only_default}
use ranked_semaphore.Error.{Exit, returns, panics}
use ranked_semaphore.WaitQueue
use ranked_semaphore.WaitQueue.Invariant.{IsValid, new-IsValid}
use ranked_semaphore.Semaphore.{
  RankedSemaphore, World, set_word, max_permits, new, new_with_config, new_fifo, new_lifo,
  available_permits, is_closed, close_word, forget_loop, forget_permits,
}

-- The word for a number of permits and a closed flag.
abbrev pub encode : ℕ → Bool → ℕ
encode p true = p * 2 + 1
encode p false = p * 2

-- Every word stands for the number and the flag that are read from it, and every number with a
-- flag is read back from its word.
pub encode_roundtrip :
    (w p : ℕ) (c : Bool)
    → (encode (available_permits w) (is_closed w) ≡ w)
      × (available_permits (encode p c) ≡ p)
      × (is_closed (encode p c) ≡ c)
unfolding available_permits is_closed
encode_roundtrip w p true = ground arith
encode_roundtrip w p false = ground arith

-- Setting the closed flag keeps the permits, closes an open semaphore and leaves a closed one.
pub close_word_lem :
    (w : World)
    → (available_permits (close_word w).permits ≡ available_permits w.permits)
      × (is_closed (close_word w).permits ≡ true)
      × (close_word (close_word w) ≡ close_word w)
unfolding close_word available_permits is_closed
close_word_lem w = (omega arith, ground arith, ap (set_word w) closes_once)
  where
    closes_once : (w.permits / 2 * 2 + 1) / 2 * 2 + 1 ≡ w.permits / 2 * 2 + 1
    closes_once = omega arith

-- The last word that the loop reads.
abbrev pub last_read : ℕ → List ℕ → ℕ
last_read w [] = w
last_read w (v ∷ vs) = last_read v vs

forget_loop_lem :
    (n w : ℕ) (rivals : List ℕ)
    → last_read w rivals < usize_mod
    → let v = last_read w rivals in
      forget_loop n w rivals ≡ (
        min (available_permits v) n,
        encode (available_permits v - min (available_permits v) n) (is_closed v),
      )
unfolding forget_loop available_permits is_closed
forget_loop_lem n w [] h = ground arith
forget_loop_lem n w (v ∷ rivals) h = forget_loop_lem n v rivals h

-- For every n above 0 and whatever other threads write meanwhile, `forget_permits(n)` removes as
-- many permits as there are in the last word that it read, at most `n`, reports their number, and
-- leaves the closed flag as it was in that word.
pub forget_permits_lem :
    (n w : ℕ) (rivals : List ℕ)
    → 0 < n
    → last_read w rivals < usize_mod
    → let v = last_read w rivals in
      forget_permits n w rivals ≡ (
        min (available_permits v) n,
        encode (available_permits v - min (available_permits v) n) (is_closed v),
      )
unfolding forget_permits
forget_permits_lem n w rivals pos h = ground (arith, forget_loop_lem n w rivals h)

-- What a constructor makes for at most the maximum of permits: an open semaphore with the permits,
-- a well-formed queue that nobody waits in, and one strategy for every priority.
pub record IsFresh (permits : ℕ) (strategy : ℤ → QueueStrategy) (s : RankedSemaphore) : Type 0 where
  pub has : available_permits s.permits ≡ permits
  pub open_flag : is_closed s.permits ≡ false
  pub valid : IsValid s.waiters
  pub nobody : s.waiters.total_waiters ≡ 0
  pub resolves : (p : ℤ) → resolve_strategy s.waiters.config p ≡ strategy p

abbrev pub Makes : ℕ → (ℤ → QueueStrategy) → Exit RankedSemaphore → Type 0
Makes permits strategy panics = max_permits < permits
Makes permits strategy (returns s) = (permits ≤ max_permits) × IsFresh permits strategy s

fresh :
    (permits : ℕ) (config : PriorityConfig) (strategy : ℤ → QueueStrategy)
    → permits ≤ max_permits
    → ((p : ℤ) → resolve_strategy config p ≡ strategy p)
    → IsFresh permits strategy
        (record { permits = shl_one permits; waiters = WaitQueue.new config })
unfolding available_permits is_closed WaitQueue.new
fresh permits config strategy le resolves = record {
  has = omega arith;
  open_flag = ground arith;
  valid = new-IsValid config;
  nobody = refl;
  resolves = resolves;
}

config-Makes :
    (permits : ℕ) (config : PriorityConfig) (strategy : ℤ → QueueStrategy)
    → ((p : ℤ) → resolve_strategy config p ≡ strategy p)
    → Makes permits strategy (new_with_config permits config)
unfolding new_with_config
config-Makes permits config strategy resolves = elim (Bool-cases (ltb max_permits permits)) [
  | inl e ↦ rw e (ltb→lt _ _ e)
  | inr e ↦ rw e (ltb→le _ _ e, fresh permits config strategy (ltb→le _ _ e) resolves)
]

plain :
    (permits : ℕ) (s : QueueStrategy)
    → permits ≤ max_permits
    → (permits ≤ max_permits)
      × IsFresh permits
          (λ p. s)
          (record {
            permits = shl_one permits;
            waiters = WaitQueue.new (Config.default_strategy Config.new s);
          })
plain permits s le = (le, fresh permits _ (λ p. s) le (resolve_strategy-only_default s))

new-Makes : (permits : ℕ) (s : QueueStrategy) → Makes permits (λ p. s) (new permits s)
unfolding new
new-Makes permits s = elim (Bool-cases (ltb max_permits permits)) [
  | inl e ↦ rw e (ltb→lt _ _ e)
  | inr e ↦ rw e (plain permits s (ltb→le _ _ e))
]

-- The constructors panic exactly on more than the maximum of permits; otherwise `new_with_config`
-- makes an open semaphore with these permits, an empty well-formed queue, and the strategies of its
-- configuration, `new` one with its strategy for every priority, `new_fifo` one with FIFO, and
-- `new_lifo` one with LIFO.
pub constructors-Make :
    (permits : ℕ) (config : PriorityConfig) (s : QueueStrategy)
    → Makes permits (resolve_strategy config) (new_with_config permits config)
      × Makes permits (λ p. s) (new permits s)
      × Makes permits (λ p. fifo) (new_fifo permits)
      × Makes permits (λ p. lifo) (new_lifo permits)
unfolding new_fifo new_lifo
constructors-Make permits config s = (
  config-Makes permits config _ (λ p. refl),
  new-Makes permits s,
  elim (Bool-cases (ltb max_permits permits)) [
    | inl e ↦ rw e (ltb→lt _ _ e)
    | inr e ↦ rw e (plain permits fifo (ltb→le _ _ e))
  ],
  elim (Bool-cases (ltb max_permits permits)) [
    | inl e ↦ rw e (ltb→lt _ _ e)
    | inr e ↦ rw e (plain permits lifo (ltb→le _ _ e))
  ],
)
