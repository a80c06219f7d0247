-- ===== src/Platform/Redis.antt =====
-- The Redis client (ioredis) as the services use it: string keys with a time to live, and counters.
-- A command may throw, which is `none`; it then changed nothing. Times are in seconds. `stored` is
-- the value that a key has at a moment, which no code reads: the laws, Redis' documented behaviour,
-- are stated with it.
use mathlib.Core.Option
use saas_backend_blueprint.Prelude.{
  ℕ, ◌+◌, ◌≤◌, ◌≡◌, ◌⊎◌, Bool, Option, none, some, if◌then◌else◌, ltb,
}

-- `same j k`: the two keys are one.
pub record Redis (K V : Type 0) (same : K → K → Bool) : Type 1 where
  pub State : Type 0
  pub stored : State → ℕ → K → Option V
  pub get : K → ℕ → State → Option (Option V)
  pub setex : K → ℕ → V → ℕ → State → Option State
  pub del : K → State → Option State
  pub get_law :
      (k : K) (now : ℕ) (s : State) → (get k now s ≡ none) ⊎ (get k now s ≡ some (stored s now k))
  pub setex_law :
      (k j : K) (ttl : ℕ) (v : V) (now later : ℕ) (s : State)
      → now ≤ later
      → Option.map (λ t. stored t later j) (setex k ttl v now s)
        ≡ Option.map
            (λ _.
              if same k j
              then (if ltb later (now + ttl) then some v else none)
              else stored s later j)
            (setex k ttl v now s)
  pub del_law :
      (k j : K) (later : ℕ) (s : State)
      → Option.map (λ t. stored t later j) (del k s)
        ≡ Option.map (λ _. if same k j then none else stored s later j) (del k s)
  -- A value lives until it expires or is replaced.
  pub aging :
      (k : K) (now later : ℕ) (s : State) {v : V}
      → now ≤ later
      → stored s later k ≡ some v
      → stored s now k ≡ some v
