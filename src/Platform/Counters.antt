-- ===== src/Platform/Counters.antt =====
-- The Redis client (ioredis) as the security services use it: counters and flags with an expiry. A
-- command may throw, which is `none`; it then changed nothing. Times are in seconds. `stored` is the
-- entry of a key, which no code reads: the laws, Redis' documented behaviour, are stated with it.
use mathlib.Core.Option
use saas_backend_blueprint.Prelude.{
  ℕ, suc, ◌+◌, ◌-◌, ◌≡◌, ◌≢◌, ◌⊎◌, Bool, true, false, Option, none, some, if◌then◌else◌, leb,
}

pub record Entry : Type 0 where
  pub value : ℕ
  pub expires : Option ℕ

-- An entry that expires is gone from that moment on.
abbrev pub unexpired : ℕ → Option ℕ → Bool
unexpired now none = true
unexpired now (some t) = if leb t now then false else true

abbrev pub alive : ℕ → Option Entry → Option Entry
alive now none = none
alive now (some e) = if unexpired now e.expires then some e else none

abbrev pub present : Option Entry → Bool
present none = false
present (some e) = true

abbrev pub value_of : Option Entry → ℕ
value_of none = 0
value_of (some e) = e.value

abbrev pub expiry_of : Option Entry → Option ℕ
expiry_of none = none
expiry_of (some e) = e.expires

-- `incr` starts an absent counter at 0 and keeps the expiry.
abbrev pub incremented : Option Entry → Entry
incremented e = record { value = suc (value_of e); expires = expiry_of e }

abbrev pub expiring : ℕ → Option Entry → Option Entry
expiring t none = none
expiring t (some e) = some (record e { expires = some t })

-- The seconds left; none for the answers -1 and -2.
abbrev pub left_of : ℕ → Option Entry → Option ℕ
left_of now none = none
left_of now (some e) = elim e.expires [ none ↦ none | some t ↦ some (t - now) ]

pub record Counters (K : Type 0) (same : K → K → Bool) : Type 1 where
  pub State : Type 0
  pub stored : State → K → Option Entry
  pub exists : K → ℕ → State → Option Bool
  pub get : K → ℕ → State → Option (Option ℕ)
  pub ttl : K → ℕ → State → Option (Option ℕ)
  pub incr : K → ℕ → State → Option (ℕ × State)
  pub expire : K → ℕ → ℕ → State → Option State
  pub set_ex : K → ℕ → ℕ → ℕ → State → Option State
  -- `del(j, k)`
  pub del : K → K → State → Option State
  pub exists_law :
      (k : K) (now : ℕ) (s : State)
      → (exists k now s ≡ none) ⊎ (exists k now s ≡ some (present (alive now (stored s k))))
  pub ttl_law :
      (k : K) (now : ℕ) (s : State)
      → (ttl k now s ≡ none) ⊎ (ttl k now s ≡ some (left_of now (alive now (stored s k))))
  pub incr_law :
      (k : K) (now : ℕ) (s : State)
      → Option.map (λ r. r.0) (incr k now s)
        ≡ Option.map (λ _. suc (value_of (alive now (stored s k)))) (incr k now s)
  pub incr_stored_law :
      (k j : K) (now : ℕ) (s : State)
      → Option.map (λ r. stored r.1 j) (incr k now s)
        ≡ Option.map
            (λ _. if same k j then some (incremented (alive now (stored s k))) else stored s j)
            (incr k now s)
  pub expire_law :
      (k j : K) (seconds now : ℕ) (s : State)
      → Option.map (λ t. stored t j) (expire k seconds now s)
        ≡ Option.map
            (λ _.
              if same k j then expiring (now + seconds) (alive now (stored s k)) else stored s j)
            (expire k seconds now s)
  pub set_ex_law :
      (k j : K) (v seconds now : ℕ) (s : State)
      → Option.map (λ t. stored t j) (set_ex k v seconds now s)
        ≡ Option.map
            (λ _.
              if same k j
              then some (record { value = v; expires = some (now + seconds) })
              else stored s j)
            (set_ex k v seconds now s)
  pub del_law :
      (j k i : K) (s : State)
      → Option.map (λ t. stored t i) (del j k s)
        ≡ Option.map
            (λ _. if same j i then none else if same k i then none else stored s i)
            (del j k s)

-- Redis answers every command.
pub record IsReachable {K : Type 0} {same : K → K → Bool} (r : Counters K same) : Type 0 where
  pub exists : (k : K) (now : ℕ) (s : r.State) → r.exists k now s ≢ none
  pub ttl : (k : K) (now : ℕ) (s : r.State) → r.ttl k now s ≢ none
  pub incr : (k : K) (now : ℕ) (s : r.State) → r.incr k now s ≢ none
  pub expire : (k : K) (seconds now : ℕ) (s : r.State) → r.expire k seconds now s ≢ none
  pub set_ex : (k : K) (v seconds now : ℕ) (s : r.State) → r.set_ex k v seconds now s ≢ none
  pub del : (j k : K) (s : r.State) → r.del j k s ≢ none
