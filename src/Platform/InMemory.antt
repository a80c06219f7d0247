-- ===== src/Platform/InMemory.antt =====
-- A Redis that keeps its keys in memory and answers every command: it meets the laws of
-- Platform/Redis.antt and of Platform/Counters.antt.
use saas_backend_blueprint.Prelude.{
  ap, ℕ, suc, ◌+◌, ◌≤◌, ◌≡◌, refl, inr, Bool, Option, none, some, arith, ltb, if◌then◌else◌,
}
use mathlib.Core.Option
use saas_backend_blueprint.Platform.Redis.{Redis}
use saas_backend_blueprint.Platform.Counters.{
  Counters, Entry, IsReachable, alive, present, value_of, incremented, expiring, left_of,
}

module _ (K V : Type 0) (same : K → K → Bool) where
  -- A value with the moment at which it expires.
  abbrev Values : Type 0
  Values = K → Option (V × ℕ)

  abbrev living : ℕ → Option (V × ℕ) → Option V
  living now none = none
  living now (some (v, t)) = if ltb now t then some v else none

  abbrev put : K → Option (V × ℕ) → Values → Values
  put k e s j = if same k j then e else s j

  pub put_lem :
      (k j : K) (e : Option (V × ℕ)) (later : ℕ) (s : Values)
      → living later (put k e s j) ≡ (if same k j then living later e else living later (s j))
  put_lem k j e later s = ground arith

  pub living_lem :
      (now later : ℕ) (e : Option (V × ℕ)) (v : V)
      → now ≤ later
      → living later e ≡ some v
      → living now e ≡ some v
  living_lem now later none v le h = cc
  living_lem now later (some (u, t)) v le h = ground arith

  abbrev pub memory_redis : Redis K V same
  memory_redis = record {
    State = Values;
    stored = λ s now k. living now (s k);
    get = λ k now s. some (living now (s k));
    setex = λ k ttl v now s. some (put k (some (v, now + ttl)) s);
    del = λ k s. some (put k none s);
    get_law = λ k now s. inr refl;
    setex_law = λ k j ttl v now later s le. ap some (put_lem k j (some (v, now + ttl)) later s);
    del_law = λ k j later s. ap some (put_lem k j none later s);
    aging = λ k now later s {v} le h. living_lem now later (s k) v le h;
  }

module _ (K : Type 0) (same : K → K → Bool) where
  abbrev store : K → Option Entry → (K → Option Entry) → K → Option Entry
  store k e s j = if same k j then e else s j

  abbrev pub memory_counters : Counters K same
  memory_counters = record {
    State = K → Option Entry;
    stored = λ s k. s k;
    exists = λ k now s. some (present (alive now (s k)));
    get = λ k now s. some (Option.map (λ e. e.value) (alive now (s k)));
    ttl = λ k now s. some (left_of now (alive now (s k)));
    incr = λ k now s.
        some (suc (value_of (alive now (s k))), store k (some (incremented (alive now (s k)))) s);
    expire = λ k seconds now s. some (store k (expiring (now + seconds) (alive now (s k))) s);
    set_ex = λ k v seconds now s.
        some (store k (some (record { value = v; expires = some (now + seconds) })) s);
    del = λ j k s. some (store j none (store k none s));
    exists_law = λ k now s. inr refl;
    ttl_law = λ k now s. inr refl;
    incr_law = λ k now s. refl;
    incr_stored_law = λ k j now s. refl;
    expire_law = λ k j seconds now s. refl;
    set_ex_law = λ k j v seconds now s. refl;
    del_law = λ j k i s. refl;
  }

  pub memory_counters-IsReachable : IsReachable memory_counters
  memory_counters-IsReachable = record {
    exists = λ k now s h. cc;
    ttl = λ k now s h. cc;
    incr = λ k now s h. cc;
    expire = λ k seconds now s h. cc;
    set_ex = λ k v seconds now s h. cc;
    del = λ j k s h. cc;
  }
