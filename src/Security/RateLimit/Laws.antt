-- ===== src/Security/RateLimit/Laws.antt =====
-- The fixed window limits the requests of one identifier.
use saas_backend_blueprint.Prelude.{
  ℕ, suc, ◌+◌, ◌-◌, ◌*◌, ◌/◌, ◌<◌, String, eq_iff, ◌≡◌, sym, subst, false, List, [], ◌∷◌, none,
  some, arith, leb, length, Option-cases, inl, inr, if◌then◌else◌,
}
use Prim.Native.Nat.{min}
use native.Mathlib.Nat.{div-add-mod, mod-lt}
use saas_backend_blueprint.Platform.Counters.{Counters, IsReachable, alive}
use saas_backend_blueprint.Security.RateLimit
use saas_backend_blueprint.Security.RateLimit.{Axis, Key, same_key, Config, RateLimitResult}

-- All in the window `w`.
abbrev pub InWindow : Config → ℕ → List ℕ → Type 0
InWindow c w [] = Unit {0}
InWindow c w (t ∷ ts) = (t / c.ttl ≡ w) × InWindow c w ts

module _ (r : Counters Key same_key) (c : Config) (axis : Axis) (id : String) (max : ℕ) where
  -- The requests let through among those made at the times given.
  unfoldable pub allowed_at : List ℕ → r.State → ℕ
  allowed_at [] s = 0
  allowed_at (now ∷ times) s =
      let (answer, t) = RateLimit.check r c axis id max now s in
      let rest = allowed_at times t in if answer.allowed then suc rest else rest

module _ (r : Counters Key same_key) (c : Config) (ok : IsReachable r) (positive : 0 < c.ttl)
    (axis : Axis) (id : String) (max : ℕ) where
  abbrev key : ℕ → Key
  key w = record { axis = axis; identifier = id; window = w }

  now-lt-reset_time : (now : ℕ) → now < RateLimit.reset_time r c now
  now-lt-reset_time now = grind (arith, div-add-mod now c.ttl, mod-lt now positive)

  -- The counter stands at `n` and outlives the window.
  abbrev Counted : ℕ → ℕ → r.State → Type 0
  Counted w n s =
      r.stored s (key w) ≡ some (record { value = n; expires = some ((w + 1) * c.ttl + 5) })

  check-Counted :
      (n now : ℕ) (s : r.State)
      → 0 < n
      → Counted (now / c.ttl) n s
      → Counted (now / c.ttl) (suc n) (RateLimit.check r c axis id max now s).1
        × ((RateLimit.check r c axis id max now s).0.allowed ≡ leb (suc n) max)
  unfolding RateLimit.check
  check-Counted n now s pos h = elim (Option-cases (r.incr (key (now / c.ttl)) now s)) [
    | inl e ↦ absurd (ok.incr (key (now / c.ttl)) now s e)
    | inr ((m, t), e) ↦ ground (
      arith,
      e,
      eq_iff id id,
      now-lt-reset_time now,
      r.incr_law (key (now / c.ttl)) now s,
      r.incr_stored_law (key (now / c.ttl)) (key (now / c.ttl)) now s,
    )
  ]

  check_first :
      (now : ℕ) (s : r.State)
      → alive now (r.stored s (key (now / c.ttl))) ≡ none
      → Counted (now / c.ttl) 1 (RateLimit.check r c axis id max now s).1
        × ((RateLimit.check r c axis id max now s).0.allowed ≡ leb 1 max)
  unfolding RateLimit.check
  check_first now s h = elim (Option-cases (r.incr (key (now / c.ttl)) now s)) [
    | inl e ↦ absurd (ok.incr (key (now / c.ttl)) now s e)
    | inr ((m, t), e) ↦ ground (
      arith,
      e,
      eq_iff id id,
      now-lt-reset_time now,
      r.incr_law (key (now / c.ttl)) now s,
      r.incr_stored_law (key (now / c.ttl)) (key (now / c.ttl)) now s,
      ok.expire (key (now / c.ttl)) (RateLimit.reset_time r c now - now + 5) now t,
      r.expire_law (key (now / c.ttl)) (key (now / c.ttl)) (RateLimit.reset_time r c now - now + 5)
          now t,
    )
  ]

  -- From `n` on, the requests that still fit are let through.
  allowed_at-Counted :
      (times : List ℕ) (w n : ℕ) (s : r.State)
      → 0 < n
      → Counted w n s
      → InWindow c w times
      → allowed_at r c axis id max times s ≡ min (length times) (max - n)
  unfolding allowed_at
  allowed_at-Counted [] w n s pos h i = omega arith
  allowed_at-Counted (now ∷ times) w n s pos h (e, i) =
      let (h', answered) = check-Counted n now s pos (subst (λ (v : ℕ). Counted v n s) (sym e) h) in
      let t = (RateLimit.check r c axis id max now s).1 in
      ground (
        arith,
        answered,
        allowed_at-Counted times w (suc n) t (omega arith)
            (subst (λ (v : ℕ). Counted v (suc n) t) e h') i,
      )

  -- While Redis answers, and with a window of at least a second: of the requests made in one window, from
  -- one with no live counter on, as many are let through as there are, up to `max`.
  pub allowed_at-min :
      (now : ℕ) (times : List ℕ) (s : r.State)
      → alive now (r.stored s (key (now / c.ttl))) ≡ none
      → InWindow c (now / c.ttl) times
      → allowed_at r c axis id max (now ∷ times) s ≡ min (suc (length times)) max
  unfolding allowed_at
  allowed_at-min now times s fresh i =
      let (h, answered) = check_first now s fresh in
      let t = (RateLimit.check r c axis id max now s).1 in
      ground (arith, answered, allowed_at-Counted times (now / c.ttl) 1 t (omega arith) h i)

-- A request leaves the counters of every other axis, identifier and window as they were.
pub check-other :
    (r : Counters Key same_key) (c : Config) (axis : Axis) (id : String) (max now : ℕ) (s : r.State)
    (k : Key)
    → same_key (RateLimit.window_key r c axis id now) k ≡ false
    → r.stored (RateLimit.check r c axis id max now s).1 k ≡ r.stored s k
unfolding RateLimit.check
check-other r c axis id max now s k other =
    let j = RateLimit.window_key r c axis id now in
    elim (Option-cases (r.incr j now s)) [
      | inl e ↦ ground (arith, e)
      | inr ((m, t), e) ↦ ground (
        arith,
        e,
        r.incr_stored_law j k now s,
        r.expire_law j k (RateLimit.reset_time r c now - now + 5) now t,
      )
    ]
