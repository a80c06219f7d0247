-- ===== src/Security/RateLimit.antt =====
-- libs/security/src/services/rate-limit.service.ts.
-- The commands of one call fall within one second; a key is the axis, the identifier and the window.
-- `ttl` is not 0. What Redis throws is caught, and the call fails open, with what was written before.
pub mod Laws
use saas_backend_blueprint.Prelude.{
  ℕ, ◌+◌, ◌-◌, ◌*◌, ◌/◌, String, str_eq, Bool, true, false, ◌&&◌, Option, none, some, ◌==◌, leb,
  if◌then◌else◌,
}
use saas_backend_blueprint.Platform.Counters.{Counters}

pub data Axis : Type 0 where
  ip user tenant : Axis

abbrev pub same_axis : Axis → Axis → Bool
same_axis ip ip = true
same_axis user user = true
same_axis tenant tenant = true
same_axis _ _ = false

-- `rl:{axis}:{identifier}:{windowIndex}`
pub record Key : Type 0 where
  pub axis : Axis
  pub identifier : String
  pub window : ℕ

abbrev pub same_key : Key → Key → Bool
same_key j k = same_axis j.axis k.axis && str_eq j.identifier k.identifier && j.window == k.window

pub record RateLimitResult : Type 0 where
  pub allowed : Bool
  pub remaining : ℕ
  pub reset_at : ℕ
  pub count : ℕ

pub record Config : Type 0 where
  pub ttl : ℕ
  pub max_per_ip : ℕ
  pub max_per_user : ℕ
  pub max_per_tenant : ℕ

abbrev pub fail_open : RateLimitResult
fail_open = record { allowed = true; remaining = 1; reset_at = 0; count = 0 }

module _ (r : Counters Key same_key) (c : Config) where
  abbrev pub window_key : Axis → String → ℕ → Key
  window_key axis id now = record { axis = axis; identifier = id; window = now / c.ttl }

  abbrev pub reset_time : ℕ → ℕ
  reset_time now = (now / c.ttl + 1) * c.ttl

  -- `Math.max(0, max - count)` is truncated subtraction.
  abbrev pub answer : ℕ → ℕ → ℕ → RateLimitResult
  answer max count now = record {
    allowed = leb count max;
    remaining = max - count;
    reset_at = reset_time now;
    count = count;
  }

  -- The expiry is set on the first increment only, 5 seconds after the window's end.
  abbrev pub expiring_window : Key → ℕ → ℕ → ℕ → r.State → RateLimitResult × r.State
  expiring_window key max count now s =
      if count == 1
      then elim (r.expire key (reset_time now - now + 5) now s) [
        | none ↦ (fail_open, s)
        | some t ↦ (answer max count now, t)
      ]
      else (answer max count now, s)

  unfoldable pub check : Axis → String → ℕ → ℕ → r.State → RateLimitResult × r.State
  check axis id max now s = elim (r.incr (window_key axis id now) now s) [
    | none ↦ (fail_open, s)
    | some (count, t) ↦ expiring_window (window_key axis id now) max count now t
  ]

  unfoldable pub check_by_ip : String → ℕ → r.State → RateLimitResult × r.State
  unfolding check
  check_by_ip id now s = check ip id c.max_per_ip now s

  unfoldable pub check_by_user : String → ℕ → r.State → RateLimitResult × r.State
  unfolding check
  check_by_user id now s = check user id c.max_per_user now s

  unfoldable pub check_by_tenant : String → ℕ → r.State → RateLimitResult × r.State
  unfolding check
  check_by_tenant id now s = check tenant id c.max_per_tenant now s
