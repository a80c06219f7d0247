-- ===== src/Security/BruteForce.antt =====
-- libs/security/src/services/brute-force.service.ts.
-- The commands of one call fall within one second. What Redis throws is caught, and the call fails
-- open, with what was written before. A key is its template with the identifier in it: the two
-- templates differ from the fourth character on.
pub mod Spec
pub mod Laws
pub mod Lockout
use saas_backend_blueprint.Prelude.{
  or_zero, ℕ, ◌-◌, String, str_eq, Bool, true, false, Option, none, some, ◌==◌, leb, if◌then◌else◌,
}
use saas_backend_blueprint.Platform.Counters.{Counters}

pub data Key : Type 0 where
  attempts lock : String → Key

abbrev pub same_key : Key → Key → Bool
same_key (attempts i) (attempts j) = str_eq i j
same_key (lock i) (lock j) = str_eq i j
same_key _ _ = false

pub record BruteForceResult : Type 0 where
  pub locked : Bool
  pub attempts : ℕ
  pub lockout_remaining_seconds : ℕ

pub record Config : Type 0 where
  pub max_attempts : ℕ
  pub lockout_ttl : ℕ
  pub tracking_ttl : ℕ

abbrev pub fail_open : BruteForceResult
fail_open = record { locked = false; attempts = 0; lockout_remaining_seconds = 0 }

module _ (r : Counters Key same_key) (c : Config) where
  abbrev pub Outcome : Type 0
  Outcome = BruteForceResult × r.State

  -- `if (count >= this.maxAttempts)`: the lock is set.
  abbrev pub lock_or_pass : String → ℕ → ℕ → r.State → Outcome
  lock_or_pass id count now s =
      if leb c.max_attempts count
      then elim (r.set_ex (lock id) 1 c.lockout_ttl now s) [
        | none ↦ (fail_open, s)
        | some t ↦ (
          record { locked = true; attempts = count; lockout_remaining_seconds = c.lockout_ttl },
          t,
        )
      ]
      else (record { locked = false; attempts = count; lockout_remaining_seconds = 0 }, s)

  -- `if (count === 1)`: the counter gets its expiry.
  abbrev pub track : String → ℕ → ℕ → r.State → Outcome
  track id count now s =
      if count == 1
      then elim (r.expire (attempts id) c.tracking_ttl now s) [
        | none ↦ (fail_open, s)
        | some t ↦ lock_or_pass id count now t
      ]
      else lock_or_pass id count now s

  abbrev pub counted : String → ℕ → r.State → Outcome
  counted id now s = elim (r.incr (attempts id) now s) [
    | none ↦ (fail_open, s)
    | some (count, t) ↦ track id count now t
  ]

  abbrev pub already_locked : String → ℕ → r.State → Outcome
  already_locked id now s = elim (r.ttl (lock id) now s) [
    | none ↦ (fail_open, s)
    | some t ↦ (
      record { locked = true; attempts = c.max_attempts; lockout_remaining_seconds = or_zero t },
      s,
    )
  ]

  unfoldable pub record_failed_attempt : String → ℕ → r.State → Outcome
  record_failed_attempt id now s = elim (r.exists (lock id) now s) [
    | none ↦ (fail_open, s)
    | some locked ↦ if locked then already_locked id now s else counted id now s
  ]

  abbrev pub or_false : Option Bool → Bool
  or_false none = false
  or_false (some b) = b

  unfoldable pub is_locked : String → ℕ → r.State → Bool
  is_locked id now s = or_false (r.exists (lock id) now s)

  abbrev pub state_of : Option Bool → Option (Option ℕ) → Option (Option ℕ) → BruteForceResult
  state_of (some locked) (some count) (some left) = record {
    locked = locked;
    attempts = or_zero count;
    lockout_remaining_seconds = if locked then or_zero left else 0;
  }
  state_of _ _ _ = fail_open

  -- `Promise.all` of three reads: one that throws fails the call.
  unfoldable pub get_state : String → ℕ → r.State → BruteForceResult
  get_state id now s =
      state_of (r.exists (lock id) now s) (r.get (attempts id) now s) (r.ttl (lock id) now s)

  unfoldable pub reset_attempts : String → r.State → r.State
  reset_attempts id s = elim (r.del (attempts id) (lock id) s) [ none ↦ s | some t ↦ t ]
