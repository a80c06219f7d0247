-- ===== src/Security/BruteForce/Spec.antt =====
-- libs/security/src/services/brute-force.service.ts: what the service promises for one identifier, as
-- documented at the class, over the entries of its two keys alone.
use saas_backend_blueprint.Prelude.{
  or_zero, ℕ, suc, ◌+◌, Bool, true, false, Option, some, ◌==◌, leb, if◌then◌else◌,
}
use saas_backend_blueprint.Platform.Counters.{Entry, alive, present, value_of, expiry_of, left_of}
use saas_backend_blueprint.Security.BruteForce.{BruteForceResult, Config}

pub record View : Type 0 where
  pub attempts : Option Entry
  pub lock : Option Entry

-- The failures that count at a moment, and whether the identifier is locked then.
abbrev pub failures : ℕ → View → ℕ
failures now v = value_of (alive now v.attempts)

abbrev pub is_locked : ℕ → View → Bool
is_locked now v = present (alive now v.lock)

-- A failure counts one; the first starts the tracking time, and from the limit on each starts a lockout.
abbrev pub attempt_counted : Config → ℕ → View → View
attempt_counted c now v = record {
  attempts = some (record {
    value = suc (failures now v);
    expires =
        if failures now v == 0
        then some (now + c.tracking_ttl)
        else expiry_of (alive now v.attempts);
  });
  lock =
      if leb c.max_attempts (suc (failures now v))
      then some (record { value = 1; expires = some (now + c.lockout_ttl) })
      else v.lock;
}

-- While the identifier is locked nothing is recorded.
abbrev pub attempt : Config → ℕ → View → View
attempt c now v = if is_locked now v then v else attempt_counted c now v

abbrev pub answer : Config → ℕ → View → BruteForceResult
answer c now v =
    if is_locked now v
    then record {
      locked = true;
      attempts = c.max_attempts;
      lockout_remaining_seconds = or_zero (left_of now (alive now v.lock));
    }
    else if leb c.max_attempts (suc (failures now v))
    then record {
      locked = true;
      attempts = suc (failures now v);
      lockout_remaining_seconds = c.lockout_ttl;
    }
    else record { locked = false; attempts = suc (failures now v); lockout_remaining_seconds = 0 }
