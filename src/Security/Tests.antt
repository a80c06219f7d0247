-- ===== src/Security/Tests.antt =====
-- Runs of the security services at concrete inputs.
use saas_backend_blueprint.Prelude.{
  String, ◌≡◌, refl, inl, false, [], ◌∷◌, Option, none, arith, ltb,
}
use Prim.Native.Nat.{min}
use saas_backend_blueprint.Platform.Counters.{Counters, Entry}
use saas_backend_blueprint.Platform.InMemory.{memory_counters, memory_counters-IsReachable}
use saas_backend_blueprint.Security.BruteForce
use saas_backend_blueprint.Security.BruteForce.Spec
use saas_backend_blueprint.Security.BruteForce.Laws.{view, record_failed_attempt-attempt}
use saas_backend_blueprint.Security.BruteForce.Lockout.{fail_at, fail_at-unlocked, fail_at-locked}
use saas_backend_blueprint.Security.RateLimit
use saas_backend_blueprint.Security.RateLimit.Laws.{allowed_at, allowed_at-min}

abbrev redis : Counters BruteForce.Key BruteForce.same_key
redis = memory_counters BruteForce.Key BruteForce.same_key

-- Three attempts in an hour lock for 15 minutes.
abbrev config : BruteForce.Config
config = record { max_attempts = 3; lockout_ttl = 900; tracking_ttl = 3600 }

abbrev login : String
login = "a@b.c"

abbrev empty : {K : Type 0} → K → Option Entry
empty k = none

abbrev locked_state : redis.State
locked_state =
    (BruteForce.record_failed_attempt redis config login 20
      (fail_at redis config login (0 ∷ 10 ∷ []) empty)).1

record_failed_attempt-attempt_example :
    ((BruteForce.record_failed_attempt redis config login 20 empty).0
      ≡ Spec.answer config 20 (view redis config login empty))
    × (view redis config login (BruteForce.record_failed_attempt redis config login 20 empty).1
        ≡ Spec.attempt config 20 (view redis config login empty))
record_failed_attempt-attempt_example =
    record_failed_attempt-attempt redis config
      (memory_counters-IsReachable BruteForce.Key BruteForce.same_key) login 20 empty

fail_at-unlocked_example :
    BruteForce.is_locked redis config login 50 (fail_at redis config login (0 ∷ 10 ∷ []) empty)
    ≡ false
fail_at-unlocked_example =
    fail_at-unlocked redis config (memory_counters-IsReachable BruteForce.Key BruteForce.same_key)
      login 0 empty (refl, refl) (omega arith) (10 ∷ []) 50 (omega arith, omega arith, tt)
      (omega arith) (omega arith)

fail_at-locked_example : BruteForce.is_locked redis config login 919 locked_state ≡ ltb 919 920
fail_at-locked_example =
    fail_at-locked redis config (memory_counters-IsReachable BruteForce.Key BruteForce.same_key)
      login 0 empty (refl, refl) (omega arith) (10 ∷ []) 20 919 (omega arith, omega arith, tt) refl
      (omega arith) (omega arith)

-- A Redis that answers no `exists`.
abbrev down : Counters BruteForce.Key BruteForce.same_key
down = record redis { exists = λ k now s. none; exists_law = λ k now s. inl refl }

abbrev window_redis : Counters RateLimit.Key RateLimit.same_key
window_redis = memory_counters RateLimit.Key RateLimit.same_key

abbrev limits : RateLimit.Config
limits = record { ttl = 60; max_per_ip = 2; max_per_user = 5; max_per_tenant = 9 }

allowed_at-min_example :
    allowed_at window_redis limits RateLimit.ip login 2 (120 ∷ 130 ∷ 140 ∷ []) empty ≡ min 3 2
allowed_at-min_example =
    allowed_at-min window_redis limits
      (memory_counters-IsReachable RateLimit.Key RateLimit.same_key) (omega arith) RateLimit.ip
      login 2 120 (130 ∷ 140 ∷ []) empty refl (refl, (refl, tt))

abbrev other_key : RateLimit.Key
other_key = record { axis = RateLimit.ip; identifier = login; window = 3 }
