-- ===== src/Security/BruteForce/Lockout.antt =====
-- Sequences of failed attempts of one identifier.
use saas_backend_blueprint.Prelude.{
  ℕ, suc, ◌+◌, ◌≤◌, ◌<◌, String, ◌≡◌, refl, ◌∙◌, ap, sym, subst, false, List, [], ◌∷◌, none, some,
  arith, ltb, length, eq_iff,
}
use saas_backend_blueprint.Platform.Counters.{Counters, IsReachable, alive}
use saas_backend_blueprint.Security.BruteForce
use saas_backend_blueprint.Security.BruteForce.{Key, attempts, lock, same_key, Config}
use saas_backend_blueprint.Security.BruteForce.Spec
use saas_backend_blueprint.Security.BruteForce.Spec.{View}
use saas_backend_blueprint.Security.BruteForce.Laws.{view, record_failed_attempt-attempt}

-- The times lie in the tracking time that starts at `start`.
abbrev pub Within : ℕ → ℕ → List ℕ → Type 0
Within start end [] = Unit {0}
Within start end (t ∷ ts) = (start ≤ t) × (t < end) × Within start end ts

-- No failure counts and no lock holds.
abbrev pub IsClear : ℕ → View → Type 0
IsClear now v = (alive now v.attempts ≡ none) × (alive now v.lock ≡ none)

attempts_of : Config → List ℕ → View → View
attempts_of c [] v = v
attempts_of c (t ∷ ts) v = attempts_of c ts (Spec.attempt c t v)

module _ (c : Config) (start : ℕ) where
  -- `n` failures since `start`, and no lock since.
  abbrev Tracked : ℕ → View → Type 0
  Tracked n v =
      (v.attempts ≡ some (record { value = n; expires = some (start + c.tracking_ttl) }))
      × (alive start v.lock ≡ none)

  attempt-Tracked :
      (n t : ℕ) (v : View)
      → Tracked n v
      → start ≤ t
      → t < start + c.tracking_ttl
      → suc (suc n) ≤ c.max_attempts
      → 0 < n
      → Tracked (suc n) (Spec.attempt c t v)
  attempt-Tracked n t v h le lt few pos = ground arith

  attempts-Tracked :
      (n : ℕ) (ts : List ℕ) (v : View)
      → 0 < n
      → Tracked n v
      → Within start (start + c.tracking_ttl) ts
      → length ts + n < c.max_attempts
      → Tracked (length ts + n) (attempts_of c ts v)
  unfolding attempts_of
  attempts-Tracked n [] v pos h w few = ground arith
  attempts-Tracked n (t ∷ ts) v pos h (le, lt, w) few = ground (
    arith,
    attempts-Tracked (suc n) ts (Spec.attempt c t v) (omega arith)
        (attempt-Tracked n t v h le lt (omega arith) pos) w (omega arith),
  )

  first-Tracked :
      (v : View) → IsClear start v → 1 < c.max_attempts → Tracked 1 (Spec.attempt c start v)
  first-Tracked v h few = ground arith

  Tracked-unlocked :
      (n now : ℕ) (v : View) → Tracked n v → start ≤ now → Spec.is_locked now v ≡ false
  Tracked-unlocked n now v h le = ground arith

  -- The failure that reaches the limit.
  last-locked :
      (n t now : ℕ) (v : View)
      → Tracked n v
      → start ≤ t
      → t < start + c.tracking_ttl
      → suc n ≡ c.max_attempts
      → Spec.is_locked now (Spec.attempt c t v) ≡ ltb now (t + c.lockout_ttl)
  last-locked n t now v h le lt full = ground arith

  -- The next failure, after the lockout and within the tracking time.
  again-locked :
      (n t u now : ℕ) (v : View)
      → Tracked n v
      → start ≤ t
      → t < start + c.tracking_ttl
      → suc n ≡ c.max_attempts
      → t + c.lockout_ttl ≤ u
      → u < start + c.tracking_ttl
      → Spec.is_locked now (Spec.attempt c u (Spec.attempt c t v)) ≡ ltb now (u + c.lockout_ttl)
  again-locked n t u now v h le lt full over lt' = ground arith

module _ (r : Counters Key same_key) (c : Config) where
  -- Failed attempts at the times given.
  unfoldable pub fail_at : String → List ℕ → r.State → r.State
  fail_at id [] s = s
  fail_at id (t ∷ ts) s = fail_at id ts (BruteForce.record_failed_attempt r c id t s).1

module _ (r : Counters Key same_key) (c : Config) (ok : IsReachable r) (id : String) where
  fail_at-attempts_of :
      (ts : List ℕ) (s : r.State)
      → view r c id (fail_at r c id ts s) ≡ attempts_of c ts (view r c id s)
  unfolding fail_at attempts_of
  fail_at-attempts_of [] s = refl
  fail_at-attempts_of (t ∷ ts) s =
      fail_at-attempts_of ts (BruteForce.record_failed_attempt r c id t s).1
      ∙ ap (attempts_of c ts) (record_failed_attempt-attempt r c ok id t s).1

  is_locked-view :
      (now : ℕ) (s : r.State)
      → BruteForce.is_locked r c id now s ≡ Spec.is_locked now (view r c id s)
  unfolding BruteForce.is_locked
  is_locked-view now s = ground (arith, ok.exists (lock id) now s, r.exists_law (lock id) now s)

  module _ (start : ℕ) (s : r.State) (clear : IsClear start (view r c id s))
      (several : 1 < c.max_attempts) where
    Tracked-fail_at :
        (ts : List ℕ)
        → Within start (start + c.tracking_ttl) ts
        → length ts + 1 < c.max_attempts
        → Tracked c start (length ts + 1) (view r c id (fail_at r c id (start ∷ ts) s))
    unfolding attempts_of
    Tracked-fail_at ts w few =
        subst (Tracked c start (length ts + 1)) (sym (fail_at-attempts_of (start ∷ ts) s)) (
          attempts-Tracked c start 1 ts (Spec.attempt c start (view r c id s)) (omega arith)
            (first-Tracked c start (view r c id s) clear several) w few)

    -- While Redis answers, from a state with no failure that counts and no lock, fewer failures than the
    -- limit, which is more than 1, within the tracking time of the first, lock nobody out.
    pub fail_at-unlocked :
        (ts : List ℕ) (now : ℕ)
        → Within start (start + c.tracking_ttl) ts
        → length ts + 1 < c.max_attempts
        → start ≤ now
        → BruteForce.is_locked r c id now (fail_at r c id (start ∷ ts) s) ≡ false
    fail_at-unlocked ts now w few le =
        is_locked-view now (fail_at r c id (start ∷ ts) s)
        ∙ Tracked-unlocked c start (length ts + 1) now (view r c id (fail_at r c id (start ∷ ts) s))
            (Tracked-fail_at ts w few) le

    -- While Redis answers, from a state with no failure that counts and no lock, the failure that reaches
    -- the limit, within the tracking time of the first, locks the identifier until `lockout_ttl` seconds
    -- after it, and not beyond.
    pub fail_at-locked :
        (ts : List ℕ) (last now : ℕ)
        → Within start (start + c.tracking_ttl) ts
        → suc (length ts + 1) ≡ c.max_attempts
        → start ≤ last
        → last < start + c.tracking_ttl
        → BruteForce.is_locked r c id now
            (BruteForce.record_failed_attempt r c id last (fail_at r c id (start ∷ ts) s)).1
          ≡ ltb now (last + c.lockout_ttl)
    fail_at-locked ts last now w full le lt =
        let t = fail_at r c id (start ∷ ts) s in
        is_locked-view now (BruteForce.record_failed_attempt r c id last t).1
        ∙ ap (Spec.is_locked now) (record_failed_attempt-attempt r c ok id last t).1
        ∙ last-locked c start (length ts + 1) last now (view r c id t)
            (Tracked-fail_at ts w (omega arith)) le lt full

    -- The counter outlives the lockout: under the same conditions, one more failure after the lockout and
    -- within the tracking time of the first locks the identifier again, for as long.
    pub fail_at-locked_again :
        (ts : List ℕ) (last next now : ℕ)
        → Within start (start + c.tracking_ttl) ts
        → suc (length ts + 1) ≡ c.max_attempts
        → start ≤ last
        → last < start + c.tracking_ttl
        → last + c.lockout_ttl ≤ next
        → next < start + c.tracking_ttl
        → BruteForce.is_locked r c id now
            (BruteForce.record_failed_attempt r c id next
              (BruteForce.record_failed_attempt r c id last (fail_at r c id (start ∷ ts) s)).1).1
          ≡ ltb now (next + c.lockout_ttl)
    fail_at-locked_again ts last next now w full le lt over lt' =
        let t = fail_at r c id (start ∷ ts) s in
        let u = (BruteForce.record_failed_attempt r c id last t).1 in
        is_locked-view now (BruteForce.record_failed_attempt r c id next u).1
        ∙ ap (Spec.is_locked now) (record_failed_attempt-attempt r c ok id next u).1
        ∙ ap (λ v. Spec.is_locked now (Spec.attempt c next v))
            (record_failed_attempt-attempt r c ok id last t).1
        ∙ again-locked c start (length ts + 1) last next now (view r c id t)
            (Tracked-fail_at ts w (omega arith)) le lt full over lt'

  -- While Redis answers, a reset clears the failures and the lock of the identifier, at any time.
  pub reset_attempts-IsClear :
      (now : ℕ) (s : r.State) → IsClear now (view r c id (BruteForce.reset_attempts r c id s))
  unfolding BruteForce.reset_attempts
  reset_attempts-IsClear now s = ground (
    arith,
    ok.del (attempts id) (lock id) s,
    r.del_law (attempts id) (lock id) (attempts id) s,
    r.del_law (attempts id) (lock id) (lock id) s,
    eq_iff id id,
  )

-- Whatever Redis does, a failed `exists` locks nobody out: the service fails open and writes nothing.
pub record_failed_attempt-fail_open :
    (r : Counters Key same_key) (c : Config) (id : String) (now : ℕ) (s : r.State)
    → r.exists (lock id) now s ≡ none
    → (BruteForce.record_failed_attempt r c id now s ≡ (BruteForce.fail_open, s))
      × (BruteForce.is_locked r c id now s ≡ false)
      × (BruteForce.get_state r c id now s ≡ BruteForce.fail_open)
unfolding BruteForce.record_failed_attempt BruteForce.is_locked BruteForce.get_state
record_failed_attempt-fail_open r c id now s down = ground (arith, down)
