-- ===== src/Security/BruteForce/Laws.antt =====
-- BruteForceService and its specification.
use saas_backend_blueprint.Prelude.{
  ℕ, suc, String, eq_iff, ◌≡◌, some, arith, Option-cases, inl, inr, if◌then◌else◌,
}
use saas_backend_blueprint.Platform.Counters.{Counters, IsReachable, alive, incremented}
use saas_backend_blueprint.Security.BruteForce
use saas_backend_blueprint.Security.BruteForce.{
  Key, attempts, lock, same_key, Config, BruteForceResult,
}
use saas_backend_blueprint.Security.BruteForce.Spec
use saas_backend_blueprint.Security.BruteForce.Spec.{View}

module _ (r : Counters Key same_key) (c : Config) where
  abbrev pub view : String → r.State → View
  view id s = record { attempts = r.stored s (attempts id); lock = r.stored s (lock id) }

module _ (r : Counters Key same_key) (c : Config) (ok : IsReachable r) where
  abbrev failures : String → ℕ → r.State → ℕ
  failures id now s = Spec.failures now (view r c id s)

  counted_lem :
      (id : String) (now : ℕ) (s : r.State)
      → (t : r.State) × (r.incr (attempts id) now s ≡ some (suc (failures id now s), t))
        × ((j : Key)
            → r.stored t j ≡ (
                if same_key (attempts id) j
                then some (incremented (alive now (r.stored s (attempts id))))
                else r.stored s j))
  counted_lem id now s = elim (Option-cases (r.incr (attempts id) now s)) [
    | inl e ↦ absurd (ok.incr (attempts id) now s e)
    | inr ((n, t), e) ↦ (
      t,
      ground (arith, e, r.incr_law (attempts id) now s),
      λ j. ground (arith, e, r.incr_stored_law (attempts id) j now s),
    )
  ]

  -- While Redis answers, recording a failed attempt returns what the specification answers, and changes
  -- the two entries of the identifier as the specification does.
  pub record_failed_attempt-attempt :
      (id : String) (now : ℕ) (s : r.State)
      → ((BruteForce.record_failed_attempt r c id now s).0 ≡ Spec.answer c now (view r c id s))
        × (view r c id (BruteForce.record_failed_attempt r c id now s).1
            ≡ Spec.attempt c now (view r c id s))
  unfolding BruteForce.record_failed_attempt
  record_failed_attempt-attempt id now s =
      let (t, e, h) = counted_lem id now s in
      elim (Option-cases (r.expire (attempts id) c.tracking_ttl now t)) [
        | inl no_expire ↦ absurd (ok.expire (attempts id) c.tracking_ttl now t no_expire)
        | inr (t', e') ↦ ground (
          arith,
          e,
          e',
          h (attempts id),
          h (lock id),
          eq_iff id id,
          ok.exists (lock id) now s,
          r.exists_law (lock id) now s,
          ok.ttl (lock id) now s,
          r.ttl_law (lock id) now s,
          r.expire_law (attempts id) (attempts id) c.tracking_ttl now t,
          r.expire_law (attempts id) (lock id) c.tracking_ttl now t,
          ok.set_ex (lock id) 1 c.lockout_ttl now t,
          r.set_ex_law (lock id) (attempts id) 1 c.lockout_ttl now t,
          r.set_ex_law (lock id) (lock id) 1 c.lockout_ttl now t,
          ok.set_ex (lock id) 1 c.lockout_ttl now t',
          r.set_ex_law (lock id) (attempts id) 1 c.lockout_ttl now t',
          r.set_ex_law (lock id) (lock id) 1 c.lockout_ttl now t',
        )
      ]
