-- ===== src/Jobs/History.antt =====
-- What a job is after a history of marks: libs/jobs/src/application/services/job.service.ts.
use mathlib.Core.Option
use saas_backend_blueprint.Prelude.{
  ℕ, ◌+◌, ◌≡◌, refl, ap, ◌∙◌, String, Bool, true, false, ◌==◌, List, [], ◌∷◌, Option, inl, inr,
  none, some, find, count, find-update_where, ◌>>◌, arith, Option-cases, if◌then◌else◌,
}
use saas_backend_blueprint.Platform.Table.{Table}
use saas_backend_blueprint.Members.Model.{Uuid}
use saas_backend_blueprint.Jobs.Model.{Job, job_clash, has_job_id}
use saas_backend_blueprint.Jobs.Repository
use saas_backend_blueprint.Jobs.Repository.{processing_from, done_with, failed_with}
use saas_backend_blueprint.Jobs.Service
use saas_backend_blueprint.Jobs.Service.{State}

-- A call of the service that marks a job, with the organization and the user that it is given.
pub record Mark : Type 0 where
  pub job_id : Uuid
  pub org_id : Option Uuid
  pub user_id : Option String
  pub now : ℕ
  pub outcome : Option (Bool × String)

-- What the mark makes of its job: without an outcome it is being processed, else it is done or failed.
abbrev pub marked : Mark → Job → Job
marked m j = elim m.outcome [
  | none ↦ processing_from m.now j
  | some (success, text) ↦ if success then done_with text m.now j else failed_with text m.now j
]

-- The marks of one job, in order.
abbrev pub marked_all : Uuid → List Mark → Job → Job
marked_all id [] j = j
marked_all id (m ∷ ms) j = marked_all id ms (if id == m.job_id then marked m j else j)

abbrev pub is_attempt : Uuid → Mark → Bool
is_attempt id m = elim m.outcome [ none ↦ id == m.job_id | some x ↦ false ]

marked_all-attempts :
    (id : Uuid) (ms : List Mark) (j : Job)
    → (marked_all id ms j).attempts ≡ j.attempts + count (is_attempt id) ms
marked_all-attempts id [] j = omega arith
marked_all-attempts id (m ∷ ms) j =
    ground (arith, marked_all-attempts id ms (if id == m.job_id then marked m j else j))

module _ (t : Table Job job_clash) where
  abbrev pub step : Mark → State t → State t
  step m w = elim m.outcome [
    | none ↦ (Service.mark_processing t m.job_id m.org_id m.user_id m.now w).1
    | some (success, text) ↦
        if success
        then (Service.mark_done t m.job_id text m.org_id m.user_id m.now w).1
        else (Service.mark_failed t m.job_id text m.org_id m.user_id m.now w).1
  ]

  abbrev pub run : List Mark → State t → State t
  run [] w = w
  run (m ∷ ms) w = run ms (step m w)

  abbrev pub job : Uuid → State t → Option Job
  job id w = find (has_job_id id) (t.rows w.jobs)

  -- What a write of one job does to the job with an id.
  job-update :
      (id target : Uuid) (f : Job → Job) (s s' : t.State)
      → ((j : Job) → (f j).id ≡ j.id)
      → t.update (has_job_id target) f s ≡ some s'
      → find (has_job_id id) (t.rows s') ≡ (
          if id == target
          then Option.map f (find (has_job_id id) (t.rows s))
          else find (has_job_id id) (t.rows s))
  job-update id target f s s' kept e = ground (
    arith,
    e,
    t.update_law (has_job_id target) f s,
    find-update_where (λ j. j.id) id target f (t.rows s) kept,
  )

  -- A write that fails finds no such job.
  job-missing :
      (target : Uuid) (f : Job → Job) (s : t.State)
      → t.update (has_job_id target) f s ≡ none
      → find (has_job_id target) (t.rows s) ≡ none
  job-missing target f s e = elim (Option-cases (find (has_job_id target) (t.rows s))) [
    | inl f' ↦ f'
    | inr (j, f') ↦ ground (arith, e, f', t.update_law (has_job_id target) f s)
  ]

  written-job :
      (id target : Uuid) (f : Job → Job) (s : t.State)
      → ((j : Job) → (f j).id ≡ j.id)
      → find (has_job_id id) (t.rows (Repository.or_kept (t.update (has_job_id target) f s) s))
        ≡ Option.map (λ j. if id == target then f j else j) (find (has_job_id id) (t.rows s))
  written-job id target f s kept = elim (Option-cases (t.update (has_job_id target) f s)) [
    | inl e ↦ elim (Option-cases (find (has_job_id id) (t.rows s))) [
      | inl g ↦ ground (arith, e, g, job-missing target f s e)
      | inr (j, g) ↦ ground (arith, e, g, job-missing target f s e)
    ]
    | inr (s', e) ↦ elim (Option-cases (find (has_job_id id) (t.rows s))) [
      | inl g ↦ ground (arith, e, g, job-update id target f s s' kept e)
      | inr (j, g) ↦ ground (arith, e, g, job-update id target f s s' kept e)
    ]
  ]

  log_activity-jobs :
      (action : String) (org : Option Uuid) (user : Option String) (id : Uuid) (w : State t)
      → (Service.log_activity t action org user id w).1.jobs ≡ w.jobs
  log_activity-jobs action none user id w = refl
  log_activity-jobs action (some org) user id w = refl

  both_logs-jobs :
      (action : String) (org : Option Uuid) (user : Option String) (id : Uuid) (w : State t)
      → ((Service.log_activity t action org user id >> Service.record_event t action org user id)
          w).1.jobs
        ≡ w.jobs
  both_logs-jobs action none user id w = refl
  both_logs-jobs action (some org) user id w = refl

  -- A mark writes its job, if it is there.
  step-jobs :
      (id : Uuid) (org : Option Uuid) (user : Option String) (now : ℕ) (o : Option (Bool × String))
      (w : State t)
      → let m : Mark = record {
        job_id = id;
        org_id = org;
        user_id = user;
        now = now;
        outcome = o;
      } in
        (step m w).jobs ≡ Repository.or_kept (t.update (has_job_id id) (marked m) w.jobs) w.jobs
  unfolding Service.mark_processing Service.mark_done Service.mark_failed Repository.mark_processing
      Repository.mark_done Repository.mark_failed
  step-jobs id org user now none w =
      elim (Option-cases (t.update (has_job_id id) (processing_from now) w.jobs)) [
        | inl e ↦ ground (arith, e)
        | inr (s, e) ↦
            ground
              (arith, e, log_activity-jobs "job.processing" org user id (record w { jobs = s }))
      ]
  step-jobs id org user now (some (true, text)) w =
      elim (Option-cases (t.update (has_job_id id) (done_with text now) w.jobs)) [
        | inl e ↦ ground (arith, e)
        | inr (s, e) ↦
            ground (arith, e, both_logs-jobs "job.completed" org user id (record w { jobs = s }))
      ]
  step-jobs id org user now (some (false, text)) w =
      elim (Option-cases (t.update (has_job_id id) (failed_with text now) w.jobs)) [
        | inl e ↦ ground (arith, e)
        | inr (s, e) ↦
            ground (arith, e, both_logs-jobs "job.failed" org user id (record w { jobs = s }))
      ]

  marked-id : (m : Mark) (j : Job) → (marked m j).id ≡ j.id
  marked-id m j = elim (Option-cases m.outcome) [
    | inl e ↦ ground (arith, e)
    | inr ((success, text), e) ↦ ground (arith, e)
  ]

  -- After any history of marks, each job is what the marks of its own id, in their order, make of it, a
  -- missing job stays missing, and the attempts of a job have grown by the number of times that it was
  -- marked as processing.
  pub run-job :
      (id : Uuid) (ms : List Mark) (w : State t)
      → (job id (run ms w) ≡ Option.map (marked_all id ms) (job id w))
        × (Option.map (λ j. j.attempts) (job id (run ms w))
            ≡ Option.map (λ j. j.attempts + count (is_attempt id) ms) (job id w))
  run-job id [] w =
      (ground (arith, Option-cases (job id w)), ground (arith, Option-cases (job id w)))
  run-job id (m ∷ ms) w =
      let (after, attempts) = run-job id ms (step m w) in
      let here =
        ap (λ s. find (has_job_id id) (t.rows s))
          (step-jobs m.job_id m.org_id m.user_id m.now m.outcome w)
        ∙ written-job id m.job_id (marked m) w.jobs (marked-id m) in
      elim (Option-cases (job id w)) [
        | inl g ↦ (ground (arith, g, here, after), ground (arith, g, here, attempts))
        | inr (j, g) ↦ (
          ground (arith, g, here, after),
          ground (arith, g, here, attempts, marked_all-attempts id (m ∷ []) j),
        )
      ]
