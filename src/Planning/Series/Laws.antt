-- ===== src/Planning/Series/Laws.antt =====
-- What a split request leaves of the series: `splitSeries` of
-- libs/planning/src/application/services/planning.service.ts.
use mathlib.Core.Option
use saas_backend_blueprint.Prelude.{
  ℕ, ◌-◌, ◌<◌, ◌≤◌, ◌≡◌, refl, String, false, ◌&&◌, leb, none, if◌then◌else◌, ◌==◌, List, inl, inr,
  some, any, find, find_sound, ok, arith, Option-cases,
}
use saas_backend_blueprint.Access.Roles.{MembershipRole}
use saas_backend_blueprint.Members.Model.{Uuid}
use saas_backend_blueprint.Planning.Model.{Event, EventException, EventDetail}
use saas_backend_blueprint.Planning.Rrule.{Rrule}
use saas_backend_blueprint.Planning.Recurrence.{or_value, or_else, rule_of, expand, truncate_rrule}
use saas_backend_blueprint.Planning.Store.{Tables, relations, has_event_id}
use saas_backend_blueprint.Planning.Repository
use saas_backend_blueprint.Planning.Repository.{
  SplitSeriesParams, is_live_of, truncated_event, tail_event,
}
use saas_backend_blueprint.Planning.Inputs.{SplitSeriesInput}
use saas_backend_blueprint.Planning.Service
use saas_backend_blueprint.Planning.Series
use saas_backend_blueprint.Planning.Series.{State, split_params}
use saas_backend_blueprint.Planning.Expansion.{is_at, expand-past_cap}
use saas_backend_blueprint.Planning.Splitting.{
  exception_at, split_series-exception_at, find-truncated,
}

found_truncated :
    (old new : List Event) (p : SplitSeriesParams) (id : Uuid) (e : Event)
    → find (has_event_id id) new ≡ Option.map (truncated_event p) (find (has_event_id id) old)
    → find (has_event_id id) new ≡ some e
    → (e.rrule_until_utc ≡ some (p.split_point_utc - 1)) × (e.rrule ≡ some p.truncated_rrule)
unfolding truncated_event
found_truncated old new p id e h now_ = (ground (arith, h, now_), ground (arith, h, now_))

module _ (r : Rrule) (t : Tables) where
  abbrev pub after_split :
      Uuid → Uuid → Uuid → SplitSeriesInput → Uuid → MembershipRole → State r t → State r t
  after_split new_id org id dto actor role w =
      (Series.split_series r t new_id org id dto actor role w).1

  abbrev params : Event → SplitSeriesInput → ℕ → State r t → SplitSeriesParams
  params o dto split w =
      split_params r t (relations t w.stored o) (or_value (rule_of o.rrule) "") dto split

  -- A split that is checked leaves everything as it was.
  check_split-stored :
      (d : EventDetail) (dto : SplitSeriesInput) (split : ℕ) (w : State r t)
      → (Series.check_split r t d dto split w).1 ≡ w
  unfolding Series.check_split
  check_split-stored d dto split w = ground (arith, Series.check_split r t d dto split w)

  write_split-call :
      (new_id org id : Uuid) (d : EventDetail) (rule : String) (dto : SplitSeriesInput) (split : ℕ)
      (actor : Uuid) (w : State r t) (tail : EventDetail)
      → (Series.write_split r t new_id org id d rule dto split actor w).0 ≡ ok tail
      → Repository.split_series t (split_params r t d rule dto split) new_id w.stored
        ≡ some (tail, (Series.write_split r t new_id org id d rule dto split actor w).1.stored)
  unfolding Series.write_split
  write_split-call new_id org id d rule dto split actor w tail e =
      elim (Option-cases
        (Repository.split_series t (split_params r t d rule dto split) new_id w.stored)) [
          | inl h ↦ ground (arith, e, h)
          | inr ((d', s), h) ↦ ground (arith, e, h)
        ]

  -- The call of the repository that a split which succeeds makes.
  split_series-call :
      (new_id org id actor : Uuid) (role : MembershipRole) (dto : SplitSeriesInput) (w : State r t)
      (o : Event) (tail : EventDetail) (split : ℕ)
      → find (is_live_of id org) (t.events.rows w.stored.events) ≡ some o
      → dto.original_start_utc ≡ some split
      → (Series.split_series r t new_id org id dto actor role w).0 ≡ ok tail
      → Repository.split_series t (params o dto split w) new_id w.stored
        ≡ some (tail, (after_split new_id org id dto actor role w).stored)
  unfolding Series.split_series Service.get_event Repository.find_event_by_id
  split_series-call new_id org id actor role dto w o tail split found at e =
      let law = t.events.find_first_law (is_live_of id org) w.stored.events in
      let d = relations t w.stored o in
      elim (Option-cases (rule_of o.rrule)) [
        | inl g ↦ ground (arith, e, found, at, law, g)
        | inr (rule, g) ↦
            let checked = Series.check_split r t d dto split w in
            ground (
              arith,
              e,
              found,
              at,
              law,
              g,
              check_split-stored d dto split w,
              write_split-call new_id org id d rule dto split actor w tail,
            )
      ]

  -- A split that succeeds at a point ends the series there: whatever window one then looks at, the event
  -- has no occurrence of a date at or after the point.
  pub split_series-ends :
      (new_id org id actor : Uuid) (role : MembershipRole) (dto : SplitSeriesInput) (w : State r t)
      (o e' : Event) (tail : EventDetail) (split x from to : ℕ)
      → find (is_live_of id org) (t.events.rows w.stored.events) ≡ some o
      → dto.original_start_utc ≡ some split
      → (Series.split_series r t new_id org id dto actor role w).0 ≡ ok tail
      → find
          (has_event_id id)
          (t.events.rows (after_split new_id org id dto actor role w).stored.events)
        ≡ some e'
      → 0 < split
      → split ≤ x
      → any
          (is_at x)
          (expand r (relations t (after_split new_id org id dto actor role w).stored e') from to)
        ≡ false
  unfolding relations truncated_event split_params truncate_rrule
  split_series-ends new_id org id actor role dto w o e' tail split x from to found at done now_ pos
        late =
      let p = params o dto split w in
      let w' = after_split new_id org id dto actor role w in
      let call = split_series-call new_id org id actor role dto w o tail split found at done in
      let text =
        r.with_until (split - 1) (r.without_count_and_until (or_value (rule_of o.rrule) "")) in
      let live = find_sound (is_live_of id org) (t.events.rows w.stored.events) found in
      let (until, rule) =
        found_truncated (t.events.rows w.stored.events) (t.events.rows w'.stored.events) p id e'
          (ground (arith, live, (find-truncated t p new_id w.stored w'.stored tail call).0)) now_ in
      expand-past_cap r (relations t w'.stored e') text from to x
        (ground (
          arith,
          rule,
          r.with_until_law (split - 1) (r.without_count_and_until (or_value (rule_of o.rrule) "")),
        ))
        (ground (arith, until, pos, late))

  -- A split that succeeds moves the exceptions of the series from the point on to the new event, each with
  -- its times, texts and cancellation, and leaves every other exception as it was.
  pub split_series-moves :
      (new_id org id actor : Uuid) (role : MembershipRole) (dto : SplitSeriesInput) (w : State r t)
      (o : Event) (tail : EventDetail) (split ev x : ℕ)
      → find (is_live_of id org) (t.events.rows w.stored.events) ≡ some o
      → dto.original_start_utc ≡ some split
      → (Series.split_series r t new_id org id dto actor role w).0 ≡ ok tail
      → exception_at t ev x (after_split new_id org id dto actor role w).stored
        ≡ or_else (if ev == id && leb split x then none else exception_at t ev x w.stored) (
            if ev == new_id && leb split x
            then Option.map
                (λ (e : EventException). record e { event_id = new_id })
                (exception_at t id x w.stored)
            else none)
  unfolding split_params
  split_series-moves new_id org id actor role dto w o tail split ev x found at done =
      let w' = after_split new_id org id dto actor role w in
      ground (
        arith,
        find_sound (is_live_of id org) (t.events.rows w.stored.events) found,
        split_series-exception_at t (params o dto split w) new_id ev x w.stored w'.stored o tail
            refl (split_series-call new_id org id actor role dto w o tail split found at done),
      )
