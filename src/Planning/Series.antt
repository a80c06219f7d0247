-- ===== src/Planning/Series.antt =====
-- libs/planning/src/application/services/planning.service.ts: the answer to an invitation, exceptions
-- and the split of a series.
pub mod Laws
use saas_backend_blueprint.Prelude.{
  ℕ, ◌+◌, ◌-◌, String, Bool, true, false, not, ◌&&◌, ◌||◌, leb, ltb, ◌==◌, List, [], ◌∷◌, ◌++◌, map,
  any, where_, Option, none, some, bad_request, forbidden, not_found, conflict, failure, Method,
  ◌>>=◌, ◌>>◌, return, throw, throw_if, modify, ask, or_throw, if◌then◌else◌,
}
use saas_backend_blueprint.Access.Roles.{MembershipRole, owner, admin}
use saas_backend_blueprint.Members.Model.{Uuid}
use saas_backend_blueprint.Planning.Model.{
  RsvpStatus, pending, yes_, Event, EventAttendee, EventException, EventDetail, EventOccurrence,
}
use saas_backend_blueprint.Planning.Rrule.{Rrule}
use saas_backend_blueprint.Planning.Recurrence
use saas_backend_blueprint.Planning.Recurrence.{or_value, rule_of}
use saas_backend_blueprint.Planning.Store.{Tables, Stored}
use saas_backend_blueprint.Planning.Repository
use saas_backend_blueprint.Planning.Repository.{
  UpsertExceptionData, UpdateEventData, Updated, done, missing, conflicting, SplitSeriesParams,
}
use saas_backend_blueprint.Planning.Inputs.{
  Notice, Entry, World, CreateEventInput, UpdateEventInput, CreateExceptionInput, SplitSeriesInput,
  new_event, is_admin_or_above, ids_or_none, others, users_of, ends_before, sort_by_start,
  is_bad_rule, rule_update,
}
use saas_backend_blueprint.Planning.Service.{in_stored, notify, log, get_event, assert_can_modify}

module _ (r : Rrule) (t : Tables) where
  abbrev pub State : Type 0
  State = World (Stored t)

  abbrev pub ensured_in : Option (EventAttendee × Stored t) → Method State EventAttendee
  ensured_in none w = throw (failure "P2002") w
  ensured_in (some (a, s)) w = return a (record w { stored = s })

  -- For one occurrence of a series the answer is kept beside that for the series.
  abbrev pub answer : Event → Uuid → RsvpStatus → Option (Option ℕ) → Method State EventAttendee
  answer e user status none w =
      (do
        in_stored r t (Repository.upsert_attendee t e.id user status)
        return (Repository.attendee e.id user status))
        w
  answer e user status (some none) w =
      throw (bad_request "originalStartUtc is not a valid ISO 8601 date") w
  answer e user status (some (some original)) w =
      let s = Repository.upsert_occurrence_attendee t e.id user original status w.stored in
      ensured_in (Repository.ensure_attendee t e.id user status s) (record w { stored = s })

  -- `originalStartUtc && event.rrule`
  abbrev pub occurrence_of : Event → Option (Option ℕ) → Option (Option ℕ)
  occurrence_of e original = elim (rule_of e.rrule) [ none ↦ none | some rule ↦ original ]

  unfoldable pub rsvp :
      Uuid → Uuid → Uuid → RsvpStatus → Option (Option ℕ) → Method State EventAttendee
  unfolding get_event
  rsvp org id actor status original = do
    d ← get_event r t org id
    a ← answer d.event actor status (occurrence_of d.event original)
    notify r t "event.rsvp" org id (others actor (d.event.created_by_user_id ∷ []))
    log r t "planning.event.rsvp" org actor id
    return a

  abbrev pub require_rule : Option String → String → Method State String
  require_rule rule message = or_throw (rule_of rule) (bad_request message)

  abbrev pub exception_data : Uuid → CreateExceptionInput → UpsertExceptionData
  exception_data event dto = record {
    event_id = event;
    original_start_utc = dto.original_start_utc;
    is_cancelled = some (or_value dto.is_cancelled false);
    start_utc = dto.start_utc;
    end_utc = dto.end_utc;
    title = dto.title;
    description = dto.description;
    location = dto.location;
  }

  unfoldable pub create_exception :
      Uuid → Uuid → CreateExceptionInput → Uuid → MembershipRole → Method State EventException
  unfolding get_event
  create_exception org id dto actor role = do
    d ← get_event r t org id
    rule ← require_rule d.event.rrule "Cannot create exceptions for non-recurring events"
    assert_can_modify r t d.event actor role
    in_stored r t (Repository.upsert_exception t (exception_data id dto))
    log r t "planning.event.exception.created" org actor id
    ask (λ w. Repository.upserted_exception t (exception_data id dto) w.stored)

  -- The expansion of one second around the point has an occurrence at it.
  unfoldable pub has_occurrence_at : EventDetail → ℕ → Bool
  has_occurrence_at d split =
      any (λ o. o.original_start_utc == split) (Recurrence.expand r d (split - 1000) (split + 1000))

  unfoldable pub tail_end : EventDetail → SplitSeriesInput → ℕ → ℕ
  tail_end d dto start = or_value dto.end_utc (start + d.event.end_utc - d.event.start_utc)

  unfoldable pub split_params : EventDetail → String → SplitSeriesInput → ℕ → SplitSeriesParams
  split_params d rule dto split =
      let start = or_value dto.start_utc split in
      record {
        original = d;
        split_point_utc = split;
        truncated_rrule = Recurrence.truncate_rrule r rule split;
        tail_rrule = Recurrence.strip_count_and_until r rule;
        tail_rrule_until_utc =
            Recurrence.or_else d.event.rrule_until_utc
              (Recurrence.get_last_occurrence_date r rule d.event.start_utc);
        tail_start_utc = start;
        tail_end_utc = tail_end d dto start;
        title = dto.title;
        description = dto.description;
        location = dto.location;
      }

  abbrev pub split_in : Option (EventDetail × Stored t) → Method State EventDetail
  split_in none w = throw (failure "$transaction") w
  split_in (some (d, s)) w = return d (record w { stored = s })

  -- The requests that can be done: there is an occurrence, the version is the event's, and the new
  -- series has a length.
  unfoldable pub check_split : EventDetail → SplitSeriesInput → ℕ → Method State (Unit {0})
  unfolding has_occurrence_at tail_end
  check_split d dto split = do
    throw_if (not (has_occurrence_at d split))
        (bad_request "No occurrence found at originalStartUtc")
    throw_if (not (d.event.version == dto.version))
        (conflict "Event was modified by another request")
    throw_if (leb (tail_end d dto (or_value dto.start_utc split)) (or_value dto.start_utc split))
        (bad_request "end must be after start")

  unfoldable pub write_split :
      Uuid
      → Uuid
      → Uuid
      → EventDetail
      → String
      → SplitSeriesInput
      → ℕ
      → Uuid
      → Method State EventDetail
  unfolding split_params
  write_split new_id org id d rule dto split actor w =
      (do
        tail ← split_in (Repository.split_series t (split_params d rule dto split) new_id w.stored)
        notify r t "event.invite" org new_id (others actor (users_of tail.attendees))
        log r t "planning.event.series.split" org actor id
        return tail)
        w

  unfoldable pub split_series :
      Uuid → Uuid → Uuid → SplitSeriesInput → Uuid → MembershipRole → Method State EventDetail
  unfolding get_event check_split write_split
  split_series new_id org id dto actor role = do
    d ← get_event r t org id
    rule ← require_rule d.event.rrule "Cannot split a non-recurring event."
    assert_can_modify r t d.event actor role
    split ←
        or_throw dto.original_start_utc
          (bad_request "originalStartUtc is not a valid ISO 8601 date")
    check_split d dto split
    write_split new_id org id d rule dto split actor
