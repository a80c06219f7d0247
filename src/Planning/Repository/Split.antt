-- ===== src/Planning/Repository/Split.antt =====
-- libs/planning/src/infrastructure/repositories/planning.repository.ts: `splitSeries`, one transaction.
use saas_backend_blueprint.Prelude.{
  ℕ, suc, ◌-◌, String, Bool, ◌&&◌, leb, ◌==◌, List, [], ◌∷◌, map, where_, Option, none, some,
}
use saas_backend_blueprint.Members.Model.{Uuid}
use saas_backend_blueprint.Planning.Model.{
  Event, EventAttendee, EventOccurrenceAttendee, EventException, EventDetail,
}
use saas_backend_blueprint.Planning.Recurrence.{or_value, or_else}
use saas_backend_blueprint.Planning.Store.{Tables, Stored, relations, has_event_id}

-- `SplitSeriesParams`; none is an override that is absent or null.
pub record SplitSeriesParams : Type 0 where
  pub original : EventDetail
  pub split_point_utc : ℕ
  pub truncated_rrule : String
  pub tail_rrule : String
  pub tail_rrule_until_utc : Option ℕ
  pub tail_start_utc : ℕ
  pub tail_end_utc : ℕ
  pub title : Option String
  pub description : Option String
  pub location : Option String

-- The original, which ends 1 ms before the split point.
unfoldable pub truncated_event : SplitSeriesParams → Event → Event
truncated_event p e = record e {
  rrule = some p.truncated_rrule;
  rrule_until_utc = some (p.split_point_utc - 1);
  version = suc e.version;
}

unfoldable pub tail_event : SplitSeriesParams → Uuid → Event
tail_event p id =
    let o = p.original.event in
    record {
      id = id;
      org_id = o.org_id;
      created_by_user_id = o.created_by_user_id;
      title = or_value p.title o.title;
      description = or_else p.description o.description;
      location = or_else p.location o.location;
      start_utc = p.tail_start_utc;
      end_utc = p.tail_end_utc;
      is_all_day = o.is_all_day;
      event_timezone = o.event_timezone;
      rrule = some p.tail_rrule;
      rrule_until_utc = p.tail_rrule_until_utc;
      version = 1;
      reminder_minutes = o.reminder_minutes;
      last_reminder_occurrence_utc = none;
      deleted_at = none;
    }

abbrev pub exception_from : Uuid → ℕ → EventException → Bool
exception_from event split x = x.event_id == event && leb split x.original_start_utc

abbrev pub answer_from : Uuid → ℕ → EventOccurrenceAttendee → Bool
answer_from event split a = a.event_id == event && leb split a.original_start_utc

-- The rows of the new event.
abbrev pub attendee_to : Uuid → EventAttendee → EventAttendee
attendee_to id a = record a { event_id = id }

abbrev pub exception_to : Uuid → EventException → EventException
exception_to id x = record x { event_id = id }

abbrev pub answer_to : Uuid → EventOccurrenceAttendee → EventOccurrenceAttendee
answer_to id a = record a { event_id = id }

module _ (t : Tables) where
  -- Each of the three is skipped where there is nothing to write.
  abbrev pub copy_attendees : Uuid → List EventAttendee → Stored t → Stored t
  copy_attendees id [] s = s
  copy_attendees id (a ∷ as_) s = record s {
    attendees = t.attendees.create_many (map (attendee_to id) (a ∷ as_)) s.attendees;
  }

  abbrev pub move_exceptions : Uuid → ℕ → Uuid → List EventException → Stored t → Stored t
  move_exceptions original split id [] s = s
  move_exceptions original split id (x ∷ xs) s = record s {
    exceptions =
        t.exceptions.create_many (map (exception_to id) (x ∷ xs))
          (t.exceptions.delete_many (exception_from original split) s.exceptions);
  }

  abbrev pub move_answers : Uuid → ℕ → Uuid → List EventOccurrenceAttendee → Stored t → Stored t
  move_answers original split id [] s = s
  move_answers original split id (a ∷ as_) s = record s {
    answers =
        t.answers.create_many (map (answer_to id) (a ∷ as_))
          (t.answers.delete_many (answer_from original split) s.answers);
  }

  -- The attendees are copied; what lies at or after the split point goes over to the new event.
  abbrev pub moved : SplitSeriesParams → Uuid → Stored t → Stored t
  moved p id s =
      let o = p.original in
      let split = p.split_point_utc in
      move_answers o.event.id split id
        (where_ (λ a. leb split a.original_start_utc) o.occurrence_attendees)
        (move_exceptions o.event.id split id
          (where_ (λ x. leb split x.original_start_utc) o.exceptions)
          (copy_attendees id o.attendees s))

  -- `id` is the one that the database draws; none is an error, which undoes the transaction.
  unfoldable pub split_series :
      SplitSeriesParams → Uuid → Stored t → Option (EventDetail × Stored t)
  unfolding truncated_event tail_event relations
  split_series p id s =
      let o = p.original.event in
      elim (t.events.update (has_event_id o.id) (truncated_event p) s.events) [
        | none ↦ none
        | some events ↦ elim (t.events.create (tail_event p id) events) [
          | none ↦ none
          | some events' ↦
              let s' = moved p id (record s { events = events' }) in
              some (relations t s' (tail_event p id), s')
        ]
      ]
