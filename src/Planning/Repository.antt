-- ===== src/Planning/Repository.antt =====
-- libs/planning/src/infrastructure/repositories/planning.repository.ts. A `where` clause is a test on
-- rows, and `include` reads the related tables.
mod Split
unfoldable pub use Split.*
use saas_backend_blueprint.Prelude.{
  ℕ, suc, ◌-◌, String, Bool, true, false, not, ◌&&◌, ◌||◌, leb, ltb, ◌==◌, List, any, map, Option,
  none, some, if◌then◌else◌,
}
use saas_backend_blueprint.Members.Model.{Uuid}
use saas_backend_blueprint.Planning.Model.{
  RsvpStatus, Event, EventAttendee, EventOccurrenceAttendee, EventException, EventDetail,
}
use saas_backend_blueprint.Planning.Store.{
  Tables, Stored, relations, with_relations, of_event, exception_of_event, answer_of_event,
  has_event_id,
}

-- `where: { id, orgId, deletedAt: null }`
abbrev pub is_live : Option ℕ → Bool
is_live none = true
is_live (some t) = false

abbrev pub is_live_of : Uuid → Uuid → Event → Bool
is_live_of id org e = e.id == id && e.org_id == org && is_live e.deleted_at

-- `where: { id, orgId, version, deletedAt: null }`
abbrev pub is_version_of : Uuid → Uuid → ℕ → Event → Bool
is_version_of id org version e = is_live_of id org e && e.version == version

abbrev pub is_recurring : Event → Bool
is_recurring e = elim e.rrule [ none ↦ false | some r ↦ true ]

abbrev pub is_open_until : (ℕ → Bool) → Option ℕ → Bool
is_open_until p none = true
is_open_until p (some t) = p t

abbrev pub is_in_range : Uuid → ℕ → ℕ → Event → Bool
is_in_range org from to e =
    e.org_id == org
    && is_live e.deleted_at
    && (not (is_recurring e) && leb from e.start_utc && leb e.start_utc to
        || is_recurring e && leb e.start_utc to && is_open_until (leb from) e.rrule_until_utc)

-- What `updateEvent` writes; none is a field that is left out.
pub record UpdateEventData : Type 0 where
  pub title : Option String
  pub description : Option (Option String)
  pub location : Option (Option String)
  pub start_utc : Option ℕ
  pub end_utc : Option ℕ
  pub is_all_day : Option Bool
  pub event_timezone : Option String
  pub rrule : Option (Option String)
  pub rrule_until_utc : Option ℕ
  pub reminder_minutes : Option (Option ℕ)

abbrev pub or_kept {ℓ} : {A : Type ℓ} → Option A → A → A
or_kept none old = old
or_kept (some new) old = new

abbrev pub until_or_kept : Option ℕ → Option ℕ → Option ℕ
until_or_kept none old = old
until_or_kept (some t) old = some t

unfoldable pub updated_event : UpdateEventData → Event → Event
updated_event u e = record e {
  title = or_kept u.title e.title;
  description = or_kept u.description e.description;
  location = or_kept u.location e.location;
  start_utc = or_kept u.start_utc e.start_utc;
  end_utc = or_kept u.end_utc e.end_utc;
  is_all_day = or_kept u.is_all_day e.is_all_day;
  event_timezone = or_kept u.event_timezone e.event_timezone;
  rrule = or_kept u.rrule e.rrule;
  rrule_until_utc = until_or_kept u.rrule_until_utc e.rrule_until_utc;
  reminder_minutes = or_kept u.reminder_minutes e.reminder_minutes;
  version = suc e.version;
}

abbrev pub deleted_event : ℕ → Event → Event
deleted_event now e = record e { deleted_at = some now }

-- What an update of one version found.
pub data Updated (S : Type 0) : Type 0 where
  done : S → EventDetail → Updated S
  missing conflicting : Updated S

-- An event without a reminder, or whose occurrences are over, is left out.
abbrev pub has_reminder : ℕ → Event → Bool
has_reminder cutoff e = elim e.reminder_minutes [
  | none ↦ false
  | some m ↦
      is_live e.deleted_at
      && (not (is_recurring e) && is_live e.last_reminder_occurrence_utc && leb cutoff e.start_utc
          || is_recurring e && is_open_until (leb cutoff) e.rrule_until_utc)
]

abbrev pub is_attendee : Uuid → Uuid → EventAttendee → Bool
is_attendee event user a = a.event_id == event && a.user_id == user

abbrev pub attendee : Uuid → Uuid → RsvpStatus → EventAttendee
attendee event user status = record { event_id = event; user_id = user; status = status }

abbrev pub is_answer : Uuid → Uuid → ℕ → EventOccurrenceAttendee → Bool
is_answer event user original a =
    a.event_id == event && a.user_id == user && a.original_start_utc == original

abbrev pub is_left_out : Uuid → List Uuid → EventAttendee → Bool
is_left_out event keep a = a.event_id == event && not (any (λ user. user == a.user_id) keep)

abbrev pub is_exception_at : Uuid → ℕ → EventException → Bool
is_exception_at event original x = x.event_id == event && x.original_start_utc == original

-- A text is left out, null or given. The only caller gives both times, or null.
pub record UpsertExceptionData : Type 0 where
  pub event_id : Uuid
  pub original_start_utc : ℕ
  pub start_utc : Option ℕ
  pub end_utc : Option ℕ
  pub is_cancelled : Option Bool
  pub title : Option (Option String)
  pub description : Option (Option String)
  pub location : Option (Option String)

-- The row of `create`: what is left out is null.
abbrev pub created_exception : UpsertExceptionData → EventException
created_exception x = record {
  event_id = x.event_id;
  original_start_utc = x.original_start_utc;
  is_cancelled = or_kept x.is_cancelled false;
  start_utc = x.start_utc;
  end_utc = x.end_utc;
  title = or_kept x.title none;
  description = or_kept x.description none;
  location = or_kept x.location none;
}

-- The change of `update`: a text that is left out is kept, one that is null is removed.
abbrev pub replaced_by : UpsertExceptionData → EventException → EventException
replaced_by x old = record old {
  is_cancelled = or_kept x.is_cancelled false;
  start_utc = x.start_utc;
  end_utc = x.end_utc;
  title = or_kept x.title old.title;
  description = or_kept x.description old.description;
  location = or_kept x.location old.location;
}

module _ (t : Tables) where
  unfoldable pub create_event : Event → Stored t → Option (Stored t)
  create_event e s = elim (t.events.create e s.events) [
    | none ↦ none
    | some events ↦ some (record s { events = events })
  ]

  unfoldable pub find_event_by_id : Uuid → Uuid → Stored t → Option EventDetail
  unfolding relations
  find_event_by_id id org s = with_relations t s (t.events.find_first (is_live_of id org) s.events)

  unfoldable pub find_events_by_range : Uuid → ℕ → ℕ → Stored t → List EventDetail
  unfolding relations
  find_events_by_range org from to s =
      map (relations t s) (t.events.find_many (is_in_range org from to) s.events)

  -- The user is the creator or an attendee.
  abbrev pub takes_part : Uuid → Stored t → Event → Bool
  takes_part user s e =
      e.created_by_user_id == user
      || any (λ a. a.user_id == user) (t.attendees.find_many (of_event e.id) s.attendees)

  abbrev pub is_conflict_candidate : Uuid → Uuid → ℕ → ℕ → Stored t → Event → Bool
  is_conflict_candidate org user start end s e =
      e.org_id == org
      && is_live e.deleted_at
      && takes_part user s e
      && (not (is_recurring e) && ltb e.start_utc end && ltb start e.end_utc
          || is_recurring e && ltb e.start_utc end && is_open_until (ltb start) e.rrule_until_utc)

  unfoldable pub find_conflict_candidates : Uuid → Uuid → ℕ → ℕ → Stored t → List EventDetail
  unfolding relations
  find_conflict_candidates org user start end s =
      map (relations t s) (t.events.find_many (is_conflict_candidate org user start end s) s.events)

  unfoldable pub find_events_with_reminders : ℕ → Stored t → List EventDetail
  unfolding relations
  find_events_with_reminders cutoff s =
      map (relations t s) (t.events.find_many (has_reminder cutoff) s.events)

  unfoldable pub update_last_reminder_sent : Uuid → ℕ → Stored t → Option (Stored t)
  update_last_reminder_sent id occurrence s =
      elim (t.events.update (has_event_id id)
        (λ e. record e { last_reminder_occurrence_utc = some occurrence }) s.events) [
          | none ↦ none
          | some events ↦ some (record s { events = events })
        ]

  -- `findUniqueOrThrow` after the write
  abbrev pub reread : Uuid → Stored t → Updated (Stored t)
  reread id s = elim (with_relations t s (t.events.find_first (has_event_id id) s.events)) [
    | none ↦ missing
    | some d ↦ done s d
  ]

  -- `updateMany` on one version: the count of the rows that it wrote is that of the rows it selects.
  unfoldable pub update_event : Uuid → Uuid → ℕ → UpdateEventData → Stored t → Updated (Stored t)
  unfolding updated_event relations
  update_event id org version u s =
      if t.events.count_rows (is_version_of id org version) s.events == 0
      then elim (t.events.find_first (is_live_of id org) s.events) [
        | none ↦ missing
        | some e ↦ conflicting
      ]
      else reread id (record s {
        events = t.events.update_many (is_version_of id org version) (updated_event u) s.events;
      })

  unfoldable pub soft_delete_event : Uuid → Uuid → ℕ → Stored t → Stored t
  soft_delete_event id org now s = record s {
    events = t.events.update_many (is_live_of id org) (deleted_event now) s.events;
  }

  unfoldable pub upsert_attendee : Uuid → Uuid → RsvpStatus → Stored t → Stored t
  upsert_attendee event user status s = record s {
    attendees =
        t.attendees.upsert (is_attendee event user) (attendee event user status)
          (λ a. record a { status = status }) s.attendees;
  }

  unfoldable pub find_attendee : Uuid → Uuid → Stored t → Option EventAttendee
  find_attendee event user s = t.attendees.find_first (is_attendee event user) s.attendees

  unfoldable pub find_attendees : Uuid → Stored t → List EventAttendee
  find_attendees event s = t.attendees.find_many (of_event event) s.attendees

  unfoldable pub upsert_occurrence_attendee : Uuid → Uuid → ℕ → RsvpStatus → Stored t → Stored t
  upsert_occurrence_attendee event user original status s = record s {
    answers =
        t.answers.upsert (is_answer event user original)
          (record {
            event_id = event;
            user_id = user;
            original_start_utc = original;
            status = status;
          })
          (λ a. record a { status = status }) s.answers;
  }

  -- The row of the attendee, created where there is none.
  unfoldable pub ensure_attendee :
      Uuid → Uuid → RsvpStatus → Stored t → Option (EventAttendee × Stored t)
  ensure_attendee event user status s =
      elim (t.attendees.find_first (is_attendee event user) s.attendees) [
        | some a ↦ some (a, s)
        | none ↦ elim (t.attendees.create (attendee event user status) s.attendees) [
          | none ↦ none
          | some attendees ↦ some (attendee event user status, record s { attendees = attendees })
        ]
      ]

  unfoldable pub delete_attendees_excluding : Uuid → List Uuid → Stored t → Stored t
  delete_attendees_excluding event keep s = record s {
    attendees = t.attendees.delete_many (is_left_out event keep) s.attendees;
  }

  unfoldable pub upsert_exception : UpsertExceptionData → Stored t → Stored t
  upsert_exception x s = record s {
    exceptions =
        t.exceptions.upsert (is_exception_at x.event_id x.original_start_utc) (created_exception x)
          (replaced_by x) s.exceptions;
  }

  -- The row that the upsert answers with, read after it.
  unfoldable pub upserted_exception : UpsertExceptionData → Stored t → EventException
  upserted_exception x s =
      or_kept
        (t.exceptions.find_first (is_exception_at x.event_id x.original_start_utc) s.exceptions)
        (created_exception x)
