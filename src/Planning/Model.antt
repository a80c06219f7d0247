-- ===== src/Planning/Model.antt =====
-- prisma/planning.prisma and libs/planning/src/planning.types.ts. Times are in milliseconds. The
-- metadata of an event, JSON that no code reads, and the timestamps of creation and update are left out.
use saas_backend_blueprint.Prelude.{ℕ, String, Bool, ◌&&◌, ◌==◌, List, Option}
use saas_backend_blueprint.Members.Model.{Uuid}

pub data RsvpStatus : Type 0 where
  pending yes_ no_ maybe : RsvpStatus

pub record Event : Type 0 where
  pub id : Uuid
  pub org_id : Uuid
  pub created_by_user_id : Uuid
  pub title : String
  pub description : Option String
  pub location : Option String
  pub start_utc : ℕ
  pub end_utc : ℕ
  pub is_all_day : Bool
  pub event_timezone : String
  pub rrule : Option String
  pub rrule_until_utc : Option ℕ
  pub version : ℕ
  pub reminder_minutes : Option ℕ
  pub last_reminder_occurrence_utc : Option ℕ
  pub deleted_at : Option ℕ

pub record EventAttendee : Type 0 where
  pub event_id : Uuid
  pub user_id : Uuid
  pub status : RsvpStatus

pub record EventOccurrenceAttendee : Type 0 where
  pub event_id : Uuid
  pub user_id : Uuid
  pub original_start_utc : ℕ
  pub status : RsvpStatus

pub record EventException : Type 0 where
  pub event_id : Uuid
  pub original_start_utc : ℕ
  pub is_cancelled : Bool
  pub start_utc : Option ℕ
  pub end_utc : Option ℕ
  pub title : Option String
  pub description : Option String
  pub location : Option String

-- `@id`, `@@unique([eventId, userId])` and the unique keys of the other two
abbrev pub event_clash : Event → Event → Bool
event_clash e f = e.id == f.id

abbrev pub attendee_clash : EventAttendee → EventAttendee → Bool
attendee_clash a b = a.event_id == b.event_id && a.user_id == b.user_id

abbrev pub occurrence_attendee_clash : EventOccurrenceAttendee → EventOccurrenceAttendee → Bool
occurrence_attendee_clash a b =
    a.event_id == b.event_id
    && a.user_id == b.user_id
    && a.original_start_utc == b.original_start_utc

abbrev pub exception_clash : EventException → EventException → Bool
exception_clash a b = a.event_id == b.event_id && a.original_start_utc == b.original_start_utc

-- `EventWithRelations`
pub record EventDetail : Type 0 where
  pub event : Event
  pub attendees : List EventAttendee
  pub occurrence_attendees : List EventOccurrenceAttendee
  pub exceptions : List EventException

-- An occurrence with the values that it is shown with.
pub record EventOccurrence : Type 0 where
  pub event_id : Uuid
  pub original_start_utc : ℕ
  pub start_utc : ℕ
  pub end_utc : ℕ
  pub title : String
  pub description : Option String
  pub location : Option String
  pub is_all_day : Bool
  pub event_timezone : String
  pub rrule : Option String
  pub is_recurring : Bool
  pub is_exception : Bool
  pub is_cancelled : Bool
  pub created_by_user_id : Uuid
  pub org_id : Uuid
  pub version : ℕ
  pub attendees : List EventAttendee
