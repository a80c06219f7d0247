-- ===== src/Planning/Store.antt =====
-- The four tables of prisma/planning.prisma, and an event with its relations.
use saas_backend_blueprint.Prelude.{Bool, ◌==◌, Option, none, some}
use saas_backend_blueprint.Platform.Table.{Table}
use saas_backend_blueprint.Members.Model.{Uuid}
use saas_backend_blueprint.Planning.Model.{
  Event, EventAttendee, EventOccurrenceAttendee, EventException, EventDetail, event_clash,
  attendee_clash, occurrence_attendee_clash, exception_clash,
}

pub record Tables : Type 1 where
  pub events : Table Event event_clash
  pub attendees : Table EventAttendee attendee_clash
  pub answers : Table EventOccurrenceAttendee occurrence_attendee_clash
  pub exceptions : Table EventException exception_clash

pub record Rows (E A O X : Type 0) : Type 0 where
  pub events : E
  pub attendees : A
  pub answers : O
  pub exceptions : X

abbrev pub has_event_id : Uuid → Event → Bool
has_event_id id e = e.id == id

abbrev pub of_event : Uuid → EventAttendee → Bool
of_event event a = a.event_id == event

abbrev pub answer_of_event : Uuid → EventOccurrenceAttendee → Bool
answer_of_event event a = a.event_id == event

abbrev pub exception_of_event : Uuid → EventException → Bool
exception_of_event event x = x.event_id == event

module _ (t : Tables) where
  abbrev pub Stored : Type 0
  Stored = Rows t.events.State t.attendees.State t.answers.State t.exceptions.State

  -- `include: { attendees, occurrenceAttendees, exceptions }`
  unfoldable pub relations : Stored → Event → EventDetail
  relations s e = record {
    event = e;
    attendees = t.attendees.find_many (of_event e.id) s.attendees;
    occurrence_attendees = t.answers.find_many (answer_of_event e.id) s.answers;
    exceptions = t.exceptions.find_many (exception_of_event e.id) s.exceptions;
  }

  abbrev pub with_relations : Stored → Option Event → Option EventDetail
  with_relations s none = none
  with_relations s (some e) = some (relations s e)
