-- ===== src/Planning/Reminders.antt =====
-- libs/planning/src/application/services/planning-reminder-scheduler.service.ts. A sweep goes over the
-- candidates; an error of one is logged and the next goes on. The notifications of a
-- reminder are sent through an interface and may fail after some of the users have got theirs; their
-- text is left out.
use saas_backend_blueprint.Prelude.{
  ℕ, ◌+◌, ◌-◌, ◌*◌, Bool, true, false, leb, ltb, List, [], ◌∷◌, Option, none, some, Method, ◌>>◌,
  return, throw, failure, if◌then◌else◌,
}
use saas_backend_blueprint.Members.Model.{Uuid}
use saas_backend_blueprint.Planning.Model.{Event, EventDetail, EventOccurrence}
use saas_backend_blueprint.Planning.Rrule.{Rrule}
use saas_backend_blueprint.Planning.Recurrence
use saas_backend_blueprint.Planning.Recurrence.{or_value, rule_of}
use saas_backend_blueprint.Planning.Store.{Tables, Stored}
use saas_backend_blueprint.Planning.Repository
use saas_backend_blueprint.Planning.Inputs.{users_of}

-- `notifyManyUsers` for an occurrence of an event, by its ids and the users: the users who got the
-- notification, and whether all calls were answered without an error.
pub record Delivery (X : Type 0) : Type 0 where
  pub reached : List Uuid
  pub is_complete : Bool
  pub outside : X

-- The notifications, and whether the database can be reached for the write after them.
pub record Outside : Type 1 where
  pub State : Type 0
  pub notify_many_users : Uuid → ℕ → List Uuid → State → Delivery State
  pub is_reachable : State → Bool

-- A reminder that users of an event got for an occurrence; `is_recorded` is that the event was marked
-- after it.
pub record Reminder : Type 0 where
  pub event_id : Uuid
  pub occurrence : ℕ
  pub user_ids : List Uuid
  pub is_recorded : Bool

pub record Sweep (S X : Type 0) : Type 0 where
  pub stored : S
  pub outside : X
  pub sent : List Reminder

abbrev pub max_reminder_minutes : ℕ
max_reminder_minutes = 1440

abbrev pub lookahead : ℕ
lookahead = max_reminder_minutes * 60000

-- `occStart <= lastReminderOccurrenceUtc`, where null is not reached
abbrev pub is_reminded : Option ℕ → ℕ → Bool
is_reminded none start = false
is_reminded (some last) start = leb start last

-- `now < start - reminder`
abbrev pub is_early : ℕ → ℕ → ℕ → Bool
is_early now ahead start = ltb (now + ahead) start

module _ (r : Rrule) (t : Tables) (x : Outside) where
  abbrev pub State : Type 0
  State = Sweep (Stored t) x.State

  -- The reminder as it was delivered.
  abbrev pub with_reminder : Event → ℕ → Bool → Delivery x.State → State → State
  with_reminder e occurrence recorded d w = record w {
    outside = d.outside;
    sent =
        record {
          event_id = e.id;
          occurrence = occurrence;
          user_ids = d.reached;
          is_recorded = recorded;
        }
        ∷ w.sent;
  }

  -- `updateLastReminderSent`; where it throws, the notifications stay sent.
  abbrev pub recorded_in :
      Option (Stored t) → Event → ℕ → Delivery x.State → Method State (Unit {0})
  recorded_in none e occurrence d w =
      throw (failure "updateLastReminderSent") (with_reminder e occurrence false d w)
  recorded_in (some s) e occurrence d w =
      if x.is_reachable d.outside
      then return tt (record (with_reminder e occurrence true d w) { stored = s })
      else throw (failure "updateLastReminderSent") (with_reminder e occurrence false d w)

  abbrev pub delivered : Event → ℕ → Delivery x.State → Method State (Unit {0})
  delivered e occurrence d w =
      if d.is_complete
      then recorded_in (Repository.update_last_reminder_sent t e.id occurrence w.stored) e
          occurrence d w
      else throw (failure "notifyManyUsers") (with_reminder e occurrence false d w)

  unfoldable pub send_reminder : Event → ℕ → List Uuid → Method State (Unit {0})
  send_reminder e occurrence users w =
      delivered e occurrence (x.notify_many_users e.id occurrence users w.outside) w

  -- The `for` loop over the occurrences, which are taken to be in order.
  unfoldable pub remind_all :
      EventDetail → ℕ → ℕ → List Uuid → List EventOccurrence → Method State (Unit {0})
  unfolding send_reminder
  remind_all d now ahead users [] w = return tt w
  remind_all d now ahead users (o ∷ os) w =
      let later = remind_all d now ahead users os in
      if o.is_cancelled
      then later w
      else if is_reminded d.event.last_reminder_occurrence_utc o.start_utc
      then later w
      else if is_early now ahead o.start_utc
      then return tt w
      else (send_reminder d.event o.start_utc users >> later) w

  unfoldable pub process_recurring_occurrences :
      EventDetail → ℕ → ℕ → List Uuid → Method State (Unit {0})
  unfolding remind_all
  process_recurring_occurrences d now ahead users = remind_all d now ahead users (
      Recurrence.expand r d (or_value d.event.last_reminder_occurrence_utc d.event.start_utc)
        (now + lookahead))

  -- A single event is reminded of once.
  abbrev pub process_single : EventDetail → ℕ → ℕ → List Uuid → Method State (Unit {0})
  process_single d now ahead users w = elim d.event.last_reminder_occurrence_utc [
    | some last ↦ return tt w
    | none ↦
        if is_early now ahead d.event.start_utc
        then return tt w
        else send_reminder d.event d.event.start_utc users w
  ]

  abbrev pub process_rule : Option ℕ → List Uuid → EventDetail → ℕ → Method State (Unit {0})
  process_rule none users d now w = return tt w
  process_rule (some minutes) [] d now w = return tt w
  process_rule (some minutes) (user ∷ users) d now w = elim (rule_of d.event.rrule) [
    | some rule ↦ process_recurring_occurrences d now (minutes * 60000) (user ∷ users) w
    | none ↦ process_single d now (minutes * 60000) (user ∷ users) w
  ]

  unfoldable pub process_event : EventDetail → ℕ → Method State (Unit {0})
  unfolding process_recurring_occurrences send_reminder
  process_event d now = process_rule d.event.reminder_minutes (users_of d.attendees) d now

  -- The error of one event is caught.
  unfoldable pub process_all : List EventDetail → ℕ → State → State
  process_all [] now w = w
  process_all (d ∷ ds) now w = process_all ds now (process_event d now w).1

  unfoldable pub sweep : ℕ → State → State
  unfolding process_all
  sweep now w =
      process_all (Repository.find_events_with_reminders t (now - lookahead) w.stored) now w
