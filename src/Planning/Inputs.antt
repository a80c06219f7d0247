-- ===== src/Planning/Inputs.antt =====
-- libs/planning/src/application/services/planning.service.ts: the inputs of its methods, what they
-- leave behind, and their tests on values. A date of a request is its number; where the code tests for
-- an invalid date, none is one. The notifications that are sent without waiting are kept with their
-- user, organization, event and type; the display name in their text is left out.
use saas_backend_blueprint.Prelude.{
  ℕ, String, Bool, true, false, not, leb, ◌==◌, List, [], ◌∷◌, map, where_, Option, none, some,
  if◌then◌else◌,
}
use saas_backend_blueprint.Access.Roles.{MembershipRole, owner, admin}
use saas_backend_blueprint.Members.Model.{Uuid}
use saas_backend_blueprint.Planning.Model.{Event, EventAttendee, EventOccurrence}
use saas_backend_blueprint.Planning.Rrule.{Rrule}
use saas_backend_blueprint.Planning.Recurrence
use saas_backend_blueprint.Planning.Recurrence.{or_value, rule_of}
use saas_backend_blueprint.Planning.Repository.{UpdateEventData}

pub record Notice : Type 0 where
  pub user_id : Uuid
  pub org_id : Uuid
  pub kind : String
  pub event_id : Uuid

-- An entry of the activity log and of the legal audit.
pub record Entry : Type 0 where
  pub action : String
  pub org_id : Uuid
  pub actor_id : Uuid
  pub event_id : Uuid

pub record World (S : Type 0) : Type 0 where
  pub stored : S
  pub notices : List Notice
  pub activity : List Entry
  pub audit : List Entry

pub record CreateEventInput : Type 0 where
  pub title : String
  pub description : Option String
  pub location : Option String
  pub start : ℕ
  pub end_ : ℕ
  pub is_all_day : Option Bool
  pub event_timezone : String
  pub rrule : Option String
  pub rrule_until_utc : Option ℕ
  pub attendee_ids : Option (List Uuid)
  pub reminder_minutes : Option ℕ

-- `fields` are those of the row; a `rruleUntilUtc` that is null counts as left out.
pub record UpdateEventInput : Type 0 where
  pub fields : UpdateEventData
  pub version : ℕ
  pub notify_attendees : Bool
  pub attendee_ids : Option (List Uuid)

pub record CreateExceptionInput : Type 0 where
  pub original_start_utc : ℕ
  pub start_utc : Option ℕ
  pub end_utc : Option ℕ
  pub is_cancelled : Option Bool
  pub title : Option (Option String)
  pub description : Option (Option String)
  pub location : Option (Option String)

pub record SplitSeriesInput : Type 0 where
  pub original_start_utc : Option ℕ
  pub version : ℕ
  pub title : Option String
  pub description : Option String
  pub location : Option String
  pub start_utc : Option ℕ
  pub end_utc : Option ℕ

-- The row of a new event; `id` is what the database draws.
unfoldable pub new_event : Uuid → Uuid → Uuid → CreateEventInput → Event
new_event id org creator dto = record {
  id = id;
  org_id = org;
  created_by_user_id = creator;
  title = dto.title;
  description = dto.description;
  location = dto.location;
  start_utc = dto.start;
  end_utc = dto.end_;
  is_all_day = or_value dto.is_all_day false;
  event_timezone = dto.event_timezone;
  rrule = dto.rrule;
  rrule_until_utc = dto.rrule_until_utc;
  version = 1;
  reminder_minutes = dto.reminder_minutes;
  last_reminder_occurrence_utc = none;
  deleted_at = none;
}

abbrev pub is_admin_or_above : MembershipRole → Bool
is_admin_or_above owner = true
is_admin_or_above admin = true
is_admin_or_above _ = false

abbrev pub ids_or_none : Option (List Uuid) → List Uuid
ids_or_none none = []
ids_or_none (some ids) = ids

-- `userIds.filter(id => id !== user)`
abbrev pub others : Uuid → List Uuid → List Uuid
others user ids = where_ (λ id. not (id == user)) ids

abbrev pub users_of : List EventAttendee → List Uuid
users_of attendees = map (λ a. a.user_id) attendees

-- `startUtc && endUtc && endUtc <= startUtc`
abbrev pub ends_before : Option ℕ → Option ℕ → Bool
ends_before (some start) (some end) = leb end start
ends_before _ _ = false

-- `Array.prototype.sort` by the start, which is stable.
abbrev insert_by_start : EventOccurrence → List EventOccurrence → List EventOccurrence
insert_by_start o [] = o ∷ []
insert_by_start o (q ∷ qs) =
    if leb o.start_utc q.start_utc then o ∷ q ∷ qs else q ∷ insert_by_start o qs

abbrev pub sort_by_start : List EventOccurrence → List EventOccurrence
sort_by_start [] = []
sort_by_start (o ∷ os) = insert_by_start o (sort_by_start os)

-- `if (dto.rrule && !isValidRrule(dto.rrule))`
abbrev pub is_bad_rule : Rrule → Option String → Bool
is_bad_rule r rule = elim (rule_of rule) [
  | none ↦ false
  | some text ↦ not (Recurrence.is_valid_rrule r text)
]

abbrev pub rule_update : Option (Option String) → Option String
rule_update none = none
rule_update (some rule) = rule
