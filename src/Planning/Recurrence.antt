-- ===== src/Planning/Recurrence.antt =====
-- libs/planning/src/application/services/recurrence.service.ts.
use saas_backend_blueprint.Prelude.{
  ℕ, ◌+◌, ◌-◌, String, str_eq, Bool, true, false, ◌&&◌, leb, ◌==◌, List, [], ◌∷◌, map, Option, none,
  some, where_, take, find_last, if◌then◌else◌,
}
use saas_backend_blueprint.Members.Model.{Uuid}
use saas_backend_blueprint.Planning.Model.{
  EventAttendee, EventOccurrenceAttendee, EventException, EventDetail, EventOccurrence,
}
use saas_backend_blueprint.Planning.Rrule.{Rrule}

abbrev pub max_occurrences_per_query : ℕ
max_occurrences_per_query = 500

-- `a ?? b`
abbrev pub or_value {ℓ} : {A : Type ℓ} → Option A → A → A
or_value none b = b
or_value (some a) b = a

abbrev pub or_else {ℓ} : {A : Type ℓ} → Option A → Option A → Option A
or_else none b = b
or_else (some a) b = some a

-- `event.rrule` as a condition: the empty text is no rule.
abbrev pub rule_of : Option String → Option String
rule_of none = none
rule_of (some r) = if str_eq r "" then none else some r

abbrev pub is_some {ℓ} : {A : Type ℓ} → Option A → Bool
is_some none = false
is_some (some a) = true

-- The exception of an occurrence, by a Map from the original start.
abbrev pub exception_at : ℕ → List EventException → Option EventException
exception_at d exceptions = find_last (λ x. x.original_start_utc == d) exceptions

abbrev pub is_cancelled_at : ℕ → List EventException → Bool
is_cancelled_at d exceptions = elim (exception_at d exceptions) [
  | none ↦ false
  | some x ↦ x.is_cancelled
]

-- The answer of a user for an occurrence alone, by the Map of the original start.
abbrev pub override_of : ℕ → Uuid → List EventOccurrenceAttendee → Option EventOccurrenceAttendee
override_of d user answers = find_last (λ a. a.original_start_utc == d && a.user_id == user) answers

abbrev pub with_override : Option EventOccurrenceAttendee → EventAttendee → EventAttendee
with_override none a = a
with_override (some o) a = record a { status = o.status }

-- `exception?.…`
abbrev pub start_of : Option EventException → Option ℕ
start_of none = none
start_of (some x) = x.start_utc

abbrev pub end_of : Option EventException → Option ℕ
end_of none = none
end_of (some x) = x.end_utc

abbrev pub title_of : Option EventException → Option String
title_of none = none
title_of (some x) = x.title

abbrev pub description_of : Option EventException → Option String
description_of none = none
description_of (some x) = x.description

abbrev pub location_of : Option EventException → Option String
location_of none = none
location_of (some x) = x.location

abbrev pub cancelled_of : Option EventException → Bool
cancelled_of none = false
cancelled_of (some x) = x.is_cancelled

unfoldable pub build_occurrence :
    EventDetail
    → ℕ
    → ℕ
    → ℕ
    → Option EventException
    → (Uuid → Option EventOccurrenceAttendee)
    → EventOccurrence
build_occurrence d original start end x answer_of =
    let e = d.event in
    record {
      event_id = e.id;
      original_start_utc = original;
      start_utc = start;
      end_utc = end;
      title = or_value (title_of x) e.title;
      description = or_else (description_of x) e.description;
      location = or_else (location_of x) e.location;
      is_all_day = e.is_all_day;
      event_timezone = e.event_timezone;
      rrule = e.rrule;
      is_recurring = is_some (rule_of e.rrule);
      is_exception = is_some x;
      is_cancelled = cancelled_of x;
      created_by_user_id = e.created_by_user_id;
      org_id = e.org_id;
      version = e.version;
      attendees = map (λ a. with_override (answer_of a.user_id) a) d.attendees;
    }

-- The occurrence at a date of the rule: the length of the event is kept.
abbrev pub occurrence_at : EventDetail → ℕ → EventOccurrence
occurrence_at d date =
    let x = exception_at date d.exceptions in
    build_occurrence d date (or_value (start_of x) date)
      (or_value (end_of x) (date + d.event.end_utc - d.event.start_utc)) x
      (λ user. override_of date user d.occurrence_attendees)

-- The `for` loop over the dates: a cancelled occurrence is left out.
unfoldable pub occurrences_at : EventDetail → List ℕ → List EventOccurrence
occurrences_at d [] = []
occurrences_at d (date ∷ dates) =
    let rest = occurrences_at d dates in
    if is_cancelled_at date d.exceptions then rest else occurrence_at d date ∷ rest

-- `d.getTime() <= untilCap`, where no cap is Infinity
abbrev pub is_within_cap : Option ℕ → ℕ → Bool
is_within_cap none date = true
is_within_cap (some cap) date = leb date cap

abbrev pub capped : Option ℕ → List ℕ → List ℕ
capped cap dates = take max_occurrences_per_query (where_ (is_within_cap cap) dates)

-- A single event: whether it overlaps the window.
abbrev pub expand_single : EventDetail → ℕ → ℕ → List EventOccurrence
expand_single d from to =
    let e = d.event in
    if leb e.start_utc to && leb from e.end_utc
    then build_occurrence d e.start_utc e.start_utc e.end_utc none (λ user. none) ∷ []
    else []

module _ (r : Rrule) where
  abbrev pub expand_dates : EventDetail → Option (List ℕ) → List EventOccurrence
  expand_dates d none = []
  expand_dates d (some dates) = occurrences_at d (capped d.event.rrule_until_utc dates)

  unfoldable pub expand : EventDetail → ℕ → ℕ → List EventOccurrence
  unfolding build_occurrence occurrences_at
  expand d from to = elim (rule_of d.event.rrule) [
    | none ↦ expand_single d from to
    | some rule ↦ expand_dates d (r.between rule d.event.start_utc from to)
  ]

  unfoldable pub is_valid_rrule : String → Bool
  is_valid_rrule rule = r.is_parseable rule

  -- UNTIL is 1 ms before the split point.
  unfoldable pub truncate_rrule : String → ℕ → String
  truncate_rrule rule before = r.with_until (before - 1) (r.without_count_and_until rule)

  unfoldable pub strip_count_and_until : String → String
  strip_count_and_until rule = r.without_count_and_until rule

  unfoldable pub get_last_occurrence_date : String → ℕ → Option ℕ
  get_last_occurrence_date rule start = if r.has_end rule then r.last rule start else none
