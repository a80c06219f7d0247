-- ===== src/Planning/Sample.antt =====
-- A calendar with one series, and requests to change it.
use saas_backend_blueprint.Prelude.{
  ℕ, ◌+◌, ◌≡◌, refl, Bool, true, false, ◌&&◌, leb, ◌==◌, List, [], ◌∷◌, none, some, any, where_,
  arith,
}
use saas_backend_blueprint.Platform.Table.{list_table}
use saas_backend_blueprint.Planning.Model.{
  yes_, Event, EventAttendee, EventException, EventDetail, event_clash, attendee_clash,
  occurrence_attendee_clash, exception_clash,
}
use saas_backend_blueprint.Planning.Rrule.{Rrule, in_order}
use saas_backend_blueprint.Planning.Store.{Tables, Stored}
use saas_backend_blueprint.Planning.Repository.{UpdateEventData}
use saas_backend_blueprint.Planning.Inputs.{
  World, CreateEventInput, UpdateEventInput, CreateExceptionInput, SplitSeriesInput,
}
use saas_backend_blueprint.Planning.Expansion.{any-where_-eq}
use saas_backend_blueprint.Planning.Ordering.{in_order-where_}

-- Every rule has three occurrences, a second apart.
abbrev pub three_dates : ℕ → List ℕ
three_dates start = start ∷ (start + 1000) ∷ (start + 2000) ∷ []

three_dates-order : (start : ℕ) → in_order (three_dates start) ≡ true
three_dates-order start = ground arith

abbrev pub is_inside : ℕ → ℕ → ℕ → Bool
is_inside from to d = leb from d && leb d to

pub between_lem :
    (start from to : ℕ) (dates : List ℕ) (d : ℕ)
    → some (where_ (is_inside from to) (three_dates start)) ≡ some dates
    → any (λ x. x == d) dates ≡ (leb from d && leb d to && any (λ x. x == d) (three_dates start))
between_lem start from to dates d e =
    ground (arith, e, any-where_-eq (is_inside from to) d (three_dates start))

pub order_lem :
    (start from to : ℕ) (dates : List ℕ)
    → some (where_ (is_inside from to) (three_dates start)) ≡ some dates
    → in_order dates ≡ true
order_lem start from to dates e =
    ground
      (arith, e, in_order-where_ (is_inside from to) (three_dates start) (three_dates-order start))

abbrev pub thrice : Rrule
thrice = record {
  occurs = λ rule start d. any (λ x. x == d) (three_dates start);
  is_parseable = λ rule. true;
  between = λ rule start from to. some (where_ (is_inside from to) (three_dates start));
  without_count_and_until = λ rule. rule;
  with_until = λ t rule. "UNTIL";
  has_end = λ rule. false;
  last = λ rule start. none;
  between_law = λ rule start from to dates d e. between_lem start from to dates d e;
  with_until_law = λ t rule. refl;
  between_order = λ rule start from to dates e. order_lem start from to dates e;
}

abbrev pub lists : Tables
lists = record {
  events = list_table event_clash;
  attendees = list_table attendee_clash;
  answers = list_table occurrence_attendee_clash;
  exceptions = list_table exception_clash;
}

-- A series of three, at 10, 11 and 12 seconds, of which the last is renamed.
abbrev pub series : Event
series = record {
  id = 1;
  org_id = 100;
  created_by_user_id = 7;
  title = "standup";
  description = none;
  location = none;
  start_utc = 10000;
  end_utc = 10500;
  is_all_day = false;
  event_timezone = "UTC";
  rrule = some "FREQ=SECONDLY";
  rrule_until_utc = none;
  version = 1;
  reminder_minutes = some 0;
  last_reminder_occurrence_utc = none;
  deleted_at = none;
}

abbrev pub renamed : EventException
renamed = record {
  event_id = 1;
  original_start_utc = 12000;
  is_cancelled = false;
  start_utc = none;
  end_utc = none;
  title = some "retro";
  description = none;
  location = none;
}

abbrev pub organizer : EventAttendee
organizer = record { event_id = 1; user_id = 7; status = yes_ }

abbrev pub calendar : Stored lists
calendar = record {
  events = series ∷ [];
  attendees = organizer ∷ [];
  answers = [];
  exceptions = renamed ∷ [];
}

abbrev pub world : World (Stored lists)
world = record { stored = calendar; notices = []; activity = []; audit = [] }

abbrev pub unchanged : UpdateEventData
unchanged = record {
  title = none;
  description = none;
  location = none;
  start_utc = none;
  end_utc = none;
  is_all_day = none;
  event_timezone = none;
  rrule = none;
  rrule_until_utc = none;
  reminder_minutes = none;
}

abbrev pub update : UpdateEventInput
update = record { fields = unchanged; version = 1; notify_attendees = true; attendee_ids = none }

abbrev pub cancel_second : CreateExceptionInput
cancel_second = record {
  original_start_utc = 11000;
  start_utc = none;
  end_utc = none;
  is_cancelled = some true;
  title = none;
  description = none;
  location = none;
}

abbrev pub split_at_second : SplitSeriesInput
split_at_second = record {
  original_start_utc = some 11000;
  version = 1;
  title = none;
  description = none;
  location = none;
  start_utc = none;
  end_utc = none;
}

abbrev pub party : CreateEventInput
party = record {
  title = "party";
  description = none;
  location = none;
  start = 20000;
  end_ = 30000;
  is_all_day = none;
  event_timezone = "UTC";
  rrule = none;
  rrule_until_utc = none;
  attendee_ids = some (8 ∷ []);
  reminder_minutes = none;
}

abbrev pub detail : EventDetail
detail = record {
  event = series;
  attendees = organizer ∷ [];
  occurrence_attendees = [];
  exceptions = renamed ∷ [];
}
