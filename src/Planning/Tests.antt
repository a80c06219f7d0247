-- ===== src/Planning/Tests.antt =====
-- Runs of the planning services at a concrete calendar.
use saas_backend_blueprint.Prelude.{
  true, ◌<◌, ◌≡◌, refl, ◌⊎◌, false, not, ◌&&◌, ◌||◌, leb, ◌==◌, [], ◌∷◌, none, some, any, Exception,
  ok, err, arith,
}
use saas_backend_blueprint.Access.Roles.{member, admin}
use saas_backend_blueprint.Planning.Model.{pending, yes_, EventDetail}
use saas_backend_blueprint.Planning.Recurrence.{
  rule_of, expand, is_within_cap, is_cancelled_at, strip_count_and_until, get_last_occurrence_date,
  truncate_rrule,
}
use saas_backend_blueprint.Planning.Store.{relations}
use saas_backend_blueprint.Planning.Repository
use saas_backend_blueprint.Planning.Repository.{UpdateEventData}
use saas_backend_blueprint.Planning.Inputs.{new_event}
use saas_backend_blueprint.Planning.Service
use saas_backend_blueprint.Planning.Series
use saas_backend_blueprint.Planning.Series.Laws.{after_split, split_series-ends, split_series-moves}
use saas_backend_blueprint.Planning.Reminders
use saas_backend_blueprint.Planning.Reminders.{Sweep}
use saas_backend_blueprint.Planning.Expansion.{is_at, expand-is_at}
use saas_backend_blueprint.Planning.Splitting.{exception_at}
use saas_backend_blueprint.Planning.Versions.{outsiders_change_nothing, update_event-stale, refusal}
use saas_backend_blueprint.Planning.Creation.{takes_part, created, create_event-get_event}
use saas_backend_blueprint.Planning.Marks.{IsMarked}
use saas_backend_blueprint.Planning.Once.{sweep-IsMarked}
use saas_backend_blueprint.Planning.Sample.{
  thrice, lists, series, renamed, organizer, calendar, world, update, cancel_second,
  split_at_second, party, detail,
}

expand-is_at_example : any (is_at 11000) (expand thrice detail 0 11500) ≡ (
    (leb 0 11000 && leb 11000 11500 && thrice.occurs "FREQ=SECONDLY" 10000 11000)
    && is_within_cap none 11000
    && not (is_cancelled_at 11000 detail.exceptions))
expand-is_at_example =
    expand-is_at thrice detail "FREQ=SECONDLY" 0 11500 (10000 ∷ 11000 ∷ []) 11000 refl refl
      (omega arith)

-- User 8, a member, did not create the series.
outsiders_change_nothing_example :
    (Service.update_event thrice lists 100 1 update 8 member world ≡ (err refusal, world))
    × (Service.delete_event thrice lists 100 1 8 member 5000 world ≡ (err refusal, world))
    × ((rule_of series.rrule ≡ none)
        ⊎ ((Series.create_exception thrice lists 100 1 cancel_second 8 member world
              ≡ (err refusal, world))
            × (Series.split_series thrice lists 2 100 1 split_at_second 8 member world
                ≡ (err refusal, world))))
outsiders_change_nothing_example =
    outsiders_change_nothing thrice lists 1 100 8 2 member 5000 update cancel_second split_at_second
      world series refl refl refl

-- The creator's update is done, that of an admin comes too late.
update_event-stale_example :
    (x : Exception) × (Service.update_event thrice lists 100 1 update 9 admin
        (Service.update_event thrice lists 100 1 update 7 member world).1
      ≡ (err x, (Service.update_event thrice lists 100 1 update 7 member world).1))
unfolding Service.update_event Repository.find_event_by_id Repository.update_event
update_event-stale_example =
    update_event-stale thrice lists 1 100 7 9 member admin update update world
      (record detail { event = record series { version = 2 } }) refl refl

create_event-get_event_example :
    (20000 < 30000)
    × (takes_part thrice lists 2 8 (created thrice lists 2 100 7 party world).stored
        ≡ (takes_part thrice lists 2 8 world.stored || 8 == 7 || any (λ i. i == 8) (8 ∷ [])))
    × ((Service.get_event thrice lists 100 2 (created thrice lists 2 100 7 party world)).0
        ≡ ok (
            relations lists
              (created thrice lists 2 100 7 party world).stored
              (new_event 2 100 7 party)))
unfolding new_event Service.create_event Repository.create_event Repository.find_attendees
    Repository.upsert_attendee
create_event-get_event_example =
    create_event-get_event thrice lists 2 100 7 8 party world
      (record {
        event = new_event 2 100 7 party;
        attendees =
            record { event_id = 2; user_id = 7; status = yes_ }
            ∷ record { event_id = 2; user_id = 8; status = pending }
            ∷ [];
        occurrence_attendees = [];
        exceptions = [];
      })
      refl

abbrev tail_of_series : EventDetail
tail_of_series = record {
  event = record series {
    id = 2;
    rrule = some "FREQ=SECONDLY";
    start_utc = 11000;
    end_utc = 11500;
  };
  attendees = record organizer { event_id = 2 } ∷ [];
  occurrence_attendees = [];
  exceptions = record renamed { event_id = 2 } ∷ [];
}

split_series-ends_example :
    any (is_at 12000) (
      expand thrice
        (relations lists
          (after_split thrice lists 2 100 1 split_at_second 7 member world).stored
          (record series { rrule = some "UNTIL"; rrule_until_utc = some 10999; version = 2 }))
        0
        20000)
    ≡ false
unfolding Series.split_series Repository.find_event_by_id expand Repository.split_series
    strip_count_and_until get_last_occurrence_date truncate_rrule
split_series-ends_example =
    split_series-ends thrice lists 2 100 1 7 member split_at_second world series
      (record series { rrule = some "UNTIL"; rrule_until_utc = some 10999; version = 2 })
      tail_of_series 11000 12000 0 20000 refl refl refl refl (omega arith) (omega arith)

split_series-moves_example :
    exception_at lists 2 12000
      (after_split thrice lists 2 100 1 split_at_second 7 member world).stored
    ≡ some (record renamed { event_id = 2 })
unfolding Series.split_series Repository.find_event_by_id expand Repository.split_series
    strip_count_and_until get_last_occurrence_date
split_series-moves_example =
    split_series-moves thrice lists 2 100 1 7 member split_at_second world series tail_of_series
      11000 2 12000 refl refl refl

-- Every notification gets to its user, and the database is there.
abbrev prompt : Reminders.Outside
prompt = record {
  State = Unit {0};
  notify_many_users =
      λ event x users s. record { reached = users; is_complete = true; outside = s };
  is_reachable = λ s. true;
}

-- At 11 seconds two reminders are due.
sweep-IsMarked_example : IsMarked thrice lists prompt 1 (
    Reminders.sweep thrice lists prompt 11000
      (record { stored = calendar; outside = tt; sent = [] }))
sweep-IsMarked_example =
    sweep-IsMarked thrice lists prompt 1 11000
      (record { stored = calendar; outside = tt; sent = [] })
      (record { mark = none; marked = refl; passed = refl; distinct = refl }) refl refl
