-- ===== src/Planning/Service.antt =====
-- libs/planning/src/application/services/planning.service.ts: the methods on events. Those on the
-- occurrences of a series are in Planning/Series.antt, the inputs in Planning/Inputs.antt.
use saas_backend_blueprint.Prelude.{
  ℕ, String, Bool, not, ◌&&◌, leb, ltb, ◌==◌, List, [], ◌∷◌, ◌++◌, map, any, where_, Option, none,
  some, bad_request, forbidden, not_found, conflict, failure, Method, ◌>>=◌, ◌>>◌, return, throw,
  throw_if, modify, ask, or_throw, if◌then◌else◌,
}
use saas_backend_blueprint.Access.Roles.{MembershipRole}
use saas_backend_blueprint.Members.Model.{Uuid}
use saas_backend_blueprint.Planning.Model.{
  pending, yes_, Event, EventAttendee, EventDetail, EventOccurrence,
}
use saas_backend_blueprint.Planning.Rrule.{Rrule}
use saas_backend_blueprint.Planning.Recurrence
use saas_backend_blueprint.Planning.Recurrence.{or_value, rule_of}
use saas_backend_blueprint.Planning.Store.{Tables, Stored}
use saas_backend_blueprint.Planning.Repository
use saas_backend_blueprint.Planning.Repository.{
  UpdateEventData, Updated, done, missing, conflicting, SplitSeriesParams,
}
use saas_backend_blueprint.Planning.Inputs.{
  Entry, World, CreateEventInput, UpdateEventInput, new_event, is_admin_or_above, ids_or_none,
  others, users_of, ends_before, sort_by_start, is_bad_rule, rule_update,
}

module _ (r : Rrule) (t : Tables) where
  abbrev pub State : Type 0
  State = World (Stored t)

  abbrev pub in_stored : (Stored t → Stored t) → Method State (Unit {0})
  in_stored f = modify (λ w. record w { stored = f w.stored })

  abbrev pub notify : String → Uuid → Uuid → List Uuid → Method State (Unit {0})
  notify kind org event users = modify (λ w. record w {
    notices =
        map (λ user. record { user_id = user; org_id = org; kind = kind; event_id = event }) users
        ++ w.notices;
  })

  -- The activity log and the legal audit are told of one action.
  abbrev pub log : String → Uuid → Uuid → Uuid → Method State (Unit {0})
  log action org actor event = modify (λ w.
      let e : Entry = record {
        action = action;
        org_id = org;
        actor_id = actor;
        event_id = event;
      } in
      record w { activity = e ∷ w.activity; audit = e ∷ w.audit })

  unfoldable pub get_event : Uuid → Uuid → Method State EventDetail
  get_event org id w =
      or_throw (Repository.find_event_by_id t id org w.stored) (not_found "Event not found") w

  abbrev pub assert_can_modify : Event → Uuid → MembershipRole → Method State (Unit {0})
  assert_can_modify e actor role =
      throw_if (not (is_admin_or_above role) && not (e.created_by_user_id == actor))
        (forbidden "Only the event creator or an admin can modify this event")

  -- `for (const userId of ids) await upsertAttendee(event, userId, PENDING)`
  abbrev pub invite_all : Uuid → List Uuid → Stored t → Stored t
  invite_all event [] s = s
  invite_all event (user ∷ users) s =
      invite_all event users (Repository.upsert_attendee t event user pending s)

  abbrev pub created_in : Option (Stored t) → Method State (Unit {0})
  created_in none w = throw (failure "P2002") w
  created_in (some s) w = return tt (record w { stored = s })

  unfoldable pub create_event : Uuid → Uuid → Uuid → CreateEventInput → Method State EventDetail
  unfolding new_event
  create_event id org creator dto w =
      (do
        throw_if (is_bad_rule r dto.rrule) (bad_request "Invalid RRULE string")
        throw_if (leb dto.end_ dto.start) (bad_request "end must be after start")
        created_in (Repository.create_event t (new_event id org creator dto) w.stored)
        in_stored (Repository.upsert_attendee t id creator yes_)
        in_stored (invite_all id (others creator (ids_or_none dto.attendee_ids)))
        notify "event.invite" org id (others creator (ids_or_none dto.attendee_ids))
        log "planning.event.created" org creator id
        attendees ← ask (λ w'. Repository.find_attendees t id w'.stored)
        return (record {
          event = new_event id org creator dto;
          attendees = attendees;
          occurrence_attendees = [];
          exceptions = [];
        }))
        w

  abbrev pub expand_all : List EventDetail → ℕ → ℕ → List EventOccurrence
  expand_all [] from to = []
  expand_all (d ∷ ds) from to = Recurrence.expand r d from to ++ expand_all ds from to

  unfoldable pub list_events : Uuid → ℕ → ℕ → State → List EventOccurrence
  list_events org from to w =
      sort_by_start (expand_all (Repository.find_events_by_range t org from to w.stored) from to)

  unfoldable pub get_conflicts : Uuid → Uuid → ℕ → ℕ → State → List EventOccurrence
  get_conflicts org user start end w = sort_by_start (
      where_ (λ o. ltb o.start_utc end && ltb start o.end_utc)
        (expand_all (Repository.find_conflict_candidates t org user start end w.stored) start end))

  -- The outcome of an update on one version.
  abbrev pub updated_in : Updated (Stored t) → Method State EventDetail
  updated_in (done s d) w = return d (record w { stored = s })
  updated_in missing w = throw (not_found "Event not found") w
  updated_in conflicting w = throw (conflict "Event was modified by another request") w

  abbrev pub is_known : Uuid → List EventAttendee → Bool
  is_known user attendees = any (λ a. a.user_id == user) attendees

  -- `#syncAttendees`: the attendees become the ones listed, with the creator and the actor.
  unfoldable pub sync_attendees :
      Uuid → Uuid → List Uuid → EventDetail → EventDetail → Uuid → Method State EventDetail
  sync_attendees id org listed before updated actor =
      let creator = before.event.created_by_user_id in
      let invited = others creator (others actor listed) in
      let brand_new = where_ (λ user. not (is_known user updated.attendees)) invited in
      do
        in_stored (Repository.delete_attendees_excluding t id (creator ∷ actor ∷ invited))
        in_stored (invite_all id brand_new)
        notify "event.invite" org id brand_new
        get_event org id

  abbrev pub sync_or_keep :
      Option (List Uuid) → Uuid → Uuid → EventDetail → EventDetail → Uuid → Method State EventDetail
  sync_or_keep none id org before updated actor = return updated
  sync_or_keep (some ids) id org before updated actor =
      sync_attendees id org ids before updated actor

  abbrev pub finish_update :
      Uuid → Uuid → UpdateEventInput → Uuid → EventDetail → EventDetail → Method State EventDetail
  finish_update org id dto actor before written = do
    updated ← sync_or_keep dto.attendee_ids id org before written actor
    notify "event.updated" org id
        (if dto.notify_attendees then others actor (users_of updated.attendees) else [])
    log "planning.event.updated" org actor id
    return updated

  unfoldable pub update_event :
      Uuid → Uuid → UpdateEventInput → Uuid → MembershipRole → Method State EventDetail
  unfolding get_event sync_attendees
  update_event org id dto actor role w =
      (do
        before ← get_event org id
        assert_can_modify before.event actor role
        throw_if (is_bad_rule r (rule_update dto.fields.rrule)) (bad_request "Invalid RRULE string")
        throw_if (ends_before dto.fields.start_utc dto.fields.end_utc)
            (bad_request "end must be after start")
        written ← updated_in (Repository.update_event t id org dto.version dto.fields w.stored)
        finish_update org id dto actor before written)
        w

  unfoldable pub delete_event : Uuid → Uuid → Uuid → MembershipRole → ℕ → Method State (Unit {0})
  unfolding get_event
  delete_event org id actor role now = do
    d ← get_event org id
    assert_can_modify d.event actor role
    in_stored (Repository.soft_delete_event t id org now)
    notify "event.cancelled" org id (others actor (users_of d.attendees))
    log "planning.event.deleted" org actor id
