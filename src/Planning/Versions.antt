-- ===== src/Planning/Versions.antt =====
-- Who may change an event, and which of two requests wins:
-- libs/planning/src/application/services/planning.service.ts.
use saas_backend_blueprint.Prelude.{
  ℕ, ◌≡◌, ◌⊎◌, inl, inr, refl, false, not, ◌&&◌, ◌==◌, List, [], ◌∷◌, Option, none, some, count,
  find, update_where, Exception, bad_request, ok, err, forbidden, not_found, conflict, where_, ap,
  ◌∙◌, arith, Option-cases, Bool-cases,
}
use saas_backend_blueprint.Access.Roles.{MembershipRole}
use saas_backend_blueprint.Members.Model.{Uuid}
use saas_backend_blueprint.Planning.Model.{pending, Event, EventDetail}
use saas_backend_blueprint.Planning.Rrule.{Rrule}
use saas_backend_blueprint.Planning.Recurrence.{rule_of}
use saas_backend_blueprint.Planning.Store.{Tables, Stored, relations}
use saas_backend_blueprint.Planning.Repository
use saas_backend_blueprint.Planning.Repository.{
  UpdateEventData, Updated, done, missing, conflicting, is_live_of, is_version_of, updated_event,
}
use saas_backend_blueprint.Planning.Inputs.{
  UpdateEventInput, CreateExceptionInput, SplitSeriesInput, is_admin_or_above, others, is_bad_rule,
  rule_update, ends_before,
}
use saas_backend_blueprint.Planning.Service
use saas_backend_blueprint.Planning.Service.{State}
use saas_backend_blueprint.Planning.Series

count-update_where-version :
    (id org : Uuid) (version : ℕ) (u : UpdateEventData) (xs : List Event)
    → count
        (is_version_of id org version)
        (update_where (is_version_of id org version) (updated_event u) xs)
      ≡ 0
unfolding updated_event
count-update_where-version id org version u [] = refl
count-update_where-version id org version u (e ∷ xs) =
    ground (arith, count-update_where-version id org version u xs)

-- The exception for a person who may not change an event.
abbrev pub refusal : Exception
refusal = forbidden "Only the event creator or an admin can modify this event"

module _ (r : Rrule) (t : Tables) where
  abbrev pub events : State r t → List Event
  events w = t.events.rows w.stored.events

  -- Someone who is neither the creator of an event nor an admin or the owner of its organization can
  -- neither change nor delete it, nor, where it is a series, change one of its occurrences or split it:
  -- each request is refused and leaves everything as it was.
  pub outsiders_change_nothing :
      (id org actor new_id : Uuid) (role : MembershipRole) (now : ℕ) (dto : UpdateEventInput)
      (x : CreateExceptionInput) (sp : SplitSeriesInput) (w : State r t) (e : Event)
      → find (is_live_of id org) (events w) ≡ some e
      → is_admin_or_above role ≡ false
      → (e.created_by_user_id == actor) ≡ false
      → (Service.update_event r t org id dto actor role w ≡ (err refusal, w))
        × (Service.delete_event r t org id actor role now w ≡ (err refusal, w))
        × ((rule_of e.rrule ≡ none)
            ⊎ ((Series.create_exception r t org id x actor role w ≡ (err refusal, w))
                × (Series.split_series r t new_id org id sp actor role w ≡ (err refusal, w))))
  unfolding Service.update_event Service.delete_event Series.create_exception Series.split_series
      Service.get_event Repository.find_event_by_id
  outsiders_change_nothing id org actor new_id role now dto x sp w e found low other =
      let law = t.events.find_first_law (is_live_of id org) w.stored.events in
      (
        ground (arith, found, low, other, law),
        ground (arith, found, low, other, law),
        elim (Option-cases (rule_of e.rrule)) [
          | inl no_rule ↦ inl no_rule
          | inr (rule, is_rule) ↦ inr (
            ground (arith, found, low, other, law, is_rule),
            ground (arith, found, low, other, law, is_rule),
          )
        ],
      )

  invite_all-events :
      (event : Uuid) (users : List Uuid) (s : Stored t)
      → (Service.invite_all r t event users s).events ≡ s.events
  unfolding Repository.upsert_attendee
  invite_all-events event [] s = refl
  invite_all-events event (user ∷ users) s =
      invite_all-events event users (Repository.upsert_attendee t event user pending s)

  get_event-stored : (org id : Uuid) (w : State r t) → (Service.get_event r t org id w).1 ≡ w
  unfolding Service.get_event Repository.find_event_by_id
  get_event-stored org id w = ground (arith, Service.get_event r t org id w)

  sync_or_keep-events :
      (ids : Option (List Uuid)) (id org : Uuid) (before updated : EventDetail) (actor : Uuid)
      (w : State r t)
      → (Service.sync_or_keep r t ids id org before updated actor w).1.stored.events
        ≡ w.stored.events
  unfolding Service.sync_attendees Service.get_event Repository.delete_attendees_excluding
      Repository.find_event_by_id Repository.upsert_attendee
  sync_or_keep-events none id org before updated actor w = refl
  sync_or_keep-events (some ids) id org before updated actor w =
      let creator = before.event.created_by_user_id in
      let listed = others creator (others actor ids) in
      let brand_new = where_ (λ user. not (Service.is_known r t user updated.attendees)) listed in
      let kept = Repository.delete_attendees_excluding t id (creator ∷ actor ∷ listed) w.stored in
      let invited = Service.invite_all r t id brand_new kept in
      let told =
        (Service.notify r t "event.invite" org id brand_new (record w { stored = invited })).1 in
      ap (λ w'. w'.stored.events) (get_event-stored org id told)
      ∙ invite_all-events id brand_new kept

  finish_update-events :
      (org id : Uuid) (dto : UpdateEventInput) (actor : Uuid) (before written : EventDetail)
      (w : State r t)
      → (Service.finish_update r t org id dto actor before written w).1.stored.events
        ≡ w.stored.events
  finish_update-events org id dto actor before written w =
      ground (arith, sync_or_keep-events dto.attendee_ids id org before written actor w)

  update_event-rows :
      (id org : Uuid) (version : ℕ) (u : UpdateEventData) (s s' : Stored t) (d : EventDetail)
      → Repository.update_event t id org version u s ≡ done s' d
      → s'.events ≡ t.events.update_many (is_version_of id org version) (updated_event u) s.events
  unfolding Repository.update_event
  update_event-rows id org version u s s' d e = ground (arith, e)

  Updated-cases :
      (u : Updated (Stored t))
      → ((s : Stored t) × (d : EventDetail) × (u ≡ done s d)) ⊎ ((u ≡ missing) ⊎ (u ≡ conflicting))
  Updated-cases (done s d) = inl (s, d, refl)
  Updated-cases missing = inr (inl refl)
  Updated-cases conflicting = inr (inr refl)

  -- An update that succeeds writes the rows of its version.
  update_event-written :
      (id org actor : Uuid) (role : MembershipRole) (dto : UpdateEventInput) (w : State r t)
      (d : EventDetail)
      → (Service.update_event r t org id dto actor role w).0 ≡ ok d
      → (Service.update_event r t org id dto actor role w).1.stored.events
        ≡ t.events.update_many
            (is_version_of id org dto.version)
            (updated_event dto.fields)
            w.stored.events
  unfolding Service.update_event Service.get_event Repository.find_event_by_id
  update_event-written id org actor role dto w d e =
      elim (Option-cases (t.events.find_first (is_live_of id org) w.stored.events)) [
        | inl f ↦ ground (arith, e, f)
        | inr (b, f) ↦
            elim (Updated-cases
              (Repository.update_event t id org dto.version dto.fields w.stored)) [
                | inl (s, d', u) ↦ ground (
                  arith,
                  e,
                  f,
                  u,
                  update_event-rows id org dto.version dto.fields w.stored s d' u,
                  finish_update-events org id dto actor (relations t w.stored b) d'
                      (record w { stored = s }),
                )
                | inr u ↦ ground (arith, e, f, u)
              ]
      ]

  update_event-no_version :
      (id org actor : Uuid) (role : MembershipRole) (dto : UpdateEventInput) (w : State r t)
      → count (is_version_of id org dto.version) (events w) ≡ 0
      → (x : Exception) × (Service.update_event r t org id dto actor role w ≡ (err x, w))
  unfolding Service.update_event Service.get_event Repository.find_event_by_id
      Repository.update_event
  update_event-no_version id org actor role dto w gone =
      let law = t.events.count_rows_law (is_version_of id org dto.version) w.stored.events in
      elim (Option-cases (t.events.find_first (is_live_of id org) w.stored.events)) [
        | inl f ↦ (not_found "Event not found", ground (arith, f))
        | inr (b, f) ↦
            elim (Bool-cases
              (not (is_admin_or_above role) && not (b.created_by_user_id == actor))) [
                | inl low ↦ (refusal, ground (arith, f, low))
                | inr high ↦ elim (Bool-cases (is_bad_rule r (rule_update dto.fields.rrule))) [
                  | inl bad ↦ (bad_request "Invalid RRULE string", ground (arith, f, high, bad))
                  | inr good ↦
                      elim (Bool-cases (ends_before dto.fields.start_utc dto.fields.end_utc)) [
                        | inl early ↦ (
                          bad_request "end must be after start",
                          ground (arith, f, high, good, early),
                        )
                        | inr late ↦ (
                          conflict "Event was modified by another request",
                          ground (arith, f, high, good, late, law, gone),
                        )
                      ]
                ]
              ]
      ]

  -- Of two updates that carry the same version of an event only one is done: after an update that
  -- succeeds, any other with that version, whoever sends it, fails and leaves everything as it was.
  pub update_event-stale :
      (id org actor other : Uuid) (role role' : MembershipRole) (dto late : UpdateEventInput)
      (w : State r t) (d : EventDetail)
      → (Service.update_event r t org id dto actor role w).0 ≡ ok d
      → late.version ≡ dto.version
      → (x : Exception) × (Service.update_event r t org id late other role'
            (Service.update_event r t org id dto actor role w).1
          ≡ (err x, (Service.update_event r t org id dto actor role w).1))
  update_event-stale id org actor other role role' dto late w d e same =
      let w' = (Service.update_event r t org id dto actor role w).1 in
      update_event-no_version id org other role' late w' (
        ap (λ v. count (is_version_of id org v) (events w')) same
        ∙ ap (λ s. count (is_version_of id org dto.version) (t.events.rows s))
            (update_event-written id org actor role dto w d e)
        ∙ ap (count (is_version_of id org dto.version)) (
            t.events.update_many_law (is_version_of id org dto.version) (updated_event dto.fields)
              w.stored.events)
        ∙ count-update_where-version id org dto.version dto.fields (events w))
