-- ===== src/Planning/Creation.antt =====
-- What the creation of an event leaves in the tables:
-- libs/planning/src/application/services/planning.service.ts.
use saas_backend_blueprint.Prelude.{
  ◌<◌, ◌≡◌, refl, Bool, true, false, ◌||◌, ◌==◌, List, [], ◌∷◌, inl, inr, none, some, any, find,
  any-append, find-append, update_where, ok, arith, Option-cases,
}
use saas_backend_blueprint.Members.Model.{Uuid}
use saas_backend_blueprint.Planning.Model.{
  RsvpStatus, pending, yes_, Event, EventAttendee, EventDetail, event_clash,
}
use saas_backend_blueprint.Planning.Rrule.{Rrule}
use saas_backend_blueprint.Planning.Store.{Tables, Stored, relations}
use saas_backend_blueprint.Planning.Repository
use saas_backend_blueprint.Planning.Repository.{is_live, is_live_of, is_attendee, attendee}
use saas_backend_blueprint.Planning.Inputs.{CreateEventInput, new_event, ids_or_none, others}
use saas_backend_blueprint.Planning.Service
use saas_backend_blueprint.Planning.Service.{State}

any-is_attendee-update :
    (event user u : Uuid) (status : RsvpStatus) (xs : List EventAttendee)
    → any
        (is_attendee event u)
        (update_where (is_attendee event user) (λ a. record a { status = status }) xs)
      ≡ any (is_attendee event u) xs
any-is_attendee-update event user u status [] = refl
any-is_attendee-update event user u status (a ∷ xs) =
    ground (arith, any-is_attendee-update event user u status xs)

any-is_attendee-same :
    (event user u : Uuid) (xs : List EventAttendee)
    → any (is_attendee event user) xs ≡ true
    → (u == user) ≡ true
    → any (is_attendee event u) xs ≡ true
any-is_attendee-same event user u [] h same = h
any-is_attendee-same event user u (a ∷ xs) h same =
    ground (arith, h, same, any-is_attendee-same event user u xs)

any-others :
    (creator u : Uuid) (ids : List Uuid)
    → (u == creator || any (λ id. id == u) (others creator ids))
      ≡ (u == creator || any (λ id. id == u) ids)
any-others creator u [] = refl
any-others creator u (id ∷ ids) = ground (arith, any-others creator u ids)

find-no_clash :
    (e : Event) (org : Uuid) (xs : List Event)
    → any (event_clash e) xs ≡ false
    → find (is_live_of e.id org) xs ≡ none
find-no_clash e org [] h = refl
find-no_clash e org (x ∷ xs) h = ground (arith, h, find-no_clash e org xs)

module _ (r : Rrule) (t : Tables) where
  -- A user has a row for the event.
  abbrev pub takes_part : Uuid → Uuid → Stored t → Bool
  takes_part event user s = any (is_attendee event user) (t.attendees.rows s.attendees)

  upsert_attendee-takes_part :
      (event user u : Uuid) (status : RsvpStatus) (s : Stored t)
      → takes_part event u (Repository.upsert_attendee t event user status s)
        ≡ (takes_part event u s || u == user)
  unfolding Repository.upsert_attendee
  upsert_attendee-takes_part event user u status s =
      let xs = t.attendees.rows s.attendees in
      ground (
        arith,
        t.attendees.upsert_law (is_attendee event user) (attendee event user status)
            (λ a. record a { status = status }) s.attendees,
        any-is_attendee-update event user u status xs,
        any-is_attendee-same event user u xs,
        any-append (is_attendee event u) xs (attendee event user status ∷ []),
      )

  invite_all-takes_part :
      (event u : Uuid) (users : List Uuid) (s : Stored t)
      → takes_part event u (Service.invite_all r t event users s)
        ≡ (takes_part event u s || any (λ id. id == u) users)
  invite_all-takes_part event u [] s = ground arith
  invite_all-takes_part event u (user ∷ users) s = ground (
    arith,
    upsert_attendee-takes_part event user u pending s,
    invite_all-takes_part event u users (Repository.upsert_attendee t event user pending s),
  )

  abbrev pub events : State r t → List Event
  events w = t.events.rows w.stored.events

  invite_all-events :
      (event : Uuid) (users : List Uuid) (s : Stored t)
      → (Service.invite_all r t event users s).events ≡ s.events
  unfolding Repository.upsert_attendee
  invite_all-events event [] s = refl
  invite_all-events event (user ∷ users) s =
      invite_all-events event users (Repository.upsert_attendee t event user pending s)

  -- What a creation leaves.
  abbrev pub created : Uuid → Uuid → Uuid → CreateEventInput → State r t → State r t
  created id org creator dto w = (Service.create_event r t id org creator dto w).1

  find-create :
      (new : Event) (es : t.events.State) (s : t.events.State)
      → is_live new.deleted_at ≡ true
      → t.events.create new s ≡ some es
      → find (is_live_of new.id new.org_id) (t.events.rows es) ≡ some new
  find-create new es s live f =
      let xs = t.events.rows s in
      ground (
        arith,
        live,
        f,
        t.events.create_law new s,
        find-no_clash new new.org_id xs,
        find-append (is_live_of new.id new.org_id) xs (new ∷ []),
      )

  -- The creation of an event that succeeds gives an event that ends after it starts, of which the
  -- creator and the invited users, and no one else, have become attendees, and which the organization
  -- then finds under its id.
  pub create_event-get_event :
      (id org creator u : Uuid) (dto : CreateEventInput) (w : State r t) (d : EventDetail)
      → (Service.create_event r t id org creator dto w).0 ≡ ok d
      → (d.event.start_utc < d.event.end_utc)
        × (takes_part id u (created id org creator dto w).stored ≡ (
            takes_part id u w.stored
            || u == creator
            || any (λ i. i == u) (ids_or_none dto.attendee_ids)))
        × ((Service.get_event r t org id (created id org creator dto w)).0
            ≡ ok (relations t (created id org creator dto w).stored d.event))
  unfolding Service.create_event Service.get_event Repository.create_event
      Repository.find_event_by_id new_event Repository.upsert_attendee
  create_event-get_event id org creator u dto w d e =
      let new = new_event id org creator dto in
      elim (Option-cases (t.events.create new w.stored.events)) [
        | inl f ↦ (ground (arith, e, f), ground (arith, e, f), ground (arith, e, f))
        | inr (es, f) ↦
            let s =
              Repository.upsert_attendee t id creator yes_ (record w.stored { events = es }) in
            let users = others creator (ids_or_none dto.attendee_ids) in
            (
              ground (arith, e, f),
              ground (
                arith,
                e,
                f,
                upsert_attendee-takes_part id creator u yes_ (record w.stored { events = es }),
                invite_all-takes_part id u users s,
                any-others creator u (ids_or_none dto.attendee_ids),
              ),
              ground (
                arith,
                e,
                f,
                invite_all-events id users s,
                find-create new es w.stored.events refl f,
                t.events.find_first_law (is_live_of id org) es,
              ),
            )
      ]
