-- ===== src/Planning/Splitting.antt =====
-- What a split of a series leaves in the tables: `splitSeries` of
-- libs/planning/src/infrastructure/repositories/planning.repository.ts.
use mathlib.Core.Option
use saas_backend_blueprint.Prelude.{
  ℕ, ◌≡◌, refl, sym, ap, ◌∙◌, false, ◌&&◌, leb, ◌==◌, List, [], ◌∷◌, map, inl, inr, Option,
  if◌then◌else◌, none, some, any, find, where_, find-append, find-update_where, update_where, arith,
  Option-cases,
}
use saas_backend_blueprint.Members.Model.{Uuid}
use saas_backend_blueprint.Planning.Model.{
  Event, EventAttendee, EventOccurrenceAttendee, EventException, EventDetail, event_clash,
}
use saas_backend_blueprint.Planning.Recurrence.{or_else}
use saas_backend_blueprint.Planning.Store.{
  Tables, Stored, relations, has_event_id, exception_of_event,
}
use saas_backend_blueprint.Planning.Repository
use saas_backend_blueprint.Planning.Repository.{
  SplitSeriesParams, truncated_event, tail_event, exception_from, exception_to, is_exception_at,
  moved,
}
use saas_backend_blueprint.Planning.Exceptions.{
  find-insert_all, find-delete_from, from_point, find-moved, find-from_point,
}

find-no_clash :
    (e : Event) (xs : List Event)
    → any (event_clash e) xs ≡ false
    → find (has_event_id e.id) xs ≡ none
find-no_clash e [] h = refl
find-no_clash e (x ∷ xs) h = ground (arith, h, find-no_clash e xs)

module _ (t : Tables) where
  -- The exception of an event for a date of its rule.
  abbrev pub exception_at : ℕ → ℕ → Stored t → Option EventException
  exception_at event x s = find (is_exception_at event x) (t.exceptions.rows s.exceptions)

  -- What a split at a point leaves as the exception of `ev` for `x`: those of the event from the point on
  -- go over to the new one as they are.
  abbrev pub moved_exception : (event split id : ℕ) → ℕ → ℕ → Stored t → Option EventException
  moved_exception event split id ev x s =
      or_else (if ev == event && leb split x then none else exception_at ev x s) (
        if ev == id && leb split x
        then Option.map (exception_to id) (exception_at event x s)
        else none)

  -- The exceptions from the split point on go over to the new event, the others stay.
  move_exceptions-exception_at :
      (event split id : ℕ) (ev x : ℕ) (s : Stored t) (later : List EventException)
      → from_point event split (t.exceptions.rows s.exceptions) ≡ later
      → exception_at ev x (Repository.move_exceptions t event split id later s)
        ≡ moved_exception event split id ev x s
  move_exceptions-exception_at event split id ev x s [] e =
      let xs = t.exceptions.rows s.exceptions in
      ground (
        arith,
        find-moved ev x event split id xs,
        find-from_point x event split xs e,
        find-delete_from ev x event split xs,
      )
  move_exceptions-exception_at event split id ev x s (m ∷ ms) e =
      let xs = t.exceptions.rows s.exceptions in
      let kept = t.exceptions.delete_many (exception_from event split) s.exceptions in
      let new = map (exception_to id) (m ∷ ms) in
      ground (
        arith,
        ap (λ l. find (is_exception_at ev x) (map (exception_to id) l)) e,
        find-moved ev x event split id xs,
        find-delete_from ev x event split xs,
        t.exceptions.create_many_law new kept,
        t.exceptions.delete_many_law (exception_from event split) s.exceptions,
        find-insert_all ev x new (t.exceptions.rows kept),
      )

  copy_attendees-exceptions :
      (id : Uuid) (as_ : List EventAttendee) (s : Stored t)
      → (Repository.copy_attendees t id as_ s).exceptions ≡ s.exceptions
  copy_attendees-exceptions id [] s = refl
  copy_attendees-exceptions id (a ∷ as_) s = refl

  copy_attendees-events :
      (id : Uuid) (as_ : List EventAttendee) (s : Stored t)
      → (Repository.copy_attendees t id as_ s).events ≡ s.events
  copy_attendees-events id [] s = refl
  copy_attendees-events id (a ∷ as_) s = refl

  move_exceptions-events :
      (event split id : ℕ) (xs : List EventException) (s : Stored t)
      → (Repository.move_exceptions t event split id xs s).events ≡ s.events
  move_exceptions-events event split id [] s = refl
  move_exceptions-events event split id (x ∷ xs) s = refl

  move_answers-exceptions :
      (event split id : ℕ) (xs : List EventOccurrenceAttendee) (s : Stored t)
      → (Repository.move_answers t event split id xs s).exceptions ≡ s.exceptions
  move_answers-exceptions event split id [] s = refl
  move_answers-exceptions event split id (x ∷ xs) s = refl

  move_answers-events :
      (event split id : ℕ) (xs : List EventOccurrenceAttendee) (s : Stored t)
      → (Repository.move_answers t event split id xs s).events ≡ s.events
  move_answers-events event split id [] s = refl
  move_answers-events event split id (x ∷ xs) s = refl

  abbrev later_exceptions : SplitSeriesParams → List EventException
  later_exceptions p =
      where_ (λ x. leb p.split_point_utc x.original_start_utc) p.original.exceptions

  moved-events :
      (p : SplitSeriesParams) (id : Uuid) (s : Stored t) → (moved t p id s).events ≡ s.events
  moved-events p id s =
      let o = p.original in
      let split = p.split_point_utc in
      let s1 = Repository.copy_attendees t id o.attendees s in
      let s2 = Repository.move_exceptions t o.event.id split id (later_exceptions p) s1 in
      move_answers-events o.event.id split id
        (where_ (λ a. leb split a.original_start_utc) o.occurrence_attendees) s2
      ∙ move_exceptions-events o.event.id split id (later_exceptions p) s1
      ∙ copy_attendees-events id o.attendees s

  moved-exception_at :
      (p : SplitSeriesParams) (id : Uuid) (ev x : ℕ) (s : Stored t)
      → from_point p.original.event.id p.split_point_utc (t.exceptions.rows s.exceptions)
        ≡ later_exceptions p
      → exception_at ev x (moved t p id s)
        ≡ moved_exception p.original.event.id p.split_point_utc id ev x s
  moved-exception_at p id ev x s e =
      let o = p.original in
      let split = p.split_point_utc in
      let s1 = Repository.copy_attendees t id o.attendees s in
      let s2 = Repository.move_exceptions t o.event.id split id (later_exceptions p) s1 in
      let same = copy_attendees-exceptions id o.attendees s in
      ground (
        arith,
        e,
        same,
        move_answers-exceptions o.event.id split id
            (where_ (λ a. leb split a.original_start_utc) o.occurrence_attendees) s2,
        move_exceptions-exception_at o.event.id split id ev x s1 (later_exceptions p)
            (ap (λ xs. from_point o.event.id split (t.exceptions.rows xs)) same ∙ e),
      )

  later_lem :
      (p : SplitSeriesParams) (s : Stored t) (o : Event)
      → p.original ≡ relations t s o
      → from_point p.original.event.id p.split_point_utc (t.exceptions.rows s.exceptions)
        ≡ later_exceptions p
  unfolding relations
  later_lem p s o same =
      let split = p.split_point_utc in
      ap (λ d. from_point d.event.id split (t.exceptions.rows s.exceptions)) same
      ∙ sym (
          ap (λ xs. where_ (λ x. leb split x.original_start_utc) xs)
            (ap (λ d. d.exceptions) same
              ∙ t.exceptions.find_many_law (exception_of_event o.id) s.exceptions))

  -- The exceptions that a split leaves, for every event `ev` and date `x`.
  pub split_series-exception_at :
      (p : SplitSeriesParams) (id : Uuid) (ev x : ℕ) (s s' : Stored t) (o : Event) (d : EventDetail)
      → p.original ≡ relations t s o
      → Repository.split_series t p id s ≡ some (d, s')
      → exception_at ev x s' ≡ moved_exception o.id p.split_point_utc id ev x s
  unfolding Repository.split_series relations
  split_series-exception_at p id ev x s s' o d same e =
      let k = p.original.event.id in
      elim (Option-cases (t.events.update (has_event_id k) (truncated_event p) s.events)) [
        | inl f ↦ ground (arith, e, f)
        | inr (es, f) ↦ elim (Option-cases (t.events.create (tail_event p id) es)) [
          | inl g ↦ ground (arith, e, f, g)
          | inr (es', g) ↦ ground (
            arith,
            e,
            f,
            g,
            same,
            moved-exception_at p id ev x (record s { events = es' }) (later_lem p s o same),
          )
        ]
      ]

  pub find-truncated :
      (p : SplitSeriesParams) (id : Uuid) (s : Stored t) (s' : Stored t) (d : EventDetail)
      → Repository.split_series t p id s ≡ some (d, s')
      → (find (has_event_id p.original.event.id) (t.events.rows s'.events)
          ≡ Option.map
              (truncated_event p)
              (find (has_event_id p.original.event.id) (t.events.rows s.events)))
        × (find (has_event_id id) (t.events.rows s'.events) ≡ some (tail_event p id))
        × (d.event ≡ tail_event p id)
  unfolding Repository.split_series truncated_event tail_event relations
  find-truncated p id s s' d e =
      let k = p.original.event.id in
      let xs = t.events.rows s.events in
      elim (Option-cases (t.events.update (has_event_id k) (truncated_event p) s.events)) [
        | inl f ↦ (ground (arith, e, f), ground (arith, e, f), ground (arith, e, f))
        | inr (es, f) ↦ elim (Option-cases (t.events.create (tail_event p id) es)) [
          | inl g ↦ (ground (arith, e, f, g), ground (arith, e, f, g), ground (arith, e, f, g))
          | inr (es', g) ↦ (
            ground (
              arith,
              e,
              f,
              g,
              moved-events p id (record s { events = es' }),
              t.events.update_law (has_event_id k) (truncated_event p) s.events,
              t.events.create_law (tail_event p id) es,
              find-append (has_event_id k) (update_where (has_event_id k) (truncated_event p) xs)
                  (tail_event p id ∷ []),
              find-update_where (λ e. e.id) k k (truncated_event p) xs (λ x. refl),
            ),
            ground (
              arith,
              e,
              f,
              g,
              moved-events p id (record s { events = es' }),
              t.events.update_law (has_event_id k) (truncated_event p) s.events,
              t.events.create_law (tail_event p id) es,
              find-append (has_event_id id) (update_where (has_event_id k) (truncated_event p) xs)
                  (tail_event p id ∷ []),
              find-no_clash (tail_event p id)
                  (update_where (has_event_id k) (truncated_event p) xs),
            ),
            ground (arith, e, f, g),
          )
        ]
      ]
