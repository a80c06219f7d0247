-- ===== src/Planning/Marks.antt =====
-- The mark of an event that was reminded of:
-- libs/planning/src/application/services/planning-reminder-scheduler.service.ts.
use mathlib.Core.Option
use saas_backend_blueprint.Prelude.{
  ℕ, ◌≡◌, refl, Bool, true, false, not, ◌&&◌, ◌==◌, List, [], ◌∷◌, inl, inr, Option, none, some,
  any, find, find-update_where, Exception, ok, err, Result-cases, arith, Option-cases,
}
use saas_backend_blueprint.Members.Model.{Uuid}
use saas_backend_blueprint.Planning.Model.{Event}
use saas_backend_blueprint.Planning.Rrule.{Rrule}
use saas_backend_blueprint.Planning.Store.{Tables, Stored, has_event_id}
use saas_backend_blueprint.Planning.Repository
use saas_backend_blueprint.Planning.Reminders
use saas_backend_blueprint.Planning.Reminders.{
  Outside, Reminder, State, is_reminded, is_early, lookahead,
}

-- A reminder of the event for this occurrence, after which the event was marked.
abbrev pub is_reminder : Uuid → ℕ → Reminder → Bool
is_reminder id x s = s.is_recorded && s.event_id == id && s.occurrence == x

-- No reminder of the event is for the occurrence of an earlier one after which the event was marked.
abbrev pub once : Uuid → List Reminder → Bool
once id [] = true
once id (s ∷ ss) = not (s.event_id == id && any (is_reminder id s.occurrence) ss) && once id ss

-- A reminder of the event for an occurrence past the mark, after which the event was marked.
abbrev pub is_past : Uuid → Option ℕ → Reminder → Bool
is_past id mark s = s.is_recorded && s.event_id == id && not (is_reminded mark s.occurrence)

-- A reminder past the mark is a new one, and none is past it.
any-is_reminder-past :
    (id : Uuid) (mark : Option ℕ) (x : ℕ) (ss : List Reminder)
    → any (is_past id mark) ss ≡ false
    → is_reminded mark x ≡ false
    → any (is_reminder id x) ss ≡ false
any-is_reminder-past id mark x [] h past = refl
any-is_reminder-past id mark x (s ∷ ss) h past =
    ground (arith, h, past, any-is_reminder-past id mark x ss)

any-is_past-next :
    (id : Uuid) (mark : Option ℕ) (x : ℕ) (ss : List Reminder)
    → any (is_past id mark) ss ≡ false
    → is_reminded mark x ≡ false
    → any (is_past id (some x)) ss ≡ false
any-is_past-next id mark x [] h past = refl
any-is_past-next id none x (s ∷ ss) h past = ground (arith, h, past, any-is_past-next id none x ss)
any-is_past-next id (some m) x (s ∷ ss) h past =
    ground (arith, h, past, any-is_past-next id (some m) x ss)

module _ (r : Rrule) (t : Tables) (out : Outside) where
  -- The mark of the row of an event.
  abbrev pub mark_of : Uuid → Stored t → Option (Option ℕ)
  mark_of id s =
      Option.map (λ e. e.last_reminder_occurrence_utc)
        (find (has_event_id id) (t.events.rows s.events))

  -- No reminder of an event is for an occurrence that was recorded before, and no recorded one is past
  -- the mark of its row.
  pub record IsMarked (id : Uuid) (w : State r t out) : Type 0 where
    pub mark : Option ℕ
    pub marked : mark_of id w.stored ≡ some mark
    pub passed : any (is_past id mark) w.sent ≡ false
    pub distinct : once id w.sent ≡ true

  mark_of-update :
      (id : Uuid) (x : ℕ) (mark : Option ℕ) (s : Stored t)
      → mark_of id s ≡ some mark
      → Option.map (mark_of id) (Repository.update_last_reminder_sent t id x s)
        ≡ some (some (some x))
  unfolding Repository.update_last_reminder_sent
  mark_of-update id x mark s h =
      let f = λ (e : Event). record e { last_reminder_occurrence_utc = some x } in
      ground (
        arith,
        h,
        t.events.update_law (has_event_id id) f s.events,
        find-update_where (λ e. e.id) id id f (t.events.rows s.events) (λ e. refl),
      )

  -- A reminder past the mark of an event moves the mark to its occurrence, where it is recorded.
  pub send_reminder-marks :
      (e : Event) (x : ℕ) (users : List Uuid) (w : State r t out) (m : IsMarked e.id w)
      → is_reminded m.mark x ≡ false
      → (Reminders.send_reminder r t out e x users w).0 ≡ ok tt
      → (mark_of e.id (Reminders.send_reminder r t out e x users w).1.stored ≡ some (some x))
        × (any (is_past e.id (some x)) (Reminders.send_reminder r t out e x users w).1.sent ≡ false)
        × (once e.id (Reminders.send_reminder r t out e x users w).1.sent ≡ true)
  unfolding Reminders.send_reminder
  send_reminder-marks e x users w m fresh done =
      let law = mark_of-update e.id x m.mark w.stored m.marked in
      let clear = any-is_past-next e.id m.mark x w.sent m.passed fresh in
      let new = any-is_reminder-past e.id m.mark x w.sent m.passed fresh in
      elim (Option-cases (Repository.update_last_reminder_sent t e.id x w.stored)) [
        | inl f ↦ (ground (arith, law, f), ground (arith, law, f), ground (arith, law, f))
        | inr (s, f) ↦ (
          ground (arith, law, f, done),
          ground (arith, f, clear, done),
          ground (arith, f, new, m.distinct, done),
        )
      ]

  -- Where it is not, the mark stays.
  pub send_reminder-stops :
      (e : Event) (x : ℕ) (users : List Uuid) (w : State r t out) (m : IsMarked e.id w)
      (failed : Exception)
      → is_reminded m.mark x ≡ false
      → (Reminders.send_reminder r t out e x users w).0 ≡ err failed
      → IsMarked e.id (Reminders.send_reminder r t out e x users w).1
  unfolding Reminders.send_reminder
  send_reminder-stops e x users w m failed fresh stops =
      let law = mark_of-update e.id x m.mark w.stored m.marked in
      let new = any-is_reminder-past e.id m.mark x w.sent m.passed fresh in
      elim (Option-cases (Repository.update_last_reminder_sent t e.id x w.stored)) [
        | inl f ↦ absurd (ground (arith, law, f))
        | inr (s, f) ↦ record {
          mark = m.mark;
          marked = ground (arith, f, m.marked, stops);
          passed = ground (arith, f, m.passed, stops);
          distinct = ground (arith, f, new, m.distinct, stops);
        }
      ]

  -- The reminder of an occurrence past the mark.
  pub send_reminder-IsMarked :
      (e : Event) (x : ℕ) (users : List Uuid) (w : State r t out) (m : IsMarked e.id w)
      → is_reminded m.mark x ≡ false
      → IsMarked e.id (Reminders.send_reminder r t out e x users w).1
  send_reminder-IsMarked e x users w m fresh =
      elim (Result-cases (Reminders.send_reminder r t out e x users w).0) [
        | inl (failed, stops) ↦ send_reminder-stops e x users w m failed fresh stops
        | inr (u, done) ↦
            let (marked, passed, distinct) = send_reminder-marks e x users w m fresh done in
            record { mark = some x; marked = marked; passed = passed; distinct = distinct }
      ]
