-- ===== src/Planning/Sweeping.antt =====
-- That the turn of an event in a sweep repeats no recorded reminder:
-- libs/planning/src/application/services/planning-reminder-scheduler.service.ts.
use saas_backend_blueprint.Prelude.{
  ℕ, ◌+◌, ◌*◌, ◌≡◌, refl, sym, subst, Bool, true, false, not, ◌||◌, ltb, List, [], ◌∷◌, inl, inr,
  Option, none, some, all, Result-cases, arith, Option-cases, Bool-cases,
}
use saas_backend_blueprint.Members.Model.{Uuid}
use saas_backend_blueprint.Planning.Model.{EventDetail, EventOccurrence}
use saas_backend_blueprint.Planning.Rrule.{Rrule}
use saas_backend_blueprint.Planning.Recurrence.{or_value, rule_of, expand}
use saas_backend_blueprint.Planning.Store.{Tables}
use saas_backend_blueprint.Planning.Inputs.{users_of}
use saas_backend_blueprint.Planning.Ordering.{ascends}
use saas_backend_blueprint.Planning.Reminders
use saas_backend_blueprint.Planning.Reminders.{
  Outside, Reminder, State, is_reminded, is_early, lookahead,
}
use saas_backend_blueprint.Planning.Marks.{
  IsMarked, send_reminder-marks, send_reminder-stops, send_reminder-IsMarked,
}

-- The occurrences that are not yet reminded of by `last` are past the mark.
abbrev is_clear : Option ℕ → Option ℕ → List EventOccurrence → Bool
is_clear last mark os =
    all (λ o. is_reminded last o.start_utc || not (is_reminded mark o.start_utc)) os

is_clear_refl : (last : Option ℕ) (os : List EventOccurrence) → is_clear last last os ≡ true
is_clear_refl last [] = refl
is_clear_refl last (o ∷ os) = ground (arith, is_clear_refl last os)

is_clear-next :
    (last : Option ℕ) (x : ℕ) (os : List EventOccurrence)
    → all (λ q. ltb x q.start_utc) os ≡ true
    → is_clear last (some x) os ≡ true
is_clear-next last x [] h = refl
is_clear-next last x (o ∷ os) h = ground (arith, h, is_clear-next last x os)

module _ (r : Rrule) (t : Tables) (out : Outside) where
  remind_all-IsMarked :
      (d : EventDetail) (now ahead : ℕ) (users : List Uuid) (os : List EventOccurrence)
      (w : State r t out) (m : IsMarked r t out d.event.id w)
      → is_clear d.event.last_reminder_occurrence_utc m.mark os ≡ true
      → ascends os ≡ true
      → IsMarked r t out d.event.id (Reminders.remind_all r t out d now ahead users os w).1
  unfolding Reminders.remind_all
  remind_all-IsMarked d now ahead users [] w m clear sorted = m
  remind_all-IsMarked d now ahead users (o ∷ os) w m clear sorted =
      let last = d.event.last_reminder_occurrence_utc in
      let all_of = (Reminders.remind_all r t out d now ahead users (o ∷ os) w).1 in
      let skip = λ (e : (Reminders.remind_all r t out d now ahead users os w).1 ≡ all_of).
        subst (IsMarked r t out d.event.id) e (
          remind_all-IsMarked d now ahead users os w m (ground (arith, clear))
            (ground (arith, sorted))) in
      elim (Bool-cases o.is_cancelled) [
        | inl gone ↦ skip (ground (arith, gone))
        | inr here ↦ elim (Bool-cases (is_reminded last o.start_utc)) [
          | inl told ↦ skip (ground (arith, here, told))
          | inr fresh ↦ elim (Bool-cases (is_early now ahead o.start_utc)) [
            | inl early ↦
                let stays : w ≡ all_of = ground (arith, here, fresh, early) in
                subst (IsMarked r t out d.event.id) stays m
            | inr due ↦
                let w1 = (Reminders.send_reminder r t out d.event o.start_utc users w).1 in
                let new : is_reminded m.mark o.start_utc ≡ false = ground (arith, clear, fresh) in
                let sent = Reminders.send_reminder r t out d.event o.start_utc users w in
                elim (Result-cases sent.0) [
                  | inl (x, failed) ↦
                      let stops : w1 ≡ all_of = ground (arith, here, fresh, due, failed) in
                      subst (IsMarked r t out d.event.id) stops
                        (send_reminder-stops r t out d.event o.start_utc users w m x new failed)
                  | inr (u, done) ↦
                      let (marked, passed, distinct) =
                        send_reminder-marks r t out d.event o.start_utc users w m new done in
                      let goes : (Reminders.remind_all r t out d now ahead users os w1).1 ≡ all_of =
                        ground (arith, here, fresh, due, done) in
                      subst (IsMarked r t out d.event.id) goes (
                        remind_all-IsMarked d now ahead users os w1
                          (record {
                            mark = some o.start_utc;
                            marked = marked;
                            passed = passed;
                            distinct = distinct;
                          })
                          (is_clear-next last o.start_utc os (ground (arith, sorted)))
                          (ground (arith, sorted)))
                ]
          ]
        ]
      ]

  process_recurring_occurrences-IsMarked :
      (d : EventDetail) (now ahead : ℕ) (users : List Uuid) (w : State r t out)
      (m : IsMarked r t out d.event.id w)
      → m.mark ≡ d.event.last_reminder_occurrence_utc
      → ((from to : ℕ) → ascends (expand r d from to) ≡ true)
      → IsMarked r t out d.event.id
          (Reminders.process_recurring_occurrences r t out d now ahead users w).1
  unfolding Reminders.process_recurring_occurrences
  process_recurring_occurrences-IsMarked d now ahead users w m read sorted =
      let last = d.event.last_reminder_occurrence_utc in
      let os = expand r d (or_value last d.event.start_utc) (now + lookahead) in
      remind_all-IsMarked d now ahead users os w m
        (subst (λ c. is_clear last c os ≡ true) (sym read) (is_clear_refl last os))
        (sorted (or_value last d.event.start_utc) (now + lookahead))

  process_single-IsMarked :
      (d : EventDetail) (now ahead : ℕ) (users : List Uuid) (w : State r t out)
      (m : IsMarked r t out d.event.id w)
      → m.mark ≡ d.event.last_reminder_occurrence_utc
      → IsMarked r t out d.event.id (Reminders.process_single r t out d now ahead users w).1
  process_single-IsMarked d now ahead users w m read =
      let e = d.event in
      let done = (Reminders.process_single r t out d now ahead users w).1 in
      elim (Option-cases e.last_reminder_occurrence_utc) [
        | inr (last, told) ↦
            let stays : w ≡ done = ground (arith, told) in subst (IsMarked r t out e.id) stays m
        | inl fresh ↦ elim (Bool-cases (is_early now ahead e.start_utc)) [
          | inl early ↦
              let stays : w ≡ done = ground (arith, fresh, early) in
              subst (IsMarked r t out e.id) stays m
          | inr due ↦
              let w1 = (Reminders.send_reminder r t out e e.start_utc users w).1 in
              let goes : w1 ≡ done = ground (arith, fresh, due) in
              subst (IsMarked r t out e.id) goes (
                send_reminder-IsMarked r t out e e.start_utc users w m
                  (ground (arith, read, fresh)))
        ]
      ]

  process_rule-IsMarked :
      (minutes : Option ℕ) (users : List Uuid) (d : EventDetail) (now : ℕ) (w : State r t out)
      (m : IsMarked r t out d.event.id w)
      → m.mark ≡ d.event.last_reminder_occurrence_utc
      → ((from to : ℕ) → ascends (expand r d from to) ≡ true)
      → IsMarked r t out d.event.id (Reminders.process_rule r t out minutes users d now w).1
  process_rule-IsMarked none users d now w m read sorted = m
  process_rule-IsMarked (some minutes) [] d now w m read sorted = m
  process_rule-IsMarked (some minutes) (user ∷ users) d now w m read sorted =
      let us = user ∷ users in
      let ahead = minutes * 60000 in
      let done = (Reminders.process_rule r t out (some minutes) us d now w).1 in
      elim (Option-cases (rule_of d.event.rrule)) [
        | inl single ↦
            let goes : (Reminders.process_single r t out d now ahead us w).1 ≡ done =
              ground (arith, single) in
            subst (IsMarked r t out d.event.id) goes
              (process_single-IsMarked d now ahead us w m read)
        | inr (rule, series) ↦
            let goes : (Reminders.process_recurring_occurrences r t out d now ahead us w).1 ≡ done =
              ground (arith, series) in
            subst (IsMarked r t out d.event.id) goes
              (process_recurring_occurrences-IsMarked d now ahead us w m read sorted)
      ]

  -- An event that is looked at with the mark of its row, and whose occurrences come in order, keeps the
  -- promise of the sweep: if none of its reminders repeats a recorded one, none does afterwards.
  pub process_event-IsMarked :
      (d : EventDetail) (now : ℕ) (w : State r t out) (m : IsMarked r t out d.event.id w)
      → m.mark ≡ d.event.last_reminder_occurrence_utc
      → ((from to : ℕ) → ascends (expand r d from to) ≡ true)
      → IsMarked r t out d.event.id (Reminders.process_event r t out d now w).1
  unfolding Reminders.process_event
  process_event-IsMarked d now w m read sorted =
      process_rule-IsMarked d.event.reminder_minutes (users_of d.attendees) d now w m read sorted
