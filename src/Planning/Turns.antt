-- ===== src/Planning/Turns.antt =====
-- What the turn of an event in a sweep keeps:
-- libs/planning/src/application/services/planning-reminder-scheduler.service.ts.
use saas_backend_blueprint.Prelude.{
  ℕ, ◌+◌, ◌*◌, ◌≡◌, subst, inl, inr, List, [], ◌∷◌, Option, none, some, arith, Option-cases,
  Bool-cases, Result-cases,
}
use saas_backend_blueprint.Members.Model.{Uuid}
use saas_backend_blueprint.Planning.Model.{EventDetail, EventOccurrence}
use saas_backend_blueprint.Planning.Rrule.{Rrule}
use saas_backend_blueprint.Planning.Recurrence.{or_value, rule_of, expand}
use saas_backend_blueprint.Planning.Store.{Tables}
use saas_backend_blueprint.Planning.Inputs.{users_of}
use saas_backend_blueprint.Planning.Reminders
use saas_backend_blueprint.Planning.Reminders.{
  Outside, State, Reminder, is_reminded, is_early, lookahead,
}

-- What each reminder of an event keeps, its whole turn keeps.
module _ (r : Rrule) (t : Tables) (out : Outside) (P : State r t out → Type 0) (d : EventDetail)
    (sends : (x : ℕ) (users : List Uuid) (w : State r t out)
      → P w
      → P (Reminders.send_reminder r t out d.event x users w).1) where
  remind_all-keeps :
      (now ahead : ℕ) (users : List Uuid) (os : List EventOccurrence) (w : State r t out)
      → P w
      → P (Reminders.remind_all r t out d now ahead users os w).1
  unfolding Reminders.remind_all
  remind_all-keeps now ahead users [] w h = h
  remind_all-keeps now ahead users (o ∷ os) w h =
      let last = d.event.last_reminder_occurrence_utc in
      let all_of = (Reminders.remind_all r t out d now ahead users (o ∷ os) w).1 in
      let w1 = (Reminders.send_reminder r t out d.event o.start_utc users w).1 in
      let sent = sends o.start_utc users w h in
      let skip = λ (e : (Reminders.remind_all r t out d now ahead users os w).1 ≡ all_of).
        subst P e (remind_all-keeps now ahead users os w h) in
      elim (Bool-cases o.is_cancelled) [
        | inl gone ↦ skip (ground (arith, gone))
        | inr here ↦ elim (Bool-cases (is_reminded last o.start_utc)) [
          | inl told ↦ skip (ground (arith, here, told))
          | inr fresh ↦ elim (Bool-cases (is_early now ahead o.start_utc)) [
            | inl early ↦
                let stays : w ≡ all_of = ground (arith, here, fresh, early) in subst P stays h
            | inr due ↦
                elim (Result-cases
                  (Reminders.send_reminder r t out d.event o.start_utc users w).0) [
                    | inl (x, failed) ↦
                        let stops : w1 ≡ all_of = ground (arith, here, fresh, due, failed) in
                        subst P stops sent
                    | inr (u, done) ↦
                        let goes : (Reminders.remind_all r t out d now ahead users os w1).1
                            ≡ all_of =
                          ground (arith, here, fresh, due, done) in
                        subst P goes (remind_all-keeps now ahead users os w1 sent)
                  ]
          ]
        ]
      ]

  process_single-keeps :
      (now ahead : ℕ) (users : List Uuid) (w : State r t out)
      → P w
      → P (Reminders.process_single r t out d now ahead users w).1
  process_single-keeps now ahead users w h =
      let done = (Reminders.process_single r t out d now ahead users w).1 in
      elim (Option-cases d.event.last_reminder_occurrence_utc) [
        | inr (last, told) ↦ let stays : w ≡ done = ground (arith, told) in subst P stays h
        | inl fresh ↦ elim (Bool-cases (is_early now ahead d.event.start_utc)) [
          | inl early ↦ let stays : w ≡ done = ground (arith, fresh, early) in subst P stays h
          | inr due ↦
              let goes : (Reminders.send_reminder r t out d.event d.event.start_utc users w).1
                  ≡ done =
                ground (arith, fresh, due) in
              subst P goes (sends d.event.start_utc users w h)
        ]
      ]

  process_rule-keeps :
      (minutes : Option ℕ) (users : List Uuid) (now : ℕ) (w : State r t out)
      → P w
      → P (Reminders.process_rule r t out minutes users d now w).1
  unfolding Reminders.process_recurring_occurrences
  process_rule-keeps none users now w h = h
  process_rule-keeps (some minutes) [] now w h = h
  process_rule-keeps (some minutes) (user ∷ users) now w h =
      let us = user ∷ users in
      let ahead = minutes * 60000 in
      let done = (Reminders.process_rule r t out (some minutes) us d now w).1 in
      let from = or_value d.event.last_reminder_occurrence_utc d.event.start_utc in
      elim (Option-cases (rule_of d.event.rrule)) [
        | inl single ↦
            let goes : (Reminders.process_single r t out d now ahead us w).1 ≡ done =
              ground (arith, single) in
            subst P goes (process_single-keeps now ahead us w h)
        | inr (rule, series) ↦
            let goes : (Reminders.process_recurring_occurrences r t out d now ahead us w).1 ≡ done =
              ground (arith, series) in
            subst P goes (remind_all-keeps now ahead us (expand r d from (now + lookahead)) w h)
      ]

  pub process_event-keeps :
      (now : ℕ) (w : State r t out) → P w → P (Reminders.process_event r t out d now w).1
  unfolding Reminders.process_event
  process_event-keeps now w h =
      process_rule-keeps d.event.reminder_minutes (users_of d.attendees) now w h
