-- ===== src/Planning/Once.antt =====
-- That no sweep repeats a reminder:
-- libs/planning/src/application/services/planning-reminder-scheduler.service.ts.
use mathlib.Core.Option
use saas_backend_blueprint.Prelude.{
  ℕ, ◌-◌, ◌≡◌, refl, sym, ap, subst, ◌⊎◌, inl, inr, Bool, true, false, not, ◌&&◌, ◌==◌, List, [],
  ◌∷◌, map, Option, some, any, find, where_, find-update_where, arith, Option-cases, Bool-cases,
}
use saas_backend_blueprint.Members.Model.{Uuid}
use saas_backend_blueprint.Planning.Model.{Event, EventDetail, event_clash}
use saas_backend_blueprint.Planning.Rrule.{Rrule}
use saas_backend_blueprint.Planning.Store.{
  Tables, Stored, relations, has_event_id, exception_of_event,
}
use saas_backend_blueprint.Planning.Repository
use saas_backend_blueprint.Planning.Repository.{has_reminder}
use saas_backend_blueprint.Planning.Reminders
use saas_backend_blueprint.Planning.Reminders.{
  Outside, State, Reminder, is_reminded, is_early, lookahead,
}
use saas_backend_blueprint.Planning.Ordering.{moves, ascends-expand}
use saas_backend_blueprint.Planning.Marks.{IsMarked, mark_of}
use saas_backend_blueprint.Planning.Sweeping.{process_event-IsMarked}
use saas_backend_blueprint.Planning.Turns.{process_event-keeps}

any-where_-false {ℓ} :
    {A : Type ℓ} (q p : A → Bool) (xs : List A) → any q xs ≡ false → any q (where_ p xs) ≡ false
any-where_-false q p [] h = refl
any-where_-false q p (x ∷ xs) h = ground (arith, h, any-where_-false q p xs)

module _ (r : Rrule) (t : Tables) (out : Outside) where
  -- A reminder of another event changes nothing for this one.
  send_reminder-other :
      (id : Uuid) (e : Event) (x : ℕ) (users : List Uuid) (w : State r t out)
      → (id == e.id) ≡ false
      → IsMarked r t out id w
      → IsMarked r t out id (Reminders.send_reminder r t out e x users w).1
  unfolding Reminders.send_reminder Repository.update_last_reminder_sent
  send_reminder-other id e x users w other m =
      let f = λ (e : Event). record e { last_reminder_occurrence_utc = some x } in
      let law = t.events.update_law (has_event_id e.id) f w.stored.events in
      let kept =
        find-update_where (λ e. e.id) id e.id f (t.events.rows w.stored.events) (λ e. refl) in
      elim (Option-cases (t.events.update (has_event_id e.id) f w.stored.events)) [
        | inl g ↦ record {
          mark = m.mark;
          marked = ground (arith, g, m.marked);
          passed = ground (arith, g, other, m.passed);
          distinct = ground (arith, g, other, m.distinct);
        }
        | inr (es, g) ↦ record {
          mark = m.mark;
          marked = ground (arith, g, other, m.marked, law, kept);
          passed = ground (arith, g, other, m.passed);
          distinct = ground (arith, g, other, m.distinct);
        }
      ]

  send_reminder-other_mark :
      (id : Uuid) (e : Event) (x : ℕ) (users : List Uuid) (w : State r t out)
      (mark : Option (Option ℕ))
      → (id == e.id) ≡ false
      → mark_of r t out id w.stored ≡ mark
      → mark_of r t out id (Reminders.send_reminder r t out e x users w).1.stored ≡ mark
  unfolding Reminders.send_reminder Repository.update_last_reminder_sent
  send_reminder-other_mark id e x users w mark other h =
      let f = λ (e : Event). record e { last_reminder_occurrence_utc = some x } in
      let law = t.events.update_law (has_event_id e.id) f w.stored.events in
      let kept =
        find-update_where (λ e. e.id) id e.id f (t.events.rows w.stored.events) (λ e. refl) in
      elim (Option-cases (t.events.update (has_event_id e.id) f w.stored.events)) [
        | inl g ↦ ground (arith, g, h)
        | inr (es, g) ↦ ground (arith, g, other, h, law, kept)
      ]

  -- The events of a sweep, as they were read: that of the id, if it is among them, is there once, with
  -- the mark of its row.
  IsRead : Uuid → Option ℕ → List EventDetail → Type 0
  IsRead id mark [] = Unit {0}
  IsRead id mark (d ∷ ds) =
      (((id == d.event.id) ≡ false) × IsRead id mark ds)
      ⊎ ((d.event.id ≡ id)
          × (mark ≡ d.event.last_reminder_occurrence_utc)
          × (any (λ q. id == q.event.id) ds ≡ false))

  absent-IsRead :
      (id : Uuid) (mark : Option ℕ) (ds : List EventDetail)
      → any (λ q. id == q.event.id) ds ≡ false
      → IsRead id mark ds
  unfolding IsRead
  absent-IsRead id mark [] h = tt
  absent-IsRead id mark (d ∷ ds) h =
      inl (ground (arith, h), absent-IsRead id mark ds (ground (arith, h)))

  process_all-other :
      (id : Uuid) (now : ℕ) (ds : List EventDetail) (w : State r t out)
      → any (λ q. id == q.event.id) ds ≡ false
      → IsMarked r t out id w
      → IsMarked r t out id (Reminders.process_all r t out ds now w)
  unfolding Reminders.process_all
  process_all-other id now [] w absent m = m
  process_all-other id now (d ∷ ds) w absent m =
      process_all-other id now ds (Reminders.process_event r t out d now w).1
        (ground (arith, absent))
        (process_event-keeps r t out (IsMarked r t out id) d
          (λ x users v. send_reminder-other id d.event x users v (ground (arith, absent))) now w m)

  process_all-IsMarked :
      (id : Uuid) (now : ℕ) (ds : List EventDetail) (w : State r t out) (m : IsMarked r t out id w)
      → IsRead id m.mark ds
      → any (λ d. any moves d.exceptions) ds ≡ false
      → IsMarked r t out id (Reminders.process_all r t out ds now w)
  unfolding Reminders.process_all IsRead
  process_all-IsMarked id now [] w m h still = m
  process_all-IsMarked id now (d ∷ ds) w m (inl (other, h)) still =
      let w1 = (Reminders.process_event r t out d now w).1 in
      let m1 =
        process_event-keeps r t out (IsMarked r t out id) d
          (λ x users v. send_reminder-other id d.event x users v other) now w m in
      let kept =
        process_event-keeps r t out (λ v. mark_of r t out id v.stored ≡ mark_of r t out id w.stored)
          d
          (λ x users v.
            send_reminder-other_mark id d.event x users v (mark_of r t out id w.stored) other)
          now w refl in
      let same : m.mark ≡ m1.mark = ground (arith, kept, m.marked, m1.marked) in
      process_all-IsMarked id now ds w1 m1 (subst (λ c. IsRead id c ds) same h)
        (ground (arith, still))
  process_all-IsMarked id now (d ∷ ds) w m (inr (same, read, absent)) still =
      process_all-other id now ds (Reminders.process_event r t out d now w).1 absent (
        subst
          (λ i.
            IsMarked r t out i w → IsMarked r t out i (Reminders.process_event r t out d now w).1)
          same
          (λ k.
            process_event-IsMarked r t out d now w k
              (ground (arith, k.marked, m.marked, same, read))
              (λ from to. ascends-expand r d from to (ground (arith, still))))
          m)

  -- No two rows have one id.
  abbrev pub distinct_ids : List Event → Bool
  distinct_ids [] = true
  distinct_ids (e ∷ es) = not (any (event_clash e) es) && distinct_ids es

  any-relations :
      (id : Uuid) (e : Event) (p : Event → Bool) (s : Stored t) (es : List Event)
      → any (event_clash e) es ≡ false
      → e.id ≡ id
      → any (λ q. id == q.event.id) (map (relations t s) (where_ p es)) ≡ false
  unfolding relations
  any-relations id e p s [] free same = refl
  any-relations id e p s (q ∷ es) free same = ground (arith, free, same, any-relations id e p s es)

  relations-IsRead :
      (id : Uuid) (mark : Option ℕ) (p : Event → Bool) (s : Stored t) (es : List Event)
      → Option.map (λ e. e.last_reminder_occurrence_utc) (find (has_event_id id) es) ≡ some mark
      → distinct_ids es ≡ true
      → IsRead id mark (map (relations t s) (where_ p es))
  unfolding IsRead relations
  relations-IsRead id mark p s [] found free = tt
  relations-IsRead id mark p s (e ∷ es) found free =
      let ds = map (relations t s) (where_ p es) in
      let whole = map (relations t s) (where_ p (e ∷ es)) in
      elim (Bool-cases (id == e.id)) [
        | inl same ↦
            let absent = any-relations id e p s es (ground (arith, free)) (ground (arith, same)) in
            elim (Bool-cases (p e)) [
              | inl chosen ↦
                  let goes : relations t s e ∷ ds ≡ whole = ground (arith, chosen) in
                  subst (IsRead id mark) goes
                    (inr (ground (arith, same), ground (arith, found, same), absent))
              | inr left ↦
                  let goes : ds ≡ whole = ground (arith, left) in
                  subst (IsRead id mark) goes (absent-IsRead id mark ds absent)
            ]
        | inr other ↦
            let rest =
              relations-IsRead id mark p s es (ground (arith, found, other))
                (ground (arith, free)) in
            elim (Bool-cases (p e)) [
              | inl chosen ↦
                  let goes : relations t s e ∷ ds ≡ whole = ground (arith, chosen) in
                  subst (IsRead id mark) goes (inl (other, rest))
              | inr left ↦
                  let goes : ds ≡ whole = ground (arith, left) in subst (IsRead id mark) goes rest
            ]
      ]

  any-moves-relations :
      (p : Event → Bool) (s : Stored t) (es : List Event)
      → any moves (t.exceptions.rows s.exceptions) ≡ false
      → any (λ d. any moves d.exceptions) (map (relations t s) (where_ p es)) ≡ false
  unfolding relations
  any-moves-relations p s [] still = refl
  any-moves-relations p s (e ∷ es) still = ground (
    arith,
    any-moves-relations p s es still,
    any-where_-false moves (exception_of_event e.id) (t.exceptions.rows s.exceptions) still,
    t.exceptions.find_many_law (exception_of_event e.id) s.exceptions,
  )

  -- A sweep repeats no reminder of an event after which the event was marked: if so far none was, and no
  -- marked one is past the mark of its row, this holds after the sweep too, whichever of its notifications
  -- and writes fail. A reminder after which the mark was not written may be repeated. The ids of the events
  -- are distinct, and no exception moves the start of an occurrence.
  pub sweep-IsMarked :
      (id : Uuid) (now : ℕ) (w : State r t out)
      → IsMarked r t out id w
      → distinct_ids (t.events.rows w.stored.events) ≡ true
      → any moves (t.exceptions.rows w.stored.exceptions) ≡ false
      → IsMarked r t out id (Reminders.sweep r t out now w)
  unfolding Reminders.sweep Repository.find_events_with_reminders relations
  sweep-IsMarked id now w m free still =
      let p = has_reminder (now - lookahead) in
      let es = t.events.rows w.stored.events in
      let ds = map (relations t w.stored) (where_ p es) in
      let read : map (relations t w.stored) (t.events.find_many p w.stored.events) ≡ ds =
        ap (map (relations t w.stored)) (t.events.find_many_law p w.stored.events) in
      subst (λ l. IsMarked r t out id (Reminders.process_all r t out l now w)) (sym read)
        (process_all-IsMarked id now ds w m (relations-IsRead id m.mark p w.stored es m.marked free)
          (any-moves-relations p w.stored es still))
