-- ===== src/Planning/Ordering.antt =====
-- The order of the occurrences of an event: libs/planning/src/application/services/recurrence.service.ts.
use saas_backend_blueprint.Prelude.{
  ℕ, zero, suc, ◌≡◌, refl, Bool, true, false, ◌&&◌, ltb, List, [], ◌∷◌, inl, inr, none, some, any,
  all, where_, take, arith, Option-cases,
}
use saas_backend_blueprint.Planning.Model.{EventException, EventDetail, EventOccurrence}
use saas_backend_blueprint.Planning.Rrule.{Rrule, in_order}
use saas_backend_blueprint.Planning.Recurrence.{
  rule_of, is_some, exception_at, occurrences_at, is_within_cap, capped, expand,
}

-- The starts come in order, each after the one before.
abbrev pub ascends : List EventOccurrence → Bool
ascends [] = true
ascends (o ∷ os) = all (λ q. ltb o.start_utc q.start_utc) os && ascends os

-- An exception that gives its occurrence another start.
abbrev pub moves : EventException → Bool
moves x = is_some x.start_utc

all-where_ : (q p : ℕ → Bool) (ds : List ℕ) → all q ds ≡ true → all q (where_ p ds) ≡ true
all-where_ q p [] h = refl
all-where_ q p (d ∷ ds) h = ground (arith, h, all-where_ q p ds)

pub in_order-where_ :
    (p : ℕ → Bool) (ds : List ℕ) → in_order ds ≡ true → in_order (where_ p ds) ≡ true
in_order-where_ p [] h = refl
in_order-where_ p (d ∷ ds) h =
    ground (arith, h, in_order-where_ p ds, all-where_ (λ e. ltb d e) p ds)

all-take : (q : ℕ → Bool) (n : ℕ) (ds : List ℕ) → all q ds ≡ true → all q (take n ds) ≡ true
all-take q zero ds h = refl
all-take q (suc n) [] h = refl
all-take q (suc n) (d ∷ ds) h = ground (arith, h, all-take q n ds)

in_order-take : (n : ℕ) (ds : List ℕ) → in_order ds ≡ true → in_order (take n ds) ≡ true
in_order-take zero ds h = refl
in_order-take (suc n) [] h = refl
in_order-take (suc n) (d ∷ ds) h =
    ground (arith, h, in_order-take n ds, all-take (λ e. ltb d e) n ds)

exception_at-moves :
    (x : ℕ) (xs : List EventException) (e : EventException)
    → any moves xs ≡ false
    → exception_at x xs ≡ some e
    → e.start_utc ≡ none
exception_at-moves x [] e h f = cc
exception_at-moves x (y ∷ xs) e h f = elim (Option-cases (exception_at x xs)) [
  | inl g ↦ ground (arith, h, f, g)
  | inr (z, g) ↦ ground (arith, h, f, g, exception_at-moves x xs z)
]

all-occurrences_at :
    (d : EventDetail) (x : ℕ) (dates : List ℕ)
    → any moves d.exceptions ≡ false
    → all (λ e. ltb x e) dates ≡ true
    → all (λ q. ltb x q.start_utc) (occurrences_at d dates) ≡ true
unfolding occurrences_at expand
all-occurrences_at d x [] still h = refl
all-occurrences_at d x (y ∷ dates) still h = elim (Option-cases (exception_at y d.exceptions)) [
  | inl g ↦ ground (arith, h, g, all-occurrences_at d x dates still)
  | inr (e, g) ↦
      ground (
        arith,
        h,
        g,
        exception_at-moves y d.exceptions e still g,
        all-occurrences_at d x dates still,
      )
]

ascends-occurrences_at :
    (d : EventDetail) (dates : List ℕ)
    → any moves d.exceptions ≡ false
    → in_order dates ≡ true
    → ascends (occurrences_at d dates) ≡ true
unfolding occurrences_at expand
ascends-occurrences_at d [] still h = refl
ascends-occurrences_at d (y ∷ dates) still h = elim (Option-cases (exception_at y d.exceptions)) [
  | inl g ↦
      ground (arith, h, g, ascends-occurrences_at d dates still, all-occurrences_at d y dates still)
  | inr (e, g) ↦ ground (
    arith,
    h,
    g,
    exception_at-moves y d.exceptions e still g,
    ascends-occurrences_at d dates still,
    all-occurrences_at d y dates still,
  )
]

module _ (r : Rrule) where
  -- The occurrences of an event none of whose exceptions moves an occurrence come in the order of their
  -- starts, each start once.
  pub ascends-expand :
      (d : EventDetail) (from to : ℕ)
      → any moves d.exceptions ≡ false
      → ascends (expand r d from to) ≡ true
  unfolding expand occurrences_at
  ascends-expand d from to still = elim (Option-cases (rule_of d.event.rrule)) [
    | inl e ↦ ground (arith, e)
    | inr (rule, e) ↦ elim (Option-cases (r.between rule d.event.start_utc from to)) [
      | inl f ↦ ground (arith, e, f)
      | inr (dates, f) ↦
          let kept = where_ (is_within_cap d.event.rrule_until_utc) dates in
          ground (
            arith,
            e,
            f,
            ascends-occurrences_at d (capped d.event.rrule_until_utc dates) still (
                in_order-take 500 kept (
                  in_order-where_ (is_within_cap d.event.rrule_until_utc) dates
                    (r.between_order rule d.event.start_utc from to dates f))),
          )
    ]
  ]
