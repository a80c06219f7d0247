-- ===== src/Planning/Expansion.antt =====
-- The occurrences of an event: libs/planning/src/application/services/recurrence.service.ts.
use saas_backend_blueprint.Prelude.{
  ℕ, zero, suc, ◌≤◌, String, ◌≡◌, refl, Bool, false, not, ◌&&◌, leb, ◌==◌, List, [], ◌∷◌, Option,
  some, inl, inr, any, where_, take, length, arith, Option-cases,
}
use saas_backend_blueprint.Planning.Model.{EventDetail, EventOccurrence}
use saas_backend_blueprint.Planning.Rrule.{Rrule}
use saas_backend_blueprint.Planning.Recurrence.{
  rule_of, is_cancelled_at, occurrences_at, is_within_cap, capped, expand,
}

pub length-where_-le {ℓ} :
    {A : Type ℓ} (p : A → Bool) (xs : List A) → length (where_ p xs) ≤ length xs
length-where_-le p [] = omega arith
length-where_-le p (x ∷ xs) = ground (arith, length-where_-le p xs)

take-length {ℓ} : {A : Type ℓ} (n : ℕ) (xs : List A) → length xs ≤ n → take n xs ≡ xs
take-length zero [] h = refl
take-length zero (x ∷ xs) h = ground (arith, h)
take-length (suc n) [] h = refl
take-length (suc n) (x ∷ xs) h = ground (arith, take-length n xs)

any-take {ℓ} :
    {A : Type ℓ} (p : A → Bool) (n : ℕ) (xs : List A) → any p xs ≡ false → any p (take n xs) ≡ false
any-take p zero xs h = refl
any-take p (suc n) [] h = refl
any-take p (suc n) (x ∷ xs) h = ground (arith, any-take p n xs)

pub any-where_-eq :
    (p : ℕ → Bool) (x : ℕ) (dates : List ℕ)
    → any (λ y. y == x) (where_ p dates) ≡ (any (λ y. y == x) dates && p x)
any-where_-eq p x [] = refl
any-where_-eq p x (y ∷ dates) = ground (arith, any-where_-eq p x dates)

-- `is_at x o`: the occurrence stands for the date `x` of the rule.
abbrev pub is_at : ℕ → EventOccurrence → Bool
is_at x o = o.original_start_utc == x

any-occurrences_at :
    (d : EventDetail) (x : ℕ) (dates : List ℕ)
    → any (is_at x) (occurrences_at d dates)
      ≡ (any (λ y. y == x) dates && not (is_cancelled_at x d.exceptions))
unfolding occurrences_at expand
any-occurrences_at d x [] = refl
any-occurrences_at d x (y ∷ dates) = ground (arith, any-occurrences_at d x dates)

where_-is_within_cap :
    (cap : Option ℕ) (x : ℕ) (dates : List ℕ)
    → is_within_cap cap x ≡ false
    → any (λ y. y == x) (where_ (is_within_cap cap) dates) ≡ false
where_-is_within_cap cap x dates h = ground (arith, h, any-where_-eq (is_within_cap cap) x dates)

module _ (r : Rrule) where
  -- A series whose rule gives at most 500 dates in the window is expanded to an occurrence of a date
  -- exactly when the date is in the window, the rule has it, it is not after the end of the series and no
  -- exception cancels it.
  pub expand-is_at :
      (d : EventDetail) (rule : String) (from to : ℕ) (dates : List ℕ) (x : ℕ)
      → rule_of d.event.rrule ≡ some rule
      → r.between rule d.event.start_utc from to ≡ some dates
      → length dates ≤ 500
      → any (is_at x) (expand r d from to) ≡ (
          (leb from x && leb x to && r.occurs rule d.event.start_utc x)
          && is_within_cap d.event.rrule_until_utc x
          && not (is_cancelled_at x d.exceptions))
  unfolding expand occurrences_at
  expand-is_at d rule from to dates x is_rule dated few =
      let cap = d.event.rrule_until_utc in
      ground (
        arith,
        is_rule,
        dated,
        any-occurrences_at d x (capped cap dates),
        take-length 500 (where_ (is_within_cap cap) dates),
        length-where_-le (is_within_cap cap) dates,
        any-where_-eq (is_within_cap cap) x dates,
        r.between_law rule d.event.start_utc from to dates x dated,
      )

  -- A series has no occurrence after its end.
  pub expand-past_cap :
      (d : EventDetail) (rule : String) (from to x : ℕ)
      → rule_of d.event.rrule ≡ some rule
      → is_within_cap d.event.rrule_until_utc x ≡ false
      → any (is_at x) (expand r d from to) ≡ false
  unfolding expand occurrences_at
  expand-past_cap d rule from to x is_rule past =
      elim (Option-cases (r.between rule d.event.start_utc from to)) [
        | inl f ↦ ground (arith, is_rule, f)
        | inr (dates, f) ↦
            let cap = d.event.rrule_until_utc in
            ground (
              arith,
              is_rule,
              f,
              any-occurrences_at d x (capped cap dates),
              any-take (λ y. y == x) 500 (where_ (is_within_cap cap) dates)
                  (where_-is_within_cap cap x dates past),
            )
      ]
