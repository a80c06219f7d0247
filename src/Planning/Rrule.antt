-- ===== src/Planning/Rrule.antt =====
-- The package `rrule`, which parses and expands RFC 5545 recurrence rules. `occurs rule start d` says that
-- the rule with that start has an occurrence at `d`, which no code reads: the law is stated with it.
use saas_backend_blueprint.Prelude.{
  ℕ, String, ◌≡◌, str_eq, Bool, true, false, ◌&&◌, leb, ltb, ◌==◌, List, [], ◌∷◌, Option, some, any,
  all,
}

-- Each date is after the ones before it.
abbrev pub in_order : List ℕ → Bool
in_order [] = true
in_order (d ∷ ds) = all (λ e. ltb d e) ds && in_order ds

pub record Rrule : Type 1 where
  pub occurs : String → ℕ → ℕ → Bool
  -- `RRule.parseString` does not throw
  pub is_parseable : String → Bool
  -- `new RRule({...parseString(rule), dtstart}).between(from, to, true)`; none where the rule does not parse
  pub between : String → ℕ → ℕ → ℕ → Option (List ℕ)
  -- the rule without COUNT and UNTIL, as a text, and with UNTIL set
  pub without_count_and_until : String → String
  pub with_until : ℕ → String → String
  -- whether the rule has COUNT or UNTIL, and the last element of `all()`
  pub has_end : String → Bool
  pub last : String → ℕ → Option ℕ
  -- "all the occurrences between the two dates", both included
  pub between_law :
      (rule : String) (start from to : ℕ) (dates : List ℕ) (d : ℕ)
      → between rule start from to ≡ some dates
      → any (λ x. x == d) dates ≡ (leb from d && leb d to && occurs rule start d)
  -- a rule with UNTIL is not the empty text
  pub with_until_law : (t : ℕ) (rule : String) → str_eq (with_until t rule) "" ≡ false
  -- the dates are generated in the order of time, each once
  pub between_order :
      (rule : String) (start from to : ℕ) (dates : List ℕ)
      → between rule start from to ≡ some dates
      → in_order dates ≡ true
