-- ===== src/Planning/Exceptions.antt =====
-- The lists of exceptions that a split writes: `splitSeries` of
-- libs/planning/src/infrastructure/repositories/planning.repository.ts.
use mathlib.Core.Option
use saas_backend_blueprint.Prelude.{
  ℕ, ◌≡◌, ◌≢◌, refl, true, ◌&&◌, leb, ◌==◌, List, [], ◌∷◌, ◌++◌, map, inl, inr, any, find,
  find-append, none, where_, delete_where, insert_all, arith, Bool-cases, if◌then◌else◌,
}
use saas_backend_blueprint.Planning.Model.{EventException, exception_clash}
use saas_backend_blueprint.Planning.Recurrence.{or_else}
use saas_backend_blueprint.Planning.Store.{exception_of_event}
use saas_backend_blueprint.Planning.Repository.{exception_from, exception_to, is_exception_at}

-- A row that clashes with one that is there has its event and date.
clash_same :
    (ev x : ℕ) (n : EventException) (old : List EventException)
    → any (exception_clash n) old ≡ true
    → is_exception_at ev x n ≡ true
    → find (is_exception_at ev x) old ≢ none
clash_same ev x n [] h same = λ e. ground (arith, h)
clash_same ev x n (o ∷ old) h same = λ e. ground (arith, h, same, e, clash_same ev x n old)

-- The row of a date among the added rows is the old one, where there is one.
pub find-insert_all :
    (ev x : ℕ) (new old : List EventException)
    → find (is_exception_at ev x) (insert_all exception_clash new old)
      ≡ or_else (find (is_exception_at ev x) old) (find (is_exception_at ev x) new)
find-insert_all ev x [] old = ground arith
find-insert_all ev x (n ∷ new) old = elim (Bool-cases (any (exception_clash n) old)) [
  | inl clash ↦ ground (arith, clash, find-insert_all ev x new old, clash_same ev x n old clash)
  | inr free ↦ ground (
    arith,
    free,
    find-insert_all ev x new (old ++ n ∷ []),
    find-append (is_exception_at ev x) old (n ∷ []),
  )
]

pub find-delete_from :
    (ev x event split : ℕ) (xs : List EventException)
    → find (is_exception_at ev x) (delete_where (exception_from event split) xs)
      ≡ (if ev == event && leb split x then none else find (is_exception_at ev x) xs)
find-delete_from ev x event split [] = ground arith
find-delete_from ev x event split (e ∷ xs) = ground (arith, find-delete_from ev x event split xs)

-- The exceptions of an event from a point on, as the read with the event gives them.
abbrev pub from_point : ℕ → ℕ → List EventException → List EventException
from_point event split xs =
    where_ (λ x. leb split x.original_start_utc) (where_ (exception_of_event event) xs)

pub find-moved :
    (ev x event split id : ℕ) (xs : List EventException)
    → find (is_exception_at ev x) (map (exception_to id) (from_point event split xs)) ≡ (
        if ev == id && leb split x
        then Option.map (exception_to id) (find (is_exception_at event x) xs)
        else none)
find-moved ev x event split id [] = ground arith
find-moved ev x event split id (e ∷ xs) = ground (arith, find-moved ev x event split id xs)

pub find-from_point :
    (x event split : ℕ) (xs : List EventException)
    → from_point event split xs ≡ []
    → leb split x ≡ true
    → find (is_exception_at event x) xs ≡ none
find-from_point x event split [] h le = refl
find-from_point x event split (e ∷ xs) h le =
    ground (arith, h, le, find-from_point x event split xs)
