-- ===== src/Prelude/Laws.antt =====
-- The laws of the list helpers.
use mathlib.Core.Option
use saas_backend_blueprint.Prelude.Tests.{◌==◌, if◌then◌else◌}
use Prim.Native.Nat.{ℕ, ◌+◌, ◌≤◌}
use mathlib.Core.Path.{◌≡◌, refl}
use mathlib.Core.Bool.{Bool, true, false, not, ◌||◌}
use mathlib.Core.Option.{none, some}
use mathlib.Core.List.{List, [], ◌∷◌, ◌++◌}
use native.Mathlib.Omega.{arith}
use saas_backend_blueprint.Prelude.Lists.{where_, find, count, any, update_where, delete_where}

module _ {ℓ} {A : Type ℓ} where
  pub count-append : (p : A → Bool) (xs ys : List A) → count p (xs ++ ys) ≡ count p xs + count p ys
  count-append p [] ys = omega arith
  count-append p (x ∷ xs) ys = ground (arith, count-append p xs ys)

  pub where_-append :
      (p : A → Bool) (xs ys : List A) → where_ p (xs ++ ys) ≡ where_ p xs ++ where_ p ys
  where_-append p [] ys = refl
  where_-append p (x ∷ xs) ys = ground (arith, where_-append p xs ys)

  pub any-append : (p : A → Bool) (xs ys : List A) → any p (xs ++ ys) ≡ (any p xs || any p ys)
  any-append p [] ys = refl
  any-append p (x ∷ xs) ys = ground (arith, any-append p xs ys)

  -- A change of rows that the test does not see keeps the count.
  pub count-update_where :
      (p chosen : A → Bool) (f : A → A) (xs : List A)
      → ((x : A) → chosen x ≡ true → p (f x) ≡ p x)
      → count p (update_where chosen f xs) ≡ count p xs
  count-update_where p chosen f [] h = refl
  count-update_where p chosen f (x ∷ xs) h = ground (arith, h x, count-update_where p chosen f xs h)

  pub count-delete_where-le :
      (p chosen : A → Bool) (xs : List A) → count p (delete_where chosen xs) ≤ count p xs
  count-delete_where-le p chosen [] = omega arith
  count-delete_where-le p chosen (x ∷ xs) = ground (arith, count-delete_where-le p chosen xs)

  pub update_where-none :
      (p : A → Bool) (f : A → A) (xs : List A) → any p xs ≡ false → update_where p f xs ≡ xs
  update_where-none p f [] h = refl
  update_where-none p f (x ∷ xs) h = ground (arith, update_where-none p f xs)

  pub delete_where-none : (p : A → Bool) (xs : List A) → any p xs ≡ false → delete_where p xs ≡ xs
  delete_where-none p [] h = refl
  delete_where-none p (x ∷ xs) h = ground (arith, delete_where-none p xs)

  pub find-none_iff-any : (p : A → Bool) (xs : List A) → find p xs ≡ none → any p xs ≡ false
  find-none_iff-any p [] h = refl
  find-none_iff-any p (x ∷ xs) h = ground (arith, find-none_iff-any p xs)

  pub find_sound : (p : A → Bool) (xs : List A) {a : A} → find p xs ≡ some a → p a ≡ true
  find_sound p [] h = cc
  find_sound p (x ∷ xs) {a} h = ground (arith, find_sound p xs {a = a})

  pub any-delete_where : (p : A → Bool) (xs : List A) → any p (delete_where p xs) ≡ false
  any-delete_where p [] = refl
  any-delete_where p (x ∷ xs) = ground (arith, any-delete_where p xs)

  pub find-delete_where : (p : A → Bool) (xs : List A) → find p (delete_where p xs) ≡ none
  find-delete_where p [] = refl
  find-delete_where p (x ∷ xs) = ground (arith, find-delete_where p xs)

  abbrev pub is_empty : List A → Bool
  is_empty [] = true
  is_empty (x ∷ xs) = false

  pub any-where_ : (p : A → Bool) (xs : List A) → any p xs ≡ not (is_empty (where_ p xs))
  any-where_ p [] = refl
  any-where_ p (x ∷ xs) = ground (arith, any-where_ p xs)

  pub find-append :
      (p : A → Bool) (xs ys : List A)
      → find p (xs ++ ys) ≡ elim (find p xs) [ none ↦ find p ys | some a ↦ some a ]
  find-append p [] ys = refl
  find-append p (x ∷ xs) ys = ground (arith, find-append p xs ys)

  -- What a change of the element with one key does to the element with another, or the same.
  pub find-update_where :
      (key : A → ℕ) (k j : ℕ) (f : A → A) (xs : List A)
      → ((x : A) → key (f x) ≡ key x)
      → find (λ x. key x == k) (update_where (λ x. key x == j) f xs)
        ≡ (if k == j then Option.map f (find (λ x. key x == k) xs) else find (λ x. key x == k) xs)
  find-update_where key k j f [] h = ground arith
  find-update_where key k j f (x ∷ xs) h = ground (arith, h x, find-update_where key k j f xs h)
