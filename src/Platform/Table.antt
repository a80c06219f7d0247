-- ===== src/Platform/Table.antt =====
-- A model of the Prisma client (`prisma.membership`, `prisma.user`, …): the calls that the
-- repositories make, over an abstract state of the table. A `where` clause is a Boolean test on rows,
-- a `data` clause a function on rows. `rows` is the content of the table, which no code reads: the
-- laws, Prisma's documented behaviour, are stated with it. Every query reaches the database.
use mathlib.Core.Option
use saas_backend_blueprint.Prelude.{
  ℕ, ◌≡◌, refl, Bool, List, [], ◌∷◌, ◌++◌, Option, none, some, any, find, where_, count, sum_of,
  update_where, delete_where, insert_all, if◌then◌else◌,
}

-- `clash r q`: the unique constraints of the schema do not admit `r` beside `q`.
pub record Table (Row : Type 0) (clash : Row → Row → Bool) : Type 1 where
  pub State : Type 0
  pub rows : State → List Row
  -- `findUnique`, `findFirst`
  pub find_first : (Row → Bool) → State → Option Row
  pub find_many : (Row → Bool) → State → List Row
  pub count_rows : (Row → Bool) → State → ℕ
  -- `aggregate` with `_sum`, where null stands for no value; 0 where the sum is null
  pub sum_rows : (Row → Bool) → (Row → Option ℕ) → State → ℕ
  -- `create`; none is error P2002, a unique constraint failed
  pub create : Row → State → Option State
  -- `update` by a unique key; none is error P2025, the record was not found
  pub update : (Row → Bool) → (Row → Row) → State → Option State
  -- `update` that writes a unique column; none is P2025 or P2002
  pub update_unique : (Row → Bool) → (Row → Row) → State → Option State
  pub update_many : (Row → Bool) → (Row → Row) → State → State
  -- `upsert` by a unique key: the row is updated, or created where there is none
  pub upsert : (Row → Bool) → Row → (Row → Row) → State → State
  -- `createMany` with `skipDuplicates`
  pub create_many : List Row → State → State
  -- `delete` by a unique key; none is error P2025
  pub delete : (Row → Bool) → State → Option State
  pub delete_many : (Row → Bool) → State → State
  pub find_first_law : (p : Row → Bool) (s : State) → find_first p s ≡ find p (rows s)
  pub find_many_law : (p : Row → Bool) (s : State) → find_many p s ≡ where_ p (rows s)
  pub count_rows_law : (p : Row → Bool) (s : State) → count_rows p s ≡ count p (rows s)
  pub sum_rows_law :
      (p : Row → Bool) (f : Row → Option ℕ) (s : State) → sum_rows p f s ≡ sum_of p f (rows s)
  pub create_law :
      (r : Row) (s : State)
      → Option.map rows (create r s)
        ≡ (if any (clash r) (rows s) then none else some (rows s ++ r ∷ []))
  pub update_law :
      (p : Row → Bool) (f : Row → Row) (s : State)
      → Option.map rows (update p f s)
        ≡ Option.map (λ _. update_where p f (rows s)) (find p (rows s))
  pub update_unique_law :
      (p : Row → Bool) (f : Row → Row) (s : State)
      → Option.map rows (update_unique p f s)
        ≡ Option.map (λ _. update_where p f (rows s)) (update_unique p f s)
  pub update_many_law :
      (p : Row → Bool) (f : Row → Row) (s : State)
      → rows (update_many p f s) ≡ update_where p f (rows s)
  pub upsert_law :
      (p : Row → Bool) (r : Row) (f : Row → Row) (s : State)
      → rows (upsert p r f s)
        ≡ (if any p (rows s) then update_where p f (rows s) else rows s ++ r ∷ [])
  pub create_many_law :
      (rs : List Row) (s : State) → rows (create_many rs s) ≡ insert_all clash rs (rows s)
  pub delete_law :
      (p : Row → Bool) (s : State)
      → Option.map rows (delete p s) ≡ Option.map (λ _. delete_where p (rows s)) (find p (rows s))
  pub delete_many_law :
      (p : Row → Bool) (s : State) → rows (delete_many p s) ≡ delete_where p (rows s)

-- A table that is the list of its rows meets the laws.
module _ {Row : Type 0} (clash : Row → Row → Bool) where
  abbrev pub on_found : Option Row → List Row → Option (List Row)
  on_found none rows = none
  on_found (some r) rows = some rows

  pub on_found_law :
      (o : Option Row) (rs : List Row)
      → Option.map (λ (rs : List Row). rs) (on_found o rs) ≡ Option.map (λ _. rs) o
  on_found_law none rs = refl
  on_found_law (some r) rs = refl

  pub on_found_twice_law :
      (o : Option Row) (rs : List Row)
      → Option.map (λ (rs : List Row). rs) (on_found o rs) ≡ Option.map (λ _. rs) (on_found o rs)
  on_found_twice_law none rs = refl
  on_found_twice_law (some r) rs = refl

  pub create_list_law :
      (b : Bool) (rs : List Row)
      → Option.map (λ (rs : List Row). rs) (if b then none else some rs)
        ≡ (if b then none else some rs)
  create_list_law Bool.true rs = refl
  create_list_law Bool.false rs = refl

  abbrev pub list_table : Table Row clash
  list_table = record {
    State = List Row;
    rows = λ s. s;
    find_first = find;
    find_many = where_;
    count_rows = count;
    sum_rows = sum_of;
    create = λ r s. if any (clash r) s then none else some (s ++ r ∷ []);
    update = λ p f s. on_found (find p s) (update_where p f s);
    update_unique = λ p f s. on_found (find p s) (update_where p f s);
    update_many = update_where;
    upsert = λ p r f s. if any p s then update_where p f s else s ++ r ∷ [];
    create_many = insert_all clash;
    delete = λ p s. on_found (find p s) (delete_where p s);
    delete_many = delete_where;
    find_first_law = λ p s. refl;
    find_many_law = λ p s. refl;
    count_rows_law = λ p s. refl;
    sum_rows_law = λ p f s. refl;
    create_law = λ r s. create_list_law (any (clash r) s) (s ++ r ∷ []);
    update_law = λ p f s. on_found_law (find p s) (update_where p f s);
    update_unique_law = λ p f s. on_found_twice_law (find p s) (update_where p f s);
    update_many_law = λ p f s. refl;
    upsert_law = λ p r f s. refl;
    create_many_law = λ rs s. refl;
    delete_law = λ p s. on_found_law (find p s) (delete_where p s);
    delete_many_law = λ p s. refl;
  }
