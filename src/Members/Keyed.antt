-- ===== src/Members/Keyed.antt =====
-- The primary key of the memberships table: no two rows have one id.
use saas_backend_blueprint.Prelude.{
  ◌≡◌, refl, ◌≢◌, Bool, false, List, [], ◌∷◌, ◌++◌, some, arith, any, find, where_, update_where,
  delete_where, any-append, update_where-none, delete_where-none,
}
use saas_backend_blueprint.Members.Model.{Uuid, Membership, clash}
use saas_backend_blueprint.Members.Repository.{has_id, of_org}

abbrev pub Keyed : List Membership → Type 0
Keyed [] = Unit {0}
Keyed (m ∷ ms) = (any (has_id m.id) ms ≡ false) × Keyed ms

any-update_where :
    (id : Uuid) (chosen : Membership → Bool) (f : Membership → Membership) (ms : List Membership)
    → ((m : Membership) → (f m).id ≡ m.id)
    → any (has_id id) (update_where chosen f ms) ≡ any (has_id id) ms
any-update_where id chosen f [] h = refl
any-update_where id chosen f (m ∷ ms) h = ground (arith, h m, any-update_where id chosen f ms h)

pub Keyed-update_where :
    (chosen : Membership → Bool) (f : Membership → Membership) (ms : List Membership)
    → ((m : Membership) → (f m).id ≡ m.id)
    → Keyed ms
    → Keyed (update_where chosen f ms)
Keyed-update_where chosen f [] h k = tt
Keyed-update_where chosen f (m ∷ ms) h (new, k) =
    (ground (arith, h m, any-update_where m.id chosen f ms h), Keyed-update_where chosen f ms h k)

any-delete_where-false :
    (id : Uuid) (chosen : Membership → Bool) (ms : List Membership)
    → any (has_id id) ms ≡ false
    → any (has_id id) (delete_where chosen ms) ≡ false
any-delete_where-false id chosen [] h = refl
any-delete_where-false id chosen (m ∷ ms) h = ground (arith, any-delete_where-false id chosen ms)

pub Keyed-delete_where :
    (chosen : Membership → Bool) (ms : List Membership) → Keyed ms → Keyed (delete_where chosen ms)
Keyed-delete_where chosen [] k = tt
Keyed-delete_where chosen (m ∷ ms) (new, k) =
    ground (arith, any-delete_where-false m.id chosen ms new, Keyed-delete_where chosen ms k)

pub Keyed-append :
    (m : Membership) (ms : List Membership)
    → any (clash m) ms ≡ false
    → Keyed ms
    → Keyed (ms ++ m ∷ [])
Keyed-append m [] h k = (refl, tt)
Keyed-append m (n ∷ ns) h (new, k) =
    (ground (arith, any-append (has_id n.id) ns (m ∷ [])), Keyed-append m ns (ground arith) k)

-- The row with an id is of one organization: the rows of the others are not touched by a change of it.
module _ (id org other : Uuid) (ne : other ≢ org) where
  pub where_-update_where :
      (f : Membership → Membership) (ms : List Membership) {m : Membership}
      → ((n : Membership) → (f n).org_id ≡ n.org_id)
      → Keyed ms
      → find (has_id id) ms ≡ some m
      → m.org_id ≡ org
      → where_ (of_org other) (update_where (has_id id) f ms) ≡ where_ (of_org other) ms
  where_-update_where f [] h k e o = refl
  where_-update_where f (n ∷ ns) {m} h (new, k) e o =
      ground (arith, h n, update_where-none (has_id id) f ns, where_-update_where f ns {m = m} h k)

  pub where_-delete_where :
      (ms : List Membership) {m : Membership}
      → Keyed ms
      → find (has_id id) ms ≡ some m
      → m.org_id ≡ org
      → where_ (of_org other) (delete_where (has_id id) ms) ≡ where_ (of_org other) ms
  where_-delete_where [] k e o = refl
  where_-delete_where (n ∷ ns) {m} (new, k) e o =
      ground (arith, delete_where-none (has_id id) ns, where_-delete_where ns {m = m} k)
