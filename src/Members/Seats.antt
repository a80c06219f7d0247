-- ===== src/Members/Seats.antt =====
-- The seat limit of an organization.
use saas_backend_blueprint.Prelude.{
  ℕ, ◌≤◌, String, ◌≡◌, refl, ◌↔◌, List, [], ◌∷◌, Option, some, arith, err, forbidden, count,
  count-append, count-update_where, count-delete_where-le,
}
use saas_backend_blueprint.Members.Model.{Uuid, CreateMembership, active}
use saas_backend_blueprint.Members.Repository
use saas_backend_blueprint.Members.Repository.{takes_seat, has_id, is_invited_user}
use saas_backend_blueprint.Members.Logs.{new_row}
use saas_backend_blueprint.Members.Service
use saas_backend_blueprint.Members.Service.{Providers, ServiceWorld}
use saas_backend_blueprint.Members.Calls.{Call, creates, updates, deletes, activates, step, run}

module _ (p : Providers) where
  -- The seats that an organization uses: its active and invited members.
  abbrev pub seats : Uuid → ServiceWorld p → ℕ
  seats org w = count (takes_seat org) (p.table.rows w.memberships)

module _ (p : Providers) (get_max_seats : Uuid → ℕ)
    (limited : p.seat_limit_provider ≡ some get_max_seats) where
  create-seats :
      (id org : Uuid) (dto : CreateMembership) (actor : Option Uuid) (trigger : String)
      (w : ServiceWorld p) (o : Uuid)
      → seats p o w ≤ get_max_seats o
      → seats p o (Service.create_membership p id org dto actor trigger w).1 ≤ get_max_seats o
  unfolding Service.create_membership Repository.count_active Repository.create
  create-seats id org dto actor trigger w o h = ground (
    arith,
    limited,
    p.table.create_law (new_row id org dto) w.memberships,
    p.table.count_rows_law (takes_seat org) w.memberships,
    count-append (takes_seat o) (p.table.rows w.memberships) (new_row id org dto ∷ []),
  )

  step-seats :
      (c : Call) (w : ServiceWorld p) (o : Uuid)
      → seats p o w ≤ get_max_seats o
      → seats p o (step p c w) ≤ get_max_seats o
  unfolding step Service.update_membership Service.delete_membership
      Service.activate_invited_memberships Repository.update_role Repository.delete
      Repository.activate_by_user_id
  step-seats (creates id org dto actor trigger) w o h = create-seats id org dto actor trigger w o h
  step-seats (updates id org role actor trigger) w o h = ground (
    arith,
    p.table.update_law (has_id id) (λ m. record m { role = role }) w.memberships,
    count-update_where (takes_seat o) (has_id id) (λ m. record m { role = role })
        (p.table.rows w.memberships) (λ x e. refl),
  )
  step-seats (deletes id org actor trigger) w o h = ground (
    arith,
    p.table.delete_law (has_id id) w.memberships,
    count-delete_where-le (takes_seat o) (has_id id) (p.table.rows w.memberships),
  )
  step-seats (activates user) w o h = ground (
    arith,
    p.table.update_many_law (is_invited_user user) (λ m. record m { status = active })
        w.memberships,
    count-update_where (takes_seat o) (is_invited_user user) (λ m. record m { status = active })
        (p.table.rows w.memberships) (λ x e. ground arith),
  )

  -- With a seat limit provider, an organization within its limit stays within it, whatever calls of
  -- the writing methods are made, in any order.
  pub run-seats :
      (cs : List Call) (w : ServiceWorld p) (o : Uuid)
      → seats p o w ≤ get_max_seats o
      → seats p o (run p cs w) ≤ get_max_seats o
  unfolding run
  run-seats [] w o h = h
  run-seats (c ∷ cs) w o h = run-seats cs (step p c w) o (step-seats c w o h)

  -- A membership is refused for want of a seat exactly when the organization has as many active and
  -- invited members as its limit, and then nothing is changed.
  pub create_membership-full :
      (id org : Uuid) (dto : CreateMembership) (actor : Option Uuid) (trigger : String)
      (w : ServiceWorld p)
      → (Service.create_membership p id org dto actor trigger w
          ≡ (err (forbidden "Seat limit reached"), w))
        ↔ (get_max_seats org ≤ seats p org w)
  unfolding Service.create_membership Repository.count_active Repository.create
  create_membership-full id org dto actor trigger w = ground (
    arith,
    limited,
    p.table.create_law (new_row id org dto) w.memberships,
    p.table.count_rows_law (takes_seat org) w.memberships,
  )
