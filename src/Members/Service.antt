-- ===== src/Members/Service.antt =====
-- libs/memberships/src/application/services/memberships.service.ts.
-- The optional providers are `MEMBERSHIP_CACHE_NOTIFIER` and `SEAT_LIMIT_PROVIDER`; the activity log
-- and the legal audit keep what they are given. Log lines of the logger are left out.
use saas_backend_blueprint.Prelude.{
  ℕ, String, Bool, false, ◌==◌, leb, List, ◌∷◌, Option, none, some, forbidden, not_found, failure,
  Method, ◌>>=◌, ◌>>◌, return, throw, throw_if, modify, or_throw, if◌then◌else◌,
}
use saas_backend_blueprint.Platform.Table.{Table}
use saas_backend_blueprint.Access.Roles.{MembershipRole, includes_role}
use saas_backend_blueprint.Members.Model.{
  Uuid, Membership, CreateMembership, Activity, AuditEvent, clash,
}
use saas_backend_blueprint.Members.Logs.{
  new_row, created_activity, created_event, role_changed_activity, role_changed_event,
  deleted_activity, deleted_event,
}
use saas_backend_blueprint.Members.Repository

-- What the constructor is given.
pub record Providers : Type 1 where
  pub table : Table Membership clash
  pub Cache : Type 0
  -- `invalidate(userId, orgId)`
  pub cache_notifier : Option (Uuid → Uuid → Cache → Cache)
  -- `getMaxSeats(orgId)`
  pub seat_limit_provider : Option (Uuid → ℕ)

pub record World (Rows Cache : Type 0) : Type 0 where
  pub memberships : Rows
  pub cache : Cache
  pub activity : List Activity
  pub audit : List AuditEvent

-- `cacheNotifier?.invalidate(userId, orgId)`
abbrev pub notified {ℓ} : {C : Type ℓ} → Option (Uuid → Uuid → C → C) → Uuid → Uuid → C → C
notified none user org c = c
notified (some invalidate) user org c = invalidate user org c

-- A query that fails throws Prisma's error.
abbrev pub stored_in : {R C A : Type 0} → Option R → A → String → Method (World R C) A
stored_in none a code w = throw (failure code) w
stored_in (some rows) a code w = return a (record w { memberships = rows })

-- `if (membership?.orgId !== orgId) throw new NotFoundException('Membership not found');`
abbrev pub in_org : {S : Type 0} → Option Membership → Uuid → Method S Membership
in_org none org w = throw (not_found "Membership not found") w
in_org (some m) org w =
    if m.org_id == org then return m w else throw (not_found "Membership not found") w

module _ (p : Providers) where
  abbrev pub ServiceWorld : Type 0
  ServiceWorld = World p.table.State p.Cache

  check_seat_limit : Uuid → Method ServiceWorld (Unit {0})
  check_seat_limit org w = elim p.seat_limit_provider [
    | none ↦ return tt w
    | some get_max_seats ↦
        throw_if (leb (get_max_seats org) (Repository.count_active p.table org w.memberships))
          (forbidden "Seat limit reached") w
  ]

  log_activity : Activity → Method ServiceWorld (Unit {0})
  log_activity a = modify (λ w. record w { activity = a ∷ w.activity })

  record_event : AuditEvent → Method ServiceWorld (Unit {0})
  record_event e = modify (λ w. record w { audit = e ∷ w.audit })

  invalidate : Uuid → Uuid → Method ServiceWorld (Unit {0})
  invalidate user org =
      modify (λ w. record w { cache = notified p.cache_notifier user org w.cache })

  -- `id` is the one that the database draws.
  unfoldable pub create_membership :
      Uuid → Uuid → CreateMembership → Option Uuid → String → Method ServiceWorld Membership
  unfolding check_seat_limit log_activity record_event invalidate
  create_membership id org dto actor trigger w =
      let row = new_row id org dto in
      (do
        check_seat_limit org
        stored_in (Repository.create p.table row w.memberships) tt "P2002"
        invalidate dto.user_id org
        log_activity (created_activity id org dto actor)
        record_event (created_event id org dto actor trigger)
        return row)
        w

  unfoldable pub find_by_user_and_org : Uuid → Uuid → ServiceWorld → Option Membership
  unfolding Repository.find_by_user_and_org
  find_by_user_and_org user org w = Repository.find_by_user_and_org p.table user org w.memberships

  unfoldable pub activate_invited_memberships : Uuid → Method ServiceWorld (Unit {0})
  activate_invited_memberships user =
      modify
        (λ w. record w { memberships = Repository.activate_by_user_id p.table user w.memberships })

  unfoldable pub get_membership_or_throw : Uuid → Uuid → Method ServiceWorld Membership
  unfolding find_by_user_and_org
  get_membership_or_throw user org w =
      or_throw (find_by_user_and_org user org w)
        (forbidden "You do not have access to this organization") w

  unfoldable pub update_membership :
      Uuid → Uuid → MembershipRole → Option Uuid → String → Method ServiceWorld Membership
  unfolding log_activity record_event invalidate
  update_membership id org role actor trigger w =
      (do
        membership ← in_org (Repository.find_by_id p.table id w.memberships) org
        stored_in (Repository.update_role p.table id role w.memberships) tt "P2025"
        invalidate membership.user_id membership.org_id
        log_activity (role_changed_activity org membership role actor id)
        record_event (role_changed_event org membership role actor trigger id)
        return (record membership { role = role }))
        w

  unfoldable pub delete_membership :
      Uuid → Uuid → Option Uuid → String → Method ServiceWorld (Unit {0})
  unfolding log_activity record_event invalidate
  delete_membership id org actor trigger w =
      (do
        membership ← in_org (Repository.find_by_id p.table id w.memberships) org
        stored_in (Repository.delete p.table id w.memberships) tt "P2025"
        invalidate membership.user_id membership.org_id
        log_activity (deleted_activity org membership actor id)
        record_event (deleted_event org membership actor trigger id))
        w

  unfoldable pub has_role : Uuid → Uuid → List MembershipRole → ServiceWorld → Bool
  unfolding find_by_user_and_org
  has_role user org roles w = elim (find_by_user_and_org user org w) [
    | none ↦ false
    | some m ↦ includes_role roles m.role
  ]
