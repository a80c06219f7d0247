-- ===== src/Members/Calls.antt =====
-- Sequences of calls of MembershipsService's writing methods, in any order.
use saas_backend_blueprint.Prelude.{String, ◌≡◌, List, [], ◌∷◌, Option}
use saas_backend_blueprint.Access.Roles.{MembershipRole}
use saas_backend_blueprint.Members.Model.{Uuid, CreateMembership}
use saas_backend_blueprint.Members.Service
use saas_backend_blueprint.Members.Service.{Providers, ServiceWorld}

pub data Call : Type 0 where
  creates : Uuid → Uuid → CreateMembership → Option Uuid → String → Call
  updates : Uuid → Uuid → MembershipRole → Option Uuid → String → Call
  deletes : Uuid → Uuid → Option Uuid → String → Call
  activates : Uuid → Call

-- The organization that a call is made for; activation is of a user, in all of them.
abbrev pub IsFor : Uuid → Call → Type 0
IsFor o (creates id org dto actor trigger) = o ≡ org
IsFor o (updates id org role actor trigger) = o ≡ org
IsFor o (deletes id org actor trigger) = o ≡ org
IsFor o (activates user) = ⊥

abbrev pub AllFor : Uuid → List Call → Type 0
AllFor o [] = Unit {0}
AllFor o (c ∷ cs) = IsFor o c × AllFor o cs

module _ (p : Providers) where
  -- A call that throws leaves what it had written.
  unfoldable pub step : Call → ServiceWorld p → ServiceWorld p
  step (creates id org dto actor trigger) w =
      (Service.create_membership p id org dto actor trigger w).1
  step (updates id org role actor trigger) w =
      (Service.update_membership p id org role actor trigger w).1
  step (deletes id org actor trigger) w = (Service.delete_membership p id org actor trigger w).1
  step (activates user) w = (Service.activate_invited_memberships p user w).1

  unfoldable pub run : List Call → ServiceWorld p → ServiceWorld p
  run [] w = w
  run (c ∷ cs) w = run cs (step c w)
