-- ===== src/Features/Listener.antt =====
-- libs/feature-flags/src/feature-flags.service.ts: `onModuleInit`, the reaction to domain events.
use saas_backend_blueprint.Prelude.{
  String, str_eq, List, [], ◌∷◌, Option, none, some, any, if◌then◌else◌,
}
use saas_backend_blueprint.Members.Model.{Uuid}
use saas_backend_blueprint.Features.Service
use saas_backend_blueprint.Features.Service.{Parts, State}

abbrev pub listened_events : List String
listened_events =
    "subscription.plan.changed" ∷ "billing.subscription.cancelled" ∷ "subscription.activated"
    ∷ "subscription.expired" ∷ []

module _ (p : Parts) where
  -- An event of the local transport, with the organization of its payload.
  unfoldable pub handle_event : String → Option Uuid → State p → State p
  handle_event event none w = w
  handle_event event (some org) w =
      if any (λ e. str_eq e event) listened_events
      then Service.invalidate_entitlements p org w
      else w
