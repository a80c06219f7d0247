-- ===== src/Features/Guard.antt =====
-- libs/feature-flags/src/guards/feature.guard.ts.
use saas_backend_blueprint.Prelude.{
  ℕ, String, Bool, true, Option, none, some, Method, forbidden, return, throw, ok,
}
use saas_backend_blueprint.Members.Model.{Uuid}
use saas_backend_blueprint.Features.Service
use saas_backend_blueprint.Features.Service.{Parts, State}

module _ (p : Parts) where
  -- `required` is what the route asks for, `org` the organization of the request.
  unfoldable pub can_activate : Option String → Option Uuid → ℕ → Method (State p) Bool
  can_activate none org now w = return true w
  can_activate (some feature) none now w =
      throw (forbidden "Organization context is required for feature-gated routes.") w
  can_activate (some feature) (some org) now w =
      let (enabled, w') = Service.check_feature p org feature now w in (ok enabled, w')
