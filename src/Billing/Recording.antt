-- ===== src/Billing/Recording.antt =====
-- What the synchronization of a subscription records:
-- libs/billing/src/application/services/subscription.service.ts.
use saas_backend_blueprint.Prelude.{Option, String, ◌≡◌, ◌∷◌, none, some, ok, err, Result, find}
use saas_backend_blueprint.Platform.Table.{Table}
use saas_backend_blueprint.Platform.EventBus.{EventBus}
use saas_backend_blueprint.Billing.Model.{
  Snapshot, Organization, clash, Entry, Subscription, SyncResult,
}
use saas_backend_blueprint.Billing.Repository
use saas_backend_blueprint.Billing.Repository.{has_org_id}
use saas_backend_blueprint.Billing.Subscription
use saas_backend_blueprint.Billing.Subscription.{State, checked_out, entry, is_cancellation}
use saas_backend_blueprint.Billing.Webhooks.{kept_for, rows}

module _ (table : Table Organization clash) (event_suffix : String → String)
    (bus : EventBus Entry) where
  -- The row and the snapshot of an organization after a synchronization.
  pub record IsSynced (s : Subscription) (o : Organization) (w w' : State table event_suffix bus)
      : Type 0 where
    pub row : Organization
    pub snapshot : Snapshot
    pub stored : find (has_org_id o.id) (rows table event_suffix bus w') ≡ some row
    pub appended : w'.snapshots ≡ snapshot ∷ w.snapshots
    pub subscription : row.subscription_id ≡ some s.id
    pub status : kept_for row.billing_status ≡ s.status
    pub plan : row.plan_id ≡ elim s.price_item [ none ↦ none | some i ↦ i.price_id ]
    pub ending : row.cancel_at_period_end ≡ s.cancel_at_period_end
    pub snapshot_org : snapshot.org_id ≡ o.id
    pub snapshot_subscription : some snapshot.stripe_subscription_id ≡ row.subscription_id
    pub snapshot_status : snapshot.status ≡ s.status
    pub snapshot_plan : snapshot.plan_id ≡ row.plan_id

  abbrev pub IsRecorded :
      Subscription
      → Option Organization
      → State table event_suffix bus
      → Result (Option SyncResult) × State table event_suffix bus
      → Type 0
  IsRecorded s none w r = r ≡ (ok none, w)
  IsRecorded s (some o) w (ok r, after) = IsSynced s o w after
  IsRecorded s (some o) w (err x, after) = after ≡ w
