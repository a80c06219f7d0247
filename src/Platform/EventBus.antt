-- ===== src/Platform/EventBus.antt =====
-- libs/events, as the services use it: `publish` of EventBusService hands an event to a transport, which
-- may throw (none).
use saas_backend_blueprint.Prelude.{Option, some}

pub record EventBus (E : Type 0) : Type 1 where
  pub State : Type 0
  pub publish : E → State → Option State

-- A transport in memory, which takes every event.
abbrev pub local : {E : Type 0} → EventBus E
local = record { State = Unit {0}; publish = λ e s. some s }
