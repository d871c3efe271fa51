-- ===== src/Api/Defaults/Laws.antt =====
-- What defaulting keeps and what it fills in (api/v1beta1/heat_webhook.go).
use heat_operator.Base.{◌≡◌, ◌≢◌, ◌<◌, arith, eq_iff}
use heat_operator.Api.Types.{HeatSpec}
use heat_operator.Api.Defaults.{HeatDefaults, default_cluster, default_spec}

-- Defaults that SetupDefaults can install: no field is empty.
pub record IsFilled (d : HeatDefaults) : Type 0 where
  pub api : d.api_container_image_url ≢ ""
  pub cfn : d.cfn_api_container_image_url ≢ ""
  pub engine : d.engine_container_image_url ≢ ""
  pub age : 0 < d.db_purge_age
  pub schedule : d.db_purge_schedule ≢ ""

-- A spec that the controllers can work on.
pub record IsComplete (spec : HeatSpec) : Type 0 where
  pub cluster : spec.messaging_bus.cluster ≢ ""
  pub age : 0 < spec.db_purge.age
  pub schedule : spec.db_purge.schedule ≢ ""
  pub api : spec.heat_api.container_image ≢ ""
  pub cfn : spec.heat_cfn_api.container_image ≢ ""
  pub engine : spec.heat_engine.container_image ≢ ""

-- Defaulting a spec with non-empty defaults leaves no image, cluster or purge setting empty.
pub default_spec-IsComplete :
    (d : HeatDefaults) (spec : HeatSpec) → IsFilled d → IsComplete (default_spec d spec)
unfolding default_spec
default_spec-IsComplete d spec h = ground (
  arith,
  eq_iff spec.messaging_bus.cluster "",
  eq_iff spec.db_purge.schedule "",
  eq_iff spec.heat_api.container_image "",
  eq_iff spec.heat_cfn_api.container_image "",
  eq_iff spec.heat_engine.container_image "",
  eq_iff default_cluster "",
)

-- A spec that is complete already is returned as it is.
pub default_spec-of_IsComplete :
    (d : HeatDefaults) (spec : HeatSpec) → IsComplete spec → default_spec d spec ≡ spec
unfolding default_spec
default_spec-of_IsComplete d spec h = ground (
  arith,
  eq_iff spec.messaging_bus.cluster "",
  eq_iff spec.db_purge.schedule "",
  eq_iff spec.heat_api.container_image "",
  eq_iff spec.heat_cfn_api.container_image "",
  eq_iff spec.heat_engine.container_image "",
)
