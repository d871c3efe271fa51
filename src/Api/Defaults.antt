-- ===== src/Api/Defaults.antt =====
-- The defaulting half of api/v1beta1/heat_webhook.go. The package variable `heatDefaults` is an
-- argument; `setup_defaults` is the value that SetupDefaults of heat_types.go gives it.
pub mod Laws
use heat_operator.Base.{ℕ, String, ◌==◌, if◌then◌else◌, eqb}
use heat_operator.Api.Types.{HeatSpecBase, HeatSpec, HeatSpecCore}

pub record HeatDefaults : Type 0 where
  pub api_container_image_url : String
  pub cfn_api_container_image_url : String
  pub engine_container_image_url : String
  pub db_purge_age : ℕ
  pub db_purge_schedule : String

abbrev pub default_cluster : String
default_cluster = "rabbitmq"

-- (spec *HeatSpecBase) Default
unfoldable pub default_base : HeatDefaults → HeatSpecBase → HeatSpecBase
default_base d spec =
    let bus = spec.messaging_bus in
    let purge = spec.db_purge in
    record spec {
      messaging_bus = record bus {
        cluster = if bus.cluster == "" then default_cluster else bus.cluster;
      };
      db_purge = record purge {
        age = if eqb purge.age 0 then d.db_purge_age else purge.age;
        schedule = if purge.schedule == "" then d.db_purge_schedule else purge.schedule;
      };
    }

-- (spec *HeatSpec) Default
unfoldable pub default_spec : HeatDefaults → HeatSpec → HeatSpec
unfolding default_base
default_spec d spec =
    let api = spec.heat_api in
    let cfn = spec.heat_cfn_api in
    let engine = spec.heat_engine in
    record {
      base = default_base d spec.base;
      heat_api = record api {
        container_image =
            if api.container_image == "" then d.api_container_image_url else api.container_image;
      };
      heat_cfn_api = record cfn {
        container_image =
            if cfn.container_image == ""
            then d.cfn_api_container_image_url
            else cfn.container_image;
      };
      heat_engine = record engine {
        container_image =
            if engine.container_image == ""
            then d.engine_container_image_url
            else engine.container_image;
      };
    }

-- (spec *HeatSpecCore) Default
unfoldable pub default_core : HeatDefaults → HeatSpecCore → HeatSpecCore
unfolding default_base
default_core d spec = record spec { base = default_base d spec.base }

abbrev pub heat_api_container_image : String
heat_api_container_image = "quay.io/openstack-s2i-containers/openstack-heat-api:master-latest"

abbrev pub heat_engine_container_image : String
heat_engine_container_image = "quay.io/openstack-s2i-containers/openstack-heat-engine:master-latest"

-- SetupDefaults. `get_env_var` is util.GetEnvVar: the variable's name, and the fallback.
unfoldable pub setup_defaults : (get_env_var : String → String → String) → HeatDefaults
setup_defaults get_env_var = record {
  api_container_image_url =
      get_env_var "RELATED_IMAGE_HEAT_API_IMAGE_URL_DEFAULT" heat_api_container_image;
  cfn_api_container_image_url =
      get_env_var "RELATED_IMAGE_HEAT_API_IMAGE_URL_DEFAULT" heat_api_container_image;
  engine_container_image_url =
      get_env_var "RELATED_IMAGE_HEAT_ENGINE_IMAGE_URL_DEFAULT" heat_engine_container_image;
  db_purge_age = 30;
  db_purge_schedule = "1 0 * * *";
}
