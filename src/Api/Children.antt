-- ===== src/Api/Children.antt =====
-- The specs of the three children (heatapi_types.go, heatcfnapi_types.go, heatengine_types.go of
-- api/v1beta1), each with its own fields.
use heat_operator.Base.{String, Option}
use heat_operator.Api.Types.{HeatTemplate, HeatApiTemplate, HeatEngineTemplate}

pub record HeatApiSpec : Type 0 where
  pub database_hostname : String
  pub transport_url_secret : String
  pub service_account : String
  pub heat_template : HeatTemplate
  pub heat_api_template : HeatApiTemplate
  pub memcached_instance : Option String

pub record HeatCfnApiSpec : Type 0 where
  pub database_hostname : String
  pub transport_url_secret : String
  pub service_account : String
  pub heat_template : HeatTemplate
  pub heat_cfn_api_template : HeatApiTemplate
  pub memcached_instance : Option String

-- tls.Ca has the name of the CA bundle alone.
pub record HeatEngineSpec : Type 0 where
  pub database_hostname : String
  pub transport_url_secret : String
  pub service_account : String
  pub ca_bundle_secret_name : String
  pub heat_template : HeatTemplate
  pub heat_engine_template : HeatEngineTemplate
  pub memcached_instance : Option String
